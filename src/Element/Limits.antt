-- ===== src/Element/Limits.antt =====
-- serializers/records.py `RRsetSerializer`: what an RR set that passes its validation is like.
use desec_stack.Common.{
  ℕ, ◌+◌, ◌*◌, ◌≤◌, String, ◌≡◌, sym, ◌∙◌, ◌⊎◌, inl, inr, Bool, true, false, none, some, List, [],
  map, ◌==◌, nat_eq, string_eq, pair_eq, option_eq, ok, length, In, member, is_distinct,
}
use Prim.Native.String.{len}
use desec_stack.Db.{RRset}
use desec_stack.Context.Data.{construct_name}
use desec_stack.Element.{Attrs, Setting, Services, type_of, check_permission}
use desec_stack.Element.Validate.{run_validation}
use desec_stack.Element.Steps.{run_validation-IsRun, validate-IsValidated}
use desec_stack.Element.Checks.{type_of_same, checked_records-IsFrom, run_validation-IsTested}
use desec_stack.Element.Content.{
  text_total, or_else, wire_distinct, size_text, type_of-parts, check_permission-parts, unlocked,
  unblocked,
}

-- An RR set of that type and subname that the token may write and the domain can hold. What is not sent
-- is that of the RR set that is there, or the subname of the path.
pub record IsAccepted (s : Services) (c : Setting) (a : Attrs) : Type 0 where
  pub type : String
  pub type_sent : (v : String) → a.type ≡ some v → (v == "") ≡ false → type ≡ v
  pub type_stored : a.type ≡ none → (r : RRset) × (c.instance_of ≡ some r) × (type ≡ r.item.0)
  pub subname : String
  pub named : (a.subname ≡ some subname) ⊎ ((a.subname ≡ none) × (c.view_subname ≡ some subname))
  pub permitted : s.permits (type, subname) ≡ true
  pub managed : (v : String) → a.type ≡ some v → member v c.manageable ≡ true
  pub timed : (ttl : ℕ) → a.ttl ≡ some ttl → (c.minimum_ttl ≤ ttl) × (ttl ≤ c.maximum_ttl)
  pub sized :
      (records : List String)
      → a.records ≡ some records
      → 288
          + len (construct_name (or_else a.subname "") c.domain)
          + 12 * length records
          + text_total records
        ≤ 65535
  pub distinct :
      (records : List String)
      → a.records ≡ some records
      → is_distinct (map (s.to_wire type) records) ≡ true
  pub unblocked :
      (records : List String)
      → a.records ≡ some records
      → type ≡ "A"
      → c.is_locally_registrable ≡ true
      → (content : String) → In content records
      → s.is_blocked content ≡ false
  pub unlocked :
      type ≡ "NS"
      → c.is_locally_registrable ≡ true
      → (a.records ≡ some [])
        × (r : RRset) × (c.instance_of ≡ some r)
        × ((or_else a.subname r.item.1 == "") ≡ false)

-- The token permits what an RR set is for after validation, as it does before.
permission :
    (s : Services) (c : Setting) (read a : Attrs) (type : String)
    → check_permission s c read ≡ ok tt
    → type_of c a ≡ ok type
    → a.type ≡ read.type
    → a.subname ≡ read.subname
    → (subname : String) × ((a.subname ≡ some subname)
        ⊎ ((a.subname ≡ none) × (c.view_subname ≡ some subname)))
      × (s.permits (type, subname) ≡ true)
permission s c read a type h t e f =
    let (subname, named, permitted) =
      check_permission-parts s c read type h (type_of_same c read a (sym e) ∙ t) in
    (subname, elim named [ inl g ↦ inl (f ∙ g) | inr (g, i) ↦ inr (f ∙ g, i) ], permitted)

-- An RR set that passes validation is `IsAccepted`: the token permits its type and the subname that is
-- sent, or that of the path where none is; a type that is sent is manageable; a TTL that is sent is within
-- the limits; records that are sent are distinct on the wire, of no more than 65535 bytes by the
-- conservative count, and not blocked where they are the addresses of a locally registrable domain; an NS
-- set of a locally registrable domain is there already, away from the apex, and left without records.
pub run_validation-IsAccepted :
    (is_taken : Setting → Attrs → Bool) (s : Services) (c : Setting) (sent a : Attrs)
    → run_validation is_taken s c sent ≡ ok a
    → IsAccepted s c a
run_validation-IsAccepted is_taken s c sent a h =
    let t = run_validation-IsTested is_taken s c sent a h in
    let run = run_validation-IsRun is_taken s c sent h in
    let v = validate-IsValidated s c run.read run.validated in
    let f = checked_records-IsFrom s c v.type run.read v.checked in
    let (type_sent, type_stored) = type_of-parts c a t.type t.typed in
    let (subname, named, permitted) =
      permission s c run.read a t.type run.permission t.typed f.same_type f.same_subname in
    record {
      type = t.type;
      type_sent = type_sent;
      type_stored = type_stored;
      subname = subname;
      named = named;
      permitted = permitted;
      managed = t.managed;
      timed = t.timed;
      sized = λ records e. size_text c a.subname records (t.sized records e);
      distinct = λ records e. wire_distinct s t.type records (t.distinct records e);
      unblocked = λ records e. unblocked s c t.type records (t.unblocked records e);
      unlocked = unlocked c t.type a t.unlocked;
    }
