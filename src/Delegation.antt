-- ===== src/Delegation.antt =====
-- models/domains.py `Domain.update_delegation` and views/domains.py, which calls it when a domain is
-- created or deleted below a local public suffix; models/records.py `RRsetManager.create`. The keys of
-- a domain, which the name server makes, are a parameter.
pub mod Rows
pub mod Published
pub mod Destroyed
pub mod Domains
use desec_stack.Common.{
  ℕ, zero, suc, ◌+◌, ◌-◌, ◌*◌, ◌/◌, ◌%◌, ◌^◌, ◌≤◌, ◌<◌, String, ◌≡◌, refl, sym, ap, ◌∙◌, ◌≢◌, ◌↔◌,
  ◌⊎◌, inl, inr, Bool, true, false, not, xor, ◌&&◌, ◌||◌, Option, none, some, List, [], ◌∷◌, ◌++◌,
  map, arith, ltb, leb, nat_beq, nat_beq_iff, leb→le, ltb→lt, if◌then◌else◌, Bool-cases, differ,
  Option-cases, Eq, ◌==◌, ==_iff, ==_refl, nat_eq, string_eq, pair_eq, option_eq, Result, ok, err,
  ◌>>=◌, ◌>>◌, raise_if, succeeds, >>=-eq-ok, >>=-eq-err, Result-cases, passed, ok_same, length,
  keep, any, all, is_empty, length-append, length-keep-le, any-append, In, In-append_left,
  In-append_right, In-map, In-map_inv, In-keep, keep-In, any-In, In-any, any_mono, In-member,
  member-In, member, add, discard, union, difference, intersection, to_set, member-keep,
  member-append, member-add, member-discard, member-union, member-difference, member-intersection,
  member-to_set, is_empty_of_no_member, member-is_empty, is_distinct, is_distinct-keep,
  is_distinct-append, is_distinct-to_set, set_laws, Dict, get, put, pop, keys, get-put, get-pop,
  keys-get-none, member-keys-put, is_distinct-keys-put, get-keys,
}
use Prim.Native.String.{slice, len}
use text.Mathlib.Text.{find?}
use desec_stack.Db.{
  Item, RRset, Domain, Db, DbError, does_not_exist, integrity_error, the_only, insert_rrset,
}
use desec_stack.Tracker.{Signal, rr_saved, rr_set_saved, domain_deleted}
use desec_stack.Bulk.{Effect, delete_row}

-- A key of `Domain.keys`, of which delegation reads the DS records.
pub record DomainKey : Type 0 where
  pub ds : List String

-- A domain whose delegation is updated; `is_saved` says whether it has a primary key.
pub record Child : Type 0 where
  pub name : String
  pub is_saved : Bool
  pub keys : List DomainKey

pub data DelegationError : Type 0 where
  not_a_child : DelegationError
  no_keys : DelegationError
  from_database : DbError → DelegationError

abbrev pub nonempty_text : String → Option String
nonempty_text text = if text == "" then none else some text

-- `_partitioned_name`: the first label, and the rest of the name if there is any
unfoldable pub partitioned_name : String → String × Option String
partitioned_name name = elim (find? name ".") [
  | none ↦ (name, none)
  | some i ↦ (slice name 0 i, nonempty_text (slice name (i + 1) (len name)))
]

abbrev pub database : {A : Type 0} → Result DbError A → Result DelegationError A
database (ok a) = ok a
database (err e) = err (from_database e)

-- `RRset.objects.create(contents=...)`; contents differ by a constraint of the database
unfoldable pub create_rrset : RRset → Db → Result DelegationError Effect
unfolding insert_rrset is_distinct
create_rrset r db = do
  inserted ← database (insert_rrset r db)
  raise_if (not (is_distinct r.records)) (from_database integrity_error)
  ok (inserted, rr_set_saved r.domain r.item true ∷ map (λ c. rr_saved r.domain r.item) r.records)

abbrev pub is_delegation : String → String → RRset → Bool
is_delegation parent subname r =
    r.domain == parent && r.item.1 == subname && (r.item.0 == "NS" || r.item.0 == "DS")

-- the loop over the NS and DS RR sets of the child
unfoldable pub delete_rows : List RRset → Db → Effect
unfolding delete_row
delete_rows [] db = (db, [])
delete_rows (r ∷ rs) db =
    let first = delete_row r db in let rest = delete_rows rs first.0 in (rest.0, first.1 ++ rest.1)

unfoldable pub all_ds : List DomainKey → List String
all_ds [] = []
all_ds (k ∷ keys) = k.ds ++ all_ds keys

abbrev pub ns_row : String → String → List String → RRset
ns_row parent subname default_ns = record {
  domain = parent;
  item = ("NS", subname);
  ttl = 3600;
  records = default_ns;
}

abbrev pub ds_row : String → String → List DomainKey → RRset
ds_row parent subname keys = record {
  domain = parent;
  item = ("DS", subname);
  ttl = 300;
  records = all_ds keys;
}

-- the branch of a domain that is there
unfoldable pub delegate :
    List String → String → String → List DomainKey → Db → Result DelegationError Effect
unfolding create_rrset all_ds
delegate default_ns parent subname keys db = do
  raise_if (is_empty keys) no_keys
  ns ← create_rrset (ns_row parent subname default_ns) db
  ds ← create_rrset (ds_row parent subname keys) ns.0
  ok (ds.0, ns.1 ++ ds.1)

-- `update_delegation` of the domain `parent`
unfoldable pub update_delegation : List String → String → Child → Db → Result DelegationError Effect
unfolding partitioned_name delete_rows delegate
update_delegation default_ns parent child db =
    let (subname, parent_name) = partitioned_name child.name in
    do
      raise_if (not (parent_name == some parent)) not_a_child
      let deleted = delete_rows (keep (is_delegation parent subname) db.rrsets) db
      (if child.is_saved
          then (do
            made ← delegate default_ns parent subname child.keys deleted.0
            ok (made.0, deleted.1 ++ made.1))
          else ok deleted)

-- `is_locally_registrable`
unfoldable pub is_locally_registrable : List String → String → Bool
unfolding partitioned_name member
is_locally_registrable local_public_suffixes name = elim (partitioned_name name).1 [
  | none ↦ false
  | some parent ↦ member parent local_public_suffixes
]

-- `auto_delegate`
unfoldable pub auto_delegate :
    List String → List String → Child → Db → Result DelegationError Effect
unfolding is_locally_registrable update_delegation the_only
auto_delegate local_public_suffixes default_ns child db =
    if is_locally_registrable local_public_suffixes child.name
    then (do
      parent ←
          database
            (the_only (keep (λ d. some d.name == (partitioned_name child.name).1) db.domains))
      update_delegation default_ns parent.name child db)
    else ok (db, [])

-- `Domain.delete`, with the RR sets of the domain
unfoldable pub delete_domain : String → Db → Db
delete_domain name db = record {
  domains = keep (λ d. not (d.name == name)) db.domains;
  rrsets = keep (λ r. not (r.domain == name)) db.rrsets;
}
