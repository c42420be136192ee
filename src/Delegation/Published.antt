-- ===== src/Delegation/Published.antt =====
-- models/domains.py `Domain.update_delegation`: the records of the parent after an update.
use desec_stack.Common.{
  String, ◌≡◌, refl, sym, ap, ◌∙◌, ◌⊎◌, inl, inr, Bool, true, false, not, ◌||◌, some, List, [], ◌∷◌,
  ◌++◌, arith, if◌then◌else◌, Bool-cases, ◌==◌, ==_iff, nat_eq, string_eq, pair_eq, option_eq,
  Result, ok, ◌>>=◌, >>=-eq-ok, passed, ok_same, keep, is_empty, keys,
}
use desec_stack.Db.{Item, RRset, Db, is_at, rrsets_at}
use desec_stack.Bulk.{Effect}
use desec_stack.Delegation.{
  DomainKey, Child, DelegationError, not_a_child, no_keys, partitioned_name, create_rrset,
  is_delegation, delete_rows, ns_row, ds_row, delegate, update_delegation,
}
use desec_stack.Delegation.Rows.{
  is_among, same_place, delete_rows-rows, create_rrset-rows, is_at-same_place, same_place_iff,
}

none_left :
    (n : String) (i : Item) (p : RRset → Bool) (rs : List RRset)
    → ((r : RRset) → is_at n i r ≡ true → p r ≡ true)
    → is_among n i (keep p rs) ≡ false
    → rrsets_at n i rs ≡ []
unfolding keep rrsets_at
none_left n i p [] h e = refl
none_left n i p (r ∷ rs) h e =
    let covered = h r in let placed = is_at-same_place n i r in ground (arith, none_left n i p rs h)

not_among :
    (n : String) (i : Item) (p : RRset → Bool) (rs : List RRset)
    → ((r : RRset) → p r ≡ true → same_place n i r.domain r.item ≡ false)
    → is_among n i (keep p rs) ≡ false
unfolding keep
not_among n i p [] h = refl
not_among n i p (r ∷ rs) h = ground (arith, not_among n i p rs h, h r)

item_of :
    (item : Item) (type subname : String)
    → item.0 ≡ type
    → item.1 ≡ subname
    → item ≡ (type, subname)
item_of (a, b) type subname p q = ap (λ x. (x, b)) p ∙ ap (λ y. (type, y)) q

place_of :
    (n parent subname type : String) (i : Item) (r : RRset)
    → same_place n i r.domain r.item ≡ true
    → r.domain ≡ parent
    → r.item.1 ≡ subname
    → r.item.0 ≡ type
    → same_place n i parent (type, subname) ≡ true
place_of n parent subname type i r h d s t =
    let (a, b) = (same_place_iff n r.domain i r.item).0 h in
    (same_place_iff n parent i (type, subname)).1 (a ∙ d, b ∙ item_of r.item type subname t s)

is_delegation-parts :
    (parent subname : String) (r : RRset)
    → is_delegation parent subname r ≡ true
    → (r.domain ≡ parent) × (r.item.1 ≡ subname) × ((r.item.0 ≡ "NS") ⊎ (r.item.0 ≡ "DS"))
is_delegation-parts parent subname r h =
    let a = (==_iff r.domain parent).0 (ground arith) in
    let b = (==_iff r.item.1 subname).0 (ground arith) in
    (
      a,
      b,
      elim (Bool-cases (r.item.0 == "NS")) [
        | inl e ↦ inl ((==_iff r.item.0 "NS").0 e)
        | inr e ↦ inr ((==_iff r.item.0 "DS").0 (ground arith))
      ],
    )

module _ (parent subname : String) (db : Db) where
  abbrev pub cleared : Db
  cleared = (delete_rows (keep (is_delegation parent subname) db.rrsets) db).0

  cleared_at :
      (type : String)
      → ((type == "NS") || (type == "DS")) ≡ true
      → rrsets_at parent (type, subname) cleared.rrsets ≡ []
  cleared_at type t =
      let deleted = keep (is_delegation parent subname) db.rrsets in
      let rows = delete_rows-rows deleted db parent (type, subname) in
      let covers : (r : RRset)
          → is_at parent (type, subname) r ≡ true
          → is_delegation parent subname r ≡ true =
        λ r h.
          let q = (==_iff r.item (type, subname)).0 (ground arith) in
          let d : (r.domain == parent) ≡ true = ground arith in
          let s = (==_iff r.item.1 subname).1 (ap (λ (x : Item). x.1) q) in
          let u = ap (λ (x : Item). x.0 == "NS" || x.0 == "DS") q ∙ t in ground arith in
      let left = none_left parent (type, subname) (is_delegation parent subname) db.rrsets covers in
      ground arith

  cleared_other :
      (n : String) (i : Item)
      → same_place n i parent ("NS", subname) ≡ false
      → same_place n i parent ("DS", subname) ≡ false
      → rrsets_at n i cleared.rrsets ≡ rrsets_at n i db.rrsets
  cleared_other n i a b =
      let deleted = keep (is_delegation parent subname) db.rrsets in
      let rows = delete_rows-rows deleted db n i in
      let apart : (r : RRset)
          → is_delegation parent subname r ≡ true
          → same_place n i r.domain r.item ≡ false =
        λ r h. elim (Bool-cases (same_place n i r.domain r.item)) [
          | inr e ↦ e
          | inl e ↦
              let (d, s, types) = is_delegation-parts parent subname r h in
              elim types [
                | inl ns ↦
                    let f = place_of n parent subname "NS" i r e d s ns in absurd (ground arith)
                | inr ds ↦
                    let f = place_of n parent subname "DS" i r e d s ds in absurd (ground arith)
              ]
        ] in
      let other = not_among n i (is_delegation parent subname) db.rrsets apart in ground arith

-- The parent after its update: the delegation of a domain that is there, made of the default name
-- servers and of the DS records of its keys, or none; everything else is as it was.
pub record IsDelegated (default_ns : List String) (parent : String) (child : Child)
    (before after : Db) : Type 0 where
  pub below : (partitioned_name child.name).1 ≡ some parent
  pub real :
      child.is_saved ≡ true
      → (rrsets_at parent ("NS", (partitioned_name child.name).0) after.rrsets
          ≡ ns_row parent (partitioned_name child.name).0 default_ns ∷ [])
        × (rrsets_at parent ("DS", (partitioned_name child.name).0) after.rrsets
            ≡ ds_row parent (partitioned_name child.name).0 child.keys ∷ [])
        × (is_empty child.keys ≡ false)
  pub gone :
      child.is_saved ≡ false
      → (rrsets_at parent ("NS", (partitioned_name child.name).0) after.rrsets ≡ [])
        × (rrsets_at parent ("DS", (partitioned_name child.name).0) after.rrsets ≡ [])
  pub others :
      (n : String) (i : Item)
      → same_place n i parent ("NS", (partitioned_name child.name).0) ≡ false
      → same_place n i parent ("DS", (partitioned_name child.name).0) ≡ false
      → rrsets_at n i after.rrsets ≡ rrsets_at n i before.rrsets

-- What `delegate` adds to the rows.
delegate-rows :
    (default_ns : List String) (parent subname : String) (keys : List DomainKey) (db : Db)
    {c : Effect}
    → delegate default_ns parent subname keys db ≡ ok c
    → (is_empty keys ≡ false)
      × ((n : String) (i : Item)
          → rrsets_at n i c.0.rrsets ≡ (
              if same_place n i parent ("DS", subname)
              then ds_row parent subname keys ∷ []
              else if same_place n i parent ("NS", subname)
              then ns_row parent subname default_ns ∷ []
              else rrsets_at n i db.rrsets))
unfolding delegate
delegate-rows default_ns parent subname keys db {c} h =
    let (some_keys, h1) = passed (is_empty keys) no_keys _ h in
    let (ns, e, h2) = >>=-eq-ok (create_rrset (ns_row parent subname default_ns) db) _ h1 in
    let (ds, f, h3) = >>=-eq-ok (create_rrset (ds_row parent subname keys) ns.0) _ h2 in
    (
      some_keys,
      λ n i.
          let (first, _) = create_rrset-rows (ns_row parent subname default_ns) db n i e in
          let (second, _) = create_rrset-rows (ds_row parent subname keys) ns.0 n i f in
          ap (λ (x : Effect). rrsets_at n i x.0.rrsets) (sym (ok_same h3))
          ∙ second
          ∙ ap
              (λ rows.
                if same_place n i parent ("DS", subname)
                then ds_row parent subname keys ∷ []
                else rows)
              first,
    )

ns_not_ds :
    (parent subname : String) → same_place parent ("NS", subname) parent ("DS", subname) ≡ false
ns_not_ds parent subname =
    elim (Bool-cases (same_place parent ("NS", subname) parent ("DS", subname))) [
      | inr e ↦ e
      | inl e ↦
          let (_, q) = (same_place_iff parent parent ("NS", subname) ("DS", subname)).0 e in
          let types = (==_iff "NS" "DS").1 (ap (λ (x : Item). x.0) q) in absurd (ground arith)
    ]

-- An update that goes through leaves the parent with a delegation to the default name servers with the
-- DS records of the keys, if the domain is there, and with none otherwise; it changes no other RR set
-- of any domain, and is refused to a domain that is not the parent, and where there are no keys.
pub update_delegation-IsDelegated :
    (default_ns : List String) (parent : String) (child : Child) (db : Db) (c : Effect)
    → update_delegation default_ns parent child db ≡ ok c
    → IsDelegated default_ns parent child db c.0
unfolding update_delegation
update_delegation-IsDelegated default_ns parent child db c h =
    let subname = (partitioned_name child.name).0 in
    let deleted = delete_rows (keep (is_delegation parent subname) db.rrsets) db in
    let (is_child, h1) =
      passed (not ((partitioned_name child.name).1 == some parent)) not_a_child _ h in
    let below = (==_iff (partitioned_name child.name).1 (some parent)).0 (ground arith) in
    elim (Bool-cases child.is_saved) [
      | inl saved ↦
          let given : (do
            made ← delegate default_ns parent subname child.keys deleted.0
            ok (made.0, deleted.1 ++ made.1))
              ≡ ok c =
            ground arith in
          let (made, e, k) =
            >>=-eq-ok (delegate default_ns parent subname child.keys deleted.0) _ given in
          let (some_keys, rows) = delegate-rows default_ns parent subname child.keys deleted.0 e in
          let same = ap (λ (x : Effect). x.0) (ok_same k) in
          let at : (n : String) (i : Item)
              → rrsets_at n i c.0.rrsets ≡ rrsets_at n i made.0.rrsets =
            λ n i. ap (λ (x : Db). rrsets_at n i x.rrsets) (sym same) in
          let ns_there =
            (same_place_iff parent parent ("NS", subname) ("NS", subname)).1 (refl, refl) in
          let ds_there =
            (same_place_iff parent parent ("DS", subname) ("DS", subname)).1 (refl, refl) in
          let apart = ns_not_ds parent subname in
          record {
            below = below;
            real = λ s. (
              at parent ("NS", subname) ∙ rows parent ("NS", subname) ∙ rw apart (rw ns_there refl),
              at parent ("DS", subname) ∙ rows parent ("DS", subname) ∙ rw ds_there refl,
              some_keys,
            );
            gone = λ s. absurd (ground arith);
            others = λ n i a b.
                at n i ∙ rows n i ∙ rw b (rw a (cleared_other parent subname db n i a b));
          }
      | inr unsaved ↦
          let done : ◌≡◌ {A = Result DelegationError Effect} (ok deleted) (ok c) = ground arith in
          let same = ap (λ (x : Effect). x.0) (ok_same done) in
          record {
            below = below;
            real = λ s. absurd (ground arith);
            gone = λ s. (
              ap (λ (x : Db). rrsets_at parent ("NS", subname) x.rrsets) (sym same)
                  ∙ cleared_at parent subname db "NS" refl,
              ap (λ (x : Db). rrsets_at parent ("DS", subname) x.rrsets) (sym same)
                  ∙ cleared_at parent subname db "DS" refl,
            );
            others = λ n i a b.
                ap (λ (x : Db). rrsets_at n i x.rrsets) (sym same)
                ∙ cleared_other parent subname db n i a b;
          }
    ]
