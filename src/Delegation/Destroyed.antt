-- ===== src/Delegation/Destroyed.antt =====
-- models/domains.py and views/domains.py: the rows of a domain that is deleted, and of its delegation.
use desec_stack.Common.{
  String, ◌≡◌, sym, ap, ◌∙◌, inl, inr, true, false, some, List, [], arith, Bool-cases, ◌==◌, nat_eq,
  string_eq, pair_eq, option_eq, Result, ok, ◌>>=◌, >>=-eq-ok, ok_same, keep,
}
use desec_stack.Db.{RRset, Item, Db, the_only, is_at, rrsets_at}
use desec_stack.Bulk.{Effect}
use desec_stack.Delegation.{
  Child, DelegationError, partitioned_name, database, update_delegation, is_locally_registrable,
  auto_delegate, delete_domain,
}
use desec_stack.Delegation.Rows.{keep_covered, same_place, same_place_iff}
use desec_stack.Delegation.Published.{update_delegation-IsDelegated}

pub delete_domain-rows :
    (name : String) (db : Db) (i : Item) → rrsets_at name i (delete_domain name db).rrsets ≡ []
unfolding delete_domain rrsets_at
delete_domain-rows name db i =
    keep_covered (is_at name i) (λ r. r.domain == name) db.rrsets (λ r h. ground arith)

-- Nothing is left of the domain, and where it was delegated, of its delegation.
pub record IsDestroyed (local_public_suffixes : List String) (name : String) (rrsets : List RRset)
    : Type 0 where
  pub rows : (i : Item) → rrsets_at name i rrsets ≡ []
  pub delegation :
      is_locally_registrable local_public_suffixes name ≡ true
      → (parent : String) → (partitioned_name name).1 ≡ some parent
      → (rrsets_at parent ("NS", (partitioned_name name).0) rrsets ≡ [])
        × (rrsets_at parent ("DS", (partitioned_name name).0) rrsets ≡ [])

at_place :
    (n m : String) (i j : Item) (db : Db)
    → same_place n i m j ≡ true
    → rrsets_at m j db.rrsets ≡ []
    → rrsets_at n i db.rrsets ≡ []
at_place n m i j db e h =
    let (p, q) = (same_place_iff n m i j).0 e in
    ap (λ x. rrsets_at x i db.rrsets) p ∙ ap (λ x. rrsets_at m x db.rrsets) q ∙ h

rows_gone :
    (parent subname name : String) (i : Item) (before after : Db)
    → rrsets_at parent ("NS", subname) after.rrsets ≡ []
    → rrsets_at parent ("DS", subname) after.rrsets ≡ []
    → (same_place name i parent ("NS", subname) ≡ false
        → same_place name i parent ("DS", subname) ≡ false
        → rrsets_at name i after.rrsets ≡ rrsets_at name i before.rrsets)
    → rrsets_at name i before.rrsets ≡ []
    → rrsets_at name i after.rrsets ≡ []
rows_gone parent subname name i before after ns ds others empty =
    elim (Bool-cases (same_place name i parent ("NS", subname))) [
      | inl e ↦ at_place name parent i ("NS", subname) after e ns
      | inr a ↦ elim (Bool-cases (same_place name i parent ("DS", subname))) [
        | inl e ↦ at_place name parent i ("DS", subname) after e ds
        | inr b ↦ others a b ∙ empty
      ]
    ]

pub auto_delegate-IsDestroyed :
    (local_public_suffixes default_ns : List String) (child : Child) (db : Db) {c : Effect}
    → child.is_saved ≡ false
    → auto_delegate local_public_suffixes default_ns child db ≡ ok c
    → ((i : Item) → rrsets_at child.name i db.rrsets ≡ [])
    → IsDestroyed local_public_suffixes child.name c.0.rrsets
unfolding auto_delegate
auto_delegate-IsDestroyed locals default_ns child db {c} unsaved h empty =
    elim (Bool-cases (is_locally_registrable locals child.name)) [
      | inr e ↦
          let done : ◌≡◌ {A = Result DelegationError Effect} (ok (db, [])) (ok c) = ground arith in
          record {
            rows = λ i.
                ap (λ (x : Effect). rrsets_at child.name i x.0.rrsets) (sym (ok_same done))
                ∙ empty i;
            delegation = λ l. absurd (ground arith);
          }
      | inl e ↦
          let query =
            the_only (keep (λ d. some d.name == (partitioned_name child.name).1) db.domains) in
          let given : (do
            parent ← database query
            update_delegation default_ns parent.name child db)
              ≡ ok c =
            ground arith in
          let (parent, _, k) = >>=-eq-ok (database query) _ given in
          let d = update_delegation-IsDelegated default_ns parent.name child db c k in
          let subname = (partitioned_name child.name).0 in
          let (ns, ds) = d.gone unsaved in
          record {
            rows = λ i.
                rows_gone parent.name subname child.name i db c.0 ns ds (d.others child.name i)
                  (empty i);
            delegation = λ l p q.
                let same : parent.name ≡ p = ground (arith, d.below) in
                (
                  ap (λ n. rrsets_at n ("NS", subname) c.0.rrsets) (sym same) ∙ ns,
                  ap (λ n. rrsets_at n ("DS", subname) c.0.rrsets) (sym same) ∙ ds,
                );
          }
    ]
