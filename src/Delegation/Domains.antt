-- ===== src/Delegation/Domains.antt =====
-- models/domains.py `update_delegation` and views/domains.py `auto_delegate`: the rows of domains stay.
use desec_stack.Common.{
  String, ◌≡◌, refl, sym, ap, ◌∙◌, inl, inr, not, some, List, [], ◌∷◌, ◌++◌, arith, Bool-cases,
  ◌==◌, nat_eq, string_eq, pair_eq, option_eq, Result, ok, err, ◌>>=◌, >>=-eq-ok, passed, ok_same,
  keep, is_empty, is_distinct,
}
use desec_stack.Db.{RRset, Db, DbError, insert_rrset, the_only}
use desec_stack.Bulk.{Effect, delete_row}
use desec_stack.Context.Owners.{insert_rrset-domains}
use desec_stack.Delegation.{
  DomainKey, Child, DelegationError, partitioned_name, database, create_rrset, is_delegation,
  delete_rows, ns_row, ds_row, delegate, update_delegation, is_locally_registrable, auto_delegate,
}

delete_rows-domains : (rs : List RRset) (db : Db) → (delete_rows rs db).0.domains ≡ db.domains
unfolding delete_rows delete_row
delete_rows-domains [] db = refl
delete_rows-domains (r ∷ rs) db = delete_rows-domains rs (delete_row r db).0

database-ok : {A : Type 0} (r : Result DbError A) {a : A} → database r ≡ ok a → r ≡ ok a
database-ok (ok b) h = ap ok (ok_same h)
database-ok (err e) h = absurd (ground arith)

create_rrset-domains :
    (r : RRset) (db : Db) {e : Effect} → create_rrset r db ≡ ok e → e.0.domains ≡ db.domains
unfolding create_rrset
create_rrset-domains r db {e} h =
    let (after, i, k) = >>=-eq-ok (database (insert_rrset r db)) _ h in
    let (_, l) = passed (not (is_distinct r.records)) _ _ k in
    ap (λ (x : Effect). x.0.domains) (sym (ok_same l))
    ∙ insert_rrset-domains r db (database-ok (insert_rrset r db) i)

delegate-domains :
    (default_ns : List String) (parent subname : String) (zone_keys : List DomainKey) (db : Db)
    {e : Effect}
    → delegate default_ns parent subname zone_keys db ≡ ok e
    → e.0.domains ≡ db.domains
unfolding delegate
delegate-domains default_ns parent subname zone_keys db h =
    let (_, k) = passed (is_empty zone_keys) _ _ h in
    let (ns, i, l) = >>=-eq-ok (create_rrset (ns_row parent subname default_ns) db) _ k in
    let (ds, j, m) = >>=-eq-ok (create_rrset (ds_row parent subname zone_keys) ns.0) _ l in
    ap (λ (x : Effect). x.0.domains) (sym (ok_same m))
    ∙ create_rrset-domains (ds_row parent subname zone_keys) ns.0 j
    ∙ create_rrset-domains (ns_row parent subname default_ns) db i

update_delegation-domains :
    (default_ns : List String) (parent : String) (child : Child) (db : Db) {e : Effect}
    → update_delegation default_ns parent child db ≡ ok e
    → e.0.domains ≡ db.domains
unfolding update_delegation
update_delegation-domains default_ns parent child db {e} h =
    let (subname, parent_name) = partitioned_name child.name in
    let (_, k) = passed (not (parent_name == some parent)) _ _ h in
    let rows = keep (is_delegation parent subname) db.rrsets in
    elim (Bool-cases child.is_saved) [
      | inl s ↦
          (let made : (do
            m ← delegate default_ns parent subname child.keys (delete_rows rows db).0
            ok (m.0, (delete_rows rows db).1 ++ m.1))
                ≡ ok e =
              ground arith in
            let (m, i, l) =
              >>=-eq-ok (delegate default_ns parent subname child.keys (delete_rows rows db).0) _
                made in
            ap (λ (x : Effect). x.0.domains) (sym (ok_same l))
            ∙ delegate-domains default_ns parent subname child.keys (delete_rows rows db).0 i
            ∙ delete_rows-domains rows db)
      | inr s ↦
          (let done : ◌≡◌ {A = Result DelegationError Effect} (ok (delete_rows rows db)) (ok e) =
              ground arith in
            ap (λ (x : Effect). x.0.domains) (sym (ok_same done)) ∙ delete_rows-domains rows db)
    ]

pub auto_delegate-domains :
    (local_public_suffixes default_ns : List String) (child : Child) (db : Db) {e : Effect}
    → auto_delegate local_public_suffixes default_ns child db ≡ ok e
    → e.0.domains ≡ db.domains
unfolding auto_delegate
auto_delegate-domains locals default_ns child db {e} h =
    elim (Bool-cases (is_locally_registrable locals child.name)) [
      | inr n ↦
          (let done : ◌≡◌ {A = Result DelegationError Effect} (ok (db, [])) (ok e) = ground arith in
            ap (λ (x : Effect). x.0.domains) (sym (ok_same done)))
      | inl y ↦
          (let query =
              the_only (keep (λ d. some d.name == (partitioned_name child.name).1) db.domains) in
            let given : (do
              parent ← database query
              update_delegation default_ns parent.name child db)
                ≡ ok e =
              ground arith in
            let (parent, _, k) = >>=-eq-ok (database query) _ given in
            update_delegation-domains default_ns parent.name child db k)
    ]
