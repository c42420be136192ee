-- ===== src/Delegation/Rows.antt =====
-- models/domains.py `Domain.update_delegation`: what its steps make of the rows of any domain.
use desec_stack.Common.{
  String, ◌≡◌, refl, sym, ap, ◌∙◌, ◌↔◌, inl, inr, Bool, true, false, not, ◌&&◌, List, [], ◌∷◌,
  arith, if◌then◌else◌, Bool-cases, Eq, ◌==◌, ==_iff, nat_eq, string_eq, pair_eq, option_eq, Result,
  ok, err, >>=-eq-ok, passed, ok_same, keep, any, is_distinct,
}
use desec_stack.Db.{
  Item, RRset, Db, DbError, integrity_error, is_at, rrsets_at, exists_at, insert_rrset,
}
use desec_stack.Bulk.{Effect, delete_row}
use desec_stack.Delegation.{from_database, database, create_rrset, delete_rows}

pub keep_covered :
    {A : Type 0} (p q : A → Bool) (xs : List A)
    → ((x : A) → p x ≡ true → q x ≡ true)
    → keep p (keep (λ x. not (q x)) xs) ≡ []
unfolding keep
keep_covered p q [] h = refl
keep_covered p q (x ∷ xs) h = ground (arith, keep_covered p q xs h, h x)

keep_apart :
    {A : Type 0} (p q : A → Bool) (xs : List A)
    → ((x : A) → p x ≡ true → q x ≡ false)
    → keep p (keep (λ x. not (q x)) xs) ≡ keep p xs
unfolding keep
keep_apart p q [] h = refl
keep_apart p q (x ∷ xs) h = ground (arith, keep_apart p q xs h, h x)

-- Two places that have a row in common are the same.
is_at-same :
    (n m : String) (i j : Item) (r : RRset)
    → is_at n i r ≡ true
    → is_at m j r ≡ true
    → (n ≡ m) × (i ≡ j)
is_at-same n m i j r a b =
    let p : r.domain ≡ n = (==_iff r.domain n).0 (ground arith) in
    let q : r.item ≡ i = (==_iff r.item i).0 (ground arith) in
    let u : r.domain ≡ m = (==_iff r.domain m).0 (ground arith) in
    let v : r.item ≡ j = (==_iff r.item j).0 (ground arith) in (sym p ∙ u, sym q ∙ v)

abbrev pub same_place : String → Item → String → Item → Bool
same_place n i m j = n == m && i == j

pub same_place_iff : (n m : String) (i j : Item) → (same_place n i m j ≡ true) ↔ ((n ≡ m) × (i ≡ j))
same_place_iff n m i j =
    let a = ==_iff n m in
    let b = ==_iff i j in
    (
      λ h. (a.0 (ground arith), b.0 (ground arith)),
      λ (p, q). let x = a.1 p in let y = b.1 q in ground arith,
    )

pub rows_deleted :
    (m : String) (old : Item) (n : String) (i : Item) (rs : List RRset)
    → rrsets_at n i (keep (λ r. not (is_at m old r)) rs)
      ≡ (if same_place n i m old then [] else rrsets_at n i rs)
unfolding rrsets_at
rows_deleted m old n i rs = elim (Bool-cases (same_place n i m old)) [
  | inl e ↦
      let (a, b) = (same_place_iff n m i old).0 e in
      rw e (
        keep_covered (is_at n i) (is_at m old) rs
          λ r h. ap (λ x. is_at x old r) (sym a) ∙ ap (λ j. is_at n j r) (sym b) ∙ h)
  | inr e ↦ rw e (
      keep_apart (is_at n i) (is_at m old) rs λ r h. elim (Bool-cases (is_at m old r)) [
        | inr f ↦ f
        | inl f ↦
            let s = (same_place_iff n m i old).1 (is_at-same n m i old r h f) in
            absurd (ground arith)
      ])
]

-- some of the rows are the one at the place
abbrev pub is_among : String → Item → List RRset → Bool
is_among n i rs = any (λ r. same_place n i r.domain r.item) rs

pub delete_rows-rows :
    (deleted : List RRset) (db : Db) (n : String) (i : Item)
    → rrsets_at n i (delete_rows deleted db).0.rrsets
      ≡ (if is_among n i deleted then [] else rrsets_at n i db.rrsets)
unfolding delete_rows delete_row
delete_rows-rows [] db n i = refl
delete_rows-rows (r ∷ rs) db n i =
    ground (
      arith,
      delete_rows-rows rs (delete_row r db).0 n i,
      rows_deleted r.domain r.item n i db.rrsets,
    )

rows_none :
    (n : String) (i : Item) (rs : List RRset) → exists_at n i rs ≡ false → rrsets_at n i rs ≡ []
unfolding rrsets_at exists_at keep
rows_none n i [] h = refl
rows_none n i (r ∷ rs) h = ground (arith, rows_none n i rs)

database-ok : {A : Type 0} (r : Result DbError A) {a : A} → database r ≡ ok a → r ≡ ok a
database-ok (ok a) h = ap ok (ok_same h)
database-ok (err e) h = absurd (ground arith)

insert_rrset-rows :
    (r : RRset) (db : Db) {after : Db}
    → insert_rrset r db ≡ ok after
    → (after.rrsets ≡ r ∷ db.rrsets) × (rrsets_at r.domain r.item db.rrsets ≡ [])
unfolding insert_rrset
insert_rrset-rows r db {after} h =
    let free : exists_at r.domain r.item db.rrsets ≡ false = ground arith in
    let made : ◌≡◌ {A = Result DbError Db} (ok (record db { rrsets = r ∷ db.rrsets })) (ok after) =
      ground arith in
    (ap (λ (x : Db). x.rrsets) (sym (ok_same made)), rows_none r.domain r.item db.rrsets free)

eq_symmetric : {V : Type 0} ⦃values : Eq V⦄ (x y : V) → (x == y) ≡ (y == x)
eq_symmetric x y = ground (arith, ==_iff x y, ==_iff y x)

pub is_at-same_place :
    (n : String) (i : Item) (r : RRset) → is_at n i r ≡ same_place n i r.domain r.item
is_at-same_place n i r =
    ap (λ b. b && r.item == i) (eq_symmetric r.domain n)
    ∙ ap (λ b. n == r.domain && b) (eq_symmetric r.item i)

row_added :
    (r : RRset) (rs : List RRset) (n : String) (i : Item)
    → rrsets_at r.domain r.item rs ≡ []
    → rrsets_at n i (r ∷ rs) ≡ (if same_place n i r.domain r.item then r ∷ [] else rrsets_at n i rs)
unfolding rrsets_at keep
row_added r rs n i free =
    ap (λ b. if b then r ∷ keep (is_at n i) rs else keep (is_at n i) rs) (is_at-same_place n i r)
    ∙ elim (Bool-cases (same_place n i r.domain r.item)) [
      | inl e ↦
          let (p, q) = (same_place_iff n r.domain i r.item).0 e in
          let none_there =
            ap (λ m. keep (is_at m i) rs) p ∙ ap (λ j. keep (is_at r.domain j) rs) q ∙ free in
          rw e (ap (λ xs. r ∷ xs) none_there)
      | inr e ↦ rw e refl
    ]

pub create_rrset-rows :
    (r : RRset) (db : Db) {c : Effect} (n : String) (i : Item)
    → create_rrset r db ≡ ok c
    → (rrsets_at n i c.0.rrsets
        ≡ (if same_place n i r.domain r.item then r ∷ [] else rrsets_at n i db.rrsets))
      × (rrsets_at r.domain r.item db.rrsets ≡ [])
unfolding create_rrset
create_rrset-rows r db {c} n i h =
    let (inserted, e, h1) = >>=-eq-ok (database (insert_rrset r db)) _ h in
    let (_, h2) = passed (not (is_distinct r.records)) (from_database integrity_error) _ h1 in
    let (rows, free) = insert_rrset-rows r db (database-ok (insert_rrset r db) e) in
    let after = ap (λ (x : Effect). x.0.rrsets) (sym (ok_same h2)) ∙ rows in
    (ap (rrsets_at n i) after ∙ row_added r db.rrsets n i free, free)
