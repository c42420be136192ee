-- ===== src/Validation/Errors.antt =====
-- Which steps of a bulk update can break a constraint of the database: none but a creation.
use desec_stack.Common.{
  ℕ, String, ◌≡◌, ◌≢◌, inl, inr, true, ◌||◌, Option, none, some, List, [], ◌∷◌, arith, nat_eq,
  string_eq, pair_eq, option_eq, Result, ok, err, >>=-eq-err, any, Dict, get,
}
use desec_stack.Records.{RecordError, save_records}
use desec_stack.Bulk.{
  Data, BulkError, key_error, ttl_missing, database, Effect, from_db, from_records, required,
  new_row, set_all_record_contents, create, new_records, update, each, delete_at, update_at,
}
use desec_stack.Db.{
  Item, RRset, Db, integrity_error, the_only, rrsets_at, exists_at, conflicts_with, insert_rrset,
}

abbrev pub broken : BulkError
broken = database integrity_error

-- Where no step breaks a constraint, nor does the loop.
pub each_unbroken :
    (step : Item → Db → Result BulkError Effect) (Inv : List Item → Db → Type 0)
    → ((i : Item) (items : List Item) (db : Db) (c : Effect)
        → Inv (i ∷ items) db
        → step i db ≡ ok c
        → Inv items c.0)
    → ((i : Item) (items : List Item) (db : Db) → Inv (i ∷ items) db → step i db ≡ err broken → ⊥)
    → (items : List Item) (db : Db) → Inv items db
    → each step items db ≡ err broken
    → ⊥
unfolding each
each_unbroken step Inv keeps fails [] db v h = ground arith
each_unbroken step Inv keeps fails (i ∷ items) db v h = elim (>>=-eq-err (step i db) _ h) [
  | inl e ↦ fails i items db v e
  | inr (c, e, k) ↦ elim (>>=-eq-err (each step items c.0) _ k) [
    | inl f ↦ each_unbroken step Inv keeps fails items c.0 (keeps i items db c v e) f
    | inr (x, f, l) ↦ absurd (ground arith)
  ]
]

the_only-unbroken : {A : Type 0} (xs : List A) → from_db (the_only xs) ≡ err broken → ⊥
unfolding the_only
the_only-unbroken [] h = ground arith
the_only-unbroken (x ∷ []) h = ground arith
the_only-unbroken (x ∷ y ∷ xs) h = ground arith

pub delete_at-unbroken : (name : String) (i : Item) (db : Db) → delete_at name i db ≡ err broken → ⊥
unfolding delete_at
delete_at-unbroken name i db h =
    elim (>>=-eq-err (from_db (the_only (rrsets_at name i db.rrsets))) _ h) [
      | inl e ↦ the_only-unbroken (rrsets_at name i db.rrsets) e
      | inr (r, e, k) ↦ absurd (ground arith)
    ]

from_records-unbroken :
    {A : Type 0} (r : Result (List RecordError) A) → from_records r ≡ err broken → ⊥
from_records-unbroken (ok a) h = ground arith
from_records-unbroken (err e) h = ground arith

pub required-unbroken :
    {A : Type 0} (o : Option A) (e : BulkError) → e ≢ broken → required o e ≡ err broken → ⊥
required-unbroken none e n h = n (ground arith)
required-unbroken (some a) e n h = ground arith

new_records-unbroken :
    (canonical : String → String → Option String) (r : RRset) (o : Option (List String))
    → new_records canonical r o ≡ err broken
    → ⊥
unfolding new_records
new_records-unbroken canonical r none h = ground arith
new_records-unbroken canonical r (some rs) h = from_records-unbroken (save_records canonical r rs) h

pub update_at-unbroken :
    (canonical : String → String → Option String) (name : String) (found : Dict Item Data)
    (i : Item) (db : Db)
    → update_at canonical name found i db ≡ err broken
    → ⊥
unfolding update_at update
update_at-unbroken canonical name found i db h =
    elim (>>=-eq-err (from_db (the_only (rrsets_at name i db.rrsets))) _ h) [
      | inl e ↦ the_only-unbroken (rrsets_at name i db.rrsets) e
      | inr (r, e, k) ↦ elim (>>=-eq-err (required (get i found) key_error) _ k) [
        | inl f ↦ required-unbroken (get i found) key_error (λ q. ground arith) f
        | inr (d, f, l) ↦ elim (>>=-eq-err (new_records canonical r d.records) _ l) [
          | inl g ↦ new_records-unbroken canonical r d.records g
          | inr (x, g, m) ↦ absurd (ground arith)
        ]
      ]
    ]

-- A creation that breaks a constraint finds a row in its place, or one that conflicts with it.
pub create-broken :
    (canonical : String → String → Option String) (name : String) (d : Data) (db : Db)
    → create canonical name d db ≡ err broken
    → (ttl : ℕ) × ((exists_at name d.item db.rrsets
          || any (conflicts_with (new_row name d.item ttl)) db.rrsets)
        ≡ true)
unfolding create set_all_record_contents
create-broken canonical name d db h = elim (>>=-eq-err (required d.records key_error) _ h) [
  | inl e ↦ absurd (required-unbroken d.records key_error (λ q. ground arith) e)
  | inr (records, e, k) ↦ elim (>>=-eq-err (required d.ttl ttl_missing) _ k) [
    | inl f ↦ absurd (required-unbroken d.ttl ttl_missing (λ q. ground arith) f)
    | inr (ttl, f, l) ↦
        elim (>>=-eq-err (from_db (insert_rrset (new_row name d.item ttl) db)) _ l) [
          | inl g ↦ (ttl, unfold insert_rrset in ground arith)
          | inr (inserted, g, m) ↦
              elim (>>=-eq-err
                (set_all_record_contents canonical (new_row name d.item ttl) records inserted) _
                m) [
                  | inl o ↦
                      elim (>>=-eq-err
                        (from_records (save_records canonical (new_row name d.item ttl) records)) _
                        o) [
                          | inl p ↦ absurd (from_records-unbroken _ p)
                          | inr (x, p, q) ↦ absurd (ground arith)
                        ]
                  | inr (x, o, p) ↦ absurd (ground arith)
                ]
        ]
  ]
]
