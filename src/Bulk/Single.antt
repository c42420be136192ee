-- ===== src/Bulk/Single.antt =====
-- serializers/records.py `ConditionalExistenceModelSerializer.save` with `RRsetSerializer.exists`: one RR set
-- alone is saved as by a bulk update of one element.
use desec_stack.Common.{
  String, ◌≡◌, refl, sym, ◌∙◌, inl, inr, true, false, Option, none, some, List, [], ◌∷◌, map, arith,
  if◌then◌else◌, Bool-cases, ◌==◌, ==_iff, nat_eq, string_eq, pair_eq, option_eq, Result, ok,
  member,
}
use desec_stack.Db.{Item, RRset, Db, the_only, rrsets_at}
use desec_stack.Bulk.{Data, BulkError, Effect, delete_row, create, update, is_empty_data, delete_at}
use mathlib.Core.Path.{subst}
use desec_stack.Bulk.Steps.{delete_at-rows, create-rows, update-rows, the_only-row}
use desec_stack.Bulk.Making.{at_key, Written, created, updated, IsUpdated}

-- `save`, where `instance` is the row that the serializer has
unfoldable pub save :
    (String → String → Option String) → String → Option RRset → Data → Db → Result BulkError Effect
unfolding update create delete_row
save canonical name (some r) d db =
    if is_empty_data d then ok (delete_row r db) else update canonical r d db
save canonical name none d db = if is_empty_data d then ok (db, []) else create canonical name d db

-- The row is the one of the key, or there is none.
abbrev pub IsInstance : String → Option RRset → Item → Db → Type 0
IsInstance name none item db = rrsets_at name item db.rrsets ≡ []
IsInstance name (some r) item db = rrsets_at name item db.rrsets ≡ r ∷ []

module _ (canonical : String → String → Option String) (name : String) (d : Data) (db : Db) where
  -- the rows under a key, where those under the key of the data are known
  by_key :
      (i : Item) (f : List RRset → List RRset) (before : List RRset)
      → rrsets_at name d.item db.rrsets ≡ before
      → (if i == d.item then f (rrsets_at name i db.rrsets) else rrsets_at name i db.rrsets)
        ≡ (if i == d.item then f before else rrsets_at name i db.rrsets)
  by_key i f before e = elim (Bool-cases (i == d.item)) [
    | inl t ↦ (let same = (==_iff i d.item).0 t in rw (t, same, e) refl)
    | inr t ↦ rw t refl
  ]

  unchanged :
      (i : Item)
      → rrsets_at name i db.rrsets
        ≡ (if i == d.item then rrsets_at name i db.rrsets else rrsets_at name i db.rrsets)
  unchanged i = elim (Bool-cases (i == d.item)) [ inl t ↦ rw t refl | inr t ↦ rw t refl ]

  of_rows :
      (after : Db) (rows : List RRset)
      → ((i : Item)
          → rrsets_at name i after.rrsets
            ≡ (if i == d.item then rows else rrsets_at name i db.rrsets))
      → (is_empty_data d ≡ true → rows ≡ [])
      → (is_empty_data d ≡ false → Written canonical name d (rrsets_at name d.item db.rrsets) rows)
      → IsUpdated canonical name (d ∷ []) db after
  unfolding member
  of_rows after rows at_all none_left made =
      let here = at_all d.item ∙ at_key d.item d.item rows (rrsets_at name d.item db.rrsets) refl in
      record {
        unnamed = λ i n. let e = at_all i in ground arith;
        emptied = λ e i h. elim i [
          | inl s ↦
              subst (λ (x : Data). is_empty_data x ≡ true → rrsets_at name x.item after.rrsets ≡ [])
                (sym s) (λ y. here ∙ none_left y) h
          | inr n ↦ absurd n
        ];
        written = λ e i h. elim i [
          | inl s ↦
              subst
                (λ (x : Data).
                  is_empty_data x ≡ false
                  → Written canonical name x (rrsets_at name x.item db.rrsets)
                      (rrsets_at name x.item after.rrsets))
                (sym s)
                (λ y.
                  subst (Written canonical name d (rrsets_at name d.item db.rrsets)) (sym here)
                    (made y))
                h
          | inr n ↦ absurd n
        ];
      }

  delete_row-rows :
      (r : RRset) (i : Item)
      → rrsets_at name d.item db.rrsets ≡ r ∷ []
      → rrsets_at name i (delete_row r db).0.rrsets
        ≡ (if i == d.item then [] else rrsets_at name i db.rrsets)
  unfolding delete_at the_only
  delete_row-rows r i e = delete_at-rows name i d.item db (delete_row r db) (rw e refl)

  -- Saving one RR set by its serializer, where the instance is the row under the key of the data, does
  -- what a bulk update of this one element does: no other RR set of the domain changes, and the one
  -- that is named is gone if it is given without records, and there as the data say otherwise.
  pub save-IsUpdated :
      (instance : Option RRset) (c : Effect)
      → IsInstance name instance d.item db
      → save canonical name instance d db ≡ ok c
      → IsUpdated canonical name (d ∷ []) db c.0
  unfolding save the_only
  save-IsUpdated none c e h = elim (Bool-cases (is_empty_data d)) [
    | inl z ↦
        (let same : db ≡ c.0 = ground arith in
          subst (IsUpdated canonical name (d ∷ []) db) same (
            of_rows db [] (λ i. unchanged i ∙ by_key i (λ rs. rs) [] e) (λ y. refl)
              (λ y. absurd (ground arith))))
    | inr z ↦
        (let (new, v, rows) = create-rows canonical name d db c (ground arith) in
          of_rows c.0 (new ∷ []) rows (λ y. absurd (ground arith)) (λ y. created e new refl v))
  ]
  save-IsUpdated (some r) c e h = elim (Bool-cases (is_empty_data d)) [
    | inl z ↦
        (let same : delete_row r db ≡ c = ground arith in
          subst (λ (x : Effect). IsUpdated canonical name (d ∷ []) db x.0) same
            (of_rows (delete_row r db).0 [] (λ i. delete_row-rows r i e) (λ y. refl)
              (λ y. absurd (ground arith))))
    | inr z ↦
        (let (_, m, o) = the_only-row name d.item db.rrsets r (rw e refl) in
          let (new, v, rows) = update-rows canonical name r d db c m o (ground arith) in
          of_rows c.0 (new ∷ []) (λ i. rows i ∙ by_key i (map (λ x. new)) (r ∷ []) e)
            (λ y. absurd (ground arith)) (λ y. updated r e new refl v))
  ]
