-- ===== src/Validation/Uniqueness.antt =====
-- A list that passes names no RR set twice.
use desec_stack.Common.{
  ℕ, suc, ◌≤◌, String, ◌≡◌, refl, sym, ap, ◌∙◌, inl, inr, Bool, true, false, not, ◌&&◌, Option,
  none, some, List, [], ◌∷◌, map, arith, ltb, Bool-cases, ◌==◌, ==_iff, nat_eq, string_eq, pair_eq,
  option_eq, Result, ok, err, length, any, is_empty, member, discard, member-discard, is_distinct,
}
use desec_stack.Db.{Item, Db}
use desec_stack.Bulk.{Data, is_empty_data}
use desec_stack.Validation.{
  RecordsField, Element, Key, Position, Indices, ElementError, Checked, failed, keyed, check_types,
  positions, index_elements, collapse, conflicting, is_nonempty, is_known, check_element,
  check_elements, to_internal_value,
}
use desec_stack.Validation.Index.{IsIndexed, index_elements-IsIndexed}
use desec_stack.Bulk.Index.{items_of_data}

-- Two positions in a set are more than one.
two_members :
    (p q : Position) (ps : List Position)
    → member p ps ≡ true
    → member q ps ≡ true
    → (p == q) ≡ false
    → ltb 1 (length ps) ≡ true
unfolding member
two_members p q [] h k n = absurd (ground arith)
two_members p q (x ∷ []) h k n = absurd (ground (arith, ==_iff p x, ==_iff q x, ==_iff p q))
two_members p q (x ∷ y ∷ ps) h k n = ground arith

abbrev pub key_of : Item → Key
key_of item = (some item.1, some item.0)

-- The validation of an element keeps the type and subname that it was sent with, and whether its
-- records are the empty list.
pub record IsKeeping (run_validation : ℕ → Key → RecordsField → Bool → Bool → Result String Data)
    : Type 0 where
  pub key :
      (idx : ℕ) (k : Key) (r : RecordsField) (p q : Bool) (d : Data)
      → run_validation idx k r p q ≡ ok d
      → k ≡ key_of d.item
  pub records :
      (idx : ℕ) (k : Key) (r : RecordsField) (p q : Bool) (d : Data)
      → run_validation idx k r p q ≡ ok d
      → is_empty_data d ≡ not (is_nonempty r)

module _ (run_validation : ℕ → Key → RecordsField → Bool → Bool → Result String Data)
    (keeps : IsKeeping run_validation) (partial : Bool) (known : List Item)
    (indices collapsed : Indices) where
  -- what an element has passed
  pub record IsPassed (idx : ℕ) (k : Key) (r : RecordsField) (d : Data) : Type 0 where
    pub key : k ≡ key_of d.item
    pub records : is_empty_data d ≡ not (is_nonempty r)
    pub alone : ltb 1 (length (discard none (positions k indices))) ≡ false
    pub compatible :
        (is_nonempty r && any (λ e. not (is_empty e.1)) (conflicting k collapsed)) ≡ false
    pub validated :
        run_validation idx k r
          (partial && not (not (is_known known k) && is_nonempty r))
          (is_known known k)
        ≡ ok d

  pub check_element-IsPassed :
      (idx : ℕ) (k : Key) (r : RecordsField) (d : Data)
      → check_element run_validation partial known indices collapsed idx (keyed k r) ≡ ok d
      → IsPassed idx k r d
  unfolding check_element
  check_element-IsPassed idx k r d h =
      let a : ltb 1 (length (discard none (positions k indices))) ≡ false = ground arith in
      let b : (is_nonempty r
            && any (λ (e : Option String × List Position). not (is_empty e.1))
                (conflicting k collapsed))
          ≡ false =
        ground arith in
      let v : run_validation idx k r (partial && not (not (is_known known k) && is_nonempty r))
            (is_known known k)
          ≡ ok d =
        ground arith in
      record {
        key = keeps.key idx k r _ _ d v;
        records = keeps.records idx k r _ _ d v;
        alone = a;
        compatible = b;
        validated = v;
      }

  -- Every element has passed, and is validated to the one at its place.
  abbrev pub AllPassed : ℕ → List Checked → List Data → Type 0
  AllPassed idx [] [] = Unit {0}
  AllPassed idx [] (d ∷ ds) = ⊥
  AllPassed idx (failed es ∷ cs) ds = ⊥
  AllPassed idx (keyed k r ∷ cs) [] = ⊥
  AllPassed idx (keyed k r ∷ cs) (d ∷ ds) = IsPassed idx k r d × AllPassed (suc idx) cs ds

  pub check_elements-AllPassed :
      (idx : ℕ) (cs : List Checked) (ds : List Data)
      → check_elements run_validation partial known indices collapsed idx cs ≡ ok ds
      → AllPassed idx cs ds
  unfolding check_elements
  check_elements-AllPassed idx [] [] h = tt
  check_elements-AllPassed idx [] (d ∷ ds) h = absurd (ground arith)
  check_elements-AllPassed idx (failed es ∷ cs) ds h =
      split (check_elements run_validation partial known indices collapsed (suc idx) cs)
        (unfold check_element in h)
    where
      split :
          (rest : Result (List (List ElementError)) (List Data))
          → elim rest [ ok ds ↦ err (es ∷ map (λ d. []) ds) | err fs ↦ err (es ∷ fs) ] ≡ ok ds
          → ⊥
      split (ok _) k = ground arith
      split (err _) k = ground arith
  check_elements-AllPassed idx (keyed k r ∷ cs) ds h =
      split (check_element run_validation partial known indices collapsed idx (keyed k r))
        (check_element-IsPassed idx k r)
        (check_elements run_validation partial known indices collapsed (suc idx) cs)
        (check_elements-AllPassed (suc idx) cs) ds h
    where
      split :
          (first : Result (List ElementError) Data)
          → ((d : Data) → first ≡ ok d → IsPassed idx k r d)
          → (rest : Result (List (List ElementError)) (List Data))
          → ((xs : List Data) → rest ≡ ok xs → AllPassed (suc idx) cs xs)
          → (all_of : List Data)
          → elim first [
            | ok d ↦ elim rest [ ok ds ↦ ok (d ∷ ds) | err es ↦ err ([] ∷ es) ]
            | err e ↦ elim rest [ ok ds ↦ err (e ∷ map (λ d. []) ds) | err es ↦ err (e ∷ es) ]
          ]
            ≡ ok all_of
          → AllPassed idx (keyed k r ∷ cs) all_of
      split (ok d) f (ok xs) g [] e = absurd (ground arith)
      split (ok d) f (ok xs) g (y ∷ ys) e =
          let a : d ≡ y = ground arith in
          let b : xs ≡ ys = ground arith in (f y (ap ok a), g ys (ap ok b))
      split (ok d) f (err es) g ys e = absurd (ground arith)
      split (err es) f (ok xs) g ys e = absurd (ground arith)
      split (err es) f (err fs) g ys e = absurd (ground arith)

  -- The key of a later element is in the index at a later position.
  later_position :
      (idx : ℕ) (cs : List Checked) (ds : List Data) (item : Item)
      → AllPassed idx cs ds
      → IsIndexed idx cs indices
      → member item (items_of_data ds) ≡ true
      → (j : ℕ) × (idx ≤ j) × (member (some j) (positions (key_of item) indices) ≡ true)
  unfolding member
  later_position idx [] [] item h v m = absurd (ground arith)
  later_position idx [] (d ∷ ds) item h v m = absurd h
  later_position idx (failed es ∷ cs) ds item h v m = absurd h
  later_position idx (keyed k r ∷ cs) [] item h v m = absurd h
  later_position idx (keyed k r ∷ cs) (d ∷ ds) item (p, h) (w, v) m =
      elim (Bool-cases (item == d.item)) [
        | inl e ↦
            (let z : k ≡ key_of item = p.key ∙ ap key_of (sym ((==_iff item d.item).0 e)) in
              (
                idx,
                omega arith,
                ap (λ (j : Key). member (some idx) (positions j indices)) (sym z) ∙ w,
              ))
        | inr n ↦
            (let (j, l, f) = later_position (suc idx) cs ds item h v (ground arith) in
              (j, omega (arith, l), f))
      ]

  pub AllPassed-distinct :
      (idx : ℕ) (cs : List Checked) (ds : List Data)
      → AllPassed idx cs ds
      → IsIndexed idx cs indices
      → is_distinct (items_of_data ds) ≡ true
  unfolding is_distinct
  AllPassed-distinct idx [] [] h v = refl
  AllPassed-distinct idx [] (d ∷ ds) h v = absurd h
  AllPassed-distinct idx (failed es ∷ cs) ds h v = absurd h
  AllPassed-distinct idx (keyed k r ∷ cs) [] h v = absurd h
  AllPassed-distinct idx (keyed k r ∷ cs) (d ∷ ds) (p, h) (w, v) =
      let rest = AllPassed-distinct (suc idx) cs ds h v in
      elim (Bool-cases (member d.item (items_of_data ds))) [
        | inl m ↦
            (let (j, l, f) = later_position (suc idx) cs ds d.item h v m in
              let g : member (some j) (positions k indices) ≡ true =
                ap (λ (x : Key). member (some j) (positions x indices)) p.key ∙ f in
              let a : (some idx == some j) ≡ false = ground arith in
              let several =
                two_members (some idx) (some j) (discard none (positions k indices))
                  (ground (arith, member-discard (some idx) none (positions k indices)))
                  (ground (arith, member-discard (some j) none (positions k indices))) a in
              absurd (ground (arith, p.alone)))
        | inr m ↦ ground arith
      ]

-- If a list of elements passes, and validating an element keeps the type and subname that it was sent
-- with and whether it has records, then no two elements name the same RR set.
pub to_internal_value-distinct :
    (run_validation : ℕ → Key → RecordsField → Bool → Bool → Result String Data) (name : String)
    (partial : Bool) (known : List Item) (elements : List Element) (db : Db) (ds : List Data)
    → IsKeeping run_validation
    → to_internal_value run_validation name partial known elements db ≡ ok ds
    → is_distinct (items_of_data ds) ≡ true
unfolding to_internal_value
to_internal_value-distinct run_validation name partial known elements db ds keeps h =
    let checked = map check_types elements in
    let indices = index_elements name db 0 checked [] in
    AllPassed-distinct run_validation keeps partial known indices (collapse 0 checked indices) 0
      checked ds
      (check_elements-AllPassed run_validation keeps partial known indices
        (collapse 0 checked indices) 0 checked ds h)
      (index_elements-IsIndexed name db 0 checked [])
