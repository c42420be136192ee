-- ===== src/Validation/Exclusivity.antt =====
-- A list that passes leaves no CNAME beside another type.
use desec_stack.Common.{
  ℕ, suc, ◌≤◌, ◌<◌, String, all, ◌≡◌, refl, sym, ap, ◌∙◌, inl, inr, Bool, true, false, ◌&&◌, ◌||◌,
  Option, none, some, List, [], ◌∷◌, map, arith, Bool-cases, differ, ◌==◌, ==_iff, nat_eq,
  string_eq, pair_eq, option_eq, Result, ok, any, In, member, get,
}
use desec_stack.Db.{Item, Db}
use desec_stack.Bulk.{Data}
use desec_stack.Validation.{
  RecordsField, Element, Key, Position, Indices, Checked, failed, keyed, check_types, positions,
  types_at, index_elements, collapse, is_cname, is_nonempty, to_internal_value,
}
use desec_stack.Bulk.{is_empty_data}
use desec_stack.Validation.Index.{IsIndexed, index_elements-IsIndexed}
use desec_stack.Validation.Collapse.{is_emptied, IsKept, collapse-member, conflicting-any}
use desec_stack.Validation.Complete.{IsComplete, index_elements-IsComplete, index_elements-subname}
use desec_stack.Validation.Trimmed.{
  RunValidation, is_trimmed, IsTrimming, refuse_untrimmed, refuse_untrimmed-IsKeeping,
  to_internal_value-trimmed,
}
use desec_stack.Validation.Uniqueness.{
  key_of, IsKeeping, IsPassed, AllPassed, check_elements-AllPassed,
}

-- What the list says of names with a CNAME: of the elements under one subname with records, none is of
-- type CNAME if another one is not; and where the database has such a type beside an element with
-- records, the list empties it.
pub record IsExclusive (name : String) (db : Db) (ds : List Data) : Type 0 where
  pub among :
      (d e : Data)
      → In d ds
      → In e ds
      → d.item.1 ≡ e.item.1
      → differ (e.item.0 == "CNAME") (d.item.0 == "CNAME") ≡ true
      → is_empty_data d ≡ false
      → is_empty_data e ≡ true
  pub beside :
      (d : Data) (t : String)
      → In d ds
      → is_empty_data d ≡ false
      → member t (types_at name (some d.item.1) db) ≡ true
      → differ (t == "CNAME") (d.item.0 == "CNAME") ≡ true
      → any (λ e. key_of e.item == (some d.item.1, some t) && is_empty_data e) ds ≡ true

below-IsKept :
    (idx : ℕ) (j : Key) (start : ℕ) (cs : List Checked) → idx < start → IsKept (some idx) j start cs
below-IsKept idx j start [] l = tt
below-IsKept idx j start (failed es ∷ cs) l = below-IsKept idx j (suc start) cs (omega (arith, l))
below-IsKept idx j start (keyed k r ∷ cs) l = (
  elsewhere (is_emptied r) (j == k) (some idx == some start) (ground arith),
  below-IsKept idx j (suc start) cs (omega (arith, l)),
)
  where
    elsewhere : (a b c : Bool) → c ≡ false → (a && b && (c || false)) ≡ false
    elsewhere a b c e = ground arith

module _ (run_validation : ℕ → Key → RecordsField → Bool → Bool → Result String Data)
    (keeps : IsKeeping run_validation) (partial : Bool) (known : List Item)
    (indices collapsed : Indices) where
  abbrev Passed : ℕ → Key → RecordsField → Data → Type 0
  Passed idx k r d = IsPassed run_validation keeps partial known indices collapsed idx k r d

  abbrev Passing : ℕ → List Checked → List Data → Type 0
  Passing start cs ds = AllPassed run_validation keeps partial known indices collapsed start cs ds

  -- the element that a validated one comes from
  record Origin (d : Data) (start : ℕ) (cs : List Checked) : Type 0 where
    idx : ℕ
    key : Key
    field : RecordsField
    behind : start ≤ idx
    passed : Passed idx key field d
    placed : member (some idx) (positions key indices) ≡ true
    listed : In (keyed key field) cs
    kept : is_nonempty field ≡ true → (j : Key) → IsKept (some idx) j start cs

  find-Origin :
      (d : Data) (start : ℕ) (cs : List Checked) (ds : List Data)
      → Passing start cs ds
      → IsIndexed start cs indices
      → In d ds
      → Origin d start cs
  find-Origin d start [] [] h v i = absurd i
  find-Origin d start [] (x ∷ ds) h v i = absurd h
  find-Origin d start (failed es ∷ cs) ds h v i = absurd h
  find-Origin d start (keyed k r ∷ cs) [] h v i = absurd h
  find-Origin d start (keyed k r ∷ cs) (x ∷ ds) (p, h) (w, v) (inl e) = record {
    idx = start;
    key = k;
    field = r;
    behind = omega arith;
    passed = rw e p;
    placed = w;
    listed = inl refl;
    kept = λ n j. (ground arith, below-IsKept start j (suc start) cs (omega arith));
  }
  find-Origin d start (keyed k r ∷ cs) (x ∷ ds) (p, h) (w, v) (inr i) =
      let o = find-Origin d (suc start) cs ds h v i in
      record {
        idx = o.idx;
        key = o.key;
        field = o.field;
        behind = omega (arith, o.behind);
        passed = o.passed;
        placed = o.placed;
        listed = inr o.listed;
        kept = λ n j. (
          elsewhere (is_emptied r) (j == k) (some o.idx == some start) (ground (arith, o.behind)),
          o.kept n j,
        );
      }
    where
      elsewhere : (a b c : Bool) → c ≡ false → (a && b && (c || false)) ≡ false
      elsewhere a b c e = ground arith

  none-IsKept :
      (j : Key) (start : ℕ) (cs : List Checked) (ds : List Data)
      → Passing start cs ds
      → any (λ e. key_of e.item == j && is_empty_data e) ds ≡ false
      → IsKept none j start cs
  none-IsKept j start [] ds h n = tt
  none-IsKept j start (failed es ∷ cs) ds h n = absurd h
  none-IsKept j start (keyed k r ∷ cs) [] h n = absurd h
  none-IsKept j start (keyed k r ∷ cs) (d ∷ ds) (p, h) n = (
    of_element (key_of d.item == j) (is_empty_data d) (j == k) (is_emptied r)
        (ground (arith, p.records)) (λ e. same_key ((==_iff j k).0 e)) (ground arith),
    none-IsKept j (suc start) cs ds h (ground arith),
  )
    where
      same_key : j ≡ k → (key_of d.item == j) ≡ true
      same_key e = (==_iff (key_of d.item) j).1 (sym (e ∙ p.key))

      of_element :
          (a b c f : Bool)
          → b ≡ f
          → (c ≡ true → a ≡ true)
          → (a && b) ≡ false
          → (f && c && true) ≡ false
      of_element a b c f e g h = ground arith

  -- an element with records is compatible with whatever is left under its subname
  no_conflict :
      (p : Position) (d : Data) (start : ℕ) (cs : List Checked) (o : Origin d start cs)
      (t : Option String)
      → is_empty_data d ≡ false
      → differ (is_cname t) (is_cname o.key.1) ≡ true
      → member p (positions (o.key.0, t) collapsed) ≡ true
      → ⊥
  no_conflict p d start cs o t n c m =
      let a = conflicting-any p o.key t collapsed c m in
      ground (arith, a, o.passed.compatible, o.passed.records)

module _ (run_validation : ℕ → Key → RecordsField → Bool → Bool → Result String Data)
    (keeps : IsKeeping run_validation) (name : String) (partial : Bool) (known : List Item)
    (db : Db) (cs : List Checked) where
  abbrev indices : Indices
  indices = index_elements name db 0 cs []

  abbrev collapsed : Indices
  collapsed = collapse 0 cs indices

  origin :
      (d : Data) (ds : List Data)
      → AllPassed run_validation keeps partial known indices collapsed 0 cs ds
      → In d ds
      → Origin run_validation keeps partial known indices collapsed d 0 cs
  origin d ds h i =
      find-Origin run_validation keeps partial known indices collapsed d 0 cs ds h
        (index_elements-IsIndexed name db 0 cs []) i

  nothing-IsComplete : IsComplete name db []
  unfolding get
  nothing-IsComplete s t h m = absurd (ground arith)

  AllPassed-IsExclusive :
      (ds : List Data)
      → AllPassed run_validation keeps partial known indices collapsed 0 cs ds
      → IsExclusive name db ds
  AllPassed-IsExclusive ds h = record {
    among = λ d e i j s c n. elim (Bool-cases (is_empty_data e)) [
      | inl yes_empty ↦ yes_empty
      | inr full ↦ absurd (clash d e (origin d ds h i) (origin e ds h j) s c n full)
    ];
    beside = λ d t i n m c.
        elim (Bool-cases
          (any (λ e. key_of e.item == (some d.item.1, some t) && is_empty_data e) ds)) [
            | inl emptied ↦ emptied
            | inr none_empty ↦ absurd (found d t (origin d ds h i) n m c none_empty)
          ];
  }
    where
      clash :
          (d e : Data)
          → Origin run_validation keeps partial known indices collapsed d 0 cs
          → Origin run_validation keeps partial known indices collapsed e 0 cs
          → d.item.1 ≡ e.item.1
          → differ (e.item.0 == "CNAME") (d.item.0 == "CNAME") ≡ true
          → is_empty_data d ≡ false
          → is_empty_data e ≡ false
          → ⊥
      clash d e o p s c n full =
          let z : o.key ≡ key_of d.item = o.passed.key in
          let w : p.key ≡ key_of e.item = p.passed.key in
          let same : (o.key.0, p.key.1) ≡ p.key =
            ap (λ (x : Option String). (x, p.key.1))
              (ap (λ (x : Key). x.0) z ∙ ap some s ∙ ap (λ (x : Key). x.0) (sym w)) in
          let kept = p.kept (ground (arith, p.passed.records)) p.key in
          let there = collapse-member (some p.idx) p.key 0 cs indices kept p.placed in
          no_conflict run_validation keeps partial known indices collapsed (some p.idx) d 0 cs o
            p.key.1 n
            (ap (λ (x : Key). differ (is_cname x.1) (is_cname o.key.1)) w
              ∙ ap (λ (x : Key). differ (is_cname (some e.item.0)) (is_cname x.1)) z
              ∙ c)
            (ap (λ x. member (some p.idx) (positions x collapsed)) same ∙ there)

      found :
          (d : Data) (t : String)
          → Origin run_validation keeps partial known indices collapsed d 0 cs
          → is_empty_data d ≡ false
          → member t (types_at name (some d.item.1) db) ≡ true
          → differ (t == "CNAME") (d.item.0 == "CNAME") ≡ true
          → any (λ e. key_of e.item == (some d.item.1, some t) && is_empty_data e) ds ≡ false
          → ⊥
      found d t o n m c none_empty =
          let z : o.key ≡ key_of d.item = o.passed.key in
          let k : o.key.0 ≡ some d.item.1 = ap (λ (x : Key). x.0) z in
          let is_there : member t (types_at name o.key.0 db) ≡ true =
            ap (λ x. member t (types_at name x db)) k ∙ m in
          let placed =
            index_elements-IsComplete name db 0 cs [] nothing-IsComplete o.key.0 t
              (index_elements-subname name db 0 cs o.key o.field [] o.listed) is_there in
          let kept =
            none-IsKept run_validation keeps partial known indices collapsed (some d.item.1, some t)
              0 cs ds h none_empty in
          let placed' : member none (positions (some d.item.1, some t) indices) ≡ true =
            ap (λ x. member none (positions (x, some t) indices)) (sym k) ∙ placed in
          let there = collapse-member none (some d.item.1, some t) 0 cs indices kept placed' in
          no_conflict run_validation keeps partial known indices collapsed none d 0 cs o (some t) n
            (ap (λ (x : Key). differ (is_cname (some t)) (is_cname x.1)) z ∙ c)
            (ap (λ x. member none (positions (x, some t) collapsed)) k ∙ there)

-- If a list of elements passes, and validating an element keeps the type and subname that it was sent
-- with and whether it has records, then no CNAME comes to stand beside another type: not by two
-- elements with records, and not by one beside the database, unless the list empties what is there.
pub to_internal_value-IsExclusive_kept :
    (run_validation : ℕ → Key → RecordsField → Bool → Bool → Result String Data) (name : String)
    (partial : Bool) (known : List Item) (elements : List Element) (db : Db) (ds : List Data)
    → IsKeeping run_validation
    → to_internal_value run_validation name partial known elements db ≡ ok ds
    → IsExclusive name db ds
unfolding to_internal_value
to_internal_value-IsExclusive_kept run_validation name partial known elements db ds keeps h =
    let cs = map check_types elements in
    AllPassed-IsExclusive run_validation keeps name partial known db cs ds (
      check_elements-AllPassed run_validation keeps partial known (index_elements name db 0 cs [])
        (collapse 0 cs (index_elements name db 0 cs [])) 0 cs ds h)

-- If the keys of a list of elements have no white space at their ends and the list passes, where
-- validating an element takes white space off the type and subname and keeps whether it has records,
-- then no CNAME comes to stand beside another type: not by two elements with records, and not by one
-- beside the database, unless the list empties what is there.
pub to_internal_value-IsExclusive :
    (trim : String → String) (run_validation : RunValidation) (name : String) (partial : Bool)
    (known : List Item) (elements : List Element) (db : Db) (ds : List Data)
    → IsTrimming trim run_validation
    → all (is_trimmed trim) elements ≡ true
    → to_internal_value run_validation name partial known elements db ≡ ok ds
    → IsExclusive name db ds
to_internal_value-IsExclusive trim run_validation name partial known elements db ds trims trimmed
      h =
    to_internal_value-IsExclusive_kept (refuse_untrimmed trim run_validation) name partial known
      elements db ds (refuse_untrimmed-IsKeeping trim run_validation trims)
      (to_internal_value-trimmed trim run_validation name partial known elements db ds trimmed h)
