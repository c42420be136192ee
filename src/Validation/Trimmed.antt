-- ===== src/Validation/Trimmed.antt =====
-- serializers/records.py: the list serializer compares the keys as they are sent, and the framework
-- takes white space off the texts of an element (`trim_whitespace` of its text fields). What is shown of
-- keys that are kept holds of lists whose keys are trimmed.
use desec_stack.Common.{
  ℕ, suc, String, ◌≡◌, refl, sym, ◌∙◌, Bool, true, not, ◌&&◌, Option, none, some, List, [], ◌∷◌,
  ◌++◌, map, arith, if◌then◌else◌, Bool-cases, inl, inr, ◌==◌, ==_iff, nat_eq, string_eq, pair_eq,
  option_eq, Result, ok, err, all,
}
use desec_stack.Db.{Item, Db}
use desec_stack.Bulk.{Data, is_empty_data}
use desec_stack.Validation.{
  RecordsField, Element, not_a_dict, dict, Key, Indices, ElementError, Checked, failed, keyed,
  keyed_if, error_when, is_other, subname_type, type_type, value_of, is_nonempty, is_known,
  check_types, check_element, check_elements, to_internal_value,
}
use desec_stack.Validation.Uniqueness.{key_of, IsKeeping}

abbrev pub RunValidation : Type 0
RunValidation = ℕ → Key → RecordsField → Bool → Bool → Result String Data

-- `trim` takes white space off; a text without any at its ends is as it was.
abbrev pub is_trimmed_text : (String → String) → Option String → Bool
is_trimmed_text trim none = true
is_trimmed_text trim (some s) = trim s == s

abbrev pub is_trimmed_key : (String → String) → Key → Bool
is_trimmed_key trim k = is_trimmed_text trim k.0 && is_trimmed_text trim k.1

-- an element of the list that is sent, with a key that is trimmed
abbrev pub is_trimmed : (String → String) → Element → Bool
is_trimmed trim not_a_dict = true
is_trimmed trim (dict s t r) = is_trimmed_key trim (value_of s, value_of t)

abbrev pub trimmed_key : (String → String) → Key → Key
trimmed_key trim k = (
  elim k.0 [ none ↦ none | some s ↦ some (trim s) ],
  elim k.1 [ none ↦ none | some t ↦ some (trim t) ],
)

-- The validation of an element, as the framework documents it: it takes white space off the type and
-- subname, and keeps whether the records are the empty list.
pub record IsTrimming (trim : String → String) (run_validation : RunValidation) : Type 0 where
  pub key :
      (idx : ℕ) (k : Key) (r : RecordsField) (p q : Bool) (d : Data)
      → run_validation idx k r p q ≡ ok d
      → trimmed_key trim k ≡ key_of d.item
  pub records :
      (idx : ℕ) (k : Key) (r : RecordsField) (p q : Bool) (d : Data)
      → run_validation idx k r p q ≡ ok d
      → is_empty_data d ≡ not (is_nonempty r)

pub trimmed_key-same :
    (trim : String → String) (k : Key) → is_trimmed_key trim k ≡ true → trimmed_key trim k ≡ k
trimmed_key-same trim (none, none) h = refl
trimmed_key-same trim (some s, none) h = ground (arith, ==_iff (trim s) s)
trimmed_key-same trim (none, some t) h = ground (arith, ==_iff (trim t) t)
trimmed_key-same trim (some s, some t) h = ground (arith, ==_iff (trim s) s, ==_iff (trim t) t)

-- the checked elements, where they have keys
abbrev pub is_trimmed_checked : (String → String) → Checked → Bool
is_trimmed_checked trim (failed es) = true
is_trimmed_checked trim (keyed k r) = is_trimmed_key trim k

check_types-trimmed :
    (trim : String → String) (e : Element)
    → is_trimmed trim e ≡ true
    → is_trimmed_checked trim (check_types e) ≡ true
unfolding check_types
check_types-trimmed trim not_a_dict h = refl
check_types-trimmed trim (dict s t r) h =
    by_errors (error_when (is_other s) subname_type ++ error_when (is_other t) type_type)
  where
    by_errors :
        (es : List ElementError)
        → is_trimmed_checked trim (keyed_if es (value_of s, value_of t) r) ≡ true
    by_errors [] = h
    by_errors (e ∷ es) = refl

-- Two validations that are the same on trimmed keys.
module _ (trim : String → String) (run run2 : RunValidation)
    (same : (idx : ℕ) (k : Key) (r : RecordsField) (p q : Bool)
      → is_trimmed_key trim k ≡ true
      → run idx k r p q ≡ run2 idx k r p q) where
  check_element-same :
      (partial : Bool) (known : List Item) (indices collapsed : Indices) (idx : ℕ) (c : Checked)
      → is_trimmed_checked trim c ≡ true
      → check_element run partial known indices collapsed idx c
        ≡ check_element run2 partial known indices collapsed idx c
  unfolding check_element
  check_element-same partial known indices collapsed idx (failed es) h = refl
  check_element-same partial known indices collapsed idx (keyed k r) h =
      let e =
        same idx k r (partial && not (not (is_known known k) && is_nonempty r)) (is_known known k)
          h in
      rw e

  check_elements-same :
      (partial : Bool) (known : List Item) (indices collapsed : Indices) (idx : ℕ)
      (elements : List Element)
      → all (is_trimmed trim) elements ≡ true
      → check_elements run partial known indices collapsed idx (map check_types elements)
        ≡ check_elements run2 partial known indices collapsed idx (map check_types elements)
  unfolding check_elements
  check_elements-same partial known indices collapsed idx [] h = refl
  check_elements-same partial known indices collapsed idx (e ∷ elements) h =
      let first =
        check_element-same partial known indices collapsed idx (check_types e)
          (check_types-trimmed trim e (ground arith)) in
      let rest =
        check_elements-same partial known indices collapsed (suc idx) elements (ground arith) in
      ground arith

  pub to_internal_value-same :
      (name : String) (partial : Bool) (known : List Item) (elements : List Element) (db : Db)
      → all (is_trimmed trim) elements ≡ true
      → to_internal_value run name partial known elements db
        ≡ to_internal_value run2 name partial known elements db
  unfolding to_internal_value
  to_internal_value-same name partial known elements db h =
      check_elements-same partial known _ _ 0 elements h

-- The validation of elements with trimmed keys, which refuses all others.
abbrev pub refuse_untrimmed : (String → String) → RunValidation → RunValidation
refuse_untrimmed trim run idx k r p q = if is_trimmed_key trim k then run idx k r p q else err ""

pub refuse_untrimmed-same :
    (trim : String → String) (run : RunValidation) (idx : ℕ) (k : Key) (r : RecordsField)
    (p q : Bool)
    → is_trimmed_key trim k ≡ true
    → run idx k r p q ≡ refuse_untrimmed trim run idx k r p q
refuse_untrimmed-same trim run idx k r p q h = ground arith

pub refuse_untrimmed-IsKeeping :
    (trim : String → String) (run : RunValidation)
    → IsTrimming trim run
    → IsKeeping (refuse_untrimmed trim run)
refuse_untrimmed-IsKeeping trim run trims = record {
  key = λ idx k r p q d h. elim (Bool-cases (is_trimmed_key trim k)) [
    | inl t ↦ sym (trimmed_key-same trim k t) ∙ trims.key idx k r p q d (ground arith)
    | inr t ↦ absurd (ground arith)
  ];
  records = λ idx k r p q d h. elim (Bool-cases (is_trimmed_key trim k)) [
    | inl t ↦ trims.records idx k r p q d (ground arith)
    | inr t ↦ absurd (ground arith)
  ];
}

-- The checks of a list, where the framework takes white space off the keys that it has none of.
pub to_internal_value-trimmed :
    (trim : String → String) (run : RunValidation) (name : String) (partial : Bool)
    (known : List Item) (elements : List Element) (db : Db) (ds : List Data)
    → all (is_trimmed trim) elements ≡ true
    → to_internal_value run name partial known elements db ≡ ok ds
    → to_internal_value (refuse_untrimmed trim run) name partial known elements db ≡ ok ds
to_internal_value-trimmed trim run name partial known elements db ds all_trimmed h =
    sym (
      to_internal_value-same trim run (refuse_untrimmed trim run) (refuse_untrimmed-same trim run)
        name partial known elements db all_trimmed)
    ∙ h
