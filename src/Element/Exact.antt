-- ===== src/Element/Exact.antt =====
-- serializers/records.py: a list whose keys are read as they are sent, with the RR set serializer.
use desec_stack.Common.{
  ℕ, suc, String, ◌≡◌, refl, sym, ap, ◌∙◌, ◌≢◌, inl, inr, Bool, true, false, Option, none, some,
  List, [], ◌∷◌, map, arith, Bool-cases, Option-cases, ◌==◌, ==_iff, nat_eq, string_eq, pair_eq,
  option_eq, ok, err, Result-cases, ok_same, is_empty, member,
}
use desec_stack.Db.{Item}
use desec_stack.Element.{
  Attrs, Setting, Services, required_field, Rejection, subname_issues, defaulted, type_of,
}
use desec_stack.Element.Validate.{canonical_records}
use desec_stack.Element.Steps.{issue_when_empty, run_validation-IsRun, validate-IsValidated}
use desec_stack.Db.{Db, integrity_error, rrsets_at}
use desec_stack.Bulk.{Data, database, update_all, Effect}
use desec_stack.Bulk.Index.{items_of_data}
use desec_stack.Bulk.Refinement.{update_all-IsUpdated}
use desec_stack.Validation.{
  RecordsField, Element, Key, Checked, failed, keyed, Indices, check_types, index_elements,
  collapse, to_internal_value,
}
use desec_stack.Validation.Uniqueness.{
  IsKeeping, AllPassed, check_elements-AllPassed, to_internal_value-distinct,
}
use desec_stack.Validation.Integrity.{to_internal_value-update_all_kept}
use desec_stack.Element.Checks.{IsFrom, checked_records-IsFrom, run_validation-IsTested}
use desec_stack.Element.Reading.{
  IsExact, has_no_records, validate_element, validate_element-IsElement,
}

is_empty-canonical_records :
    (s : Services) (type : String) (sent : List String) {records : List String}
    → canonical_records s type sent ≡ ok records
    → is_empty records ≡ is_empty sent
unfolding canonical_records
is_empty-canonical_records s type [] h = ap is_empty (sym (ok_same h))
is_empty-canonical_records s type (x ∷ xs) {records} h = elim (Option-cases (s.canonical x type)) [
  | inl e ↦ absurd (ground arith)
  | inr (y, e) ↦ elim (Result-cases (canonical_records s type xs)) [
    | inr (r, f) ↦ absurd (ground arith)
    | inl (ys, f) ↦ let same : y ∷ ys ≡ records = ground arith in ap is_empty (sym same)
  ]
]

-- In a list every element has its subname.
given_subname :
    (s : Services) (c : Setting) (sent : Option String) (v : String)
    → c.is_many ≡ true
    → subname_issues s c sent ≡ []
    → defaulted c.partial sent ≡ some v
    → sent ≡ some v
unfolding subname_issues
given_subname s c none v many clear e =
    let b = issue_when_empty _ required_field clear in absurd (ground arith)
given_subname s c (some w) v many clear e = e

has_no_records-IsFrom :
    (s : Services) (c : Setting) (type : String) (read a : Attrs)
    → IsFrom s c type read a
    → has_no_records a.records ≡ has_no_records read.records
has_no_records-IsFrom s c type read a f = elim (Option-cases a.records) [
  | inr (records, e) ↦
      let (sent, g, k) = f.from records e in
      ap has_no_records e
      ∙ is_empty-canonical_records s type sent k.canonical
      ∙ sym (ap has_no_records g)
  | inl e ↦ ap has_no_records e ∙ sym (ap has_no_records (f.same_missing e))
]

type_of_text :
    (c : Setting) (a : Attrs) (type : String)
    → a.type ≡ some type
    → (type == "") ≡ false
    → type_of c a ≡ ok type
unfolding type_of
type_of_text c a type e n = ground arith

module _ (is_taken : Setting → Attrs → Bool) (s : Services) (message : Rejection → String)
    (read : ℕ → Key → RecordsField → Attrs) (c : Setting) (reads : IsExact read) where
  -- What the list serializer's own checks need of the validation of an element.
  validate_element-IsKeeping : IsKeeping (validate_element is_taken s message read c)
  validate_element-IsKeeping = record {
    key = λ i k r partial known d h.
        let e = validate_element-IsElement is_taken s message read c i k r partial known d h in
        let run = run_validation-IsRun is_taken s _ _ e.accepted in
        let v = validate-IsValidated s _ run.read run.validated in
        let f = checked_records-IsFrom s _ v.type run.read v.checked in
        let subname = ap (λ (x : Attrs). x.subname) run.defaults in
        let type = ap (λ (x : Attrs). x.type) run.defaults in
        let sent =
          given_subname s _ (read i k r).subname d.item.1 refl run.clear.subname
            (sym subname ∙ sym f.same_subname ∙ e.subname) in
        let first : k.0 ≡ some d.item.1 = sym (reads.subname i k r) ∙ sent in
        let second : k.1 ≡ some d.item.0 =
          sym (reads.type i k r) ∙ sym type ∙ sym f.same_type ∙ e.type in
        ground arith;
    records = λ i k r partial known d h.
        let e = validate_element-IsElement is_taken s message read c i k r partial known d h in
        let run = run_validation-IsRun is_taken s _ _ e.accepted in
        let v = validate-IsValidated s _ run.read run.validated in
        let f = checked_records-IsFrom s _ v.type run.read v.checked in
        let same = has_no_records-IsFrom s _ v.type run.read e.attrs f in
        sym (ap has_no_records e.records)
        ∙ same
        ∙ ap has_no_records (ap (λ (x : Attrs). x.records) run.defaults)
        ∙ reads.records i k r;
  }

  -- Each element is one that the token may write; the empty text is no type.
  all_permitted :
      member "" c.manageable ≡ false
      → (partial : Bool) (known : List Item) (indices collapsed : Indices) (i : ℕ)
        (checked : List Checked) (ds : List Data) (item : Item)
      → AllPassed
          (validate_element is_taken s message read c)
          validate_element-IsKeeping
          partial
          known
          indices
          collapsed
          i
          checked
          ds
      → member item (items_of_data ds) ≡ true
      → s.permits item ≡ true
  unfolding member
  all_permitted named_types partial known indices collapsed i [] [] item h m = absurd (ground arith)
  all_permitted named_types partial known indices collapsed i [] (d ∷ ds) item h m = absurd h
  all_permitted named_types partial known indices collapsed i (failed es ∷ cs) ds item h m =
      absurd h
  all_permitted named_types partial known indices collapsed i (keyed k r ∷ cs) [] item h m =
      absurd h
  all_permitted named_types partial known indices collapsed i (keyed k r ∷ cs) (d ∷ ds) item (p, h)
        m =
      elim (Bool-cases (item == d.item)) [
        | inr n ↦
            all_permitted named_types partial known indices collapsed (suc i) cs ds item h
              (ground arith)
        | inl same ↦
            let e = validate_element-IsElement is_taken s message read c i k r _ _ d p.validated in
            let a = run_validation-IsTested is_taken s _ _ e.attrs e.accepted in
            let this = a.permitted d.item.1 e.subname in
            let managed = a.managed d.item.0 e.type in
            let is_text : (d.item.0 == "") ≡ false = elim (Bool-cases (d.item.0 == "")) [
              | inr x ↦ x
              | inl x ↦
                  let blank = ap (λ t. member t c.manageable) ((==_iff d.item.0 "").0 x) in
                  absurd (ground arith)
            ] in
            let typed = ok_same (sym a.typed ∙ type_of_text _ e.attrs d.item.0 e.type is_text) in
            ap s.permits ((==_iff item d.item).0 same)
            ∙ ap (λ t. s.permits (t, d.item.1)) (sym typed)
            ∙ this
      ]

  -- If a list of elements passes the list serializer, with the RR set serializer for each of them, and
  -- is saved, then no row changes of an RR set that the token may not write; saving never breaks a
  -- constraint. The texts of the keys are kept, and the empty text is no type that is managed.
  pub bulk_update-permitted_kept :
      member "" c.manageable ≡ false
      → (canonical : String → String → Option String) (partial : Bool) (known : List Item)
        (elements : List Element) (db : Db) (ds : List Data)
      → to_internal_value
          (validate_element is_taken s message read c)
          c.domain
          partial
          known
          elements
          db
        ≡ ok ds
      → (update_all canonical c.domain ds db ≢ err (database integrity_error))
        × ((after : Effect)
            → update_all canonical c.domain ds db ≡ ok after
            → (item : Item) → s.permits item ≡ false
            → rrsets_at c.domain item (after.0).rrsets ≡ rrsets_at c.domain item db.rrsets)
  unfolding to_internal_value
  bulk_update-permitted_kept named_types canonical partial known elements db ds h =
      let run = validate_element is_taken s message read c in
      let checked = map check_types elements in
      let indices = index_elements c.domain db 0 checked [] in
      let passed_all =
        check_elements-AllPassed run validate_element-IsKeeping partial known indices
          (collapse 0 checked indices) 0 checked ds h in
      let distinct =
        to_internal_value-distinct run c.domain partial known elements db ds
          validate_element-IsKeeping h in
      (
        to_internal_value-update_all_kept canonical run c.domain partial known elements db ds
            validate_element-IsKeeping h,
        λ after saved item refused.
            let all_of =
              all_permitted named_types partial known indices (collapse 0 checked indices) 0 checked
                ds item passed_all in
            (update_all-IsUpdated canonical c.domain ds db after distinct saved).unnamed item
              (ground arith),
      )
