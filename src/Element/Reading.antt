-- ===== src/Element/Reading.antt =====
-- serializers/records.py: the RR set serializer as the validation of one element of a list.
use desec_stack.Common.{
  ℕ, String, ◌≡◌, ap, ◌∙◌, inl, inr, Bool, true, false, not, ◌&&◌, Option, none, some, List, [],
  ◌∷◌, arith, if◌then◌else◌, Option-cases, ◌==◌, nat_eq, string_eq, pair_eq, option_eq, Result, ok,
  err, Result-cases, keep, is_empty,
}
use desec_stack.Db.{RRset}
use desec_stack.Element.{Attrs, Setting, Services, Rejection, missing_kwarg}
use desec_stack.Element.Validate.{run_validation}
use desec_stack.Bulk.{Data}
use desec_stack.Validation.{RecordsField, Key, is_nonempty}

abbrev pub has_no_records : Option (List String) → Bool
has_no_records none = false
has_no_records (some records) = is_empty records

-- A reading of an element that leaves the texts of its key and its list of records.
pub record IsExact (read : ℕ → Key → RecordsField → Attrs) : Type 0 where
  pub subname : (i : ℕ) (k : Key) (r : RecordsField) → (read i k r).subname ≡ k.0
  pub type : (i : ℕ) (k : Key) (r : RecordsField) → (read i k r).type ≡ k.1
  pub records :
      (i : ℕ) (k : Key) (r : RecordsField)
      → has_no_records (read i k r).records ≡ not (is_nonempty r)

-- `attrs["subname"]` and `attrs["type"]`, which the list serializer relies on
abbrev pub to_data : Attrs → Option Data
to_data a = elim a.subname [
  | none ↦ none
  | some subname ↦ elim a.type [
    | none ↦ none
    | some type ↦ some (record { item = (type, subname); ttl = a.ttl; records = a.records })
  ]
]

module _ (is_taken : Setting → Attrs → Bool) (s : Services) (message : Rejection → String)
    (read : ℕ → Key → RecordsField → Attrs) (c : Setting) where
  -- the row that `known_instances` has under the key
  abbrev pub instance_at : Key → Bool → Option RRset
  instance_at k known =
      if known
      then (elim (keep (λ r. r.domain == c.domain && some r.item.1 == k.0 && some r.item.0 == k.1)
          c.rrsets) [ [] ↦ none | r ∷ rs ↦ some r ])
      else none

  -- `self.child.run_validation(item)` with `partial` and `instance` set by the list serializer
  abbrev pub setting_of : Key → Bool → Bool → Setting
  setting_of k partial known = record c {
    is_many = true;
    partial = partial;
    instance_of = instance_at k known;
  }

  abbrev pub accepted_data : Result Rejection Attrs → Result String Data
  accepted_data (err e) = err (message e)
  accepted_data (ok a) = elim (to_data a) [ none ↦ err (message missing_kwarg) | some d ↦ ok d ]

  unfoldable pub validate_element : ℕ → Key → RecordsField → Bool → Bool → Result String Data
  unfolding run_validation
  validate_element i k r partial known =
      accepted_data (run_validation is_taken s (setting_of k partial known) (read i k r))

  -- What an element that is accepted has gone through.
  pub record IsElement (i : ℕ) (k : Key) (r : RecordsField) (partial known : Bool) (d : Data)
      : Type 0 where
    pub attrs : Attrs
    pub accepted : run_validation is_taken s (setting_of k partial known) (read i k r) ≡ ok attrs
    pub subname : attrs.subname ≡ some d.item.1
    pub type : attrs.type ≡ some d.item.0
    pub records : attrs.records ≡ d.records

  to_data-parts :
      (a : Attrs) (d : Data)
      → to_data a ≡ some d
      → (a.subname ≡ some d.item.1) × (a.type ≡ some d.item.0) × (a.records ≡ d.records)
  to_data-parts a d h = elim (Option-cases a.subname) [
    | inl e ↦ absurd (ground arith)
    | inr (subname, e) ↦ elim (Option-cases a.type) [
      | inl f ↦ absurd (ground arith)
      | inr (type, f) ↦
          let made : ◌≡◌ {A = Data}
              (record { item = (type, subname); ttl = a.ttl; records = a.records }) d =
            ground arith in
          (
            e ∙ ap (λ (x : Data). some x.item.1) made,
            f ∙ ap (λ (x : Data). some x.item.0) made,
            ap (λ (x : Data). x.records) made,
          )
    ]
  ]

  pub validate_element-IsElement :
      (i : ℕ) (k : Key) (r : RecordsField) (partial known : Bool) (d : Data)
      → validate_element i k r partial known ≡ ok d
      → IsElement i k r partial known d
  unfolding validate_element
  validate_element-IsElement i k r partial known d h =
      elim (Result-cases (run_validation is_taken s (setting_of k partial known) (read i k r))) [
        | inr (e, f) ↦ absurd (ground arith)
        | inl (a, f) ↦ elim (Option-cases (to_data a)) [
          | inl n ↦ absurd (ground arith)
          | inr (made, n) ↦
              let same : made ≡ d = ground arith in
              let (p, q, u) = to_data-parts a d (n ∙ ap some same) in
              record { attrs = a; accepted = f; subname = p; type = q; records = u }
        ]
      ]
