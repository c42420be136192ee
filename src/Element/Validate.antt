-- ===== src/Element/Validate.antt =====
-- serializers/records.py `RRsetSerializer.validate` with the checks of the records, and the whole of
-- `run_validation` in the order of the REST framework. `is_taken` stands for its
-- `UniqueTogetherValidator`.
use desec_stack.Common.{
  ℕ, ◌+◌, String, Bool, true, false, not, ◌&&◌, Option, none, some, List, [], ◌∷◌, map, ltb,
  nat_beq, if◌then◌else◌, ◌==◌, nat_eq, string_eq, pair_eq, option_eq, Result, ok, err, ◌>>=◌, ◌>>◌,
  raise_if, length, any, is_empty, to_set,
}
use desec_stack.Element.{
  Attrs, Setting, Services, Rejection, not_unique_together, malformed_record, duplicate_records,
  max_length, blocked_content, ns_locked, attribute_error, read_fields, type_of, check_permission,
  check_exclusion,
}
use Prim.Native.String.{len}
use desec_stack.Context.Data.{construct_name}

-- `_validate_canonical_presentation`
unfoldable pub canonical_records : Services → String → List String → Result Rejection (List String)
canonical_records s type [] = ok []
canonical_records s type (content ∷ records) =
    let rest = canonical_records s type records in
    elim (s.canonical content type) [
      | none ↦ err malformed_record
      | some text ↦ do others ← rest; ok (text ∷ others)
    ]

-- `_validate_ci_uniqueness`
unfoldable pub has_duplicates : Services → String → List String → Bool
unfolding to_set
has_duplicates s type records =
    ltb 1 (length records)
    && not (nat_beq (length records) (length (to_set (map (s.to_wire type) records))))

unfoldable pub total_size : List String → ℕ
total_size [] = 0
total_size (content ∷ records) = 12 + len content + total_size records

-- `conservative_total_length`, for texts in ASCII, as canonical contents and valid names are
unfoldable pub conservative_total_length : Setting → Option String → List String → ℕ
unfolding total_size construct_name
conservative_total_length c subname records =
    let qname = construct_name (elim subname [ none ↦ "" | some v ↦ v ]) c.domain in
    32 + len qname + total_size records + 256

-- The checks of `validate` that need records.
unfoldable pub check_records :
    Services → Setting → String → Option String → List String → Result Rejection (List String)
unfolding canonical_records has_duplicates conservative_total_length
check_records s c type subname records = do
  canonical ← canonical_records s type records
  raise_if (has_duplicates s type canonical) duplicate_records
  raise_if (ltb 65535 (conservative_total_length c subname canonical)) max_length
  raise_if (type == "A" && c.is_locally_registrable && any s.is_blocked canonical) blocked_content
  ok canonical

abbrev pub is_truthy : Option (List String) → Bool
is_truthy none = true
is_truthy (some records) = not (is_empty records)

-- `not attrs.get("subname", self.instance.subname)`, which reads the instance in any case
abbrev pub is_apex : Setting → Attrs → Result Rejection Bool
is_apex c a = elim c.instance_of [
  | none ↦ err attribute_error
  | some r ↦ ok (elim a.subname [ none ↦ r.item.1 == "" | some v ↦ v == "" ])
]

-- `type_ == "NS" and self.domain.is_locally_registrable and (...)`
unfoldable pub is_locked : Setting → String → Attrs → Result Rejection Bool
is_locked c type a =
    if type == "NS" && c.is_locally_registrable
    then if is_truthy a.records then ok true else is_apex c a
    else ok false

-- the attributes with the canonical records, if there are any
unfoldable pub checked_records : Services → Setting → String → Attrs → Result Rejection Attrs
unfolding check_records
checked_records s c type a = elim a.records [
  | none ↦ ok a
  | some records ↦ do
    canonical ← check_records s c type a.subname records
    ok (record a { records = some canonical })
]

-- `validate`
unfoldable pub validate : Services → Setting → Attrs → Result Rejection Attrs
unfolding type_of checked_records is_locked
validate s c a = do
  type ← type_of c a
  checked ← checked_records s c type a
  locked ← is_locked c type checked
  raise_if locked ns_locked
  ok checked

-- `run_validation` of `RRsetSerializer`
unfoldable pub run_validation :
    (Setting → Attrs → Bool) → Services → Setting → Attrs → Result Rejection Attrs
unfolding read_fields check_permission check_exclusion validate
run_validation is_taken s c sent = do
  a ← read_fields s c sent
  check_permission s c a
  raise_if (is_taken c a) not_unique_together
  check_exclusion c a
  validate s c a
