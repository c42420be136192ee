-- ===== src/Element/Missing.antt =====
-- serializers/records.py `RRsetSerializer.validate`: an RR set that is not there.
use desec_stack.Common.{
  ◌≤◌, String, ◌≡◌, refl, sym, ap, inl, inr, false, Option, none, some, [], arith, ltb,
  if◌then◌else◌, Bool-cases, ◌==◌, nat_eq, string_eq, pair_eq, option_eq, ok, err,
}
use desec_stack.Element.{Attrs, Setting, Services, attribute_error, type_of}
use desec_stack.Element.Validate.{
  canonical_records, has_duplicates, conservative_total_length, check_records, is_locked,
  checked_records, validate,
}

type_of_sent :
    (c : Setting) (a : Attrs) (type : String)
    → a.type ≡ some type
    → (type == "") ≡ false
    → type_of c a ≡ ok type
unfolding type_of
type_of_sent c a type e n = ground arith

check_records-empty :
    (s : Services) (c : Setting) (subname : Option String)
    → conservative_total_length c subname [] ≤ 65535
    → check_records s c "NS" subname [] ≡ ok []
unfolding check_records canonical_records has_duplicates
check_records-empty s c subname small =
    let fits : ltb 65535 (conservative_total_length c subname []) ≡ false = ground arith in
    rw fits refl

checked_records-empty :
    (s : Services) (c : Setting) (a : Attrs)
    → a.records ≡ some []
    → conservative_total_length c a.subname [] ≤ 65535
    → checked_records s c "NS" a ≡ ok a
unfolding checked_records
checked_records-empty s c a empty small =
    let checked = check_records-empty s c a.subname small in
    let same : ◌≡◌ {A = Attrs} (record a { records = some [] }) a =
      ap (λ r. record a { records = r }) (sym empty) in
    ground arith

is_locked-missing :
    (c : Setting) (a : Attrs)
    → c.instance_of ≡ none
    → a.records ≡ some []
    → is_locked c "NS" a ≡ (if c.is_locally_registrable then err attribute_error else ok false)
unfolding is_locked
is_locked-missing c a none_there empty = ground arith

-- Where no RR set is there, an element of type NS with no records, which asks for nothing to be done,
-- is answered with an AttributeError in a locally registrable domain, and is accepted in any other.
pub validate-missing :
    (s : Services) (c : Setting) (a : Attrs)
    → c.instance_of ≡ none
    → a.type ≡ some "NS"
    → a.records ≡ some []
    → conservative_total_length c a.subname [] ≤ 65535
    → validate s c a ≡ (if c.is_locally_registrable then err attribute_error else ok a)
unfolding validate
validate-missing s c a none_there ns empty small =
    let t = type_of_sent c a "NS" ns refl in
    let checked = checked_records-empty s c a empty small in
    let locked = is_locked-missing c a none_there empty in
    elim (Bool-cases c.is_locally_registrable) [
      | inl l ↦ rw t (rw checked (rw locked (rw l refl)))
      | inr l ↦ rw t (rw checked (rw locked (rw l refl)))
    ]
