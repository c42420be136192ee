-- ===== src/Element.antt =====
-- serializers/records.py `RRsetSerializer`: the validation of one RR set, by fields, by the validators
-- and by `validate`; validators.py for its two validators. What dnspython says of names and contents
-- is a parameter, as are the regular expressions of the fields and the rows of BlockedSubnet.
pub mod Validate
pub mod Steps
pub mod Checks
pub mod Content
pub mod Limits
pub mod Missing
pub mod Reading
pub mod Exact
pub mod Keeping
use desec_stack.Common.{
  ℕ, zero, suc, ◌+◌, ◌-◌, ◌*◌, ◌/◌, ◌%◌, ◌^◌, ◌≤◌, ◌<◌, String, ◌≡◌, refl, sym, ap, ◌∙◌, ◌≢◌, ◌↔◌,
  ◌⊎◌, inl, inr, Bool, true, false, not, xor, ◌&&◌, ◌||◌, Option, none, some, List, [], ◌∷◌, ◌++◌,
  map, arith, ltb, leb, nat_beq, nat_beq_iff, leb→le, ltb→lt, if◌then◌else◌, Bool-cases, differ,
  Option-cases, Eq, ◌==◌, ==_iff, ==_refl, nat_eq, string_eq, pair_eq, option_eq, Result, ok, err,
  ◌>>=◌, ◌>>◌, raise_if, succeeds, >>=-eq-ok, >>=-eq-err, Result-cases, passed, ok_same, length,
  keep, any, all, is_empty, length-append, length-keep-le, any-append, In, In-append_left,
  In-append_right, In-map, In-map_inv, In-keep, keep-In, any-In, In-any, any_mono, In-member,
  member-In, member, add, discard, union, difference, intersection, to_set, member-keep,
  member-append, member-add, member-discard, member-union, member-difference, member-intersection,
  member-to_set, is_empty_of_no_member, member-is_empty, is_distinct, is_distinct-keep,
  is_distinct-append, is_distinct-to_set, set_laws, Dict, get, put, pop, keys, get-put, get-pop,
  keys-get-none, member-keys-put, is_distinct-keys-put, get-keys,
}
use text.Mathlib.Text.{starts_with}
use desec_stack.Db.{Item, RRset}

-- The fields of an RR set that are sent, as the framework has read them.
pub record Attrs : Type 0 where
  pub subname : Option String
  pub type : Option String
  pub ttl : Option ℕ
  pub records : Option (List String)

-- What the serializer knows of the request, the domain and the RR set that is there.
pub record Setting : Type 0 where
  pub domain : String
  pub is_locally_registrable : Bool
  pub rrsets : List RRset
  pub minimum_ttl : ℕ
  pub maximum_ttl : ℕ
  pub manageable : List String
  pub automatic : List String
  pub is_post : Bool
  pub is_many : Bool
  pub partial : Bool
  pub instance_of : Option RRset
  pub view_subname : Option String

-- What dnspython, the regular expressions, the token and the table of blocked subnets say.
pub record Services : Type 0 where
  pub is_subname : String → Bool
  pub is_type : String → Bool
  pub is_name_too_long : String → String → Bool
  pub canonical : String → String → Option String
  pub to_wire : String → String → String
  pub is_blocked : String → Bool
  pub permits : Item → Bool

pub data FieldIssue : Type 0 where
  required_field read_only_on_update malformed_text automatic_type generic_type unsupported_type
        empty_with_post name_too_long above_maximum below_minimum :
      FieldIssue

-- `attribute_error` and `missing_kwarg` are errors of the code, the others are answers.
pub data Rejection : Type 0 where
  in_fields : List (String × FieldIssue) → Rejection
  permission_denied not_unique_together exclusive malformed_record duplicate_records max_length
        blocked_content ns_locked attribute_error missing_kwarg :
      Rejection

abbrev pub issue_when : Bool → FieldIssue → List FieldIssue
issue_when true i = i ∷ []
issue_when false i = []

-- `ReadOnlyOnUpdateValidator`, and the comparison in `validate_subname`
abbrev pub is_other_than : Option String → String → Bool
is_other_than none v = false
is_other_than (some w) v = not (v == w)

abbrev pub instance_type : Setting → Option String
instance_type c = elim c.instance_of [ none ↦ none | some r ↦ some r.item.0 ]

abbrev pub instance_subname : Setting → Option String
instance_subname c = elim c.instance_of [ none ↦ none | some r ↦ some r.item.1 ]

-- `validate_type`
unfoldable pub validate_type : Setting → String → List FieldIssue
unfolding member
validate_type c v =
    if member v c.manageable
    then []
    else if member v c.automatic
    then automatic_type ∷ []
    else if starts_with v "TYPE"
    then generic_type ∷ []
    else unsupported_type ∷ []

-- Only what a field's own validators let pass comes to the serializer's method for it.
abbrev pub unless : List FieldIssue → List FieldIssue → List FieldIssue
unless [] later = later
unless (i ∷ issues) later = i ∷ issues

unfoldable pub type_issues : Services → Setting → Option String → List FieldIssue
unfolding validate_type
type_issues s c none = issue_when (not c.partial) required_field
type_issues s c (some v) =
    unless
      (issue_when (not (s.is_type v)) malformed_text
        ++ issue_when (is_other_than (instance_type c) v) read_only_on_update)
      (validate_type c v)

-- `validate_subname`
unfoldable pub validate_subname : Services → Setting → String → List FieldIssue
validate_subname s c v =
    if is_other_than (instance_subname c) v
    then read_only_on_update ∷ []
    else issue_when (s.is_name_too_long v c.domain) name_too_long

-- A missing subname has the default of `NonBulkOnlyDefault`, which fails in a list or an update.
unfoldable pub subname_issues : Services → Setting → Option String → List FieldIssue
unfolding validate_subname
subname_issues s c none =
    issue_when (not c.partial && (c.is_many || elim c.instance_of [ none ↦ false | some _ ↦ true ]))
      required_field
subname_issues s c (some v) =
    unless (issue_when (not (v == "") && not (s.is_subname v)) malformed_text)
      (validate_subname s c v)

unfoldable pub ttl_issues : Setting → Option ℕ → List FieldIssue
ttl_issues c none = issue_when (not c.partial) required_field
ttl_issues c (some ttl) =
    issue_when (ltb c.maximum_ttl ttl) above_maximum
    ++ issue_when (ltb ttl c.minimum_ttl) below_minimum

-- `validate_records`
unfoldable pub records_issues : Setting → Option (List String) → List FieldIssue
records_issues c none = issue_when (not c.partial) required_field
records_issues c (some records) = issue_when (c.is_post && is_empty records) empty_with_post

abbrev pub named : String → List FieldIssue → List (String × FieldIssue)
named field issues = map (λ i. (field, i)) issues

unfoldable pub all_issues : Services → Setting → Attrs → List (String × FieldIssue)
unfolding type_issues subname_issues ttl_issues records_issues
all_issues s c a =
    named "subname" (subname_issues s c a.subname)
    ++ named "records" (records_issues c a.records)
    ++ named "ttl" (ttl_issues c a.ttl)
    ++ named "type" (type_issues s c a.type)

abbrev pub defaulted : Bool → Option String → Option String
defaulted partial none = if partial then none else some ""
defaulted partial (some v) = some v

-- The attributes that the fields give.
unfoldable pub read_fields : Services → Setting → Attrs → Result Rejection Attrs
unfolding all_issues
read_fields s c a = elim (all_issues s c a) [
  | [] ↦ ok (record a { subname = defaulted c.partial a.subname })
  | i ∷ issues ↦ err (in_fields (i ∷ issues))
]

-- `attrs.get("type") or self.instance.type`
unfoldable pub type_of : Setting → Attrs → Result Rejection String
type_of c a =
    let stored : Result Rejection String = elim c.instance_of [
      | none ↦ err attribute_error
      | some r ↦ ok r.item.0
    ] in
    elim a.type [ none ↦ stored | some v ↦ if v == "" then stored else ok v ]

-- `PermissionValidator`; the token's policies are behind `permits`
unfoldable pub check_permission : Services → Setting → Attrs → Result Rejection (Unit {0})
unfolding type_of
check_permission s c a = do
  subname ← elim a.subname [
    | some v ↦ ok v
    | none ↦ elim c.view_subname [ none ↦ err missing_kwarg | some v ↦ ok v ]
  ]
  type ← type_of c a
  raise_if (not (s.permits (type, subname))) permission_denied

abbrev pub or_stored : Option String → Option String → Option String
or_stored none stored = stored
or_stored (some v) stored = some v

-- The rows that `ExclusionConstraintValidator` finds: those of a type that may not stand beside.
unfoldable pub is_exclusive : Setting → String → Option String → Bool
is_exclusive c type none = false
is_exclusive c type (some subname) =
    any
      (λ r.
        r.domain == c.domain
        && r.item.1 == subname
        && differ (r.item.0 == "CNAME") (type == "CNAME"))
      c.rrsets

unfoldable pub check_exclusion : Setting → Attrs → Result Rejection (Unit {0})
unfolding type_of is_exclusive
check_exclusion c a = if c.is_many then ok tt else (do
  type ← type_of c a
  raise_if (is_exclusive c type (or_stored a.subname (instance_subname c))) exclusive)
