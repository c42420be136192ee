-- ===== src/Element/Steps.antt =====
-- serializers/records.py `RRsetSerializer`: the steps of a validation that accepts an RR set.
use desec_stack.Common.{
  ◌≤◌, String, ◌≡◌, refl, sym, ap, ◌∙◌, Bool, true, false, ◌&&◌, Option, List, [], ◌∷◌, ◌++◌, arith,
  ltb, ◌==◌, nat_eq, string_eq, pair_eq, option_eq, Result, ok, err, ◌>>◌, >>=-eq-ok, passed,
  ok_same, any,
}
use desec_stack.Element.{
  Attrs, Setting, Services, FieldIssue, Rejection, in_fields, not_unique_together,
  duplicate_records, max_length, blocked_content, ns_locked, issue_when, unless, type_issues,
  subname_issues, ttl_issues, records_issues, named, all_issues, defaulted, read_fields, type_of,
  check_permission, check_exclusion,
}
use desec_stack.Element.Validate.{
  canonical_records, has_duplicates, conservative_total_length, check_records, is_locked,
  checked_records, validate, run_validation,
}
use mathlib.Core.Path.{subst}

pub append_empty : {A : Type 0} (xs ys : List A) → xs ++ ys ≡ [] → (xs ≡ []) × (ys ≡ [])
append_empty [] ys h = (refl, h)
append_empty (x ∷ xs) ys h = absurd (ground arith)

named_empty : (field : String) (issues : List FieldIssue) → named field issues ≡ [] → issues ≡ []
named_empty field [] h = refl
named_empty field (i ∷ issues) h = absurd (ground arith)

pub issue_when_empty : (b : Bool) (i : FieldIssue) → issue_when b i ≡ [] → b ≡ false
issue_when_empty true i h = absurd (ground arith)
issue_when_empty false i h = refl

pub unless_empty : (xs ys : List FieldIssue) → unless xs ys ≡ [] → (xs ≡ []) × (ys ≡ [])
unless_empty [] ys h = (refl, h)
unless_empty (x ∷ xs) ys h = absurd (ground arith)

-- No field has an issue.
pub record IsClear (s : Services) (c : Setting) (sent : Attrs) : Type 0 where
  pub subname : subname_issues s c sent.subname ≡ []
  pub records : records_issues c sent.records ≡ []
  pub ttl : ttl_issues c sent.ttl ≡ []
  pub type : type_issues s c sent.type ≡ []

all_issues-IsClear :
    (s : Services) (c : Setting) (sent : Attrs) → all_issues s c sent ≡ [] → IsClear s c sent
unfolding all_issues
all_issues-IsClear s c sent h =
    let subnames = named "subname" (subname_issues s c sent.subname) in
    let records = named "records" (records_issues c sent.records) in
    let ttls = named "ttl" (ttl_issues c sent.ttl) in
    let (h1, e) =
      append_empty (subnames ++ records ++ ttls) (named "type" (type_issues s c sent.type)) h in
    let (h2, d) = append_empty (subnames ++ records) ttls h1 in
    let (a, b) = append_empty subnames records h2 in
    record {
      subname = named_empty "subname" _ a;
      records = named_empty "records" _ b;
      ttl = named_empty "ttl" _ d;
      type = named_empty "type" _ e;
    }

answered :
    (issues : List (String × FieldIssue)) (read : Attrs) {a : Attrs}
    → ◌≡◌ {A = Result Rejection Attrs}
        (elim issues [ [] ↦ ok read | i ∷ is ↦ err (in_fields (i ∷ is)) ])
        (ok a)
    → (issues ≡ []) × (a ≡ read)
answered [] read h = (refl, sym (ok_same h))
answered (i ∷ is) read h = absurd (ground arith)

pub read_fields-IsClear :
    (s : Services) (c : Setting) (sent : Attrs) {a : Attrs}
    → read_fields s c sent ≡ ok a
    → IsClear s c sent × (a ≡ record sent { subname = defaulted c.partial sent.subname })
unfolding read_fields
read_fields-IsClear s c sent h =
    let read = record sent { subname = defaulted c.partial sent.subname } in
    let (e, f) = answered (all_issues s c sent) read h in (all_issues-IsClear s c sent e, f)

-- The steps of a validation that accepts.
pub record IsRun (is_taken : Setting → Attrs → Bool) (s : Services) (c : Setting) (sent a : Attrs)
    : Type 0 where
  pub read : Attrs
  pub clear : IsClear s c sent
  pub defaults : read ≡ record sent { subname = defaulted c.partial sent.subname }
  pub permission : check_permission s c read ≡ ok tt
  pub unique : is_taken c read ≡ false
  pub exclusion : check_exclusion c read ≡ ok tt
  pub validated : validate s c read ≡ ok a

unit_ok :
    {E B : Type 0} (r : Result E (Unit {0})) (next : Result E B) {b : B}
    → (r >> next) ≡ ok b
    → (r ≡ ok tt) × (next ≡ ok b)
unit_ok (err e) next h = absurd (ground arith)
unit_ok (ok tt) next h = (refl, h)

pub run_validation-IsRun :
    (is_taken : Setting → Attrs → Bool) (s : Services) (c : Setting) (sent : Attrs) {a : Attrs}
    → run_validation is_taken s c sent ≡ ok a
    → IsRun is_taken s c sent a
unfolding run_validation
run_validation-IsRun is_taken s c sent h =
    let (read, r, h1) = >>=-eq-ok (read_fields s c sent) _ h in
    let (clear, defaults) = read_fields-IsClear s c sent r in
    let (permission, h2) = unit_ok (check_permission s c read) _ h1 in
    let (unique, h3) = passed (is_taken c read) not_unique_together _ h2 in
    let (exclusion, h4) = unit_ok (check_exclusion c read) _ h3 in
    record {
      read = read;
      clear = clear;
      defaults = defaults;
      permission = permission;
      unique = unique;
      exclusion = exclusion;
      validated = h4;
    }

-- What the parts of `validate` accept.
pub record IsValidated (s : Services) (c : Setting) (read a : Attrs) : Type 0 where
  pub type : String
  pub typed : type_of c read ≡ ok type
  pub checked : checked_records s c type read ≡ ok a
  pub unlocked : is_locked c type a ≡ ok false

pub validate-IsValidated :
    (s : Services) (c : Setting) (read : Attrs) {a : Attrs}
    → validate s c read ≡ ok a
    → IsValidated s c read a
unfolding validate
validate-IsValidated s c read h =
    let (type, t, h1) = >>=-eq-ok (type_of c read) _ h in
    let (checked, e, h2) = >>=-eq-ok (checked_records s c type read) _ h1 in
    let (locked, l, h3) = >>=-eq-ok (is_locked c type checked) _ h2 in
    let (free, h4) = passed locked ns_locked _ h3 in
    let same = ok_same h4 in
    record {
      type = type;
      typed = t;
      checked = e ∙ ap ok same;
      unlocked = ap (is_locked c type) (sym same) ∙ l ∙ ap ok free;
    }

-- What the checks of the records accept.
pub record IsChecked (s : Services) (c : Setting) (type : String) (subname : Option String)
    (sent records : List String) : Type 0 where
  pub canonical : canonical_records s type sent ≡ ok records
  pub distinct : has_duplicates s type records ≡ false
  pub size : conservative_total_length c subname records ≤ 65535
  pub unblocked : (type == "A" && c.is_locally_registrable && any s.is_blocked records) ≡ false

pub check_records-IsChecked :
    (s : Services) (c : Setting) (type : String) (subname : Option String) (sent : List String)
    {records : List String}
    → check_records s c type subname sent ≡ ok records
    → IsChecked s c type subname sent records
unfolding check_records
check_records-IsChecked s c type subname sent h =
    let (canonical, e, h1) = >>=-eq-ok (canonical_records s type sent) _ h in
    let (d, h2) = passed (has_duplicates s type canonical) duplicate_records _ h1 in
    let (l, h3) =
      passed (ltb 65535 (conservative_total_length c subname canonical)) max_length _ h2 in
    let (b, h4) =
      passed (type == "A" && c.is_locally_registrable && any s.is_blocked canonical) blocked_content
        _ h3 in
    let same = ok_same h4 in
    let size : conservative_total_length c subname canonical ≤ 65535 = ground arith in
    record {
      canonical = e ∙ ap ok same;
      distinct = ap (has_duplicates s type) (sym same) ∙ d;
      size = subst (λ rs. conservative_total_length c subname rs ≤ 65535) same size;
      unblocked =
          ap (λ rs. type == "A" && c.is_locally_registrable && any s.is_blocked rs) (sym same) ∙ b;
    }
