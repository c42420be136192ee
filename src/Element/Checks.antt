-- ===== src/Element/Checks.antt =====
-- serializers/records.py `RRsetSerializer`: the tests that an RR set has passed with its validation.
use desec_stack.Common.{
  ℕ, ◌≤◌, String, ◌≡◌, sym, ap, ◌∙◌, inl, inr, Bool, true, false, ◌&&◌, none, some, List, [], arith,
  ltb, Bool-cases, Option-cases, ◌==◌, nat_eq, string_eq, pair_eq, option_eq, ok, ◌>>=◌, >>=-eq-ok,
  ok_same, any, member,
}
use desec_stack.Element.{
  Attrs, Setting, Services, above_maximum, below_minimum, issue_when, validate_type, type_issues,
  ttl_issues, type_of, check_permission,
}
use desec_stack.Element.Validate.{
  has_duplicates, conservative_total_length, check_records, is_locked, checked_records,
  run_validation,
}
use desec_stack.Element.Steps.{
  append_empty, issue_when_empty, unless_empty, run_validation-IsRun, validate-IsValidated,
  IsChecked, check_records-IsChecked,
}
use mathlib.Core.Path.{subst}

-- What an RR set that passes has in common with what was read of it.
pub record IsFrom (s : Services) (c : Setting) (type : String) (read a : Attrs) : Type 0 where
  pub same_subname : a.subname ≡ read.subname
  pub same_type : a.type ≡ read.type
  pub same_ttl : a.ttl ≡ read.ttl
  pub same_missing : a.records ≡ none → read.records ≡ none
  pub from :
      (records : List String)
      → a.records ≡ some records
      → (sent : List String) × (read.records ≡ some sent)
        × IsChecked s c type read.subname sent records

given-IsFrom :
    (s : Services) (c : Setting) (type : String) (read : Attrs) (sent : List String) {a : Attrs}
    → read.records ≡ some sent
    → (do
      canonical ← check_records s c type read.subname sent
      ok (record read { records = some canonical }))
      ≡ ok a
    → IsFrom s c type read a
given-IsFrom s c type read sent e h =
    let (canonical, f, k) = >>=-eq-ok (check_records s c type read.subname sent) _ h in
    let same = ok_same k in
    record {
      same_subname = ap (λ (x : Attrs). x.subname) (sym same);
      same_type = ap (λ (x : Attrs). x.type) (sym same);
      same_ttl = ap (λ (x : Attrs). x.ttl) (sym same);
      same_missing = λ n. let i = ap (λ (x : Attrs). x.records) same in absurd (ground arith);
      from = λ records g.
          let i = ap (λ (x : Attrs). x.records) same in
          let j : canonical ≡ records = ground arith in
          (sent, e, check_records-IsChecked s c type read.subname sent (f ∙ ap ok j));
    }

pub checked_records-IsFrom :
    (s : Services) (c : Setting) (type : String) (read : Attrs) {a : Attrs}
    → checked_records s c type read ≡ ok a
    → IsFrom s c type read a
unfolding checked_records
checked_records-IsFrom s c type read {a} h = elim (Option-cases read.records) [
  | inl e ↦
      let same : read ≡ a = ground arith in
      record {
        same_subname = ap (λ (x : Attrs). x.subname) (sym same);
        same_type = ap (λ (x : Attrs). x.type) (sym same);
        same_ttl = ap (λ (x : Attrs). x.ttl) (sym same);
        same_missing = λ _. e;
        from = λ records f. let g = ap (λ (x : Attrs). x.records) same in absurd (ground arith);
      }
  | inr (sent, e) ↦ given-IsFrom s c type read sent e (ground arith)
]

-- What the tests of the validation say of an RR set that passes.
pub record IsTested (s : Services) (c : Setting) (a : Attrs) : Type 0 where
  pub type : String
  pub typed : type_of c a ≡ ok type
  pub permitted : (subname : String) → a.subname ≡ some subname → s.permits (type, subname) ≡ true
  pub managed : (v : String) → a.type ≡ some v → member v c.manageable ≡ true
  pub timed : (ttl : ℕ) → a.ttl ≡ some ttl → (c.minimum_ttl ≤ ttl) × (ttl ≤ c.maximum_ttl)
  pub sized :
      (records : List String)
      → a.records ≡ some records
      → conservative_total_length c a.subname records ≤ 65535
  pub distinct :
      (records : List String) → a.records ≡ some records → has_duplicates s type records ≡ false
  pub unblocked :
      (records : List String)
      → a.records ≡ some records
      → (type == "A" && c.is_locally_registrable && any s.is_blocked records) ≡ false
  pub unlocked : is_locked c type a ≡ ok false

pub type_of_same : (c : Setting) (a b : Attrs) → a.type ≡ b.type → type_of c a ≡ type_of c b
unfolding type_of
type_of_same c a b e = ground arith

permission-permits :
    (s : Services) (c : Setting) (read : Attrs) (type subname : String)
    → check_permission s c read ≡ ok tt
    → type_of c read ≡ ok type
    → read.subname ≡ some subname
    → s.permits (type, subname) ≡ true
unfolding check_permission
permission-permits s c read type subname h t e = elim (Bool-cases (s.permits (type, subname))) [
  | inl p ↦ p
  | inr p ↦ absurd (ground arith)
]

timed :
    (c : Setting) (ttl : ℕ)
    → ttl_issues c (some ttl) ≡ []
    → (c.minimum_ttl ≤ ttl) × (ttl ≤ c.maximum_ttl)
unfolding ttl_issues
timed c ttl h =
    let (a, b) =
      append_empty (issue_when (ltb c.maximum_ttl ttl) above_maximum)
        (issue_when (ltb ttl c.minimum_ttl) below_minimum) h in
    let p = issue_when_empty (ltb c.maximum_ttl ttl) above_maximum a in
    let q = issue_when_empty (ltb ttl c.minimum_ttl) below_minimum b in ground arith

managed :
    (s : Services) (c : Setting) (v : String)
    → type_issues s c (some v) ≡ []
    → member v c.manageable ≡ true
unfolding type_issues validate_type
managed s c v h = let (_, k) = unless_empty _ (validate_type c v) h in ground arith

-- An RR set that passes validation has passed each of its tests.
pub run_validation-IsTested :
    (is_taken : Setting → Attrs → Bool) (s : Services) (c : Setting) (sent a : Attrs)
    → run_validation is_taken s c sent ≡ ok a
    → IsTested s c a
run_validation-IsTested is_taken s c sent a h =
    let run = run_validation-IsRun is_taken s c sent h in
    let v = validate-IsValidated s c run.read run.validated in
    let f = checked_records-IsFrom s c v.type run.read v.checked in
    let types = ap (λ (x : Attrs). x.type) run.defaults in
    let ttls = ap (λ (x : Attrs). x.ttl) run.defaults in
    record {
      type = v.type;
      typed = type_of_same c a run.read f.same_type ∙ v.typed;
      permitted = λ subname e.
          permission-permits s c run.read v.type subname run.permission v.typed
            (sym f.same_subname ∙ e);
      managed = λ t e.
          managed s c t
            (ap (type_issues s c) (sym (sym types ∙ sym f.same_type ∙ e)) ∙ run.clear.type);
      timed = λ ttl e.
          timed c ttl (ap (ttl_issues c) (sym (sym ttls ∙ sym f.same_ttl ∙ e)) ∙ run.clear.ttl);
      sized = λ records e.
          let (sent2, g, k) = f.from records e in
          subst (λ n. conservative_total_length c n records ≤ 65535) (sym f.same_subname) k.size;
      distinct = λ records e. let (sent2, g, k) = f.from records e in k.distinct;
      unblocked = λ records e. let (sent2, g, k) = f.from records e in k.unblocked;
      unlocked = v.unlocked;
    }
