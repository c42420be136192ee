-- ===== src/Validation/Collapse.antt =====
-- What remains in the index once the elements without records are taken out.
use desec_stack.Common.{
  ℕ, suc, String, ◌≡◌, refl, sym, ap, ◌∙◌, inl, inr, Bool, true, false, not, ◌&&◌, ◌||◌, Option,
  none, some, List, [], ◌∷◌, arith, if◌then◌else◌, Bool-cases, differ, ◌==◌, ==_iff, nat_eq,
  string_eq, pair_eq, option_eq, keep, any, is_empty, member, discard, member-discard,
  member-is_empty, Dict, get,
}
use desec_stack.Validation.{
  RecordsField, missing, empty, filled, Key, Position, Indices, Checked, failed, keyed, or_empty,
  positions, set_positions, collapse, is_cname, conflicting, is_nonempty,
}
use desec_stack.Validation.Index.{positions-set_positions}

abbrev pub is_emptied : RecordsField → Bool
is_emptied r = not (is_nonempty r)

-- A position that no emptied element under the key takes out, its own position or that of the database.
abbrev pub IsKept : Position → Key → ℕ → List Checked → Type 0
IsKept p k idx [] = Unit {0}
IsKept p k idx (failed es ∷ cs) = IsKept p k (suc idx) cs
IsKept p k idx (keyed j r ∷ cs) =
    ((is_emptied r && k == j && (p == some idx || p == none)) ≡ false) × IsKept p k (suc idx) cs

positions_kept :
    (p : Position) (k j : Key) (idx : ℕ) (indices : Indices)
    → (k == j && (p == some idx || p == none)) ≡ false
    → member p (positions k indices) ≡ true
    → member p (
        positions k
          (set_positions j (discard none (discard (some idx) (positions j indices))) indices))
      ≡ true
positions_kept p k j idx indices here m =
    ap (member p) (positions-set_positions k j rest indices) ∙ by_test (k == j) refl
  where
    rest : List Position
    rest = discard none (discard (some idx) (positions j indices))

    by_test : (b : Bool) → (k == j) ≡ b → member p (if b then rest else positions k indices) ≡ true
    by_test false e = m
    by_test true e =
        let z : k ≡ j = (==_iff k j).0 e in
        let there : member p (positions j indices) ≡ true =
          ap (λ x. member p (positions x indices)) (sym z) ∙ m in
        let a : (p == some idx) ≡ false = ground arith in
        let b : (p == none) ≡ false = ground arith in
        member-discard p none (discard (some idx) (positions j indices))
        ∙ ground (arith, member-discard p (some idx) (positions j indices))

pub collapse-member :
    (p : Position) (k : Key) (idx : ℕ) (cs : List Checked) (indices : Indices)
    → IsKept p k idx cs
    → member p (positions k indices) ≡ true
    → member p (positions k (collapse idx cs indices)) ≡ true
unfolding collapse
collapse-member p k idx [] indices kept m = m
collapse-member p k idx (failed es ∷ cs) indices kept m =
    collapse-member p k (suc idx) cs indices kept m
collapse-member p k idx (keyed j missing ∷ cs) indices (_, kept) m =
    collapse-member p k (suc idx) cs indices kept m
collapse-member p k idx (keyed j filled ∷ cs) indices (_, kept) m =
    collapse-member p k (suc idx) cs indices kept m
collapse-member p k idx (keyed j empty ∷ cs) indices (here, kept) m =
    collapse-member p k (suc idx) cs
      (set_positions j (discard none (discard (some idx) (positions j indices))) indices) kept
      (positions_kept p k j idx indices here m)

any_type :
    (p : Position) (t u : Option String) (types : Dict (Option String) (List Position))
    → differ (is_cname t) (is_cname u) ≡ true
    → member p (or_empty (get t types)) ≡ true
    → any (λ e. not (is_empty e.1)) (keep (λ e. differ (is_cname e.0) (is_cname u)) types) ≡ true
unfolding get member keep
any_type p t u [] c h = absurd (ground arith)
any_type p t u ((v, ps) ∷ types) c h = elim (Bool-cases (t == v)) [
  | inl e ↦
      (let z : t ≡ v = (==_iff t v).0 e in
        let d : differ (is_cname v) (is_cname u) ≡ true =
          ap (λ x. differ (is_cname x) (is_cname u)) (sym z) ∙ c in
        let n : is_empty ps ≡ false = ground (arith, member-is_empty p ps) in ground arith)
  | inr e ↦ ground (arith, any_type p t u types c)
]

-- A conflicting type with a position is found.
pub conflicting-any :
    (p : Position) (k : Key) (t : Option String) (collapsed : Indices)
    → differ (is_cname t) (is_cname k.1) ≡ true
    → member p (positions (k.0, t) collapsed) ≡ true
    → any (λ e. not (is_empty e.1)) (conflicting k collapsed) ≡ true
unfolding conflicting positions
conflicting-any p k t collapsed c m = any_type p t k.1 (or_empty (get k.0 collapsed)) c m
