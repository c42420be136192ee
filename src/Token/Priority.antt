-- ===== src/Token/Priority.antt =====
-- Which policy `get_policy` finds: of those that match, the one of least priority number in the table
-- of docs/auth/tokens.rst.
use desec_stack.Common.{
  In-keep, keep-In, ℕ, ◌+◌, ◌*◌, ◌≤◌, String, ◌≡◌, refl, sym, inl, inr, true, false, Option, none,
  some, List, [], ◌∷◌, arith, ltb, Bool-cases, ==_iff, nat_eq, string_eq, pair_eq, keep, In,
}
use desec_stack.Token.{
  Policy, Token, Target, field_matches, matches, field_order, and_then, is_lt, comes_before,
  first_of_order, get_policy,
}
use Prim.Native.Nat.{compare}
use native.Mathlib.Nat.{le_refl, le_trans}
use text.Mathlib.TextPositions.{compare_refl}

-- 1 for a null
abbrev pub null_weight : Option String → ℕ
null_weight none = 1
null_weight (some v) = 0

-- The priority of the table in docs/auth/tokens.rst, from 1 to 8.
abbrev pub priority : Policy → ℕ
priority p = 1 + 4 * null_weight p.domain + 2 * null_weight p.subname + null_weight p.type

field_order-weights :
    (v a b : Option String)
    → field_matches v a ≡ true
    → field_matches v b ≡ true
    → field_order a b ≡ compare (null_weight a) (null_weight b)
field_order-weights v none none h k = refl
field_order-weights v none (some x) h k = refl
field_order-weights v (some x) none h k = refl
field_order-weights none (some x) (some y) h k = absurd (ground arith)
field_order-weights (some v) (some x) (some y) h k =
    let e : x ≡ v = sym ((==_iff v x).0 h) in
    let f : y ≡ v = sym ((==_iff v y).0 k) in rw (e, f) (compare_refl v)

lexicographic :
    (a b c x y z : ℕ)
    → a ≤ 1
    → b ≤ 1
    → c ≤ 1
    → x ≤ 1
    → y ≤ 1
    → z ≤ 1
    → is_lt (and_then (compare a x) (and_then (compare b y) (compare c z)))
      ≡ ltb (1 + 4 * a + 2 * b + c) (1 + 4 * x + 2 * y + z)
lexicographic a b c x y z h1 h2 h3 h4 h5 h6 = ground arith

weight-le : (a : Option String) → null_weight a ≤ 1
weight-le none = omega arith
weight-le (some v) = omega arith

-- Among policies that match, the order is that of the priorities.
comes_before-priority :
    (t : Target) (p q : Policy)
    → matches t p ≡ true
    → matches t q ≡ true
    → comes_before p q ≡ ltb (priority p) (priority q)
unfolding comes_before matches
comes_before-priority t p q h k =
    rw
      (
        field_order-weights t.domain p.domain q.domain (ground arith) (ground arith),
        field_order-weights t.subname p.subname q.subname (ground arith) (ground arith),
        field_order-weights t.type p.type q.type (ground arith) (ground arith),
      )
      (lexicographic _ _ _ _ _ _ (weight-le p.domain) (weight-le p.subname) (weight-le p.type)
        (weight-le q.domain) (weight-le q.subname) (weight-le q.type))

-- The policy that is first in the order, among policies that all match.
pub record IsBest (t : Target) (ps : List Policy) (p : Policy) : Type 0 where
  pub listed : In p ps
  pub matching : matches t p ≡ true
  pub least : (q : Policy) → In q ps → matches t q ≡ true → priority p ≤ priority q

first_of_order-none : (ps : List Policy) → first_of_order ps ≡ none → ps ≡ []
unfolding first_of_order
first_of_order-none [] h = refl
first_of_order-none (x ∷ ps) h = absurd (ground arith)

IsBest-head :
    (t : Target) (x : Policy) (ps : List Policy)
    → matches t x ≡ true
    → ((q : Policy) → In q ps → matches t q ≡ true → priority x ≤ priority q)
    → IsBest t (x ∷ ps) x
IsBest-head t x ps m l = record { listed = inl refl; matching = m; least = λ q i k. smaller q i k }
  where
    smaller : (q : Policy) → In q (x ∷ ps) → matches t q ≡ true → priority x ≤ priority q
    smaller q (inl e) k = rw e (le_refl (priority x))
    smaller q (inr i) k = l q i k

IsBest-tail :
    (t : Target) (x : Policy) (ps : List Policy) (b : Policy)
    → IsBest t ps b
    → priority b ≤ priority x
    → IsBest t (x ∷ ps) b
IsBest-tail t x ps b v l = record {
  listed = inr v.listed;
  matching = v.matching;
  least = λ q i k. smaller q i k;
}
  where
    smaller : (q : Policy) → In q (x ∷ ps) → matches t q ≡ true → priority b ≤ priority q
    smaller q (inl e) k = rw e l
    smaller q (inr i) k = v.least q i k

first_of_order-IsBest :
    (t : Target) (ps : List Policy)
    → ((q : Policy) → In q ps → matches t q ≡ true)
    → (p : Policy) → first_of_order ps ≡ some p
    → IsBest t ps p
unfolding first_of_order
first_of_order-IsBest t [] all_match p h = absurd (ground arith)
first_of_order-IsBest t (x ∷ ps) all_match p h =
    split (first_of_order ps) refl (first_of_order-IsBest t ps (λ q i. all_match q (inr i)))
  where
    x_matches : matches t x ≡ true
    x_matches = all_match x (inl refl)

    split :
        (o : Option Policy)
        → first_of_order ps ≡ o
        → ((b : Policy) → first_of_order ps ≡ some b → IsBest t ps b)
        → IsBest t (x ∷ ps) p
    split none e ih =
        let same : x ≡ p = ground arith in
        rw (← same)
          (IsBest-head t x ps x_matches (λ q i k. absurd (rw (first_of_order-none ps e) at i)))
    split (some b) e ih =
        let v = ih b e in
        let order = comes_before-priority t b x v.matching x_matches in
        elim (Bool-cases (comes_before b x)) [
          | inl c ↦
              (let same : b ≡ p = ground arith in
                rw (← same) (IsBest-tail t x ps b v (ground arith)))
          | inr c ↦
              (let same : x ≡ p = ground arith in
                let least : priority x ≤ priority b = ground arith in
                rw (← same)
                  (IsBest-head t x ps x_matches (λ q i k. le_trans least (v.least q i k))))
        ]

-- The policy that `get_policy` returns is one of the token's that match, and no other one that matches
-- has a smaller number in the table of priorities; it returns none only if none matches.
pub get_policy-IsBest :
    (k : Token) (t : Target)
    → ((p : Policy) → get_policy k t ≡ some p → IsBest t k.policies p)
      × (get_policy k t ≡ none → (q : Policy) → In q k.policies → matches t q ≡ false)
unfolding get_policy
get_policy-IsBest k t = (λ p h. found p h, λ h q i. missed h q i)
  where
    all_match : (q : Policy) → In q (keep (matches t) k.policies) → matches t q ≡ true
    all_match q i = (In-keep (matches t) q k.policies i).1

    found :
        (p : Policy) → first_of_order (keep (matches t) k.policies) ≡ some p → IsBest t k.policies p
    found p h =
        let b = first_of_order-IsBest t (keep (matches t) k.policies) all_match p h in
        record {
          listed = (In-keep (matches t) p k.policies b.listed).0;
          matching = b.matching;
          least = λ q i m. b.least q (keep-In (matches t) q k.policies i m) m;
        }

    missed :
        first_of_order (keep (matches t) k.policies) ≡ none
        → (q : Policy) → In q k.policies
        → matches t q ≡ false
    missed h q i = elim (Bool-cases (matches t q)) [
      | inl m ↦ absurd (
          rw (first_of_order-none (keep (matches t) k.policies) h) at
            (keep-In (matches t) q k.policies i m))
      | inr m ↦ m
    ]
