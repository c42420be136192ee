-- ===== src/Common/Tests.antt =====
-- Boolean tests, Python's `==` as an interface, and case splits that keep their equation.
use Prim.Native.Nat.{ℕ, ◌≤◌, ◌<◌, compare, Ordering}
use Prim.Native.String.{String}
use mathlib.Core.Path.{◌≡◌, refl}
use mathlib.Core.Logic.{◌↔◌, ◌⊎◌, inl, inr}
use mathlib.Core.Bool.{Bool, true, false, ◌&&◌}
use mathlib.Core.Option.{Option, none, some}
use native.Mathlib.Omega.{arith}
use text.Mathlib.Text.{◌==◌ as str_eq}
use text.Mathlib.TextEquality.{eq_iff}

abbrev pub ltb : ℕ → ℕ → Bool
ltb a b = elim (compare a b) [ Ordering.lt ↦ true | _ ↦ false ]

abbrev pub leb : ℕ → ℕ → Bool
leb a b = elim (compare a b) [ Ordering.gt ↦ false | _ ↦ true ]

abbrev pub nat_beq : ℕ → ℕ → Bool
nat_beq a b = elim (compare a b) [ Ordering.eq ↦ true | _ ↦ false ]

pub nat_beq_iff : (a b : ℕ) → (nat_beq a b ≡ true) ↔ (a ≡ b)
nat_beq_iff a b = ground arith

pub leb→le : (a b : ℕ) → leb a b ≡ true → a ≤ b
leb→le a b h = ground arith

pub ltb→lt : (a b : ℕ) → ltb a b ≡ true → a < b
ltb→lt a b h = ground arith

infix 1 if◌then◌else◌
abbrev pub if◌then◌else◌ {ℓ} : {A : Type ℓ} → Bool → A → A → A
if true then x else y = x
if false then x else y = y

-- `!=` on Booleans
abbrev pub differ : Bool → Bool → Bool
differ true true = false
differ true false = true
differ false b = b

pub Bool-cases : (b : Bool) → (b ≡ true) ⊎ (b ≡ false)
Bool-cases true = inl refl
Bool-cases false = inr refl

pub Option-cases {ℓ} : {A : Type ℓ} (o : Option A) → (o ≡ none) ⊎ ((a : A) × (o ≡ some a))
Option-cases none = inl refl
Option-cases (some a) = inr (a, refl)

-- Python's `==` on a type of values, which decides their equality.
pub record Eq {ℓ} (V : Type ℓ) : Type ℓ where
  pub same : V → V → Bool
  pub same_iff : (x y : V) → (same x y ≡ true) ↔ (x ≡ y)

pub pair_same_iff :
    {V W : Type 0} ⦃left : Eq V⦄ ⦃right : Eq W⦄ (p q : V × W)
    → ((left.same p.0 q.0 && right.same p.1 q.1) ≡ true) ↔ (p ≡ q)
pair_same_iff ⦃left⦄ ⦃right⦄ p q = ground (arith, left.same_iff p.0 q.0, right.same_iff p.1 q.1)

-- Tuples are equal part by part.
instance abbrev pub pair_eq : {V W : Type 0} ⦃left : Eq V⦄ ⦃right : Eq W⦄ → Eq (V × W)
pair_eq ⦃left⦄ ⦃right⦄ = record {
  same = λ p q. left.same p.0 q.0 && right.same p.1 q.1;
  same_iff = pair_same_iff;
}

abbrev pub same_option : {V : Type 0} → (V → V → Bool) → Option V → Option V → Bool
same_option same none none = true
same_option same none (some w) = false
same_option same (some v) none = false
same_option same (some v) (some w) = same v w

pub same_option_iff :
    {V : Type 0} ⦃e : Eq V⦄ (v w : Option V) → (same_option e.same v w ≡ true) ↔ (v ≡ w)
same_option_iff none none = ground arith
same_option_iff none (some w) = ground arith
same_option_iff (some v) none = ground arith
same_option_iff ⦃e⦄ (some v) (some w) = ground (arith, e.same_iff v w)

-- `None` is equal to itself alone.
instance abbrev pub option_eq : {V : Type 0} ⦃e : Eq V⦄ → Eq (Option V)
option_eq ⦃e⦄ = record { same = same_option e.same; same_iff = same_option_iff }

instance abbrev pub string_eq : Eq String
string_eq = record { same = str_eq; same_iff = eq_iff }

instance abbrev pub nat_eq : Eq ℕ
nat_eq = record { same = nat_beq; same_iff = nat_beq_iff }

module _ {ℓ} {V : Type ℓ} ⦃values : Eq V⦄ where
  infix 50 ◌==◌
  abbrev pub ◌==◌ : V → V → Bool
  x == y = values.same x y

  pub ==_iff : (x y : V) → ((x == y) ≡ true) ↔ (x ≡ y)
  ==_iff = values.same_iff

  pub ==_refl : (x : V) → (x == x) ≡ true
  ==_refl x = (values.same_iff x x).1 refl
