-- ===== src/Common/Lists.antt =====
-- Lists measured by native numbers, and Boolean quantifiers over them.
use Prim.Native.Nat.{ℕ, suc, ◌+◌, ◌≤◌}
use mathlib.Core.Path.{◌≡◌, ap, refl}
use mathlib.Core.Logic.{◌⊎◌, inl, inr}
use mathlib.Core.Bool.{Bool, true, false, ◌&&◌, ◌||◌}
use mathlib.Core.List.{List, [], ◌∷◌, ◌++◌, map}
use native.Mathlib.Omega.{arith}
use desec_stack.Common.Tests.{if◌then◌else◌}

module _ {ℓ} {A : Type ℓ} where
  abbrev pub length : List A → ℕ
  length [] = 0
  length (x ∷ xs) = suc (length xs)

  -- `[x for x in xs if p(x)]`
  unfoldable pub keep : (A → Bool) → List A → List A
  keep p [] = []
  keep p (x ∷ xs) = let rest = keep p xs in if p x then x ∷ rest else rest

  -- `any(p(x) for x in xs)`
  abbrev pub any : (A → Bool) → List A → Bool
  any p [] = false
  any p (x ∷ xs) = p x || any p xs

  -- `all(p(x) for x in xs)`
  abbrev pub all : (A → Bool) → List A → Bool
  all p [] = true
  all p (x ∷ xs) = p x && all p xs

  abbrev pub is_empty : List A → Bool
  is_empty [] = true
  is_empty (x ∷ xs) = false

  pub length-append : (xs ys : List A) → length (xs ++ ys) ≡ length xs + length ys
  length-append [] ys = omega arith
  length-append (x ∷ xs) ys = omega (arith, length-append xs ys)

  pub length-keep-le : (p : A → Bool) (xs : List A) → length (keep p xs) ≤ length xs
  unfolding keep
  length-keep-le p [] = omega arith
  length-keep-le p (x ∷ xs) = ground (arith, length-keep-le p xs)

-- `a` is an element of the list.
abbrev pub In : {A : Type 0} → A → List A → Type 0
In a [] = ⊥
In a (x ∷ xs) = (a ≡ x) ⊎ In a xs

pub In-append_left : {A : Type 0} (a : A) (xs ys : List A) → In a xs → In a (xs ++ ys)
In-append_left a [] ys h = absurd h
In-append_left a (x ∷ xs) ys (inl e) = inl e
In-append_left a (x ∷ xs) ys (inr h) = inr (In-append_left a xs ys h)

pub In-append_right : {A : Type 0} (a : A) (xs ys : List A) → In a ys → In a (xs ++ ys)
In-append_right a [] ys h = h
In-append_right a (x ∷ xs) ys h = inr (In-append_right a xs ys h)

pub In-map : {A B : Type 0} (f : A → B) (a : A) (xs : List A) → In a xs → In (f a) (map f xs)
In-map f a [] h = absurd h
In-map f a (x ∷ xs) (inl e) = inl (ap f e)
In-map f a (x ∷ xs) (inr h) = inr (In-map f a xs h)

pub In-map_inv :
    {A B : Type 0} (f : A → B) (b : B) (xs : List A)
    → In b (map f xs)
    → (a : A) × In a xs × (b ≡ f a)
In-map_inv f b [] h = absurd h
In-map_inv f b (x ∷ xs) (inl e) = (x, inl refl, e)
In-map_inv f b (x ∷ xs) (inr h) = let (a, i, e) = In-map_inv f b xs h in (a, inr i, e)

pub any_mono :
    {A : Type 0} (p q : A → Bool) (xs : List A)
    → ((a : A) → p a ≡ true → q a ≡ true)
    → any p xs ≡ true
    → any q xs ≡ true
any_mono p q [] h e = e
any_mono p q (x ∷ xs) h e = ground (arith, h x, any_mono p q xs h)

pub any-append :
    {A : Type 0} (p : A → Bool) (xs ys : List A) → any p (xs ++ ys) ≡ (any p xs || any p ys)
any-append p [] ys = refl
any-append p (x ∷ xs) ys = ground (arith, any-append p xs ys)

module _ {A : Type 0} (p : A → Bool) where
  pub In-keep : (a : A) (xs : List A) → In a (keep p xs) → In a xs × (p a ≡ true)
  unfolding keep
  In-keep a [] i = absurd i
  In-keep a (x ∷ xs) i = split (p x) refl (In-keep a xs) i
    where
      split :
          (b : Bool)
          → p x ≡ b
          → (In a (keep p xs) → In a xs × (p a ≡ true))
          → In a (if b then x ∷ keep p xs else keep p xs)
          → In a (x ∷ xs) × (p a ≡ true)
      split true e later (inl f) = (inl f, rw f e)
      split true e later (inr j) = let (k, l) = later j in (inr k, l)
      split false e later j = let (k, l) = later j in (inr k, l)

  pub keep-In : (a : A) (xs : List A) → In a xs → p a ≡ true → In a (keep p xs)
  unfolding keep
  keep-In a [] i e = absurd i
  keep-In a (x ∷ xs) (inl f) e = let e' : p x ≡ true = rw f at e in rw (e', keep) (inl f)
  keep-In a (x ∷ xs) (inr i) e = add_front (p x) (keep-In a xs i e)
    where
      add_front : (b : Bool) → In a (keep p xs) → In a (if b then x ∷ keep p xs else keep p xs)
      add_front true j = inr j
      add_front false j = j

pub any-In :
    {A : Type 0} (p : A → Bool) (a : A) (xs : List A) → In a xs → p a ≡ true → any p xs ≡ true
any-In p a [] i e = absurd i
any-In p a (x ∷ xs) (inl f) e = let e' : p x ≡ true = rw f at e in rw e'
any-In p a (x ∷ xs) (inr i) e = ground (arith, any-In p a xs i e)

-- Some element meets the test.
pub In-any :
    {A : Type 0} (p : A → Bool) (xs : List A) → any p xs ≡ true → (a : A) × In a xs × (p a ≡ true)
In-any p [] h = absurd (ground arith)
In-any {A} p (x ∷ xs) h = split (p x) refl h (In-any p xs)
  where
    split :
        (b : Bool)
        → p x ≡ b
        → (b || any p xs) ≡ true
        → (any p xs ≡ true → (a : A) × In a xs × (p a ≡ true))
        → (a : A) × In a (x ∷ xs) × (p a ≡ true)
    split true e k later = (x, inl refl, e)
    split false e k later = let (a, i, f) = later k in (a, inr i, f)
