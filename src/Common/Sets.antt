-- ===== src/Common/Sets.antt =====
-- Python's `set`: a list that is read through `member` alone, so its order is not observable.
use mathlib.Core.Path.{◌≡◌, refl}
use mathlib.Core.Bool.{Bool, true, false, not, ◌&&◌, ◌||◌}
use mathlib.Core.List.{List, [], ◌∷◌, ◌++◌}
use native.Mathlib.Omega.{arith}
use desec_stack.Common.Tests.{Eq, ◌==◌, ==_iff, ==_refl, if◌then◌else◌, Bool-cases}
use mathlib.Core.Logic.{inl, inr}
use desec_stack.Common.Lists.{keep, is_empty, In}

module _ {ℓ} {A : Type ℓ} ⦃e : Eq A⦄ where
  -- `x in s`
  unfoldable pub member : A → List A → Bool
  member x [] = false
  member x (y ∷ ys) = x == y || member x ys

  -- `s.add(x)`
  unfoldable pub add : A → List A → List A
  unfolding member
  add x s = if member x s then s else x ∷ s

  -- `s.discard(x)`; `s.remove(x)` where `x` is known to be in `s`
  unfoldable pub discard : A → List A → List A
  discard x s = keep (λ y. not (y == x)) s

  -- `s | t`
  unfoldable pub union : List A → List A → List A
  unfolding member
  union s t = s ++ keep (λ y. not (member y s)) t

  -- `s - t`
  unfoldable pub difference : List A → List A → List A
  unfolding member
  difference s t = keep (λ y. not (member y t)) s

  -- `s & t`
  unfoldable pub intersection : List A → List A → List A
  unfolding member
  intersection s t = keep (λ y. member y t) s

  -- `set(xs)`
  unfoldable pub to_set : List A → List A
  unfolding add
  to_set [] = []
  to_set (x ∷ xs) = add x (to_set xs)

  -- no element stands twice
  unfoldable pub is_distinct : List A → Bool
  unfolding member
  is_distinct [] = true
  is_distinct (x ∷ xs) = not (member x xs) && is_distinct xs

  pub member-keep : (x : A) (p : A → Bool) (s : List A) → member x (keep p s) ≡ (p x && member x s)
  unfolding member keep
  member-keep x p [] = ground arith
  member-keep x p (y ∷ ys) = ground (arith, member-keep x p ys, ==_iff x y)

  pub member-append : (x : A) (s t : List A) → member x (s ++ t) ≡ (member x s || member x t)
  unfolding member
  member-append x [] t = refl
  member-append x (y ∷ ys) t = ground (arith, member-append x ys t)

  pub member-add : (y x : A) (s : List A) → member y (add x s) ≡ (y == x || member y s)
  unfolding add member
  member-add y x s = ground (arith, ==_iff y x)

  pub member-discard :
      (y x : A) (s : List A) → member y (discard x s) ≡ (not (y == x) && member y s)
  unfolding discard
  member-discard y x s = member-keep y (λ z. not (z == x)) s

  pub member-union : (y : A) (s t : List A) → member y (union s t) ≡ (member y s || member y t)
  unfolding union
  member-union y s t = ground (
    arith,
    member-append y s (keep (λ (z : A). not (member z s)) t),
    member-keep y (λ (z : A). not (member z s)) t,
  )

  pub member-difference :
      (y : A) (s t : List A) → member y (difference s t) ≡ (not (member y t) && member y s)
  unfolding difference
  member-difference y s t = member-keep y (λ z. not (member z t)) s

  pub member-intersection :
      (y : A) (s t : List A) → member y (intersection s t) ≡ (member y t && member y s)
  unfolding intersection
  member-intersection y s t = member-keep y (λ z. member z t) s

  pub member-to_set : (y : A) (xs : List A) → member y (to_set xs) ≡ member y xs
  unfolding to_set member
  member-to_set y [] = refl
  member-to_set y (x ∷ xs) = ground (arith, member-add y x (to_set xs), member-to_set y xs)

  pub is_distinct-keep :
      (p : A → Bool) (s : List A) → is_distinct s ≡ true → is_distinct (keep p s) ≡ true
  unfolding is_distinct keep
  is_distinct-keep p [] h = h
  is_distinct-keep p (x ∷ xs) h = ground (arith, is_distinct-keep p xs, member-keep x p xs)

  pub is_distinct-append :
      (s t : List A)
      → is_distinct s ≡ true
      → is_distinct t ≡ true
      → ((x : A) → member x s ≡ true → member x t ≡ false)
      → is_distinct (s ++ t) ≡ true
  unfolding is_distinct member
  is_distinct-append [] t h k apart = k
  is_distinct-append (x ∷ s) t h k apart =
      let rest = is_distinct-append s t (ground arith) k (λ y m. apart y (ground arith)) in
      ground (arith, rest, apart x, ==_refl x, member-append x s t)

  pub is_distinct-to_set : (s : List A) → is_distinct (to_set s) ≡ true
  unfolding is_distinct to_set add
  is_distinct-to_set [] = refl
  is_distinct-to_set (x ∷ s) = ground (arith, is_distinct-to_set s)

  -- A list with no member is empty.
  pub is_empty_of_no_member : (s : List A) → ((x : A) → member x s ≡ false) → is_empty s ≡ true
  unfolding member
  is_empty_of_no_member [] h = refl
  is_empty_of_no_member (x ∷ xs) h = ground (arith, h x, ==_iff x x)

  -- An empty list has no member.
  pub member-is_empty : (x : A) (s : List A) → is_empty s ≡ true → member x s ≡ false
  unfolding member
  member-is_empty x [] h = refl
  member-is_empty x (y ∷ ys) h = ground arith

pub In-member : {A : Type 0} ⦃e : Eq A⦄ (x : A) (s : List A) → member x s ≡ true → In x s
unfolding member
In-member x [] h = absurd (ground arith)
In-member x (y ∷ ys) h = elim (Bool-cases (x == y)) [
  | inl e ↦ inl ((==_iff x y).0 e)
  | inr n ↦ inr (In-member x ys (ground arith))
]

pub member-In : {A : Type 0} ⦃e : Eq A⦄ (x : A) (s : List A) → In x s → member x s ≡ true
unfolding member
member-In x [] h = absurd h
member-In x (y ∷ ys) (inl e) = ground (arith, ==_iff x y)
member-In x (y ∷ ys) (inr h) = ground (arith, member-In x ys h)

pub ruleset set_laws = (
  member-add, member-discard, member-union, member-difference, member-intersection, member-to_set,
)
