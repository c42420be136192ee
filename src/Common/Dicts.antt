-- ===== src/Common/Dicts.antt =====
-- Python's `dict`: an association list with one entry for each key.
use mathlib.Core.Path.{◌≡◌, refl}
use mathlib.Core.Bool.{true, false, ◌||◌}
use mathlib.Core.List.{List, [], ◌∷◌}
use mathlib.Core.Option.{Option, none, some}
use native.Mathlib.Omega.{arith}
use desec_stack.Common.Tests.{Eq, ◌==◌, ==_iff, if◌then◌else◌}
use desec_stack.Common.Sets.{member, is_distinct}

abbrev pub Dict {ℓ κ} : Type ℓ → Type κ → Type (ℓ ⊔ κ)
Dict K V = List (K × V)

module _ {ℓ κ} {K : Type ℓ} {V : Type κ} ⦃e : Eq K⦄ where
  -- `d.get(k)`
  unfoldable pub get : K → Dict K V → Option V
  get k [] = none
  get k ((j, v) ∷ d) = if k == j then some v else get k d

  -- `d[k] = v`
  unfoldable pub put : K → V → Dict K V → Dict K V
  put k v [] = (k, v) ∷ []
  put k v ((j, w) ∷ d) = let rest = put k v d in if k == j then (k, v) ∷ d else (j, w) ∷ rest

  -- `d.pop(k, None)`, for its effect
  unfoldable pub pop : K → Dict K V → Dict K V
  pop k [] = []
  pop k ((j, v) ∷ d) = let rest = pop k d in if k == j then rest else (j, v) ∷ rest

  -- `d.keys()`
  unfoldable pub keys : Dict K V → List K
  keys [] = []
  keys ((j, v) ∷ d) = j ∷ keys d

  pub get-put :
      (i k : K) (v : V) (d : Dict K V) → get i (put k v d) ≡ (if i == k then some v else get i d)
  unfolding get put
  get-put i k v [] = refl
  get-put i k v ((j, w) ∷ d) = ground (arith, get-put i k v d, ==_iff i k, ==_iff k j, ==_iff i j)

  pub get-pop : (i k : K) (d : Dict K V) → get i (pop k d) ≡ (if i == k then none else get i d)
  unfolding get pop
  get-pop i k [] = ground arith
  get-pop i k ((j, w) ∷ d) = ground (arith, get-pop i k d, ==_iff i k, ==_iff k j, ==_iff i j)

  -- A key is among the keys exactly if it is looked up.
  pub keys-get-none : (k : K) (d : Dict K V) → member k (keys d) ≡ false → get k d ≡ none
  unfolding get keys member
  keys-get-none k [] h = refl
  keys-get-none k ((j, v) ∷ d) h = ground (arith, keys-get-none k d)

  pub member-keys-put :
      (i k : K) (v : V) (d : Dict K V) → member i (keys (put k v d)) ≡ (i == k || member i (keys d))
  unfolding keys put member
  member-keys-put i k v [] = refl
  member-keys-put i k v ((j, w) ∷ d) =
      ground (arith, member-keys-put i k v d, ==_iff i k, ==_iff k j, ==_iff i j)

  pub is_distinct-keys-put :
      (k : K) (v : V) (d : Dict K V)
      → is_distinct (keys d) ≡ true
      → is_distinct (keys (put k v d)) ≡ true
  unfolding keys put member is_distinct
  is_distinct-keys-put k v [] h = refl
  is_distinct-keys-put k v ((j, w) ∷ d) h =
      ground (arith, is_distinct-keys-put k v d, member-keys-put j k v d, ==_iff j k, ==_iff k j)

  pub get-keys : (k : K) (v : V) (d : Dict K V) → get k d ≡ some v → member k (keys d) ≡ true
  unfolding keys get member
  get-keys k v [] h = absurd (ground arith)
  get-keys k v ((j, w) ∷ d) h = ground (arith, get-keys k v d)
