-- ===== src/Common/Outcome.antt =====
-- A Python call that may raise: the value it returns, or the exception.
use mathlib.Core.Path.{◌≡◌, refl}
use mathlib.Core.Bool.{Bool, true, false}
use mathlib.Core.Logic.{◌⊎◌, inl, inr}
use native.Mathlib.Omega.{arith}

pub data Result (E A : Type 0) : Type 0 where
  ok : A → Result E A
  err : E → Result E A

abbrev pub succeeds : {E A : Type 0} → Result E A → Bool
succeeds (ok _) = true
succeeds (err _) = false

-- `if failing: raise e`
abbrev pub raise_if : {E : Type 0} → Bool → E → Result E (Unit {0})
raise_if failing e = elim failing [ true ↦ err e | false ↦ ok tt ]

infixl 5 ◌>>=◌ ◌>>◌
-- an exception ends the sequence
abbrev pub ◌>>=◌ : {E A B : Type 0} → Result E A → (A → Result E B) → Result E B
◌>>=◌ r next = elim r [ err e ↦ err e | ok a ↦ next a ]

abbrev pub ◌>>◌ : {E B : Type 0} → Result E (Unit {0}) → Result E B → Result E B
◌>>◌ r next = elim r [ err e ↦ err e | ok _ ↦ next ]

pub >>=-eq-ok :
    {E A B : Type 0} (r : Result E A) (next : A → Result E B) {b : B}
    → (r >>= next) ≡ ok b
    → (a : A) × (r ≡ ok a) × (next a ≡ ok b)
>>=-eq-ok (err e) next h = absurd (ground arith)
>>=-eq-ok (ok a) next h = (a, refl, h)

pub Result-cases :
    {E A : Type 0} (r : Result E A) → ((a : A) × (r ≡ ok a)) ⊎ ((e : E) × (r ≡ err e))
Result-cases (ok a) = inl (a, refl)
Result-cases (err e) = inr (e, refl)

pub >>=-eq-err :
    {E A B : Type 0} (r : Result E A) (next : A → Result E B) {e : E}
    → (r >>= next) ≡ err e
    → (r ≡ err e) ⊎ ((a : A) × (r ≡ ok a) × (next a ≡ err e))
>>=-eq-err (err f) next h = inl (ground arith)
>>=-eq-err (ok a) next h = inr (a, refl, h)

-- What goes on after `raise_if` has not raised.
pub passed :
    {E A : Type 0} (failing : Bool) (e : E) (next : Result E A) {a : A}
    → (raise_if failing e >> next) ≡ ok a
    → (failing ≡ false) × (next ≡ ok a)
passed true e next h = absurd (ground arith)
passed false e next h = (refl, h)

pub ok_same : {E A : Type 0} {a b : A} → ◌≡◌ {A = Result E A} (ok a) (ok b) → a ≡ b
ok_same h = ground arith
