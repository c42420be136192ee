-- ===== src/Factor.antt =====
-- models/mfa.py: `TOTPFactor` and its `BaseFactor`. What the code takes from pyotp is a parameter: the
-- time step of a time, the code of a time step, and the comparison of two codes.
pub mod Replay
pub mod Stepping
pub mod Foreign
use desec_stack.Common.{
  ℕ, ◌+◌, ◌-◌, String, Bool, true, false, not, Option, none, some, List, [], ◌∷◌, map, arith, ltb,
  nat_beq, if◌then◌else◌, nat_eq, string_eq, pair_eq, keep, any,
}

pub record Factor : Type 0 where
  pub id : ℕ
  pub last_used : Option ℕ
  pub last_verified_timestep : ℕ

-- The part of a user that factors read and write; times are numbers of seconds.
pub record Account : Type 0 where
  pub credentials_changed : ℕ
  pub factors : List Factor

abbrev pub is_used : Factor → Bool
is_used f = elim f.last_used [ none ↦ false | some t ↦ true ]

-- `User.mfa_enabled`
unfoldable pub mfa_enabled : Account → Bool
mfa_enabled u = any is_used u.factors

abbrev pub replace_when : Factor → Bool → Factor → Factor
replace_when new true f = new
replace_when new false f = f

-- `BaseFactor.save` of a factor that is there
unfoldable pub save : ℕ → Factor → Account → Account
unfolding mfa_enabled
save now f u =
    let stored = map (λ g. replace_when f (nat_beq g.id f.id) g) u.factors in
    if mfa_enabled u
    then record u { factors = stored }
    else record { credentials_changed = now; factors = stored }

-- `BaseFactor.delete`
unfoldable pub delete : ℕ → Factor → Account → Account
delete now f u =
    let remaining = keep (λ g. not (nat_beq g.id f.id)) u.factors in
    if is_used f
    then record { credentials_changed = now; factors = remaining }
    else record u { factors = remaining }

-- `timestep_now + offset`; before the first step both are refused, as is -1
abbrev pub steps_around : ℕ → List ℕ
steps_around step = (step - 1) ∷ step ∷ (step + 1) ∷ []

-- What `verify` does with the first time step that is accepted, if there is one.
unfoldable pub answer : ℕ → Factor → Account → Option ℕ → Bool × Factor × Account
unfolding save
answer now f u none = (false, f, u)
answer now f u (some step) =
    let used = record f { last_used = some now; last_verified_timestep = step } in
    (true, used, save now used u)

module _ (generate_otp : ℕ → String) (strings_equal : String → String → Bool) where
  -- the loop over the time steps, up to the first one that is accepted
  unfoldable pub find_step : String → ℕ → List ℕ → Option ℕ
  find_step code last [] = none
  find_step code last (step ∷ steps) =
      let rest = find_step code last steps in
      if not (ltb last step)
      then rest
      else if strings_equal code (generate_otp step)
      then some step
      else rest

  -- `TOTPFactor.verify` at the time `now`
  unfoldable pub verify : (ℕ → ℕ) → ℕ → String → Factor → Account → Bool × Factor × Account
  unfolding find_step answer
  verify timecode now code f u =
      answer now f u (find_step code f.last_verified_timestep (steps_around (timecode now)))
