-- ===== src/Factor/Replay.antt =====
-- No time step of a factor is accepted twice.
use desec_stack.Common.{
  ℕ, ◌+◌, ◌≤◌, ◌<◌, String, ◌≡◌, refl, ap, ◌⊎◌, inl, inr, Bool, true, false, Option, none, some,
  List, [], ◌∷◌, arith, ltb, ltb→lt, Bool-cases, nat_eq, string_eq, pair_eq, In,
}
use desec_stack.Factor.{Factor, Account, mfa_enabled, save, find_step, steps_around, answer, verify}

module _ (generate_otp : ℕ → String) (strings_equal : String → String → Bool) where
  -- A step that is found is a later one of those tried, and the code is its code.
  find_step-In :
      (code : String) (last : ℕ) (steps : List ℕ) (step : ℕ)
      → find_step generate_otp strings_equal code last steps ≡ some step
      → In step steps × (last < step) × (strings_equal code (generate_otp step) ≡ true)
  unfolding find_step
  find_step-In code last [] step h = absurd (ground arith)
  find_step-In code last (x ∷ steps) step h =
      split (ltb last x) refl (strings_equal code (generate_otp x)) refl
        (find_step-In code last steps step)
    where
      later :
          (find_step generate_otp strings_equal code last steps ≡ some step
            → In step steps × (last < step) × (strings_equal code (generate_otp step) ≡ true))
          → find_step generate_otp strings_equal code last steps ≡ some step
          → In step (x ∷ steps) × (last < step) × (strings_equal code (generate_otp step) ≡ true)
      later ih k = let (i, l, e) = ih k in (inr i, l, e)

      split :
          (a : Bool)
          → ltb last x ≡ a
          → (b : Bool) → strings_equal code (generate_otp x) ≡ b
          → (find_step generate_otp strings_equal code last steps ≡ some step
              → In step steps × (last < step) × (strings_equal code (generate_otp step) ≡ true))
          → In step (x ∷ steps) × (last < step) × (strings_equal code (generate_otp step) ≡ true)
      split false e b f ih = later ih (ground arith)
      split true e false f ih = later ih (ground arith)
      split true e true f ih =
          let same : x ≡ step = ground arith in rw (← same) (inl refl, ltb→lt last x e, f)

around : (step x : ℕ) → In x (steps_around step) → (step ≤ x + 1) × (x ≤ step + 1)
around step x (inl e) = (omega arith, omega arith)
around step x (inr (inl e)) = (omega arith, omega arith)
around step x (inr (inr (inl e))) = (omega arith, omega arith)
around step x (inr (inr (inr e))) = elim e [ ]

-- Increasing, and above the bound.
abbrev pub IsIncreasing : ℕ → List ℕ → Type 0
IsIncreasing bound [] = Unit {0}
IsIncreasing bound (x ∷ xs) = (bound < x) × IsIncreasing x xs

module _ (timecode : ℕ → ℕ) (generate_otp : ℕ → String)
    (strings_equal : String → String → Bool) where
  -- What an accepted code leaves: a later time step, one of the three around now, whose code it is.
  pub record IsAccepted (now : ℕ) (code : String) (before after : Factor) : Type 0 where
    pub later : before.last_verified_timestep < after.last_verified_timestep
    pub recent : timecode now ≤ after.last_verified_timestep + 1
    pub started : after.last_verified_timestep ≤ timecode now + 1
    pub matching : strings_equal code (generate_otp after.last_verified_timestep) ≡ true
    pub recorded : after.last_used ≡ some now

  -- A code is accepted with such a factor behind it, or refused with nothing changed.
  pub data Answer (now : ℕ) (code : String) (f : Factor) (u : Account) (r : Bool × Factor × Account)
      : Type 0 where
    accepted :
        r.0 ≡ true
        → IsAccepted now code f r.1
        → mfa_enabled u ≡ true ⊎ (r.2.credentials_changed ≡ now)
        → Answer now code f u r
    refused : r ≡ (false, f, u) → Answer now code f u r

  -- A code that `verify` accepts is that of a time step around now, later than the last one accepted,
  -- and is recorded; where it is the first use of a second factor by the user, the change of
  -- credentials is recorded too. A code that it refuses changes nothing.
  pub verify-Answer :
      (now : ℕ) (code : String) (f : Factor) (u : Account)
      → Answer now code f u (verify generate_otp strings_equal timecode now code f u)
  unfolding verify answer save
  verify-Answer now code f u =
      split
        (find_step generate_otp strings_equal code f.last_verified_timestep
          (steps_around (timecode now)))
        (λ step h.
          find_step-In generate_otp strings_equal code f.last_verified_timestep
            (steps_around (timecode now)) step h)
    where
      split :
          (o : Option ℕ)
          → ((step : ℕ)
              → o ≡ some step
              → In step (steps_around (timecode now))
                × (f.last_verified_timestep < step)
                × (strings_equal code (generate_otp step) ≡ true))
          → Answer now code f u (answer now f u o)
      split none found = refused refl
      split (some step) found =
          let (i, l, e) = found step refl in
          let (r, s) = around (timecode now) step i in
          accepted refl
            (record { later = l; recent = r; started = s; matching = e; recorded = refl })
            (elim (Bool-cases (mfa_enabled u)) [ inl m ↦ inl m | inr m ↦ inr (ground arith) ])

  abbrev pub add_accepted : Bool → ℕ → List ℕ → List ℕ
  add_accepted true step steps = step ∷ steps
  add_accepted false step steps = steps

  -- The time steps that are accepted in attempts one after another, each a time and a code.
  unfoldable pub accepted_steps : List (ℕ × String) → Factor → Account → List ℕ
  unfolding verify
  accepted_steps [] f u = []
  accepted_steps ((now, code) ∷ attempts) f u =
      let r = verify generate_otp strings_equal timecode now code f u in
      add_accepted r.0 r.1.last_verified_timestep (accepted_steps attempts r.1 r.2)

  -- In any sequence of attempts, at whatever times, the time steps that `verify` accepts for a factor
  -- increase strictly, so that none of them is accepted twice.
  pub accepted_steps-IsIncreasing :
      (attempts : List (ℕ × String)) (f : Factor) (u : Account)
      → IsIncreasing f.last_verified_timestep (accepted_steps attempts f u)
  unfolding accepted_steps
  accepted_steps-IsIncreasing [] f u = tt
  accepted_steps-IsIncreasing ((now, code) ∷ attempts) f u =
      split (verify generate_otp strings_equal timecode now code f u) (verify-Answer now code f u)
        (λ g v. accepted_steps-IsIncreasing attempts g v)
    where
      split :
          (r : Bool × Factor × Account)
          → Answer now code f u r
          → ((g : Factor) (v : Account)
              → IsIncreasing g.last_verified_timestep (accepted_steps attempts g v))
          → IsIncreasing f.last_verified_timestep
              (add_accepted r.0 r.1.last_verified_timestep (accepted_steps attempts r.1 r.2))
      split (true, g, v) (accepted e a c) rest = (a.later, rest g v)
      split (false, g, v) (accepted e a c) rest = absurd (ground arith)
      split (true, g, v) (refused e) rest = absurd (ground arith)
      split (false, g, v) (refused e) rest =
          let same : g ≡ f = ap (λ (r : Bool × Factor × Account). r.1) e in rw (← same) (rest g v)
