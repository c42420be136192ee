-- ===== src/Factor/Foreign.antt =====
-- views/mfa.py `verify`: whose factors step a token up.
use desec_stack.Common.{
  ℕ, String, ◌≡◌, ◌∙◌, inl, inr, Bool, true, false, Option, some, arith, Option-cases, nat_eq,
  string_eq, pair_eq, option_eq,
}
use desec_stack.Factor.{Factor, Account, is_used, verify}
use desec_stack.Factor.Replay.{IsAccepted, accepted, refused, verify-Answer}
use desec_stack.Factor.Stepping.{Accounts, get_object, is_someone, verify_action}
use desec_stack.Account.{is_true}
use desec_stack.Access.Permissions.{Visit, mfa_required_if_enabled}

module _ (is_code : String → Bool) (generate_otp : ℕ → ℕ → String)
    (strings_equal : String → String → Bool) (timecode : ℕ → ℕ) (now id : ℕ) (user : Option String)
    (mfa : Option Bool) (code : String) (accounts : Accounts) where
  -- A factor that is there, and what `verify` says of the code for it.
  pub record IsAnswered (owner : String) (account : Account) (f : Factor) : Type 0 where
    pub found : get_object id accounts ≡ some (owner, account, f)
    pub in_use : is_used f ≡ true
    pub correct : (verify (generate_otp f.id) strings_equal timecode now code f account).0 ≡ true

  -- An authenticated request with a code that is right for a factor in use gets its token stepped up,
  -- whoever the user of the request and the user of the factor are, and every view then takes the
  -- token for one that has passed the second factor of the request's user.
  pub verify_action-foreign :
      (owner : String) (account : Account) (f : Factor)
      → IsAnswered owner account f
      → is_someone user ≡ true
      → is_code code ≡ true
      → (v : Visit)
      → v.auth.mfa
        ≡ (verify_action is_code generate_otp strings_equal timecode now user mfa id code
            accounts).mfa
      → ((verify_action is_code generate_otp strings_equal timecode now user mfa id code
            accounts).mfa
          ≡ some true)
        × (mfa_required_if_enabled.has_permission v ≡ true)
  unfolding verify_action mfa_required_if_enabled
  verify_action-foreign owner account f a someone well v same =
      let found = a.found in
      let in_use = a.in_use in
      let correct = a.correct in
      let stepped : (verify_action is_code generate_otp strings_equal timecode now user mfa id code
            accounts).mfa
          ≡ some true =
        ground arith in
      let passed_factor = same ∙ stepped in (stepped, ground arith)

  -- What is behind a token that has been stepped up.
  pub record IsSteppedUp : Type 0 where
    pub known : is_someone user ≡ true
    pub well_formed : is_code code ≡ true
    pub owner : String
    pub account : Account
    pub factor : Factor
    pub answered : IsAnswered owner account factor
    pub answer :
        IsAccepted timecode
          (generate_otp factor.id)
          strings_equal
          now
          code
          factor
          (verify (generate_otp factor.id) strings_equal timecode now code factor account).1

  verify-IsAccepted :
      (f : Factor) (account : Account)
      → (verify (generate_otp f.id) strings_equal timecode now code f account).0 ≡ true
      → IsAccepted timecode
          (generate_otp f.id)
          strings_equal
          now
          code
          f
          (verify (generate_otp f.id) strings_equal timecode now code f account).1
  verify-IsAccepted f account h =
      elim (verify-Answer timecode (generate_otp f.id) strings_equal now code f account) [
        | accepted e a _ ↦ a
        | refused e ↦ absurd (ground arith)
      ]

  -- A token that has not passed a second factor is stepped up only in an authenticated request, by a
  -- code of a factor in use that is right and has not been used before: its time step is around now
  -- and later than the last one accepted.
  pub verify_action-IsSteppedUp :
      is_true mfa ≡ false
      → (verify_action is_code generate_otp strings_equal timecode now user mfa id code
          accounts).mfa
        ≡ some true
      → IsSteppedUp
  unfolding verify_action
  verify_action-IsSteppedUp below h = elim (Option-cases (get_object id accounts)) [
    | inl missing ↦ absurd (ground arith)
    | inr ((owner, account, f), found) ↦
        (let correct : (verify (generate_otp f.id) strings_equal timecode now code f account).0
              ≡ true =
            (ground arith) in
          record {
            known = (ground arith);
            well_formed = (ground arith);
            owner = owner;
            account = account;
            factor = f;
            answered = record { found = found; in_use = (ground arith); correct = correct };
            answer = verify-IsAccepted f account correct;
          })
  ]
