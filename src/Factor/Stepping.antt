-- ===== src/Factor/Stepping.antt =====
-- views/mfa.py `TOTPViewSet.verify` with serializers/mfa.py `TOTPCodeSerializer`: a code for a factor,
-- which steps the token of the request up. `is_code` is the regular expression of the field.
use desec_stack.Common.{
  ℕ, String, Bool, true, false, not, ◌&&◌, Option, none, some, List, [], ◌∷◌, map, nat_beq,
  if◌then◌else◌, ◌==◌, nat_eq, string_eq, pair_eq, option_eq, Result, ok, err,
}
use desec_stack.Factor.{Factor, Account, is_used, verify}

-- The factors of all users, by their user.
abbrev pub Accounts : Type 0
Accounts = List (String × Account)

pub data VerifyError : Type 0 where
  not_found not_authenticated invalid_format invalid_code : VerifyError

-- `mfa` of the request's token, the accounts, and the response, which says whether the factor is new
pub record Verified : Type 0 where
  pub mfa : Option Bool
  pub accounts : Accounts
  pub result : Result VerifyError Bool

abbrev pub with_id : ℕ → List Factor → Option Factor
with_id id [] = none
with_id id (f ∷ fs) = if nat_beq f.id id then some f else with_id id fs

-- `get_object` of the action, over the factors of all users
unfoldable pub get_object : ℕ → Accounts → Option (String × Account × Factor)
get_object id [] = none
get_object id ((owner, account) ∷ accounts) = elim (with_id id account.factors) [
  | some f ↦ some (owner, account, f)
  | none ↦ get_object id accounts
]

abbrev pub put_account : String → Account → Accounts → Accounts
put_account owner account accounts =
    map (λ a. if a.0 == owner then (owner, account) else a) accounts

abbrev pub is_someone : Option String → Bool
is_someone none = false
is_someone (some user) = true

-- The token of an authenticated request with a factor that has been in use.
abbrev pub step_up : Bool → Bool → Option Bool → Option Bool
step_up authenticated new mfa = if authenticated && not new then some true else mfa

module _ (is_code : String → Bool) (generate_otp : ℕ → ℕ → String)
    (strings_equal : String → String → Bool) (timecode : ℕ → ℕ) where
  -- what follows when the code has been checked
  abbrev pub respond :
      Bool → Bool → Option Bool → String → Accounts → Bool × Factor × Account → Verified
  respond authenticated new mfa owner accounts (correct, f, account) = record {
    mfa = if correct then step_up authenticated new mfa else mfa;
    accounts = put_account owner account accounts;
    result = if correct then ok new else err invalid_code;
  }

  -- the action, for a request of that user, or of nobody, with a token of that `mfa`
  unfoldable pub verify_action : ℕ → Option String → Option Bool → ℕ → String → Accounts → Verified
  unfolding get_object verify
  verify_action now user mfa id code accounts = elim (get_object id accounts) [
    | none ↦ record { mfa = mfa; accounts = accounts; result = err not_found }
    | some (owner, account, f) ↦
        (let new = not (is_used f) in
          let authenticated = is_someone user in
          if not new && not authenticated
          then record { mfa = mfa; accounts = accounts; result = err not_authenticated }
          else if not (is_code code)
          then record { mfa = mfa; accounts = accounts; result = err invalid_format }
          else respond authenticated new mfa owner accounts
              (verify (generate_otp f.id) strings_equal timecode now code f account))
  ]
