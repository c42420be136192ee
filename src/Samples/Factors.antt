-- ===== src/Samples/Factors.antt =====
-- A second factor and codes for it, and a login token of another user.
use desec_stack.Common.{
  ℕ, ◌/◌, ◌%◌, String, ◌≡◌, refl, Bool, true, false, none, some, List, [], ◌∷◌, nat_beq,
  if◌then◌else◌, ◌==◌, nat_eq, string_eq, pair_eq, option_eq,
}
use desec_stack.Token.{Token}
use desec_stack.Factor.{Factor, Account, find_step, answer, verify}
use desec_stack.Factor.Replay.{IsIncreasing, accepted_steps, accepted_steps-IsIncreasing}
use desec_stack.Factor.Stepping.{Accounts, Verified, get_object, verify_action}
use desec_stack.Factor.Foreign.{
  IsAnswered, verify_action-foreign, IsSteppedUp, verify_action-IsSteppedUp,
}
use desec_stack.Access.Permissions.{Visit, mfa_required_if_enabled}

abbrev sample : Token
sample = record {
  owner = "victim@example.com";
  user_override = none;
  mfa = some false;
  perm_create_domain = true;
  perm_delete_domain = true;
  perm_manage_tokens = true;
  created = 0;
  last_used = none;
  max_age = some 604800;
  max_unused_period = some 3600;
  auto_policy = false;
  policies = [];
}

abbrev sample_timecode : ℕ → ℕ
sample_timecode now = now / 30

abbrev sample_otp : ℕ → String
sample_otp step = if nat_beq (step % 2) 0 then "111111" else "222222"

abbrev same_text : String → String → Bool
same_text a b = a == b

abbrev factor : Factor
factor = record { id = 1; last_used = none; last_verified_timestep = 0 }

abbrev account : Account
account = record { credentials_changed = 5; factors = factor ∷ [] }

abbrev attempts : List (ℕ × String)
attempts = (300, "111111") ∷ (301, "111111") ∷ (302, "222222") ∷ (390, "222222") ∷ []

-- The second attempt repeats the code of step 10; the third one is for step 11, which is to come.
runs :
    accepted_steps sample_timecode sample_otp same_text attempts factor account ≡ 10 ∷ 11 ∷ 13 ∷ []
unfolding accepted_steps verify find_step answer
runs = refl

accepted_steps-IsIncreasing_example :
    IsIncreasing 0 (accepted_steps sample_timecode sample_otp same_text attempts factor account)
accepted_steps-IsIncreasing_example =
    accepted_steps-IsIncreasing sample_timecode sample_otp same_text attempts factor account

abbrev used_factor : Factor
used_factor = record { id = 7; last_used = some 30; last_verified_timestep = 1 }

abbrev sample_accounts : Accounts
sample_accounts =
    ("victim@example.com", account)
    ∷ ("other@example.com", record { credentials_changed = 5; factors = used_factor ∷ [] })
    ∷ []

abbrev all_codes : String → Bool
all_codes code = true

abbrev of_any_factor : ℕ → ℕ → String
of_any_factor id step = sample_otp step

-- the request of a user with the factor of another one
abbrev sample_verified : Verified
sample_verified =
    verify_action all_codes of_any_factor same_text sample_timecode 300 (some "victim@example.com")
      (some false) 7 "111111" sample_accounts

other_IsAnswered :
    IsAnswered all_codes of_any_factor same_text sample_timecode 300 7
      (some "victim@example.com")
      (some false)
      "111111"
      sample_accounts
      "other@example.com"
      (record { credentials_changed = 5; factors = used_factor ∷ [] })
      used_factor
unfolding get_object verify find_step answer
other_IsAnswered = record { found = refl; in_use = refl; correct = refl }

stepped : sample_verified.mfa ≡ some true
unfolding verify_action get_object verify find_step answer
stepped = refl

abbrev victim_visit : Visit
victim_visit = record {
  user = record {
    email = "victim@example.com";
    is_active = some true;
    mfa_enabled = true;
    limit_domains = none;
  };
  auth = record sample { mfa = sample_verified.mfa };
  is_safe = false;
  domain_owner = "victim@example.com";
  is_own_token = false;
  domain_count = 0;
}

verify_action-foreign_example :
    (sample_verified.mfa ≡ some true) × (mfa_required_if_enabled.has_permission victim_visit ≡ true)
verify_action-foreign_example =
    verify_action-foreign all_codes of_any_factor same_text sample_timecode 300 7
      (some "victim@example.com") (some false) "111111" sample_accounts "other@example.com"
      (record { credentials_changed = 5; factors = used_factor ∷ [] }) used_factor other_IsAnswered
      refl refl victim_visit refl

verify_action-IsSteppedUp_example :
    IsSteppedUp all_codes of_any_factor same_text sample_timecode 300 7
      (some "victim@example.com")
      (some false)
      "111111"
      sample_accounts
verify_action-IsSteppedUp_example =
    verify_action-IsSteppedUp all_codes of_any_factor same_text sample_timecode 300 7
      (some "victim@example.com") (some false) "111111" sample_accounts refl stepped
