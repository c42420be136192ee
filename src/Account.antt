-- ===== src/Account.antt =====
-- models/users.py: `User` with what the authenticated actions call of it, models/mfa.py for a new
-- factor, and the tables of a request. The rows have the fields that the actions read and write.
use desec_stack.Common.{
  ℕ, String, Bool, true, false, not, ◌&&◌, Option, none, some, List, [], ◌∷◌, ◌++◌, nat_beq,
  if◌then◌else◌, ◌==◌, nat_eq, string_eq, pair_eq, option_eq, Result, ok, err, ◌>>◌, raise_if, keep,
  any, Dict, get, put, pop,
}

-- `User`; a time is a number of seconds. Addresses that differ in case alone are the same for the
-- column's collation; here an address stands for all of them.
pub record User : Type 0 where
  pub email : String
  pub password : String
  pub is_active : Option Bool
  pub needs_captcha : Bool
  pub outreach_preference : Bool
  pub credentials_changed : ℕ

-- The part of a `Token` that an activation reads and writes.
pub record OverrideToken : Type 0 where
  pub owner : ℕ
  pub user_override : Option ℕ
  pub name : String
  pub perm_create_domain : Bool
  pub perm_delete_domain : Bool
  pub auto_policy : Bool
  pub max_age : Option ℕ
  pub max_unused_period : Option ℕ

-- The part of a `Domain` that a renewal reads and writes; `is_fresh` is `renewal_state == FRESH`.
pub record OwnedDomain : Type 0 where
  pub name : String
  pub owner : ℕ
  pub is_fresh : Bool
  pub renewal_changed : Option ℕ

pub record UserFactor : Type 0 where
  pub user : ℕ
  pub name : String
  pub last_used : Option ℕ

pub record Mail : Type 0 where
  pub reason : String
  pub recipient : String

-- The tables by primary key, and the mails that are queued.
pub record Tables : Type 0 where
  pub users : Dict ℕ User
  pub tokens : Dict ℕ OverrideToken
  pub domains : Dict ℕ OwnedDomain
  pub factors : List UserFactor
  pub mails : List Mail

pub data ActionError : Type 0 where
  invalid_state : ActionError
  not_verified : ActionError
  not_serializable : ActionError
  does_not_exist : ActionError
  not_unique : ActionError
  not_permitted : ActionError
  still_has_domains : ActionError
  captcha_missing : ActionError

-- `is_active` is null while the activation is pending.
abbrev pub is_true : Option Bool → Bool
is_true (some true) = true
is_true _ = false

abbrev pub is_false : Option Bool → Bool
is_false (some false) = true
is_false _ = false

-- `User.activate`
abbrev pub activate : User → User
activate u = record u { is_active = some true; needs_captcha = false }

abbrev pub save_user : ℕ → User → Tables → Tables
save_user id u s = record s { users = put id u s.users }

abbrev pub send_email : String → String → Tables → Tables
send_email reason recipient s = record s {
  mails = s.mails ++ record { reason = reason; recipient = recipient } ∷ [];
}

-- `User.change_email`
abbrev pub change_email : ℕ → ℕ → User → String → Tables → Result ActionError Tables
change_email now id u email s = do
  raise_if (any (λ other. not (nat_beq other.0 id) && other.1.email == email) s.users) not_unique
  let changed = record u { email = email; credentials_changed = now }
  ok (send_email "change-email-confirmation-old-email" u.email (save_user id changed s))

-- `User.change_password`; the new password stands for what `set_password` makes of it
abbrev pub change_password : ℕ → ℕ → User → String → Tables → Result ActionError Tables
change_password now id u password s =
    let changed = record u { password = password; credentials_changed = now } in
    ok (send_email "password-change-confirmation" u.email (save_user id changed s))

-- `user.mfa_enabled`
unfoldable pub has_used_factor : ℕ → Tables → Bool
has_used_factor id s =
    any (λ f. nat_beq f.user id && elim f.last_used [ none ↦ false | some _ ↦ true ]) s.factors

-- `TOTPFactor(user=…, name=…).save()`
unfoldable pub save_factor : ℕ → ℕ → User → String → Tables → Result ActionError Tables
unfolding has_used_factor
save_factor now id u name s = do
  raise_if (any (λ f. nat_beq f.user id && f.name == name) s.factors) not_unique
  let added : UserFactor = record { user = id; name = name; last_used = none }
  let saved = record s { factors = s.factors ++ added ∷ [] }
  ok (
      if has_used_factor id s
      then saved
      else save_user id (record u { credentials_changed = now }) saved)

-- `User.delete`, which takes the factors and tokens along and is refused to the owner of a domain
abbrev pub delete_row : ℕ → Tables → Result ActionError Tables
delete_row id s = do
  raise_if (any (λ d. nat_beq d.1.owner id) s.domains) still_has_domains
  ok (record s {
    users = pop id s.users;
    tokens = keep (λ t. not (nat_beq t.1.owner id) && not (t.1.user_override == some id)) s.tokens;
    factors = keep (λ f. not (nat_beq f.user id)) s.factors;
  })

abbrev pub find_row : {R : Type 0} → ℕ → Dict ℕ R → Result ActionError R
find_row id rows = elim (get id rows) [ none ↦ err does_not_exist | some row ↦ ok row ]
