-- ===== src/Action.antt =====
-- models/authenticated_actions.py and the part of
-- views/authenticated_actions.py that turns a code into an action and performs it. The digest of a
-- list of state fields, which the code takes from json and sha256, is a parameter.
pub mod State
pub mod Replay
use desec_stack.Common.{
  ℕ, String, Bool, true, false, not, ◌&&◌, Option, none, some, List, [], ◌∷◌, arith, nat_beq, Eq,
  ◌==◌, nat_eq, string_eq, pair_eq, option_eq, Result, ok, ◌>>=◌, ◌>>◌, raise_if, any, all, put,
}
use desec_stack.Account.{
  User, OverrideToken, OwnedDomain, UserFactor, Mail, Tables, ActionError, invalid_state,
  not_verified, not_serializable, does_not_exist, not_unique, not_permitted, still_has_domains,
  captcha_missing, is_true, is_false, activate, save_user, send_email, change_email,
  change_password, has_used_factor, save_factor, delete_row, find_row,
}

-- The subclasses of `AuthenticatedBasicUserAction`, with what stands for a token and for a domain:
-- the primary key in a code, the row in an instance.
pub data UserAction (T D : Type 0) : Type 0 where
  change_outreach_preference : Bool → UserAction T D
  activate_user : Option String → UserAction T D
  activate_with_override_token : Bool → T → UserAction T D
  change_user_email : String → UserAction T D
  create_totp_factor : String → UserAction T D
  noop : UserAction T D
  reset_password : String → UserAction T D
  delete_user : UserAction T D
  renew_domain : D → UserAction T D

-- A JSON value: a text, the text of a primary key, of a time or of None, a Boolean or null. A
-- timedelta is none, and `json.dumps` raises TypeError for it.
pub data StateField : Type 0 where
  text : String → StateField
  primary_key : ℕ → StateField
  moment : Option ℕ → StateField
  flag : Bool → StateField
  null : StateField
  duration : ℕ → StateField

abbrev pub optional : {A : Type 0} → (A → StateField) → Option A → StateField
optional f none = null
optional f (some a) = f a

-- `self.__class__.__qualname__`, in the one module that has them all
abbrev pub qualname : {T D : Type 0} → UserAction T D → String
qualname (change_outreach_preference _) = "AuthenticatedChangeOutreachPreferenceUserAction"
qualname (activate_user _) = "AuthenticatedActivateUserAction"
qualname (activate_with_override_token _ _) = "AuthenticatedActivateUserWithOverrideTokenAction"
qualname (change_user_email _) = "AuthenticatedChangeEmailUserAction"
qualname (create_totp_factor _) = "AuthenticatedCreateTOTPFactorUserAction"
qualname noop = "AuthenticatedNoopUserAction"
qualname (reset_password _) = "AuthenticatedResetPasswordUserAction"
qualname delete_user = "AuthenticatedDeleteUserAction"
qualname (renew_domain _) = "AuthenticatedRenewDomainBasicUserAction"

-- `AuthenticatedUserAction._state_fields`, after those of the user
abbrev pub credential_fields : User → List StateField → List StateField
credential_fields u rest = moment (some u.credentials_changed) ∷ optional flag u.is_active ∷ rest

-- `self.token.user`, the user whom the token stands for
abbrev pub effective_user : OverrideToken → ℕ
effective_user t = elim t.user_override [ none ↦ t.owner | some user ↦ user ]

abbrev pub token_fields : ℕ → OverrideToken → List StateField
token_fields id t =
    primary_key id
    ∷ primary_key (effective_user t)
    ∷ optional primary_key t.user_override
    ∷ text t.name
    ∷ flag t.perm_create_domain
    ∷ flag t.perm_delete_domain
    ∷ flag t.auto_policy
    ∷ optional duration t.max_age
    ∷ optional duration t.max_unused_period
    ∷ []

abbrev pub domain_fields : ℕ → OwnedDomain → List StateField
domain_fields id d =
    primary_key id ∷ text d.name ∷ primary_key d.owner ∷ moment d.renewal_changed ∷ []

abbrev pub Instance : Type 0
Instance = UserAction (ℕ × OverrideToken) (ℕ × OwnedDomain)

-- What a class adds to the fields of `AuthenticatedBasicUserAction`.
abbrev pub own_fields : User → Instance → List StateField
own_fields u (change_outreach_preference _) = text u.email ∷ []
own_fields u (activate_user domain) = credential_fields u (optional text domain ∷ [])
own_fields u (activate_with_override_token _ t) = credential_fields u (token_fields t.0 t.1)
own_fields u (change_user_email new_email) = credential_fields u (text new_email ∷ [])
own_fields u (create_totp_factor _) = credential_fields u []
own_fields u noop = []
own_fields u (reset_password _) = credential_fields u []
own_fields u delete_user = credential_fields u []
own_fields u (renew_domain d) = domain_fields d.0 d.1

-- `_state_fields`
unfoldable pub state_fields : ℕ → User → Instance → List StateField
state_fields id u a = text (qualname a) ∷ primary_key id ∷ own_fields u a

abbrev pub is_serializable : StateField → Bool
is_serializable (duration _) = false
is_serializable _ = true

-- `_act` of each class
unfoldable pub act_now : ℕ → ℕ → User → Instance → Tables → Result ActionError Tables
unfolding save_factor
act_now now id u (change_outreach_preference preference) s =
    ok (save_user id (record u { outreach_preference = preference }) s)
act_now now id u (activate_user _) s = ok (save_user id (activate u) s)
act_now now id u (activate_with_override_token preference t) s =
    let token = record t.1 { user_override = some id } in
    let saved = save_user id (activate (record u { outreach_preference = preference })) s in
    ok (record saved { tokens = put t.0 token s.tokens })
act_now now id u (change_user_email new_email) s = change_email now id u new_email s
act_now now id u (create_totp_factor name) s = save_factor now id u name s
act_now now id u noop s = ok s
act_now now id u (reset_password new_password) s = change_password now id u new_password s
act_now now id u delete_user s = delete_row id s
act_now now id u (renew_domain d) s =
    let renewed = record d.1 { is_fresh = true; renewal_changed = some now } in
    ok (record s { domains = put d.0 renewed s.domains })

-- The rows that the serializer's `PrimaryKeyRelatedField`s put in place of the keys.
unfoldable pub fetch : Tables → UserAction ℕ ℕ → Result ActionError Instance
fetch s (change_outreach_preference preference) = ok (change_outreach_preference preference)
fetch s (activate_user domain) = ok (activate_user domain)
fetch s (activate_with_override_token preference t) = do
  row ← find_row t s.tokens
  ok (activate_with_override_token preference (t, row))
fetch s (change_user_email new_email) = ok (change_user_email new_email)
fetch s (create_totp_factor name) = ok (create_totp_factor name)
fetch s noop = ok noop
fetch s (reset_password new_password) = ok (reset_password new_password)
fetch s delete_user = ok delete_user
fetch s (renew_domain d) = do row ← find_row d s.domains; ok (renew_domain (d, row))

-- The views of an activation drop the permission class `IsActiveUser`.
abbrev pub needs_active : UserAction ℕ ℕ → Bool
needs_active (activate_user _) = false
needs_active (activate_with_override_token _ _) = false
needs_active _ = true

-- `AuthenticatedDeleteUserActionView.post`
abbrev pub has_domains : ℕ → UserAction ℕ ℕ → Tables → Bool
has_domains id delete_user s = any (λ d. nat_beq d.1.owner id) s.domains
has_domains id _ s = false

-- `validate` of the serializer: an activation needs a captcha that is solved if the user does.
abbrev pub lacks_captcha : User → UserAction ℕ ℕ → Option Bool → Bool
lacks_captcha u (activate_user _) none = u.needs_captcha
lacks_captcha u (activate_user _) (some solved) = not solved
lacks_captcha u (activate_with_override_token _ _) none = u.needs_captcha
lacks_captcha u (activate_with_override_token _ _) (some solved) = not solved
lacks_captcha u _ _ = false

-- The validator of the serializer's field `new_email`: some user has the address.
abbrev pub takes_email : UserAction ℕ ℕ → Tables → Bool
takes_email (change_user_email new_email) s = any (λ other. other.1.email == new_email) s.users
takes_email _ s = false

-- A request to act: what its code and its data say.
pub record Request (Digest : Type 0) : Type 0 where
  pub user : ℕ
  pub action : UserAction ℕ ℕ
  pub state : Digest
  pub captcha : Option Bool

module _ {Digest : Type 0} ⦃digests : Eq Digest⦄ (digest : List StateField → Digest) where
  -- `state_of`
  unfoldable pub state_of : List StateField → Result ActionError Digest
  state_of fields =
      raise_if (not (all is_serializable fields)) not_serializable >> ok (digest fields)

  -- `__init__`, of which `_validated` is the result
  unfoldable pub instantiate : ℕ → User → Instance → Option Digest → Result ActionError Bool
  unfolding state_of state_fields
  instantiate id u a none = ok false
  instantiate id u a (some state) = do
    current ← state_of (state_fields id u a)
    raise_if (not (state == current)) invalid_state
    ok true

  -- `act`
  unfoldable pub act : ℕ → ℕ → User → Instance → Bool → Tables → Result ActionError Tables
  unfolding act_now
  act now id u a validated s = raise_if (not validated) not_verified >> act_now now id u a s

  -- `post` of the views
  unfoldable pub post : ℕ → Request Digest → Tables → Result ActionError Tables
  unfolding instantiate act fetch
  post now r s = do
    u ← find_row r.user s.users
    raise_if (is_false u.is_active) not_permitted
    raise_if (needs_active r.action && not (is_true u.is_active)) not_permitted
    raise_if (has_domains r.user r.action s) still_has_domains
    a ← fetch s r.action
    raise_if (takes_email r.action s) not_unique
    raise_if (lacks_captcha u r.action r.captcha) captcha_missing
    validated ← instantiate r.user u a (some r.state)
    act now r.user u a validated s
