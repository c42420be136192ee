-- ===== src/Access/Permissions.antt =====
-- permissions.py: the permission classes, with their tests of a request and of an object.
use desec_stack.Common.{
  ℕ, String, Bool, true, false, not, ◌&&◌, ◌||◌, none, some, ltb, ◌==◌, nat_eq, string_eq, pair_eq,
  option_eq,
}
use desec_stack.Account.{is_true, is_false}
use desec_stack.Token.{Token, Target, can_safely_delete_domain, has_rrset_permission}
use desec_stack.Access.{RequestUser}

-- A request that has been authenticated by a token, with what the permissions read of the view and of
-- the database: the owner of the domain in the path, whether the token in the path is the request's,
-- and how many domains the user has.
pub record Visit : Type 0 where
  pub user : RequestUser
  pub auth : Token
  pub is_safe : Bool
  pub domain_owner : String
  pub is_own_token : Bool
  pub domain_count : ℕ

-- The object of a view: a domain, an RR set, a token or a policy of a token, by what is read of it.
pub data Object : Type 0 where
  domain_object : (owner name : String) → Object
  rrset_object : Target → Object
  token_object : (user : String) → Object
  policy_object : (user : String) → Object

pub record Permission : Type 0 where
  pub has_permission : Visit → Bool
  pub has_object_permission : Visit → Object → Bool

-- a class without `has_object_permission`
abbrev pub of_request : (Visit → Bool) → Permission
of_request test = record { has_permission = test; has_object_permission = λ v o. true }

-- a class without `has_permission`
abbrev pub of_object : (Visit → Object → Bool) → Permission
of_object test = record { has_permission = λ v. true; has_object_permission = test }

-- `|` of two classes that look at the request alone
abbrev pub either : Permission → Permission → Permission
either p q = of_request (λ v. p.has_permission v || q.has_permission v)

abbrev pub is_authenticated : Permission
is_authenticated = of_request (λ v. true)

unfoldable pub is_api_token : Permission
is_api_token = of_request (λ v. not (is_true v.auth.mfa || is_false v.auth.mfa))

unfoldable pub is_login_token : Permission
is_login_token = of_request (λ v. is_true v.auth.mfa || is_false v.auth.mfa)

unfoldable pub mfa_required_if_enabled : Permission
mfa_required_if_enabled =
    of_request (λ v. is_true v.auth.mfa || is_false v.auth.mfa && not v.user.mfa_enabled)

abbrev pub owned_by : String → Object → Bool
owned_by user (domain_object owner name) = owner == user
owned_by user _ = false

abbrev pub is_owner : Permission
is_owner = of_object (λ v o. owned_by v.user.email o)

abbrev pub used_by : String → Object → Bool
used_by user (token_object of) = of == user
used_by user _ = false

abbrev pub is_user : Permission
is_user = of_object (λ v o. used_by v.user.email o)

abbrev pub policy_used_by : String → Object → Bool
policy_used_by user (policy_object of) = of == user
policy_used_by user _ = false

abbrev pub is_token_user : Permission
is_token_user = of_object (λ v o. policy_used_by v.user.email o)

unfoldable pub is_domain_owner : Permission
is_domain_owner = of_request (λ v. v.user.email == v.domain_owner)

abbrev pub writes_object : Token → Object → Bool
writes_object t (rrset_object target) = has_rrset_permission t target
writes_object t _ = false

abbrev pub token_has_rrset_permission : Permission
token_has_rrset_permission = of_object (λ v o. writes_object v.auth o)

abbrev pub auth_token_corresponds_to_view_token : Permission
auth_token_corresponds_to_view_token = of_request (λ v. v.is_own_token)

abbrev pub has_create_domain_permission : Permission
has_create_domain_permission = of_request (λ v. v.auth.perm_create_domain)

abbrev pub deletes_object : Token → Object → Bool
deletes_object t (domain_object owner name) = can_safely_delete_domain t name
deletes_object t _ = false

abbrev pub has_delete_domain_permission : Permission
has_delete_domain_permission = record {
  has_permission = λ v. v.auth.perm_delete_domain;
  has_object_permission = λ v o. deletes_object v.auth o;
}

abbrev pub has_manage_tokens_permission : Permission
has_manage_tokens_permission = of_request (λ v. v.auth.perm_manage_tokens)

unfoldable pub within_domain_limit : Permission
within_domain_limit =
    of_request (λ v. elim v.user.limit_domains [ none ↦ true | some n ↦ ltb v.domain_count n ])

-- `permissions.IsAPIToken | permissions.MFARequiredIfEnabled`
unfoldable pub api_token_or_factor : Permission
unfolding is_api_token mfa_required_if_enabled
api_token_or_factor = either is_api_token mfa_required_if_enabled
