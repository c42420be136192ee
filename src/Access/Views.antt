-- ===== src/Access/Views.antt =====
-- The permission classes that the views in views/domains.py, records.py, tokens.py, users.py, mfa.py and
-- dyndns.py ask for, as lists in their order. The REST framework refuses a request where one of the
-- classes refuses it, and an object where one of them refuses the object.
use desec_stack.Common.{
  Bool, true, false, not, ◌&&◌, Option, none, some, List, [], ◌∷◌, ◌++◌, if◌then◌else◌, nat_eq,
  string_eq, pair_eq, option_eq, all,
}
use desec_stack.Access.Permissions.{
  Visit, Object, Permission, either, is_authenticated, is_login_token, mfa_required_if_enabled,
  is_owner, is_user, is_token_user, is_domain_owner, token_has_rrset_permission,
  auth_token_corresponds_to_view_token, has_create_domain_permission, has_delete_domain_permission,
  has_manage_tokens_permission, within_domain_limit, api_token_or_factor,
}

-- The views, by the class that has `permission_classes`.
pub data View : Type 0 where
  domain_view_set rrset_detail rrset_list token_view_set token_policies_root : View
  token_domain_policy_view_set account_view totp_view_set dyn_dns_update account_logout_view : View

-- `self.action` of a view set; the other actions stand for themselves
pub data Action : Type 0 where
  unsupported list_action create_action retrieve_action update_action destroy_action : Action
  zonefile_action verify_action : Action

-- `match self.action`, of a method that is not safe; none is the `ValueError`
abbrev pub unsafe_domain_classes : Action → Option (List Permission)
unsafe_domain_classes unsupported = some []
unsafe_domain_classes create_action = some (has_create_domain_permission ∷ within_domain_limit ∷ [])
unsafe_domain_classes destroy_action = some (has_delete_domain_permission ∷ [])
unsafe_domain_classes _ = none

-- `DomainViewSet.permission_classes`
unfoldable pub domain_classes : Visit → Action → Option (List Permission)
unfolding api_token_or_factor
domain_classes v action = elim (if v.is_safe then some [] else unsafe_domain_classes action) [
  | none ↦ none
  | some more ↦ some ((is_authenticated ∷ api_token_or_factor ∷ is_owner ∷ []) ++ more)
]

-- `RRsetView.permission_classes`, which the list of RR sets uses as they are
abbrev pub rrset_classes : List Permission
rrset_classes = is_authenticated ∷ api_token_or_factor ∷ is_domain_owner ∷ []

-- `RRsetDetail.permission_classes`
unfoldable pub rrset_detail_classes : Visit → List Permission
unfolding api_token_or_factor
rrset_detail_classes v =
    rrset_classes ++ (if v.is_safe then [] else token_has_rrset_permission ∷ [])

abbrev pub is_destroy : Action → Bool
is_destroy destroy_action = true
is_destroy _ = false

abbrev pub is_verify : Action → Bool
is_verify verify_action = true
is_verify _ = false

-- `TokenViewSet.permission_classes`
unfoldable pub token_classes : Visit → Action → List Permission
unfolding api_token_or_factor
token_classes v action =
    (is_authenticated ∷ api_token_or_factor ∷ has_manage_tokens_permission ∷ [])
    ++ (if not v.is_safe && not (is_destroy action) then is_user ∷ [] else [])

abbrev pub own_or_managed : Permission
own_or_managed = either has_manage_tokens_permission auth_token_corresponds_to_view_token

-- `TokenPoliciesRoot.permission_classes`
unfoldable pub policies_root_classes : List Permission
unfolding api_token_or_factor
policies_root_classes = is_authenticated ∷ api_token_or_factor ∷ own_or_managed ∷ []

-- `TokenDomainPolicyViewSet.permission_classes`
unfoldable pub policy_classes : Visit → List Permission
unfolding api_token_or_factor
policy_classes v =
    (is_authenticated ∷ api_token_or_factor ∷ [])
    ++ (if v.is_safe
        then own_or_managed ∷ []
        else has_manage_tokens_permission ∷ is_token_user ∷ [])

-- `AccountView.permission_classes`
unfoldable pub account_classes : List Permission
unfolding api_token_or_factor
account_classes = is_authenticated ∷ api_token_or_factor ∷ has_manage_tokens_permission ∷ []

-- `TOTPViewSet.permission_classes`; `AllowAny` refuses nothing
unfoldable pub totp_classes : Visit → Action → List Permission
unfolding mfa_required_if_enabled is_login_token
totp_classes v action =
    if is_verify action
    then []
    else (is_authenticated ∷ has_manage_tokens_permission ∷ [])
      ++ (if not v.is_safe && not (is_verify action)
          then mfa_required_if_enabled ∷ []
          else is_login_token ∷ [])

unfoldable pub permission_classes : View → Visit → Action → Option (List Permission)
unfolding domain_classes rrset_detail_classes token_classes policies_root_classes policy_classes
    account_classes totp_classes is_domain_owner api_token_or_factor
permission_classes domain_view_set v action = domain_classes v action
permission_classes rrset_detail v action = some (rrset_detail_classes v)
permission_classes rrset_list v action = some rrset_classes
permission_classes token_view_set v action = some (token_classes v action)
permission_classes token_policies_root v action = some policies_root_classes
permission_classes token_domain_policy_view_set v action = some (policy_classes v)
permission_classes account_view v action = some account_classes
permission_classes totp_view_set v action = some (totp_classes v action)
permission_classes dyn_dns_update v action = some (is_domain_owner ∷ [])
permission_classes account_logout_view v action = some (is_authenticated ∷ [])

-- `check_permissions`
unfoldable pub allows : View → Visit → Action → Bool
unfolding permission_classes
allows view v action = elim (permission_classes view v action) [
  | none ↦ false
  | some classes ↦ all (λ p. p.has_permission v) classes
]

-- `check_object_permissions`
unfoldable pub allows_object : View → Visit → Action → Object → Bool
unfolding permission_classes
allows_object view v action o = elim (permission_classes view v action) [
  | none ↦ false
  | some classes ↦ all (λ p. p.has_object_permission v o) classes
]
