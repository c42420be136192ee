-- ===== src/Samples/Visits.antt =====
-- Requests to the views, and the theorems on what they have passed.
use desec_stack.Common.{
  ◌≡◌, refl, true, false, none, some, [], ◌∷◌, nat_eq, string_eq, pair_eq, option_eq,
}
use desec_stack.Token.{Policy, Token, can_safely_delete_domain}
use desec_stack.Access.Permissions.{
  Visit, domain_object, is_api_token, mfa_required_if_enabled, is_domain_owner, within_domain_limit,
  api_token_or_factor,
}
use desec_stack.Access.Views.{
  domain_view_set, rrset_list, totp_view_set, dyn_dns_update, create_action, retrieve_action,
  destroy_action, verify_action, domain_classes, totp_classes, permission_classes, allows,
  allows_object,
}
use desec_stack.Access.Passing.{pending-refused, MayDestroy, allows-MayDestroy}

abbrev domain_policy : Policy
domain_policy = record {
  id = 2;
  domain = some "example.com";
  subname = none;
  type = none;
  perm_write = true;
}

abbrev default_one : Policy
default_one = record { id = 1; domain = none; subname = none; type = none; perm_write = false }

abbrev sample_token : Token
sample_token = record {
  owner = "user@example.com";
  user_override = none;
  mfa = none;
  perm_create_domain = false;
  perm_delete_domain = true;
  perm_manage_tokens = false;
  created = 0;
  last_used = none;
  max_age = none;
  max_unused_period = none;
  auto_policy = false;
  policies = domain_policy ∷ default_one ∷ [];
}

abbrev sample_visit : Visit
sample_visit = record {
  user = record {
    email = "user@example.com";
    is_active = some true;
    mfa_enabled = true;
    limit_domains = some 1;
  };
  auth = sample_token;
  is_safe = false;
  domain_owner = "user@example.com";
  is_own_token = false;
  domain_count = 1;
}

abbrev login_visit : Visit
login_visit = record sample_visit {
  auth = record sample_token { mfa = some false; perm_create_domain = true };
}

pending-refused_example : allows rrset_list login_visit create_action ≡ false
pending-refused_example = pending-refused rrset_list login_visit create_action refl refl

-- the views that are left to such a token
dynamic_allowed : allows dyn_dns_update login_visit retrieve_action ≡ true
unfolding allows permission_classes is_domain_owner
dynamic_allowed = refl

verify_allowed : allows totp_view_set login_visit verify_action ≡ true
unfolding allows permission_classes totp_classes
verify_allowed = refl

destroy_allowed : allows domain_view_set sample_visit destroy_action ≡ true
unfolding allows permission_classes domain_classes api_token_or_factor is_api_token
    mfa_required_if_enabled
destroy_allowed = refl

object_allowed :
    allows_object domain_view_set sample_visit destroy_action
      (domain_object "user@example.com" "example.com")
    ≡ true
unfolding allows_object permission_classes domain_classes api_token_or_factor
    can_safely_delete_domain
object_allowed = refl

other_domain :
    allows_object domain_view_set sample_visit destroy_action
      (domain_object "user@example.com" "example.net")
    ≡ false
unfolding allows_object permission_classes domain_classes api_token_or_factor
    can_safely_delete_domain
other_domain = refl

allows-MayDestroy_example : MayDestroy sample_visit "user@example.com" "example.com"
allows-MayDestroy_example =
    allows-MayDestroy sample_visit "user@example.com" "example.com" refl destroy_allowed
      object_allowed

-- the limit on domains has been reached
at_limit :
    allows domain_view_set
      (record sample_visit { auth = record sample_token { perm_create_domain = true } })
      create_action
    ≡ false
unfolding allows permission_classes domain_classes api_token_or_factor is_api_token
    mfa_required_if_enabled within_domain_limit
at_limit = refl
