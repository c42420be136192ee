-- ===== src/Access/Passing.antt =====
-- permissions.py and the views: what a request that is allowed has passed.
use desec_stack.Common.{
  String, ◌≡◌, refl, inl, inr, Bool, true, false, not, ◌&&◌, arith, Bool-cases, ==_iff, nat_eq,
  string_eq, pair_eq, option_eq,
}
use desec_stack.Account.{is_false}
use desec_stack.Token.{target_of, has_rrset_permission}
use desec_stack.Access.Permissions.{
  Visit, domain_object, is_api_token, mfa_required_if_enabled, api_token_or_factor,
}
use desec_stack.Access.Views.{
  View, domain_view_set, rrset_detail, rrset_list, token_view_set, token_policies_root,
  token_domain_policy_view_set, account_view, totp_view_set, dyn_dns_update, account_logout_view,
  Action, destroy_action, is_verify, domain_classes, rrset_detail_classes, token_classes,
  policies_root_classes, policy_classes, account_classes, totp_classes, permission_classes, allows,
  allows_object,
}
use desec_stack.Db.{Item}
use desec_stack.Token.Deletion.{can_safely_delete_domain-has_rrset_permission}

-- The token is that of a login, and its user has a second factor that it has not passed.
abbrev pub is_pending : Visit → Bool
is_pending v = is_false v.auth.mfa && v.user.mfa_enabled

-- all views but those of dynamic DNS, of logging out, of checking a code, and of reading one's factors
abbrev pub is_gated : View → Visit → Action → Bool
is_gated totp_view_set v action = not v.is_safe && not (is_verify action)
is_gated dyn_dns_update v action = false
is_gated account_logout_view v action = false
is_gated _ v action = true

factor_missing : (v : Visit) → is_pending v ≡ true → api_token_or_factor.has_permission v ≡ false
unfolding api_token_or_factor is_api_token mfa_required_if_enabled
factor_missing v h = ground arith

-- A login token whose user has a second factor is refused by every view of domains, RR sets, tokens,
-- policies and the account, and by every change of the factors, until it has passed that factor.
pub pending-refused :
    (view : View) (v : Visit) (action : Action)
    → is_pending v ≡ true
    → is_gated view v action ≡ true
    → allows view v action ≡ false
unfolding allows permission_classes domain_classes rrset_detail_classes token_classes
    policies_root_classes policy_classes account_classes totp_classes mfa_required_if_enabled
pending-refused domain_view_set v action h g = let f = factor_missing v h in ground arith
pending-refused rrset_detail v action h g = rw (factor_missing v h) refl
pending-refused rrset_list v action h g = rw (factor_missing v h) refl
pending-refused token_view_set v action h g = rw (factor_missing v h) refl
pending-refused token_policies_root v action h g = rw (factor_missing v h) refl
pending-refused token_domain_policy_view_set v action h g = rw (factor_missing v h) refl
pending-refused account_view v action h g = rw (factor_missing v h) refl
pending-refused totp_view_set v action h g = ground arith
pending-refused dyn_dns_update v action h g = absurd (ground arith)
pending-refused account_logout_view v action h g = absurd (ground arith)

-- What holds of a request to delete a domain that is allowed.
pub record MayDestroy (v : Visit) (owner name : String) : Type 0 where
  pub own : owner ≡ v.user.email
  pub may_delete : v.auth.perm_delete_domain ≡ true
  pub not_pending : is_pending v ≡ false
  pub may_write : (x : Item) → has_rrset_permission v.auth (target_of name x) ≡ true

-- A request to delete a domain is allowed, with the domain as its object, only to the owner of the
-- domain, by a token that has the permission to delete domains, that has passed the second factor if
-- it is a login token of a user with one, and that may write every RR set of the domain.
pub allows-MayDestroy :
    (v : Visit) (owner name : String)
    → v.is_safe ≡ false
    → allows domain_view_set v destroy_action ≡ true
    → allows_object domain_view_set v destroy_action (domain_object owner name) ≡ true
    → MayDestroy v owner name
unfolding allows allows_object permission_classes domain_classes
allows-MayDestroy v owner name unsafe h o = record {
  own = (==_iff owner v.user.email).0 (ground arith);
  may_delete = ground arith;
  not_pending = elim (Bool-cases (is_pending v)) [
    | inl p ↦ absurd (let refused = factor_missing v p in ground arith)
    | inr n ↦ n
  ];
  may_write = λ x. can_safely_delete_domain-has_rrset_permission v.auth name x (ground arith);
}
