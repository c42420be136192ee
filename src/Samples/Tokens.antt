-- ===== src/Samples/Tokens.antt =====
-- A token with policies, and the theorems at it.
use desec_stack.Common.{
  ◌≡◌, refl, inr, true, false, none, some, [], ◌∷◌, nat_eq, string_eq, pair_eq, ok, keep,
}
use desec_stack.Db.{Item}
use desec_stack.Token.{
  Policy, Token, target_of, matches, comes_before, first_of_order, get_policy, is_valid,
  can_safely_delete_domain, clean_new_policy, add_policy, default_policy, add_one, edit,
  has_rrset_permission,
}
use desec_stack.Token.Priority.{IsBest, get_policy-IsBest}
use desec_stack.Token.Deletion.{can_safely_delete_domain-has_rrset_permission}
use desec_stack.Token.Soundness.{IsSound}
use desec_stack.Token.Invariant.{edit-IsSound}

-- the subname "_acme-challenge" of every domain
abbrev acme : Policy
acme = record {
  id = 2;
  domain = none;
  subname = some "_acme-challenge";
  type = none;
  perm_write = true;
}

abbrev of_domain : Policy
of_domain = record {
  id = 3;
  domain = some "example.dedyn.io";
  subname = none;
  type = none;
  perm_write = true;
}

abbrev sample : Token
sample = record {
  owner = "user@example.com";
  user_override = none;
  mfa = none;
  perm_create_domain = false;
  perm_delete_domain = true;
  perm_manage_tokens = false;
  created = 1000;
  last_used = none;
  max_age = some 500;
  max_unused_period = none;
  auto_policy = true;
  policies = acme ∷ default_policy 1 ∷ [];
}

abbrev sample_of_domain : Token
sample_of_domain = record sample { policies = of_domain ∷ sample.policies }

abbrev acme_item : Item
acme_item = ("TXT", "_acme-challenge")

valid_until : is_valid sample 1500 ≡ true
unfolding is_valid
valid_until = refl

invalid_after : is_valid sample 1501 ≡ false
unfolding is_valid
invalid_after = refl

no_safe_deletion : can_safely_delete_domain sample "example.dedyn.io" ≡ false
unfolding can_safely_delete_domain
no_safe_deletion = refl

found : get_policy sample_of_domain (target_of "example.dedyn.io" acme_item) ≡ some of_domain
unfolding get_policy first_of_order matches comes_before keep
found = refl

added : edit (add_one of_domain) sample ≡ ok sample_of_domain
unfolding edit add_policy clean_new_policy get_policy first_of_order matches comes_before keep
added = refl

sample-IsSound : IsSound sample
unfolding keep
sample-IsSound = record {
  one_default = inr (default_policy 1, refl, refl);
  made = λ h. refl;
  separate = refl;
}

safe : can_safely_delete_domain sample_of_domain "example.dedyn.io" ≡ true
unfolding can_safely_delete_domain
safe = refl

get_policy-IsBest_example :
    IsBest (target_of "example.dedyn.io" acme_item) sample_of_domain.policies of_domain
get_policy-IsBest_example =
    (get_policy-IsBest sample_of_domain (target_of "example.dedyn.io" acme_item)).0 of_domain found

can_safely_delete_domain_example :
    has_rrset_permission sample_of_domain (target_of "example.dedyn.io" acme_item) ≡ true
can_safely_delete_domain_example =
    can_safely_delete_domain-has_rrset_permission sample_of_domain "example.dedyn.io" acme_item safe

edit-IsSound_example : IsSound sample_of_domain
edit-IsSound_example = edit-IsSound (add_one of_domain) sample sample_of_domain sample-IsSound added
