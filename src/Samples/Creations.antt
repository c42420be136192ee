-- ===== src/Samples/Creations.antt =====
-- A request that creates a domain below a local public suffix, with an automatic policy, and one that
-- deletes it.
use desec_stack.Common.{
  String, ◌≡◌, refl, inr, Bool, true, false, none, some, List, [], ◌∷◌, nat_eq, string_eq, pair_eq,
  option_eq, ok, length, keep, member, add, discard, union, difference, intersection, is_distinct,
  get, put, pop, keys,
}
use desec_stack.Token.{Token, get_policy}
use desec_stack.Db.{Domain}
use desec_stack.Token.{Token, add_policy}
use desec_stack.Tracker.{receive_all}
use desec_stack.Context.Data.{Call}
use desec_stack.Context.Effects.{World}
use desec_stack.Context.{Process, enter, exit}
use desec_stack.Delegation.{DomainKey, is_locally_registrable, auto_delegate}
use desec_stack.Access.Views.{
  domain_view_set, create_action, domain_classes, permission_classes, allows,
}
use desec_stack.Db.{the_only, insert_rrset, contents_at, ttl_of}
use desec_stack.Token.{default_policy}
use desec_stack.Token.Soundness.{IsSound}
use desec_stack.Tracker.{receive}
use desec_stack.Changes.{compute_changes}
use desec_stack.Bulk.{delete_row}
use desec_stack.Delegation.{
  partitioned_name, create_rrset, delete_rows, all_ds, delegate, update_delegation,
}
use desec_stack.Context.Owners.{owned}
use desec_stack.Access.Permissions.{
  Visit, is_api_token, mfa_required_if_enabled, api_token_or_factor, within_domain_limit,
}
use desec_stack.Access.Creation.{Site, Tracked, own_policy, perform_create}
use desec_stack.Delegation.{Child, delete_domain}
use desec_stack.Delegation.Destroyed.{IsDestroyed}
use desec_stack.Access.Destruction.{delete_body, perform_destroy}
use desec_stack.Access.Destroyed.{perform_destroy-IsDestroyed}
use desec_stack.Access.Quota.{IsWithin, perform_create-IsWithin}

abbrev program : Unit {0}
unfolding perform_create perform_destroy delete_body delete_domain receive_all receive
    compute_changes exit insert_rrset contents_at ttl_of member get put add discard keep union
    difference intersection keys pop enter the_only is_distinct partitioned_name create_rrset
    delete_rows delete_row all_ds delegate update_delegation is_locally_registrable auto_delegate
    add_policy get_policy
program = tt

abbrev site : Site
site = record {
  tracking = record {
    default_ns_ttl = 3600;
    default_ns = "ns1.example." ∷ [];
    pch_enabled = false;
  };
  register_lps = true;
  local_public_suffixes = "dedyn.io" ∷ [];
  minimum_ttl = 3600;
}

abbrev willing : List Call → Call → Bool
willing log call = true

abbrev domain_row : String → String → Domain
domain_row owner name = record {
  name = name;
  owner = owner;
  published = none;
  minimum_ttl = 3600;
  renewal_state = 0;
  renewal_changed = 0;
}

abbrev sample_world : World
sample_world = record {
  log = [];
  db = record {
    domains = domain_row "admin" "dedyn.io" ∷ domain_row "user" "example.com" ∷ [];
    rrsets = [];
  };
}

abbrev idle : Process
idle = record { active = 0; connected = false }

abbrev sample_visit : Visit
sample_visit = record {
  user = record {
    email = "user";
    is_active = some true;
    mfa_enabled = false;
    limit_domains = some 2;
  };
  auth = record {
    owner = "user";
    user_override = none;
    mfa = none;
    perm_create_domain = true;
    perm_delete_domain = false;
    perm_manage_tokens = false;
    created = 0;
    last_used = none;
    max_age = none;
    max_unused_period = none;
    auto_policy = true;
    policies = default_policy 1 ∷ [];
  };
  is_safe = false;
  domain_owner = "user";
  is_own_token = false;
  domain_count = 1;
}

sample_auth-IsSound : IsSound sample_visit.auth
unfolding keep
sample_auth-IsSound = record {
  one_default = inr (default_policy 1, refl, refl);
  made = λ h. refl;
  separate = refl;
}

creation_allowed : allows domain_view_set sample_visit create_action ≡ true
unfolding allows permission_classes domain_classes api_token_or_factor is_api_token
    mfa_required_if_enabled within_domain_limit
creation_allowed = refl

abbrev zone_keys : List DomainKey
zone_keys = record { ds = "1 13 2 ab" ∷ [] } ∷ []

abbrev created : Tracked × Token
created =
    perform_create site willing 100 2 "user" "a.dedyn.io" zone_keys sample_visit.auth idle
      sample_world

creation_runs :
    (created.0.result ≡ ok tt)
    × (owned "user" created.0.world.db.domains ≡ 2)
    × (length created.0.world.db.rrsets ≡ 3)
    × (created.1.policies ≡ own_policy 2 "a.dedyn.io" ∷ default_policy 1 ∷ [])
    × (created.0.process ≡ idle)
unfolding program
creation_runs = (refl, refl, refl, refl, refl)

perform_create-IsWithin_example : IsWithin "user" 2 sample_world.db created.0.world.db created.1
unfolding keep
perform_create-IsWithin_example =
    perform_create-IsWithin site willing 100 2 "a.dedyn.io" zone_keys idle sample_world sample_visit
      2 refl creation_allowed refl refl sample_auth-IsSound

abbrev made_child : Child
made_child = record { name = "a.dedyn.io"; is_saved = true; keys = zone_keys }

abbrev destroyed : Tracked
destroyed = perform_destroy site willing 200 made_child idle created.0.world

destruction_runs :
    (destroyed.result ≡ ok tt)
    × (length destroyed.world.db.domains ≡ 2)
    × (length destroyed.world.db.rrsets ≡ 0)
unfolding program
destruction_runs = (refl, refl, refl)

perform_destroy-IsDestroyed_example :
    IsDestroyed ("dedyn.io" ∷ []) "a.dedyn.io" destroyed.world.db.rrsets
perform_destroy-IsDestroyed_example =
    perform_destroy-IsDestroyed site willing 200 made_child idle created.0.world destruction_runs.0
