-- ===== src/Samples/Tracking.antt =====
-- The change tracker, on one domain with a few RR sets.
use desec_stack.Common.{
  ℕ, String, ◌≡◌, refl, ◌⊎◌, inl, Bool, true, false, Option, none, some, List, [], ◌∷◌, arith,
  nat_eq, string_eq, pair_eq, option_eq, ok, err, succeeds, keep, member, add, discard, union,
  difference, intersection, get, put, pop, keys,
}
use desec_stack.Db.{Item, Domain, Db, ttl_of, contents_at, insert_rrset}
use desec_stack.Changes.{Change, create_domain, update_rr_sets, compute_changes}
use desec_stack.Changes.Selection.{Selection, compute_changes-Selection}
use desec_stack.Context.Data.{
  Call, create_zone_lord, create_zone_master, update_catalog, update_zone, axfr_to_master, Settings,
  construct_name,
}
use desec_stack.Context.Effects.{World}
use desec_stack.Context.{Process, enter, committed, Outcome, leave, exit}
use desec_stack.Tracker.{
  assertion_error, Tracker, fresh, rr_set_updated, Signal, rr_saved, rr_set_saved, rr_set_deleted,
  domain_saved, receive, receive_all,
}
use desec_stack.Tracker.View.{items_of}
use desec_stack.Tracker.Invariant.{IsValid, fresh-IsValid, receive_all-IsValid}
use desec_stack.Tracker.Agrees.{Rows, Agrees, are_possible, is_possible, becomes, rows_after}
use desec_stack.Tracker.Lost.{made_anew, deleted_again, deletion_lost}
use desec_stack.Context.Closing.{RolledBack, exit-closes, exit-published}
use desec_stack.Context.Nesting.{attempts, enter_nested}

-- All that a run of the tracker computes with.
program : Unit {0}
unfolding receive_all receive compute_changes exit insert_rrset contents_at ttl_of member get put
    add discard keep union difference intersection keys pop enter are_possible is_possible becomes
    rows_after construct_name
program = tt

abbrev www : Item
www = ("A", "www")

abbrev mail : Item
mail = ("MX", "")

-- A domain is made, with an A set; a set that was there is deleted.
abbrev signals : List Signal
signals =
    domain_saved "example.com" true
    ∷ rr_set_saved "example.com" www true
    ∷ rr_saved "example.com" www
    ∷ rr_set_deleted "example.org" mail
    ∷ []

abbrev rows : Rows
rows = ("example.org", mail) ∷ []

abbrev after : Tracker
after = (receive_all signals fresh).1

after_runs : receive_all signals fresh ≡ (
  ok tt,
  record {
    domain_additions = "example.com" ∷ [];
    domain_deletions = [];
    rr_set_additions = ("example.com", www ∷ []) ∷ ("example.org", []) ∷ [];
    rr_set_modifications = ("example.com", www ∷ []) ∷ ("example.org", []) ∷ [];
    rr_set_deletions = ("example.com", []) ∷ ("example.org", mail ∷ []) ∷ [];
  },
)
unfolding program
after_runs = refl

receive_all-IsValid_example : IsValid (receive_all signals fresh).1
unfolding program
receive_all-IsValid_example = receive_all-IsValid signals fresh refl fresh-IsValid

after-IsValid : IsValid after
after-IsValid = receive_all-IsValid_example

deletion_lost_example :
    (succeeds (rr_set_updated "example.org" mail true false after).0 ≡ true)
    × (succeeds
          (rr_set_updated "example.org" mail false true (made_anew "example.org" mail after)).0
        ≡ true)
    × (member mail (items_of "example.org" (deleted_again "example.org" mail after)).additions
        ≡ false)
    × (member mail (items_of "example.org" (deleted_again "example.org" mail after)).modifications
        ≡ false)
    × (member mail (items_of "example.org" (deleted_again "example.org" mail after)).deletions
        ≡ false)
unfolding program
deletion_lost_example = deletion_lost "example.org" mail after after-IsValid refl

abbrev domain_row : String → Domain
domain_row name = record {
  name = name;
  owner = "user";
  published = none;
  minimum_ttl = 3600;
  renewal_state = 0;
  renewal_changed = 0;
}

abbrev db : Db
db = record {
  domains = domain_row "example.com" ∷ domain_row "example.org" ∷ [];
  rrsets =
      record { domain = "example.com"; item = www; ttl = 3600; records = "192.0.2.1" ∷ [] } ∷ [];
}

compute_changes-Selection_example :
    (cs : List Change) × (compute_changes db after ≡ ok cs) × Selection db after cs
compute_changes-Selection_example = compute_changes-Selection db after after-IsValid

compute_changes_runs :
    compute_changes db after
    ≡ ok (
        create_domain "example.com"
        ∷ update_rr_sets "example.com" (www ∷ []) (www ∷ []) []
        ∷ update_rr_sets "example.org" [] [] (mail ∷ [])
        ∷ [])
unfolding program
compute_changes_runs = refl

abbrev settings : Settings
settings = record {
  default_ns_ttl = 3600;
  default_ns = "ns1.example." ∷ "ns2.example." ∷ [];
  pch_enabled = false;
}

abbrev willing : List Call → Call → Bool
willing log c = true

abbrev world : World
world = record { log = []; db = db }

abbrev running : Process
running = record { active = 1; connected = true }

abbrev outcome : Outcome
outcome = exit settings willing db 100 running after world

outcome_runs :
    (outcome.result ≡ ok tt)
    × (outcome.transaction ≡ committed)
    × (outcome.world.log
        ≡ create_zone_lord "example.com"
          ∷ create_zone_master "example.com"
          ∷ update_catalog "example.com" false
          ∷ update_zone "example.com" (
              record {
                name = "www.example.com.";
                type = "A";
                ttl = 3600;
                contents = "192.0.2.1" ∷ [];
              }
              ∷ [])
          ∷ update_zone "example.org"
              (record { name = "example.org."; type = "MX"; ttl = 1; contents = [] } ∷ [])
          ∷ axfr_to_master "example.org"
          ∷ axfr_to_master "example.com"
          ∷ [])
unfolding program
outcome_runs = (refl, refl, refl)

exit-closes_example : (outcome.transaction ≡ committed) ⊎ RolledBack db world outcome
exit-closes_example = exit-closes settings willing db 100 running after world after-IsValid

exit-published_example : ◌≡◌ {A = Option ℕ} (some 100) (some 100)
unfolding program
exit-published_example =
    exit-published settings willing db 100 running after world
      (record (domain_row "example.com") { published = some 100 }) www after-IsValid refl (inl refl)
      refl

enter_nested_example :
    ((enter running).0 ≡ err assertion_error)
    × ((n : ℕ) → (enter (attempts n (leave (enter running).1))).0 ≡ err assertion_error)
enter_nested_example = enter_nested running (omega arith)
