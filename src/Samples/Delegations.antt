-- ===== src/Samples/Delegations.antt =====
-- A domain below a local public suffix is delegated.
use desec_stack.Common.{
  ◌≡◌, refl, true, none, some, [], ◌∷◌, nat_eq, string_eq, pair_eq, option_eq, ok, keep, member,
  is_distinct,
}
use desec_stack.Db.{RRset, Domain, Db, exists_at, conflicts_with, insert_rrset}
use desec_stack.Bulk.{Effect, delete_row}
use desec_stack.Delegation.{
  Child, partitioned_name, create_rrset, delete_rows, all_ds, delegate, update_delegation,
}
use desec_stack.Tracker.{rr_saved, rr_deleted, rr_set_saved, rr_set_deleted}
use desec_stack.Delegation.Published.{IsDelegated, update_delegation-IsDelegated}

abbrev suffix_domain : Domain
suffix_domain = record {
  name = "dedyn.io";
  owner = "admin";
  published = none;
  minimum_ttl = 60;
  renewal_state = 0;
  renewal_changed = 0;
}

abbrev apex_row : RRset
apex_row = record { domain = "dedyn.io"; item = ("NS", ""); ttl = 3600; records = "ns." ∷ [] }

abbrev stale_row : RRset
stale_row = record { domain = "dedyn.io"; item = ("DS", "a"); ttl = 300; records = "old" ∷ [] }

abbrev suffix_db : Db
suffix_db = record { domains = suffix_domain ∷ []; rrsets = stale_row ∷ apex_row ∷ [] }

abbrev new_child : Child
new_child = record {
  name = "a.dedyn.io";
  is_saved = true;
  keys = record { ds = "1 13 2 ab" ∷ [] } ∷ [];
}

parts_of_child : partitioned_name "a.dedyn.io" ≡ ("a", some "dedyn.io")
unfolding partitioned_name
parts_of_child = refl

abbrev delegated_db : Db
delegated_db = record {
  domains = suffix_domain ∷ [];
  rrsets =
      record { domain = "dedyn.io"; item = ("DS", "a"); ttl = 300; records = "1 13 2 ab" ∷ [] }
      ∷ record { domain = "dedyn.io"; item = ("NS", "a"); ttl = 3600; records = "ns1." ∷ [] }
      ∷ apex_row
      ∷ [];
}

abbrev delegated : Effect
delegated = (
  delegated_db,
  rr_deleted (some ("dedyn.io", ("DS", "a")))
      ∷ rr_set_deleted "dedyn.io" ("DS", "a")
      ∷ rr_set_saved "dedyn.io" ("NS", "a") true
      ∷ rr_saved "dedyn.io" ("NS", "a")
      ∷ rr_set_saved "dedyn.io" ("DS", "a") true
      ∷ rr_saved "dedyn.io" ("DS", "a")
      ∷ [],
)

delegation_made : update_delegation ("ns1." ∷ []) "dedyn.io" new_child suffix_db ≡ ok delegated
unfolding update_delegation partitioned_name delete_rows delete_row delegate create_rrset all_ds
    insert_rrset exists_at conflicts_with keep is_distinct member
delegation_made = refl

update_delegation-IsDelegated_example :
    IsDelegated ("ns1." ∷ []) "dedyn.io" new_child suffix_db delegated_db
update_delegation-IsDelegated_example =
    update_delegation-IsDelegated ("ns1." ∷ []) "dedyn.io" new_child suffix_db delegated
      delegation_made
