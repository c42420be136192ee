-- ===== src/Changes.antt =====
-- pdns_change_tracker.py, `_compute_changes`: from the sets of the tracker to the list of changes
-- that `__exit__` makes at the name servers.
pub mod Parts
pub mod Selection
use desec_stack.Common.{
  ◌+◌, ◌-◌, String, Bool, true, false, not, List, [], ◌∷◌, ◌++◌, arith, if◌then◌else◌, nat_eq,
  string_eq, pair_eq, Result, ok, ◌>>=◌, ◌>>◌, raise_if, keep, is_empty, member, union, difference,
  intersection, pop, keys,
}
use desec_stack.Db.{
  Item, RRset, Domain, Db, DbError, does_not_exist, multiple_objects_returned, integrity_error,
  is_at, the_only, rrsets_at, ttl_of, contents_of, contents_at, exists_at, conflicts_with,
  insert_rrset,
}
use desec_stack.Tracker.{
  TrackerError, assertion_error, value_error, key_error, Tracker, fresh, ItemSets, no_items, Step,
  classify, ensure, get_item, load, store, update_loaded, rr_set_updated, domain_updated, Signal,
  rr_saved, rr_deleted, rr_set_saved, rr_set_deleted, domain_saved, domain_deleted, receive,
  receive_all, has,
}
use desec_stack.Tracker.View.{
  or_empty, items_of, IsAligned, rr_set_updated_lem, rr_set_updated-result, items_of-rr_set_updated,
  rr_set_updated-IsAligned, rr_set_updated-domains,
}
use desec_stack.Tracker.Invariant.{
  IsApart, classify-IsApart, IsValid, fresh-IsValid, rr_set_updated-IsValid, domain_updated-apart,
  domain_updated-IsValid, receive-IsValid, receive_all-IsValid,
}

-- `PDNSChange` and its subclasses.
pub data Change : Type 0 where
  create_domain : String → Change
  delete_domain : String → Change
  update_rr_sets : String → List Item → List Item → List Item → Change

-- `RR.objects.filter(...).exists()`
abbrev pub has_records : String → Db → Item → Bool
has_records name db item = not (is_empty (contents_at name item db))

-- the loop over `_domain_deletions`: what was tracked of a deleted domain's RR sets is discarded
unfoldable pub discard_deleted : List String → Tracker → Tracker
discard_deleted [] t = t
discard_deleted (name ∷ names) t = discard_deleted names (record t {
  rr_set_additions = pop name t.rr_set_additions;
  rr_set_modifications = pop name t.rr_set_modifications;
  rr_set_deletions = pop name t.rr_set_deletions;
})

unfoldable pub domain_deletes : List String → List Change
domain_deletes [] = []
domain_deletes (name ∷ names) = delete_domain name ∷ domain_deletes names

-- `additions -= {...}`: RR sets that were added and are empty are not sent. The set is not read
-- again but through the change that is made of it.
unfoldable pub nonempty_additions : String → Db → List Item → List Item
nonempty_additions name db additions =
    difference additions (keep (λ item. not (has_records name db item)) additions)

abbrev pub creation : Bool → String → List Change
creation true name = create_domain name ∷ []
creation false name = []

abbrev pub update_of : String → List Item → List Item → List Item → List Change
update_of name additions modifications deletions =
    if is_empty (union (union additions modifications) deletions)
    then []
    else update_rr_sets name additions modifications deletions ∷ []

-- the body of the loop over `_rr_set_additions.keys() | _domain_additions`
unfoldable pub changes_of : Db → Tracker → String → Result TrackerError (List Change)
unfolding nonempty_additions
changes_of db t name = do
  let s = items_of name t
  raise_if (not (is_empty (intersection s.additions s.deletions))) assertion_error
  raise_if (not (is_empty (intersection s.modifications s.deletions))) assertion_error
  let additions = nonempty_additions name db s.additions
  ok (
      creation (member name t.domain_additions) name
      ++ update_of name additions s.modifications s.deletions)

unfoldable pub changes_of_all : Db → Tracker → List String → Result TrackerError (List Change)
unfolding changes_of
changes_of_all db t [] = ok []
changes_of_all db t (name ∷ names) = do
  first ← changes_of db t name
  rest ← changes_of_all db t names
  ok (first ++ rest)

-- the names that the second loop goes through
abbrev pub changed_domains : Tracker → List String
changed_domains t = union (keys t.rr_set_additions) t.domain_additions

-- `_compute_changes`
unfoldable pub compute_changes : Db → Tracker → Result TrackerError (List Change)
unfolding discard_deleted domain_deletes changes_of_all
compute_changes db t = do
  let t' = discard_deleted t.domain_deletions t
  rest ← changes_of_all db t' (changed_domains t')
  ok (domain_deletes t.domain_deletions ++ rest)
