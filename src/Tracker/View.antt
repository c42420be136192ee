-- ===== src/Tracker/View.antt =====
-- The tracker as a function from domains to sets of items: `_rr_set_updated` changes the sets of one
-- domain as `classify` says, and nothing else, and no look-up in the dictionaries fails.
use desec_stack.Common.{
  String, ◌≡◌, refl, Bool, Option, none, some, List, [], arith, if◌then◌else◌, ◌==◌, ==_refl,
  nat_eq, string_eq, pair_eq, ok, get, get-put,
}
use desec_stack.Db.{Item}
use desec_stack.Tracker.{
  Tracker, ItemSets, classify, ensure, load, store, update_loaded, rr_set_updated, has,
}

-- `d.get(name, set())`
abbrev pub or_empty : Option (List Item) → List Item
or_empty none = []
or_empty (some s) = s

abbrev pub items_of : String → Tracker → ItemSets
items_of name t = record {
  additions = or_empty (get name t.rr_set_additions);
  modifications = or_empty (get name t.rr_set_modifications);
  deletions = or_empty (get name t.rr_set_deletions);
}

-- The three dictionaries have the same keys.
pub record IsAligned (t : Tracker) : Type 0 where
  pub additions_keys :
      (n : String) → has (get n t.rr_set_additions) ≡ has (get n t.rr_set_modifications)
  pub deletions_keys :
      (n : String) → has (get n t.rr_set_deletions) ≡ has (get n t.rr_set_modifications)

load-ensure : (n : String) (t : Tracker) → IsAligned t → load n (ensure n t) ≡ ok (items_of n t)
unfolding load ensure
load-ensure n t h = ground (
  arith,
  h.additions_keys n,
  h.deletions_keys n,
  get-put n n [] t.rr_set_additions,
  get-put n n [] t.rr_set_modifications,
  get-put n n [] t.rr_set_deletions,
  ==_refl n,
)

-- Storing the sets of `n`, whether or not they were made just before.
module _ (n : String) (s : ItemSets) (t : Tracker) (m : String) where
  get-additions :
      get m (store n s (ensure n t)).rr_set_additions
      ≡ (if m == n then some s.additions else get m t.rr_set_additions)
  unfolding store ensure
  get-additions = ground (
    arith,
    get-put m n s.additions (ensure n t).rr_set_additions,
    get-put m n [] t.rr_set_additions,
  )

  get-modifications :
      get m (store n s (ensure n t)).rr_set_modifications
      ≡ (if m == n then some s.modifications else get m t.rr_set_modifications)
  unfolding store ensure
  get-modifications = ground (
    arith,
    get-put m n s.modifications (ensure n t).rr_set_modifications,
    get-put m n [] t.rr_set_modifications,
  )

  get-deletions :
      get m (store n s (ensure n t)).rr_set_deletions
      ≡ (if m == n then some s.deletions else get m t.rr_set_deletions)
  unfolding store ensure
  get-deletions = ground (
    arith,
    get-put m n s.deletions (ensure n t).rr_set_deletions,
    get-put m n [] t.rr_set_deletions,
  )

  items_of-store : items_of m (store n s (ensure n t)) ≡ (if m == n then s else items_of m t)
  items_of-store = ground (arith, get-additions, get-modifications, get-deletions)

store-IsAligned :
    (n : String) (s : ItemSets) (t : Tracker) → IsAligned t → IsAligned (store n s (ensure n t))
store-IsAligned n s t h = record {
  additions_keys =
      λ m. ground (arith, h.additions_keys m, get-additions n s t m, get-modifications n s t m);
  deletions_keys =
      λ m. ground (arith, h.deletions_keys m, get-deletions n s t m, get-modifications n s t m);
}

store-domains :
    (n : String) (s : ItemSets) (t : Tracker)
    → ((store n s (ensure n t)).domain_additions ≡ t.domain_additions)
      × ((store n s (ensure n t)).domain_deletions ≡ t.domain_deletions)
unfolding store ensure
store-domains n s t = ground arith

module _ (n : String) (item : Item) (created deleted : Bool) (t : Tracker) (h : IsAligned t) where
  -- The outcome of an update, with the dictionaries gone.
  pub rr_set_updated_lem : rr_set_updated n item created deleted t ≡ (
    (classify created deleted item (items_of n t)).0,
    store n (classify created deleted item (items_of n t)).1 (ensure n t),
  )
  unfolding rr_set_updated
  rr_set_updated_lem = rw (load-ensure n t h) (unfold update_loaded in refl)

  pub rr_set_updated-result :
      (rr_set_updated n item created deleted t).0 ≡ (classify created deleted item (items_of n t)).0
  rr_set_updated-result = rw rr_set_updated_lem

  -- Of an aligned tracker an update changes the sets of the RR set's domain, as `classify` says,
  -- and those of no other domain.
  pub items_of-rr_set_updated :
      (m : String)
      → items_of m (rr_set_updated n item created deleted t).1
        ≡ (if m == n then (classify created deleted item (items_of n t)).1 else items_of m t)
  items_of-rr_set_updated m = rw rr_set_updated_lem (items_of-store n _ t m)

  pub rr_set_updated-IsAligned : IsAligned (rr_set_updated n item created deleted t).1
  rr_set_updated-IsAligned = rw rr_set_updated_lem (store-IsAligned n _ t h)

  pub rr_set_updated-domains :
      ((rr_set_updated n item created deleted t).1.domain_additions ≡ t.domain_additions)
      × ((rr_set_updated n item created deleted t).1.domain_deletions ≡ t.domain_deletions)
  rr_set_updated-domains = rw rr_set_updated_lem (store-domains n _ t)
