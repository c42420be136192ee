-- ===== src/Tracker.antt =====
-- pdns_change_tracker.py, `PDNSChangeTracker`: the sets of added and deleted domains, for each domain
-- the sets of added, modified and deleted RR sets, and the signal handlers that maintain them.
pub mod Invariant
pub mod Quiet
pub mod View
pub mod Agrees
pub mod History
pub mod Lost
use desec_stack.Common.{
  String, Bool, true, false, Option, none, some, List, [], ◌∷◌, arith, if◌then◌else◌, nat_eq,
  string_eq, pair_eq, Result, ok, err, ◌>>=◌, ◌>>◌, member, add, discard, Dict, get, put,
}
use desec_stack.Db.{Item}

pub data TrackerError : Type 0 where
  assertion_error value_error key_error : TrackerError

pub record Tracker : Type 0 where
  pub domain_additions : List String
  pub domain_deletions : List String
  pub rr_set_additions : Dict String (List Item)
  pub rr_set_modifications : Dict String (List Item)
  pub rr_set_deletions : Dict String (List Item)

-- `PDNSChangeTracker.__init__`, and the resets of `__enter__`
abbrev pub fresh : Tracker
fresh = record {
  domain_additions = [];
  domain_deletions = [];
  rr_set_additions = [];
  rr_set_modifications = [];
  rr_set_deletions = [];
}

-- The three sets of one domain: the local names of `_rr_set_updated`.
pub record ItemSets : Type 0 where
  pub additions : List Item
  pub modifications : List Item
  pub deletions : List Item

abbrev pub no_items : ItemSets
no_items = record { additions = []; modifications = []; deletions = [] }

-- A method that raises keeps what it has written before: the state stands beside the result.
abbrev pub Step : Type 0 → Type 0
Step S = Result TrackerError (Unit {0}) × S

-- the `match (created, deleted)` of `_rr_set_updated`, on the sets of the RR set's domain
unfoldable pub classify : Bool → Bool → Item → ItemSets → Step ItemSets
classify true false item s =
    let added = record s { additions = add item s.additions } in
    if member item s.modifications
    then (err assertion_error, added)
    else (ok tt, record added { deletions = discard item s.deletions })
classify false true item s =
    if member item s.additions
    then (
      ok tt,
      record s {
        additions = discard item s.additions;
        modifications = discard item s.modifications;
      },
    )
    else (
      ok tt,
      record s { modifications = discard item s.modifications; deletions = add item s.deletions },
    )
classify false false item s =
    let modified = record s { modifications = add item s.modifications } in
    if member item s.deletions then (err assertion_error, modified) else (ok tt, modified)
classify true true item s = (err value_error, s)

abbrev pub has {ℓ} : {A : Type ℓ} → Option A → Bool
has none = false
has (some a) = true

-- the sets of a domain are made when its first RR set is updated
unfoldable pub ensure : String → Tracker → Tracker
ensure name t = if has (get name t.rr_set_modifications) then t else record t {
  rr_set_additions = put name [] t.rr_set_additions;
  rr_set_modifications = put name [] t.rr_set_modifications;
  rr_set_deletions = put name [] t.rr_set_deletions;
}

-- `d[k]`
unfoldable pub get_item : {V : Type 0} → String → Dict String V → Result TrackerError V
get_item k d = elim (get k d) [ none ↦ err key_error | some v ↦ ok v ]

unfoldable pub load : String → Tracker → Result TrackerError ItemSets
unfolding get_item
load name t = do
  additions ← get_item name t.rr_set_additions
  modifications ← get_item name t.rr_set_modifications
  deletions ← get_item name t.rr_set_deletions
  ok (record { additions = additions; modifications = modifications; deletions = deletions })

-- The sets are shared with the dictionaries, so a change of a set is a change of the tracker.
unfoldable pub store : String → ItemSets → Tracker → Tracker
store name s t = record t {
  rr_set_additions = put name s.additions t.rr_set_additions;
  rr_set_modifications = put name s.modifications t.rr_set_modifications;
  rr_set_deletions = put name s.deletions t.rr_set_deletions;
}

-- the part of `_rr_set_updated` behind the creation of the sets
unfoldable pub update_loaded :
    Result TrackerError ItemSets → String → Item → Bool → Bool → Tracker → Step Tracker
unfolding classify store
update_loaded (err e) name item created deleted t = (err e, t)
update_loaded (ok s) name item created deleted t =
    let (r, s') = classify created deleted item s in (r, store name s' t)

-- `_rr_set_updated(rr_set, created=..., deleted=...)`, for an RR set of the domain `name`
unfoldable pub rr_set_updated : String → Item → Bool → Bool → Tracker → Step Tracker
unfolding ensure load update_loaded
rr_set_updated name item created deleted t =
    update_loaded (load name (ensure name t)) name item created deleted (ensure name t)

-- `_domain_updated(domain, created=..., deleted=...)`
unfoldable pub domain_updated : String → Bool → Bool → Tracker → Step Tracker
domain_updated name false false t = (ok tt, t)
domain_updated name true true t = (err value_error, t)
domain_updated name true false t =
    if member name t.domain_deletions
    then (ok tt, record t { domain_deletions = discard name t.domain_deletions })
    else (ok tt, record t { domain_additions = add name t.domain_additions })
domain_updated name false true t =
    if member name t.domain_additions
    then (ok tt, record t { domain_additions = discard name t.domain_additions })
    else (ok tt, record t { domain_deletions = add name t.domain_deletions })

-- The signals. `rr_deleted none` stands for an `RR` whose RR set is gone (`RRset.DoesNotExist`).
pub data Signal : Type 0 where
  rr_saved : String → Item → Signal
  rr_deleted : Option (String × Item) → Signal
  rr_set_saved : String → Item → Bool → Signal
  rr_set_deleted : String → Item → Signal
  domain_saved : String → Bool → Signal
  domain_deleted : String → Signal

-- `_on_rr_post_save` to `_on_domain_post_delete`
unfoldable pub receive : Signal → Tracker → Step Tracker
unfolding rr_set_updated domain_updated
receive (rr_saved name item) t = rr_set_updated name item false false t
receive (rr_deleted none) t = (ok tt, t)
receive (rr_deleted (some (name, item))) t = rr_set_updated name item false false t
receive (rr_set_saved name item created) t = rr_set_updated name item created false t
receive (rr_set_deleted name item) t = rr_set_updated name item false true t
receive (domain_saved name created) t = domain_updated name created false t
receive (domain_deleted name) t = domain_updated name false true t

-- The body of a `with` block: its signals in order, up to the first handler that raises.
unfoldable pub receive_all : List Signal → Tracker → Step Tracker
receive_all [] t = (ok tt, t)
receive_all (x ∷ xs) t =
    let (r, t') = receive x t in elim r [ ok _ ↦ receive_all xs t' | err e ↦ (err e, t') ]
