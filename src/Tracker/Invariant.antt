-- ===== src/Tracker/Invariant.antt =====
-- The invariant of the tracker: which sets are disjoint, and that each handler preserves it.
use desec_stack.Common.{
  String, ◌≡◌, refl, inl, inr, Bool, true, false, none, some, List, [], ◌∷◌, arith, if◌then◌else◌,
  ◌==◌, ==_iff, nat_eq, string_eq, pair_eq, succeeds, Result-cases, member, member-add,
  member-discard, get,
}
use desec_stack.Db.{Item}
use desec_stack.Tracker.{
  rr_saved, rr_deleted, rr_set_saved, rr_set_deleted, domain_saved, domain_deleted,
}
use desec_stack.Tracker.{
  Tracker, fresh, ItemSets, classify, rr_set_updated, domain_updated, Signal, receive, receive_all,
}
use desec_stack.Tracker.View.{
  items_of, IsAligned, rr_set_updated-result, items_of-rr_set_updated, rr_set_updated-IsAligned,
  rr_set_updated-domains,
}

-- `additions` and `deletions` are disjoint, and so are `modifications` and `deletions`.
pub record IsApart (s : ItemSets) : Type 0 where
  pub added : (x : Item) → member x s.deletions ≡ true → member x s.additions ≡ false
  pub modified : (x : Item) → member x s.deletions ≡ true → member x s.modifications ≡ false

pub classify-IsApart :
    (c d : Bool) (item : Item) (s : ItemSets)
    → succeeds (classify c d item s).0 ≡ true
    → IsApart s
    → IsApart (classify c d item s).1
unfolding classify
classify-IsApart c d item s h v = record {
  added = λ x p. keeps_added c d x h p;
  modified = λ x p. keeps_modified c d x h p;
}
  where
    keeps_added :
        (c d : Bool) (x : Item)
        → succeeds (classify c d item s).0 ≡ true
        → member x (classify c d item s).1.deletions ≡ true
        → member x (classify c d item s).1.additions ≡ false
    keeps_added true false x h p = ground (
      arith,
      v.added x,
      v.modified x,
      member-add x item s.additions,
      member-discard x item s.deletions,
      ==_iff x item,
    )
    keeps_added false true x h p = ground (
      arith,
      v.added x,
      v.modified x,
      member-discard x item s.additions,
      member-add x item s.deletions,
      ==_iff x item,
    )
    keeps_added _ _ x h p = ground (arith, v.added x, v.modified x)

    keeps_modified :
        (c d : Bool) (x : Item)
        → succeeds (classify c d item s).0 ≡ true
        → member x (classify c d item s).1.deletions ≡ true
        → member x (classify c d item s).1.modifications ≡ false
    keeps_modified true false x h p =
        ground (arith, v.added x, v.modified x, member-discard x item s.deletions, ==_iff x item)
    keeps_modified false true x h p = ground (
      arith,
      v.added x,
      v.modified x,
      member-discard x item s.modifications,
      member-add x item s.deletions,
      ==_iff x item,
    )
    keeps_modified false false x h p =
        ground (arith, v.added x, v.modified x, member-add x item s.modifications, ==_iff x item)
    keeps_modified _ _ x h p = ground (arith, v.added x, v.modified x)

pub record IsValid (t : Tracker) : Type 0 where
  pub aligned : IsAligned t
  pub apart : (n : String) → IsApart (items_of n t)
  pub domains :
      (n : String) → member n t.domain_deletions ≡ true → member n t.domain_additions ≡ false

pub fresh-IsValid : IsValid fresh
unfolding member get
fresh-IsValid = record {
  aligned = record { additions_keys = λ n. refl; deletions_keys = λ n. refl };
  apart = λ n. record { added = λ x p. refl; modified = λ x p. refl };
  domains = λ n p. refl;
}

IsApart-if :
    (b : Bool) {s r : ItemSets} → (b ≡ true → IsApart s) → IsApart r → IsApart (if b then s else r)
IsApart-if true f v = f refl
IsApart-if false f v = v

-- An update that does not raise keeps the invariant.
pub rr_set_updated-IsValid :
    (n : String) (item : Item) (created deleted : Bool) (t : Tracker)
    → succeeds (rr_set_updated n item created deleted t).0 ≡ true
    → IsValid t
    → IsValid (rr_set_updated n item created deleted t).1
rr_set_updated-IsValid n item c d t h v = record {
  aligned = rr_set_updated-IsAligned n item c d t v.aligned;
  apart = λ m. rw (items_of-rr_set_updated n item c d t v.aligned m) (
      IsApart-if (m == n)
        (λ _.
          classify-IsApart c d item (items_of n t)
            (rw (rr_set_updated-result n item c d t v.aligned) at h) (v.apart n))
        (v.apart m));
  domains = λ m p. kept m p;
}
  where
    kept :
        (m : String)
        → member m (rr_set_updated n item c d t).1.domain_deletions ≡ true
        → member m (rr_set_updated n item c d t).1.domain_additions ≡ false
    kept m p =
        let (e, f) = rr_set_updated-domains n item c d t v.aligned in rw e (v.domains m (rw f at p))

-- `_domain_updated` keeps the sets of added and deleted domains disjoint, also where it raises.
pub domain_updated-apart :
    (n : String) (created deleted : Bool) (t : Tracker)
    → ((m : String) → member m t.domain_deletions ≡ true → member m t.domain_additions ≡ false)
    → (m : String) → member m (domain_updated n created deleted t).1.domain_deletions ≡ true
    → member m (domain_updated n created deleted t).1.domain_additions ≡ false
unfolding domain_updated
domain_updated-apart n true false t v m p = ground (
  arith,
  v m,
  member-add m n t.domain_additions,
  member-discard m n t.domain_deletions,
  ==_iff m n,
)
domain_updated-apart n false true t v m p = ground (
  arith,
  v m,
  member-discard m n t.domain_additions,
  member-add m n t.domain_deletions,
  ==_iff m n,
)
domain_updated-apart n false false t v m p = v m p
domain_updated-apart n true true t v m p = v m p

pub domain_updated-rr_sets :
    (n : String) (created deleted : Bool) (t : Tracker)
    → let t' = (domain_updated n created deleted t).1 in
      (t'.rr_set_additions ≡ t.rr_set_additions)
      × (t'.rr_set_modifications ≡ t.rr_set_modifications)
      × (t'.rr_set_deletions ≡ t.rr_set_deletions)
unfolding domain_updated
domain_updated-rr_sets n true false t = ground arith
domain_updated-rr_sets n _ _ t = ground arith

pub domain_updated-IsValid :
    (n : String) (created deleted : Bool) (t : Tracker)
    → IsValid t
    → IsValid (domain_updated n created deleted t).1
domain_updated-IsValid n c d t v =
    let (e, f, g) = domain_updated-rr_sets n c d t in
    record {
      aligned = record {
        additions_keys = λ m. rw (e, f) (v.aligned.additions_keys m);
        deletions_keys = λ m. rw (f, g) (v.aligned.deletions_keys m);
      };
      apart = λ m. rw (e, f, g) (v.apart m);
      domains = domain_updated-apart n c d t v.domains;
    }

-- Every signal handler that does not raise keeps the invariant: no domain is both added and deleted,
-- no RR set is both deleted and added or both deleted and modified, and the three dictionaries have
-- the same keys.
pub receive-IsValid :
    (x : Signal) (t : Tracker)
    → succeeds (receive x t).0 ≡ true
    → IsValid t
    → IsValid (receive x t).1
unfolding receive
receive-IsValid (rr_saved n item) t h v = rr_set_updated-IsValid n item false false t h v
receive-IsValid (rr_deleted none) t h v = v
receive-IsValid (rr_deleted (some (n, item))) t h v =
    rr_set_updated-IsValid n item false false t h v
receive-IsValid (rr_set_saved n item c) t h v = rr_set_updated-IsValid n item c false t h v
receive-IsValid (rr_set_deleted n item) t h v = rr_set_updated-IsValid n item false true t h v
receive-IsValid (domain_saved n c) t h v = domain_updated-IsValid n c false t v
receive-IsValid (domain_deleted n) t h v = domain_updated-IsValid n false true t v

-- So does a whole `with` block that no handler interrupts.
pub receive_all-IsValid :
    (xs : List Signal) (t : Tracker)
    → succeeds (receive_all xs t).0 ≡ true
    → IsValid t
    → IsValid (receive_all xs t).1
unfolding receive_all
receive_all-IsValid [] t h v = v
receive_all-IsValid (x ∷ xs) t h v = elim (Result-cases (receive x t).0) [
  | inl (a, e) ↦
      rw (e, receive_all)
        (receive_all-IsValid xs (receive x t).1 (rw (e, receive_all) at h)
          (receive-IsValid x t (rw e) v))
  | inr (f, e) ↦ absurd (ground arith)
]
