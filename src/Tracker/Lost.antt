-- ===== src/Tracker/Lost.antt =====
-- An RR set that was deleted, made anew and deleted again within one tracker.
use desec_stack.Common.{
  String, ◌≡◌, sym, ap, ◌∙◌, true, false, arith, ==_refl, nat_eq, string_eq, pair_eq, succeeds,
  member, add, member-add, member-discard,
}
use desec_stack.Db.{Item}
use mathlib.Core.Path.{subst}
use desec_stack.Tracker.{Tracker, ItemSets, classify, rr_set_updated}
use desec_stack.Tracker.View.{
  items_of, rr_set_updated-result, items_of-rr_set_updated, rr_set_updated-IsAligned,
}
use desec_stack.Tracker.Invariant.{IsApart, IsValid}

-- the tracker behind an RR set's making and its deletion
abbrev pub made_anew : String → Item → Tracker → Tracker
made_anew n x t = (rr_set_updated n x true false t).1

abbrev pub deleted_again : String → Item → Tracker → Tracker
deleted_again n x t = (rr_set_updated n x false true (made_anew n x t)).1

-- The sets of one domain, item by item: the deletion is forgotten.
classify_twice :
    (x : Item) (s : ItemSets)
    → IsApart s
    → member x s.deletions ≡ true
    → let s1 = classify true false x s in
      let s2 = classify false true x s1.1 in
      (succeeds s1.0 ≡ true)
      × (succeeds s2.0 ≡ true)
      × (member x s2.1.additions ≡ false)
      × (member x s2.1.modifications ≡ false)
      × (member x s2.1.deletions ≡ false)
unfolding classify
classify_twice x s v h = ground (
  arith,
  v.modified x h,
  member-add x x s.additions,
  member-discard x x s.deletions,
  member-discard x x (add x s.additions),
  member-discard x x s.modifications,
  ==_refl x,
)

abbrev IsUntracked : Item → ItemSets → Type 0
IsUntracked x s =
    (member x s.additions ≡ false)
    × (member x s.modifications ≡ false)
    × (member x s.deletions ≡ false)

-- If an RR set whose deletion is tracked is made anew and deleted again, nothing is raised, and the RR
-- set is in none of the three sets of its domain: its deletion is no longer tracked.
pub deletion_lost :
    (n : String) (x : Item) (t : Tracker)
    → IsValid t
    → member x (items_of n t).deletions ≡ true
    → let s = items_of n (deleted_again n x t) in
      (succeeds (rr_set_updated n x true false t).0 ≡ true)
      × (succeeds (rr_set_updated n x false true (made_anew n x t)).0 ≡ true)
      × (member x s.additions ≡ false)
      × (member x s.modifications ≡ false)
      × (member x s.deletions ≡ false)
deletion_lost n x t v h =
    let (a, b, c, d, e) = classify_twice x (items_of n t) (v.apart n) h in
    let aligned = rr_set_updated-IsAligned n x true false t v.aligned in
    let first : items_of n (made_anew n x t) ≡ (classify true false x (items_of n t)).1 =
      rw (items_of-rr_set_updated n x true false t v.aligned n, ==_refl n) in
    let again : items_of n (deleted_again n x t)
        ≡ (classify false true x (items_of n (made_anew n x t))).1 =
      items_of-rr_set_updated n x false true (made_anew n x t) aligned n ∙ rw (==_refl n) in
    let both : items_of n (deleted_again n x t)
        ≡ (classify false true x (classify true false x (items_of n t)).1).1 =
      again ∙ ap (λ (r : ItemSets). (classify false true x r).1) first in
    let (f, g, k) = subst (IsUntracked x) (sym both) (c, d, e) in
    (
      rw (rr_set_updated-result n x true false t v.aligned) a,
      rw (rr_set_updated-result n x false true (made_anew n x t) aligned)
          (subst (λ (r : ItemSets). succeeds (classify false true x r).0 ≡ true) (sym first) b),
      f,
      g,
      k,
    )
