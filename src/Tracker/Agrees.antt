-- ===== src/Tracker/Agrees.antt =====
-- What a history of signals says of one RR set, and what the tracked sets say of it.
use desec_stack.Common.{
  String, ◌≡◌, ◌↔◌, Bool, true, false, not, ◌&&◌, ◌||◌, none, some, List, [], ◌∷◌, arith, ◌==◌,
  ==_iff, nat_eq, string_eq, pair_eq, member, add, discard, member-add, member-discard,
}
use desec_stack.Db.{Item}
use desec_stack.Tracker.{
  ItemSets, classify, Signal, rr_saved, rr_deleted, rr_set_saved, rr_set_deleted, domain_saved,
  domain_deleted,
}

-- The RR sets that exist, by domain name and item.
abbrev pub Rows : Type 0
Rows = List (String × Item)

-- What a signal says of the database: `p` are the RR sets before it, and `becomes` those behind it.
unfoldable pub is_possible : Signal → Rows → Bool
is_possible (rr_saved n x) p = member (n, x) p
is_possible (rr_deleted none) p = true
is_possible (rr_deleted (some (n, x))) p = member (n, x) p
is_possible (rr_set_saved n x true) p = not (member (n, x) p)
is_possible (rr_set_saved n x false) p = member (n, x) p
is_possible (rr_set_deleted n x) p = member (n, x) p
is_possible (domain_saved n created) p = true
is_possible (domain_deleted n) p = true

unfoldable pub becomes : Signal → Rows → Rows
becomes (rr_saved n x) p = p
becomes (rr_deleted r) p = p
becomes (rr_set_saved n x true) p = add (n, x) p
becomes (rr_set_saved n x false) p = p
becomes (rr_set_deleted n x) p = discard (n, x) p
becomes (domain_saved n created) p = p
becomes (domain_deleted n) p = p

-- The signal is about this RR set.
abbrev pub concerns : String → Item → Signal → Bool
concerns m y (rr_saved n x) = m == n && y == x
concerns m y (rr_deleted none) = false
concerns m y (rr_deleted (some (n, x))) = m == n && y == x
concerns m y (rr_set_saved n x created) = m == n && y == x
concerns m y (rr_set_deleted n x) = m == n && y == x
concerns m y (domain_saved n created) = false
concerns m y (domain_deleted n) = false

-- The signal makes this RR set.
abbrev pub makes : String → Item → Signal → Bool
makes m y (rr_saved n x) = false
makes m y (rr_deleted r) = false
makes m y (rr_set_saved n x created) = created && (m == n && y == x)
makes m y (rr_set_deleted n x) = false
makes m y (domain_saved n created) = false
makes m y (domain_deleted n) = false

unfoldable pub are_possible : List Signal → Rows → Bool
are_possible [] p = true
are_possible (x ∷ xs) p = is_possible x p && are_possible xs (becomes x p)

unfoldable pub rows_after : List Signal → Rows → Rows
rows_after [] p = p
rows_after (x ∷ xs) p = rows_after xs (becomes x p)

-- What the sets of one domain say of one RR set: `here` is whether it exists now, `before` whether it
-- did when the tracker was entered, `concerned` whether a signal has been about it, and `made` whether
-- one has made it.
pub record Agrees (s : ItemSets) (x : Item) (before here concerned made : Bool) : Type 0 where
  pub added : member x s.additions ≡ true → here ≡ true
  pub modified : member x s.modifications ≡ true → here ≡ true
  pub deleted : member x s.deletions ≡ true → (here ≡ false) × (before ≡ true)
  pub new : before ≡ false → here ≡ true → member x s.additions ≡ true
  pub old :
      concerned ≡ true → here ≡ true → (member x s.additions || member x s.modifications) ≡ true
  pub gone : before ≡ true → here ≡ false → made ≡ false → member x s.deletions ≡ true
  pub maker : member x s.additions ≡ true → made ≡ true
  pub still : concerned ≡ false → before ≡ here

module _ (i : Item) (s : ItemSets) (x : Item) (before here concerned made : Bool)
    (a : Agrees s x before here concerned made) where
  pub created-Agrees :
      (x == i ≡ true → here ≡ false)
      → member i s.modifications ≡ false
      → Agrees
          (classify true false i s).1
          x
          before
          (x == i || here)
          (concerned || x == i)
          (made || x == i)
  unfolding classify
  created-Agrees p q = record {
    added = λ h. ground (arith, a.added, laws);
    modified = λ h. ground (arith, a.modified);
    deleted = λ h. ground (arith, a.deleted, laws, p);
    new = λ h k. ground (arith, a.new, laws);
    old = λ h k. ground (arith, a.old, laws);
    gone = λ h k l. ground (arith, a.gone, laws);
    maker = λ h. ground (arith, a.maker, laws);
    still = λ h. ground (arith, a.still);
  }
    where
      laws :
          (member x (add i s.additions) ≡ (x == i || member x s.additions))
          × (member x (discard i s.deletions) ≡ (not (x == i) && member x s.deletions))
      laws = (member-add x i s.additions, member-discard x i s.deletions)

  pub deleted-Agrees :
      (x == i ≡ true → here ≡ true)
      → Agrees
          (classify false true i s).1
          x
          before
          (not (x == i) && here)
          (concerned || x == i)
          made
  unfolding classify
  deleted-Agrees p = record {
    added = λ h. ground (arith, a.added, laws, same);
    modified = λ h. ground (arith, a.modified, laws, same);
    deleted = λ h. ground (arith, a.deleted, a.new, laws, p, same);
    new = λ h k. ground (arith, a.new, laws, same);
    old = λ h k. ground (arith, a.old, laws, same);
    gone = λ h k l. ground (arith, a.gone, a.maker, laws, p, same);
    maker = λ h. ground (arith, a.maker, laws, same);
    still = λ h. ground (arith, a.still, same);
  }
    where
      same : (x == i ≡ true) ↔ (x ≡ i)
      same = ==_iff x i

      laws :
          (member x (discard i s.additions) ≡ (not (x == i) && member x s.additions))
          × (member x (discard i s.modifications) ≡ (not (x == i) && member x s.modifications))
          × (member x (add i s.deletions) ≡ (x == i || member x s.deletions))
      laws = (
        member-discard x i s.additions,
        member-discard x i s.modifications,
        member-add x i s.deletions,
      )

  pub modified-Agrees :
      (x == i ≡ true → here ≡ true)
      → Agrees (classify false false i s).1 x before here (concerned || x == i) made
  unfolding classify
  modified-Agrees p = record {
    added = λ h. ground (arith, a.added);
    modified = λ h. ground (arith, a.modified, law, p);
    deleted = λ h. ground (arith, a.deleted);
    new = λ h k. ground (arith, a.new);
    old = λ h k. ground (arith, a.old, law);
    gone = λ h k l. ground (arith, a.gone);
    maker = λ h. ground (arith, a.maker);
    still = λ h. ground (arith, a.still);
  }
    where
      law : member x (add i s.modifications) ≡ (x == i || member x s.modifications)
      law = member-add x i s.modifications
