-- ===== src/Changes/Parts.antt =====
-- The changes that `_compute_changes` makes of a list of domains, one domain after the other.
use desec_stack.Common.{
  any-append, String, ◌≡◌, refl, Bool, true, false, not, ◌&&◌, ◌||◌, List, [], ◌∷◌, ◌++◌, arith,
  ◌==◌, ==_iff, nat_eq, string_eq, pair_eq, ok, keep, any, is_empty, member, union, difference,
  intersection, member-keep, member-union, member-difference, member-intersection,
  is_empty_of_no_member, member-is_empty,
}
use desec_stack.Db.{Item, Db}
use desec_stack.Tracker.{Tracker, ItemSets}
use desec_stack.Tracker.View.{items_of}
use desec_stack.Tracker.Invariant.{IsApart}
use desec_stack.Changes.{
  Change, create_domain, delete_domain, update_rr_sets, has_records, nonempty_additions, creation,
  update_of, changes_of, changes_of_all,
}

-- A change writes an RR set's records: the second part of the data of `pdns_do`.
abbrev pub writes : String → Item → Change → Bool
writes n x (create_domain m) = false
writes n x (delete_domain m) = false
writes n x (update_rr_sets m a c d) = n == m && member x (difference (union a c) d)

-- A change clears an RR set: the first part of the data.
abbrev pub clears : String → Item → Change → Bool
clears n x (create_domain m) = false
clears n x (delete_domain m) = false
clears n x (update_rr_sets m a c d) = n == m && member x d

abbrev pub creates : String → Change → Bool
creates n (create_domain m) = n == m
creates n (delete_domain m) = false
creates n (update_rr_sets m a c d) = false

abbrev pub deletes : String → Change → Bool
deletes n (create_domain m) = false
deletes n (delete_domain m) = n == m
deletes n (update_rr_sets m a c d) = false

member-nonempty_additions :
    (n : String) (db : Db) (a : List Item) (x : Item)
    → member x (nonempty_additions n db a) ≡ (has_records n db x && member x a)
unfolding nonempty_additions
member-nonempty_additions n db a x = ground (
  arith,
  member-difference x a (keep (λ (i : Item). not (has_records n db i)) a),
  member-keep x (λ (i : Item). not (has_records n db i)) a,
)

module _ (n m : String) (x : Item) (a c d : List Item) where
  absent :
      is_empty (union (union a c) d) ≡ true
      → (member x a ≡ false) × (member x c ≡ false) × (member x d ≡ false)
  absent h = ground (
    arith,
    member-is_empty x (union (union a c) d) h,
    member-union x (union a c) d,
    member-union x a c,
  )

  writes-update_of :
      any (writes n x) (update_of m a c d)
      ≡ (n == m && not (member x d) && (member x a || member x c))
  writes-update_of = ground (arith, absent, member-difference x (union a c) d, member-union x a c)

  clears-update_of : any (clears n x) (update_of m a c d) ≡ (n == m && member x d)
  clears-update_of = ground (arith, absent)

  creates-update_of : any (creates n) (update_of m a c d) ≡ false
  creates-update_of = ground arith

  deletes-update_of : any (deletes n) (update_of m a c d) ≡ false
  deletes-update_of = ground arith

-- On disjoint sets the assertions hold.
no_overlap :
    (s t : List Item)
    → ((x : Item) → member x t ≡ true → member x s ≡ false)
    → is_empty (intersection s t) ≡ true
no_overlap s t h =
    is_empty_of_no_member (intersection s t) (λ x. ground (arith, h x, member-intersection x s t))

changes_of-eq :
    (db : Db) (t : Tracker) (n : String)
    → IsApart (items_of n t)
    → changes_of db t n
      ≡ ok (
          creation (member n t.domain_additions) n
          ++ update_of n
              (nonempty_additions n db (items_of n t).additions)
              (items_of n t).modifications
              (items_of n t).deletions)
unfolding changes_of
changes_of-eq db t n v =
    rw
      (
        no_overlap (items_of n t).additions (items_of n t).deletions v.added,
        no_overlap (items_of n t).modifications (items_of n t).deletions v.modified,
      )
      refl

-- What the tracked sets of the domain `n` say of the RR set `x`: its records are to be written.
abbrev pub is_written : Db → ItemSets → String → Item → Bool
is_written db s n x =
    not (member x s.deletions)
    && ((has_records n db x && member x s.additions) || member x s.modifications)

-- The changes that are made of `names`.
pub record Selects (db : Db) (t : Tracker) (names : List String) (cs : List Change) : Type 0 where
  pub written :
      (n : String) (x : Item)
      → any (writes n x) cs ≡ (member n names && is_written db (items_of n t) n x)
  pub cleared :
      (n : String) (x : Item)
      → any (clears n x) cs ≡ (member n names && member x (items_of n t).deletions)
  pub created : (n : String) → any (creates n) cs ≡ (member n names && member n t.domain_additions)
  pub deleted : (n : String) → any (deletes n) cs ≡ false

module _ (db : Db) (t : Tracker) where
  -- the changes of one domain
  one : String → List Change
  one m =
      creation (member m t.domain_additions) m
      ++ update_of m (nonempty_additions m db (items_of m t).additions) (items_of m t).modifications
          (items_of m t).deletions

  creation-writes : (b : Bool) (n m : String) (x : Item) → any (writes n x) (creation b m) ≡ false
  creation-writes b n m x = ground arith

  one-written :
      (n m : String) (x : Item)
      → any (writes n x) (one m) ≡ (n == m && is_written db (items_of n t) n x)
  unfolding one
  one-written n m x = ground (
    arith,
    any-append (writes n x) (creation (member m t.domain_additions) m) (
        update_of m (nonempty_additions m db (items_of m t).additions) (items_of m t).modifications
          (items_of m t).deletions),
    writes-update_of n m x (nonempty_additions m db (items_of m t).additions)
        (items_of m t).modifications (items_of m t).deletions,
    member-nonempty_additions m db (items_of m t).additions x,
    ==_iff n m,
  )

  one-cleared :
      (n m : String) (x : Item)
      → any (clears n x) (one m) ≡ (n == m && member x (items_of n t).deletions)
  unfolding one
  one-cleared n m x = ground (
    arith,
    any-append (clears n x) (creation (member m t.domain_additions) m) (
        update_of m (nonempty_additions m db (items_of m t).additions) (items_of m t).modifications
          (items_of m t).deletions),
    clears-update_of n m x (nonempty_additions m db (items_of m t).additions)
        (items_of m t).modifications (items_of m t).deletions,
    ==_iff n m,
  )

  one-created : (n m : String) → any (creates n) (one m) ≡ (n == m && member n t.domain_additions)
  unfolding one
  one-created n m = ground (
    arith,
    any-append (creates n) (creation (member m t.domain_additions) m) (
        update_of m (nonempty_additions m db (items_of m t).additions) (items_of m t).modifications
          (items_of m t).deletions),
    ==_iff n m,
  )

  one-deleted : (n m : String) → any (deletes n) (one m) ≡ false
  unfolding one
  one-deleted n m = ground (
    arith,
    any-append (deletes n) (creation (member m t.domain_additions) m) (
        update_of m (nonempty_additions m db (items_of m t).additions) (items_of m t).modifications
          (items_of m t).deletions),
  )

  changes_of-one : (m : String) → IsApart (items_of m t) → changes_of db t m ≡ ok (one m)
  unfolding one
  changes_of-one m v = changes_of-eq db t m v

  pub changes_of_all-Selects :
      ((n : String) → IsApart (items_of n t))
      → (names : List String)
      → (cs : List Change) × (changes_of_all db t names ≡ ok cs) × Selects db t names cs
  unfolding changes_of_all member
  changes_of_all-Selects v [] = (
    [],
    refl,
    record {
      written = λ n x. refl;
      cleared = λ n x. refl;
      created = λ n. refl;
      deleted = λ n. refl;
    },
  )
  changes_of_all-Selects v (m ∷ names) =
      let (cs, e, s) = changes_of_all-Selects v names in
      (
        one m ++ cs,
        rw (changes_of-one m (v m), e),
        record {
          written = λ n x.
              ground (arith, any-append (writes n x) (one m) cs, one-written n m x, s.written n x);
          cleared = λ n x.
              ground (arith, any-append (clears n x) (one m) cs, one-cleared n m x, s.cleared n x);
          created =
              λ n. ground (arith, any-append (creates n) (one m) cs, one-created n m, s.created n);
          deleted =
              λ n. ground (arith, any-append (deletes n) (one m) cs, one-deleted n m, s.deleted n);
        },
      )
