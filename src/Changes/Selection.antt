-- ===== src/Changes/Selection.antt =====
-- What `_compute_changes` selects: on a valid tracker it raises nothing, and an RR set is among the
-- changes exactly if the tracked sets say so.
use desec_stack.Common.{
  any-append, String, ◌≡◌, refl, Bool, true, false, not, ◌&&◌, List, [], ◌∷◌, ◌++◌, arith,
  if◌then◌else◌, nat_eq, string_eq, pair_eq, ok, any, member, member-union, pop, keys, get-pop,
  keys-get-none,
}
use desec_stack.Db.{Item, Db}
use desec_stack.Tracker.{Tracker, no_items}
use desec_stack.Tracker.View.{items_of, IsAligned}
use desec_stack.Tracker.Invariant.{IsApart, IsValid}
use desec_stack.Changes.{
  Change, delete_domain, discard_deleted, domain_deletes, changes_of_all, changed_domains,
  compute_changes,
}
use desec_stack.Changes.Parts.{
  writes, clears, creates, deletes, is_written, Selects, changes_of_all-Selects,
}

items_of-discard_deleted :
    (names : List String) (t : Tracker) (n : String)
    → items_of n (discard_deleted names t) ≡ (if member n names then no_items else items_of n t)
unfolding discard_deleted member
items_of-discard_deleted [] t n = refl
items_of-discard_deleted (m ∷ names) t n = ground (
  arith,
  items_of-discard_deleted names
      (record t {
        rr_set_additions = pop m t.rr_set_additions;
        rr_set_modifications = pop m t.rr_set_modifications;
        rr_set_deletions = pop m t.rr_set_deletions;
      })
      n,
  get-pop n m t.rr_set_additions,
  get-pop n m t.rr_set_modifications,
  get-pop n m t.rr_set_deletions,
)

discard_deleted-domains :
    (names : List String) (t : Tracker)
    → ((discard_deleted names t).domain_additions ≡ t.domain_additions)
unfolding discard_deleted
discard_deleted-domains [] t = refl
discard_deleted-domains (m ∷ names) t = discard_deleted-domains names (record t {
  rr_set_additions = pop m t.rr_set_additions;
  rr_set_modifications = pop m t.rr_set_modifications;
  rr_set_deletions = pop m t.rr_set_deletions;
})

pop-IsAligned :
    (m : String) (t : Tracker)
    → IsAligned t
    → IsAligned (record t {
      rr_set_additions = pop m t.rr_set_additions;
      rr_set_modifications = pop m t.rr_set_modifications;
      rr_set_deletions = pop m t.rr_set_deletions;
    })
pop-IsAligned m t h = record {
  additions_keys = λ n. ground (
    arith,
    h.additions_keys n,
    get-pop n m t.rr_set_additions,
    get-pop n m t.rr_set_modifications,
  );
  deletions_keys = λ n. ground (
    arith,
    h.deletions_keys n,
    get-pop n m t.rr_set_deletions,
    get-pop n m t.rr_set_modifications,
  );
}

discard_deleted-IsAligned :
    (names : List String) (t : Tracker) → IsAligned t → IsAligned (discard_deleted names t)
unfolding discard_deleted
discard_deleted-IsAligned [] t h = h
discard_deleted-IsAligned (m ∷ names) t h = discard_deleted-IsAligned names _ (pop-IsAligned m t h)

-- A domain that the loop passes over has nothing tracked.
untracked :
    (t : Tracker) (n : String)
    → IsAligned t
    → member n (changed_domains t) ≡ false
    → (items_of n t ≡ no_items) × (member n t.domain_additions ≡ false)
untracked t n h p = ground (
  arith,
  member-union n (keys t.rr_set_additions) t.domain_additions,
  keys-get-none n t.rr_set_additions,
  h.additions_keys n,
  h.deletions_keys n,
)

any-domain_deletes :
    (p : Change → Bool) (names : List String)
    → ((n : String) → p (delete_domain n) ≡ false)
    → any p (domain_deletes names) ≡ false
unfolding domain_deletes
any-domain_deletes p [] h = refl
any-domain_deletes p (n ∷ names) h = ground (arith, h n, any-domain_deletes p names h)

deletes-domain_deletes :
    (n : String) (names : List String) → any (deletes n) (domain_deletes names) ≡ member n names
unfolding domain_deletes member
deletes-domain_deletes n [] = refl
deletes-domain_deletes n (m ∷ names) = ground (arith, deletes-domain_deletes n names)

-- What the changes do, in terms of the tracked sets.
pub record Selection (db : Db) (t : Tracker) (cs : List Change) : Type 0 where
  pub written :
      (n : String) (x : Item)
      → any (writes n x) cs
        ≡ (not (member n t.domain_deletions) && is_written db (items_of n t) n x)
  pub cleared :
      (n : String) (x : Item)
      → any (clears n x) cs
        ≡ (not (member n t.domain_deletions) && member x (items_of n t).deletions)
  pub created : (n : String) → any (creates n) cs ≡ member n t.domain_additions
  pub deleted : (n : String) → any (deletes n) cs ≡ member n t.domain_deletions

module _ (db : Db) (t : Tracker) (v : IsValid t) where
  rest : Tracker
  rest = discard_deleted t.domain_deletions t

  rest-IsApart : (n : String) → IsApart (items_of n rest)
  unfolding rest member
  rest-IsApart n =
      rw (items_of-discard_deleted t.domain_deletions t n) (cases (member n t.domain_deletions))
    where
      cases : (b : Bool) → IsApart (if b then no_items else items_of n t)
      cases true = record { added = λ x p. refl; modified = λ x p. refl }
      cases false = v.apart n

  rest-domains : rest.domain_additions ≡ t.domain_additions
  unfolding rest
  rest-domains = discard_deleted-domains t.domain_deletions t

  rest-IsAligned : IsAligned rest
  unfolding rest
  rest-IsAligned = discard_deleted-IsAligned t.domain_deletions t v.aligned

  compute_changes-rest :
      {cs : List Change}
      → changes_of_all db rest (changed_domains rest) ≡ ok cs
      → compute_changes db t ≡ ok (domain_deletes t.domain_deletions ++ cs)
  unfolding compute_changes rest
  compute_changes-rest e = rw e

  -- `_compute_changes` raises nothing on a valid tracker. Its changes delete and create the domains
  -- of the two sets of domains; of a domain that is not deleted they clear the deleted RR sets, and
  -- write those that were modified, or added and have a record.
  pub compute_changes-Selection :
      (cs : List Change) × (compute_changes db t ≡ ok cs) × Selection db t cs
  compute_changes-Selection =
      let (cs, e, s) = changes_of_all-Selects db rest rest-IsApart (changed_domains rest) in
      (
        domain_deletes t.domain_deletions ++ cs,
        compute_changes-rest e,
        record {
          written = λ n x. written s n x;
          cleared = λ n x. cleared s n x;
          created = λ n. created s n;
          deleted = λ n. ground (
            arith,
            any-append (deletes n) (domain_deletes t.domain_deletions) cs,
            deletes-domain_deletes n t.domain_deletions,
            s.deleted n,
          );
        },
      )
    where
      head :
          (n : String)
          → items_of n rest ≡ (if member n t.domain_deletions then no_items else items_of n t)
      head n = unfold rest in items_of-discard_deleted t.domain_deletions t n

      written :
          {cs : List Change}
          → Selects db rest (changed_domains rest) cs
          → (n : String) (x : Item)
          → any (writes n x) (domain_deletes t.domain_deletions ++ cs)
            ≡ (not (member n t.domain_deletions) && is_written db (items_of n t) n x)
      written {cs} s n x =
          unfold member in
          ground (
            arith,
            any-append (writes n x) (domain_deletes t.domain_deletions) cs,
            any-domain_deletes (writes n x) t.domain_deletions (λ m. refl),
            s.written n x,
            head n,
            untracked rest n rest-IsAligned,
          )

      cleared :
          {cs : List Change}
          → Selects db rest (changed_domains rest) cs
          → (n : String) (x : Item)
          → any (clears n x) (domain_deletes t.domain_deletions ++ cs)
            ≡ (not (member n t.domain_deletions) && member x (items_of n t).deletions)
      cleared {cs} s n x =
          unfold member in
          ground (
            arith,
            any-append (clears n x) (domain_deletes t.domain_deletions) cs,
            any-domain_deletes (clears n x) t.domain_deletions (λ m. refl),
            s.cleared n x,
            head n,
            untracked rest n rest-IsAligned,
          )

      created :
          {cs : List Change}
          → Selects db rest (changed_domains rest) cs
          → (n : String)
          → any (creates n) (domain_deletes t.domain_deletions ++ cs) ≡ member n t.domain_additions
      created {cs} s n = ground (
        arith,
        any-append (creates n) (domain_deletes t.domain_deletions) cs,
        any-domain_deletes (creates n) t.domain_deletions (λ m. refl),
        s.created n,
        untracked rest n rest-IsAligned,
        rest-domains,
      )
