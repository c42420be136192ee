-- ===== src/Context/Closing.antt =====
-- How `__exit__` ends: the transaction is closed, zone transfers are asked for only behind the commit,
-- and a success has brought every tracked RR set to the name servers.
use desec_stack.Common.{
  In-map_inv, any_mono, ℕ, String, ◌≡◌, refl, ◌⊎◌, inl, inr, Bool, true, false, not, ◌&&◌, ◌||◌,
  some, List, [], ◌++◌, arith, ◌==◌, nat_eq, string_eq, pair_eq, Result, ok, err, any, In, member,
}
use desec_stack.Db.{Item, Domain, Db}
use desec_stack.Tracker.{Tracker}
use desec_stack.Tracker.View.{items_of}
use desec_stack.Tracker.Invariant.{IsValid}
use desec_stack.Changes.{Change, create_domain, delete_domain, update_rr_sets}
use desec_stack.Changes.Parts.{writes, clears, creates, is_written}
use desec_stack.Changes.Selection.{compute_changes-Selection}
use desec_stack.Context.Data.{Call, Settings, axfr_required, domain_name, publish}
use desec_stack.Context.Effects.{Failure, World}
use desec_stack.Context.{
  make_changes, request_transfers, Process, committed, rolled_back, value_error, Outcome,
  after_commit, after_changes, exit_with, exit,
}
use desec_stack.Context.Applying.{is_transfer, Grows, make_changes-Grows, make_changes-names}

-- Nothing is gone from the log.
record KeepsLog (w v : World) : Type 0 where
  kept : (c : Call) → In c w.log → In c v.log

publish_lem :
    (names : List String) (now : ℕ) (ds : List Domain) (d : Domain)
    → In d (publish names now ds)
    → member d.name names ≡ true
    → d.published ≡ some now
unfolding publish
publish_lem names now ds d h p = let (x, i, e) = In-map_inv _ d ds h in ground arith

abbrev requires : String → Change → Bool
requires n c = axfr_required c && n == domain_name c

requires-creates : (n : String) (c : Change) → creates n c ≡ true → requires n c ≡ true
requires-creates n (create_domain m) h = h
requires-creates n (delete_domain m) h = absurd (ground arith)
requires-creates n (update_rr_sets m a c d) h = absurd (ground arith)

requires-writes : (n : String) (x : Item) (c : Change) → writes n x c ≡ true → requires n c ≡ true
requires-writes n x (create_domain m) h = absurd (ground arith)
requires-writes n x (delete_domain m) h = absurd (ground arith)
requires-writes n x (update_rr_sets m a c d) h = ground arith

requires-clears : (n : String) (x : Item) (c : Change) → clears n x c ≡ true → requires n c ≡ true
requires-clears n x (create_domain m) h = absurd (ground arith)
requires-clears n x (delete_domain m) h = absurd (ground arith)
requires-clears n x (update_rr_sets m a c d) h = ground arith

-- What `__exit__` leaves behind a transaction that was not committed.
pub record RolledBack (before : Db) (w : World) (o : Outcome) : Type 0 where
  pub transaction_eq : o.transaction ≡ rolled_back
  pub db_eq : o.world.db ≡ before
  pub failure : Failure
  pub result_eq : o.result ≡ err (value_error failure)
  pub calls : List Call
  pub log_eq : o.world.log ≡ w.log ++ calls
  pub no_transfer : any is_transfer calls ≡ false

module _ (settings : Settings) (accepts : List Call → Call → Bool) (before : Db) (now : ℕ)
    (p : Process) where
  after_changes-cases :
      (cs : List Change) (w : World)
      → let o =
          after_changes settings accepts before now p (make_changes settings accepts cs [] w) in
        (o.transaction ≡ committed) ⊎ RolledBack before w o
  unfolding after_changes after_commit
  after_changes-cases cs w =
      cases (make_changes settings accepts cs [] w)
        ((make_changes-Grows settings accepts cs []).at w)
    where
      committed_after :
          (names : List String) (r : Result Failure (Unit {0}) × World)
          → (after_commit names now p r).transaction ≡ committed
      committed_after names (ok tt, v) = refl
      committed_after names (err f, v) = refl

      cases :
          (r : Result Failure (List String) × World)
          → Grows w r.1
          → ((after_changes settings accepts before now p r).transaction ≡ committed)
            ⊎ RolledBack before w (after_changes settings accepts before now p r)
      cases (ok names, v) g =
          inl (committed_after names (request_transfers settings accepts names v))
      cases (err f, v) g = inr (record {
        transaction_eq = refl;
        db_eq = refl;
        failure = f;
        result_eq = refl;
        calls = g.calls;
        log_eq = g.log_eq;
        no_transfer = g.no_transfer;
      })

  -- On a valid tracker `__exit__` never leaves the transaction open: it is committed, or it is rolled
  -- back, and then the database is as before it, a ValueError is raised, and the calls made are no
  -- zone transfers.
  pub exit-closes :
      (t : Tracker) (w : World)
      → IsValid t
      → let o = exit settings accepts before now p t w in
        (o.transaction ≡ committed) ⊎ RolledBack before w o
  unfolding exit exit_with
  exit-closes t w v =
      let (cs, e, s) = compute_changes-Selection w.db t v in
      rw (e, exit_with) (after_changes-cases cs w)

  -- the parts of a success
  success :
      (cs : List Change) (w : World)
      → let o = exit_with settings accepts before now p (ok cs) w in
        o.result ≡ ok tt
        → (names : List String) × ((make_changes settings accepts cs [] w).0 ≡ ok names)
          × (o.world.log
              ≡ (request_transfers settings accepts names
                  (make_changes settings accepts cs [] w).1).1.log)
          × (ds : List Domain) × (o.world.db.domains ≡ publish names now ds)
  unfolding exit_with after_changes after_commit
  success cs w h = cases (make_changes settings accepts cs [] w) h
    where
      commit_cases :
          (names : List String) (r : Result Failure (Unit {0}) × World)
          → (after_commit names now p r).result ≡ ok tt
          → ((after_commit names now p r).world.log ≡ r.1.log)
            × (ds : List Domain) × ((after_commit names now p r).world.db.domains
                ≡ publish names now ds)
      commit_cases names (ok tt, v) h = (refl, v.db.domains, refl)
      commit_cases names (err f, v) h = absurd (ground arith)

      cases :
          (r : Result Failure (List String) × World)
          → let o = after_changes settings accepts before now p r in
            o.result ≡ ok tt
            → (names : List String) × (r.0 ≡ ok names)
              × (o.world.log ≡ (request_transfers settings accepts names r.1).1.log)
              × (ds : List Domain) × (o.world.db.domains ≡ publish names now ds)
      cases (ok names, v) h =
          let (e, ds, f) = commit_cases names (request_transfers settings accepts names v) h in
          (names, refl, e, ds, f)
      cases (err f, v) h = absurd (ground arith)

  -- When `__exit__` ends without an exception, each domain that was added, or of which an RR set was
  -- written or cleared, is marked as published now.
  pub exit-published :
      (t : Tracker) (w : World) (d : Domain) (x : Item)
      → IsValid t
      → let o = exit settings accepts before now p t w in
        o.result ≡ ok tt
        → In d o.world.db.domains
        → ((member d.name t.domain_additions
              || (not (member d.name t.domain_deletions)
                  && (is_written w.db (items_of d.name t) d.name x
                      || member x (items_of d.name t).deletions)))
            ≡ true)
        → d.published ≡ some now
  unfolding exit
  exit-published t w d x v h i touched =
      let (cs, e, s) = compute_changes-Selection w.db t v in
      let (names, made, _, ds, f) = success cs w (rw e at h) in
      publish_lem names now ds d (rw (e, f) at i) (
        ground (
          arith,
          make_changes-names settings accepts cs [] w made d.name,
          s.created d.name,
          s.written d.name x,
          s.cleared d.name x,
          any_mono (creates d.name) (requires d.name) cs (requires-creates d.name),
          any_mono (writes d.name x) (requires d.name) cs (requires-writes d.name x),
          any_mono (clears d.name x) (requires d.name) cs (requires-clears d.name x),
        ))
