-- ===== src/Context/Rows.antt =====
-- pdns_change_tracker.py, `__exit__`: the database behind a block in which no domain has been created.
use desec_stack.Common.{
  ℕ, String, ◌≡◌, refl, ap, ◌∙◌, Bool, false, List, [], ◌∷◌, arith, ==_refl, nat_eq, string_eq,
  pair_eq, option_eq, Result, ok, err, any, member,
}
use desec_stack.Db.{Db, DbError}
use desec_stack.Tracker.{Tracker}
use desec_stack.Tracker.Invariant.{IsValid}
use desec_stack.Changes.{Change, create_domain, delete_domain, update_rr_sets}
use desec_stack.Changes.Parts.{creates}
use desec_stack.Changes.Selection.{compute_changes-Selection}
use desec_stack.Context.Data.{RRsetData, Call, Settings}
use desec_stack.Context.Effects.{
  Failure, World, Action, ◌>>=◌ as ◌>>>=◌, pure, query, perform, Within, Within-pure, Within-query,
  Within-bind, Within-if,
}
use desec_stack.Context.{
  send_data, pdns_do, api_do, pch_do, make_change, make_changes, request_transfers, Process,
  after_commit, after_changes, exit_with, exit,
}

-- The database is the same.
record SameDb (w v : World) : Type 0 where
  kept : v.db ≡ w.db

pure-SameDb : {A : Type 0} (a : A) → Within SameDb (pure a)
pure-SameDb = Within-pure (λ w. record { kept = refl })

query-SameDb : {A : Type 0} (f : Db → Result DbError A) → Within SameDb (query f)
query-SameDb = Within-query (λ w. record { kept = refl })

bind-SameDb :
    {A B : Type 0} (m : Action A) (f : A → Action B)
    → Within SameDb m
    → ((a : A) → Within SameDb (f a))
    → Within SameDb (m >>>= f)
bind-SameDb = Within-bind (λ u v w g h. record { kept = h.kept ∙ g.kept })

module _ (settings : Settings) (accepts : List Call → Call → Bool) where
  perform-SameDb : (c : Call) → Within SameDb (perform accepts c)
  unfolding perform
  perform-SameDb c = record { at = λ w. record { kept = ground arith } }

  send_data-SameDb :
      (name : String) (xs : List RRsetData) → Within SameDb (send_data settings accepts name xs)
  unfolding send_data
  send_data-SameDb name [] = pure-SameDb tt
  send_data-SameDb name (x ∷ xs) = perform-SameDb _

  ruleset keeping =
      (pure-SameDb, query-SameDb, bind-SameDb, Within-if, perform-SameDb, send_data-SameDb)

  pdns_do-SameDb : (c : Change) → Within SameDb (pdns_do settings accepts c)
  unfolding pdns_do
  pdns_do-SameDb (create_domain name) = search keeping
  pdns_do-SameDb (delete_domain name) = search keeping
  pdns_do-SameDb (update_rr_sets name a m d) = search keeping

  api_do-SameDb :
      (c : Change)
      → ((n : String) → creates n c ≡ false)
      → Within SameDb (api_do settings accepts c)
  unfolding api_do
  api_do-SameDb (create_domain name) h =
      (let here = h name in absurd (ground (arith, ==_refl name)))
  api_do-SameDb (delete_domain name) h = pure-SameDb tt
  api_do-SameDb (update_rr_sets name a m d) h = pure-SameDb tt

  pch_do-SameDb : (c : Change) → Within SameDb (pch_do settings accepts c)
  unfolding pch_do
  pch_do-SameDb (create_domain name) = search keeping
  pch_do-SameDb (delete_domain name) = search keeping
  pch_do-SameDb (update_rr_sets name a m d) = search keeping

  make_change-SameDb :
      (c : Change)
      → ((n : String) → creates n c ≡ false)
      → Within SameDb (make_change settings accepts c)
  unfolding make_change
  make_change-SameDb c h =
      bind-SameDb _ _ (pdns_do-SameDb c)
        (λ _. bind-SameDb _ _ (api_do-SameDb c h) (λ _. search (keeping, pch_do-SameDb)))

  make_changes-SameDb :
      (cs : List Change) (names : List String)
      → ((n : String) → any (creates n) cs ≡ false)
      → Within SameDb (make_changes settings accepts cs names)
  unfolding make_changes
  make_changes-SameDb [] names h = pure-SameDb names
  make_changes-SameDb (c ∷ cs) names h =
      bind-SameDb _ _ (make_change-SameDb c (λ n. let here = h n in ground arith))
        (λ _. make_changes-SameDb cs _ (λ n. let here = h n in ground arith))

  request_transfers-SameDb :
      (names : List String) → Within SameDb (request_transfers settings accepts names)
  unfolding request_transfers
  request_transfers-SameDb [] = pure-SameDb tt
  request_transfers-SameDb (n ∷ names) =
      bind-SameDb _ _ (perform-SameDb _) (λ _. request_transfers-SameDb names)

module _ (settings : Settings) (accepts : List Call → Call → Bool) (before : Db) (now : ℕ)
    (p : Process) where
  after_commit-rrsets :
      (names : List String) (r : Result Failure (Unit {0}) × World)
      → (after_commit names now p r).world.db.rrsets ≡ r.1.db.rrsets
  unfolding after_commit
  after_commit-rrsets names (ok tt, v) = refl
  after_commit-rrsets names (err f, v) = refl

  after_changes-rrsets :
      (w : World) (r : Result Failure (List String) × World)
      → SameDb w r.1
      → (after_changes settings accepts before now p r).result ≡ ok tt
      → (after_changes settings accepts before now p r).world.db.rrsets ≡ w.db.rrsets
  unfolding after_changes
  after_changes-rrsets w (ok names, v) same h =
      after_commit-rrsets names (request_transfers settings accepts names v)
      ∙ ap (λ (d : Db). d.rrsets)
          (((request_transfers-SameDb settings accepts names).at v).kept ∙ same.kept)
  after_changes-rrsets w (err f, v) same h = absurd (ground arith)

  -- `__exit__` without an exception leaves the RR sets as they are, if no domain has been added.
  pub exit-rrsets :
      (t : Tracker) (w : World)
      → IsValid t
      → ((n : String) → member n t.domain_additions ≡ false)
      → (exit settings accepts before now p t w).result ≡ ok tt
      → (exit settings accepts before now p t w).world.db.rrsets ≡ w.db.rrsets
  unfolding exit exit_with
  exit-rrsets t w v none_added h =
      let (cs, e, s) = compute_changes-Selection w.db t v in
      let made =
        (make_changes-SameDb settings accepts cs [] (λ n. s.created n ∙ none_added n)).at w in
      let o : (exit_with settings accepts before now p (ok cs) w).result ≡ ok tt = rw e at h in
      rw e (after_changes-rrsets w (make_changes settings accepts cs [] w) made o)
