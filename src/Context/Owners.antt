-- ===== src/Context/Owners.antt =====
-- pdns_change_tracker.py, `__exit__`: no domain comes or goes, and none changes its owner.
use desec_stack.Common.{
  ℕ, String, ◌≡◌, refl, ap, ◌∙◌, ◌⊎◌, inl, inr, Bool, not, ◌||◌, List, [], ◌∷◌, arith, Bool-cases,
  ◌==◌, nat_eq, string_eq, pair_eq, option_eq, Result, ok, err, >>=-eq-ok, Result-cases, passed,
  length, keep, any, is_distinct,
}
use desec_stack.Db.{RRset, Domain, Db, DbError, insert_rrset, exists_at, conflicts_with}
use desec_stack.Tracker.{Tracker}
use desec_stack.Changes.{Change, create_domain, delete_domain, update_rr_sets, compute_changes}
use desec_stack.Context.Data.{RRsetData, Call, Settings, get_domain, default_rrset, publish}
use desec_stack.Context.Effects.{
  Failure, World, Action, ◌>>=◌ as ◌>>>=◌, pure, query, write_db, perform, Within, Within-pure,
  Within-query, Within-bind, Within-if,
}
use desec_stack.Context.{
  send_data, pdns_do, api_do, pch_do, make_change, make_changes, request_transfers, Process,
  after_commit, after_changes, exit_with, exit,
}

-- The domains are the same.
record SameDomains (w v : World) : Type 0 where
  kept : v.db.domains ≡ w.db.domains

pure-SameDomains : {A : Type 0} (a : A) → Within SameDomains (pure a)
pure-SameDomains = Within-pure (λ w. record { kept = refl })

query-SameDomains : {A : Type 0} (f : Db → Result DbError A) → Within SameDomains (query f)
query-SameDomains = Within-query (λ w. record { kept = refl })

bind-SameDomains :
    {A B : Type 0} (m : Action A) (f : A → Action B)
    → Within SameDomains m
    → ((a : A) → Within SameDomains (f a))
    → Within SameDomains (m >>>= f)
bind-SameDomains = Within-bind (λ u v w g h. record { kept = h.kept ∙ g.kept })

pub insert_rrset-domains :
    (r : RRset) (db : Db) {after : Db} → insert_rrset r db ≡ ok after → after.domains ≡ db.domains
unfolding insert_rrset
insert_rrset-domains r db {after} h =
    elim (Bool-cases (exists_at r.domain r.item db.rrsets || any (conflicts_with r) db.rrsets)) [
      | inl e ↦ absurd (ground arith)
      | inr e ↦
          (let same : record db { rrsets = r ∷ db.rrsets } ≡ after = ground arith in
            rw (← same) refl)
    ]

default_rrset-domains :
    (settings : Settings) (name : String) (db : Db) {after : Db}
    → default_rrset settings name db ≡ ok after
    → after.domains ≡ db.domains
unfolding default_rrset
default_rrset-domains settings name db h =
    let (d, _, k) = >>=-eq-ok (get_domain name db) _ h in
    let (_, l) = passed (not (is_distinct settings.default_ns)) _ _ k in insert_rrset-domains _ db l

module _ (settings : Settings) (accepts : List Call → Call → Bool) where
  perform-SameDomains : (c : Call) → Within SameDomains (perform accepts c)
  unfolding perform
  perform-SameDomains c = record { at = λ w. record { kept = ground arith } }

  send_data-SameDomains :
      (name : String) (xs : List RRsetData)
      → Within SameDomains (send_data settings accepts name xs)
  unfolding send_data
  send_data-SameDomains name [] = pure-SameDomains tt
  send_data-SameDomains name (x ∷ xs) = perform-SameDomains _

  ruleset keeping = (
    pure-SameDomains, query-SameDomains, bind-SameDomains, Within-if, perform-SameDomains,
    send_data-SameDomains,
  )

  pdns_do-SameDomains : (c : Change) → Within SameDomains (pdns_do settings accepts c)
  unfolding pdns_do
  pdns_do-SameDomains (create_domain name) = search keeping
  pdns_do-SameDomains (delete_domain name) = search keeping
  pdns_do-SameDomains (update_rr_sets name a m d) = search keeping

  api_do-SameDomains : (c : Change) → Within SameDomains (api_do settings accepts c)
  unfolding api_do ◌>>>=◌ query write_db
  api_do-SameDomains (create_domain name) = record {
    at = λ w. record {
      kept = elim (Result-cases (default_rrset settings name w.db)) [
        | inl (after, e) ↦ (let same = default_rrset-domains settings name w.db e in ground arith)
        | inr (f, e) ↦ ground arith
      ];
    };
  }
  api_do-SameDomains (delete_domain name) = pure-SameDomains tt
  api_do-SameDomains (update_rr_sets name a m d) = pure-SameDomains tt

  pch_do-SameDomains : (c : Change) → Within SameDomains (pch_do settings accepts c)
  unfolding pch_do
  pch_do-SameDomains (create_domain name) = search keeping
  pch_do-SameDomains (delete_domain name) = search keeping
  pch_do-SameDomains (update_rr_sets name a m d) = search keeping

  make_change-SameDomains : (c : Change) → Within SameDomains (make_change settings accepts c)
  unfolding make_change
  make_change-SameDomains c =
      search (keeping, pdns_do-SameDomains, api_do-SameDomains, pch_do-SameDomains)

  make_changes-SameDomains :
      (cs : List Change) (names : List String)
      → Within SameDomains (make_changes settings accepts cs names)
  unfolding make_changes
  make_changes-SameDomains [] names = pure-SameDomains names
  make_changes-SameDomains (c ∷ cs) names =
      bind-SameDomains _ _ (make_change-SameDomains c) (λ _. make_changes-SameDomains cs _)

  request_transfers-SameDomains :
      (names : List String) → Within SameDomains (request_transfers settings accepts names)
  unfolding request_transfers
  request_transfers-SameDomains [] = pure-SameDomains tt
  request_transfers-SameDomains (n ∷ names) =
      bind-SameDomains _ _ (perform-SameDomains _) (λ _. request_transfers-SameDomains names)

-- how many domains a user has
abbrev pub owned : String → List Domain → ℕ
owned user domains = length (keep (λ (d : Domain). d.owner == user) domains)

publish-owned :
    (user : String) (names : List String) (now : ℕ) (ds : List Domain)
    → owned user (publish names now ds) ≡ owned user ds
unfolding publish keep
publish-owned user names now [] = refl
publish-owned user names now (d ∷ ds) = ground (arith, publish-owned user names now ds)

module _ (settings : Settings) (accepts : List Call → Call → Bool) (before : Db) (now : ℕ)
    (p : Process) where
  after_commit-owned :
      (user : String) (names : List String) (r : Result Failure (Unit {0}) × World)
      → owned user (after_commit names now p r).world.db.domains ≡ owned user r.1.db.domains
  unfolding after_commit
  after_commit-owned user names (ok tt, v) = publish-owned user names now v.db.domains
  after_commit-owned user names (err f, v) = refl

  after_changes-owned :
      (user : String) (w : World) (r : Result Failure (List String) × World)
      → SameDomains w r.1
      → (owned user (after_changes settings accepts before now p r).world.db.domains
          ≡ owned user w.db.domains)
        ⊎ ((after_changes settings accepts before now p r).world.db ≡ before)
  unfolding after_changes
  after_changes-owned user w (ok names, v) same = inl (
      after_commit-owned user names (request_transfers settings accepts names v)
      ∙ ap (owned user)
          (((request_transfers-SameDomains settings accepts names).at v).kept ∙ same.kept))
  after_changes-owned user w (err f, v) same = inr refl

  -- Each user has as many domains behind `__exit__` as in the transaction, or the database is as it was
  -- before.
  pub exit-owned :
      (user : String) (t : Tracker) (w : World)
      → (owned user (exit settings accepts before now p t w).world.db.domains
          ≡ owned user w.db.domains)
        ⊎ ((exit settings accepts before now p t w).world.db ≡ before)
  unfolding exit exit_with
  exit-owned user t w = elim (Result-cases (compute_changes w.db t)) [
    | inl (cs, e) ↦
        rw (e, exit_with)
          (after_changes-owned user w (make_changes settings accepts cs [] w)
            ((make_changes-SameDomains settings accepts cs []).at w))
    | inr (f, e) ↦ inl (rw (e, exit_with) refl)
  ]
