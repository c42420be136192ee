-- ===== src/Access/Quota.antt =====
-- views/domains.py `perform_create` and its permissions: no user has more domains than allowed.
use desec_stack.Common.{
  ℕ, ◌≤◌, ◌<◌, String, ◌≡◌, refl, sym, ap, ◌∙◌, ◌≢◌, inl, inr, Bool, true, false, not, ◌&&◌, some,
  List, ◌∷◌, arith, Bool-cases, ◌==◌, ==_iff, nat_eq, string_eq, pair_eq, option_eq, Result, ok,
  err, >>=-eq-ok, Result-cases, ok_same, keep, any,
}
use desec_stack.Db.{Domain, Db}
use desec_stack.Token.{Token, PolicyError, add_one, edit}
use desec_stack.Token.Soundness.{IsSound}
use desec_stack.Token.Invariant.{edit-IsSound}
use desec_stack.Tracker.{TrackerError, Tracker, receive_all}
use desec_stack.Context.Data.{Call}
use desec_stack.Context.Effects.{World}
use desec_stack.Context.{
  Process, enter, Transaction, open_ended, committed, rolled_back, exit_on_exception,
}
use desec_stack.Bulk.{Effect}
use desec_stack.Delegation.{DomainKey, Child, is_locally_registrable}
use desec_stack.Context.Owners.{owned, exit-owned}
use desec_stack.Delegation.Domains.{auto_delegate-domains}
use desec_stack.Access.Permissions.{Visit, within_domain_limit}
use desec_stack.Access.Views.{
  domain_view_set, create_action, domain_classes, permission_classes, allows,
}
use desec_stack.Access.Creation.{
  Site, CreateError, in_tracker, not_saved, no_policy, not_delegated, Tracked, Body, with_outcome,
  leave_block, track, new_domain, save_domain, own_policy, with_own_policy, raising, create_body,
  delegate_body, committed_token, perform_create,
}

-- A property of how many domains a user has behind a block.
module _ (site : Site) (accepts : List Call → Call → Bool) (P : ℕ → Type 0) (user : String) where
  leave_block-owned :
      (now : ℕ) (p : Process) (w : World) (db : Db) (r : Result TrackerError (Unit {0}) × Tracker)
      → P (owned user w.db.domains)
      → P (owned user db.domains)
      → P (owned user (leave_block site accepts now p w db r).world.db.domains)
  unfolding leave_block
  leave_block-owned now p w db (ok tt, t) before after =
      elim (exit-owned site.tracking accepts w.db now p user t (record w { db = db })) [
        | inl e ↦ rw e after
        | inr e ↦ rw e before
      ]
  leave_block-owned now p w db (err e, t) before after = before

  track-owned :
      (body : Body) (now : ℕ) (p : Process) (w : World)
      → P (owned user w.db.domains)
      → ((effect : Effect) → body w.db ≡ ok effect → P (owned user effect.0.domains))
      → P (owned user (track site accepts body now p w).world.db.domains)
  unfolding track
  track-owned body now p w before after = entered (enter p).0 (body w.db) after
    where
      entered :
          (r : Result TrackerError Tracker) (b : Result CreateError Effect)
          → ((effect : Effect) → b ≡ ok effect → P (owned user effect.0.domains))
          → P (
              owned user
                (elim r as (λ _. Tracked) [
                  | err e ↦ record {
                    world = w;
                    process = (enter p).1;
                    transaction = rolled_back;
                    result = err (in_tracker e);
                  }
                  | ok t ↦ elim b as (λ _. Tracked) [
                    | err e ↦ with_outcome (exit_on_exception w.db (enter p).1 w.log) (err e)
                    | ok (db, signals) ↦
                        leave_block site accepts now (enter p).1 w db (receive_all signals t)
                  ]
                ]).world.db.domains)
      entered (err e) b h = before
      entered (ok t) (err e) h = before
      entered (ok t) (ok (db, signals)) h =
          leave_block-owned now (enter p).1 w db (receive_all signals t) before
            (h (db, signals) refl)

pub raising-ok :
    {E A : Type 0} (f : E → CreateError) (r : Result E A) {a : A} → raising f r ≡ ok a → r ≡ ok a
raising-ok f (ok b) h = ap ok (ok_same h)
raising-ok f (err e) h = absurd (ground arith)

module _ (site : Site) (accepts : List Call → Call → Bool) (now id : ℕ) (owner name : String)
    (zone_keys : List DomainKey) (t : Token) (p : Process) (w : World) where
  -- the rows of domains behind the body of the first tracker
  create_body-domains :
      (db : Db) {effect : Effect}
      → create_body site now id owner name t db ≡ ok effect
      → effect.0.domains ≡ new_domain site now owner name ∷ db.domains
  unfolding create_body save_domain
  create_body-domains db {effect} h =
      let d = new_domain site now owner name in
      let (saved, i, k) = >>=-eq-ok (raising not_saved (save_domain d db)) _ h in
      let (_, _, l) = >>=-eq-ok (raising no_policy (with_own_policy id name t)) _ k in
      let s = raising-ok not_saved (save_domain d db) i in
      elim (Bool-cases (any (λ (other : Domain). other.name == name) db.domains)) [
        | inl e ↦ absurd (ground arith)
        | inr e ↦
            (let same : record db { domains = d ∷ db.domains } ≡ saved = ground arith in
              ap (λ (x : Effect). x.0.domains) (sym (ok_same l))
              ∙ ap (λ (x : Db). x.domains) (sym same))
      ]

  -- A property of the number of a user's domains that holds before and with the new domain holds
  -- whatever becomes of the request.
  perform_create-owned :
      (P : ℕ → Type 0) (user : String)
      → P (owned user w.db.domains)
      → P (owned user (new_domain site now owner name ∷ w.db.domains))
      → P (
          owned user
            (perform_create site accepts now id owner name zone_keys t p w).0.world.db.domains)
  unfolding perform_create delegate_body
  perform_create-owned P user before after =
      let first = track site accepts (create_body site now id owner name t) now p w in
      let child : Child = record { name = name; is_saved = true; keys = zone_keys } in
      let held : P (owned user first.world.db.domains) =
        track-owned site accepts P user (create_body site now id owner name t) now p w before
          (λ e h. rw (create_body-domains w.db h) after) in
      let delegated =
        track-owned site accepts P user (delegate_body site child) now first.process first.world
          held
          (λ e h.
            rw
              (auto_delegate-domains site.local_public_suffixes site.tracking.default_ns child
                first.world.db (raising-ok not_delegated _ h))
              held) in
      elim (Bool-cases
        (not site.register_lps && is_locally_registrable site.local_public_suffixes name)) [
          | inl e ↦ rw (e) before
          | inr e ↦ elim (Result-cases first.result) [
            | inl (u, r) ↦ rw (e, r) delegated
            | inr (f, r) ↦ rw (e, r) held
          ]
        ]

  committed_token-IsSound :
      (transaction : Transaction) (made : Result PolicyError Token)
      → IsSound t
      → ((u : Token) → made ≡ ok u → IsSound u)
      → IsSound (committed_token transaction made t)
  committed_token-IsSound committed (ok u) v h = h u refl
  committed_token-IsSound committed (err e) v h = v
  committed_token-IsSound open_ended made v h = v
  committed_token-IsSound rolled_back made v h = v

  with_own_policy-IsSound : IsSound t → (u : Token) → with_own_policy id name t ≡ ok u → IsSound u
  unfolding with_own_policy edit
  with_own_policy-IsSound v u h = elim (Bool-cases t.auto_policy) [
    | inl a ↦ edit-IsSound (add_one (own_policy id name)) t u v (ground arith)
    | inr a ↦ (let same : t ≡ u = ground arith in rw (← same) v)
  ]

  perform_create-IsSound :
      IsSound t → IsSound (perform_create site accepts now id owner name zone_keys t p w).1
  unfolding perform_create
  perform_create-IsSound v =
      let first = track site accepts (create_body site now id owner name t) now p w in
      let held =
        committed_token-IsSound first.transaction (with_own_policy id name t) v
          (with_own_policy-IsSound v) in
      elim (Bool-cases
        (not site.register_lps && is_locally_registrable site.local_public_suffixes name)) [
          | inl e ↦ rw (e) v
          | inr e ↦ elim (Result-cases first.result) [
            | inl (u, r) ↦ rw (e, r) held
            | inr (f, r) ↦ rw (e, r) held
          ]
        ]

-- What a request to create a domain may leave.
pub record IsWithin (user : String) (limit : ℕ) (before after : Db) (auth : Token) : Type 0 where
  pub limited : owned user after.domains ≤ limit
  pub others :
      (other : String) → other ≢ user → owned other after.domains ≡ owned other before.domains
  pub sound : IsSound auth

-- A request to create a domain that the view's permissions allow, with a sound token and with the
-- number of the user's domains as it is in the database, leaves that user with no more domains than
-- the limit and every other user with as many as before, and it leaves the token sound; and this
-- whether it goes through, is refused, or ends in an error of the database, the name servers or the
-- delegation.
pub perform_create-IsWithin :
    (site : Site) (accepts : List Call → Call → Bool) (now id : ℕ) (name : String)
    (zone_keys : List DomainKey) (p : Process) (w : World) (v : Visit) (limit : ℕ)
    → v.is_safe ≡ false
    → allows domain_view_set v create_action ≡ true
    → v.user.limit_domains ≡ some limit
    → v.domain_count ≡ owned v.user.email w.db.domains
    → IsSound v.auth
    → let after = perform_create site accepts now id v.user.email name zone_keys v.auth p w in
      IsWithin v.user.email limit w.db after.0.world.db after.1
unfolding allows permission_classes domain_classes within_domain_limit keep
perform_create-IsWithin site accepts now id name zone_keys p w v limit unsafe allowed few count s =
    let room : owned v.user.email w.db.domains < limit = ground arith in
    record {
      limited =
          perform_create-owned site accepts now id v.user.email name zone_keys v.auth p w
            (λ n. n ≤ limit) v.user.email (omega (arith, room)) (ground arith);
      others = λ other apart.
          perform_create-owned site accepts now id v.user.email name zone_keys v.auth p w
            (λ n. n ≡ owned other w.db.domains) other refl
            (ground (arith, ==_iff v.user.email other));
      sound = perform_create-IsSound site accepts now id v.user.email name zone_keys v.auth p w s;
    }
