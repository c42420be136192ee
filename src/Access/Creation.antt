-- ===== src/Access/Creation.antt =====
-- views/domains.py `DomainViewSet.perform_create` and pdns_change_tracker.py `track`, without a zone
-- file. The keys of the new domain, which the name server makes, are an argument.
use desec_stack.Common.{
  ℕ, String, Bool, true, not, ◌&&◌, none, some, List, [], ◌∷◌, if◌then◌else◌, ◌==◌, nat_eq,
  string_eq, pair_eq, option_eq, Result, ok, err, ◌>>=◌, any,
}
use desec_stack.Db.{Domain, Db, DbError, integrity_error}
use desec_stack.Token.{Policy, Token, PolicyError, add_policy}
use desec_stack.Tracker.{TrackerError, Tracker, domain_saved, receive_all}
use desec_stack.Context.Data.{Call, Settings}
use desec_stack.Context.Effects.{World}
use desec_stack.Context.{
  Process, enter, Transaction, committed, rolled_back, ExitError, Outcome, exit_on_exception, exit,
}
use desec_stack.Bulk.{Effect}
use desec_stack.Delegation.{
  DomainKey, Child, DelegationError, is_locally_registrable, auto_delegate,
}

-- What is read of the settings.
pub record Site : Type 0 where
  pub tracking : Settings
  pub register_lps : Bool
  pub local_public_suffixes : List String
  pub minimum_ttl : ℕ

pub data CreateError : Type 0 where
  registration_suspended : CreateError
  not_saved : DbError → CreateError
  no_policy : PolicyError → CreateError
  not_delegated : DelegationError → CreateError
  in_tracker : TrackerError → CreateError
  at_exit : ExitError → CreateError

-- the state behind a `with` block of a tracker, and what it raises
pub record Tracked : Type 0 where
  pub world : World
  pub process : Process
  pub transaction : Transaction
  pub result : Result CreateError (Unit {0})

-- the rows that a body leaves, and its signals
abbrev pub Body : Type 0
Body = Db → Result CreateError Effect

abbrev pub of_exit : Result ExitError (Unit {0}) → Result CreateError (Unit {0})
of_exit (ok _) = ok tt
of_exit (err e) = err (at_exit e)

abbrev pub with_outcome : Outcome → Result CreateError (Unit {0}) → Tracked
with_outcome o result = record {
  world = o.world;
  process = o.process;
  transaction = o.transaction;
  result = result;
}

-- the row of `Domain(name=..., owner=...)`; the domains below a local public suffix are to be renewed
abbrev pub new_domain : Site → ℕ → String → String → Domain
new_domain site now owner name = record {
  name = name;
  owner = owner;
  published = none;
  minimum_ttl = site.minimum_ttl;
  renewal_state = if is_locally_registrable site.local_public_suffixes name then 1 else 0;
  renewal_changed = now;
}

-- `serializer.save(owner=self.request.user)`
unfoldable pub save_domain : Domain → Db → Result DbError Db
save_domain d db =
    if any (λ other. other.name == d.name) db.domains
    then err integrity_error
    else ok (record db { domains = d ∷ db.domains })

abbrev pub own_policy : ℕ → String → Policy
own_policy id name = record {
  id = id;
  domain = some name;
  subname = none;
  type = none;
  perm_write = true;
}

-- `if self.request.auth.auto_policy: ...`
unfoldable pub with_own_policy : ℕ → String → Token → Result PolicyError Token
unfolding add_policy
with_own_policy id name t = if t.auto_policy then add_policy (own_policy id name) t else ok t

abbrev pub raising : {E A : Type 0} → (E → CreateError) → Result E A → Result CreateError A
raising f (ok a) = ok a
raising f (err e) = err (f e)

-- the body of the first tracker
unfoldable pub create_body : Site → ℕ → ℕ → String → String → Token → Body
unfolding save_domain with_own_policy
create_body site now id owner name t db = do
  saved ← raising not_saved (save_domain (new_domain site now owner name) db)
  raising no_policy (with_own_policy id name t) >>= λ _. ok (saved, domain_saved name true ∷ [])

-- `self.auto_delegate(domain)`
unfoldable pub delegate_body : Site → Child → Body
unfolding auto_delegate
delegate_body site child db =
    raising not_delegated
      (auto_delegate site.local_public_suffixes site.tracking.default_ns child db)

-- the token behind the first tracker
abbrev pub committed_token : Transaction → Result PolicyError Token → Token → Token
committed_token committed (ok made) t = made
committed_token _ _ t = t

module _ (site : Site) (accepts : List Call → Call → Bool) where
  -- the end of the block, with what the handlers have made of the signals
  unfoldable pub leave_block :
      ℕ → Process → World → Db → Result TrackerError (Unit {0}) × Tracker → Tracked
  unfolding exit_on_exception
  leave_block now p w db (ok _, t) =
      let o = exit site.tracking accepts w.db now p t (record w { db = db }) in
      with_outcome o (of_exit o.result)
  leave_block now p w db (err e, t) =
      with_outcome (exit_on_exception w.db p w.log) (err (in_tracker e))

  -- `with PDNSChangeTracker(): body`
  unfoldable pub track : Body → ℕ → Process → World → Tracked
  unfolding leave_block enter receive_all
  track body now p w = elim (enter p).0 [
    | err e ↦ record {
      world = w;
      process = (enter p).1;
      transaction = rolled_back;
      result = err (in_tracker e);
    }
    | ok t ↦ elim (body w.db) [
      | err e ↦ with_outcome (exit_on_exception w.db (enter p).1 w.log) (err e)
      | ok (db, signals) ↦ leave_block now (enter p).1 w db (receive_all signals t)
    ]
  ]

  -- The state behind the request, and the token that it was made with.
  unfoldable pub perform_create :
      ℕ → ℕ → String → String → List DomainKey → Token → Process → World → Tracked × Token
  unfolding track create_body delegate_body with_own_policy
  perform_create now id owner name zone_keys t p w =
      if not site.register_lps && is_locally_registrable site.local_public_suffixes name
      then (
        record {
          world = w;
          process = p;
          transaction = rolled_back;
          result = err registration_suspended;
        },
        t,
      )
      else let first = track (create_body site now id owner name t) now p w in
        let auth = committed_token first.transaction (with_own_policy id name t) t in
        elim first.result [
          | err e ↦ (first, auth)
          | ok _ ↦
              (let child : Child = record { name = name; is_saved = true; keys = zone_keys } in
                (track (delegate_body site child) now first.process first.world, auth))
        ]
