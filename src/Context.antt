-- ===== src/Context.antt =====
-- pdns_change_tracker.py, `__enter__` and `__exit__`: how the changes are made at the name servers
-- and in the database, and when the transaction is committed or rolled back.
pub mod Data
pub mod Effects
pub mod Applying
pub mod Delivery
pub mod Closing
pub mod Nesting
pub mod Owners
pub mod Rows
use desec_stack.Common.{
  ℕ, ◌+◌, ◌-◌, String, Bool, true, false, List, [], ◌∷◌, arith, nat_beq, if◌then◌else◌, nat_eq,
  string_eq, pair_eq, Result, ok, err, add,
}
use desec_stack.Db.{Db}
use desec_stack.Tracker.{TrackerError, assertion_error, Tracker, fresh}
use desec_stack.Changes.{Change, create_domain, delete_domain, update_rr_sets, compute_changes}
use Data.{
  RRsetData, Call, create_zone_lord, create_zone_master, delete_zone_lord, delete_zone_master,
  update_catalog, update_zone, axfr_to_master, pch_create_domain, pch_delete_domain, Settings,
  rrsets_data, axfr_required, domain_name, default_rrset, publish,
}
use Effects.{Failure, World, Action, ◌>>=◌, ◌>>◌, pure, query, write_db, perform}

module _ (settings : Settings) (accepts : List Call → Call → Bool) where
  -- `if data["rrsets"]: pdns.update_zone(...)`
  unfoldable pub send_data : String → List RRsetData → Action (Unit {0})
  unfolding pure perform
  send_data name [] = pure tt
  send_data name (x ∷ xs) = perform accepts (update_zone name (x ∷ xs))

  -- `pdns_do` of each kind of change
  unfoldable pub pdns_do : Change → Action (Unit {0})
  unfolding perform query send_data rrsets_data ◌>>=◌
  pdns_do (create_domain name) = do
    perform accepts (create_zone_lord name)
    perform accepts (create_zone_master name)
    perform accepts (update_catalog name false)
  pdns_do (delete_domain name) = do
    perform accepts (delete_zone_lord name)
    perform accepts (delete_zone_master name)
    perform accepts (update_catalog name true)
  pdns_do (update_rr_sets name additions modifications deletions) = do
    rrsets ← query (λ db. rrsets_data name db additions modifications deletions)
    send_data name rrsets

  unfoldable pub api_do : Change → Action (Unit {0})
  unfolding default_rrset query write_db pure ◌>>=◌
  api_do (create_domain name) = do db ← query (default_rrset settings name); write_db db
  api_do (delete_domain name) = pure tt
  api_do (update_rr_sets name additions modifications deletions) = pure tt

  unfoldable pub pch_do : Change → Action (Unit {0})
  unfolding perform pure
  pch_do (create_domain name) = perform accepts (pch_create_domain name)
  pch_do (delete_domain name) = perform accepts (pch_delete_domain name)
  pch_do (update_rr_sets name additions modifications deletions) = pure tt

  -- the `try` block of `__exit__`, for one change
  unfoldable pub make_change : Change → Action (Unit {0})
  unfolding pdns_do api_do pch_do pure ◌>>=◌
  make_change c = do pdns_do c; api_do c; if settings.pch_enabled then pch_do c else pure tt

  -- the loop over the changes; the result is the set `axfr_required`
  unfoldable pub make_changes : List Change → List String → Action (List String)
  unfolding make_change pure ◌>>=◌
  make_changes [] names = pure names
  make_changes (c ∷ cs) names = do
    make_change c
    make_changes cs (if axfr_required c then add (domain_name c) names else names)

  -- `for name in axfr_required: pdns.axfr_to_master(name)`
  unfoldable pub request_transfers : List String → Action (Unit {0})
  unfolding perform pure ◌>>=◌
  request_transfers [] = pure tt
  request_transfers (name ∷ names) = do
    perform accepts (axfr_to_master name)
    request_transfers names

-- `_active_change_trackers`, and whether the handlers are connected to the signals
pub record Process : Type 0 where
  pub active : ℕ
  pub connected : Bool

-- `__enter__`: the count is raised before it is checked.
unfoldable pub enter : Process → Result TrackerError Tracker × Process
enter p =
    let p' = record p { active = p.active + 1 } in
    if nat_beq p'.active 1
    then (ok fresh, record p' { connected = true })
    else (err assertion_error, p')

pub data Transaction : Type 0 where
  open_ended committed rolled_back : Transaction

-- What leaves `__exit__`: `assertion` comes from `_compute_changes`, outside the `try`; `value_error`
-- is raised from what a change raised; `transfer` comes from the calls after the commit.
pub data ExitError : Type 0 where
  assertion : TrackerError → ExitError
  value_error : Failure → ExitError
  transfer : Failure → ExitError

pub record Outcome : Type 0 where
  pub result : Result ExitError (Unit {0})
  pub transaction : Transaction
  pub world : World
  pub process : Process

abbrev pub leave : Process → Process
leave p = record { active = p.active - 1; connected = false }

-- `__exit__` on an exception in the body: the transaction is left with it, and no call is made.
unfoldable pub exit_on_exception : Db → Process → List Call → Outcome
exit_on_exception before p log = record {
  result = ok tt;
  transaction = rolled_back;
  world = record { log = log; db = before };
  process = leave p;
}

-- `__exit__` behind the commit
unfoldable pub after_commit :
    List String → ℕ → Process → Result Failure (Unit {0}) × World → Outcome
unfolding publish
after_commit names now p (ok _, w) = record {
  result = ok tt;
  transaction = committed;
  world = record w { db = record w.db { domains = publish names now w.db.domains } };
  process = leave p;
}
after_commit names now p (err e, w) = record {
  result = err (transfer e);
  transaction = committed;
  world = w;
  process = leave p;
}

module _ (settings : Settings) (accepts : List Call → Call → Bool) (before : Db) where
  -- `__exit__` behind the loop; `before` is the database before the transaction
  unfoldable pub after_changes : ℕ → Process → Result Failure (List String) × World → Outcome
  unfolding after_commit request_transfers
  after_changes now p (ok names, w) =
      after_commit names now p (request_transfers settings accepts names w)
  after_changes now p (err e, w) = record {
    result = err (value_error e);
    transaction = rolled_back;
    world = record w { db = before };
    process = leave p;
  }

  -- `__exit__` when the body has raised nothing; `_compute_changes` may raise with the transaction
  -- still open
  unfoldable pub exit_with : ℕ → Process → Result TrackerError (List Change) → World → Outcome
  unfolding after_changes make_changes
  exit_with now p (err e) w = record {
    result = err (assertion e);
    transaction = open_ended;
    world = w;
    process = leave p;
  }
  exit_with now p (ok cs) w = after_changes now p (make_changes settings accepts cs [] w)

  unfoldable pub exit : ℕ → Process → Tracker → World → Outcome
  unfolding exit_with compute_changes
  exit now p t w = exit_with now p (compute_changes w.db t) w
