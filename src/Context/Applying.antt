-- ===== src/Context/Applying.antt =====
-- The calls that the loop of `__exit__` makes, and the domains that it collects.
use mathlib.Core.List.{append-nil, append_assoc}
use desec_stack.Common.{
  String, ◌≡◌, refl, sym, Bool, true, false, ◌&&◌, ◌||◌, List, [], ◌∷◌, ◌++◌, arith, if◌then◌else◌,
  ◌==◌, nat_eq, string_eq, pair_eq, Result, ok, any, any-append, In, In-append_left, member, add,
  member-add,
}
use desec_stack.Db.{Db, DbError}
use desec_stack.Changes.{Change, create_domain, delete_domain, update_rr_sets}
use desec_stack.Context.Data.{RRsetData, Call, axfr_to_master, Settings, axfr_required, domain_name}
use desec_stack.Context.Effects.{
  World, Action, ◌>>=◌, pure, query, write_db, perform, Within, Within-pure, Within-query,
  Within-bind, Within-if, >>=-returns,
}
use desec_stack.Context.{send_data, pdns_do, api_do, pch_do, make_change, make_changes}

abbrev pub is_transfer : Call → Bool
is_transfer (axfr_to_master name) = true
is_transfer _ = false

-- Calls have been added to the log, and none of them asks for a zone transfer.
pub record Grows (w v : World) : Type 0 where
  pub calls : List Call
  pub log_eq : v.log ≡ w.log ++ calls
  pub no_transfer : any is_transfer calls ≡ false

Grows-refl : (w : World) → Grows w w
Grows-refl w = record { calls = []; log_eq = sym (append-nil w.log); no_transfer = refl }

Grows-trans : (u v w : World) → Grows u v → Grows v w → Grows u w
Grows-trans u v w g h = record {
  calls = g.calls ++ h.calls;
  log_eq = rw (h.log_eq, g.log_eq) (append_assoc u.log g.calls h.calls);
  no_transfer =
      ground (arith, any-append is_transfer g.calls h.calls, g.no_transfer, h.no_transfer);
}

pub In-Grows : (c : Call) (w v : World) → Grows w v → In c w.log → In c v.log
In-Grows c w v g h = rw g.log_eq (In-append_left c w.log g.calls h)

write_db-Grows : (db : Db) → Within Grows (write_db db)
unfolding write_db
write_db-Grows db = record {
  at = λ w. record { calls = []; log_eq = sym (append-nil w.log); no_transfer = refl };
}

pure-Grows : {A : Type 0} (a : A) → Within Grows (pure a)
pure-Grows = Within-pure Grows-refl

query-Grows : {A : Type 0} (f : Db → Result DbError A) → Within Grows (query f)
query-Grows = Within-query Grows-refl

bind-Grows :
    {A B : Type 0} (m : Action A) (f : A → Action B)
    → Within Grows m
    → ((a : A) → Within Grows (f a))
    → Within Grows (m >>= f)
bind-Grows = Within-bind Grows-trans

module _ (settings : Settings) (accepts : List Call → Call → Bool) where
  pub perform-log :
      (c : Call) (w : World) → (perform accepts c w).1 ≡ record w { log = w.log ++ c ∷ [] }
  unfolding perform
  perform-log c w = ground arith

  perform-Grows : (c : Call) → is_transfer c ≡ false → Within Grows (perform accepts c)
  perform-Grows c h = record {
    at = λ w. rw perform-log (record { calls = c ∷ []; log_eq = refl; no_transfer = ground arith });
  }

  send_data-Grows :
      (name : String) (xs : List RRsetData) → Within Grows (send_data settings accepts name xs)
  unfolding send_data
  send_data-Grows name [] = pure-Grows tt
  send_data-Grows name (x ∷ xs) = perform-Grows _ refl

  ruleset growing = (
    pure-Grows, query-Grows, bind-Grows, Within-if, write_db-Grows, perform-Grows, send_data-Grows,
  )

  pdns_do-Grows : (c : Change) → Within Grows (pdns_do settings accepts c)
  unfolding pdns_do
  pdns_do-Grows (create_domain name) = search growing
  pdns_do-Grows (delete_domain name) = search growing
  pdns_do-Grows (update_rr_sets name a m d) = search growing

  api_do-Grows : (c : Change) → Within Grows (api_do settings accepts c)
  unfolding api_do
  api_do-Grows (create_domain name) = search growing
  api_do-Grows _ = search growing

  pch_do-Grows : (c : Change) → Within Grows (pch_do settings accepts c)
  unfolding pch_do
  pch_do-Grows (create_domain name) = search growing
  pch_do-Grows _ = search growing

  -- a change behind its `pdns_do`
  abbrev pub finish : Change → Action (Unit {0})
  finish c = api_do settings accepts c >>= λ _.
      if settings.pch_enabled then pch_do settings accepts c else pure tt

  pub finish-Grows : (c : Change) → Within Grows (finish c)
  finish-Grows c = search (growing, api_do-Grows, pch_do-Grows)

  make_change-Grows : (c : Change) → Within Grows (make_change settings accepts c)
  unfolding make_change
  make_change-Grows c = search (growing, pdns_do-Grows, api_do-Grows, pch_do-Grows)

  -- The loop adds calls to the log, and no zone transfer.
  pub make_changes-Grows :
      (cs : List Change) (names : List String)
      → Within Grows (make_changes settings accepts cs names)
  unfolding make_changes
  make_changes-Grows [] names = pure-Grows names
  make_changes-Grows (c ∷ cs) names =
      bind-Grows _ _ (make_change-Grows c) (λ _. make_changes-Grows cs _)

  -- If the loop ends, the set `axfr_required` has the domains of the changes that require it.
  pub make_changes-names :
      (cs : List Change) (names : List String) (w : World) {names' : List String}
      → (make_changes settings accepts cs names w).0 ≡ ok names'
      → (n : String)
      → member n names' ≡ (member n names || any (λ c. axfr_required c && n == domain_name c) cs)
  unfolding make_changes pure
  make_changes-names [] names w h n = ground arith
  make_changes-names (c ∷ cs) names w h n =
      let (a, e, f, g) = >>=-returns (make_change settings accepts c) _ w h in
      ground (
        arith,
        make_changes-names cs (if axfr_required c then add (domain_name c) names else names)
            (make_change settings accepts c w).1 f n,
        member-add n (domain_name c) names,
      )
