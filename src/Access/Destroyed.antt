-- ===== src/Access/Destroyed.antt =====
-- views/domains.py `perform_destroy`: what is left of a domain that is deleted.
use desec_stack.Common.{
  ℕ, String, ◌≡◌, refl, sym, ap, ◌∙◌, inl, inr, Bool, true, false, not, some, List, [], ◌∷◌, ◌++◌,
  map, arith, Bool-cases, ◌==◌, nat_eq, string_eq, pair_eq, option_eq, Result, ok, err, ◌>>=◌,
  succeeds, >>=-eq-ok, Result-cases, passed, ok_same, keep, all, member,
}
use desec_stack.Db.{RRset, Item, Db, rrsets_at, the_only}
use desec_stack.Tracker.{
  Signal, TrackerError, Tracker, fresh, rr_deleted, rr_set_deleted, domain_deleted, receive_all,
}
use mathlib.Core.Path.{subst}
use desec_stack.Tracker.Invariant.{IsValid, fresh-IsValid, receive_all-IsValid}
use desec_stack.Tracker.Quiet.{is_quiet, receive_all-domain_additions}
use desec_stack.Context.Data.{Call}
use desec_stack.Context.Effects.{World}
use desec_stack.Context.{Process, enter, ExitError}
use desec_stack.Context.Rows.{exit-rrsets}
use desec_stack.Bulk.{Effect, delete_row}
use desec_stack.Delegation.{
  Child, DelegationError, partitioned_name, database, is_delegation, delete_rows, update_delegation,
  is_locally_registrable, auto_delegate,
}
use desec_stack.Delegation.Destroyed.{IsDestroyed, delete_domain-rows, auto_delegate-IsDestroyed}
use desec_stack.Access.Creation.{
  Site, Body, not_delegated, of_exit, leave_block, track, delegate_body,
}
use desec_stack.Access.Quota.{raising-ok}
use desec_stack.Access.Destruction.{content_signals, row_signals, delete_body, perform_destroy}

quiet_append :
    (xs ys : List Signal)
    → all is_quiet xs ≡ true
    → all is_quiet ys ≡ true
    → all is_quiet (xs ++ ys) ≡ true
quiet_append [] ys h k = k
quiet_append (x ∷ xs) ys h k = let rest = quiet_append xs ys (ground arith) k in ground arith

quiet_contents :
    {A : Type 0} (name : String) (i : Item) (contents : List A)
    → all is_quiet (map (λ c. rr_deleted (some (name, i))) contents) ≡ true
quiet_contents name i [] = refl
quiet_contents name i (c ∷ contents) = quiet_contents name i contents

content_signals-quiet : (rows : List RRset) → all is_quiet (content_signals rows) ≡ true
content_signals-quiet [] = refl
content_signals-quiet (r ∷ rows) =
    quiet_append (map (λ c. rr_deleted (some (r.domain, r.item))) r.records) (content_signals rows)
      (quiet_contents r.domain r.item r.records) (content_signals-quiet rows)

row_signals-quiet : (rows : List RRset) → all is_quiet (row_signals rows) ≡ true
row_signals-quiet [] = refl
row_signals-quiet (r ∷ rows) = row_signals-quiet rows

delete_rows-quiet : (rs : List RRset) (db : Db) → all is_quiet (delete_rows rs db).1 ≡ true
unfolding delete_rows delete_row
delete_rows-quiet [] db = refl
delete_rows-quiet (r ∷ rs) db =
    let contents = map (λ c. rr_deleted (some (r.domain, r.item))) r.records in
    let row = rr_set_deleted r.domain r.item ∷ [] in
    quiet_append (contents ++ row) (delete_rows rs (delete_row r db).0).1
      (quiet_append contents row (quiet_contents r.domain r.item r.records) refl)
      (delete_rows-quiet rs (delete_row r db).0)

update_delegation-quiet :
    (default_ns : List String) (parent : String) (child : Child) (db : Db) {e : Effect}
    → child.is_saved ≡ false
    → update_delegation default_ns parent child db ≡ ok e
    → all is_quiet e.1 ≡ true
unfolding update_delegation
update_delegation-quiet default_ns parent child db {e} unsaved h =
    let (subname, parent_name) = partitioned_name child.name in
    let (_, k) = passed (not (parent_name == some parent)) _ _ h in
    let deleted = delete_rows (keep (is_delegation parent subname) db.rrsets) db in
    let quiet = delete_rows-quiet (keep (is_delegation parent subname) db.rrsets) db in
    let same : ◌≡◌ {A = Result DelegationError Effect} (ok deleted) (ok e) = ground arith in
    ap (λ (x : Effect). all is_quiet x.1) (sym (ok_same same)) ∙ quiet

auto_delegate-quiet :
    (local_public_suffixes default_ns : List String) (child : Child) (db : Db) {e : Effect}
    → child.is_saved ≡ false
    → auto_delegate local_public_suffixes default_ns child db ≡ ok e
    → all is_quiet e.1 ≡ true
unfolding auto_delegate
auto_delegate-quiet locals default_ns child db {e} unsaved h =
    elim (Bool-cases (is_locally_registrable locals child.name)) [
      | inr f ↦
          (let done : ◌≡◌ {A = Result DelegationError Effect} (ok (db, [])) (ok e) = ground arith in
            ap (λ (x : Effect). all is_quiet x.1) (sym (ok_same done)))
      | inl f ↦
          (let query =
              the_only (keep (λ d. some d.name == (partitioned_name child.name).1) db.domains) in
            let given : (do
              parent ← database query
              update_delegation default_ns parent.name child db)
                ≡ ok e =
              ground arith in
            let (parent, _, k) = >>=-eq-ok (database query) _ given in
            update_delegation-quiet default_ns parent.name child db unsaved k)
    ]

of_exit-ok : (r : Result ExitError (Unit {0})) → of_exit r ≡ ok tt → r ≡ ok tt
of_exit-ok (ok tt) h = refl
of_exit-ok (err e) h = absurd (ground arith)

enter-fresh : (p : Process) {t : Tracker} → (enter p).0 ≡ ok t → t ≡ fresh
unfolding enter
enter-fresh p h = ground arith

module _ (site : Site) (accepts : List Call → Call → Bool) (now : ℕ) where
  leave_block-rrsets :
      (p : Process) (w : World) (db : Db) (xs : List Signal)
      (r : Result TrackerError (Unit {0}) × Tracker)
      → receive_all xs fresh ≡ r
      → all is_quiet xs ≡ true
      → (leave_block site accepts now p w db r).result ≡ ok tt
      → (leave_block site accepts now p w db r).world.db.rrsets ≡ db.rrsets
  unfolding leave_block member
  leave_block-rrsets p w db xs (err e, t) same quiet h = absurd (ground arith)
  leave_block-rrsets p w db xs (ok _, t) same quiet h =
      let done = ap (λ (r : Result TrackerError (Unit {0}) × Tracker). succeeds r.0) same in
      let trackers = ap (λ (r : Result TrackerError (Unit {0}) × Tracker). r.1) same in
      let valid = receive_all-IsValid xs fresh done fresh-IsValid in
      exit-rrsets site.tracking accepts w.db now p t (record w { db = db })
        (subst IsValid trackers valid)
        (λ n.
          ap (λ (x : Tracker). member n x.domain_additions) (sym trackers)
          ∙ receive_all-domain_additions xs fresh n quiet fresh-IsValid done refl)
        (of_exit-ok _ h)

  -- A block that adds no domain and ends without an exception leaves the RR sets of its body.
  track-rrsets :
      (body : Body) (p : Process) (w : World)
      → ((e : Effect) → body w.db ≡ ok e → all is_quiet e.1 ≡ true)
      → (track site accepts body now p w).result ≡ ok tt
      → (e : Effect) × (body w.db ≡ ok e)
        × ((track site accepts body now p w).world.db.rrsets ≡ e.0.rrsets)
  unfolding track
  track-rrsets body p w quiet h = elim (Result-cases (enter p).0) [
    | inr (e, f) ↦ (let failed = rw (f, track) at h in absurd (ground arith))
    | inl (t, f) ↦ elim (Result-cases (body w.db)) [
      | inr (e, g) ↦ (let failed = rw (f, g, track) at h in absurd (ground arith))
      | inl (e, g) ↦
          (let new = enter-fresh p f in
            let left : (leave_block site accepts now (enter p).1 w e.0 (receive_all e.1 t)).result
                ≡ ok tt =
              rw (f, g, track) at h in
            (
              e,
              g,
              rw (f, g, track)
                  (leave_block-rrsets (enter p).1 w e.0 e.1 (receive_all e.1 t)
                    (ap (receive_all e.1) (sym new)) (quiet e g) left),
            ))
    ]
  ]

  delete_body-rrsets :
      (name : String) (p : Process) (w : World)
      → (track site accepts (delete_body name) now p w).result ≡ ok tt
      → (i : Item)
      → rrsets_at name i (track site accepts (delete_body name) now p w).world.db.rrsets ≡ []
  unfolding delete_body
  delete_body-rrsets name p w h i =
      let rows = keep (λ (r : RRset). r.domain == name) w.db.rrsets in
      let (e, f, same) =
        track-rrsets (delete_body name) p w
          (λ e f.
            ap (λ (x : Effect). all is_quiet x.1) (sym (ok_same f))
            ∙ quiet_append (content_signals rows ++ row_signals rows) (domain_deleted name ∷ [])
                (quiet_append (content_signals rows) (row_signals rows) (content_signals-quiet rows)
                  (row_signals-quiet rows))
                refl)
          h in
      ap (rrsets_at name i) (same ∙ ap (λ (x : Effect). x.0.rrsets) (sym (ok_same f)))
      ∙ delete_domain-rows name w.db i

  -- Deleting a domain leaves, if it raises nothing, no RR set of it, and none of its delegation in the
  -- parent domain where it is below a local public suffix.
  pub perform_destroy-IsDestroyed :
      (child : Child) (p : Process) (w : World)
      → (perform_destroy site accepts now child p w).result ≡ ok tt
      → IsDestroyed site.local_public_suffixes child.name
          (perform_destroy site accepts now child p w).world.db.rrsets
  unfolding perform_destroy delete_body delegate_body
  perform_destroy-IsDestroyed child p w h =
      let locals = site.local_public_suffixes in
      let first = track site accepts (delete_body child.name) now p w in
      let gone = delete_body-rrsets child.name p w in
      elim (Result-cases first.result) [
        | inr (e, f) ↦ (let failed = rw (f, perform_destroy) at h in absurd (ground arith))
        | inl (u, f) ↦ elim (Bool-cases (is_locally_registrable locals child.name)) [
          | inr l ↦
              rw (f, l, perform_destroy)
                (record { rows = gone f; delegation = λ m. absurd (ground arith) })
          | inl l ↦
              (let unsaved = record child { is_saved = false } in
                let second : (track site accepts (delegate_body site unsaved) now first.process
                      first.world).result
                    ≡ ok tt =
                  rw (f, l, perform_destroy) at h in
                let (c, g, same) =
                  track-rrsets (delegate_body site unsaved) first.process first.world
                    (λ e i.
                      auto_delegate-quiet locals site.tracking.default_ns unsaved first.world.db
                        refl (raising-ok not_delegated _ i))
                    second in
                rw (f, l, perform_destroy)
                  (subst (IsDestroyed locals child.name) (sym same) (
                    auto_delegate-IsDestroyed locals site.tracking.default_ns unsaved first.world.db
                      refl (raising-ok not_delegated _ g) (gone f))))
        ]
      ]
