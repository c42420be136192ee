-- ===== src/Renewal/Notices.antt =====
-- No domain is deleted without two notices in time.
use desec_stack.Common.{
  ℕ, ◌+◌, ◌≤◌, ◌≡◌, refl, Bool, true, false, ◌&&◌, Option, none, some, List, [], ◌∷◌, arith, ltb,
  leb, if◌then◌else◌, nat_eq, string_eq, pair_eq,
}
use desec_stack.Renewal.{
  RenewalState, fresh, notified, warned, Row, Notice, last_active, is_fresh, is_notified, is_warned,
  in_base, Fate, alive, deleted, renew_touched, warn_domain_deletion, is_deletable, handle,
}

-- What happens to a domain: the daily run at a time, its owner touches it, or confirms at a time that
-- it is to be kept (`AuthenticatedRenewDomainBasicUserAction._act`).
pub data Event : Type 0 where
  run : ℕ → Event
  activity : (touched published : Option ℕ) (owner_is_active : Bool) → Event
  renewal : ℕ → Event

module _ (date : ℕ → ℕ) where
  -- The notices that a state rests on: one for a domain that has been notified, and another one at
  -- least 21 days later for one that has been warned.
  pub data Rests : RenewalState → ℕ → List Notice → Type 0 where
    no_claim :
        {changed : ℕ} {notices : List Notice} (s : RenewalState)
        → is_notified s ≡ false
        → is_warned s ≡ false
        → Rests s changed notices
    once :
        {older : List Notice} (changed : ℕ)
        → Rests notified changed (record { state = notified; sent = changed } ∷ older)
    twice :
        {older : List Notice} (first changed : ℕ)
        → date first + 21 ≤ date changed
        → Rests warned changed (
            record { state = warned; sent = changed }
            ∷ record { state = notified; sent = first }
            ∷ older)

  abbrev RowRests : Row → List Notice → Type 0
  RowRests r notices = Rests r.renewal_state r.renewal_changed notices

  renew_touched-Rests :
      (now : ℕ) (r : Row) (notices : List Notice)
      → RowRests r notices
      → RowRests (renew_touched date now r) notices
  unfolding renew_touched
  renew_touched-Rests now r notices v = split (last_active r)
    where
      by_test :
          (b : Bool) (active : ℕ)
          → RowRests
              (if b then record r { renewal_state = fresh; renewal_changed = active } else r)
              notices
      by_test true active = no_claim fresh refl refl
      by_test false active = v

      split :
          (o : Option ℕ)
          → RowRests
              (elim o [
                | none ↦ r
                | some active ↦
                    if in_base r
                      && leb (date now) (date active + 183)
                      && ltb r.renewal_changed active
                    then record r { renewal_state = fresh; renewal_changed = active }
                    else r
              ])
              notices
      split none = v
      split (some active) =
          by_test (in_base r && leb (date now) (date active + 183) && ltb r.renewal_changed active)
            active

  notify-Rests :
      (days now : ℕ) (r : Row) (notices : List Notice)
      → RowRests r notices
      → RowRests
          (warn_domain_deletion date is_fresh notified days now r notices).0
          (warn_domain_deletion date is_fresh notified days now r notices).1
  unfolding warn_domain_deletion
  notify-Rests days now r notices v =
      split
        (in_base r && is_fresh r.renewal_state && leb (date r.renewal_changed + days) (date now))
    where
      split :
          (b : Bool)
          → let p : Row × List Notice =
              (if b
                then (
                  record r { renewal_state = notified; renewal_changed = now },
                  record { state = notified; sent = now } ∷ notices,
                )
                else (r, notices)) in
            RowRests p.0 p.1
      split true = once now
      split false = v

  warn-Rests :
      (now : ℕ) (r : Row) (notices : List Notice)
      → RowRests r notices
      → RowRests
          (warn_domain_deletion date is_notified warned 21 now r notices).0
          (warn_domain_deletion date is_notified warned 21 now r notices).1
  unfolding warn_domain_deletion
  warn-Rests now r notices v =
      split
        (in_base r && is_notified r.renewal_state && leb (date r.renewal_changed + 21) (date now))
        refl
    where
      after_notice :
          (s : RenewalState) (changed : ℕ) (ns : List Notice)
          → Rests s changed ns
          → is_notified s ≡ true
          → date changed + 21 ≤ date now
          → Rests warned now (record { state = warned; sent = now } ∷ ns)
      after_notice s changed ns (no_claim z a b) h l = absurd (ground arith)
      after_notice notified changed ns (once z) h l = twice changed now l
      after_notice warned changed ns (twice first z e) h l = absurd (ground arith)

      split :
          (b : Bool)
          → (in_base r
              && is_notified r.renewal_state
              && leb (date r.renewal_changed + 21) (date now))
            ≡ b
          → let p : Row × List Notice =
              (if b
                then (
                  record r { renewal_state = warned; renewal_changed = now },
                  record { state = warned; sent = now } ∷ notices,
                )
                else (r, notices)) in
            RowRests p.0 p.1
      split true e =
          after_notice r.renewal_state r.renewal_changed notices v (ground arith) (ground arith)
      split false e = v

  -- What has come before a deletion at the time `now`.
  pub record IsForewarned (now : ℕ) (r : Row) (notices : List Notice) : Type 0 where
    pub first : ℕ
    pub second : ℕ
    pub older : List Notice
    pub sent :
        notices
        ≡ record { state = warned; sent = second }
          ∷ record { state = notified; sent = first }
          ∷ older
    pub three_weeks : date first + 21 ≤ date second
    pub one_week : date second + 7 ≤ date now
    pub active : ℕ
    pub last : last_active r ≡ some active
    pub inactive : date active + 211 ≤ date now
    pub owner : r.owner_is_active ≡ true

  is_deletable-IsForewarned :
      (now : ℕ) (r : Row) (notices : List Notice)
      → RowRests r notices
      → is_deletable date 211 now r ≡ true
      → IsForewarned now r notices
  unfolding is_deletable
  is_deletable-IsForewarned now r notices v h = split (last_active r) refl h
    where
      of_warned :
          (active : ℕ)
          → last_active r ≡ some active
          → date active + 211 ≤ date now
          → r.owner_is_active ≡ true
          → (s : RenewalState) (changed : ℕ) (ns : List Notice) → Rests s changed ns
          → is_warned s ≡ true
          → date changed + 7 ≤ date now
          → IsForewarned now r ns
      of_warned active e l o s changed ns (no_claim z a b) w d = absurd (ground arith)
      of_warned active e l o notified changed ns (once z) w d = absurd (ground arith)
      of_warned active e l o warned changed ns (twice {older} first z k) w d = record {
        first = first;
        second = changed;
        older = older;
        sent = refl;
        three_weeks = k;
        one_week = d;
        active = active;
        last = e;
        inactive = l;
        owner = o;
      }

      split :
          (o : Option ℕ)
          → last_active r ≡ o
          → elim o [
            | none ↦ false
            | some active ↦
                in_base r
                && is_warned r.renewal_state
                && leb (date r.renewal_changed + 7) (date now)
                && leb (date active + 211) (date now)
          ]
            ≡ true
          → IsForewarned now r notices
      split none e k = absurd (ground arith)
      split (some active) e k =
          of_warned active e (ground arith) (ground arith) r.renewal_state r.renewal_changed notices
            v (ground arith) (ground arith)

  -- What a run leaves, or what it has deleted.
  abbrev pub FateRests : Fate → Type 0
  FateRests (alive r notices) = RowRests r notices
  FateRests (deleted now r notices) = IsForewarned now r notices

  handle-FateRests :
      (now : ℕ) (r : Row) (notices : List Notice)
      → RowRests r notices
      → FateRests (handle date now r notices)
  unfolding handle
  handle-FateRests now r notices v =
      let renewed = renew_touched-Rests now r notices v in
      let first = notify-Rests 183 now (renew_touched date now r) notices renewed in
      let p =
        warn_domain_deletion date is_fresh notified 183 now (renew_touched date now r) notices in
      let second = warn-Rests now p.0 p.1 first in
      let q = warn_domain_deletion date is_notified warned 21 now p.0 p.1 in
      split (is_deletable date 211 now q.0) q (is_deletable-IsForewarned now q.0 q.1 second) second
    where
      split :
          (b : Bool) (q : Row × List Notice)
          → (b ≡ true → IsForewarned now q.0 q.1)
          → RowRests q.0 q.1
          → FateRests (if b then deleted now q.0 q.1 else alive q.0 q.1)
      split true q f w = f refl
      split false q f w = w

  -- The life of a domain, up to its deletion.
  unfoldable pub lives : List Event → Row → List Notice → Fate
  unfolding handle
  lives [] r notices = alive r notices
  lives (run now ∷ events) r notices = elim (handle date now r notices) [
    | alive s more ↦ lives events s more
    | deleted t s more ↦ deleted t s more
  ]
  lives (activity touched published owner_is_active ∷ events) r notices =
      lives events
        (record r { touched = touched; published = published; owner_is_active = owner_is_active })
        notices
  lives (renewal now ∷ events) r notices =
      lives events (record r { renewal_state = fresh; renewal_changed = now }) notices

  -- A domain that the daily runs delete, whenever they ran and whatever its owner did in between,
  -- activity and confirmed renewals, has had a first notice, a second one at least 21 days later and
  -- 7 days before the deletion, and has not been active for 211 days; its owner is active. This holds for any domain whose state has come about
  -- by notices, such as one that is fresh.
  pub lives-FateRests :
      (events : List Event) (r : Row) (notices : List Notice)
      → RowRests r notices
      → FateRests (lives events r notices)
  unfolding lives
  lives-FateRests [] r notices v = v
  lives-FateRests (run now ∷ events) r notices v =
      split (handle date now r notices) (handle-FateRests now r notices v)
        (λ s more w. lives-FateRests events s more w)
    where
      split :
          (f : Fate)
          → FateRests f
          → ((s : Row) (more : List Notice) → RowRests s more → FateRests (lives events s more))
          → FateRests
              (elim f [ alive s more ↦ lives events s more | deleted t s more ↦ deleted t s more ])
      split (alive s more) w rest = rest s more w
      split (deleted t s more) w rest = w
  lives-FateRests (activity touched published owner_is_active ∷ events) r notices v =
      lives-FateRests events
        (record r { touched = touched; published = published; owner_is_active = owner_is_active })
        notices v
  lives-FateRests (renewal now ∷ events) r notices v =
      lives-FateRests events (record r { renewal_state = fresh; renewal_changed = now }) notices
        (no_claim fresh refl refl)
