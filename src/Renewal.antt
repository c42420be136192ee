-- ===== src/Renewal.antt =====
-- management/commands/scavenge-unused.py: what the daily run does to a domain that may have fallen out
-- of use. The four phases filter the domains one by one, so a domain is followed on its own. `date`
-- stands for the local date of a time, as a number of days; times are numbers of seconds. A notice is
-- the message that the owner gets, which is sent with the change of the state or neither is kept.
pub mod Notices
use desec_stack.Common.{
  ℕ, ◌+◌, ◌-◌, Bool, true, false, not, ◌&&◌, Option, none, some, List, ◌∷◌, arith, ltb, leb,
  if◌then◌else◌, nat_eq, string_eq, pair_eq,
}

-- `Domain.RenewalState`
pub data RenewalState : Type 0 where
  immortal fresh notified warned : RenewalState

-- The fields that the queries read; `touched` is the latest one of the domain's RR sets.
pub record Row : Type 0 where
  pub renewal_state : RenewalState
  pub renewal_changed : ℕ
  pub touched : Option ℕ
  pub published : Option ℕ
  pub owner_is_active : Bool

pub record Notice : Type 0 where
  pub state : RenewalState
  pub sent : ℕ

-- `Greatest(max_touched, "published")`, where nulls are left out
abbrev pub greatest : Option ℕ → Option ℕ → Option ℕ
greatest none b = b
greatest (some a) none = some a
greatest (some a) (some b) = if leb a b then some b else some a

abbrev pub last_active : Row → Option ℕ
last_active r = greatest r.touched r.published

abbrev pub is_immortal : RenewalState → Bool
is_immortal s = elim s [ immortal ↦ true | fresh ↦ false | notified ↦ false | warned ↦ false ]

abbrev pub is_fresh : RenewalState → Bool
is_fresh s = elim s [ immortal ↦ false | fresh ↦ true | notified ↦ false | warned ↦ false ]

abbrev pub is_notified : RenewalState → Bool
is_notified s = elim s [ immortal ↦ false | fresh ↦ false | notified ↦ true | warned ↦ false ]

abbrev pub is_warned : RenewalState → Bool
is_warned s = elim s [ immortal ↦ false | fresh ↦ false | notified ↦ false | warned ↦ true ]

-- `base_queryset`
abbrev pub in_base : Row → Bool
in_base r = not (is_immortal r.renewal_state) && r.owner_is_active

abbrev pub fresh_days : ℕ
fresh_days = 183

abbrev pub notice_days_notify : ℕ
notice_days_notify = 28

abbrev pub notice_days_warn : ℕ
notice_days_warn = 7

-- A domain, or what is known of it when it has been deleted, with the notices, newest first.
pub data Fate : Type 0 where
  alive : Row → List Notice → Fate
  deleted : ℕ → Row → List Notice → Fate

module _ (date : ℕ → ℕ) where
  -- `renew_touched_domains`
  unfoldable pub renew_touched : ℕ → Row → Row
  renew_touched now r = elim (last_active r) [
    | none ↦ r
    | some active ↦
        if in_base r && leb (date now) (date active + 183) && ltb r.renewal_changed active
        then record r { renewal_state = fresh; renewal_changed = active }
        else r
  ]

  -- `warn_domain_deletion` of the domains for which the test holds, with the state that follows
  unfoldable pub warn_domain_deletion :
      (RenewalState → Bool) → RenewalState → ℕ → ℕ → Row → List Notice → Row × List Notice
  warn_domain_deletion in_state next inactive_days now r notices =
      if in_base r
        && in_state r.renewal_state
        && leb (date r.renewal_changed + inactive_days) (date now)
      then (
        record r { renewal_state = next; renewal_changed = now },
        record { state = next; sent = now } ∷ notices,
      )
      else (r, notices)

  -- the filter of `delete_domains`
  unfoldable pub is_deletable : ℕ → ℕ → Row → Bool
  is_deletable inactive_days now r = elim (last_active r) [
    | none ↦ false
    | some active ↦
        in_base r
        && is_warned r.renewal_state
        && leb (date r.renewal_changed + notice_days_warn) (date now)
        && leb (date active + inactive_days) (date now)
  ]

  -- `handle`
  unfoldable pub handle : ℕ → Row → List Notice → Fate
  unfolding renew_touched warn_domain_deletion is_deletable
  handle now r notices =
      let renewed = renew_touched now r in
      let first = warn_domain_deletion is_fresh notified fresh_days now renewed notices in
      let second =
        warn_domain_deletion is_notified warned (notice_days_notify - notice_days_warn) now first.0
          first.1 in
      if is_deletable (fresh_days + notice_days_notify) now second.0
      then deleted now second.0 second.1
      else alive second.0 second.1
