-- ===== src/Throttle.antt =====
-- throttling.py, `ScopedRatesThrottle.allow_request` and `throttle_success`: several rates for one key
-- of the cache. `Cache` is what the cache holds for it, the times of requests by the duration of the
-- rate, newest first; a missing entry is the empty list, as in the code. Times and durations are
-- numbers of seconds; an entry that the cache drops after the longest duration is all expired.
pub mod History
pub mod Windows
use desec_stack.Common.{
  ℕ, ◌+◌, Bool, true, false, ◌&&◌, Option, none, some, List, [], ◌∷◌, arith, leb, nat_beq,
  if◌then◌else◌, nat_eq, string_eq, pair_eq, length, any, is_empty,
}

-- the number of requests and the duration, from `parse_rate`
abbrev pub Rate : Type 0
Rate = ℕ × ℕ

abbrev pub Cache : Type 0
Cache = ℕ → List ℕ

-- `t <= now - duration`
abbrev pub is_expired : ℕ → ℕ → ℕ → Bool
is_expired now duration t = leb (t + duration) now

-- `while history and history[-1] <= now - duration: history.pop()`
unfoldable pub drop_old : ℕ → ℕ → List ℕ → List ℕ
drop_old now duration [] = []
drop_old now duration (t ∷ ts) =
    let rest = drop_old now duration ts in
    if is_empty rest && is_expired now duration t then [] else t ∷ rest

abbrev pub set_at : ℕ → List ℕ → Cache → Cache
set_at duration h histories d = if nat_beq d duration then h else histories d

-- The loop over the rates: none where one is exceeded.
unfoldable pub check : List Rate → ℕ → Cache → Option Cache
unfolding drop_old
check [] now histories = some histories
check ((num, duration) ∷ rates) now histories =
    let h = drop_old now duration (histories duration) in
    let rest = check rates now (set_at duration h histories) in
    if leb num (length h) then none else rest

abbrev pub is_duration : ℕ → List Rate → Bool
is_duration d rates = any (λ r. nat_beq d r.1) rates

-- `throttle_success`
unfoldable pub throttle_success : List Rate → ℕ → Cache → Cache → Cache
throttle_success rates now histories cache d =
    if is_duration d rates then now ∷ histories d else cache d

-- `allow_request` at the time `now`
unfoldable pub allow_request : List Rate → ℕ → Cache → Bool × Cache
unfolding check throttle_success
allow_request rates now cache = elim (check rates now cache) [
  | none ↦ (false, cache)
  | some histories ↦ (true, throttle_success rates now histories cache)
]
