-- ===== src/Throttle/Windows.antt =====
-- How many requests the throttle allows in any stretch of time.
use desec_stack.Common.{
  ℕ, ◌+◌, ◌≤◌, ◌<◌, ◌≡◌, refl, sym, ap, inl, inr, Bool, true, false, ◌&&◌, Option, none, some, List,
  [], ◌∷◌, ◌++◌, arith, ltb, leb, nat_beq, nat_beq_iff, if◌then◌else◌, nat_eq, string_eq, pair_eq,
  length, keep, length-append, length-keep-le, In, any-In,
}
use desec_stack.Throttle.{Rate, Cache, drop_old, set_at, check, throttle_success, allow_request}
use desec_stack.Throttle.History.{
  count, count_mono, is_recent, count-append, none_recent, Covers, Covers-later, drop_old-Covers,
  Covers-trans,
}

abbrev value : Option Cache → Cache
value none d = []
value (some histories) d = histories d

-- What the loop makes of the history of each duration, when it denies nothing.
record IsChecked (rates : List Rate) (now : ℕ) (before after : Cache) : Type 0 where
  covers : (d : ℕ) → Covers now d (before d) (after d)
  below : (r : Rate) → In r rates → length (after r.1) < r.0

Covers-refl : (now d : ℕ) (log : List ℕ) → Covers now d log log
Covers-refl now d log = record { older = []; whole = sym (append_nil log); expired = refl }
  where
    append_nil : (xs : List ℕ) → xs ++ [] ≡ xs
    append_nil [] = refl
    append_nil (x ∷ xs) = ap (λ ys. x ∷ ys) (append_nil xs)

set_at-Covers :
    (now duration d : ℕ) (histories : Cache)
    → Covers now d
        (histories d)
        (set_at duration (drop_old now duration (histories duration)) histories d)
set_at-Covers now duration d histories = split (nat_beq d duration) refl
  where
    split :
        (b : Bool)
        → nat_beq d duration ≡ b
        → Covers now d
            (histories d)
            (if b then drop_old now duration (histories duration) else histories d)
    split true e =
        let z : d ≡ duration = (nat_beq_iff d duration).0 e in
        rw z (drop_old-Covers now duration (histories duration))
    split false e = Covers-refl now d (histories d)

Covers-length :
    (now d : ℕ) (log history : List ℕ) → Covers now d log history → length history ≤ length log
Covers-length now d log history v = omega (arith, ap length v.whole, length-append history v.older)

passed :
    {A : Type 0} (b : Bool) (o : Option A) {a : A}
    → b ≡ false
    → (if b then none else o) ≡ some a
    → o ≡ some a
passed true o e h = absurd (ground arith)
passed false o e h = h

check-IsChecked :
    (rates : List Rate) (now : ℕ) (before after : Cache)
    → check rates now before ≡ some after
    → IsChecked rates now before after
unfolding check
check-IsChecked [] now before after h = record {
  covers = λ d. rw (← (ap (λ o. value o d) h)) (Covers-refl now d (before d));
  below = λ r i. absurd i;
}
check-IsChecked ((num, duration) ∷ rates) now before after h =
    split (leb num (length (drop_old now duration (before duration)))) refl (
      check-IsChecked rates now (set_at duration (drop_old now duration (before duration)) before)
        after)
  where
    first : Cache
    first = set_at duration (drop_old now duration (before duration)) before

    here : first duration ≡ drop_old now duration (before duration)
    here = ground (arith, nat_beq_iff duration duration)

    split :
        (b : Bool)
        → leb num (length (drop_old now duration (before duration))) ≡ b
        → (check rates now first ≡ some after → IsChecked rates now first after)
        → IsChecked ((num, duration) ∷ rates) now before after
    split true e ih = absurd (ground arith)
    split false e ih =
        let v = ih (passed _ (check rates now first) e h) in
        record {
          covers = λ d.
              Covers-trans now d (before d) (first d) (after d)
                (set_at-Covers now duration d before) (v.covers d);
          below = λ r i. below_first v r i;
        }
      where
        below_first :
            IsChecked rates now first after
            → (r : Rate) → In r ((num, duration) ∷ rates)
            → length (after r.1) < r.0
        below_first v r (inl z) =
            (let short =
                Covers-length now duration (first duration) (after duration) (v.covers duration) in
              let b : length (drop_old now duration (before duration)) < num = ground arith in
              let c : length (after duration) < num = omega (arith, short, ap length here, b) in
              rw z c)
        below_first v r (inr i) = v.below r i

-- The times of the requests that are allowed, newest first, for requests at the given times, oldest
-- first.
unfoldable pub allowed : List Rate → List ℕ → Cache → List ℕ → List ℕ
unfolding allow_request
allowed rates [] cache log = log
allowed rates (now ∷ times) cache log =
    let (granted, behind) = allow_request rates now cache in
    let on = allowed rates times behind (now ∷ log) in
    let off = allowed rates times behind log in if granted then on else off

-- Times that do not decrease, none before the given one.
abbrev pub IsOrdered : ℕ → List ℕ → Type 0
IsOrdered start [] = Unit {0}
IsOrdered start (t ∷ ts) = (start ≤ t) × IsOrdered t ts

-- At each allowed request, the ones before it that still count are fewer than the rate allows.
abbrev Spaced : Rate → List ℕ → Type 0
Spaced r [] = Unit {0}
Spaced r (t ∷ log) = (count (is_recent t r.1) log < r.0) × Spaced r log

-- the requests from `start` on, for as long as the duration
abbrev pub within : ℕ → ℕ → ℕ → Bool
within start duration t = leb start t && ltb t (start + duration)

Spaced-within :
    (r : Rate) (start : ℕ) (log : List ℕ) → Spaced r log → count (within start r.1) log ≤ r.0
unfolding keep
Spaced-within r start [] s = omega arith
Spaced-within r start (t ∷ log) s = split (within start r.1 t) refl (Spaced-within r start log s.1)
  where
    recent :
        within start r.1 t ≡ true → (x : ℕ) → within start r.1 x ≡ true → is_recent t r.1 x ≡ true
    recent h x k = ground arith

    split :
        (b : Bool)
        → within start r.1 t ≡ b
        → count (within start r.1) log ≤ r.0
        → length (if b then t ∷ keep (within start r.1) log else keep (within start r.1) log) ≤ r.0
    split true e ih =
        omega (arith, count_mono (within start r.1) (is_recent t r.1) log (recent e), s.0)
    split false e ih = ih

count_below :
    (r : Rate) (now : ℕ) (log history : List ℕ)
    → Covers now r.1 log history
    → length history < r.0
    → count (is_recent now r.1) log < r.0
count_below r now log history v l =
    let a = count-append (is_recent now r.1) history v.older in
    let b = none_recent now r.1 v.older v.expired in
    let c = length-keep-le (is_recent now r.1) history in
    omega (arith, ap (count (is_recent now r.1)) v.whole, a, b, c, l)

throttle_success-Covers :
    (rates : List Rate) (r : Rate) (now : ℕ) (log : List ℕ) (histories cache : Cache)
    → In r rates
    → Covers now r.1 log (histories r.1)
    → Covers now r.1 (now ∷ log) (throttle_success rates now histories cache r.1)
unfolding throttle_success
throttle_success-Covers rates r now log histories cache i v =
    rw (any-In (λ s. nat_beq r.1 s.1) r rates i ((nat_beq_iff r.1 r.1).1 refl))
      (record { older = v.older; whole = ap (λ xs. now ∷ xs) v.whole; expired = v.expired })

allowed-Spaced :
    (rates : List Rate) (r : Rate)
    → In r rates
    → (times : List ℕ) (start : ℕ) (cache : Cache) (log : List ℕ) → IsOrdered start times
    → Covers start r.1 log (cache r.1)
    → Spaced r log
    → Spaced r (allowed rates times cache log)
unfolding allowed allow_request
allowed-Spaced rates r i [] start cache log o v s = s
allowed-Spaced rates r i (now ∷ times) start cache log o v s =
    split (check rates now cache) refl (λ c l w x. allowed-Spaced rates r i times now c l o.1 w x)
  where
    here : Covers now r.1 log (cache r.1)
    here = Covers-later start now r.1 log (cache r.1) o.0 v

    answer : Option Cache → Bool × Cache
    answer found = elim found [
      | none ↦ (false, cache)
      | some histories ↦ (true, throttle_success rates now histories cache)
    ]

    split :
        (found : Option Cache)
        → check rates now cache ≡ found
        → ((c : Cache) (l : List ℕ)
            → Covers now r.1 l (c r.1)
            → Spaced r l
            → Spaced r (allowed rates times c l))
        → Spaced r (
            if (answer found).0
            then allowed rates times (answer found).1 (now ∷ log)
            else allowed rates times (answer found).1 log)
    split none e ih = ih cache log here s
    split (some histories) e ih =
        let c = check-IsChecked rates now cache histories e in
        let w = Covers-trans now r.1 log (cache r.1) (histories r.1) here (c.covers r.1) in
        ih (throttle_success rates now histories cache) (now ∷ log)
          (throttle_success-Covers rates r now log histories cache i w)
          (count_below r now log (histories r.1) w (c.below r i), s)

-- For requests at times that do not decrease, against an empty cache: in no stretch of time as long as
-- a rate's duration, from its first moment on, are more requests allowed than the rate says, whatever
-- the other rates are.
pub allowed-within :
    (rates : List Rate) (r : Rate) (times : List ℕ) (start : ℕ)
    → In r rates
    → IsOrdered 0 times
    → count (within start r.1) (allowed rates times (λ d. []) []) ≤ r.0
allowed-within rates r times start i o =
    Spaced-within r start (allowed rates times (λ d. []) [])
      (allowed-Spaced rates r i times 0 (λ d. []) [] o (Covers-refl 0 r.1 []) tt)
