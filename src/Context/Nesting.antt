-- ===== src/Context/Nesting.antt =====
-- `_active_change_trackers`: entering a tracker within another one raises, and the count that it has
-- raised before is not lowered, since `__exit__` does not run for a failed `__enter__`.
use desec_stack.Common.{
  ℕ, zero, suc, ◌≤◌, ◌<◌, ◌≡◌, arith, nat_beq, nat_eq, string_eq, pair_eq, err, succeeds,
}
use desec_stack.Tracker.{assertion_error}
use desec_stack.Context.{Process, enter, leave}

-- A tracker can be entered exactly if none is active.
enter_lem : (p : Process) → succeeds (enter p).0 ≡ nat_beq p.active 0
unfolding enter
enter_lem p = ground arith

-- the process behind `n` further attempts to enter a tracker
pub attempts : ℕ → Process → Process
unfolding enter
attempts zero p = p
attempts (suc n) p = attempts n (enter p).1

active-attempts : (n : ℕ) (p : Process) → p.active ≤ (attempts n p).active
unfolding attempts enter
active-attempts zero p = omega arith
active-attempts (suc n) p = ground (arith, active-attempts n (enter p).1)

-- While a tracker is active, entering a second one raises; and when the first one is left, every later
-- attempt in this process raises too.
pub enter_nested :
    (p : Process)
    → 0 < p.active
    → ((enter p).0 ≡ err assertion_error)
      × ((n : ℕ) → (enter (attempts n (leave (enter p).1))).0 ≡ err assertion_error)
enter_nested p h = (fails p h, λ n. fails _ (positive n))
  where
    fails : (q : Process) → 0 < q.active → (enter q).0 ≡ err assertion_error
    fails q k = unfold enter in ground arith

    positive : (n : ℕ) → 0 < (attempts n (leave (enter p).1)).active
    positive n = unfold enter in grind (arith, active-attempts n (leave (enter p).1))
