-- ===== src/Samples/Throttling.antt =====
-- Requests against two rates.
use desec_stack.Common.{
  ℕ, ◌≤◌, ◌≡◌, refl, inl, inr, List, [], ◌∷◌, arith, nat_eq, string_eq, pair_eq,
}
use desec_stack.Throttle.{Rate, allow_request}
use desec_stack.Throttle.History.{count}
use desec_stack.Throttle.Windows.{within, allowed, allowed-within}

-- two in ten seconds, three in a minute
abbrev sample_rates : List Rate
sample_rates = (2, 10) ∷ (3, 60) ∷ []

abbrev sample_times : List ℕ
sample_times = 100 ∷ 105 ∷ 109 ∷ 110 ∷ 130 ∷ 160 ∷ []

-- The request at 109 exceeds the first rate, the one at 130 the second one; neither is counted.
runs : allowed sample_rates sample_times (λ d. []) [] ≡ 160 ∷ 110 ∷ 105 ∷ 100 ∷ []
unfolding allowed allow_request
runs = refl

allowed-within_example : count (within 105 60) (allowed sample_rates sample_times (λ d. []) []) ≤ 3
allowed-within_example =
    allowed-within sample_rates (3, 60) sample_times 105 (inr (inl refl))
      (omega arith, (omega arith, (omega arith, (omega arith, (omega arith, (omega arith, tt))))))
