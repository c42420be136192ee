-- ===== src/Samples/Renewals.antt =====
-- A domain that falls out of use, with days of 10 seconds.
use desec_stack.Common.{
  ℕ, ◌/◌, ◌≡◌, refl, true, none, some, List, [], ◌∷◌, nat_eq, string_eq, pair_eq,
}
use desec_stack.Renewal.{fresh, notified, warned, Row, Notice, alive, deleted, handle}
use desec_stack.Renewal.Notices.{
  Event, run, activity, renewal, no_claim, FateRests, lives, lives-FateRests,
}

abbrev sample_date : ℕ → ℕ
sample_date now = now / 10

abbrev unused : Row
unused = record {
  renewal_state = fresh;
  renewal_changed = 0;
  touched = some 0;
  published = none;
  owner_is_active = true;
}

abbrev runs : List Event
runs = run 1830 ∷ run 2030 ∷ run 2040 ∷ run 2100 ∷ run 2110 ∷ []

abbrev expected : List Notice
expected = record { state = warned; sent = 2040 } ∷ record { state = notified; sent = 1830 } ∷ []

is_lost :
    lives sample_date runs unused []
    ≡ deleted 2110 (record unused { renewal_state = warned; renewal_changed = 2040 }) expected
unfolding lives handle
is_lost = refl

is_renewed :
    lives sample_date (run 1830 ∷ activity (some 1900) none true ∷ run 2040 ∷ []) unused []
    ≡ alive
        (record unused { renewal_changed = 1900; touched = some 1900 })
        (record { state = notified; sent = 1830 } ∷ [])
unfolding lives handle
is_renewed = refl

-- the owner confirms after the second notice
is_confirmed :
    lives sample_date (run 1830 ∷ run 2040 ∷ renewal 2050 ∷ run 2110 ∷ []) unused []
    ≡ alive (record unused { renewal_changed = 2050 }) expected
unfolding lives handle
is_confirmed = refl

lives-FateRests_example : FateRests sample_date (lives sample_date runs unused [])
lives-FateRests_example = lives-FateRests sample_date runs unused [] (no_claim fresh refl refl)
