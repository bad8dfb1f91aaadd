-- ===== src/Smartd/Schedule/Rounds.antt =====
-- The search over the hours ends, and what it finds.
use smartmontools.Common.{ℕ, zero, suc, refl, inl, inr, Bool, true, none, List, arith, leb}
use smartmontools.Common.{Bool-cases, ◌+◌, ◌*◌, ◌≤◌, ◌≡◌, ◌||◌, ◌==◌}
use Prim.Native.Nat.{min}
use smartmontools.Smartd.State.{DevState, DevConfig}
use smartmontools.Smartd.Schedule.{Tm, Search}
use smartmontools.Smartd.Schedule.{offsets_from}
use smartmontools.Smartd.Schedule.{check_time, check_hours, interval_start, search_tests}
use smartmontools.Smartd.Schedule.{max_rounds, ninety_days}

module _ (full_match : List ℕ → Bool) (local_time : ℕ → ℕ → Tm) (cfg : DevConfig)
    (s : DevState) where
  -- Enough rounds for the hours that are left: the last one is the one at `now`.
  same_search :
      (offsets : List (ℕ × ℕ)) (now f g t : ℕ) (r : Search)
      → now ≤ t + 3600 * f
      → now ≤ t + 3600 * g
      → check_hours full_match local_time cfg s offsets now (suc f) t r
        ≡ check_hours full_match local_time cfg s offsets now (suc g) t r
  unfolding check_hours
  same_search offsets now zero g t r hf hg =
      let r' = check_time full_match local_time cfg s offsets t r in
      let stop : (r'.left == 0 || leb now t) ≡ true = ground (arith, hf) in
      rw (check_hours, stop) refl
  same_search offsets now (suc f) zero t r hf hg =
      let r' = check_time full_match local_time cfg s offsets t r in
      let stop : (r'.left == 0 || leb now t) ≡ true = ground (arith, hg) in
      rw (check_hours, stop) refl
  same_search offsets now (suc f) (suc g) t r hf hg =
      let r' = check_time full_match local_time cfg s offsets t r in
      let t' = min (t + 3600) now in
      elim (Bool-cases (r'.left == 0 || leb now t)) [
        | inl e ↦ rw (check_hours, e) refl
        | inr e ↦
            rw (check_hours, e)
              (same_search offsets now f g t' r' (omega (arith, hf)) (omega (arith, hg)))
      ]

  start_bound : (now next : ℕ) → now ≤ interval_start now next + ninety_days
  unfolding interval_start
  start_bound now next = ground arith

  -- The search over the hours ends before its rounds run out: any larger number of rounds gives the
  -- same result, whatever the time of the last check was.
  pub search_tests-ends :
      (now rounds : ℕ)
      → max_rounds ≤ suc rounds
      → search_tests full_match local_time cfg now s
        ≡ check_hours full_match local_time cfg s
            (offsets_from 7 0 cfg.test_regex)
            now
            (suc rounds)
            (interval_start now s.scheduled_test_next_check)
            (record { found = none; left = 7 })
  unfolding search_tests
  search_tests-ends now rounds enough =
      same_search (offsets_from 7 0 cfg.test_regex) now (24 * 90 + 1) rounds
        (interval_start now s.scheduled_test_next_check) (record { found = none; left = 7 })
        (omega (arith, start_bound now s.scheduled_test_next_check))
        (omega (arith, enough, start_bound now s.scheduled_test_next_check))
