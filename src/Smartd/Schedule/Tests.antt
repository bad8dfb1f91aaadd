-- ===== src/Smartd/Schedule/Tests.antt =====
-- A short self-test at 2 o'clock, with a second pattern that has an offset and a limit.
use smartmontools.Common.{ℕ, refl, ap, inl, inr, Bool, true, Option, none, some, List, []}
use smartmontools.Common.{arith, same_bytes, codes, decimal, ◌+◌, ◌-◌, ◌/◌, ◌%◌, ◌≤◌, ◌≡◌}
use smartmontools.Common.{◌∷◌}
use smartmontools.Smartd.Sample.{state, cfg}
use smartmontools.Smartd.State.{DevState, DevConfig}
use smartmontools.Smartd.AtaSelfTest.{TestType}
use smartmontools.Smartd.Schedule.{
  Tm, not_capable, time_pattern, offsets_from, search_tests, check_hours,
}
use smartmontools.Smartd.Schedule.{interval_start, next_scheduled_test}
use smartmontools.Smartd.Schedule.Rounds.{search_tests-ends}
use smartmontools.Smartd.Schedule.Found.{IsScheduled, next_scheduled_test-IsScheduled}
use smartmontools.Smartd.Schedule.First.{HasPriority, next_scheduled_test-HasPriority}
use smartmontools.Smartd.Schedule.Once.{next_scheduled_test-once}

abbrev at_two : DevConfig
at_two = record cfg { test_regex = codes "(S/../.././02|L/../../6/03:012-034:xyz)" }

abbrev matches : List ℕ → Bool
matches text = same_bytes text (codes "S/01/05/1/02")

-- The local time on the fifth of January.
abbrev clock : ℕ → ℕ → Tm
clock t d = record {
  tm_sec = (t - d) % 60;
  tm_min = (t - d) / 60 % 60;
  tm_hour = (t - d) / 3600 % 24;
  tm_mday = 5;
  tm_mon = 0;
  tm_wday = 1;
}

-- Only ":012-034" is an offset with a limit.
offsets_of_regex : offsets_from 7 0 at_two.test_regex ≡ (12, 34) ∷ []
unfolding offsets_from
offsets_of_regex = refl

abbrev after_two : DevState
after_two = record state { scheduled_test_next_check = 10800; must_write = true }

found_at_two :
    next_scheduled_test matches clock at_two 7800 state ≡ (after_two, some TestType.short)
unfolding next_scheduled_test same_bytes decimal
found_at_two = refl

search_tests-ends_example :
    search_tests matches clock at_two 7800 state
    ≡ check_hours matches clock at_two state
        (offsets_from 7 0 at_two.test_regex)
        7800
        3000
        (interval_start 7800 0)
        (record { found = none; left = 7 })
search_tests-ends_example = search_tests-ends matches clock at_two state 7800 2999 (omega arith)

next_scheduled_test-IsScheduled_example : IsScheduled matches clock at_two 7800 state TestType.short
next_scheduled_test-IsScheduled_example =
    next_scheduled_test-IsScheduled matches clock at_two 7800 state TestType.short
      (ap (λ (r : DevState × Option TestType). r.1) found_at_two)

-- The test matches at 2 o'clock, with offset 0.
scheduled_at_two : IsScheduled matches clock at_two 7800 state TestType.short
unfolding same_bytes decimal not_capable time_pattern
scheduled_at_two = (
  refl,
  (
    7200,
    (omega arith, omega arith, inr (2, omega arith)),
    ((0, 0), [], 0, inl (refl, refl), inl (refl, refl), refl),
  ),
)

next_scheduled_test-HasPriority_example :
    HasPriority 4 (next_scheduled_test matches clock at_two 7800 state).1
next_scheduled_test-HasPriority_example =
    next_scheduled_test-HasPriority matches clock at_two 7800 state TestType.short (omega arith)
      (inl (omega arith)) (omega arith) scheduled_at_two

next_scheduled_test-once_example :
    (after_two.scheduled_test_next_check ≤ 7800 + 3600)
    × (next_scheduled_test matches clock at_two 9000 after_two ≡ (after_two, none))
next_scheduled_test-once_example =
    next_scheduled_test-once matches clock at_two 7800 9000 state after_two TestType.short
      (omega arith) (omega arith) found_at_two (omega arith) (omega arith)
