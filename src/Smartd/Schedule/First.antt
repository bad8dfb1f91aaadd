-- ===== src/Smartd/Schedule/First.antt =====
-- next_scheduled_test misses no test that is scheduled, and returns one of the highest priority.
use Prim.Native.Nat.{min}
use smartmontools.Common.{ℕ, zero, suc, refl, inl, inr, Bool, true, false, Option, none}
use smartmontools.Common.{some, List, arith, ltb, leb, Bool-cases, length, ◌+◌, ◌*◌, ◌≤◌}
use smartmontools.Common.{◌<◌, ◌≡◌, ◌≢◌, ◌⊎◌, ◌&&◌, ◌||◌, ◌==◌}
use smartmontools.Smartd.State.{DevState, DevConfig}
use smartmontools.Smartd.AtaSelfTest.{TestType}
use smartmontools.Smartd.Schedule.{Tm, Search, not_capable}
use smartmontools.Smartd.Schedule.{offsets_from}
use smartmontools.Smartd.Schedule.{check_time, check_hours, interval_start, search_tests}
use smartmontools.Smartd.Schedule.{max_rounds, found_test}
use smartmontools.Smartd.Schedule.{lacks_all_tests, next_scheduled_test}
use smartmontools.Smartd.Schedule.Found.{IsSearched, first_time}
use smartmontools.Smartd.Schedule.Found.{MatchesAt, IsScheduled, interval_start-first_time}
use smartmontools.Smartd.Schedule.Priority.{priority, Leaves, IsSearch, Step}
use smartmontools.Smartd.Schedule.Seen.{check_time-left}
use smartmontools.Smartd.Schedule.Priority.{check_time-Step, check_hours-Step}

-- A test of at least that priority.
abbrev pub HasPriority : ℕ → Option TestType → Type 0
HasPriority p none = ⊥
HasPriority p (some test) = priority test ≤ p

found_test-HasPriority :
    (r : Search) (p : ℕ) (o : Option (TestType × ℕ))
    → r.found ≡ o
    → Leaves r.left o
    → r.left ≤ p
    → p < 7
    → HasPriority p (found_test r)
unfolding found_test Leaves
found_test-HasPriority r p none e leaves le below = absurd (omega (arith, leaves, le, below))
found_test-HasPriority r p (some (test, t)) e leaves le below =
    rw (found_test, e) (omega (arith, leaves, le))

lacks_all-not_capable :
    (s : DevState) (test : TestType) → not_capable s test ≡ false → lacks_all_tests s ≡ false
unfolding not_capable lacks_all_tests
lacks_all-not_capable s TestType.long h = grind (arith, h)
lacks_all-not_capable s TestType.short h = grind (arith, h)
lacks_all-not_capable s TestType.conveyance h = grind (arith, h)
lacks_all-not_capable s TestType.offline h = grind (arith, h)
lacks_all-not_capable s (TestType.selective mode) h = grind (arith, h)

empty-IsSearch : IsSearch (record { found = none; left = 7 })
unfolding IsSearch Leaves
empty-IsSearch = (omega arith, refl)

enough_rounds :
    (now : ℕ) (s : DevState)
    → now ≤ interval_start now s.scheduled_test_next_check + 3600 * (24 * 90 + 1)
unfolding interval_start
enough_rounds now s = ground arith

later-IsSearched :
    (now t time : ℕ) → IsSearched t now time → time ≢ t → IsSearched (min (t + 3600) now) now time
later-IsSearched now t time (low, high, inl last) other = (ground arith, high, inl last)
later-IsSearched now t time (low, high, inr (zero, at)) other = absurd (omega (arith, at, other))
later-IsSearched now t time (low, high, inr (suc k, at)) other =
    (ground (arith, at), high, inr (k, ground (arith, at, high)))

module _ (full_match : List ℕ → Bool) (local_time : ℕ → ℕ → Tm) (cfg : DevConfig) (s : DevState)
    (test : TestType) (able : not_capable s test ≡ false) (known : priority test < 7) where
  stopped :
      (now t time : ℕ) (r : Search)
      → IsSearch r
      → let r' = check_time full_match local_time cfg s (offsets_from 7 0 cfg.test_regex) t r in
        (r'.left == 0 || leb now t) ≡ true
        → IsSearched t now time
        → MatchesAt full_match local_time cfg test time
        → r'.left ≤ priority test
  stopped now t time r h e (low, high, step) matches =
      let r' = check_time full_match local_time cfg s (offsets_from 7 0 cfg.test_regex) t r in
      elim (Bool-cases (r'.left == 0)) [
        | inl none_left ↦ ground (arith, none_left)
        | inr some_left ↦
            let same : time ≡ t = ground (arith, e, some_left, low, high) in
            check_time-left full_match local_time cfg s test able known t r h (rw same at matches)
      ]

  -- The search does not pass a time at which the test matches.
  check_hours-left :
      (now fuel t time : ℕ) (r : Search)
      → IsSearch r
      → now ≤ t + 3600 * fuel
      → IsSearched t now time
      → MatchesAt full_match local_time cfg test time
      → (check_hours full_match local_time cfg s
          (offsets_from 7 0 cfg.test_regex)
          now
          (suc fuel)
          t
          r).left
        ≤ priority test
  unfolding check_hours Step
  check_hours-left now zero t time r h enough searched matches =
      let r' = check_time full_match local_time cfg s (offsets_from 7 0 cfg.test_regex) t r in
      let e : (r'.left == 0 || leb now t) ≡ true = ground (arith, enough) in
      rw (check_hours, e) (stopped now t time r h e searched matches)
  check_hours-left now (suc fuel) t time r h enough searched matches =
      let offsets = offsets_from 7 0 cfg.test_regex in
      let r' = check_time full_match local_time cfg s offsets t r in
      let h' = check_time-Step full_match local_time cfg s t offsets r h in
      let t' = min (t + 3600) now in
      elim (Bool-cases (r'.left == 0 || leb now t)) [
        | inl e ↦ rw (check_hours, e) (stopped now t time r h e searched matches)
        | inr e ↦
            rw (check_hours, e)
              (elim (Bool-cases (time == t)) [
                | inl this ↦
                    let same : time ≡ t = ground (arith, this) in
                    let le : r'.left ≤ priority test =
                      check_time-left full_match local_time cfg s test able known t r h
                        (rw same at matches) in
                    let h2 =
                      check_hours-Step full_match local_time cfg s offsets now (suc fuel) t' r'
                        h'.0 in
                    omega (arith, le, h2.1)
                | inr later ↦
                    check_hours-left now fuel t' time r' h'.0 (omega (arith, enough))
                      (later-IsSearched now t time searched (ground (arith, later))) matches
              ])
      ]

  search_tests-left :
      (now time : ℕ)
      → IsSearched (first_time now s) now time
      → MatchesAt full_match local_time cfg test time
      → HasPriority (priority test) (found_test (search_tests full_match local_time cfg now s))
  unfolding search_tests Step IsSearch Leaves
  search_tests-left now time searched matches =
      let r = search_tests full_match local_time cfg now s in
      let start = interval_start now s.scheduled_test_next_check in
      let r0 : Search = record { found = none; left = 7 } in
      let offsets = offsets_from 7 0 cfg.test_regex in
      let e : start ≡ first_time now s = interval_start-first_time now s in
      let searched' : IsSearched start now time = rw e searched in
      let (h, le) =
        check_hours-Step full_match local_time cfg s offsets now max_rounds start r0
          empty-IsSearch in
      let seen : r.left ≤ priority test =
        check_hours-left now (24 * 90 + 1) start time r0 empty-IsSearch (enough_rounds now s)
          searched' matches in
      found_test-HasPriority r (priority test) r.found refl h.1 seen known

-- No scheduled test is missed: where a regular expression is configured and a check is due, that is the
-- time of the next check is not after now, or more than an hour after it (as the clock went back), and
-- a test of one of the seven types is scheduled at a time that is searched, a test is returned, and its
-- priority is not lower.
pub next_scheduled_test-HasPriority :
    (full_match : List ℕ → Bool) (local_time : ℕ → ℕ → Tm) (cfg : DevConfig) (now : ℕ)
    (s : DevState) (test : TestType)
    → 0 < length cfg.test_regex
    → (s.scheduled_test_next_check ≤ now) ⊎ (now + 3600 < s.scheduled_test_next_check)
    → priority test < 7
    → IsScheduled full_match local_time cfg now s test
    → HasPriority (priority test) (next_scheduled_test full_match local_time cfg now s).1
unfolding next_scheduled_test
next_scheduled_test-HasPriority full_match local_time cfg now s test configured due known
      (able, (time, searched, matches)) =
    let some_able : lacks_all_tests s ≡ false = lacks_all-not_capable s test able in
    let checks : (leb (length cfg.test_regex) 0 || lacks_all_tests s) ≡ false =
      ground (arith, configured, some_able) in
    let is_due : (ltb now s.scheduled_test_next_check
          && leb s.scheduled_test_next_check (now + 3600))
        ≡ false =
      ground (arith, due) in
    rw checks (
      rw is_due
        (search_tests-left full_match local_time cfg s test able known now time searched matches))
