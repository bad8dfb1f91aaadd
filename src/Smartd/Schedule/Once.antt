-- ===== src/Smartd/Schedule/Once.antt =====
-- A scheduled test is returned once.
use smartmontools.Common.{ℕ, refl, Bool, true, false, Option, none, some, List, arith, ltb}
use smartmontools.Common.{leb, length, if-both, ◌+◌, ◌≤◌, ◌<◌, ◌≡◌, ◌&&◌, ◌||◌}
use smartmontools.Smartd.State.{DevState, DevConfig}
use smartmontools.Smartd.AtaSelfTest.{TestType}
use smartmontools.Smartd.Schedule.{Tm, Search, search_tests, after_search}
use smartmontools.Smartd.Schedule.{lacks_all_tests, next_scheduled_test}

abbrev is_some : {A : Type 0} → Option A → Bool
is_some none = false
is_some (some a) = true

-- Where a test is returned, the next check is due within an hour.
WaitsAnHour : ℕ → DevState × Option TestType → Type 0
WaitsAnHour now (s', o) =
    is_some o ≡ true
    → (now < s'.scheduled_test_next_check) × (s'.scheduled_test_next_check ≤ now + 3600)

after_search-WaitsAnHour :
    (now : ℕ) (tm : Tm) (s : DevState) (r : Search) (o : Option TestType)
    → tm.tm_min < 60
    → tm.tm_sec < 60
    → WaitsAnHour now (after_search now tm s r, o)
unfolding after_search WaitsAnHour
after_search-WaitsAnHour now tm s r o minutes seconds e =
    (omega (arith, minutes, seconds), omega arith)

module _ (full_match : List ℕ → Bool) (local_time : ℕ → ℕ → Tm) (cfg : DevConfig) where
  waits_an_hour :
      (now : ℕ) (s : DevState)
      → (local_time now 0).tm_min < 60
      → (local_time now 0).tm_sec < 60
      → WaitsAnHour now (next_scheduled_test full_match local_time cfg now s)
  unfolding next_scheduled_test WaitsAnHour
  waits_an_hour now s minutes seconds =
      if-both (WaitsAnHour now) (leb (length cfg.test_regex) 0 || lacks_all_tests s) (λ e. cc)
        (if-both (WaitsAnHour now)
          (ltb now s.scheduled_test_next_check && leb s.scheduled_test_next_check (now + 3600))
          (λ e. cc)
          (after_search-WaitsAnHour now (local_time now 0) s
            (search_tests full_match local_time cfg now s) _ minutes seconds))

  not_yet :
      (later : ℕ) (s : DevState)
      → later < s.scheduled_test_next_check
      → s.scheduled_test_next_check ≤ later + 3600
      → next_scheduled_test full_match local_time cfg later s ≡ (s, none)
  unfolding next_scheduled_test
  not_yet later s before within =
      let P : DevState × Option TestType → Type 0 = λ r. r ≡ (s, none) in
      let e : (ltb later s.scheduled_test_next_check
            && leb s.scheduled_test_next_check (later + 3600))
          ≡ true =
        ground (arith, before, within) in
      if-both P (leb (length cfg.test_regex) 0 || lacks_all_tests s) refl (rw e refl)

  -- A scheduled test is returned once: after it was returned, the next check is due within an hour,
  -- and until then no test is returned and nothing changes.
  pub next_scheduled_test-once :
      (now later : ℕ) (s s' : DevState) (test : TestType)
      → (local_time now 0).tm_min < 60
      → (local_time now 0).tm_sec < 60
      → next_scheduled_test full_match local_time cfg now s ≡ (s', some test)
      → now ≤ later
      → later < s'.scheduled_test_next_check
      → (s'.scheduled_test_next_check ≤ now + 3600)
        × (next_scheduled_test full_match local_time cfg later s' ≡ (s', none))
  unfolding WaitsAnHour
  next_scheduled_test-once now later s s' test minutes seconds h after before =
      let (_, within) = (rw h at (waits_an_hour now s minutes seconds)) refl in
      (within, not_yet later s' before (omega (arith, within, after)))
