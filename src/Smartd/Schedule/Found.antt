-- ===== src/Smartd/Schedule/Found.antt =====
-- Which tests next_scheduled_test returns.
use Prim.Native.Nat.{min, max}
use smartmontools.Common.{ℕ, zero, suc, refl, inl, inr, Bool, true, false, not, Option, none}
use smartmontools.Common.{some, List, [], arith, ltb, leb, Bool-cases, length, take, u32}
use smartmontools.Common.{if-both, if-each, ◌+◌, ◌-◌, ◌*◌, ◌%◌, ◌≤◌, ◌<◌, ◌≡◌, ◌⊎◌, ◌&&◌}
use smartmontools.Common.{◌||◌, ◌∷◌, ◌++◌, ◌==◌}
use smartmontools.Smartd.State.{DevState, DevConfig}
use smartmontools.Smartd.AtaSelfTest.{TestType}
use smartmontools.Smartd.Schedule.{Tm, Search, not_capable, time_pattern}
use smartmontools.Smartd.Schedule.{first_match, take_match, check_offset, check_offsets}
use smartmontools.Smartd.Schedule.{offset_pattern, test_delay, offsets_from, test_types}
use smartmontools.Smartd.Schedule.{check_time, check_hours, interval_start, search_tests}
use smartmontools.Smartd.Schedule.{max_rounds, ninety_days, found_test}
use smartmontools.Smartd.Schedule.{lacks_all_tests, next_scheduled_test}

-- The offset is in the list.
abbrev pub Offers : List (ℕ × ℕ) → ℕ × ℕ → Type 0
Offers [] o = ⊥
Offers (o' ∷ os) o = (o' ≡ o) ⊎ Offers os o

-- The delay in hours of an offset: the offset times the factor, and modulo the limit plus 1 if there is
-- a limit.
abbrev pub HasDelay : DevConfig → ℕ × ℕ → ℕ → Type 0
HasDelay cfg (offset, limit) hours =
    ((limit ≡ 0) × (hours ≡ u32 (cfg.test_offset_factor * offset)))
    ⊎ ((0 < limit) × (hours ≡ u32 (cfg.test_offset_factor * offset) % (limit + 1)))

-- Offset 0 without a part of the pattern, or one of the offsets with its part.
abbrev pub HasPart : List (ℕ × ℕ) → ℕ × ℕ → List ℕ → Type 0
HasPart offsets o part =
    ((o ≡ (0, 0)) × (part ≡ [])) ⊎ (Offers offsets o × (part ≡ offset_pattern o))

-- The times that are searched: whole hours after the start, up to now, and now.
abbrev pub IsSearched : ℕ → ℕ → ℕ → Type 0
IsSearched start now t = (start ≤ t) × (t ≤ now) × ((t ≡ now) ⊎ ((k : ℕ) × (t ≡ start + 3600 * k)))

-- The search starts at the time of the next check, but not after now nor 90 days before it.
abbrev pub first_time : ℕ → DevState → ℕ
first_time now s = max (min now s.scheduled_test_next_check) (now - ninety_days)

-- At time `t` the regular expression matches the test at the local time less the delay of an offset.
abbrev pub MatchesAt : (List ℕ → Bool) → (ℕ → ℕ → Tm) → DevConfig → TestType → ℕ → Type 0
MatchesAt full_match local_time cfg test t =
    (o : ℕ × ℕ) × (part : List ℕ) × (hours : ℕ) × HasPart (offsets_from 7 0 cfg.test_regex) o part
    × HasDelay cfg o hours
    × (full_match (time_pattern test (local_time t (u32 (hours * 3600))) ++ part) ≡ true)

-- A test that the device may have, and that matches at a time that is searched.
abbrev pub IsScheduled :
    (List ℕ → Bool) → (ℕ → ℕ → Tm) → DevConfig → ℕ → DevState → TestType → Type 0
IsScheduled full_match local_time cfg now s test =
    (not_capable s test ≡ false)
    × ((t : ℕ) × IsSearched (first_time now s) now t × MatchesAt full_match local_time cfg test t)

pub test_delay-HasDelay : (cfg : DevConfig) (o : ℕ × ℕ) → HasDelay cfg o (test_delay cfg o)
unfolding test_delay
test_delay-HasDelay cfg (offset, limit) =
    let delay = u32 (cfg.test_offset_factor * offset) in
    elim (Bool-cases (ltb 0 limit)) [
      | inl limited ↦ elim (Bool-cases (ltb limit delay)) [
        | inl beyond ↦ inr (ground (arith, limited), rw limited (rw beyond refl))
        | inr within ↦ inr (ground (arith, limited), rw limited (rw within (grind (arith, within))))
      ]
      | inr unlimited ↦ inl (ground (arith, unlimited), rw unlimited refl)
    ]

pub interval_start-first_time :
    (now : ℕ) (s : DevState) → interval_start now s.scheduled_test_next_check ≡ first_time now s
unfolding interval_start
interval_start-first_time now s = ground arith

-- The next hour, or now.
pub next-IsSearched :
    (start now t : ℕ) → IsSearched start now t → t < now → IsSearched start now (min (t + 3600) now)
next-IsSearched start now t (low, high, inl last) before = absurd (omega (arith, last, before))
next-IsSearched start now t (low, high, inr (k, at)) before =
    elim (Bool-cases (leb now (t + 3600))) [
      | inl last ↦ (ground arith, ground arith, inl (ground (arith, last)))
      | inr later ↦ (ground arith, ground arith, inr (k + 1, ground (arith, later, at)))
    ]

module _ (full_match : List ℕ → Bool) (local_time : ℕ → ℕ → Tm) (cfg : DevConfig) (now : ℕ)
    (s : DevState) where
  -- What has been found is scheduled.
  Found : Option (TestType × ℕ) → Type 0
  Found none = Unit
  Found (some (test, k)) = IsScheduled full_match local_time cfg now s test

  found_test-IsScheduled :
      (r : Search) (o : Option (TestType × ℕ)) (test : TestType)
      → r.found ≡ o
      → Found o
      → found_test r ≡ some test
      → IsScheduled full_match local_time cfg now s test
  unfolding found_test Found
  found_test-IsScheduled r none test e h h' = absurd (grind (arith, rw e at h'))
  found_test-IsScheduled r (some (test', k)) test e h h' =
      let both : some test' ≡ some test = rw (found_test, e) at h' in
      let same : test' ≡ test = cc in rw same at h

  take_match-Found :
      (t j : ℕ) (r : Search) (tm : Tm) (part : List ℕ) (tests : List TestType)
      → ((test : TestType)
          → not_capable s test ≡ false
          → full_match (time_pattern test tm ++ part) ≡ true
          → IsScheduled full_match local_time cfg now s test)
      → Found r.found
      → Found
          (take_match full_match local_time t r
            (first_match full_match local_time s tm part j tests)).found
  unfolding take_match first_match Found
  take_match-Found t j r tm part [] scheduled h = h
  take_match-Found t j r tm part (test ∷ tests) scheduled h =
      let matches = full_match (time_pattern test tm ++ part) in
      if-each (λ o. Found (take_match full_match local_time t r o).found)
        (not (not_capable s test) && matches)
        (λ e. scheduled test (grind (arith, e)) (grind (arith, e)))
        (λ e. take_match-Found t (suc j) r tm part tests scheduled h)

  check_offset-Found :
      (t : ℕ) (o : ℕ × ℕ) (part : List ℕ) (r : Search)
      → IsSearched (first_time now s) now t
      → HasPart (offsets_from 7 0 cfg.test_regex) o part
      → Found r.found
      → Found (check_offset full_match local_time cfg s t o part r).found
  unfolding check_offset
  check_offset-Found t o part r searched has_part h =
      let hours = test_delay cfg o in
      take_match-Found t 0 r (local_time t (u32 (hours * 3600))) part (take r.left test_types)
        (λ test able matches.
          (able, (t, searched, (o, part, hours, has_part, test_delay-HasDelay cfg o, matches))))
        h

  check_offsets-Found :
      (t : ℕ) (offsets : List (ℕ × ℕ)) (r : Search)
      → IsSearched (first_time now s) now t
      → ((o : ℕ × ℕ) → Offers offsets o → Offers (offsets_from 7 0 cfg.test_regex) o)
      → Found r.found
      → Found (check_offsets full_match local_time cfg s t offsets r).found
  unfolding check_offsets
  check_offsets-Found t [] r searched offered h = h
  check_offsets-Found t (o ∷ offsets) r searched offered h =
      check_offsets-Found t offsets _ searched (λ o' m. offered o' (inr m))
        (check_offset-Found t o (offset_pattern o) r searched (inr (offered o (inl refl), refl)) h)

  check_time-Found :
      (t : ℕ) (r : Search)
      → IsSearched (first_time now s) now t
      → Found r.found
      → Found (check_time full_match local_time cfg s (offsets_from 7 0 cfg.test_regex) t r).found
  unfolding check_time
  check_time-Found t r searched h =
      check_offsets-Found t (offsets_from 7 0 cfg.test_regex) _ searched (λ o m. m)
        (check_offset-Found t (0, 0) [] r searched (inl (refl, refl)) h)

  check_hours-Found :
      (fuel t : ℕ) (r : Search)
      → IsSearched (first_time now s) now t
      → Found r.found
      → Found
          (check_hours full_match local_time cfg s
            (offsets_from 7 0 cfg.test_regex)
            now
            fuel
            t
            r).found
  unfolding check_hours
  check_hours-Found zero t r searched h = h
  check_hours-Found (suc fuel) t r searched h =
      let offsets = offsets_from 7 0 cfg.test_regex in
      let r' = check_time full_match local_time cfg s offsets t r in
      let h' = check_time-Found t r searched h in
      elim (Bool-cases (r'.left == 0 || leb now t)) [
        | inl e ↦ rw (check_hours, e) h'
        | inr e ↦
            rw (check_hours, e)
              (check_hours-Found fuel (min (t + 3600) now) r'
                (next-IsSearched (first_time now s) now t searched (ground (arith, e))) h')
      ]

  search_tests-Found : Found (search_tests full_match local_time cfg now s).found
  unfolding search_tests Found
  search_tests-Found =
      let start = interval_start now s.scheduled_test_next_check in
      let e : start ≡ first_time now s = interval_start-first_time now s in
      check_hours-Found max_rounds start (record { found = none; left = 7 })
        (rw e (omega arith, omega arith, inr (0, omega arith))) tt

  Returned : TestType → DevState × Option TestType → Type 0
  Returned test (s', o) = o ≡ some test → IsScheduled full_match local_time cfg now s test

  -- A test that is returned is not one that the device is known to lack, and at a time that is searched
  -- the regular expression matches it. The times are the whole hours from the time of the next check
  -- on, but not from after now nor from more than 90 days before it, and now. Matched is the local time
  -- less the delay of offset 0 or of an offset in the expression, with the part of that offset; the
  -- delay is the offset times the factor, modulo the limit plus 1 if there is a limit.
  pub next_scheduled_test-IsScheduled :
      (test : TestType)
      → (next_scheduled_test full_match local_time cfg now s).1 ≡ some test
      → IsScheduled full_match local_time cfg now s test
  unfolding next_scheduled_test Returned
  next_scheduled_test-IsScheduled test h =
      let r = search_tests full_match local_time cfg now s in
      let returned : Returned test (next_scheduled_test full_match local_time cfg now s) =
        if-both (Returned test) (leb (length cfg.test_regex) 0 || lacks_all_tests s) (λ e. cc)
          (if-both (Returned test)
            (ltb now s.scheduled_test_next_check && leb s.scheduled_test_next_check (now + 3600))
            (λ e. cc) (found_test-IsScheduled r r.found test refl search_tests-Found)) in
      returned h
