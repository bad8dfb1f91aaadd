-- ===== src/Smartd/Schedule/Seen.antt =====
-- The search at one time of next_scheduled_test sees a test that matches.
use smartmontools.Common.{ℕ, suc, inl, inr, Bool, true, false, not, Option, none, some, List}
use smartmontools.Common.{[], arith, ltb, Bool-cases, take, u32, if-each, ◌*◌, ◌≤◌, ◌<◌, ◌≡◌}
use smartmontools.Common.{◌&&◌, ◌∷◌, ◌++◌}
use smartmontools.Smartd.State.{DevState, DevConfig}
use smartmontools.Smartd.AtaSelfTest.{TestType}
use smartmontools.Smartd.Schedule.{Tm, Search, not_capable, time_pattern}
use smartmontools.Smartd.Schedule.{first_match, take_match, check_offset, check_offsets}
use smartmontools.Smartd.Schedule.{offset_pattern, test_delay, offsets_from, test_types}
use smartmontools.Smartd.Schedule.{check_time}
use smartmontools.Smartd.Schedule.Found.{Offers, HasDelay}
use smartmontools.Smartd.Schedule.Found.{MatchesAt}
use smartmontools.Smartd.Schedule.Priority.{priority, Listed, Ranked, IsSearch, Step}
use smartmontools.Smartd.Schedule.Priority.{test_types-Ranked, test_types-Listed, Listed-priority}
use smartmontools.Smartd.Schedule.Priority.{
  take-Listed, take-Ranked, HasDelay-unique, check_offset-Step,
}
use smartmontools.Smartd.Schedule.Priority.{check_offsets-Step}

-- A match is found, no later than at place `p`.
FoundBy : ℕ → Option (TestType × ℕ) → Type 0
FoundBy p none = ⊥
FoundBy p (some (test, k)) = k ≤ p

module _ (full_match : List ℕ → Bool) (local_time : ℕ → ℕ → Tm) (cfg : DevConfig) (s : DevState)
    (test : TestType) (able : not_capable s test ≡ false) (known : priority test < 7) where
  first_match-FoundBy :
      (tm : Tm) (part : List ℕ) (j : ℕ) (xs : List TestType)
      → full_match (time_pattern test tm ++ part) ≡ true
      → Ranked j xs
      → Listed test xs
      → FoundBy (priority test) (first_match full_match local_time s tm part j xs)
  unfolding first_match FoundBy Ranked Listed
  first_match-FoundBy tm part j [] matches ranked listed = elim listed [ ]
  first_match-FoundBy tm part j (x ∷ xs) matches ranked listed =
      if-each (FoundBy (priority test))
        (not (not_capable s x) && full_match (time_pattern x tm ++ part))
        (λ found. Listed-priority test j (x ∷ xs) ranked listed)
        (λ unmatched. elim listed [
          | inl same ↦
              let able' : not_capable s x ≡ false = rw same able in
              let matches' : full_match (time_pattern x tm ++ part) ≡ true = rw same matches in
              absurd (grind (arith, unmatched, able', matches'))
          | inr later ↦ first_match-FoundBy tm part (suc j) xs matches ranked.1 later
        ])

  taken :
      (t : ℕ) (r : Search) (o : Option (TestType × ℕ))
      → FoundBy (priority test) o
      → (take_match full_match local_time t r o).left ≤ priority test
  unfolding FoundBy take_match
  taken t r none h = elim h [ ]
  taken t r (some (test', k)) h = h

  -- After the offset at which the test matches, no test of a lower priority is left.
  check_offset-left :
      (t : ℕ) (o : ℕ × ℕ) (part : List ℕ) (hours : ℕ) (r : Search)
      → IsSearch r
      → HasDelay cfg o hours
      → full_match (time_pattern test (local_time t (u32 (hours * 3600))) ++ part) ≡ true
      → (check_offset full_match local_time cfg s t o part r).left ≤ priority test
  unfolding check_offset Step
  check_offset-left t o part hours r h delayed matches =
      let tm = local_time t (u32 (test_delay cfg o * 3600)) in
      let matches' : full_match (time_pattern test tm ++ part) ≡ true =
        rw (← HasDelay-unique cfg o hours delayed) matches in
      elim (Bool-cases (ltb (priority test) r.left)) [
        | inl within ↦
            taken t r (first_match full_match local_time s tm part 0 (take r.left test_types)) (
              first_match-FoundBy tm part 0 (take r.left test_types) matches'
                (take-Ranked r.left 0 test_types test_types-Ranked)
                (take-Listed test r.left 0 test_types test_types-Ranked
                  (test_types-Listed test known) (ground (arith, within))))
        | inr found_before ↦
            let (searched, le) = check_offset-Step full_match local_time cfg s t o part r h in
            ground (arith, found_before, le)
      ]

  check_offsets-left :
      (t : ℕ) (offsets : List (ℕ × ℕ)) (o : ℕ × ℕ) (hours : ℕ) (r : Search)
      → IsSearch r
      → Offers offsets o
      → HasDelay cfg o hours
      → full_match (time_pattern test (local_time t (u32 (hours * 3600))) ++ offset_pattern o)
        ≡ true
      → (check_offsets full_match local_time cfg s t offsets r).left ≤ priority test
  unfolding check_offsets Step
  check_offsets-left t [] o hours r h offered delayed matches = elim offered [ ]
  check_offsets-left t (o' ∷ offsets) o hours r h (inl same) delayed matches =
      let r1 = check_offset full_match local_time cfg s t o' (offset_pattern o') r in
      let h1 = check_offset-Step full_match local_time cfg s t o' (offset_pattern o') r h in
      let h2 = check_offsets-Step full_match local_time cfg s t offsets r1 h1.0 in
      let le : r1.left ≤ priority test =
        check_offset-left t o' (offset_pattern o') hours r h (rw same delayed) (rw same matches) in
      omega (arith, le, h2.1)
  check_offsets-left t (o' ∷ offsets) o hours r h (inr later) delayed matches =
      let r1 = check_offset full_match local_time cfg s t o' (offset_pattern o') r in
      let h1 = check_offset-Step full_match local_time cfg s t o' (offset_pattern o') r h in
      check_offsets-left t offsets o hours r1 h1.0 later delayed matches

  pub check_time-left :
      (t : ℕ) (r : Search)
      → IsSearch r
      → MatchesAt full_match local_time cfg test t
      → (check_time full_match local_time cfg s (offsets_from 7 0 cfg.test_regex) t r).left
        ≤ priority test
  unfolding check_time Step
  check_time-left t r h (o, part, hours, inl (first, no_part), delayed, matches) =
      let offsets = offsets_from 7 0 cfg.test_regex in
      let r1 = check_offset full_match local_time cfg s t (0, 0) [] r in
      let h1 = check_offset-Step full_match local_time cfg s t (0, 0) [] r h in
      let h2 = check_offsets-Step full_match local_time cfg s t offsets r1 h1.0 in
      let le : r1.left ≤ priority test =
        check_offset-left t (0, 0) [] hours r h (rw first at delayed) (rw no_part at matches) in
      omega (arith, le, h2.1)
  check_time-left t r h (o, part, hours, inr (offered, with_part), delayed, matches) =
      let offsets = offsets_from 7 0 cfg.test_regex in
      let r1 = check_offset full_match local_time cfg s t (0, 0) [] r in
      let h1 = check_offset-Step full_match local_time cfg s t (0, 0) [] r h in
      check_offsets-left t offsets o hours r1 h1.0 offered delayed (rw with_part at matches)
