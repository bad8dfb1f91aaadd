-- ===== src/Smartd/Schedule/Priority.antt =====
-- The order of the tests in next_scheduled_test, and what its search keeps.
use Prim.Native.Nat.{min}
use smartmontools.Common.{ℕ, zero, suc, refl, sym, inl, inr, Bool, not, Option, none, some}
use smartmontools.Common.{List, [], arith, leb, Bool-cases, take, u32, if-each, ◌+◌, ◌*◌}
use smartmontools.Common.{◌≤◌, ◌<◌, ◌≡◌, ◌∙◌, ◌⊎◌, ◌&&◌, ◌||◌, ◌∷◌, ◌++◌, ◌==◌}
use smartmontools.Smartd.State.{DevState, DevConfig}
use smartmontools.Ata.SelectiveTest.{SpanMode}
use smartmontools.Smartd.AtaSelfTest.{TestType}
use smartmontools.Smartd.Schedule.{Tm, Search, not_capable, time_pattern}
use smartmontools.Smartd.Schedule.{first_match, take_match, check_offset, check_offsets}
use smartmontools.Smartd.Schedule.{offset_pattern, test_delay, test_types}
use smartmontools.Smartd.Schedule.{check_time, check_hours}
use smartmontools.Smartd.Schedule.Found.{HasDelay}
use smartmontools.Smartd.Schedule.Found.{test_delay-HasDelay}

-- The place of a test in "LncrSCO"; the other modes of a selective test have none.
abbrev pub priority : TestType → ℕ
priority TestType.long = 0
priority (TestType.selective SpanMode.sel_next) = 1
priority (TestType.selective SpanMode.sel_cont) = 2
priority (TestType.selective SpanMode.sel_redo) = 3
priority TestType.short = 4
priority TestType.conveyance = 5
priority TestType.offline = 6
priority (TestType.selective _) = 7

unfoldable pub Listed : TestType → List TestType → Type 0
Listed test [] = ⊥
Listed test (x ∷ xs) = (x ≡ test) ⊎ Listed test xs

-- The tests stand at their places, from the place `j` on.
unfoldable pub Ranked : ℕ → List TestType → Type 0
Ranked j [] = Unit
Ranked j (x ∷ xs) = (priority x ≡ j) × Ranked (suc j) xs

pub test_types-Ranked : Ranked 0 test_types
unfolding Ranked
test_types-Ranked = (refl, (refl, (refl, (refl, (refl, (refl, (refl, tt)))))))

pub test_types-Listed : (test : TestType) → priority test < 7 → Listed test test_types
unfolding Listed
test_types-Listed TestType.long h = inl refl
test_types-Listed (TestType.selective SpanMode.sel_next) h = inr (inl refl)
test_types-Listed (TestType.selective SpanMode.sel_cont) h = inr (inr (inl refl))
test_types-Listed (TestType.selective SpanMode.sel_redo) h = inr (inr (inr (inl refl)))
test_types-Listed TestType.short h = inr (inr (inr (inr (inl refl))))
test_types-Listed TestType.conveyance h = inr (inr (inr (inr (inr (inl refl)))))
test_types-Listed TestType.offline h = inr (inr (inr (inr (inr (inr (inl refl))))))
test_types-Listed (TestType.selective SpanMode.sel_range) h = absurd (omega (arith, h))
test_types-Listed (TestType.selective SpanMode.sel_other) h = absurd (omega (arith, h))

pub Listed-priority :
    (test : TestType) (j : ℕ) (xs : List TestType)
    → Ranked j xs
    → Listed test xs
    → j ≤ priority test
unfolding Ranked Listed
Listed-priority test j [] ranked listed = elim listed [ ]
Listed-priority test j (x ∷ xs) (at, ranked) (inl same) =
    let e : priority test ≡ j = rw same at at in omega (arith, e)
Listed-priority test j (x ∷ xs) (at, ranked) (inr later) =
    omega (arith, Listed-priority test (suc j) xs ranked later)

pub take-Ranked : (n j : ℕ) (xs : List TestType) → Ranked j xs → Ranked j (take n xs)
unfolding Ranked
take-Ranked zero j xs h = tt
take-Ranked (suc n) j [] h = h
take-Ranked (suc n) j (x ∷ xs) (at, ranked) = (at, take-Ranked n (suc j) xs ranked)

pub take-Listed :
    (test : TestType) (n j : ℕ) (xs : List TestType)
    → Ranked j xs
    → Listed test xs
    → priority test < j + n
    → Listed test (take n xs)
unfolding Ranked Listed
take-Listed test zero j xs ranked listed below =
    absurd (omega (arith, below, Listed-priority test j xs ranked listed))
take-Listed test (suc n) j [] ranked listed below = elim listed [ ]
take-Listed test (suc n) j (x ∷ xs) ranked (inl same) below = inl same
take-Listed test (suc n) j (x ∷ xs) (at, ranked) (inr later) below =
    inr (take-Listed test n (suc j) xs ranked later (omega (arith, below)))

-- What is left are the tests of a higher priority than what has been found.
unfoldable pub Leaves : ℕ → Option (TestType × ℕ) → Type 0
Leaves left none = left ≡ 7
Leaves left (some (test, t)) = priority test ≡ left

unfoldable pub IsSearch : Search → Type 0
IsSearch r = (r.left ≤ 7) × Leaves r.left r.found

-- A step keeps that, and does not look at more tests than before.
unfoldable pub Step : Search → Search → Type 0
Step r r' = IsSearch r' × (r'.left ≤ r.left)

-- A match that is found is at its place, below `bound`.
AtPlace : ℕ → Option (TestType × ℕ) → Type 0
AtPlace bound none = Unit
AtPlace bound (some (test, k)) = (priority test ≡ k) × (k < bound)

pub HasDelay-unique :
    (cfg : DevConfig) (o : ℕ × ℕ) (hours : ℕ) → HasDelay cfg o hours → hours ≡ test_delay cfg o
HasDelay-unique cfg (offset, limit) hours h = same h (test_delay-HasDelay cfg (offset, limit))
  where
    same :
        HasDelay cfg (offset, limit) hours
        → HasDelay cfg (offset, limit) (test_delay cfg (offset, limit))
        → hours ≡ test_delay cfg (offset, limit)
    same (inl (zero_limit, e)) (inl (zero_limit', e')) = e ∙ sym e'
    same (inl (zero_limit, e)) (inr (limited, e')) = absurd (omega (arith, zero_limit, limited))
    same (inr (limited, e)) (inl (zero_limit, e')) = absurd (omega (arith, zero_limit, limited))
    same (inr (limited, e)) (inr (limited', e')) = e ∙ sym e'

module _ (full_match : List ℕ → Bool) (local_time : ℕ → ℕ → Tm) (cfg : DevConfig)
    (s : DevState) where
  first_match-AtPlace :
      (tm : Tm) (part : List ℕ) (n j bound : ℕ) (xs : List TestType)
      → j + n ≡ bound
      → Ranked j xs
      → AtPlace bound (first_match full_match local_time s tm part j (take n xs))
  unfolding first_match AtPlace Ranked
  first_match-AtPlace tm part zero j bound xs e ranked = tt
  first_match-AtPlace tm part (suc n) j bound [] e ranked = tt
  first_match-AtPlace tm part (suc n) j bound (x ∷ xs) e (at, ranked) =
      if-each (AtPlace bound) (not (not_capable s x) && full_match (time_pattern x tm ++ part))
        (λ found. (at, omega (arith, e)))
        (λ unmatched. first_match-AtPlace tm part n (suc j) bound xs (omega (arith, e)) ranked)

  take_match-Step :
      (t : ℕ) (r : Search) (o : Option (TestType × ℕ))
      → IsSearch r
      → AtPlace r.left o
      → Step r (take_match full_match local_time t r o)
  unfolding Step IsSearch Leaves take_match AtPlace
  take_match-Step t r none h at = (h, omega arith)
  take_match-Step t r (some (test, k)) (bound, leaves) (at, below) =
      ((omega (arith, bound, below), at), omega (arith, below))

  pub check_offset-Step :
      (t : ℕ) (o : ℕ × ℕ) (part : List ℕ) (r : Search)
      → IsSearch r
      → Step r (check_offset full_match local_time cfg s t o part r)
  unfolding check_offset
  check_offset-Step t o part r h = take_match-Step t r _ h (
      first_match-AtPlace (local_time t (u32 (test_delay cfg o * 3600))) part r.left 0 r.left
        test_types (omega arith) test_types-Ranked)

  pub check_offsets-Step :
      (t : ℕ) (offsets : List (ℕ × ℕ)) (r : Search)
      → IsSearch r
      → Step r (check_offsets full_match local_time cfg s t offsets r)
  unfolding check_offsets Step
  check_offsets-Step t [] r h = (h, omega arith)
  check_offsets-Step t (o ∷ offsets) r h =
      let r1 = check_offset full_match local_time cfg s t o (offset_pattern o) r in
      let (h1, le) = check_offset-Step t o (offset_pattern o) r h in
      let (h2, le') = check_offsets-Step t offsets r1 h1 in (h2, omega (arith, le, le'))

  pub check_time-Step :
      (t : ℕ) (offsets : List (ℕ × ℕ)) (r : Search)
      → IsSearch r
      → Step r (check_time full_match local_time cfg s offsets t r)
  unfolding check_time Step
  check_time-Step t offsets r h =
      let r1 = check_offset full_match local_time cfg s t (0, 0) [] r in
      let (h1, le) = check_offset-Step t (0, 0) [] r h in
      let (h2, le') = check_offsets-Step t offsets r1 h1 in (h2, omega (arith, le, le'))

  pub check_hours-Step :
      (offsets : List (ℕ × ℕ)) (now fuel t : ℕ) (r : Search)
      → IsSearch r
      → Step r (check_hours full_match local_time cfg s offsets now fuel t r)
  unfolding check_hours Step
  check_hours-Step offsets now zero t r h = (h, omega arith)
  check_hours-Step offsets now (suc fuel) t r h =
      let r' = check_time full_match local_time cfg s offsets t r in
      let (h1, le) = check_time-Step t offsets r h in
      elim (Bool-cases (r'.left == 0 || leb now t)) [
        | inl e ↦ rw (check_hours, e) (h1, le)
        | inr e ↦
            let (h2, le') = check_hours-Step offsets now fuel (min (t + 3600) now) r' h1 in
            rw (check_hours, e) (h2, omega (arith, le, le'))
      ]
