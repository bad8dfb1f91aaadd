-- ===== src/Smartd/SelfTestLog/Count.antt =====
-- The loops over the self-test logs count the errors since the last successful extended self-test.
use smartmontools.Common.{ℕ, zero, suc, refl, sym, ap, ap₂, inl, inr, false, not, none, some}
use smartmontools.Common.{List, [], arith, Bool-cases, length, get_elem?, get_or, ◌+◌, ◌-◌}
use smartmontools.Common.{◌%◌, ◌≤◌, ◌≡◌, ◌∙◌, ◌≢◌, ◌∷◌, ◌==◌, ◌!=◌, if◌then◌else◌}
use smartmontools.Smartd.SelfTestLog.{SelftestEntry, SelftestLog, empty_entry, nonempty_entry}
use smartmontools.Smartd.SelfTestLog.{stops_count, shows_error, count_entry, count_entries}
use smartmontools.Smartd.SelfTestLog.{check_ata_self_test_log}

-- The entries from the newest one on: n of them from index n - 1 + mostrecenttest down, modulo 21.
pub visited : ℕ → SelftestLog → List SelftestEntry
visited zero log = []
visited (suc i) log =
    get_or log.selftest_struct ((i + log.mostrecenttest) % 21) empty_entry ∷ visited i log

-- The entries that show an error, before the first successful extended self-test.
pub errors : List SelftestEntry → List SelftestEntry
errors [] = []
errors (e ∷ es) =
    if not (nonempty_entry e)
    then errors es
    else if stops_count e
    then []
    else if shows_error e
    then e ∷ errors es
    else errors es

-- The first time stamp that is not 0.
pub first_hour : List SelftestEntry → ℕ
first_hour [] = 0
first_hour (e ∷ es) = if e.timestamp != 0 then e.timestamp else first_hour es

-- What the loop makes of its counters, given the errors that it meets.
summary : ℕ → ℕ → List SelftestEntry → ℕ × ℕ
summary errcnt hour es = (errcnt + length es, if hour != 0 then hour else first_hour es)

summary-empty : (errcnt hour : ℕ) → summary errcnt hour [] ≡ (errcnt, hour)
unfolding summary first_hour
summary-empty errcnt hour = ap₂ (λ (a b : ℕ). (a, b)) (omega arith) (ground arith)

summary-error :
    (errcnt hour : ℕ) (e : SelftestEntry) (es : List SelftestEntry)
    → summary (errcnt + 1) (if hour == 0 then e.timestamp else hour) es
      ≡ summary errcnt hour (e ∷ es)
unfolding summary first_hour
summary-error errcnt hour e es = ap₂ (λ (a b : ℕ). (a, b)) (omega arith) (ground arith)

count_step :
    (e : SelftestEntry) (es : List SelftestEntry) (k : ℕ × ℕ → ℕ × ℕ)
    → ((c h : ℕ) → k (c, h) ≡ summary c h (errors es))
    → (c h : ℕ)
    → (elim (count_entry e (c, h)) as (λ x. ℕ × ℕ) [ none ↦ (c, h) | some acc ↦ k acc ])
      ≡ summary c h (errors (e ∷ es))
unfolding count_entry errors
count_step e es k hyp c h = elim (Bool-cases (nonempty_entry e)) [
  | inr empty ↦ rw empty (hyp c h)
  | inl full ↦ rw full (elim (Bool-cases (stops_count e)) [
    | inl stops ↦ rw stops (sym (summary-empty c h))
    | inr goes_on ↦ rw goes_on (elim (Bool-cases (shows_error e)) [
      | inl error ↦ rw error (hyp _ _ ∙ summary-error c h e (errors es))
      | inr good ↦ rw good (hyp c h)
    ])
  ])
]

count_entries-errors :
    (n : ℕ) (log : SelftestLog) (errcnt hour : ℕ)
    → count_entries n log (errcnt, hour) ≡ summary errcnt hour (errors (visited n log))
unfolding count_entries visited errors
count_entries-errors zero log errcnt hour = sym (summary-empty errcnt hour)
count_entries-errors (suc i) log errcnt hour =
    count_step (get_or log.selftest_struct ((i + log.mostrecenttest) % 21) empty_entry)
      (visited i log) (λ acc. count_entries i log acc) (λ c h. count_entries-errors i log c h)
      errcnt hour

length-visited : (n : ℕ) (log : SelftestLog) → length (visited n log) ≡ n
unfolding visited
length-visited zero log = refl
length-visited (suc n) log = ap suc (length-visited n log)

length-errors : (es : List SelftestEntry) → length (errors es) ≤ length es
unfolding errors
length-errors [] = omega arith
length-errors (e ∷ es) = grind (arith, length-errors es)

-- For a log with a newest test, the count is the number of errors from the newest entry on up to the
-- first successful extended self-test, which is 21 at most, and the hour is the first time stamp of
-- those errors that is not 0.
pub check_ata_self_test_log-errors :
    (log : SelftestLog)
    → log.mostrecenttest ≢ 0
    → let es = errors (visited 21 log) in
      (check_ata_self_test_log (some log) ≡ (some (length es), first_hour es)) × (length es ≤ 21)
unfolding check_ata_self_test_log summary
check_ata_self_test_log-errors log tests =
    let some_test : (log.mostrecenttest == 0) ≡ false = ground arith in
    (
      rw some_test (
          rw (count_entries-errors 21 log 0 0)
            (ap (λ (n : ℕ). (some n, first_hour (errors (visited 21 log)))) (omega arith))),
      omega (arith, length-errors (visited 21 log), length-visited 21 log),
    )

-- The newest entry is visited first.
pub visited-newest :
    (log : SelftestLog)
    → 1 ≤ log.mostrecenttest
    → log.mostrecenttest ≤ 21
    → get_elem? (visited 21 log) 0
      ≡ some (get_or log.selftest_struct (log.mostrecenttest - 1) empty_entry)
unfolding visited
visited-newest log low high =
    ap (λ i. some (get_or log.selftest_struct i empty_entry)) (omega arith)
