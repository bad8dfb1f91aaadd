-- ===== src/Smartd/SelfTestLog/Nvme.antt =====
-- The loop over the NVMe self-test log.
use smartmontools.Common.{ℕ, bit_and, sym, ap, ap₂, inl, inr, Bool, true, false, not, none}
use smartmontools.Common.{some, List, [], arith, leb, Bool-cases, length, ◌+◌, ◌≡◌, ◌∙◌}
use smartmontools.Common.{◌&&◌, ◌||◌, ◌∷◌, ◌==◌, ◌!=◌, ◌>>◌, if◌then◌else◌}
use smartmontools.ByteOrder.{uile64_to_uint}
use smartmontools.Smartd.SelfTestLog.{NvmeSelfTestResult, nvme_same_nsid, nvme_count_entry}
use smartmontools.Smartd.SelfTestLog.{nvme_count_entries, check_nvme_self_test_log}

-- A result that is not used, or that belongs to another namespace.
pub is_skipped : ℕ → NvmeSelfTestResult → Bool
is_skipped nsid r =
    r.self_test_status >> 4 == 0
    || bit_and r.self_test_status 0xf == 0xf
    || not (nvme_same_nsid nsid r)

-- The results with an error, 5 to 7, before the first successful extended self-test.
pub nvme_errors : ℕ → List NvmeSelfTestResult → List NvmeSelfTestResult
nvme_errors nsid [] = []
nvme_errors nsid (r ∷ rs) =
    let res = bit_and r.self_test_status 0xf in
    if is_skipped nsid r
    then nvme_errors nsid rs
    else if r.self_test_status >> 4 == 0x2 && res == 0
    then []
    else if leb 0x5 res && leb res 0x7
    then r ∷ nvme_errors nsid rs
    else nvme_errors nsid rs

-- The hours of the first result of a list, or those given.
pub first_hours : ℕ → List NvmeSelfTestResult → ℕ
first_hours hour [] = hour
first_hours hour (r ∷ rs) = uile64_to_uint r.power_on_hours

summary : ℕ → ℕ → List NvmeSelfTestResult → ℕ × ℕ
summary errcnt hour es = (errcnt + length es, if errcnt != 0 then hour else first_hours hour es)

summary-empty : (errcnt hour : ℕ) → summary errcnt hour [] ≡ (errcnt, hour)
unfolding summary first_hours
summary-empty errcnt hour = ap₂ (λ (a b : ℕ). (a, b)) (omega arith) (ground arith)

summary-later :
    (errcnt hour : ℕ) (r : NvmeSelfTestResult) (es : List NvmeSelfTestResult)
    → (errcnt + 1 != 1) ≡ true
    → summary (errcnt + 1) hour es ≡ summary errcnt hour (r ∷ es)
unfolding summary first_hours
summary-later errcnt hour r es e = ap₂ (λ (a b : ℕ). (a, b)) (omega arith) (ground arith)

summary-first :
    (errcnt hour : ℕ) (r : NvmeSelfTestResult) (es : List NvmeSelfTestResult)
    → (errcnt + 1 != 1) ≡ false
    → summary (errcnt + 1) (uile64_to_uint r.power_on_hours) es ≡ summary errcnt hour (r ∷ es)
unfolding summary first_hours
summary-first errcnt hour r es e = ap₂ (λ (a b : ℕ). (a, b)) (omega arith) (ground arith)

count_entry-cases :
    (nsid : ℕ) (r : NvmeSelfTestResult) (es : List NvmeSelfTestResult) (k : ℕ × ℕ → ℕ × ℕ)
    → ((c h : ℕ) → k (c, h) ≡ summary c h (nvme_errors nsid es))
    → (c h : ℕ)
    → (elim (nvme_count_entry nsid r (c, h)) as (λ x. ℕ × ℕ) [ none ↦ (c, h) | some acc ↦ k acc ])
      ≡ summary c h (nvme_errors nsid (r ∷ es))
unfolding nvme_count_entry nvme_errors is_skipped
count_entry-cases nsid r es k hyp c h =
    let op = r.self_test_status >> 4 in
    let res = bit_and r.self_test_status 0xf in
    elim (Bool-cases (op == 0)) [
      | inl e ↦ rw e (hyp c h)
      | inr e ↦ rw e (elim (Bool-cases (res == 0xf)) [
        | inl e ↦ rw e (hyp c h)
        | inr e ↦ rw e (elim (Bool-cases (nvme_same_nsid nsid r)) [
          | inr e ↦ rw e (hyp c h)
          | inl e ↦ rw e (elim (Bool-cases (op == 0x2 && res == 0)) [
            | inl e ↦ rw e (sym (summary-empty c h))
            | inr e ↦ rw e (elim (Bool-cases (leb 0x5 res && leb res 0x7)) [
              | inr e ↦ rw e (hyp c h)
              | inl e ↦ rw e (elim (Bool-cases (c + 1 != 1)) [
                | inl e ↦ rw e (hyp _ _ ∙ summary-later c h r (nvme_errors nsid es) e)
                | inr e ↦ rw e (hyp _ _ ∙ summary-first c h r (nvme_errors nsid es) e)
              ])
            ])
          ])
        ])
      ])
    ]

nvme_count_entries-errors :
    (nsid : ℕ) (rs : List NvmeSelfTestResult) (errcnt hour : ℕ)
    → nvme_count_entries nsid rs (errcnt, hour) ≡ summary errcnt hour (nvme_errors nsid rs)
unfolding nvme_count_entries nvme_errors
nvme_count_entries-errors nsid [] errcnt hour = sym (summary-empty errcnt hour)
nvme_count_entries-errors nsid (r ∷ rs) errcnt hour =
    count_entry-cases nsid r rs (λ acc. nvme_count_entries nsid rs acc)
      (λ c h. nvme_count_entries-errors nsid rs c h) errcnt hour

-- The count is the number of errors of the namespace before its first successful extended self-test,
-- and the hour is that of the first of them, or 0.
pub check_nvme_self_test_log-errors :
    (nsid : ℕ) (rs : List NvmeSelfTestResult)
    → let es = nvme_errors nsid rs in
      check_nvme_self_test_log nsid rs ≡ (length es, first_hours 0 es)
unfolding check_nvme_self_test_log summary
check_nvme_self_test_log-errors nsid rs =
    nvme_count_entries-errors nsid rs 0 0
    ∙ ap (λ (n : ℕ). (n, first_hours 0 (nvme_errors nsid rs))) (omega arith)
