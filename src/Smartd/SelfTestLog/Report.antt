-- ===== src/Smartd/SelfTestLog/Report.antt =====
-- A change of the self-test log is reported once.
use smartmontools.Common.{ℕ, refl, false, not, some, [], arith, ltb, get_or, if-both, ◌<◌}
use smartmontools.Common.{◌≡◌, ◌==◌}
use smartmontools.Smartd.State.{DevState, DevConfig}
use smartmontools.Smartd.Mail.{smartd_nmail, no_mailinfo, reset_warning_mail}
use smartmontools.Smartd.SelfTestLog.{is_new_error, report_self_test_log_changes}

-- The stored count and hour.
IsStored : ℕ → ℕ → DevState → Type 0
IsStored errcnt hour s = (s.selflogcount ≡ errcnt) × (s.selfloghour ≡ hour)

reset-IsStored :
    (errcnt hour which : ℕ) (s : DevState)
    → IsStored errcnt hour s
    → IsStored errcnt hour (reset_warning_mail s which)
unfolding IsStored reset_warning_mail
reset-IsStored errcnt hour which s h =
    if-both (IsStored errcnt hour) (not (ltb which smartd_nmail)) h
      (if-both (IsStored errcnt hour) ((get_or s.maillog which no_mailinfo).logged == 0) h h)

no_new_error :
    (s : DevState) (errcnt hour : ℕ) → IsStored errcnt hour s → is_new_error s errcnt hour ≡ false
unfolding is_new_error IsStored
no_new_error s errcnt hour h = ground (arith, h.0, h.1)

-- For a count below 256, a report stores the count and the hour, so that a second report of the same
-- values, at any time, sends no mail.
pub report-once :
    (cfg : DevConfig) (now later : ℕ) (s : DevState) (errcnt hour : ℕ)
    → errcnt < 256
    → let s' = (report_self_test_log_changes cfg now s (some errcnt) hour).0 in
      (s'.selflogcount ≡ errcnt)
      × (s'.selfloghour ≡ hour)
      × ((report_self_test_log_changes cfg later s' (some errcnt) hour).1 ≡ [])
unfolding report_self_test_log_changes IsStored
report-once cfg now later s errcnt hour small =
    let s' = (report_self_test_log_changes cfg now s (some errcnt) hour).0 in
    let stored : IsStored errcnt hour s' = (omega arith, refl) in
    let quiet =
      no_new_error (reset_warning_mail s' 8) errcnt hour (reset-IsStored errcnt hour 8 s' stored) in
    (stored.0, stored.1, rw quiet refl)
