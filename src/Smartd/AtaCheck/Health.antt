-- ===== src/Smartd/AtaCheck/Health.antt =====
-- A disk that reports a failed health status is reported by mail, in every check that goes on.
use smartmontools.Common.{ℕ, Bool, true, List, [], arith, get_or, ◌≡◌, ◌≢◌}
use smartmontools.Smartd.State.{DevState, DevConfig, EmailFreq, HealthStatus}
use smartmontools.Smartd.Mail.{has_address, no_mailinfo}
use smartmontools.Smartd.Mail.Reminders.{IsDue}
use smartmontools.Smartd.OpenDevice.{Checked, ◌then_do◌}
use smartmontools.Smartd.OpenDevice.{begin_check}
use smartmontools.Smartd.Schedule.{Tm}
use smartmontools.Smartd.AtaCheck.{AtaReplies, SmartStatus, health_of, reset_flags}
use smartmontools.Smartd.AtaCheck.{report_status, check_smart_status, check_smart_data}
use smartmontools.Smartd.AtaCheck.{check_selftest_log, check_error_count, run_scheduled_test}
use smartmontools.Smartd.AtaCheck.{checks_of_device, go_on_with, ata_check_device}
use smartmontools.Smartd.AtaCheck.Untouched.{SameMail, SameMailIn, begin_check-SameMail}
use smartmontools.Smartd.AtaCheck.Sends.{sends, sends-after, then_do-sends, warn_and_write-sends}

failed_status-sends :
    (cfg : DevConfig) (now : ℕ) (s : DevState)
    → cfg.emailfreq ≢ EmailFreq.unknown
    → has_address cfg ≡ true
    → IsDue cfg.emailfreq now 1 (get_or s.maillog 1 no_mailinfo)
    → cfg.smartcheck ≡ true
    → sends 1 (check_smart_status cfg now SmartStatus.status_failed s).1 ≡ true
unfolding check_smart_status report_status health_of
failed_status-sends cfg now s known address due check =
    let s' : DevState = record s { smart_health_status = HealthStatus.failed } in
    rw check (warn_and_write-sends cfg now 1 s' (omega arith) known address due)

module _ (full_match : List ℕ → Bool) (local_time : ℕ → ℕ → Tm) (cfg : DevConfig) (now : ℕ) where
  checks_of_device-sends :
      (allow : Bool) (replies : AtaReplies) (s : DevState)
      → sends 1 (check_smart_status cfg now replies.smart_status s).1 ≡ true
      → sends 1 (checks_of_device full_match local_time cfg now allow replies s).1 ≡ true
  unfolding checks_of_device
  checks_of_device-sends allow replies s h =
      let data_check = check_smart_data cfg now replies.smart in
      let log_check = check_selftest_log cfg now replies.selftest_log in
      let error_check = check_error_count cfg now replies in
      let c1 = check_smart_status cfg now replies.smart_status s in
      let c2 = c1 then_do data_check in
      let c3 = c2 then_do log_check in
      let c4 = c3 then_do error_check in
      then_do-sends 1 c4
        (λ (t : DevState). (
          record (run_scheduled_test full_match local_time cfg now allow replies.test t) {
            json_dirty = true;
          },
          [],
        ))
        (then_do-sends 1 c3 error_check
          (then_do-sends 1 c2 log_check (then_do-sends 1 c1 data_check h)))

  go_on_with-sends :
      (allow : Bool) (replies : AtaReplies) (s : DevState) (r : Checked × Bool)
      → cfg.emailfreq ≢ EmailFreq.unknown
      → has_address cfg ≡ true
      → cfg.smartcheck ≡ true
      → replies.smart_status ≡ SmartStatus.status_failed
      → r.1 ≡ true
      → SameMailIn 1 s r
      → IsDue cfg.emailfreq now 1 (get_or s.maillog 1 no_mailinfo)
      → sends 1 (go_on_with full_match local_time cfg now allow replies r).1 ≡ true
  unfolding go_on_with ◌then_do◌ SameMailIn SameMail
  go_on_with-sends allow replies s ((t, mails), go_on) known address check status go same due =
      let due' : IsDue cfg.emailfreq now 1 (get_or t.maillog 1 no_mailinfo) = rw same due in
      let status_sends : sends 1 (check_smart_status cfg now replies.smart_status t).1 ≡ true =
        rw status (failed_status-sends cfg now t known address due' check) in
      rw go (sends-after 1 mails _ (checks_of_device-sends allow replies t status_sends))

  -- If the health status is checked, a device that answers that it has failed is reported: where the
  -- check is not skipped, mails are configured, and a mail of type 1 is due by the log before the
  -- check, one is among the mails that are sent, whatever else the device answers.
  pub ata_check_device-sends :
      (allow : Bool) (replies : AtaReplies) (s : DevState)
      → cfg.emailfreq ≢ EmailFreq.unknown
      → has_address cfg ≡ true
      → cfg.smartcheck ≡ true
      → replies.smart_status ≡ SmartStatus.status_failed
      → (begin_check cfg now replies.device replies.powermode replies.powermode2 (reset_flags s)).1
        ≡ true
      → IsDue cfg.emailfreq now 1 (get_or s.maillog 1 no_mailinfo)
      → sends 1 (ata_check_device full_match local_time cfg now allow replies s).1 ≡ true
  unfolding ata_check_device reset_flags
  ata_check_device-sends allow replies s known address check status go due =
      let s' = reset_flags s in
      let r = begin_check cfg now replies.device replies.powermode replies.powermode2 s' in
      go_on_with-sends allow replies s' r known address check status go
        (begin_check-SameMail cfg now replies.device replies.powermode replies.powermode2 s' 1
          (omega arith) (omega arith))
        due
