-- ===== src/Smartd/ScsiCheck/Failure.antt =====
-- A failure that a SCSI device predicts is reported by mail.
use smartmontools.Common.{ℕ, refl, Bool, true, false, some, List, [], arith, ltb, get_or}
use smartmontools.Common.{if-each, ◌≡◌, ◌≢◌}
use smartmontools.Smartd.State.{DevState, DevConfig, EmailFreq, HealthStatus}
use smartmontools.Smartd.Mail.{has_address, no_mailinfo}
use smartmontools.Smartd.Mail.Reminders.{IsDue}
use smartmontools.Smartd.OpenDevice.{Checked, ◌then_do◌, open_device}
use smartmontools.Smartd.Schedule.{Tm}
use smartmontools.Smartd.AtaCheck.{reset_flags}
use smartmontools.Smartd.AtaCheck.Untouched.{SameMail, SameMailIn, open_device-SameMail}
use smartmontools.Smartd.AtaCheck.Sends.{sends, sends-after, then_do-sends, mail_warning-sends}
use smartmontools.Smartd.ScsiCheck.{IeReply, ScsiReplies, has_ie_string, judge_ie, read_ie}
use smartmontools.Smartd.ScsiCheck.{check_scsi_temperature, check_failed_tests, store_scsi_logs}
use smartmontools.Smartd.ScsiCheck.{run_scsi_test, check_with_ie, go_on_scsi, scsi_check_device}

has_ie_string-asc : (ie : IeReply) → has_ie_string ie.asc ie.ascq ≡ true → ltb 0 ie.asc ≡ true
unfolding has_ie_string
has_ie_string-asc ie h = ground (arith, h)

judge_ie-sends :
    (cfg : DevConfig) (now : ℕ) (ie : IeReply) (s : DevState)
    → cfg.emailfreq ≢ EmailFreq.unknown
    → has_address cfg ≡ true
    → has_ie_string ie.asc ie.ascq ≡ true
    → IsDue cfg.emailfreq now 1 (get_or s.maillog 1 no_mailinfo)
    → sends 1 (judge_ie cfg now ie s).1 ≡ true
unfolding judge_ie
judge_ie-sends cfg now ie s known address failure due =
    rw (has_ie_string-asc ie failure)
      (rw failure (mail_warning-sends cfg now 1 s (omega arith) known address due))

read_ie_lem :
    (cfg : DevConfig) (now : ℕ) (ie : IeReply) (s : DevState)
    → s.suppress_report ≡ false
    → read_ie cfg now (some ie) s ≡ ((s, []), ie)
unfolding read_ie
read_ie_lem cfg now ie s reports =
    let same : IeReply → Type 0 = λ r. ◌≡◌ {A = Checked × IeReply} ((s, []), r) ((s, []), ie) in
    if-each same s.suppress_report (λ t. absurd (grind (arith, t, reports))) (λ f. refl)

module _ (full_match : List ℕ → Bool) (local_time : ℕ → ℕ → Tm) (cfg : DevConfig) (now : ℕ) where
  check_with_ie-sends :
      (allow : Bool) (replies : ScsiReplies) (ie : IeReply) (s : DevState)
      → sends 1 (judge_ie cfg now ie s).1 ≡ true
      → sends 1 (check_with_ie full_match local_time cfg now allow replies ((s, []), ie)).1 ≡ true
  unfolding check_with_ie ◌then_do◌
  check_with_ie-sends allow replies ie s h =
      let c1 = judge_ie cfg now ie s in
      let c2 = c1 then_do check_scsi_temperature cfg now ie.currenttemp in
      let c3 = c2 then_do check_failed_tests cfg now replies.failed_tests in
      then_do-sends 1 c3
        (λ (t : DevState). (
          record (store_scsi_logs cfg ie.currenttemp replies.logs_found
              (run_scsi_test full_match local_time cfg now allow replies t)) { json_dirty = true },
          [],
        ))
        (then_do-sends 1 c2 (check_failed_tests cfg now replies.failed_tests)
          (then_do-sends 1 c1 (check_scsi_temperature cfg now ie.currenttemp) h))

  go_on_scsi-sends :
      (allow : Bool) (replies : ScsiReplies) (ie : IeReply) (s : DevState) (r : Checked × Bool)
      → cfg.emailfreq ≢ EmailFreq.unknown
      → has_address cfg ≡ true
      → has_ie_string ie.asc ie.ascq ≡ true
      → replies.ie ≡ some ie
      → r.0.0.suppress_report ≡ false
      → r.1 ≡ true
      → SameMailIn 1 s r
      → IsDue cfg.emailfreq now 1 (get_or s.maillog 1 no_mailinfo)
      → sends 1 (go_on_scsi full_match local_time cfg now allow replies r).1 ≡ true
  unfolding go_on_scsi ◌then_do◌ SameMailIn SameMail
  go_on_scsi-sends allow replies ie s ((t, mails), opened) known address failure read reports go
        same due =
      let due' : IsDue cfg.emailfreq now 1 (get_or t.maillog 1 no_mailinfo) = rw same due in
      let inner =
        check_with_ie-sends allow replies ie t
          (judge_ie-sends cfg now ie t known address failure due') in
      rw go (rw read (rw (read_ie_lem cfg now ie t reports) (sends-after 1 mails _ inner)))

  -- A SCSI device that can be opened, whose reports are not suppressed, and that returns a code for which
  -- scsiGetIEString has a text, is reported: where mails are configured and a mail of type 1 is due by
  -- the log before the check, one is among the mails that are sent, whatever else the device answers.
  pub scsi_check_device-sends :
      (allow : Bool) (replies : ScsiReplies) (ie : IeReply) (s : DevState)
      → cfg.emailfreq ≢ EmailFreq.unknown
      → has_address cfg ≡ true
      → has_ie_string ie.asc ie.ascq ≡ true
      → replies.ie ≡ some ie
      → (open_device cfg now replies.device (
          reset_flags
            (record s { smart_health_status = HealthStatus.not_checked }))).0.0.suppress_report
        ≡ false
      → (open_device cfg now replies.device
          (reset_flags (record s { smart_health_status = HealthStatus.not_checked }))).1
        ≡ true
      → IsDue cfg.emailfreq now 1 (get_or s.maillog 1 no_mailinfo)
      → sends 1 (scsi_check_device full_match local_time cfg now allow replies s).1 ≡ true
  unfolding scsi_check_device reset_flags
  scsi_check_device-sends allow replies ie s known address failure read reports go due =
      let s' = reset_flags (record s { smart_health_status = HealthStatus.not_checked }) in
      go_on_scsi-sends allow replies ie s' (open_device cfg now replies.device s') known address
        failure read reports go
        (open_device-SameMail cfg now replies.device s' 1 (omega arith) (omega arith)) due
