-- ===== src/Smartd/NvmeCheck/Critical.antt =====
-- A critical warning of an NVMe device is reported by mail.
use smartmontools.Common.{ℕ, bit_and, Bool, true, some, List, arith, get_or, ◌≡◌, ◌≢◌, ◌!=◌}
use smartmontools.Smartd.State.{DevState, DevConfig, EmailFreq, HealthStatus}
use smartmontools.Smartd.Mail.{has_address, no_mailinfo}
use smartmontools.Smartd.Mail.Reminders.{IsDue}
use smartmontools.Smartd.OpenDevice.{Checked, ◌then_do◌, open_device}
use smartmontools.Smartd.Schedule.{Tm}
use smartmontools.Smartd.AtaCheck.{reset_flags}
use smartmontools.Smartd.AtaCheck.Untouched.{SameMail, SameMailIn, open_device-SameMail}
use smartmontools.Smartd.AtaCheck.Sends.{sends, sends-after, then_do-sends, warn_and_write-sends}
use smartmontools.Smartd.NvmeCheck.{NvmeSmartLog, NvmeReplies, check_critical_warning, check_spare}
use smartmontools.Smartd.NvmeCheck.{check_usage, check_nvme_temperature, check_smart_log, due_test}
use smartmontools.Smartd.NvmeCheck.{check_nvme_logs, check_open_nvme, go_on_nvme, nvme_check_device}

critical-sends :
    (cfg : DevConfig) (now : ℕ) (log : NvmeSmartLog) (s : DevState)
    → cfg.emailfreq ≢ EmailFreq.unknown
    → has_address cfg ≡ true
    → bit_and log.critical_warning cfg.smartcheck_nvme ≢ 0
    → IsDue cfg.emailfreq now 1 (get_or s.maillog 1 no_mailinfo)
    → sends 1 (check_critical_warning cfg now log s).1 ≡ true
unfolding check_critical_warning
critical-sends cfg now log s known address critical due =
    let s' : DevState = record s { smart_health_status = HealthStatus.failed } in
    let e : (bit_and log.critical_warning cfg.smartcheck_nvme != 0) ≡ true =
      ground (arith, critical) in
    rw e (warn_and_write-sends cfg now 1 s' (omega arith) known address due)

check_smart_log-sends :
    (cfg : DevConfig) (now : ℕ) (log : NvmeSmartLog) (s : DevState)
    → sends 1 (check_critical_warning cfg now log s).1 ≡ true
    → sends 1 (check_smart_log cfg now log s).1 ≡ true
unfolding check_smart_log
check_smart_log-sends cfg now log s h =
    let c1 = check_critical_warning cfg now log s in
    let c2 = c1 then_do check_spare cfg now log in
    let c3 = c2 then_do check_usage cfg now log in
    then_do-sends 1 c3 (check_nvme_temperature cfg now log) (
      then_do-sends 1 c2 (check_usage cfg now log) (then_do-sends 1 c1 (check_spare cfg now log) h))

module _ (full_match : List ℕ → Bool) (local_time : ℕ → ℕ → Tm) (cfg : DevConfig) (now : ℕ) where
  open_nvme-sends :
      (allow : Bool) (replies : NvmeReplies) (log : NvmeSmartLog) (s : DevState)
      → sends 1 (check_critical_warning cfg now log s).1 ≡ true
      → sends 1 (check_open_nvme full_match local_time cfg now allow replies (some log) s).1 ≡ true
  unfolding check_open_nvme
  open_nvme-sends allow replies log s h =
      then_do-sends 1 (check_smart_log cfg now log s)
        (λ (t : DevState).
          check_nvme_logs full_match local_time cfg now replies log
            (due_test full_match local_time cfg now allow t))
        (check_smart_log-sends cfg now log s h)

  go_on_nvme-sends :
      (allow : Bool) (replies : NvmeReplies) (log : NvmeSmartLog) (s : DevState)
      (r : Checked × Bool)
      → cfg.emailfreq ≢ EmailFreq.unknown
      → has_address cfg ≡ true
      → bit_and log.critical_warning cfg.smartcheck_nvme ≢ 0
      → replies.smart_log ≡ some log
      → r.1 ≡ true
      → SameMailIn 1 s r
      → IsDue cfg.emailfreq now 1 (get_or s.maillog 1 no_mailinfo)
      → sends 1 (go_on_nvme full_match local_time cfg now allow replies r).1 ≡ true
  unfolding go_on_nvme ◌then_do◌ SameMailIn SameMail
  go_on_nvme-sends allow replies log s ((t, mails), opened) known address critical read go same
        due =
      let due' : IsDue cfg.emailfreq now 1 (get_or t.maillog 1 no_mailinfo) = rw same due in
      let inner =
        open_nvme-sends allow replies log t
          (critical-sends cfg now log t known address critical due') in
      rw go (rw read (sends-after 1 mails _ inner))

  -- A device that can be opened and whose SMART/Health log shows a critical warning bit that is checked
  -- is reported: where mails are configured and a mail of type 1 is due by the log before the check, one
  -- is among the mails that are sent, whatever else the device answers.
  pub nvme_check_device-sends :
      (allow : Bool) (replies : NvmeReplies) (log : NvmeSmartLog) (s : DevState)
      → cfg.emailfreq ≢ EmailFreq.unknown
      → has_address cfg ≡ true
      → bit_and log.critical_warning cfg.smartcheck_nvme ≢ 0
      → replies.smart_log ≡ some log
      → (open_device cfg now replies.device (reset_flags s)).1 ≡ true
      → IsDue cfg.emailfreq now 1 (get_or s.maillog 1 no_mailinfo)
      → sends 1 (nvme_check_device full_match local_time cfg now allow replies s).1 ≡ true
  unfolding nvme_check_device reset_flags
  nvme_check_device-sends allow replies log s known address critical read go due =
      let s' = reset_flags s in
      go_on_nvme-sends allow replies log s' (open_device cfg now replies.device s') known address
        critical read go
        (open_device-SameMail cfg now replies.device s' 1 (omega arith) (omega arith)) due
