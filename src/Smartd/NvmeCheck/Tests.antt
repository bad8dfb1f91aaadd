-- ===== src/Smartd/NvmeCheck/Tests.antt =====
-- An NVMe device with a critical warning and two new entries in its error log.
use smartmontools.Common.{ℕ, refl, ap, inl, Bool, true, false, none, some, List, [], arith}
use smartmontools.Common.{◌≡◌, ◌≢◌, ◌⊎◌, ◌∷◌, ◌==◌, if◌then◌else◌}
use smartmontools.ByteOrder.{uint64_to_uile128}
use smartmontools.Smartd.Sample.{state, cfg}
use smartmontools.Smartd.State.{DevState, EmailFreq}
use smartmontools.Smartd.Mail.{mail_warning, has_address}
use smartmontools.Smartd.Mail.Reminders.{IsDue}
use smartmontools.Smartd.OpenDevice.{open_device}
use smartmontools.Smartd.Schedule.{Tm}
use smartmontools.Smartd.AtaCheck.{reset_flags}
use smartmontools.Smartd.AtaCheck.Sends.{sends}
use smartmontools.Smartd.NvmeCheck.{NvmeSmartLog, NvmeReplies, ErrorEntry, is_device_error}
use smartmontools.Smartd.NvmeCheck.{check_nvme_error_log, nvme_check_device}
use smartmontools.Smartd.NvmeCheck.Errors.{new_entries, device_errors, largest}
use smartmontools.Smartd.NvmeCheck.Errors.{check_nvme_error_log-new}
use smartmontools.Smartd.NvmeCheck.Critical.{nvme_check_device-sends}

abbrev smart_log : NvmeSmartLog
smart_log = record {
  critical_warning = 0x04;
  temperature = record { b0 = 0x38; b1 = 0x01 };
  avail_spare = 100;
  spare_thresh = 10;
  percent_used = 3;
  media_errors = uint64_to_uile128 0;
  num_err_log_entries = uint64_to_uile128 12;
}

-- An internal error, an invalid command, and an old entry.
abbrev entry : ErrorEntry
entry = record { error_count = 12; status_field = 0x000c }

abbrev older : List ErrorEntry
older =
    record { error_count = 11; status_field = 0x0004 }
    ∷ record { error_count = 10; status_field = 0x000c }
    ∷ []

abbrev replies : NvmeReplies
replies = record {
  device = record { is_ata = false; is_powered_down = false; opened = true };
  nsid = 1;
  smart_log = some smart_log;
  self_test_log = none;
  error_log = entry ∷ older;
  start_ok = true;
}

abbrev old_state : DevState
old_state = record state { nvme_err_log_entries = 10 }

one_device_error : device_errors (new_entries 10 (entry ∷ older)) ≡ 1
unfolding is_device_error
one_device_error = refl

check_nvme_error_log-new_example :
    let newcnt : ℕ = 12 in
    let new = new_entries 10 (entry ∷ older) in
    let r = check_nvme_error_log cfg 1800 (entry ∷ older) newcnt old_state in
    ((newcnt ≢ 0)
      × (r.0.nvme_err_log_entries ≡ largest new newcnt)
      × (r.1 ≡ (if device_errors new == 0 then [] else (mail_warning cfg 1800 old_state 4).1)))
    ⊎ ((newcnt ≡ 0) × (r ≡ (old_state, [])))
check_nvme_error_log-new_example = check_nvme_error_log-new cfg 1800 entry older 12 old_state

abbrev no_match : List ℕ → Bool
no_match text = false

abbrev no_clock : ℕ → ℕ → Tm
no_clock t d = record { tm_sec = 0; tm_min = 0; tm_hour = 0; tm_mday = 1; tm_mon = 0; tm_wday = 0 }

abbrev is_unknown : EmailFreq → Bool
is_unknown EmailFreq.unknown = true
is_unknown _ = false

known : cfg.emailfreq ≢ EmailFreq.unknown
known e = grind (arith, ap is_unknown e)

opened : (open_device cfg 1800 replies.device (reset_flags old_state)).1 ≡ true
unfolding open_device reset_flags
opened = refl

nvme_check_device-sends_example :
    sends 1 (nvme_check_device no_match no_clock cfg 1800 true replies old_state).1 ≡ true
unfolding has_address IsDue
nvme_check_device-sends_example =
    nvme_check_device-sends no_match no_clock cfg 1800 true replies smart_log old_state known refl
      (omega arith) refl opened (inl refl)
