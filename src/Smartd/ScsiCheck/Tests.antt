-- ===== src/Smartd/ScsiCheck/Tests.antt =====
-- A SCSI device that predicts a failure.
use smartmontools.Common.{ℕ, refl, ap, inl, Bool, true, false, some, List, arith, ◌≡◌, ◌≢◌}
use smartmontools.Smartd.Sample.{state, cfg}
use smartmontools.Smartd.State.{EmailFreq}
use smartmontools.Smartd.Mail.{has_address}
use smartmontools.Smartd.Mail.Reminders.{IsDue}
use smartmontools.Smartd.OpenDevice.{open_device}
use smartmontools.Smartd.Schedule.{Tm}
use smartmontools.Smartd.AtaCheck.{reset_flags}
use smartmontools.Smartd.AtaCheck.Sends.{sends}
use smartmontools.Smartd.ScsiCheck.{IeReply, ScsiReplies, ScsiResult, has_ie_string}
use smartmontools.Smartd.ScsiCheck.{scsi_check_device}
use smartmontools.Smartd.ScsiCheck.Failure.{scsi_check_device-sends}

abbrev predicted : IeReply
predicted = record { asc = 0x5d; ascq = 0x10; currenttemp = 35 }

abbrev replies : ScsiReplies
replies = record {
  device = record { is_ata = false; is_powered_down = false; opened = true };
  ie = some predicted;
  failed_tests = some 0;
  in_progress = some 0;
  test_result = ScsiResult.scsi_ok;
  logs_found = false;
}

abbrev no_match : List ℕ → Bool
no_match text = false

abbrev no_clock : ℕ → ℕ → Tm
no_clock t d = record { tm_sec = 0; tm_min = 0; tm_hour = 0; tm_mday = 1; tm_mon = 0; tm_wday = 0 }

abbrev is_unknown : EmailFreq → Bool
is_unknown EmailFreq.unknown = true
is_unknown _ = false

known : cfg.emailfreq ≢ EmailFreq.unknown
known e = grind (arith, ap is_unknown e)

-- Of the codes 0x0b, one behind the known ones has no text.
unknown_code : has_ie_string 0x0b 0x15 ≡ false
unfolding has_ie_string
unknown_code = refl

scsi_check_device-sends_example :
    sends 1 (scsi_check_device no_match no_clock cfg 1800 true replies state).1 ≡ true
unfolding has_address IsDue has_ie_string open_device reset_flags
scsi_check_device-sends_example =
    scsi_check_device-sends no_match no_clock cfg 1800 true replies predicted state known refl refl
      refl refl refl (inl refl)
