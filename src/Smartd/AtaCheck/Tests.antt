-- ===== src/Smartd/AtaCheck/Tests.antt =====
-- A check of the device that finds one more pending sector, a failed health status and new errors.
use smartmontools.Common.{ℕ, refl, ap, inl, Bool, true, false, none, some, List, [], map}
use smartmontools.Common.{arith, length, ◌≡◌, ◌≢◌, ◌⊎◌, ◌∷◌}
use smartmontools.Ata.Attributes.{get_attr_state, find_threshold}
use smartmontools.Smartd.Checks.{raw_at, exists_attr, is_tracked, val_changed, raw_changed}
use smartmontools.Smartd.Checks.{check_usage_failed}
use smartmontools.Smartd.Sample.{more_pending, state, cfg}
use smartmontools.Smartd.State.{EmailFreq, update_each, persistent_attribute}
use smartmontools.Smartd.Mail.{Mail, has_address}
use smartmontools.Smartd.Mail.Reminders.{IsDue}
use smartmontools.Smartd.OpenDevice.{begin_check}
use smartmontools.Smartd.AtaSelfTest.{SmartValues}
use smartmontools.Smartd.Schedule.{Tm}
use smartmontools.Smartd.AtaCheck.{AtaReplies, SmartStatus, reset_flags, ata_check_device}
use smartmontools.Smartd.AtaCheck.Fresh.{ata_check_device-fresh}
use smartmontools.Smartd.AtaCheck.Sends.{sends}
use smartmontools.Smartd.AtaCheck.Health.{ata_check_device-sends}

abbrev values : SmartValues
values = record {
  vendor_attributes = more_pending ∷ [];
  offline_data_collection_status = 0;
  self_test_exec_status = 0;
  offline_data_collection_capability = 0x5b;
}

abbrev replies : AtaReplies
replies = record {
  device = record { is_ata = true; is_powered_down = false; opened = true };
  powermode = some 0xff;
  powermode2 = some 0xff;
  smart_status = SmartStatus.status_failed;
  smart = some values;
  selftest_log = none;
  error_log = some (record { error_log_pointer = 1; ata_error_count = 5 });
  ext_error_log = some (record { error_log_index = 0; reserved1 = 1; device_error_count = 7 });
  test = record { smart = some values; log = none; write_ok = true; start_ok = true };
}

abbrev no_match : List ℕ → Bool
no_match text = false

abbrev no_clock : ℕ → ℕ → Tm
no_clock t d = record { tm_sec = 0; tm_min = 0; tm_hour = 0; tm_mday = 1; tm_mon = 0; tm_wday = 0 }

-- The types of the mails of the check: health, pending sectors, self-test log and errors.
abbrev types : List Mail → List ℕ
types mails = map (λ mail. mail.failtype) mails

mails_of_check :
    types (ata_check_device no_match no_clock cfg 1800 true replies state).1 ≡ 1 ∷ 10 ∷ 8 ∷ 4 ∷ []
unfolding ata_check_device raw_at exists_attr get_attr_state find_threshold is_tracked val_changed
    raw_changed check_usage_failed
mails_of_check = refl

ata_check_device-fresh_example :
    let t = (ata_check_device no_match no_clock cfg 1800 true replies state).0 in
    (length t.maillog ≡ length state.maillog)
    × (((t.ata_attr_refreshed ≡ false)
          × (t.smartval ≡ state.smartval)
          × (t.ata_attributes ≡ state.ata_attributes))
        ⊎ ((smart : SmartValues) × (replies.smart ≡ some smart)
            × (t.ata_attr_refreshed ≡ true)
            × (t.smartval ≡ smart.vendor_attributes)
            × (t.ata_attributes
                ≡ update_each persistent_attribute smart.vendor_attributes state.ata_attributes)))
ata_check_device-fresh_example =
    ata_check_device-fresh no_match no_clock cfg 1800 true replies state

abbrev is_unknown : EmailFreq → Bool
is_unknown EmailFreq.unknown = true
is_unknown _ = false

known : cfg.emailfreq ≢ EmailFreq.unknown
known e = grind (arith, ap is_unknown e)

begun :
    (begin_check cfg 1800 replies.device replies.powermode replies.powermode2 (reset_flags state)).1
    ≡ true
unfolding begin_check reset_flags
begun = refl

ata_check_device-sends_example :
    sends 1 (ata_check_device no_match no_clock cfg 1800 true replies state).1 ≡ true
unfolding has_address IsDue
ata_check_device-sends_example =
    ata_check_device-sends no_match no_clock cfg 1800 true replies state known refl refl refl begun
      (inl refl)
