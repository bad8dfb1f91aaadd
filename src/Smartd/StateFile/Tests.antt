-- ===== src/Smartd/StateFile/Tests.antt =====
-- A device with a warning that was sent and one attribute, its state file and the way back.
use smartmontools.Common.{ℕ, refl, true, Option, none, some, List, [], arith, replicate}
use smartmontools.Common.{same_bytes, decimal, ◌≡◌, ◌∷◌, ◌++◌, if◌then◌else◌}
use smartmontools.ByteOrder.{uile128_clamp_to_uint64, uint64_to_uile128}
use smartmontools.Smartd.Sample.{state}
use smartmontools.Smartd.State.{DevState}
use smartmontools.Smartd.Mail.{no_mailinfo}
use smartmontools.Smartd.StateFile.{Match, no_attribute, read_dev_state}
use smartmontools.Smartd.StateFile.Writer.{Key, key_line, written_values, write_dev_state}
use smartmontools.Smartd.StateFile.Lines.{key_match}
use smartmontools.Smartd.StateFile.Restored.{with_persistent}
use smartmontools.Smartd.StateFile.RoundTrip.{write_dev_state-read}

abbrev warned : DevState
warned = record state {
  selfloghour = 70000;
  ataerrorcount = 12;
  maillog =
      no_mailinfo
      ∷ record { logged = 2; firstsent = 86400; lastsent = 172800 }
      ∷ replicate 11 no_mailinfo;
  ata_attributes =
      replicate 4 no_attribute
      ++ (record { id = 197; val = 100; worst = 99; raw = 8; resvd = 0 }
          ∷ replicate 25 no_attribute);
}

abbrev values : List (Key × ℕ)
values =
    (Key.temperature_min, 20)
    ∷ (Key.temperature_max, 40)
    ∷ (Key.self_test_last_err_hour, 70000)
    ∷ (Key.mail_count 1, 2)
    ∷ (Key.mail_first_sent_time 1, 86400)
    ∷ (Key.mail_last_sent_time 1, 172800)
    ∷ (Key.ata_error_count, 12)
    ∷ (Key.attribute_id 4, 197)
    ∷ (Key.attribute_val 4, 100)
    ∷ (Key.attribute_worst 4, 99)
    ∷ (Key.attribute_raw 4, 8)
    ∷ []

written_values_of_warned : written_values warned ≡ values
unfolding written_values uile128_clamp_to_uint64 uint64_to_uile128
written_values_of_warned = refl

-- A regular expression that matches these lines.
abbrev find_line : List (Key × ℕ) → List ℕ → Option Match
find_line [] line = none
find_line (value ∷ values) line =
    if same_bytes (key_line value) line then some (key_match value.0) else find_line values line

abbrev execute : List ℕ → Option Match
execute = find_line values

write_dev_state-read_example :
    read_dev_state execute (some (write_dev_state warned)) state
    ≡ (with_persistent warned state, true)
unfolding key_line same_bytes written_values uile128_clamp_to_uint64 uint64_to_uile128 decimal
write_dev_state-read_example =
    write_dev_state-read execute warned state (omega arith)
      (refl, (refl, (refl, (refl, (refl, (refl, (refl, (refl, (refl, (refl, (refl, tt)))))))))))
