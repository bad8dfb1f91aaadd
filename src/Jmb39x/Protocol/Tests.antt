-- ===== src/Jmb39x/Protocol/Tests.antt =====
-- A truncated self-test log, and a response to SMART READ VALUES.
use smartmontools.Common.{ℕ, zero, suc, refl, true, false, none, some, List, [], arith}
use smartmontools.Common.{get_or, set, replicate, IsBytes, ◌+◌, ◌≤◌, ◌<◌, ◌≡◌, ◌∷◌, ◌++◌}
use smartmontools.Jmb39x.Sector.{nonempty}
use smartmontools.Jmb39x.Protocol.{AtaInRegs, AtaCmdIn, Direction, CmdError, is_supported_by_jmb}
use smartmontools.Jmb39x.Protocol.{log_entry, entry_hours, has_entries, copy_data_in}
use smartmontools.Jmb39x.Protocol.{jmb_fix_selftest_log_index, ata_cmd_is_supported}
use smartmontools.Jmb39x.Protocol.DataIn.{copy_data_in-checksum}
use smartmontools.Jmb39x.Protocol.LogIndex.{jmb_fix_selftest_log_index-highest}
use smartmontools.Ata.Checksum.{ata_checksum}

-- Entries 0 and 2 with 5 and 258 hours; entry 1 is empty.
abbrev truncated_log : List ℕ
truncated_log =
    (0 ∷ 0 ∷ 1 ∷ 0 ∷ 0 ∷ 0 ∷ 5 ∷ 0 ∷ [])
    ++ (replicate 42 0 ++ ((1 ∷ 0 ∷ 0 ∷ 0 ∷ 2 ∷ 1 ∷ []) ++ replicate 456 0))

abbrev smart_read_values : AtaInRegs
smart_read_values = record {
  features = 0xd0;
  sector_count = 1;
  lba_low = 0;
  lba_mid = 0x4f;
  lba_high = 0xc2;
  command = 0xb0;
}

abbrev no_regs : AtaInRegs
no_regs = record {
  features = 0;
  sector_count = 0;
  lba_low = 0;
  lba_mid = 0;
  lba_high = 0;
  command = 0;
}

abbrev read_values_cmd : AtaCmdIn
read_values_cmd = record {
  in_regs = smart_read_values;
  prev = no_regs;
  prev_is_set = false;
  out_needed = false;
  direction = Direction.data_in;
  buffer = some (replicate 512 0);
  size = 512;
}

fixed_at_index_3 : get_or (jmb_fix_selftest_log_index truncated_log) 508 0 ≡ 3
unfolding jmb_fix_selftest_log_index nonempty log_entry entry_hours
fixed_at_index_3 = refl

supported :
    (ata_cmd_is_supported read_values_cmd 0x21 ≡ none)
    × (ata_cmd_is_supported (record read_values_cmd { size = 1024 }) 0x21
        ≡ some CmdError.size_mismatch)
    × (ata_cmd_is_supported (record read_values_cmd { out_needed = true }) 0x21
        ≡ some CmdError.output_regs_not_implemented)
unfolding ata_cmd_is_supported
supported = (refl, refl, refl)

sevens-IsBytes : (n : ℕ) → IsBytes (replicate n 7)
sevens-IsBytes zero = tt
sevens-IsBytes (suc n) = (omega arith, sevens-IsBytes n)

copy_data_in-checksum_example : ata_checksum (copy_data_in smart_read_values (replicate 512 7)) ≡ 0
unfolding is_supported_by_jmb
copy_data_in-checksum_example =
    copy_data_in-checksum smart_read_values (replicate 512 7) refl (sevens-IsBytes 512) refl

jmb_fix_selftest_log_index-highest_example :
    (i : ℕ) × (i < 21)
    × (jmb_fix_selftest_log_index truncated_log ≡ set truncated_log 508 (i + 1))
    × (nonempty (log_entry truncated_log i) ≡ true)
    × ((j : ℕ)
        → j < 21
        → nonempty (log_entry truncated_log j) ≡ true
        → entry_hours (log_entry truncated_log j) ≤ entry_hours (log_entry truncated_log i))
unfolding has_entries log_entry nonempty
jmb_fix_selftest_log_index-highest_example =
    jmb_fix_selftest_log_index-highest truncated_log refl refl
