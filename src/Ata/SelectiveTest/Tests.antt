-- ===== src/Ata/SelectiveTest/Tests.antt =====
-- A drive with 1000 sectors whose last test ended at LBA 699, and the next test of 300 sectors.
use smartmontools.Common.{ℕ, refl, true, false, some, [], arith, length, All, flag_set, ◌+◌}
use smartmontools.Common.{◌-◌, ◌≤◌, ◌<◌, ◌≡◌, ◌⊎◌, ◌∷◌}
use smartmontools.ByteOrder.{zero_uile64, uile64_to_uint}
use smartmontools.Ata.Checksum.{ata_checksum}
use smartmontools.Ata.SelectiveTest.{SpanArgs, SelftestArgs, SelectiveLog, empty_span}
use smartmontools.Ata.SelectiveTest.{sel_next, range, division_by_zero, check_range, mode_range}
use smartmontools.Ata.SelectiveTest.{prepared, prepare_selective_self_test, updated_log}
use smartmontools.Ata.SelectiveTest.{span_range, old_span, set_ranges, selective_flag_doscan}
use smartmontools.Ata.SelectiveTest.Ranges.{OnDisk, prepared-OnDisk}
use smartmontools.Ata.SelectiveTest.NextSpan.{next_span-accepted, inverted_span_divides_by_zero}
use smartmontools.Ata.SelectiveTest.WrittenLog.{sector, prepared-log}

abbrev old_log : SelectiveLog
old_log = record {
  logversion = 1;
  span =
      record {
        start = record { b0 = 0x90; b1 = 1; b2 = 0; b3 = 0; b4 = 0; b5 = 0; b6 = 0; b7 = 0 };
        end = record { b0 = 0xbb; b1 = 2; b2 = 0; b3 = 0; b4 = 0; b5 = 0; b6 = 0; b7 = 0 };
      }
      ∷ empty_span
      ∷ empty_span
      ∷ empty_span
      ∷ empty_span
      ∷ [];
  reserved1 = [];
  vendor_specific1 = [];
  currentlba = zero_uile64;
  currentspan = 0;
  flags = 0x18;
  vendor_specific2 = [];
  pendingtime = 0;
  reserved2 = 0;
  checksum = 0;
}

abbrev next_args : SelftestArgs
next_args = record {
  span = record { start = 0; end = 0; mode = sel_next } ∷ [];
  pending_time = 0;
  scan_after_select = 2;
}

-- The span of 300 sectors from 700 on.
abbrev next_span : SpanArgs
next_span = record { start = 700; end = 999; mode = sel_next }

abbrev done_args : SelftestArgs
done_args = record next_args { span = next_span ∷ [] }

abbrev new_log : SelectiveLog
new_log = updated_log done_args old_log

run :
    prepare_selective_self_test (some old_log) true next_args 0 1000 [] ≡ prepared done_args new_log
unfolding prepare_selective_self_test set_ranges updated_log span_range check_range mode_range
    uile64_to_uint old_span
run = refl

prepared-OnDisk_example : All (OnDisk 1000) (next_span ∷ []) × (length (next_span ∷ []) ≡ 1)
prepared-OnDisk_example = prepared-OnDisk next_args done_args old_log new_log true 0 1000 [] run

next_span-accepted_example :
    (a : ℕ) × (b : ℕ) × (check_range 1000 (mode_range 1000 sel_next 0 0 400 699) ≡ range a b)
    × (a ≤ b)
    × (b < 1000)
    × (b - a ≤ 299)
    × ((a ≡ 700) ⊎ ((a ≡ 0) × (699 + 1 ≡ 1000)) ⊎ (b + 1 ≡ 1000))
next_span-accepted_example =
    next_span-accepted 1000 400 699 (omega arith) (omega arith) (omega arith) (omega arith)

inverted_span_divides_by_zero_example :
    check_range 1000 (mode_range 1000 sel_next 0 0 1000 999) ≡ division_by_zero
inverted_span_divides_by_zero_example =
    inverted_span_divides_by_zero 1000 999 (omega arith) (omega arith) (omega arith)

prepared-log_example :
    (ata_checksum (sector new_log) ≡ 0)
    × (length new_log.span ≡ 5)
    × (new_log.currentspan ≡ 0)
    × (flag_set new_log.flags 0x10 ≡ false)
    × (flag_set new_log.flags 0x08 ≡ false)
    × (flag_set new_log.flags selective_flag_doscan ≡ true)
prepared-log_example = prepared-log next_args done_args old_log new_log true 0 1000 [] run
