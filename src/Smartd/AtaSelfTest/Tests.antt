-- ===== src/Smartd/AtaSelfTest/Tests.antt =====
-- A selective self-test of the next 300 of 1000 sectors.
use smartmontools.Common.{refl, true, some, [], replicate, ◌≡◌}
use smartmontools.ByteOrder.{zero_uile64, uile64_to_uint, uint_to_uile64}
use smartmontools.Ata.SelectiveTest.{
  SpanMode, SelectiveLog, empty_span, prepare_selective_self_test,
}
use smartmontools.Ata.SelectiveTest.{set_ranges, span_range, check_range, mode_range}
use smartmontools.Ata.SelectiveTest.{old_span}
use smartmontools.Smartd.Sample.{state, cfg}
use smartmontools.Smartd.State.{DevState}
use smartmontools.Smartd.AtaSelfTest.{SmartValues, TestType, TestReplies, TestResult}
use smartmontools.Smartd.AtaSelfTest.{do_ata_self_test}
use smartmontools.Smartd.AtaSelfTest.Span.{IsAllowed, HasSpan, do_ata_self_test-IsAllowed}
use smartmontools.Smartd.AtaSelfTest.Span.{do_ata_self_test-HasSpan}

abbrev empty_log : SelectiveLog
empty_log = record {
  logversion = 1;
  span = replicate 5 empty_span;
  reserved1 = [];
  vendor_specific1 = [];
  currentlba = zero_uile64;
  currentspan = 0;
  flags = 0;
  vendor_specific2 = [];
  pendingtime = 0;
  reserved2 = 0;
  checksum = 0;
}

abbrev capable : SmartValues
capable = record {
  vendor_attributes = [];
  offline_data_collection_status = 0;
  self_test_exec_status = 0;
  offline_data_collection_capability = 0x5b;
}

abbrev device : TestReplies
device = record { smart = some capable; log = some empty_log; write_ok = true; start_ok = true }

abbrev with_span : DevState
with_span = record state {
  num_sectors = 1000;
  selective_test_last_start = 400;
  selective_test_last_end = 699;
}

abbrev next_test : TestType
next_test = TestType.selective SpanMode.sel_next

started : (do_ata_self_test cfg device next_test with_span).1 ≡ TestResult.started
unfolding do_ata_self_test prepare_selective_self_test set_ranges span_range check_range mode_range
    uile64_to_uint old_span uint_to_uile64
started = refl

next_start : (do_ata_self_test cfg device next_test with_span).0.selective_test_last_start ≡ 700
unfolding do_ata_self_test prepare_selective_self_test set_ranges span_range check_range mode_range
    uile64_to_uint old_span uint_to_uile64
next_start = refl

do_ata_self_test-IsAllowed_example :
    (smart : SmartValues) × (device.smart ≡ some smart) × IsAllowed cfg next_test smart
do_ata_self_test-IsAllowed_example =
    do_ata_self_test-IsAllowed cfg device next_test with_span started

do_ata_self_test-HasSpan_example : HasSpan 1000 (do_ata_self_test cfg device next_test with_span).0
do_ata_self_test-HasSpan_example =
    do_ata_self_test-HasSpan cfg device SpanMode.sel_next with_span started
