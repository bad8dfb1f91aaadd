-- ===== src/Smartd/AtaSelfTest.antt =====
-- DoATASelfTest of src/smartd.cpp. The SMART data, the selective self-test log and the result of the
-- command are arguments.
pub mod Span
mod Tests
use smartmontools.Common.{ℕ, Bool, true, not, Option, none, some, List, [], get_or, flag_set}
use smartmontools.Common.{◌&&◌, ◌∷◌, ◌==◌, ◌>>◌, if◌then◌else◌}
use smartmontools.Ata.Attributes.{SmartAttribute}
use smartmontools.Ata.SelectiveTest.{SpanMode, SpanArgs, SelftestArgs, SelectiveLog, Prepared}
use smartmontools.Ata.SelectiveTest.{prepare_selective_self_test}
use smartmontools.Smartd.State.{DevState, DevConfig}

-- The fields of struct ata_smart_values that are used.
pub record SmartValues : Type 0 where
  pub vendor_attributes : List SmartAttribute
  pub offline_data_collection_status : ℕ
  pub self_test_exec_status : ℕ
  pub offline_data_collection_capability : ℕ

-- The letters of the test types, and SEL_CONT, SEL_NEXT and SEL_REDO for the selective ones.
pub data TestType : Type 0 where
  offline conveyance short long : TestType
  selective : SpanMode → TestType

-- The masks of ata_is_offline_immediate_capable and its kin.
unfoldable pub capability : TestType → ℕ
capability TestType.offline = 0x01
capability TestType.conveyance = 0x20
capability TestType.short = 0x10
capability TestType.long = 0x10
capability (TestType.selective mode) = 0x40

unfoldable pub is_capable : SmartValues → TestType → Bool
unfolding capability flag_set
is_capable smart test = flag_set smart.offline_data_collection_capability (capability test)

-- The device is not capable of the test.
unfoldable pub set_not_capable : TestType → DevState → DevState
set_not_capable TestType.offline s = record s { not_cap_offline = true }
set_not_capable TestType.conveyance s = record s { not_cap_conveyance = true }
set_not_capable TestType.short s = record s { not_cap_short = true }
set_not_capable TestType.long s = record s { not_cap_long = true }
set_not_capable (TestType.selective mode) s = record s { not_cap_selective = true }

-- A self-test is running; a Samsung disk with this status is not trusted.
unfoldable pub is_test_running : DevConfig → SmartValues → Bool
is_test_running cfg smart =
    smart.self_test_exec_status >> 4 == 15
    && not (cfg.bug_samsung3 && smart.self_test_exec_status == 0xf0)

-- The replies to the commands: the SMART data, the selective self-test log, and whether writing that
-- log and starting the test work.
pub record TestReplies : Type 0 where
  pub smart : Option SmartValues
  pub log : Option SelectiveLog
  pub write_ok : Bool
  pub start_ok : Bool

-- The test of the one span of `mode`, with the last span of the state as the previous one.
unfoldable pub prepare_span : TestReplies → SmartValues → SpanMode → DevState → Prepared
unfolding prepare_selective_self_test
prepare_span device smart mode s =
    let span : SpanArgs = record { start = 0; end = 0; mode = mode } in
    let prev : SpanArgs = record {
      start = s.selective_test_last_start;
      end = s.selective_test_last_end;
      mode = SpanMode.sel_range;
    } in
    prepare_selective_self_test device.log device.write_ok
      (record { span = span ∷ []; pending_time = 0; scan_after_select = 0 })
      smart.self_test_exec_status s.num_sectors (prev ∷ [])

-- The end of DoATASelfTest: 0, 1, and the division by zero in the preparation of the span.
pub data TestResult : Type 0 where
  started not_started crashed : TestResult

-- The command is sent.
unfoldable pub start_test : TestReplies → TestType → DevState → DevState × TestResult
start_test device TestType.offline s =
    if not device.start_ok
    then (s, TestResult.not_started)
    else (record s { offline_started = true }, TestResult.started)
start_test device test s =
    if not device.start_ok
    then (s, TestResult.not_started)
    else (record s { selftest_started = true }, TestResult.started)

-- The span that was prepared becomes the last one, also if the test then fails to start.
unfoldable pub start_selective :
    TestReplies → SpanMode → DevState → Prepared → DevState × TestResult
unfolding start_test
start_selective device mode s (Prepared.prepared args log) =
    let span = get_or args.span 0 (record { start = 0; end = 0; mode = mode }) in
    start_test device (TestType.selective mode)
      (record s { selective_test_last_start = span.start; selective_test_last_end = span.end })
start_selective device mode s (Prepared.in_progress args) = (s, TestResult.not_started)
start_selective device mode s (Prepared.failed args) = (s, TestResult.not_started)
start_selective device mode s (Prepared.write_failed args log) = (s, TestResult.not_started)
start_selective device mode s Prepared.fault = (s, TestResult.crashed)

unfoldable pub prepare_and_start :
    TestReplies → SmartValues → TestType → DevState → DevState × TestResult
unfolding start_test start_selective prepare_span
prepare_and_start device smart (TestType.selective mode) s =
    start_selective device mode s (prepare_span device smart mode s)
prepare_and_start device smart test s = start_test device test s

-- DoATASelfTest once the SMART data is read.
unfoldable pub test_with :
    DevConfig → TestReplies → TestType → DevState → Option SmartValues → DevState × TestResult
unfolding is_capable set_not_capable is_test_running prepare_and_start
test_with cfg device test s none = (s, TestResult.not_started)
test_with cfg device test s (some smart) =
    if smart.offline_data_collection_capability == 0
    then (s, TestResult.not_started)
    else if not (is_capable smart test)
    then (set_not_capable test s, TestResult.not_started)
    else if is_test_running cfg smart
    then (s, TestResult.not_started)
    else prepare_and_start device smart test s

-- DoATASelfTest
unfoldable pub do_ata_self_test :
    DevConfig → TestReplies → TestType → DevState → DevState × TestResult
unfolding test_with
do_ata_self_test cfg device test s = test_with cfg device test s device.smart
