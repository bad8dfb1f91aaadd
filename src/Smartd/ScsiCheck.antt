-- ===== src/Smartd/ScsiCheck.antt =====
-- SCSICheckDevice and DoSCSISelfTest of src/smartd.cpp, with the codes that scsiGetIEString of
-- lib/scsicmds.cpp knows. The device's replies are arguments, and the clock is read once.
pub mod Failure
mod Tests
use smartmontools.Common.{ℕ, bit_and, Bool, true, false, not, Option, none, some, List, []}
use smartmontools.Common.{ltb, leb, length, ◌-◌, ◌%◌, ◌&&◌, ◌||◌, ◌==◌, ◌!=◌, ◌>>◌}
use smartmontools.Common.{if◌then◌else◌}
use smartmontools.Smartd.State.{DevState, DevConfig, HealthStatus}
use smartmontools.Smartd.Mail.{Mail, mail_warning}
use smartmontools.Smartd.Temperature.{check_temperature}
use smartmontools.Smartd.SelfTestLog.{report_self_test_log_changes}
use smartmontools.Smartd.OpenDevice.{Checked, ◌then_do◌, OpenReplies, open_device}
use smartmontools.Smartd.AtaSelfTest.{TestType}
use smartmontools.Smartd.Schedule.{Tm, next_scheduled_test}
use smartmontools.Smartd.AtaCheck.{reset_flags}

-- The codes of 0x5d by a range: the rows from 0x10 on have 13 entries each.
unfoldable pub is_failure_row : ℕ → Bool
is_failure_row ascq = leb 0x10 ascq && leb ascq 0x6c && leb ((ascq - 0x10) % 0x10) 0xc

-- Whether scsiGetIEString returns a text.
unfoldable pub has_ie_string : ℕ → ℕ → Bool
unfolding is_failure_row
has_ie_string asc ascq =
    if asc == 0xb
    then leb ascq 9
      || ascq == 0x12
      || ascq == 0x13
      || ascq == 0x14
      || (leb 0xa ascq && leb ascq 0x11)
    else if asc == 0x5d
    then leb ascq 3 || ascq == 0x1d || ascq == 0x73 || ascq == 0xff || is_failure_row ascq
    else false

-- What scsiCheckIE returns, if it succeeds.
pub record IeReply : Type 0 where
  pub asc : ℕ
  pub ascq : ℕ
  pub currenttemp : ℕ

-- The results of the command that starts a self-test: 0, SIMPLE_ERR_BAD_OPCODE or
-- SIMPLE_ERR_BAD_FIELD, and other errors.
pub data ScsiResult : Type 0 where
  scsi_ok bad_command scsi_error : ScsiResult

-- The replies of the device in one check. `in_progress` is none if the device has no self-tests;
-- `failed_tests` is the result of scsiCountFailedSelfTests, none if it is negative, and `logs_found`
-- whether one of the error counter pages could be read.
pub record ScsiReplies : Type 0 where
  pub device : OpenReplies
  pub ie : Option IeReply
  pub failed_tests : Option ℕ
  pub in_progress : Option ℕ
  pub test_result : ScsiResult
  pub logs_found : Bool

-- The start of a test, and what an invalid command tells of the device.
unfoldable pub scsi_test_started : TestType → ScsiResult → DevState → DevState
scsi_test_started TestType.long ScsiResult.bad_command s = record s { not_cap_long = true }
scsi_test_started TestType.short ScsiResult.bad_command s = record s { not_cap_short = true }
scsi_test_started test result s = s

-- DoSCSISelfTest: the state after it.
unfoldable pub do_scsi_self_test : TestType → Option ℕ → ScsiResult → DevState → DevState
unfolding scsi_test_started
do_scsi_self_test test none result s = record s { not_cap_short = true; not_cap_long = true }
do_scsi_self_test test (some in_progress) result s =
    if in_progress == 1 then s else scsi_test_started test result s

-- The informational exceptions, once they could be read.
unfoldable pub judge_ie : DevConfig → ℕ → IeReply → DevState → Checked
unfolding has_ie_string mail_warning
judge_ie cfg now ie s =
    let (s', mails) = mail_warning cfg now s 1 in
    if ltb 0 ie.asc
    then if has_ie_string ie.asc ie.ascq
      then (record s' { smart_health_status = HealthStatus.failed }, mails)
      else (s, [])
    else if not s.suppress_report
    then (record s { smart_health_status = HealthStatus.passed }, [])
    else (s, [])

abbrev pub no_ie : IeReply
no_ie = record { asc = 0; ascq = 0; currenttemp = 0 }

-- scsiCheckIE fails: the reports are suppressed from then on.
unfoldable pub ie_failed : DevConfig → ℕ → DevState → Checked
unfolding mail_warning
ie_failed cfg now s =
    let (s', mails) = mail_warning cfg now s 6 in (record s' { suppress_report = true }, mails)

-- The reply that is judged, and the state and mails before: nothing is read if reports are suppressed.
unfoldable pub read_ie : DevConfig → ℕ → Option IeReply → DevState → Checked × IeReply
unfolding ie_failed
read_ie cfg now none s = (if s.suppress_report then (s, []) else ie_failed cfg now s, no_ie)
read_ie cfg now (some ie) s = ((s, []), if s.suppress_report then no_ie else ie)

-- The temperature, the self-test log and the scheduled test.
unfoldable pub check_scsi_temperature : DevConfig → ℕ → ℕ → DevState → Checked
unfolding check_temperature
check_scsi_temperature cfg now currenttemp s =
    if cfg.tempdiff != 0 || cfg.tempinfo != 0 || cfg.tempcrit != 0
    then check_temperature cfg now s currenttemp
    else (s, [])

unfoldable pub report_failed_tests : DevConfig → ℕ → Option ℕ → DevState → Checked
unfolding report_self_test_log_changes
report_failed_tests cfg now none s = report_self_test_log_changes cfg now s none 0
report_failed_tests cfg now (some retval) s =
    report_self_test_log_changes cfg now s (some (bit_and retval 0xff)) (retval >> 8)

unfoldable pub check_failed_tests : DevConfig → ℕ → Option ℕ → DevState → Checked
unfolding report_failed_tests
check_failed_tests cfg now failed_tests s =
    if cfg.selftest then report_failed_tests cfg now failed_tests s else (s, [])

unfoldable pub start_scsi_test : ScsiReplies → DevState × Option TestType → DevState
unfolding do_scsi_self_test
start_scsi_test replies (s, none) = s
start_scsi_test replies (s, some test) =
    do_scsi_self_test test replies.in_progress replies.test_result s

-- The attribute log; the counters themselves are not in the model.
unfoldable pub store_scsi_logs : DevConfig → ℕ → Bool → DevState → DevState
store_scsi_logs cfg currenttemp logs_found s =
    let temp : ℕ =
      if cfg.tempdiff != 0 || cfg.tempinfo != 0 || cfg.tempcrit != 0
      then s.temperature
      else currenttemp in
    if leb (length cfg.attrlog_file) 0 then s else record s {
      temperature = temp;
      attrlog_valid = if logs_found || temp != 0 then 2 else s.attrlog_valid;
      scsi_logs_refreshed = true;
    }

module _ (full_match : List ℕ → Bool) (local_time : ℕ → ℕ → Tm) where
  unfoldable pub run_scsi_test : DevConfig → ℕ → Bool → ScsiReplies → DevState → DevState
  unfolding start_scsi_test next_scheduled_test
  run_scsi_test cfg now allow_selftests replies s =
      if allow_selftests && not (leb (length cfg.test_regex) 0)
      then start_scsi_test replies (next_scheduled_test full_match local_time cfg now s)
      else s

  -- SCSICheckDevice once the informational exceptions are read.
  unfoldable pub check_with_ie : DevConfig → ℕ → Bool → ScsiReplies → Checked × IeReply → Checked
  unfolding ◌then_do◌ judge_ie check_scsi_temperature check_failed_tests run_scsi_test
      store_scsi_logs
  check_with_ie cfg now allow_selftests replies (c, ie) =
      c
      then_do judge_ie cfg now ie
      then_do check_scsi_temperature cfg now ie.currenttemp
      then_do check_failed_tests cfg now replies.failed_tests
      then_do (λ s'. (
        record (store_scsi_logs cfg ie.currenttemp replies.logs_found
            (run_scsi_test cfg now allow_selftests replies s')) { json_dirty = true },
        [],
      ))

  unfoldable pub go_on_scsi : DevConfig → ℕ → Bool → ScsiReplies → Checked × Bool → Checked
  unfolding ◌then_do◌ check_with_ie
  go_on_scsi cfg now allow_selftests replies (begun, opened) =
      if opened
      then begun then_do (λ s'.
        check_with_ie cfg now allow_selftests replies (read_ie cfg now replies.ie s'))
      else begun

  -- SCSICheckDevice: the state after it and the mails that are sent.
  unfoldable pub scsi_check_device : DevConfig → ℕ → Bool → ScsiReplies → DevState → Checked
  unfolding reset_flags open_device go_on_scsi
  scsi_check_device cfg now allow_selftests replies s = go_on_scsi cfg now allow_selftests replies (
      open_device cfg now replies.device
        (reset_flags (record s { smart_health_status = HealthStatus.not_checked })))
