-- ===== src/Smartd/AtaCheck.antt =====
-- ATACheckDevice of src/smartd.cpp: one check of an ATA device. The device's replies are arguments,
-- the clock is read once, and the messages of the system log are left out, with the argument
-- `firstpass` that only selects them. The two functions of libraries are those of next_scheduled_test.
use smartmontools.Common.{ℕ, suc, Bool, true, false, not, Option, none, some, List, [], ltb}
use smartmontools.Common.{leb, length, get_or, ◌&&◌, ◌||◌, ◌∷◌, ◌!=◌, if◌then◌else◌}
pub mod Kept
pub mod Steps
pub mod Frames
pub mod Fresh
pub mod Untouched
pub mod Sends
pub mod Health
mod Tests
use Prim.Native.Nat.{max}
use smartmontools.Ata.Attributes.{SmartAttribute, return_temperature_value}
use smartmontools.Smartd.State.{DevState, DevConfig, HealthStatus, update_persistent_state}
use smartmontools.Smartd.Mail.{Mail, mail_warning, reset_warning_mail}
use smartmontools.Smartd.Temperature.{check_temperature}
use smartmontools.Smartd.SelfTestLog.{SelftestLog, check_ata_self_test_log}
use smartmontools.Smartd.SelfTestLog.{report_self_test_log_changes}
use smartmontools.Smartd.Checks.{check_pending, check_attribute}
use smartmontools.Smartd.OpenDevice.{Checked, ◌then_do◌, OpenReplies, begin_check}
use smartmontools.Smartd.AtaSelfTest.{SmartValues, TestType, TestReplies, do_ata_self_test}
use smartmontools.Smartd.Schedule.{Tm, next_scheduled_test}

-- The results of ata_get_smart_status: 0, 1 and -1.
pub data SmartStatus : Type 0 where
  status_ok status_failed status_error : SmartStatus

-- The fields of struct ata_smart_errorlog and of struct ata_smart_exterrlog that are read.
pub record ErrorLog : Type 0 where
  pub error_log_pointer : ℕ
  pub ata_error_count : ℕ

pub record ExtErrorLog : Type 0 where
  pub error_log_index : ℕ
  pub reserved1 : ℕ
  pub device_error_count : ℕ

-- The replies of the device in one check. A log or the SMART data are none if they cannot be read.
pub record AtaReplies : Type 0 where
  pub device : OpenReplies
  pub powermode : Option ℕ
  pub powermode2 : Option ℕ
  pub smart_status : SmartStatus
  pub smart : Option SmartValues
  pub selftest_log : Option SelftestLog
  pub error_log : Option ErrorLog
  pub ext_error_log : Option ExtErrorLog
  pub test : TestReplies

-- The flags of a cycle are cleared.
unfoldable pub reset_flags : DevState → DevState
reset_flags s = record s {
  json_dirty = false;
  ata_attr_refreshed = false;
  ata_errorlog_refreshed = false;
  selftest_log_refreshed = false;
  scsi_logs_refreshed = false;
}

-- A warning after which the state is to be written.
unfoldable pub warn_and_write : DevConfig → ℕ → ℕ → DevState → Checked
unfolding mail_warning
warn_and_write cfg now which s =
    let (s', mails) = mail_warning cfg now s which in (record s' { must_write = true }, mails)

unfoldable pub health_of : SmartStatus → HealthStatus
health_of SmartStatus.status_ok = HealthStatus.passed
health_of SmartStatus.status_failed = HealthStatus.failed
health_of SmartStatus.status_error = HealthStatus.not_checked

unfoldable pub report_status : DevConfig → ℕ → SmartStatus → DevState → Checked
unfolding warn_and_write
report_status cfg now SmartStatus.status_ok s = (s, [])
report_status cfg now SmartStatus.status_failed s = warn_and_write cfg now 1 s
report_status cfg now SmartStatus.status_error s = warn_and_write cfg now 5 s

-- "check smart status"
unfoldable pub check_smart_status : DevConfig → ℕ → SmartStatus → DevState → Checked
unfolding health_of report_status
check_smart_status cfg now status s =
    if cfg.smartcheck
    then report_status cfg now status (record s { smart_health_status = health_of status })
    else (s, [])

-- check_pending for an attribute id that is set.
unfoldable pub check_pending_if : DevConfig → ℕ → ℕ → Bool → SmartValues → ℕ → DevState → Checked
unfolding check_pending
check_pending_if cfg now id increase_only smart mailtype s =
    if id != 0
    then check_pending cfg now s id increase_only smart.vendor_attributes mailtype
    else (s, [])

unfoldable pub check_temperature_if : DevConfig → ℕ → SmartValues → DevState → Checked
unfolding check_temperature return_temperature_value
check_temperature_if cfg now smart s =
    if cfg.tempdiff != 0 || cfg.tempinfo != 0 || cfg.tempcrit != 0
    then check_temperature cfg now s
        (return_temperature_value smart.vendor_attributes cfg.attribute_defs)
    else (s, [])

abbrev pub empty_attribute : SmartAttribute
empty_attribute = record {
  id = 0;
  flags = record { b0 = 0; b1 = 0 };
  current = 0;
  worst = 0;
  raw0 = 0;
  raw1 = 0;
  raw2 = 0;
  raw3 = 0;
  raw4 = 0;
  raw5 = 0;
  reserv = 0;
}

-- The loop over the attributes, from the index `i` on.
unfoldable pub check_attributes : DevConfig → ℕ → ℕ → List SmartAttribute → DevState → Checked
unfolding ◌then_do◌ check_attribute
check_attributes cfg now i [] s = (s, [])
check_attributes cfg now i (attr ∷ attrs) s =
    check_attribute cfg now s attr (get_or s.smartval i empty_attribute) i s.smartthres
    then_do check_attributes cfg now (suc i) attrs

unfoldable pub check_attributes_if : DevConfig → ℕ → SmartValues → DevState → Checked
unfolding check_attributes
check_attributes_if cfg now smart s =
    if cfg.usagefailed || cfg.prefail || cfg.usage
    then check_attributes cfg now 0 smart.vendor_attributes s
    else (s, [])

-- "Save the new values for the next time around"
unfoldable pub save_values : SmartValues → DevState → DevState
unfolding update_persistent_state
save_values smart s =
    let s' = update_persistent_state (record s {
      smartval = smart.vendor_attributes;
      offline_data_collection_status = smart.offline_data_collection_status;
      self_test_exec_status = smart.self_test_exec_status;
    }) in
    record s' { attrlog_valid = 1; ata_attr_refreshed = true }

-- The checks of the values that were read.
unfoldable pub check_values : DevConfig → ℕ → SmartValues → DevState → Checked
unfolding ◌then_do◌ reset_warning_mail check_pending_if check_temperature_if check_attributes_if
    save_values
check_values cfg now smart s =
    (reset_warning_mail s 6, [])
    then_do check_pending_if cfg now cfg.curr_pending_id cfg.curr_pending_incr smart 10
    then_do check_pending_if cfg now cfg.offl_pending_id cfg.offl_pending_incr smart 11
    then_do check_temperature_if cfg now smart
    then_do check_attributes_if cfg now smart
    then_do (λ s'. (save_values smart s', []))

unfoldable pub check_read_values : DevConfig → ℕ → Option SmartValues → DevState → Checked
unfolding warn_and_write check_values
check_read_values cfg now none s = warn_and_write cfg now 6 s
check_read_values cfg now (some smart) s = check_values cfg now smart s

-- Whether a directive needs the SMART data.
unfoldable pub needs_values : DevConfig → Bool
needs_values cfg =
    cfg.usagefailed
    || cfg.prefail
    || cfg.usage
    || cfg.curr_pending_id != 0
    || cfg.offl_pending_id != 0
    || cfg.tempdiff != 0
    || cfg.tempinfo != 0
    || cfg.tempcrit != 0
    || cfg.selftest
    || cfg.offlinests
    || cfg.selfteststs

-- "Check everything that depends upon SMART Data", and the end of the tests that were started.
unfoldable pub check_smart_data : DevConfig → ℕ → Option SmartValues → DevState → Checked
unfolding needs_values check_read_values ◌then_do◌
check_smart_data cfg now smart s =
    (if needs_values cfg then check_read_values cfg now smart s else (s, []))
    then_do (λ s'. (record s' { offline_started = false; selftest_started = false }, []))

unfoldable pub check_selftest_log : DevConfig → ℕ → Option SelftestLog → DevState → Checked
unfolding check_ata_self_test_log report_self_test_log_changes
check_selftest_log cfg now log s =
    if cfg.selftest
    then (let (errcnt, hour) = check_ata_self_test_log log in
        report_self_test_log_changes cfg now s errcnt hour)
    else (s, [])

-- read_ata_error_count of the two logs; none for -1.
unfoldable pub summary_error_count : Option ErrorLog → Option ℕ
summary_error_count none = none
summary_error_count (some log) =
    some (if log.error_log_pointer != 0 then log.ata_error_count else 0)

unfoldable pub ext_error_count : Option ExtErrorLog → Option ℕ
ext_error_count none = none
ext_error_count (some log) =
    some (if log.error_log_index != 0 || log.reserved1 != 0 then log.device_error_count else 0)

-- The larger one of two counts, where none is -1.
unfoldable pub max_count : Option ℕ → Option ℕ → Option ℕ
max_count none b = b
max_count (some a) none = some a
max_count (some a) (some b) = some (max a b)

unfoldable pub new_error_count : DevConfig → AtaReplies → Option ℕ
unfolding summary_error_count ext_error_count max_count
new_error_count cfg replies =
    max_count (if cfg.errorlog then summary_error_count replies.error_log else none)
      (if cfg.xerrorlog then ext_error_count replies.ext_error_log else none)

-- What is done with the new count.
unfoldable pub report_error_count : DevConfig → ℕ → Option ℕ → DevState → Checked
unfolding warn_and_write mail_warning ◌then_do◌
report_error_count cfg now none s = mail_warning cfg now s 7
report_error_count cfg now (some newc) s =
    (if ltb s.ataerrorcount newc then warn_and_write cfg now 4 s else (s, []))
    then_do (λ s'. (record s' { ataerrorcount = newc; ata_errorlog_refreshed = true }, []))

unfoldable pub check_error_count : DevConfig → ℕ → AtaReplies → DevState → Checked
unfolding new_error_count report_error_count
check_error_count cfg now replies s =
    if cfg.errorlog || cfg.xerrorlog
    then report_error_count cfg now (new_error_count cfg replies) s
    else (s, [])

-- The test that is due is started. (A division by zero in it, which ends the program, is not followed.)
unfoldable pub start_due_test : DevConfig → TestReplies → DevState × Option TestType → DevState
unfolding do_ata_self_test
start_due_test cfg device (s, none) = s
start_due_test cfg device (s, some test) = (do_ata_self_test cfg device test s).0

module _ (full_match : List ℕ → Bool) (local_time : ℕ → ℕ → Tm) where
  unfoldable pub run_scheduled_test : DevConfig → ℕ → Bool → TestReplies → DevState → DevState
  unfolding start_due_test next_scheduled_test
  run_scheduled_test cfg now allow_selftests device s =
      if allow_selftests && not (leb (length cfg.test_regex) 0)
      then start_due_test cfg device (next_scheduled_test full_match local_time cfg now s)
      else s

  -- ATACheckDevice once the check goes on.
  unfoldable pub checks_of_device : DevConfig → ℕ → Bool → AtaReplies → DevState → Checked
  unfolding ◌then_do◌ check_smart_status check_smart_data check_selftest_log check_error_count
      run_scheduled_test
  checks_of_device cfg now allow_selftests replies s =
      check_smart_status cfg now replies.smart_status s
      then_do check_smart_data cfg now replies.smart
      then_do check_selftest_log cfg now replies.selftest_log
      then_do check_error_count cfg now replies
      then_do (λ s'. (
        record (run_scheduled_test cfg now allow_selftests replies.test s') { json_dirty = true },
        [],
      ))

  unfoldable pub go_on_with : DevConfig → ℕ → Bool → AtaReplies → Checked × Bool → Checked
  unfolding ◌then_do◌ checks_of_device
  go_on_with cfg now allow_selftests replies (begun, go_on) =
      if go_on then begun then_do checks_of_device cfg now allow_selftests replies else begun

  -- ATACheckDevice: the state after it and the mails that are sent.
  unfoldable pub ata_check_device : DevConfig → ℕ → Bool → AtaReplies → DevState → Checked
  unfolding reset_flags begin_check go_on_with
  ata_check_device cfg now allow_selftests replies s =
      go_on_with cfg now allow_selftests replies
        (begin_check cfg now replies.device replies.powermode replies.powermode2 (reset_flags s))
