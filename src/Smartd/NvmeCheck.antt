-- ===== src/Smartd/NvmeCheck.antt =====
-- NVMeCheckDevice of src/smartd.cpp, with check_nvme_error_log, log_nvme_smart_change and
-- start_nvme_self_test. The device's replies are arguments, the clock is read once, and the messages
-- of the system log are left out, with the argument `firstpass` that only selects them.
use smartmontools.Common.{ℕ, bit_and, Bool, true, false, not, Option, none, some, List, []}
use smartmontools.Common.{ltb, leb, length, ◌+◌, ◌-◌, ◌&&◌, ◌||◌, ◌∷◌, ◌==◌, ◌!=◌, ◌>>◌}
use smartmontools.Common.{if◌then◌else◌}
pub mod Errors
pub mod Critical
mod Tests
use Prim.Native.Nat.{min, max}
use smartmontools.ByteOrder.{Uile16, Uile128, uile16_to_uint, uile128_clamp_to_uint64}
use smartmontools.Nvme.{Errno, nvme_status_is_error, nvme_status_to_errno}
use smartmontools.Smartd.State.{DevState, DevConfig, HealthStatus}
use smartmontools.Smartd.Mail.{Mail, mail_warning, reset_warning_mail}
use smartmontools.Smartd.Temperature.{check_temperature}
use smartmontools.Smartd.SelfTestLog.{NvmeSelfTestResult, check_nvme_self_test_log}
use smartmontools.Smartd.SelfTestLog.{report_self_test_log_changes}
use smartmontools.Smartd.OpenDevice.{Checked, ◌then_do◌, OpenReplies, open_device}
use smartmontools.Smartd.AtaSelfTest.{TestType}
use smartmontools.Smartd.Schedule.{Tm, next_scheduled_test}
use smartmontools.Smartd.AtaCheck.{reset_flags, warn_and_write}

-- The fields of struct nvme_smart_log that are used.
pub record NvmeSmartLog : Type 0 where
  pub critical_warning : ℕ
  pub temperature : Uile16
  pub avail_spare : ℕ
  pub spare_thresh : ℕ
  pub percent_used : ℕ
  pub media_errors : Uile128
  pub num_err_log_entries : Uile128

-- struct nvme_self_test_log
pub record NvmeSelfTestLog : Type 0 where
  pub current_operation : ℕ
  pub current_completion : ℕ
  pub results : List NvmeSelfTestResult

-- The fields of struct nvme_error_log_page that are used.
pub record ErrorEntry : Type 0 where
  pub error_count : ℕ
  pub status_field : ℕ

-- The replies of the device in one check. `error_log` are the entries that could be read, at most 64
-- and nvme_err_log_max_entries; `start_ok` is the result of nvme_self_test.
pub record NvmeReplies : Type 0 where
  pub device : OpenReplies
  pub nsid : ℕ
  pub smart_log : Option NvmeSmartLog
  pub self_test_log : Option NvmeSelfTestLog
  pub error_log : List ErrorEntry
  pub start_ok : Bool

-- The largest error count that is known, and the number of device related errors.
pub record ErrorScan : Type 0 where
  pub newcnt : ℕ
  pub err : ℕ

unfoldable pub is_einval : Errno → Bool
is_einval Errno.einval = true
is_einval _ = false

-- A device related error, and not an invalid command.
unfoldable pub is_device_error : ErrorEntry → Bool
unfolding nvme_status_is_error nvme_status_to_errno is_einval
is_device_error e =
    let status = e.status_field >> 1 in
    nvme_status_is_error status && not (is_einval (nvme_status_to_errno status))

-- A new entry is counted.
unfoldable pub count_error : ErrorEntry → ErrorScan → ErrorScan
unfolding is_device_error
count_error e r = record {
  newcnt = if ltb r.newcnt e.error_count then e.error_count else r.newcnt;
  err = if is_device_error e then r.err + 1 else r.err;
}

-- The loop over the entries: unused ones are left out, and the first old one ends it.
unfoldable pub scan_errors : ℕ → List ErrorEntry → ErrorScan → ErrorScan
unfolding count_error
scan_errors oldcnt [] r = r
scan_errors oldcnt (e ∷ es) r =
    let stop = leb e.error_count oldcnt && e.error_count != 0 in
    let rest = scan_errors oldcnt es (if e.error_count == 0 then r else count_error e r) in
    if stop then r else rest

-- The end of check_nvme_error_log: a mail only if device related errors are found.
unfoldable pub report_errors : DevConfig → ℕ → ErrorScan → DevState → Checked
unfolding ◌then_do◌ mail_warning
report_errors cfg now r s =
    (if r.err == 0 then (s, []) else mail_warning cfg now s 4)
    then_do (λ s'. (record s' { nvme_err_log_entries = r.newcnt; must_write = true }, []))

-- check_nvme_error_log. No entries are read where reading fails; a count of 0 only tests whether the
-- log can be read.
unfoldable pub check_nvme_error_log : DevConfig → ℕ → List ErrorEntry → ℕ → DevState → Checked
unfolding scan_errors report_errors
check_nvme_error_log cfg now [] newcnt s = (s, [])
check_nvme_error_log cfg now (e ∷ es) newcnt s =
    if newcnt == 0
    then (s, [])
    else report_errors cfg now
        (scan_errors s.nvme_err_log_entries (e ∷ es) (record { newcnt = newcnt; err = 0 })) s

-- log_nvme_smart_change
unfoldable pub log_nvme_smart_change : DevConfig → ℕ → ℕ → ℕ → Bool → Bool → DevState → Checked
unfolding warn_and_write
log_nvme_smart_change cfg now oldval newval critical info s =
    if not (newval != oldval && (critical || info))
    then (s, [])
    else if critical
    then warn_and_write cfg now 2 s
    else (record s { must_write = true }, [])

-- "Check Critical Warning bits"
unfoldable pub check_critical_warning : DevConfig → ℕ → NvmeSmartLog → DevState → Checked
unfolding warn_and_write
check_critical_warning cfg now log s =
    if bit_and log.critical_warning cfg.smartcheck_nvme != 0
    then warn_and_write cfg now 1 (record s { smart_health_status = HealthStatus.failed })
    else if cfg.smartcheck_nvme != 0
    then (record s { smart_health_status = HealthStatus.passed }, [])
    else (s, [])

unfoldable pub check_spare : DevConfig → ℕ → NvmeSmartLog → DevState → Checked
unfolding log_nvme_smart_change
check_spare cfg now log s =
    if cfg.prefail
    then log_nvme_smart_change cfg now s.nvme_avail_spare log.avail_spare
        (ltb log.avail_spare log.spare_thresh && leb log.spare_thresh 100) true s
    else (s, [])

unfoldable pub check_used : DevConfig → ℕ → NvmeSmartLog → DevState → Checked
unfolding log_nvme_smart_change
check_used cfg now log s =
    log_nvme_smart_change cfg now s.nvme_percent_used log.percent_used
      (cfg.usagefailed && ltb 95 log.percent_used) cfg.usage s

unfoldable pub check_media_errors : DevConfig → ℕ → NvmeSmartLog → DevState → Checked
unfolding log_nvme_smart_change uile128_clamp_to_uint64
check_media_errors cfg now log s =
    let old_me = uile128_clamp_to_uint64 s.nvme_media_errors in
    let new_me = uile128_clamp_to_uint64 log.media_errors in
    log_nvme_smart_change cfg now old_me new_me (cfg.usagefailed && ltb old_me new_me) cfg.usage s

unfoldable pub check_usage : DevConfig → ℕ → NvmeSmartLog → DevState → Checked
unfolding check_used check_media_errors ◌then_do◌
check_usage cfg now log s =
    if cfg.usage || cfg.usagefailed
    then check_used cfg now log s then_do check_media_errors cfg now log
    else (s, [])

-- Kelvin as degrees Celsius from 1 to 255.
unfoldable pub celsius : ℕ → ℕ
celsius k = if leb k 273 then 1 else min (k - 273) 0xff

unfoldable pub check_nvme_temperature : DevConfig → ℕ → NvmeSmartLog → DevState → Checked
unfolding check_temperature celsius uile16_to_uint
check_nvme_temperature cfg now log s =
    if cfg.tempdiff != 0 || cfg.tempinfo != 0 || cfg.tempcrit != 0
    then check_temperature cfg now s (celsius (uile16_to_uint log.temperature))
    else (s, [])

-- log_nvme_self_test_exec_status: what it stores.
unfoldable pub store_exec_status : NvmeSelfTestLog → DevState → DevState
store_exec_status log s =
    let op = bit_and log.current_operation 0xf in
    let compl = bit_and log.current_completion 0x7f in
    if op != s.selftest_op || compl != s.selftest_compl
    then record s { selftest_op = op; selftest_compl = compl }
    else s

-- The self-test log that was read.
unfoldable pub check_read_log : DevConfig → ℕ → ℕ → NvmeSelfTestLog → DevState → Checked
unfolding ◌then_do◌ reset_warning_mail store_exec_status check_nvme_self_test_log
    report_self_test_log_changes
check_read_log cfg now nsid log s =
    let s1 = reset_warning_mail s 8 in
    let s2 : DevState = if cfg.selfteststs then store_exec_status log s1 else s1 in
    let (errcnt, hour) = check_nvme_self_test_log nsid log.results in
    if cfg.selftest then report_self_test_log_changes cfg now s2 (some errcnt) hour else (s2, [])

unfoldable pub check_log : DevConfig → ℕ → ℕ → Option NvmeSelfTestLog → DevState → Checked
unfolding mail_warning check_read_log
check_log cfg now nsid none s = mail_warning cfg now s 8
check_log cfg now nsid (some log) s = check_read_log cfg now nsid log s

unfoldable pub is_due : Option TestType → Bool
is_due none = false
is_due (some test) = true

-- "Read the self-test log if required", and the end of the test that was started.
unfoldable pub check_nvme_selftest_log :
    DevConfig → ℕ → NvmeReplies → Option TestType → DevState → Checked
unfolding check_log is_due ◌then_do◌
check_nvme_selftest_log cfg now replies testtype s =
    (if is_due testtype || cfg.selftest || cfg.selfteststs
      then check_log cfg now replies.nsid replies.self_test_log s
      else (s, []))
    then_do (λ s'. (record s' { selftest_started = false }, []))

-- "Check if number of errors has increased"
unfoldable pub check_nvme_errors : DevConfig → ℕ → NvmeReplies → NvmeSmartLog → DevState → Checked
unfolding check_nvme_error_log uile128_clamp_to_uint64
check_nvme_errors cfg now replies log s =
    let newcnt = uile128_clamp_to_uint64 log.num_err_log_entries in
    if (cfg.errorlog || cfg.xerrorlog) && ltb s.nvme_err_log_entries newcnt
    then check_nvme_error_log cfg now replies.error_log newcnt s
    else (s, [])

unfoldable pub has_nvme_test : TestType → Bool
has_nvme_test TestType.short = true
has_nvme_test TestType.long = true
has_nvme_test _ = false

-- start_nvme_self_test; without a self-test log no test is started.
unfoldable pub start_nvme_self_test :
    Option TestType → Option NvmeSelfTestLog → Bool → DevState → DevState
unfolding has_nvme_test
start_nvme_self_test none log start_ok s = s
start_nvme_self_test (some test) none start_ok s = s
start_nvme_self_test (some test) (some log) start_ok s =
    if has_nvme_test test && bit_and log.current_operation 0xf == 0 && start_ok
    then record s { selftest_started = true }
    else s

-- "Preserve new SMART/Health info for state file and attribute log"
unfoldable pub store_smart_log : NvmeSmartLog → DevState → DevState
store_smart_log log s = record s {
  nvme_avail_spare = log.avail_spare;
  nvme_percent_used = log.percent_used;
  nvme_media_errors = log.media_errors;
  attrlog_valid = 3;
  json_dirty = true;
}

-- The check of the values in the SMART/Health log.
unfoldable pub check_smart_log : DevConfig → ℕ → NvmeSmartLog → DevState → Checked
unfolding ◌then_do◌ check_critical_warning check_spare check_usage check_nvme_temperature
check_smart_log cfg now log s =
    check_critical_warning cfg now log s
    then_do check_spare cfg now log
    then_do check_usage cfg now log
    then_do check_nvme_temperature cfg now log

module _ (full_match : List ℕ → Bool) (local_time : ℕ → ℕ → Tm) where
  unfoldable pub due_test : DevConfig → ℕ → Bool → DevState → DevState × Option TestType
  unfolding next_scheduled_test
  due_test cfg now allow_selftests s =
      if allow_selftests && not (leb (length cfg.test_regex) 0)
      then next_scheduled_test full_match local_time cfg now s
      else (s, none)

  -- The checks from the test schedule on.
  unfoldable pub check_nvme_logs :
      DevConfig → ℕ → NvmeReplies → NvmeSmartLog → DevState × Option TestType → Checked
  unfolding ◌then_do◌ check_nvme_selftest_log check_nvme_errors start_nvme_self_test store_smart_log
  check_nvme_logs cfg now replies log (s, testtype) =
      check_nvme_selftest_log cfg now replies testtype s
      then_do check_nvme_errors cfg now replies log
      then_do (λ s'. (
        store_smart_log log
            (start_nvme_self_test testtype replies.self_test_log replies.start_ok s'),
        [],
      ))

  -- NVMeCheckDevice once the device is open.
  unfoldable pub check_open_nvme :
      DevConfig → ℕ → Bool → NvmeReplies → Option NvmeSmartLog → DevState → Checked
  unfolding ◌then_do◌ warn_and_write check_smart_log due_test check_nvme_logs
  check_open_nvme cfg now allow_selftests replies none s =
      warn_and_write cfg now 6 (record s { smart_health_status = HealthStatus.not_checked })
  check_open_nvme cfg now allow_selftests replies (some log) s =
      check_smart_log cfg now log s
      then_do (λ s'. check_nvme_logs cfg now replies log (due_test cfg now allow_selftests s'))

  unfoldable pub go_on_nvme : DevConfig → ℕ → Bool → NvmeReplies → Checked × Bool → Checked
  unfolding ◌then_do◌ check_open_nvme
  go_on_nvme cfg now allow_selftests replies (begun, opened) =
      if opened
      then begun then_do check_open_nvme cfg now allow_selftests replies replies.smart_log
      else begun

  -- NVMeCheckDevice: the state after it and the mails that are sent.
  unfoldable pub nvme_check_device : DevConfig → ℕ → Bool → NvmeReplies → DevState → Checked
  unfolding reset_flags open_device go_on_nvme
  nvme_check_device cfg now allow_selftests replies s =
      go_on_nvme cfg now allow_selftests replies
        (open_device cfg now replies.device (reset_flags s))
