-- ===== src/Smartd/SelfTestLog.antt =====
-- The self-test logs in src/smartd.cpp: check_ata_self_test_log, check_nvme_self_test_log and
-- report_self_test_log_changes.
pub mod Count
pub mod Nvme
pub mod Report
use smartmontools.Common.{ℕ, zero, suc, bit_and, Bool, true, false, not, Option, none, some}
use smartmontools.Common.{List, [], ltb, leb, get_or, u8, flag_set, ◌+◌, ◌%◌, ◌&&◌, ◌||◌}
use smartmontools.Common.{◌∷◌, ◌==◌, ◌!=◌, ◌>>◌, if◌then◌else◌}
use smartmontools.ByteOrder.{Uile64, uile64_to_uint}
use smartmontools.Smartd.State.{DevState, DevConfig}
use smartmontools.Smartd.Mail.{Mail, mail_warning, reset_warning_mail}

-- struct ata_smart_selftestlog_struct; the bytes behind the time stamp are a list.
pub record SelftestEntry : Type 0 where
  pub selftestnumber : ℕ
  pub selfteststatus : ℕ
  pub timestamp : ℕ
  pub rest : List ℕ

abbrev pub empty_entry : SelftestEntry
empty_entry = record { selftestnumber = 0; selfteststatus = 0; timestamp = 0; rest = [] }

-- struct ata_smart_selftestlog, of 21 entries
pub record SelftestLog : Type 0 where
  pub selftest_struct : List SelftestEntry
  pub mostrecenttest : ℕ

unfoldable pub any_nonzero : List ℕ → Bool
any_nonzero [] = false
any_nonzero (b ∷ bs) = if b != 0 then true else any_nonzero bs

unfoldable pub nonempty_entry : SelftestEntry → Bool
unfolding any_nonzero
nonempty_entry e =
    e.selftestnumber != 0 || e.selfteststatus != 0 || e.timestamp != 0 || any_nonzero e.rest

-- A successful extended self-test, which stops the count.
unfoldable pub stops_count : SelftestEntry → Bool
stops_count e = e.selfteststatus >> 4 == 0x0 && bit_and e.selftestnumber 0x7f == 0x02

unfoldable pub shows_error : SelftestEntry → Bool
shows_error e = leb 0x3 (e.selfteststatus >> 4) && leb (e.selfteststatus >> 4) 0x8

-- One round of the loop on the error count and the hour; `none` is `break`.
unfoldable pub count_entry : SelftestEntry → ℕ × ℕ → Option (ℕ × ℕ)
unfolding nonempty_entry stops_count shows_error
count_entry e (errcnt, hour) =
    if not (nonempty_entry e)
    then some (errcnt, hour)
    else if stops_count e
    then none
    else if shows_error e
    then some (errcnt + 1, if hour == 0 then e.timestamp else hour)
    else some (errcnt, hour)

-- The loop `for (int i = n - 1; i >= 0; i--)`.
unfoldable pub count_entries : ℕ → SelftestLog → ℕ × ℕ → ℕ × ℕ
unfolding count_entry
count_entries zero log acc = acc
count_entries (suc i) log acc =
    elim (count_entry (get_or log.selftest_struct ((i + log.mostrecenttest) % 21) empty_entry)
      acc) [ none ↦ acc | some acc' ↦ count_entries i log acc' ]

-- check_ata_self_test_log: the error count, `none` for -1, and the hour. `none` is a log that cannot
-- be read.
unfoldable pub check_ata_self_test_log : Option SelftestLog → Option ℕ × ℕ
check_ata_self_test_log none = (none, 0)
check_ata_self_test_log (some log) =
    let (errcnt, hour) = count_entries 21 log (0, 0) in
    if log.mostrecenttest == 0 then (some 0, 0) else (some errcnt, hour)

-- The fields of nvme_self_test_result that are read.
pub record NvmeSelfTestResult : Type 0 where
  pub self_test_status : ℕ
  pub valid : ℕ
  pub nsid : ℕ
  pub power_on_hours : Uile64

abbrev pub nvme_broadcast_nsid : ℕ
nvme_broadcast_nsid = 0xffffffff

unfoldable pub nvme_same_nsid : ℕ → NvmeSelfTestResult → Bool
unfolding flag_set
nvme_same_nsid nsid r =
    nsid == nvme_broadcast_nsid
    || not (flag_set r.valid 0x01)
    || r.nsid == nvme_broadcast_nsid
    || r.nsid == nsid

-- One round of the loop of check_nvme_self_test_log; `none` is `break`.
unfoldable pub nvme_count_entry : ℕ → NvmeSelfTestResult → ℕ × ℕ → Option (ℕ × ℕ)
unfolding nvme_same_nsid uile64_to_uint
nvme_count_entry nsid r (errcnt, hour) =
    let op = r.self_test_status >> 4 in
    let res = bit_and r.self_test_status 0xf in
    if op == 0 || res == 0xf
    then some (errcnt, hour)
    else if not (nvme_same_nsid nsid r)
    then some (errcnt, hour)
    else if op == 0x2 && res == 0
    then none
    else if not (leb 0x5 res && leb res 0x7)
    then some (errcnt, hour)
    else if errcnt + 1 != 1
    then some (errcnt + 1, hour)
    else some (errcnt + 1, uile64_to_uint r.power_on_hours)

-- The loop over the results, which are 20.
unfoldable pub nvme_count_entries : ℕ → List NvmeSelfTestResult → ℕ × ℕ → ℕ × ℕ
unfolding nvme_count_entry
nvme_count_entries nsid [] acc = acc
nvme_count_entries nsid (r ∷ rs) acc = elim (nvme_count_entry nsid r acc) [
  | none ↦ acc
  | some acc' ↦ nvme_count_entries nsid rs acc'
]

unfoldable pub check_nvme_self_test_log : ℕ → List NvmeSelfTestResult → ℕ × ℕ
check_nvme_self_test_log nsid results = nvme_count_entries nsid results (0, 0)

-- Whether report_self_test_log_changes reports: more errors, or an error at another hour.
unfoldable pub is_new_error : DevState → ℕ → ℕ → Bool
is_new_error s errcnt hour = ltb s.selflogcount errcnt || (ltb 0 errcnt && s.selfloghour != hour)

-- report_self_test_log_changes; the count is stored in an unsigned char.
unfoldable pub report_self_test_log_changes :
    DevConfig → ℕ → DevState → Option ℕ → ℕ → DevState × List Mail
report_self_test_log_changes cfg now s none hour = mail_warning cfg now s 8
report_self_test_log_changes cfg now s (some errcnt) hour =
    let s1 = reset_warning_mail s 8 in
    let (s2, mails) = mail_warning cfg now s1 3 in
    let s3 : DevState =
      if is_new_error s1 errcnt hour then record s2 { must_write = true } else s1 in
    let s4 : DevState =
      if ltb errcnt s3.selflogcount && errcnt == 0 then reset_warning_mail s3 3 else s3 in
    (
      record s4 { selflogcount = u8 errcnt; selfloghour = hour; selftest_log_refreshed = true },
      if is_new_error s1 errcnt hour then mails else [],
    )
