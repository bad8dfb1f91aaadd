-- ===== src/Smartd/Tests.antt =====
-- A device with three attributes, its warnings and its self-test log.
use smartmontools.Smartd.SelfTestLog.Nvme.{
  nvme_errors, first_hours, check_nvme_self_test_log-errors,
}
use smartmontools.Common.{ℕ, refl, ap, inl, Bool, true, false, some, List, [], map, arith}
use smartmontools.Common.{length, get_or, replicate, ◌+◌, ◌*◌, ◌≤◌, ◌<◌, ◌≡◌, ◌≢◌, ◌∷◌, ◌++◌}
use smartmontools.Ata.Attributes.{get_attr_state, find_threshold}
use smartmontools.Smartd.Sample.{pending, state, cfg}
use smartmontools.Smartd.State.{DevState, DevConfig, EmailFreq}
use smartmontools.Smartd.State.{update_persistent_state, update_temp_state}
use smartmontools.Smartd.State.Persistence.{RawBytes, cleared, update_temp_state-restores}
use smartmontools.Smartd.Mail.{Mail, no_mailinfo, has_address, mail_warning, reset_warning_mail}
use smartmontools.Smartd.Mail.Reminders.{
  Warned, mail_warning-Warned, Forgotten, reset_warning_mail-due,
}
use smartmontools.Smartd.SelfTestLog.{SelftestLog, empty_entry}
use smartmontools.Smartd.SelfTestLog.{
  count_entries, check_ata_self_test_log, report_self_test_log_changes,
}
use smartmontools.Smartd.SelfTestLog.Count.{
  visited, errors, first_hour, check_ata_self_test_log-errors,
}
use smartmontools.ByteOrder.{Uile64, uint_to_uile64}
use smartmontools.Smartd.SelfTestLog.{
  NvmeSelfTestResult, nvme_same_nsid, nvme_count_entries, check_nvme_self_test_log,
}
use smartmontools.Smartd.SelfTestLog.Report.{report-once}
use smartmontools.Smartd.Checks.{check_attribute, is_failed_now}
use smartmontools.Smartd.Checks.Changes.{check_attribute-unchanged}
use smartmontools.Smartd.Wakeup.{calc_next_wakeuptime}
use smartmontools.Smartd.Wakeup.Schedule.{calc_next_wakeuptime-interval}
use smartmontools.Smartd.Standby.{StandbyState, do_disable_standby_check}
use smartmontools.Smartd.Standby.Balance.{Agrees, do_disable_standby_check-Agrees}

-- The mails of a warning that is repeated: at 0, then after 1 and 2 days, and not after 3 days.
abbrev day : ℕ
day = 86400

after_days : List ℕ → DevState → List Mail
after_days [] s = []
after_days (d ∷ ds) s =
    let (s', mails) = mail_warning cfg (d * day) s 10 in mails ++ after_days ds s'

diminishing_mails : length (after_days (10 ∷ 10 ∷ 11 ∷ 12 ∷ 13 ∷ 14 ∷ 16 ∷ 17 ∷ []) state) ≡ 4
unfolding after_days mail_warning
diminishing_mails = refl

abbrev is_unknown : EmailFreq → Bool
is_unknown EmailFreq.unknown = true
is_unknown _ = false

not_unknown : cfg.emailfreq ≢ EmailFreq.unknown
not_unknown e = grind (arith, ap is_unknown e)

update_temp_state-restores_example :
    (update_temp_state (update_persistent_state state)).smartval ≡ map cleared state.smartval
unfolding RawBytes
update_temp_state-restores_example =
    update_temp_state-restores state refl
      ((omega arith, omega arith, omega arith, omega arith, omega arith, omega arith), tt)

mail_warning-Warned_example :
    Warned cfg.emailfreq day state 10
      (get_or state.maillog 10 no_mailinfo)
      (mail_warning cfg day state 10)
unfolding has_address
mail_warning-Warned_example = mail_warning-Warned cfg day state 10 refl (omega arith) not_unknown

reset_warning_mail-due_example :
    let s' = reset_warning_mail state 10 in
    Forgotten state 10 s' × (length (mail_warning cfg day s' 10).1 ≡ 1)
unfolding has_address
reset_warning_mail-due_example =
    reset_warning_mail-due cfg day state 10 refl (omega arith) refl not_unknown

abbrev new_state : DevState
new_state = record state { temperature = 0; tempmin = 0 }

-- An error at hour 700, then a success, then an older error.
abbrev selftest_log : SelftestLog
selftest_log = record {
  selftest_struct =
      record { selftestnumber = 1; selfteststatus = 0x70; timestamp = 100; rest = [] }
      ∷ record { selftestnumber = 2; selfteststatus = 0; timestamp = 600; rest = [] }
      ∷ record { selftestnumber = 2; selfteststatus = 0x70; timestamp = 700; rest = [] }
      ∷ replicate 18 empty_entry;
  mostrecenttest = 3;
}

one_error : check_ata_self_test_log (some selftest_log) ≡ (some 1, 700)
unfolding check_ata_self_test_log count_entries
one_error = refl

check_ata_self_test_log-errors_example :
    let es = errors (visited 21 selftest_log) in
    (check_ata_self_test_log (some selftest_log) ≡ (some (length es), first_hour es))
    × (length es ≤ 21)
check_ata_self_test_log-errors_example =
    check_ata_self_test_log-errors selftest_log (λ h. omega (arith, h))

report-once_example :
    let s' = (report_self_test_log_changes cfg 5 state (some 1) 700).0 in
    (s'.selflogcount ≡ 1)
    × (s'.selfloghour ≡ 700)
    × ((report_self_test_log_changes cfg 9 s' (some 1) 700).1 ≡ [])
report-once_example = report-once cfg 5 9 state 1 700 (omega arith)

check_attribute-unchanged_example : check_attribute cfg day state pending pending 0 [] ≡ (state, [])
unfolding is_failed_now get_attr_state find_threshold
check_attribute-unchanged_example =
    check_attribute-unchanged cfg day state pending pending 0 [] refl refl (inl refl)

calc_next_wakeuptime-interval_example :
    let next = calc_next_wakeuptime 1000 5000 1800 in
    (5000 < next) × ((k : ℕ) × (next ≡ 1000 + k * 1800)) × (1000 ≤ 5000 → next ≤ 5000 + 1800)
calc_next_wakeuptime-interval_example = calc_next_wakeuptime-interval 1000 5000 1800 (omega arith)

abbrev devices : List (DevConfig × DevState)
devices = (cfg, state) ∷ (cfg, record state { skip = true; wakeuptime = 9000 }) ∷ []

abbrev unset : ℕ
unset = 0

-- A system that accepts every call; its state is whether auto standby is disabled.
abbrev set_standby : Bool → Bool → Bool × Bool
set_standby w disable = (true, disable)

do_disable_standby_check-Agrees_example :
    Agrees set_standby
      (λ w. w)
      (do_disable_standby_check set_standby devices StandbyState.not_disabled false)
unfolding Agrees
do_disable_standby_check-Agrees_example =
    do_disable_standby_check-Agrees set_standby (λ w. w) devices StandbyState.not_disabled false
      (λ w b h. refl) (λ w. refl) refl

abbrev hours : ℕ → Uile64
hours n = uint_to_uile64 n

-- A successful short test, an error of the namespace at hour 770, and one of another namespace.
abbrev nvme_results : List NvmeSelfTestResult
nvme_results =
    record { self_test_status = 0x10; valid = 0; nsid = 0; power_on_hours = hours 800 }
    ∷ record { self_test_status = 0x17; valid = 1; nsid = 1; power_on_hours = hours 770 }
    ∷ record { self_test_status = 0x17; valid = 1; nsid = 2; power_on_hours = hours 760 }
    ∷ []

one_nvme_error : check_nvme_self_test_log 1 nvme_results ≡ (1, 770)
unfolding check_nvme_self_test_log nvme_count_entries nvme_same_nsid uint_to_uile64
one_nvme_error = refl

check_nvme_self_test_log-errors_example :
    let es = nvme_errors 1 nvme_results in
    check_nvme_self_test_log 1 nvme_results ≡ (length es, first_hours 0 es)
check_nvme_self_test_log-errors_example = check_nvme_self_test_log-errors 1 nvme_results
