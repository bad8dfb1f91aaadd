-- ===== src/Smartd/AtaCheck/Steps.antt =====
-- The steps of a check that keep the attributes.
use smartmontools.Common.{ℕ, suc, Bool, true, not, Option, none, some, List, [], ltb, get_or}
use smartmontools.Common.{if-both, Option-both, ◌&&◌, ◌||◌, ◌∷◌, ◌==◌, ◌!=◌, if◌then◌else◌}
use smartmontools.Ata.Attributes.{SmartAttribute, ThresholdEntry, AttrState, get_attr_state}
use smartmontools.Ata.Attributes.{find_attr_index, return_temperature_value}
use smartmontools.Smartd.State.{DevState, DevConfig}
use smartmontools.Smartd.Mail.{mail_warning, reset_warning_mail}
use smartmontools.Smartd.SelfTestLog.{SelftestLog, is_new_error, report_self_test_log_changes}
use smartmontools.Smartd.SelfTestLog.{check_ata_self_test_log}
use smartmontools.Smartd.Checks.{report_pending, check_pending, check_attribute, raw_at}
use smartmontools.Smartd.Checks.{check_usage_failed, report_change, is_failed_now, monitors}
use smartmontools.Smartd.Checks.{monitor_ign_failuse, monitor_as_crit, monitor_raw_as_crit}
use smartmontools.Smartd.Checks.{exists_attr, is_tracked, val_changed, raw_changed}
use smartmontools.Smartd.OpenDevice.{◌then_do◌}
use smartmontools.Smartd.AtaSelfTest.{SmartValues}
use smartmontools.Smartd.AtaCheck.{AtaReplies, SmartStatus, health_of, warn_and_write}
use smartmontools.Smartd.AtaCheck.{report_status, check_smart_status, check_pending_if}
use smartmontools.Smartd.AtaCheck.{check_temperature_if, check_attributes, check_attributes_if}
use smartmontools.Smartd.AtaCheck.{empty_attribute, check_selftest_log, report_error_count}
use smartmontools.Smartd.AtaCheck.{check_error_count, new_error_count}
use smartmontools.Smartd.AtaCheck.Kept.{Kept, KeptBy, Kept-refl, Kept-trans, mail_warning-Kept}
use smartmontools.Smartd.AtaCheck.Kept.{
  reset_warning_mail-Kept, then_do-Kept, check_temperature-Kept,
}

pub written-Kept : (s t : DevState) → Kept s t → Kept s (record t { must_write = true })
unfolding Kept
written-Kept s t h = h

pub warn_and_write-Kept :
    (cfg : DevConfig) (now which : ℕ) (s : DevState) → KeptBy s (warn_and_write cfg now which s)
unfolding warn_and_write
warn_and_write-Kept cfg now which s =
    written-Kept s (mail_warning cfg now s which).0 (mail_warning-Kept cfg now s which)

report_pending-Kept :
    (cfg : DevConfig) (now : ℕ) (s : DevState) (inc : Bool) (mailtype rawval prev : ℕ)
    → KeptBy s (report_pending cfg now s inc mailtype rawval prev)
unfolding report_pending
report_pending-Kept cfg now s inc mailtype rawval prev =
    if-both (KeptBy s) (rawval == 0) (reset_warning_mail-Kept s mailtype) (
      if-both (KeptBy s) (not (not inc || ltb prev rawval)) (Kept-refl s)
        (written-Kept s (mail_warning cfg now s mailtype).0 (mail_warning-Kept cfg now s mailtype)))

pub check_pending-Kept :
    (cfg : DevConfig) (now : ℕ) (s : DevState) (id : ℕ) (inc : Bool)
    (smartval : List SmartAttribute) (mailtype : ℕ)
    → KeptBy s (check_pending cfg now s id inc smartval mailtype)
unfolding check_pending
check_pending-Kept cfg now s id inc smartval mailtype =
    Option-both (KeptBy s) (find_attr_index id smartval) (Kept-refl s) (λ i.
      Option-both (KeptBy s) (find_attr_index id s.smartval) (Kept-refl s) (λ j.
        if-both (KeptBy s) (j != i) (Kept-refl s) (
          report_pending-Kept cfg now s inc mailtype (raw_at cfg smartval i)
            (raw_at cfg s.smartval i))))

check_usage_failed-Kept :
    (cfg : DevConfig) (now : ℕ) (s : DevState) (attr : SmartAttribute) (attrstate : AttrState)
    → KeptBy s (check_usage_failed cfg now s attr attrstate)
unfolding check_usage_failed
check_usage_failed-Kept cfg now s attr attrstate =
    if-both (KeptBy s)
      (cfg.usagefailed && is_failed_now attrstate && not (monitors cfg attr.id monitor_ign_failuse))
      (written-Kept s (mail_warning cfg now s 2).0 (mail_warning-Kept cfg now s 2)) (Kept-refl s)

report_change-Kept :
    (cfg : DevConfig) (now : ℕ) (s : DevState) (attr : SmartAttribute)
    (valchanged rawchanged : Bool)
    → KeptBy s (report_change cfg now s attr valchanged rawchanged)
unfolding report_change
report_change-Kept cfg now s attr valchanged rawchanged =
    if-both (KeptBy s)
      ((valchanged && monitors cfg attr.id monitor_as_crit)
        || (rawchanged && monitors cfg attr.id monitor_raw_as_crit))
      (written-Kept s (mail_warning cfg now s 2).0 (mail_warning-Kept cfg now s 2))
      (written-Kept s s (Kept-refl s))

pub check_attribute-Kept :
    (cfg : DevConfig) (now : ℕ) (s : DevState) (attr prev : SmartAttribute) (i : ℕ)
    (thresholds : List ThresholdEntry)
    → KeptBy s (check_attribute cfg now s attr prev i thresholds)
unfolding check_attribute
check_attribute-Kept cfg now s attr prev i thresholds =
    let attrstate = get_attr_state attr i thresholds cfg.attribute_defs in
    let s1 = (check_usage_failed cfg now s attr attrstate).0 in
    let usage = check_usage_failed-Kept cfg now s attr attrstate in
    let valchanged = val_changed attrstate attr prev in
    let rawchanged = raw_changed cfg attr prev in
    if-both (KeptBy s) (not (exists_attr attrstate)) (Kept-refl s) (
      if-both (KeptBy s) (not (is_tracked cfg attr prev)) usage (
        if-both (KeptBy s) (not (valchanged || rawchanged)) usage (
          Kept-trans s s1 (report_change cfg now s1 attr valchanged rawchanged).0 usage
            (report_change-Kept cfg now s1 attr valchanged rawchanged))))

check_attributes-Kept :
    (cfg : DevConfig) (now i : ℕ) (attrs : List SmartAttribute) (s : DevState)
    → KeptBy s (check_attributes cfg now i attrs s)
unfolding check_attributes
check_attributes-Kept cfg now i [] s = Kept-refl s
check_attributes-Kept cfg now i (attr ∷ attrs) s =
    let prev = get_or s.smartval i empty_attribute in
    let c = check_attribute cfg now s attr prev i s.smartthres in
    then_do-Kept s c (check_attributes cfg now (suc i) attrs)
      (check_attribute-Kept cfg now s attr prev i s.smartthres)
      (check_attributes-Kept cfg now (suc i) attrs c.0)

pub check_attributes_if-Kept :
    (cfg : DevConfig) (now : ℕ) (smart : SmartValues) (s : DevState)
    → KeptBy s (check_attributes_if cfg now smart s)
unfolding check_attributes_if
check_attributes_if-Kept cfg now smart s =
    if-both (KeptBy s) (cfg.usagefailed || cfg.prefail || cfg.usage)
      (check_attributes-Kept cfg now 0 smart.vendor_attributes s) (Kept-refl s)

pub check_pending_if-Kept :
    (cfg : DevConfig) (now id : ℕ) (inc : Bool) (smart : SmartValues) (mailtype : ℕ) (s : DevState)
    → KeptBy s (check_pending_if cfg now id inc smart mailtype s)
unfolding check_pending_if
check_pending_if-Kept cfg now id inc smart mailtype s =
    if-both (KeptBy s) (id != 0)
      (check_pending-Kept cfg now s id inc smart.vendor_attributes mailtype) (Kept-refl s)

pub check_temperature_if-Kept :
    (cfg : DevConfig) (now : ℕ) (smart : SmartValues) (s : DevState)
    → KeptBy s (check_temperature_if cfg now smart s)
unfolding check_temperature_if
check_temperature_if-Kept cfg now smart s =
    if-both (KeptBy s) (cfg.tempdiff != 0 || cfg.tempinfo != 0 || cfg.tempcrit != 0)
      (check_temperature-Kept cfg now s
        (return_temperature_value smart.vendor_attributes cfg.attribute_defs))
      (Kept-refl s)

report_self_test_log_changes-Kept :
    (cfg : DevConfig) (now : ℕ) (s : DevState) (errcnt : Option ℕ) (hour : ℕ)
    → KeptBy s (report_self_test_log_changes cfg now s errcnt hour)
unfolding report_self_test_log_changes Kept
report_self_test_log_changes-Kept cfg now s none hour = mail_warning-Kept cfg now s 8
report_self_test_log_changes-Kept cfg now s (some errcnt) hour =
    let s1 = reset_warning_mail s 8 in
    let first = reset_warning_mail-Kept s 8 in
    let s2 : DevState = (mail_warning cfg now s1 3).0 in
    let s3 : DevState =
      if is_new_error s1 errcnt hour then record s2 { must_write = true } else s1 in
    let third : Kept s s3 =
      if-both (Kept s) (is_new_error s1 errcnt hour)
        (Kept-trans s s1 s2 first (mail_warning-Kept cfg now s1 3)) first in
    if-both (Kept s) (ltb errcnt s3.selflogcount && errcnt == 0)
      (Kept-trans s s3 (reset_warning_mail s3 3) third (reset_warning_mail-Kept s3 3)) third

pub check_selftest_log-Kept :
    (cfg : DevConfig) (now : ℕ) (log : Option SelftestLog) (s : DevState)
    → KeptBy s (check_selftest_log cfg now log s)
unfolding check_selftest_log
check_selftest_log-Kept cfg now log s =
    let r = check_ata_self_test_log log in
    if-both (KeptBy s) cfg.selftest (report_self_test_log_changes-Kept cfg now s r.0 r.1)
      (Kept-refl s)

report_status-Kept :
    (cfg : DevConfig) (now : ℕ) (status : SmartStatus) (s : DevState)
    → KeptBy s (report_status cfg now status s)
unfolding report_status
report_status-Kept cfg now SmartStatus.status_ok s = Kept-refl s
report_status-Kept cfg now SmartStatus.status_failed s = warn_and_write-Kept cfg now 1 s
report_status-Kept cfg now SmartStatus.status_error s = warn_and_write-Kept cfg now 5 s

pub check_smart_status-Kept :
    (cfg : DevConfig) (now : ℕ) (status : SmartStatus) (s : DevState)
    → KeptBy s (check_smart_status cfg now status s)
unfolding check_smart_status Kept
check_smart_status-Kept cfg now status s =
    if-both (KeptBy s) cfg.smartcheck
      (report_status-Kept cfg now status (record s { smart_health_status = health_of status }))
      (Kept-refl s)

report_error_count-Kept :
    (cfg : DevConfig) (now : ℕ) (newc : Option ℕ) (s : DevState)
    → KeptBy s (report_error_count cfg now newc s)
unfolding report_error_count Kept ◌then_do◌
report_error_count-Kept cfg now none s = mail_warning-Kept cfg now s 7
report_error_count-Kept cfg now (some newc) s =
    if-both (KeptBy s) (ltb s.ataerrorcount newc) (warn_and_write-Kept cfg now 4 s) (Kept-refl s)

pub check_error_count-Kept :
    (cfg : DevConfig) (now : ℕ) (replies : AtaReplies) (s : DevState)
    → KeptBy s (check_error_count cfg now replies s)
unfolding check_error_count
check_error_count-Kept cfg now replies s =
    if-both (KeptBy s) (cfg.errorlog || cfg.xerrorlog)
      (report_error_count-Kept cfg now (new_error_count cfg replies) s) (Kept-refl s)
