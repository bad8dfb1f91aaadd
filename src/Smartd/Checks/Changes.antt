-- ===== src/Smartd/Checks/Changes.antt =====
-- When a check of an attribute sends a mail.
use smartmontools.Common.{ℕ, refl, inl, inr, true, false, not, some, List, [], arith}
use smartmontools.Common.{if-both, if-each, ◌≤◌, ◌<◌, ◌≡◌, ◌≢◌, ◌⊎◌, ◌&&◌, ◌!=◌}
use smartmontools.Ata.Attributes.{SmartAttribute, ThresholdEntry, AttrState, get_attr_state}
use smartmontools.Ata.Attributes.{find_attr_index, get_attr_raw_value}
use smartmontools.Smartd.State.{DevState, DevConfig}
use smartmontools.Smartd.Mail.{Mail, mail_warning, reset_warning_mail}
use smartmontools.Smartd.Checks.{monitors, raw_at, report_pending, check_pending, is_failed_now}
use smartmontools.Smartd.Checks.{
  check_usage_failed, val_changed, raw_changed, is_tracked, exists_attr,
}
use smartmontools.Smartd.Checks.{check_attribute, monitor_ign_failuse}

quiet_usage :
    (cfg : DevConfig) (now : ℕ) (s : DevState) (attr : SmartAttribute) (attrstate : AttrState)
    → (is_failed_now attrstate ≡ false) ⊎ (monitors cfg attr.id monitor_ign_failuse ≡ true)
    → check_usage_failed cfg now s attr attrstate ≡ (s, [])
unfolding check_usage_failed
quiet_usage cfg now s attr attrstate (inl e) =
    if-each (λ r. r ≡ (s, []))
      (cfg.usagefailed && is_failed_now attrstate && not (monitors cfg attr.id monitor_ign_failuse))
      (λ t. absurd (grind (arith, t, e))) (λ f. refl)
quiet_usage cfg now s attr attrstate (inr e) =
    if-each (λ r. r ≡ (s, []))
      (cfg.usagefailed && is_failed_now attrstate && not (monitors cfg attr.id monitor_ign_failuse))
      (λ t. absurd (grind (arith, t, e))) (λ f. refl)

same_val :
    (attrstate : AttrState) (attr prev : SmartAttribute)
    → attr.current ≡ prev.current
    → val_changed attrstate attr prev ≡ false
unfolding val_changed
same_val attrstate attr prev e = grind (arith, e)

same_raw_value :
    (cfg : DevConfig) (attr prev : SmartAttribute)
    → get_attr_raw_value attr cfg.attribute_defs ≡ get_attr_raw_value prev cfg.attribute_defs
    → raw_changed cfg attr prev ≡ false
unfolding raw_changed
same_raw_value cfg attr prev e = grind (arith, e)

-- An attribute that has the same normalized and raw value as before, and that has not failed now or
-- whose failure is ignored, changes nothing and sends no mail.
pub check_attribute-unchanged :
    (cfg : DevConfig) (now : ℕ) (s : DevState) (attr prev : SmartAttribute) (attridx : ℕ)
    (thresholds : List ThresholdEntry)
    → attr.current ≡ prev.current
    → get_attr_raw_value attr cfg.attribute_defs ≡ get_attr_raw_value prev cfg.attribute_defs
    → (is_failed_now (get_attr_state attr attridx thresholds cfg.attribute_defs) ≡ false)
      ⊎ (monitors cfg attr.id monitor_ign_failuse ≡ true)
    → check_attribute cfg now s attr prev attridx thresholds ≡ (s, [])
unfolding check_attribute
check_attribute-unchanged cfg now s attr prev attridx thresholds same_current same_raw quiet =
    let attrstate = get_attr_state attr attridx thresholds cfg.attribute_defs in
    let same : DevState × List Mail → Type 0 = λ r. r ≡ (s, []) in
    rw (quiet_usage cfg now s attr attrstate quiet) (
      rw (same_val attrstate attr prev same_current) (
        rw (same_raw_value cfg attr prev same_raw) (
          if-both same (not (exists_attr attrstate)) refl
            (if-both same (not (is_tracked cfg attr prev)) refl refl))))

report_pending_lem :
    (cfg : DevConfig) (now : ℕ) (s : DevState) (mailtype rawval prev_rawval : ℕ)
    → let r = report_pending cfg now s true mailtype rawval prev_rawval in
      (rawval ≡ 0 → r ≡ (reset_warning_mail s mailtype, []))
      × (rawval ≢ 0 → rawval ≤ prev_rawval → r ≡ (s, []))
      × (prev_rawval < rawval → r.1 ≡ (mail_warning cfg now s mailtype).1)
unfolding report_pending
report_pending_lem cfg now s mailtype rawval prev_rawval =
    (λ z. ground arith, λ nz le. ground arith, λ lt. ground arith)

-- Where only increases are reported and the attribute has the same index in the new and the previous
-- data: no pending sectors reset the warning and send no mail, a count that is not 0 and has not
-- grown changes nothing, and a count that has grown sends what MailWarning sends.
pub check_pending-increase :
    (cfg : DevConfig) (now : ℕ) (s : DevState) (id i : ℕ) (smartval : List SmartAttribute)
    (mailtype : ℕ)
    → find_attr_index id smartval ≡ some i
    → find_attr_index id s.smartval ≡ some i
    → let rawval = raw_at cfg smartval i in
      let prev_rawval = raw_at cfg s.smartval i in
      (rawval ≡ 0
        → check_pending cfg now s id true smartval mailtype ≡ (reset_warning_mail s mailtype, []))
      × (rawval ≢ 0
          → rawval ≤ prev_rawval
          → check_pending cfg now s id true smartval mailtype ≡ (s, []))
      × (prev_rawval < rawval
          → (check_pending cfg now s id true smartval mailtype).1
            ≡ (mail_warning cfg now s mailtype).1)
unfolding check_pending report_pending
check_pending-increase cfg now s id i smartval mailtype new old =
    let rawval = raw_at cfg smartval i in
    let prev_rawval = raw_at cfg s.smartval i in
    let same_index : (i != i) ≡ false = ground arith in
    let e : check_pending cfg now s id true smartval mailtype
        ≡ report_pending cfg now s true mailtype rawval prev_rawval =
      rw (check_pending, new, old, same_index) refl in
    rw e (report_pending_lem cfg now s mailtype rawval prev_rawval)
