-- ===== src/Smartd/Checks.antt =====
-- The checks of ATA attributes in src/smartd.cpp: check_pending_id, check_pending and check_attribute.
pub mod Changes
use smartmontools.Common.{ℕ, Bool, true, false, not, none, some, List, [], ltb, leb}
use smartmontools.Common.{get_elem?, flag_set, ◌&&◌, ◌||◌, ◌++◌, ◌==◌, ◌!=◌, if◌then◌else◌}
use smartmontools.ByteOrder.{Uile16, uile16_to_uint}
use smartmontools.Ata.Attributes.{SmartAttribute, ThresholdEntry, AttrState, get_attr_state}
use smartmontools.Ata.Attributes.{find_attr_index, get_attr_raw_value}
use smartmontools.Smartd.State.{DevState, DevConfig}
use smartmontools.Smartd.Mail.{Mail, mail_warning, reset_warning_mail}

abbrev pub monitor_ign_failuse : ℕ
monitor_ign_failuse = 0x01

abbrev pub monitor_ignore : ℕ
monitor_ignore = 0x02

abbrev pub monitor_raw : ℕ
monitor_raw = 0x08

abbrev pub monitor_as_crit : ℕ
monitor_as_crit = 0x10

abbrev pub monitor_raw_as_crit : ℕ
monitor_raw_as_crit = 0x20

-- cfg.monitor_attr_flags.is_set(id, flag)
unfoldable pub monitors : DevConfig → ℕ → ℕ → Bool
unfolding flag_set
monitors cfg id flag = id != 0 && flag_set (cfg.monitor_attr_flags id) flag

-- The raw value of the attribute at an index.
unfoldable pub raw_at : DevConfig → List SmartAttribute → ℕ → ℕ
unfolding get_attr_raw_value
raw_at cfg attributes i = elim (get_elem? attributes i) [
  | none ↦ 0
  | some attr ↦ get_attr_raw_value attr cfg.attribute_defs
]

-- check_pending_id
unfoldable pub check_pending_id : DevConfig → DevState → ℕ → Bool
unfolding find_attr_index raw_at
check_pending_id cfg s id = elim (find_attr_index id s.smartval) [
  | none ↦ false
  | some i ↦
      let limit : ℕ = if s.num_sectors != 0 then s.num_sectors else 0xffffffff in
      not (leb limit (raw_at cfg s.smartval i))
]

-- check_pending once the index is the same in both tables and the two raw values are known.
unfoldable pub report_pending : DevConfig → ℕ → DevState → Bool → ℕ → ℕ → ℕ → DevState × List Mail
unfolding mail_warning reset_warning_mail
report_pending cfg now s increase_only mailtype rawval prev_rawval =
    if rawval == 0
    then (reset_warning_mail s mailtype, [])
    else if not (not increase_only || ltb prev_rawval rawval)
    then (s, [])
    else (let (s', mails) = mail_warning cfg now s mailtype in
        (record s' { must_write = true }, mails))

-- check_pending: `smartval` are the new attributes, those of the state the previous ones.
unfoldable pub check_pending :
    DevConfig → ℕ → DevState → ℕ → Bool → List SmartAttribute → ℕ → DevState × List Mail
unfolding report_pending
check_pending cfg now s id increase_only smartval mailtype = elim (find_attr_index id smartval) [
  | none ↦ (s, [])
  | some i ↦ elim (find_attr_index id s.smartval) [
    | none ↦ (s, [])
    | some j ↦
        if j != i
        then (s, [])
        else report_pending cfg now s increase_only mailtype (raw_at cfg smartval i)
            (raw_at cfg s.smartval i)
  ]
]

-- ATTRIBUTE_FLAGS_PREFAILURE
unfoldable pub is_prefailure : SmartAttribute → Bool
unfolding flag_set uile16_to_uint
is_prefailure attr = flag_set (uile16_to_uint attr.flags) 0x01

unfoldable pub is_failed_now : AttrState → Bool
is_failed_now AttrState.failed_now = true
is_failed_now _ = false

-- attrstate > ATTRSTATE_NO_NORMVAL, in the order of the enum
unfoldable pub has_normval : AttrState → Bool
has_normval AttrState.non_existing = false
has_normval AttrState.no_normval = false
has_normval _ = true

unfoldable pub exists_attr : AttrState → Bool
exists_attr AttrState.non_existing = false
exists_attr _ = true

-- The warning of a usage attribute that has failed.
unfoldable pub check_usage_failed :
    DevConfig → ℕ → DevState → SmartAttribute → AttrState → DevState × List Mail
unfolding is_failed_now monitors mail_warning
check_usage_failed cfg now s attr attrstate =
    if cfg.usagefailed && is_failed_now attrstate && not (monitors cfg attr.id monitor_ign_failuse)
    then (let (s', mails) = mail_warning cfg now s 2 in (record s' { must_write = true }, mails))
    else (s, [])

-- Whether the normalized value and the raw value have changed, as far as they are tracked.
unfoldable pub val_changed : AttrState → SmartAttribute → SmartAttribute → Bool
unfolding has_normval
val_changed attrstate attr prev = has_normval attrstate && attr.current != prev.current

unfoldable pub raw_changed : DevConfig → SmartAttribute → SmartAttribute → Bool
unfolding monitors get_attr_raw_value
raw_changed cfg attr prev =
    monitors cfg attr.id monitor_raw
    && get_attr_raw_value attr cfg.attribute_defs != get_attr_raw_value prev cfg.attribute_defs

-- Whether changes of this attribute are tracked.
unfoldable pub is_tracked : DevConfig → SmartAttribute → SmartAttribute → Bool
unfolding is_prefailure monitors
is_tracked cfg attr prev =
    ((is_prefailure attr && cfg.prefail) || (not (is_prefailure attr) && cfg.usage))
    && not (monitors cfg attr.id monitor_ignore)
    && attr.id == prev.id

-- The report of a change.
unfoldable pub report_change :
    DevConfig → ℕ → DevState → SmartAttribute → Bool → Bool → DevState × List Mail
unfolding monitors mail_warning
report_change cfg now s attr valchanged rawchanged =
    if (valchanged && monitors cfg attr.id monitor_as_crit)
      || (rawchanged && monitors cfg attr.id monitor_raw_as_crit)
    then (let (s', mails) = mail_warning cfg now s 2 in (record s' { must_write = true }, mails))
    else (record s { must_write = true }, [])

-- check_attribute
unfoldable pub check_attribute :
    DevConfig
    → ℕ
    → DevState
    → SmartAttribute
    → SmartAttribute
    → ℕ
    → List ThresholdEntry
    → DevState × List Mail
check_attribute cfg now s attr prev attridx thresholds =
    let attrstate = get_attr_state attr attridx thresholds cfg.attribute_defs in
    let (s1, mails1) = check_usage_failed cfg now s attr attrstate in
    let valchanged = val_changed attrstate attr prev in
    let rawchanged = raw_changed cfg attr prev in
    let (s2, mails2) = report_change cfg now s1 attr valchanged rawchanged in
    if not (exists_attr attrstate)
    then (s, [])
    else if not (is_tracked cfg attr prev)
    then (s1, mails1)
    else if not (valchanged || rawchanged)
    then (s1, mails1)
    else (s2, mails1 ++ mails2)
