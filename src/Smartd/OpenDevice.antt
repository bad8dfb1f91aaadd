-- ===== src/Smartd/OpenDevice.antt =====
-- The start of a device check in src/smartd.cpp: open_device, and the power mode check of
-- ATACheckDevice. The device's replies are arguments, the clock is read once, and the messages are
-- left out.
pub mod Skips
mod Tests
use smartmontools.Common.{ℕ, Bool, true, false, not, Option, none, some, List, [], ltb, leb}
use smartmontools.Common.{◌+◌, ◌-◌, ◌&&◌, ◌||◌, ◌++◌, ◌==◌, ◌!=◌, if◌then◌else◌}
use smartmontools.Smartd.State.{DevState, DevConfig}
use smartmontools.Smartd.Temperature.{default_checktime}
use smartmontools.Smartd.Mail.{Mail, mail_warning, reset_warning_mail}

-- The result of a step of a check: the state after it and the mails that it sends.
abbrev pub Checked : Type 0
Checked = DevState × List Mail

-- One step after another.
infixl 40 ◌then_do◌
unfoldable pub ◌then_do◌ : Checked → (DevState → Checked) → Checked
(s, mails) then_do f = (let (s', mails') = f s in (s', mails ++ mails'))

-- !cfg.powerskipmax || state.powerskipcnt < cfg.powerskipmax
unfoldable pub may_skip : DevConfig → DevState → Bool
may_skip cfg s = cfg.powerskipmax == 0 || ltb s.powerskipcnt cfg.powerskipmax

unfoldable pub same_mode : Option ℕ → Option ℕ → Bool
same_mode none none = true
same_mode none (some n) = false
same_mode (some m) none = false
same_mode (some m) (some n) = m == n

-- A skipped check is counted; its mode is recorded when it is reported.
unfoldable pub count_skip : DevConfig → DevState → Option ℕ → DevState
unfolding same_mode
count_skip cfg s mode =
    let reported =
      (s.powerskipcnt == 0 || not (same_mode s.lastpowermodeskipped mode)) && not cfg.powerquiet in
    record s {
      lastpowermodeskipped = if reported then mode else s.lastpowermodeskipped;
      powerskipcnt = s.powerskipcnt + 1;
    }

-- What open_device gets from the device: whether the OS knows that it is powered down, and whether
-- open() works.
pub record OpenReplies : Type 0 where
  pub is_ata : Bool
  pub is_powered_down : Bool
  pub opened : Bool

unfoldable pub powered_down_skip : DevConfig → OpenReplies → DevState → Bool
unfolding may_skip
powered_down_skip cfg device s =
    device.is_ata
    && cfg.powermode != 0
    && not s.powermodefail
    && not s.removed
    && device.is_powered_down
    && may_skip cfg s

-- open() has failed.
unfoldable pub open_failed : DevConfig → ℕ → DevState → Checked
unfolding mail_warning
open_failed cfg now s =
    if not cfg.removable
    then mail_warning cfg now s 9
    else if not s.removed
    then (record s { removed = true }, [])
    else (s, [])

unfoldable pub open_worked : DevConfig → DevState → DevState
unfolding reset_warning_mail
open_worked cfg s =
    if not cfg.removable
    then reset_warning_mail s 9
    else if s.removed
    then record s { removed = false }
    else s

-- open_device after the test mail.
unfoldable pub try_open : DevConfig → ℕ → OpenReplies → DevState → Checked × Bool
unfolding powered_down_skip count_skip open_failed open_worked
try_open cfg now device s =
    if powered_down_skip cfg device s
    then ((count_skip cfg s none, []), false)
    else if not device.opened
    then (open_failed cfg now s, false)
    else ((open_worked cfg s, []), true)

-- The test mail that the user has asked for.
unfoldable pub test_mail : DevConfig → ℕ → DevState → Checked
unfolding mail_warning
test_mail cfg now s = if cfg.emailtest then mail_warning cfg now s 0 else (s, [])

unfoldable pub with_mails : Checked → (DevState → Checked × Bool) → Checked × Bool
with_mails (s, mails) f = (let ((s', mails'), opened) = f s in ((s', mails ++ mails'), opened))

-- open_device: what it sends, and whether the device is open.
unfoldable pub open_device : DevConfig → ℕ → OpenReplies → DevState → Checked × Bool
unfolding try_open test_mail with_mails
open_device cfg now device s = with_mails (test_mail cfg now s) (try_open cfg now device)

-- The power mode that counts: a mode other than 0xff and -1 (`none`) is read again after 5 seconds.
unfoldable pub settled_mode : Option ℕ → Option ℕ → Option ℕ
settled_mode none powermode2 = none
settled_mode (some powermode) powermode2 = if ltb powermode 0xff then powermode2 else some powermode

-- Whether the check is skipped in this power mode.
unfoldable pub dont_check : DevConfig → Option ℕ → Bool
dont_check cfg none = leb 1 cfg.powermode
dont_check cfg (some mode) =
    if mode == 0x00 || mode == 0x01
    then leb 2 cfg.powermode
    else if mode == 0x80 || mode == 0x81 || mode == 0x82 || mode == 0x83
    then leb 3 cfg.powermode
    else false

-- The modes that the switch statement knows.
unfoldable pub known_mode : Option ℕ → Bool
known_mode none = true
known_mode (some mode) =
    mode == 0x00
    || mode == 0x01
    || mode == 0x80
    || mode == 0x81
    || mode == 0x82
    || mode == 0x83
    || mode == 0xff
    || mode == 0x40
    || mode == 0x41

-- The checks are resumed.
unfoldable pub resume_checks : ℕ → DevState → DevState
resume_checks now s = record s { powerskipcnt = 0; tempmin_delay = now + default_checktime - 60 }

-- An unknown mode ends the power mode checks.
unfoldable pub note_mode : Option ℕ → DevState → DevState
unfolding known_mode
note_mode mode s = if known_mode mode then s else record s { powermodefail = true }

-- What is done in a power mode: the state, and whether the device check goes on.
unfoldable pub skip_or_resume : DevConfig → ℕ → Option ℕ → DevState → DevState × Bool
unfolding dont_check may_skip count_skip resume_checks
skip_or_resume cfg now mode s =
    if dont_check cfg mode
    then if may_skip cfg s then (count_skip cfg s mode, false) else (resume_checks now s, true)
    else if s.powerskipcnt != 0
    then (resume_checks now s, true)
    else (s, true)

-- The state after the power mode check, and whether the device check goes on.
unfoldable pub check_power_mode : DevConfig → ℕ → Option ℕ → Option ℕ → DevState → DevState × Bool
unfolding settled_mode note_mode skip_or_resume
check_power_mode cfg now powermode powermode2 s =
    let mode = settled_mode powermode powermode2 in
    if not (cfg.powermode != 0 && not s.powermodefail)
    then (s, true)
    else skip_or_resume cfg now mode (note_mode mode s)

-- After open_device, the power mode check.
unfoldable pub after_open : DevConfig → ℕ → Option ℕ → Option ℕ → Checked × Bool → Checked × Bool
unfolding check_power_mode
after_open cfg now powermode powermode2 ((s, mails), opened) =
    let (s', go_on) = check_power_mode cfg now powermode powermode2 s in
    if not opened then ((s, mails), false) else ((s', mails), go_on)

-- The part of ATACheckDevice in which the check may be skipped, and whether the check goes on.
unfoldable pub begin_check :
    DevConfig → ℕ → OpenReplies → Option ℕ → Option ℕ → DevState → Checked × Bool
unfolding open_device after_open
begin_check cfg now device powermode powermode2 s =
    after_open cfg now powermode powermode2 (open_device cfg now device s)
