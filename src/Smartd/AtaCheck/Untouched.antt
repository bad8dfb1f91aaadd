-- ===== src/Smartd/AtaCheck/Untouched.antt =====
-- Before a check goes on, only the mails of the types 0 and 9 are touched.
use smartmontools.Common.{ℕ, refl, Bool, not, Option, none, some, List, arith, ltb, get_or}
use smartmontools.Common.{set, get_elem?-set_ne, if-both, ◌≡◌, ◌∙◌, ◌≢◌, ◌&&◌, ◌==◌, ◌!=◌}
use smartmontools.Smartd.State.{MailInfo, DevState, DevConfig}
use smartmontools.Smartd.Mail.{mail_warning, reset_warning_mail, warn_when, send_mail}
use smartmontools.Smartd.Mail.{mail_days, too_early, has_address, smartd_nmail, no_mailinfo}
use smartmontools.Smartd.OpenDevice.{Checked, OpenReplies, powered_down_skip, count_skip}
use smartmontools.Smartd.OpenDevice.{open_failed, open_worked, try_open, test_mail, with_mails}
use smartmontools.Smartd.OpenDevice.{open_device, settled_mode}
use smartmontools.Smartd.OpenDevice.{note_mode, skip_or_resume, resume_checks, check_power_mode}
use smartmontools.Smartd.OpenDevice.{after_open, begin_check}

-- The mail info of one type is the same.
unfoldable pub SameMail : ℕ → DevState → DevState → Type 0
SameMail which s t = get_or t.maillog which no_mailinfo ≡ get_or s.maillog which no_mailinfo

SameMail-refl : (which : ℕ) (s : DevState) → SameMail which s s
unfolding SameMail
SameMail-refl which s = refl

SameMail-trans :
    (which : ℕ) (s t u : DevState) → SameMail which s t → SameMail which t u → SameMail which s u
unfolding SameMail
SameMail-trans which s t u p q = q ∙ p

get_or-set :
    {A : Type 0} (xs : List A) (i j : ℕ) (v d : A) → i ≢ j → get_or (set xs i v) j d ≡ get_or xs j d
get_or-set xs i j v d ne = rw (get_elem?-set_ne xs i j v ne) refl

SameMailBy : ℕ → DevState → Checked → Type 0
SameMailBy which s c = SameMail which s c.0

warn_when-SameMail :
    (o : Option (Option ℕ × Option ℕ)) (now : ℕ) (s : DevState) (other which : ℕ) (mail : MailInfo)
    → other ≢ which
    → SameMailBy which s (warn_when o now s other mail)
unfolding warn_when send_mail SameMail SameMailBy
warn_when-SameMail none now s other which mail ne = refl
warn_when-SameMail (some (days, next)) now s other which mail ne =
    if-both (SameMailBy which s) (mail.logged != 0 && too_early days now mail) refl
      (get_or-set s.maillog other which _ no_mailinfo ne)

mail_warning-SameMail :
    (cfg : DevConfig) (now : ℕ) (s : DevState) (other which : ℕ)
    → other ≢ which
    → SameMailBy which s (mail_warning cfg now s other)
unfolding mail_warning SameMail SameMailBy
mail_warning-SameMail cfg now s other which ne =
    if-both (SameMailBy which s) (not (has_address cfg)) refl (
      if-both (SameMailBy which s) (not (ltb other smartd_nmail)) refl (
        warn_when-SameMail
          (mail_days other cfg.emailfreq (get_or s.maillog other no_mailinfo).logged) now s other
          which (get_or s.maillog other no_mailinfo) ne))

reset_warning_mail-SameMail :
    (s : DevState) (other which : ℕ) → other ≢ which → SameMail which s (reset_warning_mail s other)
unfolding reset_warning_mail SameMail
reset_warning_mail-SameMail s other which ne =
    if-both (SameMail which s) (not (ltb other smartd_nmail)) refl (
      if-both (SameMail which s) ((get_or s.maillog other no_mailinfo).logged == 0) refl
        (get_or-set s.maillog other which _ no_mailinfo ne))

-- Only the types 0 and 9 are touched before a check goes on.
unfoldable pub SameMailIn : ℕ → DevState → Checked × Bool → Type 0
SameMailIn which s (c, go_on) = SameMail which s c.0

open_worked-SameMail :
    (cfg : DevConfig) (s : DevState) (which : ℕ) → 9 ≢ which → SameMail which s (open_worked cfg s)
unfolding open_worked SameMail
open_worked-SameMail cfg s which ne =
    if-both (SameMail which s) (not cfg.removable) (reset_warning_mail-SameMail s 9 which ne)
      (if-both (SameMail which s) s.removed refl refl)

open_failed-SameMail :
    (cfg : DevConfig) (now : ℕ) (s : DevState) (which : ℕ)
    → 9 ≢ which
    → SameMailBy which s (open_failed cfg now s)
unfolding open_failed SameMailBy SameMail
open_failed-SameMail cfg now s which ne =
    if-both (SameMailBy which s) (not cfg.removable) (mail_warning-SameMail cfg now s 9 which ne)
      (if-both (SameMailBy which s) (not s.removed) refl refl)

try_open-SameMail :
    (cfg : DevConfig) (now : ℕ) (device : OpenReplies) (s : DevState) (which : ℕ)
    → 9 ≢ which
    → SameMailIn which s (try_open cfg now device s)
unfolding try_open SameMailIn count_skip SameMail SameMailBy
try_open-SameMail cfg now device s which ne =
    if-both (SameMailIn which s) (powered_down_skip cfg device s) refl (
      if-both (SameMailIn which s) (not device.opened) (open_failed-SameMail cfg now s which ne)
        (open_worked-SameMail cfg s which ne))

pub open_device-SameMail :
    (cfg : DevConfig) (now : ℕ) (device : OpenReplies) (s : DevState) (which : ℕ)
    → 9 ≢ which
    → 0 ≢ which
    → SameMailIn which s (open_device cfg now device s)
unfolding open_device SameMailIn test_mail with_mails SameMail SameMailBy
open_device-SameMail cfg now device s which ne ne0 =
    let t = (test_mail cfg now s).0 in
    SameMail-trans which s t (try_open cfg now device t).0.0
      (if-both (SameMailBy which s) cfg.emailtest (mail_warning-SameMail cfg now s 0 which ne0)
        refl)
      (try_open-SameMail cfg now device t which ne)

skip_or_resume-maillog :
    (cfg : DevConfig) (now : ℕ) (mode : Option ℕ) (s : DevState)
    → (skip_or_resume cfg now mode s).0.maillog ≡ s.maillog
unfolding skip_or_resume resume_checks count_skip
skip_or_resume-maillog cfg now mode s = ground arith

check_power_mode-maillog :
    (cfg : DevConfig) (now : ℕ) (powermode powermode2 : Option ℕ) (s : DevState)
    → (check_power_mode cfg now powermode powermode2 s).0.maillog ≡ s.maillog
unfolding check_power_mode note_mode
check_power_mode-maillog cfg now powermode powermode2 s =
    let mode = settled_mode powermode powermode2 in
    ground (arith, skip_or_resume-maillog cfg now mode (note_mode mode s))

pub begin_check-SameMail :
    (cfg : DevConfig) (now : ℕ) (device : OpenReplies) (powermode powermode2 : Option ℕ)
    (s : DevState) (which : ℕ)
    → 9 ≢ which
    → 0 ≢ which
    → SameMailIn which s (begin_check cfg now device powermode powermode2 s)
unfolding begin_check after_open SameMailIn SameMail
begin_check-SameMail cfg now device powermode powermode2 s which ne ne0 =
    let ((t, mails), opened) = open_device cfg now device s in
    let same = open_device-SameMail cfg now device s which ne ne0 in
    if-both (SameMailIn which s) (not opened) same
      (rw (check_power_mode-maillog cfg now powermode powermode2 t) same)
