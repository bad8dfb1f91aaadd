-- ===== src/Smartd/AtaCheck/Kept.antt =====
-- What the checks of a device keep: the attributes, the flag that says whether they are fresh, and the
-- size of the table of mails.
use smartmontools.Common.{ℕ, refl, not, Option, none, some, arith, ltb, leb, length, get_or}
use smartmontools.Common.{length-set, u8, if-both, ◌+◌, ◌-◌, ◌≡◌, ◌∙◌, ◌&&◌, ◌==◌, ◌!=◌}
use smartmontools.Common.{if◌then◌else◌}
use smartmontools.Smartd.State.{MailInfo, DevState, DevConfig}
use smartmontools.Smartd.Mail.{mail_warning, reset_warning_mail, warn_when, send_mail}
use smartmontools.Smartd.Mail.{mail_days, too_early, has_address, smartd_nmail, no_mailinfo}
use smartmontools.Smartd.Temperature.{check_temperature, record_temperature, check_limits}
use smartmontools.Smartd.Temperature.{update_tempmax, first_temperature_check}
use smartmontools.Smartd.Temperature.{later_temperature_check, end_tempmin_delay, update_tempmin}
use smartmontools.Smartd.Temperature.{track_temperature}
use smartmontools.Smartd.OpenDevice.{Checked, ◌then_do◌}

-- `t` has the attributes and the table sizes of `s`.
unfoldable pub Kept : DevState → DevState → Type 0
Kept s t =
    (t.smartval ≡ s.smartval)
    × (t.ata_attributes ≡ s.ata_attributes)
    × (t.ata_attr_refreshed ≡ s.ata_attr_refreshed)
    × (length t.maillog ≡ length s.maillog)

pub Kept-refl : (s : DevState) → Kept s s
unfolding Kept
Kept-refl s = (refl, refl, refl, refl)

pub Kept-trans : (s t u : DevState) → Kept s t → Kept t u → Kept s u
unfolding Kept
Kept-trans s t u p q = (q.0 ∙ p.0, q.1 ∙ p.1, q.2 ∙ p.2, q.3 ∙ p.3)

-- A step keeps them.
abbrev pub KeptBy : DevState → Checked → Type 0
KeptBy s c = Kept s c.0

warn_when-Kept :
    (o : Option (Option ℕ × Option ℕ)) (now : ℕ) (s : DevState) (which : ℕ) (mail : MailInfo)
    → KeptBy s (warn_when o now s which mail)
unfolding warn_when send_mail Kept
warn_when-Kept none now s which mail = Kept-refl s
warn_when-Kept (some (days, next)) now s which mail =
    if-both (KeptBy s) (mail.logged != 0 && too_early days now mail) (Kept-refl s)
      (refl, refl, refl, length-set s.maillog which _)

pub mail_warning-Kept :
    (cfg : DevConfig) (now : ℕ) (s : DevState) (which : ℕ) → KeptBy s (mail_warning cfg now s which)
unfolding mail_warning
mail_warning-Kept cfg now s which = if-both (KeptBy s) (not (has_address cfg)) (Kept-refl s) (
    if-both (KeptBy s) (not (ltb which smartd_nmail)) (Kept-refl s) (
      warn_when-Kept (mail_days which cfg.emailfreq (get_or s.maillog which no_mailinfo).logged) now
        s which (get_or s.maillog which no_mailinfo)))

pub reset_warning_mail-Kept : (s : DevState) (which : ℕ) → Kept s (reset_warning_mail s which)
unfolding reset_warning_mail Kept
reset_warning_mail-Kept s which = if-both (Kept s) (not (ltb which smartd_nmail)) (Kept-refl s) (
    if-both (Kept s) ((get_or s.maillog which no_mailinfo).logged == 0) (Kept-refl s)
      (refl, refl, refl, length-set s.maillog which _))

pub then_do-Kept :
    (s : DevState) (c : Checked) (f : DevState → Checked)
    → KeptBy s c
    → KeptBy c.0 (f c.0)
    → KeptBy s (c then_do f)
unfolding ◌then_do◌
then_do-Kept s (t, mails) f p q = Kept-trans s t (f t).0 p q

record_temperature-Kept :
    (cfg : DevConfig) (now : ℕ) (s : DevState) (temp : ℕ)
    → Kept s (record_temperature cfg now s temp)
unfolding record_temperature update_tempmax first_temperature_check later_temperature_check
    end_tempmin_delay update_tempmin track_temperature Kept
record_temperature-Kept cfg now s temp = ground arith

check_limits-Kept :
    (cfg : DevConfig) (now : ℕ) (s : DevState) (temp : ℕ) → KeptBy s (check_limits cfg now s temp)
unfolding check_limits
check_limits-Kept cfg now s temp =
    let limit : ℕ = if cfg.tempinfo != 0 then cfg.tempinfo else u8 (cfg.tempcrit + 256 - 5) in
    if-both (KeptBy s) (cfg.tempcrit != 0 && leb cfg.tempcrit temp) (mail_warning-Kept cfg now s 12)
      (if-both (KeptBy s) (cfg.tempinfo != 0 && leb cfg.tempinfo temp) (Kept-refl s) (
        if-both (KeptBy s) (cfg.tempcrit != 0)
          (if-both (KeptBy s) (ltb temp limit) (reset_warning_mail-Kept s 12) (Kept-refl s))
          (Kept-refl s)))

pub check_temperature-Kept :
    (cfg : DevConfig) (now : ℕ) (s : DevState) (temp : ℕ)
    → KeptBy s (check_temperature cfg now s temp)
unfolding check_temperature
check_temperature-Kept cfg now s temp =
    let t = record_temperature cfg now s temp in
    if-both (KeptBy s) (not (ltb 0 temp && ltb temp 255)) (Kept-refl s) (
      Kept-trans s t (check_limits cfg now t temp).0 (record_temperature-Kept cfg now s temp)
        (check_limits-Kept cfg now t temp))
