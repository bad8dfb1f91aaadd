-- ===== src/Smartd/Mail.antt =====
-- MailWarning, reset_warning_mail and finish_device_scan of src/smartd.cpp. The time is an argument.
pub mod Reminders
use smartmontools.Common.{ℕ, zero, suc, Bool, true, not, Option, none, some, List, [], ltb}
use smartmontools.Common.{leb, length, get_or, set, ◌+◌, ◌*◌, ◌^◌, ◌&&◌, ◌∷◌, ◌==◌, ◌!=◌}
use smartmontools.Common.{◌>>◌, if◌then◌else◌}
use smartmontools.Smartd.State.{MailInfo, DevState, DevConfig, EmailFreq}

abbrev pub smartd_nmail : ℕ
smartd_nmail = 13

-- What is passed to the warning script: the type of the failure, the number of mails before, the time
-- of the first mail, and the days to the next one, where there is one.
pub record Mail : Type 0 where
  pub failtype : ℕ
  pub prevcnt : ℕ
  pub tfirst : ℕ
  pub nextdays : Option ℕ

abbrev pub no_mailinfo : MailInfo
no_mailinfo = record { logged = 0; firstsent = 0; lastsent = 0 }

-- `1 << (logged <= 5 ? logged : 5)`
unfoldable pub diminishing_nextdays : ℕ → ℕ
diminishing_nextdays logged = if leb logged 5 then 2 ^ logged else 2 ^ 5

unfoldable pub diminishing_days : ℕ → ℕ
unfolding diminishing_nextdays
diminishing_days logged =
    if leb logged 5 then diminishing_nextdays logged >> 1 else diminishing_nextdays logged

-- The current and the next interval in days. The inner `none` is -1, no reminder; the outer one is
-- an unknown frequency.
unfoldable pub mail_days : ℕ → EmailFreq → ℕ → Option (Option ℕ × Option ℕ)
unfolding diminishing_days diminishing_nextdays
mail_days zero freq logged = some (none, none)
mail_days (suc which) EmailFreq.once logged = some (none, none)
mail_days (suc which) EmailFreq.always logged = some (some 0, some 0)
mail_days (suc which) EmailFreq.daily logged = some (some 1, some 1)
mail_days (suc which) EmailFreq.diminishing logged =
    some (some (diminishing_days logged), some (diminishing_nextdays logged))
mail_days (suc which) EmailFreq.unknown logged = none

-- Whether a reminder is not sent now.
unfoldable pub too_early : Option ℕ → ℕ → MailInfo → Bool
too_early none now mail = true
too_early (some days) now mail = ltb 0 days && ltb now (mail.lastsent + days * 24 * 3600)

unfoldable pub has_address : DevConfig → Bool
has_address cfg = not (leb (length cfg.emailaddress) 0 && leb (length cfg.emailcmdline) 0)

-- The mail is sent and counted.
unfoldable pub send_mail : DevState → ℕ → ℕ → MailInfo → Option ℕ → DevState × List Mail
send_mail s which now mail nextdays =
    let first : ℕ = if mail.logged != 0 then mail.firstsent else now in
    (
      record s {
        maillog =
            set s.maillog which
              (record { logged = mail.logged + 1; firstsent = first; lastsent = now });
      },
      record { failtype = which; prevcnt = mail.logged; tfirst = first; nextdays = nextdays } ∷ [],
    )

-- What MailWarning does once the mail info of the type and the intervals are known.
unfoldable pub warn_when :
    Option (Option ℕ × Option ℕ) → ℕ → DevState → ℕ → MailInfo → DevState × List Mail
unfolding too_early send_mail
warn_when none now s which mail = (s, [])
warn_when (some (days, nextdays)) now s which mail =
    if mail.logged != 0 && too_early days now mail
    then (s, [])
    else send_mail s which now mail nextdays

-- MailWarning: the state after it, and the mail that is sent. The text of the message is left out.
unfoldable pub mail_warning : DevConfig → ℕ → DevState → ℕ → DevState × List Mail
unfolding has_address warn_when mail_days
mail_warning cfg now s which =
    if not (has_address cfg)
    then (s, [])
    else if not (ltb which smartd_nmail)
    then (s, [])
    else (let mail : MailInfo = get_or s.maillog which no_mailinfo in
        warn_when (mail_days which cfg.emailfreq mail.logged) now s which mail)

-- reset_warning_mail
unfoldable pub reset_warning_mail : DevState → ℕ → DevState
reset_warning_mail s which =
    if not (ltb which smartd_nmail)
    then s
    else if (get_or s.maillog which no_mailinfo).logged == 0
    then s
    else record s { maillog = set s.maillog which no_mailinfo; must_write = true }

-- The default frequency that finish_device_scan sets.
unfoldable pub default_emailfreq : DevConfig → EmailFreq
unfolding has_address
default_emailfreq cfg = if not (has_address cfg) then cfg.emailfreq else elim cfg.emailfreq [
  | EmailFreq.unknown ↦ if leb (length cfg.state_file) 0 then EmailFreq.once else EmailFreq.daily
  | EmailFreq.once ↦ EmailFreq.once
  | EmailFreq.always ↦ EmailFreq.always
  | EmailFreq.daily ↦ EmailFreq.daily
  | EmailFreq.diminishing ↦ EmailFreq.diminishing
]
