-- ===== src/Smartd/AtaCheck/Sends.antt =====
-- Mails of a type among those that are sent.
use smartmontools.Common.{ℕ, refl, inl, inr, Bool, true, false, not, Option, none, some}
use smartmontools.Common.{List, [], arith, ltb, Bool-cases, length, get_or, All, if-both}
use smartmontools.Common.{◌<◌, ◌≡◌, ◌≢◌, ◌&&◌, ◌||◌, ◌∷◌, ◌++◌, ◌==◌, ◌!=◌}
use smartmontools.Smartd.State.{MailInfo, DevState, DevConfig, EmailFreq}
use smartmontools.Smartd.Mail.{Mail, mail_warning, warn_when, send_mail, mail_days, too_early}
use smartmontools.Smartd.Mail.{has_address, smartd_nmail, no_mailinfo}
use smartmontools.Smartd.Mail.Reminders.{IsDue, Warned, mail_warning-Warned}
use smartmontools.Smartd.OpenDevice.{Checked, ◌then_do◌}
use smartmontools.Smartd.AtaCheck.{warn_and_write}

-- A mail of this type is among the mails.
abbrev pub sends : ℕ → List Mail → Bool
sends which [] = false
sends which (mail ∷ mails) = mail.failtype == which || sends which mails

pub sends-before :
    (which : ℕ) (xs ys : List Mail) → sends which xs ≡ true → sends which (xs ++ ys) ≡ true
sends-before which [] ys h = cc
sends-before which (x ∷ xs) ys h = elim (Bool-cases (x.failtype == which)) [
  | inl e ↦ rw e refl
  | inr e ↦ rw e (sends-before which xs ys (rw e at h))
]

pub sends-after :
    (which : ℕ) (xs ys : List Mail) → sends which ys ≡ true → sends which (xs ++ ys) ≡ true
sends-after which [] ys h = h
sends-after which (x ∷ xs) ys h = elim (Bool-cases (x.failtype == which)) [
  | inl e ↦ rw e refl
  | inr e ↦ rw e (sends-after which xs ys h)
]

-- MailWarning sends mails of its type only.
OfType : ℕ → Checked → Type 0
OfType which c = All (λ mail. mail.failtype ≡ which) c.1

warn_when-OfType :
    (o : Option (Option ℕ × Option ℕ)) (now : ℕ) (s : DevState) (which : ℕ) (mail : MailInfo)
    → OfType which (warn_when o now s which mail)
unfolding warn_when send_mail OfType
warn_when-OfType none now s which mail = tt
warn_when-OfType (some (days, next)) now s which mail =
    if-both (OfType which) (mail.logged != 0 && too_early days now mail) tt (refl, tt)

mail_warning-OfType :
    (cfg : DevConfig) (now : ℕ) (s : DevState) (which : ℕ)
    → OfType which (mail_warning cfg now s which)
unfolding mail_warning OfType
mail_warning-OfType cfg now s which = if-both (OfType which) (not (has_address cfg)) tt (
    if-both (OfType which) (not (ltb which smartd_nmail)) tt (
      warn_when-OfType (mail_days which cfg.emailfreq (get_or s.maillog which no_mailinfo).logged)
        now s which (get_or s.maillog which no_mailinfo)))

one_sends :
    (which : ℕ) (mails : List Mail)
    → All (λ mail. mail.failtype ≡ which) mails
    → length mails ≡ 1
    → sends which mails ≡ true
one_sends which [] h len = absurd (omega (arith, len))
one_sends which (mail ∷ mails) h len =
    let e : (mail.failtype == which) ≡ true = ground (arith, h.0) in rw e refl

pub then_do-sends :
    (which : ℕ) (c : Checked) (f : DevState → Checked)
    → sends which c.1 ≡ true
    → sends which (c then_do f).1 ≡ true
unfolding ◌then_do◌
then_do-sends which (s, mails) f h = sends-before which mails (f s).1 h

-- A warning that is due is sent.
pub mail_warning-sends :
    (cfg : DevConfig) (now which : ℕ) (s : DevState)
    → which < 13
    → cfg.emailfreq ≢ EmailFreq.unknown
    → has_address cfg ≡ true
    → IsDue cfg.emailfreq now which (get_or s.maillog which no_mailinfo)
    → sends which (mail_warning cfg now s which).1 ≡ true
unfolding Warned OfType
mail_warning-sends cfg now which s type known address due =
    let warned = mail_warning-Warned cfg now s which address type known in
    one_sends which (mail_warning cfg now s which).1 (mail_warning-OfType cfg now s which)
      ((warned.0 due).0)

pub warn_and_write-sends :
    (cfg : DevConfig) (now which : ℕ) (s : DevState)
    → which < 13
    → cfg.emailfreq ≢ EmailFreq.unknown
    → has_address cfg ≡ true
    → IsDue cfg.emailfreq now which (get_or s.maillog which no_mailinfo)
    → sends which (warn_and_write cfg now which s).1 ≡ true
unfolding warn_and_write
warn_and_write-sends cfg now which s type known address due =
    mail_warning-sends cfg now which s type known address due
