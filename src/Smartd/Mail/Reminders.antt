-- ===== src/Smartd/Mail/Reminders.antt =====
-- When a warning mail is sent, and what it leaves.
use smartmontools.Common.{ℕ, zero, suc, refl, inl, inr, true, false, not, Option, none, some}
use smartmontools.Common.{List, [], arith, ltb, leb, leb→le, eq_of_==, Bool-cases, length}
use smartmontools.Common.{get_elem?, get_or, set, get_elem?-set_self, get_elem?-set_ne}
use smartmontools.Common.{if-each, ◌+◌, ◌-◌, ◌*◌, ◌^◌, ◌≤◌, ◌<◌, ◌≡◌, ◌≢◌, ◌⊎◌, ◌==◌, ◌!=◌}
use smartmontools.Common.{if◌then◌else◌}
use native.Mathlib.Nat.{pow-suc, one-le-pow, pow-le-pow_right}
use Prim.Native.Nat.{min}
use smartmontools.Smartd.State.{MailInfo, DevState, DevConfig, EmailFreq}
use smartmontools.Smartd.Mail.{Mail, smartd_nmail, no_mailinfo, mail_days, too_early, has_address}
use smartmontools.Smartd.Mail.{
  diminishing_days, diminishing_nextdays, send_mail, warn_when, mail_warning,
}
use smartmontools.Smartd.Mail.{reset_warning_mail}

-- When a reminder is due, `logged` mails after the first one: never with 'once', at any time with
-- 'always', after a day with 'daily', and after 1, 2, 4, 8, 16, 32, 32 ... days with 'diminishing'.
pub IsReminderDue : EmailFreq → ℕ → MailInfo → Type 0
IsReminderDue EmailFreq.unknown now mail = ⊥
IsReminderDue EmailFreq.once now mail = ⊥
IsReminderDue EmailFreq.always now mail = Unit
IsReminderDue EmailFreq.daily now mail = mail.lastsent + 86400 ≤ now
IsReminderDue EmailFreq.diminishing now mail =
    mail.lastsent + 86400 * min (2 ^ (mail.logged - 1)) 32 ≤ now

diminishing_days-min :
    (logged : ℕ) → logged ≢ 0 → diminishing_days logged ≡ min (2 ^ (logged - 1)) 32
unfolding diminishing_days diminishing_nextdays
diminishing_days-min zero some_mail = absurd (some_mail refl)
diminishing_days-min (suc n) some_mail = elim (Bool-cases (leb n 4)) [
  | inl small ↦ ground (
    arith,
    pow-suc 2 n,
    pow-le-pow_right {n = 2} (omega arith) {i = n} {j = 4} (leb→le n 4 small),
  )
  | inr large ↦
      ground (arith, pow-le-pow_right {n = 2} (omega arith) {i = 5} {j = n} (ground arith))
]

-- Whether a mail of this type is due: the first one is, and a reminder is when its interval is over;
-- a test mail, type 0, has no reminders.
unfoldable pub IsDue : EmailFreq → ℕ → ℕ → MailInfo → Type 0
IsDue freq now which mail = (mail.logged ≡ 0) ⊎ ((which ≢ 0) × IsReminderDue freq now mail)

-- What a call leaves when the mail is due, and when it is not.
unfoldable pub Warned : EmailFreq → ℕ → DevState → ℕ → MailInfo → DevState × List Mail → Type 0
Warned freq now s which mail (s', mails) =
    (IsDue freq now which mail
      → (length mails ≡ 1)
        × (s' ≡ record s {
          maillog = set s.maillog which (record {
            logged = mail.logged + 1;
            firstsent = if mail.logged != 0 then mail.firstsent else now;
            lastsent = now;
          });
        }))
    × (¬ IsDue freq now which mail → (mails ≡ []) × (s' ≡ s))

judged-Warned :
    (freq : EmailFreq) (now : ℕ) (s : DevState) (which : ℕ) (mail : MailInfo) (days next : Option ℕ)
    → (mail.logged ≢ 0
        → too_early days now mail ≡ true
        → (which ≢ 0) × IsReminderDue freq now mail
        → ⊥)
    → (mail.logged ≢ 0
        → too_early days now mail ≡ false
        → (which ≢ 0) × IsReminderDue freq now mail)
    → Warned freq now s which mail (warn_when (some (days, next)) now s which mail)
unfolding warn_when Warned IsDue send_mail
judged-Warned freq now s which mail days next early late = elim (Bool-cases (mail.logged != 0)) [
  | inr first ↦ rw first (λ due. (refl, refl), λ not_due. absurd (not_due (inl (ground arith))))
  | inl again ↦
      let counted : mail.logged ≢ 0 = λ z. ground arith in
      rw again (elim (Bool-cases (too_early days now mail)) [
        | inl e ↦ rw e (
          λ due. absurd (elim due [ inl z ↦ counted z | inr d ↦ early counted e d ]),
          λ not_due. (refl, refl),
        )
        | inr e ↦ rw e (λ due. (refl, refl), λ not_due. absurd (not_due (inr (late counted e))))
      ])
]

mail_days-Warned :
    (freq : EmailFreq) (now : ℕ) (s : DevState) (which : ℕ) (mail : MailInfo)
    → freq ≢ EmailFreq.unknown
    → Warned freq now s which mail (warn_when (mail_days which freq mail.logged) now s which mail)
unfolding mail_days IsReminderDue too_early
mail_days-Warned freq now s zero mail known =
    judged-Warned freq now s zero mail none none (λ c e d. d.0 refl)
      (λ c e. absurd (grind (arith, e)))
mail_days-Warned EmailFreq.unknown now s (suc which) mail known = absurd (known refl)
mail_days-Warned EmailFreq.once now s (suc which) mail known =
    judged-Warned EmailFreq.once now s (suc which) mail none none (λ c e d. d.1)
      (λ c e. absurd (grind (arith, e)))
mail_days-Warned EmailFreq.always now s (suc which) mail known =
    judged-Warned EmailFreq.always now s (suc which) mail (some 0) (some 0)
      (λ c e d. grind (arith, e)) (λ c e. (omega arith, tt))
mail_days-Warned EmailFreq.daily now s (suc which) mail known =
    judged-Warned EmailFreq.daily now s (suc which) mail (some 1) (some 1)
      (λ c e d. ground (arith, e, d.1)) (λ c e. (omega arith, ground (arith, e)))
mail_days-Warned EmailFreq.diminishing now s (suc which) mail known =
    let days = diminishing_days-min mail.logged in
    let positive = one-le-pow (mail.logged - 1) 2 in
    judged-Warned EmailFreq.diminishing now s (suc which) mail (some (diminishing_days mail.logged))
      (some (diminishing_nextdays mail.logged)) (λ c e d. ground (arith, e, d.1, days c, positive))
      (λ c e. (omega arith, ground (arith, e, days c, positive)))

-- For a configured device with 13 mail logs and a known frequency, a warning of type 0 to 12 sends
-- one mail and records its time and number in the log of its type, and nothing else, exactly when it
-- is due: it is the first of its type, or it is a reminder, not of a test mail, and the interval of
-- the frequency is over since the last mail. Otherwise it sends no mail and changes nothing.
pub mail_warning-Warned :
    (cfg : DevConfig) (now : ℕ) (s : DevState) (which : ℕ)
    → has_address cfg ≡ true
    → which < 13
    → cfg.emailfreq ≢ EmailFreq.unknown
    → Warned cfg.emailfreq now s which
        (get_or s.maillog which no_mailinfo)
        (mail_warning cfg now s which)
unfolding mail_warning
mail_warning-Warned cfg now s which address type known =
    let type_test : ltb which smartd_nmail ≡ true = ground arith in
    rw address (rw type_test (mail_days-Warned cfg.emailfreq now s which _ known))

-- The log of the type is empty, and the other logs are as they were.
pub Forgotten : DevState → ℕ → DevState → Type 0
Forgotten s which s' =
    ((get_or s'.maillog which no_mailinfo).logged ≡ 0)
    × ((j : ℕ) → which ≢ j → get_elem? s'.maillog j ≡ get_elem? s.maillog j)

reset_warning_mail-Forgotten :
    (s : DevState) (which : ℕ)
    → length s.maillog ≡ 13
    → which < 13
    → Forgotten s which (reset_warning_mail s which)
unfolding reset_warning_mail Forgotten
reset_warning_mail-Forgotten s which full type =
    if-each (Forgotten s which) (not (ltb which smartd_nmail)) (λ out. absurd (ground arith))
      (λ _.
        if-each (Forgotten s which) ((get_or s.maillog which no_mailinfo).logged == 0)
          (λ e. (eq_of_== _ 0 e, λ j ne. refl))
          (λ _. (
            rw (get_elem?-set_self s.maillog which no_mailinfo (omega (arith, full))) refl,
            λ j ne. get_elem?-set_ne s.maillog which j no_mailinfo ne,
          )))

-- After a reset with 13 mail logs the log of the type is empty and the other logs are as they were,
-- and the next warning of that type, at any time, sends one mail, for a configured device with a
-- known frequency.
pub reset_warning_mail-due :
    (cfg : DevConfig) (now : ℕ) (s : DevState) (which : ℕ)
    → length s.maillog ≡ 13
    → which < 13
    → has_address cfg ≡ true
    → cfg.emailfreq ≢ EmailFreq.unknown
    → let s' = reset_warning_mail s which in
      Forgotten s which s' × (length (mail_warning cfg now s' which).1 ≡ 1)
unfolding Forgotten Warned IsDue
reset_warning_mail-due cfg now s which full type address known =
    let s' = reset_warning_mail s which in
    let reset = reset_warning_mail-Forgotten s which full type in
    (reset, ((mail_warning-Warned cfg now s' which address type known).0 (inl reset.0)).0)
