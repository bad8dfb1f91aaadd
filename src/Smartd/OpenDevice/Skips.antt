-- ===== src/Smartd/OpenDevice/Skips.antt =====
-- How many checks in a row can be skipped.
use smartmontools.Common.{ℕ, suc, refl, sym, ap, Bool, true, false, not, Option, none, List}
use smartmontools.Common.{[], arith, length, if-both, if-each, ◌+◌, ◌≤◌, ◌<◌, ◌≡◌, ◌∙◌, ◌≢◌}
use smartmontools.Common.{◌&&◌, ◌∷◌, ◌!=◌}
use smartmontools.Smartd.State.{DevState, DevConfig}
use smartmontools.Smartd.Mail.{mail_warning, reset_warning_mail, warn_when, send_mail}
use smartmontools.Smartd.OpenDevice.{Checked, may_skip, count_skip, OpenReplies}
use smartmontools.Smartd.OpenDevice.{powered_down_skip, open_worked, try_open}
use smartmontools.Smartd.OpenDevice.{test_mail, with_mails, open_device, settled_mode, dont_check}
use smartmontools.Smartd.OpenDevice.{known_mode, note_mode, skip_or_resume}
use smartmontools.Smartd.OpenDevice.{check_power_mode, after_open, begin_check}

-- The number of skipped checks is `n`.
HasCount : ℕ → DevState → Type 0
HasCount n s = s.powerskipcnt ≡ n

mail_warning-HasCount :
    (n : ℕ) (cfg : DevConfig) (now : ℕ) (s : DevState) (which : ℕ)
    → HasCount n s
    → HasCount n (mail_warning cfg now s which).0
unfolding mail_warning HasCount warn_when send_mail
mail_warning-HasCount n cfg now s which h = ground (arith, h)

reset_warning_mail-HasCount :
    (n : ℕ) (s : DevState) (which : ℕ) → HasCount n s → HasCount n (reset_warning_mail s which)
unfolding reset_warning_mail HasCount
reset_warning_mail-HasCount n s which h = ground (arith, h)

-- A skip is counted, and the limit allowed it.
pub IsSkip : DevConfig → DevState → DevState → Type 0
IsSkip cfg s s' = (s'.powerskipcnt ≡ suc s.powerskipcnt) × (may_skip cfg s ≡ true)

count_skip-IsSkip :
    (cfg : DevConfig) (s : DevState) (mode : Option ℕ)
    → may_skip cfg s ≡ true
    → IsSkip cfg s (count_skip cfg s mode)
unfolding IsSkip count_skip
count_skip-IsSkip cfg s mode h = (omega arith, h)

-- A step that stops the check has skipped it, and one that goes on keeps the count.
Stepped : DevConfig → DevState → Checked × Bool → Type 0
Stepped cfg s ((s', mails), go_on) =
    (go_on ≡ false → IsSkip cfg s s') × (go_on ≡ true → HasCount s.powerskipcnt s')

open_worked-HasCount :
    (cfg : DevConfig) (s : DevState) → HasCount s.powerskipcnt (open_worked cfg s)
unfolding open_worked HasCount
open_worked-HasCount cfg s =
    if-both (HasCount s.powerskipcnt) (not cfg.removable)
      (reset_warning_mail-HasCount s.powerskipcnt s 9 refl)
      (if-both (HasCount s.powerskipcnt) s.removed refl refl)

try_open-Stepped :
    (cfg : DevConfig) (now : ℕ) (device : OpenReplies) (s : DevState)
    → device.opened ≡ true
    → Stepped cfg s (try_open cfg now device s)
unfolding try_open Stepped powered_down_skip
try_open-Stepped cfg now device s works =
    if-each (Stepped cfg s) (powered_down_skip cfg device s)
      (λ t. (λ f. count_skip-IsSkip cfg s none (grind (arith, t)), λ f. cc))
      (λ f. rw works (λ z. cc, λ z. open_worked-HasCount cfg s))

-- may_skip looks at the number of skipped checks only.
may_skip-same :
    (cfg : DevConfig) (s t : DevState) → HasCount s.powerskipcnt t → may_skip cfg t ≡ may_skip cfg s
unfolding may_skip HasCount
may_skip-same cfg s t h = rw h refl

with_mails-Stepped :
    (cfg : DevConfig) (s : DevState) (first : Checked) (f : DevState → Checked × Bool)
    → HasCount s.powerskipcnt first.0
    → Stepped cfg first.0 (f first.0)
    → Stepped cfg s (with_mails first f)
unfolding with_mails Stepped IsSkip HasCount
with_mails-Stepped cfg s (s', mails) f same h = (
  λ stop. ((h.0 stop).0 ∙ ap suc same, sym (may_skip-same cfg s s' same) ∙ (h.0 stop).1),
  λ go. h.1 go ∙ same,
)

open_device-Stepped :
    (cfg : DevConfig) (now : ℕ) (device : OpenReplies) (s : DevState)
    → device.opened ≡ true
    → Stepped cfg s (open_device cfg now device s)
unfolding open_device test_mail HasCount
open_device-Stepped cfg now device s works =
    with_mails-Stepped cfg s (test_mail cfg now s) (try_open cfg now device)
      (if-both (λ (c : Checked). HasCount s.powerskipcnt c.0) cfg.emailtest
        (mail_warning-HasCount s.powerskipcnt cfg now s 0 refl) refl)
      (try_open-Stepped cfg now device (test_mail cfg now s).0 works)

note_mode-HasCount : (mode : Option ℕ) (s : DevState) → HasCount s.powerskipcnt (note_mode mode s)
unfolding note_mode HasCount
note_mode-HasCount mode s = if-both (HasCount s.powerskipcnt) (known_mode mode) refl refl

IsSkip-same :
    (cfg : DevConfig) (s t s' : DevState)
    → HasCount s.powerskipcnt t
    → IsSkip cfg t s'
    → IsSkip cfg s s'
unfolding IsSkip HasCount
IsSkip-same cfg s t s' same h = (h.0 ∙ ap suc same, sym (may_skip-same cfg s t same) ∙ h.1)

-- The result of the power mode check, if the device check ends with it.
EndsInSkip : DevConfig → DevState → DevState × Bool → Type 0
EndsInSkip cfg s (s', go_on) = go_on ≡ false → IsSkip cfg s s'

skip_or_resume-IsSkip :
    (cfg : DevConfig) (now : ℕ) (mode : Option ℕ) (s : DevState)
    → EndsInSkip cfg s (skip_or_resume cfg now mode s)
unfolding skip_or_resume EndsInSkip
skip_or_resume-IsSkip cfg now mode s =
    if-both (EndsInSkip cfg s) (dont_check cfg mode)
      (if-each (EndsInSkip cfg s) (may_skip cfg s) (λ t z. count_skip-IsSkip cfg s mode t)
        (λ f z. cc))
      (if-both (EndsInSkip cfg s) (s.powerskipcnt != 0) (λ z. cc) (λ z. cc))

check_power_mode-IsSkip :
    (cfg : DevConfig) (now : ℕ) (powermode powermode2 : Option ℕ) (s : DevState)
    → EndsInSkip cfg s (check_power_mode cfg now powermode powermode2 s)
unfolding check_power_mode EndsInSkip
check_power_mode-IsSkip cfg now powermode powermode2 s =
    let mode = settled_mode powermode powermode2 in
    if-both (EndsInSkip cfg s) (not (cfg.powermode != 0 && not s.powermodefail)) (λ z. cc)
      (λ z.
        IsSkip-same cfg s (note_mode mode s) (skip_or_resume cfg now mode (note_mode mode s)).0
          (note_mode-HasCount mode s) (skip_or_resume-IsSkip cfg now mode (note_mode mode s) z))

after_open-IsSkip :
    (cfg : DevConfig) (now : ℕ) (powermode powermode2 : Option ℕ) (s : DevState)
    (r : Checked × Bool)
    → Stepped cfg s r
    → (after_open cfg now powermode powermode2 r).1 ≡ false
    → IsSkip cfg s (after_open cfg now powermode powermode2 r).0.0
unfolding after_open Stepped EndsInSkip
after_open-IsSkip cfg now powermode powermode2 s ((s', mails), true) h stopped =
    IsSkip-same cfg s s' (check_power_mode cfg now powermode powermode2 s').0 (h.1 refl)
      (check_power_mode-IsSkip cfg now powermode powermode2 s' stopped)
after_open-IsSkip cfg now powermode powermode2 s ((s', mails), false) h stopped = h.0 refl

pub begin_check-IsSkip :
    (cfg : DevConfig) (now : ℕ) (device : OpenReplies) (powermode powermode2 : Option ℕ)
    (s : DevState)
    → device.opened ≡ true
    → (begin_check cfg now device powermode powermode2 s).1 ≡ false
    → IsSkip cfg s (begin_check cfg now device powermode powermode2 s).0.0
unfolding begin_check
begin_check-IsSkip cfg now device powermode powermode2 s works stopped =
    after_open-IsSkip cfg now powermode powermode2 s (open_device cfg now device s)
      (open_device-Stepped cfg now device s works) stopped

-- What the device answers at one check, and when.
pub record Cycle : Type 0 where
  pub now : ℕ
  pub device : OpenReplies
  pub powermode : Option ℕ
  pub powermode2 : Option ℕ

-- Checks in a row that are all skipped.
pub data Skips (cfg : DevConfig) : DevState → List Cycle → Type 0 where
  done : (s : DevState) → Skips cfg s []
  skip :
      (s : DevState) (c : Cycle) (cs : List Cycle)
      → c.device.opened ≡ true
      → (begin_check cfg c.now c.device c.powermode c.powermode2 s).1 ≡ false
      → Skips cfg (begin_check cfg c.now c.device c.powermode c.powermode2 s).0.0 cs
      → Skips cfg s (c ∷ cs)

may_skip-lt :
    (cfg : DevConfig) (s : DevState)
    → cfg.powerskipmax ≢ 0
    → may_skip cfg s ≡ true
    → s.powerskipcnt < cfg.powerskipmax
unfolding may_skip
may_skip-lt cfg s limit h = ground (arith, limit, h)

-- Where a limit of skipped checks is set and the device can be opened, at most as many checks in a
-- row are skipped as the limit leaves: the next one is carried out, whatever the power modes are.
pub length-Skips :
    (cfg : DevConfig) (s : DevState) (cs : List Cycle)
    → cfg.powerskipmax ≢ 0
    → Skips cfg s cs
    → s.powerskipcnt ≤ cfg.powerskipmax
    → length cs + s.powerskipcnt ≤ cfg.powerskipmax
unfolding IsSkip
length-Skips cfg s [] limit (Skips.done _) h = omega (arith, h)
length-Skips cfg s (c ∷ cs) limit (Skips.skip _ _ _ works stopped more) h =
    let s' = (begin_check cfg c.now c.device c.powermode c.powermode2 s).0.0 in
    let (counted, allowed) =
      begin_check-IsSkip cfg c.now c.device c.powermode c.powermode2 s works stopped in
    let below = may_skip-lt cfg s limit allowed in
    omega (arith, counted, below, length-Skips cfg s' cs limit more (omega (arith, counted, below)))
