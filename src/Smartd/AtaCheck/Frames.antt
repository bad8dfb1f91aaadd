-- ===== src/Smartd/AtaCheck/Frames.antt =====
-- The beginning and the scheduled test of a check keep the attributes, too.
use smartmontools.Common.{ℕ, Bool, not, Option, none, some, if-both, ◌&&◌, ◌==◌, ◌!=◌}
use smartmontools.Ata.SelectiveTest.{SpanMode, Prepared}
use smartmontools.Smartd.State.{DevState, DevConfig}
use smartmontools.Smartd.OpenDevice.{Checked, OpenReplies, powered_down_skip, count_skip}
use smartmontools.Smartd.OpenDevice.{open_failed, open_worked, try_open, test_mail, with_mails}
use smartmontools.Smartd.OpenDevice.{open_device, settled_mode, dont_check, may_skip, known_mode}
use smartmontools.Smartd.OpenDevice.{note_mode, skip_or_resume, resume_checks, check_power_mode}
use smartmontools.Smartd.OpenDevice.{after_open, begin_check}
use smartmontools.Smartd.AtaSelfTest.{SmartValues, TestType, TestReplies}
use smartmontools.Smartd.AtaSelfTest.{set_not_capable, is_capable, is_test_running, start_test}
use smartmontools.Smartd.AtaSelfTest.{start_selective, prepare_span, prepare_and_start, test_with}
use smartmontools.Smartd.AtaSelfTest.{do_ata_self_test}
use smartmontools.Smartd.Schedule.{Tm, Search, after_search}
use smartmontools.Smartd.AtaCheck.{start_due_test}
use smartmontools.Smartd.AtaCheck.Kept.{Kept, KeptBy, Kept-refl, Kept-trans, mail_warning-Kept}
use smartmontools.Smartd.AtaCheck.Kept.{reset_warning_mail-Kept}

-- A pair of a state and something else keeps the attributes.
unfoldable pub KeptIn : {A : Type 0} → DevState → DevState × A → Type 0
KeptIn s (t, a) = Kept s t

start_test-Kept :
    (device : TestReplies) (test : TestType) (s : DevState) → KeptIn s (start_test device test s)
unfolding start_test Kept KeptIn
start_test-Kept device TestType.offline s =
    if-both (KeptIn s) (not device.start_ok) (Kept-refl s) (Kept-refl s)
start_test-Kept device _ s = if-both (KeptIn s) (not device.start_ok) (Kept-refl s) (Kept-refl s)

start_selective-Kept :
    (device : TestReplies) (mode : SpanMode) (s : DevState) (p : Prepared)
    → KeptIn s (start_selective device mode s p)
unfolding start_selective Kept KeptIn start_test
start_selective-Kept device mode s (Prepared.prepared args log) =
    if-both (KeptIn s) (not device.start_ok) (Kept-refl s) (Kept-refl s)
start_selective-Kept device mode s _ = Kept-refl s

prepare_and_start-Kept :
    (device : TestReplies) (smart : SmartValues) (test : TestType) (s : DevState)
    → KeptIn s (prepare_and_start device smart test s)
unfolding prepare_and_start
prepare_and_start-Kept device smart (TestType.selective mode) s =
    start_selective-Kept device mode s (prepare_span device smart mode s)
prepare_and_start-Kept device smart TestType.offline s = start_test-Kept device TestType.offline s
prepare_and_start-Kept device smart TestType.conveyance s =
    start_test-Kept device TestType.conveyance s
prepare_and_start-Kept device smart TestType.short s = start_test-Kept device TestType.short s
prepare_and_start-Kept device smart TestType.long s = start_test-Kept device TestType.long s

set_not_capable-Kept : (test : TestType) (s : DevState) → Kept s (set_not_capable test s)
unfolding set_not_capable Kept
set_not_capable-Kept TestType.offline s = Kept-refl s
set_not_capable-Kept _ s = Kept-refl s

test_with-Kept :
    (cfg : DevConfig) (device : TestReplies) (test : TestType) (s : DevState)
    (o : Option SmartValues)
    → KeptIn s (test_with cfg device test s o)
unfolding test_with KeptIn
test_with-Kept cfg device test s none = Kept-refl s
test_with-Kept cfg device test s (some smart) =
    if-both (KeptIn s) (smart.offline_data_collection_capability == 0) (Kept-refl s) (
      if-both (KeptIn s) (not (is_capable smart test)) (set_not_capable-Kept test s) (
        if-both (KeptIn s) (is_test_running cfg smart) (Kept-refl s)
          (prepare_and_start-Kept device smart test s)))

pub start_due_test-Kept :
    (cfg : DevConfig) (device : TestReplies) (s : DevState) (r : DevState × Option TestType)
    → KeptIn s r
    → Kept s (start_due_test cfg device r)
unfolding start_due_test KeptIn do_ata_self_test
start_due_test-Kept cfg device s (t, none) h = h
start_due_test-Kept cfg device s (t, some test) h =
    Kept-trans s t (do_ata_self_test cfg device test t).0 h
      (test_with-Kept cfg device test t device.smart)

pub after_search-Kept :
    (now : ℕ) (tm : Tm) (s : DevState) (r : Search) → Kept s (after_search now tm s r)
unfolding after_search Kept
after_search-Kept now tm s r = Kept-refl s

count_skip-Kept :
    (cfg : DevConfig) (s : DevState) (mode : Option ℕ) → Kept s (count_skip cfg s mode)
unfolding count_skip Kept
count_skip-Kept cfg s mode = Kept-refl s

open_failed-Kept : (cfg : DevConfig) (now : ℕ) (s : DevState) → KeptBy s (open_failed cfg now s)
unfolding open_failed Kept
open_failed-Kept cfg now s =
    if-both (KeptBy s) (not cfg.removable) (mail_warning-Kept cfg now s 9)
      (if-both (KeptBy s) (not s.removed) (Kept-refl s) (Kept-refl s))

open_worked-Kept : (cfg : DevConfig) (s : DevState) → Kept s (open_worked cfg s)
unfolding open_worked Kept
open_worked-Kept cfg s =
    if-both (Kept s) (not cfg.removable) (reset_warning_mail-Kept s 9)
      (if-both (Kept s) s.removed (Kept-refl s) (Kept-refl s))

-- The step before the check goes on or ends.
unfoldable pub KeptBegin : DevState → Checked × Bool → Type 0
KeptBegin s (c, go_on) = KeptBy s c

try_open-Kept :
    (cfg : DevConfig) (now : ℕ) (device : OpenReplies) (s : DevState)
    → KeptBegin s (try_open cfg now device s)
unfolding try_open KeptBegin
try_open-Kept cfg now device s =
    if-both (KeptBegin s) (powered_down_skip cfg device s) (count_skip-Kept cfg s none) (
      if-both (KeptBegin s) (not device.opened) (open_failed-Kept cfg now s)
        (open_worked-Kept cfg s))

open_device-Kept :
    (cfg : DevConfig) (now : ℕ) (device : OpenReplies) (s : DevState)
    → KeptBegin s (open_device cfg now device s)
unfolding open_device KeptBegin test_mail with_mails
open_device-Kept cfg now device s =
    let t = (test_mail cfg now s).0 in
    Kept-trans s t (try_open cfg now device t).0.0
      (if-both (KeptBy s) cfg.emailtest (mail_warning-Kept cfg now s 0) (Kept-refl s))
      (try_open-Kept cfg now device t)

skip_or_resume-Kept :
    (cfg : DevConfig) (now : ℕ) (mode : Option ℕ) (s : DevState)
    → KeptIn s (skip_or_resume cfg now mode s)
unfolding skip_or_resume KeptIn resume_checks Kept
skip_or_resume-Kept cfg now mode s =
    if-both (KeptIn s) (dont_check cfg mode)
      (if-both (KeptIn s) (may_skip cfg s) (count_skip-Kept cfg s mode) (Kept-refl s))
      (if-both (KeptIn s) (s.powerskipcnt != 0) (Kept-refl s) (Kept-refl s))

note_mode-Kept : (mode : Option ℕ) (s : DevState) → Kept s (note_mode mode s)
unfolding note_mode Kept
note_mode-Kept mode s = if-both (Kept s) (known_mode mode) (Kept-refl s) (Kept-refl s)

check_power_mode-Kept :
    (cfg : DevConfig) (now : ℕ) (powermode powermode2 : Option ℕ) (s : DevState)
    → KeptIn s (check_power_mode cfg now powermode powermode2 s)
unfolding check_power_mode KeptIn
check_power_mode-Kept cfg now powermode powermode2 s =
    let mode = settled_mode powermode powermode2 in
    let t = note_mode mode s in
    if-both (KeptIn s) (not (cfg.powermode != 0 && not s.powermodefail)) (Kept-refl s) (
      Kept-trans s t (skip_or_resume cfg now mode t).0 (note_mode-Kept mode s)
        (skip_or_resume-Kept cfg now mode t))

after_open-Kept :
    (cfg : DevConfig) (now : ℕ) (powermode powermode2 : Option ℕ) (s : DevState)
    (r : Checked × Bool)
    → KeptBegin s r
    → KeptBegin s (after_open cfg now powermode powermode2 r)
unfolding after_open KeptBegin KeptIn
after_open-Kept cfg now powermode powermode2 s ((t, mails), opened) h =
    if-both (KeptBegin s) (not opened) h (
      Kept-trans s t (check_power_mode cfg now powermode powermode2 t).0 h
        (check_power_mode-Kept cfg now powermode powermode2 t))

pub begin_check-Kept :
    (cfg : DevConfig) (now : ℕ) (device : OpenReplies) (powermode powermode2 : Option ℕ)
    (s : DevState)
    → KeptBegin s (begin_check cfg now device powermode powermode2 s)
unfolding begin_check
begin_check-Kept cfg now device powermode powermode2 s =
    after_open-Kept cfg now powermode powermode2 s (open_device cfg now device s)
      (open_device-Kept cfg now device s)
