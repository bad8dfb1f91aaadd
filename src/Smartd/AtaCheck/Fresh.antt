-- ===== src/Smartd/AtaCheck/Fresh.antt =====
-- What a whole check does to the attributes.
use smartmontools.Common.{ℕ, refl, ap, inl, inr, Bool, true, false, not, Option, none, some}
use smartmontools.Common.{List, ltb, leb, length, if-both, ◌+◌, ◌≡◌, ◌∙◌, ◌⊎◌, ◌&&◌, ◌||◌}
use smartmontools.Smartd.State.{DevState, DevConfig, update_persistent_state, update_each}
use smartmontools.Smartd.State.{persistent_attribute}
use smartmontools.Smartd.Mail.{reset_warning_mail}
use smartmontools.Smartd.OpenDevice.{Checked, ◌then_do◌}
use smartmontools.Smartd.OpenDevice.{begin_check}
use smartmontools.Smartd.AtaSelfTest.{SmartValues, TestReplies}
use smartmontools.Smartd.Schedule.{Tm, search_tests, lacks_all_tests}
use smartmontools.Smartd.Schedule.{next_scheduled_test}
use smartmontools.Smartd.AtaCheck.{AtaReplies, reset_flags, save_values, check_values}
use smartmontools.Smartd.AtaCheck.{check_pending_if, check_temperature_if, check_attributes_if}
use smartmontools.Smartd.AtaCheck.{check_read_values, needs_values, check_smart_data}
use smartmontools.Smartd.AtaCheck.{check_smart_status, check_selftest_log, check_error_count}
use smartmontools.Smartd.AtaCheck.{run_scheduled_test, checks_of_device, go_on_with}
use smartmontools.Smartd.AtaCheck.{ata_check_device}
use smartmontools.Smartd.AtaCheck.Kept.{Kept, KeptBy, Kept-refl, Kept-trans}
use smartmontools.Smartd.AtaCheck.Kept.{reset_warning_mail-Kept}
use smartmontools.Smartd.AtaCheck.Steps.{warn_and_write-Kept, check_pending_if-Kept}
use smartmontools.Smartd.AtaCheck.Steps.{check_temperature_if-Kept, check_attributes_if-Kept}
use smartmontools.Smartd.AtaCheck.Steps.{check_smart_status-Kept, check_selftest_log-Kept}
use smartmontools.Smartd.AtaCheck.Steps.{check_error_count-Kept}
use smartmontools.Smartd.AtaCheck.Frames.{KeptIn, KeptBegin, start_due_test-Kept, begin_check-Kept}
use smartmontools.Smartd.AtaCheck.Frames.{after_search-Kept}

-- `t` has the attributes of the data that were read, and the persistent ones made of them.
abbrev pub Saved : SmartValues → DevState → DevState → Type 0
Saved smart s t =
    (t.smartval ≡ smart.vendor_attributes)
    × (t.ata_attributes ≡ update_each persistent_attribute smart.vendor_attributes s.ata_attributes)
    × (t.ata_attr_refreshed ≡ true)
    × (length t.maillog ≡ length s.maillog)

pub Saved-Kept :
    (smart : SmartValues) (s t u : DevState) → Saved smart s t → Kept t u → Saved smart s u
unfolding Kept
Saved-Kept smart s t u p q = (q.0 ∙ p.0, q.1 ∙ p.1, q.2 ∙ p.2, q.3 ∙ p.3)

-- The two outcomes for the attributes.
Outcome : Option SmartValues → DevState → DevState → Type 0
Outcome o s t = Kept s t ⊎ ((smart : SmartValues) × (o ≡ some smart) × Saved smart s t)

OutcomeBy : Option SmartValues → DevState → Checked → Type 0
OutcomeBy o s c = Outcome o s c.0

Outcome-Kept :
    (o : Option SmartValues) (s t u : DevState) → Outcome o s t → Kept t u → Outcome o s u
unfolding Outcome
Outcome-Kept o s t u (inl p) q = inl (Kept-trans s t u p q)
Outcome-Kept o s t u (inr (smart, e, p)) q = inr (smart, e, Saved-Kept smart s t u p q)

Kept-Outcome :
    (o : Option SmartValues) (s t u : DevState) → Kept s t → Outcome o t u → Outcome o s u
unfolding Outcome Kept
Kept-Outcome o s t u p (inl q) = inl (Kept-trans s t u p q)
Kept-Outcome o s t u p (inr (smart, e, q)) = inr (smart, e, (q.0, rw (← p.1) q.1, q.2, q.3 ∙ p.3))

then_do-Outcome :
    (o : Option SmartValues) (s : DevState) (c : Checked) (f : DevState → Checked)
    → OutcomeBy o s c
    → KeptBy c.0 (f c.0)
    → OutcomeBy o s (c then_do f)
unfolding ◌then_do◌ OutcomeBy
then_do-Outcome o s (t, mails) f p q = Outcome-Kept o s t (f t).0 p q

save_values-Saved :
    (smart : SmartValues) (s t : DevState) → Kept s t → Saved smart s (save_values smart t)
unfolding save_values update_persistent_state Kept
save_values-Saved smart s t h = (
  refl,
  ap (λ table. update_each persistent_attribute smart.vendor_attributes table) h.1,
  refl,
  h.3,
)

pub check_values-Saved :
    (cfg : DevConfig) (now : ℕ) (smart : SmartValues) (s : DevState)
    → Saved smart s (check_values cfg now smart s).0
unfolding check_values ◌then_do◌
check_values-Saved cfg now smart s =
    let s1 = reset_warning_mail s 6 in
    let s2 = (check_pending_if cfg now cfg.curr_pending_id cfg.curr_pending_incr smart 10 s1).0 in
    let s3 = (check_pending_if cfg now cfg.offl_pending_id cfg.offl_pending_incr smart 11 s2).0 in
    let s4 = (check_temperature_if cfg now smart s3).0 in
    let s5 = (check_attributes_if cfg now smart s4).0 in
    save_values-Saved smart s s5 (
      Kept-trans s s1 s5 (reset_warning_mail-Kept s 6) (
        Kept-trans s1 s2 s5
          (check_pending_if-Kept cfg now cfg.curr_pending_id cfg.curr_pending_incr smart 10 s1)
          (Kept-trans s2 s3 s5
            (check_pending_if-Kept cfg now cfg.offl_pending_id cfg.offl_pending_incr smart 11 s2)
            (Kept-trans s3 s4 s5 (check_temperature_if-Kept cfg now smart s3)
              (check_attributes_if-Kept cfg now smart s4)))))

check_read_values-Outcome :
    (cfg : DevConfig) (now : ℕ) (o : Option SmartValues) (s : DevState)
    → OutcomeBy o s (check_read_values cfg now o s)
unfolding check_read_values OutcomeBy Outcome
check_read_values-Outcome cfg now none s = inl (warn_and_write-Kept cfg now 6 s)
check_read_values-Outcome cfg now (some smart) s =
    inr (smart, refl, check_values-Saved cfg now smart s)

check_smart_data-Outcome :
    (cfg : DevConfig) (now : ℕ) (o : Option SmartValues) (s : DevState)
    → OutcomeBy o s (check_smart_data cfg now o s)
unfolding check_smart_data OutcomeBy Outcome ◌then_do◌ Kept
check_smart_data-Outcome cfg now o s =
    if-both (OutcomeBy o s) (needs_values cfg) (check_read_values-Outcome cfg now o s)
      (inl (Kept-refl s))

module _ (full_match : List ℕ → Bool) (local_time : ℕ → ℕ → Tm) (cfg : DevConfig) (now : ℕ) where
  next_scheduled_test-Kept :
      (s : DevState) → KeptIn s (next_scheduled_test full_match local_time cfg now s)
  unfolding next_scheduled_test KeptIn
  next_scheduled_test-Kept s =
      if-both (KeptIn s) (leb (length cfg.test_regex) 0 || lacks_all_tests s) (Kept-refl s) (
        if-both (KeptIn s)
          (ltb now s.scheduled_test_next_check && leb s.scheduled_test_next_check (now + 3600))
          (Kept-refl s)
          (after_search-Kept now (local_time now 0) s
            (search_tests full_match local_time cfg now s)))

  pub run_scheduled_test-Kept :
      (allow : Bool) (device : TestReplies) (s : DevState)
      → Kept s (run_scheduled_test full_match local_time cfg now allow device s)
  unfolding run_scheduled_test
  run_scheduled_test-Kept allow device s =
      if-both (Kept s) (allow && not (leb (length cfg.test_regex) 0))
        (start_due_test-Kept cfg device s (next_scheduled_test full_match local_time cfg now s)
          (next_scheduled_test-Kept s))
        (Kept-refl s)

  checks_of_device-Outcome :
      (allow : Bool) (replies : AtaReplies) (s : DevState)
      → OutcomeBy replies.smart s (checks_of_device full_match local_time cfg now allow replies s)
  unfolding checks_of_device ◌then_do◌ OutcomeBy Kept Outcome
  checks_of_device-Outcome allow replies s =
      let o = replies.smart in
      let s1 = (check_smart_status cfg now replies.smart_status s).0 in
      let s2 = (check_smart_data cfg now o s1).0 in
      let s3 = (check_selftest_log cfg now replies.selftest_log s2).0 in
      let s4 = (check_error_count cfg now replies s3).0 in
      let s5 = run_scheduled_test full_match local_time cfg now allow replies.test s4 in
      Outcome-Kept o s s2 s5
        (Kept-Outcome o s s1 s2 (check_smart_status-Kept cfg now replies.smart_status s)
          (check_smart_data-Outcome cfg now o s1))
        (Kept-trans s2 s3 s5 (check_selftest_log-Kept cfg now replies.selftest_log s2) (
          Kept-trans s3 s4 s5 (check_error_count-Kept cfg now replies s3)
            (run_scheduled_test-Kept allow replies.test s4)))

  go_on_with-Outcome :
      (allow : Bool) (replies : AtaReplies) (s : DevState) (r : Checked × Bool)
      → KeptBegin s r
      → OutcomeBy replies.smart s (go_on_with full_match local_time cfg now allow replies r)
  unfolding go_on_with ◌then_do◌ OutcomeBy KeptBegin Outcome
  go_on_with-Outcome allow replies s ((t, mails), false) h = inl h
  go_on_with-Outcome allow replies s ((t, mails), true) h =
      Kept-Outcome replies.smart s t
        (checks_of_device full_match local_time cfg now allow replies t).0 h
        (checks_of_device-Outcome allow replies t)

  -- After a check, either the attributes are those before it and are not marked as fresh, or they are
  -- those that the device has returned, the persistent ones are made of them, and they are marked as
  -- fresh. In both cases the table of mails keeps its size. This holds for every reply of the device,
  -- every configuration, and whether the check is skipped or not.
  pub ata_check_device-fresh :
      (allow : Bool) (replies : AtaReplies) (s : DevState)
      → let t = (ata_check_device full_match local_time cfg now allow replies s).0 in
        (length t.maillog ≡ length s.maillog)
        × (((t.ata_attr_refreshed ≡ false)
              × (t.smartval ≡ s.smartval)
              × (t.ata_attributes ≡ s.ata_attributes))
            ⊎ ((smart : SmartValues) × (replies.smart ≡ some smart)
                × (t.ata_attr_refreshed ≡ true)
                × (t.smartval ≡ smart.vendor_attributes)
                × (t.ata_attributes
                    ≡ update_each persistent_attribute smart.vendor_attributes s.ata_attributes)))
  unfolding ata_check_device OutcomeBy Outcome Kept reset_flags
  ata_check_device-fresh allow replies s =
      elim (go_on_with-Outcome allow replies (reset_flags s)
        (begin_check cfg now replies.device replies.powermode replies.powermode2 (reset_flags s))
        (begin_check-Kept cfg now replies.device replies.powermode replies.powermode2
          (reset_flags s))) [
            | inl k ↦ (k.3, inl (k.2, k.0, k.1))
            | inr (smart, e, k) ↦ (k.3, inr (smart, e, k.2, k.0, k.1))
          ]
