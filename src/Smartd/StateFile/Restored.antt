-- ===== src/Smartd/StateFile/Restored.antt =====
-- The values of a state file, set in a new state, give the persistent part back.
use smartmontools.Common.{ℕ, refl, ap, List, [], map, arith, length, replicate, All, u32}
use smartmontools.Common.{◌^◌, ◌<◌, ◌≡◌, ◌∷◌, ◌++◌}
use smartmontools.ByteOrder.{uile128_clamp_to_uint64, uint64_to_uile128}
use smartmontools.Smartd.State.{MailInfo, AtaAttribute, DevState}
use smartmontools.Smartd.Mail.{no_mailinfo, smartd_nmail}
use smartmontools.Smartd.StateFile.{new_persistent_state, no_attribute}
use smartmontools.Smartd.StateFile.Writer.{Key, write_dev_state_line}
use smartmontools.Smartd.StateFile.Writer.{uint64_of_int, write_mail, write_attribute, write_each}
use smartmontools.Smartd.StateFile.Writer.{written_values}
use smartmontools.Smartd.StateFile.Lines.{set_key}
use smartmontools.Smartd.StateFile.Tables.{set_keys, chain, set_keys-line, same_byte, same_int}
use smartmontools.Smartd.StateFile.Tables.{kept_mail, IsStoredMail, mails_written}
use smartmontools.Smartd.StateFile.Tables.{kept_attribute, IsStoredAttribute, attributes_written}

-- The test mail is not kept.
abbrev pub kept_mails : List MailInfo → List MailInfo
kept_mails [] = []
kept_mails (mi ∷ ms) = no_mailinfo ∷ map kept_mail ms

mail_table :
    (ms : List MailInfo) (s : DevState)
    → length ms ≡ smartd_nmail
    → All IsStoredMail ms
    → set_keys
        (write_each write_mail 0 ms)
        (record s { maillog = replicate smartd_nmail no_mailinfo })
      ≡ record s { maillog = kept_mails ms }
unfolding write_each write_mail
mail_table [] s len h = absurd (omega (arith, len))
mail_table (mi ∷ ms) s len h =
    let e : length ms ≡ 12 = omega (arith, len) in
    rw e at (mails_written (no_mailinfo ∷ []) ms 0 s refl h.1)

attribute_table :
    (ms : List AtaAttribute) (s : DevState)
    → length ms ≡ 30
    → All IsStoredAttribute ms
    → set_keys
        (write_each write_attribute 0 ms)
        (record s { ata_attributes = replicate 30 no_attribute })
      ≡ record s { ata_attributes = map kept_attribute ms }
attribute_table ms s len h = rw len at (attributes_written [] ms 0 s refl h)

-- The persistent part of `s` in the ranges of its types, with the sizes of its tables.
abbrev pub IsPersistent : DevState → Type 0
IsPersistent s =
    (s.tempmin < 256)
    × (s.tempmax < 256)
    × (s.selflogcount < 256)
    × (s.selfloghour < 2 ^ 64)
    × (s.scheduled_test_next_check < 2 ^ 64)
    × (s.selective_test_last_start < 2 ^ 64)
    × (s.selective_test_last_end < 2 ^ 64)
    × (s.ataerrorcount < 2 ^ 31)
    × (s.nvme_err_log_entries < 2 ^ 64)
    × (s.nvme_avail_spare < 256)
    × (s.nvme_percent_used < 256)
    × (uile128_clamp_to_uint64 s.nvme_media_errors < 2 ^ 64)
    × (length s.maillog ≡ smartd_nmail)
    × All IsStoredMail s.maillog
    × (length s.ata_attributes ≡ 30)
    × All IsStoredAttribute s.ata_attributes

-- `t` with what a state file keeps of `s`.
abbrev pub with_persistent : DevState → DevState → DevState
with_persistent s t = record t {
  tempmin = s.tempmin;
  tempmax = s.tempmax;
  selflogcount = s.selflogcount;
  selfloghour = s.selfloghour;
  scheduled_test_next_check = s.scheduled_test_next_check;
  selective_test_last_start = s.selective_test_last_start;
  selective_test_last_end = s.selective_test_last_end;
  ataerrorcount = s.ataerrorcount;
  nvme_err_log_entries = s.nvme_err_log_entries;
  nvme_avail_spare = s.nvme_avail_spare;
  nvme_percent_used = s.nvme_percent_used;
  nvme_media_errors = uint64_to_uile128 (uile128_clamp_to_uint64 s.nvme_media_errors);
  maillog = kept_mails s.maillog;
  ata_attributes = map kept_attribute s.ata_attributes;
}

scalar :
    (key : Key) (v : ℕ) (rest : List (Key × ℕ)) (s s' final : DevState)
    → set_key key v s ≡ s'
    → (v ≡ 0 → s ≡ s')
    → set_keys rest s' ≡ final
    → set_keys (write_dev_state_line key v ++ rest) s ≡ final
scalar key v rest s s' final p q r =
    chain (write_dev_state_line key v) rest s s' final (set_keys-line key v s s' p q) r

pub written-restores :
    (s t : DevState)
    → IsPersistent s
    → set_keys (written_values s) (new_persistent_state t) ≡ with_persistent s t
unfolding written_values new_persistent_state
written-restores s t h =
    let t0 : DevState = new_persistent_state t in
    let t1 : DevState = record t0 { tempmin = s.tempmin } in
    let t2 : DevState = record t1 { tempmax = s.tempmax } in
    let t3 : DevState = record t2 { selflogcount = s.selflogcount } in
    let t4 : DevState = record t3 { selfloghour = s.selfloghour } in
    let t5 : DevState = record t4 { scheduled_test_next_check = s.scheduled_test_next_check } in
    let t6 : DevState = record t5 { selective_test_last_start = s.selective_test_last_start } in
    let t7 : DevState = record t6 { selective_test_last_end = s.selective_test_last_end } in
    let t8 : DevState = record t7 { maillog = kept_mails s.maillog } in
    let t9 : DevState = record t8 { ataerrorcount = s.ataerrorcount } in
    let t10 : DevState = record t9 { ata_attributes = map kept_attribute s.ata_attributes } in
    let t11 : DevState = record t10 { nvme_err_log_entries = s.nvme_err_log_entries } in
    let t12 : DevState = record t11 { nvme_avail_spare = s.nvme_avail_spare } in
    let t13 : DevState = record t12 { nvme_percent_used = s.nvme_percent_used } in
    let t14 : DevState = record t13 {
      nvme_media_errors = uint64_to_uile128 (uile128_clamp_to_uint64 s.nvme_media_errors);
    } in
    let r13 =
      write_dev_state_line Key.nvme_media_errors (uile128_clamp_to_uint64 s.nvme_media_errors) in
    let r12 = write_dev_state_line Key.nvme_percentage_used s.nvme_percent_used ++ r13 in
    let r11 = write_dev_state_line Key.nvme_available_spare s.nvme_avail_spare ++ r12 in
    let r10 = write_dev_state_line Key.nvme_err_log_entries s.nvme_err_log_entries ++ r11 in
    let r9 = write_each write_attribute 0 s.ata_attributes ++ r10 in
    let r8 = write_dev_state_line Key.ata_error_count (uint64_of_int s.ataerrorcount) ++ r9 in
    let r7 = write_each write_mail 0 s.maillog ++ r8 in
    let r6 = write_dev_state_line Key.selective_test_last_end s.selective_test_last_end ++ r7 in
    let r5 = write_dev_state_line Key.selective_test_last_start s.selective_test_last_start ++ r6 in
    let r4 = write_dev_state_line Key.scheduled_test_next_check s.scheduled_test_next_check ++ r5 in
    let r3 = write_dev_state_line Key.self_test_last_err_hour s.selfloghour ++ r4 in
    let r2 = write_dev_state_line Key.self_test_errors s.selflogcount ++ r3 in
    let r1 = write_dev_state_line Key.temperature_max s.tempmax ++ r2 in
    let again : u32 (uint64_of_int s.ataerrorcount) ≡ s.ataerrorcount =
      rw (same_int s.ataerrorcount h.7) (omega (arith, h.7)) in
    scalar Key.temperature_min s.tempmin r1 t0 t1 t14
      (ap (λ (b : ℕ). record t0 { tempmin = b }) (same_byte s.tempmin h.0)) (λ z. rw z refl)
      (scalar Key.temperature_max s.tempmax r2 t1 t2 t14
        (ap (λ (b : ℕ). record t1 { tempmax = b }) (same_byte s.tempmax h.1)) (λ z. rw z refl)
        (scalar Key.self_test_errors s.selflogcount r3 t2 t3 t14
          (ap (λ (b : ℕ). record t2 { selflogcount = b }) (same_byte s.selflogcount h.2))
          (λ z. rw z refl)
          (scalar Key.self_test_last_err_hour s.selfloghour r4 t3 t4 t14 refl (λ z. rw z refl)
            (scalar Key.scheduled_test_next_check s.scheduled_test_next_check r5 t4 t5 t14 refl
              (λ z. rw z refl)
              (scalar Key.selective_test_last_start s.selective_test_last_start r6 t5 t6 t14 refl
                (λ z. rw z refl)
                (scalar Key.selective_test_last_end s.selective_test_last_end r7 t6 t7 t14 refl
                  (λ z. rw z refl)
                  (chain (write_each write_mail 0 s.maillog) r8 t7 t8 t14
                    (mail_table s.maillog t7 h.12 h.13)
                    (scalar Key.ata_error_count (uint64_of_int s.ataerrorcount) r9 t8 t9 t14
                      (ap (λ (b : ℕ). record t8 { ataerrorcount = b }) again)
                      (λ z.
                        let e : s.ataerrorcount ≡ 0 =
                          omega (arith, z, same_int s.ataerrorcount h.7) in
                        rw e refl)
                      (chain (write_each write_attribute 0 s.ata_attributes) r10 t9 t10 t14
                        (attribute_table s.ata_attributes t9 h.14 h.15)
                        (scalar Key.nvme_err_log_entries s.nvme_err_log_entries r11 t10 t11 t14 refl
                          (λ z. rw z refl)
                          (scalar Key.nvme_available_spare s.nvme_avail_spare r12 t11 t12 t14
                            (ap (λ (b : ℕ). record t11 { nvme_avail_spare = b })
                              (same_byte s.nvme_avail_spare h.9))
                            (λ z. rw z refl)
                            (scalar Key.nvme_percentage_used s.nvme_percent_used r13 t12 t13 t14
                              (ap (λ (b : ℕ). record t12 { nvme_percent_used = b })
                                (same_byte s.nvme_percent_used h.10))
                              (λ z. rw z refl)
                              (set_keys-line Key.nvme_media_errors
                                (uile128_clamp_to_uint64 s.nvme_media_errors) t13 t14 refl
                                (λ z. rw z refl))))))))))))))
