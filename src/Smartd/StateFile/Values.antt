-- ===== src/Smartd/StateFile/Values.antt =====
-- The values that are written have indices that are read back, and 64 bits.
use smartmontools.Common.{ℕ, zero, suc, List, [], arith, length, All, if-both, ◌+◌, ◌^◌, ◌≤◌}
use smartmontools.Common.{◌<◌, ◌∷◌, ◌++◌, ◌==◌, ◌!=◌}
use smartmontools.ByteOrder.{uile128_clamp_to_uint64}
use smartmontools.Smartd.State.{MailInfo, AtaAttribute, DevState}
use smartmontools.Smartd.StateFile.Writer.{Key, write_dev_state_line}
use smartmontools.Smartd.StateFile.Writer.{uint64_of_int, write_mail, write_attribute, write_each}
use smartmontools.Smartd.StateFile.Writer.{written_values}
use smartmontools.Smartd.StateFile.Lines.{IsRead}
use smartmontools.Smartd.StateFile.Tables.{same_int}
use smartmontools.Smartd.StateFile.Tables.{IsStoredMail}
use smartmontools.Smartd.StateFile.Tables.{IsStoredAttribute}
use smartmontools.Smartd.StateFile.Restored.{IsPersistent}

abbrev pub IsValue : Key × ℕ → Type 0
IsValue value = IsRead value.0 × (value.1 < 2 ^ 64)

append_values : (xs ys : List (Key × ℕ)) → All IsValue xs → All IsValue ys → All IsValue (xs ++ ys)
append_values [] ys p q = q
append_values (x ∷ xs) ys p q = (p.0, append_values xs ys p.1 q)

line-IsValue :
    (key : Key) (v : ℕ) → IsRead key → v < 2 ^ 64 → All IsValue (write_dev_state_line key v)
unfolding write_dev_state_line
line-IsValue key v read small = if-both (All IsValue) (v != 0) ((read, small), tt) tt

mail_values : (i : ℕ) (mi : MailInfo) → i < 13 → IsStoredMail mi → All IsValue (write_mail i mi)
unfolding write_mail
mail_values zero mi h m = tt
mail_values (suc j) mi h m =
    let count = write_dev_state_line (Key.mail_count (suc j)) (uint64_of_int mi.logged) in
    let first = write_dev_state_line (Key.mail_first_sent_time (suc j)) mi.firstsent in
    let last = write_dev_state_line (Key.mail_last_sent_time (suc j)) mi.lastsent in
    let index : (0 < suc j) × (suc j < 13) = (omega arith, h) in
    if-both (All IsValue) (mi.logged == 0) tt (
      append_values count (first ++ last)
        (line-IsValue (Key.mail_count (suc j)) (uint64_of_int mi.logged) index
          (omega (arith, same_int mi.logged m.0, m.0)))
        (append_values first last
          (line-IsValue (Key.mail_first_sent_time (suc j)) mi.firstsent index m.1)
          (line-IsValue (Key.mail_last_sent_time (suc j)) mi.lastsent index m.2)))

attribute_values :
    (i : ℕ) (pa : AtaAttribute) → i < 30 → IsStoredAttribute pa → All IsValue (write_attribute i pa)
unfolding write_attribute
attribute_values i pa h a =
    let byte : (b : ℕ) → b < 256 → b < 2 ^ 64 = λ b small. omega (arith, small) in
    let id = write_dev_state_line (Key.attribute_id i) pa.id in
    let val = write_dev_state_line (Key.attribute_val i) pa.val in
    let worst = write_dev_state_line (Key.attribute_worst i) pa.worst in
    let raw = write_dev_state_line (Key.attribute_raw i) pa.raw in
    let resvd = write_dev_state_line (Key.attribute_resvd i) pa.resvd in
    if-both (All IsValue) (pa.id == 0) tt (
      append_values id (val ++ (worst ++ (raw ++ resvd)))
        (line-IsValue (Key.attribute_id i) pa.id h (byte pa.id a.0))
        (append_values val (worst ++ (raw ++ resvd))
          (line-IsValue (Key.attribute_val i) pa.val h (byte pa.val a.1))
          (append_values worst (raw ++ resvd)
            (line-IsValue (Key.attribute_worst i) pa.worst h (byte pa.worst a.2))
            (append_values raw resvd (line-IsValue (Key.attribute_raw i) pa.raw h a.3)
              (line-IsValue (Key.attribute_resvd i) pa.resvd h (byte pa.resvd a.4))))))

each-IsValue :
    {A : Type 0} (write : ℕ → A → List (Key × ℕ)) (P : A → Type 0) (n : ℕ) (i : ℕ) (xs : List A)
    → ((j : ℕ) → (x : A) → j < n → P x → All IsValue (write j x))
    → i + length xs ≤ n
    → All P xs
    → All IsValue (write_each write i xs)
unfolding write_each
each-IsValue write P n i [] w fits h = tt
each-IsValue write P n i (x ∷ xs) w fits h =
    append_values (write i x) (write_each write (suc i) xs) (w i x (omega (arith, fits)) h.0)
      (each-IsValue write P n (suc i) xs w (omega (arith, fits)) h.1)

pub written_values-All : (s : DevState) → IsPersistent s → All IsValue (written_values s)
unfolding written_values
written_values-All s h =
    let byte : (b : ℕ) → b < 256 → b < 2 ^ 64 = λ b small. omega (arith, small) in
    let r13 =
      write_dev_state_line Key.nvme_media_errors (uile128_clamp_to_uint64 s.nvme_media_errors) in
    let r12 = write_dev_state_line Key.nvme_percentage_used s.nvme_percent_used ++ r13 in
    let r11 = write_dev_state_line Key.nvme_available_spare s.nvme_avail_spare ++ r12 in
    let r10 = write_dev_state_line Key.nvme_err_log_entries s.nvme_err_log_entries ++ r11 in
    let r9 = write_each write_attribute 0 s.ata_attributes ++ r10 in
    let r8 = write_dev_state_line Key.ata_error_count (uint64_of_int s.ataerrorcount) ++ r9 in
    let r7 = write_each write_mail 0 s.maillog ++ r8 in
    let r6 = write_dev_state_line Key.selective_test_last_end s.selective_test_last_end ++ r7 in
    let r5 = write_dev_state_line Key.selective_test_last_start s.selective_test_last_start ++ r6 in
    let r4 = write_dev_state_line Key.scheduled_test_next_check s.scheduled_test_next_check ++ r5 in
    let r3 = write_dev_state_line Key.self_test_last_err_hour s.selfloghour ++ r4 in
    let r2 = write_dev_state_line Key.self_test_errors s.selflogcount ++ r3 in
    let r1 = write_dev_state_line Key.temperature_max s.tempmax ++ r2 in
    append_values (write_dev_state_line Key.temperature_min s.tempmin) r1
      (line-IsValue Key.temperature_min s.tempmin tt (byte s.tempmin h.0))
      (append_values (write_dev_state_line Key.temperature_max s.tempmax) r2
        (line-IsValue Key.temperature_max s.tempmax tt (byte s.tempmax h.1))
        (append_values (write_dev_state_line Key.self_test_errors s.selflogcount) r3
          (line-IsValue Key.self_test_errors s.selflogcount tt (byte s.selflogcount h.2))
          (append_values (write_dev_state_line Key.self_test_last_err_hour s.selfloghour) r4
            (line-IsValue Key.self_test_last_err_hour s.selfloghour tt h.3)
            (append_values
              (write_dev_state_line Key.scheduled_test_next_check s.scheduled_test_next_check) r5
              (line-IsValue Key.scheduled_test_next_check s.scheduled_test_next_check tt h.4)
              (append_values
                (write_dev_state_line Key.selective_test_last_start s.selective_test_last_start) r6
                (line-IsValue Key.selective_test_last_start s.selective_test_last_start tt h.5)
                (append_values
                  (write_dev_state_line Key.selective_test_last_end s.selective_test_last_end) r7
                  (line-IsValue Key.selective_test_last_end s.selective_test_last_end tt h.6)
                  (append_values (write_each write_mail 0 s.maillog) r8
                    (each-IsValue write_mail IsStoredMail 13 0 s.maillog mail_values
                      (omega (arith, h.12)) h.13)
                    (append_values
                      (write_dev_state_line Key.ata_error_count (uint64_of_int s.ataerrorcount)) r9
                      (line-IsValue Key.ata_error_count (uint64_of_int s.ataerrorcount) tt
                        (omega (arith, same_int s.ataerrorcount h.7, h.7)))
                      (append_values (write_each write_attribute 0 s.ata_attributes) r10
                        (each-IsValue write_attribute IsStoredAttribute 30 0 s.ata_attributes
                          attribute_values (omega (arith, h.14)) h.15)
                        (append_values
                          (write_dev_state_line Key.nvme_err_log_entries s.nvme_err_log_entries) r11
                          (line-IsValue Key.nvme_err_log_entries s.nvme_err_log_entries tt h.8)
                          (append_values
                            (write_dev_state_line Key.nvme_available_spare s.nvme_avail_spare) r12
                            (line-IsValue Key.nvme_available_spare s.nvme_avail_spare tt
                              (byte s.nvme_avail_spare h.9))
                            (append_values
                              (write_dev_state_line Key.nvme_percentage_used s.nvme_percent_used)
                              r13
                              (line-IsValue Key.nvme_percentage_used s.nvme_percent_used tt
                                (byte s.nvme_percent_used h.10))
                              (line-IsValue Key.nvme_media_errors
                                (uile128_clamp_to_uint64 s.nvme_media_errors) tt h.11)))))))))))))
