-- ===== src/Smartd/StateFile/Writer.antt =====
-- write_dev_state of src/smartd.cpp.
use smartmontools.Common.{ℕ, zero, suc, List, [], map, ltb, codes, decimal, ◌+◌, ◌-◌, ◌^◌}
use smartmontools.Common.{◌∷◌, ◌++◌, ◌==◌, ◌!=◌, if◌then◌else◌}
use smartmontools.ByteOrder.{uile128_clamp_to_uint64}
use smartmontools.Smartd.State.{MailInfo, AtaAttribute, DevState}

-- The names of the values: what the calls of write_dev_state_line print before " = ".
pub data Key : Type 0 where
  temperature_min temperature_max self_test_errors self_test_last_err_hour : Key
  scheduled_test_next_check selective_test_last_start selective_test_last_end : Key
  mail_count mail_first_sent_time mail_last_sent_time : ℕ → Key
  ata_error_count : Key
  attribute_id attribute_val attribute_worst attribute_raw attribute_resvd : ℕ → Key
  nvme_err_log_entries nvme_available_spare nvme_percentage_used nvme_media_errors : Key

abbrev pub key_name : Key → List ℕ
key_name Key.temperature_min = codes "temperature-min"
key_name Key.temperature_max = codes "temperature-max"
key_name Key.self_test_errors = codes "self-test-errors"
key_name Key.self_test_last_err_hour = codes "self-test-last-err-hour"
key_name Key.scheduled_test_next_check = codes "scheduled-test-next-check"
key_name Key.selective_test_last_start = codes "selective-test-last-start"
key_name Key.selective_test_last_end = codes "selective-test-last-end"
key_name (Key.mail_count i) = codes "mail." ++ (decimal i ++ codes ".count")
key_name (Key.mail_first_sent_time i) = codes "mail." ++ (decimal i ++ codes ".first-sent-time")
key_name (Key.mail_last_sent_time i) = codes "mail." ++ (decimal i ++ codes ".last-sent-time")
key_name Key.ata_error_count = codes "ata-error-count"
key_name (Key.attribute_id i) = codes "ata-smart-attribute." ++ (decimal i ++ codes ".id")
key_name (Key.attribute_val i) = codes "ata-smart-attribute." ++ (decimal i ++ codes ".val")
key_name (Key.attribute_worst i) = codes "ata-smart-attribute." ++ (decimal i ++ codes ".worst")
key_name (Key.attribute_raw i) = codes "ata-smart-attribute." ++ (decimal i ++ codes ".raw")
key_name (Key.attribute_resvd i) = codes "ata-smart-attribute." ++ (decimal i ++ codes ".resvd")
key_name Key.nvme_err_log_entries = codes "nvme-err-log-entries"
key_name Key.nvme_available_spare = codes "nvme-available-spare"
key_name Key.nvme_percentage_used = codes "nvme-percentage-used"
key_name Key.nvme_media_errors = codes "nvme-media-errors"

-- The line that write_dev_state_line prints.
unfoldable pub key_line : Key × ℕ → List ℕ
key_line (key, val) = key_name key ++ (codes " = " ++ (decimal val ++ codes "\n"))

-- write_dev_state_line: the value is printed if it is not 0.
unfoldable pub write_dev_state_line : Key → ℕ → List (Key × ℕ)
write_dev_state_line key val = if val != 0 then (key, val) ∷ [] else []

-- An int as a uint64_t.
unfoldable pub uint64_of_int : ℕ → ℕ
uint64_of_int i = if ltb i (2 ^ 31) then i else i + (2 ^ 64 - 2 ^ 32)

-- One round of the loop over the mails.
unfoldable pub write_mail : ℕ → MailInfo → List (Key × ℕ)
unfolding write_dev_state_line uint64_of_int
write_mail zero mi = []
write_mail (suc j) mi =
    let i = suc j in
    let count = write_dev_state_line (Key.mail_count i) (uint64_of_int mi.logged) in
    let first = write_dev_state_line (Key.mail_first_sent_time i) mi.firstsent in
    let last = write_dev_state_line (Key.mail_last_sent_time i) mi.lastsent in
    if mi.logged == 0 then [] else count ++ (first ++ last)

-- One round of the loop over the attributes.
unfoldable pub write_attribute : ℕ → AtaAttribute → List (Key × ℕ)
unfolding write_dev_state_line
write_attribute i pa =
    let id = write_dev_state_line (Key.attribute_id i) pa.id in
    let val = write_dev_state_line (Key.attribute_val i) pa.val in
    let worst = write_dev_state_line (Key.attribute_worst i) pa.worst in
    let raw = write_dev_state_line (Key.attribute_raw i) pa.raw in
    let resvd = write_dev_state_line (Key.attribute_resvd i) pa.resvd in
    if pa.id == 0 then [] else id ++ (val ++ (worst ++ (raw ++ resvd)))

-- The two loops.
unfoldable pub write_each : {A : Type 0} → (ℕ → A → List (Key × ℕ)) → ℕ → List A → List (Key × ℕ)
write_each write i [] = []
write_each write i (x ∷ xs) = write i x ++ write_each write (suc i) xs

-- The values that write_dev_state writes, in its order.
unfoldable pub written_values : DevState → List (Key × ℕ)
unfolding write_dev_state_line write_each write_mail write_attribute uint64_of_int
written_values s =
    write_dev_state_line Key.temperature_min s.tempmin
    ++ (write_dev_state_line Key.temperature_max s.tempmax
        ++ (write_dev_state_line Key.self_test_errors s.selflogcount
            ++ (write_dev_state_line Key.self_test_last_err_hour s.selfloghour
                ++ (write_dev_state_line Key.scheduled_test_next_check s.scheduled_test_next_check
                    ++ (write_dev_state_line Key.selective_test_last_start
                          s.selective_test_last_start
                        ++ (write_dev_state_line Key.selective_test_last_end
                              s.selective_test_last_end
                            ++ (write_each write_mail 0 s.maillog
                                ++ (write_dev_state_line Key.ata_error_count
                                      (uint64_of_int s.ataerrorcount)
                                    ++ (write_each write_attribute 0 s.ata_attributes
                                        ++ (write_dev_state_line Key.nvme_err_log_entries
                                              s.nvme_err_log_entries
                                            ++ (write_dev_state_line Key.nvme_available_spare
                                                  s.nvme_avail_spare
                                                ++ (write_dev_state_line Key.nvme_percentage_used
                                                      s.nvme_percent_used
                                                    ++ write_dev_state_line Key.nvme_media_errors (
                                                        uile128_clamp_to_uint64
                                                          s.nvme_media_errors)))))))))))))

-- The lines of the file that write_dev_state makes.
unfoldable pub write_dev_state : DevState → List (List ℕ)
unfolding written_values key_line
write_dev_state s = codes "# smartd state file\n" ∷ map key_line (written_values s)
