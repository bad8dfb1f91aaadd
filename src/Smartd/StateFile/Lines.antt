-- ===== src/Smartd/StateFile/Lines.antt =====
-- A line that is written is read as the value that it holds.
use smartmontools.Common.{ℕ, refl, sym, true, false, Option, none, some, List, [], arith}
use smartmontools.Common.{ltb, length, get_or, set, replicate, drop, u8, u32, codes, decimal}
use smartmontools.Common.{is_digit, strtoull, atoi, strtoull-decimal, atoi-decimal}
use smartmontools.Common.{decimal-append, drop-append, ◌+◌, ◌^◌, ◌<◌, ◌≡◌, ◌∙◌, ◌∷◌, ◌++◌}
use smartmontools.Common.{◌==◌}
use mathlib.Core.List.{append_assoc}
use smartmontools.ByteOrder.{uint64_to_uile128}
use smartmontools.Smartd.State.{MailInfo, AtaAttribute, DevState}
use smartmontools.Smartd.Mail.{no_mailinfo}
use smartmontools.Smartd.StateFile.{
  Match, matched, text_at, text_from, parse_mail, parse_attribute, parse_nvme,
}
use smartmontools.Smartd.StateFile.{parse_value, parse_match, parse_dev_state_line, no_attribute}
use smartmontools.Smartd.StateFile.Writer.{Key, key_name, key_line}

-- The groups of the regular expression that take part, with their offsets.
abbrev pub groups_at : List (ℕ × ℕ) → Match
groups_at [] = replicate 29 none
groups_at ((m, so) ∷ rest) = set (groups_at rest) m (some so)

-- The offset of a name's part that follows an index.
abbrev part_offset : ℕ → ℕ → ℕ
part_offset prefix i = prefix + length (decimal i) + 1

abbrev pub name_groups : Key → List (ℕ × ℕ)
name_groups Key.temperature_min = (2, 0) ∷ []
name_groups Key.temperature_max = (3, 0) ∷ []
name_groups Key.self_test_errors = (4, 0) ∷ []
name_groups Key.self_test_last_err_hour = (5, 0) ∷ []
name_groups Key.scheduled_test_next_check = (6, 0) ∷ []
name_groups Key.selective_test_last_start = (7, 0) ∷ []
name_groups Key.selective_test_last_end = (8, 0) ∷ []
name_groups Key.ata_error_count = (9, 0) ∷ []
name_groups (Key.mail_count i) =
    (10, 0) ∷ (11, 5) ∷ (12, part_offset 5 i) ∷ (13, part_offset 5 i) ∷ []
name_groups (Key.mail_first_sent_time i) =
    (10, 0) ∷ (11, 5) ∷ (12, part_offset 5 i) ∷ (14, part_offset 5 i) ∷ []
name_groups (Key.mail_last_sent_time i) =
    (10, 0) ∷ (11, 5) ∷ (12, part_offset 5 i) ∷ (15, part_offset 5 i) ∷ []
name_groups (Key.attribute_id i) =
    (16, 0) ∷ (17, 20) ∷ (18, part_offset 20 i) ∷ (19, part_offset 20 i) ∷ []
name_groups (Key.attribute_val i) =
    (16, 0) ∷ (17, 20) ∷ (18, part_offset 20 i) ∷ (20, part_offset 20 i) ∷ []
name_groups (Key.attribute_worst i) =
    (16, 0) ∷ (17, 20) ∷ (18, part_offset 20 i) ∷ (21, part_offset 20 i) ∷ []
name_groups (Key.attribute_raw i) =
    (16, 0) ∷ (17, 20) ∷ (18, part_offset 20 i) ∷ (22, part_offset 20 i) ∷ []
name_groups (Key.attribute_resvd i) =
    (16, 0) ∷ (17, 20) ∷ (18, part_offset 20 i) ∷ (23, part_offset 20 i) ∷ []
name_groups Key.nvme_err_log_entries = (24, 0) ∷ []
name_groups Key.nvme_available_spare = (25, 0) ∷ []
name_groups Key.nvme_percentage_used = (26, 0) ∷ []
name_groups Key.nvme_media_errors = (27, 0) ∷ []

-- The match of a line with this key: the whole line and the name start at 0, the value behind " = ".
abbrev pub key_match : Key → Match
key_match key =
    groups_at ((0, 0) ∷ (1, 0) ∷ (28, length (key_name key ++ codes " = ")) ∷ name_groups key)

abbrev pub set_mail : ℕ → (MailInfo → MailInfo) → DevState → DevState
set_mail i f s = record s { maillog = set s.maillog i (f (get_or s.maillog i no_mailinfo)) }

abbrev pub set_attribute : ℕ → (AtaAttribute → AtaAttribute) → DevState → DevState
set_attribute i f s = record s {
  ata_attributes = set s.ata_attributes i (f (get_or s.ata_attributes i no_attribute));
}

-- The state with the value of a key.
abbrev pub set_key : Key → ℕ → DevState → DevState
set_key Key.temperature_min v s = record s { tempmin = u8 v }
set_key Key.temperature_max v s = record s { tempmax = u8 v }
set_key Key.self_test_errors v s = record s { selflogcount = u8 v }
set_key Key.self_test_last_err_hour v s = record s { selfloghour = v }
set_key Key.scheduled_test_next_check v s = record s { scheduled_test_next_check = v }
set_key Key.selective_test_last_start v s = record s { selective_test_last_start = v }
set_key Key.selective_test_last_end v s = record s { selective_test_last_end = v }
set_key Key.ata_error_count v s = record s { ataerrorcount = u32 v }
set_key (Key.mail_count i) v s = set_mail i (λ mi. record mi { logged = u32 v }) s
set_key (Key.mail_first_sent_time i) v s = set_mail i (λ mi. record mi { firstsent = v }) s
set_key (Key.mail_last_sent_time i) v s = set_mail i (λ mi. record mi { lastsent = v }) s
set_key (Key.attribute_id i) v s = set_attribute i (λ pa. record pa { id = u8 v }) s
set_key (Key.attribute_val i) v s = set_attribute i (λ pa. record pa { val = u8 v }) s
set_key (Key.attribute_worst i) v s = set_attribute i (λ pa. record pa { worst = u8 v }) s
set_key (Key.attribute_raw i) v s = set_attribute i (λ pa. record pa { raw = v }) s
set_key (Key.attribute_resvd i) v s = set_attribute i (λ pa. record pa { resvd = u8 v }) s
set_key Key.nvme_err_log_entries v s = record s { nvme_err_log_entries = v }
set_key Key.nvme_available_spare v s = record s { nvme_avail_spare = u8 v }
set_key Key.nvme_percentage_used v s = record s { nvme_percent_used = u8 v }
set_key Key.nvme_media_errors v s = record s { nvme_media_errors = uint64_to_uile128 v }

-- The indices that are read back: a mail that is not the test mail, and an attribute of the table.
abbrev pub IsRead : Key → Type 0
IsRead (Key.mail_count i) = (0 < i) × (i < 13)
IsRead (Key.mail_first_sent_time i) = (0 < i) × (i < 13)
IsRead (Key.mail_last_sent_time i) = (0 < i) × (i < 13)
IsRead (Key.attribute_id i) = i < 30
IsRead (Key.attribute_val i) = i < 30
IsRead (Key.attribute_worst i) = i < 30
IsRead (Key.attribute_raw i) = i < 30
IsRead (Key.attribute_resvd i) = i < 30
IsRead _ = Unit

value_text :
    (name : List ℕ) (v : ℕ)
    → v < 2 ^ 64
    → strtoull
        (drop (length (name ++ codes " = ")) (name ++ (codes " = " ++ (decimal v ++ codes "\n"))))
      ≡ v
unfolding is_digit
value_text name v small = rw (sym (append_assoc name (codes " = ") (decimal v ++ codes "\n"))) (
    rw (drop-append (name ++ codes " = ") (decimal v ++ codes "\n"))
      (rw (decimal-append v (codes "\n")) (strtoull-decimal v 10 [] small refl)))

index_text :
    (i c : ℕ) (rest more : List ℕ)
    → i < 2 ^ 31
    → is_digit c ≡ false
    → atoi ((decimal i ++ (c ∷ rest)) ++ more) ≡ i
index_text i c rest more small e =
    rw (append_assoc (decimal i) (c ∷ rest) more)
      (rw (decimal-append i (c ∷ rest ++ more)) (atoi-decimal i c (rest ++ more) small e))

parse_line :
    (execute : List ℕ → Option Match) (line : List ℕ) (groups : Match) (v : ℕ) (s : DevState)
    → execute line ≡ some groups
    → matched groups 28 ≡ true
    → strtoull (text_at line groups 28) ≡ v
    → parse_dev_state_line execute line s ≡ parse_value line groups v s
unfolding parse_dev_state_line parse_match
parse_line execute line groups v s h m e = rw h (rw m (rw e refl))

in_range : (i n : ℕ) → i < n → ltb i n ≡ true
in_range i n h = ground (arith, h)

positive : (i : ℕ) → 0 < i → (i == 0) ≡ false
positive i h = ground (arith, h)

key_value :
    (key : Key) (v : ℕ) (s : DevState)
    → IsRead key
    → parse_value (key_line (key, v)) (key_match key) v s ≡ some (set_key key v s)
unfolding parse_value matched key_line text_at text_from parse_nvme parse_mail parse_attribute
    is_digit
key_value Key.temperature_min v s h = refl
key_value Key.temperature_max v s h = refl
key_value Key.self_test_errors v s h = refl
key_value Key.self_test_last_err_hour v s h = refl
key_value Key.scheduled_test_next_check v s h = refl
key_value Key.selective_test_last_start v s h = refl
key_value Key.selective_test_last_end v s h = refl
key_value Key.ata_error_count v s h = refl
key_value Key.nvme_err_log_entries v s h = refl
key_value Key.nvme_available_spare v s h = refl
key_value Key.nvme_percentage_used v s h = refl
key_value Key.nvme_media_errors v s h = refl
key_value (Key.mail_count i) v s h =
    let more = codes " = " ++ (decimal v ++ codes "\n") in
    rw (index_text i b'.' (codes "count") more (omega (arith, h.1)) refl)
      (rw (in_range i 13 h.1) (rw (positive i h.0) refl))
key_value (Key.mail_first_sent_time i) v s h =
    let more = codes " = " ++ (decimal v ++ codes "\n") in
    rw (index_text i b'.' (codes "first-sent-time") more (omega (arith, h.1)) refl)
      (rw (in_range i 13 h.1) (rw (positive i h.0) refl))
key_value (Key.mail_last_sent_time i) v s h =
    let more = codes " = " ++ (decimal v ++ codes "\n") in
    rw (index_text i b'.' (codes "last-sent-time") more (omega (arith, h.1)) refl)
      (rw (in_range i 13 h.1) (rw (positive i h.0) refl))
key_value (Key.attribute_id i) v s h =
    let more = codes " = " ++ (decimal v ++ codes "\n") in
    rw (index_text i b'.' (codes "id") more (omega (arith, h)) refl) (rw (in_range i 30 h) refl)
key_value (Key.attribute_val i) v s h =
    let more = codes " = " ++ (decimal v ++ codes "\n") in
    rw (index_text i b'.' (codes "val") more (omega (arith, h)) refl) (rw (in_range i 30 h) refl)
key_value (Key.attribute_worst i) v s h =
    let more = codes " = " ++ (decimal v ++ codes "\n") in
    rw (index_text i b'.' (codes "worst") more (omega (arith, h)) refl) (rw (in_range i 30 h) refl)
key_value (Key.attribute_raw i) v s h =
    let more = codes " = " ++ (decimal v ++ codes "\n") in
    rw (index_text i b'.' (codes "raw") more (omega (arith, h)) refl) (rw (in_range i 30 h) refl)
key_value (Key.attribute_resvd i) v s h =
    let more = codes " = " ++ (decimal v ++ codes "\n") in
    rw (index_text i b'.' (codes "resvd") more (omega (arith, h)) refl) (rw (in_range i 30 h) refl)

value_offset :
    (key : Key) → get_or (key_match key) 28 none ≡ some (length (key_name key ++ codes " = "))
value_offset Key.temperature_min = refl
value_offset _ = refl

value_matched : (key : Key) → matched (key_match key) 28 ≡ true
unfolding matched
value_matched Key.temperature_min = refl
value_matched _ = refl

value_at :
    (key : Key) (v : ℕ) → v < 2 ^ 64 → strtoull (text_at (key_line (key, v)) (key_match key) 28) ≡ v
unfolding text_at text_from key_line
value_at key v small = rw (text_at, value_offset key) (value_text (key_name key) v small)

-- A line with an index that is read and a value of 64 bits sets the value of its key.
pub parse_dev_state_line-key_line :
    (execute : List ℕ → Option Match) (key : Key) (v : ℕ) (s : DevState)
    → execute (key_line (key, v)) ≡ some (key_match key)
    → IsRead key
    → v < 2 ^ 64
    → parse_dev_state_line execute (key_line (key, v)) s ≡ some (set_key key v s)
parse_dev_state_line-key_line execute key v s h read small =
    parse_line execute (key_line (key, v)) (key_match key) v s h (value_matched key)
      (value_at key v small)
    ∙ key_value key v s read
