-- ===== src/Smartd/StateFile.antt =====
-- The state files of smartd, src/smartd.cpp: parse_dev_state_line, read_dev_state and
-- write_dev_state. The regular expression of the parser is executed by a library, which is the
-- parameter `execute`. A file is the list of the lines that fgets returns. A number with the top bit
-- set that is stored in an int or a time_t is kept as its bits.
pub mod Writer
pub mod Lines
mod Tables
pub mod Restored
mod Values
pub mod RoundTrip
mod Tests
use smartmontools.Common.{ℕ, Bool, true, false, not, Option, none, some, List, [], ltb}
use smartmontools.Common.{get_or, set, replicate, drop, u8, u32, strtoull, atoi, ◌+◌, ◌&&◌}
use smartmontools.Common.{◌||◌, ◌∷◌, ◌==◌, ◌!=◌, if◌then◌else◌}
use smartmontools.ByteOrder.{uile128_clamp_to_uint64, uint64_to_uile128}
use smartmontools.Smartd.State.{MailInfo, AtaAttribute, DevState}
use smartmontools.Smartd.Mail.{no_mailinfo, smartd_nmail}

-- NUMBER_ATA_SMART_ATTRIBUTES
abbrev pub number_ata_smart_attributes : ℕ
number_ata_smart_attributes = 30

abbrev pub no_attribute : AtaAttribute
no_attribute = record { id = 0; val = 0; worst = 0; raw = 0; resvd = 0 }

-- The value-initialized persistent part.
unfoldable pub new_persistent_state : DevState → DevState
new_persistent_state s = record s {
  tempmin = 0;
  tempmax = 0;
  selflogcount = 0;
  selfloghour = 0;
  scheduled_test_next_check = 0;
  selective_test_last_start = 0;
  selective_test_last_end = 0;
  ataerrorcount = 0;
  nvme_err_log_entries = 0;
  nvme_avail_spare = 0;
  nvme_percent_used = 0;
  nvme_media_errors = uint64_to_uile128 0;
  maillog = replicate smartd_nmail no_mailinfo;
  ata_attributes = replicate number_ata_smart_attributes no_attribute;
}

-- The offsets `rm_so` of the groups, `none` for a group that did not take part.
abbrev pub Match : Type 0
Match = List (Option ℕ)

-- match[m].rm_so >= 0
unfoldable pub matched : Match → ℕ → Bool
matched groups m = elim (get_or groups m none) [ none ↦ false | some so ↦ true ]

unfoldable pub text_from : List ℕ → Option ℕ → List ℕ
text_from line none = line
text_from line (some so) = drop so line

-- line + match[m].rm_so
unfoldable pub text_at : List ℕ → Match → ℕ → List ℕ
unfolding text_from
text_at line groups m = text_from line (get_or groups m none)

-- The branch of the mail types, with m = 11 before it.
unfoldable pub parse_mail : Match → ℕ → ℕ → DevState → Option DevState
unfolding matched
parse_mail groups i val s =
    let mi = get_or s.maillog i no_mailinfo in
    if not (ltb i smartd_nmail)
    then none
    else if i == 0
    then some s
    else if matched groups 13
    then some (record s { maillog = set s.maillog i (record mi { logged = u32 val }) })
    else if matched groups 14
    then some (record s { maillog = set s.maillog i (record mi { firstsent = val }) })
    else if matched groups 15
    then some (record s { maillog = set s.maillog i (record mi { lastsent = val }) })
    else none

-- The branch of the ATA attributes, with m = 17 before it.
unfoldable pub parse_attribute : Match → ℕ → ℕ → DevState → Option DevState
unfolding matched
parse_attribute groups i val s =
    let pa = get_or s.ata_attributes i no_attribute in
    let with : AtaAttribute → Option DevState =
      λ pa'. some (record s { ata_attributes = set s.ata_attributes i pa' }) in
    if not (ltb i number_ata_smart_attributes)
    then none
    else if matched groups 19
    then with (record pa { id = u8 val })
    else if matched groups 20
    then with (record pa { val = u8 val })
    else if matched groups 21
    then with (record pa { worst = u8 val })
    else if matched groups 22
    then with (record pa { raw = val })
    else if matched groups 23
    then with (record pa { resvd = u8 val })
    else none

-- The branches of the NVMe values.
unfoldable pub parse_nvme : Match → ℕ → DevState → Option DevState
unfolding matched
parse_nvme groups val s =
    if matched groups 24
    then some (record s { nvme_err_log_entries = val })
    else if matched groups 25
    then some (record s { nvme_avail_spare = u8 val })
    else if matched groups 26
    then some (record s { nvme_percent_used = u8 val })
    else if matched groups 27
    then some (record s { nvme_media_errors = uint64_to_uile128 val })
    else none

-- The branches of the values with a fixed name, and then the others.
unfoldable pub parse_value : List ℕ → Match → ℕ → DevState → Option DevState
unfolding matched text_at atoi parse_mail parse_attribute parse_nvme
parse_value line groups val s =
    if matched groups 2
    then some (record s { tempmin = u8 val })
    else if matched groups 3
    then some (record s { tempmax = u8 val })
    else if matched groups 4
    then some (record s { selflogcount = u8 val })
    else if matched groups 5
    then some (record s { selfloghour = val })
    else if matched groups 6
    then some (record s { scheduled_test_next_check = val })
    else if matched groups 7
    then some (record s { selective_test_last_start = val })
    else if matched groups 8
    then some (record s { selective_test_last_end = val })
    else if matched groups 9
    then some (record s { ataerrorcount = u32 val })
    else if matched groups 11
    then parse_mail groups (atoi (text_at line groups 11)) val s
    else if matched groups 17
    then parse_attribute groups (atoi (text_at line groups 17)) val s
    else parse_nvme groups val s

-- line + strspn(line, " \t")
unfoldable pub skip_blanks : List ℕ → List ℕ
skip_blanks [] = []
skip_blanks (c ∷ cs) = let rest = skip_blanks cs in if c == b' ' || c == 9 then rest else c ∷ cs

-- A line that is empty after the blanks, or a comment. (A line holds its end of line, so that an empty
-- line of the file is none.)
unfoldable pub is_comment : List ℕ → Bool
is_comment [] = true
is_comment (c ∷ cs) = c == b'#'

-- What parse_dev_state_line does with the result of the regular expression.
unfoldable pub parse_match : List ℕ → Option Match → DevState → Option DevState
unfolding matched text_at parse_value strtoull
parse_match line none s = none
parse_match line (some groups) s =
    if not (matched groups 28)
    then none
    else parse_value line groups (strtoull (text_at line groups 28)) s

-- The end of read_dev_state: a file with bad lines and no good one is refused.
unfoldable pub accepted : DevState → DevState × ℕ × ℕ → DevState × Bool
accepted s (s', good, bad) = if bad != 0 && good == 0 then (s, false) else (s', true)

module _ (execute : List ℕ → Option Match) where
  unfoldable pub parse_dev_state_line : List ℕ → DevState → Option DevState
  unfolding parse_match
  parse_dev_state_line line s = parse_match line (execute line) s

  -- A line in the loop of read_dev_state: the new state, and the numbers of good and of bad lines.
  unfoldable pub read_line : List ℕ → DevState × ℕ × ℕ → DevState × ℕ × ℕ
  unfolding parse_dev_state_line skip_blanks is_comment
  read_line line (s, good, bad) =
      if is_comment (skip_blanks line) then (s, good, bad) else elim (parse_dev_state_line line s) [
        | none ↦ (s, good, bad + 1)
        | some s' ↦ (s', good + 1, bad)
      ]

  unfoldable pub read_lines : List (List ℕ) → DevState × ℕ × ℕ → DevState × ℕ × ℕ
  unfolding read_line
  read_lines [] r = r
  read_lines (line ∷ lines) r = read_lines lines (read_line line r)

  -- read_dev_state: the state after it, and whether it succeeded. `none` is a file that cannot be
  -- opened.
  unfoldable pub read_dev_state : Option (List (List ℕ)) → DevState → DevState × Bool
  unfolding read_lines new_persistent_state accepted
  read_dev_state none s = (s, false)
  read_dev_state (some lines) s = accepted s (read_lines lines (new_persistent_state s, 0, 0))
