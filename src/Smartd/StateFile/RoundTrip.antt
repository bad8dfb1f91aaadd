-- ===== src/Smartd/StateFile/RoundTrip.antt =====
-- A state file that is written is read back.
use smartmontools.Common.{ℕ, suc, refl, true, false, Option, some, List, [], map, arith}
use smartmontools.Common.{length, All, codes, ◌+◌, ◌^◌, ◌<◌, ◌≡◌, ◌∷◌}
use smartmontools.Smartd.State.{DevState}
use smartmontools.Smartd.StateFile.{Match, new_persistent_state}
use smartmontools.Smartd.StateFile.{accepted, skip_blanks, is_comment}
use smartmontools.Smartd.StateFile.{read_line, read_lines, read_dev_state}
use smartmontools.Smartd.StateFile.Writer.{Key, key_line}
use smartmontools.Smartd.StateFile.Writer.{written_values, write_dev_state}
use smartmontools.Smartd.StateFile.Lines.{key_match, set_key, IsRead}
use smartmontools.Smartd.StateFile.Lines.{parse_dev_state_line-key_line}
use smartmontools.Smartd.StateFile.Tables.{set_keys}
use smartmontools.Smartd.StateFile.Restored.{IsPersistent, with_persistent, written-restores}
use smartmontools.Smartd.StateFile.Values.{IsValue, written_values-All}

-- The regular expression accepts the lines of these values as its text says.
abbrev pub IsMatched : (List ℕ → Option Match) → List (Key × ℕ) → Type 0
IsMatched execute values = All (λ value. execute (key_line value) ≡ some (key_match value.0)) values

not_comment : (key : Key) (v : ℕ) → is_comment (skip_blanks (key_line (key, v))) ≡ false
unfolding is_comment skip_blanks key_line
not_comment Key.temperature_min v = refl
not_comment _ v = refl

read_value :
    (execute : List ℕ → Option Match) (key : Key) (v : ℕ) (s : DevState) (good bad : ℕ)
    → execute (key_line (key, v)) ≡ some (key_match key)
    → IsRead key
    → v < 2 ^ 64
    → read_line execute (key_line (key, v)) (s, good, bad) ≡ (set_key key v s, good + 1, bad)
unfolding read_line
read_value execute key v s good bad h read small =
    rw (not_comment key v) (rw (parse_dev_state_line-key_line execute key v s h read small) refl)

read_values :
    (execute : List ℕ → Option Match) (values : List (Key × ℕ)) (s : DevState) (good bad : ℕ)
    → IsMatched execute values
    → All IsValue values
    → read_lines execute (map key_line values) (s, good, bad)
      ≡ (set_keys values s, good + length values, bad)
unfolding read_lines
read_values execute [] s good bad m h = let e : good + 0 ≡ good = omega arith in rw e refl
read_values execute ((key, v) ∷ values) s good bad m h =
    let e : good + suc (length values) ≡ good + 1 + length values = omega arith in
    rw (read_lines, read_value execute key v s good bad m.0 h.0.0 h.0.1)
      (rw e (read_values execute values (set_key key v s) (good + 1) bad m.1 h.1))

header_skipped :
    (execute : List ℕ → Option Match) (lines : List (List ℕ)) (s : DevState)
    → read_lines execute (codes "# smartd state file\n" ∷ lines) (s, 0, 0)
      ≡ read_lines execute lines (s, 0, 0)
unfolding read_lines read_line skip_blanks is_comment
header_skipped execute lines s = refl

-- A state file that is written is read back, into any device state `t`: if the regular expression
-- matches the lines that are written as its text says, read_dev_state succeeds, every persistent
-- value of `s` in the range of its type is restored, the other values of `t` stay, and only these are
-- not kept: the test mail, the times of a mail that was not sent, the other bytes of an attribute
-- without id, and media errors above 2 ^ 64 - 1.
pub write_dev_state-read :
    (execute : List ℕ → Option Match) (s t : DevState)
    → IsPersistent s
    → IsMatched execute (written_values s)
    → read_dev_state execute (some (write_dev_state s)) t ≡ (with_persistent s t, true)
unfolding read_dev_state write_dev_state accepted
write_dev_state-read execute s t h m =
    let start = new_persistent_state t in
    rw (header_skipped execute (map key_line (written_values s)) start) (
      rw (read_values execute (written_values s) start 0 0 m (written_values-All s h))
        (rw (written-restores s t h) refl))
