-- ===== src/Jmb39x/Protocol.antt =====
-- The ATA commands that pass a JMB39x or JMS56x controller: the checks of ata_cmd_is_supported
-- (lib/dev_interface.cpp) and is_supported_by_jmb, the command bytes, and the repairs of the data
-- that the controller truncates (lib/dev_jmb39x_raid.cpp).
pub mod DataIn
pub mod LogIndex
mod Tests
use smartmontools.Common.{ℕ, zero, suc, bit_or, Bool, true, false, not, Option, none, some}
use smartmontools.Common.{List, [], ltb, get_or, set, replicate, take, drop, u8, u32}
use smartmontools.Common.{flag_set, ◌+◌, ◌-◌, ◌*◌, ◌&&◌, ◌||◌, ◌∷◌, ◌++◌, ◌==◌, ◌!=◌, ◌<<◌}
use smartmontools.Common.{if◌then◌else◌}
use smartmontools.Ata.Checksum.{ata_checksum}
use smartmontools.Jmb39x.Sector.{nonempty}

-- One set of the input registers of dev_interface.h.
pub record AtaInRegs : Type 0 where
  pub features : ℕ
  pub sector_count : ℕ
  pub lba_low : ℕ
  pub lba_mid : ℕ
  pub lba_high : ℕ
  pub command : ℕ

pub data Direction : Type 0 where
  no_data : Direction
  data_in : Direction
  data_out : Direction
  invalid : Direction

-- ata_cmd_in; the buffer is `none` for a null pointer. The flags tell whether a register of the
-- second set was set and whether an output register is asked for.
pub record AtaCmdIn : Type 0 where
  pub in_regs : AtaInRegs
  pub prev : AtaInRegs
  pub prev_is_set : Bool
  pub out_needed : Bool
  pub direction : Direction
  pub buffer : Option (List ℕ)
  pub size : ℕ

pub data CmdError : Type 0 where
  invalid_direction : CmdError
  no_data_size : CmdError
  buffer_not_set : CmdError
  size_mismatch : CmdError
  data_out_not_implemented : CmdError
  output_regs_not_implemented : CmdError
  multi_sector_not_implemented : CmdError
  cmd_48bit_not_implemented : CmdError
  cmd_48bit_not_fully_implemented : CmdError

abbrev pub ata_identify_device : ℕ
ata_identify_device = 0xec

abbrev pub ata_smart_cmd : ℕ
ata_smart_cmd = 0xb0

abbrev pub ata_read_log_ext : ℕ
ata_read_log_ext = 0x2f

abbrev pub ata_smart_read_values : ℕ
ata_smart_read_values = 0xd0

abbrev pub ata_smart_read_thresholds : ℕ
ata_smart_read_thresholds = 0xd1

abbrev pub ata_smart_immediate_offline : ℕ
ata_smart_immediate_offline = 0xd4

abbrev pub ata_smart_read_log_sector : ℕ
ata_smart_read_log_sector = 0xd5

abbrev pub ata_smart_write_log_sector : ℕ
ata_smart_write_log_sector = 0xd6

abbrev pub ata_smart_status : ℕ
ata_smart_status = 0xda

abbrev pub supports_data_out : ℕ
supports_data_out = 0x01

abbrev pub supports_smart_status : ℕ
supports_smart_status = 0x02

abbrev pub supports_output_regs : ℕ
supports_output_regs = 0x04

abbrev pub supports_multi_sector : ℕ
supports_multi_sector = 0x08

abbrev pub supports_48bit_hi_null : ℕ
supports_48bit_hi_null = 0x10

abbrev pub supports_48bit : ℕ
supports_48bit = 0x20

unfoldable pub is_real_48bit_cmd : AtaCmdIn → Bool
is_real_48bit_cmd c =
    c.prev.features != 0
    || c.prev.sector_count != 0
    || c.prev.lba_low != 0
    || c.prev.lba_mid != 0
    || c.prev.lba_high != 0

-- in_regs.sector_count_16
unfoldable pub sector_count_16 : AtaCmdIn → ℕ
sector_count_16 c = bit_or (c.prev.sector_count << 8) c.in_regs.sector_count

-- The check of the features; `none` is `errmsg == 0`.
unfoldable pub check_features : AtaCmdIn → ℕ → Bool → Option CmdError
unfolding is_real_48bit_cmd flag_set
check_features c flags is_data_out =
    if is_data_out && not (flag_set flags supports_data_out)
    then some data_out_not_implemented
    else if c.out_needed
        && not (flag_set flags supports_output_regs)
        && not (
            c.in_regs.command == ata_smart_cmd
            && c.in_regs.features == ata_smart_status
            && flag_set flags supports_smart_status)
    then some output_regs_not_implemented
    else if not (c.size == 0 || c.size == 512) && not (flag_set flags supports_multi_sector)
    then some multi_sector_not_implemented
    else if c.prev_is_set && not (flag_set flags (bit_or supports_48bit_hi_null supports_48bit))
    then some cmd_48bit_not_implemented
    else if is_real_48bit_cmd c && not (flag_set flags supports_48bit)
    then some cmd_48bit_not_fully_implemented
    else none

-- The check of a buffer, for a command with data; `count * 512` is an unsigned.
unfoldable pub check_buffer : AtaCmdIn → ℕ → Bool → Option CmdError
unfolding sector_count_16 check_features
check_buffer c flags is_data_out = elim c.buffer [
  | none ↦ some buffer_not_set
  | some buf ↦
      if u32 (sector_count_16 c * 512) != c.size
      then some size_mismatch
      else check_features c flags is_data_out
]

-- ata_cmd_is_supported; `none` is `true`.
unfoldable pub ata_cmd_is_supported : AtaCmdIn → ℕ → Option CmdError
unfolding check_buffer
ata_cmd_is_supported c flags = elim c.direction [
  | no_data ↦ if c.size != 0 then some no_data_size else check_features c flags false
  | data_in ↦ check_buffer c flags false
  | data_out ↦ check_buffer c flags true
  | invalid ↦ some invalid_direction
]

-- 0: unsupported, 1: supported, 2: supported and has a checksum.
unfoldable pub is_supported_by_jmb : AtaInRegs → ℕ
is_supported_by_jmb r =
    if r.command == ata_identify_device
    then 1
    else if r.command == ata_smart_cmd
    then if r.features == ata_smart_read_values || r.features == ata_smart_read_thresholds
      then 2
      else if r.features == ata_smart_immediate_offline
      then 1
      else if r.features == ata_smart_read_log_sector
      then if r.lba_low == 0x00
        then 1
        else if r.lba_low == 0x01
        then 2
        else if r.lba_low == 0x06 || r.lba_low == 0xe0 || r.lba_low == 0xe1
        then 1
        else 0
      else if r.features == ata_smart_write_log_sector
      then if r.lba_low == 0xe0 then 1 else 0
      else 0
    else if r.command == ata_read_log_ext
    then 1
    else 0

-- The 24 bytes of the entry `data + 2 + i * 24`.
unfoldable pub log_entry : List ℕ → ℕ → List ℕ
log_entry buf i = take 24 (drop (2 + i * 24) buf)

-- entry[4] | (entry[5] << 8)
unfoldable pub entry_hours : List ℕ → ℕ
entry_hours entry = bit_or (get_or entry 5 0 << 8) (get_or entry 4 0)

-- One round of the search for the entry with the highest hours: the best index and its hours,
-- `none` for the index -1.
unfoldable pub better_entry : List ℕ → ℕ → Option (ℕ × ℕ) → Option (ℕ × ℕ)
better_entry buf i best =
    let entry = log_entry buf i in
    if not (nonempty entry) then best else elim best [
      | none ↦ some (i, entry_hours entry)
      | some (best_idx, best_hours) ↦
          if ltb best_hours (entry_hours entry)
          then some (i, entry_hours entry)
          else some (best_idx, best_hours)
    ]

-- The loop over the first n entries.
unfoldable pub best_entry : List ℕ → ℕ → Option (ℕ × ℕ)
unfolding better_entry
best_entry buf zero = none
best_entry buf (suc n) = better_entry buf n (best_entry buf n)

-- Whether one of the first n entries is not empty.
unfoldable pub has_entries : List ℕ → ℕ → Bool
has_entries buf zero = false
has_entries buf (suc n) = if has_entries buf n then true else nonempty (log_entry buf n)

unfoldable pub jmb_fix_selftest_log_index : List ℕ → List ℕ
unfolding best_entry has_entries
jmb_fix_selftest_log_index buf =
    if get_or buf 508 0 != 0
    then buf
    else if not (has_entries buf 21)
    then buf
    else elim (best_entry buf 21) [
      | none ↦ buf
      | some (best_idx, best_hours) ↦ set buf 508 (u8 (best_idx + 1))
    ]

-- buffer[512 - 1] -= ata_checksum(buffer), in a byte.
unfoldable pub fix_checksum : List ℕ → List ℕ
unfolding ata_checksum
fix_checksum buf = set buf 511 (u8 (get_or buf 511 0 + 256 - ata_checksum buf))

-- The data of a DATA IN command: 464 bytes of the response behind its header, zero filled, then
-- repaired.
unfoldable pub copy_data_in : AtaInRegs → List ℕ → List ℕ
unfolding jmb_fix_selftest_log_index fix_checksum is_supported_by_jmb
copy_data_in r response =
    let buf = take 464 (drop 32 response) ++ replicate 48 0 in
    let checked = if ltb 1 (is_supported_by_jmb r) then fix_checksum buf else buf in
    if r.command == ata_smart_cmd && r.features == ata_smart_read_log_sector && r.lba_low == 0x06
    then jmb_fix_selftest_log_index checked
    else checked

-- The command bytes of ata_pass_through.
unfoldable pub pass_through_bytes : ℕ → AtaCmdIn → List ℕ
pass_through_bytes port c =
    let read_size : ℕ = elim c.direction [ no_data ↦ 0x01 | data_out ↦ 0x03 | _ ↦ 0x02 ] in
    let read_addr : ℕ = elim c.direction [ no_data ↦ 0x00 | _ ↦ 0xe0 ] in
    0x00 ∷ 0x02 ∷ 0x03 ∷ 0xff ∷ port ∷ read_size ∷ 0x00 ∷ read_addr ∷ 0x00 ∷ 0x00
    ∷ c.in_regs.features ∷ c.prev.features ∷ c.in_regs.sector_count ∷ c.prev.sector_count
    ∷ c.in_regs.lba_low ∷ c.prev.lba_low ∷ c.in_regs.lba_mid ∷ c.prev.lba_mid ∷ c.in_regs.lba_high
    ∷ c.prev.lba_high ∷ 0xa0 ∷ 0x00 ∷ c.in_regs.command ∷ 0x00 ∷ []
