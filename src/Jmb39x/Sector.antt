-- ===== src/Jmb39x/Sector.antt =====
-- The sectors of the JMB39x protocol: obfuscation, CRC, wakeup and request sectors. A buffer
-- `uint8_t data[512]` is the list of its bytes.
pub mod Crc
mod Tests
use smartmontools.Common.{ℕ, zero, suc, bit_and, bit_xor, Bool, true, false, Option, none}
use smartmontools.Common.{some, List, [], get_or, replicate, drop, u8, u32, ◌+◌, ◌||◌, ◌∷◌}
use smartmontools.Common.{◌++◌, ◌==◌, ◌!=◌, ◌<<◌, ◌>>◌, if◌then◌else◌}
use smartmontools.ByteOrder.{Uile32, uile32_to_uint, uint_to_uile32, uibe32_to_uint}
use smartmontools.Jmb39x.Tables.{xor_table, crc_table}

-- `data[i] ^= xor_table[i]` for every i.
unfoldable pub xor_with : List ℕ → List ℕ → List ℕ
xor_with [] ks = []
xor_with (d ∷ ds) [] = d ∷ ds
xor_with (d ∷ ds) (k ∷ ks) = bit_xor d k ∷ xor_with ds ks

unfoldable pub jmb_xor : List ℕ → List ℕ
unfolding xor_with
jmb_xor d = xor_with d xor_table

-- crc = crc_table[b ^ (crc >> 24)] ^ (crc << 8)
unfoldable pub crc_step : ℕ → ℕ → ℕ
crc_step crc b = bit_xor (get_or crc_table (bit_xor b (crc >> 24)) 0) (u32 (crc << 8))

-- One round of the loop over the dwords, which are read in big endian order.
unfoldable pub crc_dword : ℕ → ℕ → ℕ → ℕ → ℕ → ℕ
unfolding crc_step uibe32_to_uint
crc_dword crc b0 b1 b2 b3 =
    let dw = uibe32_to_uint (record { b0 = b0; b1 = b1; b2 = b2; b3 = b3 }) in
    let crc1 = crc_step crc (bit_and dw 0xff) in
    let crc2 = crc_step crc1 (bit_and (dw >> 8) 0xff) in
    let crc3 = crc_step crc2 (bit_and (dw >> 16) 0xff) in crc_step crc3 (dw >> 24)

unfoldable pub crc_loop : ℕ → ℕ → List ℕ → ℕ
unfolding crc_dword
crc_loop zero crc ds = crc
crc_loop (suc n) crc (b0 ∷ b1 ∷ b2 ∷ b3 ∷ ds) = crc_loop n (crc_dword crc b0 b1 b2 b3) ds
crc_loop (suc n) crc _ = crc

-- The CRC of the first 127 dwords; the last one holds the CRC.
unfoldable pub jmb_crc : List ℕ → ℕ
unfolding crc_loop
jmb_crc d = crc_loop 127 0x52325032 d

-- memcpy(data, src, n) into the start of a buffer; nothing is written past its end.
unfoldable pub overlay : List ℕ → List ℕ → List ℕ
overlay [] ds = ds
overlay (s ∷ ss) [] = []
overlay (s ∷ ss) (d ∷ ds) = s ∷ overlay ss ds

-- memcpy(data + off, src, n)
unfoldable pub write_at : ℕ → List ℕ → List ℕ → List ℕ
unfolding overlay
write_at zero src ds = overlay src ds
write_at (suc off) src [] = []
write_at (suc off) src (d ∷ ds) = d ∷ write_at off src ds

unfoldable pub le32_of : List ℕ → ℕ
unfolding uile32_to_uint
le32_of (a ∷ b ∷ c ∷ d ∷ ds) = uile32_to_uint (record { b0 = a; b1 = b; b2 = c; b3 = d })
le32_of _ = 0

-- sg_get_unaligned_le32(data + off)
unfoldable pub get_unaligned_le32 : List ℕ → ℕ → ℕ
unfolding le32_of
get_unaligned_le32 d off = le32_of (drop off d)

-- The four bytes that sg_put_unaligned_le32 stores.
unfoldable pub le32_bytes : ℕ → List ℕ
unfolding uint_to_uile32
le32_bytes val = let x = uint_to_uile32 val in x.b0 ∷ x.b1 ∷ x.b2 ∷ x.b3 ∷ []

unfoldable pub jmb_get_crc : List ℕ → ℕ
unfolding get_unaligned_le32
jmb_get_crc d = get_unaligned_le32 d 508

unfoldable pub jmb_put_le32 : List ℕ → ℕ → ℕ → List ℕ
unfolding write_at le32_bytes
jmb_put_le32 d index val = write_at index (le32_bytes val) d

unfoldable pub jmb_put_crc : List ℕ → ℕ → List ℕ
unfolding write_at le32_bytes
jmb_put_crc d crc = write_at 508 (le32_bytes crc) d

unfoldable pub jmb_check_crc : List ℕ → Bool
jmb_check_crc d = jmb_get_crc d == jmb_crc d

-- The code and the CRC of the wakeup sectors 0 to 3; any other id fails an assertion.
unfoldable pub wakeup_codes : ℕ → Option (ℕ × ℕ)
wakeup_codes id =
    if id == 0
    then some (0x3c75a80b, 0x706d10d9)
    else if id == 1
    then some (0x0388e337, 0x6958511e)
    else if id == 2
    then some (0x689705f3, 0xfe234b07)
    else if id == 3
    then some (0xe00c523a, 0x5be57adb)
    else none

-- `(uint8_t)i` for i from a start on.
unfoldable pub count_bytes : ℕ → ℕ → List ℕ
count_bytes zero i = []
count_bytes (suc n) i = u8 i ∷ count_bytes n (i + 1)

-- The sector that jmb_set_wakeup_sector makes, from its start to its end.
unfoldable pub jmb_set_wakeup_sector : ℕ → Option (List ℕ)
unfolding wakeup_codes count_bytes le32_bytes
jmb_set_wakeup_sector id = elim (wakeup_codes id) [
  | none ↦ none
  | some (code, crc) ↦ some (
      le32_bytes 0x197b0325
      ++ (le32_bytes code
          ++ (replicate 8 0 ++ (count_bytes 488 16 ++ (le32_bytes 0x10eca1db ++ le32_bytes crc)))))
]

unfoldable pub scrambled_cmd_code : ℕ → ℕ
scrambled_cmd_code version =
    if version == 1 || version == 3
    then 0x197b0393
    else if version == 2
    then 0x197b0562
    else 0x197b0322

-- jmb_set_request_sector; the assertion on the command's size holds in every call.
unfoldable pub jmb_set_request_sector : ℕ → ℕ → List ℕ → List ℕ
unfolding jmb_put_le32 jmb_put_crc scrambled_cmd_code
jmb_set_request_sector version cmd_id cmd =
    let d0 = replicate 512 0 in
    let d1 = jmb_put_le32 d0 0 (scrambled_cmd_code version) in
    let d2 = jmb_put_le32 d1 4 cmd_id in let d3 = write_at 8 cmd d2 in jmb_put_crc d3 (jmb_crc d3)

-- jmb_get_sector_type: 1 for a plain, 2 for an obfuscated sector, 0 for any other.
unfoldable pub jmb_get_sector_type : List ℕ → ℕ
unfolding jmb_check_crc
jmb_get_sector_type d = if jmb_check_crc d then 1 else if jmb_check_crc (jmb_xor d) then 2 else 0

-- nonempty of lib/utility.cpp
unfoldable pub nonempty : List ℕ → Bool
nonempty [] = false
nonempty (d ∷ ds) = if d != 0 then true else nonempty ds
