-- ===== src/Jmb39x/Sector/Crc.antt =====
-- The CRC is stored outside of the bytes that it is computed from, so that a sector whose CRC was
-- put passes the check.
use smartmontools.Common.{ℕ, zero, suc, bit_and, bit_xor, refl, ap, Bool, true, List, []}
use smartmontools.Common.{arith, ltb, length, get_or, replicate, drop, u32, bit_xor-lt, ◌-◌}
use smartmontools.Common.{◌^◌, ◌≤◌, ◌<◌, ◌≡◌, ◌∙◌, ◌&&◌, ◌∷◌, ◌<<◌, ◌>>◌}
use smartmontools.ByteOrder.{uibe32_to_uint, uint_to_uile32}
use smartmontools.ByteOrder.RoundTrip.{uint_round_trip}
use smartmontools.Jmb39x.Sector.{overlay, write_at, le32_of, le32_bytes, get_unaligned_le32}
use smartmontools.Jmb39x.Tables.{crc_table}
use smartmontools.Jmb39x.Sector.{
  jmb_get_sector_type, jmb_set_request_sector, jmb_put_le32, scrambled_cmd_code, crc_step,
  crc_dword,
}
use smartmontools.Jmb39x.Sector.{crc_loop, jmb_crc, jmb_get_crc, jmb_put_crc, jmb_check_crc}

drop-write_at :
    (off : ℕ) (src ds : List ℕ) → drop off (write_at off src ds) ≡ overlay src (drop off ds)
unfolding write_at overlay
drop-write_at zero src ds = refl
drop-write_at (suc off) [] [] = refl
drop-write_at (suc off) (s ∷ src) [] = refl
drop-write_at (suc off) src (d ∷ ds) = drop-write_at off src ds

length-drop : (off : ℕ) (ds : List ℕ) → length (drop off ds) ≡ length ds - off
length-drop zero ds = omega arith
length-drop (suc off) [] = omega arith
length-drop (suc off) (d ∷ ds) = omega (arith, length-drop off ds)

length-overlay : (src ds : List ℕ) → length (overlay src ds) ≡ length ds
unfolding overlay
length-overlay [] ds = refl
length-overlay (s ∷ src) [] = refl
length-overlay (s ∷ src) (d ∷ ds) = ap suc (length-overlay src ds)

pub length-write_at : (off : ℕ) (src ds : List ℕ) → length (write_at off src ds) ≡ length ds
unfolding write_at
length-write_at zero src ds = length-overlay src ds
length-write_at (suc off) src [] = refl
length-write_at (suc off) src (d ∷ ds) = ap suc (length-write_at off src ds)

le32_of-overlay :
    (val : ℕ) (ds : List ℕ)
    → val < 2 ^ 32
    → 4 ≤ length ds
    → le32_of (overlay (le32_bytes val) ds) ≡ val
unfolding overlay le32_of le32_bytes uint_to_uile32
le32_of-overlay val [] h l = absurd (omega arith)
le32_of-overlay val (a ∷ []) h l = absurd (omega arith)
le32_of-overlay val (a ∷ b ∷ []) h l = absurd (omega arith)
le32_of-overlay val (a ∷ b ∷ c ∷ []) h l = absurd (omega arith)
le32_of-overlay val (a ∷ b ∷ c ∷ d ∷ ds) h l =
    (uint_round_trip 0 val 0 (omega arith) h (omega arith)).2

-- 4 * n, in a form that computes as the CRC's loop does.
abbrev quad : ℕ → ℕ
quad zero = zero
quad (suc n) = suc (suc (suc (suc (quad n))))

-- What is written after the first n dwords does not change their CRC.
crc_loop-write_at :
    (n crc : ℕ) (src ds : List ℕ) → crc_loop n crc (write_at (quad n) src ds) ≡ crc_loop n crc ds
unfolding crc_loop write_at
crc_loop-write_at zero crc src ds = refl
crc_loop-write_at (suc n) crc src [] = refl
crc_loop-write_at (suc n) crc src (a ∷ []) = refl
crc_loop-write_at (suc n) crc src (a ∷ b ∷ []) = refl
crc_loop-write_at (suc n) crc src (a ∷ b ∷ c ∷ []) = refl
crc_loop-write_at (suc n) crc src (a ∷ b ∷ c ∷ d ∷ ds) = crc_loop-write_at n _ src ds

put_crc-crc : (d : List ℕ) (crc : ℕ) → jmb_crc (jmb_put_crc d crc) ≡ jmb_crc d
unfolding jmb_crc jmb_put_crc
put_crc-crc d crc = crc_loop-write_at 127 0x52325032 (le32_bytes crc) d

get_crc-put_crc :
    (d : List ℕ) (crc : ℕ) → length d ≡ 512 → crc < 2 ^ 32 → jmb_get_crc (jmb_put_crc d crc) ≡ crc
unfolding jmb_get_crc jmb_put_crc get_unaligned_le32
get_crc-put_crc d crc full small =
    rw (drop-write_at 508 (le32_bytes crc) d)
      (le32_of-overlay crc (drop 508 d) small (omega (arith, full, length-drop 508 d)))

-- In a full sector the stored CRC is read back, and putting it does not change the computed one.
pub jmb_put_crc_lem :
    (d : List ℕ) (crc : ℕ)
    → length d ≡ 512
    → crc < 2 ^ 32
    → (jmb_get_crc (jmb_put_crc d crc) ≡ crc) × (jmb_crc (jmb_put_crc d crc) ≡ jmb_crc d)
jmb_put_crc_lem d crc full small = (get_crc-put_crc d crc full small, put_crc-crc d crc)

all_below : ℕ → List ℕ → Bool
all_below n [] = true
all_below n (x ∷ xs) = ltb x n && all_below n xs

get_or-lt : (n : ℕ) (xs : List ℕ) (i : ℕ) → 0 < n → all_below n xs ≡ true → get_or xs i 0 < n
unfolding all_below
get_or-lt n [] i pos h = pos
get_or-lt n (x ∷ xs) zero pos h = ground arith
get_or-lt n (x ∷ xs) (suc i) pos h = get_or-lt n xs i pos (grind arith)

crc_table-bounded : all_below (2 ^ 32) crc_table ≡ true
unfolding all_below
crc_table-bounded = refl

crc_table-lt : (i : ℕ) → get_or crc_table i 0 < 2 ^ 32
crc_table-lt i = get_or-lt (2 ^ 32) crc_table i (omega arith) crc_table-bounded

crc_step-lt : (crc b : ℕ) → crc_step crc b < 2 ^ 32
unfolding crc_step
crc_step-lt crc b =
    bit_xor-lt 32 _ (u32 (crc << 8)) (crc_table-lt (bit_xor b (crc >> 24))) (omega arith)

crc_dword-lt : (crc b0 b1 b2 b3 : ℕ) → crc_dword crc b0 b1 b2 b3 < 2 ^ 32
unfolding crc_dword
crc_dword-lt crc b0 b1 b2 b3 =
    let dw = uibe32_to_uint (record { b0 = b0; b1 = b1; b2 = b2; b3 = b3 }) in
    let crc1 = crc_step crc (bit_and dw 0xff) in
    let crc2 = crc_step crc1 (bit_and (dw >> 8) 0xff) in
    crc_step-lt (crc_step crc2 (bit_and (dw >> 16) 0xff)) (dw >> 24)

crc_loop-lt : (n crc : ℕ) (ds : List ℕ) → crc < 2 ^ 32 → crc_loop n crc ds < 2 ^ 32
unfolding crc_loop
crc_loop-lt zero crc ds h = h
crc_loop-lt (suc n) crc [] h = h
crc_loop-lt (suc n) crc (a ∷ []) h = h
crc_loop-lt (suc n) crc (a ∷ b ∷ []) h = h
crc_loop-lt (suc n) crc (a ∷ b ∷ c ∷ []) h = h
crc_loop-lt (suc n) crc (a ∷ b ∷ c ∷ d ∷ ds) h =
    crc_loop-lt n (crc_dword crc a b c d) ds (crc_dword-lt crc a b c d)

jmb_crc-lt : (d : List ℕ) → jmb_crc d < 2 ^ 32
unfolding jmb_crc
jmb_crc-lt d = crc_loop-lt 127 0x52325032 d (omega arith)

put_own_crc : (d : List ℕ) → length d ≡ 512 → jmb_check_crc (jmb_put_crc d (jmb_crc d)) ≡ true
unfolding jmb_check_crc
put_own_crc d full =
    let laws = jmb_put_crc_lem d (jmb_crc d) full (jmb_crc-lt d) in
    rw laws.0 (rw laws.1 (ground arith))

unsigned_sector : ℕ → ℕ → List ℕ → List ℕ
unsigned_sector version cmd_id cmd =
    let d0 = replicate 512 0 in
    let d1 = write_at 0 (le32_bytes (scrambled_cmd_code version)) d0 in
    let d2 = write_at 4 (le32_bytes cmd_id) d1 in write_at 8 cmd d2

length-unsigned_sector :
    (version cmd_id : ℕ) (cmd : List ℕ) → length (unsigned_sector version cmd_id cmd) ≡ 512
unfolding unsigned_sector
length-unsigned_sector version cmd_id cmd =
    length-write_at 8 _ _ ∙ length-write_at 4 _ _ ∙ length-write_at 0 _ (replicate 512 0)

length-jmb_put_crc : (d : List ℕ) (crc : ℕ) → length (jmb_put_crc d crc) ≡ length d
unfolding jmb_put_crc
length-jmb_put_crc d crc = length-write_at 508 (le32_bytes crc) d

plain_sector : (d : List ℕ) → jmb_check_crc d ≡ true → jmb_get_sector_type d ≡ 1
unfolding jmb_get_sector_type
plain_sector d h = rw h refl

-- Every request sector, for any protocol version, command id and command, is a full sector that
-- passes the CRC check, so that it is classified as a plain sector.
pub jmb_set_request_sector-checks :
    (version cmd_id : ℕ) (cmd : List ℕ)
    → let d = jmb_set_request_sector version cmd_id cmd in
      (length d ≡ 512) × (jmb_check_crc d ≡ true) × (jmb_get_sector_type d ≡ 1)
unfolding jmb_set_request_sector jmb_put_le32 unsigned_sector
jmb_set_request_sector-checks version cmd_id cmd =
    let full = length-unsigned_sector version cmd_id cmd in
    let d = unsigned_sector version cmd_id cmd in
    let check = put_own_crc d full in
    (length-jmb_put_crc d (jmb_crc d) ∙ full, check, plain_sector _ check)
