-- ===== src/Ata/Checksum/Laws.antt =====
-- What the checksum depends on, and that hiding the serial number keeps it.
use smartmontools.Common.{ℕ, suc, refl, ap, List, [], arith, length, u8, ◌+◌, ◌-◌, ◌%◌, ◌<◌}
use smartmontools.Common.{◌≡◌, ◌∷◌, ◌++◌}
use smartmontools.Ata.Checksum.{sum_bytes, ata_checksum, IdentifySector}
use smartmontools.Ata.Checksum.{identify_bytes, replace_bytes, filled, invalidate_serno}

-- The sum of the bytes, with no bound on the width.
abbrev pub total : List ℕ → ℕ
total [] = 0
total (b ∷ rest) = b + total rest

pub total-append : (xs ys : List ℕ) → total (xs ++ ys) ≡ total xs + total ys
total-append [] ys = omega arith
total-append (x ∷ xs) ys = omega (arith, total-append xs ys)

pub sum_bytes-total :
    (sum : ℕ) (xs : List ℕ) → sum < 256 → sum_bytes sum xs ≡ (sum + total xs) % 256
unfolding sum_bytes
sum_bytes-total sum [] h = omega arith
sum_bytes-total sum (x ∷ xs) h = omega (arith, sum_bytes-total (u8 (sum + x)) xs (omega arith))

pub ata_checksum-total : (xs : List ℕ) → ata_checksum xs ≡ total xs % 256
unfolding ata_checksum
ata_checksum-total xs = omega (arith, sum_bytes-total 0 xs (omega arith))

-- What the loop adds up is the old total less the new one, modulo 256.
replace_bytes-total :
    (fill sum : ℕ) (xs : List ℕ)
    → fill < 256
    → sum < 256
    → (replace_bytes fill sum xs < 256)
      × ((replace_bytes fill sum xs + total (filled fill xs)) % 256 ≡ (sum + total xs) % 256)
unfolding replace_bytes filled
replace_bytes-total fill sum [] hf hs = (hs, omega arith)
replace_bytes-total fill sum (x ∷ xs) hf hs =
    let ih = replace_bytes-total fill (u8 (u8 (sum + x) + 256 - fill)) xs hf (omega arith) in
    (ih.0, omega (arith, ih.1))

length-filled : (fill : ℕ) (xs : List ℕ) → length (filled fill xs) ≡ length xs
unfolding filled
length-filled fill [] = refl
length-filled fill (x ∷ xs) = ap suc (length-filled fill xs)

identify_total :
    (id : IdentifySector)
    → total (identify_bytes id)
      ≡ total id.words_000_009
        + total id.serial_no
        + total id.words_020_107
        + total id.wwn
        + total id.words_112_254
        + id.signature
        + id.checksum
unfolding identify_bytes
identify_total id = simp total-append (omega arith)

-- Hiding the serial number and the WWN in IDENTIFY data that has a checksum changes neither the
-- checksum of the sector, good or bad, nor the lengths of the two fields.
pub invalidate_serno-checksum :
    (id : IdentifySector)
    → id.signature ≡ 0xa5
    → (ata_checksum (identify_bytes (invalidate_serno id)) ≡ ata_checksum (identify_bytes id))
      × (length (invalidate_serno id).serial_no ≡ length id.serial_no)
      × (length (invalidate_serno id).wwn ≡ length id.wwn)
unfolding invalidate_serno
invalidate_serno-checksum id signed =
    let serial = replace_bytes-total b'X' 0 id.serial_no (omega arith) (omega arith) in
    let both =
      replace_bytes-total 0xff (replace_bytes b'X' 0 id.serial_no) id.wwn (omega arith) serial.0 in
    (
      simp (ata_checksum-total, identify_total) (ground (arith, serial.1, both.1)),
      length-filled b'X' id.serial_no,
      length-filled 0xff id.wwn,
    )
