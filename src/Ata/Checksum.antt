-- ===== src/Ata/Checksum.antt =====
-- The checksum of a 512-byte sector in lib/atacmds.cpp, and the change of IDENTIFY data that hides
-- the serial number.
pub mod Laws
mod Tests
use smartmontools.Common.{ℕ, suc, List, [], u8, ◌+◌, ◌-◌, ◌∷◌, ◌++◌, ◌==◌, if◌then◌else◌}

-- The loop of ata_checksum over uint8_t; a sector is the list of its 512 bytes.
unfoldable pub sum_bytes : ℕ → List ℕ → ℕ
sum_bytes sum [] = sum
sum_bytes sum (b ∷ rest) = sum_bytes (u8 (sum + b)) rest

-- ata_checksum
unfoldable pub ata_checksum : List ℕ → ℕ
unfolding sum_bytes
ata_checksum sector = sum_bytes 0 sector

-- The sectors of check_multi_sector_sum with a wrong checksum.
unfoldable pub count_bad_sectors : List (List ℕ) → ℕ
count_bad_sectors [] = 0
count_bad_sectors (s ∷ rest) =
    if ata_checksum s == 0 then count_bad_sectors rest else suc (count_bad_sectors rest)

-- The parts of struct ata_identify_device that invalidate_serno looks at, in their order, with the
-- bytes between them.
pub record IdentifySector : Type 0 where
  pub words_000_009 : List ℕ
  pub serial_no : List ℕ
  pub words_020_107 : List ℕ
  pub wwn : List ℕ
  pub words_112_254 : List ℕ
  pub signature : ℕ
  pub checksum : ℕ

unfoldable pub identify_bytes : IdentifySector → List ℕ
identify_bytes id =
    id.words_000_009
    ++ (id.serial_no
        ++ (id.words_020_107
            ++ (id.wwn ++ (id.words_112_254 ++ (id.signature ∷ id.checksum ∷ [])))))

-- `sum += b[i]; sum -= (b[i] = fill);` for each byte of an array.
unfoldable pub replace_bytes : ℕ → ℕ → List ℕ → ℕ
replace_bytes fill sum [] = sum
replace_bytes fill sum (b ∷ rest) = replace_bytes fill (u8 (u8 (sum + b) + 256 - fill)) rest

-- The array after that loop.
unfoldable pub filled : ℕ → List ℕ → List ℕ
filled fill [] = []
filled fill (b ∷ rest) = fill ∷ filled fill rest

-- invalidate_serno: 'X' in the serial number and 0xff in the WWN.
unfoldable pub invalidate_serno : IdentifySector → IdentifySector
unfolding replace_bytes filled
invalidate_serno id =
    let sum = replace_bytes 0xff (replace_bytes b'X' 0 id.serial_no) id.wwn in
    record id {
      serial_no = filled b'X' id.serial_no;
      wwn = filled 0xff id.wwn;
      checksum = if id.signature == 0xa5 then u8 (id.checksum + sum) else id.checksum;
    }
