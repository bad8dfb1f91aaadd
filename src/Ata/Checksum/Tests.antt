-- ===== src/Ata/Checksum/Tests.antt =====
-- Runs of the checksum and uses of the theorem.
use smartmontools.Common.{refl, [], length, ◌≡◌, ◌∷◌}
use smartmontools.Ata.Checksum.{ata_checksum, IdentifySector, identify_bytes, invalidate_serno}
use smartmontools.Ata.Checksum.Laws.{invalidate_serno-checksum}

wraps : ata_checksum (200 ∷ 100 ∷ 0 ∷ []) ≡ 44
unfolding ata_checksum
wraps = refl

abbrev small : IdentifySector
small = record {
  words_000_009 = 64 ∷ [];
  serial_no = b'A' ∷ b'7' ∷ [];
  words_020_107 = 0 ∷ [];
  wwn = 0x50 ∷ 0x01 ∷ [];
  words_112_254 = [];
  signature = 0xa5;
  checksum = 3;
}

invalidate_serno-checksum_example :
    (ata_checksum (identify_bytes (invalidate_serno small)) ≡ ata_checksum (identify_bytes small))
    × (length (invalidate_serno small).serial_no ≡ 2)
    × (length (invalidate_serno small).wwn ≡ 2)
invalidate_serno-checksum_example = invalidate_serno-checksum small refl
