-- ===== src/Jmb39x/Sector/Tests.antt =====
-- The self-test jmb_check_funcs, and the start of a wakeup sector.
use smartmontools.Common.{ℕ, refl, true, Option, none, some, List, [], length, ◌≡◌, ◌∷◌}
use smartmontools.Jmb39x.Sector.{jmb_xor, jmb_crc, jmb_get_crc, jmb_check_crc}
use smartmontools.Jmb39x.Sector.Crc.{jmb_set_request_sector-checks}
use smartmontools.Jmb39x.Sector.{jmb_set_wakeup_sector, jmb_set_request_sector, jmb_get_sector_type}

abbrev sector_of : Option (List ℕ) → List ℕ
sector_of none = []
sector_of (some d) = d

abbrev cmd : List ℕ
cmd = 1 ∷ 2 ∷ 3 ∷ 4 ∷ 5 ∷ 6 ∷ 7 ∷ []

wakeup_crcs :
    (jmb_check_crc (sector_of (jmb_set_wakeup_sector 0)) ≡ true)
    × (jmb_check_crc (sector_of (jmb_set_wakeup_sector 1)) ≡ true)
    × (jmb_check_crc (sector_of (jmb_set_wakeup_sector 2)) ≡ true)
    × (jmb_check_crc (sector_of (jmb_set_wakeup_sector 3)) ≡ true)
unfolding jmb_check_crc jmb_get_crc jmb_crc jmb_set_wakeup_sector
wakeup_crcs = (refl, refl, refl, refl)

obfuscated_crc : jmb_crc (jmb_xor (sector_of (jmb_set_wakeup_sector 2))) ≡ 0x053ed64b
unfolding jmb_xor jmb_crc jmb_set_wakeup_sector
obfuscated_crc = refl

request_crcs :
    (jmb_get_crc (jmb_set_request_sector 0 42 cmd) ≡ 0xb1f765d7)
    × (jmb_get_crc (jmb_set_request_sector 1 42 cmd) ≡ 0x388b2759)
    × (jmb_get_crc (jmb_set_request_sector 2 42 cmd) ≡ 0xde10952b)
unfolding jmb_get_crc jmb_set_request_sector jmb_crc
request_crcs = (refl, refl, refl)

jmb_set_request_sector-checks_example :
    let d = jmb_set_request_sector 1 42 cmd in
    (length d ≡ 512) × (jmb_check_crc d ≡ true) × (jmb_get_sector_type d ≡ 1)
jmb_set_request_sector-checks_example = jmb_set_request_sector-checks 1 42 cmd
