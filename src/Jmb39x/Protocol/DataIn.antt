-- ===== src/Jmb39x/Protocol/DataIn.antt =====
-- The data that is copied out of a response passes its checksum test.
use smartmontools.Common.{ℕ, zero, suc, refl, ap, false, List, [], arith, length, get_or}
use smartmontools.Common.{set, replicate, take, drop, length-append, IsBytes, u8, ◌+◌, ◌-◌}
use smartmontools.Common.{◌≤◌, ◌<◌, ◌≡◌, ◌&&◌, ◌∷◌, ◌++◌, ◌==◌}
use smartmontools.Ata.Checksum.{ata_checksum}
use smartmontools.Ata.Checksum.Laws.{total, ata_checksum-total}
use smartmontools.Jmb39x.Protocol.{AtaInRegs, is_supported_by_jmb}
use smartmontools.Jmb39x.Protocol.{fix_checksum, copy_data_in}

total-set :
    (xs : List ℕ) (i v : ℕ) → i < length xs → total (set xs i v) + get_or xs i 0 ≡ total xs + v
total-set [] i v h = absurd (omega arith)
total-set (x ∷ xs) zero v h = omega arith
total-set (x ∷ xs) (suc i) v h = omega (arith, total-set xs i v (omega arith))

get_or-byte : (xs : List ℕ) (i : ℕ) → IsBytes xs → get_or xs i 0 < 256
get_or-byte [] i h = omega arith
get_or-byte (x ∷ xs) zero h = h.0
get_or-byte (x ∷ xs) (suc i) h = get_or-byte xs i h.1

fix_checksum-zero :
    (buf : List ℕ) → length buf ≡ 512 → IsBytes buf → ata_checksum (fix_checksum buf) ≡ 0
unfolding fix_checksum
fix_checksum-zero buf full bytes =
    let v = u8 (get_or buf 511 0 + 256 - ata_checksum buf) in
    omega (
      arith,
      ata_checksum-total (set buf 511 v),
      ata_checksum-total buf,
      total-set buf 511 v (omega (arith, full)),
      get_or-byte buf 511 bytes,
    )

drop-IsBytes : (n : ℕ) (xs : List ℕ) → IsBytes xs → IsBytes (drop n xs)
drop-IsBytes zero xs h = h
drop-IsBytes (suc n) [] h = h
drop-IsBytes (suc n) (x ∷ xs) h = drop-IsBytes n xs h.1

take-IsBytes : (n : ℕ) (xs : List ℕ) → IsBytes xs → IsBytes (take n xs)
take-IsBytes zero xs h = tt
take-IsBytes (suc n) [] h = h
take-IsBytes (suc n) (x ∷ xs) h = (h.0, take-IsBytes n xs h.1)

append-IsBytes : (xs ys : List ℕ) → IsBytes xs → IsBytes ys → IsBytes (xs ++ ys)
append-IsBytes [] ys p q = q
append-IsBytes (x ∷ xs) ys p q = (p.0, append-IsBytes xs ys p.1 q)

length-take-drop : (m n : ℕ) (xs : List ℕ) → m + n ≤ length xs → length (take n (drop m xs)) ≡ n
length-take-drop zero zero xs h = refl
length-take-drop zero (suc n) [] h = absurd (omega arith)
length-take-drop zero (suc n) (x ∷ xs) h = ap suc (length-take-drop zero n xs (omega arith))
length-take-drop (suc m) n [] h = omega arith
length-take-drop (suc m) n (x ∷ xs) h = length-take-drop m n xs (omega arith)

zeros-IsBytes : (n : ℕ) → IsBytes (replicate n 0)
zeros-IsBytes zero = tt
zeros-IsBytes (suc n) = (omega arith, zeros-IsBytes n)

-- A command whose data has a checksum does not read the self-test log.
no_selftest_log :
    (r : AtaInRegs)
    → is_supported_by_jmb r ≡ 2
    → (r.command == 0xb0 && r.features == 0xd5 && r.lba_low == 0x06) ≡ false
unfolding is_supported_by_jmb
no_selftest_log r h = grind arith

-- The data of a command whose data has a checksum passes the checksum test, whatever the
-- response, although the controller truncates it.
pub copy_data_in-checksum :
    (r : AtaInRegs) (response : List ℕ)
    → length response ≡ 512
    → IsBytes response
    → is_supported_by_jmb r ≡ 2
    → ata_checksum (copy_data_in r response) ≡ 0
unfolding copy_data_in
copy_data_in-checksum r response full bytes supported =
    let window = take 464 (drop 32 response) in
    let bytes' = take-IsBytes 464 (drop 32 response) (drop-IsBytes 32 response bytes) in
    rw (no_selftest_log r supported) (
      rw supported (
        fix_checksum-zero (window ++ replicate 48 0)
          (omega (
            arith,
            length-append window (replicate 48 0),
            length-take-drop 32 464 response (omega (arith, full)),
          ))
          (append-IsBytes window (replicate 48 0) bytes' (zeros-IsBytes 48))))
