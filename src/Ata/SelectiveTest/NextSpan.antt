-- ===== src/Ata/SelectiveTest/NextSpan.antt =====
-- `-t select,next` without a size: the span after the last one, on a disk below 2 ^ 63 sectors.
use smartmontools.Common.{ℕ, inl, inr, arith, leb, Bool-cases, u64, ◌+◌, ◌-◌, ◌*◌, ◌/◌, ◌^◌}
use smartmontools.Common.{◌≤◌, ◌<◌, ◌≡◌, ◌∙◌, ◌⊎◌, if◌then◌else◌}
use native.Mathlib.Nat.{div-add-mod, mod-lt}
use smartmontools.Ata.SelectiveTest.{range, division_by_zero, check_range, next_range, mode_range}
use smartmontools.Ata.SelectiveTest.{sel_next, shrunk_range}

-- The number of spans covers the disk, so a span of the new size is no longer than an old one.
rounded_up : (n size : ℕ) → 0 < size → n ≤ size * ((n + size - 1) / size)
rounded_up n size h = grind arith

ceil_pos : (n q : ℕ) → 0 < n → 0 < q → 0 < (n + q - 1) / q
ceil_pos n q hn hq = grind (arith, div-add-mod (n + q - 1) q, mod-lt)

ceil-le : (n q size : ℕ) → 0 < q → n ≤ size * q → (n + q - 1) / q ≤ size
ceil-le n q size hq h = grind arith

ceil-le_self : (n size : ℕ) → 0 < size → (n + size - 1) / size ≤ n
ceil-le_self n size h = grind arith

-- With n sectors and a size of at most 2 ^ 64, the shrunk span ends the disk, is not empty and is
-- no longer than the old one.
shrunk_range-fits :
    (n size : ℕ)
    → 0 < n
    → n < 2 ^ 63
    → 0 < size
    → size < 2 ^ 63
    → (a : ℕ) × (shrunk_range n size ≡ range a (n - 1)) × (a < n) × (n - a ≤ size)
unfolding shrunk_range
shrunk_range-fits n size hn small hs small_size =
    let spans = (n + size - 1) / size in
    let covers = rounded_up n size hs in
    let spans_pos = ceil_pos n size hn hs in
    let spans_le = ceil-le_self n size hs in
    let new_size = (n + spans - 1) / spans in
    let new_pos = ceil_pos n spans hn spans_pos in
    let new_le = ceil-le n spans size spans_pos covers in
    let new_le_n = ceil-le_self n spans spans_pos in
    let no_wrap : u64 (n + size + 2 ^ 64 - 1) ≡ n + size - 1 = omega arith in
    let no_wrap' : u64 (n + spans + 2 ^ 64 - 1) ≡ n + spans - 1 = omega arith in
    let at : u64 (n + 2 ^ 64 - new_size) ≡ n - new_size = omega arith in
    (n - new_size, ground arith, omega arith, omega arith)

-- The span after [s, e] where it fits on the disk, and the shrunk one where it does not.
next_range-cases :
    (n s e : ℕ)
    → 0 < e
    → s ≤ e
    → e < n
    → n < 2 ^ 63
    → let start = if leb n (e + 1) then 0 else e + 1 in
      next_range n 0 s e ≡ (
        if leb n (start + (e - s))
        then shrunk_range n (e - s + 1)
        else range start (start + (e - s)))
unfolding next_range
next_range-cases n s e pos ordered on_disk small =
    let size : u64 (e + 2 ^ 64 - s + 1) ≡ e - s + 1 = omega arith in
    rw (size, next_range) (ground arith)

-- For `next` without a size, on a disk below 2 ^ 63 sectors, after a last span of the drive that lies
-- on the disk and does not end at sector 0: the next span is accepted, it lies on the disk and is no
-- longer than the last one. It starts after the last one, or at 0 if that ended the disk, or it was
-- shrunk and ends the disk.
pub next_span-accepted :
    (n s e : ℕ)
    → 0 < e
    → s ≤ e
    → e < n
    → n < 2 ^ 63
    → (a : ℕ) × (b : ℕ) × (check_range n (mode_range n sel_next 0 0 s e) ≡ range a b)
      × (a ≤ b)
      × (b < n)
      × (b - a ≤ e - s)
      × ((a ≡ e + 1) ⊎ ((a ≡ 0) × (e + 1 ≡ n)) ⊎ (b + 1 ≡ n))
unfolding mode_range check_range
next_span-accepted n s e pos ordered on_disk small =
    let start = if leb n (e + 1) then 0 else e + 1 in
    elim (Bool-cases (leb n (start + (e - s)))) [
      | inl past ↦
          let (a, r, lt, len) =
            shrunk_range-fits n (e - s + 1) (omega arith) small (omega arith) (omega arith) in
          let next : next_range n 0 s e ≡ range a (n - 1) =
            next_range-cases n s e pos ordered on_disk small ∙ rw past r in
          (a, n - 1, rw next (ground arith), omega arith, omega arith, omega arith, ground arith)
      | inr fits ↦
          let next : next_range n 0 s e ≡ range start (start + (e - s)) =
            next_range-cases n s e pos ordered on_disk small ∙ rw fits in
          (
            start,
            start + (e - s),
            rw next (ground arith),
            ground arith,
            ground arith,
            ground arith,
            ground arith,
          )
    ]

-- A drive that returns a span which starts right after its own end, at or past the end of the disk,
-- makes the code divide by a size of 0.
pub inverted_span_divides_by_zero :
    (n e : ℕ)
    → 0 < e
    → n ≤ e + 1
    → e + 1 < 2 ^ 64
    → check_range n (mode_range n sel_next 0 0 (e + 1) e) ≡ division_by_zero
unfolding mode_range check_range shrunk_range
inverted_span_divides_by_zero n e pos past small = ground arith
