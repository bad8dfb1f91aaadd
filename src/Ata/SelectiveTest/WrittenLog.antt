-- ===== src/Ata/SelectiveTest/WrittenLog.antt =====
-- The log that is written to the drive.
use smartmontools.Common.{ℕ, zero, suc, bit_and, bit_or, refl, ap, Bool, true, false, some}
use smartmontools.Common.{List, [], arith, length, get_elem?, flag_set, bit-bit_and}
use smartmontools.Common.{bit-bit_or, bit-lt, flag_set-bit, ◌^◌, ◌<◌, ◌≡◌, ◌∷◌, ◌++◌, ◌==◌}
use smartmontools.Common.{if◌then◌else◌}
use smartmontools.ByteOrder.{uile64_to_uint, uint_to_uile64}
use smartmontools.ByteOrder.RoundTrip.{uile64-uint}
use smartmontools.Ata.Checksum.{ata_checksum}
use smartmontools.Ata.Checksum.Laws.{total-append, ata_checksum-total, sum_bytes-total}
use smartmontools.Ata.SelectiveTest.{SpanArgs, TestSpan, SelftestArgs, SelectiveLog, log_bytes}
use smartmontools.Ata.SelectiveTest.{with_checksum, updated_log, written_flags, written_spans}
use smartmontools.Ata.SelectiveTest.{selective_flag_doscan, prepared, prepare_selective_self_test}
use smartmontools.Ata.SelectiveTest.Ranges.{prepare-prepared}

-- The sector of a log: its bytes and then its checksum.
abbrev pub sector : SelectiveLog → List ℕ
sector log = log_bytes log ++ log.checksum ∷ []

with_checksum-valid : (log : SelectiveLog) → ata_checksum (sector (with_checksum log)) ≡ 0
unfolding with_checksum log_bytes
with_checksum-valid log =
    rw (ata_checksum-total, total-append)
      (omega (
        arith,
        sum_bytes-total 0 (log_bytes log ++ 0 ∷ []) (omega arith),
        total-append (log_bytes log) (0 ∷ []),
      ))

-- The flags that are written: ACTIVE and PENDING are clear, and DOSCAN is as asked for.
written_flags-bits :
    (scan flags : ℕ)
    → (flag_set (written_flags scan flags) 0x10 ≡ false)
      × (flag_set (written_flags scan flags) 0x08 ≡ false)
      × (flag_set (written_flags scan flags) selective_flag_doscan ≡ (
          if scan == 1
          then false
          else if scan == 2
          then true
          else flag_set flags selective_flag_doscan))
unfolding written_flags
written_flags-bits scan flags = (
  rw (flag_set-bit 4, bit-bit_and 4, bit-bit_and 4) (ground arith),
  rw (flag_set-bit 3, bit-bit_and 3) (ground arith),
  rw (flag_set-bit 1 (written_flags scan flags), flag_set-bit 1 flags)
      (ground (
        arith,
        bit-bit_and 1 (bit_and scanned 0xffef) 0xfff7,
        bit-bit_and 1 scanned 0xffef,
        bit-bit_and 1 flags 0xfffd,
        bit-bit_or 1 flags 2,
        bit-lt 1 flags,
      )),
)
  where
    scanned : ℕ
    scanned =
        if scan == 1 then bit_and flags 0xfffd else if scan == 2 then bit_or flags 2 else flags

-- The span that the log holds for an argument.
written_spans-get :
    (n i : ℕ) (a : SpanArgs) (args : List SpanArgs)
    → i < n
    → get_elem? args i ≡ some a
    → get_elem? (written_spans n args) i
      ≡ some (record { start = uint_to_uile64 a.start; end = uint_to_uile64 a.end })
unfolding written_spans
written_spans-get zero i a args h at_i = absurd (omega arith)
written_spans-get (suc n) i a [] h at_i = cc
written_spans-get (suc n) zero a (b ∷ args) h at_i = ground arith
written_spans-get (suc n) (suc i) a (b ∷ args) h at_i =
    written_spans-get n i a args (omega arith) at_i

length-written_spans : (n : ℕ) (args : List SpanArgs) → length (written_spans n args) ≡ n
unfolding written_spans
length-written_spans zero args = refl
length-written_spans (suc n) [] = ap suc (length-written_spans n [])
length-written_spans (suc n) (a ∷ args) = ap suc (length-written_spans n args)

updated_log-checksum :
    (args : SelftestArgs) (log : SelectiveLog) → ata_checksum (sector (updated_log args log)) ≡ 0
unfolding updated_log
updated_log-checksum args log = with_checksum-valid _

updated_log-parts :
    (args : SelftestArgs) (log : SelectiveLog)
    → ((updated_log args log).span ≡ written_spans 5 args.span)
      × ((updated_log args log).currentspan ≡ 0)
      × ((updated_log args log).flags ≡ written_flags args.scan_after_select log.flags)
unfolding updated_log with_checksum
updated_log-parts args log = (refl, refl, refl)

-- The log of a successful call has a checksum of 0, five spans, no current span, ACTIVE and PENDING
-- clear, and DOSCAN off for 1, on for 2 and unchanged otherwise.
pub prepared-log :
    (args args' : SelftestArgs) (log log' : SelectiveLog) (write_ok : Bool)
    (exec_status num_sectors : ℕ) (prev : List SpanArgs)
    → prepare_selective_self_test (some log) write_ok args exec_status num_sectors prev
      ≡ prepared args' log'
    → (ata_checksum (sector log') ≡ 0)
      × (length log'.span ≡ 5)
      × (log'.currentspan ≡ 0)
      × (flag_set log'.flags 0x10 ≡ false)
      × (flag_set log'.flags 0x08 ≡ false)
      × (flag_set log'.flags selective_flag_doscan ≡ (
          if args'.scan_after_select == 1
          then false
          else if args'.scan_after_select == 2
          then true
          else flag_set log.flags selective_flag_doscan))
prepared-log args args' log log' write_ok exec_status num_sectors prev h =
    let p = prepare-prepared args args' log log' write_ok exec_status num_sectors prev h in
    let bits = written_flags-bits args'.scan_after_select log.flags in
    let parts = updated_log-parts args' log in
    rw p.1 (
      (
        updated_log-checksum args' log,
        rw parts.0 (length-written_spans 5 args'.span),
        parts.1,
        rw parts.2 bits.0,
        rw parts.2 bits.1,
        rw parts.2 bits.2,
      ))

-- The log of a successful call holds the start and the end of each span that is returned.
pub prepared-spans :
    (args args' : SelftestArgs) (log log' : SelectiveLog) (write_ok : Bool)
    (exec_status num_sectors i : ℕ) (a : SpanArgs) (prev : List SpanArgs)
    → prepare_selective_self_test (some log) write_ok args exec_status num_sectors prev
      ≡ prepared args' log'
    → i < 5
    → get_elem? args'.span i ≡ some a
    → a.start < 2 ^ 64
    → a.end < 2 ^ 64
    → (s : TestSpan) × (get_elem? log'.span i ≡ some s)
      × (uile64_to_uint s.start ≡ a.start)
      × (uile64_to_uint s.end ≡ a.end)
prepared-spans args args' log log' write_ok exec_status num_sectors i a prev h fits at_i hs he =
    let p = prepare-prepared args args' log log' write_ok exec_status num_sectors prev h in
    (
      record { start = uint_to_uile64 a.start; end = uint_to_uile64 a.end },
      rw (p.1, (updated_log-parts args' log).0) (written_spans-get 5 i a args'.span fits at_i),
      uile64-uint a.start hs,
      uile64-uint a.end he,
    )
