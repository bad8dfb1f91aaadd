-- ===== src/Ata/SelectiveTest.antt =====
-- ata_prepare_selective_self_test of lib/atacmds.cpp: the spans of the next selective self-test and
-- the log that starts it. LBAs are uint64_t, so their arithmetic is modulo 2 ^ 64.
pub mod Ranges
pub mod NextSpan
pub mod WrittenLog
mod Tests
use smartmontools.Common.{ℕ, zero, suc, bit_and, bit_or, Bool, true, false, Option, none}
use smartmontools.Common.{some, List, [], ltb, leb, get_elem?, u8, u16, u64, ◌+◌, ◌-◌, ◌/◌}
use smartmontools.Common.{◌^◌, ◌&&◌, ◌||◌, ◌∷◌, ◌++◌, ◌==◌, ◌>>◌, if◌then◌else◌}
use smartmontools.ByteOrder.{Uile64, uile64_to_uint, uint_to_uile64, zero_uile64, uint_to_uile16}
use smartmontools.Ata.Checksum.{sum_bytes}

-- The values of span_args.mode; `sel_other` is any other int.
pub data SpanMode : Type 0 where
  sel_range sel_redo sel_next sel_cont sel_other : SpanMode

-- ata_selective_selftest_args::span_args
pub record SpanArgs : Type 0 where
  pub start : ℕ
  pub end : ℕ
  pub mode : SpanMode

-- struct ata_selective_selftest_args; the list holds the first num_spans entries.
pub record SelftestArgs : Type 0 where
  pub span : List SpanArgs
  pub pending_time : ℕ
  pub scan_after_select : ℕ

-- struct test_span
pub record TestSpan : Type 0 where
  pub start : Uile64
  pub end : Uile64

-- struct ata_selective_self_test_log
pub record SelectiveLog : Type 0 where
  pub logversion : ℕ
  pub span : List TestSpan
  pub reserved1 : List ℕ
  pub vendor_specific1 : List ℕ
  pub currentlba : Uile64
  pub currentspan : ℕ
  pub flags : ℕ
  pub vendor_specific2 : List ℕ
  pub pendingtime : ℕ
  pub reserved2 : ℕ
  pub checksum : ℕ

-- `mode == SEL_CONT` redoes an aborted or interrupted test and otherwise starts the next span.
unfoldable pub actual_mode : ℕ → SpanMode → SpanMode
actual_mode exec_status sel_cont =
    let status = exec_status >> 4 in if status == 1 || status == 2 then sel_redo else sel_next
actual_mode exec_status mode = mode

-- What the code makes of one span: a range, a division by zero, or a return of -1.
pub data RangeResult : Type 0 where
  range : ℕ → ℕ → RangeResult
  rejected division_by_zero : RangeResult

-- `case SEL_REDO:`
unfoldable pub redo_range : ℕ → ℕ → ℕ → RangeResult
redo_range end old_start old_end =
    if ltb 0 end then range old_start (u64 (end - 1 + old_start)) else range old_start old_end

-- The spans after the last one of the disk are made smaller, so that all have about one size.
unfoldable pub shrunk_range : ℕ → ℕ → RangeResult
shrunk_range num_sectors old_size =
    if old_size == 0
    then division_by_zero
    else (let spans = u64 (num_sectors + old_size + 2 ^ 64 - 1) / old_size in
        if spans == 0
        then division_by_zero
        else (let new_size = u64 (num_sectors + spans + 2 ^ 64 - 1) / spans in
            range (u64 (num_sectors + 2 ^ 64 - new_size)) (num_sectors - 1)))

-- `start = end + 1`, or 0 after the last LBA.
unfoldable pub start_after : ℕ → ℕ → ℕ
start_after num_sectors old_end =
    let next = u64 (old_end + 1) in if leb num_sectors next then 0 else next

-- `case SEL_NEXT:`
unfoldable pub next_range : ℕ → ℕ → ℕ → ℕ → RangeResult
unfolding shrunk_range start_after
next_range num_sectors end old_start old_end =
    if old_end == 0
    then range 0 0
    else (let start = start_after num_sectors old_end in
        if ltb 0 end
        then range start (u64 (end - 1 + start))
        else (let old_size = u64 (old_end + 2 ^ 64 - old_start + 1) in
            let new_end = u64 (start + old_size + 2 ^ 64 - 1) in
            if leb num_sectors new_end
            then shrunk_range num_sectors old_size
            else range start new_end))

-- The switch on the mode.
unfoldable pub mode_range : ℕ → SpanMode → ℕ → ℕ → ℕ → ℕ → RangeResult
unfolding redo_range next_range
mode_range num_sectors sel_range start end old_start old_end = range start end
mode_range num_sectors sel_redo start end old_start old_end = redo_range end old_start old_end
mode_range num_sectors sel_next start end old_start old_end =
    next_range num_sectors end old_start old_end
mode_range num_sectors sel_cont start end old_start old_end = rejected
mode_range num_sectors sel_other start end old_start old_end = rejected

-- The range check: an end past the disk is cut off, anything else out of range is an error.
unfoldable pub check_range : ℕ → RangeResult → RangeResult
check_range num_sectors (range start end) =
    let end' = if ltb start num_sectors && leb num_sectors end then num_sectors - 1 else end in
    if leb start end' && ltb end' num_sectors then range start end' else rejected
check_range num_sectors rejected = rejected
check_range num_sectors division_by_zero = division_by_zero

unfoldable pub continues : SpanMode → Bool
continues sel_redo = true
continues sel_next = true
continues _ = false

-- A span that the drive has cleared is taken from the caller's previous arguments.
unfoldable pub old_span : SpanMode → Option SpanArgs → TestSpan → TestSpan
unfolding uile64_to_uint continues
old_span mode none old = old
old_span mode (some prev) old =
    if continues mode && uile64_to_uint old.start == 0 && uile64_to_uint old.end == 0
    then record { start = uint_to_uile64 prev.start; end = uint_to_uile64 prev.end }
    else old

-- One round of the loop over the spans.
unfoldable pub span_range : ℕ → ℕ → SpanArgs → Option SpanArgs → TestSpan → RangeResult
unfolding actual_mode
span_range num_sectors exec_status arg prev old =
    let mode = actual_mode exec_status arg.mode in
    let old' = old_span mode prev old in
    check_range num_sectors (
      mode_range num_sectors mode arg.start arg.end (uile64_to_uint old'.start)
        (uile64_to_uint old'.end))

-- How the loop ends: with the ranges of all spans, or with those of the spans before the bad one.
pub data LoopResult : Type 0 where
  all_set : List SpanArgs → LoopResult
  stopped : List SpanArgs → LoopResult
  crashed : LoopResult

abbrev pub with_span : SpanArgs → LoopResult → LoopResult
with_span s (all_set rest) = all_set (s ∷ rest)
with_span s (stopped rest) = stopped (s ∷ rest)
with_span s crashed = crashed

abbrev pub tail_of {ℓ} : {A : Type ℓ} → List A → List A
tail_of [] = []
tail_of (x ∷ xs) = xs

-- The loop `for (i = 0; i < args.num_spans; i++)`. `prev` is empty for a null pointer. The log has
-- five spans, so more arguments would be read past its end.
unfoldable pub set_ranges : ℕ → ℕ → List SpanArgs → List SpanArgs → List TestSpan → LoopResult
set_ranges num_sectors exec_status [] prev olds = all_set []
set_ranges num_sectors exec_status (arg ∷ args) prev [] = crashed
set_ranges num_sectors exec_status (arg ∷ args) prev (old ∷ olds) =
    let rest = set_ranges num_sectors exec_status args (tail_of prev) olds in
    elim (span_range num_sectors exec_status arg (get_elem? prev 0) old) [
      | range start end ↦
          let mode = actual_mode exec_status arg.mode in
          with_span (record { start = start; end = end; mode = mode }) rest
      | rejected ↦ stopped (arg ∷ args)
      | division_by_zero ↦ crashed
    ]

abbrev pub empty_span : TestSpan
empty_span = record { start = zero_uile64; end = zero_uile64 }

-- All `n` spans of the log are cleared, then the first ones are set.
unfoldable pub written_spans : ℕ → List SpanArgs → List TestSpan
written_spans zero args = []
written_spans (suc n) [] = empty_span ∷ written_spans n []
written_spans (suc n) (a ∷ args) =
    record { start = uint_to_uile64 a.start; end = uint_to_uile64 a.end } ∷ written_spans n args

abbrev pub selective_flag_doscan : ℕ
selective_flag_doscan = 0x0002

-- The scan flag as asked for; ACTIVE (0x0010) and then PENDING (0x0008) are cleared.
unfoldable pub written_flags : ℕ → ℕ → ℕ
written_flags scan_after_select flags =
    let scan =
      if scan_after_select == 1
      then bit_and flags 0xfffd
      else if scan_after_select == 2
      then bit_or flags selective_flag_doscan
      else flags in
    bit_and (bit_and scan 0xffef) 0xfff7

abbrev pub uile64_bytes : Uile64 → List ℕ
uile64_bytes x = x.b0 ∷ x.b1 ∷ x.b2 ∷ x.b3 ∷ x.b4 ∷ x.b5 ∷ x.b6 ∷ x.b7 ∷ []

abbrev pub uint16_bytes : ℕ → List ℕ
uint16_bytes n = let x = uint_to_uile16 n in x.b0 ∷ x.b1 ∷ []

unfoldable pub span_bytes : List TestSpan → List ℕ
span_bytes [] = []
span_bytes (s ∷ rest) = uile64_bytes s.start ++ (uile64_bytes s.end ++ span_bytes rest)

-- The bytes of the log before its checksum, on a little endian host. The byte order changes the
-- order of the bytes of an integer only, and the checksum is a sum.
unfoldable pub log_bytes : SelectiveLog → List ℕ
unfolding span_bytes
log_bytes log =
    uint16_bytes log.logversion
    ++ (span_bytes log.span
        ++ (log.reserved1
            ++ (log.vendor_specific1
                ++ (uile64_bytes log.currentlba
                    ++ (uint16_bytes log.currentspan
                        ++ (uint16_bytes log.flags
                            ++ (log.vendor_specific2
                                ++ (uint16_bytes log.pendingtime ++ (log.reserved2 ∷ [])))))))))

-- `data->checksum = 0; cksum = sum; cksum = ~cksum; cksum += 1;`
unfoldable pub with_checksum : SelectiveLog → SelectiveLog
unfolding sum_bytes
with_checksum log =
    let cksum = sum_bytes 0 (log_bytes log ++ 0 ∷ []) in
    record log { checksum = u8 (255 - cksum + 1) }

-- The log that is written for these ranges.
unfoldable pub updated_log : SelftestArgs → SelectiveLog → SelectiveLog
unfolding written_flags written_spans
updated_log args log = with_checksum (record log {
  logversion = 1;
  span = written_spans 5 args.span;
  currentlba = zero_uile64;
  currentspan = 0;
  flags = written_flags args.scan_after_select log.flags;
  pendingtime =
      if args.pending_time == 0 then log.pendingtime else u16 (args.pending_time + 2 ^ 16 - 1);
})

-- The return values 1, 0 and -1, each with what becomes of the arguments, and the division by zero.
pub data Prepared : Type 0 where
  prepared : SelftestArgs → SelectiveLog → Prepared
  in_progress failed : SelftestArgs → Prepared
  write_failed : SelftestArgs → SelectiveLog → Prepared
  fault : Prepared

unfoldable pub write_log : Bool → SelftestArgs → SelectiveLog → LoopResult → Prepared
unfolding updated_log
write_log write_ok args log (all_set spans) =
    let args' = record args { span = spans } in
    let log' = updated_log args' log in
    if write_ok then prepared args' log' else write_failed args' log'
write_log write_ok args log (stopped spans) = failed (record args { span = spans })
write_log write_ok args log crashed = fault

-- ata_prepare_selective_self_test. `read` is what reading the log returns, `write_ok` whether the
-- drive accepts the write, and `prev` the spans of prev_args, none for a null pointer.
unfoldable pub prepare_selective_self_test :
    Option SelectiveLog → Bool → SelftestArgs → ℕ → ℕ → List SpanArgs → Prepared
unfolding write_log
prepare_selective_self_test none write_ok args exec_status num_sectors prev = failed args
prepare_selective_self_test (some log) write_ok args exec_status num_sectors prev =
    if num_sectors == 0
    then failed args
    else if ltb 0 log.currentspan && ltb log.currentspan 6 && exec_status >> 4 == 0xf
    then in_progress args
    else write_log write_ok args log (set_ranges num_sectors exec_status args.span prev log.span)
