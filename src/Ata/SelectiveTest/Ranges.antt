-- ===== src/Ata/SelectiveTest/Ranges.antt =====
-- Every span that is accepted lies on the disk.
use smartmontools.Common.{ℕ, suc, refl, sym, ap, inl, inr, Bool, true, false, Option, some}
use smartmontools.Common.{List, [], arith, length, get_elem?, All, ◌≤◌, ◌<◌, ◌≡◌, ◌∙◌, ◌⊎◌}
use smartmontools.Common.{◌∷◌}
use smartmontools.Ata.SelectiveTest.{SpanArgs, TestSpan, RangeResult, range, rejected}
use smartmontools.Ata.SelectiveTest.{division_by_zero, LoopResult, all_set, stopped, crashed}
use smartmontools.Ata.SelectiveTest.{
  actual_mode, check_range, span_range, set_ranges, with_span, tail_of,
}
use smartmontools.Ata.SelectiveTest.{SelectiveLog, SelftestArgs, Prepared, prepared}
use smartmontools.Ata.SelectiveTest.{prepare_selective_self_test, updated_log, write_log}

abbrev pub OnDisk : ℕ → SpanArgs → Type 0
OnDisk num_sectors s = (s.start ≤ s.end) × (s.end < num_sectors)

check_range-valid :
    (num_sectors start end : ℕ) (r : RangeResult)
    → check_range num_sectors r ≡ range start end
    → (start ≤ end) × (end < num_sectors)
unfolding check_range
check_range-valid num_sectors start end (range s e) h = ground arith
check_range-valid num_sectors start end rejected h = cc
check_range-valid num_sectors start end division_by_zero h = cc

span_range-valid :
    (num_sectors exec_status start end : ℕ) (arg : SpanArgs) (prev : Option SpanArgs)
    (old : TestSpan)
    → span_range num_sectors exec_status arg prev old ≡ range start end
    → (start ≤ end) × (end < num_sectors)
unfolding span_range
span_range-valid num_sectors exec_status start end arg prev old h =
    check_range-valid num_sectors start end _ h

RangeResult-cases :
    (r : RangeResult)
    → ((start : ℕ) × (end : ℕ) × (r ≡ range start end)) ⊎ ((r ≡ rejected) ⊎ (r ≡ division_by_zero))
RangeResult-cases (range start end) = inl (start, end, refl)
RangeResult-cases rejected = inr (inl refl)
RangeResult-cases division_by_zero = inr (inr refl)

with_span-all_set :
    (s : SpanArgs) (r : LoopResult) (spans : List SpanArgs)
    → with_span s r ≡ all_set spans
    → (rest : List SpanArgs) × (r ≡ all_set rest) × (spans ≡ s ∷ rest)
with_span-all_set s (all_set rest) spans h = (rest, refl, ground arith)
with_span-all_set s (stopped rest) spans h = cc
with_span-all_set s crashed spans h = cc

abbrev spans_of : LoopResult → List SpanArgs
spans_of (all_set spans) = spans
spans_of (stopped spans) = spans
spans_of crashed = []

-- If the loop sets all spans, it sets as many as were asked for, and each lies on the disk.
pub set_ranges-OnDisk :
    (num_sectors exec_status : ℕ) (args prev spans : List SpanArgs) (olds : List TestSpan)
    → set_ranges num_sectors exec_status args prev olds ≡ all_set spans
    → All (OnDisk num_sectors) spans × (length spans ≡ length args)
unfolding set_ranges
set_ranges-OnDisk num_sectors exec_status [] prev spans olds h =
    let e : [] ≡ spans = ap spans_of h in rw (← e) (tt, refl)
set_ranges-OnDisk num_sectors exec_status (arg ∷ args) prev spans [] h = cc
set_ranges-OnDisk num_sectors exec_status (arg ∷ args) prev spans (old ∷ olds) h =
    elim (RangeResult-cases (span_range num_sectors exec_status arg (get_elem? prev 0) old)) [
      | inl (start, end, e) ↦
          let mode = actual_mode exec_status arg.mode in
          let others = set_ranges num_sectors exec_status args (tail_of prev) olds in
          let first : SpanArgs = record { start = start; end = end; mode = mode } in
          let (rest, r, split) = with_span-all_set first others spans (rw (e, set_ranges) at h) in
          let ih = set_ranges-OnDisk num_sectors exec_status args (tail_of prev) rest olds r in
          rw split (
            (span_range-valid num_sectors exec_status start end arg (get_elem? prev 0) old e, ih.0),
            ap suc ih.1,
          )
      | inr (inl e) ↦ cc (rw (e, set_ranges) at h)
      | inr (inr e) ↦ cc (rw (e, set_ranges) at h)
    ]

LoopResult-cases :
    (r : LoopResult)
    → ((spans : List SpanArgs) × (r ≡ all_set spans))
      ⊎ (((spans : List SpanArgs) × (r ≡ stopped spans)) ⊎ (r ≡ crashed))
LoopResult-cases (all_set spans) = inl (spans, refl)
LoopResult-cases (stopped spans) = inr (inl (spans, refl))
LoopResult-cases crashed = inr (inr refl)

abbrev args_of : SelftestArgs → Prepared → SelftestArgs
args_of d (prepared args log) = args
args_of d _ = d

abbrev log_of : SelectiveLog → Prepared → SelectiveLog
log_of d (prepared args log) = log
log_of d _ = d

-- A result `prepared` comes from a loop that set all spans and from a write that succeeded.
pub write_log-prepared :
    (write_ok : Bool) (args args' : SelftestArgs) (log log' : SelectiveLog) (r : LoopResult)
    → write_log write_ok args log r ≡ prepared args' log'
    → (r ≡ all_set args'.span) × (log' ≡ updated_log args' log)
unfolding write_log
write_log-prepared true args args' log log' (all_set spans) h =
    let same_args : record args { span = spans } ≡ args' = ap (args_of args) h in
    (
      ap (λ (a : SelftestArgs). all_set a.span) same_args,
      sym (ap (log_of log) h) ∙ ap (λ a. updated_log a log) same_args,
    )
write_log-prepared false args args' log log' (all_set spans) h = cc
write_log-prepared write_ok args args' log log' (stopped spans) h = cc
write_log-prepared write_ok args args' log log' crashed h = cc

-- A successful call comes from such a loop over the spans of the log that was read.
pub prepare-prepared :
    (args args' : SelftestArgs) (log log' : SelectiveLog) (write_ok : Bool)
    (exec_status num_sectors : ℕ) (prev : List SpanArgs)
    → prepare_selective_self_test (some log) write_ok args exec_status num_sectors prev
      ≡ prepared args' log'
    → (set_ranges num_sectors exec_status args.span prev log.span ≡ all_set args'.span)
      × (log' ≡ updated_log args' log)
unfolding prepare_selective_self_test
prepare-prepared args args' log log' write_ok exec_status num_sectors prev h =
    write_log-prepared write_ok args args' log log'
      (set_ranges num_sectors exec_status args.span prev log.span) (ground arith)

-- A successful call returns as many spans as it was given, each with start <= end < num_sectors.
pub prepared-OnDisk :
    (args args' : SelftestArgs) (log log' : SelectiveLog) (write_ok : Bool)
    (exec_status num_sectors : ℕ) (prev : List SpanArgs)
    → prepare_selective_self_test (some log) write_ok args exec_status num_sectors prev
      ≡ prepared args' log'
    → All (OnDisk num_sectors) args'.span × (length args'.span ≡ length args.span)
prepared-OnDisk args args' log log' write_ok exec_status num_sectors prev h =
    let p = prepare-prepared args args' log log' write_ok exec_status num_sectors prev h in
    set_ranges-OnDisk num_sectors exec_status args.span prev args'.span log.span p.0
