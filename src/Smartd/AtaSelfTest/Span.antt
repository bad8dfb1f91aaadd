-- ===== src/Smartd/AtaSelfTest/Span.antt =====
-- When a scheduled self-test starts, and the span that a selective one leaves in the state.
use smartmontools.Common.{ℕ, refl, ap, inl, inr, Bool, true, false, not, Option, none, some}
use smartmontools.Common.{List, [], arith, Option-cases, length, get_or, All, if-both}
use smartmontools.Common.{if-each, ◌≤◌, ◌<◌, ◌≡◌, ◌∷◌, ◌==◌}
use smartmontools.Ata.SelectiveTest.{SpanMode, SpanArgs, SelftestArgs, SelectiveLog, Prepared}
use smartmontools.Ata.SelectiveTest.{prepare_selective_self_test}
use smartmontools.Ata.SelectiveTest.Ranges.{OnDisk, prepared-OnDisk}
use smartmontools.Smartd.State.{DevState, DevConfig}
use smartmontools.Smartd.AtaSelfTest.{SmartValues, TestType, is_capable, set_not_capable}
use smartmontools.Smartd.AtaSelfTest.{is_test_running, TestReplies, prepare_span, TestResult}
use smartmontools.Smartd.AtaSelfTest.{start_test, start_selective, prepare_and_start, test_with}
use smartmontools.Smartd.AtaSelfTest.{do_ata_self_test}

abbrev is_started : TestResult → Bool
is_started TestResult.started = true
is_started _ = false

-- A fact that holds if the test was started.
IfStarted : (DevState → Type 0) → DevState × TestResult → Type 0
IfStarted P (s, result) = result ≡ TestResult.started → P s

not_started : (P : DevState → Type 0) (s : DevState) → IfStarted P (s, TestResult.not_started)
unfolding IfStarted
not_started P s e = absurd (grind (arith, ap is_started e))

-- What the SMART data show of a test that may be started.
abbrev pub IsAllowed : DevConfig → TestType → SmartValues → Type 0
IsAllowed cfg test smart = (is_capable smart test ≡ true) × (is_test_running cfg smart ≡ false)

test_with-IsAllowed :
    (cfg : DevConfig) (device : TestReplies) (test : TestType) (s : DevState) (smart : SmartValues)
    → IfStarted (λ s'. IsAllowed cfg test smart) (test_with cfg device test s (some smart))
unfolding test_with IfStarted
test_with-IsAllowed cfg device test s smart =
    let P : DevState × TestResult → Type 0 = IfStarted (λ s'. IsAllowed cfg test smart) in
    let none_yet = not_started (λ s'. IsAllowed cfg test smart) in
    if-both P (smart.offline_data_collection_capability == 0) (none_yet s) (
      if-each P (not (is_capable smart test)) (λ t. none_yet (set_not_capable test s))
        (λ capable.
          if-each P (is_test_running cfg smart) (λ t. none_yet s)
            (λ idle started. (ground (arith, capable), idle))))

started_with :
    (cfg : DevConfig) (device : TestReplies) (test : TestType) (s : DevState)
    (o : Option SmartValues)
    → (test_with cfg device test s o).1 ≡ TestResult.started
    → (smart : SmartValues) × (o ≡ some smart) × IsAllowed cfg test smart
unfolding IfStarted test_with
started_with cfg device test s none h = absurd (grind (arith, ap is_started h))
started_with cfg device test s (some smart) h =
    (smart, refl, test_with-IsAllowed cfg device test s smart h)

-- A self-test is started only if the SMART data could be read, shows the capability for this type of
-- test, and shows no test that is running, unless the device has the Samsung firmware bug.
pub do_ata_self_test-IsAllowed :
    (cfg : DevConfig) (device : TestReplies) (test : TestType) (s : DevState)
    → (do_ata_self_test cfg device test s).1 ≡ TestResult.started
    → (smart : SmartValues) × (device.smart ≡ some smart) × IsAllowed cfg test smart
unfolding do_ata_self_test
do_ata_self_test-IsAllowed cfg device test s h = started_with cfg device test s device.smart h

-- The span of the state lies on the disk.
abbrev pub HasSpan : ℕ → DevState → Type 0
HasSpan num_sectors s =
    (s.selective_test_last_start ≤ s.selective_test_last_end)
    × (s.selective_test_last_end < num_sectors)

first-OnDisk :
    (num_sectors : ℕ) (spans : List SpanArgs) (other : SpanArgs)
    → All (OnDisk num_sectors) spans
    → length spans ≡ 1
    → OnDisk num_sectors (get_or spans 0 other)
first-OnDisk num_sectors [] other h len = absurd (omega (arith, len))
first-OnDisk num_sectors (span ∷ spans) other h len = h.0

abbrev is_prepared : Prepared → Bool
is_prepared (Prepared.prepared args log) = true
is_prepared _ = false

prepared_span :
    (device : TestReplies) (smart : SmartValues) (mode : SpanMode) (s : DevState)
    (args : SelftestArgs) (log : SelectiveLog)
    → prepare_span device smart mode s ≡ Prepared.prepared args log
    → All (OnDisk s.num_sectors) args.span × (length args.span ≡ 1)
unfolding prepare_span prepare_selective_self_test
prepared_span device smart mode s args log h = elim (Option-cases device.log) [
  | inl e ↦ absurd (grind (arith, ap is_prepared (rw e at h)))
  | inr (read, e) ↦
      prepared-OnDisk _ args read log device.write_ok smart.self_test_exec_status s.num_sectors _
        (rw e at h)
]

start_test-HasSpan :
    (n : ℕ) (device : TestReplies) (mode : SpanMode) (s : DevState)
    → HasSpan n s
    → IfStarted (HasSpan n) (start_test device (TestType.selective mode) s)
unfolding start_test IfStarted
start_test-HasSpan n device mode s h =
    if-both (IfStarted (HasSpan n)) (not device.start_ok) (λ e. h) (λ e. h)

start_selective-HasSpan :
    (device : TestReplies) (smart : SmartValues) (mode : SpanMode) (s : DevState) (p : Prepared)
    → prepare_span device smart mode s ≡ p
    → IfStarted (HasSpan s.num_sectors) (start_selective device mode s p)
unfolding start_selective IfStarted
start_selective-HasSpan device smart mode s (Prepared.prepared args log) h =
    let (valid, len) = prepared_span device smart mode s args log h in
    let other : SpanArgs = record { start = 0; end = 0; mode = mode } in
    let span = get_or args.span 0 other in
    start_test-HasSpan s.num_sectors device mode
      (record s { selective_test_last_start = span.start; selective_test_last_end = span.end })
      (first-OnDisk s.num_sectors args.span other valid len)
start_selective-HasSpan device smart mode s (Prepared.in_progress args) h =
    not_started (HasSpan s.num_sectors) s
start_selective-HasSpan device smart mode s (Prepared.failed args) h =
    not_started (HasSpan s.num_sectors) s
start_selective-HasSpan device smart mode s (Prepared.write_failed args log) h =
    not_started (HasSpan s.num_sectors) s
start_selective-HasSpan device smart mode s Prepared.fault h =
    λ e. absurd (grind (arith, ap is_started e))

test_with-HasSpan :
    (cfg : DevConfig) (device : TestReplies) (mode : SpanMode) (s : DevState)
    (o : Option SmartValues)
    → IfStarted (HasSpan s.num_sectors) (test_with cfg device (TestType.selective mode) s o)
unfolding test_with prepare_and_start
test_with-HasSpan cfg device mode s none = not_started (HasSpan s.num_sectors) s
test_with-HasSpan cfg device mode s (some smart) =
    let test = TestType.selective mode in
    let P : DevState × TestResult → Type 0 = IfStarted (HasSpan s.num_sectors) in
    let none_yet = not_started (HasSpan s.num_sectors) in
    if-both P (smart.offline_data_collection_capability == 0) (none_yet s) (
      if-both P (not (is_capable smart test)) (none_yet (set_not_capable test s)) (
        if-both P (is_test_running cfg smart) (none_yet s)
          (start_selective-HasSpan device smart mode s (prepare_span device smart mode s) refl)))

-- If a selective self-test is started, the span that is stored for the next one lies on the disk,
-- whatever span was stored before and whatever log the device returns.
pub do_ata_self_test-HasSpan :
    (cfg : DevConfig) (device : TestReplies) (mode : SpanMode) (s : DevState)
    → (do_ata_self_test cfg device (TestType.selective mode) s).1 ≡ TestResult.started
    → HasSpan s.num_sectors (do_ata_self_test cfg device (TestType.selective mode) s).0
unfolding do_ata_self_test IfStarted
do_ata_self_test-HasSpan cfg device mode s h = test_with-HasSpan cfg device mode s device.smart h
