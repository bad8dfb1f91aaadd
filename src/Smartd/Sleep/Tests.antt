-- ===== src/Smartd/Sleep/Tests.antt =====
-- One device with an interval of 600 seconds, which sleeps from 1000 to 1600 with an early wakeup.
use smartmontools.Common.{ℕ, refl, true, false, some, List, [], arith, ◌≡◌, ◌∷◌}
use smartmontools.Smartd.Sample.{state, cfg}
use smartmontools.Smartd.Sleep.{
  Signals, Reading, Sleep, adjust_clock, start_sleep, sleep_round, sleep_until, finish_sleep,
  dosleep,
}
use smartmontools.Smartd.Sleep.Ends.{is_over, returns, dosleep-returns}
use smartmontools.Smartd.Sleep.Progress.{SomeChecked, dosleep-SomeChecked}

abbrev quiet : Signals
quiet = record { usr1 = false; hup = false; exit = false }

abbrev at : ℕ → Reading
at t = record { timenow = t; signals = quiet }

abbrev readings : List Reading
readings = at 1500 ∷ at 1601 ∷ []

abbrev slept : Sleep
slept = record {
  wakeuptime = 1600;
  addtime = 0;
  no_skip = false;
  devices = (cfg, record state { wakeuptime = 1600 }) ∷ [];
}

run : sleep_until 1800 600 readings (at 1000) 0 ((cfg, state) ∷ []) ≡ some (slept, at 1601)
unfolding sleep_until
run = refl

dosleep-SomeChecked_example :
    (dosleep 1800 600 readings (at 1000) 0 ((cfg, state) ∷ [])
      ≡ some (finish_sleep 600 (slept, at 1601)))
    × SomeChecked (finish_sleep 600 (slept, at 1601)).0
dosleep-SomeChecked_example =
    dosleep-SomeChecked 1800 600 readings (at 1000) 0 cfg state [] slept (at 1601) (omega arith) run
      refl refl

-- The first call of sleep() returns 100 seconds too late, the second after the 120 seconds added.
dosleep-returns_example :
    returns (dosleep 1800 600 (at 1700 ∷ at 1720 ∷ []) (at 1000) 0 ((cfg, state) ∷ [])) ≡ true
unfolding adjust_clock start_sleep is_over sleep_round
dosleep-returns_example =
    dosleep-returns 1800 600 (at 1000) (at 1700) (at 1720) 0 ((cfg, state) ∷ []) (omega arith) refl
