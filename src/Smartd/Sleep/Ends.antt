-- ===== src/Smartd/Sleep/Ends.antt =====
-- The sleep of dosleep in src/smartd.cpp ends.
use smartmontools.Common.{ℕ, refl, inl, inr, Bool, true, false, Option, none, some, List, []}
use smartmontools.Common.{arith, ltb, leb, Bool-cases, if-both, ◌+◌, ◌≤◌, ◌≡◌, ◌&&◌, ◌∷◌}
use smartmontools.Common.{◌==◌, if◌then◌else◌}
use smartmontools.Smartd.Sleep.{Reading, Devices, Sleep, adjust_clock, slept_too_long}
use smartmontools.Smartd.Sleep.{keeps_sleeping, sleep_round, sleep_loop, start_sleep}
use smartmontools.Smartd.Sleep.{sleep_until, return_from, dosleep}

-- The time that a call of sleep() waits for has come.
unfoldable pub is_over : Sleep → Reading → Bool
is_over r now = leb (r.wakeuptime + r.addtime) now.timenow

unfoldable pub returns : Option (Devices × ℕ) → Bool
returns none = false
returns (some r) = true

ended : (r : Sleep) (now : Reading) → is_over r now ≡ true → keeps_sleeping r now ≡ false
unfolding is_over keeps_sleeping
ended r now over =
    let past : ltb now.timenow (r.wakeuptime + r.addtime) ≡ false = ground (arith, over) in
    rw past refl

-- A wakeup time that is past is not adjusted.
adjust_clock-past :
    (ct timenow : ℕ) (r : Sleep) → r.wakeuptime ≤ timenow → adjust_clock ct timenow r ≡ r
unfolding adjust_clock
adjust_clock-past ct timenow r past =
    let e : ltb (timenow + ct) r.wakeuptime ≡ false = ground (arith, past) in rw e refl

-- The time to add is determined once.
slept_too_long-once :
    (ct timenow : ℕ) (r : Sleep) → (r.addtime == 0) ≡ false → slept_too_long ct timenow r ≡ r
unfolding slept_too_long
slept_too_long-once ct timenow r added = rw added refl

-- The second round leaves a sleep that is over and had time added.
second_round :
    (ct : ℕ) (after later : Reading) (r : Sleep)
    → (r.addtime == 0) ≡ false
    → r.wakeuptime ≤ after.timenow
    → sleep_round ct after later r ≡ r
unfolding sleep_round
second_round ct after later r added past =
    rw (adjust_clock-past ct after.timenow r past) (slept_too_long-once ct later.timenow r added)

slept_too_long-wakeuptime :
    (ct timenow : ℕ) (r : Sleep) → (slept_too_long ct timenow r).wakeuptime ≡ r.wakeuptime
unfolding slept_too_long
slept_too_long-wakeuptime ct timenow r =
    if-both (λ (q : Sleep). q.wakeuptime ≡ r.wakeuptime)
      (r.addtime == 0 && ltb (r.wakeuptime + 60) timenow) refl refl

unfoldable loop_returns : Option (Sleep × Reading) → Bool
loop_returns none = false
loop_returns (some r) = true

return_from-returns :
    (checktime_min : ℕ) (r : Option (Sleep × Reading))
    → loop_returns r ≡ true
    → returns (return_from checktime_min r) ≡ true
unfolding return_from returns loop_returns
return_from-returns checktime_min none h = h
return_from-returns checktime_min (some r) h = refl

loop_stops :
    (ct : ℕ) (readings : List Reading) (now : Reading) (r : Sleep)
    → keeps_sleeping r now ≡ false
    → loop_returns (sleep_loop ct readings now r) ≡ true
unfolding sleep_loop loop_returns
loop_stops ct [] now r over = rw over refl
loop_stops ct (after ∷ readings) now r over = rw over refl

loop_goes_on :
    (ct : ℕ) (after : Reading) (readings : List Reading) (now : Reading) (r : Sleep)
    → loop_returns (sleep_loop ct readings after (sleep_round ct now after r)) ≡ true
    → loop_returns (sleep_loop ct (after ∷ readings) now r) ≡ true
unfolding sleep_loop loop_returns
loop_goes_on ct after readings now r h =
    if-both (λ q. loop_returns q ≡ true) (keeps_sleeping r now) h refl

-- What is left once the first call of sleep() is over.
last_round :
    (ct : ℕ) (first second : Reading) (r : Sleep)
    → r.wakeuptime ≤ first.timenow
    → is_over r second ≡ true
    → loop_returns (sleep_loop ct (second ∷ []) first r) ≡ true
unfolding is_over
last_round ct first second r past over = elim (Bool-cases (r.addtime == 0)) [
  | inl none_added ↦
      loop_stops ct (second ∷ []) first r (ended r first (ground (arith, none_added, past)))
  | inr added ↦ loop_goes_on ct second [] first r (
      loop_stops ct [] second (sleep_round ct first second r)
        (rw (second_round ct first second r added past) (ended r second over)))
]

sleep_round-wakeuptime :
    (ct : ℕ) (now after : Reading) (r : Sleep)
    → (sleep_round ct now after r).wakeuptime ≡ (adjust_clock ct now.timenow r).wakeuptime
unfolding sleep_round
sleep_round-wakeuptime ct now after r =
    slept_too_long-wakeuptime ct after.timenow (adjust_clock ct now.timenow r)

-- dosleep returns after at most two calls of sleep(), whatever the signals: if the first returns not
-- before the wakeup time (adjusted to a clock that went back), and the second not before the time that
-- the first round leaves, with what it adds for a sleep that took too long. `ct` is the interval that
-- the code uses, and `start` what it starts with.
pub dosleep-returns :
    (checktime checktime_min : ℕ) (now first second : Reading) (wakeuptime : ℕ) (devices : Devices)
    → let ct : ℕ = if checktime_min == 0 then checktime else checktime_min in
      let start = start_sleep checktime checktime_min now.timenow wakeuptime devices in
      (adjust_clock ct now.timenow start).wakeuptime ≤ first.timenow
      → is_over (sleep_round ct now first start) second ≡ true
      → returns (dosleep checktime checktime_min (first ∷ second ∷ []) now wakeuptime devices)
        ≡ true
unfolding dosleep sleep_until
dosleep-returns checktime checktime_min now first second wakeuptime devices past over =
    let ct : ℕ = if checktime_min == 0 then checktime else checktime_min in
    let start = start_sleep checktime checktime_min now.timenow wakeuptime devices in
    return_from-returns checktime_min _ (
      loop_goes_on ct first (second ∷ []) now start (
        last_round ct first second (sleep_round ct now first start)
          (rw (sleep_round-wakeuptime ct now first start) past) over))
