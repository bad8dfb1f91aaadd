-- ===== src/Smartd/Sleep/Progress.antt =====
-- When dosleep returns, a device is to be checked.
use smartmontools.Common.{ℕ, refl, sym, inl, inr, Bool, true, false, not, Option, none, some}
use smartmontools.Common.{List, [], arith, ltb, Bool-cases, if-both, if-each, ◌+◌, ◌≤◌, ◌≡◌}
use smartmontools.Common.{◌∙◌, ◌≢◌, ◌⊎◌, ◌&&◌, ◌||◌, ◌∷◌, ◌==◌, ◌!=◌, if◌then◌else◌}
use smartmontools.Smartd.State.{DevState, DevConfig}
use smartmontools.Smartd.Wakeup.{device_wakeup, next_wakeup}
use smartmontools.Smartd.Sleep.{Reading, Devices, Sleep, reset_wakeups, adjust_clock}
use smartmontools.Smartd.Sleep.{slept_too_long, keeps_sleeping, sleep_round, sleep_loop, mark_skips}
use smartmontools.Smartd.Sleep.{finish_sleep, start_sleep, sleep_until, return_from, dosleep}

-- A device has this wakeup time.
abbrev pub HasWakeup : ℕ → Devices → Type 0
HasWakeup w [] = ⊥
HasWakeup w ((cfg, s) ∷ rest) = (s.wakeuptime ≡ w) ⊎ HasWakeup w rest

-- A device is not skipped.
abbrev pub SomeChecked : Devices → Type 0
SomeChecked [] = ⊥
SomeChecked ((cfg, s) ∷ rest) = (s.skip ≡ false) ⊎ SomeChecked rest

-- The wakeup time is the first one, or that of a device.
Attained : ℕ → Devices × ℕ → Type 0
Attained w (devices, w') = (w' ≡ w) ⊎ HasWakeup w' devices

one_more_device :
    (cfg : DevConfig) (s : DevState) (w first : ℕ) (r : Devices × ℕ)
    → (first ≡ w) ⊎ (first ≡ s.wakeuptime)
    → Attained first r
    → Attained w ((cfg, s) ∷ r.0, r.1)
unfolding Attained
one_more_device cfg s w first (devices, w') (inl e) (inl h) = inl (h ∙ e)
one_more_device cfg s w first (devices, w') (inr e) (inl h) = inr (inl (sym (h ∙ e)))
one_more_device cfg s w first (devices, w') e (inr h) = inr (inr h)

next_wakeup-Attained :
    (checktime timenow : ℕ) (devices : Devices) (w : ℕ)
    → Attained w (next_wakeup checktime timenow devices w)
unfolding next_wakeup Attained
next_wakeup-Attained checktime timenow [] w = inl refl
next_wakeup-Attained checktime timenow ((cfg, s) ∷ rest) w =
    let s' = device_wakeup checktime timenow cfg s in
    let first : ℕ = if w == 0 || ltb s'.wakeuptime w then s'.wakeuptime else w in
    one_more_device cfg s' w first (next_wakeup checktime timenow rest first)
      (if-both (λ (f : ℕ). (f ≡ w) ⊎ (f ≡ s'.wakeuptime)) (w == 0 || ltb s'.wakeuptime w) (inr refl)
        (inl refl))
      (next_wakeup-Attained checktime timenow rest first)

-- The first device is used even if its wakeup time is 0.
next_wakeup-HasWakeup :
    (checktime timenow : ℕ) (cfg : DevConfig) (s : DevState) (rest : Devices)
    → let r = next_wakeup checktime timenow ((cfg, s) ∷ rest) 0 in HasWakeup r.1 r.0
unfolding next_wakeup Attained
next_wakeup-HasWakeup checktime timenow cfg s rest =
    let s' = device_wakeup checktime timenow cfg s in
    elim (next_wakeup-Attained checktime timenow rest s'.wakeuptime) [
      | inl same ↦ inl (sym same)
      | inr other ↦ inr other
    ]

abbrev pub HasDevice : Devices → Type 0
HasDevice [] = ⊥
HasDevice (d ∷ rest) = Unit

-- There is a device, and either every device is to be checked, or the wakeup time is that of one.
Ready : Sleep → Type 0
Ready r = HasDevice r.devices × ((r.no_skip ≡ true) ⊎ HasWakeup r.wakeuptime r.devices)

reset_wakeups-HasDevice :
    (devices : Devices) → HasDevice devices → HasDevice (reset_wakeups devices)
unfolding reset_wakeups
reset_wakeups-HasDevice [] h = h
reset_wakeups-HasDevice ((cfg, s) ∷ rest) h = tt

adjust_clock-Ready : (ct timenow : ℕ) (r : Sleep) → Ready r → Ready (adjust_clock ct timenow r)
unfolding adjust_clock Ready
adjust_clock-Ready ct timenow r h =
    if-both Ready (ltb (timenow + ct) r.wakeuptime)
      (reset_wakeups-HasDevice r.devices h.0, inl refl) h

slept_too_long-Ready : (ct timenow : ℕ) (r : Sleep) → Ready r → Ready (slept_too_long ct timenow r)
unfolding slept_too_long Ready
slept_too_long-Ready ct timenow r h =
    if-both Ready (r.addtime == 0 && ltb (r.wakeuptime + 60) timenow) h h

-- What the loop leaves when it ends.
Woken : Option (Sleep × Reading) → Type 0
Woken none = Unit
Woken (some (r, now)) = Ready r × (keeps_sleeping r now ≡ false)

sleep_loop-Woken :
    (ct : ℕ) (readings : List Reading) (now : Reading) (r : Sleep)
    → Ready r
    → Woken (sleep_loop ct readings now r)
unfolding sleep_loop Woken sleep_round
sleep_loop-Woken ct [] now r h = if-each Woken (keeps_sleeping r now) (λ t. tt) (λ f. (h, f))
sleep_loop-Woken ct (after ∷ readings) now r h =
    let r' = adjust_clock ct now.timenow r in
    if-each Woken (keeps_sleeping r now)
      (λ t.
        sleep_loop-Woken ct readings after (sleep_round ct now after r)
          (slept_too_long-Ready ct after.timenow r' (adjust_clock-Ready ct now.timenow r h)))
      (λ f. (h, f))

mark_skips-SomeChecked :
    (timenow w : ℕ) (no_skip : Bool) (devices : Devices)
    → w ≤ timenow
    → HasWakeup w devices
    → SomeChecked (mark_skips no_skip timenow devices)
unfolding mark_skips
mark_skips-SomeChecked timenow w no_skip [] le h = h
mark_skips-SomeChecked timenow w no_skip ((cfg, s) ∷ rest) le (inl e) =
    let past : ltb timenow s.wakeuptime ≡ false = ground (arith, e, le) in
    inl (rw past (elim (Bool-cases (not no_skip)) [ inl t ↦ rw t refl | inr f ↦ rw f refl ]))
mark_skips-SomeChecked timenow w no_skip ((cfg, s) ∷ rest) le (inr h) =
    inr (mark_skips-SomeChecked timenow w no_skip rest le h)

all_checked :
    (timenow : ℕ) (devices : Devices)
    → HasDevice devices
    → SomeChecked (mark_skips true timenow devices)
unfolding mark_skips
all_checked timenow [] h = h
all_checked timenow ((cfg, s) ∷ rest) h = inl refl

marked :
    (checktime_min : ℕ) (r : Sleep) (now : Reading)
    → checktime_min ≢ 0
    → Ready r
    → keeps_sleeping r now ≡ false
    → now.signals.hup ≡ false
    → now.signals.exit ≡ false
    → SomeChecked (finish_sleep checktime_min (r, now)).0
unfolding finish_sleep keeps_sleeping Ready
marked checktime_min r now per_device (device, ready) over no_hup no_exit =
    let e : (checktime_min != 0) ≡ true = ground (arith, per_device) in
    rw e (elim (Bool-cases (r.no_skip || now.signals.usr1)) [
      | inl all ↦ rw all (all_checked now.timenow r.devices device)
      | inr some_only ↦ elim ready [
        | inl all ↦ absurd (ground (arith, all, some_only))
        | inr due ↦
            let past : r.wakeuptime ≤ now.timenow =
              ground (arith, over, some_only, no_hup, no_exit) in
            mark_skips-SomeChecked now.timenow r.wakeuptime (r.no_skip || now.signals.usr1)
              r.devices past due
      ]
    ])

start_sleep-Ready :
    (checktime checktime_min timenow wakeuptime : ℕ) (cfg : DevConfig) (s : DevState)
    (rest : Devices)
    → checktime_min ≢ 0
    → Ready (start_sleep checktime checktime_min timenow wakeuptime ((cfg, s) ∷ rest))
unfolding start_sleep Ready next_wakeup
start_sleep-Ready checktime checktime_min timenow wakeuptime cfg s rest per_device =
    let e : (checktime_min == 0) ≡ false = ground (arith, per_device) in
    rw e (tt, inr (next_wakeup-HasWakeup checktime timenow cfg s rest))

-- Where the devices have intervals of their own and there is a device, dosleep leaves one that is not
-- skipped, unless a signal to reload or to exit was caught: also after a wakeup by USR1, after a clock
-- that went back, and after a sleep that took too long. `r` and `last` are what the loop leaves.
pub dosleep-SomeChecked :
    (checktime checktime_min : ℕ) (readings : List Reading) (now : Reading) (wakeuptime : ℕ)
    (cfg : DevConfig) (s : DevState) (rest : Devices) (r : Sleep) (last : Reading)
    → checktime_min ≢ 0
    → sleep_until checktime checktime_min readings now wakeuptime ((cfg, s) ∷ rest) ≡ some (r, last)
    → last.signals.hup ≡ false
    → last.signals.exit ≡ false
    → (dosleep checktime checktime_min readings now wakeuptime ((cfg, s) ∷ rest)
        ≡ some (finish_sleep checktime_min (r, last)))
      × SomeChecked (finish_sleep checktime_min (r, last)).0
unfolding dosleep return_from Woken sleep_until
dosleep-SomeChecked checktime checktime_min readings now wakeuptime cfg s rest r last per_device h
      no_hup no_exit =
    let start = start_sleep checktime checktime_min now.timenow wakeuptime ((cfg, s) ∷ rest) in
    let ct : ℕ = if checktime_min == 0 then checktime else checktime_min in
    let woken =
      sleep_loop-Woken ct readings now start
        (start_sleep-Ready checktime checktime_min now.timenow wakeuptime cfg s rest per_device) in
    let (ready, over) = rw h at woken in
    (rw h refl, marked checktime_min r last per_device ready over no_hup no_exit)
