-- ===== src/Smartd/Sleep.antt =====
-- dosleep of src/smartd.cpp. The clock readings after each call of sleep(), with the signals that were
-- caught by then, are a list.
pub mod Progress
pub mod Ends
mod Tests
use smartmontools.Common.{ℕ, Bool, true, false, not, Option, none, some, List, [], ltb, leb}
use smartmontools.Common.{◌+◌, ◌-◌, ◌%◌, ◌&&◌, ◌||◌, ◌∷◌, ◌==◌, ◌!=◌, if◌then◌else◌}
use smartmontools.Smartd.State.{DevState, DevConfig}
use smartmontools.Smartd.Wakeup.{calc_next_wakeuptime, next_wakeup}

-- caughtsigUSR1, caughtsigHUP and caughtsigEXIT
pub record Signals : Type 0 where
  pub usr1 : Bool
  pub hup : Bool
  pub exit : Bool

pub record Reading : Type 0 where
  pub timenow : ℕ
  pub signals : Signals

abbrev pub Devices : Type 0
Devices = List (DevConfig × DevState)

-- The local variables of dosleep, with the states of the devices.
pub record Sleep : Type 0 where
  pub wakeuptime : ℕ
  pub addtime : ℕ
  pub no_skip : Bool
  pub devices : Devices

unfoldable pub reset_wakeups : Devices → Devices
reset_wakeups [] = []
reset_wakeups ((cfg, s) ∷ rest) = (cfg, record s { wakeuptime = 0 }) ∷ reset_wakeups rest

-- "Restart if system clock has been adjusted to the past"
unfoldable pub adjust_clock : ℕ → ℕ → Sleep → Sleep
unfolding reset_wakeups
adjust_clock ct timenow r =
    if ltb (timenow + ct) r.wakeuptime
    then record r { wakeuptime = timenow + ct; no_skip = true; devices = reset_wakeups r.devices }
    else r

-- "Actual sleep time too long?"
unfoldable pub slept_too_long : ℕ → ℕ → Sleep → Sleep
slept_too_long ct timenow r =
    let addtime = timenow - r.wakeuptime + 20 in
    let nextcheck = ct - addtime % ct in
    if r.addtime == 0 && ltb (r.wakeuptime + 60) timenow
    then record r { addtime = if leb nextcheck 20 then addtime + nextcheck else addtime }
    else r

-- The condition of the loop.
unfoldable pub keeps_sleeping : Sleep → Reading → Bool
keeps_sleeping r now =
    ltb now.timenow (r.wakeuptime + r.addtime)
    && not now.signals.usr1
    && not now.signals.hup
    && not now.signals.exit

unfoldable pub sleep_round : ℕ → Reading → Reading → Sleep → Sleep
unfolding adjust_clock slept_too_long
sleep_round ct before after r = slept_too_long ct after.timenow (adjust_clock ct before.timenow r)

-- The loop: what it leaves with the last reading, none if it still sleeps after all readings.
unfoldable pub sleep_loop : ℕ → List Reading → Reading → Sleep → Option (Sleep × Reading)
unfolding keeps_sleeping sleep_round
sleep_loop ct [] now r = if keeps_sleeping r now then none else some (r, now)
sleep_loop ct (after ∷ readings) now r =
    let rest = sleep_loop ct readings after (sleep_round ct now after r) in
    if keeps_sleeping r now then rest else some (r, now)

-- state.skip = (!no_skip && timenow < state.wakeuptime)
unfoldable pub mark_skips : Bool → ℕ → Devices → Devices
mark_skips no_skip timenow [] = []
mark_skips no_skip timenow ((cfg, s) ∷ rest) =
    (cfg, record s { skip = not no_skip && ltb timenow s.wakeuptime })
    ∷ mark_skips no_skip timenow rest

-- The end of dosleep: the states, and the adjusted wakeup time.
unfoldable pub finish_sleep : ℕ → Sleep × Reading → Devices × ℕ
unfolding mark_skips
finish_sleep checktime_min (r, now) = (
  if checktime_min != 0
      then mark_skips (r.no_skip || now.signals.usr1) now.timenow r.devices
      else r.devices,
  r.wakeuptime,
)

-- The start of dosleep: the next wakeup time.
unfoldable pub start_sleep : ℕ → ℕ → ℕ → ℕ → Devices → Sleep
unfolding calc_next_wakeuptime next_wakeup
start_sleep checktime checktime_min timenow wakeuptime devices =
    let (devices', first) = next_wakeup checktime timenow devices 0 in
    if checktime_min == 0
    then record {
      wakeuptime = calc_next_wakeuptime wakeuptime timenow checktime;
      addtime = 0;
      no_skip = false;
      devices = devices;
    }
    else record { wakeuptime = first; addtime = 0; no_skip = false; devices = devices' }

-- The sleep itself, with the last reading.
unfoldable pub sleep_until : ℕ → ℕ → List Reading → Reading → ℕ → Devices → Option (Sleep × Reading)
unfolding start_sleep sleep_loop
sleep_until checktime checktime_min readings now wakeuptime devices =
    sleep_loop (if checktime_min == 0 then checktime else checktime_min) readings now
      (start_sleep checktime checktime_min now.timenow wakeuptime devices)

unfoldable pub return_from : ℕ → Option (Sleep × Reading) → Option (Devices × ℕ)
unfolding finish_sleep
return_from checktime_min none = none
return_from checktime_min (some r) = some (finish_sleep checktime_min r)

-- dosleep, none if it still sleeps
unfoldable pub dosleep : ℕ → ℕ → List Reading → Reading → ℕ → Devices → Option (Devices × ℕ)
unfolding sleep_until return_from
dosleep checktime checktime_min readings now wakeuptime devices =
    return_from checktime_min (sleep_until checktime checktime_min readings now wakeuptime devices)
