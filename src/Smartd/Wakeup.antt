-- ===== src/Smartd/Wakeup.antt =====
-- The wakeup times of the main loop in src/smartd.cpp: calc_next_wakeuptime, the start of dosleep and
-- the marking of the devices that are skipped.
pub mod Schedule
use smartmontools.Common.{ℕ, List, [], ltb, ◌+◌, ◌-◌, ◌%◌, ◌||◌, ◌∷◌, ◌==◌, ◌!=◌}
use smartmontools.Common.{if◌then◌else◌}
use smartmontools.Smartd.State.{DevState, DevConfig}

-- calc_next_wakeuptime; `ct` is positive in every call.
unfoldable pub calc_next_wakeuptime : ℕ → ℕ → ℕ → ℕ
calc_next_wakeuptime wakeuptime timenow ct =
    if ltb timenow wakeuptime then wakeuptime else timenow + ct - (timenow - wakeuptime) % ct

-- The wakeup time of one device; `checktime` is the global interval.
unfoldable pub device_wakeup : ℕ → ℕ → DevConfig → DevState → DevState
unfolding calc_next_wakeuptime
device_wakeup checktime timenow cfg s = if s.skip then s else record s {
  wakeuptime =
      calc_next_wakeuptime (if s.wakeuptime != 0 then s.wakeuptime else timenow) timenow
        (if cfg.checktime != 0 then cfg.checktime else checktime);
}

-- The loop over the devices: their states and the first wakeup time, 0 at the start.
unfoldable pub next_wakeup :
    ℕ → ℕ → List (DevConfig × DevState) → ℕ → List (DevConfig × DevState) × ℕ
unfolding device_wakeup
next_wakeup checktime timenow [] wakeuptime = ([], wakeuptime)
next_wakeup checktime timenow ((cfg, s) ∷ rest) wakeuptime =
    let s' = device_wakeup checktime timenow cfg s in
    let first : ℕ =
      if wakeuptime == 0 || ltb s'.wakeuptime wakeuptime then s'.wakeuptime else wakeuptime in
    let (rest', wakeuptime') = next_wakeup checktime timenow rest first in
    ((cfg, s') ∷ rest', wakeuptime')
