-- ===== src/Smartd/OpenDevice/Tests.antt =====
-- A disk in standby with at most three skipped checks in a row.
use smartmontools.Common.{ℕ, refl, true, false, some, List, [], arith, length, ◌+◌, ◌≤◌, ◌≡◌}
use smartmontools.Common.{◌≢◌, ◌∷◌}
use smartmontools.Smartd.Sample.{state, cfg}
use smartmontools.Smartd.State.{DevState}
use smartmontools.Smartd.OpenDevice.{OpenReplies, begin_check}
use smartmontools.Smartd.OpenDevice.Skips.{Cycle, Skips, length-Skips}

abbrev awake : OpenReplies
awake = record { is_ata = true; is_powered_down = false; opened = true }

abbrev in_standby : ℕ → Cycle
in_standby now = record { now = now; device = awake; powermode = some 0; powermode2 = some 0 }

abbrev cycles : List Cycle
cycles = in_standby 1800 ∷ in_standby 3600 ∷ in_standby 5400 ∷ []

abbrev after : Cycle → DevState → DevState
after c s = (begin_check cfg c.now c.device c.powermode c.powermode2 s).0.0

three-Skips : Skips cfg state cycles
unfolding begin_check
three-Skips =
    let s1 = after (in_standby 1800) state in
    let s2 = after (in_standby 3600) s1 in
    let s3 = after (in_standby 5400) s2 in
    Skips.skip _ _ _ refl refl
      (Skips.skip _ _ _ refl refl (Skips.skip _ _ _ refl refl (Skips.done s3)))

no_limit : cfg.powerskipmax ≢ 0
no_limit = omega arith

length-Skips_example : length cycles + state.powerskipcnt ≤ cfg.powerskipmax
length-Skips_example = length-Skips cfg state cycles no_limit three-Skips (omega arith)

-- The fourth check is carried out.
resumed :
    (begin_check cfg 7200 awake (some 0) (some 0) (record state { powerskipcnt = 3 })).1 ≡ true
unfolding begin_check
resumed = refl
