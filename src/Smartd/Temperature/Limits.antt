-- ===== src/Smartd/Temperature/Limits.antt =====
-- What the recorded temperatures mean, and when a warning is sent.
use smartmontools.Common.{ℕ, ap, [], arith, ◌+◌, ◌-◌, ◌≤◌, ◌<◌, ◌≡◌, ◌∙◌, ◌≢◌, ◌!=◌}
use smartmontools.Common.{if◌then◌else◌}
use Prim.Native.Nat.{min, max}
use smartmontools.Smartd.State.{DevState, DevConfig}
use smartmontools.Smartd.Temperature.{update_tempmax, first_temperature_check}
use smartmontools.Smartd.Temperature.{
  end_tempmin_delay, update_tempmin, track_temperature, check_limits,
}
use smartmontools.Smartd.Mail.{mail_warning, reset_warning_mail}
use smartmontools.Smartd.Temperature.{later_temperature_check, record_temperature}

pub record_temperature-tempmax :
    (cfg : DevConfig) (now : ℕ) (s : DevState) (currtemp : ℕ)
    → (record_temperature cfg now s currtemp).tempmax ≡ max s.tempmax currtemp
unfolding record_temperature update_tempmax first_temperature_check later_temperature_check
    end_tempmin_delay update_tempmin track_temperature
record_temperature-tempmax cfg now s currtemp = ground arith

-- In a later check, outside of the delay, the minimum becomes the lowest of the recorded one and the
-- current temperature.
pub record_temperature-tempmin :
    (cfg : DevConfig) (now : ℕ) (s : DevState) (currtemp : ℕ)
    → s.temperature ≢ 0
    → s.tempmin_delay ≡ 0
    → (record_temperature cfg now s currtemp).tempmin ≡ min s.tempmin currtemp
unfolding record_temperature update_tempmax first_temperature_check later_temperature_check
    end_tempmin_delay update_tempmin track_temperature
record_temperature-tempmin cfg now s currtemp later no_delay = ground arith

first_check :
    (cfg : DevConfig) (s : DevState) (now c : ℕ)
    → s.temperature ≡ 0
    → s.tempmin ≡ 0
    → let s' = record_temperature cfg now s c in
      (s'.tempmin ≡ 0) × (s'.tempmin_delay ≡ now + 1740) × (s'.temperature ≡ c)
unfolding record_temperature update_tempmax first_temperature_check
first_check cfg s now c first unset = (ground arith, ground arith, ground arith)

delayed_check :
    (cfg : DevConfig) (s : DevState) (now c : ℕ)
    → s.temperature ≢ 0
    → s.tempmin ≡ 0
    → s.tempmin_delay ≢ 0
    → c < 255
    → let s' = record_temperature cfg now s c in
      (now < s.tempmin_delay → s'.tempmin ≡ 0) × (s.tempmin_delay ≤ now → s'.tempmin ≡ c)
unfolding record_temperature update_tempmax later_temperature_check end_tempmin_delay update_tempmin
    track_temperature
delayed_check cfg s now c later unset delay valid = (λ h. ground arith, λ h. ground arith)

-- After the first check of a device without a recorded minimum, at time t0, a second check at time t1
-- leaves the minimum unset before t0 + 1740 seconds, and records the temperature of the second check
-- as the minimum from then on. The maximum is the highest of the recorded one and both temperatures.
pub tempmin_delay_lem :
    (cfg : DevConfig) (s : DevState) (t0 t1 c0 c1 : ℕ)
    → s.temperature ≡ 0
    → s.tempmin ≡ 0
    → c0 ≢ 0
    → c1 < 255
    → let s2 = record_temperature cfg t1 (record_temperature cfg t0 s c0) c1 in
      (t1 < t0 + 1740 → s2.tempmin ≡ 0)
      × (t0 + 1740 ≤ t1 → s2.tempmin ≡ c1)
      × (s2.tempmax ≡ max (max s.tempmax c0) c1)
unfolding record_temperature update_tempmax first_temperature_check later_temperature_check
    end_tempmin_delay update_tempmin track_temperature
tempmin_delay_lem cfg s t0 t1 c0 c1 first unset valid0 valid1 =
    let s1 = record_temperature cfg t0 s c0 in
    let (min1, delay1, temp1) = first_check cfg s t0 c0 first unset in
    let later =
      delayed_check cfg s1 t1 c1 (omega (arith, temp1)) min1 (omega (arith, delay1)) valid1 in
    let max1 = record_temperature-tempmax cfg t0 s c0 in
    let max2 = record_temperature-tempmax cfg t1 s1 c1 in
    (
      λ h. later.0 (omega (arith, delay1)),
      λ h. later.1 (omega (arith, delay1)),
      max2 ∙ ap (λ m. max m c1) max1,
    )

-- For a critical limit from 5 to 255 and an informal limit that is not above it: the warning is sent
-- at the critical limit or above, as MailWarning sends it, and it is reset below the informal limit
-- or, without one, at more than 5 degrees below the critical limit. Between the two neither happens,
-- and the state is kept.
pub check_limits-hysteresis :
    (cfg : DevConfig) (now : ℕ) (s : DevState) (currtemp : ℕ)
    → 5 ≤ cfg.tempcrit
    → cfg.tempcrit < 256
    → cfg.tempinfo ≤ cfg.tempcrit
    → let limit = if cfg.tempinfo != 0 then cfg.tempinfo else cfg.tempcrit - 5 in
      (cfg.tempcrit ≤ currtemp → check_limits cfg now s currtemp ≡ mail_warning cfg now s 12)
      × (limit ≤ currtemp → currtemp < cfg.tempcrit → check_limits cfg now s currtemp ≡ (s, []))
      × (currtemp < limit → check_limits cfg now s currtemp ≡ (reset_warning_mail s 12, []))
unfolding check_limits
check_limits-hysteresis cfg now s currtemp crit byte info =
    (λ h. ground arith, λ l h. ground arith, λ h. ground arith)
