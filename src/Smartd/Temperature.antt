-- ===== src/Smartd/Temperature.antt =====
-- CheckTemperature of src/smartd.cpp. Temperatures are unsigned chars; the time is an argument.
pub mod Limits
use smartmontools.Common.{ℕ, Bool, true, false, not, List, [], ltb, leb, u8, ◌+◌, ◌-◌, ◌&&◌}
use smartmontools.Common.{◌||◌, ◌==◌, ◌!=◌, if◌then◌else◌}
use smartmontools.Smartd.State.{DevState, DevConfig}
use smartmontools.Smartd.Mail.{Mail, mail_warning, reset_warning_mail}

abbrev pub default_checktime : ℕ
default_checktime = 1800

-- The update of the maximum.
unfoldable pub update_tempmax : DevState → ℕ → DevState
update_tempmax s currtemp =
    if ltb s.tempmax currtemp then record s { tempmax = currtemp; must_write = true } else s

-- The first check: the tracking of the minimum starts about half an hour later.
unfoldable pub first_temperature_check : DevState → ℕ → ℕ → DevState
first_temperature_check s currtemp now =
    let delay : ℕ =
      if s.tempmin == 0 || ltb currtemp s.tempmin
      then now + default_checktime - 60
      else s.tempmin_delay in
    record s { tempmin_delay = delay; temperature = currtemp }

-- The end of that delay.
unfoldable pub end_tempmin_delay : DevState → ℕ → ℕ → DevState
end_tempmin_delay s currtemp now =
    if s.tempmin_delay != 0
      && ((s.tempmin != 0 && ltb s.tempmin currtemp) || leb s.tempmin_delay now)
    then record s { tempmin_delay = 0; tempmin = if s.tempmin == 0 then 255 else s.tempmin }
    else s

-- The update of the minimum, and whether it is marked as a change.
unfoldable pub update_tempmin : DevState → ℕ → DevState × Bool
update_tempmin s currtemp =
    if s.tempmin_delay == 0 && ltb currtemp s.tempmin
    then (record s { tempmin = currtemp; must_write = true }, currtemp != s.temperature)
    else (s, false)

-- The check of a change by at least `tempdiff`; `maxchg` tells that the maximum has changed.
unfoldable pub track_temperature : DevConfig → DevState → ℕ → Bool → Bool → DevState
track_temperature cfg s currtemp minchg maxchg =
    let difference = currtemp - s.temperature + (s.temperature - currtemp) in
    if cfg.tempdiff != 0 && (minchg || maxchg || leb cfg.tempdiff difference)
    then record s { temperature = currtemp }
    else s

-- The minimum and the change of a later check.
unfoldable pub later_temperature_check : DevConfig → DevState → ℕ → ℕ → Bool → DevState
unfolding end_tempmin_delay update_tempmin track_temperature
later_temperature_check cfg s currtemp now maxchg =
    let (s', minchg) = update_tempmin (end_tempmin_delay s currtemp now) currtemp in
    track_temperature cfg s' currtemp minchg maxchg

-- The check of the limits; `tempcrit - 5` is an unsigned char.
unfoldable pub check_limits : DevConfig → ℕ → DevState → ℕ → DevState × List Mail
unfolding mail_warning reset_warning_mail
check_limits cfg now s currtemp =
    if cfg.tempcrit != 0 && leb cfg.tempcrit currtemp
    then mail_warning cfg now s 12
    else if cfg.tempinfo != 0 && leb cfg.tempinfo currtemp
    then (s, [])
    else if cfg.tempcrit != 0
    then (let limit : ℕ = if cfg.tempinfo != 0 then cfg.tempinfo else u8 (cfg.tempcrit + 256 - 5) in
        if ltb currtemp limit then (reset_warning_mail s 12, []) else (s, []))
    else (s, [])

-- The state once minimum, maximum and last temperature are recorded.
unfoldable pub record_temperature : DevConfig → ℕ → DevState → ℕ → DevState
unfolding update_tempmax first_temperature_check later_temperature_check
record_temperature cfg now s currtemp =
    let s' = update_tempmax s currtemp in
    let maxchg = ltb s.tempmax currtemp && s.tempmax != 0 in
    if s.temperature == 0
    then first_temperature_check s' currtemp now
    else later_temperature_check cfg s' currtemp now maxchg

-- CheckTemperature
unfoldable pub check_temperature : DevConfig → ℕ → DevState → ℕ → DevState × List Mail
unfolding record_temperature check_limits
check_temperature cfg now s currtemp =
    if not (ltb 0 currtemp && ltb currtemp 255)
    then (s, [])
    else check_limits cfg now (record_temperature cfg now s currtemp) currtemp
