-- ===== src/Smartd/Standby.antt =====
-- The disabling of the system's auto standby in src/smartd.cpp: init_disable_standby_check and
-- do_disable_standby_check. The system call that may reject a change is a parameter, over the states
-- of the system.
pub mod Balance
use smartmontools.Common.{ℕ, bit_and, Bool, true, false, List, [], ◌&&◌, ◌||◌, ◌∷◌, ◌==◌}
use smartmontools.Common.{◌>>◌, if◌then◌else◌}
use smartmontools.Smartd.State.{DevState, DevConfig}

-- standby_disable_state: 0, 1, 2 and 3 in their order.
pub data StandbyState : Type 0 where
  not_used not_disabled rejected disabled : StandbyState

unfoldable pub is_offl_coll_in_progress : ℕ → Bool
is_offl_coll_in_progress status = bit_and status 0x7f == 0x03

unfoldable pub is_self_test_in_progress : ℕ → Bool
is_self_test_in_progress status = status >> 4 == 0xf

-- Whether a self-test of a device keeps the system awake.
unfoldable pub device_running : DevConfig → DevState → Bool
unfolding is_offl_coll_in_progress is_self_test_in_progress
device_running cfg s =
    (cfg.offlinests_ns
      && (s.offline_started || is_offl_coll_in_progress s.offline_data_collection_status))
    || (cfg.selfteststs_ns
        && (s.selftest_started || is_self_test_in_progress s.self_test_exec_status))

unfoldable pub any_running : List (DevConfig × DevState) → Bool
unfolding device_running
any_running [] = false
any_running ((cfg, s) ∷ rest) = if device_running cfg s then true else any_running rest

-- Whether one of the devices has a ',ns' directive.
unfoldable pub any_ns : List DevConfig → Bool
any_ns [] = false
any_ns (cfg ∷ rest) = if cfg.offlinests_ns || cfg.selfteststs_ns then true else any_ns rest

unfoldable pub is_disabled_state : StandbyState → Bool
is_disabled_state StandbyState.disabled = true
is_disabled_state _ = false

module _ {W : Type 0} (disable_system_auto_standby : W → Bool → Bool × W) where
  -- init_disable_standby_check
  unfoldable pub init_disable_standby_check : List DevConfig → StandbyState → W → StandbyState × W
  unfolding any_ns is_disabled_state
  init_disable_standby_check configs state w =
      let (done, w') = disable_system_auto_standby w false in
      if any_ns configs || is_disabled_state state
      then (if any_ns configs && done then StandbyState.not_disabled else StandbyState.not_used, w')
      else (StandbyState.not_used, w)

  -- What do_disable_standby_check does in a state in use.
  unfoldable pub update_standby : Bool → StandbyState → W → StandbyState × W
  update_standby running StandbyState.not_used w = (StandbyState.not_used, w)
  update_standby false StandbyState.not_disabled w = (StandbyState.not_disabled, w)
  update_standby false StandbyState.rejected w =
      (StandbyState.not_disabled, (disable_system_auto_standby w false).1)
  update_standby false StandbyState.disabled w =
      (StandbyState.not_disabled, (disable_system_auto_standby w false).1)
  update_standby true _ w =
      let (done, w') = disable_system_auto_standby w true in
      (if done then StandbyState.disabled else StandbyState.rejected, w')

  -- do_disable_standby_check
  unfoldable pub do_disable_standby_check :
      List (DevConfig × DevState) → StandbyState → W → StandbyState × W
  unfolding any_running update_standby
  do_disable_standby_check devices state w = update_standby (any_running devices) state w
