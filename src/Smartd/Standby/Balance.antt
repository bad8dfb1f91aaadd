-- ===== src/Smartd/Standby/Balance.antt =====
-- The state tells whether the auto standby of the system is disabled.
use smartmontools.Common.{refl, Bool, true, false, List, ◌≡◌, if◌then◌else◌}
use smartmontools.Smartd.State.{DevState, DevConfig}
use smartmontools.Smartd.Standby.{StandbyState, any_running, update_standby}
use smartmontools.Smartd.Standby.{do_disable_standby_check}

module _ {W : Type 0} (call : W → Bool → Bool × W) (is_off : W → Bool) where
  -- Auto standby is not disabled where the state says so, and it is where the state says that.
  unfoldable pub Agrees : StandbyState × W → Type 0
  Agrees (state, w) = elim state [
    | StandbyState.not_used ↦ is_off w ≡ false
    | StandbyState.not_disabled ↦ is_off w ≡ false
    | StandbyState.rejected ↦ Unit
    | StandbyState.disabled ↦ is_off w ≡ true
  ]

  disable-Agrees :
      (w : W) (b : Bool)
      → (b ≡ true → is_off (call w true).1 ≡ true)
      → Agrees ((if b then StandbyState.disabled else StandbyState.rejected), (call w true).1)
  unfolding Agrees
  disable-Agrees w true e = e refl
  disable-Agrees w false e = tt

  update_standby-Agrees :
      (running : Bool) (state : StandbyState) (w : W)
      → ((w : W) (b : Bool) → (call w b).0 ≡ true → is_off (call w b).1 ≡ b)
      → ((w : W) → (call w false).0 ≡ true)
      → Agrees (state, w)
      → Agrees (update_standby call running state w)
  unfolding update_standby Agrees
  update_standby-Agrees running StandbyState.not_used w accepted enables h = h
  update_standby-Agrees false StandbyState.not_disabled w accepted enables h = h
  update_standby-Agrees false StandbyState.rejected w accepted enables h =
      accepted w false (enables w)
  update_standby-Agrees false StandbyState.disabled w accepted enables h =
      accepted w false (enables w)
  update_standby-Agrees true StandbyState.not_disabled w accepted enables h =
      disable-Agrees w (call w true).0 (accepted w true)
  update_standby-Agrees true StandbyState.rejected w accepted enables h =
      disable-Agrees w (call w true).0 (accepted w true)
  update_standby-Agrees true StandbyState.disabled w accepted enables h =
      disable-Agrees w (call w true).0 (accepted w true)

  -- Where the system does what it accepts and never refuses to enable auto standby, a check of any
  -- devices keeps the agreement: auto standby is not disabled where the state is not used or not
  -- disabled, and it is disabled where the state says so.
  pub do_disable_standby_check-Agrees :
      (devices : List (DevConfig × DevState)) (state : StandbyState) (w : W)
      → ((w : W) (b : Bool) → (call w b).0 ≡ true → is_off (call w b).1 ≡ b)
      → ((w : W) → (call w false).0 ≡ true)
      → Agrees (state, w)
      → Agrees (do_disable_standby_check call devices state w)
  unfolding do_disable_standby_check
  do_disable_standby_check-Agrees devices state w =
      update_standby-Agrees (any_running devices) state w
