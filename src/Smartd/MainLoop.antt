-- ===== src/Smartd/MainLoop.antt =====
-- CheckDevicesOnce and write_all_dev_states of src/smartd.cpp. Whether a state file can be created is
-- an argument.
mod Tests
use smartmontools.Common.{ℕ, Bool, false, not, List, [], leb, length, ◌&&◌, ◌||◌, ◌∷◌, ◌++◌}
use smartmontools.Common.{if◌then◌else◌}
use smartmontools.Smartd.State.{DevState, DevConfig}
use smartmontools.Smartd.Mail.{Mail}
use smartmontools.Smartd.OpenDevice.{Checked}
use smartmontools.Smartd.Schedule.{Tm}
use smartmontools.Smartd.AtaCheck.{AtaReplies, ata_check_device}
use smartmontools.Smartd.ScsiCheck.{ScsiReplies, scsi_check_device}
use smartmontools.Smartd.NvmeCheck.{NvmeReplies, nvme_check_device}
use smartmontools.Smartd.Standby.{StandbyState, do_disable_standby_check}
use smartmontools.Smartd.StateFile.Writer.{write_dev_state}

-- The type of a device, with its replies.
pub data Replies : Type 0 where
  ata : AtaReplies → Replies
  scsi : ScsiReplies → Replies
  nvme : NvmeReplies → Replies
  other : Replies

module _ (full_match : List ℕ → Bool) (local_time : ℕ → ℕ → Tm) where
  unfoldable pub check_by_type : DevConfig → ℕ → Bool → Replies → DevState → Checked
  unfolding ata_check_device scsi_check_device nvme_check_device
  check_by_type cfg now allow (ata replies) s =
      ata_check_device full_match local_time cfg now allow replies s
  check_by_type cfg now allow (scsi replies) s =
      scsi_check_device full_match local_time cfg now allow replies s
  check_by_type cfg now allow (nvme replies) s =
      nvme_check_device full_match local_time cfg now allow replies s
  check_by_type cfg now allow other s = (s, [])

  -- One round of the loop over the devices.
  unfoldable pub check_device : DevConfig → ℕ → Bool → Replies → DevState → Checked
  unfolding check_by_type
  check_device cfg now allow replies s =
      if s.skip then (s, []) else check_by_type cfg now allow replies s

  unfoldable pub check_devices :
      ℕ → Bool → List (DevConfig × DevState × Replies) → List (DevConfig × DevState) × List Mail
  unfolding check_device
  check_devices now allow [] = ([], [])
  check_devices now allow ((cfg, s, replies) ∷ rest) =
      let (s', mails) = check_device cfg now allow replies s in
      let (rest', mails') = check_devices now allow rest in ((cfg, s') ∷ rest', mails ++ mails')

  -- CheckDevicesOnce: the devices, the mails, and the state of the system's auto standby.
  module _ {W : Type 0} (disable_system_auto_standby : W → Bool → Bool × W) where
    unfoldable pub check_devices_once :
        ℕ
        → Bool
        → List (DevConfig × DevState × Replies)
        → StandbyState
        → W
        → List (DevConfig × DevState) × List Mail × StandbyState × W
    unfolding check_devices do_disable_standby_check
    check_devices_once now allow devices standby w =
        let (devices', mails) = check_devices now allow devices in
        let (standby', w') =
          do_disable_standby_check disable_system_auto_standby devices' standby w in
        (devices', mails, standby', w')

-- Whether the state of a device is to be written.
unfoldable pub file_to_write : Bool → DevConfig → DevState → Bool
file_to_write write_always cfg s =
    not (leb (length cfg.state_file) 0) && (write_always || s.must_write)

-- One round of write_all_dev_states: the state, and the path and lines of the file.
unfoldable pub write_state :
    Bool → Bool → DevConfig → DevState → DevState × List (List ℕ × List (List ℕ))
unfolding file_to_write write_dev_state
write_state write_always write_ok cfg s =
    if file_to_write write_always cfg s && write_ok
    then (record s { must_write = false }, (cfg.state_file, write_dev_state s) ∷ [])
    else (s, [])

-- write_all_dev_states, with the results of creating the files.
unfoldable pub write_all_dev_states :
    Bool
    → List (DevConfig × DevState × Bool)
    → List (DevConfig × DevState) × List (List ℕ × List (List ℕ))
unfolding write_state
write_all_dev_states write_always [] = ([], [])
write_all_dev_states write_always ((cfg, s, write_ok) ∷ rest) =
    let (s', files) = write_state write_always write_ok cfg s in
    let (rest', files') = write_all_dev_states write_always rest in
    ((cfg, s') ∷ rest', files ++ files')
