-- ===== src/Jmb39x/Device.antt =====
-- class jmb39x_device of lib/dev_jmb39x_raid.cpp: opening the device saves the sector that the
-- protocol overwrites, closing it writes the sector back. The device that is tunnelled through is a
-- parameter: an interface over the states W of the world behind it.
pub mod Command
pub mod Session
pub mod Restore
pub mod WriteBack
mod Tests
use smartmontools.Common.{ℕ, zero, suc, bit_and, inl, inr, Bool, true, false, not, Option}
use smartmontools.Common.{none, some, List, [], ltb, get_or, replicate, take, same_bytes}
use smartmontools.Common.{u32, ◌+◌, ◌⊎◌, ◌&&◌, ◌∷◌, ◌==◌, ◌!=◌, if◌then◌else◌}
use smartmontools.Jmb39x.Sector.{jmb_xor, jmb_crc, jmb_put_crc, jmb_check_crc, write_at, nonempty}
use smartmontools.Jmb39x.Sector.{jmb_set_wakeup_sector, jmb_set_request_sector, jmb_get_sector_type}
use smartmontools.Jmb39x.Protocol.{AtaCmdIn, Direction, CmdError, ata_cmd_is_supported}
use smartmontools.Jmb39x.Protocol.{is_supported_by_jmb, pass_through_bytes, copy_data_in}

-- The operations of the ATA or SCSI device behind the tunnel. A read gives the buffer as it is left,
-- also when it fails; `lba_size` is `none` where READ CAPACITY fails.
pub record Tunnel (W : Type 0) : Type 0 where
  pub is_scsi : Bool
  pub open_dev : W → Bool × W
  pub close_dev : W → Bool × W
  pub is_open : W → Bool
  pub lba_size : W → Option ℕ × W
  pub read_lba : W → ℕ → (Bool × List ℕ) × W
  pub write_lba : W → ℕ → List ℕ → Bool × W

-- The members of the class.
pub record Jmb39x : Type 0 where
  pub version : ℕ
  pub port : ℕ
  pub lba : ℕ
  pub force : Bool
  pub blocked : Bool
  pub orig_write_back : Bool
  pub cmd_id : ℕ
  pub orig_data : List ℕ

pub data JmbError : Type 0 where
  device_blocked : JmbError
  open_failed : JmbError
  read_capacity_failed : JmbError
  bad_lba_size : ℕ → JmbError
  read_failed : JmbError
  write_failed : JmbError
  not_zero_filled : ℕ → JmbError
  wakeup_write_failed : ℕ → JmbError
  no_response : JmbError
  crc_error : JmbError
  wakeup_response : JmbError
  invalid_header : JmbError
  no_device : JmbError
  cmd_refused : CmdError → JmbError
  not_supported : JmbError
  status_error : ℕ → JmbError

-- What a call leaves: its result, the members and the world.
pub record Left (A W : Type 0) : Type 0 where
  pub result : A
  pub dev : Jmb39x
  pub world : W

-- The result of a call that returns bool or throws: `jmbassert` throws.
pub data Outcome : Type 0 where
  ok : Outcome
  failed : JmbError → Outcome
  thrown : Outcome

unfoldable pub new_device : ℕ → ℕ → ℕ → Bool → Jmb39x
new_device version port lba force = record {
  version = version;
  port = port;
  lba = lba;
  force = force;
  blocked = false;
  orig_write_back = false;
  cmd_id = 0;
  orig_data = replicate 512 0;
}

unfoldable pub block : Jmb39x → Jmb39x
block d = record d { blocked = true }

-- The request with the data of a DATA OUT command at offset 32, at most 476 bytes of it.
unfoldable pub request_sector : Jmb39x → List ℕ → List ℕ → List ℕ
request_sector d cmd data_out =
    let request = jmb_set_request_sector d.version d.cmd_id cmd in
    elim data_out as (λ x. List ℕ) [
      | [] ↦ request
      | b ∷ bs ↦
          let with_data = write_at 32 (take 476 data_out) request in
          jmb_put_crc with_data (jmb_crc with_data)
    ]

-- The checks of a response that was read, in their order; `none` is that all pass.
unfoldable pub response_error : List ℕ → List ℕ → Option JmbError
response_error request response =
    if same_bytes request response
    then some no_response
    else if not (jmb_check_crc response)
    then some (if not (jmb_check_crc (jmb_xor response)) then crc_error else wakeup_response)
    else if not (same_bytes (take 8 request) (take 8 response))
    then some invalid_header
    else none

-- The command of the JMB identify disk request.
unfoldable pub identify_bytes : Jmb39x → List ℕ
identify_bytes d =
    let b : ℕ = if d.version != 1 then 0x02 else 0x01 in
    0x00 ∷ b ∷ b ∷ 0xff ∷ d.port ∷ 0x00 ∷ 0x00 ∷ 0x00 ∷ d.port ∷ replicate 15 0

-- The data of a DATA OUT command; no other command has data for the request.
unfoldable pub data_to_send : AtaCmdIn → List ℕ
data_to_send c = elim c.direction [
  | Direction.data_out ↦ elim c.buffer [ none ↦ [] | some buf ↦ buf ]
  | _ ↦ []
]

module _ {W : Type 0} (t : Tunnel W) where
  -- raw_read and raw_write
  unfoldable pub raw_read : Jmb39x → W → (Bool × List ℕ) × W
  raw_read d w = t.read_lba w d.lba

  unfoldable pub raw_write : Jmb39x → W → List ℕ → Bool × W
  raw_write d w buf = t.write_lba w d.lba buf

  unfoldable pub judged : Jmb39x → W → List ℕ → Option JmbError → Left (JmbError ⊎ List ℕ) W
  unfolding block
  judged d w response (some e) = record { result = inl e; dev = block d; world = w }
  judged d w response none = record {
    result = inr response;
    dev = record d { cmd_id = u32 (d.cmd_id + 1) };
    world = w;
  }

  unfoldable pub check_response : Jmb39x → W → List ℕ → List ℕ → Left (JmbError ⊎ List ℕ) W
  unfolding judged
  check_response d w request response = judged d w response (response_error request response)

  unfoldable pub read_response : Jmb39x → W → List ℕ → Left (JmbError ⊎ List ℕ) W
  unfolding block raw_read
  read_response d w request =
      let ((done, response), w') = raw_read d w in
      if done
      then check_response d w' request (jmb_xor response)
      else record { result = inl read_failed; dev = block d; world = w' }

  -- run_jmb_command: the response, or the error that blocks the device.
  unfoldable pub run_jmb_command : Jmb39x → W → List ℕ → List ℕ → Left (JmbError ⊎ List ℕ) W
  unfolding block raw_write request_sector
  run_jmb_command d w cmd data_out =
      let request = request_sector d cmd data_out in
      let (done, w') = raw_write d w (jmb_xor request) in
      if done
      then read_response d w' request
      else record { result = inl write_failed; dev = block d; world = w' }

  unfoldable pub restore_orig_data : Jmb39x → W → Left Bool W
  unfolding block raw_write
  restore_orig_data d w =
      let (done, w') = raw_write d w d.orig_data in
      record { result = done; dev = if done then d else block d; world = w' }

  unfoldable pub close_tunnel : Jmb39x → W → Left Bool W
  close_tunnel d w =
      let (closed, w') = t.close_dev w in record { result = closed; dev = d; world = w' }

  -- close()
  unfoldable pub jmb_close : Jmb39x → W → Left Bool W
  unfolding restore_orig_data close_tunnel
  jmb_close d w =
      if d.orig_write_back
      then (let r = restore_orig_data d w in
          let c = close_tunnel (record r.dev { orig_write_back = false }) r.world in
          record { result = c.result && r.result; dev = c.dev; world = c.world })
      else close_tunnel d w

  -- A failed open closes the device again.
  unfoldable pub close_with : JmbError → Jmb39x → W → Left Outcome W
  unfolding jmb_close
  close_with e d w =
      let c = jmb_close d w in record { result = failed e; dev = c.dev; world = c.world }

  unfoldable pub close_tunnel_with : JmbError → Jmb39x → W → Left Outcome W
  unfolding close_tunnel
  close_tunnel_with e d w =
      let c = close_tunnel d w in record { result = failed e; dev = c.dev; world = c.world }

  -- The check for a device model string.
  unfoldable pub check_identify : Jmb39x → W → JmbError ⊎ List ℕ → Left Outcome W
  unfolding close_with
  check_identify d w (inl e) = close_with e d w
  check_identify d w (inr response) =
      if ltb (get_or response 16 0) b' '
      then close_with no_device d w
      else record { result = ok; dev = d; world = w }

  unfoldable pub identify_disk : Jmb39x → W → Left Outcome W
  unfolding run_jmb_command identify_bytes check_identify
  identify_disk d w =
      let r = run_jmb_command d w (identify_bytes d) [] in check_identify r.dev r.world r.result

  -- The wakeup sectors from `id` on, n of them, then the command sequence.
  unfoldable pub write_wakeup : ℕ → ℕ → Jmb39x → W → Left Outcome W
  unfolding raw_write block identify_disk close_tunnel_with
  write_wakeup zero id d w = identify_disk (record d { orig_write_back = true; cmd_id = 1 }) w
  write_wakeup (suc n) id d w = elim (jmb_set_wakeup_sector id) [
    | none ↦ record { result = thrown; dev = d; world = w }
    | some sector ↦
        let (done, w') = raw_write d w sector in
        let rest = write_wakeup n (id + 1) d w' in
        if done then rest else close_tunnel_with (wakeup_write_failed (id + 1)) (block d) w'
  ]

  -- The check of the original data.
  unfoldable pub check_orig_data : Jmb39x → W → Left Outcome W
  unfolding write_wakeup close_tunnel_with block
  check_orig_data d w =
      if nonempty d.orig_data
      then (let st = jmb_get_sector_type d.orig_data in
          if not d.force
          then close_tunnel_with (not_zero_filled st) (block d) w
          else if st != 0
          then write_wakeup 4 0 (record d { orig_data = replicate 512 0 }) w
          else write_wakeup 4 0 d w)
      else write_wakeup 4 0 d w

  unfoldable pub read_orig_data : Jmb39x → W → Left Outcome W
  unfolding raw_read check_orig_data close_tunnel_with
  read_orig_data d w =
      let ((done, buf), w') = raw_read d w in
      let d' : Jmb39x = record d { orig_data = buf } in
      if done then check_orig_data d' w' else close_tunnel_with read_failed d' w'

  unfoldable pub check_lba_size : Jmb39x → W → Left Outcome W
  unfolding read_orig_data close_tunnel_with
  check_lba_size d w =
      if t.is_scsi
      then (let (size, w') = t.lba_size w in
          elim size [
            | none ↦ close_tunnel_with read_capacity_failed d w'
            | some n ↦
                if n != 512 then close_tunnel_with (bad_lba_size n) d w' else read_orig_data d w'
          ])
      else read_orig_data d w

  -- open()
  unfoldable pub jmb_open : Jmb39x → W → Left Outcome W
  unfolding check_lba_size
  jmb_open d w =
      let d' : Jmb39x = record d { orig_write_back = false } in
      if d.blocked
      then record { result = failed device_blocked; dev = d'; world = w }
      else (let (opened, w') = t.open_dev w in
          if opened
          then check_lba_size d' w'
          else record { result = failed open_failed; dev = d'; world = w' })

  -- What is left of a command that succeeded: the data of a DATA IN command.
  unfoldable pub take_data :
      AtaCmdIn → Direction → Jmb39x → W → List ℕ → Left (Outcome × Option (List ℕ)) W
  take_data c Direction.data_in d w response =
      if c.size != 512
      then record { result = (thrown, c.buffer); dev = d; world = w }
      else record { result = (ok, some (copy_data_in c.in_regs response)); dev = d; world = w }
  take_data c _ d w response = record { result = (ok, c.buffer); dev = d; world = w }

  -- The check of the status register of a command that was run.
  unfoldable pub finish_command :
      AtaCmdIn → Jmb39x → W → JmbError ⊎ List ℕ → Left (Outcome × Option (List ℕ)) W
  unfolding block take_data
  finish_command c d w (inl e) = record { result = (failed e, c.buffer); dev = d; world = w }
  finish_command c d w (inr response) =
      let status = get_or response 31 0 in
      if status == 0x00
      then record { result = (failed no_device, c.buffer); dev = block d; world = w }
      else if bit_and status 0xc1 != 0x40
      then record { result = (failed (status_error status), c.buffer); dev = d; world = w }
      else take_data c c.direction d w response

  unfoldable pub run_ata_command : AtaCmdIn → Jmb39x → W → Left (Outcome × Option (List ℕ)) W
  unfolding run_jmb_command finish_command data_to_send
  run_ata_command c d w =
      let r = run_jmb_command d w (pass_through_bytes d.port c) (data_to_send c) in
      finish_command c r.dev r.world r.result

  -- A command that is refused before any I/O.
  unfoldable pub unchanged : AtaCmdIn → Outcome → Jmb39x → W → Left (Outcome × Option (List ℕ)) W
  unchanged c o d w = record { result = (o, c.buffer); dev = d; world = w }

  -- ata_pass_through: the outcome and the buffer. The flags are supports_48bit and supports_data_out.
  unfoldable pub ata_pass_through : AtaCmdIn → Jmb39x → W → Left (Outcome × Option (List ℕ)) W
  unfolding run_ata_command unchanged
  ata_pass_through c d w =
      if not (t.is_open w)
      then unchanged c thrown d w
      else if d.blocked
      then unchanged c (failed device_blocked) d w
      else elim (ata_cmd_is_supported c 0x21) [
        | some e ↦ unchanged c (failed (cmd_refused e)) d w
        | none ↦
            if is_supported_by_jmb c.in_regs == 0
            then unchanged c (failed not_supported) d w
            else run_ata_command c d w
      ]
