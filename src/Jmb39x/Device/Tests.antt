-- ===== src/Jmb39x/Device/Tests.antt =====
-- A controller with one disk, and a session on it.
use smartmontools.Common.{ℕ, refl, true, false, some, List, [], set, replicate, same_bytes}
use smartmontools.Common.{◌≡◌, ◌∷◌, if◌then◌else◌}
use smartmontools.Jmb39x.Sector.{jmb_xor, jmb_crc, jmb_put_crc, jmb_check_crc, jmb_get_crc}
use smartmontools.Jmb39x.Sector.{jmb_set_request_sector, jmb_set_wakeup_sector}
use smartmontools.Jmb39x.Sector.{get_unaligned_le32, nonempty}
use smartmontools.Jmb39x.Protocol.{AtaInRegs, AtaCmdIn, Direction, ata_cmd_is_supported}
use smartmontools.Jmb39x.Protocol.{is_supported_by_jmb, pass_through_bytes}
use smartmontools.Jmb39x.Device.{Tunnel, Jmb39x, Left, Outcome, ok}
use smartmontools.Jmb39x.Device.{jmb_open, jmb_close, ata_pass_through, run_jmb_command}
use smartmontools.Jmb39x.Device.{response_error, read_response, check_response}
use smartmontools.Jmb39x.Device.Command.{Answered, run_jmb_command-Answered}
use smartmontools.Jmb39x.Device.Session.{Keeps, ata_pass_through-Keeps}
use smartmontools.Jmb39x.Device.Restore.{IsOpenResult, jmb_open-IsOpenResult}
use smartmontools.Jmb39x.Device.WriteBack.{pass_all, session-restores}

-- The controller reads a request as its answer: a model string, and a good status.
abbrev answer : List ℕ → List ℕ
answer s =
    let request = jmb_xor s in
    let reply = set (set request 16 b'A') 31 0x40 in
    if jmb_check_crc request then jmb_xor (jmb_put_crc reply (jmb_crc reply)) else s

-- The world is the sector.
abbrev controller : Tunnel (List ℕ)
controller = record {
  is_scsi = false;
  open_dev = λ w. (true, w);
  close_dev = λ w. (true, w);
  is_open = λ w. true;
  lba_size = λ w. (some 512, w);
  read_lba = λ w lba. ((true, answer w), w);
  write_lba = λ w lba buf. (true, buf);
}

abbrev zero_sector : List ℕ
zero_sector = replicate 512 0

abbrev dev : Jmb39x
dev = record {
  version = 0;
  port = 1;
  lba = 33;
  force = false;
  blocked = false;
  orig_write_back = false;
  cmd_id = 0;
  orig_data = zero_sector;
}

abbrev regs : AtaInRegs
regs = record {
  features = 0;
  sector_count = 1;
  lba_low = 0;
  lba_mid = 0;
  lba_high = 0;
  command = 0xec;
}

abbrev identify : AtaCmdIn
identify = record {
  in_regs = regs;
  prev = record regs { sector_count = 0; command = 0 };
  prev_is_set = false;
  out_needed = false;
  direction = Direction.data_in;
  buffer = some zero_sector;
  size = 512;
}

opened_ok : (jmb_open controller dev zero_sector).result ≡ ok
unfolding jmb_open jmb_check_crc jmb_get_crc jmb_crc jmb_xor get_unaligned_le32
    jmb_set_wakeup_sector jmb_set_request_sector jmb_put_crc nonempty response_error run_jmb_command
    read_response check_response same_bytes
opened_ok = refl

abbrev opened : Left Outcome (List ℕ)
opened = jmb_open controller dev zero_sector

closed_ok :
    let (d, w) = pass_all controller (identify ∷ []) opened.dev opened.world in
    (jmb_close controller d w).result ≡ true
unfolding pass_all jmb_close jmb_open ata_pass_through jmb_check_crc jmb_get_crc jmb_crc jmb_xor
    get_unaligned_le32 jmb_set_wakeup_sector jmb_set_request_sector jmb_put_crc nonempty
    response_error run_jmb_command read_response check_response same_bytes ata_cmd_is_supported
    is_supported_by_jmb pass_through_bytes
closed_ok = refl

session-restores_example :
    let (d, w) = pass_all controller (identify ∷ []) opened.dev opened.world in
    (jmb_close controller d w).world ≡ opened.dev.orig_data
session-restores_example =
    session-restores controller (λ w lba. w) (λ w lba buf h. refl) (λ w lba. refl) (identify ∷ [])
      dev zero_sector opened_ok closed_ok

run_jmb_command-Answered_example :
    Answered dev (1 ∷ 2 ∷ []) [] (run_jmb_command controller dev zero_sector (1 ∷ 2 ∷ []) [])
run_jmb_command-Answered_example =
    run_jmb_command-Answered controller dev zero_sector (1 ∷ 2 ∷ []) []

ata_pass_through-Keeps_example :
    Keeps opened.dev (ata_pass_through controller identify opened.dev opened.world)
ata_pass_through-Keeps_example = ata_pass_through-Keeps controller identify opened.dev opened.world

jmb_open-IsOpenResult_example : IsOpenResult (jmb_open controller dev zero_sector)
jmb_open-IsOpenResult_example = jmb_open-IsOpenResult controller dev zero_sector
