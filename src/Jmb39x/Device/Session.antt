-- ===== src/Jmb39x/Device/Session.antt =====
-- What the members keep from the opening of the device to its closing.
use smartmontools.Common.{ℕ, bit_and, refl, inl, inr, true, not, List, get_or, u32, if-both}
use smartmontools.Common.{Option-both, ◌+◌, ◌≡◌, ◌∙◌, ◌⊎◌, ◌==◌, ◌!=◌}
use smartmontools.Jmb39x.Protocol.{AtaCmdIn, Direction, ata_cmd_is_supported}
use smartmontools.Jmb39x.Protocol.{is_supported_by_jmb, pass_through_bytes}
use smartmontools.Jmb39x.Device.{Tunnel, Jmb39x, JmbError, Left, block, run_jmb_command}
use smartmontools.Jmb39x.Device.{
  data_to_send, take_data, finish_command, run_ata_command, unchanged,
}
use smartmontools.Jmb39x.Device.{ata_pass_through}
use smartmontools.Jmb39x.Device.Command.{Answered, run_jmb_command-Answered}

-- The saved sector, where it belongs and whether it has to be written back are the same; a blocked
-- device is still blocked.
pub record IsKept (d d' : Jmb39x) : Type 0 where
  pub lba_kept : d'.lba ≡ d.lba
  pub orig_data_kept : d'.orig_data ≡ d.orig_data
  pub write_back_kept : d'.orig_write_back ≡ d.orig_write_back
  pub still_blocked : d.blocked ≡ true → d'.blocked ≡ true

pub same-IsKept : (d : Jmb39x) → IsKept d d
same-IsKept d = record {
  lba_kept = refl;
  orig_data_kept = refl;
  write_back_kept = refl;
  still_blocked = λ b. b;
}

block-IsKept : (d d' : Jmb39x) → IsKept d d' → IsKept d (block d')
unfolding block
block-IsKept d d' k = record {
  lba_kept = k.lba_kept;
  orig_data_kept = k.orig_data_kept;
  write_back_kept = k.write_back_kept;
  still_blocked = λ b. refl;
}

counted-IsKept : (d : Jmb39x) (n : ℕ) → IsKept d (record d { cmd_id = n })
counted-IsKept d n = record {
  lba_kept = refl;
  orig_data_kept = refl;
  write_back_kept = refl;
  still_blocked = λ b. b;
}

pub IsKept-trans : (d d' d'' : Jmb39x) → IsKept d d' → IsKept d' d'' → IsKept d d''
IsKept-trans d d' d'' k l = record {
  lba_kept = l.lba_kept ∙ k.lba_kept;
  orig_data_kept = l.orig_data_kept ∙ k.orig_data_kept;
  write_back_kept = l.write_back_kept ∙ k.write_back_kept;
  still_blocked = λ b. l.still_blocked (k.still_blocked b);
}

-- What a call leaves keeps them.
pub Keeps : {A W : Type 0} → Jmb39x → Left A W → Type 0
Keeps d r = IsKept d r.dev

keeps : {A W : Type 0} (d : Jmb39x) (r : Left A W) → IsKept d r.dev → Keeps d r
unfolding Keeps
keeps d r k = k

pub Keeps-IsKept : {A W : Type 0} (d : Jmb39x) (r : Left A W) → Keeps d r → IsKept d r.dev
unfolding Keeps
Keeps-IsKept d r k = k

module _ {W : Type 0} (t : Tunnel W) where
  Answered-IsKept :
      (d d' : Jmb39x) (w : W) (cmd data_out : List ℕ) (result : JmbError ⊎ List ℕ)
      → Answered d cmd data_out (record { result = result; dev = d'; world = w })
      → IsKept d d'
  unfolding Answered
  Answered-IsKept d d' w cmd data_out (inl e) h = rw h (block-IsKept d d (same-IsKept d))
  Answered-IsKept d d' w cmd data_out (inr a) h = rw h.1 (counted-IsKept d (u32 (d.cmd_id + 1)))

  pub run_jmb_command-IsKept :
      (d : Jmb39x) (w : W) (cmd data_out : List ℕ)
      → IsKept d (run_jmb_command t d w cmd data_out).dev
  run_jmb_command-IsKept d w cmd data_out =
      let r = run_jmb_command t d w cmd data_out in
      Answered-IsKept d r.dev r.world cmd data_out r.result
        (run_jmb_command-Answered t d w cmd data_out)

  take_data-Keeps :
      (c : AtaCmdIn) (dir : Direction) (d d' : Jmb39x) (w : W) (response : List ℕ)
      → IsKept d d'
      → Keeps d (take_data t c dir d' w response)
  unfolding take_data
  take_data-Keeps c Direction.data_in d d' w response k =
      if-both (Keeps d) (c.size != 512) (keeps d _ k) (keeps d _ k)
  take_data-Keeps c Direction.no_data d d' w response k = keeps d _ k
  take_data-Keeps c Direction.data_out d d' w response k = keeps d _ k
  take_data-Keeps c Direction.invalid d d' w response k = keeps d _ k

  finish_command-Keeps :
      (c : AtaCmdIn) (d d' : Jmb39x) (w : W) (result : JmbError ⊎ List ℕ)
      → IsKept d d'
      → Keeps d (finish_command t c d' w result)
  unfolding finish_command
  finish_command-Keeps c d d' w (inl e) k = keeps d _ k
  finish_command-Keeps c d d' w (inr response) k =
      let status = get_or response 31 0 in
      if-both (Keeps d) (status == 0) (keeps d _ (block-IsKept d d' k)) (
        if-both (Keeps d) (bit_and status 0xc1 != 0x40) (keeps d _ k)
          (take_data-Keeps c c.direction d d' w response k))

  -- An ATA command keeps the saved sector, where it belongs and whether it has to be written back,
  -- and it does not unblock a blocked device.
  pub ata_pass_through-Keeps :
      (c : AtaCmdIn) (d : Jmb39x) (w : W) → Keeps d (ata_pass_through t c d w)
  unfolding ata_pass_through unchanged run_ata_command
  ata_pass_through-Keeps c d w =
      let same = same-IsKept d in
      let r = run_jmb_command t d w (pass_through_bytes d.port c) (data_to_send c) in
      if-both (Keeps d) (not (t.is_open w)) (keeps d _ same) (
        if-both (Keeps d) d.blocked (keeps d _ same) (
          Option-both (Keeps d) (ata_cmd_is_supported c 0x21)
            (if-both (Keeps d) (is_supported_by_jmb c.in_regs == 0) (keeps d _ same)
              (finish_command-Keeps c d r.dev r.world r.result (run_jmb_command-IsKept d w _ _)))
            (λ e. keeps d _ same)))
