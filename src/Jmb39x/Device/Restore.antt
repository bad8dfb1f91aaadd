-- ===== src/Jmb39x/Device/Restore.antt =====
-- Opening the device saves the sector that the protocol overwrites, closing it writes it back.
use smartmontools.Common.{ℕ, zero, suc, refl, inl, inr, Bool, true, false, not, none, some}
use smartmontools.Common.{List, [], arith, ltb, get_or, replicate, if-both, if-each}
use smartmontools.Common.{Option-both, Option-each, ◌+◌, ◌<◌, ◌≡◌, ◌⊎◌, ◌!=◌}
use smartmontools.Jmb39x.Sector.{nonempty, jmb_get_sector_type, jmb_set_wakeup_sector}
use smartmontools.Jmb39x.Device.{
  Tunnel, Jmb39x, JmbError, Left, Outcome, ok, failed, thrown, no_device, device_blocked,
  open_failed, read_failed, read_capacity_failed, bad_lba_size, wakeup_write_failed,
  not_zero_filled, block,
}
use smartmontools.Jmb39x.Device.{raw_read, raw_write, run_jmb_command}
use smartmontools.Jmb39x.Device.{close_tunnel, jmb_close, identify_bytes, close_with}
use smartmontools.Jmb39x.Device.{close_tunnel_with, check_identify, identify_disk, write_wakeup}
use smartmontools.Jmb39x.Device.{check_orig_data, read_orig_data, check_lba_size, jmb_open}
use smartmontools.Jmb39x.Device.Session.{run_jmb_command-IsKept}

-- An open device has to write its sector back; a device whose opening failed has not.
unfoldable pub IsOpenResult : {W : Type 0} → Left Outcome W → Type 0
IsOpenResult r = elim r.result [
  | ok ↦ r.dev.orig_write_back ≡ true
  | failed e ↦ r.dev.orig_write_back ≡ false
  | thrown ↦ ⊥
]

failed_open :
    {W : Type 0} (e : JmbError) (d : Jmb39x) (w : W)
    → d.orig_write_back ≡ false
    → IsOpenResult (record { result = failed e; dev = d; world = w })
unfolding IsOpenResult
failed_open e d w h = h

open_done :
    {W : Type 0} (d : Jmb39x) (w : W)
    → d.orig_write_back ≡ true
    → IsOpenResult (record { result = ok; dev = d; world = w })
unfolding IsOpenResult
open_done d w h = h

block_write_back : (d : Jmb39x) → d.orig_write_back ≡ false → (block d).orig_write_back ≡ false
unfolding block
block_write_back d h = h

not_none : (buf : List ℕ) → some buf ≡ none → ⊥
not_none buf e = grind (arith, e)

wakeup_some : (id : ℕ) → id < 4 → jmb_set_wakeup_sector id ≡ none → ⊥
unfolding jmb_set_wakeup_sector
wakeup_some zero h = not_none _
wakeup_some (suc zero) h = not_none _
wakeup_some (suc (suc zero)) h = not_none _
wakeup_some (suc (suc (suc zero))) h = not_none _
wakeup_some (suc (suc (suc (suc id)))) h = absurd (omega arith)

module _ {W : Type 0} (t : Tunnel W) where
  -- What closing leaves: nothing to write back. Where the sector had to be written back, it was
  -- written to its place before the device behind was closed, with success where the close succeeds;
  -- where it had not, nothing was written.
  pub record IsClosed (d : Jmb39x) (w : W) (r : Left Bool W) : Type 0 where
    pub done : r.dev.orig_write_back ≡ false
    pub world_restored :
        d.orig_write_back ≡ true → r.world ≡ (t.close_dev (t.write_lba w d.lba d.orig_data).1).1
    pub world_closed : d.orig_write_back ≡ false → r.world ≡ (t.close_dev w).1
    pub restored :
        r.result ≡ true → d.orig_write_back ≡ true → (t.write_lba w d.lba d.orig_data).0 ≡ true

  pub jmb_close-IsClosed : (d : Jmb39x) (w : W) → IsClosed d w (jmb_close t d w)
  unfolding jmb_close close_tunnel
  jmb_close-IsClosed d w =
      if-each (IsClosed d w) d.orig_write_back
        (λ b. record {
          done = refl;
          world_restored = λ _. refl;
          world_closed = λ f. absurd (grind (arith, b, f));
          restored = λ r _. grind (arith, r);
        })
        (λ b. record {
          done = b;
          world_restored = λ f. absurd (grind (arith, b, f));
          world_closed = λ _. refl;
          restored = λ r f. absurd (grind (arith, b, f));
        })

  close_with-IsOpenResult : (e : JmbError) (d : Jmb39x) (w : W) → IsOpenResult (close_with t e d w)
  unfolding close_with
  close_with-IsOpenResult e d w = failed_open e _ _ (jmb_close-IsClosed d w).done

  close_tunnel_with-IsOpenResult :
      (e : JmbError) (d : Jmb39x) (w : W)
      → d.orig_write_back ≡ false
      → IsOpenResult (close_tunnel_with t e d w)
  unfolding close_tunnel_with close_tunnel
  close_tunnel_with-IsOpenResult e d w h = failed_open e _ _ h

  check_identify-IsOpenResult :
      (d : Jmb39x) (w : W) (result : JmbError ⊎ List ℕ)
      → d.orig_write_back ≡ true
      → IsOpenResult (check_identify t d w result)
  unfolding check_identify
  check_identify-IsOpenResult d w (inl e) h = close_with-IsOpenResult e d w
  check_identify-IsOpenResult d w (inr response) h =
      if-both IsOpenResult (ltb (get_or response 16 0) b' ') (close_with-IsOpenResult no_device d w)
        (open_done d w h)

  write_wakeup-IsOpenResult :
      (n id : ℕ) (d : Jmb39x) (w : W)
      → n + id ≡ 4
      → d.orig_write_back ≡ false
      → IsOpenResult (write_wakeup t n id d w)
  unfolding write_wakeup identify_disk
  write_wakeup-IsOpenResult zero id d w s h =
      let d' : Jmb39x = record d { orig_write_back = true; cmd_id = 1 } in
      let r = run_jmb_command t d' w (identify_bytes d') [] in
      check_identify-IsOpenResult r.dev r.world r.result
        (run_jmb_command-IsKept t d' w (identify_bytes d') []).write_back_kept
  write_wakeup-IsOpenResult (suc n) id d w s h =
      Option-each IsOpenResult (jmb_set_wakeup_sector id)
        (λ none_id. absurd (wakeup_some id (omega arith) none_id))
        (λ sector _.
          let (done, w') = raw_write t d w sector in
          if-both IsOpenResult done (write_wakeup-IsOpenResult n (id + 1) d w' (omega arith) h) (
            close_tunnel_with-IsOpenResult (wakeup_write_failed (id + 1)) (block d) w'
              (block_write_back d h)))

  check_orig_data-IsOpenResult :
      (d : Jmb39x) (w : W) → d.orig_write_back ≡ false → IsOpenResult (check_orig_data t d w)
  unfolding check_orig_data
  check_orig_data-IsOpenResult d w h =
      let st = jmb_get_sector_type d.orig_data in
      let zeroed : Jmb39x = record d { orig_data = replicate 512 0 } in
      let wakeup = write_wakeup-IsOpenResult 4 0 in
      if-both IsOpenResult (nonempty d.orig_data)
        (if-both IsOpenResult (not d.force)
          (close_tunnel_with-IsOpenResult (not_zero_filled st) (block d) w (block_write_back d h))
          (if-both IsOpenResult (st != 0) (wakeup zeroed w refl h) (wakeup d w refl h)))
        (wakeup d w refl h)

  read_orig_data-IsOpenResult :
      (d : Jmb39x) (w : W) → d.orig_write_back ≡ false → IsOpenResult (read_orig_data t d w)
  unfolding read_orig_data
  read_orig_data-IsOpenResult d w h =
      let ((done, buf), w') = raw_read t d w in
      let d' : Jmb39x = record d { orig_data = buf } in
      if-both IsOpenResult done (check_orig_data-IsOpenResult d' w' h)
        (close_tunnel_with-IsOpenResult read_failed d' w' h)

  check_lba_size-IsOpenResult :
      (d : Jmb39x) (w : W) → d.orig_write_back ≡ false → IsOpenResult (check_lba_size t d w)
  unfolding check_lba_size
  check_lba_size-IsOpenResult d w h =
      let (size, w') = t.lba_size w in
      if-both IsOpenResult t.is_scsi
        (Option-both IsOpenResult size (close_tunnel_with-IsOpenResult read_capacity_failed d w' h)
          (λ n.
            if-both IsOpenResult (n != 512) (close_tunnel_with-IsOpenResult (bad_lba_size n) d w' h)
              (read_orig_data-IsOpenResult d w' h)))
        (read_orig_data-IsOpenResult d w h)

  -- Opening a device never fails an assertion. Where it succeeds the saved sector has to be written
  -- back, and where it fails nothing is left to write back.
  pub jmb_open-IsOpenResult : (d : Jmb39x) (w : W) → IsOpenResult (jmb_open t d w)
  unfolding jmb_open
  jmb_open-IsOpenResult d w =
      let d' : Jmb39x = record d { orig_write_back = false } in
      let (opened, w') = t.open_dev w in
      if-both IsOpenResult d.blocked (failed_open device_blocked d' w refl) (
        if-both IsOpenResult opened (check_lba_size-IsOpenResult d' w' refl)
          (failed_open open_failed d' w' refl))
