-- ===== src/Jmb39x/Device/WriteBack.antt =====
-- A whole session on the device: open, any commands, close.
use smartmontools.Common.{ℕ, sym, ap, Bool, true, false, List, [], arith, ◌≡◌, ◌∙◌, ◌∷◌}
use smartmontools.Jmb39x.Protocol.{AtaCmdIn}
use smartmontools.Jmb39x.Device.{Tunnel, Jmb39x, Outcome, ok, failed, thrown}
use smartmontools.Jmb39x.Device.{jmb_open, jmb_close, ata_pass_through}
use smartmontools.Jmb39x.Device.Session.{IsKept, same-IsKept, IsKept-trans, Keeps-IsKept}
use smartmontools.Jmb39x.Device.Session.{ata_pass_through-Keeps}
use smartmontools.Jmb39x.Device.Restore.{IsOpenResult, jmb_open-IsOpenResult, jmb_close-IsClosed}

abbrev is_ok : Outcome → Bool
is_ok ok = true
is_ok _ = false

opened_write_back :
    {W : Type 0} (o : Outcome) (d : Jmb39x) (w : W)
    → IsOpenResult (record { result = o; dev = d; world = w })
    → o ≡ ok
    → d.orig_write_back ≡ true
unfolding IsOpenResult
opened_write_back ok d w h e = h
opened_write_back (failed x) d w h e = absurd (grind (arith, ap is_ok e))
opened_write_back thrown d w h e = absurd h

module _ {W : Type 0} (t : Tunnel W) where
  -- The members and the world after the commands of a list.
  unfoldable pub pass_all : List AtaCmdIn → Jmb39x → W → Jmb39x × W
  pass_all [] d w = (d, w)
  pass_all (c ∷ cs) d w = let r = ata_pass_through t c d w in pass_all cs r.dev r.world

  pass_all-IsKept : (cs : List AtaCmdIn) (d : Jmb39x) (w : W) → IsKept d (pass_all cs d w).0
  unfolding pass_all
  pass_all-IsKept [] d w = same-IsKept d
  pass_all-IsKept (c ∷ cs) d w =
      let r = ata_pass_through t c d w in
      IsKept-trans d r.dev (pass_all cs r.dev r.world).0
        (Keeps-IsKept d r (ata_pass_through-Keeps t c d w)) (pass_all-IsKept cs r.dev r.world)

  -- Where a successful write stores its data in the sector and closing the device behind keeps the
  -- sectors, a session of a successful open, any ATA commands, in any number and with any results,
  -- and a successful close leaves the data that the open saved in the sector that the protocol used.
  pub session-restores :
      (sector : W → ℕ → List ℕ)
      (written : (w : W) (lba : ℕ) (buf : List ℕ)
        → (t.write_lba w lba buf).0 ≡ true
        → sector (t.write_lba w lba buf).1 lba ≡ buf)
      (closed : (w : W) (lba : ℕ) → sector (t.close_dev w).1 lba ≡ sector w lba)
      (cs : List AtaCmdIn) (d : Jmb39x) (w : W)
      → let opened = jmb_open t d w in
        let (d', w') = pass_all cs opened.dev opened.world in
        let r = jmb_close t d' w' in
        opened.result ≡ ok → r.result ≡ true → sector r.world opened.dev.lba ≡ opened.dev.orig_data
  session-restores sector written closed cs d w opened_ok closed_ok =
      let opened = jmb_open t d w in
      let (d', w') = pass_all cs opened.dev opened.world in
      let k = pass_all-IsKept cs opened.dev opened.world in
      let c = jmb_close-IsClosed t d' w' in
      let back : d'.orig_write_back ≡ true =
        k.write_back_kept
        ∙ opened_write_back opened.result opened.dev opened.world (jmb_open-IsOpenResult t d w)
            opened_ok in
      let at_lba : sector (jmb_close t d' w').world d'.lba ≡ d'.orig_data =
        ap (λ v. sector v d'.lba) (c.world_restored back)
        ∙ closed (t.write_lba w' d'.lba d'.orig_data).1 d'.lba
        ∙ written w' d'.lba d'.orig_data (c.restored closed_ok back) in
      ap (λ l. sector (jmb_close t d' w').world l) (sym k.lba_kept) ∙ at_lba ∙ k.orig_data_kept
