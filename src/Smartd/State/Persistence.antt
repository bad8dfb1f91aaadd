-- ===== src/Smartd/State/Persistence.antt =====
-- The attributes survive the way through the persistent state.
use smartmontools.Common.{ℕ, bit_or, refl, ap₂, inl, inr, List, [], map, arith, Bool-cases}
use smartmontools.Common.{length, All, u8, bit_or_low, ◌+◌, ◌<◌, ◌≡◌, ◌∷◌, ◌==◌, ◌<<◌, ◌>>◌}
use smartmontools.Common.{if◌then◌else◌}
use smartmontools.Ata.Attributes.{SmartAttribute}
use smartmontools.Smartd.State.{AtaAttribute, DevState, persistent_attribute, temp_attribute}
use smartmontools.Smartd.State.{update_each, update_persistent_state, update_temp_state}

-- The raw bytes of an attribute are bytes.
unfoldable pub RawBytes : SmartAttribute → Type 0
RawBytes a =
    (a.raw0 < 256)
    × (a.raw1 < 256)
    × (a.raw2 < 256)
    × (a.raw3 < 256)
    × (a.raw4 < 256)
    × (a.raw5 < 256)

raw_sum :
    (b0 b1 b2 b3 b4 b5 : ℕ)
    → b0 < 256
    → b1 < 256
    → b2 < 256
    → b3 < 256
    → b4 < 256
    → b5 < 256
    → bit_or
        (b5 << 40)
        (bit_or (b4 << 32) (bit_or (b3 << 24) (bit_or (b2 << 16) (bit_or (b1 << 8) b0))))
      ≡ (b5 << 40) + ((b4 << 32) + ((b3 << 24) + ((b2 << 16) + ((b1 << 8) + b0))))
raw_sum b0 b1 b2 b3 b4 b5 h0 h1 h2 h3 h4 h5 = rw (bit_or_low 8 b1 b0 (omega arith)) (
    rw (bit_or_low 16 b2 ((b1 << 8) + b0) (omega arith)) (
      rw (bit_or_low 24 b3 ((b2 << 16) + ((b1 << 8) + b0)) (omega arith)) (
        rw (bit_or_low 32 b4 ((b3 << 24) + ((b2 << 16) + ((b1 << 8) + b0))) (omega arith)) (
          bit_or_low 40 b5 ((b4 << 32) + ((b3 << 24) + ((b2 << 16) + ((b1 << 8) + b0))))
            (omega arith)))))

packed : SmartAttribute → ℕ
packed a = bit_or (a.raw5 << 40) (
    bit_or (a.raw4 << 32)
      (bit_or (a.raw3 << 24) (bit_or (a.raw2 << 16) (bit_or (a.raw1 << 8) a.raw0))))

packed-sum :
    (a : SmartAttribute)
    → RawBytes a
    → packed a
      ≡ (a.raw5 << 40)
        + ((a.raw4 << 32) + ((a.raw3 << 24) + ((a.raw2 << 16) + ((a.raw1 << 8) + a.raw0))))
unfolding packed RawBytes
packed-sum a h = raw_sum a.raw0 a.raw1 a.raw2 a.raw3 a.raw4 a.raw5 h.0 h.1 h.2 h.3 h.4 h.5

unpacked :
    (a : SmartAttribute)
    → RawBytes a
    → (u8 (packed a) ≡ a.raw0)
      × (u8 (packed a >> 8) ≡ a.raw1)
      × (u8 (packed a >> 16) ≡ a.raw2)
      × (u8 (packed a >> 24) ≡ a.raw3)
      × (u8 (packed a >> 32) ≡ a.raw4)
      × (u8 (packed a >> 40) ≡ a.raw5)
unfolding RawBytes
unpacked a h =
    let e = packed-sum a h in
    (
      omega (arith, e, h.0, h.1, h.2, h.3, h.4, h.5),
      omega (arith, e, h.0, h.1, h.2, h.3, h.4, h.5),
      omega (arith, e, h.0, h.1, h.2, h.3, h.4, h.5),
      omega (arith, e, h.0, h.1, h.2, h.3, h.4, h.5),
      omega (arith, e, h.0, h.1, h.2, h.3, h.4, h.5),
      omega (arith, e, h.0, h.1, h.2, h.3, h.4, h.5),
    )

-- An attribute without an id has no values.
pub cleared : SmartAttribute → SmartAttribute
cleared a =
    if a.id == 0
    then record a {
      id = 0;
      current = 0;
      worst = 0;
      raw0 = 0;
      raw1 = 0;
      raw2 = 0;
      raw3 = 0;
      raw4 = 0;
      raw5 = 0;
    }
    else a

restored_attribute :
    (a : SmartAttribute) (p : AtaAttribute)
    → RawBytes a
    → temp_attribute (persistent_attribute a p) a ≡ cleared a
unfolding cleared temp_attribute persistent_attribute packed
restored_attribute a p h =
    let (e0, e1, e2, e3, e4, e5) = unpacked a h in
    elim (Bool-cases (a.id == 0)) [
      | inl zero_id ↦ rw zero_id refl
      | inr some_id ↦ rw some_id (rw some_id (simp (e0, e1, e2, e3, e4, e5) refl))
    ]

update_each-restores :
    (xs : List SmartAttribute) (ps : List AtaAttribute)
    → length ps ≡ length xs
    → All RawBytes xs
    → update_each temp_attribute (update_each persistent_attribute xs ps) xs ≡ map cleared xs
unfolding update_each
update_each-restores [] [] l h = refl
update_each-restores [] (p ∷ ps) l h = absurd (omega arith)
update_each-restores (x ∷ xs) [] l h = absurd (omega arith)
update_each-restores (x ∷ xs) (p ∷ ps) l h =
    ap₂ ◌∷◌ (restored_attribute x p h.0) (update_each-restores xs ps (omega arith) h.1)

-- For tables of equal lengths and raw values made of bytes, an update of the temporary state from
-- the persistent state that was updated just before gives every attribute back; only an attribute
-- without an id loses its values.
pub update_temp_state-restores :
    (s : DevState)
    → length s.ata_attributes ≡ length s.smartval
    → All RawBytes s.smartval
    → (update_temp_state (update_persistent_state s)).smartval ≡ map cleared s.smartval
unfolding update_temp_state update_persistent_state
update_temp_state-restores s l h = update_each-restores s.smartval s.ata_attributes l h
