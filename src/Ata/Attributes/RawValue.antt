-- ===== src/Ata/Attributes/RawValue.antt =====
-- The raw value is the number that the selected bytes make in the given order.
use smartmontools.Common.{ℕ, bit_or, refl, List, [], map, arith, length, u64, bit_or_add}
use smartmontools.Common.{◌+◌, ◌*◌, ◌^◌, ◌≤◌, ◌<◌, ◌≡◌, ◌∙◌, ◌∷◌, ◌<<◌}
use smartmontools.Ata.Attributes.{SmartAttribute, VendorAttrDef, VendorAttrDefs, select_byte}
use smartmontools.Ata.Attributes.{build_value, byteorder_of, get_attr_raw_value}
use smartmontools.Ata.Attributes.{rawfmt_default, default_byteorder}
use native.Mathlib.Nat.{pow-suc, pow-le-pow_right}
use native.Mathlib.Numerals.{add-one}

-- The bytes of the attribute are bytes.
pub record IsAttribute (attr : SmartAttribute) : Type 0 where
  pub current : attr.current < 256
  pub worst : attr.worst < 256
  pub raw0 : attr.raw0 < 256
  pub raw1 : attr.raw1 < 256
  pub raw2 : attr.raw2 < 256
  pub raw3 : attr.raw3 < 256
  pub raw4 : attr.raw4 < 256
  pub raw5 : attr.raw5 < 256
  pub reserv : attr.reserv < 256

pub select_byte-lt : (attr : SmartAttribute) (c : ℕ) → IsAttribute attr → select_byte attr c < 256
unfolding select_byte
select_byte-lt attr c h = ground arith

-- Most significant byte first, with no bound on the width.
abbrev pub horner : List ℕ → ℕ → ℕ
horner [] acc = acc
horner (b ∷ bs) acc = horner bs (acc * 256 + b)

build_value-horner :
    (attr : SmartAttribute) (order : List ℕ) (room acc : ℕ)
    → IsAttribute attr
    → length order + room ≤ 8
    → acc < 256 ^ room
    → build_value attr order acc ≡ horner (map (select_byte attr) order) acc
unfolding build_value
build_value-horner attr [] room acc h fits below = refl
build_value-horner attr (c ∷ order) room acc h fits below =
    let byte = select_byte attr c in
    let small : byte < 256 = select_byte-lt attr c h in
    let bound = pow-le-pow_right {n = 256} (omega arith) {i = room} {j = 7} (omega arith) in
    let next : bit_or (u64 (acc << 8)) byte ≡ acc * 256 + byte =
      omega (arith, bound, bit_or_add 8 (u64 (acc << 8)) byte (omega arith) small) in
    rw next (
      build_value-horner attr order (room + 1) (acc * 256 + byte) h (omega arith)
        (rw add-one (omega (arith, pow-suc 256 room))))

-- The loop that shifts and ors the selected bytes loses none of them: up to eight bytes make the
-- number of which they are the digits to the base 256, the first one the most significant.
pub raw_value-horner :
    (attr : SmartAttribute) (defs : VendorAttrDefs)
    → IsAttribute attr
    → length (byteorder_of (defs attr.id)) ≤ 8
    → get_attr_raw_value attr defs ≡ horner (map (select_byte attr) (byteorder_of (defs attr.id))) 0
unfolding get_attr_raw_value
raw_value-horner attr defs h fits =
    build_value-horner attr (byteorder_of (defs attr.id)) 0 0 h (omega arith) (omega arith)

-- The 48-bit number of the six raw bytes, the first one the least significant.
abbrev pub raw48_of : SmartAttribute → ℕ
raw48_of a =
    a.raw0 + a.raw1 * 2 ^ 8 + a.raw2 * 2 ^ 16 + a.raw3 * 2 ^ 24 + a.raw4 * 2 ^ 32 + a.raw5 * 2 ^ 40

abbrev pub TakesRaw48 : VendorAttrDef → Type 0
TakesRaw48 def =
    (def.byteorder ≡ []) × (default_byteorder def.raw_format ≡ default_byteorder rawfmt_default)

-- Without a byte order of its own, and with a format of six bytes, an attribute's raw value is its
-- 48-bit number.
pub raw_value-raw48 :
    (attr : SmartAttribute) (defs : VendorAttrDefs)
    → IsAttribute attr
    → TakesRaw48 (defs attr.id)
    → get_attr_raw_value attr defs ≡ raw48_of attr
raw_value-raw48 attr defs h t =
    let order : byteorder_of (defs attr.id) ≡ default_byteorder rawfmt_default =
      unfold byteorder_of in rw t.0 t.1 in
    raw_value-horner attr defs h (rw order (unfold default_byteorder in omega arith))
    ∙ rw order (unfold default_byteorder select_byte in omega arith)
