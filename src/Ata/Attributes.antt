-- ===== src/Ata/Attributes.antt =====
-- SMART attributes in lib/atacmds.cpp: state, raw value, index and temperature.
-- The structures are those of include/smartmon/ata.h and include/smartmon/atacmds.h.
pub mod State
pub mod RawValue
pub mod Temperature
mod Tests
use smartmontools.Common.{ℕ, bit_or, Bool, true, false, not, Option, none, some, List, []}
use smartmontools.Common.{ltb, leb, get_elem?, u8, u16, u64, flag_set, ◌+◌, ◌/◌, ◌&&◌, ◌||◌}
use smartmontools.Common.{◌∷◌, ◌==◌, ◌!=◌, ◌<<◌, if◌then◌else◌}
use Prim.Native.String.{String}
use smartmontools.ByteOrder.{Uile16}

-- enum ata_attr_raw_format
pub data RawFormat : Type 0 where
  rawfmt_default rawfmt_raw8 rawfmt_raw16 rawfmt_raw48 rawfmt_hex48 rawfmt_raw56 : RawFormat
  rawfmt_hex56 rawfmt_raw64 rawfmt_hex64 rawfmt_raw16_opt_raw16 : RawFormat
  rawfmt_raw16_opt_avg16 rawfmt_raw24_opt_raw8 rawfmt_raw24_div_raw24 : RawFormat
  rawfmt_raw24_div_raw32 rawfmt_sec2hour rawfmt_min2hour rawfmt_halfmin2hour : RawFormat
  rawfmt_msec24_hour32 rawfmt_tempminmax rawfmt_temp10x : RawFormat

-- enum ata_vendor_def_prior
pub data Priority : Type 0 where
  prior_default prior_database prior_user : Priority

abbrev pub attrflag_increasing : ℕ
attrflag_increasing = 0x01

abbrev pub attrflag_no_normval : ℕ
attrflag_no_normval = 0x02

abbrev pub attrflag_no_worstval : ℕ
attrflag_no_worstval = 0x04

-- ata_vendor_attr_defs::entry. The string of at most 8 characters in `byteorder` is the list of its
-- characters, without the NUL at its end.
pub record VendorAttrDef : Type 0 where
  pub name : String
  pub raw_format : RawFormat
  pub priority : Priority
  pub flags : ℕ
  pub byteorder : List ℕ

-- class ata_vendor_attr_defs: an entry for every 8-bit id.
abbrev pub VendorAttrDefs : Type 0
VendorAttrDefs = ℕ → VendorAttrDef

-- struct ata_smart_attribute; the bytes raw[0] to raw[5] are the fields raw0 to raw5.
pub record SmartAttribute : Type 0 where
  pub id : ℕ
  pub flags : Uile16
  pub current : ℕ
  pub worst : ℕ
  pub raw0 : ℕ
  pub raw1 : ℕ
  pub raw2 : ℕ
  pub raw3 : ℕ
  pub raw4 : ℕ
  pub raw5 : ℕ
  pub reserv : ℕ

-- struct ata_smart_threshold_entry, less its reserved bytes.
pub record ThresholdEntry : Type 0 where
  pub id : ℕ
  pub threshold : ℕ

-- enum ata_attr_state
pub data AttrState : Type 0 where
  non_existing no_normval no_threshold attr_ok failed_past failed_now : AttrState

-- The search loop `for (i = 0; thresholds[i].id != attr.id; )`: the threshold of the first entry
-- with this id, or none if the end of the table is reached.
unfoldable pub search_threshold : ℕ → List ThresholdEntry → Option ℕ
search_threshold id [] = none
search_threshold id (t ∷ rest) = if t.id == id then some t.threshold else search_threshold id rest

-- The entry at the attribute's own index is tried first. `attridx` is below the table's length in
-- every call.
unfoldable pub find_threshold : ℕ → ℕ → List ThresholdEntry → Option ℕ
unfolding search_threshold
find_threshold id attridx thresholds = elim (get_elem? thresholds attridx) [
  | none ↦ search_threshold id thresholds
  | some t ↦ if t.id != id then search_threshold id thresholds else some t.threshold
]

-- What is left of ata_get_attr_state once the threshold is known.
unfoldable pub compare_threshold : SmartAttribute → ℕ → ℕ → AttrState
unfolding flag_set
compare_threshold attr flags threshold =
    if threshold == 0
    then attr_ok
    else if leb attr.current threshold
    then failed_now
    else if not (flag_set flags attrflag_no_worstval) && leb attr.worst threshold
    then failed_past
    else attr_ok

-- ata_get_attr_state
unfoldable pub get_attr_state :
    SmartAttribute → ℕ → List ThresholdEntry → VendorAttrDefs → AttrState
unfolding compare_threshold flag_set
get_attr_state attr attridx thresholds defs =
    if attr.id == 0
    then non_existing
    else if flag_set (defs attr.id).flags attrflag_no_normval
    then no_normval
    else elim (find_threshold attr.id attridx thresholds) [
      | none ↦ no_threshold
      | some threshold ↦ compare_threshold attr (defs attr.id).flags threshold
    ]

-- The default byte orders "543210wv", "r543210" and "543210" of the formats.
unfoldable pub default_byteorder : RawFormat → List ℕ
default_byteorder rawfmt_raw64 = b'5' ∷ b'4' ∷ b'3' ∷ b'2' ∷ b'1' ∷ b'0' ∷ b'w' ∷ b'v' ∷ []
default_byteorder rawfmt_hex64 = b'5' ∷ b'4' ∷ b'3' ∷ b'2' ∷ b'1' ∷ b'0' ∷ b'w' ∷ b'v' ∷ []
default_byteorder rawfmt_raw56 = b'r' ∷ b'5' ∷ b'4' ∷ b'3' ∷ b'2' ∷ b'1' ∷ b'0' ∷ []
default_byteorder rawfmt_hex56 = b'r' ∷ b'5' ∷ b'4' ∷ b'3' ∷ b'2' ∷ b'1' ∷ b'0' ∷ []
default_byteorder rawfmt_raw24_div_raw32 = b'r' ∷ b'5' ∷ b'4' ∷ b'3' ∷ b'2' ∷ b'1' ∷ b'0' ∷ []
default_byteorder rawfmt_msec24_hour32 = b'r' ∷ b'5' ∷ b'4' ∷ b'3' ∷ b'2' ∷ b'1' ∷ b'0' ∷ []
default_byteorder _ = b'5' ∷ b'4' ∷ b'3' ∷ b'2' ∷ b'1' ∷ b'0' ∷ []

-- The byte that a character of the byte order selects.
unfoldable pub select_byte : SmartAttribute → ℕ → ℕ
select_byte attr c =
    if c == b'0'
    then attr.raw0
    else if c == b'1'
    then attr.raw1
    else if c == b'2'
    then attr.raw2
    else if c == b'3'
    then attr.raw3
    else if c == b'4'
    then attr.raw4
    else if c == b'5'
    then attr.raw5
    else if c == b'r'
    then attr.reserv
    else if c == b'v'
    then attr.current
    else if c == b'w'
    then attr.worst
    else 0

-- The loop `rawvalue <<= 8; rawvalue |= b;` over uint64_t.
unfoldable pub build_value : SmartAttribute → List ℕ → ℕ → ℕ
unfolding select_byte
build_value attr [] rawvalue = rawvalue
build_value attr (c ∷ rest) rawvalue =
    build_value attr rest (bit_or (u64 (rawvalue << 8)) (select_byte attr c))

-- `if (!*byteorder)` takes the default of the format.
unfoldable pub byteorder_of : VendorAttrDef → List ℕ
unfolding default_byteorder
byteorder_of def = elim def.byteorder [
  | [] ↦ default_byteorder def.raw_format
  | c ∷ rest ↦ c ∷ rest
]

-- ata_get_attr_raw_value
unfoldable pub get_attr_raw_value : SmartAttribute → VendorAttrDefs → ℕ
unfolding byteorder_of build_value
get_attr_raw_value attr defs = build_value attr (byteorder_of (defs attr.id)) 0

-- The loop of ata_find_attr_index, at index i.
unfoldable pub scan_attr_index : ℕ → List SmartAttribute → ℕ → Option ℕ
scan_attr_index id [] i = none
scan_attr_index id (a ∷ rest) i = if a.id == id then some i else scan_attr_index id rest (i + 1)

-- ata_find_attr_index over the vendor attributes; none is the -1.
unfoldable pub find_attr_index : ℕ → List SmartAttribute → Option ℕ
unfolding scan_attr_index
find_attr_index id attributes = if id == 0 then none else scan_attr_index id attributes 0

-- The formats of which an attribute is taken for a temperature.
unfoldable pub is_temperature_format : ℕ → RawFormat → Bool
is_temperature_format id rawfmt_default = id == 194 || id == 190
is_temperature_format id rawfmt_tempminmax = true
is_temperature_format id rawfmt_temp10x = true
is_temperature_format id _ = false

-- (unsigned short)raw + 5) / 10 for `-v N,temp10x`, and the lowest byte otherwise.
unfoldable pub raw_to_temperature : RawFormat → ℕ → ℕ
raw_to_temperature rawfmt_temp10x raw = (u16 raw + 5) / 10
raw_to_temperature _ raw = u8 raw

-- One round of the loop of ata_return_temperature_value; none is `continue`.
unfoldable pub temperature_of_id : List SmartAttribute → VendorAttrDefs → ℕ → Option ℕ
unfolding is_temperature_format raw_to_temperature find_attr_index get_attr_raw_value
temperature_of_id attributes defs id =
    if not (is_temperature_format id (defs id).raw_format)
    then none
    else elim (find_attr_index id attributes) [
      | none ↦ none
      | some idx ↦ elim (get_elem? attributes idx) [
        | none ↦ none
        | some attr ↦
            let temp = raw_to_temperature (defs id).raw_format (get_attr_raw_value attr defs) in
            if not (ltb 0 temp && ltb temp 128) then none else some temp
      ]
    ]

unfoldable pub first_temperature : List SmartAttribute → VendorAttrDefs → List ℕ → ℕ
unfolding temperature_of_id
first_temperature attributes defs [] = 0
first_temperature attributes defs (id ∷ ids) =
    let rest = first_temperature attributes defs ids in
    elim (temperature_of_id attributes defs id) [ none ↦ rest | some temp ↦ temp ]

-- The ids in the order in which they are tried.
abbrev pub temperature_ids : List ℕ
temperature_ids = 194 ∷ 190 ∷ 9 ∷ 220 ∷ []

-- ata_return_temperature_value
unfoldable pub return_temperature_value : List SmartAttribute → VendorAttrDefs → ℕ
unfolding first_temperature
return_temperature_value attributes defs = first_temperature attributes defs temperature_ids
