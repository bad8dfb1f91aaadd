-- ===== src/Ata/Attributes/Tests.antt =====
-- Uses of the theorems on attributes, and runs of the definitions.
use smartmontools.Common.{ℕ, zero, suc, refl, false, some, List, [], map, arith, get_elem?}
use smartmontools.Common.{flag_set, ◌≤◌, ◌<◌, ◌≡◌, ◌≢◌, ◌↔◌, ◌∷◌}
use smartmontools.ByteOrder.{Uile16}
use smartmontools.Ata.Attributes.{SmartAttribute, ThresholdEntry, VendorAttrDefs}
use smartmontools.Ata.Attributes.{rawfmt_default, rawfmt_raw64, prior_default, select_byte}
use smartmontools.Ata.Attributes.{failed_now, find_threshold, search_threshold}
use smartmontools.Ata.Attributes.{attrflag_no_normval, default_byteorder}
use smartmontools.Ata.Attributes.{get_attr_state, get_attr_raw_value, byteorder_of}
use smartmontools.Ata.Attributes.{return_temperature_value}
use smartmontools.Ata.Attributes.State.{failed_now_iff, find_threshold-search}
use smartmontools.Ata.Attributes.RawValue.{IsAttribute, horner, raw_value-horner}

abbrev no_flags : Uile16
no_flags = record { b0 = 0; b1 = 0 }

-- Attribute 194 with the raw bytes 36, 0, 20, 0, 45, 0 and the normalized value 30.
abbrev temperature_attr : SmartAttribute
temperature_attr = record {
  id = 194;
  flags = no_flags;
  current = 30;
  worst = 20;
  raw0 = 36;
  raw1 = 0;
  raw2 = 20;
  raw3 = 0;
  raw4 = 45;
  raw5 = 0;
  reserv = 0;
}

abbrev defaults : VendorAttrDefs
defaults id = record {
  name = "";
  raw_format = rawfmt_default;
  priority = prior_default;
  flags = 0;
  byteorder = [];
}

abbrev table : List ThresholdEntry
table = record { id = 5; threshold = 10 } ∷ record { id = 194; threshold = 40 } ∷ []

found : find_threshold 194 0 table ≡ some 40
unfolding find_threshold
found = refl

state_run : get_attr_state temperature_attr 0 table defaults ≡ failed_now
unfolding get_attr_state find_threshold
state_run = refl

temperature_run : return_temperature_value (temperature_attr ∷ []) defaults ≡ 36
unfolding return_temperature_value
temperature_run = refl

default_64 :
    default_byteorder rawfmt_raw64 ≡ b'5' ∷ b'4' ∷ b'3' ∷ b'2' ∷ b'1' ∷ b'0' ∷ b'w' ∷ b'v' ∷ []
unfolding default_byteorder
default_64 = refl

failed_now_iff_example : (get_attr_state temperature_attr 0 table defaults ≡ failed_now) ↔ (
    (temperature_attr.id ≢ 0)
    × (flag_set 0 attrflag_no_normval ≡ false)
    × ((t : ℕ) × (find_threshold 194 0 table ≡ some t) × (0 < t) × (30 ≤ t)))
failed_now_iff_example = failed_now_iff temperature_attr 0 table defaults

table_differs :
    (i j : ℕ) (a b : ThresholdEntry)
    → get_elem? table i ≡ some a
    → get_elem? table j ≡ some b
    → a.id ≡ b.id
    → i ≡ j
table_differs zero zero a b p q e = refl
table_differs zero (suc zero) a b p q e = absurd (ground arith)
table_differs zero (suc (suc j)) a b p q e = cc
table_differs (suc zero) zero a b p q e = absurd (ground arith)
table_differs (suc zero) (suc zero) a b p q e = refl
table_differs (suc zero) (suc (suc j)) a b p q e = cc
table_differs (suc (suc i)) j a b p q e = cc

find_threshold-search_example : find_threshold 194 0 table ≡ search_threshold 194 table
find_threshold-search_example = find_threshold-search table 194 0 table_differs

bytes : IsAttribute temperature_attr
bytes = omega arith

raw_value-horner_example :
    get_attr_raw_value temperature_attr defaults
    ≡ horner (map (select_byte temperature_attr) (byteorder_of (defaults 194))) 0
unfolding byteorder_of
raw_value-horner_example = raw_value-horner temperature_attr defaults bytes (omega arith)

other_attr : SmartAttribute
other_attr = record temperature_attr { id = 5 }
