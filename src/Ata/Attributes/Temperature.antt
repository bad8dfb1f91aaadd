-- ===== src/Ata/Attributes/Temperature.antt =====
-- The index of an attribute, and the temperature that is taken from the attributes.
use smartmontools.Common.{ℕ, zero, suc, refl, ap, inl, inr, none, some, List, [], arith}
use smartmontools.Common.{Bool-cases, Option-cases, get_elem?, All, ◌+◌, ◌<◌, ◌≡◌, ◌≢◌, ◌⊎◌}
use smartmontools.Common.{◌∷◌, ◌++◌, ◌==◌}
use smartmontools.Ata.Attributes.{SmartAttribute, VendorAttrDefs, scan_attr_index, find_attr_index}
use smartmontools.Ata.Attributes.{temperature_of_id, first_temperature, return_temperature_value}
use smartmontools.Ata.Attributes.{temperature_ids}

-- The loop from index `i` on returns the index of an attribute with this id.
scan_attr_index-get :
    (id i idx : ℕ) (attributes : List SmartAttribute)
    → scan_attr_index id attributes i ≡ some idx
    → (k : ℕ) × (a : SmartAttribute) × (idx ≡ i + k)
      × (get_elem? attributes k ≡ some a)
      × (a.id ≡ id)
unfolding scan_attr_index
scan_attr_index-get id i idx [] h = cc
scan_attr_index-get id i idx (a ∷ rest) h = elim (Bool-cases (a.id == id)) [
  | inl here ↦ (0, a, ground arith, refl, ground arith)
  | inr later ↦
      let (k, b, e, at_k, same) = scan_attr_index-get id (i + 1) idx rest (ground arith) in
      (suc k, b, omega arith, at_k, same)
]

-- No attribute before that index has the id.
scan_attr_index-before :
    (id i idx j : ℕ) (b : SmartAttribute) (attributes : List SmartAttribute)
    → scan_attr_index id attributes i ≡ some idx
    → i + j < idx
    → get_elem? attributes j ≡ some b
    → b.id ≢ id
unfolding scan_attr_index
scan_attr_index-before id i idx j b [] h before at_j = cc
scan_attr_index-before id i idx zero b (a ∷ rest) h before at_j = ground arith
scan_attr_index-before id i idx (suc j) b (a ∷ rest) h before at_j =
    elim (Bool-cases (a.id == id)) [
      | inl here ↦ absurd (ground arith)
      | inr later ↦ scan_attr_index-before id (i + 1) idx j b rest (ground arith) (omega arith) at_j
    ]

-- An index that is found is that of the first attribute with the id: that attribute has it, and no
-- attribute at a lower index does.
pub find_attr_index-first :
    (id idx j : ℕ) (b : SmartAttribute) (attributes : List SmartAttribute)
    → find_attr_index id attributes ≡ some idx
    → j < idx
    → get_elem? attributes j ≡ some b
    → ((a : SmartAttribute) × (get_elem? attributes idx ≡ some a) × (a.id ≡ id)) × (b.id ≢ id)
unfolding find_attr_index
find_attr_index-first id idx j b attributes h before at_j =
    let scanned : scan_attr_index id attributes 0 ≡ some idx = ground arith in
    let (k, a, e, at_k, same) = scan_attr_index-get id 0 idx attributes scanned in
    let at_idx : k ≡ idx = omega arith in
    (
      (a, rw at_idx at at_k, same),
      scan_attr_index-before id 0 idx j b attributes scanned (omega arith) at_j,
    )

-- A temperature is taken only if it is from 1 to 127.
temperature_of_id-range :
    (attributes : List SmartAttribute) (defs : VendorAttrDefs) (id temp : ℕ)
    → temperature_of_id attributes defs id ≡ some temp
    → (0 < temp) × (temp < 128)
unfolding temperature_of_id
temperature_of_id-range attributes defs id temp h = ground arith

first_temperature-cases :
    (attributes : List SmartAttribute) (defs : VendorAttrDefs) (ids : List ℕ)
    → ((first_temperature attributes defs ids ≡ 0)
        × All (λ id. temperature_of_id attributes defs id ≡ none) ids)
      ⊎ ((before : List ℕ) × (id : ℕ) × (after : List ℕ) × (ids ≡ before ++ id ∷ after)
          × All (λ i. temperature_of_id attributes defs i ≡ none) before
          × (temperature_of_id attributes defs id ≡ some (first_temperature attributes defs ids))
          × (0 < first_temperature attributes defs ids)
          × (first_temperature attributes defs ids < 128))
unfolding first_temperature
first_temperature-cases attributes defs [] = inl (refl, tt)
first_temperature-cases attributes defs (id ∷ ids) =
    elim (Option-cases (temperature_of_id attributes defs id)) [
      | inl e ↦ elim (first_temperature-cases attributes defs ids) [
        | inl (zero_result, rest) ↦ inl (rw (e, first_temperature) zero_result, (e, rest))
        | inr (before, hit, after, split, misses, value, pos, small) ↦ inr (
          id ∷ before,
          hit,
          after,
          ap (λ t. id ∷ t) split,
          (e, misses),
          rw (e, first_temperature) value,
          rw (e, first_temperature) pos,
          rw (e, first_temperature) small,
        )
      ]
      | inr (temp, e) ↦
          let range = temperature_of_id-range attributes defs id temp e in
          inr (
            [],
            id,
            ids,
            refl,
            tt,
            rw (e, first_temperature) refl,
            rw (e, first_temperature) range.0,
            rw (e, first_temperature) range.1,
          )
    ]

-- The temperature is 0 exactly when none of the attributes 194, 190, 9 and 220 gives one;
-- otherwise it is from 1 to 127 and is what the first of them that gives one gives.
pub temperature_of_first :
    (attributes : List SmartAttribute) (defs : VendorAttrDefs)
    → let temp = return_temperature_value attributes defs in
      ((temp ≡ 0) × All (λ id. temperature_of_id attributes defs id ≡ none) temperature_ids)
      ⊎ ((before : List ℕ) × (id : ℕ) × (after : List ℕ) × (temperature_ids ≡ before ++ id ∷ after)
          × All (λ i. temperature_of_id attributes defs i ≡ none) before
          × (temperature_of_id attributes defs id ≡ some temp)
          × (0 < temp)
          × (temp < 128))
unfolding return_temperature_value
temperature_of_first attributes defs = first_temperature-cases attributes defs temperature_ids
