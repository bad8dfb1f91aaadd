-- ===== src/Ata/Attributes/State.antt =====
-- When an attribute has failed, and the search for its threshold.
use smartmontools.Common.{ℕ, zero, suc, inl, inr, true, false, not, some, List, [], arith}
use smartmontools.Common.{Bool-cases, Option-cases, get_elem?, flag_set, ◌≤◌, ◌<◌, ◌≡◌, ◌≢◌}
use smartmontools.Common.{◌↔◌, ◌⊎◌, ◌∷◌, ◌==◌, ◌!=◌}
use smartmontools.Ata.Attributes.{SmartAttribute, ThresholdEntry, VendorAttrDefs}
use smartmontools.Ata.Attributes.{failed_now}
use smartmontools.Ata.Attributes.{failed_past, attr_ok, attrflag_no_normval, attrflag_no_worstval}
use smartmontools.Ata.Attributes.{search_threshold, find_threshold, get_attr_state}

-- An attribute has failed now exactly if its id and its normalized value are valid, a threshold of
-- its id is found, that threshold is not the always passing 0, and the value is at most it.
pub failed_now_iff :
    (attr : SmartAttribute) (attridx : ℕ) (thresholds : List ThresholdEntry) (defs : VendorAttrDefs)
    → (get_attr_state attr attridx thresholds defs ≡ failed_now) ↔ (
        (attr.id ≢ 0)
        × (flag_set (defs attr.id).flags attrflag_no_normval ≡ false)
        × ((t : ℕ) × (find_threshold attr.id attridx thresholds ≡ some t)
            × (0 < t)
            × (attr.current ≤ t)))
unfolding get_attr_state
failed_now_iff attr attridx thresholds defs =
    elim (Option-cases (find_threshold attr.id attridx thresholds)) [
      | inl e ↦ (λ h. absurd (ground arith), λ (_, _, (t, p, _, _)). cc)
      | inr (t, e) ↦ (
        λ h. (ground arith, ground arith, (t, e, ground arith, ground arith)),
        λ (present, valid, (t', p, pos, below)). ground arith,
      )
    ]

-- The threshold that the search finds belongs to an entry of the table with the attribute's id.
search_threshold-get :
    (id t : ℕ) (thresholds : List ThresholdEntry)
    → search_threshold id thresholds ≡ some t
    → (i : ℕ) × (get_elem? thresholds i ≡ some (record { id = id; threshold = t }))
unfolding search_threshold
search_threshold-get id t [] h = cc
search_threshold-get id t (e ∷ rest) h = elim (Bool-cases (e.id == id)) [
  | inl same ↦ (0, ground arith)
  | inr other ↦ let (i, at_i) = search_threshold-get id t rest (ground arith) in (suc i, at_i)
]

abbrev pub IdsDiffer : List ThresholdEntry → Type 0
IdsDiffer thresholds =
    (i j : ℕ) (a b : ThresholdEntry)
    → get_elem? thresholds i ≡ some a
    → get_elem? thresholds j ≡ some b
    → a.id ≡ b.id
    → i ≡ j

search_threshold-total :
    (id : ℕ) (t : ThresholdEntry) (thresholds : List ThresholdEntry) (i : ℕ)
    → get_elem? thresholds i ≡ some t
    → t.id ≡ id
    → (found : ℕ) × (search_threshold id thresholds ≡ some found)
unfolding search_threshold
search_threshold-total id t [] i at_i same = cc
search_threshold-total id t (e ∷ rest) zero at_i same = (e.threshold, ground arith)
search_threshold-total id t (e ∷ rest) (suc i) at_i same = elim (Bool-cases (e.id == id)) [
  | inl here ↦ (e.threshold, rw here)
  | inr later ↦ let (found, h) = search_threshold-total id t rest i at_i same in (found, rw later h)
]

-- If no two entries of the table have the same id, the attempt at the attribute's own index is only
-- a shortcut: every index gives the threshold that the search from the start gives.
pub find_threshold-search :
    (thresholds : List ThresholdEntry) (id attridx : ℕ)
    → IdsDiffer thresholds
    → find_threshold id attridx thresholds ≡ search_threshold id thresholds
unfolding find_threshold
find_threshold-search thresholds id attridx differ =
    elim (Option-cases (get_elem? thresholds attridx)) [
      | inl e ↦ rw (e, find_threshold)
      | inr (t, e) ↦ elim (Bool-cases (t.id != id)) [
        | inl other ↦ ground arith
        | inr same ↦
            let id_eq : t.id ≡ id = ground arith in
            let (found, s) = search_threshold-total id t thresholds attridx e id_eq in
            let (j, at_j) = search_threshold-get id found thresholds s in
            let i_eq : attridx ≡ j = differ attridx j t _ e at_j id_eq in ground arith
      ]
    ]

-- The states are exclusive and complete: with a valid normalized value and a threshold other than
-- 0, the attribute fails now, failed in the past, or is good, by the comparisons of its current and
-- its worst value; the worst value counts only if the definition does not exclude it.
pub compared_states :
    (attr : SmartAttribute) (attridx t : ℕ) (thresholds : List ThresholdEntry)
    (defs : VendorAttrDefs)
    → attr.id ≢ 0
    → flag_set (defs attr.id).flags attrflag_no_normval ≡ false
    → find_threshold attr.id attridx thresholds ≡ some t
    → 0 < t
    → let state = get_attr_state attr attridx thresholds defs in
      let worst_counts = not (flag_set (defs attr.id).flags attrflag_no_worstval) in
      ((state ≡ failed_now) × (attr.current ≤ t))
      ⊎ ((state ≡ failed_past) × (t < attr.current) × (worst_counts ≡ true) × (attr.worst ≤ t))
      ⊎ ((state ≡ attr_ok) × (t < attr.current) × ((worst_counts ≡ false) ⊎ (t < attr.worst)))
unfolding get_attr_state
compared_states attr attridx t thresholds defs present valid found pos = ground arith
