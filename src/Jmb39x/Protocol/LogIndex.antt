-- ===== src/Jmb39x/Protocol/LogIndex.antt =====
-- The index that is reconstructed for a truncated self-test log.
use smartmontools.Common.{ℕ, zero, suc, refl, sym, ap, inl, inr, true, false, Option, none}
use smartmontools.Common.{some, List, arith, ltb, Bool-cases, get_or, set, u8, ◌+◌, ◌≤◌, ◌<◌}
use smartmontools.Common.{◌≡◌, ◌∙◌}
use smartmontools.Jmb39x.Sector.{nonempty}
use smartmontools.Jmb39x.Protocol.{log_entry, entry_hours}
use smartmontools.Jmb39x.Protocol.{better_entry, best_entry, has_entries}
use smartmontools.Jmb39x.Protocol.{jmb_fix_selftest_log_index}

-- The best of the first n entries.
pub IsBest : List ℕ → ℕ → Option (ℕ × ℕ) → Type 0
IsBest buf n none = (j : ℕ) → j < n → nonempty (log_entry buf j) ≡ false
IsBest buf n (some (i, h)) =
    (i < n)
    × (nonempty (log_entry buf i) ≡ true)
    × (h ≡ entry_hours (log_entry buf i))
    × ((j : ℕ) → j < n → nonempty (log_entry buf j) ≡ true → entry_hours (log_entry buf j) ≤ h)

below_suc : (P : ℕ → Type 0) (n : ℕ) → ((j : ℕ) → j < n → P j) → P n → (j : ℕ) → j < suc n → P j
below_suc P zero below at zero h = at
below_suc P zero below at (suc j) h = absurd (omega arith)
below_suc P (suc n) below at zero h = below zero (omega arith)
below_suc P (suc n) below at (suc j) h =
    below_suc (λ k. P (suc k)) n (λ k l. below (suc k) (omega arith)) at j (omega arith)

-- An empty entry changes nothing.
empty-IsBest :
    (buf : List ℕ) (n : ℕ) (best : Option (ℕ × ℕ))
    → nonempty (log_entry buf n) ≡ false
    → IsBest buf n best
    → IsBest buf (suc n) best
unfolding IsBest
empty-IsBest buf n none empty h = below_suc _ n h empty
empty-IsBest buf n (some (i, b)) empty (l, f, e, m) =
    (omega arith, f, e, below_suc _ n m (λ f'. absurd (grind (arith, f'))))

full-IsBest :
    (buf : List ℕ) (n : ℕ) (best : Option (ℕ × ℕ))
    → nonempty (log_entry buf n) ≡ true
    → IsBest buf n best
    → IsBest buf (suc n) (better_entry buf n best)
unfolding better_entry IsBest
full-IsBest buf n none full h = rw full (
  omega arith,
  full,
  refl,
  below_suc _ n (λ j l f. absurd (grind (arith, h j l))) (λ f. omega arith),
)
full-IsBest buf n (some (i, b)) full (l, f, e, m) =
    let hours = entry_hours (log_entry buf n) in
    rw full (elim (Bool-cases (ltb b hours)) [
      | inl higher ↦ rw higher (
        omega arith,
        full,
        refl,
        below_suc _ n (λ j l' f'. ground (arith, m j l' f')) (λ f'. omega arith),
      )
      | inr not_higher ↦ rw not_higher (omega arith, f, e, below_suc _ n m (λ f'. ground arith))
    ])

better_entry-IsBest :
    (buf : List ℕ) (n : ℕ) (best : Option (ℕ × ℕ))
    → IsBest buf n best
    → IsBest buf (suc n) (better_entry buf n best)
unfolding better_entry
better_entry-IsBest buf n best h = elim (Bool-cases (nonempty (log_entry buf n))) [
  | inl full ↦ full-IsBest buf n best full h
  | inr empty ↦ rw empty (empty-IsBest buf n best empty h)
]

best_entry-IsBest : (buf : List ℕ) (n : ℕ) → IsBest buf n (best_entry buf n)
unfolding best_entry IsBest
best_entry-IsBest buf zero = λ j h. absurd (omega arith)
best_entry-IsBest buf (suc n) =
    better_entry-IsBest buf n (best_entry buf n) (best_entry-IsBest buf n)

has_entry : (buf : List ℕ) (n : ℕ) → has_entries buf n ≡ true → IsBest buf n none → ⊥
unfolding has_entries IsBest
has_entry buf zero h empty = ground arith
has_entry buf (suc n) h empty =
    has_entry buf n (grind (arith, empty n (omega arith))) (λ j l. empty j (omega arith))

fixed_index :
    (buf : List ℕ) (i h : ℕ)
    → get_or buf 508 0 ≡ 0
    → has_entries buf 21 ≡ true
    → best_entry buf 21 ≡ some (i, h)
    → jmb_fix_selftest_log_index buf ≡ set buf 508 (u8 (i + 1))
unfolding jmb_fix_selftest_log_index
fixed_index buf i h no_index some_entry best = rw no_index (rw some_entry (rw best refl))

-- For a self-test log with no index and some entry, the index that is put at byte 508 names one of
-- the 21 entries that is not empty and has, among those that are not empty, the highest number in its
-- bytes 4 and 5, which the function takes for the hours.
pub jmb_fix_selftest_log_index-highest :
    (buf : List ℕ)
    → get_or buf 508 0 ≡ 0
    → has_entries buf 21 ≡ true
    → (i : ℕ) × (i < 21)
      × (jmb_fix_selftest_log_index buf ≡ set buf 508 (i + 1))
      × (nonempty (log_entry buf i) ≡ true)
      × ((j : ℕ)
          → j < 21
          → nonempty (log_entry buf j) ≡ true
          → entry_hours (log_entry buf j) ≤ entry_hours (log_entry buf i))
unfolding IsBest
jmb_fix_selftest_log_index-highest buf no_index some_entry =
    go (best_entry buf 21) refl (best_entry-IsBest buf 21)
  where
    go :
        (best : Option (ℕ × ℕ))
        → best_entry buf 21 ≡ best
        → IsBest buf 21 best
        → (i : ℕ) × (i < 21)
          × (jmb_fix_selftest_log_index buf ≡ set buf 508 (i + 1))
          × (nonempty (log_entry buf i) ≡ true)
          × ((j : ℕ)
              → j < 21
              → nonempty (log_entry buf j) ≡ true
              → entry_hours (log_entry buf j) ≤ entry_hours (log_entry buf i))
    go none e h = absurd (has_entry buf 21 some_entry h)
    go (some (i, h)) e (l, f, eh, m) = (
      i,
      l,
      fixed_index buf i h no_index some_entry e ∙ ap (λ v. set buf 508 v) (omega arith),
      f,
      λ j jl jf. rw (sym eh) (m j jl jf),
    )
