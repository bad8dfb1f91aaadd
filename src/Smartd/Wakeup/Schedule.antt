-- ===== src/Smartd/Wakeup/Schedule.antt =====
-- The checks of a device keep their interval.
use smartmontools.Common.{ℕ, zero, suc, inl, inr, true, List, [], arith, ltb, ltb→lt}
use smartmontools.Common.{Bool-cases, length, if-each, ◌+◌, ◌-◌, ◌*◌, ◌/◌, ◌≤◌, ◌<◌, ◌≡◌}
use smartmontools.Common.{◌≢◌, ◌||◌, ◌∷◌, ◌==◌, ◌!=◌, if◌then◌else◌}
use native.Mathlib.Nat.{mod-lt, div-add-mod'}
use smartmontools.Smartd.State.{DevState, DevConfig}
use smartmontools.Smartd.Wakeup.{calc_next_wakeuptime, device_wakeup, next_wakeup}

-- For a positive interval the next wakeup time lies in the future, it is the old one plus a whole
-- number of intervals, and where the old one is over it is at most one interval away.
pub calc_next_wakeuptime-interval :
    (wakeuptime timenow ct : ℕ)
    → 0 < ct
    → let next = calc_next_wakeuptime wakeuptime timenow ct in
      (timenow < next)
      × ((k : ℕ) × (next ≡ wakeuptime + k * ct))
      × (wakeuptime ≤ timenow → next ≤ timenow + ct)
unfolding calc_next_wakeuptime
calc_next_wakeuptime-interval wakeuptime timenow ct positive =
    let past = timenow - wakeuptime in
    let low = mod-lt past positive in
    let split = div-add-mod' past ct in
    elim (Bool-cases (ltb timenow wakeuptime)) [
      | inl early ↦ rw early (ltb→lt timenow wakeuptime early, (0, omega arith), λ h. ground arith)
      | inr due ↦
          let over : wakeuptime ≤ timenow = ground arith in
          rw due (omega (arith, low), (past / ct + 1, omega (arith, low, split)), λ h. omega arith)
    ]

-- The devices of a list all wake up at `first` or later.
pub NotBefore : ℕ → List (DevConfig × DevState) → Type 0
NotBefore first [] = Unit
NotBefore first ((cfg, s) ∷ rest) = (first ≤ s.wakeuptime) × NotBefore first rest

-- A device that is skipped wakes up in the future.
unfoldable pub SkipsFuture : ℕ → List (DevConfig × DevState) → Type 0
SkipsFuture timenow [] = Unit
SkipsFuture timenow ((cfg, s) ∷ rest) =
    (s.skip ≡ true → timenow < s.wakeuptime) × SkipsFuture timenow rest

device_wakeup-future :
    (checktime timenow : ℕ) (cfg : DevConfig) (s : DevState)
    → 0 < checktime
    → (s.skip ≡ true → timenow < s.wakeuptime)
    → timenow < (device_wakeup checktime timenow cfg s).wakeuptime
unfolding device_wakeup
device_wakeup-future checktime timenow cfg s positive future =
    let ct : ℕ = if cfg.checktime != 0 then cfg.checktime else checktime in
    let old : ℕ = if s.wakeuptime != 0 then s.wakeuptime else timenow in
    let ct_positive : 0 < ct = ground arith in
    if-each (λ (d : DevState). timenow < d.wakeuptime) s.skip future
      (λ _. (calc_next_wakeuptime-interval old timenow ct ct_positive).0)

NotBefore-trans :
    (a b : ℕ) (ds : List (DevConfig × DevState)) → a ≤ b → NotBefore b ds → NotBefore a ds
unfolding NotBefore
NotBefore-trans a b [] h n = tt
NotBefore-trans a b ((cfg, s) ∷ rest) h (n, ns) = (omega arith, NotBefore-trans a b rest h ns)

earlier :
    (w d now : ℕ)
    → let first : ℕ = if w == 0 || ltb d w then d else w in
      (first ≤ d) × (w ≢ 0 → first ≤ w) × (now < d → (w ≢ 0 → now < w) → now < first)
earlier zero d now = (ground arith, λ h. ground arith, λ p q. ground arith)
earlier (suc w) d now = (ground arith, λ h. ground arith, λ p q. ground (arith, q (omega arith)))

-- For a positive interval, devices of which those that are skipped wake up in the future, and a first
-- wakeup time that is unset or in the future: after the loop it lies in the future, if it was set or
-- there is a device, it is not after the one that was set, and no device wakes up before it.
pub next_wakeup-NotBefore :
    (checktime timenow : ℕ) (ds : List (DevConfig × DevState)) (wakeuptime : ℕ)
    → 0 < checktime
    → SkipsFuture timenow ds
    → (wakeuptime ≢ 0 → timenow < wakeuptime)
    → let (ds', first) = next_wakeup checktime timenow ds wakeuptime in
      NotBefore first ds'
      × (wakeuptime ≢ 0 → first ≤ wakeuptime)
      × (0 < wakeuptime + length ds → timenow < first)
unfolding next_wakeup NotBefore SkipsFuture
next_wakeup-NotBefore checktime timenow [] wakeuptime positive skips future =
    (tt, λ h. omega arith, λ h. future (omega arith))
next_wakeup-NotBefore checktime timenow ((cfg, s) ∷ rest) wakeuptime positive skips future =
    let s' = device_wakeup checktime timenow cfg s in
    let s'_future = device_wakeup-future checktime timenow cfg s positive skips.0 in
    let first : ℕ =
      if wakeuptime == 0 || ltb s'.wakeuptime wakeuptime then s'.wakeuptime else wakeuptime in
    let (below_device, below_old, above_now) = earlier wakeuptime s'.wakeuptime timenow in
    let first_future : timenow < first = above_now s'_future future in
    let ih =
      next_wakeup-NotBefore checktime timenow rest first positive skips.1 (λ _. first_future) in
    let ahead = ih.1 (omega (arith, first_future)) in
    (
      (omega (arith, ahead, below_device), ih.0),
      λ h. omega (arith, ahead, below_old h),
      λ h. ih.2 (omega (arith, first_future)),
    )
