-- ===== src/Smartd/NvmeCheck/Errors.antt =====
-- What the scan of the NVMe error log counts.
use smartmontools.Common.{ℕ, suc, refl, ap, inl, inr, Bool, true, false, List, [], arith}
use smartmontools.Common.{leb, Bool-cases, ◌+◌, ◌≡◌, ◌∙◌, ◌≢◌, ◌⊎◌, ◌&&◌, ◌∷◌, ◌++◌, ◌==◌}
use smartmontools.Common.{◌!=◌, if◌then◌else◌}
use Prim.Native.Nat.{max}
use mathlib.Core.List.{append-nil}
use smartmontools.Smartd.State.{DevState, DevConfig}
use smartmontools.Smartd.Mail.{Mail, mail_warning}
use smartmontools.Smartd.OpenDevice.{◌then_do◌}
use smartmontools.Smartd.NvmeCheck.{
  ErrorEntry, ErrorScan, is_device_error, count_error, scan_errors,
}
use smartmontools.Smartd.NvmeCheck.{report_errors, check_nvme_error_log}

-- The used entries before the first one that is not newer than `oldcnt`; the newest entry is first.
abbrev pub new_entries : ℕ → List ErrorEntry → List ErrorEntry
new_entries oldcnt [] = []
new_entries oldcnt (e ∷ es) =
    let rest = new_entries oldcnt es in
    if e.error_count == 0 then rest else if leb e.error_count oldcnt then [] else e ∷ rest

abbrev pub device_errors : List ErrorEntry → ℕ
device_errors [] = 0
device_errors (e ∷ es) = if is_device_error e then suc (device_errors es) else device_errors es

-- The largest count.
abbrev pub largest : List ErrorEntry → ℕ → ℕ
largest [] n = n
largest (e ∷ es) n = largest es (max n e.error_count)

count_error-newcnt :
    (e : ErrorEntry) (r : ErrorScan) → (count_error e r).newcnt ≡ max r.newcnt e.error_count
unfolding count_error
count_error-newcnt e r = ground arith

one_more : (b : Bool) (x n : ℕ) → (if b then x + 1 else x) + n ≡ x + (if b then suc n else n)
one_more true x n = omega arith
one_more false x n = refl

count_error-err :
    (e : ErrorEntry) (r : ErrorScan) (n : ℕ)
    → (count_error e r).err + n ≡ r.err + (if is_device_error e then suc n else n)
unfolding count_error
count_error-err e r n = one_more (is_device_error e) r.err n

reported :
    (cfg : DevConfig) (now : ℕ) (r : ErrorScan) (s : DevState) (n err : ℕ)
    → r.newcnt ≡ n
    → r.err ≡ err
    → let c = report_errors cfg now r s in
      (c.0.nvme_err_log_entries ≡ n)
      × (c.1 ≡ (if err == 0 then [] else (mail_warning cfg now s 4).1))
unfolding report_errors ◌then_do◌
reported cfg now r s n err p q =
    let none_left : (mails : List Mail) → mails ++ [] ≡ mails = append-nil in
    rw p (
      rw q (
        refl,
        elim (Bool-cases (err == 0)) [
          | inl e ↦ rw e refl
          | inr e ↦ rw e (none_left (mail_warning cfg now s 4).1)
        ],
      ))

scan_errors-new :
    (oldcnt : ℕ) (es : List ErrorEntry) (r : ErrorScan)
    → let new = new_entries oldcnt es in
      ((scan_errors oldcnt es r).newcnt ≡ largest new r.newcnt)
      × ((scan_errors oldcnt es r).err ≡ r.err + device_errors new)
unfolding scan_errors
scan_errors-new oldcnt [] r = (refl, omega arith)
scan_errors-new oldcnt (e ∷ es) r = elim (Bool-cases (e.error_count == 0)) [
  | inl unused ↦
      let go_on : (leb e.error_count oldcnt && e.error_count != 0) ≡ false =
        ground (arith, unused) in
      rw unused (rw go_on (scan_errors-new oldcnt es r))
  | inr used ↦ elim (Bool-cases (leb e.error_count oldcnt)) [
    | inl old ↦
        let used' : (e.error_count != 0) ≡ true = ground (arith, used) in
        rw used (rw old (rw used' (refl, omega arith)))
    | inr new ↦
        let rest = new_entries oldcnt es in
        let ih = scan_errors-new oldcnt es (count_error e r) in
        rw used (
          rw new (
            ih.0 ∙ ap (λ (n : ℕ). largest rest n) (count_error-newcnt e r),
            ih.1 ∙ count_error-err e r (device_errors rest),
          ))
  ]
]

-- If entries could be read and the new count is not 0, check_nvme_error_log stores the largest of that
-- count and the counts of the new entries, and it sends what MailWarning sends for type 4 exactly when
-- one of them is a device related error; a status of an invalid command is none. New are the used
-- entries before the first one that is not above the stored count. With a new count of 0, which only
-- tests whether the log can be read, the state is kept and nothing is sent.
pub check_nvme_error_log-new :
    (cfg : DevConfig) (now : ℕ) (e : ErrorEntry) (es : List ErrorEntry) (newcnt : ℕ) (s : DevState)
    → let new = new_entries s.nvme_err_log_entries (e ∷ es) in
      let r = check_nvme_error_log cfg now (e ∷ es) newcnt s in
      ((newcnt ≢ 0)
        × (r.0.nvme_err_log_entries ≡ largest new newcnt)
        × (r.1 ≡ (if device_errors new == 0 then [] else (mail_warning cfg now s 4).1)))
      ⊎ ((newcnt ≡ 0) × (r ≡ (s, [])))
unfolding check_nvme_error_log
check_nvme_error_log-new cfg now e es newcnt s =
    let start : ErrorScan = record { newcnt = newcnt; err = 0 } in
    let scan = scan_errors-new s.nvme_err_log_entries (e ∷ es) start in
    let found = device_errors (new_entries s.nvme_err_log_entries (e ∷ es)) in
    elim (Bool-cases (newcnt == 0)) [
      | inl support_check ↦ inr (ground (arith, support_check), rw support_check refl)
      | inr counted ↦
          let (stored, sent) =
            reported cfg now (scan_errors s.nvme_err_log_entries (e ∷ es) start) s _ found scan.0
              (scan.1 ∙ omega arith) in
          inl (ground (arith, counted), rw counted stored, rw counted sent)
    ]
