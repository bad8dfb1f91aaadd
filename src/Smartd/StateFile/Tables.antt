-- ===== src/Smartd/StateFile/Tables.antt =====
-- The loops over the mails and the attributes of a state file: what is written sets each element.
use mathlib.Core.List.{append_assoc}
use smartmontools.Common.{ℕ, zero, suc, refl, sym, ap, true, List, [], map, arith, length}
use smartmontools.Common.{get_or, set, replicate, length-append, All, u8, u32, if-each, ◌^◌}
use smartmontools.Common.{◌<◌, ◌≡◌, ◌∙◌, ◌∷◌, ◌++◌, ◌==◌, ◌!=◌, if◌then◌else◌}
use smartmontools.Smartd.State.{MailInfo, AtaAttribute, DevState}
use smartmontools.Smartd.Mail.{no_mailinfo}
use smartmontools.Smartd.StateFile.{no_attribute}
use smartmontools.Smartd.StateFile.Writer.{Key, write_dev_state_line}
use smartmontools.Smartd.StateFile.Writer.{uint64_of_int, write_mail, write_attribute, write_each}
use smartmontools.Smartd.StateFile.Lines.{set_key, set_mail, set_attribute}

abbrev pub set_keys : List (Key × ℕ) → DevState → DevState
set_keys [] s = s
set_keys ((key, v) ∷ values) s = set_keys values (set_key key v s)

set_keys-append :
    (xs ys : List (Key × ℕ)) (s : DevState) → set_keys (xs ++ ys) s ≡ set_keys ys (set_keys xs s)
set_keys-append [] ys s = refl
set_keys-append ((key, v) ∷ xs) ys s = set_keys-append xs ys (set_key key v s)

pub chain :
    (xs ys : List (Key × ℕ)) (s s' final : DevState)
    → set_keys xs s ≡ s'
    → set_keys ys s' ≡ final
    → set_keys (xs ++ ys) s ≡ final
chain xs ys s s' final p q = set_keys-append xs ys s ∙ rw p q

-- A value that is not written is one that is 0 in the new state.
pub set_keys-line :
    (key : Key) (v : ℕ) (s s' : DevState)
    → set_key key v s ≡ s'
    → (v ≡ 0 → s ≡ s')
    → set_keys (write_dev_state_line key v) s ≡ s'
unfolding write_dev_state_line
set_keys-line key zero s s' p q = q refl
set_keys-line key (suc v) s s' p q = let e : (suc v != 0) ≡ true = ground arith in rw e p

pub same_byte : (b : ℕ) → b < 256 → u8 b ≡ b
same_byte b h = omega (arith, h)

set-append :
    {A : Type 0} (xs ys : List A) (x y : A) → set (xs ++ (x ∷ ys)) (length xs) y ≡ xs ++ (y ∷ ys)
set-append [] ys x y = refl
set-append (z ∷ xs) ys x y = ap (λ zs. z ∷ zs) (set-append xs ys x y)

get_or-append : {A : Type 0} (xs ys : List A) (x d : A) → get_or (xs ++ (x ∷ ys)) (length xs) d ≡ x
get_or-append [] ys x d = refl
get_or-append (z ∷ xs) ys x d = get_or-append xs ys x d

set_mail_at :
    (i : ℕ) (pre post : List MailInfo) (x : MailInfo) (f : MailInfo → MailInfo) (s : DevState)
    → length pre ≡ i
    → set_mail i f (record s { maillog = pre ++ (x ∷ post) })
      ≡ record s { maillog = pre ++ (f x ∷ post) }
set_mail_at i pre post x f s len =
    rw (sym len) (rw (get_or-append pre post x no_mailinfo) (rw (set-append pre post x (f x)) refl))

pub same_int : (i : ℕ) → i < 2 ^ 31 → uint64_of_int i ≡ i
unfolding uint64_of_int
same_int i h = ground (arith, h)

-- What a state file keeps of a mail.
abbrev pub kept_mail : MailInfo → MailInfo
kept_mail mi = if mi.logged == 0 then no_mailinfo else mi

abbrev pub IsStoredMail : MailInfo → Type 0
IsStoredMail mi = (mi.logged < 2 ^ 31) × (mi.firstsent < 2 ^ 64) × (mi.lastsent < 2 ^ 64)

mail_written :
    (pre post : List MailInfo) (mi : MailInfo) (j : ℕ) (s : DevState)
    → length pre ≡ suc j
    → IsStoredMail mi
    → set_keys (write_mail (suc j) mi) (record s { maillog = pre ++ (no_mailinfo ∷ post) })
      ≡ record s { maillog = pre ++ (kept_mail mi ∷ post) }
unfolding write_mail
mail_written pre post mi j s len h =
    let logs : MailInfo → DevState = λ x. record s { maillog = pre ++ (x ∷ post) } in
    let m1 : MailInfo = record { logged = mi.logged; firstsent = 0; lastsent = 0 } in
    let m2 : MailInfo = record m1 { firstsent = mi.firstsent } in
    let fits : u32 mi.logged ≡ mi.logged = omega (arith, h.0) in
    let count = write_dev_state_line (Key.mail_count (suc j)) (uint64_of_int mi.logged) in
    let first = write_dev_state_line (Key.mail_first_sent_time (suc j)) mi.firstsent in
    let last = write_dev_state_line (Key.mail_last_sent_time (suc j)) mi.lastsent in
    if-each (λ (ws : List (Key × ℕ)). set_keys ws (logs no_mailinfo) ≡ logs (kept_mail mi))
      (mi.logged == 0) (λ t. rw t refl)
      (λ f. rw f (
        chain count (first ++ last) (logs no_mailinfo) (logs m1) (logs mi)
          (set_keys-line (Key.mail_count (suc j)) (uint64_of_int mi.logged) (logs no_mailinfo)
            (logs m1)
            (rw (same_int mi.logged h.0) (
              set_mail_at (suc j) pre post no_mailinfo (λ x. record x { logged = u32 mi.logged }) s
                len
              ∙ ap (λ (l : ℕ). logs (record m1 { logged = l })) fits))
            (λ z. let e : mi.logged ≡ 0 = omega (arith, z, same_int mi.logged h.0) in rw e refl))
          (chain first last (logs m1) (logs m2) (logs mi)
            (set_keys-line (Key.mail_first_sent_time (suc j)) mi.firstsent (logs m1) (logs m2)
              (set_mail_at (suc j) pre post m1 (λ x. record x { firstsent = mi.firstsent }) s len)
              (λ z. rw z refl))
            (set_keys-line (Key.mail_last_sent_time (suc j)) mi.lastsent (logs m2) (logs mi)
              (set_mail_at (suc j) pre post m2 (λ x. record x { lastsent = mi.lastsent }) s len)
              (λ z. rw z refl)))))

pub mails_written :
    (pre ms : List MailInfo) (j : ℕ) (s : DevState)
    → length pre ≡ suc j
    → All IsStoredMail ms
    → set_keys
        (write_each write_mail (suc j) ms)
        (record s { maillog = pre ++ replicate (length ms) no_mailinfo })
      ≡ record s { maillog = pre ++ map kept_mail ms }
unfolding write_each
mails_written pre [] j s len h = refl
mails_written pre (mi ∷ ms) j s len h =
    let post = replicate (length ms) no_mailinfo in
    let more = pre ++ (kept_mail mi ∷ []) in
    chain (write_mail (suc j) mi) (write_each write_mail (suc (suc j)) ms)
      (record s { maillog = pre ++ (no_mailinfo ∷ post) })
      (record s { maillog = pre ++ (kept_mail mi ∷ post) })
      (record s { maillog = pre ++ (kept_mail mi ∷ map kept_mail ms) })
      (mail_written pre post mi j s len h.0)
      (rw (sym (append_assoc pre (kept_mail mi ∷ []) post)) (
        rw (sym (append_assoc pre (kept_mail mi ∷ []) (map kept_mail ms))) (
          mails_written more ms (suc j) s
            (omega (arith, length-append pre (kept_mail mi ∷ []), len)) h.1)))

set_attribute_at :
    (i : ℕ) (pre post : List AtaAttribute) (x : AtaAttribute) (f : AtaAttribute → AtaAttribute)
    (s : DevState)
    → length pre ≡ i
    → set_attribute i f (record s { ata_attributes = pre ++ (x ∷ post) })
      ≡ record s { ata_attributes = pre ++ (f x ∷ post) }
set_attribute_at i pre post x f s len =
    rw (sym len)
      (rw (get_or-append pre post x no_attribute) (rw (set-append pre post x (f x)) refl))

-- What a state file keeps of an attribute.
abbrev pub kept_attribute : AtaAttribute → AtaAttribute
kept_attribute pa = if pa.id == 0 then no_attribute else pa

abbrev pub IsStoredAttribute : AtaAttribute → Type 0
IsStoredAttribute pa =
    (pa.id < 256) × (pa.val < 256) × (pa.worst < 256) × (pa.raw < 2 ^ 64) × (pa.resvd < 256)

attribute_written :
    (pre post : List AtaAttribute) (pa : AtaAttribute) (i : ℕ) (s : DevState)
    → length pre ≡ i
    → IsStoredAttribute pa
    → set_keys (write_attribute i pa) (record s { ata_attributes = pre ++ (no_attribute ∷ post) })
      ≡ record s { ata_attributes = pre ++ (kept_attribute pa ∷ post) }
unfolding write_attribute
attribute_written pre post pa i s len h =
    let tables : AtaAttribute → DevState = λ x. record s { ata_attributes = pre ++ (x ∷ post) } in
    let a1 : AtaAttribute = record { id = pa.id; val = 0; worst = 0; raw = 0; resvd = 0 } in
    let a2 : AtaAttribute = record a1 { val = pa.val } in
    let a3 : AtaAttribute = record a2 { worst = pa.worst } in
    let a4 : AtaAttribute = record a3 { raw = pa.raw } in
    let id = write_dev_state_line (Key.attribute_id i) pa.id in
    let val = write_dev_state_line (Key.attribute_val i) pa.val in
    let worst = write_dev_state_line (Key.attribute_worst i) pa.worst in
    let raw = write_dev_state_line (Key.attribute_raw i) pa.raw in
    let resvd = write_dev_state_line (Key.attribute_resvd i) pa.resvd in
    if-each
      (λ (ws : List (Key × ℕ)). set_keys ws (tables no_attribute) ≡ tables (kept_attribute pa))
      (pa.id == 0) (λ t. rw t refl)
      (λ f. rw f (
        chain id (val ++ (worst ++ (raw ++ resvd))) (tables no_attribute) (tables a1) (tables pa)
          (set_keys-line (Key.attribute_id i) pa.id (tables no_attribute) (tables a1)
            (set_attribute_at i pre post no_attribute (λ x. record x { id = u8 pa.id }) s len
              ∙ ap (λ (b : ℕ). tables (record a1 { id = b })) (same_byte pa.id h.0))
            (λ z. rw z refl))
          (chain val (worst ++ (raw ++ resvd)) (tables a1) (tables a2) (tables pa)
            (set_keys-line (Key.attribute_val i) pa.val (tables a1) (tables a2)
              (set_attribute_at i pre post a1 (λ x. record x { val = u8 pa.val }) s len
                ∙ ap (λ (b : ℕ). tables (record a1 { val = b })) (same_byte pa.val h.1))
              (λ z. rw z refl))
            (chain worst (raw ++ resvd) (tables a2) (tables a3) (tables pa)
              (set_keys-line (Key.attribute_worst i) pa.worst (tables a2) (tables a3)
                (set_attribute_at i pre post a2 (λ x. record x { worst = u8 pa.worst }) s len
                  ∙ ap (λ (b : ℕ). tables (record a2 { worst = b })) (same_byte pa.worst h.2))
                (λ z. rw z refl))
              (chain raw resvd (tables a3) (tables a4) (tables pa)
                (set_keys-line (Key.attribute_raw i) pa.raw (tables a3) (tables a4)
                  (set_attribute_at i pre post a3 (λ x. record x { raw = pa.raw }) s len)
                  (λ z. rw z refl))
                (set_keys-line (Key.attribute_resvd i) pa.resvd (tables a4) (tables pa)
                  (set_attribute_at i pre post a4 (λ x. record x { resvd = u8 pa.resvd }) s len
                    ∙ ap (λ (b : ℕ). tables (record a4 { resvd = b })) (same_byte pa.resvd h.4))
                  (λ z. rw z refl)))))))

pub attributes_written :
    (pre ms : List AtaAttribute) (i : ℕ) (s : DevState)
    → length pre ≡ i
    → All IsStoredAttribute ms
    → set_keys
        (write_each write_attribute i ms)
        (record s { ata_attributes = pre ++ replicate (length ms) no_attribute })
      ≡ record s { ata_attributes = pre ++ map kept_attribute ms }
unfolding write_each
attributes_written pre [] i s len h = refl
attributes_written pre (pa ∷ ms) i s len h =
    let post = replicate (length ms) no_attribute in
    let more = pre ++ (kept_attribute pa ∷ []) in
    chain (write_attribute i pa) (write_each write_attribute (suc i) ms)
      (record s { ata_attributes = pre ++ (no_attribute ∷ post) })
      (record s { ata_attributes = pre ++ (kept_attribute pa ∷ post) })
      (record s { ata_attributes = pre ++ (kept_attribute pa ∷ map kept_attribute ms) })
      (attribute_written pre post pa i s len h.0)
      (rw (sym (append_assoc pre (kept_attribute pa ∷ []) post)) (
        rw (sym (append_assoc pre (kept_attribute pa ∷ []) (map kept_attribute ms))) (
          attributes_written more ms (suc i) s
            (omega (arith, length-append pre (kept_attribute pa ∷ []), len)) h.1)))
