-- ===== src/Tokens/Backup/Consume.antt =====
-- A backup code is accepted once.
use harbour_find_my_device.Prelude.{
  ℕ, ◌+◌, ◌≤◌, ◌≡◌, refl, ap, sym, ◌∙◌, false, List, [], ◌∷◌, any, keep, length, ◌=?◌, =?_iff,
  arith, Bool-cases, inl, inr, if◌then◌else◌,
}
use harbour_find_my_device.Text.{Text}
use harbour_find_my_device.Database.{BackupCode, Db}
use harbour_find_my_device.Tokens.Backup.{
  is_usable, mark_used, has_hash, hash_code, normalize_code, consume_backup_code, count_unused,
  count_unused_backup_codes,
}

-- UNIQUE Code_Hash
abbrev pub UniqueHashes : List BackupCode → Type 0
UniqueHashes [] = Unit
UniqueHashes (c ∷ rows) = (has_hash c.code_hash rows ≡ false) × UniqueHashes rows

abbrev pub usable : Text → Text → List BackupCode → ℕ
usable k h rows = length (keep (is_usable k h) rows)

usable-mark_used :
    (k h now : Text) (rows : List BackupCode) → usable k h (mark_used k h now rows) ≡ 0
unfolding mark_used is_usable keep
usable-mark_used k h now [] = refl
usable-mark_used k h now (c ∷ rows) = ground (arith, usable-mark_used k h now rows)

mark_used-none :
    (k h now : Text) (rows : List BackupCode) → usable k h rows ≡ 0 → mark_used k h now rows ≡ rows
unfolding mark_used keep
mark_used-none k h now [] e = refl
mark_used-none k h now (c ∷ rows) e = ground (arith, mark_used-none k h now rows)

-- each row that is marked was counted
count-mark_used :
    (k h now : Text) (rows : List BackupCode)
    → count_unused k (mark_used k h now rows) + usable k h rows ≡ count_unused k rows
unfolding count_unused mark_used is_usable keep
count-mark_used k h now [] = omega arith
count-mark_used k h now (c ∷ rows) = ground (arith, count-mark_used k h now rows)

count-mark_used_other :
    (k j h now : Text) (rows : List BackupCode)
    → (k =? j) ≡ false
    → count_unused j (mark_used k h now rows) ≡ count_unused j rows
unfolding count_unused mark_used is_usable keep
count-mark_used_other k j h now [] n = refl
count-mark_used_other k j h now (c ∷ rows) n = ground (
  arith,
  count-mark_used_other k j h now rows n,
  =?_iff c.device_id k,
  =?_iff c.device_id j,
  =?_iff k j,
)

usable-absent :
    (k h : Text) (rows : List BackupCode) → has_hash h rows ≡ false → usable k h rows ≡ 0
unfolding has_hash any is_usable keep
usable-absent k h [] e = refl
usable-absent k h (c ∷ rows) e = ground (arith, usable-absent k h rows)

usable-le_other :
    (k h : Text) (c : BackupCode) (rows : List BackupCode)
    → (c.code_hash =? h) ≡ false
    → usable k h rows ≤ 1
    → usable k h (c ∷ rows) ≤ 1
unfolding is_usable keep
usable-le_other k h c rows n le = ground arith

usable-le_first :
    (k h : Text) (c : BackupCode) (rows : List BackupCode)
    → usable k h rows ≡ 0
    → usable k h (c ∷ rows) ≤ 1
unfolding keep
usable-le_first k h c rows e = ground arith

pub usable-le_one : (k h : Text) (rows : List BackupCode) → UniqueHashes rows → usable k h rows ≤ 1
usable-le_one k h [] u = unfold keep in omega arith
usable-le_one k h (c ∷ rows) u = elim (Bool-cases (c.code_hash =? h)) [
  | inl e ↦
      let absent : has_hash h rows ≡ false =
        ap (λ x. has_hash x rows) (sym ((=?_iff c.code_hash h).0 e)) ∙ u.0 in
      usable-le_first k h c rows (usable-absent k h rows absent)
  | inr n ↦ usable-le_other k h c rows n (usable-le_one k h rows u.1)
]

module _ (sha256 : Text → Text) (code k now : Text) (db : Db) where
  -- A backup code is accepted once at most: in the database that a call with it leaves, the same
  -- code, however it is written, is refused and nothing changes.
  pub consume_backup_code_once :
      (again later : Text)
      → normalize_code again ≡ normalize_code code
      → consume_backup_code sha256 again k later (consume_backup_code sha256 code k now db).1
        ≡ (false, (consume_backup_code sha256 code k now db).1)
  unfolding consume_backup_code hash_code
  consume_backup_code_once again later e =
      let h = sha256 (normalize_code code) in
      let used_up = usable-mark_used k h now db.backup_codes in
      rw (e, used_up, mark_used-none k h later (mark_used k h now db.backup_codes) used_up)

  module _ (unique : UniqueHashes db.backup_codes) where
    -- Where the digests are distinct, an accepted code leaves one unused code less, and a refused
    -- one as many as before.
    pub consume_backup_code_counts :
        (count_unused_backup_codes k (consume_backup_code sha256 code k now db).1
            + (if (consume_backup_code sha256 code k now db).0 then 1 else 0)
          ≡ count_unused_backup_codes k db)
    unfolding consume_backup_code count_unused_backup_codes
    consume_backup_code_counts =
        let h = hash_code sha256 code in
        ground
          (arith, count-mark_used k h now db.backup_codes, usable-le_one k h db.backup_codes unique)

    -- Where the digests are distinct, a code that is refused changes nothing.
    pub consume_backup_code_refused :
        (consume_backup_code sha256 code k now db).0 ≡ false
        → (consume_backup_code sha256 code k now db).1 ≡ db
    unfolding consume_backup_code
    consume_backup_code_refused no_code =
        let h = hash_code sha256 code in
        let zero_left : usable k h db.backup_codes ≡ 0 =
          ground (arith, usable-le_one k h db.backup_codes unique) in
        rw (mark_used-none k h now db.backup_codes zero_left)

  -- Whatever the code, the codes of another device stay as many.
  pub consume_backup_code_other :
      (j : Text)
      → (k =? j) ≡ false
      → count_unused_backup_codes j (consume_backup_code sha256 code k now db).1
        ≡ count_unused_backup_codes j db
  unfolding consume_backup_code count_unused_backup_codes
  consume_backup_code_other j n =
      count-mark_used_other k j (hash_code sha256 code) now db.backup_codes n
