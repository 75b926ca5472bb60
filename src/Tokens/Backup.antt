-- ===== src/Tokens/Backup.antt =====
-- The backup codes of SMS commands: stored as digests, and used up one by one. `sha256` stands for
-- the hex digest of `hashlib.sha256`. `code` texts are upper-cased and stripped of every character
-- outside the alphabet before they are compared.
pub mod Consume
mod Normal
pub mod Generate
use harbour_find_my_device.Prelude.{
  map, ℕ, zero, suc, ◌+◌, ◌*◌, ◌%◌, Bool, true, false, not, ◌&&◌, ◌||◌, Option, none, some, List,
  [], ◌∷◌, ◌++◌, any, keep, length, take, drop, ◌==◌, ◌=?◌, if◌then◌else◌,
}
use harbour_find_my_device.Text.{Text, codes, upper, is_empty}
use harbour_find_my_device.Exception.{Result, ok, raise, integrity_error, ◌>>=◌}
use harbour_find_my_device.Database.{BackupCode, Db, Sql, has_device}
use harbour_find_my_device.Devices.{get_device}

abbrev backup_alphabet : Text
backup_alphabet = codes "23456789ABCDEFGHJKLMNPQRSTUVWXYZ"

unfoldable pub in_alphabet : ℕ → Bool
in_alphabet c = any (λ x. x == c) backup_alphabet

unfoldable pub normalize_code : Text → Text
normalize_code code = keep in_alphabet (upper code)

-- `secrets.choice(_BACKUP_ALPHABET)`, on the random number `r`
char_of : Text → ℕ → ℕ
char_of [] i = b'2'
char_of (c ∷ s) zero = c
char_of (c ∷ s) (suc i) = char_of s i

choice : ℕ → ℕ
unfolding char_of
choice r = char_of backup_alphabet (r % 32)

unfoldable pub raw_code : (ℕ → ℕ) → ℕ → ℕ → Text
unfolding choice char_of
raw_code random i zero = []
raw_code random i (suc n) = choice (random i) ∷ raw_code random (i + 1) n

-- `raw[:4] + "-" + raw[4:]`
unfoldable pub pretty : Text → Text
pretty raw = take 4 raw ++ (b'-' ∷ drop 4 raw)

-- the codes `count` draws make
draw_codes : (ℕ → ℕ) → ℕ → ℕ → List Text
draw_codes random i zero = []
draw_codes random i (suc count) = raw_code random (i * 8) 8 ∷ draw_codes random (i + 1) count

-- WHERE Device_Id = ? AND Code_Hash = ? AND Used = 0
unfoldable pub is_usable : Text → Text → BackupCode → Bool
is_usable k h c = c.device_id =? k && c.code_hash =? h && not c.used

-- the UPDATE of `consume_backup_code`
unfoldable pub mark_used : Text → Text → Text → List BackupCode → List BackupCode
mark_used k h now [] = []
mark_used k h now (c ∷ rows) =
    (if is_usable k h c then record c { used = true; used_utc = some now } else c)
    ∷ mark_used k h now rows

abbrev pub fresh_code : ℕ → Text → Text → Text → BackupCode
fresh_code id k h now = record {
  id = id;
  device_id = k;
  code_hash = h;
  used = false;
  used_utc = none;
  created_utc = now;
}

unfoldable pub has_hash : Text → List BackupCode → Bool
has_hash h rows = any (λ c. c.code_hash =? h) rows

-- INSERT INTO backup_codes, under UNIQUE Code_Hash and the foreign key of the device
unfoldable pub insert_code : Text → Text → Text → Db → Result Db
insert_code k h now db =
    if has_hash h db.backup_codes || not (has_device k db.devices)
    then raise integrity_error
    else ok (record db {
      backup_codes = db.backup_codes ++ (fresh_code (db.code_seq + 1) k h now ∷ []);
      code_seq = db.code_seq + 1;
    })

unfoldable pub delete_codes : Text → Db → Db
delete_codes k db = record db { backup_codes = keep (λ c. not (c.device_id =? k)) db.backup_codes }

module _ (sha256 : Text → Text) where
  -- `_hash_code`
  unfoldable pub hash_code : Text → Text
  hash_code code = sha256 (normalize_code code)

  -- The result is `rowcount == 1`.
  unfoldable pub consume_backup_code : Text → Text → Text → Db → Bool × Db
  consume_backup_code code k now db =
      let h = hash_code code in
      (
        length (keep (is_usable k h) db.backup_codes) == 1,
        record db { backup_codes = mark_used k h now db.backup_codes },
      )

  unfoldable pub insert_codes : List Text → Text → Text → Db → Result Db
  insert_codes [] k now db = ok db
  insert_codes (raw ∷ raws) k now db = do
    db' ← insert_code k (hash_code raw) now db
    insert_codes raws k now db'

  -- The codes are returned in clear once, and stored as digests.
  unfoldable pub generate_backup_codes : (ℕ → ℕ) → ℕ → Text → Text → Sql (List Text)
  unfolding draw_codes
  generate_backup_codes random count k now db = do
    let raws = draw_codes random 0 count
    db' ← insert_codes raws k now (delete_codes k db)
    ok (map pretty raws, db')

-- SELECT COUNT(*) … WHERE Device_Id = ? AND Used = 0
unfoldable pub count_unused : Text → List BackupCode → ℕ
count_unused k rows = length (keep (λ c. c.device_id =? k && not c.used) rows)

unfoldable pub count_unused_backup_codes : Text → Db → ℕ
count_unused_backup_codes k db = count_unused k db.backup_codes
