-- ===== src/Tokens/Backup/Generate.antt =====
-- The codes that `generate_backup_codes` returns are the ones that are accepted afterwards.
use harbour_find_my_device.Prelude.{
  ℕ, zero, suc, ◌+◌, ◌≤◌, ◌≡◌, refl, ap, Bool, true, false, not, ◌||◌, List, [], ◌∷◌, ◌++◌, map,
  any, keep, length, ◌=?◌, =?_iff, =?_refl, arith, Bool-cases, inl, inr, if◌then◌else◌, All,
}
use harbour_find_my_device.Text.{Text}
use harbour_find_my_device.Exception.{Result, ok, raise, ◌>>=◌}
use harbour_find_my_device.Database.{BackupCode, Db, has_device}
use harbour_find_my_device.Tokens.Backup.{
  pretty, draw_codes, is_usable, has_hash, fresh_code, insert_code, insert_codes, delete_codes,
  hash_code, normalize_code, consume_backup_code, generate_backup_codes, count_unused,
  count_unused_backup_codes,
}
use harbour_find_my_device.Tokens.Backup.Consume.{UniqueHashes, usable, usable-le_one}
use harbour_find_my_device.Tokens.Backup.Normal.{normalize-pretty}

usable-append :
    (k h h' now : Text) (i : ℕ) (rows : List BackupCode)
    → usable k h (rows ++ (fresh_code i k h' now ∷ []))
      ≡ usable k h rows + (if h' =? h then 1 else 0)
unfolding is_usable keep
usable-append k h h' now i [] = ground (arith, =?_refl k)
usable-append k h h' now i (c ∷ rows) = ground (arith, usable-append k h h' now i rows)

count-append :
    (k h now : Text) (i : ℕ) (rows : List BackupCode)
    → count_unused k (rows ++ (fresh_code i k h now ∷ [])) ≡ count_unused k rows + 1
unfolding count_unused keep
count-append k h now i [] = ground (arith, =?_refl k)
count-append k h now i (c ∷ rows) = ground (arith, count-append k h now i rows)

has_hash-append :
    (h : Text) (rows : List BackupCode) (c : BackupCode)
    → has_hash h (rows ++ (c ∷ [])) ≡ (has_hash h rows || c.code_hash =? h)
unfolding has_hash any
has_hash-append h [] c = ground arith
has_hash-append h (r ∷ rows) c = ground (arith, has_hash-append h rows c)

UniqueHashes-append :
    (rows : List BackupCode) (c : BackupCode)
    → UniqueHashes rows
    → has_hash c.code_hash rows ≡ false
    → UniqueHashes (rows ++ (c ∷ []))
UniqueHashes-append [] c u n = (unfold has_hash any in refl, tt)
UniqueHashes-append (r ∷ rows) c u n = (
  unfold has_hash any in
      ground (
        arith,
        has_hash-append r.code_hash rows c,
        =?_iff c.code_hash r.code_hash,
        =?_iff r.code_hash c.code_hash,
      ),
  UniqueHashes-append rows c u.1 (unfold has_hash any in ground arith),
)

has_hash-keep :
    (h : Text) (p : BackupCode → Bool) (rows : List BackupCode)
    → has_hash h rows ≡ false
    → has_hash h (keep p rows) ≡ false
unfolding has_hash any keep
has_hash-keep h p [] n = refl
has_hash-keep h p (r ∷ rows) n = ground (arith, has_hash-keep h p rows)

UniqueHashes-keep :
    (p : BackupCode → Bool) (rows : List BackupCode)
    → UniqueHashes rows
    → UniqueHashes (keep p rows)
unfolding keep
UniqueHashes-keep p [] u = tt
UniqueHashes-keep p (r ∷ rows) u = elim (Bool-cases (p r)) [
  | inl kept ↦ rw kept (has_hash-keep r.code_hash p rows u.0, UniqueHashes-keep p rows u.1)
  | inr gone ↦ rw gone (UniqueHashes-keep p rows u.1)
]

count-delete :
    (k : Text) (rows : List BackupCode)
    → count_unused k (keep (λ c. not (c.device_id =? k)) rows) ≡ 0
unfolding count_unused keep
count-delete k [] = refl
count-delete k (c ∷ rows) = ground (arith, count-delete k rows)

inserted :
    (k h now : Text) (db db' : Db)
    → insert_code k h now db ≡ ok db'
    → (has_hash h db.backup_codes ≡ false)
      × (db.backup_codes ++ (fresh_code (db.code_seq + 1) k h now ∷ []) ≡ db'.backup_codes)
unfolding insert_code
inserted k h now db db' e =
    elim (Bool-cases (has_hash h db.backup_codes || not (has_device k db.devices))) [
      | inl bad ↦ absurd (ground arith)
      | inr good ↦ ground arith
    ]

bind-ok :
    (r : Result Db) (f : Db → Result Db) (db' : Db)
    → (r >>= f) ≡ ok db'
    → (mid : Db) × (r ≡ ok mid) × (f mid ≡ ok db')
bind-ok (ok mid) f db' e = (mid, refl, e)
bind-ok (raise x) f db' e = absurd (ground arith)

module _ (sha256 : Text → Text) (k now : Text) where
  insert_codes-UniqueHashes :
      (raws : List Text) (db db' : Db)
      → UniqueHashes db.backup_codes
      → insert_codes sha256 raws k now db ≡ ok db'
      → UniqueHashes db'.backup_codes
  unfolding insert_codes
  insert_codes-UniqueHashes [] db db' u e = let same : db ≡ db' = ground arith in rw (← same) u
  insert_codes-UniqueHashes (raw ∷ raws) db db' u e =
      let (mid, one, rest) = bind-ok _ _ db' e in
      let (new, rows) = inserted k (hash_code sha256 raw) now db mid one in
      insert_codes-UniqueHashes raws mid db'
        (rw (← rows) (UniqueHashes-append db.backup_codes _ u new)) rest

  insert_codes-counts :
      (raws : List Text) (db db' : Db)
      → insert_codes sha256 raws k now db ≡ ok db'
      → count_unused k db'.backup_codes ≡ count_unused k db.backup_codes + length raws
  unfolding insert_codes
  insert_codes-counts [] db db' e = let same : db ≡ db' = ground arith in rw (← same) (omega arith)
  insert_codes-counts (raw ∷ raws) db db' e =
      let (mid, one, rest) = bind-ok _ _ db' e in
      let (new, rows) = inserted k (hash_code sha256 raw) now db mid one in
      let grown = count-append k (hash_code sha256 raw) now (db.code_seq + 1) db.backup_codes in
      omega (arith, insert_codes-counts raws mid db' rest, grown, ap (count_unused k) rows)

  -- an insertion makes no code unusable
  insert_codes-le :
      (raws : List Text) (db db' : Db) (h : Text)
      → insert_codes sha256 raws k now db ≡ ok db'
      → usable k h db.backup_codes ≤ usable k h db'.backup_codes
  unfolding insert_codes
  insert_codes-le [] db db' h e = let same : db ≡ db' = ground arith in rw (← same) (omega arith)
  insert_codes-le (raw ∷ raws) db db' h e =
      let (mid, one, rest) = bind-ok _ _ db' e in
      let (new, rows) = inserted k (hash_code sha256 raw) now db mid one in
      let grown = usable-append k h (hash_code sha256 raw) now (db.code_seq + 1) db.backup_codes in
      omega (arith, insert_codes-le raws mid db' h rest, grown, ap (usable k h) rows)

  insert_codes-usable :
      (raws : List Text) (db db' : Db)
      → insert_codes sha256 raws k now db ≡ ok db'
      → All (λ raw. 1 ≤ usable k (hash_code sha256 raw) db'.backup_codes) raws
  unfolding insert_codes
  insert_codes-usable [] db db' e = tt
  insert_codes-usable (raw ∷ raws) db db' e =
      let h = hash_code sha256 raw in
      let (mid, one, rest) = bind-ok _ _ db' e in
      let (new, rows) = inserted k h now db mid one in
      let grown = usable-append k h h now (db.code_seq + 1) db.backup_codes in
      let first : 1 ≤ usable k h mid.backup_codes =
        ground (arith, grown, =?_refl h, ap (usable k h) rows) in
      (omega (arith, insert_codes-le raws mid db' h rest), insert_codes-usable raws mid db' rest)

length-draw_codes : (random : ℕ → ℕ) (i count : ℕ) → length (draw_codes random i count) ≡ count
unfolding draw_codes
length-draw_codes random i zero = refl
length-draw_codes random i (suc count) = ap suc (length-draw_codes random (i + 1) count)

module _ (sha256 : Text → Text) (random : ℕ → ℕ) (count : ℕ) (k now : Text) (db : Db) where
  -- what a successful generation is made of
  generated :
      (plain : List Text) (db' : Db)
      → generate_backup_codes sha256 random count k now db ≡ ok (plain, db')
      → (insert_codes sha256 (draw_codes random 0 count) k now (delete_codes k db) ≡ ok db')
        × (map pretty (draw_codes random 0 count) ≡ plain)
  unfolding generate_backup_codes
  generated plain db' e =
      made (insert_codes sha256 (draw_codes random 0 count) k now (delete_codes k db)) e
    where
      made :
          (r : Result Db)
          → ◌>>=◌ {B = List Text × Db} r (λ d. ok (map pretty (draw_codes random 0 count), d))
            ≡ ok (plain, db')
          → (r ≡ ok db') × (map pretty (draw_codes random 0 count) ≡ plain)
      made (ok d) e' = ground arith
      made (raise x) e' = absurd (ground arith)

  -- A generation that succeeds leaves as many unused codes of the device as were asked for: the old
  -- ones are gone.
  pub generate_backup_codes_count :
      (plain : List Text) (db' : Db)
      → generate_backup_codes sha256 random count k now db ≡ ok (plain, db')
      → count_unused_backup_codes k db' ≡ count
  unfolding count_unused_backup_codes
  generate_backup_codes_count plain db' e =
      let none_left : count_unused k (delete_codes k db).backup_codes ≡ 0 =
        unfold delete_codes in count-delete k db.backup_codes in
      omega (
        arith,
        insert_codes-counts sha256 k now (draw_codes random 0 count) (delete_codes k db) db'
            (generated plain db' e).0,
        none_left,
        length-draw_codes random 0 count,
      )

  accepts :
      (code later : Text) (db' : Db) (raw : Text)
      → UniqueHashes db'.backup_codes
      → 1 ≤ usable k (hash_code sha256 raw) db'.backup_codes
      → normalize_code code ≡ normalize_code raw
      → (consume_backup_code sha256 code k later db').0 ≡ true
  unfolding consume_backup_code hash_code
  accepts code later db' raw u h e =
      rw e (ground (arith, usable-le_one k (sha256 (normalize_code raw)) db'.backup_codes u))

  All-accepted :
      (raws : List Text) (later : Text) (db' : Db)
      → UniqueHashes db'.backup_codes
      → All (λ raw. 1 ≤ usable k (hash_code sha256 raw) db'.backup_codes) raws
      → All (λ code. (consume_backup_code sha256 code k later db').0 ≡ true) (map pretty raws)
  All-accepted [] later db' u h = tt
  All-accepted (raw ∷ raws) later db' u h = (
    accepts (pretty raw) later db' raw u h.0 (normalize-pretty raw),
    All-accepted raws later db' u h.1,
  )

  -- Where the digests are distinct before, each of the codes that a successful generation returns is
  -- accepted in the database that it leaves.
  pub generated_codes_accepted :
      (plain : List Text) (db' : Db) (later : Text)
      → UniqueHashes db.backup_codes
      → generate_backup_codes sha256 random count k now db ≡ ok (plain, db')
      → All (λ code. (consume_backup_code sha256 code k later db').0 ≡ true) plain
  generated_codes_accepted plain db' later u e =
      let (inserts, shown) = generated plain db' e in
      let start : UniqueHashes (delete_codes k db).backup_codes =
        unfold delete_codes in UniqueHashes-keep (λ c. not (c.device_id =? k)) db.backup_codes u in
      rw (← shown) (
        All-accepted (draw_codes random 0 count) later db'
          (insert_codes-UniqueHashes sha256 k now (draw_codes random 0 count) (delete_codes k db)
            db' start inserts)
          (insert_codes-usable sha256 k now (draw_codes random 0 count) (delete_codes k db) db'
            inserts))
