-- ===== src/Storage/Moves.antt =====
-- Renaming, moving, copying a key and swapping databases.
use ai_kv.Base.{
  ℕ, ◌≡◌, refl, Bool, true, false, not, ◌&&◌, none, some, ◌==◌, arith, if◌then◌else◌, is_some,
}
use ai_kv.Text.{Bytes, bytes_eq}
use ai_kv.Error.{ok}
use ai_kv.Storage.Value.{StoredValue, is_expired}
use ai_kv.Storage.Adapter.{StorageAdapter, find, insert_at, remove_at, exists_in_db}
use ai_kv.Storage.Keyspace.{rename_in_db, rename_nx_in_db, move_key, copy_in_db}
use ai_kv.Storage.View.{
  view, InRange, view-insert_at, view-remove_at, length-remove_at, find_of_view, InRange-of_view,
}

-- The value at one key has gone to another, which may be the same one: all else is as before.
abbrev pub Moved :
    ℕ → StorageAdapter → ℕ → Bytes → ℕ → Bytes → StoredValue → StorageAdapter → Type 0
Moved now s src src_key dst dst_key v s' =
    (j : ℕ) (k : Bytes)
    → view now s' j k ≡ (
        if dst == j && bytes_eq dst_key k
        then some v
        else if src == j && bytes_eq src_key k
        then none
        else view now s j k)

module _ (now : ℕ) (s : StorageAdapter) (src : ℕ) (src_key : Bytes) (v : StoredValue) where
  move_shows :
      (dst : ℕ) (dst_key : Bytes)
      → view now s src src_key ≡ some v
      → InRange s dst
      → Moved now s src src_key dst dst_key v (insert_at dst dst_key v (remove_at src src_key s))
  move_shows dst dst_key e h j k =
      let h' : InRange (remove_at src src_key s) dst =
        omega (arith, length-remove_at s src src_key) in
      ground (
        arith,
        view-insert_at (remove_at src src_key s) dst dst_key now v j k h',
        view-remove_at s src src_key now j k,
        find_of_view now s src src_key v e,
      )

-- RENAME's storage call, on a key that shows `v`: returns true, the new key shows `v`, its time
-- included, the old key shows nothing unless it is the new one, and all else is as before.
pub rename_in_db_contract :
    (now db : ℕ) (old_key new_key : Bytes) (s : StorageAdapter) (v : StoredValue)
    → view now s db old_key ≡ some v
    → ((rename_in_db now db old_key new_key s).0 ≡ ok true)
      × Moved now s db old_key db new_key v (rename_in_db now db old_key new_key s).1
rename_in_db_contract now db old_key new_key s v e =
    rw renamed
      (refl, move_shows now s db old_key v db new_key e (InRange-of_view now s db old_key v e))
  where
    renamed :
        rename_in_db now db old_key new_key s
        ≡ (ok true, insert_at db new_key v (remove_at db old_key s))
    renamed = unfold rename_in_db in ground (arith, find_of_view now s db old_key v e)

-- What is shown where the move is refused if `refused`.
abbrev pub MovedUnless :
    Bool → ℕ → StorageAdapter → ℕ → Bytes → ℕ → Bytes → StoredValue → StorageAdapter → Type 0
MovedUnless refused now s src src_key dst dst_key v s' =
    (j : ℕ) (k : Bytes)
    → view now s' j k ≡ (
        if refused
        then view now s j k
        else if dst == j && bytes_eq dst_key k
        then some v
        else if src == j && bytes_eq src_key k
        then none
        else view now s j k)

-- RENAMENX's storage call, on a key that shows `v`: returns true exactly if the new key has no entry,
-- expired or not, and then the value has gone to the new key; else nothing changes.
pub rename_nx_in_db_contract :
    (now db : ℕ) (old_key new_key : Bytes) (s : StorageAdapter) (v : StoredValue)
    → view now s db old_key ≡ some v
    → ((rename_nx_in_db now db old_key new_key s).0 ≡ ok (not (is_some (find s db new_key))))
      × MovedUnless
          (is_some (find s db new_key))
          now
          s
          db
          old_key
          db
          new_key
          v
          (rename_nx_in_db now db old_key new_key s).1
unfolding rename_nx_in_db
rename_nx_in_db_contract now db old_key new_key s v e =
    let hit = find_of_view now s db old_key v e in
    let moved = move_shows now s db old_key v db new_key e (InRange-of_view now s db old_key v e) in
    (ground arith, λ j k. ground (arith, moved j k))

-- A key that has expired and has not been dropped yet does not exist for `exists_in_db`, and still makes
-- RENAMENX's storage call to it return false and change nothing.
pub expired_entry_blocks :
    (now db : ℕ) (old_key new_key : Bytes) (s : StorageAdapter) (w : StoredValue)
    → find s db new_key ≡ some w
    → is_expired now w ≡ true
    → ((exists_in_db now db new_key s).0 ≡ ok false)
      × (rename_nx_in_db now db old_key new_key s ≡ (ok false, s))
unfolding exists_in_db rename_nx_in_db
expired_entry_blocks now db old_key new_key s w e x = (ground arith, ground arith)

-- COPY's storage call between databases that are there, from a key that shows `v`: refused, with
-- nothing changed, if the destination has an entry and `replace` is false; else it returns true, the
-- destination shows `v`, its time included, and all else, the source too, is as before.
pub copy_in_db_contract :
    (now src dst : ℕ) (src_key dst_key : Bytes) (replace : Bool) (s : StorageAdapter)
    (v : StoredValue)
    → InRange s dst
    → view now s src src_key ≡ some v
    → ((copy_in_db now src dst src_key dst_key replace s).0
        ≡ ok (not (is_some (find s dst dst_key) && not replace)))
      × ((j : ℕ) (k : Bytes)
          → view now (copy_in_db now src dst src_key dst_key replace s).1 j k ≡ (
              if dst == j && bytes_eq dst_key k && not (is_some (find s dst dst_key) && not replace)
              then some v
              else view now s j k))
unfolding copy_in_db
copy_in_db_contract now src dst src_key dst_key replace s v h e =
    let hit = find_of_view now s src src_key v e in
    let in_range = InRange-of_view now s src src_key v e in
    (ground arith, λ j k. ground (arith, view-insert_at s dst dst_key now v j k h))

-- MOVE's storage call between databases that are there, on a key that shows `v`: returns true exactly
-- if the destination has no entry for the key, and then the value has moved; else nothing changes.
pub move_key_contract :
    (now src dst : ℕ) (key : Bytes) (s : StorageAdapter) (v : StoredValue)
    → InRange s dst
    → view now s src key ≡ some v
    → ((move_key now src dst key s).0 ≡ ok (not (is_some (find s dst key))))
      × MovedUnless
          (is_some (find s dst key))
          now
          s
          src
          key
          dst
          key
          v
          (move_key now src dst key s).1
unfolding move_key
move_key_contract now src dst key s v h e =
    let hit = find_of_view now s src key v e in
    let in_range = InRange-of_view now s src key v e in
    let moved = move_shows now s src key v dst key e h in
    (ground arith, λ j k. ground (arith, moved j k))
