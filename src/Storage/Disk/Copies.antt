-- ===== src/Storage/Disk/Copies.antt =====
-- src/storage/aidb_adapter.rs: the methods that move and copy a key. The bytes are copied as they are.
use ai_kv.Base.{
  ℕ, Bool, true, false, not, ◌&&◌, ◌||◌, Option, none, some, leb, length, is_some, if◌then◌else◌,
}
use ai_kv.Text.{Bytes}
use ai_kv.Error.{err, ok}
use ai_kv.Effect.{Effect, give, ◌>>=◌, ◌>>◌}
use ai_kv.Storage.Keyspace.{invalid_indices}
use ai_kv.Storage.Disk.{
  Db, Disk, read, put, remove, remove_quietly, check_index, is_expired, expiration_key,
}

module _ (db : Db) where
  check_indices : ℕ → ℕ → Effect (Disk db) (Unit {0})
  check_indices a b s =
      if leb (length s) a || leb (length s) b then (err (invalid_indices a b), s) else (ok tt, s)

  -- The encoded value of a key, if it is there and has not expired.
  live_bytes : ℕ → ℕ → Bytes → Effect (Disk db) (Option Bytes)
  live_bytes now i key = do
    expired ← is_expired db now i key
    if expired then give none else read db i "Failed to get value: " key

  put_copy : ℕ → Bytes → Option Bytes → Effect (Disk db) (Unit {0})
  put_copy i key none = give tt
  put_copy i key (some bytes) = put db i "Failed to put expiration: " (expiration_key key) bytes

  -- The value and then the time, if there is one. A time that is at the destination stays if there is none.
  copy_to : ℕ → Bytes → ℕ → Bytes → Bytes → Effect (Disk db) (Unit {0})
  unfolding put_copy
  copy_to src src_key dst dst_key value = do
    put db dst "Failed to put value: " dst_key value
    bytes ← read db src "Failed to get expiration: " (expiration_key src_key)
    put_copy dst dst_key bytes

  move_found : ℕ → ℕ → Bytes → Option Bytes → Effect (Disk db) Bool
  unfolding copy_to
  move_found src dst key none = give false
  move_found src dst key (some value) = do
    there ← read db dst "Failed to check destination: " key
    if is_some there then give false else (do
      copy_to src key dst key value
      remove db src "Failed to delete from source: " key
      remove_quietly db src (expiration_key key)
      give true)

  unfoldable pub move_key : ℕ → ℕ → ℕ → Bytes → Effect (Disk db) Bool
  unfolding check_indices live_bytes move_found
  move_key now src dst key = do
    check_indices src dst
    value ← live_bytes now src key
    move_found src dst key value

  rename_found : ℕ → Bytes → Bytes → Option Bytes → Effect (Disk db) Bool
  unfolding copy_to
  rename_found i old_key new_key none = give false
  rename_found i old_key new_key (some value) = do
    copy_to i old_key i new_key value
    remove db i "Failed to delete old key: " old_key
    remove_quietly db i (expiration_key old_key)
    give true

  unfoldable pub rename_in_db : ℕ → ℕ → Bytes → Bytes → Effect (Disk db) Bool
  unfolding live_bytes rename_found
  rename_in_db now i old_key new_key = do
    check_index db i
    value ← live_bytes now i old_key
    rename_found i old_key new_key value

  unfoldable pub rename_nx_in_db : ℕ → ℕ → Bytes → Bytes → Effect (Disk db) Bool
  rename_nx_in_db now i old_key new_key = do
    check_index db i
    there ← read db i "Failed to check new key: " new_key
    if is_some there then give false else rename_in_db now i old_key new_key

  copy_found : ℕ → ℕ → Bytes → Bytes → Bool → Option Bytes → Effect (Disk db) Bool
  unfolding copy_to
  copy_found src dst src_key dst_key replace none = give false
  copy_found src dst src_key dst_key replace (some value) = do
    there ← read db dst "Failed to check destination: " dst_key
    if is_some there && not replace
        then give false
        else (do copy_to src src_key dst dst_key value; give true)

  unfoldable pub copy_in_db : ℕ → ℕ → ℕ → Bytes → Bytes → Bool → Effect (Disk db) Bool
  unfolding check_indices live_bytes copy_found
  copy_in_db now src dst src_key dst_key replace = do
    check_indices src dst
    value ← live_bytes now src src_key
    copy_found src dst src_key dst_key replace value
