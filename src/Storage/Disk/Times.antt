-- ===== src/Storage/Disk/Times.antt =====
-- src/storage/aidb_adapter.rs: the methods that set, read and clear the time of a key. `now` and `later`
-- are two readings of the clock in one call.
use ai_kv.Base.{
  ℕ, ◌+◌, ◌-◌, ◌%◌, Bool, true, false, Option, none, some, ltb, is_some, ℤ, negsuc, u64_mod,
  if◌then◌else◌,
}
use ai_kv.Text.{Bytes}
use ai_kv.Text.LittleEndian.{le_bytes}
use ai_kv.Effect.{Effect, give, ◌>>=◌, ◌>>◌}
use ai_kv.Storage.Expiry.{as_i64}
use ai_kv.Storage.Disk.{
  Db, Disk, read, put, remove, check_index, is_expired, time_of, expiration_key,
}

module _ (db : Db) where
  -- What the two setters share: an expired key is not dropped.
  unfoldable pub set_time : ℕ → ℕ → Bytes → ℕ → Effect (Disk db) Bool
  set_time now i key t = do
    check_index db i
    expired ← is_expired db now i key
    value ← if expired then give none else read db i "Failed to check key existence: " key
    if is_some value
        then (do
          put db i "Failed to set expiration: " (expiration_key key) (le_bytes 8 t)
          give true)
        else give false

  unfoldable pub set_expire_in_db : ℕ → ℕ → ℕ → Bytes → ℕ → Effect (Disk db) Bool
  set_expire_in_db now later i key expire_ms = set_time now i key ((later + expire_ms) % u64_mod)

  unfoldable pub set_expire_at_in_db : ℕ → ℕ → Bytes → ℕ → Effect (Disk db) Bool
  set_expire_at_in_db now i key timestamp_ms = set_time now i key timestamp_ms

  ttl_at : ℕ → Option ℕ → ℤ
  ttl_at later none = negsuc 0
  ttl_at later (some t) = if ltb later t then as_i64 (t - later) else negsuc 1

  expire_time_at : Option ℕ → ℤ
  expire_time_at none = negsuc 0
  expire_time_at (some t) = as_i64 t

  -- -2 for a key that is not there, and else what its time gives.
  reading_time : ℕ → ℕ → Bytes → (Option ℕ → ℤ) → Effect (Disk db) ℤ
  reading_time now i key f = do
    check_index db i
    value ← read db i "Failed to check key existence: " key
    expired ← if is_some value then is_expired db now i key else give true
    bytes ←
        if expired then give none else read db i "Failed to get expiration: " (expiration_key key)
    give (if expired then negsuc 1 else f (time_of bytes))

  unfoldable pub get_ttl_in_db : ℕ → ℕ → ℕ → Bytes → Effect (Disk db) ℤ
  unfolding reading_time ttl_at
  get_ttl_in_db now later i key = reading_time now i key (ttl_at later)

  unfoldable pub get_expire_time_in_db : ℕ → ℕ → Bytes → Effect (Disk db) ℤ
  unfolding reading_time expire_time_at
  get_expire_time_in_db now i key = reading_time now i key expire_time_at

  unfoldable pub persist_in_db : ℕ → ℕ → Bytes → Effect (Disk db) Bool
  persist_in_db now i key = do
    check_index db i
    value ← read db i "Failed to check key existence: " key
    expired ← if is_some value then is_expired db now i key else give true
    bytes ←
        if expired then give none else read db i "Failed to get expiration: " (expiration_key key)
    if is_some bytes
        then (do remove db i "Failed to delete expiration: " (expiration_key key); give true)
        else give false
