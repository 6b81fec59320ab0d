-- ===== src/Storage/Expiry.antt =====
-- src/storage/memory_adapter.rs: expiration. `now` and `later` are two readings of the clock in one
-- call. Times are `u64` milliseconds and wrap around as in a release build.
use ai_kv.Base.{
  ℕ, ◌+◌, ◌-◌, ◌%◌, Bool, true, false, none, some, ltb, if◌then◌else◌, is_some, ℤ, pos, negsuc,
  i64_bound, u64_mod,
}
use ai_kv.Text.{Bytes}
use ai_kv.Error.{ok}
use ai_kv.Effect.{Effect}
use ai_kv.Storage.Value.{StoredValue, is_expired, set_expiration}
use ai_kv.Storage.Adapter.{StorageAdapter, find, insert_at, remove_at}

-- `as i64`
unfoldable pub as_i64 : ℕ → ℤ
as_i64 n = if ltb n i64_bound then pos n else negsuc (u64_mod - n - 1)

-- What the setters of an expiration share: an expired key is dropped.
unfoldable pub update_live :
    ℕ → ℕ → Bytes → (StoredValue → StoredValue) → Effect StorageAdapter Bool
update_live now db key f s = elim (find s db key) [
  | none ↦ (ok false, s)
  | some stored ↦
      if is_expired now stored
      then (ok false, remove_at db key s)
      else (ok true, insert_at db key (f stored) s)
]

unfoldable pub set_expire_in_db : ℕ → ℕ → ℕ → Bytes → ℕ → Effect StorageAdapter Bool
set_expire_in_db now later db key expire_ms =
    update_live now db key (λ v. set_expiration v (some ((later + expire_ms) % u64_mod)))

unfoldable pub set_expire_at_in_db : ℕ → ℕ → Bytes → ℕ → Effect StorageAdapter Bool
set_expire_at_in_db now db key timestamp_ms =
    update_live now db key (λ v. set_expiration v (some timestamp_ms))

ttl_of : ℕ → ℕ → StoredValue → ℤ
ttl_of now later stored = if is_expired now stored then negsuc 1 else elim stored.expires_at [
  | none ↦ negsuc 0
  | some t ↦ if ltb later t then as_i64 (t - later) else negsuc 1
]

-- -2 for a key that is not there, -1 for one with no expiration
unfoldable pub get_ttl_in_db : ℕ → ℕ → ℕ → Bytes → Effect StorageAdapter ℤ
unfolding ttl_of
get_ttl_in_db now later db key s =
    (ok (elim (find s db key) [ none ↦ negsuc 1 | some stored ↦ ttl_of now later stored ]), s)

expire_time_of : ℕ → StoredValue → ℤ
expire_time_of now stored =
    if is_expired now stored
    then negsuc 1
    else elim stored.expires_at [ none ↦ negsuc 0 | some t ↦ as_i64 t ]

unfoldable pub get_expire_time_in_db : ℕ → ℕ → Bytes → Effect StorageAdapter ℤ
unfolding expire_time_of
get_expire_time_in_db now db key s =
    (ok (elim (find s db key) [ none ↦ negsuc 1 | some stored ↦ expire_time_of now stored ]), s)

unfoldable pub persist_in_db : ℕ → ℕ → Bytes → Effect StorageAdapter Bool
persist_in_db now db key s = elim (find s db key) [
  | none ↦ (ok false, s)
  | some stored ↦
      if is_expired now stored
      then (ok false, remove_at db key s)
      else if is_some stored.expires_at
      then (ok true, insert_at db key (set_expiration stored none) s)
      else (ok false, s)
]
