-- ===== src/Command/Keys/Expiration.antt =====
-- src/command/key.rs: EXPIRE, EXPIREAT, PEXPIRE, PEXPIREAT, TTL, PTTL, PERSIST, EXPIRETIME and
-- PEXPIRETIME. A handler reads the clock once.
use ai_kv.Base.{
  ℕ, ◌*◌, ◌/◌, ◌%◌, Bool, [], ◌∷◌, ℤ, pos, pos_part, leb_ℤ, ltb_ℤ, u64_mod, if◌then◌else◌,
}
use ai_kv.Text.{Bytes}
use ai_kv.Text.Utf8.{from_utf8_lossy}
use ai_kv.Effect.{Effect, give, fail, check, ◌>>=◌}
use ai_kv.Resp.{RespValue, integer}
use ai_kv.Storage.Adapter.{StorageAdapter, delete_from_db}
use ai_kv.Storage.Expiry.{
  set_expire_in_db, set_expire_at_in_db, get_ttl_in_db, get_expire_time_in_db, persist_in_db,
}
use ai_kv.Command.Index.{i64_arg}
use ai_kv.Command.Replies.{Handler, flag, wrong_count}

-- A time that is not positive deletes the key at once. `as u64` is used at positive numbers.
unfoldable pub expire_or_delete :
    ℕ → Bytes → ℤ → (ℕ → Effect StorageAdapter Bool) → Effect StorageAdapter RespValue
expire_or_delete db key time set_time =
    if leb_ℤ time (pos 0)
    then (do deleted ← delete_from_db db key; give (flag deleted))
    else (do done ← set_time (pos_part time); give (flag done))

-- `* 1000`, in `u64`
abbrev pub in_millis : ℕ → ℕ
in_millis seconds = seconds * 1000 % u64_mod

unfoldable pub expire : Handler
expire now (k ∷ t ∷ []) db = do
  let key = from_utf8_lossy k
  seconds ← check (i64_arg "ERR value is not an integer" t)
  expire_or_delete db key seconds (λ n. set_expire_in_db now now db key (in_millis n))
expire now _ db = fail (wrong_count "EXPIRE")

unfoldable pub expireat : Handler
expireat now (k ∷ t ∷ []) db = do
  let key = from_utf8_lossy k
  timestamp ← check (i64_arg "ERR value is not an integer" t)
  expire_or_delete db key timestamp (λ n. set_expire_at_in_db now db key (in_millis n))
expireat now _ db = fail (wrong_count "EXPIREAT")

unfoldable pub pexpire : Handler
pexpire now (k ∷ t ∷ []) db = do
  let key = from_utf8_lossy k
  milliseconds ← check (i64_arg "ERR value is not an integer" t)
  expire_or_delete db key milliseconds (λ n. set_expire_in_db now now db key n)
pexpire now _ db = fail (wrong_count "PEXPIRE")

unfoldable pub pexpireat : Handler
pexpireat now (k ∷ t ∷ []) db = do
  let key = from_utf8_lossy k
  timestamp_ms ← check (i64_arg "ERR value is not an integer" t)
  expire_or_delete db key timestamp_ms (λ n. set_expire_at_in_db now db key n)
pexpireat now _ db = fail (wrong_count "PEXPIREAT")

-- Whole seconds of a positive number; the replies -1 and -2 are kept.
unfoldable pub in_seconds : ℤ → ℤ
in_seconds ms = if ltb_ℤ (pos 0) ms then pos (pos_part ms / 1000) else ms

unfoldable pub ttl : Handler
ttl now (k ∷ []) db = do
  ttl_ms ← get_ttl_in_db now now db (from_utf8_lossy k)
  give (integer (in_seconds ttl_ms))
ttl now _ db = fail (wrong_count "TTL")

unfoldable pub pttl : Handler
pttl now (k ∷ []) db = do
  ttl_ms ← get_ttl_in_db now now db (from_utf8_lossy k)
  give (integer ttl_ms)
pttl now _ db = fail (wrong_count "PTTL")

unfoldable pub persist : Handler
persist now (k ∷ []) db = do
  persisted ← persist_in_db now db (from_utf8_lossy k)
  give (flag persisted)
persist now _ db = fail (wrong_count "PERSIST")

unfoldable pub expiretime : Handler
expiretime now (k ∷ []) db = do
  expire_time_ms ← get_expire_time_in_db now db (from_utf8_lossy k)
  give (integer (in_seconds expire_time_ms))
expiretime now _ db = fail (wrong_count "EXPIRETIME")

unfoldable pub pexpiretime : Handler
pexpiretime now (k ∷ []) db = do
  expire_time_ms ← get_expire_time_in_db now db (from_utf8_lossy k)
  give (integer expire_time_ms)
pexpiretime now _ db = fail (wrong_count "PEXPIRETIME")
