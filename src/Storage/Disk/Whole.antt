-- ===== src/Storage/Disk/Whole.antt =====
-- src/storage/aidb_adapter.rs: deletion, existence, and the methods on whole databases. An iterator runs
-- through the keys that were there when it was made.
use ai_kv.Base.{
  ℕ, zero, suc, ◌+◌, ◌%◌, ◌==◌, Bool, true, false, not, ◌&&◌, Option, none, some, List, [], ◌∷◌,
  length, is_some, if◌then◌else◌,
}
use ai_kv.Text.{Bytes, bytes_eq}
use ai_kv.Text.Utf8.{from_utf8_lossy}
use ai_kv.Error.{Result, ok, storage, literal}
use ai_kv.Effect.{Effect, give, fail, check, ◌>>=◌, ◌>>◌}
use ai_kv.HashMap
use ai_kv.HashMap.{HashMap}
use ai_kv.Storage.Value.{StoredValue, set_expiration}
use ai_kv.Storage.Codec.{Codec}
use ai_kv.Storage.Disk.{
  Db, Disk, read, read_at, remove, remove_quietly, check_index, is_expired, decoded, expiration_key,
  expiration_prefix, time_of,
}

-- `starts_with`
unfoldable pub starts_with : Bytes → Bytes → Bool
starts_with [] s = true
starts_with (p ∷ ps) [] = false
starts_with (p ∷ ps) (c ∷ s) = p == c && starts_with ps s

-- `String::from_utf8(…).is_ok()`: decoding changes nothing
unfoldable pub is_utf8 : Bytes → Bool
is_utf8 key = bytes_eq (from_utf8_lossy key) key

module _ (db : Db) where
  unfoldable pub delete_from_db : ℕ → Bytes → Effect (Disk db) Bool
  delete_from_db i key = do
    check_index db i
    value ← read db i "Failed to check key existence: " key
    if is_some value
        then (do
          remove db i "Failed to delete key: " key
          remove_quietly db i (expiration_key key)
          give true)
        else give false

  unfoldable pub exists_in_db : ℕ → ℕ → Bytes → Effect (Disk db) Bool
  exists_in_db now i key = do
    check_index db i
    expired ← is_expired db now i key
    value ← if expired then give none else read db i "Failed to check key existence: " key
    give (is_some value)

  keys_at : ℕ → Effect (Disk db) (List Bytes)
  keys_at i = read_at db i (λ d. ok (db.keys d))

  -- The keys of the times are skipped before the expiration is looked at, and then the expired ones.
  is_listed : ℕ → ℕ → Bytes → Effect (Disk db) Bool
  is_listed now i key =
      if starts_with expiration_prefix key
      then give false
      else (do expired ← is_expired db now i key; give (not expired))

  live_keys : ℕ → ℕ → List Bytes → Effect (Disk db) (List Bytes)
  unfolding is_listed
  live_keys now i [] = give []
  live_keys now i (key ∷ keys) = do
    listed ← is_listed now i key
    rest ← live_keys now i keys
    give (if listed && is_utf8 key then key ∷ rest else rest)

  unfoldable pub get_all_keys_in_db : ℕ → ℕ → Effect (Disk db) (List Bytes)
  unfolding keys_at live_keys
  get_all_keys_in_db now i = do check_index db i; keys ← keys_at i; live_keys now i keys

  unfoldable pub dbsize_in_db : ℕ → ℕ → Effect (Disk db) ℕ
  dbsize_in_db now i = do keys ← get_all_keys_in_db now i; give (length keys)

  remove_all : ℕ → List Bytes → Effect (Disk db) (Unit {0})
  remove_all i [] = give tt
  remove_all i (key ∷ keys) = do remove db i "Failed to delete key: " key; remove_all i keys

  unfoldable pub flush_db : ℕ → Effect (Disk db) (Unit {0})
  unfolding keys_at remove_all
  flush_db i = do check_index db i; keys ← keys_at i; remove_all i keys

  -- `for i in 0..self.databases.len()`, with `n` databases left
  flush_from : ℕ → ℕ → Effect (Disk db) (Unit {0})
  flush_from i zero = give tt
  flush_from i (suc n) = do flush_db i; flush_from (i + 1) n

  unfoldable pub flush_all : Effect (Disk db) (Unit {0})
  unfolding flush_from
  flush_all s = flush_from 0 (length s) s

  unfoldable pub swap_db : ℕ → ℕ → Effect (Disk db) (Unit {0})
  swap_db a b = fail (storage (literal "SWAPDB is not supported with AiDb storage backend"))

  -- The first key at which the clock, `tick`, is divisible by 5; after that the first of all.
  first_listed : (ℕ → ℕ) → ℕ → ℕ → ℕ → List Bytes → Effect (Disk db) (Option Bytes)
  unfolding is_listed
  first_listed tick n now i [] = give none
  first_listed tick n now i (key ∷ keys) = do
    listed ← is_listed now i key
    if listed && is_utf8 key && tick n % 5 == 0
        then give (some key)
        else first_listed tick (n + 1) now i keys

  or_first : ℕ → ℕ → Option Bytes → Effect (Disk db) (Option Bytes)
  unfolding first_listed keys_at
  or_first now i (some key) = give (some key)
  or_first now i none = do keys ← keys_at i; first_listed (λ _. 0) 0 now i keys

  unfoldable pub random_key_in_db : (ℕ → ℕ) → ℕ → ℕ → Effect (Disk db) (Option Bytes)
  unfolding keys_at first_listed or_first
  random_key_in_db tick now i = do
    check_index db i
    keys ← keys_at i
    key ← first_listed tick 0 now i keys
    or_first now i key

  module _ (codec : Codec) where
    timed_value : Option ℕ → StoredValue → StoredValue
    timed_value none v = v
    timed_value (some t) v = set_expiration v (some t)

    export_value :
        ℕ
        → Bytes
        → Option StoredValue
        → HashMap StoredValue
        → Effect (Disk db) (HashMap StoredValue)
    unfolding timed_value
    export_value i key none m = give m
    export_value i key (some v) m = do
      bytes ← read db i "Failed to get expiration: " (expiration_key key)
      give (if is_utf8 key then HashMap.insert m key (timed_value (time_of bytes) v) else m)

    decoded_entry : Option Bytes → Result (Option StoredValue)
    decoded_entry none = ok none
    decoded_entry (some bytes) = decoded db codec bytes

    export_listed : ℕ → Bytes → HashMap StoredValue → Bool → Effect (Disk db) (HashMap StoredValue)
    unfolding export_value decoded_entry
    export_listed i key m false = give m
    export_listed i key m true = do
      serialized ← read db i "Failed to get value: " key
      v ← check (decoded_entry serialized)
      export_value i key v m

    export_keys : ℕ → ℕ → List Bytes → HashMap StoredValue → Effect (Disk db) (HashMap StoredValue)
    unfolding is_listed export_listed
    export_keys now i [] m = give m
    export_keys now i (key ∷ keys) m = do
      listed ← is_listed now i key
      m' ← export_listed i key m listed
      export_keys now i keys m'

    export_from : ℕ → ℕ → ℕ → Effect (Disk db) (List (HashMap StoredValue))
    unfolding keys_at export_keys
    export_from now i zero = give []
    export_from now i (suc n) = do
      keys ← keys_at i
      m ← export_keys now i keys []
      rest ← export_from now (i + 1) n
      give (m ∷ rest)

    unfoldable pub export_all_databases : ℕ → Effect (Disk db) (List (HashMap StoredValue))
    unfolding export_from
    export_all_databases now s = export_from now 0 (length s) s
