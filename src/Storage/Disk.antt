-- ===== src/Storage/Disk.antt =====
-- src/storage/aidb_adapter.rs: the core methods of the persistent adapter. A value is stored encoded,
-- and its time apart from it, under the key behind a prefix. The databases are the aidb crate's: what
-- is used of them is an argument, and each call of them may fail with a message.
pub mod Times
pub mod Whole
pub mod Copies
pub mod Access
pub mod Reading
pub mod Stale
use ai_kv.Base.{
  ℕ, Bool, true, false, Option, none, some, List, [], ◌∷◌, ◌++◌, leb, ltb, length, get_elem?, set,
  ◌==◌, is_some, is_none, is_empty, String, if◌then◌else◌,
}
use ai_kv.Text.{Bytes, codes}
use ai_kv.Text.LittleEndian.{le_bytes, of_le_bytes}
use ai_kv.Error.{Result, ok, err, AikvError, storage, with_text}
use ai_kv.Effect.{Effect, give, fail, check, proceed, ◌>>=◌, ◌>>◌}
use ai_kv.Storage.Value.{
  StoredValue, SerializableStoredValue, to_serializable, from_serializable, new_string, as_string,
  set_expiration,
}
use ai_kv.Storage.Adapter.{invalid_index, BatchOp, set_to, delete}
use ai_kv.Storage.Codec.{Codec, Coded, coded, refused}

-- One call of a batch: a key with its value, or a key to delete.
pub data Write : Type 0 where
  put_entry : Bytes → Bytes → Write
  delete_entry : Bytes → Write

-- `aidb::DB`. A call that writes returns the database as it then is, also if it fails.
pub record Db : Type 1 where
  pub Data : Type 0
  pub get : Data → Bytes → Coded (Option Bytes)
  pub put : Bytes → Bytes → Data → Coded (Unit {0}) × Data
  pub delete : Bytes → Data → Coded (Unit {0}) × Data
  pub write : List Write → Data → Coded (Unit {0}) × Data
  pub keys : Data → List Bytes

-- `map_err(|e| AikvError::Storage(format!(…, e)))`
unfoldable pub mapped : {A : Type 0} → String → Coded A → Result A
mapped message (coded a) = ok a
mapped message (refused e) = err (storage (with_text message e))

abbrev pub expiration_prefix : Bytes
expiration_prefix = codes "__exp__:"

unfoldable pub expiration_key : Bytes → Bytes
expiration_key key = expiration_prefix ++ key

-- The time of a key, if there are 8 bytes of it.
unfoldable pub time_of : Option Bytes → Option ℕ
time_of none = none
time_of (some bytes) = if length bytes == 8 then some (of_le_bytes bytes) else none

unfoldable pub has_passed : ℕ → Option ℕ → Bool
has_passed now none = false
has_passed now (some t) = leb t now

module _ (db : Db) where
  abbrev pub Disk : Type 0
  Disk = List db.Data

  -- A read, and a write, of the database at an index that has been checked.
  read_data : {A : Type 0} → (db.Data → Result A) → Option db.Data → ℕ → Result A
  read_data f none i = err (invalid_index i)
  read_data f (some d) i = f d

  unfoldable pub read_at : {A : Type 0} → ℕ → (db.Data → Result A) → Effect Disk A
  unfolding read_data
  read_at i f s = (read_data f (get_elem? s i) i, s)

  write_data :
      String
      → (db.Data → Coded (Unit {0}) × db.Data)
      → ℕ
      → Disk
      → Option db.Data
      → Result (Unit {0}) × Disk
  write_data message f i s none = (err (invalid_index i), s)
  write_data message f i s (some d) = let (r, d') = f d in (mapped message r, set s i d')

  unfoldable pub write_at :
      ℕ → String → (db.Data → Coded (Unit {0}) × db.Data) → Effect Disk (Unit {0})
  unfolding write_data
  write_at i message f s = write_data message f i s (get_elem? s i)

  unfoldable pub read : ℕ → String → Bytes → Effect Disk (Option Bytes)
  unfolding read_at
  read i message key = read_at i (λ d. mapped message (db.get d key))

  unfoldable pub put : ℕ → String → Bytes → Bytes → Effect Disk (Unit {0})
  unfolding write_at
  put i message key value = write_at i message (db.put key value)

  unfoldable pub remove : ℕ → String → Bytes → Effect Disk (Unit {0})
  unfolding write_at
  remove i message key = write_at i message (db.delete key)

  -- `let _ = db.delete(…)`
  unfoldable pub remove_quietly : ℕ → Bytes → Effect Disk (Unit {0})
  remove_quietly i key s = (ok tt, (remove i "" key s).1)

  unfoldable pub check_index : ℕ → Effect Disk (Unit {0})
  check_index i s = if leb (length s) i then (err (invalid_index i), s) else (ok tt, s)

  unfoldable pub is_expired : ℕ → ℕ → Bytes → Effect Disk Bool
  unfolding time_of has_passed
  is_expired now i key = do
    bytes ← read i "Failed to get expiration: " (expiration_key key)
    give (has_passed now (time_of bytes))

  module _ (codec : Codec) where
    unfoldable pub decoded : Bytes → Result (Option StoredValue)
    decoded bytes = elim (codec.deserialize bytes) [
      | coded v ↦ ok (some (from_serializable v))
      | refused e ↦ err (storage (with_text "Failed to deserialize value: " e))
    ]

    unfoldable pub encoded : StoredValue → Result Bytes
    encoded v = mapped "Failed to serialize value: " (codec.serialize (to_serializable v))

    get_found : ℕ → ℕ → Bytes → Option Bytes → Effect Disk (Option StoredValue)
    get_found now i key none = give none
    get_found now i key (some serialized) = do
      expired ← is_expired now i key
      if expired
          then (do
            remove i "Failed to delete expired key: " key
            remove i "Failed to delete expiration: " (expiration_key key)
            give none)
          else check (decoded serialized)

    -- An expired key is dropped, with its time.
    unfoldable pub get_value : ℕ → ℕ → Bytes → Effect Disk (Option StoredValue)
    unfolding get_found
    get_value now i key = do
      check_index i
      serialized ← read i "Failed to get value: " key
      get_found now i key serialized

    put_time : ℕ → Bytes → Option ℕ → Effect Disk (Unit {0})
    put_time i key none = give tt
    put_time i key (some t) = put i "Failed to set expiration: " (expiration_key key) (le_bytes 8 t)

    -- A value with no time leaves the time that is stored for the key.
    unfoldable pub set_value : ℕ → Bytes → StoredValue → Effect Disk (Unit {0})
    unfolding put_time
    set_value i key v = do
      check_index i
      serialized ← check (encoded v)
      put i "Failed to put value: " key serialized
      put_time i key v.expires_at

    update_found : ℕ → Bytes → Effect StoredValue (Unit {0}) → Option StoredValue → Effect Disk Bool
    update_found i key f none = give false
    update_found i key f (some v) = do check (f v).0; set_value i key (f v).1; give true

    unfoldable pub update_value : ℕ → ℕ → Bytes → Effect StoredValue (Unit {0}) → Effect Disk Bool
    unfolding update_found
    update_value now i key f = do
      check_index i
      value ← get_value now i key
      update_found i key f value

    unfoldable pub delete_and_get : ℕ → ℕ → Bytes → Effect Disk (Option StoredValue)
    delete_and_get now i key = do
      check_index i
      value ← get_value now i key
      if is_some value
          then (do
            remove i "Failed to delete key: " key
            remove_quietly i (expiration_key key)
            give value)
          else give value

    -- A deletion takes the time along, a value leaves it.
    batched : Bytes → BatchOp → Result (List Write)
    batched key (set_to value) = elim (encoded (new_string value)) [
      | err e ↦ err e
      | ok bytes ↦ ok (put_entry key bytes ∷ [])
    ]
    batched key delete = ok (delete_entry key ∷ delete_entry (expiration_key key) ∷ [])

    batch_of : List (Bytes × BatchOp) → Result (List Write)
    unfolding batched
    batch_of [] = ok []
    batch_of ((key, op) ∷ rest) = elim (batched key op) [
      | err e ↦ err e
      | ok ws ↦ elim (batch_of rest) [ err e ↦ err e | ok vs ↦ ok (ws ++ vs) ]
    ]

    unfoldable pub write_batch : ℕ → List (Bytes × BatchOp) → Effect Disk (Unit {0})
    unfolding batch_of
    write_batch i [] = check_index i
    write_batch i (o ∷ operations) = do
      check_index i
      batch ← check (batch_of (o ∷ operations))
      write_at i "Failed to write batch: " (db.write batch)

    -- A value of another type is no error here.
    string_or_none : Option StoredValue → Option Bytes
    string_or_none none = none
    string_or_none (some v) = elim (as_string v) [ ok b ↦ some b | err _ ↦ none ]

    unfoldable pub get_from_db : ℕ → ℕ → Bytes → Effect Disk (Option Bytes)
    unfolding string_or_none
    get_from_db now i key = do value ← get_value now i key; give (string_or_none value)

    unfoldable pub set_in_db : ℕ → Bytes → Bytes → Effect Disk (Unit {0})
    set_in_db i key value = set_value i key (new_string value)

    unfoldable pub set_with_expiration_in_db : ℕ → Bytes → Bytes → ℕ → Effect Disk (Unit {0})
    set_with_expiration_in_db i key value expires_at =
        set_value i key (set_expiration (new_string value) (some expires_at))
