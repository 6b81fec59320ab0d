-- ===== src/Storage/Adapter.antt =====
-- src/storage/memory_adapter.rs: `StorageAdapter`, its core methods and those of string values.
-- Each method is an effect on the databases; the clock that it reads is its argument `now`.
use ai_kv.Base.{
  ℕ, Bool, true, false, not, Option, none, some, List, [], ◌∷◌, is_empty, is_some, replicate,
  get_elem?, adjust, if◌then◌else◌,
}
use ai_kv.Text.{Bytes}
use ai_kv.Error.{Result, ok, err, storage, with_number, AikvError}
use ai_kv.Effect.{Effect, proceed}
use ai_kv.HashMap
use ai_kv.HashMap.{HashMap}
use ai_kv.Storage.Value.{ValueType, StoredValue, new_string, with_expiration, is_expired, as_string}

abbrev pub Database : Type 0
Database = HashMap StoredValue

pub record StorageAdapter : Type 0 where
  pub databases : List Database

unfoldable pub with_db_count : ℕ → StorageAdapter
with_db_count count = record { databases = replicate count [] }

-- `StorageAdapter::new`: 16 databases, as in Redis
unfoldable pub new_storage : StorageAdapter
unfolding with_db_count
new_storage = with_db_count 16

-- `databases.get(db)` and then `get(key)`: the methods treat both misses alike.
abbrev pub get_in : Option Database → Bytes → Option StoredValue
get_in none key = none
get_in (some d) key = HashMap.get d key

unfoldable pub find : StorageAdapter → ℕ → Bytes → Option StoredValue
find s db key = get_in (get_elem? s.databases db) key

-- A change behind `databases.get_mut(db)`.
unfoldable pub modify : ℕ → (Database → Database) → StorageAdapter → StorageAdapter
modify db f s = record { databases = adjust s.databases db f }

unfoldable pub insert_at : ℕ → Bytes → StoredValue → StorageAdapter → StorageAdapter
unfolding modify
insert_at db key v = modify db (λ d. HashMap.insert d key v)

unfoldable pub remove_at : ℕ → Bytes → StorageAdapter → StorageAdapter
unfolding modify
remove_at db key = modify db (λ d. HashMap.remove d key)

abbrev pub invalid_index : ℕ → AikvError
invalid_index db = storage (with_number "Invalid database index: " db)

unfoldable pub cleanup_expired : ℕ → ℕ → Effect StorageAdapter (Unit {0})
unfolding modify
cleanup_expired now db s = (ok tt, modify db (HashMap.retain (λ v. not (is_expired now v))) s)

unfoldable pub get_value : ℕ → ℕ → Bytes → Effect StorageAdapter (Option StoredValue)
get_value now db key s = (
  ok (elim (find s db key) [
    | none ↦ none
    | some stored ↦ if is_expired now stored then none else some stored
  ]),
  s,
)

unfoldable pub set_value : ℕ → Bytes → StoredValue → Effect StorageAdapter (Unit {0})
set_value db key v s =
    if is_some (get_elem? s.databases db)
    then (ok tt, insert_at db key v s)
    else (err (invalid_index db), s)

unfoldable pub delete_and_get : ℕ → ℕ → Bytes → Effect StorageAdapter (Option StoredValue)
delete_and_get now db key s = elim (find s db key) [
  | none ↦ (ok none, s)
  | some stored ↦ (ok (if is_expired now stored then none else some stored), remove_at db key s)
]

-- The closure may have changed the value before it fails.
unfoldable pub update_value :
    ℕ → ℕ → Bytes → Effect StoredValue (Unit {0}) → Effect StorageAdapter Bool
update_value now db key f s = elim (find s db key) [
  | none ↦ (ok false, s)
  | some stored ↦
      if is_expired now stored
      then (ok false, remove_at db key s)
      else (let (r, stored') = f stored in
          proceed (r, insert_at db key stored' s) (λ _ s'. (ok true, s')))
]

pub data BatchOp : Type 0 where
  set_to : Bytes → BatchOp
  delete : BatchOp

apply_op : BatchOp → Bytes → Database → Database
apply_op (set_to value) key d = HashMap.insert d key (new_string value)
apply_op delete key d = HashMap.remove d key

unfoldable pub apply_batch : List (Bytes × BatchOp) → Database → Database
unfolding apply_op
apply_batch [] d = d
apply_batch ((key, op) ∷ rest) d = apply_batch rest (apply_op op key d)

unfoldable pub write_batch : ℕ → List (Bytes × BatchOp) → Effect StorageAdapter (Unit {0})
write_batch db operations s =
    if is_empty operations then (ok tt, s) else (ok tt, modify db (apply_batch operations) s)

live_string : ℕ → StoredValue → Result (Option Bytes)
live_string now stored =
    if is_expired now stored
    then ok none
    else elim (as_string stored) [ ok b ↦ ok (some b) | err e ↦ err e ]

unfoldable pub get_from_db : ℕ → ℕ → Bytes → Effect StorageAdapter (Option Bytes)
unfolding live_string
get_from_db now db key s =
    (elim (find s db key) [ none ↦ ok none | some stored ↦ live_string now stored ], s)

unfoldable pub set_in_db : ℕ → Bytes → Bytes → Effect StorageAdapter (Unit {0})
set_in_db db key value = set_value db key (new_string value)

unfoldable pub set_with_expiration_in_db : ℕ → Bytes → Bytes → ℕ → Effect StorageAdapter (Unit {0})
set_with_expiration_in_db db key value expires_at =
    set_value db key (with_expiration (ValueType.string value) expires_at)

unfoldable pub delete_from_db : ℕ → Bytes → Effect StorageAdapter Bool
delete_from_db db key s = (ok (is_some (find s db key)), remove_at db key s)

unfoldable pub exists_in_db : ℕ → ℕ → Bytes → Effect StorageAdapter Bool
exists_in_db now db key s =
    (ok (elim (find s db key) [ none ↦ false | some stored ↦ not (is_expired now stored) ]), s)
