-- ===== src/Storage/Keyspace.antt =====
-- src/storage/memory_adapter.rs: the methods on whole databases, and those that move or copy a key.
use ai_kv.Base.{
  ℕ, ◌%◌, Bool, true, false, not, ◌&&◌, ◌||◌, Option, none, some, List, [], map, leb, length,
  get_elem?, set, is_some, is_empty, if◌then◌else◌,
}
use ai_kv.Text.{Bytes}
use ai_kv.Error.{Result, ok, err, storage, with_numbers, AikvError}
use ai_kv.Effect.{Effect}
use ai_kv.HashMap
use ai_kv.HashMap.{HashMap}
use ai_kv.Storage.Value.{is_expired}
use ai_kv.Storage.Adapter.{StorageAdapter, Database, find, modify, insert_at, remove_at}

unfoldable pub live_entries : ℕ → Database → Database
live_entries now = HashMap.retain (λ v. not (is_expired now v))

unfoldable pub get_all_keys_in_db : ℕ → ℕ → Effect StorageAdapter (List Bytes)
get_all_keys_in_db now db s = (
  ok (elim (get_elem? s.databases db) [ none ↦ [] | some d ↦ HashMap.keys (live_entries now d) ]),
  s,
)

dbsize_of : Result (List Bytes) × StorageAdapter → Result ℕ × StorageAdapter
dbsize_of (ok l, s) = (ok (length l), s)
dbsize_of (err e, s) = (err e, s)

unfoldable pub dbsize_in_db : ℕ → ℕ → Effect StorageAdapter ℕ
unfolding dbsize_of
dbsize_in_db now db s = dbsize_of (get_all_keys_in_db now db s)

unfoldable pub export_all_databases : ℕ → Effect StorageAdapter (List Database)
export_all_databases now s = (ok (map (live_entries now) s.databases), s)

unfoldable pub flush_db : ℕ → Effect StorageAdapter (Unit {0})
flush_db db s = (ok tt, modify db (λ _. []) s)

unfoldable pub flush_all : Effect StorageAdapter (Unit {0})
flush_all s = (ok tt, record { databases = map (λ _. []) s.databases })

abbrev pub invalid_indices : ℕ → ℕ → AikvError
invalid_indices a b = storage (with_numbers "Invalid database index: {} or {}" a b)

-- `Vec::swap` at two indices in range
unfoldable pub swapped : ℕ → ℕ → List Database → List Database
swapped a b l = elim (get_elem? l a) [
  | none ↦ l
  | some x ↦ elim (get_elem? l b) [ none ↦ l | some y ↦ set (set l a y) b x ]
]

out_of_range : ℕ → ℕ → StorageAdapter → Bool
out_of_range a b s = leb (length s.databases) a || leb (length s.databases) b

unfoldable pub swap_db : ℕ → ℕ → Effect StorageAdapter (Unit {0})
unfolding swapped out_of_range
swap_db a b s =
    if out_of_range a b s
    then (err (invalid_indices a b), s)
    else (ok tt, record { databases = swapped a b s.databases })

-- The test for the key at the destination does not look at its expiration.
unfoldable pub move_key : ℕ → ℕ → ℕ → Bytes → Effect StorageAdapter Bool
unfolding out_of_range
move_key now src dst key s =
    if out_of_range src dst s then (err (invalid_indices src dst), s) else elim (find s src key) [
      | none ↦ (ok false, s)
      | some stored ↦
          if is_expired now stored || is_some (find s dst key)
          then (ok false, s)
          else (ok true, insert_at dst key stored (remove_at src key s))
    ]

unfoldable pub rename_in_db : ℕ → ℕ → Bytes → Bytes → Effect StorageAdapter Bool
rename_in_db now db old_key new_key s = elim (find s db old_key) [
  | none ↦ (ok false, s)
  | some v ↦
      if is_expired now v
      then (ok false, remove_at db old_key s)
      else (ok true, insert_at db new_key v (remove_at db old_key s))
]

unfoldable pub rename_nx_in_db : ℕ → ℕ → Bytes → Bytes → Effect StorageAdapter Bool
rename_nx_in_db now db old_key new_key s =
    if is_some (find s db new_key) then (ok false, s) else elim (find s db old_key) [
      | none ↦ (ok false, s)
      | some v ↦
          if is_expired now v
          then (ok false, remove_at db old_key s)
          else (ok true, insert_at db new_key v (remove_at db old_key s))
    ]

unfoldable pub copy_in_db : ℕ → ℕ → ℕ → Bytes → Bytes → Bool → Effect StorageAdapter Bool
unfolding out_of_range
copy_in_db now src dst src_key dst_key replace s =
    if out_of_range src dst s
    then (err (invalid_indices src dst), s)
    else elim (find s src src_key) [
      | none ↦ (ok false, s)
      | some stored ↦
          if is_expired now stored
          then (ok false, s)
          else if is_some (find s dst dst_key) && not replace
          then (ok false, s)
          else (ok true, insert_at dst dst_key stored s)
    ]

-- The clock stands in for a random number.
pick : ℕ → List Bytes → Option Bytes
pick later valid_keys =
    if is_empty valid_keys then none else get_elem? valid_keys (later % length valid_keys)

unfoldable pub random_key_in_db : ℕ → ℕ → ℕ → Effect StorageAdapter (Option Bytes)
unfolding pick
random_key_in_db now later db s = (
  ok (elim (get_elem? s.databases db) [
    | none ↦ none
    | some d ↦ pick later (HashMap.keys (live_entries now d))
  ]),
  s,
)
