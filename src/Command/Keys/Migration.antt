-- ===== src/Command/Keys/Migration.antt =====
-- src/command/key.rs: MIGRATE, which moves keys to another database of the same storage. The rollback
-- behind a `delete_from_db` that fails is left out: with the memory storage it does not fail.
use ai_kv.Base.{
  ℕ, zero, suc, ◌+◌, Bool, true, false, not, ◌&&◌, Option, none, some, List, [], ◌∷◌, map, leb,
  ◌==◌, if◌then◌else◌,
}
use ai_kv.Text.{Bytes, codes, bytes_eq}
use ai_kv.Text.Utf8.{from_utf8_lossy, to_uppercase}
use ai_kv.Error.{Result, ok, err, AikvError, invalid_argument, with_text}
use ai_kv.Effect.{Effect, give, fail, check, ◌>>=◌, ◌>>◌}
use ai_kv.Resp.{simple_string, ok_reply}
use ai_kv.Storage.Value.{StoredValue}
use ai_kv.Storage.Adapter.{StorageAdapter, exists_in_db, get_value, set_value, delete_from_db}
use ai_kv.Command.Index.{bad_argument, usize_arg, i64_arg}
use ai_kv.Command.Replies.{Handler, wrong_count}
use ai_kv.Command.Scanning.{syntax_error}

pub record MigrateOptions : Type 0 where
  pub copy : Bool
  pub replace : Bool
  pub keys : List Bytes

unknown_migrate : Bytes → AikvError
unknown_migrate word = invalid_argument (with_text "ERR syntax error, unknown option: " word)

-- How many arguments an option has behind it that are not looked at.
skipped : Bytes → Option ℕ
skipped option =
    if bytes_eq option (codes "AUTH")
    then some 1
    else if bytes_eq option (codes "AUTH2")
    then some 2
    else none

-- The loop over the arguments. `skip` of them are a password or a user name still.
unfoldable pub migrate_options : ℕ → List Bytes → MigrateOptions → Result MigrateOptions
unfolding unknown_migrate skipped
migrate_options skip [] o = if skip == 0 then ok o else err syntax_error
migrate_options (suc skip) (arg ∷ rest) o = migrate_options skip rest o
migrate_options zero (word ∷ rest) o =
    let option = to_uppercase (from_utf8_lossy word) in
    elim (bytes_eq option (codes "COPY")) [
      | true ↦ migrate_options 0 rest (record o { copy = true })
      | false ↦ elim (bytes_eq option (codes "REPLACE")) [
        | true ↦ migrate_options 0 rest (record o { replace = true })
        | false ↦ elim (bytes_eq option (codes "KEYS")) [
          | true ↦ ok (record o { keys = map from_utf8_lossy rest })
          | false ↦ elim (skipped option) [
            | some n ↦ migrate_options n rest o
            | none ↦ err (unknown_migrate option)
          ]
        ]
      ]
    ]

-- The key of the third argument, if KEYS names none.
migrate_keys : Bytes → List Bytes → Result (List Bytes)
migrate_keys key_arg (k ∷ ks) = ok (k ∷ ks)
migrate_keys [] [] = err (bad_argument "ERR empty key specified")
migrate_keys (c ∷ cs) [] = ok ((c ∷ cs) ∷ [])

module _ (now db dest_db : ℕ) (copy replace : Bool) where
  delete_unless_copy : Bytes → Effect StorageAdapter (Unit {0})
  delete_unless_copy key = if copy then give tt else (do delete_from_db db key; give tt)

  move_found : Bytes → Option StoredValue → Effect StorageAdapter ℕ
  unfolding delete_unless_copy
  move_found key none = give 0
  move_found key (some stored) = do set_value dest_db key stored; delete_unless_copy key; give 1

  unfoldable pub migrate_one : Bytes → Effect StorageAdapter ℕ
  unfolding move_found
  migrate_one key = do
    there ← exists_in_db now db key
    busy ← if there then exists_in_db now dest_db key else give false
    if there
        then (if busy && not replace
            then fail (bad_argument "BUSYKEY Target key name already exists")
            else (do stored ← get_value now db key; move_found key stored))
        else give 0

  unfoldable pub migrate_all : List Bytes → ℕ → Effect StorageAdapter ℕ
  unfolding migrate_one
  migrate_all [] count = give count
  migrate_all (key ∷ keys) count = do moved ← migrate_one key; migrate_all keys (count + moved)

unfoldable pub migrate : Handler
unfolding migrate_keys
migrate now (host ∷ port ∷ k ∷ d ∷ t ∷ rest) db = do
  dest_db ← check (usize_arg "ERR invalid DB index" d)
  timeout ← check (i64_arg "ERR timeout is not an integer" t)
  o ← check (migrate_options 0 rest (record { copy = false; replace = false; keys = [] }))
  keys ← check (migrate_keys (from_utf8_lossy k) o.keys)
  if leb 16 dest_db then fail (bad_argument "ERR invalid DB index") else give tt
  count ← migrate_all now db dest_db o.copy o.replace keys 0
  give (if count == 0 then simple_string (codes "NOKEY") else ok_reply)
migrate now _ db = fail (wrong_count "MIGRATE")
