-- ===== src/Command/Keys.antt =====
-- src/command/key.rs: KEYS, SCAN, RANDOMKEY, RENAME, RENAMENX, TYPE and COPY.
pub mod Expiration
pub mod Iteration
pub mod Lifetimes
pub mod Migration
pub mod Dump
use ai_kv.Base.{ℕ, ◌+◌, Bool, true, false, Option, none, some, List, [], ◌∷◌, filter, if◌then◌else◌}
use ai_kv.Text.{Bytes, codes, bytes_eq}
use ai_kv.Text.Utf8.{from_utf8_lossy, to_uppercase}
use ai_kv.Error.{Result, ok, err, key_not_found}
use ai_kv.Effect.{give, fail, check, ◌>>=◌, ◌>>◌}
use ai_kv.Resp.{
  RespValue, RespList, simple_string, bulk_string, null_bulk_string, array, bulk_list, ok_reply,
}
use ai_kv.Storage.Value.{StoredValue, get_type_name}
use ai_kv.Storage.Adapter.{exists_in_db, get_value}
use ai_kv.Storage.Keyspace.{
  get_all_keys_in_db, random_key_in_db, rename_in_db, rename_nx_in_db, copy_in_db,
}
use ai_kv.Glob.{star, match_pattern}
use ai_kv.Command.Index.{usize_arg}
use ai_kv.Command.Replies.{Handler, flag, wrong_count}
use ai_kv.Command.Scanning.{ScanHandler, ScanOptions, read_options, page, page_reply, syntax_error}

-- The keys that match; `*` is not looked at character by character.
unfoldable pub matching : Bytes → List Bytes → List Bytes
matching pattern all =
    if bytes_eq pattern star then all else filter (λ k. match_pattern k pattern) all

pub keys : Handler
keys now (p ∷ []) db = do
  let pattern = from_utf8_lossy p
  all ← get_all_keys_in_db now db
  give (array (bulk_list (matching pattern all)))
keys now _ db = fail (wrong_count "KEYS")

unfoldable pub pattern_of : Option Bytes → Bytes
pattern_of none = star
pattern_of (some p) = p

unfoldable pub scan : ScanHandler
unfolding pattern_of
scan now [] db = fail (wrong_count "SCAN")
scan now (c ∷ rest) db = do
  cursor ← check (usize_arg "ERR invalid cursor" c)
  options ← check (read_options rest)
  all ← get_all_keys_in_db now db
  give
      (page_reply bulk_list (page cursor options.count (matching (pattern_of options.pattern) all)))

-- `later` is the clock that stands in for a random number.
unfoldable pub randomkey : ℕ → Handler
randomkey later now _ db = do key ← random_key_in_db now later db; give (bulk_string key)

unfoldable pub rename : Handler
rename now (k ∷ n ∷ []) db = do
  let old_key = from_utf8_lossy k
  let new_key = from_utf8_lossy n
  there ← exists_in_db now db old_key
  if there then (do rename_in_db now db old_key new_key; give ok_reply) else fail key_not_found
rename now _ db = fail (wrong_count "RENAME")

unfoldable pub renamenx : Handler
renamenx now (k ∷ n ∷ []) db = do
  let old_key = from_utf8_lossy k
  let new_key = from_utf8_lossy n
  there ← exists_in_db now db old_key
  if there
      then (do renamed ← rename_nx_in_db now db old_key new_key; give (flag renamed))
      else fail key_not_found
renamenx now _ db = fail (wrong_count "RENAMENX")

type_reply : Option StoredValue → RespValue
type_reply none = simple_string (codes "none")
type_reply (some stored) = simple_string (codes (get_type_name stored))

unfoldable pub get_type : Handler
unfolding type_reply
get_type now (k ∷ []) db = do
  stored ← get_value now db (from_utf8_lossy k)
  give (type_reply stored)
get_type now _ db = fail (wrong_count "TYPE")

-- The destination and the REPLACE flag, from the arguments behind the two keys.
unfoldable pub copy_options : List Bytes → ℕ × Bool → Result (ℕ × Bool)
copy_options [] o = ok o
copy_options (word ∷ []) (dest_db, replace) =
    if bytes_eq (to_uppercase (from_utf8_lossy word)) (codes "REPLACE")
    then ok (dest_db, true)
    else err syntax_error
copy_options (word ∷ arg ∷ rest) (dest_db, replace) =
    let option = to_uppercase (from_utf8_lossy word) in
    elim (bytes_eq option (codes "DB")) [
      | true ↦ elim (usize_arg "ERR invalid DB index" arg) [
        | err e ↦ err e
        | ok n ↦ copy_options rest (n, replace)
      ]
      | false ↦ elim (bytes_eq option (codes "REPLACE")) [
        | true ↦ copy_options (arg ∷ rest) (dest_db, true)
        | false ↦ err syntax_error
      ]
    ]

unfoldable pub copy : Handler
copy now (k ∷ n ∷ options) db = do
  (dest_db, replace) ← check (copy_options options (db, false))
  copied ← copy_in_db now db dest_db (from_utf8_lossy k) (from_utf8_lossy n) replace
  give (flag copied)
copy now _ db = fail (wrong_count "COPY")
