-- ===== src/Command/Hashes.antt =====
-- src/command/hash.rs: the handlers of the hash commands.
pub mod Fields
pub mod Removal
pub mod Sums
pub mod Counters
pub mod Scans
use ai_kv.Base.{
  as_i32, ℕ, ◌+◌, ◌-◌, ◌%◌, Bool, true, false, Option, none, some, List, [], ◌∷◌, map, filter,
  length, take, drop, ◌==◌, ltb, ℤ, pos, negsuc, sub_ℕ, ◌+ℤ◌, i64_bound, u64_mod, is_none, is_some,
  pos_part, neg_part, String, if◌then◌else◌,
}
use ai_kv.Base.Sort.{sort_by}
use ai_kv.Text.{Bytes, bytes_eq, bytes_leb}
use ai_kv.Text.Utf8.{from_utf8_lossy}
use ai_kv.Text.Number.{print_i64}
use ai_kv.Error.{Result, ok}
use ai_kv.Effect.{Effect, give, fail, check, ◌>>=◌, ◌>>◌}
use ai_kv.HashMap
use ai_kv.HashMap.{HashMap}
use ai_kv.Resp.{
  RespValue, RespList, integer, bulk_string, array, null, nil, cons, bulk_list, ok_reply,
}
use ai_kv.Storage.Value.{StoredValue, as_hash, new_hash}
use ai_kv.Storage.Adapter.{StorageAdapter, get_value, set_value, delete_from_db}
use ai_kv.Glob.{star, match_pattern}
use ai_kv.Command.Index.{usize_arg, i64_arg}
use ai_kv.Command.Replies.{Handler, flag, wrong_count}
use ai_kv.Command.Floats.{F64, f64_arg}
use ai_kv.Command.Scanning.{read_options, page_end, next_cursor, scan_reply}

-- The hash at a key, or a new one.
unfoldable pub hash_or_new : Option StoredValue → Result (HashMap Bytes)
hash_or_new none = ok []
hash_or_new (some stored) = as_hash stored

-- The loop of HSET and HMSET over the pairs, and how many of the fields are new. The counter is an `i32`:
-- it is counted here how often it is raised, and it wraps where HSET casts it, by `as_i32`.
unfoldable pub set_fields : List Bytes → HashMap Bytes → ℕ → ℕ × HashMap Bytes
set_fields [] h count = (count, h)
set_fields (f ∷ []) h count = (count, h)
set_fields (f ∷ v ∷ rest) h count =
    let field = from_utf8_lossy f in
    set_fields rest (HashMap.insert h field v)
      (if is_none (HashMap.get h field) then count + 1 else count)

unfoldable pub hset : Handler
hset now (k ∷ f ∷ v ∷ rest) db =
    if length rest % 2 == 0
    then (do
      let key = from_utf8_lossy k
      stored ← get_value now db key
      h ← check (hash_or_new stored)
      let (count, h') = set_fields (f ∷ v ∷ rest) h 0
      set_value db key (new_hash h')
      give (integer (as_i32 count)))
    else fail (wrong_count "HSET")
hset now _ db = fail (wrong_count "HSET")

unfoldable pub hmset : Handler
hmset now (k ∷ f ∷ v ∷ rest) db =
    if length rest % 2 == 0
    then (do
      let key = from_utf8_lossy k
      stored ← get_value now db key
      h ← check (hash_or_new stored)
      let (count, h') = set_fields (f ∷ v ∷ rest) h 0
      set_value db key (new_hash h')
      give ok_reply)
    else fail (wrong_count "HMSET")
hmset now _ db = fail (wrong_count "HMSET")

hsetnx_vacant : ℕ → Bytes → Bytes → Bytes → HashMap Bytes → Effect StorageAdapter RespValue
hsetnx_vacant db key field value h =
    if is_some (HashMap.get h field)
    then give (flag false)
    else (do set_value db key (new_hash (HashMap.insert h field value)); give (flag true))

unfoldable pub hsetnx : Handler
unfolding hsetnx_vacant
hsetnx now (k ∷ f ∷ value ∷ []) db = do
  let key = from_utf8_lossy k
  stored ← get_value now db key
  h ← check (hash_or_new stored)
  hsetnx_vacant db key (from_utf8_lossy f) value h
hsetnx now _ db = fail (wrong_count "HSETNX")

-- What HGET and HMGET reply for a field.
abbrev pub value_reply : Option Bytes → RespValue
value_reply none = null
value_reply (some v) = bulk_string (some v)

unfoldable pub hget : Handler
hget now (k ∷ f ∷ []) db = do
  stored ← get_value now db (from_utf8_lossy k)
  h ← check (hash_or_new stored)
  give (value_reply (HashMap.get h (from_utf8_lossy f)))
hget now _ db = fail (wrong_count "HGET")

unfoldable pub value_replies : HashMap Bytes → List Bytes → RespList
value_replies h [] = nil
value_replies h (f ∷ fs) =
    cons (value_reply (HashMap.get h (from_utf8_lossy f))) (value_replies h fs)

unfoldable pub hmget : Handler
unfolding value_replies
hmget now (k ∷ f ∷ fs) db = do
  stored ← get_value now db (from_utf8_lossy k)
  h ← check (hash_or_new stored)
  give (array (value_replies h (f ∷ fs)))
hmget now _ db = fail (wrong_count "HMGET")

-- The loop of HDEL, and how many of the fields were there, with a counter as in HSET.
unfoldable pub delete_fields : List Bytes → HashMap Bytes → ℕ → ℕ × HashMap Bytes
delete_fields [] h count = (count, h)
delete_fields (f ∷ fs) h count =
    let field = from_utf8_lossy f in
    delete_fields fs (HashMap.remove h field)
      (if is_some (HashMap.get h field) then count + 1 else count)

-- A hash that has become empty takes its key away.
unfoldable pub store_hash : ℕ → Bytes → HashMap Bytes → Effect StorageAdapter (Unit {0})
store_hash db key [] = do delete_from_db db key; give tt
store_hash db key (e ∷ h) = set_value db key (new_hash (e ∷ h))

unfoldable pub hdel_stored :
    ℕ → Bytes → List Bytes → Option StoredValue → Effect StorageAdapter RespValue
hdel_stored db key fields none = give (integer (pos 0))
hdel_stored db key fields (some stored) = do
  h ← check (as_hash stored)
  let (count, h') = delete_fields fields h 0
  store_hash db key h'
  give (integer (as_i32 count))

unfoldable pub hdel : Handler
hdel now (k ∷ f ∷ fs) db = do
  let key = from_utf8_lossy k
  stored ← get_value now db key
  hdel_stored db key (f ∷ fs) stored
hdel now _ db = fail (wrong_count "HDEL")

unfoldable pub hexists : Handler
hexists now (k ∷ f ∷ []) db = do
  stored ← get_value now db (from_utf8_lossy k)
  h ← check (hash_or_new stored)
  give (flag (HashMap.contains_key h (from_utf8_lossy f)))
hexists now _ db = fail (wrong_count "HEXISTS")

unfoldable pub hlen : Handler
hlen now (k ∷ []) db = do
  stored ← get_value now db (from_utf8_lossy k)
  h ← check (hash_or_new stored)
  give (integer (pos (length h)))
hlen now _ db = fail (wrong_count "HLEN")

unfoldable pub hkeys : Handler
hkeys now (k ∷ []) db = do
  stored ← get_value now db (from_utf8_lossy k)
  h ← check (hash_or_new stored)
  give (array (bulk_list (HashMap.keys h)))
hkeys now _ db = fail (wrong_count "HKEYS")

unfoldable pub hvals : Handler
hvals now (k ∷ []) db = do
  stored ← get_value now db (from_utf8_lossy k)
  h ← check (hash_or_new stored)
  give (array (bulk_list (HashMap.values h)))
hvals now _ db = fail (wrong_count "HVALS")

-- Fields and values in turn.
unfoldable pub entries : HashMap Bytes → List Bytes
entries [] = []
entries ((f, v) ∷ h) = f ∷ v ∷ entries h

unfoldable pub hgetall : Handler
unfolding entries
hgetall now (k ∷ []) db = do
  stored ← get_value now db (from_utf8_lossy k)
  h ← check (hash_or_new stored)
  give (array (bulk_list (entries h)))
hgetall now _ db = fail (wrong_count "HGETALL")
