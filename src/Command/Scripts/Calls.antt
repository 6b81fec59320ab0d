-- ===== src/Command/Scripts/Calls.antt =====
-- src/command/script.rs: the string and hash commands that a script calls, over its buffer. The lock of
-- the buffer is the script's own.
use ai_kv.Base.{
  ℕ, ◌+◌, ◌%◌, ◌==◌, Option, none, some, List, [], ◌∷◌, ◌++◌, length, String, ℤ, pos, negsuc,
  negate, if◌then◌else◌,
}
use ai_kv.Text.{Bytes}
use ai_kv.Text.Utf8.{from_utf8_lossy}
use ai_kv.Text.Number.{print_i64}
use ai_kv.Error.{Result, ok}
use ai_kv.Effect.{Effect, give, fail, check, ◌>>=◌, ◌>>◌}
use ai_kv.HashMap
use ai_kv.HashMap.{HashMap}
use ai_kv.Resp.{RespValue, integer, bulk_string, array, bulk_list, ok_reply}
use ai_kv.Storage.Value.{StoredValue, as_hash}
use ai_kv.Storage.Adapter.{StorageAdapter}
use ai_kv.Command.Index.{i64_arg}
use ai_kv.Command.Replies.{flag, wrong_count}
use ai_kv.Command.Floats.{F64, f64_arg}
use ai_kv.Command.Strings.{bytes_or_empty}
use ai_kv.Command.Hashes.{
  hash_or_new, set_fields, delete_fields, value_reply, value_replies, entries,
}
use ai_kv.Command.Hashes.Counters.{wrapping_add}
use ai_kv.Command.Scripts.{
  ScriptTransaction, set_string, set_hash, drop_key, get, get_value, exists, buffer,
}

-- The clock, the storage and the arguments.
abbrev pub ScriptHandler : Type 0
ScriptHandler = ℕ → StorageAdapter → List Bytes → Effect ScriptTransaction RespValue

unfoldable pub execute_get : ScriptHandler
execute_get now storage (k ∷ []) = do
  value ← get now storage (from_utf8_lossy k)
  give (value_reply value)
execute_get now storage _ = fail (wrong_count "GET")

unfoldable pub execute_set : ScriptHandler
execute_set now storage (k ∷ value ∷ _) = do
  buffer (from_utf8_lossy k) (set_string value)
  give ok_reply
execute_set now storage _ = fail (wrong_count "SET")

delete_each : ℕ → StorageAdapter → List Bytes → ℕ → Effect ScriptTransaction ℕ
delete_each now storage [] count = give count
delete_each now storage (k ∷ ks) count = do
  let key = from_utf8_lossy k
  there ← exists now storage key
  if there
      then (do buffer key drop_key; delete_each now storage ks (count + 1))
      else delete_each now storage ks count

unfoldable pub execute_del : ScriptHandler
unfolding delete_each
execute_del now storage [] = fail (wrong_count "DEL")
execute_del now storage (k ∷ ks) = do
  count ← delete_each now storage (k ∷ ks) 0
  give (integer (pos count))

count_each : ℕ → StorageAdapter → List Bytes → ℕ → Effect ScriptTransaction ℕ
count_each now storage [] count = give count
count_each now storage (k ∷ ks) count = do
  there ← exists now storage (from_utf8_lossy k)
  count_each now storage ks (if there then count + 1 else count)

unfoldable pub execute_exists : ScriptHandler
unfolding count_each
execute_exists now storage [] = fail (wrong_count "EXISTS")
execute_exists now storage (k ∷ ks) = do
  count ← count_each now storage (k ∷ ks) 0
  give (integer (pos count))

-- The number that a key or a field holds.
number_or_zero : String → Option Bytes → Result ℤ
number_or_zero message none = ok (pos 0)
number_or_zero message (some b) = i64_arg message b

-- `i64` sums wrap.
unfoldable pub add_to : ℕ → StorageAdapter → Bytes → ℤ → Effect ScriptTransaction RespValue
unfolding number_or_zero
add_to now storage key increment = do
  value ← get now storage key
  current ← check (number_or_zero "value is not an integer" value)
  let new_val = wrapping_add current increment
  buffer key (set_string (print_i64 new_val))
  give (integer new_val)

unfoldable pub execute_incr : ScriptHandler
execute_incr now storage (k ∷ []) = add_to now storage (from_utf8_lossy k) (pos 1)
execute_incr now storage _ = fail (wrong_count "INCR")

unfoldable pub execute_decr : ScriptHandler
execute_decr now storage (k ∷ []) = add_to now storage (from_utf8_lossy k) (negsuc 0)
execute_decr now storage _ = fail (wrong_count "DECR")

unfoldable pub execute_incrby : ScriptHandler
execute_incrby now storage (k ∷ n ∷ []) = do
  increment ← check (i64_arg "increment is not an integer" n)
  add_to now storage (from_utf8_lossy k) increment
execute_incrby now storage _ = fail (wrong_count "INCRBY")

unfoldable pub execute_decrby : ScriptHandler
execute_decrby now storage (k ∷ n ∷ []) = do
  decrement ← check (i64_arg "decrement is not an integer" n)
  add_to now storage (from_utf8_lossy k) (negate decrement)
execute_decrby now storage _ = fail (wrong_count "DECRBY")

float_or_zero : F64 → Option Bytes → Result ℕ
float_or_zero floats none = ok floats.zero_score
float_or_zero floats (some b) = f64_arg floats "value is not a float" b

unfoldable pub execute_incrbyfloat : F64 → ScriptHandler
unfolding float_or_zero
execute_incrbyfloat floats now storage (k ∷ n ∷ []) = do
  let key = from_utf8_lossy k
  increment ← check (f64_arg floats "increment is not a float" n)
  value ← get now storage key
  current ← check (float_or_zero floats value)
  let result_str = floats.to_string (floats.add current increment)
  buffer key (set_string result_str)
  give (bulk_string (some result_str))
execute_incrbyfloat floats now storage _ = fail (wrong_count "INCRBYFLOAT")

unfoldable pub execute_append : ScriptHandler
execute_append now storage (k ∷ more ∷ []) = do
  let key = from_utf8_lossy k
  value ← get now storage key
  let current = bytes_or_empty value ++ more
  buffer key (set_string current)
  give (integer (pos (length current)))
execute_append now storage _ = fail (wrong_count "APPEND")

unfoldable pub execute_strlen : ScriptHandler
execute_strlen now storage (k ∷ []) = do
  value ← get now storage (from_utf8_lossy k)
  give (integer (pos (length (bytes_or_empty value))))
execute_strlen now storage _ = fail (wrong_count "STRLEN")

-- The hash that a key holds, or an empty one.
unfoldable pub hash_at : ℕ → StorageAdapter → Bytes → Effect ScriptTransaction (HashMap Bytes)
hash_at now storage key = do stored ← get_value now storage key; check (hash_or_new stored)

unfoldable pub execute_hget : ScriptHandler
execute_hget now storage (k ∷ f ∷ []) = do
  h ← hash_at now storage (from_utf8_lossy k)
  give (value_reply (HashMap.get h (from_utf8_lossy f)))
execute_hget now storage _ = fail (wrong_count "HGET")

unfoldable pub execute_hset : ScriptHandler
execute_hset now storage (k ∷ f ∷ v ∷ rest) =
    if length rest % 2 == 0
    then (do
      let key = from_utf8_lossy k
      h ← hash_at now storage key
      let (count, h') = set_fields (f ∷ v ∷ rest) h 0
      buffer key (set_hash h')
      give (integer (pos count)))
    else fail (wrong_count "HSET")
execute_hset now storage _ = fail (wrong_count "HSET")

buffer_hash : Bytes → HashMap Bytes → Effect ScriptTransaction (Unit {0})
buffer_hash key [] = buffer key drop_key
buffer_hash key (e ∷ h) = buffer key (set_hash (e ∷ h))

hdel_found : Bytes → List Bytes → Option StoredValue → Effect ScriptTransaction RespValue
unfolding buffer_hash
hdel_found key fields none = give (integer (pos 0))
hdel_found key fields (some stored) = do
  h ← check (as_hash stored)
  let (count, h') = delete_fields fields h 0
  buffer_hash key h'
  give (integer (pos count))

unfoldable pub execute_hdel : ScriptHandler
unfolding hdel_found
execute_hdel now storage (k ∷ f ∷ fs) = do
  let key = from_utf8_lossy k
  stored ← get_value now storage key
  hdel_found key (f ∷ fs) stored
execute_hdel now storage _ = fail (wrong_count "HDEL")

unfoldable pub execute_hgetall : ScriptHandler
execute_hgetall now storage (k ∷ []) = do
  h ← hash_at now storage (from_utf8_lossy k)
  give (array (bulk_list (entries h)))
execute_hgetall now storage _ = fail (wrong_count "HGETALL")

unfoldable pub execute_hmget : ScriptHandler
execute_hmget now storage (k ∷ f ∷ fs) = do
  h ← hash_at now storage (from_utf8_lossy k)
  give (array (value_replies h (f ∷ fs)))
execute_hmget now storage _ = fail (wrong_count "HMGET")

unfoldable pub execute_hmset : ScriptHandler
execute_hmset now storage (k ∷ f ∷ v ∷ rest) =
    if length rest % 2 == 0
    then (do
      let key = from_utf8_lossy k
      h ← hash_at now storage key
      buffer key (set_hash (set_fields (f ∷ v ∷ rest) h 0).1)
      give ok_reply)
    else fail (wrong_count "HMSET")
execute_hmset now storage _ = fail (wrong_count "HMSET")

unfoldable pub execute_hincrby : ScriptHandler
unfolding number_or_zero
execute_hincrby now storage (k ∷ f ∷ n ∷ []) = do
  let key = from_utf8_lossy k
  let field = from_utf8_lossy f
  increment ← check (i64_arg "increment is not an integer" n)
  h ← hash_at now storage key
  current ← check (number_or_zero "field value is not an integer" (HashMap.get h field))
  let new_val = wrapping_add current increment
  buffer key (set_hash (HashMap.insert h field (print_i64 new_val)))
  give (integer new_val)
execute_hincrby now storage _ = fail (wrong_count "HINCRBY")

unfoldable pub execute_hexists : ScriptHandler
execute_hexists now storage (k ∷ f ∷ []) = do
  h ← hash_at now storage (from_utf8_lossy k)
  give (flag (HashMap.contains_key h (from_utf8_lossy f)))
execute_hexists now storage _ = fail (wrong_count "HEXISTS")

unfoldable pub execute_hlen : ScriptHandler
execute_hlen now storage (k ∷ []) = do
  h ← hash_at now storage (from_utf8_lossy k)
  give (integer (pos (length h)))
execute_hlen now storage _ = fail (wrong_count "HLEN")
