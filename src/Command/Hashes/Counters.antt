-- ===== src/Command/Hashes/Counters.antt =====
-- src/command/hash.rs: HINCRBY and HINCRBYFLOAT.
use ai_kv.Base.{
  ℕ, ◌-◌, Option, none, some, [], ◌∷◌, ltb, leb, ℤ, pos, negsuc, pos_part, neg_part, ◌+ℤ◌,
  i64_bound, u64_mod, if◌then◌else◌,
}
use ai_kv.Text.{Bytes}
use ai_kv.Text.Utf8.{from_utf8_lossy}
use ai_kv.Text.Number.{print_i64}
use ai_kv.Error.{Result, ok}
use ai_kv.Effect.{give, fail, check, ◌>>=◌, ◌>>◌}
use ai_kv.HashMap
use ai_kv.HashMap.{HashMap}
use ai_kv.Resp.{integer, bulk_string}
use ai_kv.Storage.Value.{new_hash}
use ai_kv.Storage.Adapter.{get_value, set_value}
use ai_kv.Command.Index.{i64_arg}
use ai_kv.Command.Replies.{Handler, wrong_count}
use ai_kv.Command.Floats.{F64, f64_arg}
use ai_kv.Command.Hashes.{hash_or_new}

-- The sum of two `i64` in a release build: a sum out of range wraps around.
unfoldable pub wrapping_add : ℤ → ℤ → ℤ
wrapping_add a b =
    let c = a +ℤ b in
    if leb i64_bound (pos_part c)
    then negsuc (u64_mod - pos_part c - 1)
    else if ltb i64_bound (neg_part c)
    then pos (u64_mod - neg_part c)
    else c

unfoldable pub current_value : Option Bytes → Result ℤ
current_value none = ok (pos 0)
current_value (some b) = i64_arg "hash value is not an integer" b

unfoldable pub hincrby : Handler
unfolding current_value
hincrby now (k ∷ f ∷ n ∷ []) db = do
  let key = from_utf8_lossy k
  let field = from_utf8_lossy f
  increment ← check (i64_arg "invalid increment" n)
  stored ← get_value now db key
  h ← check (hash_or_new stored)
  current ← check (current_value (HashMap.get h field))
  let new_value = wrapping_add current increment
  set_value db key (new_hash (HashMap.insert h field (print_i64 new_value)))
  give (integer new_value)
hincrby now _ db = fail (wrong_count "HINCRBY")

current_float : F64 → Option Bytes → Result ℕ
current_float floats none = ok floats.zero_score
current_float floats (some b) = f64_arg floats "hash value is not a float" b

unfoldable pub hincrbyfloat : F64 → Handler
unfolding current_float
hincrbyfloat floats now (k ∷ f ∷ n ∷ []) db = do
  let key = from_utf8_lossy k
  let field = from_utf8_lossy f
  increment ← check (f64_arg floats "invalid increment" n)
  stored ← get_value now db key
  h ← check (hash_or_new stored)
  current ← check (current_float floats (HashMap.get h field))
  let new_value = floats.to_string (floats.add current increment)
  set_value db key (new_hash (HashMap.insert h field new_value))
  give (bulk_string (some new_value))
hincrbyfloat floats now _ db = fail (wrong_count "HINCRBYFLOAT")
