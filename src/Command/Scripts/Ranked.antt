-- ===== src/Command/Scripts/Ranked.antt =====
-- src/command/script.rs: the sorted set commands that a script calls, over its buffer.
use ai_kv.Base.{
  ℕ, ◌+◌, ◌%◌, ◌==◌, Bool, ◌&&◌, not, ◌||◌, Option, none, some, List, [], ◌∷◌, length, is_none, pos,
  if◌then◌else◌,
}
use ai_kv.Base.Sort.{sort_by}
use ai_kv.Text.{Bytes}
use ai_kv.Text.Utf8.{from_utf8_lossy}
use ai_kv.Error.{Result, ok, err}
use ai_kv.Effect.{Effect, give, fail, check, ◌>>=◌, ◌>>◌}
use ai_kv.HashMap
use ai_kv.Resp.{RespValue, integer, null, array, bulk_list}
use ai_kv.Storage.Value.{StoredValue, as_zset}
use ai_kv.Storage.Adapter.{StorageAdapter}
use ai_kv.Command.Index.{i64_arg}
use ai_kv.Command.Replies.{wrong_count}
use ai_kv.Command.Floats.{F64, f64_arg}
use ai_kv.Command.ZSets.{ZSet, zset_or_new, iter, member_leb, remove_scores, score_reply}
use ai_kv.Command.ZSets.Ranges.{position_in, rank_reply, ranged, listed_scores, asks_scores}
use ai_kv.Command.ZSets.Pops.{lowest}
use ai_kv.Command.Scripts.{ScriptTransaction, set_zset, drop_key, get_value, buffer}
use ai_kv.Command.Scripts.Calls.{ScriptHandler}

unfoldable pub zset_at : ℕ → StorageAdapter → Bytes → Effect ScriptTransaction ZSet
zset_at now storage key = do stored ← get_value now storage key; check (zset_or_new stored)

-- The loop over the pairs; a score that is not a float ends it with an error.
unfoldable pub add_pairs : F64 → List Bytes → ZSet → ℕ → Result (ℕ × ZSet)
add_pairs floats [] z count = ok (count, z)
add_pairs floats (_ ∷ []) z count = ok (count, z)
add_pairs floats (score ∷ member ∷ rest) z count =
    elim (f64_arg floats "score is not a float" score) [
      | err e ↦ err e
      | ok x ↦
          add_pairs floats rest (HashMap.insert z member x)
            (if is_none (HashMap.get z member) then count + 1 else count)
    ]

unfoldable pub execute_zadd : F64 → ScriptHandler
unfolding add_pairs
execute_zadd floats now storage (k ∷ score ∷ member ∷ rest) =
    if length rest % 2 == 0
    then (do
      let key = from_utf8_lossy k
      z ← zset_at now storage key
      added ← check (add_pairs floats (score ∷ member ∷ rest) z 0)
      buffer key (set_zset added.1)
      give (integer (pos added.0)))
    else fail (wrong_count "ZADD")
execute_zadd floats now storage _ = fail (wrong_count "ZADD")

buffer_zset : Bytes → ZSet → Effect ScriptTransaction (Unit {0})
buffer_zset key [] = buffer key drop_key
buffer_zset key (e ∷ z) = buffer key (set_zset (e ∷ z))

zrem_found : Bytes → List Bytes → Option StoredValue → Effect ScriptTransaction RespValue
unfolding buffer_zset
zrem_found key members none = give (integer (pos 0))
zrem_found key members (some stored) = do
  z ← check (as_zset stored)
  let (count, z') = remove_scores members z 0
  buffer_zset key z'
  give (integer (pos count))

unfoldable pub execute_zrem : ScriptHandler
unfolding zrem_found
execute_zrem now storage (k ∷ x ∷ xs) = do
  let key = from_utf8_lossy k
  stored ← get_value now storage key
  zrem_found key (x ∷ xs) stored
execute_zrem now storage _ = fail (wrong_count "ZREM")

unfoldable pub execute_zscore : F64 → ScriptHandler
unfolding score_reply
execute_zscore floats now storage (k ∷ member ∷ []) = do
  z ← zset_at now storage (from_utf8_lossy k)
  give (score_reply floats (HashMap.get z member))
execute_zscore floats now storage _ = fail (wrong_count "ZSCORE")

-- A NaN counts as equal to every score, and is no panic here.
unfoldable pub execute_zrank : F64 → ScriptHandler
unfolding rank_reply
execute_zrank floats now storage (k ∷ member ∷ []) = do
  z ← zset_at now storage (from_utf8_lossy k)
  give (
      if HashMap.contains_key z member
      then rank_reply (position_in member (sort_by (lowest floats) (iter z)))
      else null)
execute_zrank floats now storage _ = fail (wrong_count "ZRANK")

-- By the score, and then by the member.
unfoldable pub by_score : F64 → Bytes × ℕ → Bytes × ℕ → Bool
by_score floats a b = floats.lt a.1 b.1 || (not (floats.lt b.1 a.1) && member_leb a b)

unfoldable pub execute_zrange : F64 → ScriptHandler
unfolding by_score
execute_zrange floats now storage (k ∷ a ∷ b ∷ rest) = do
  start ← check (i64_arg "start is not an integer" a)
  stop ← check (i64_arg "stop is not an integer" b)
  z ← zset_at now storage (from_utf8_lossy k)
  let sorted = sort_by (by_score floats) (iter z)
  give (array (bulk_list (listed_scores floats (asks_scores rest) (ranged start stop sorted))))
execute_zrange floats now storage _ = fail (wrong_count "ZRANGE")

unfoldable pub execute_zcard : ScriptHandler
execute_zcard now storage (k ∷ []) = do
  z ← zset_at now storage (from_utf8_lossy k)
  give (integer (pos (length z)))
execute_zcard now storage _ = fail (wrong_count "ZCARD")
