-- ===== src/Command/ZSets.antt =====
-- src/command/zset.rs: ZADD, ZREM, ZSCORE, ZCARD and ZINCRBY. A `BTreeMap` is read in the order of its
-- keys. Where the source unwraps the comparison of two scores, a NaN is a panic, `none`.
pub mod Ranges
pub mod Scores
pub mod Lex
pub mod Pops
pub mod Cut
pub mod Rank
pub mod Order
use ai_kv.Base.{
  as_i32, ℕ, ◌+◌, ◌%◌, ◌==◌, Bool, not, ◌||◌, Option, none, some, List, [], ◌∷◌, length, is_none,
  is_some, pos, if◌then◌else◌,
}
use ai_kv.Base.Sort.{sort_by}
use ai_kv.Text.{Bytes, bytes_leb}
use ai_kv.Text.Utf8.{from_utf8_lossy}
use ai_kv.Error.{Result, ok, err}
use ai_kv.Effect.{Effect, give, fail, check, ◌>>=◌, ◌>>◌}
use ai_kv.HashMap
use ai_kv.HashMap.{HashMap}
use ai_kv.Resp.{RespValue, integer, bulk_string, null}
use ai_kv.Storage.Value.{StoredValue, as_zset, new_zset}
use ai_kv.Storage.Adapter.{StorageAdapter, get_value, set_value, delete_from_db}
use ai_kv.Command.Floats.{F64, f64_arg}
use ai_kv.Command.Replies.{Handler, wrong_count}

abbrev pub ZSet : Type 0
ZSet = HashMap ℕ

-- The sorted set at a key, or a new one.
unfoldable pub zset_or_new : Option StoredValue → Result ZSet
zset_or_new none = ok []
zset_or_new (some stored) = as_zset stored

abbrev pub member_leb : Bytes × ℕ → Bytes × ℕ → Bool
member_leb a b = bytes_leb a.0 b.0

-- `zset.iter()`
unfoldable pub iter : ZSet → List (Bytes × ℕ)
iter z = sort_by member_leb z

-- The scores and members of ZADD, all read before the first is stored.
unfoldable pub score_pairs : F64 → List Bytes → Result (List (ℕ × Bytes))
score_pairs floats [] = ok []
score_pairs floats (score ∷ []) = ok []
score_pairs floats (score ∷ member ∷ rest) = elim (f64_arg floats "invalid score" score) [
  | err e ↦ err e
  | ok x ↦ elim (score_pairs floats rest) [ err e ↦ err e | ok l ↦ ok ((x, member) ∷ l) ]
]

-- The loop of ZADD, and how many members are new. The counter is an `i32`: it is counted here how often
-- it is raised, and it wraps where ZADD casts it, by `as_i32`.
unfoldable pub add_scores : List (ℕ × Bytes) → ZSet → ℕ → ℕ × ZSet
add_scores [] z count = (count, z)
add_scores ((score, member) ∷ rest) z count =
    add_scores rest (HashMap.insert z member score)
      (if is_none (HashMap.get z member) then count + 1 else count)

unfoldable pub zadd : F64 → Handler
zadd floats now (k ∷ score ∷ member ∷ rest) db =
    if length rest % 2 == 0
    then (do
      let key = from_utf8_lossy k
      members ← check (score_pairs floats (score ∷ member ∷ rest))
      stored ← get_value now db key
      z ← check (zset_or_new stored)
      let (count, z') = add_scores members z 0
      set_value db key (new_zset z')
      give (integer (as_i32 count)))
    else fail (wrong_count "ZADD")
zadd floats now _ db = fail (wrong_count "ZADD")

-- The loop of ZREM, and how many members were there, with a counter as in ZADD.
unfoldable pub remove_scores : List Bytes → ZSet → ℕ → ℕ × ZSet
remove_scores [] z count = (count, z)
remove_scores (x ∷ xs) z count =
    remove_scores xs (HashMap.remove z x) (if is_some (HashMap.get z x) then count + 1 else count)

-- A sorted set that has become empty takes its key away.
unfoldable pub store_zset : ℕ → Bytes → ZSet → Effect StorageAdapter (Unit {0})
store_zset db key [] = do delete_from_db db key; give tt
store_zset db key (e ∷ z) = set_value db key (new_zset (e ∷ z))

unfoldable pub zrem_stored :
    ℕ → Bytes → List Bytes → Option StoredValue → Effect StorageAdapter RespValue
zrem_stored db key members none = give (integer (pos 0))
zrem_stored db key members (some stored) = do
  z ← check (as_zset stored)
  let (count, z') = remove_scores members z 0
  store_zset db key z'
  give (integer (as_i32 count))

unfoldable pub zrem : Handler
zrem now (k ∷ x ∷ xs) db = do
  let key = from_utf8_lossy k
  stored ← get_value now db key
  zrem_stored db key (x ∷ xs) stored
zrem now _ db = fail (wrong_count "ZREM")

unfoldable pub score_reply : F64 → Option ℕ → RespValue
score_reply floats none = null
score_reply floats (some score) = bulk_string (some (floats.to_string score))

unfoldable pub zscore : F64 → Handler
zscore floats now (k ∷ x ∷ []) db = do
  stored ← get_value now db (from_utf8_lossy k)
  z ← check (zset_or_new stored)
  give (score_reply floats (HashMap.get z x))
zscore floats now _ db = fail (wrong_count "ZSCORE")

unfoldable pub zcard : Handler
zcard now (k ∷ []) db = do
  stored ← get_value now db (from_utf8_lossy k)
  z ← check (zset_or_new stored)
  give (integer (pos (length z)))
zcard now _ db = fail (wrong_count "ZCARD")

score_or_zero : F64 → Option ℕ → ℕ
score_or_zero floats none = floats.zero_score
score_or_zero floats (some x) = x

-- A new sorted set takes the increment as it is, without adding it to 0.
unfoldable pub incremented : F64 → ℕ → Bytes → Option ZSet → ℕ × ZSet
unfolding score_or_zero
incremented floats increment member none = (increment, (member, increment) ∷ [])
incremented floats increment member (some z) =
    let new_score = floats.add (score_or_zero floats (HashMap.get z member)) increment in
    (new_score, HashMap.insert z member new_score)

zset_there : Option StoredValue → Result (Option ZSet)
zset_there none = ok none
zset_there (some stored) = elim (as_zset stored) [ err e ↦ err e | ok z ↦ ok (some z) ]

unfoldable pub zincrby : F64 → Handler
unfolding zset_there
zincrby floats now (k ∷ n ∷ member ∷ []) db = do
  let key = from_utf8_lossy k
  increment ← check (f64_arg floats "invalid increment" n)
  stored ← get_value now db key
  z ← check (zset_there stored)
  let (new_score, z') = incremented floats increment member z
  set_value db key (new_zset z')
  give (bulk_string (some (floats.to_string new_score)))
zincrby floats now _ db = fail (wrong_count "ZINCRBY")
