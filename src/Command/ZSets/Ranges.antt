-- ===== src/Command/ZSets/Ranges.antt =====
-- src/command/zset.rs: ZRANK, ZREVRANK, ZRANGE and ZREVRANGE.
use ai_kv.Base.{
  ℕ, ◌+◌, ◌-◌, ◌==◌, Bool, true, false, not, ◌&&◌, ◌||◌, Option, none, some, List, [], ◌∷◌, leb,
  take, drop, ℤ, pos, negsuc, pos_part, ◌+ℤ◌, ltb_ℤ, max_ℤ, min_ℤ, i64_bound, if◌then◌else◌, length,
}
use ai_kv.Base.Sort.{sort_by}
use ai_kv.Text.{Bytes, codes, bytes_eq}
use ai_kv.Text.Utf8.{from_utf8_lossy, to_uppercase}
use ai_kv.Effect.{give, fail, check, ◌>>=◌}
use ai_kv.HashMap
use ai_kv.Resp.{RespValue, integer, array, null, bulk_list}
use ai_kv.Storage.Adapter.{get_value}
use ai_kv.Command.Floats.{F64}
use ai_kv.Command.Index.{i64_arg}
use ai_kv.Command.Replies.{wrong_count}
use ai_kv.Command.Scanning.{ScanHandler}
use ai_kv.Command.ZSets.{ZSet, zset_or_new, iter}

-- `none` is a panic.
abbrev pub PanicHandler : Type 0
PanicHandler = ScanHandler

-- `partial_cmp` of the scores, from low to high or from high to low
abbrev pub upward : F64 → Bytes × ℕ → Bytes × ℕ → Bool
upward floats a b = floats.le a.1 b.1

abbrev pub downward : F64 → Bytes × ℕ → Bytes × ℕ → Bool
downward floats a b = floats.le b.1 a.1

-- Some score cannot be compared, not even with itself.
unfoldable pub has_nan : F64 → List (Bytes × ℕ) → Bool
has_nan floats [] = false
has_nan floats (e ∷ l) = not (floats.le e.1 e.1) || has_nan floats l

-- A sort by scores. It compares if there are two members at least, and then each of them.
unfoldable pub sorted :
    F64 → (Bytes × ℕ → Bytes × ℕ → Bool) → List (Bytes × ℕ) → Option (List (Bytes × ℕ))
sorted floats le l = if leb 2 (length l) && has_nan floats l then none else some (sort_by le l)

unfoldable pub position_in : Bytes → List (Bytes × ℕ) → Option ℕ
position_in member [] = none
position_in member (e ∷ l) =
    if bytes_eq e.0 member
    then some 0
    else elim (position_in member l) [ none ↦ none | some i ↦ some (i + 1) ]

unfoldable pub rank_reply : Option ℕ → RespValue
rank_reply none = null
rank_reply (some i) = integer (pos i)

ranked : Bytes → Option (List (Bytes × ℕ)) → Option RespValue
unfolding rank_reply
ranked member none = none
ranked member (some l) = some (rank_reply (position_in member l))

module _ (floats : F64) (le : Bytes × ℕ → Bytes × ℕ → Bool) where
  -- A member that is not there is not looked for.
  unfoldable pub rank_in : Bytes → ZSet → Option RespValue
  unfolding ranked
  rank_in member z =
      if HashMap.contains_key z member then ranked member (sorted floats le (iter z)) else some null

unfoldable pub zrank : F64 → PanicHandler
zrank floats now (k ∷ member ∷ []) db = do
  stored ← get_value now db (from_utf8_lossy k)
  z ← check (zset_or_new stored)
  give (rank_in floats (upward floats) member z)
zrank floats now _ db = fail (wrong_count "ZRANK")

unfoldable pub zrevrank : F64 → PanicHandler
zrevrank floats now (k ∷ member ∷ []) db = do
  stored ← get_value now db (from_utf8_lossy k)
  z ← check (zset_or_new stored)
  give (rank_in floats (downward floats) member z)
zrevrank floats now _ db = fail (wrong_count "ZREVRANK")

unfoldable pub range_start : ℕ → ℤ → ℕ
range_start len start =
    if ltb_ℤ start (pos 0)
    then pos_part (max_ℤ (pos len +ℤ start) (pos 0))
    else pos_part (min_ℤ start (pos len))

-- The index behind the last. `stop + 1` of the greatest `i64` wraps to the least, which is 2^63 as a
-- `usize`.
unfoldable pub range_stop : ℕ → ℤ → ℕ
range_stop len stop =
    if ltb_ℤ stop (pos 0)
    then pos_part (max_ℤ (pos len +ℤ stop) (negsuc 0) +ℤ pos 1)
    else if pos_part stop + 1 == i64_bound
    then i64_bound
    else pos_part (min_ℤ (stop +ℤ pos 1) (pos len))

unfoldable pub ranged : ℤ → ℤ → List (Bytes × ℕ) → List (Bytes × ℕ)
unfolding range_start range_stop
ranged start stop l =
    let a = range_start (length l) start in
    let b = range_stop (length l) stop in if leb b a then [] else take (b - a) (drop a l)

-- The members, each with its score behind it if that is asked for.
unfoldable pub listed_scores : F64 → Bool → List (Bytes × ℕ) → List Bytes
listed_scores floats with_scores [] = []
listed_scores floats true (e ∷ l) = e.0 ∷ floats.to_string e.1 ∷ listed_scores floats true l
listed_scores floats false (e ∷ l) = e.0 ∷ listed_scores floats false l

unfoldable pub asks_scores : List Bytes → Bool
asks_scores [] = false
asks_scores (word ∷ _) = bytes_eq (to_uppercase (from_utf8_lossy word)) (codes "WITHSCORES")

range_reply : F64 → Bool → ℤ → ℤ → Option (List (Bytes × ℕ)) → Option RespValue
range_reply floats with_scores start stop none = none
range_reply floats with_scores start stop (some l) =
    some (array (bulk_list (listed_scores floats with_scores (ranged start stop l))))

unfoldable pub zrange : F64 → PanicHandler
unfolding asks_scores range_reply
zrange floats now (k ∷ a ∷ b ∷ rest) db = do
  start ← check (i64_arg "invalid start index" a)
  stop ← check (i64_arg "invalid stop index" b)
  stored ← get_value now db (from_utf8_lossy k)
  z ← check (zset_or_new stored)
  give (range_reply floats (asks_scores rest) start stop (sorted floats (upward floats) (iter z)))
zrange floats now _ db = fail (wrong_count "ZRANGE")

unfoldable pub zrevrange : F64 → PanicHandler
unfolding asks_scores range_reply
zrevrange floats now (k ∷ a ∷ b ∷ rest) db = do
  start ← check (i64_arg "invalid start index" a)
  stop ← check (i64_arg "invalid stop index" b)
  stored ← get_value now db (from_utf8_lossy k)
  z ← check (zset_or_new stored)
  give (range_reply floats (asks_scores rest) start stop (sorted floats (downward floats) (iter z)))
zrevrange floats now _ db = fail (wrong_count "ZREVRANGE")
