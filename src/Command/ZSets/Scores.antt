-- ===== src/Command/ZSets/Scores.antt =====
-- src/command/zset.rs: ZRANGEBYSCORE, ZREVRANGEBYSCORE and ZCOUNT.
use ai_kv.Base.{
  ℕ, Bool, true, false, ◌&&◌, Option, none, some, List, [], ◌∷◌, filter, take, drop, length, ◌==◌,
  ℤ, pos, if◌then◌else◌,
}
use ai_kv.Text.{Bytes, codes, bytes_eq}
use ai_kv.Text.Utf8.{from_utf8_lossy, to_uppercase}
use ai_kv.Error.{Result, ok, err, ok_or}
use ai_kv.Effect.{give, fail, check, ◌>>=◌}
use ai_kv.HashMap
use ai_kv.Resp.{RespValue, integer, array, bulk_list}
use ai_kv.Storage.Adapter.{get_value}
use ai_kv.Command.Floats.{F64}
use ai_kv.Command.Index.{bad_argument, i64_arg, usize_arg}
use ai_kv.Command.Replies.{Handler, wrong_count}
use ai_kv.Command.Scanning.{syntax_error}
use ai_kv.Command.ZSets.{ZSet, zset_or_new, iter}
use ai_kv.Command.ZSets.Ranges.{PanicHandler, sorted, upward, downward, listed_scores}

pub data ScoreBound : Type 0 where
  negative_infinity positive_infinity : ScoreBound
  inclusive exclusive : ℕ → ScoreBound

-- What stands behind a first byte.
behind : ℕ → Bytes → Option Bytes
behind c [] = none
behind c (d ∷ s) = if d == c then some s else none

unfoldable pub score_of : F64 → Bytes → Result ℕ
score_of floats s = ok_or (floats.parse s) (bad_argument "invalid score")

bounded : (ℕ → ScoreBound) → Result ℕ → Result ScoreBound
bounded bound (ok x) = ok (bound x)
bounded bound (err e) = err e

unfoldable pub parse_score_bound : F64 → Bytes → Result ScoreBound
unfolding behind bounded score_of
parse_score_bound floats s =
    if bytes_eq s (codes "-inf")
    then ok negative_infinity
    else if bytes_eq s (codes "+inf")
    then ok positive_infinity
    else elim (behind b'(' s) [
      | some rest ↦ bounded exclusive (score_of floats rest)
      | none ↦ elim (behind b'[' s) [
        | some rest ↦ bounded inclusive (score_of floats rest)
        | none ↦ bounded inclusive (score_of floats s)
      ]
    ]

unfoldable pub above_min : F64 → ℕ → ScoreBound → Bool
above_min floats score negative_infinity = true
above_min floats score (inclusive min_score) = floats.le min_score score
above_min floats score (exclusive min_score) = floats.lt min_score score
above_min floats score positive_infinity = false

unfoldable pub below_max : F64 → ℕ → ScoreBound → Bool
below_max floats score positive_infinity = true
below_max floats score (inclusive max_score) = floats.le score max_score
below_max floats score (exclusive max_score) = floats.lt score max_score
below_max floats score negative_infinity = false

unfoldable pub score_in_range : F64 → ℕ → ScoreBound → ScoreBound → Bool
unfolding above_min below_max
score_in_range floats score min_bound max_bound =
    above_min floats score min_bound && below_max floats score max_bound

pub record RangeOptions : Type 0 where
  pub with_scores : Bool
  pub offset : ℕ
  pub count : Option ℤ

-- The words behind the bounds: WITHSCORES, and LIMIT with two numbers.
unfoldable pub range_options : List Bytes → RangeOptions → Result RangeOptions
range_options [] o = ok o
range_options (word ∷ []) o =
    if bytes_eq (to_uppercase (from_utf8_lossy word)) (codes "WITHSCORES")
    then ok (record o { with_scores = true })
    else err syntax_error
range_options (word ∷ b ∷ []) o =
    if bytes_eq (to_uppercase (from_utf8_lossy word)) (codes "WITHSCORES")
    then range_options (b ∷ []) (record o { with_scores = true })
    else err syntax_error
range_options (word ∷ b ∷ c ∷ rest) o =
    let arg = to_uppercase (from_utf8_lossy word) in
    elim (bytes_eq arg (codes "WITHSCORES")) [
      | true ↦ range_options (b ∷ c ∷ rest) (record o { with_scores = true })
      | false ↦ elim (bytes_eq arg (codes "LIMIT")) [
        | true ↦ elim (usize_arg "ERR value is not an integer" b) [
          | err e ↦ err e
          | ok n ↦ elim (i64_arg "ERR value is not an integer" c) [
            | err e ↦ err e
            | ok z ↦ range_options rest (record o { offset = n; count = some z })
          ]
        ]
        | false ↦ err syntax_error
      ]
    ]

abbrev pub no_range_options : RangeOptions
no_range_options = record { with_scores = false; offset = 0; count = none }

-- LIMIT: a negative count is no limit.
unfoldable pub limited {ℓ} : {A : Type ℓ} → RangeOptions → List A → List A
limited o l = elim o.count [ some (pos c) ↦ take c (drop o.offset l) | _ ↦ drop o.offset l ]

unfoldable pub in_bounds : F64 → ScoreBound → ScoreBound → ZSet → List (Bytes × ℕ)
in_bounds floats min_bound max_bound z =
    filter (λ e. score_in_range floats e.1 min_bound max_bound) (iter z)

score_range_reply : F64 → RangeOptions → Option (List (Bytes × ℕ)) → Option RespValue
score_range_reply floats o none = none
score_range_reply floats o (some l) =
    some (array (bulk_list (listed_scores floats o.with_scores (limited o l))))

unfoldable pub zrangebyscore : F64 → PanicHandler
unfolding score_range_reply
zrangebyscore floats now (k ∷ a ∷ b ∷ rest) db = do
  o ← check (range_options rest no_range_options)
  min_bound ← check (parse_score_bound floats (from_utf8_lossy a))
  max_bound ← check (parse_score_bound floats (from_utf8_lossy b))
  stored ← get_value now db (from_utf8_lossy k)
  z ← check (zset_or_new stored)
  give (
      score_range_reply floats o
        (sorted floats (upward floats) (in_bounds floats min_bound max_bound z)))
zrangebyscore floats now _ db = fail (wrong_count "ZRANGEBYSCORE")

-- The greater bound comes first.
unfoldable pub zrevrangebyscore : F64 → PanicHandler
unfolding score_range_reply
zrevrangebyscore floats now (k ∷ a ∷ b ∷ rest) db = do
  o ← check (range_options rest no_range_options)
  min_bound ← check (parse_score_bound floats (from_utf8_lossy b))
  max_bound ← check (parse_score_bound floats (from_utf8_lossy a))
  stored ← get_value now db (from_utf8_lossy k)
  z ← check (zset_or_new stored)
  give (
      score_range_reply floats o
        (sorted floats (downward floats) (in_bounds floats min_bound max_bound z)))
zrevrangebyscore floats now _ db = fail (wrong_count "ZREVRANGEBYSCORE")

unfoldable pub zcount : F64 → Handler
zcount floats now (k ∷ a ∷ b ∷ []) db = do
  min_bound ← check (parse_score_bound floats (from_utf8_lossy a))
  max_bound ← check (parse_score_bound floats (from_utf8_lossy b))
  stored ← get_value now db (from_utf8_lossy k)
  z ← check (zset_or_new stored)
  give (
      integer (
        pos
          (length (filter (λ x. score_in_range floats x min_bound max_bound) (HashMap.values z)))))
zcount floats now _ db = fail (wrong_count "ZCOUNT")
