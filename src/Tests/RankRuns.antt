-- ===== src/Tests/RankRuns.antt =====
-- The theorems on the sorted set commands on the small storage, with numbers for floats.
use ai_kv.Base.{
  ℕ, ◌≡◌, refl, Bool, false, some, List, [], ◌∷◌, length, filter, pos, negsuc, map, arith,
}
use ai_kv.Base.Sort.Ordered.{IsSorted}
use ai_kv.Text.{Bytes, bytes_eq}
use ai_kv.Text.Utf8.{from_utf8_lossy}
use ai_kv.Text.Number.{parse_i64}
use ai_kv.Error.{ok}
use ai_kv.HashMap
use ai_kv.Resp.{integer, array, bulk_list}
use ai_kv.Storage.Value.{is_expired, as_zset}
use ai_kv.Storage.Adapter.{find}
use ai_kv.Storage.View.{view}
use ai_kv.Command.Index.{i64_arg}
use ai_kv.Command.ZSets.{zset_or_new}
use ai_kv.Command.ZSets.Ranges.{has_nan, zrank, zrange}
use ai_kv.Command.ZSets.Order.{before, in_order}
use ai_kv.Command.ZSets.Rank.{zrank_counts, zrange-in_order}
use ai_kv.Command.ZSets.Cut.{IsCut}
use ai_kv.Tests.{elem_x}
use ai_kv.Tests.Kinds.{ranked_key, scores, kinds, floats, floats-IsOrder}

scores_shown : zset_or_new (view 5 kinds 0 (from_utf8_lossy ranked_key)) ≡ ok scores
unfolding zset_or_new view find HashMap.get bytes_eq is_expired from_utf8_lossy as_zset
scores_shown = refl

scores_numbers : has_nan floats scores ≡ false
unfolding has_nan
scores_numbers = refl

first_index : i64_arg "invalid start index" (b'0' ∷ []) ≡ ok (pos 0)
unfolding i64_arg from_utf8_lossy parse_i64
first_index = refl

last_index : i64_arg "invalid stop index" (b'-' ∷ b'1' ∷ []) ≡ ok (negsuc 0)
unfolding i64_arg from_utf8_lossy parse_i64
last_index = refl

zrank_example :
    zrank floats 5 (ranked_key ∷ elem_x ∷ []) 0 kinds
    ≡ (ok (some (integer (pos (length (filter (λ e. before floats e (elem_x, 9)) scores))))), kinds)
unfolding HashMap.get bytes_eq
zrank_example =
    zrank_counts floats 5 ranked_key elem_x 0 kinds scores 9 floats-IsOrder scores_shown
      (refl, (refl, tt)) scores_numbers refl

zrange_example :
    (l : List (Bytes × ℕ)) × (r : List (Bytes × ℕ)) × (zrange floats 5
        (ranked_key ∷ (b'0' ∷ []) ∷ (b'-' ∷ b'1' ∷ []) ∷ [])
        0
        kinds
      ≡ (ok (some (array (bulk_list (map (λ e. e.0) r)))), kinds))
    × IsCut (pos 0) (negsuc 0) l r
    × IsSorted (in_order floats) l
    × ((test : Bytes × ℕ → Bool) → length (filter test l) ≡ length (filter test scores))
zrange_example =
    zrange-in_order floats 5 ranked_key (b'0' ∷ []) (b'-' ∷ b'1' ∷ []) 0 kinds scores (pos 0)
      (negsuc 0) floats-IsOrder scores_shown scores_numbers first_index last_index (omega arith)
