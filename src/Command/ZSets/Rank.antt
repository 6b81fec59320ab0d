-- ===== src/Command/ZSets/Rank.antt =====
-- src/command/zset.rs: the rank of ZRANK against a count, and ZRANGE against the order of the scores.
use ai_kv.Command.ZSets.Cut.{IsCut, ranged-IsCut, listed_scores_lem}
use ai_kv.Base.{
  suc, true, sym, ap, ◌≤◌, i64_bound, map, ℕ, ◌<◌, ◌≡◌, refl, ◌∙◌, Bool, false, Bool-cases, inl,
  inr, not, ◌||◌, some, List, [], ◌∷◌, length, filter, arith, ◌==◌, pos,
}
use ai_kv.Base.Sort.{sort_by}
use ai_kv.Base.Sort.Ordered.{All, IsSorted, All-sort_by, count-sort_by}
use ai_kv.Text.{Bytes, bytes_eq, bytes_eq_iff}
use ai_kv.Text.Utf8.{from_utf8_lossy}
use ai_kv.Error.{ok}
use ai_kv.HashMap
use ai_kv.HashMap.{HashMap}
use ai_kv.HashMap.Laws.{IsDistinct, Lacks}
use ai_kv.Resp.{integer, array, bulk_list}
use ai_kv.Base.{ℤ}
use ai_kv.Command.Index.{i64_arg}
use ai_kv.Storage.Adapter.{StorageAdapter}
use ai_kv.Storage.View.{view}
use ai_kv.Storage.Contract.{get_value-view}
use ai_kv.Command.Floats.{F64}
use ai_kv.Command.ZSets.{ZSet, zset_or_new, iter, member_leb}
use ai_kv.Command.ZSets.Ranges.{upward, has_nan, sorted, rank_in, zrank, zrange, ranged}
use ai_kv.Command.ZSets.Order.{
  IsOrder, before, is_number, in_order, numbers_of, has_nan_of_numbers, ranks-IsSorted,
  position_in_lem,
}

length-filter_all : (l : List (Bytes × ℕ)) → length (filter (λ e. true) l) ≡ length l
length-filter_all [] = refl
length-filter_all (e ∷ l) = ap suc (length-filter_all l)

module _ (floats : F64) where
  -- A sort keeps what is at a member, if every member has one entry.
  abbrev keyed : Bytes → ℕ → Bytes × ℕ → Bool
  keyed m x e = not (bytes_eq e.0 m) || e.1 == x

  keyed_of_Lacks : (l : List (Bytes × ℕ)) (m : Bytes) (x : ℕ) → Lacks l m → All (keyed m x) l
  unfolding HashMap.get
  keyed_of_Lacks [] m x h = tt
  keyed_of_Lacks ((j, v) ∷ l) m x h = (ground arith, keyed_of_Lacks l m x (ground arith))

  keyed_of_get :
      (l : List (Bytes × ℕ)) (m : Bytes) (x : ℕ)
      → IsDistinct l
      → HashMap.get l m ≡ some x
      → All (keyed m x) l
  unfolding HashMap.get
  keyed_of_get [] m x d e = tt
  keyed_of_get ((j, v) ∷ l) m x d e = elim (Bool-cases (bytes_eq j m)) [
    | inl same ↦
        let name : j ≡ m = (bytes_eq_iff j m).0 same in
        (ground arith, keyed_of_Lacks l m x (rw (← name) d.0))
    | inr other ↦ (ground arith, keyed_of_get l m x d.1 (ground arith))
  ]

  counted_of_get :
      (l : List (Bytes × ℕ)) (m : Bytes) (x : ℕ)
      → HashMap.get l m ≡ some x
      → 0 < length (filter (λ e. bytes_eq e.0 m) l)
  unfolding HashMap.get
  counted_of_get [] m x e = cc
  counted_of_get ((j, v) ∷ l) m x e = ground (arith, counted_of_get l m x)

  get_of_counted :
      (l : List (Bytes × ℕ)) (m : Bytes) (x : ℕ)
      → All (keyed m x) l
      → 0 < length (filter (λ e. bytes_eq e.0 m) l)
      → HashMap.get l m ≡ some x
  unfolding HashMap.get
  get_of_counted [] m x h p = absurd (omega arith)
  get_of_counted ((j, v) ∷ l) m x h p = ground (arith, h.0, get_of_counted l m x h.1)

  get-sort_by :
      (le : Bytes × ℕ → Bytes × ℕ → Bool) (l : List (Bytes × ℕ)) (m : Bytes) (x : ℕ)
      → All (keyed m x) l
      → 0 < length (filter (λ e. bytes_eq e.0 m) l)
      → HashMap.get (sort_by le l) m ≡ some x
  get-sort_by le l m x h p =
      get_of_counted (sort_by le l) m x (All-sort_by le (keyed m x) l h)
        (omega (arith, count-sort_by le (λ e. bytes_eq e.0 m) l))

  get-ranks :
      (z : ZSet) (m : Bytes) (x : ℕ)
      → IsDistinct z
      → HashMap.get z m ≡ some x
      → HashMap.get (sort_by (upward floats) (iter z)) m ≡ some x
  unfolding iter
  get-ranks z m x d e =
      get-sort_by (upward floats) (sort_by member_leb z) m x
        (All-sort_by member_leb (keyed m x) z (keyed_of_get z m x d e))
        (omega (arith, count-sort_by member_leb (λ e. bytes_eq e.0 m) z, counted_of_get z m x e))

  count-ranks :
      (z : ZSet) (test : Bytes × ℕ → Bool)
      → length (filter test (sort_by (upward floats) (iter z))) ≡ length (filter test z)
  unfolding iter
  count-ranks z test =
      count-sort_by (upward floats) test (sort_by member_leb z) ∙ count-sort_by member_leb test z

  length-ranks : (z : ZSet) → length (sort_by (upward floats) (iter z)) ≡ length z
  length-ranks z =
      sym (length-filter_all (sort_by (upward floats) (iter z)))
      ∙ count-ranks z (λ e. true)
      ∙ length-filter_all z

  -- With no NaN the sort is no panic.
  sorted-ranks :
      (z : ZSet)
      → has_nan floats z ≡ false
      → sorted floats (upward floats) (iter z) ≡ some (sort_by (upward floats) (iter z))
  unfolding sorted iter
  sorted-ranks z h =
      let fine : has_nan floats (sort_by member_leb z) ≡ false =
        has_nan_of_numbers floats (sort_by member_leb z)
          (All-sort_by member_leb (is_number floats) z (numbers_of floats z h)) in
      ground arith

  rank_in_lem :
      IsOrder floats
      → (z : ZSet) (m : Bytes) (x : ℕ) → has_nan floats z ≡ false
      → IsDistinct z
      → HashMap.get z m ≡ some x
      → rank_in floats (upward floats) m z
        ≡ some (integer (pos (length (filter (λ e. before floats e (m, x)) z))))
  unfolding rank_in HashMap.contains_key
  rank_in_lem order z m x h d e =
      rw
        (
          e,
          sorted-ranks z h,
          position_in_lem floats (sort_by (upward floats) (iter z)) m x
              (ranks-IsSorted floats order z h) (get-ranks z m x d e),
          count-ranks z (λ a. before floats a (m, x)),
        )
        refl

-- ZRANK of a member of a sorted set that has one entry for each member and no NaN: it changes nothing
-- and replies how many members are before it, that is have a lower score, or the same score and a
-- lower name. The comparison of floats has to be transitive, and total on all but NaN.
pub zrank_counts :
    (floats : F64) (now : ℕ) (k m : Bytes) (db : ℕ) (s : StorageAdapter) (z : ZSet) (x : ℕ)
    → IsOrder floats
    → zset_or_new (view now s db (from_utf8_lossy k)) ≡ ok z
    → IsDistinct z
    → has_nan floats z ≡ false
    → HashMap.get z m ≡ some x
    → zrank floats now (k ∷ m ∷ []) db s
      ≡ (ok (some (integer (pos (length (filter (λ e. before floats e (m, x)) z))))), s)
unfolding zrank
zrank_counts floats now k m db s z x order shown d h e =
    rw (get_value-view now db (from_utf8_lossy k) s, shown, rank_in_lem floats order z m x h d e)
      refl

-- ZRANGE of a sorted set with no NaN, for any two indices: it changes nothing, and replies the names of
-- a list `r` that is cut out of a list `l` of the entries of the set. In `l` every member stands
-- before those with a higher score, or with the same score and a higher name, and there are as many
-- entries of every kind as in the set. `r` is what stands in `l` from the start to the stop, both
-- included and counted from the end if negative; a start before the front means the front, and a stop
-- before the front leaves nothing. The set has no more than 2^63 members.
pub zrange-in_order :
    (floats : F64) (now : ℕ) (k a b : Bytes) (db : ℕ) (s : StorageAdapter) (z : ZSet)
    (start stop : ℤ)
    → IsOrder floats
    → zset_or_new (view now s db (from_utf8_lossy k)) ≡ ok z
    → has_nan floats z ≡ false
    → i64_arg "invalid start index" a ≡ ok start
    → i64_arg "invalid stop index" b ≡ ok stop
    → length z ≤ i64_bound
    → (l : List (Bytes × ℕ)) × (r : List (Bytes × ℕ)) × (zrange floats now (k ∷ a ∷ b ∷ []) db s
        ≡ (ok (some (array (bulk_list (map (λ e. e.0) r)))), s))
      × IsCut start stop l r
      × IsSorted (in_order floats) l
      × ((test : Bytes × ℕ → Bool) → length (filter test l) ≡ length (filter test z))
unfolding zrange
zrange-in_order floats now k a b db s z start stop order shown h from to small =
    let l = sort_by (upward floats) (iter z) in
    let r = ranged start stop l in
    (
      l,
      r,
      rw
          (
            from,
            to,
            get_value-view now db (from_utf8_lossy k) s,
            shown,
            sorted-ranks floats z h,
            listed_scores_lem floats r,
          )
          refl,
      ranged-IsCut start stop l (rw (length-ranks floats z) small),
      ranks-IsSorted floats order z h,
      count-ranks floats z,
    )
