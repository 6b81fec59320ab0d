-- ===== src/Command/ZSets/Cut.antt =====
-- src/command/zset.rs: which members the two indices of ZRANGE mean.
use native.Mathlib.Decide.{dec_lt}
use ai_kv.Base.{
  ℕ, suc, ◌+◌, ◌-◌, ◌≤◌, ◌≡◌, refl, ap, ◌∙◌, false, none, List, [], ◌∷◌, map, length, take, drop,
  min, get_elem?, get_elem?-take, get_elem?-drop, get_elem?-none, length-take, arith, ltb, leb,
  ◌==◌, ℤ, pos, negsuc, pos_part, ◌+ℤ◌, ltb_ℤ, max_ℤ, min_ℤ, i64_bound, if◌then◌else◌,
}
use ai_kv.Text.{Bytes}
use ai_kv.Command.Floats.{F64}
use ai_kv.Command.Lists.Order.{position_of}
use ai_kv.Command.ZSets.Ranges.{range_start, range_stop, ranged, listed_scores}

-- The position behind the last one that a stop index of ZRANGE means: from the end if it is negative,
-- and none is in front of it if it is below the front.
abbrev pub end_of : ℕ → ℤ → ℕ
end_of len (pos n) = suc n
end_of len (negsuc n) = len - n

-- What ZRANGE cuts out of a list: its `i`-th element is the list's at the start's position and `i`
-- further, as long as that is in front of the stop's end.
abbrev pub IsCut : {A : Type 0} → ℤ → ℤ → List A → List A → Type 0
IsCut start stop l r =
    (i : ℕ)
    → get_elem? r i ≡ (
        if ltb (position_of (length l) start + i) (end_of (length l) stop)
        then get_elem? l (position_of (length l) start + i)
        else none)

range_start_lem : (len : ℕ) (z : ℤ) → range_start len z ≡ min (position_of len z) len
unfolding range_start
range_start_lem len (pos n) = ground arith
range_start_lem len (negsuc n) = ground arith

-- `range_stop` with any number for the greatest `i64` and one.
stop_with : ℕ → ℕ → ℤ → ℕ
stop_with bound len stop =
    if ltb_ℤ stop (pos 0)
    then pos_part (max_ℤ (pos len +ℤ stop) (negsuc 0) +ℤ pos 1)
    else if pos_part stop + 1 == bound
    then bound
    else pos_part (min_ℤ (stop +ℤ pos 1) (pos len))

stop_with_lem :
    (bound len : ℕ) (z : ℤ) → len ≤ bound → min (stop_with bound len z) len ≡ min (end_of len z) len
unfolding stop_with
stop_with_lem bound len (pos n) h = ground arith
stop_with_lem bound len (negsuc n) h = ground arith

range_stop-stop_with : (len : ℕ) (z : ℤ) → range_stop len z ≡ stop_with i64_bound len z
unfolding range_stop stop_with
range_stop-stop_with len z = refl

range_stop_lem :
    (len : ℕ) (z : ℤ) → len ≤ i64_bound → min (range_stop len z) len ≡ min (end_of len z) len
range_stop_lem len z h =
    ap (λ n. min n len) (range_stop-stop_with len z) ∙ stop_with_lem i64_bound len z h

cut_elem :
    {A : Type 0} (a b i : ℕ) (l : List A)
    → get_elem? (if leb b a then [] else take (b - a) (drop a l)) i
      ≡ (if ltb (a + i) b then get_elem? l (a + i) else none)
cut_elem a b i l = elim (dec_lt (a + i) b) [
  | yes lt ↦ ground (arith, get_elem?-take (b - a) (drop a l) i (omega arith), get_elem?-drop a l i)
  | no ge ↦ ground (
    arith,
    get_elem?-none (take (b - a) (drop a l)) i (omega (arith, length-take (b - a) (drop a l))),
  )
]

cut_at :
    {A : Type 0} (len p a b e i : ℕ) (l : List A)
    → length l ≡ len
    → a ≡ min p len
    → min b len ≡ min e len
    → (if ltb (a + i) b then get_elem? l (a + i) else none)
      ≡ (if ltb (p + i) e then get_elem? l (p + i) else none)
cut_at len p a b e i l n q h = ground (arith, get_elem?-none l (p + i), get_elem?-none l (a + i))

pub ranged-IsCut :
    (start stop : ℤ) (l : List (Bytes × ℕ))
    → length l ≤ i64_bound
    → IsCut start stop l (ranged start stop l)
unfolding ranged
ranged-IsCut start stop l h i =
    let len : ℕ = length l in
    cut_elem (range_start len start) (range_stop len stop) i l
    ∙ cut_at len (position_of len start) (range_start len start) (range_stop len stop)
        (end_of len stop) i l refl (range_start_lem len start) (range_stop_lem len stop h)

pub listed_scores_lem :
    (floats : F64) (l : List (Bytes × ℕ)) → listed_scores floats false l ≡ map (λ e. e.0) l
unfolding listed_scores
listed_scores_lem floats [] = refl
listed_scores_lem floats (e ∷ l) = ap (λ r. e.0 ∷ r) (listed_scores_lem floats l)
