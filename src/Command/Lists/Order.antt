-- ===== src/Command/Lists/Order.antt =====
-- LRANGE, LTRIM and LINDEX: which elements an index and a range mean.
use native.Mathlib.Decide.{dec_le}
use ai_kv.Base.{
  ℕ, suc, ◌+◌, ◌-◌, ◌≤◌, ◌<◌, ◌≡◌, refl, none, List, [], ◌∷◌, length, take, drop, get_elem?, arith,
  ℤ, pos, negsuc, leb, ltb, if◌then◌else◌, get_elem?-take, get_elem?-drop, length-take,
  get_elem?-none, min, ◌||◌, take-length-le, String,
}
use ai_kv.Text.{Bytes, codes}
use ai_kv.Text.Number.{parse_i64}
use ai_kv.Text.Utf8.{from_utf8_lossy}
use ai_kv.Error.{ok}
use ai_kv.Resp.{array, bulk_list}
use ai_kv.Storage.Adapter.{StorageAdapter}
use ai_kv.Storage.View.{view}
use ai_kv.Storage.Contract.{get_value-view}
use ai_kv.Command.Index.{i64_arg, slice, start_index, stop_index}
use ai_kv.Command.Lists.{lrange, list_or_new}

-- The position that an index means: from the end if it is negative. Below the front it is the front.
abbrev pub position_of : ℕ → ℤ → ℕ
position_of len (pos n) = n
position_of len (negsuc n) = len - suc n

start_index_lem : (len : ℕ) (z : ℤ) → start_index len z ≡ min (position_of len z) len
unfolding start_index
start_index_lem len (pos n) = ground arith
start_index_lem len (negsuc n) = ground arith

stop_index_lem : (len : ℕ) (z : ℤ) → 0 < len → stop_index len z ≡ min (position_of len z) (len - 1)
unfolding stop_index
stop_index_lem len (pos n) h = ground arith
stop_index_lem len (negsuc n) h = ground arith

module _ {A : Type 0} where
  range_elem :
      (a b i : ℕ) (l : List A)
      → a ≤ b
      → get_elem? (take (b - a + 1) (drop a l)) i
        ≡ (if leb (a + i) b then get_elem? l (a + i) else none)
  range_elem a b i l h = elim (dec_le (a + i) b) [
    | yes le ↦
        ground (arith, get_elem?-take (b - a + 1) (drop a l) i (omega arith), get_elem?-drop a l i)
    | no gt ↦ ground (
      arith,
      get_elem?-none (take (b - a + 1) (drop a l)) i
          (omega (arith, length-take (b - a + 1) (drop a l))),
    )
  ]

  slice_cons :
      (start stop : ℤ) (x : A) (xs : List A)
      → slice start stop (x ∷ xs) ≡ (
          if ltb (stop_index (suc (length xs)) stop) (start_index (suc (length xs)) start)
            || leb (suc (length xs)) (start_index (suc (length xs)) start)
          then []
          else take
              (stop_index (suc (length xs)) stop - start_index (suc (length xs)) start + 1)
              (drop (start_index (suc (length xs)) start) (x ∷ xs)))
  unfolding slice
  slice_cons start stop x xs = refl

  -- An element of a range is the element of the list at its position, up to the stop.
  pub slice_elem :
      (start stop : ℤ) (l : List A) (i : ℕ)
      → get_elem? (slice start stop l) i ≡ (
          if leb (position_of (length l) start + i) (position_of (length l) stop)
          then get_elem? l (position_of (length l) start + i)
          else none)
  slice_elem start stop [] i = unfold slice in ground arith
  slice_elem start stop (x ∷ xs) i =
      let l = x ∷ xs in
      let len : ℕ = suc (length xs) in
      let p : ℕ = position_of len start in
      let q : ℕ = position_of len stop in
      rw
        (
          slice_cons start stop x xs,
          start_index_lem len start,
          stop_index_lem len stop (omega arith),
        )
        (at_bounds len p q l (omega arith) (omega arith))
    where
      at_bounds :
          (len p q : ℕ) (l : List A)
          → length l ≡ len
          → 0 < len
          → get_elem?
              (if ltb (min q (len - 1)) (min p len) || leb len (min p len)
                then []
                else take (min q (len - 1) - min p len + 1) (drop (min p len) l))
              i
            ≡ (if leb (p + i) q then get_elem? l (p + i) else none)
      at_bounds len p q l e h =
          ground (arith, range_elem (min p len) (min q (len - 1)) i l, get_elem?-none l (p + i))

  slice_whole : (l : List A) → slice (pos 0) (negsuc 0) l ≡ l
  slice_whole [] = unfold slice in refl
  slice_whole (x ∷ xs) =
      let len : ℕ = suc (length xs) in
      rw
        (
          slice_cons (pos 0) (negsuc 0) x xs,
          start_index_lem len (pos 0),
          stop_index_lem len (negsuc 0) (omega arith),
        )
        (ground (arith, take-length-le (len - 1 - 0 + 1) (x ∷ xs) (omega arith)))

  slice_far_stop :
      (n : ℕ) (x : A) (xs : List A)
      → length (x ∷ xs) ≤ n
      → slice (pos 0) (negsuc n) (x ∷ xs) ≡ x ∷ []
  slice_far_stop n x xs h =
      let len : ℕ = suc (length xs) in
      rw
        (
          slice_cons (pos 0) (negsuc n) x xs,
          start_index_lem len (pos 0),
          stop_index_lem len (negsuc n) (omega arith),
        )
        (ground arith)

abbrev start_message : String
start_message = "invalid start index"

abbrev stop_message : String
stop_message = "invalid stop index"

module _ (now : ℕ) (k a b : Bytes) (db : ℕ) (s : StorageAdapter) (start stop : ℤ)
    (start_parsed : i64_arg start_message a ≡ ok start)
    (stop_parsed : i64_arg stop_message b ≡ ok stop) where
  lrange_eq :
      (l : List Bytes)
      → list_or_new (view now s db (from_utf8_lossy k)) ≡ ok l
      → lrange now (k ∷ a ∷ b ∷ []) db s ≡ (ok (array (bulk_list (slice start stop l))), s)
  unfolding lrange
  lrange_eq l shown =
      rw (start_parsed, stop_parsed, get_value-view now db (from_utf8_lossy k) s, shown)

-- What a range of a list is: its `i`-th element is the list's at the start's position and `i` further,
-- as long as that is not behind the stop's position.
abbrev pub IsRange : {A : Type 0} → ℤ → ℤ → List A → List A → Type 0
IsRange start stop l r =
    (i : ℕ)
    → get_elem? r i ≡ (
        if leb (position_of (length l) start + i) (position_of (length l) stop)
        then get_elem? l (position_of (length l) start + i)
        else none)

-- LRANGE, at a key that shows a list or nothing, changes nothing and replies with the range from start
-- to stop, both included and counted from the end if negative; an index before the front, the stop
-- too, means the front.
pub lrange_contract :
    (now : ℕ) (k a b : Bytes) (db : ℕ) (s : StorageAdapter) (start stop : ℤ) (l : List Bytes)
    → i64_arg "invalid start index" a ≡ ok start
    → i64_arg "invalid stop index" b ≡ ok stop
    → list_or_new (view now s db (from_utf8_lossy k)) ≡ ok l
    → (r : List Bytes) × (lrange now (k ∷ a ∷ b ∷ []) db s ≡ (ok (array (bulk_list r)), s))
      × IsRange start stop l r
lrange_contract now k a b db s start stop l p q shown =
    (slice start stop l, lrange_eq now k a b db s start stop p q l shown, slice_elem start stop l)

-- LRANGE from 0 to a stop before the front of a list that is not empty replies with its first element,
-- where no element lies between the two.
pub lrange_far_stop :
    (now : ℕ) (k a b : Bytes) (db : ℕ) (s : StorageAdapter) (n : ℕ) (x : Bytes) (xs : List Bytes)
    → i64_arg "invalid start index" a ≡ ok (pos 0)
    → i64_arg "invalid stop index" b ≡ ok (negsuc n)
    → length (x ∷ xs) ≤ n
    → list_or_new (view now s db (from_utf8_lossy k)) ≡ ok (x ∷ xs)
    → (lrange now (k ∷ a ∷ b ∷ []) db s).0 ≡ ok (array (bulk_list (x ∷ [])))
lrange_far_stop now k a b db s n x xs p q far shown =
    rw (lrange_eq now k a b db s (pos 0) (negsuc n) p q (x ∷ xs) shown, slice_far_stop n x xs far)

zero_parsed : i64_arg start_message (codes "0") ≡ ok (pos 0)
unfolding i64_arg codes from_utf8_lossy parse_i64
zero_parsed = refl

last_parsed : i64_arg stop_message (codes "-1") ≡ ok (negsuc 0)
unfolding i64_arg codes from_utf8_lossy parse_i64
last_parsed = refl

-- `LRANGE k 0 -1`
abbrev pub whole : Bytes → List Bytes
whole k = k ∷ codes "0" ∷ codes "-1" ∷ []

pub lrange-whole :
    (now : ℕ) (k : Bytes) (db : ℕ) (s : StorageAdapter) (l : List Bytes)
    → list_or_new (view now s db (from_utf8_lossy k)) ≡ ok l
    → (lrange now (whole k) db s).0 ≡ ok (array (bulk_list l))
lrange-whole now k db s l shown = rw (
  lrange_eq now k (codes "0") (codes "-1") db s (pos 0) (negsuc 0) zero_parsed last_parsed l shown,
  slice_whole l,
)
