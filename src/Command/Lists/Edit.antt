-- ===== src/Command/Lists/Edit.antt =====
-- src/command/list.rs: LINDEX, LSET, LREM, LTRIM, LINSERT and LMOVE.
pub mod Elements
pub mod Removal
pub mod Moving
pub mod Insertion
pub mod Trimmed
pub mod Kept
pub mod Carried
use ai_kv.Base.{
  as_i32, ℕ, zero, suc, ◌+◌, ◌-◌, Bool, true, false, ◌&&◌, Option, none, some, List, [], ◌∷◌, ◌++◌,
  reverse, length, take, drop, get_elem?, set, ltb, ◌==◌, ℤ, pos, negsuc, if◌then◌else◌,
}
use ai_kv.Text.{Bytes, codes, bytes_eq}
use ai_kv.Text.Utf8.{from_utf8_lossy, to_uppercase}
use ai_kv.Error.{Result, ok, err, wrong_arg_count, literal}
use ai_kv.Effect.{Effect, give, fail, check, ◌>>=◌, ◌>>◌}
use ai_kv.Resp.{RespValue, integer, bulk_string, null, ok_reply}
use ai_kv.Storage.Value.{StoredValue, new_list, as_list}
use ai_kv.Storage.Adapter.{StorageAdapter, get_value, set_value}
use ai_kv.Command.Index.{bad_argument, i64_arg, slice, element_index, index_within}
use ai_kv.Command.Lists.{Handler, list_or_new, pop_back, store_or_delete}

-- The element at an index, from the end if the index is negative.
pub element_at : ℤ → List Bytes → Option Bytes
element_at index l = elim (index_within (length l) (element_index (length l) index)) [
  | none ↦ none
  | some i ↦ get_elem? l i
]

pub lindex : Handler
unfolding element_at
lindex now (k ∷ a ∷ []) db = do
  index ← check (i64_arg "invalid index" a)
  stored ← get_value now db (from_utf8_lossy k)
  l ← check (list_or_new stored)
  give (elim (element_at index l) [ none ↦ null | some v ↦ bulk_string (some v) ])
lindex now _ db = fail (wrong_arg_count (literal "LINDEX"))

pub lset_stored : ℤ → Bytes → ℕ → Bytes → Option StoredValue → Effect StorageAdapter RespValue
lset_stored index element db key none = fail (bad_argument "no such key")
lset_stored index element db key (some stored) = do
  l ← check (as_list stored)
  elim (index_within (length l) (element_index (length l) index)) [
    | none ↦ fail (bad_argument "index out of range")
    | some i ↦ (do set_value db key (new_list (set l i element)); give ok_reply)
  ]

pub lset : Handler
unfolding lset_stored
lset now (k ∷ a ∷ element ∷ []) db = do
  let key = from_utf8_lossy k
  index ← check (i64_arg "invalid index" a)
  stored ← get_value now db key
  lset_stored index element db key stored
lset now _ db = fail (wrong_arg_count (literal "LSET"))

-- `retain` with the count of what it drops. Here and in the next two the counter is an `i32`: it is
-- counted how often it is raised, and it wraps where LREM casts it, by `as_i32`.
pub remove_all : Bytes → List Bytes → ℕ × List Bytes
remove_all element [] = (0, [])
remove_all element (x ∷ xs) =
    let (n, rest) = remove_all element xs in
    if bytes_eq x element then (n + 1, rest) else (n, x ∷ rest)

-- The loop that drops the first `to_remove` occurrences.
pub remove_some : Bytes → ℕ → List Bytes → ℕ × List Bytes
remove_some element to_remove [] = (0, [])
remove_some element to_remove (x ∷ xs) =
    let hit = ltb 0 to_remove && bytes_eq x element in
    let (n, rest) = remove_some element (if hit then to_remove - 1 else to_remove) xs in
    if hit then (n + 1, rest) else (n, x ∷ rest)

-- The same from the tail: the kept elements are pushed to the front.
pub remove_last : Bytes → ℕ → List Bytes → ℕ × List Bytes
remove_last element to_remove l =
    let (n, kept) = remove_some element to_remove (reverse l) in (n, reverse kept)

pub remove_by : ℤ → Bytes → List Bytes → ℕ × List Bytes
unfolding remove_all remove_some remove_last
remove_by (pos zero) element l = remove_all element l
remove_by (pos (suc n)) element l = remove_some element (suc n) l
remove_by (negsuc n) element l = remove_last element (suc n) l

pub lrem_stored : ℤ → Bytes → ℕ → Bytes → Option StoredValue → Effect StorageAdapter ℕ
lrem_stored count element db key none = give 0
lrem_stored count element db key (some stored) = do
  l ← check (as_list stored)
  let (removed, rest) = remove_by count element l
  store_or_delete db key rest
  give removed

pub lrem : Handler
unfolding lrem_stored remove_by
lrem now (k ∷ c ∷ element ∷ []) db = do
  let key = from_utf8_lossy k
  count ← check (i64_arg "invalid count" c)
  stored ← get_value now db key
  removed ← lrem_stored count element db key stored
  give (integer (as_i32 removed))
lrem now _ db = fail (wrong_arg_count (literal "LREM"))

pub ltrim_stored : ℤ → ℤ → ℕ → Bytes → Option StoredValue → Effect StorageAdapter (Unit {0})
ltrim_stored start stop db key none = give tt
ltrim_stored start stop db key (some stored) = do
  l ← check (as_list stored)
  store_or_delete db key (slice start stop l)

pub ltrim : Handler
unfolding ltrim_stored
ltrim now (k ∷ a ∷ b ∷ []) db = do
  let key = from_utf8_lossy k
  start ← check (i64_arg "invalid start index" a)
  stop ← check (i64_arg "invalid stop index" b)
  stored ← get_value now db key
  ltrim_stored start stop db key stored
  give ok_reply
ltrim now _ db = fail (wrong_arg_count (literal "LTRIM"))

-- One of two words, in any case.
unfoldable pub one_of : Bytes → Bytes → Bytes → Result Bool
one_of yes_word no_word arg =
    let word = to_uppercase (from_utf8_lossy arg) in
    if bytes_eq word yes_word
    then ok true
    else if bytes_eq word no_word
    then ok false
    else err (bad_argument "ERR syntax error")

-- `iter().position(|e| e == &pivot)`
unfoldable pub position : Bytes → List Bytes → Option ℕ
position pivot [] = none
position pivot (x ∷ xs) =
    let later = position pivot xs in
    if bytes_eq x pivot then some 0 else elim later [ none ↦ none | some i ↦ some (suc i) ]

pub insert_before : ℕ → Bytes → List Bytes → List Bytes
insert_before i element l = take i l ++ (element ∷ drop i l)

pub linsert_stored :
    Bool → Bytes → Bytes → ℕ → Bytes → Option StoredValue → Effect StorageAdapter RespValue
unfolding insert_before
linsert_stored before pivot element db key none = give (integer (pos 0))
linsert_stored before pivot element db key (some stored) = do
  l ← check (as_list stored)
  elim (position pivot l) [
    | none ↦ give (integer (negsuc 0))
    | some i ↦ (do
      let l' = insert_before (if before then i else i + 1) element l
      set_value db key (new_list l')
      give (integer (pos (length l'))))
  ]

unfoldable pub linsert : Handler
unfolding linsert_stored one_of
linsert now (k ∷ place ∷ pivot ∷ element ∷ []) db = do
  let key = from_utf8_lossy k
  before ← check (one_of (codes "BEFORE") (codes "AFTER") place)
  stored ← get_value now db key
  linsert_stored before pivot element db key stored
linsert now _ db = fail (wrong_arg_count (literal "LINSERT"))

pop_front : List Bytes → Option (Bytes × List Bytes)
pop_front [] = none
pop_front (x ∷ xs) = some (x, xs)

-- An element popped from one end.
pub pop_end : Bool → List Bytes → Option (Bytes × List Bytes)
unfolding pop_front pop_back
pop_end left l = if left then pop_front l else pop_back l

unfoldable pub push_end : Bool → Bytes → List Bytes → List Bytes
push_end left v l = if left then v ∷ l else l ++ v ∷ []

-- The destination's list: the source's, already popped, if the keys are the same.
pub destination : ℕ → ℕ → Bytes → Bytes → List Bytes → Effect StorageAdapter (List Bytes)
destination now db source dest rest =
    if bytes_eq source dest
    then give rest
    else (do stored ← get_value now db dest; check (list_or_new stored))

pub lmove_popped :
    ℕ → ℕ → Bytes → Bytes → Bool → Bytes → List Bytes → Effect StorageAdapter RespValue
unfolding destination push_end
lmove_popped now db source dest push_left elem rest = do
  to ← destination now db source dest rest
  if bytes_eq source dest then give tt else store_or_delete db source rest
  set_value db dest (new_list (push_end push_left elem to))
  give (bulk_string (some elem))

pub lmove_stored :
    ℕ → ℕ → Bytes → Bytes → Bool → Bool → Option StoredValue → Effect StorageAdapter RespValue
unfolding lmove_popped pop_end
lmove_stored now db source dest pop_left push_left none = give null
lmove_stored now db source dest pop_left push_left (some stored) = do
  l ← check (as_list stored)
  elim (pop_end pop_left l) [
    | none ↦ give null
    | some (elem, rest) ↦ lmove_popped now db source dest push_left elem rest
  ]

pub lmove : Handler
unfolding lmove_stored one_of
lmove now (a ∷ b ∷ from ∷ to ∷ []) db = do
  let source = from_utf8_lossy a
  let dest = from_utf8_lossy b
  pop_left ← check (one_of (codes "LEFT") (codes "RIGHT") from)
  push_left ← check (one_of (codes "LEFT") (codes "RIGHT") to)
  stored ← get_value now db source
  lmove_stored now db source dest pop_left push_left stored
lmove now _ db = fail (wrong_arg_count (literal "LMOVE"))
