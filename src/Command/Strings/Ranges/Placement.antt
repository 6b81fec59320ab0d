-- ===== src/Command/Strings/Ranges/Placement.antt =====
-- GETRANGE and SETRANGE, byte by byte.
use ai_kv.Base.{
  ℕ, ◌+◌, ◌-◌, ◌≤◌, ◌≡◌, refl, ap, Option, none, some, [], ◌∷◌, ◌++◌, length, take, drop, replicate,
  get_elem?, max, arith, ℤ, pos, ltb, if◌then◌else◌, get_elem?-take, get_elem?-drop, get_elem?-none,
  length-append, length-replicate, get_elem?-append, get_elem?-replicate, length-take, length-drop,
}
use ai_kv.Text.{Bytes}
use ai_kv.Text.Utf8.{from_utf8_lossy}
use ai_kv.Error.{ok}
use ai_kv.Resp.{integer, bulk_string}
use ai_kv.Storage.Value.{new_string}
use ai_kv.Storage.Adapter.{StorageAdapter}
use ai_kv.Storage.View.{view, InRange}
use ai_kv.Storage.Contract.{Shows, get_from_db-view, string_of}
use ai_kv.Command.Index.{i64_arg, usize_arg, slice}
use ai_kv.Command.Lists.Order.{IsRange, slice_elem}
use ai_kv.Command.Strings.{bytes_or_empty}
use ai_kv.Command.Strings.Shown.{set_in_db_lem, Shows-new_string}
use ai_kv.Command.Strings.Ranges.{getrange, setrange, extend, overwrite}

pub length-extend : (n : ℕ) (b : Bytes) → length (extend n b) ≡ max n (length b)
unfolding extend
length-extend n b =
    ground (
      arith,
      length-append b (replicate (n - length b) 0),
      length-replicate {A = ℕ} (n - length b) 0,
    )

pub get_elem?-extend :
    (n : ℕ) (b : Bytes) (i : ℕ)
    → get_elem? (extend n b) i
      ≡ (if ltb i (length b) then get_elem? b i else if ltb i n then some 0 else none)
unfolding extend
get_elem?-extend n b i = ground (
  arith,
  get_elem?-append b (replicate (n - length b) 0) i,
  get_elem?-replicate {A = ℕ} (n - length b) 0 (i - length b),
  get_elem?-none b i,
)

-- What stands at place `i` after `value` has been written at `offset`: the value, the old byte outside of
-- it, or a zero in a gap behind the old bytes.
abbrev pub written : ℕ → Bytes → Bytes → ℕ → Option ℕ
written offset value old i =
    if ltb i offset
    then (if ltb i (length old) then get_elem? old i else some 0)
    else if ltb i (offset + length value)
    then get_elem? value (i - offset)
    else get_elem? old i

overwrite_lem :
    (offset : ℕ) (value b : Bytes) (i : ℕ)
    → offset + length value ≤ length b
    → get_elem? (overwrite offset value b) i ≡ (
        if ltb i offset
        then get_elem? b i
        else if ltb i (offset + length value)
        then get_elem? value (i - offset)
        else get_elem? b i)
unfolding overwrite
overwrite_lem offset value b i h = ground (
  arith,
  get_elem?-append (take offset b) (value ++ drop (offset + length value) b) i,
  get_elem?-append value (drop (offset + length value) b) (i - offset),
  get_elem?-take offset b i,
  get_elem?-drop (offset + length value) b (i - offset - length value),
  length-take offset b,
)

length-overwrite :
    (offset : ℕ) (value b : Bytes)
    → offset + length value ≤ length b
    → length (overwrite offset value b) ≡ length b
unfolding overwrite
length-overwrite offset value b h = omega (
  arith,
  length-append (take offset b) (value ++ drop (offset + length value) b),
  length-append value (drop (offset + length value) b),
  length-take offset b,
  length-drop (offset + length value) b,
)

module _ (offset : ℕ) (value old : Bytes) where
  abbrev pub placed : Bytes
  placed = overwrite offset value (extend (offset + length value) old)

  placed_lem : (i : ℕ) → get_elem? placed i ≡ written offset value old i
  placed_lem i = ground (
    arith,
    overwrite_lem offset value (extend (offset + length value) old) i,
    length-extend (offset + length value) old,
    get_elem?-extend (offset + length value) old i,
    get_elem?-none old i,
  )

  length-placed : length placed ≡ max (offset + length value) (length old)
  length-placed = omega (
    arith,
    length-overwrite offset value (extend (offset + length value) old)
        (omega (arith, length-extend (offset + length value) old)),
    length-extend (offset + length value) old,
  )

-- GETRANGE, at a key that shows a string or nothing, changes nothing and replies with the bytes from
-- start to stop, both included and counted from the end if negative; an index before the front, the
-- stop too, means the front.
pub getrange_contract :
    (now : ℕ) (k a b : Bytes) (db : ℕ) (s : StorageAdapter) (start stop : ℤ) (old : Option Bytes)
    → i64_arg "ERR value is not an integer or out of range" a ≡ ok start
    → i64_arg "ERR value is not an integer or out of range" b ≡ ok stop
    → string_of (view now s db (from_utf8_lossy k)) ≡ ok old
    → (r : Bytes) × (getrange now (k ∷ a ∷ b ∷ []) db s ≡ (ok (bulk_string (some r)), s))
      × IsRange start stop (bytes_or_empty old) r
unfolding getrange
getrange_contract now k a b db s start stop old p q shown = (
  slice start stop (bytes_or_empty old),
  rw (p, q, get_from_db-view now db (from_utf8_lossy k) s, shown) refl,
  slice_elem start stop (bytes_or_empty old),
)

-- SETRANGE into a database that is there, at a key that shows a string or nothing: the key shows a string
-- with no time whose bytes are those written from the offset on, the old ones outside of them, and
-- zeros in a gap behind the old ones; the reply is its length, and all other keys show what they
-- showed.
pub setrange_contract :
    (now : ℕ) (k o value : Bytes) (db : ℕ) (s : StorageAdapter) (offset : ℕ) (old : Option Bytes)
    → InRange s db
    → usize_arg "ERR offset is out of range" o ≡ ok offset
    → string_of (view now s db (from_utf8_lossy k)) ≡ ok old
    → (r : Bytes) × ((i : ℕ) → get_elem? r i ≡ written offset value (bytes_or_empty old) i)
      × ((setrange now (k ∷ o ∷ value ∷ []) db s).0
          ≡ ok (integer (pos (max (offset + length value) (length (bytes_or_empty old))))))
      × Shows now s db
          (from_utf8_lossy k)
          (some (new_string r))
          (setrange now (k ∷ o ∷ value ∷ []) db s).1
unfolding setrange
setrange_contract now k o value db s offset old h parsed shown =
    let key = from_utf8_lossy k in
    let b = bytes_or_empty old in
    let r = placed offset value b in
    rw (parsed, get_from_db-view now db key s, shown, set_in_db_lem db key s r h)
      (
        r,
        placed_lem offset value b,
        ap (λ n. ok (integer (pos n))) (length-placed offset value b),
        Shows-new_string db key s r now h,
      )
