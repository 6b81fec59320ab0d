-- ===== src/Command/Lists/Edit/Trimmed.antt =====
-- LREM and LTRIM: what they reply, and what is left at the key.
use ai_kv.Base.{ℕ, ◌≡◌, refl, some, List, [], ◌∷◌, arith, ℤ, as_i32}
use ai_kv.Text.{Bytes}
use ai_kv.Text.Utf8.{from_utf8_lossy}
use ai_kv.Error.{ok}
use ai_kv.Resp.{integer, ok_reply}
use ai_kv.Storage.Value.{StoredValue, as_list}
use ai_kv.Storage.Adapter.{StorageAdapter}
use ai_kv.Storage.View.{view, InRange, InRange-of_view}
use ai_kv.Storage.Contract.{Shows, get_value-view}
use ai_kv.Command.Index.{i64_arg, slice}
use ai_kv.Command.Lists.{store_or_delete}
use ai_kv.Command.Lists.Pops.{stored_list, store_or_delete_contract}
use ai_kv.Command.Lists.Order.{IsRange, slice_elem}
use ai_kv.Command.Lists.Edit.{lrem, ltrim, lrem_stored, ltrim_stored, remove_by}
use ai_kv.Command.Lists.Edit.Removal.{Removed, remove_by_lem}

module _ (db : ℕ) (key : Bytes) (s : StorageAdapter) (stored : StoredValue) (l : List Bytes) where
  lrem_stored_eq :
      (count : ℤ) (element : Bytes)
      → as_list stored ≡ ok l
      → InRange s db
      → lrem_stored count element db key (some stored) s ≡ (
        ok (remove_by count element l).0,
        (store_or_delete db key (remove_by count element l).1 s).1,
      )
  unfolding lrem_stored
  lrem_stored_eq count element typed h =
      rw typed (ground (arith, store_or_delete_contract 0 db key s (remove_by count element l).1 h))

  ltrim_stored_eq :
      (start stop : ℤ)
      → as_list stored ≡ ok l
      → InRange s db
      → ltrim_stored start stop db key (some stored) s
        ≡ (ok tt, (store_or_delete db key (slice start stop l) s).1)
  unfolding ltrim_stored
  ltrim_stored_eq start stop typed h =
      rw typed (ground (arith, store_or_delete_contract 0 db key s (slice start stop l) h))

-- LREM at a key that shows a list: it replies the number of elements removed,
-- as an `i32`, where a count of 0 removes
-- every occurrence of the element, a positive count at most so many from the front and a negative
-- count at most so many from the back; the key shows the list of the others, in their order and with
-- no time, or nothing if none is left, and all other keys show what they showed.
pub lrem_contract :
    (now : ℕ) (k c element : Bytes) (db : ℕ) (s : StorageAdapter) (count : ℤ) (stored : StoredValue)
    (l : List Bytes)
    → i64_arg "invalid count" c ≡ ok count
    → view now s db (from_utf8_lossy k) ≡ some stored
    → as_list stored ≡ ok l
    → (removed : ℕ) × (kept : List Bytes) × Removed count element l (removed, kept)
      × ((lrem now (k ∷ c ∷ element ∷ []) db s).0 ≡ ok (integer (as_i32 removed)))
      × Shows now s db
          (from_utf8_lossy k)
          (stored_list kept)
          (lrem now (k ∷ c ∷ element ∷ []) db s).1
unfolding lrem
lrem_contract now k c element db s count stored l parsed shown typed =
    let key = from_utf8_lossy k in
    let h = InRange-of_view now s db key stored shown in
    let r = remove_by count element l in
    rw
      (
        parsed,
        get_value-view now db key s,
        shown,
        lrem_stored_eq db key s stored l count element typed h,
      )
      (
        r.0,
        r.1,
        remove_by_lem count element l,
        refl,
        (store_or_delete_contract now db key s r.1 h).1,
      )

-- LTRIM at a key that shows a list: it replies OK, the key shows the range from start to stop as LRANGE
-- would reply it, with no time, or nothing if the range is empty, and all other keys show what they
-- showed.
pub ltrim_contract :
    (now : ℕ) (k a b : Bytes) (db : ℕ) (s : StorageAdapter) (start stop : ℤ) (stored : StoredValue)
    (l : List Bytes)
    → i64_arg "invalid start index" a ≡ ok start
    → i64_arg "invalid stop index" b ≡ ok stop
    → view now s db (from_utf8_lossy k) ≡ some stored
    → as_list stored ≡ ok l
    → (r : List Bytes) × IsRange start stop l r
      × ((ltrim now (k ∷ a ∷ b ∷ []) db s).0 ≡ ok ok_reply)
      × Shows now s db (from_utf8_lossy k) (stored_list r) (ltrim now (k ∷ a ∷ b ∷ []) db s).1
unfolding ltrim
ltrim_contract now k a b db s start stop stored l p q shown typed =
    let key = from_utf8_lossy k in
    let h = InRange-of_view now s db key stored shown in
    let r = slice start stop l in
    rw
      (
        p,
        q,
        get_value-view now db key s,
        shown,
        ltrim_stored_eq db key s stored l start stop typed h,
      )
      (r, slice_elem start stop l, refl, (store_or_delete_contract now db key s r h).1)
