-- ===== src/Command/Lists/Edit/Elements.antt =====
-- LINDEX and LSET: the element that an index means.
use ai_kv.Base.{
  ℕ, suc, ◌-◌, ◌<◌, ◌≡◌, refl, ◌∙◌, Option, none, some, List, [], ◌∷◌, length, set, get_elem?,
  arith, ltb, if◌then◌else◌, ℤ, pos, negsuc, Option-cases, inl, inr, get_elem?-some,
}
use ai_kv.Text.{Bytes}
use ai_kv.Text.Utf8.{from_utf8_lossy}
use ai_kv.Error.{ok, err}
use ai_kv.Effect.{give, ◌>>◌}
use ai_kv.Resp.{RespValue, bulk_string, null, ok_reply}
use ai_kv.Storage.Value.{StoredValue, new_list, as_list}
use ai_kv.Storage.Adapter.{StorageAdapter, set_value}
use ai_kv.Storage.View.{view, InRange-of_view}
use ai_kv.Storage.Contract.{Shows, get_value-view, set_value-InRange}
use ai_kv.Command.Index.{i64_arg, element_index, index_within, bad_argument}
use ai_kv.Command.Lists.{list_or_new}
use ai_kv.Command.Lists.Ends.{Shows-new_list}
use ai_kv.Command.Lists.Edit.{lindex, lset, lset_stored, element_at}

-- The place that an index means, from the end if it is negative, if it is in the list.
abbrev pub place_of : ℕ → ℤ → Option ℕ
place_of len (pos n) = if ltb n len then some n else none
place_of len (negsuc n) = if ltb n len then some (len - suc n) else none

index_lem : (len : ℕ) (z : ℤ) → index_within len (element_index len z) ≡ place_of len z
unfolding index_within element_index
index_lem len (pos n) = ground arith
index_lem len (negsuc n) = ground arith

place_of-lt : (len : ℕ) (z : ℤ) (i : ℕ) → place_of len z ≡ some i → i < len
place_of-lt len (pos n) i e = ground arith
place_of-lt len (negsuc n) i e = ground arith

abbrev element_reply : Option Bytes → RespValue
element_reply none = null
element_reply (some v) = bulk_string (some v)

-- The reply of LINDEX: the element at the place of the index, or null where it means no place.
abbrev pub place_reply : ℤ → List Bytes → RespValue
place_reply index l = elim (place_of (length l) index) [
  | none ↦ null
  | some i ↦ bulk_string (get_elem? l i)
]

element_reply_lem :
    (index : ℤ) (l : List Bytes) → element_reply (element_at index l) ≡ place_reply index l
unfolding element_at
element_reply_lem index l = elim (Option-cases (place_of (length l) index)) [
  | inl miss ↦ ground (arith, index_lem (length l) index)
  | inr (i, hit) ↦
      let (v, there) = get_elem?-some l i (place_of-lt (length l) index i hit) in
      ground (arith, index_lem (length l) index)
]

-- LINDEX changes nothing and replies with the element at the place of the index, counted from the end if
-- it is negative, or with null where the index means no place; at a key that shows nothing too.
lindex_contract :
    (now : ℕ) (k a : Bytes) (db : ℕ) (s : StorageAdapter) (index : ℤ) (l : List Bytes)
    → i64_arg "invalid index" a ≡ ok index
    → list_or_new (view now s db (from_utf8_lossy k)) ≡ ok l
    → lindex now (k ∷ a ∷ []) db s ≡ (ok (place_reply index l), s)
unfolding lindex
lindex_contract now k a db s index l parsed shown =
    rw (parsed, get_value-view now db (from_utf8_lossy k) s, shown)
      (λ i. (ok (element_reply_lem index l i), s))

lset_stored_place :
    (i : ℕ) (element : Bytes) (db : ℕ) (key : Bytes) (stored : StoredValue) (l : List Bytes)
    (s : StorageAdapter) (index : ℤ)
    → as_list stored ≡ ok l
    → place_of (length l) index ≡ some i
    → lset_stored index element db key (some stored) s
      ≡ (do set_value db key (new_list (set l i element)); give ok_reply) s
unfolding lset_stored
lset_stored_place i element db key stored l s index typed hit =
    ground (arith, index_lem (length l) index)

abbrev pub LsetContract :
    ℕ → Bytes → Bytes → Bytes → ℕ → StorageAdapter → List Bytes → Option ℕ → Type 0
LsetContract now k a element db s l none =
    lset now (k ∷ a ∷ element ∷ []) db s ≡ (err (bad_argument "index out of range"), s)
LsetContract now k a element db s l (some i) =
    ((lset now (k ∷ a ∷ element ∷ []) db s).0 ≡ ok ok_reply)
    × Shows now s db (from_utf8_lossy k) (some (new_list (set l i element)))
        (lset now (k ∷ a ∷ element ∷ []) db s).1

-- LSET at a key that shows a list: where the index means a place, the element there is replaced, the
-- reply is OK, the list has no time, and all other keys show what they showed; where it means none,
-- the call fails and the storage is as it was.
pub lset_contract :
    (now : ℕ) (k a element : Bytes) (db : ℕ) (s : StorageAdapter) (index : ℤ) (stored : StoredValue)
    (l : List Bytes)
    → i64_arg "invalid index" a ≡ ok index
    → view now s db (from_utf8_lossy k) ≡ some stored
    → as_list stored ≡ ok l
    → LsetContract now k a element db s l (place_of (length l) index)
lset_contract now k a element db s index stored l parsed shown typed =
    elim (Option-cases (place_of (length l) index)) [
      | inl miss ↦ rw miss (read miss)
      | inr (i, hit) ↦ rw hit (write i hit)
    ]
  where
    key : Bytes
    key = from_utf8_lossy k

    lset_eq :
        lset now (k ∷ a ∷ element ∷ []) db s ≡ lset_stored index element db key (some stored) s
    lset_eq = unfold lset in rw (parsed, get_value-view now db key s, shown) refl

    read : place_of (length l) index ≡ none → LsetContract now k a element db s l none
    read miss = lset_eq ∙ unfold lset_stored in ground (arith, typed, index_lem (length l) index)

    write :
        (i : ℕ) → place_of (length l) index ≡ some i → LsetContract now k a element db s l (some i)
    write i hit =
        let new = new_list (set l i element) in
        let h = InRange-of_view now s db key stored shown in
        rw
          (
            lset_eq ∙ lset_stored_place i element db key stored l s index typed hit,
            set_value-InRange db key s new h,
          )
          (refl, Shows-new_list now db key s (set l i element) h)
