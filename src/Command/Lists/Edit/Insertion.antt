-- ===== src/Command/Lists/Edit/Insertion.antt =====
-- LINSERT: where the element goes.
use ai_kv.Base.{
  ℕ, suc, ◌+◌, ◌≡◌, refl, ap, ◌∙◌, Bool, true, false, none, some, List, [], ◌∷◌, ◌++◌, length,
  arith, pos, negsuc, if◌then◌else◌, length-append,
}
use ai_kv.Text.{Bytes, codes, bytes_eq_iff}
use ai_kv.Text.Utf8.{from_utf8_lossy}
use ai_kv.Error.{ok}
use ai_kv.Effect.{give, ◌>>◌}
use ai_kv.Resp.{integer}
use ai_kv.Storage.Value.{StoredValue, new_list, as_list}
use ai_kv.Storage.Adapter.{StorageAdapter, set_value}
use ai_kv.Storage.View.{view, InRange-of_view}
use ai_kv.Storage.Contract.{Shows, get_value-view, set_value-InRange}
use ai_kv.Command.Lists.Ends.{Shows-new_list}
use ai_kv.Command.Lists.Edit.{linsert, linsert_stored, one_of, position, insert_before}
use ai_kv.Command.Lists.Edit.Removal.{occurrences}

position_first :
    (pivot : Bytes) (front back : List Bytes)
    → occurrences pivot front ≡ 0
    → position pivot (front ++ pivot ∷ back) ≡ some (length front)
unfolding position
position_first pivot [] back h = ground (arith, bytes_eq_iff pivot pivot)
position_first pivot (x ∷ front) back h = ground (arith, position_first pivot front back)

position_nowhere :
    (pivot : Bytes) (l : List Bytes) → occurrences pivot l ≡ 0 → position pivot l ≡ none
unfolding position
position_nowhere pivot [] h = refl
position_nowhere pivot (x ∷ l) h = ground (arith, position_nowhere pivot l)

insert_before_front :
    (e : Bytes) (front back : List Bytes)
    → insert_before (length front) e (front ++ back) ≡ front ++ e ∷ back
unfolding insert_before
insert_before_front e [] back = refl
insert_before_front e (x ∷ front) back = ap (λ t. x ∷ t) (insert_before_front e front back)

insert_after_front :
    (e pivot : Bytes) (front back : List Bytes)
    → insert_before (length front + 1) e (front ++ pivot ∷ back) ≡ front ++ pivot ∷ e ∷ back
unfolding insert_before
insert_after_front e pivot [] back = refl
insert_after_front e pivot (x ∷ front) back =
    ap (λ n. insert_before n e (x ∷ (front ++ pivot ∷ back))) {x = suc (length front) + 1}
      {y = suc (length front + 1)} (omega arith)
    ∙ ap (λ t. x ∷ t) (insert_after_front e pivot front back)

-- The list with the element in front of the pivot, or behind it.
abbrev pub inserted : Bool → Bytes → Bytes → List Bytes → List Bytes → List Bytes
inserted true element pivot front back = front ++ element ∷ pivot ∷ back
inserted false element pivot front back = front ++ pivot ∷ element ∷ back

insert_lem :
    (before : Bool) (element pivot : Bytes) (front back : List Bytes)
    → insert_before
        (if before then length front else length front + 1)
        element
        (front ++ pivot ∷ back)
      ≡ inserted before element pivot front back
insert_lem true element pivot front back = insert_before_front element front (pivot ∷ back)
insert_lem false element pivot front back = insert_after_front element pivot front back

length-inserted :
    (before : Bool) (element pivot : Bytes) (front back : List Bytes)
    → length (inserted before element pivot front back) ≡ length (front ++ pivot ∷ back) + 1
length-inserted true element pivot front back =
    omega (arith, length-append front (element ∷ pivot ∷ back), length-append front (pivot ∷ back))
length-inserted false element pivot front back =
    omega (arith, length-append front (pivot ∷ element ∷ back), length-append front (pivot ∷ back))

module _ (before : Bool) (pivot element : Bytes) (db : ℕ) (key : Bytes) (s : StorageAdapter)
    (stored : StoredValue) where
  linsert_found :
      (front back : List Bytes)
      → as_list stored ≡ ok (front ++ pivot ∷ back)
      → occurrences pivot front ≡ 0
      → linsert_stored before pivot element db key (some stored) s
        ≡ (do
          set_value db key (new_list (inserted before element pivot front back))
          give (integer (pos (length (inserted before element pivot front back)))))
            s
  unfolding linsert_stored
  linsert_found front back typed h =
      ground (arith, position_first pivot front back h, insert_lem before element pivot front back)

  linsert_missing :
      (l : List Bytes)
      → as_list stored ≡ ok l
      → occurrences pivot l ≡ 0
      → linsert_stored before pivot element db key (some stored) s ≡ (ok (integer (negsuc 0)), s)
  unfolding linsert_stored
  linsert_missing l typed h = ground (arith, position_nowhere pivot l h)

-- LINSERT at a key that shows a list with the pivot: the element stands directly before or after the
-- pivot's first occurrence, the reply is the new length, the list has no time, and all other keys show
-- what they showed.
pub linsert_contract :
    (now : ℕ) (k place pivot element : Bytes) (db : ℕ) (s : StorageAdapter) (before : Bool)
    (stored : StoredValue) (front back : List Bytes)
    → one_of (codes "BEFORE") (codes "AFTER") place ≡ ok before
    → view now s db (from_utf8_lossy k) ≡ some stored
    → as_list stored ≡ ok (front ++ pivot ∷ back)
    → occurrences pivot front ≡ 0
    → ((linsert now (k ∷ place ∷ pivot ∷ element ∷ []) db s).0
        ≡ ok (integer (pos (length (front ++ pivot ∷ back) + 1))))
      × Shows now s db
          (from_utf8_lossy k)
          (some (new_list (inserted before element pivot front back)))
          (linsert now (k ∷ place ∷ pivot ∷ element ∷ []) db s).1
unfolding linsert
linsert_contract now k place pivot element db s before stored front back parsed shown typed first =
    let key = from_utf8_lossy k in
    let new = inserted before element pivot front back in
    let h = InRange-of_view now s db key stored shown in
    rw
      (
        parsed,
        get_value-view now db key s,
        shown,
        linsert_found before pivot element db key s stored front back typed first,
        set_value-InRange db key s (new_list new) h,
      )
      (
        ap (λ n. ok (integer (pos n))) {x = length new} {y = length (front ++ pivot ∷ back) + 1}
            (length-inserted before element pivot front back),
        Shows-new_list now db key s new h,
      )

-- LINSERT at a key that shows a list without the pivot replies -1 and changes nothing.
linsert_no_pivot :
    (now : ℕ) (k place pivot element : Bytes) (db : ℕ) (s : StorageAdapter) (before : Bool)
    (stored : StoredValue) (l : List Bytes)
    → one_of (codes "BEFORE") (codes "AFTER") place ≡ ok before
    → view now s db (from_utf8_lossy k) ≡ some stored
    → as_list stored ≡ ok l
    → occurrences pivot l ≡ 0
    → linsert now (k ∷ place ∷ pivot ∷ element ∷ []) db s ≡ (ok (integer (negsuc 0)), s)
unfolding linsert
linsert_no_pivot now k place pivot element db s before stored l parsed shown typed missing =
    rw
      (
        parsed,
        get_value-view now db (from_utf8_lossy k) s,
        shown,
        linsert_missing before pivot element db (from_utf8_lossy k) s stored l typed missing,
      )
      refl
