-- ===== src/Command/Lists/Edit/Moving.antt =====
-- LMOVE: one element from an end of a list to an end of a list, the same one perhaps.
use ai_kv.Base.{
  ℕ, ◌≡◌, refl, ◌∙◌, Bool, true, false, ◌&&◌, some, List, [], ◌∷◌, length, arith, ◌==◌,
  if◌then◌else◌, Bool-cases, inl, inr,
}
use ai_kv.Text.{Bytes, codes, bytes_eq, bytes_eq_iff}
use ai_kv.Text.Utf8.{from_utf8_lossy}
use ai_kv.Error.{Result, ok}
use ai_kv.Resp.{bulk_string}
use ai_kv.Storage.Value.{StoredValue, new_list, as_list}
use ai_kv.Storage.Adapter.{StorageAdapter, insert_at, delete_from_db}
use ai_kv.Storage.View.{view, InRange, InRange-of_view, length-insert_at, length-remove_at}
use ai_kv.Storage.Contract.{get_value-view, set_value-InRange}
use ai_kv.Command.Lists.{list_or_new, store_or_delete}
use ai_kv.Command.Lists.Ends.{Shows-new_list}
use ai_kv.Command.Lists.Pops.{stored_list, store_or_delete_contract, pop_back_last}
use ai_kv.Command.Lists.Edit.{
  lmove, lmove_stored, lmove_popped, destination, pop_end, push_end, one_of,
}

pop_end-push_end :
    (left : Bool) (v : Bytes) (l : List Bytes) → pop_end left (push_end left v l) ≡ some (v, l)
unfolding pop_end push_end
pop_end-push_end true v l = refl
pop_end-push_end false v l = pop_back_last l v

length-store_or_delete :
    (db : ℕ) (key : Bytes) (s : StorageAdapter) (l : List Bytes)
    → InRange s db
    → length (store_or_delete db key l s).1.databases ≡ length s.databases
unfolding store_or_delete delete_from_db
length-store_or_delete db key s [] h = length-remove_at s db key
length-store_or_delete db key s (x ∷ xs) h =
    rw (set_value-InRange db key s (new_list (x ∷ xs)) h)
      (length-insert_at s db key (new_list (x ∷ xs)))

-- What the keys show after an element has been moved: the destination its list with the element, the
-- source the rest, if it is another key, and every other key what it showed.
abbrev pub ShowsMoved :
    ℕ → StorageAdapter → ℕ → Bytes → Bytes → List Bytes → List Bytes → StorageAdapter → Type 0
ShowsMoved now s db source dest rest new s' =
    (j : ℕ) (k : Bytes)
    → view now s' j k ≡ (
        if db == j && bytes_eq dest k
        then some (new_list new)
        else if db == j && bytes_eq source k
        then stored_list rest
        else view now s j k)

-- The list that the destination shows when the element comes.
abbrev pub destination_list :
    ℕ → StorageAdapter → ℕ → Bytes → Bytes → List Bytes → Result (List Bytes)
destination_list now s db source dest rest =
    if bytes_eq source dest then ok rest else list_or_new (view now s db dest)

module _ (now db : ℕ) (source dest : Bytes) (s : StorageAdapter) (elem : Bytes)
    (rest to : List Bytes) (push_left : Bool) (h : InRange s db)
    (at_dest : destination_list now s db source dest rest ≡ ok to) where
  destination_lem : destination now db source dest rest s ≡ (ok to, s)
  unfolding destination
  destination_lem = ground (arith, get_value-view now db dest s)

  after : StorageAdapter
  after = if bytes_eq source dest then s else (store_or_delete db source rest s).1

  after-InRange : InRange after db
  unfolding after
  after-InRange = ground (arith, length-store_or_delete db source s rest h)

  lmove_popped_eq : lmove_popped now db source dest push_left elem rest s ≡ (
    ok (bulk_string (some elem)),
    insert_at db dest (new_list (push_end push_left elem to)) after,
  )
  unfolding lmove_popped after
  lmove_popped_eq = elim (Bool-cases (bytes_eq source dest)) [
    | inl same ↦
        rw
          (
            destination_lem,
            same,
            set_value-InRange db dest s (new_list (push_end push_left elem to)) h,
          )
          (ground arith)
    | inr other ↦
        let s1 = (store_or_delete db source rest s).1 in
        rw (destination_lem, other)
          (ground (
            arith,
            store_or_delete_contract now db source s rest h,
            set_value-InRange db dest s1 (new_list (push_end push_left elem to))
                (omega (arith, length-store_or_delete db source s rest h)),
          ))
  ]

  after-ShowsMoved :
      ShowsMoved now s db source dest rest
        (push_end push_left elem to)
        (insert_at db dest (new_list (push_end push_left elem to)) after)
  unfolding after
  after-ShowsMoved j k =
      Shows-new_list now db dest after (push_end push_left elem to) after-InRange j k
      ∙ ground (
        arith,
        (store_or_delete_contract now db source s rest h).1 j k,
        bytes_eq_iff source dest,
        bytes_eq_iff dest k,
        bytes_eq_iff source k,
      )

lmove_stored_eq :
    (now db : ℕ) (source dest : Bytes) (s : StorageAdapter) (pop_left push_left : Bool)
    (stored : StoredValue) (elem : Bytes) (rest : List Bytes)
    → as_list stored ≡ ok (push_end pop_left elem rest)
    → lmove_stored now db source dest pop_left push_left (some stored) s
      ≡ lmove_popped now db source dest push_left elem rest s
unfolding lmove_stored
lmove_stored_eq now db source dest s pop_left push_left stored elem rest typed =
    ground (arith, pop_end-push_end pop_left elem rest)

-- LMOVE from a key that shows a list with `elem` at the end to pop from and `rest` beside it, to a key
-- that shows a list or nothing, or to the same key: the reply is the element; the destination shows
-- its list with the element at the end to push to, the source, if it is another key, the rest or
-- nothing, both with no time, and all other keys show what they showed.
pub lmove_contract :
    (now : ℕ) (a b from to_end : Bytes) (db : ℕ) (s : StorageAdapter) (pop_left push_left : Bool)
    (stored : StoredValue) (elem : Bytes) (rest to : List Bytes)
    → one_of (codes "LEFT") (codes "RIGHT") from ≡ ok pop_left
    → one_of (codes "LEFT") (codes "RIGHT") to_end ≡ ok push_left
    → view now s db (from_utf8_lossy a) ≡ some stored
    → as_list stored ≡ ok (push_end pop_left elem rest)
    → destination_list now s db (from_utf8_lossy a) (from_utf8_lossy b) rest ≡ ok to
    → ((lmove now (a ∷ b ∷ from ∷ to_end ∷ []) db s).0 ≡ ok (bulk_string (some elem)))
      × ShowsMoved now s db
          (from_utf8_lossy a)
          (from_utf8_lossy b)
          rest
          (push_end push_left elem to)
          (lmove now (a ∷ b ∷ from ∷ to_end ∷ []) db s).1
unfolding lmove
lmove_contract now a b from to_end db s pop_left push_left stored elem rest to p q shown typed
      at_dest =
    let source = from_utf8_lossy a in
    let dest = from_utf8_lossy b in
    let h = InRange-of_view now s db source stored shown in
    rw
      (
        p,
        q,
        get_value-view now db source s,
        shown,
        lmove_stored_eq now db source dest s pop_left push_left stored elem rest typed,
        lmove_popped_eq now db source dest s elem rest to push_left h at_dest,
      )
      (refl, after-ShowsMoved now db source dest s elem rest to push_left h at_dest)
