-- ===== src/Command/Lists/Edit/Carried.antt =====
-- src/command/list.rs: LINSERT and LMOVE, among those that
-- leave no empty list.
use ai_kv.Base.{
  ℕ, ◌+◌, Bool, true, false, Option, none, some, List, [], ◌∷◌, if◌then◌else◌, take, drop, length,
  negsuc, pos,
}
use ai_kv.Text.{Bytes, codes, bytes_eq}
use ai_kv.Text.Utf8.{from_utf8_lossy}
use ai_kv.Effect.{Effect, check, give, ◌>>◌}
use ai_kv.Resp.{RespValue, integer, null}
use ai_kv.Storage.Value.{StoredValue, new_list, as_list}
use ai_kv.Storage.Adapter.{StorageAdapter, get_value, set_value}
use ai_kv.Command.Lists.{store_or_delete}
use ai_kv.Command.Lists.Edit.{
  linsert, lmove, linsert_stored, lmove_stored, lmove_popped, destination, push_end, one_of,
  position, insert_before, pop_end,
}
use ai_kv.Command.Lists.Filled.Keeps.{
  Keeps, bind-Keeps, get_value-Keeps, set_value-Keeps, store_or_delete-Keeps, append-IsFilled,
  push_end-IsFilled,
}

linsert_list :
    (before : Bool) (element : Bytes) (db : ℕ) (key : Bytes) (l : List Bytes) (o : Option ℕ)
    → Keeps (elim o as (λ _. Effect StorageAdapter RespValue) [
      | none ↦ give (integer (negsuc 0))
      | some i ↦
          set_value db key (new_list (insert_before (if before then i else i + 1) element l))
          >> give (integer (pos (length (insert_before (if before then i else i + 1) element l))))
    ])
linsert_list before element db key l none = λ s n. n
linsert_list before element db key l (some i) =
    let j : ℕ = if before then i else i + 1 in
    bind-Keeps (set_value db key (new_list (insert_before j element l))) _
      (set_value-Keeps db key (new_list (insert_before j element l))
        (unfold insert_before in append-IsFilled (take j l) element (drop j l)))
      λ _ s n. n

linsert_stored-Keeps :
    (before : Bool) (pivot element : Bytes) (db : ℕ) (key : Bytes) (stored : Option StoredValue)
    → Keeps (linsert_stored before pivot element db key stored)
unfolding linsert_stored
linsert_stored-Keeps before pivot element db key none = λ s n. n
linsert_stored-Keeps before pivot element db key (some stored) =
    bind-Keeps (check (as_list stored)) _ (λ s n. n)
      λ l. linsert_list before element db key l (position pivot l)

pub linsert-Keeps : (now : ℕ) (args : List Bytes) (db : ℕ) → Keeps (linsert now args db)
unfolding linsert
linsert-Keeps now [] db = λ s n. n
linsert-Keeps now (k ∷ []) db = λ s n. n
linsert-Keeps now (k ∷ a ∷ []) db = λ s n. n
linsert-Keeps now (k ∷ a ∷ b ∷ []) db = λ s n. n
linsert-Keeps now (k ∷ a ∷ b ∷ c ∷ d ∷ r) db = λ s n. n
linsert-Keeps now (k ∷ place ∷ pivot ∷ element ∷ []) db =
    let key = from_utf8_lossy k in
    bind-Keeps (check (one_of (codes "BEFORE") (codes "AFTER") place)) _ (λ s n. n)
      λ before.
        bind-Keeps (get_value now db key) _ (get_value-Keeps now db key)
          λ stored. linsert_stored-Keeps before pivot element db key stored

if-Keeps :
    {A : Type 0} (b : Bool) (m m' : Effect StorageAdapter A)
    → Keeps m
    → Keeps m'
    → Keeps (if b then m else m')
if-Keeps true m m' h h' = h
if-Keeps false m m' h h' = h'

destination-Keeps :
    (now db : ℕ) (source dest : Bytes) (rest : List Bytes)
    → Keeps (destination now db source dest rest)
unfolding destination
destination-Keeps now db source dest rest =
    if-Keeps (bytes_eq source dest) (give rest) _ (λ s n. n)
      (bind-Keeps (get_value now db dest) _ (get_value-Keeps now db dest) λ stored s n. n)

lmove_popped-Keeps :
    (now db : ℕ) (source dest : Bytes) (push_left : Bool) (elem : Bytes) (rest : List Bytes)
    → Keeps (lmove_popped now db source dest push_left elem rest)
unfolding lmove_popped
lmove_popped-Keeps now db source dest push_left elem rest =
    bind-Keeps (destination now db source dest rest) _ (destination-Keeps now db source dest rest)
      λ to.
        bind-Keeps (if bytes_eq source dest then give tt else store_or_delete db source rest) _
          (if-Keeps (bytes_eq source dest) (give tt) (store_or_delete db source rest) (λ s n. n)
            (store_or_delete-Keeps db source rest))
          λ _.
            bind-Keeps (set_value db dest (new_list (push_end push_left elem to))) _
              (set_value-Keeps db dest (new_list (push_end push_left elem to))
                (push_end-IsFilled push_left elem to))
              λ _ s n. n

lmove_list :
    (now db : ℕ) (source dest : Bytes) (push_left : Bool) (o : Option (Bytes × List Bytes))
    → Keeps (elim o as (λ _. Effect StorageAdapter RespValue) [
      | none ↦ give null
      | some (elem, rest) ↦ lmove_popped now db source dest push_left elem rest
    ])
lmove_list now db source dest push_left none = λ s n. n
lmove_list now db source dest push_left (some (elem, rest)) =
    lmove_popped-Keeps now db source dest push_left elem rest

lmove_stored-Keeps :
    (now db : ℕ) (source dest : Bytes) (pop_left push_left : Bool) (stored : Option StoredValue)
    → Keeps (lmove_stored now db source dest pop_left push_left stored)
unfolding lmove_stored
lmove_stored-Keeps now db source dest pop_left push_left none = λ s n. n
lmove_stored-Keeps now db source dest pop_left push_left (some stored) =
    bind-Keeps (check (as_list stored)) _ (λ s n. n)
      λ l. lmove_list now db source dest push_left (pop_end pop_left l)

pub lmove-Keeps : (now : ℕ) (args : List Bytes) (db : ℕ) → Keeps (lmove now args db)
unfolding lmove
lmove-Keeps now [] db = λ s n. n
lmove-Keeps now (k ∷ []) db = λ s n. n
lmove-Keeps now (k ∷ a ∷ []) db = λ s n. n
lmove-Keeps now (k ∷ a ∷ b ∷ []) db = λ s n. n
lmove-Keeps now (k ∷ a ∷ b ∷ c ∷ d ∷ r) db = λ s n. n
lmove-Keeps now (a ∷ b ∷ from ∷ to ∷ []) db =
    let key = from_utf8_lossy a in
    let dest = from_utf8_lossy b in
    bind-Keeps (check (one_of (codes "LEFT") (codes "RIGHT") from)) _ (λ s n. n)
      λ pop_left.
        bind-Keeps (check (one_of (codes "LEFT") (codes "RIGHT") to)) _ (λ s n. n)
          λ push_left.
            bind-Keeps (get_value now db key) _ (get_value-Keeps now db key)
              λ stored. lmove_stored-Keeps now db key dest pop_left push_left stored
