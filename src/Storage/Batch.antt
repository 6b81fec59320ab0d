-- ===== src/Storage/Batch.antt =====
-- `write_batch`: what a batch leaves at each key, against the last operation on it.
use ai_kv.Base.{
  ℕ, ◌<◌, ◌≡◌, refl, Option, none, some, ◌==◌, arith, if◌then◌else◌, List, [], ◌∷◌, zero, suc,
  length, get_elem?, adjust,
}
use ai_kv.Text.{Bytes, bytes_eq}
use ai_kv.Error.{ok}
use ai_kv.HashMap
use ai_kv.HashMap.Laws.{get-insert, get-remove}
use ai_kv.Storage.Value.{StoredValue, new_string}
use ai_kv.Storage.Adapter.{
  StorageAdapter, Database, BatchOp, set_to, delete, apply_batch, write_batch, find, modify, get_in,
}
use ai_kv.Storage.View.{InRange}

-- The last operation of the batch on the key.
abbrev pub last_op : Bytes → List (Bytes × BatchOp) → Option BatchOp
last_op k [] = none
last_op k ((j, op) ∷ rest) = elim (last_op k rest) [
  | some later ↦ some later
  | none ↦ if bytes_eq j k then some op else none
]

-- What an operation leaves at its key.
abbrev pub left_by : Option BatchOp → Option StoredValue → Option StoredValue
left_by none old = old
left_by (some (set_to b)) old = some (new_string b)
left_by (some delete) old = none

get-apply_batch :
    (ops : List (Bytes × BatchOp)) (d : Database) (k : Bytes)
    → HashMap.get (apply_batch ops d) k ≡ left_by (last_op k ops) (HashMap.get d k)
unfolding apply_batch
get-apply_batch [] d k = refl
get-apply_batch ((j, set_to b) ∷ rest) d k = ground (
  arith,
  get-apply_batch rest (HashMap.insert d j (new_string b)) k,
  get-insert d j k (new_string b),
)
get-apply_batch ((j, delete) ∷ rest) d k =
    ground (arith, get-apply_batch rest (HashMap.remove d j) k, get-remove d j k)

get_in-batch :
    (l : List Database) (i j : ℕ) (ops : List (Bytes × BatchOp)) (k : Bytes)
    → i < length l
    → get_in (get_elem? (adjust l i (apply_batch ops)) j) k ≡ (
        if i == j
        then left_by (last_op k ops) (get_in (get_elem? l j) k)
        else get_in (get_elem? l j) k)
get_in-batch [] i j ops k h = elim h [ ]
get_in-batch (d ∷ l) zero zero ops k h = get-apply_batch ops d k
get_in-batch (d ∷ l) zero (suc j) ops k h = ground arith
get_in-batch (d ∷ l) (suc i) zero ops k h = ground arith
get_in-batch (d ∷ l) (suc i) (suc j) ops k h = ground (arith, get_in-batch l i j ops k)

-- A batch on a database that is there succeeds as a whole, and leaves at each key of that database what
-- the last operation on the key says: the new string with no time, nothing, or, where the batch has
-- no operation on the key, what was there. The other databases are as before.
pub write_batch_contract :
    (db : ℕ) (ops : List (Bytes × BatchOp)) (s : StorageAdapter) (j : ℕ) (k : Bytes)
    → InRange s db
    → ((write_batch db ops s).0 ≡ ok tt)
      × (find (write_batch db ops s).1 j k
          ≡ (if db == j then left_by (last_op k ops) (find s j k) else find s j k))
unfolding write_batch find modify
write_batch_contract db [] s j k h = (refl, ground arith)
write_batch_contract db (op ∷ ops) s j k h = (refl, get_in-batch s.databases db j (op ∷ ops) k h)
