-- ===== src/Command/Scripts.antt =====
-- src/command/script.rs: the buffer of a script. A script reads through it and writes to it; the writes reach
-- the storage by `commit`, or are dropped with the buffer. The storage is the memory side, whose reads
-- leave it as it is.
pub mod Together
pub mod Commit
pub mod Calls
pub mod Collections
pub mod Ranked
pub mod Order
use ai_kv.Base.{ℕ, Bool, true, false, Option, none, some, List, [], ◌∷◌, is_empty, if◌then◌else◌}
use ai_kv.Text.{Bytes}
use ai_kv.Error.{Result, ok, err}
use ai_kv.Effect.{Effect, give, ◌>>=◌, ◌>>◌}
use ai_kv.HashMap
use ai_kv.HashMap.{HashMap}
use ai_kv.Storage.Value.{StoredValue, wrong_kind, new_string, new_list, new_hash, new_set, new_zset}
use ai_kv.Storage.Adapter
use ai_kv.Storage.Adapter.{StorageAdapter, BatchOp}

pub data ExtendedBatchOp : Type 0 where
  set_string : Bytes → ExtendedBatchOp
  set_list : List Bytes → ExtendedBatchOp
  set_hash : HashMap Bytes → ExtendedBatchOp
  set_set : HashMap (Unit {0}) → ExtendedBatchOp
  set_zset : HashMap ℕ → ExtendedBatchOp
  drop_key : ExtendedBatchOp

pub record ScriptTransaction : Type 0 where
  pub db_index : ℕ
  pub write_buffer : HashMap ExtendedBatchOp

unfoldable pub new_transaction : ℕ → ScriptTransaction
new_transaction db_index = record { db_index = db_index; write_buffer = [] }

-- What a read sees of an operation.
unfoldable pub buffered_string : ExtendedBatchOp → Result (Option Bytes)
buffered_string (set_string value) = ok (some value)
buffered_string drop_key = ok none
buffered_string _ = err wrong_kind

unfoldable pub buffered_value : ExtendedBatchOp → Option StoredValue
buffered_value (set_string value) = some (new_string value)
buffered_value (set_list l) = some (new_list l)
buffered_value (set_hash h) = some (new_hash h)
buffered_value (set_set m) = some (new_set m)
buffered_value (set_zset z) = some (new_zset z)
buffered_value drop_key = none

unfoldable pub leaves_key : ExtendedBatchOp → Bool
leaves_key drop_key = false
leaves_key _ = true

module _ (now : ℕ) (storage : StorageAdapter) where
  unfoldable pub get : Bytes → Effect ScriptTransaction (Option Bytes)
  unfolding buffered_string
  get key txn = (
    elim (HashMap.get txn.write_buffer key) [
      | some op ↦ buffered_string op
      | none ↦ (Adapter.get_from_db now txn.db_index key storage).0
    ],
    txn,
  )

  unfoldable pub get_value : Bytes → Effect ScriptTransaction (Option StoredValue)
  unfolding buffered_value
  get_value key txn = (
    elim (HashMap.get txn.write_buffer key) [
      | some op ↦ ok (buffered_value op)
      | none ↦ (Adapter.get_value now txn.db_index key storage).0
    ],
    txn,
  )

  unfoldable pub exists : Bytes → Effect ScriptTransaction Bool
  unfolding leaves_key
  exists key txn = (
    elim (HashMap.get txn.write_buffer key) [
      | some op ↦ ok (leaves_key op)
      | none ↦ (Adapter.exists_in_db now txn.db_index key storage).0
    ],
    txn,
  )

-- `set`, `set_list`, `set_hash`, `set_set`, `set_zset` and `delete`, each with its operation.
unfoldable pub buffer : Bytes → ExtendedBatchOp → Effect ScriptTransaction (Unit {0})
buffer key op txn = (
  ok tt,
  record { db_index = txn.db_index; write_buffer = HashMap.insert txn.write_buffer key op },
)

-- The operations of a batch, and the others.
unfoldable pub string_ops : HashMap ExtendedBatchOp → List (Bytes × BatchOp)
string_ops [] = []
string_ops ((key, set_string value) ∷ ops) = (key, BatchOp.set_to value) ∷ string_ops ops
string_ops ((key, drop_key) ∷ ops) = (key, BatchOp.delete) ∷ string_ops ops
string_ops ((key, _) ∷ ops) = string_ops ops

unfoldable pub complex_ops : HashMap ExtendedBatchOp → List (Bytes × ExtendedBatchOp)
complex_ops [] = []
complex_ops ((key, set_string value) ∷ ops) = complex_ops ops
complex_ops ((key, drop_key) ∷ ops) = complex_ops ops
complex_ops ((key, op) ∷ ops) = (key, op) ∷ complex_ops ops

unfoldable pub commit_op : ℕ → Bytes → ExtendedBatchOp → Effect StorageAdapter (Unit {0})
commit_op db key (set_list l) = Adapter.set_value db key (new_list l)
commit_op db key (set_hash h) = Adapter.set_value db key (new_hash h)
commit_op db key (set_set m) = Adapter.set_value db key (new_set m)
commit_op db key (set_zset z) = Adapter.set_value db key (new_zset z)
commit_op db key _ = give tt

unfoldable pub commit_complex :
    ℕ → List (Bytes × ExtendedBatchOp) → Effect StorageAdapter (Unit {0})
unfolding commit_op
commit_complex db [] = give tt
commit_complex db ((key, op) ∷ ops) = do commit_op db key op; commit_complex db ops

commit_strings : ℕ → List (Bytes × BatchOp) → Effect StorageAdapter (Unit {0})
commit_strings db ops = if is_empty ops then give tt else Adapter.write_batch db ops

unfoldable pub commit : ScriptTransaction → Effect StorageAdapter (Unit {0})
unfolding commit_strings commit_complex string_ops complex_ops
commit txn = if is_empty txn.write_buffer then give tt else (do
  commit_strings txn.db_index (string_ops txn.write_buffer)
  commit_complex txn.db_index (complex_ops txn.write_buffer))
