-- ===== src/Command/Scripts/Commit.antt =====
-- src/command/script.rs, `commit`: the storage after it, and the reads of the script before it.
use ai_kv.Base.{
  ℕ, ◌≡◌, refl, sym, ap, ◌∙◌, Bool, true, false, Option, none, some, List, [], ◌∷◌, ◌==◌, arith,
  length-adjust, if◌then◌else◌,
}
use ai_kv.Text.{Bytes, bytes_eq}
use ai_kv.Error.{Result, ok}
use ai_kv.HashMap
use ai_kv.HashMap.{HashMap}
use ai_kv.HashMap.Laws.{IsDistinct}
use ai_kv.Storage.Value.{StoredValue, new_list, new_hash, new_set, new_zset, is_expired}
use ai_kv.Storage.Adapter
use ai_kv.Storage.Adapter.{StorageAdapter, BatchOp, find, modify, write_batch, insert_at}
use ai_kv.Storage.View.{view, live, InRange, find-insert_at, length-insert_at}
use ai_kv.Storage.Contract.{get_value-view, set_value-InRange}
use ai_kv.Storage.Batch.{last_op, left_by, write_batch_contract}
use ai_kv.Command.Scripts.{
  ExtendedBatchOp, set_string, set_list, set_hash, set_set, set_zset, drop_key, ScriptTransaction,
  buffered_value, get_value, string_ops, complex_ops, commit_op, commit_complex, commit_strings,
  commit,
}
use ai_kv.Command.Scripts.Together.{complex_value, last_complex, over, left_at, together}

-- The storage after a step that goes well, with what it holds then.
abbrev Holds :
    ℕ
    → StorageAdapter
    → Result (Unit {0}) × StorageAdapter
    → (Bytes → Option StoredValue → Option StoredValue)
    → Type 0
Holds db s run f =
    (t : StorageAdapter) × (run ≡ (ok tt, t))
    × InRange t db
    × ((j : ℕ) (k : Bytes) → find t j k ≡ (if db == j then f k (find s j k) else find s j k))

module _ (db : ℕ) where
  stored-Holds :
      (key : Bytes) (v : StoredValue) (s : StorageAdapter)
      → InRange s db
      → Holds db s (Adapter.set_value db key v s) (λ k old. if bytes_eq key k then some v else old)
  stored-Holds key v s h = (
    insert_at db key v s,
    set_value-InRange db key s v h,
    omega (arith, length-insert_at s db key v),
    λ j k. find-insert_at s db key v j k h ∙ ground arith,
  )

  commit_op-Holds :
      (key : Bytes) (op : ExtendedBatchOp) (s : StorageAdapter)
      → InRange s db
      → Holds db s
          (commit_op db key op s)
          (λ k old. over (if bytes_eq key k then complex_value op else none) old)
  unfolding commit_op
  commit_op-Holds key (set_string v) s h = (s, refl, h, λ j k. ground arith)
  commit_op-Holds key drop_key s h = (s, refl, h, λ j k. ground arith)
  commit_op-Holds key (set_list v) s h =
      let (t, e, inside, f) = stored-Holds key (new_list v) s h in
      (t, e, inside, λ j k. f j k ∙ ground arith)
  commit_op-Holds key (set_hash v) s h =
      let (t, e, inside, f) = stored-Holds key (new_hash v) s h in
      (t, e, inside, λ j k. f j k ∙ ground arith)
  commit_op-Holds key (set_set v) s h =
      let (t, e, inside, f) = stored-Holds key (new_set v) s h in
      (t, e, inside, λ j k. f j k ∙ ground arith)
  commit_op-Holds key (set_zset v) s h =
      let (t, e, inside, f) = stored-Holds key (new_zset v) s h in
      (t, e, inside, λ j k. f j k ∙ ground arith)

  over_later :
      (l : Option StoredValue) (here : Option StoredValue) (old : Option StoredValue)
      → over l (over here old) ≡ over (elim l [ some v ↦ some v | none ↦ here ]) old
  over_later none here old = refl
  over_later (some v) here old = refl

  commit_complex-Holds :
      (ops : List (Bytes × ExtendedBatchOp)) (s : StorageAdapter)
      → InRange s db
      → Holds db s (commit_complex db ops s) (λ k old. over (last_complex k ops) old)
  unfolding commit_complex
  commit_complex-Holds [] s h = (s, refl, h, λ j k. ground arith)
  commit_complex-Holds ((key, op) ∷ ops) s h =
      let (t, e, inside, f) = commit_op-Holds key op s h in
      let (u, e', inside', f') = commit_complex-Holds ops t inside in
      (u, rw e e', inside', λ j k. f' j k ∙ both j k t (f j k))
    where
      both :
          (j : ℕ) (k : Bytes) (t : StorageAdapter)
          → find t j k ≡ (
              if db == j
              then over (if bytes_eq key k then complex_value op else none) (find s j k)
              else find s j k)
          → (if db == j then over (last_complex k ops) (find t j k) else find t j k)
            ≡ (if db == j then over (last_complex k ((key, op) ∷ ops)) (find s j k) else find s j k)
      both j k t e = rw e (
          ground (
            arith,
            over_later (last_complex k ops) (if bytes_eq key k then complex_value op else none)
                (find s j k),
          ))

  commit_strings-Holds :
      (ops : List (Bytes × BatchOp)) (s : StorageAdapter)
      → InRange s db
      → Holds db s (commit_strings db ops s) (λ k old. left_by (last_op k ops) old)
  unfolding commit_strings
  commit_strings-Holds [] s h = (s, refl, h, λ j k. ground arith)
  commit_strings-Holds (op ∷ ops) s h = (
    (write_batch db (op ∷ ops) s).1,
    cc (write_batch_contract db (op ∷ ops) s 0 [] h).0,
    unfold write_batch in unfold modify in omega (arith, length-adjust s.databases db _),
    λ j k. (write_batch_contract db (op ∷ ops) s j k h).1,
  )

two_steps :
    (here : Bool) (f g fg : Option StoredValue → Option StoredValue) (old mid : Option StoredValue)
    → mid ≡ (if here then f old else old)
    → g (f old) ≡ fg old
    → (if here then g mid else mid) ≡ (if here then fg old else old)
two_steps true f g fg old mid e h = ap g e ∙ h
two_steps false f g fg old mid e h = e

-- The whole commit: what the buffer says, and else what there was.
commit-Holds :
    (db : ℕ) (b : HashMap ExtendedBatchOp) (s : StorageAdapter)
    → InRange s db
    → IsDistinct b
    → Holds db s
        (commit (record { db_index = db; write_buffer = b }) s)
        (λ k old. left_at (HashMap.get b k) old)
unfolding commit
commit-Holds db [] s h distinct = (s, refl, h, λ j k. unfold HashMap.get in ground arith)
commit-Holds db (op ∷ ops) s h distinct =
    let b = op ∷ ops in
    let (t, e, inside, f) = commit_strings-Holds db (string_ops b) s h in
    let (u, e', inside', f') = commit_complex-Holds db (complex_ops b) t inside in
    (
      u,
      rw e e',
      inside',
      λ j k.
          f' j k
          ∙ two_steps (db == j) (left_by (last_op k (string_ops b)))
              (over (last_complex k (complex_ops b))) (left_at (HashMap.get b k)) (find s j k)
              (find t j k) (f j k) (together b distinct k (find s j k)),
    )

live_buffered : (now : ℕ) (op : ExtendedBatchOp) → live now (buffered_value op) ≡ buffered_value op
unfolding buffered_value is_expired
live_buffered now (set_string v) = refl
live_buffered now (set_list v) = refl
live_buffered now (set_hash v) = refl
live_buffered now (set_set v) = refl
live_buffered now (set_zset v) = refl
live_buffered now drop_key = refl

module _ (now : ℕ) (txn : ScriptTransaction) (s : StorageAdapter) (key : Bytes) where
  get_value-left_at :
      (get_value now s key txn).0
      ≡ ok (live now (left_at (HashMap.get txn.write_buffer key) (find s txn.db_index key)))
  unfolding get_value view
  get_value-left_at = seen (HashMap.get txn.write_buffer key)
    where
      seen :
          (o : Option ExtendedBatchOp)
          → elim o [
            | some op ↦ ok (buffered_value op)
            | none ↦ (Adapter.get_value now txn.db_index key s).0
          ]
            ≡ ok (live now (left_at o (find s txn.db_index key)))
      seen none = ap (λ r. r.0) (get_value-view now txn.db_index key s)
      seen (some op) = sym (ap ok (live_buffered now op))

-- Read your own writes: `commit` of a buffer with one operation for each key, to a database that is there,
-- succeeds, and then every key of the database holds what the script read there through the buffer, and
-- every other database what it held.
pub commit-get_value :
    (now : ℕ) (txn : ScriptTransaction) (s : StorageAdapter) (j : ℕ) (key : Bytes)
    → InRange s txn.db_index
    → IsDistinct txn.write_buffer
    → ((commit txn s).0 ≡ ok tt)
      × ((Adapter.get_value now j key (commit txn s).1).0 ≡ (
          if txn.db_index == j
          then (get_value now s key txn).0
          else (Adapter.get_value now j key s).0))
unfolding view
commit-get_value now txn s j key h distinct =
    let (t, e, inside, f) = commit-Holds txn.db_index txn.write_buffer s h distinct in
    rw e (
      refl,
      ap (λ r. r.0) (get_value-view now j key t)
          ∙ ap (λ o. ok (live now o)) (f j key)
          ∙ ground
              (arith, get_value-left_at now txn s key, ap (λ r. r.0) (get_value-view now j key s)),
    )
