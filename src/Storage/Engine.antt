-- ===== src/Storage/Engine.antt =====
-- src/storage/mod.rs: the storage engine, which is in memory or persistent and forwards each call.
pub mod Alike
use ai_kv.Base.{ℕ, Bool, Option, List, ℤ}
use ai_kv.Text.{Bytes}
use ai_kv.Error.{Result}
use ai_kv.Effect.{Effect}
use ai_kv.HashMap.{HashMap}
use ai_kv.Storage.Value.{StoredValue}
use ai_kv.Storage.Adapter
use ai_kv.Storage.Adapter.{StorageAdapter, BatchOp, with_db_count}
use ai_kv.Storage.Expiry
use ai_kv.Storage.Keyspace
use ai_kv.Storage.Codec.{Codec}
use ai_kv.Storage.Disk
use ai_kv.Storage.Disk.{Db}
use ai_kv.Storage.Disk.Times
use ai_kv.Storage.Disk.Copies
use ai_kv.Storage.Disk.Whole

pub data StorageEngine (db : Db) : Type 0 where
  memory : StorageAdapter → StorageEngine db
  ai_db : Disk.Disk db → StorageEngine db

unfoldable pub new_memory : (db : Db) → ℕ → StorageEngine db
new_memory db db_count = memory (with_db_count db_count)

module _ (db : Db) where
  -- The call of the adapter that is there; the engine keeps its kind.
  unfoldable pub dispatch :
      {A : Type 0} → Effect StorageAdapter A → Effect (Disk.Disk db) A → Effect (StorageEngine db) A
  dispatch f g (memory s) = ((f s).0, memory (f s).1)
  dispatch f g (ai_db d) = ((g d).0, ai_db (g d).1)

  unfoldable pub set_expire_in_db : ℕ → ℕ → ℕ → Bytes → ℕ → Effect (StorageEngine db) Bool
  set_expire_in_db now later i key expire_ms =
      dispatch (Expiry.set_expire_in_db now later i key expire_ms)
        (Times.set_expire_in_db db now later i key expire_ms)

  unfoldable pub set_expire_at_in_db : ℕ → ℕ → Bytes → ℕ → Effect (StorageEngine db) Bool
  set_expire_at_in_db now i key timestamp_ms =
      dispatch (Expiry.set_expire_at_in_db now i key timestamp_ms)
        (Times.set_expire_at_in_db db now i key timestamp_ms)

  unfoldable pub get_ttl_in_db : ℕ → ℕ → ℕ → Bytes → Effect (StorageEngine db) ℤ
  get_ttl_in_db now later i key =
      dispatch (Expiry.get_ttl_in_db now later i key) (Times.get_ttl_in_db db now later i key)

  unfoldable pub get_expire_time_in_db : ℕ → ℕ → Bytes → Effect (StorageEngine db) ℤ
  get_expire_time_in_db now i key =
      dispatch (Expiry.get_expire_time_in_db now i key) (Times.get_expire_time_in_db db now i key)

  unfoldable pub persist_in_db : ℕ → ℕ → Bytes → Effect (StorageEngine db) Bool
  persist_in_db now i key =
      dispatch (Expiry.persist_in_db now i key) (Times.persist_in_db db now i key)

  unfoldable pub delete_from_db : ℕ → Bytes → Effect (StorageEngine db) Bool
  delete_from_db i key = dispatch (Adapter.delete_from_db i key) (Whole.delete_from_db db i key)

  unfoldable pub exists_in_db : ℕ → ℕ → Bytes → Effect (StorageEngine db) Bool
  exists_in_db now i key =
      dispatch (Adapter.exists_in_db now i key) (Whole.exists_in_db db now i key)

  unfoldable pub get_all_keys_in_db : ℕ → ℕ → Effect (StorageEngine db) (List Bytes)
  get_all_keys_in_db now i =
      dispatch (Keyspace.get_all_keys_in_db now i) (Whole.get_all_keys_in_db db now i)

  unfoldable pub dbsize_in_db : ℕ → ℕ → Effect (StorageEngine db) ℕ
  dbsize_in_db now i = dispatch (Keyspace.dbsize_in_db now i) (Whole.dbsize_in_db db now i)

  unfoldable pub flush_db : ℕ → Effect (StorageEngine db) (Unit {0})
  flush_db i = dispatch (Keyspace.flush_db i) (Whole.flush_db db i)

  unfoldable pub flush_all : Effect (StorageEngine db) (Unit {0})
  flush_all = dispatch Keyspace.flush_all (Whole.flush_all db)

  unfoldable pub swap_db : ℕ → ℕ → Effect (StorageEngine db) (Unit {0})
  swap_db db1 db2 = dispatch (Keyspace.swap_db db1 db2) (Whole.swap_db db db1 db2)

  unfoldable pub move_key : ℕ → ℕ → ℕ → Bytes → Effect (StorageEngine db) Bool
  move_key now src_db dst_db key =
      dispatch (Keyspace.move_key now src_db dst_db key) (Copies.move_key db now src_db dst_db key)

  unfoldable pub rename_in_db : ℕ → ℕ → Bytes → Bytes → Effect (StorageEngine db) Bool
  rename_in_db now i old_key new_key =
      dispatch (Keyspace.rename_in_db now i old_key new_key)
        (Copies.rename_in_db db now i old_key new_key)

  unfoldable pub rename_nx_in_db : ℕ → ℕ → Bytes → Bytes → Effect (StorageEngine db) Bool
  rename_nx_in_db now i old_key new_key =
      dispatch (Keyspace.rename_nx_in_db now i old_key new_key)
        (Copies.rename_nx_in_db db now i old_key new_key)

  unfoldable pub copy_in_db : ℕ → ℕ → ℕ → Bytes → Bytes → Bool → Effect (StorageEngine db) Bool
  copy_in_db now src_db dst_db src_key dst_key replace =
      dispatch (Keyspace.copy_in_db now src_db dst_db src_key dst_key replace)
        (Copies.copy_in_db db now src_db dst_db src_key dst_key replace)

  unfoldable pub random_key_in_db : (ℕ → ℕ) → ℕ → ℕ → ℕ → Effect (StorageEngine db) (Option Bytes)
  random_key_in_db tick now later i =
      dispatch (Keyspace.random_key_in_db now later i) (Whole.random_key_in_db db tick now i)

  module _ (codec : Codec) where
    unfoldable pub get_value : ℕ → ℕ → Bytes → Effect (StorageEngine db) (Option StoredValue)
    get_value now i key = dispatch (Adapter.get_value now i key) (Disk.get_value db codec now i key)

    unfoldable pub set_value : ℕ → Bytes → StoredValue → Effect (StorageEngine db) (Unit {0})
    set_value i key v = dispatch (Adapter.set_value i key v) (Disk.set_value db codec i key v)

    unfoldable pub delete_and_get : ℕ → ℕ → Bytes → Effect (StorageEngine db) (Option StoredValue)
    delete_and_get now i key =
        dispatch (Adapter.delete_and_get now i key) (Disk.delete_and_get db codec now i key)

    unfoldable pub update_value :
        ℕ → ℕ → Bytes → Effect StoredValue (Unit {0}) → Effect (StorageEngine db) Bool
    update_value now i key f =
        dispatch (Adapter.update_value now i key f) (Disk.update_value db codec now i key f)

    unfoldable pub write_batch : ℕ → List (Bytes × BatchOp) → Effect (StorageEngine db) (Unit {0})
    write_batch i operations =
        dispatch (Adapter.write_batch i operations) (Disk.write_batch db codec i operations)

    unfoldable pub get_from_db : ℕ → ℕ → Bytes → Effect (StorageEngine db) (Option Bytes)
    get_from_db now i key =
        dispatch (Adapter.get_from_db now i key) (Disk.get_from_db db codec now i key)

    unfoldable pub set_in_db : ℕ → Bytes → Bytes → Effect (StorageEngine db) (Unit {0})
    set_in_db i key value =
        dispatch (Adapter.set_in_db i key value) (Disk.set_in_db db codec i key value)

    unfoldable pub set_with_expiration_in_db :
        ℕ → Bytes → Bytes → ℕ → Effect (StorageEngine db) (Unit {0})
    set_with_expiration_in_db i key value expires_at =
        dispatch (Adapter.set_with_expiration_in_db i key value expires_at)
          (Disk.set_with_expiration_in_db db codec i key value expires_at)

    unfoldable pub export_all_databases : ℕ → Effect (StorageEngine db) (List (HashMap StoredValue))
    export_all_databases now =
        dispatch (Keyspace.export_all_databases now) (Whole.export_all_databases db codec now)
