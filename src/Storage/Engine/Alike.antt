-- ===== src/Storage/Engine/Alike.antt =====
-- src/storage/mod.rs: the two storages behind the engine, as a client of the engine sees them.
use ai_kv.Base.{ℕ, ◌≡◌, get_elem?, some}
use ai_kv.Text.{Bytes}
use ai_kv.Storage.Value.{StoredValue, to_serializable}
use ai_kv.Storage.Adapter.{StorageAdapter}
use ai_kv.Storage.View.{InRange}
use ai_kv.Storage.Serial.{IsProper}
use ai_kv.Storage.Codec.{Codec, Reads, coded}
use ai_kv.Storage.Disk.{Db, Disk}
use ai_kv.Storage.Disk.Access.{IsMap, stored_time}
use ai_kv.Storage.Disk.Reading.{time_after, FitsU64}
use ai_kv.Storage.Disk.Stale.{set_value_refines}
use ai_kv.Storage.Engine.{memory, ai_db, dispatch, set_value, get_value}

-- A value that is stored by `set_value` of the engine and then read by `get_value`, where the value has a
-- time of its own or the persistent storage has no time for the key: both calls reply the same whether
-- the engine is persistent or in memory. The database is a map whose calls do not fail, and the
-- encoding reads back what it has written.
pub dispatch-set_value :
    (db : Db) (m : IsMap db) (codec : Codec) (i now : ℕ) (key : Bytes) (v : StoredValue)
    (bytes : Bytes) (s : Disk db) (d : db.Data) (t : StorageAdapter)
    (there : get_elem? s i ≡ some d)
    → Reads codec
    → codec.serialize (to_serializable v) ≡ coded bytes
    → IsProper v.value
    → FitsU64 v.expires_at
    → InRange t i
    → time_after v.expires_at (stored_time db m i s d there key) ≡ v.expires_at
    → ((set_value db codec i key v (ai_db s)).0 ≡ (set_value db codec i key v (memory t)).0)
      × ((get_value db codec now i key (set_value db codec i key v (ai_db s)).1).0
          ≡ (get_value db codec now i key (set_value db codec i key v (memory t)).1).0)
unfolding set_value get_value dispatch
dispatch-set_value db m codec i now key v bytes s d t there reads e proper fits h time =
    set_value_refines db m codec i i now key v bytes s d t there reads e proper fits h time
