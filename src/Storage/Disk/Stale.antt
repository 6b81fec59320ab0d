-- ===== src/Storage/Disk/Stale.antt =====
-- src/storage/aidb_adapter.rs against src/storage/memory_adapter.rs: a value that is stored and read.
use ai_kv.Base.{ℕ, ◌≤◌, ◌≡◌, refl, sym, ap, ◌∙◌, none, some, get_elem?, arith, if◌then◌else◌}
use ai_kv.Text.{Bytes, bytes_eq_iff}
use ai_kv.Error.{ok}
use ai_kv.Storage.Value.{StoredValue, to_serializable, is_expired}
use ai_kv.Storage.Adapter
use ai_kv.Storage.Adapter.{StorageAdapter}
use ai_kv.Storage.View.{live, InRange}
use ai_kv.Storage.Contract
use ai_kv.Storage.Serial.{IsProper}
use ai_kv.Storage.Codec.{Codec, Reads, coded}
use ai_kv.Storage.Disk
use ai_kv.Storage.Disk.{Db, Disk, has_passed}
use ai_kv.Storage.Disk.Access.{IsMap, stored_time}
use ai_kv.Storage.Disk.Reading.{time_after, FitsU64, set_value-Holds, get_value-Holds}

module _ (db : Db) (m : IsMap db) (codec : Codec) (i : ℕ) (key : Bytes) (v : StoredValue)
    (bytes : Bytes) (s : Disk db) (d : db.Data) (there : get_elem? s i ≡ some d)
    (e : codec.serialize (to_serializable v) ≡ coded bytes) (reads : Reads codec)
    (proper : IsProper v.value) (fits : FitsU64 v.expires_at) (now : ℕ) where
  read_back :
      ((Disk.set_value db codec i key v s).0 ≡ ok tt)
      × ((Disk.get_value db codec now i key (Disk.set_value db codec i key v s).1).0
          ≡ ok (
              if has_passed now (time_after v.expires_at (stored_time db m i s d there key))
              then none
              else some v))
  read_back =
      let (s', stored, held) = set_value-Holds db m codec i key v bytes s d there e fits in
      rw stored (
        refl,
        get_value-Holds db m codec i key v bytes reads proper e now s'
            (time_after v.expires_at (stored_time db m i s d there key)) held,
      )

live_lem :
    (now : ℕ) (v : StoredValue)
    → live now (some v) ≡ (if has_passed now v.expires_at then none else some v)
unfolding is_expired has_passed
live_lem now v = ground arith

memory_read_back :
    (now j : ℕ) (key : Bytes) (v : StoredValue) (t : StorageAdapter)
    → InRange t j
    → (Adapter.get_value now j key (Adapter.set_value j key v t).1).0
      ≡ ok (if has_passed now v.expires_at then none else some v)
memory_read_back now j key v t h =
    Contract.get_value-set_value now j key v t j key h
    ∙ ground (arith, bytes_eq_iff key key, live_lem now v)

-- A value that is stored by `set_value` of the persistent adapter and then read by `get_value`, where
-- the value has a time of its own or there is no time stored for the key: the reply is that of the
-- memory adapter for the same two calls. The database is a map whose calls do not fail, and the
-- encoding reads back what it has written.
pub set_value_refines :
    (db : Db) (m : IsMap db) (codec : Codec) (i j now : ℕ) (key : Bytes) (v : StoredValue)
    (bytes : Bytes) (s : Disk db) (d : db.Data) (t : StorageAdapter)
    (there : get_elem? s i ≡ some d)
    → Reads codec
    → codec.serialize (to_serializable v) ≡ coded bytes
    → IsProper v.value
    → FitsU64 v.expires_at
    → InRange t j
    → time_after v.expires_at (stored_time db m i s d there key) ≡ v.expires_at
    → ((Disk.set_value db codec i key v s).0 ≡ (Adapter.set_value j key v t).0)
      × ((Disk.get_value db codec now i key (Disk.set_value db codec i key v s).1).0
          ≡ (Adapter.get_value now j key (Adapter.set_value j key v t).1).0)
set_value_refines db m codec i j now key v bytes s d t there reads e proper fits h own =
    let (stored, read) = read_back db m codec i key v bytes s d there e reads proper fits now in
    (
      stored ∙ sym (ap (λ r. r.0) (Contract.set_value-InRange j key t v h)),
      read
          ∙ ap (λ time. ok (if has_passed now time then none else some v)) own
          ∙ sym (memory_read_back now j key v t h),
    )

-- A value with no time that is stored at a key whose stored time has passed is lost with the persistent
-- adapter: `set_value` replies no error, and the next `get_value` returns nothing, where the memory
-- adapter returns the value.
pub stale_time_loses :
    (db : Db) (m : IsMap db) (codec : Codec) (i j now : ℕ) (key : Bytes) (v : StoredValue)
    (bytes : Bytes) (s : Disk db) (d : db.Data) (t : StorageAdapter) (passed : ℕ)
    (there : get_elem? s i ≡ some d)
    → Reads codec
    → codec.serialize (to_serializable v) ≡ coded bytes
    → IsProper v.value
    → v.expires_at ≡ none
    → InRange t j
    → stored_time db m i s d there key ≡ some passed
    → passed ≤ now
    → ((Disk.set_value db codec i key v s).0 ≡ ok tt)
      × ((Disk.get_value db codec now i key (Disk.set_value db codec i key v s).1).0 ≡ ok none)
      × ((Adapter.get_value now j key (Adapter.set_value j key v t).1).0 ≡ ok (some v))
unfolding has_passed
stale_time_loses db m codec i j now key v bytes s d t passed there reads e proper none_own h old
      past =
    let fits : FitsU64 v.expires_at = rw none_own tt in
    let (stored, read) = read_back db m codec i key v bytes s d there e reads proper fits now in
    (
      stored,
      read ∙ rw (none_own, old) (ground arith),
      memory_read_back now j key v t h ∙ rw none_own refl,
    )
