-- ===== src/Tests/DiskRuns.antt =====
-- The theorems on the persistent adapter on a small database.
use ai_kv.Base.{◌≡◌, refl, arith, none, some, [], ◌∷◌}
use ai_kv.Text.{Bytes, codes, bytes_eq}
use ai_kv.Text.LittleEndian.{le_bytes, of_le_bytes}
use ai_kv.Error.{ok}
use ai_kv.HashMap
use ai_kv.Storage.Value.{new_string, to_serializable}
use ai_kv.Storage.Adapter
use ai_kv.Storage.Disk
use ai_kv.Storage.Disk.{time_of, expiration_key}
use ai_kv.Storage.Disk.Stale.{stale_time_loses}
use ai_kv.Storage.Engine
use ai_kv.Storage.Engine.{memory, ai_db}
use ai_kv.Storage.Engine.Alike.{dispatch-set_value}
use ai_kv.Tests.{number_key, free_key, two, elem_x, store, first-InRange}
use ai_kv.Tests.Kinds.{codec, codec-Reads, plain, db, db-IsMap}

-- A value, and the time 3 of its key.
abbrev entries : HashMap.HashMap Bytes
entries =
    (number_key, two)
    ∷ ((b'_' ∷ b'_' ∷ b'e' ∷ b'x' ∷ b'p' ∷ b'_' ∷ b'_' ∷ b':' ∷ number_key), le_bytes 8 3)
    ∷ []

abbrev disk : Disk.Disk db
disk = entries ∷ []

dispatch-set_value_example :
    ((Engine.set_value db codec 0 free_key (new_string elem_x) (ai_db disk)).0
      ≡ (Engine.set_value db codec 0 free_key (new_string elem_x) (memory store)).0)
    × ((Engine.get_value db codec 5 0 free_key
          (Engine.set_value db codec 0 free_key (new_string elem_x) (ai_db disk)).1).0
        ≡ (Engine.get_value db codec 5 0 free_key
            (Engine.set_value db codec 0 free_key (new_string elem_x) (memory store)).1).0)
unfolding to_serializable plain time_of expiration_key HashMap.get bytes_eq codes db-IsMap
dispatch-set_value_example =
    dispatch-set_value db db-IsMap codec 0 5 free_key (new_string elem_x) elem_x disk entries store
      refl codec-Reads refl tt tt first-InRange refl

stale_time_loses_example :
    ((Disk.set_value db codec 0 number_key (new_string elem_x) disk).0 ≡ ok tt)
    × ((Disk.get_value db codec 5 0 number_key
          (Disk.set_value db codec 0 number_key (new_string elem_x) disk).1).0
        ≡ ok none)
    × ((Adapter.get_value 5 0 number_key
          (Adapter.set_value 0 number_key (new_string elem_x) store).1).0
        ≡ ok (some (new_string elem_x)))
unfolding to_serializable plain time_of expiration_key HashMap.get bytes_eq codes le_bytes
    of_le_bytes db-IsMap
stale_time_loses_example =
    stale_time_loses db db-IsMap codec 0 0 5 number_key (new_string elem_x) elem_x disk entries
      store 3 refl codec-Reads refl tt refl first-InRange refl (omega arith)
