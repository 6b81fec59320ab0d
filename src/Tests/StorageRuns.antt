-- ===== src/Tests/StorageRuns.antt =====
-- The storage's theorems on the small storage.
use ai_kv.Base.{
  not, is_some, false, ℕ, ◌≡◌, refl, arith, true, ◌&&◌, some, List, [], ◌∷◌, ◌==◌, ℤ, if◌then◌else◌,
}
use ai_kv.Text.{Bytes, bytes_eq}
use ai_kv.Error.{ok}
use ai_kv.Effect.{Effect}
use ai_kv.HashMap
use ai_kv.Storage.Value.{
  StoredValue, ValueType, new_string, is_expired, to_serializable, from_serializable,
}
use ai_kv.Storage.Adapter.{find, get_value, set_value, write_batch, BatchOp, set_to, delete}
use ai_kv.Storage.Expiry.{get_ttl_in_db}
use ai_kv.Storage.Keyspace.{copy_in_db}
use ai_kv.Storage.Moves.{copy_in_db_contract}
use ai_kv.Storage.View.{live, view}
use ai_kv.Storage.Contract.{get_value-set_value, update_value_contract, UpdateContract}
use ai_kv.Storage.Lifetime.{get_ttl_in_db_meaning, TtlMeaning, fits_i64}
use ai_kv.Storage.Batch.{write_batch_contract, last_op, left_by}
use ai_kv.Storage.Serial.{from_serializable-to_serializable, IsProper}
use ai_kv.Tests.{
  list_key, timed_key, stale_key, free_key, elem_x, elem_y, two, timed, stale, store, first-InRange,
}

get_value-set_value_example : (get_value 5 0 free_key (set_value 0 free_key timed store).1).0 ≡ (
    if 0 == 0 && bytes_eq free_key free_key
    then ok (live 5 (some timed))
    else (get_value 5 0 free_key store).0)
get_value-set_value_example = get_value-set_value 5 0 free_key timed store 0 free_key first-InRange

abbrev clear : Effect StoredValue (Unit {0})
clear v = (ok tt, new_string [])

update_value_example : UpdateContract 5 0 timed_key clear store (view 5 store 0 timed_key)
update_value_example = update_value_contract 5 0 timed_key clear store

timed_fits : fits_i64 (find store 0 timed_key) ≡ true
unfolding find HashMap.get bytes_eq
timed_fits = refl

get_ttl_in_db_example :
    (z : ℤ) × (get_ttl_in_db 5 6 0 timed_key store ≡ (ok z, store))
    × TtlMeaning 5 6 store 0 timed_key z
get_ttl_in_db_example = get_ttl_in_db_meaning 5 6 store 0 timed_key timed_fits (omega arith)

stale_found : find store 0 stale_key ≡ some stale
unfolding find HashMap.get bytes_eq
stale_found = refl

stale_past : is_expired 5 stale ≡ true
unfolding is_expired
stale_past = refl

abbrev operations : List (Bytes × BatchOp)
operations = (free_key, set_to elem_x) ∷ (list_key, delete) ∷ (free_key, set_to elem_y) ∷ []

write_batch_example :
    ((write_batch 0 operations store).0 ≡ ok tt)
    × (find (write_batch 0 operations store).1 0 free_key ≡ (
        if 0 == 0
        then left_by (last_op free_key operations) (find store 0 free_key)
        else find store 0 free_key))
write_batch_example = write_batch_contract 0 operations store 0 free_key first-InRange

abbrev fields : StoredValue
fields = record {
  value = ValueType.hash ((elem_x, two) ∷ (elem_y, two) ∷ []);
  expires_at = some 100;
}

fields-IsProper : IsProper fields.value
unfolding HashMap.get bytes_eq
fields-IsProper = (refl, (refl, tt))

serializable_example : from_serializable (to_serializable fields) ≡ fields
serializable_example = from_serializable-to_serializable fields fields-IsProper

timed_there : view 5 store 0 timed_key ≡ some timed
unfolding view find HashMap.get bytes_eq is_expired
timed_there = refl

copy_in_db_example :
    ((copy_in_db 5 0 1 timed_key free_key false store).0
      ≡ ok (not (is_some (find store 1 free_key) && not false)))
    × ((j : ℕ) (k : Bytes)
        → view 5 (copy_in_db 5 0 1 timed_key free_key false store).1 j k ≡ (
            if 1 == j && bytes_eq free_key k && not (is_some (find store 1 free_key) && not false)
            then some timed
            else view 5 store j k))
copy_in_db_example =
    copy_in_db_contract 5 0 1 timed_key free_key false store timed (omega arith) timed_there
