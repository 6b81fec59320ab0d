-- ===== src/Tests/ScriptRuns.antt =====
-- The buffer of a script on the small storage.
use ai_kv.Base.{◌≡◌, refl, some, [], ◌∷◌, ◌++◌, reverse, ◌==◌, if◌then◌else◌}
use ai_kv.Text.{bytes_eq}
use ai_kv.Text.Utf8.{from_utf8_lossy}
use ai_kv.Error.{ok}
use ai_kv.HashMap
use ai_kv.Storage.Value.{new_list, as_list, is_expired}
use ai_kv.Storage.Adapter
use ai_kv.Storage.Adapter.{find}
use ai_kv.Storage.View.{view}
use ai_kv.Command.Lists.{lpush, list_or_new}
use ai_kv.Command.Scripts.{
  ScriptTransaction, set_string, set_set, drop_key, new_transaction, get_value, commit,
}
use ai_kv.Command.Scripts.Commit.{commit-get_value}
use ai_kv.Command.Scripts.Collections.{execute_lpush}
use ai_kv.Command.Scripts.Order.{script_order}
use ai_kv.Tests.{
  list_key, number_key, timed_key, free_key, elem_x, elem_y, two, listed, store, first-InRange,
}

abbrev txn : ScriptTransaction
txn = record {
  db_index = 0;
  write_buffer =
      (number_key, set_string elem_x)
      ∷ (free_key, set_set ((two, tt) ∷ []))
      ∷ (timed_key, drop_key)
      ∷ [];
}

commit-get_value_example :
    ((commit txn store).0 ≡ ok tt)
    × ((Adapter.get_value 5 0 free_key (commit txn store).1).0 ≡ (
        if 0 == 0
        then (get_value 5 store free_key txn).0
        else (Adapter.get_value 5 0 free_key store).0))
unfolding HashMap.get bytes_eq
commit-get_value_example =
    commit-get_value 5 txn store 0 free_key first-InRange (refl, (refl, (refl, tt)))

script_order_example :
    ((Adapter.get_value 5 0
        (from_utf8_lossy list_key)
        (commit
          (execute_lpush 5 store (list_key ∷ elem_y ∷ two ∷ []) (new_transaction 0)).1
          store).1).0
      ≡ ok (some (new_list ((elem_y ∷ two ∷ []) ++ listed))))
    × ((Adapter.get_value 5 0
          (from_utf8_lossy list_key)
          (lpush 5 (list_key ∷ elem_y ∷ two ∷ []) 0 store).1).0
        ≡ ok (some (new_list (reverse (elem_y ∷ two ∷ []) ++ listed))))
unfolding list_or_new view find HashMap.get bytes_eq is_expired from_utf8_lossy as_list
script_order_example = script_order 5 list_key elem_y (two ∷ []) 0 store listed first-InRange refl
