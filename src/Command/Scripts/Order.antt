-- ===== src/Command/Scripts/Order.antt =====
-- src/command/script.rs and src/command/list.rs: LPUSH from a script and from a client.
use ai_kv.Base.{ℕ, ◌≡◌, refl, ap, ◌∙◌, true, some, List, [], ◌∷◌, ◌++◌, reverse, ◌==◌, arith}
use ai_kv.Text.{Bytes, bytes_eq, bytes_eq_iff}
use ai_kv.Text.Utf8.{from_utf8_lossy}
use ai_kv.Error.{ok}
use ai_kv.HashMap
use ai_kv.HashMap.{HashMap}
use ai_kv.Storage.Value.{new_list}
use ai_kv.Storage.Adapter
use ai_kv.Storage.Adapter.{StorageAdapter}
use ai_kv.Storage.View.{view, InRange}
use ai_kv.Storage.Contract.{get_value-view}
use ai_kv.Command.Lists.{lpush, list_or_new}
use ai_kv.Command.Lists.Ends.{lpush_contract}
use ai_kv.Command.Scripts.{
  ScriptTransaction, set_list, new_transaction, get_value, buffered_value, buffer, commit,
}
use ai_kv.Command.Scripts.Commit.{commit-get_value}
use ai_kv.Command.Scripts.Collections.{execute_lpush, list_at, push_from_last}

push_from_last_lem : (es l : List Bytes) → push_from_last es l ≡ es ++ l
unfolding push_from_last
push_from_last_lem [] l = refl
push_from_last_lem (e ∷ es) l = ap (λ r. e ∷ r) (push_from_last_lem es l)

abbrev one_list : ℕ → Bytes → List Bytes → ScriptTransaction
one_list db key l = record { db_index = db; write_buffer = (key, set_list l) ∷ [] }

execute_lpush-one_list :
    (now : ℕ) (k e : Bytes) (es : List Bytes) (db : ℕ) (s : StorageAdapter) (l : List Bytes)
    → list_or_new (view now s db (from_utf8_lossy k)) ≡ ok l
    → (execute_lpush now s (k ∷ e ∷ es) (new_transaction db)).1
      ≡ one_list db (from_utf8_lossy k) (e ∷ es ++ l)
unfolding execute_lpush list_at get_value buffer new_transaction HashMap.get HashMap.insert
execute_lpush-one_list now k e es db s l shown =
    rw (get_value-view now db (from_utf8_lossy k) s, shown, push_from_last_lem (e ∷ es) l) refl

get_value-one_list :
    (now db : ℕ) (key : Bytes) (l : List Bytes) (s : StorageAdapter)
    → (get_value now s key (one_list db key l)).0 ≡ ok (some (new_list l))
unfolding get_value HashMap.get buffered_value
get_value-one_list now db key l s =
    let same : bytes_eq key key ≡ true = (bytes_eq_iff key key).1 refl in rw (same, get_value) refl

-- LPUSH of the same elements at a key that shows the list `l`, or nothing for an empty one, in a database
-- that is there: from a script that is then committed, the key holds the elements in the order of the
-- arguments in front of `l`, and from a client in the reverse of that order.
pub script_order :
    (now : ℕ) (k e : Bytes) (es : List Bytes) (db : ℕ) (s : StorageAdapter) (l : List Bytes)
    → InRange s db
    → list_or_new (view now s db (from_utf8_lossy k)) ≡ ok l
    → ((Adapter.get_value now db
          (from_utf8_lossy k)
          (commit (execute_lpush now s (k ∷ e ∷ es) (new_transaction db)).1 s).1).0
        ≡ ok (some (new_list ((e ∷ es) ++ l))))
      × ((Adapter.get_value now db (from_utf8_lossy k) (lpush now (k ∷ e ∷ es) db s).1).0
          ≡ ok (some (new_list (reverse (e ∷ es) ++ l))))
unfolding HashMap.get
script_order now k e es db s l h shown =
    let key = from_utf8_lossy k in
    let txn = one_list db key (e ∷ es ++ l) in
    let (_, held) = commit-get_value now txn s db key h (refl, tt) in
    let (_, shows) = lpush_contract now k e es db s l h shown in
    let here : (db == db) ≡ true = ground arith in
    let same : bytes_eq key key ≡ true = (bytes_eq_iff key key).1 refl in
    (
      ap (λ t. (Adapter.get_value now db key (commit t s).1).0)
            (execute_lpush-one_list now k e es db s l shown)
          ∙ held
          ∙ rw (here, get_value-one_list now db key (e ∷ es ++ l) s) refl,
      ap (λ r. r.0) (get_value-view now db key (lpush now (k ∷ e ∷ es) db s).1)
          ∙ ap ok (shows db key)
          ∙ rw (here, same) refl,
    )
