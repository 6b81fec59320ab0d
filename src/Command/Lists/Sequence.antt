-- ===== src/Command/Lists/Sequence.antt =====
-- A command after another: what has been pushed is what is read and popped.
use ai_kv.Base.{ℕ, ◌≡◌, refl, Option, some, List, [], ◌∷◌, ◌++◌, arith}
use ai_kv.Text.{Bytes, bytes_eq_iff}
use ai_kv.Text.Utf8.{from_utf8_lossy}
use ai_kv.Error.{ok}
use ai_kv.Resp.{array, bulk_list, bulk_string}
use ai_kv.Storage.Value.{StoredValue, new_list, as_list}
use ai_kv.Storage.Adapter.{StorageAdapter}
use ai_kv.Storage.View.{view, InRange}
use ai_kv.Storage.Contract.{Shows}
use ai_kv.Command.Lists.{lpush, rpush, lpop, lrange, list_or_new}
use ai_kv.Command.Lists.Ends.{lpush_contract, rpush_contract}
use ai_kv.Command.Lists.Pops.{lpop_contract, stored_list, asked_for}
use ai_kv.Command.Lists.Order.{whole, lrange-whole}

-- The key itself shows the new value.
Shows-self :
    (now : ℕ) (s : StorageAdapter) (db : ℕ) (key : Bytes) (new : Option StoredValue)
    (s' : StorageAdapter)
    → Shows now s db key new s'
    → view now s' db key ≡ new
Shows-self now s db key new s' h = ground (arith, h db key, bytes_eq_iff key key)

-- LRANGE of the whole list after RPUSH, at the same time of the clock, replies with the old elements and
-- behind them the pushed ones, in their order.
pub lrange-rpush :
    (now : ℕ) (k e : Bytes) (es : List Bytes) (db : ℕ) (s : StorageAdapter) (l : List Bytes)
    → InRange s db
    → list_or_new (view now s db (from_utf8_lossy k)) ≡ ok l
    → (lrange now (whole k) db (rpush now (k ∷ e ∷ es) db s).1).0
      ≡ ok (array (bulk_list (l ++ e ∷ es)))
lrange-rpush now k e es db s l h shown =
    let pushed = rpush_contract now k e es db s l h shown in
    let s' = (rpush now (k ∷ e ∷ es) db s).1 in
    lrange-whole now k db s' (l ++ e ∷ es) (
      rw (Shows-self now s db (from_utf8_lossy k) (some (new_list (l ++ e ∷ es))) s' pushed.1)
        listed)
  where
    listed : list_or_new (some (new_list (l ++ e ∷ es))) ≡ ok (l ++ e ∷ es)
    listed = unfold list_or_new as_list in refl

-- LPOP after LPUSH of one element, at the same time of the clock, replies with the element, and every
-- key shows what it showed before the two, but that a list has lost its time, and an empty list its
-- key.
pub lpop-lpush :
    (now : ℕ) (k e : Bytes) (db : ℕ) (s : StorageAdapter) (l : List Bytes)
    → InRange s db
    → list_or_new (view now s db (from_utf8_lossy k)) ≡ ok l
    → ((lpop now (k ∷ []) db (lpush now (k ∷ e ∷ []) db s).1).0 ≡ ok (bulk_string (some e)))
      × Shows now s db
          (from_utf8_lossy k)
          (stored_list l)
          (lpop now (k ∷ []) db (lpush now (k ∷ e ∷ []) db s).1).1
lpop-lpush now k e db s l h shown =
    let key = from_utf8_lossy k in
    let pushed = lpush_contract now k e [] db s l h shown in
    let s' = (lpush now (k ∷ e ∷ []) db s).1 in
    let popped =
      lpop_contract now k [] db s' (new_list (e ∷ l)) 1 (e ∷ l) one
        (Shows-self now s db key (some (new_list (e ∷ l))) s' pushed.1) typed in
    (popped.0, λ j i. ground (arith, popped.1 j i, pushed.1 j i))
  where
    one : asked_for [] ≡ some 1
    one = refl

    typed : as_list (new_list (e ∷ l)) ≡ ok (e ∷ l)
    typed = unfold as_list in refl
