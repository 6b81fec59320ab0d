-- ===== src/Command/Lists/Filled/Always.antt =====
-- src/command/list.rs: the list commands in any sequence leave no empty list.
use ai_kv.Base.{ℕ, ◌≡◌, refl, List, [], ◌∷◌, replicate, zero, suc, get_elem?, true}
use ai_kv.Text.{Bytes}
use ai_kv.HashMap
use ai_kv.Storage.Adapter.{StorageAdapter, Database, find, with_db_count, get_in}
use ai_kv.Command.Lists.Filled.{
  ListCommand, ListCall, handler_of, call_all, is_filled, HasNoEmptyList, lpush_call, rpush_call,
  lpop_call, rpop_call, llen_call, lrange_call, lindex_call, lset_call, lrem_call, ltrim_call,
  linsert_call, lmove_call, lpos_call,
}
use ai_kv.Command.Lists.Filled.Keeps.{Keeps, lpush-Keeps, rpush-Keeps, lpop-Keeps, rpop-Keeps}
use ai_kv.Command.Lists.Edit.Kept.{
  llen-Keeps, lrange-Keeps, lindex-Keeps, lpos-Keeps, lset-Keeps, lrem-Keeps, ltrim-Keeps,
}
use ai_kv.Command.Lists.Edit.Carried.{linsert-Keeps, lmove-Keeps}

handler_of-Keeps :
    (c : ListCommand) (now : ℕ) (args : List Bytes) (db : ℕ) → Keeps (handler_of c now args db)
unfolding handler_of
handler_of-Keeps lpush_call = lpush-Keeps
handler_of-Keeps rpush_call = rpush-Keeps
handler_of-Keeps lpop_call = lpop-Keeps
handler_of-Keeps rpop_call = rpop-Keeps
handler_of-Keeps llen_call = llen-Keeps
handler_of-Keeps lrange_call = lrange-Keeps
handler_of-Keeps lindex_call = lindex-Keeps
handler_of-Keeps lset_call = lset-Keeps
handler_of-Keeps lrem_call = lrem-Keeps
handler_of-Keeps ltrim_call = ltrim-Keeps
handler_of-Keeps linsert_call = linsert-Keeps
handler_of-Keeps lmove_call = lmove-Keeps
handler_of-Keeps lpos_call = lpos-Keeps

call_all-Keeps :
    (cs : List ListCall) (s : StorageAdapter) → HasNoEmptyList s → HasNoEmptyList (call_all cs s)
unfolding call_all
call_all-Keeps [] s h = h
call_all-Keeps (c ∷ cs) s h =
    call_all-Keeps cs (handler_of c.command c.now c.args c.db s).1
      (handler_of-Keeps c.command c.now c.args c.db s h)

empty_filled :
    (count i : ℕ) (key : Bytes)
    → is_filled (get_in (get_elem? (replicate {A = Database} count []) i) key) ≡ true
unfolding HashMap.get
empty_filled zero i key = refl
empty_filled (suc count) zero key = refl
empty_filled (suc count) (suc i) key = empty_filled count i key

-- Whatever list commands are called on a new storage, in whatever order, with whatever arguments, at
-- whatever databases and times, whether they succeed or fail: no key of any database then holds an
-- empty list, not even unseen, as an entry that has expired.
pub call_all-HasNoEmptyList :
    (count : ℕ) (cs : List ListCall) → HasNoEmptyList (call_all cs (with_db_count count))
unfolding with_db_count find
call_all-HasNoEmptyList count cs =
    call_all-Keeps cs (with_db_count count) (λ db key. empty_filled count db key)
