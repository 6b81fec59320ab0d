-- ===== src/Command/Lists/Filled.antt =====
-- src/command/list.rs: the list commands in any sequence, and what they leave in the storage.
pub mod Keeps
pub mod Always
use ai_kv.Base.{ℕ, ◌≡◌, Bool, true, false, Option, none, some, List, [], ◌∷◌}
use ai_kv.Text.{Bytes}
use ai_kv.Storage.Value.{StoredValue, ValueType}
use ai_kv.Storage.Adapter.{StorageAdapter, find}
use ai_kv.Command.Lists.{Handler, lpush, rpush, lpop, rpop, llen, lrange}
use ai_kv.Command.Lists.Edit.{lindex, lset, lrem, ltrim, linsert, lmove}
use ai_kv.Command.Lists.Position.{lpos}

pub data ListCommand : Type 0 where
  lpush_call rpush_call lpop_call rpop_call llen_call lrange_call lindex_call lset_call lrem_call
        ltrim_call linsert_call lmove_call lpos_call :
      ListCommand

pub handler_of : ListCommand → Handler
handler_of lpush_call = lpush
handler_of rpush_call = rpush
handler_of lpop_call = lpop
handler_of rpop_call = rpop
handler_of llen_call = llen
handler_of lrange_call = lrange
handler_of lindex_call = lindex
handler_of lset_call = lset
handler_of lrem_call = lrem
handler_of ltrim_call = ltrim
handler_of linsert_call = linsert
handler_of lmove_call = lmove
handler_of lpos_call = lpos

-- A command with the clock, the arguments and the selected database of its call.
pub record ListCall : Type 0 where
  pub command : ListCommand
  pub now : ℕ
  pub args : List Bytes
  pub db : ℕ

-- The storage after the calls, whatever they reply.
pub call_all : List ListCall → StorageAdapter → StorageAdapter
unfolding handler_of
call_all [] s = s
call_all (c ∷ cs) s = call_all cs (handler_of c.command c.now c.args c.db s).1

-- There is no list there that is empty.
abbrev pub is_filled : Option StoredValue → Bool
is_filled none = true
is_filled (some v) = elim v.value [
  | ValueType.string _ ↦ true
  | ValueType.list [] ↦ false
  | ValueType.list (_ ∷ _) ↦ true
  | ValueType.hash _ ↦ true
  | ValueType.set _ ↦ true
  | ValueType.zset _ ↦ true
]

abbrev pub HasNoEmptyList : StorageAdapter → Type 0
HasNoEmptyList s = (db : ℕ) (key : Bytes) → is_filled (find s db key) ≡ true
