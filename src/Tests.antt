-- ===== src/Tests.antt =====
-- A small storage on which the theorems are run.
pub mod StorageRuns
pub mod ListRuns
pub mod StringRuns
pub mod HandlerRuns
pub mod ProtocolRuns
pub mod Kinds
pub mod KeyRuns
pub mod MapRuns
pub mod RankRuns
pub mod DiskRuns
pub mod GlobRuns
pub mod ScriptRuns
pub mod FileRuns
pub mod ClusterRuns
use ai_kv.Base.{◌≡◌, refl, arith, none, some, List, [], ◌∷◌}
use ai_kv.Text.{Bytes, bytes_eq}
use ai_kv.HashMap
use ai_kv.Storage.Value.{StoredValue, ValueType, new_list, new_string, with_expiration, is_expired}
use ai_kv.Storage.Adapter.{StorageAdapter, find}
use ai_kv.Storage.View.{view, InRange}

abbrev pub list_key : Bytes
list_key = b'l' ∷ []

abbrev pub number_key : Bytes
number_key = b'n' ∷ []

abbrev pub timed_key : Bytes
timed_key = b't' ∷ []

abbrev pub stale_key : Bytes
stale_key = b's' ∷ []

abbrev pub free_key : Bytes
free_key = b'f' ∷ []

abbrev pub elem_x : Bytes
elem_x = b'x' ∷ []

abbrev pub elem_y : Bytes
elem_y = b'y' ∷ []

abbrev pub two : Bytes
two = b'2' ∷ []

abbrev pub listed : List Bytes
listed = elem_x ∷ elem_y ∷ elem_x ∷ []

abbrev pub timed : StoredValue
timed = with_expiration (ValueType.string elem_x) 100

abbrev pub stale : StoredValue
stale = with_expiration (ValueType.string elem_y) 3

-- Two databases: a list, a number, a string until 100 and one until 3, which is past at 5.
abbrev pub store : StorageAdapter
store = record {
  databases =
      ((list_key, new_list listed)
        ∷ (number_key, new_string two)
        ∷ (timed_key, timed)
        ∷ (stale_key, stale)
        ∷ [])
      ∷ []
      ∷ [];
}

pub first-InRange : InRange store 0
first-InRange = omega arith

pub second-InRange : InRange store 1
second-InRange = omega arith

pub list_shown : view 5 store 0 list_key ≡ some (new_list listed)
unfolding view find HashMap.get bytes_eq is_expired
list_shown = refl

pub timed_shown : view 5 store 0 timed_key ≡ some timed
unfolding view find HashMap.get bytes_eq is_expired
timed_shown = refl
