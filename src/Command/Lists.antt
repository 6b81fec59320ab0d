-- ===== src/Command/Lists.antt =====
-- src/command/list.rs: the handlers of the list commands. A `VecDeque` is a list, its front first.
pub mod Edit
pub mod Race
pub mod Filled
pub mod Ends
pub mod Pops
pub mod Order
pub mod Sequence
pub mod Position
use ai_kv.Base.{
  ℕ, zero, suc, ◌+◌, ◌-◌, min, Option, none, some, List, [], ◌∷◌, ◌++◌, length, ◌==◌, pos,
  if◌then◌else◌,
}
use ai_kv.Text.{Bytes}
use ai_kv.Text.Utf8.{from_utf8_lossy}
use ai_kv.Error.{Result, ok, wrong_arg_count, literal}
use ai_kv.Effect.{Effect, give, fail, check, ◌>>=◌, ◌>>◌}
use ai_kv.Resp.{RespValue, integer, bulk_string, array, null, bulk_list}
use ai_kv.Storage.Value.{StoredValue, new_list, as_list}
use ai_kv.Storage.Adapter.{StorageAdapter, get_value, set_value, delete_from_db}
use ai_kv.Command.Index.{i64_arg, usize_arg, slice}

abbrev pub Handler : Type 0
Handler = ℕ → List Bytes → ℕ → Effect StorageAdapter RespValue

-- The list at a key, or a new one.
unfoldable pub list_or_new : Option StoredValue → Result (List Bytes)
list_or_new none = ok []
list_or_new (some stored) = as_list stored

pub push_front_all : List Bytes → List Bytes → List Bytes
push_front_all [] l = l
push_front_all (e ∷ es) l = push_front_all es (e ∷ l)

unfoldable pub push_back_all : List Bytes → List Bytes → List Bytes
push_back_all [] l = l
push_back_all (e ∷ es) l = push_back_all es (l ++ e ∷ [])

pub lpush : Handler
lpush now (k ∷ e ∷ es) db = do
  let key = from_utf8_lossy k
  stored ← get_value now db key
  old ← check (list_or_new stored)
  let l = push_front_all (e ∷ es) old
  set_value db key (new_list l)
  give (integer (pos (length l)))
lpush now _ db = fail (wrong_arg_count (literal "LPUSH"))

pub rpush : Handler
rpush now (k ∷ e ∷ es) db = do
  let key = from_utf8_lossy k
  stored ← get_value now db key
  old ← check (list_or_new stored)
  let l = push_back_all (e ∷ es) old
  set_value db key (new_list l)
  give (integer (pos (length l)))
rpush now _ db = fail (wrong_arg_count (literal "RPUSH"))

-- The optional count of LPOP and RPOP.
unfoldable pub pop_count : List Bytes → Result ℕ
pop_count [] = ok 1
pop_count (c ∷ _) = usize_arg "invalid count" c

-- A pop from a queue that is empty does nothing.
unfoldable pub pop_fronts : ℕ → List Bytes → List Bytes → List Bytes × List Bytes
pop_fronts zero values l = (values, l)
pop_fronts (suc n) values [] = pop_fronts n values []
pop_fronts (suc n) values (x ∷ xs) = pop_fronts n (values ++ x ∷ []) xs

-- `VecDeque::pop_back`
pub pop_back : List Bytes → Option (Bytes × List Bytes)
pop_back [] = none
pop_back (x ∷ xs) = elim (pop_back xs) [ none ↦ some (x, []) | some (v, rest) ↦ some (v, x ∷ rest) ]

unfoldable pub pop_backs : ℕ → List Bytes → List Bytes → List Bytes × List Bytes
pop_backs zero values l = (values, l)
pop_backs (suc n) values l = elim (pop_back l) [
  | none ↦ pop_backs n values l
  | some (v, rest) ↦ pop_backs n (values ++ v ∷ []) rest
]

-- A list that has become empty takes its key away.
pub store_or_delete : ℕ → Bytes → List Bytes → Effect StorageAdapter (Unit {0})
store_or_delete db key [] = do delete_from_db db key; give tt
store_or_delete db key (x ∷ xs) = set_value db key (new_list (x ∷ xs))

pub pop_reply : ℕ → List Bytes → RespValue
pop_reply count [] = null
pop_reply count (v ∷ vs) = if count == 1 then bulk_string (some v) else array (bulk_list (v ∷ vs))

pop_stored :
    (ℕ → List Bytes → List Bytes → List Bytes × List Bytes)
    → ℕ
    → ℕ
    → Bytes
    → Option StoredValue
    → Effect StorageAdapter (List Bytes)
unfolding store_or_delete
pop_stored pops count db key none = give []
pop_stored pops count db key (some stored) = do
  l ← check (as_list stored)
  let (values, rest) = pops (min count (length l)) [] l
  store_or_delete db key rest
  give values

pub lpop : Handler
unfolding pop_count pop_fronts pop_stored pop_reply
lpop now (k ∷ more) db = do
  let key = from_utf8_lossy k
  count ← check (pop_count more)
  stored ← get_value now db key
  values ← pop_stored pop_fronts count db key stored
  give (pop_reply count values)
lpop now [] db = fail (wrong_arg_count (literal "LPOP"))

pub rpop : Handler
unfolding pop_count pop_backs pop_back pop_stored pop_reply
rpop now (k ∷ more) db = do
  let key = from_utf8_lossy k
  count ← check (pop_count more)
  stored ← get_value now db key
  values ← pop_stored pop_backs count db key stored
  give (pop_reply count values)
rpop now [] db = fail (wrong_arg_count (literal "RPOP"))

unfoldable pub llen : Handler
llen now (k ∷ []) db = do
  stored ← get_value now db (from_utf8_lossy k)
  l ← check (list_or_new stored)
  give (integer (pos (length l)))
llen now _ db = fail (wrong_arg_count (literal "LLEN"))

pub lrange : Handler
lrange now (k ∷ a ∷ b ∷ []) db = do
  start ← check (i64_arg "invalid start index" a)
  stop ← check (i64_arg "invalid stop index" b)
  stored ← get_value now db (from_utf8_lossy k)
  l ← check (list_or_new stored)
  give (array (bulk_list (slice start stop l)))
lrange now _ db = fail (wrong_arg_count (literal "LRANGE"))
