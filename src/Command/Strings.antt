-- ===== src/Command/Strings.antt =====
-- src/command/string.rs: the handlers of the string commands, all but INCRBYFLOAT.
pub mod Floating
pub mod Shown
pub mod Basic
pub mod Many
pub mod Options
pub mod Numbers
pub mod Ranges
use ai_kv.Base.{
  ℕ, ◌+◌, ◌%◌, ◌*◌, not, Option, none, some, List, [], ◌∷◌, ◌++◌, length, ◌==◌, pos, String,
  u64_mod, if◌then◌else◌,
}
use ai_kv.Text.{Bytes}
use ai_kv.Text.Utf8.{from_utf8_lossy}
use ai_kv.Error.{wrong_arg_count, literal}
use ai_kv.Effect.{Effect, give, fail, check, ◌>>=◌, ◌>>◌}
use ai_kv.Resp.{
  RespValue, RespList, integer, bulk_string, null_bulk_string, array, nil, cons, ok_reply,
}
use ai_kv.Storage.Adapter.{
  StorageAdapter, get_from_db, set_in_db, set_with_expiration_in_db, exists_in_db, delete_from_db,
}
use ai_kv.Command.Index.{u64_arg}

abbrev pub Handler : Type 0
Handler = ℕ → List Bytes → ℕ → Effect StorageAdapter RespValue

pub get : Handler
get now (k ∷ []) db = do value ← get_from_db now db (from_utf8_lossy k); give (bulk_string value)
get now _ db = fail (wrong_arg_count (literal "GET"))

-- The loops of DEL and EXISTS: how many of the keys were there.
pub del_all : List Bytes → ℕ → ℕ → Effect StorageAdapter ℕ
del_all [] db count = give count
del_all (k ∷ ks) db count = do
  deleted ← delete_from_db db (from_utf8_lossy k)
  del_all ks db (if deleted then count + 1 else count)

pub del : Handler
unfolding del_all
del now [] db = fail (wrong_arg_count (literal "DEL"))
del now (k ∷ ks) db = do count ← del_all (k ∷ ks) db 0; give (integer (pos count))

pub exists_all : ℕ → List Bytes → ℕ → ℕ → Effect StorageAdapter ℕ
exists_all now [] db count = give count
exists_all now (k ∷ ks) db count = do
  there ← exists_in_db now db (from_utf8_lossy k)
  exists_all now ks db (if there then count + 1 else count)

pub exists : Handler
unfolding exists_all
exists now [] db = fail (wrong_arg_count (literal "EXISTS"))
exists now (k ∷ ks) db = do count ← exists_all now (k ∷ ks) db 0; give (integer (pos count))

mget_all : ℕ → List Bytes → ℕ → Effect StorageAdapter RespList
mget_all now [] db = give nil
mget_all now (k ∷ ks) db = do
  value ← get_from_db now db (from_utf8_lossy k)
  rest ← mget_all now ks db
  give (cons (bulk_string value) rest)

unfoldable pub mget : Handler
unfolding mget_all
mget now [] db = fail (wrong_arg_count (literal "MGET"))
mget now (k ∷ ks) db = do values ← mget_all now (k ∷ ks) db; give (array values)

-- The loop of MSET over the pairs, at an even number of arguments.
pub mset_all : List Bytes → ℕ → Effect StorageAdapter (Unit {0})
mset_all [] db = give tt
mset_all (k ∷ []) db = give tt
mset_all (k ∷ v ∷ rest) db = do set_in_db db (from_utf8_lossy k) v; mset_all rest db

pub mset : Handler
unfolding mset_all
mset now [] db = fail (wrong_arg_count (literal "MSET"))
mset now (k ∷ rest) db =
    if length (k ∷ rest) % 2 == 0
    then (do mset_all (k ∷ rest) db; give ok_reply)
    else fail (wrong_arg_count (literal "MSET"))

length_of : Option Bytes → ℕ
length_of none = 0
length_of (some b) = length b

unfoldable pub strlen : Handler
unfolding length_of
strlen now (k ∷ []) db = do
  value ← get_from_db now db (from_utf8_lossy k)
  give (integer (pos (length_of value)))
strlen now _ db = fail (wrong_arg_count (literal "STRLEN"))

unfoldable pub bytes_or_empty : Option Bytes → Bytes
bytes_or_empty none = []
bytes_or_empty (some b) = b

pub append : Handler
unfolding bytes_or_empty
append now (k ∷ more ∷ []) db = do
  let key = from_utf8_lossy k
  old ← get_from_db now db key
  let value = bytes_or_empty old ++ more
  set_in_db db key value
  give (integer (pos (length value)))
append now _ db = fail (wrong_arg_count (literal "APPEND"))

getdel_found : ℕ → Bytes → Option Bytes → Effect StorageAdapter RespValue
getdel_found db key none = give null_bulk_string
getdel_found db key (some b) = do delete_from_db db key; give (bulk_string (some b))

pub getdel : Handler
unfolding getdel_found
getdel now (k ∷ []) db = do
  let key = from_utf8_lossy k
  value ← get_from_db now db key
  getdel_found db key value
getdel now _ db = fail (wrong_arg_count (literal "GETDEL"))

pub setnx : Handler
setnx now (k ∷ value ∷ []) db = do
  let key = from_utf8_lossy k
  there ← exists_in_db now db key
  if there then give (integer (pos 0)) else (do set_in_db db key value; give (integer (pos 1)))
setnx now _ db = fail (wrong_arg_count (literal "SETNX"))

abbrev pub out_of_range : String
out_of_range = "ERR value is not an integer or out of range"

-- `now_ms + seconds * 1000` and `now_ms + ms`, in `u64`
pub at_seconds : ℕ → ℕ → ℕ
at_seconds now seconds = (now + seconds * 1000 % u64_mod) % u64_mod

pub at_millis : ℕ → ℕ → ℕ
at_millis now ms = (now + ms) % u64_mod

unfoldable pub setex : Handler
unfolding at_seconds
setex now (k ∷ t ∷ value ∷ []) db = do
  seconds ← check (u64_arg out_of_range t)
  set_with_expiration_in_db db (from_utf8_lossy k) value (at_seconds now seconds)
  give ok_reply
setex now _ db = fail (wrong_arg_count (literal "SETEX"))

unfoldable pub psetex : Handler
unfolding at_millis
psetex now (k ∷ t ∷ value ∷ []) db = do
  ms ← check (u64_arg out_of_range t)
  set_with_expiration_in_db db (from_utf8_lossy k) value (at_millis now ms)
  give ok_reply
psetex now _ db = fail (wrong_arg_count (literal "PSETEX"))
