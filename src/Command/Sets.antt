-- ===== src/Command/Sets.antt =====
-- src/command/set.rs: the handlers of the set commands. A `HashSet` is a map to the unit type.
pub mod Algebra
pub mod Members
pub mod Scans
pub mod Transfer
use ai_kv.Base.{
  as_i32, ℕ, ◌+◌, ◌==◌, Bool, true, false, not, ◌&&◌, Option, none, some, List, [], ◌∷◌, filter,
  length, take, is_none, is_some, is_empty, pos, pos_part, neg_part, ℤ, negsuc, if◌then◌else◌,
}
use ai_kv.Text.{Bytes, bytes_eq}
use ai_kv.Text.Utf8.{from_utf8_lossy}
use ai_kv.Error.{Result, ok, err}
use ai_kv.Effect.{Effect, give, fail, check, ◌>>=◌, ◌>>◌}
use ai_kv.HashMap
use ai_kv.HashMap.{HashMap}
use ai_kv.Resp.{RespValue, integer, bulk_string, array, null, bulk_list}
use ai_kv.Storage.Value.{StoredValue, as_set, new_set}
use ai_kv.Storage.Adapter.{StorageAdapter, get_value, set_value, delete_from_db}
use ai_kv.Command.Index.{usize_arg, i64_arg}
use ai_kv.Command.Replies.{Handler, flag, wrong_count}

abbrev pub HashSet : Type 0
HashSet = HashMap (Unit {0})

-- The set at a key, or a new one.
unfoldable pub set_or_new : Option StoredValue → Result HashSet
set_or_new none = ok []
set_or_new (some stored) = as_set stored

-- The loop of SADD, and how many members are new. The counter is an `i32`: it is counted here how often
-- it is raised, and it wraps where SADD casts it, by `as_i32`.
unfoldable pub add_members : List Bytes → HashSet → ℕ → ℕ × HashSet
add_members [] m count = (count, m)
add_members (x ∷ xs) m count =
    add_members xs (HashMap.insert m x tt) (if is_none (HashMap.get m x) then count + 1 else count)

unfoldable pub sadd : Handler
sadd now (k ∷ x ∷ xs) db = do
  let key = from_utf8_lossy k
  stored ← get_value now db key
  m ← check (set_or_new stored)
  let (count, m') = add_members (x ∷ xs) m 0
  set_value db key (new_set m')
  give (integer (as_i32 count))
sadd now _ db = fail (wrong_count "SADD")

-- The loop of SREM, and how many members were there, with a counter as in SADD.
unfoldable pub remove_members : List Bytes → HashSet → ℕ → ℕ × HashSet
remove_members [] m count = (count, m)
remove_members (x ∷ xs) m count =
    remove_members xs (HashMap.remove m x) (if is_some (HashMap.get m x) then count + 1 else count)

-- A set that has become empty takes its key away.
unfoldable pub store_set : ℕ → Bytes → HashSet → Effect StorageAdapter (Unit {0})
store_set db key [] = do delete_from_db db key; give tt
store_set db key (e ∷ m) = set_value db key (new_set (e ∷ m))

unfoldable pub srem_stored :
    ℕ → Bytes → List Bytes → Option StoredValue → Effect StorageAdapter RespValue
srem_stored db key members none = give (integer (pos 0))
srem_stored db key members (some stored) = do
  m ← check (as_set stored)
  let (count, m') = remove_members members m 0
  store_set db key m'
  give (integer (as_i32 count))

unfoldable pub srem : Handler
srem now (k ∷ x ∷ xs) db = do
  let key = from_utf8_lossy k
  stored ← get_value now db key
  srem_stored db key (x ∷ xs) stored
srem now _ db = fail (wrong_count "SREM")

unfoldable pub sismember : Handler
sismember now (k ∷ x ∷ []) db = do
  stored ← get_value now db (from_utf8_lossy k)
  m ← check (set_or_new stored)
  give (flag (HashMap.contains_key m x))
sismember now _ db = fail (wrong_count "SISMEMBER")

unfoldable pub smembers : Handler
smembers now (k ∷ []) db = do
  stored ← get_value now db (from_utf8_lossy k)
  m ← check (set_or_new stored)
  give (array (bulk_list (HashMap.keys m)))
smembers now _ db = fail (wrong_count "SMEMBERS")

unfoldable pub scard : Handler
scard now (k ∷ []) db = do
  stored ← get_value now db (from_utf8_lossy k)
  m ← check (set_or_new stored)
  give (integer (pos (length m)))
scard now _ db = fail (wrong_count "SCARD")

pop_count : List Bytes → Result ℕ
pop_count [] = ok 1
pop_count (c ∷ _) = usize_arg "invalid count" c

remove_each : List Bytes → HashSet → HashSet
remove_each [] m = m
remove_each (x ∷ xs) m = remove_each xs (HashMap.remove m x)

-- The members that go come first in the order of the iteration.
unfoldable pub spop_stored : ℕ → Bytes → ℕ → Option StoredValue → Effect StorageAdapter (List Bytes)
unfolding remove_each
spop_stored db key count none = give []
spop_stored db key count (some stored) = do
  m ← check (as_set stored)
  let to_remove = take count (HashMap.keys m)
  store_set db key (remove_each to_remove m)
  give to_remove

spop_reply : ℕ → List Bytes → RespValue
spop_reply count [] = null
spop_reply count (x ∷ xs) = if count == 1 then bulk_string (some x) else array (bulk_list (x ∷ xs))

unfoldable pub spop : Handler
unfolding pop_count spop_reply
spop now (k ∷ more) db = do
  let key = from_utf8_lossy k
  count ← check (pop_count more)
  stored ← get_value now db key
  members ← spop_stored db key count stored
  give (spop_reply count members)
spop now [] db = fail (wrong_count "SPOP")

random_count : List Bytes → Result ℤ
random_count [] = ok (pos 1)
random_count (c ∷ _) = i64_arg "invalid count" c

-- With no count the reply is one member; with one it is an array.
random_reply : List Bytes → List Bytes → RespValue
random_reply [] [] = null
random_reply [] (x ∷ xs) = bulk_string (some x)
random_reply (_ ∷ _) members = array (bulk_list members)

-- `unsigned_abs` of the count
unfoldable pub srandmember : Handler
unfolding random_count random_reply
srandmember now (k ∷ more) db = do
  count ← check (random_count more)
  stored ← get_value now db (from_utf8_lossy k)
  m ← check (set_or_new stored)
  give (random_reply more (take (pos_part count + neg_part count) (HashMap.keys m)))
srandmember now [] db = fail (wrong_count "SRANDMEMBER")

-- `extend` by the members of another set
unfoldable pub extend : HashSet → HashSet → HashSet
extend m [] = m
extend m ((x, _) ∷ xs) = extend (HashMap.insert m x tt) xs

unfoldable pub intersection : HashSet → HashSet → HashSet
intersection a b = filter (λ e. HashMap.contains_key b e.0) a

unfoldable pub difference : HashSet → HashSet → HashSet
difference a b = filter (λ e. not (HashMap.contains_key b e.0)) a

-- `none` until the first set has been read.
unfoldable pub meet : Option HashSet → HashSet → HashSet
meet none m = m
meet (some result) m = intersection result m

unfoldable pub or_default : Option HashSet → HashSet
or_default none = []
or_default (some m) = m

module _ (now db : ℕ) where
  unfoldable pub union_of : List Bytes → HashSet → Effect StorageAdapter HashSet
  union_of [] result = give result
  union_of (k ∷ ks) result = do
    stored ← get_value now db (from_utf8_lossy k)
    m ← check (set_or_new stored)
    union_of ks (extend result m)

  -- A key that is not there ends the loop with the empty set.
  unfoldable pub inter_of : List Bytes → Option HashSet → Effect StorageAdapter HashSet
  inter_of [] result = give (or_default result)
  inter_of (k ∷ ks) result = do
    stored ← get_value now db (from_utf8_lossy k)
    elim stored [
      | none ↦ give []
      | some v ↦ (do m ← check (as_set v); inter_of ks (some (meet result m)))
    ]

  unfoldable pub diff_all : List Bytes → HashSet → Effect StorageAdapter HashSet
  diff_all [] result = give result
  diff_all (k ∷ ks) result = do
    stored ← get_value now db (from_utf8_lossy k)
    m ← check (set_or_new stored)
    diff_all ks (difference result m)

  unfoldable pub diff_of : List Bytes → Effect StorageAdapter HashSet
  diff_of [] = give []
  diff_of (k ∷ ks) = do
    stored ← get_value now db (from_utf8_lossy k)
    m ← check (set_or_new stored)
    diff_all ks m

abbrev pub members_reply : HashSet → RespValue
members_reply m = array (bulk_list (HashMap.keys m))

unfoldable pub sunion : Handler
sunion now [] db = fail (wrong_count "SUNION")
sunion now (k ∷ ks) db = do m ← union_of now db (k ∷ ks) []; give (members_reply m)

unfoldable pub sinter : Handler
sinter now [] db = fail (wrong_count "SINTER")
sinter now (k ∷ ks) db = do m ← inter_of now db (k ∷ ks) none; give (members_reply m)

unfoldable pub sdiff : Handler
sdiff now [] db = fail (wrong_count "SDIFF")
sdiff now (k ∷ ks) db = do m ← diff_of now db (k ∷ ks); give (members_reply m)

-- The result is stored also if it is empty.
unfoldable pub store_result : ℕ → Bytes → HashSet → Effect StorageAdapter RespValue
store_result db dest m = do
  set_value db (from_utf8_lossy dest) (new_set m)
  give (integer (pos (length m)))

unfoldable pub sunionstore : Handler
sunionstore now (dest ∷ k ∷ ks) db = do m ← union_of now db (k ∷ ks) []; store_result db dest m
sunionstore now _ db = fail (wrong_count "SUNIONSTORE")

unfoldable pub sinterstore : Handler
sinterstore now (dest ∷ k ∷ ks) db = do m ← inter_of now db (k ∷ ks) none; store_result db dest m
sinterstore now _ db = fail (wrong_count "SINTERSTORE")

unfoldable pub sdiffstore : Handler
sdiffstore now (dest ∷ k ∷ ks) db = do m ← diff_of now db (k ∷ ks); store_result db dest m
sdiffstore now _ db = fail (wrong_count "SDIFFSTORE")
