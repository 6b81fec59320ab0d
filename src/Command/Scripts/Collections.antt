-- ===== src/Command/Scripts/Collections.antt =====
-- src/command/script.rs: the list, set and sorted set commands that a script calls, over its buffer, and
-- EXPIRE, which passes it by.
use ai_kv.Base.{
  ℕ, suc, ◌-◌, ◌*◌, ◌==◌, true, false, Option, none, some, List, [], ◌∷◌, length, leb, take, drop,
  get_elem?, is_empty, min, ℤ, pos, negsuc, ◌+ℤ◌, ltb_ℤ, pos_part, u64_mod, if◌then◌else◌,
}
use ai_kv.Text.{Bytes, codes}
use ai_kv.Text.Utf8.{from_utf8_lossy}
use ai_kv.Text.Number.{parse_u64}
use ai_kv.Error.{Result, ok, err, ok_or}
use ai_kv.Effect.{Effect, give, fail, check, ◌>>=◌, ◌>>◌}
use ai_kv.HashMap
use ai_kv.HashMap.{HashMap}
use ai_kv.Resp.{RespValue, integer, bulk_string, null, array, bulk_list, cons, nil}
use ai_kv.Storage.Value.{StoredValue, as_list, as_set}
use ai_kv.Storage.Adapter.{StorageAdapter}
use ai_kv.Storage.Expiry.{set_expire_in_db}
use ai_kv.Command.Index.{bad_argument, i64_arg, usize_arg}
use ai_kv.Command.Replies.{flag, wrong_count}
use ai_kv.Command.Lists.{list_or_new, push_back_all, pop_fronts, pop_backs, pop_back}
use ai_kv.Command.Sets.{HashSet, set_or_new, add_members, remove_members, members_reply}
use ai_kv.Command.ZSets.Ranges.{range_start, range_stop}
use ai_kv.Command.Scripts.{
  ScriptTransaction, set_list, set_set, drop_key, get_value, exists, buffer,
}
use ai_kv.Command.Scripts.Calls.{ScriptHandler}

unfoldable pub list_at : ℕ → StorageAdapter → Bytes → Effect ScriptTransaction (List Bytes)
list_at now storage key = do stored ← get_value now storage key; check (list_or_new stored)

-- The last argument is pushed first.
unfoldable pub push_from_last : List Bytes → List Bytes → List Bytes
push_from_last [] l = l
push_from_last (e ∷ es) l = e ∷ push_from_last es l

unfoldable pub execute_lpush : ScriptHandler
execute_lpush now storage (k ∷ e ∷ es) = do
  let key = from_utf8_lossy k
  old ← list_at now storage key
  let l = push_from_last (e ∷ es) old
  buffer key (set_list l)
  give (integer (pos (length l)))
execute_lpush now storage _ = fail (wrong_count "LPUSH")

unfoldable pub execute_rpush : ScriptHandler
execute_rpush now storage (k ∷ e ∷ es) = do
  let key = from_utf8_lossy k
  old ← list_at now storage key
  let l = push_back_all (e ∷ es) old
  buffer key (set_list l)
  give (integer (pos (length l)))
execute_rpush now storage _ = fail (wrong_count "RPUSH")

buffer_list : Bytes → List Bytes → Effect ScriptTransaction (Unit {0})
buffer_list key [] = buffer key drop_key
buffer_list key (e ∷ l) = buffer key (set_list (e ∷ l))

-- One value, asked for without a count.
pop_single : Bytes → Option (Bytes × List Bytes) → Effect ScriptTransaction RespValue
unfolding buffer_list
pop_single key none = give null
pop_single key (some (value, rest)) = do buffer_list key rest; give (bulk_string (some value))

pop_many : Bytes → List Bytes × List Bytes → Effect ScriptTransaction RespValue
unfolding buffer_list
pop_many key (values, rest) = do
  buffer_list key rest
  give (if is_empty values then null else array (bulk_list values))

first_of : List Bytes → Option (Bytes × List Bytes)
first_of [] = none
first_of (x ∷ l) = some (x, l)

-- The list that is there.
on_list :
    Option StoredValue
    → (List Bytes → Effect ScriptTransaction RespValue)
    → Effect ScriptTransaction RespValue
on_list none f = give null
on_list (some stored) f = do l ← check (as_list stored); f l

unfoldable pub execute_lpop : ScriptHandler
unfolding on_list pop_single pop_many first_of
execute_lpop now storage [] = fail (wrong_count "LPOP")
execute_lpop now storage (k ∷ []) = do
  let key = from_utf8_lossy k
  stored ← get_value now storage key
  on_list stored λ l. pop_single key (first_of l)
execute_lpop now storage (k ∷ n ∷ _) = do
  let key = from_utf8_lossy k
  count ← check (usize_arg "count is not a valid integer" n)
  stored ← get_value now storage key
  on_list stored λ l. pop_many key (pop_fronts count [] l)

unfoldable pub execute_rpop : ScriptHandler
unfolding on_list pop_single pop_many
execute_rpop now storage [] = fail (wrong_count "RPOP")
execute_rpop now storage (k ∷ []) = do
  let key = from_utf8_lossy k
  stored ← get_value now storage key
  on_list stored λ l. pop_single key (pop_back l)
execute_rpop now storage (k ∷ n ∷ _) = do
  let key = from_utf8_lossy k
  count ← check (usize_arg "count is not a valid integer" n)
  stored ← get_value now storage key
  on_list stored λ l. pop_many key (pop_backs count [] l)

unfoldable pub execute_llen : ScriptHandler
execute_llen now storage (k ∷ []) = do
  l ← list_at now storage (from_utf8_lossy k)
  give (integer (pos (length l)))
execute_llen now storage _ = fail (wrong_count "LLEN")

list_range : ℤ → ℤ → List Bytes → List Bytes
unfolding range_start range_stop
list_range start stop l =
    let a = range_start (length l) start in
    let b = range_stop (length l) stop in if leb b a then [] else take (b - a) (drop a l)

unfoldable pub execute_lrange : ScriptHandler
unfolding list_range
execute_lrange now storage (k ∷ a ∷ b ∷ []) = do
  start ← check (i64_arg "start is not an integer" a)
  stop ← check (i64_arg "stop is not an integer" b)
  l ← list_at now storage (from_utf8_lossy k)
  give (array (bulk_list (list_range start stop l)))
execute_lrange now storage _ = fail (wrong_count "LRANGE")

element_reply : Option Bytes → RespValue
element_reply none = null
element_reply (some value) = bulk_string (some value)

at_index : ℤ → List Bytes → Option Bytes
at_index index l =
    let i = if ltb_ℤ index (pos 0) then pos (length l) +ℤ index else index in
    if ltb_ℤ i (pos 0) then none else get_elem? l (pos_part i)

unfoldable pub execute_lindex : ScriptHandler
unfolding at_index element_reply
execute_lindex now storage (k ∷ n ∷ []) = do
  index ← check (i64_arg "index is not an integer" n)
  l ← list_at now storage (from_utf8_lossy k)
  give (element_reply (at_index index l))
execute_lindex now storage _ = fail (wrong_count "LINDEX")

unfoldable pub set_at : ℕ → StorageAdapter → Bytes → Effect ScriptTransaction HashSet
set_at now storage key = do stored ← get_value now storage key; check (set_or_new stored)

unfoldable pub execute_sadd : ScriptHandler
execute_sadd now storage (k ∷ x ∷ xs) = do
  let key = from_utf8_lossy k
  m ← set_at now storage key
  let (count, m') = add_members (x ∷ xs) m 0
  buffer key (set_set m')
  give (integer (pos count))
execute_sadd now storage _ = fail (wrong_count "SADD")

buffer_set : Bytes → HashSet → Effect ScriptTransaction (Unit {0})
buffer_set key [] = buffer key drop_key
buffer_set key (e ∷ m) = buffer key (set_set (e ∷ m))

srem_found : Bytes → List Bytes → Option StoredValue → Effect ScriptTransaction RespValue
unfolding buffer_set
srem_found key xs none = give (integer (pos 0))
srem_found key xs (some stored) = do
  m ← check (as_set stored)
  let (count, m') = remove_members xs m 0
  buffer_set key m'
  give (integer (pos count))

unfoldable pub execute_srem : ScriptHandler
unfolding srem_found
execute_srem now storage (k ∷ x ∷ xs) = do
  let key = from_utf8_lossy k
  stored ← get_value now storage key
  srem_found key (x ∷ xs) stored
execute_srem now storage _ = fail (wrong_count "SREM")

unfoldable pub execute_smembers : ScriptHandler
execute_smembers now storage (k ∷ []) = do
  m ← set_at now storage (from_utf8_lossy k)
  give (members_reply m)
execute_smembers now storage _ = fail (wrong_count "SMEMBERS")

unfoldable pub execute_sismember : ScriptHandler
execute_sismember now storage (k ∷ x ∷ []) = do
  m ← set_at now storage (from_utf8_lossy k)
  give (flag (HashMap.contains_key m x))
execute_sismember now storage _ = fail (wrong_count "SISMEMBER")

unfoldable pub execute_scard : ScriptHandler
execute_scard now storage (k ∷ []) = do
  m ← set_at now storage (from_utf8_lossy k)
  give (integer (pos (length m)))
execute_scard now storage _ = fail (wrong_count "SCARD")

-- All members under cursor 1 at the first call, and none under cursor 0 at the next.
sscan_reply : ℕ → Option HashSet → RespValue
sscan_reply cursor none = array (cons (bulk_string (some (codes "0"))) (cons (array nil) nil))
sscan_reply cursor (some m) =
    if cursor == 0
    then array (cons (bulk_string (some (codes "1"))) (cons (members_reply m) nil))
    else array (cons (bulk_string (some (codes "0"))) (cons (array nil) nil))

as_set_if_there : Option StoredValue → Result (Option HashSet)
as_set_if_there none = ok none
as_set_if_there (some stored) = elim (as_set stored) [ ok m ↦ ok (some m) | err e ↦ err e ]

unfoldable pub execute_sscan : ScriptHandler
unfolding sscan_reply as_set_if_there
execute_sscan now storage (k ∷ c ∷ _) = do
  cursor ←
      check (ok_or (parse_u64 (from_utf8_lossy c)) (bad_argument "cursor is not a valid integer"))
  stored ← get_value now storage (from_utf8_lossy k)
  m ← check (as_set_if_there stored)
  give (sscan_reply cursor m)
execute_sscan now storage _ = fail (wrong_count "SSCAN")

-- The expiration is set in the storage at once, whatever becomes of the buffer.
unfoldable pub execute_expire :
    ℕ → ℕ → List Bytes → Effect (ScriptTransaction × StorageAdapter) RespValue
execute_expire now later (k ∷ n ∷ []) (txn, storage) =
    let key = from_utf8_lossy k in
    elim (i64_arg "seconds is not a valid integer" n) [
      | err e ↦ (err e, (txn, storage))
      | ok seconds ↦ elim (exists now storage key txn).0 [
        | err e ↦ (err e, (txn, storage))
        | ok false ↦ (ok (integer (pos 0)), (txn, storage))
        | ok true ↦
            let (done, storage') =
              set_expire_in_db now later txn.db_index key (saturating_millis seconds) storage in
            (elim done [ err e ↦ err e | ok _ ↦ ok (integer (pos 1)) ], (txn, storage'))
      ]
    ]
  where
    -- `(seconds as u64).saturating_mul(1000)`
    as_u64 : ℤ → ℕ
    as_u64 (pos m) = m
    as_u64 (negsuc m) = u64_mod - suc m

    saturating_millis : ℤ → ℕ
    saturating_millis seconds = min (as_u64 seconds * 1000) (u64_mod - 1)
execute_expire now later _ state = (err (wrong_count "EXPIRE"), state)
