-- ===== src/Command/Databases.antt =====
-- src/command/database.rs: SELECT, DBSIZE, FLUSHDB, FLUSHALL, SWAPDB and MOVE.
use ai_kv.Base.{ℕ, ◌||◌, [], ◌∷◌, List, leb, pos, if◌then◌else◌}
use ai_kv.Text.{Bytes}
use ai_kv.Text.Utf8.{from_utf8_lossy}
use ai_kv.Error.{AikvError, ok}
use ai_kv.Effect.{Effect, give, fail, check, ◌>>=◌, ◌>>◌}
use ai_kv.Resp.{RespValue, integer, ok_reply}
use ai_kv.Storage.Adapter.{StorageAdapter}
use ai_kv.Storage.Keyspace
use ai_kv.Storage.Keyspace.{dbsize_in_db, flush_db, flush_all, swap_db}
use ai_kv.Command.Index.{bad_argument, usize_arg}
use ai_kv.Command.Replies.{Handler, flag, wrong_count}

abbrev pub db_out_of_range : AikvError
db_out_of_range = bad_argument "ERR DB index is out of range"

-- The state is the database of the connection, `current_db`.
unfoldable pub select : List Bytes → Effect ℕ RespValue
select (i ∷ []) = do
  index ← check (usize_arg "ERR invalid DB index" i)
  if leb 16 index then fail db_out_of_range else (λ _. (ok ok_reply, index))
select _ = fail (wrong_count "SELECT")

unfoldable pub dbsize : Handler
dbsize now _ db = do size ← dbsize_in_db now db; give (integer (pos size))

unfoldable pub flushdb : Handler
flushdb now _ db = do flush_db db; give ok_reply

unfoldable pub flushall : List Bytes → Effect StorageAdapter RespValue
flushall _ = do flush_all; give ok_reply

unfoldable pub swapdb : List Bytes → Effect StorageAdapter RespValue
swapdb (a ∷ b ∷ []) = do
  db1 ← check (usize_arg "ERR invalid first DB index" a)
  db2 ← check (usize_arg "ERR invalid second DB index" b)
  if leb 16 db1 || leb 16 db2 then fail db_out_of_range else (do swap_db db1 db2; give ok_reply)
swapdb _ = fail (wrong_count "SWAPDB")

unfoldable pub move_key : Handler
move_key now (k ∷ d ∷ []) db = do
  dest_db ← check (usize_arg "ERR invalid DB index" d)
  if leb 16 dest_db
      then fail db_out_of_range
      else (do moved ← Keyspace.move_key now db dest_db (from_utf8_lossy k); give (flag moved))
move_key now _ db = fail (wrong_count "MOVE")
