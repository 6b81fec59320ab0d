-- ===== src/Command/Strings/Floating.antt =====
-- src/command/string.rs, INCRBYFLOAT.
use ai_kv.Base.{ℕ, not, ◌||◌, Option, none, some, [], ◌∷◌, if◌then◌else◌}
use ai_kv.Text.{Bytes}
use ai_kv.Text.Utf8.{from_utf8_lossy}
use ai_kv.Error.{Result, ok}
use ai_kv.Effect.{give, fail, check, ◌>>=◌, ◌>>◌}
use ai_kv.Resp.{bulk_string}
use ai_kv.Storage.Adapter.{get_from_db, set_in_db}
use ai_kv.Command.Index.{bad_argument}
use ai_kv.Command.Replies.{wrong_count}
use ai_kv.Command.Floats.{F64, f64_arg}
use ai_kv.Command.Strings.{Handler}

float_of : F64 → Option Bytes → Result ℕ
float_of floats none = ok floats.zero_score
float_of floats (some b) = f64_arg floats "ERR value is not a valid float" b

unfoldable pub incrbyfloat : F64 → Handler
unfolding float_of
incrbyfloat floats now (k ∷ n ∷ []) db = do
  let key = from_utf8_lossy k
  increment ← check (f64_arg floats "ERR value is not a valid float" n)
  value ← get_from_db now db key
  current_value ← check (float_of floats value)
  let new_value = floats.add current_value increment
  if floats.is_infinite new_value || not (floats.le new_value new_value)
      then fail (bad_argument "ERR increment would produce NaN or Infinity")
      else (do
        set_in_db db key (floats.to_string new_value)
        give (bulk_string (some (floats.to_string new_value))))
incrbyfloat floats now _ db = fail (wrong_count "INCRBYFLOAT")
