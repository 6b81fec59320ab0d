-- ===== src/Command/Strings/Numbers.antt =====
-- src/command/string.rs: INCR, DECR, INCRBY and DECRBY.
pub mod Counting
use ai_kv.Base.{
  ℕ, ◌+◌, ◌-◌, Bool, ◌&&◌, Option, none, some, [], ◌∷◌, ltb, leb, ℤ, pos, negsuc, pos_part,
  neg_part, ◌+ℤ◌, negate, i64_bound, if◌then◌else◌,
}
use ai_kv.Text.{Bytes}
use ai_kv.Text.Utf8.{from_utf8_lossy}
use ai_kv.Text.Number.{print_i64}
use ai_kv.Error.{Result, ok, ok_or, wrong_arg_count, literal}
use ai_kv.Effect.{Effect, give, fail, check, ◌>>=◌, ◌>>◌}
use ai_kv.Resp.{RespValue, integer}
use ai_kv.Storage.Adapter.{StorageAdapter, get_from_db, set_in_db}
use ai_kv.Command.Index.{bad_argument, i64_arg}
use ai_kv.Command.Strings.{Handler, out_of_range}

abbrev pub fits : ℤ → Bool
fits z = ltb (pos_part z) i64_bound && leb (neg_part z) i64_bound

-- `i64::checked_add`
pub checked_add : ℤ → ℤ → Option ℤ
checked_add a b = let c = a +ℤ b in if fits c then some c else none

-- `-decrement` in a release build: the least `i64` stays as it is.
pub wrapping_neg : ℤ → ℤ
wrapping_neg z = if fits (negate z) then negate z else z

unfoldable pub current_value : Option Bytes → Result ℤ
current_value none = ok (pos 0)
current_value (some b) = i64_arg out_of_range b

pub incr_by_internal : ℕ → Bytes → ℤ → ℕ → Effect StorageAdapter RespValue
unfolding checked_add current_value
incr_by_internal now key increment db = do
  value ← get_from_db now db key
  current ← check (current_value value)
  next ← check (
      ok_or (checked_add current increment)
        (bad_argument "ERR increment or decrement would overflow"))
  set_in_db db key (print_i64 next)
  give (integer next)

pub incr : Handler
incr now (k ∷ []) db = incr_by_internal now (from_utf8_lossy k) (pos 1) db
incr now _ db = fail (wrong_arg_count (literal "INCR"))

pub decr : Handler
decr now (k ∷ []) db = incr_by_internal now (from_utf8_lossy k) (negsuc 0) db
decr now _ db = fail (wrong_arg_count (literal "DECR"))

pub incrby : Handler
incrby now (k ∷ n ∷ []) db = do
  increment ← check (i64_arg out_of_range n)
  incr_by_internal now (from_utf8_lossy k) increment db
incrby now _ db = fail (wrong_arg_count (literal "INCRBY"))

pub decrby : Handler
unfolding wrapping_neg
decrby now (k ∷ n ∷ []) db = do
  decrement ← check (i64_arg out_of_range n)
  incr_by_internal now (from_utf8_lossy k) (wrapping_neg decrement) db
decrby now _ db = fail (wrong_arg_count (literal "DECRBY"))
