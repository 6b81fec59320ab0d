-- ===== src/Command/Floats.antt =====
-- The `f64` operations that the commands use. A float is its bit pattern; how it is read, printed, added
-- and compared is an argument of the model.
use ai_kv.Base.{ℕ, Bool, Option}
use ai_kv.Text.{Bytes}
use ai_kv.Error.{Result, ok_or}
use ai_kv.Base.{String}
use ai_kv.Text.Utf8.{from_utf8_lossy}
use ai_kv.Command.Index.{bad_argument}

pub record F64 : Type 0 where
  pub parse : Bytes → Option ℕ
  pub to_string : ℕ → Bytes
  pub zero_score : ℕ
  pub add : ℕ → ℕ → ℕ
  -- `<=` and `<`, which are false at a NaN
  pub le : ℕ → ℕ → Bool
  pub lt : ℕ → ℕ → Bool
  pub is_infinite : ℕ → Bool

unfoldable pub f64_arg : F64 → String → Bytes → Result ℕ
f64_arg floats message arg = ok_or (floats.parse (from_utf8_lossy arg)) (bad_argument message)
