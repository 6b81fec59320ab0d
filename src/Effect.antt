-- ===== src/Effect.antt =====
-- Code that reads and writes a shared state and may fail. What was written before a failure stays.
use ai_kv.Error.{AikvError, Result, ok, err}

abbrev pub Effect : Type 0 → Type 0 → Type 0
Effect S A = S → Result A × S

module _ {S A : Type 0} where
  abbrev pub give : A → Effect S A
  give a s = (ok a, s)

  abbrev pub fail : AikvError → Effect S A
  fail e s = (err e, s)

  -- `?` on a result that touches no state
  abbrev pub check : Result A → Effect S A
  check r s = (r, s)

module _ {S A B : Type 0} where
  abbrev pub proceed : Result A × S → (A → Effect S B) → Result B × S
  proceed (ok a, s) f = f a s
  proceed (err e, s) f = (err e, s)

  infixl 5 ◌>>=◌ ◌>>◌
  -- `?` at a call that may write
  abbrev pub ◌>>=◌ : Effect S A → (A → Effect S B) → Effect S B
  ◌>>=◌ m f s = proceed (m s) f

  abbrev pub ◌>>◌ : Effect S A → Effect S B → Effect S B
  m >> n = m >>= λ _. n
