-- ===== src/Error.antt =====
-- src/error.rs: the errors, the results, and the handlers' effects on the storage.
use ai_kv.Base.{ℕ, String, ◌≡◌, refl, ◌⊎◌, inl, inr, Option, none, some}
use ai_kv.Text.{Bytes}

-- A message: a literal, or what `format!` puts behind one.
pub data Message : Type 0 where
  literal : String → Message
  with_number : String → ℕ → Message
  with_numbers : String → ℕ → ℕ → Message
  with_text : String → Bytes → Message
  between : String → ℕ → String → Message
  between_numbers : String → ℕ → String → ℕ → String → Message
  with_number_text : String → ℕ → Bytes → Message
  with_numbers_text : String → ℕ → ℕ → Bytes → Message

-- The causes of `Io` and `Json` are kept by their messages.
pub data AikvError : Type 0 where
  io protocol invalid_command wrong_arg_count invalid_argument : Message → AikvError
  key_not_found : AikvError
  wrong_type storage persistence json script internal invalid : Message → AikvError
  moved ask : ℕ → Bytes → AikvError
  cross_slot cluster_disabled : AikvError
  unknown : Message → AikvError

pub data Result {ℓ} (A : Type ℓ) : Type ℓ where
  ok : A → Result A
  err : AikvError → Result A

-- `Option::ok_or`, and `map_err` after a `parse`.
abbrev pub ok_or {ℓ} : {A : Type ℓ} → Option A → AikvError → Result A
ok_or none e = err e
ok_or (some a) e = ok a

pub Result-cases {ℓ} :
    {A : Type ℓ} (r : Result A) → ((a : A) × (r ≡ ok a)) ⊎ ((e : AikvError) × (r ≡ err e))
Result-cases (ok a) = inl (a, refl)
Result-cases (err e) = inr (e, refl)
