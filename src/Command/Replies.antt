-- ===== src/Command/Replies.antt =====
-- What the handlers of keys, databases, hashes, sets and sorted sets share: the type of a handler, and
-- replies that tell yes or no.
use ai_kv.Base.{ℕ, Bool, List, pos, if◌then◌else◌}
use ai_kv.Text.{Bytes}
use ai_kv.Error.{AikvError, wrong_arg_count, literal}
use ai_kv.Base.{String}
use ai_kv.Effect.{Effect}
use ai_kv.Resp.{RespValue, integer}
use ai_kv.Storage.Adapter.{StorageAdapter}

abbrev pub Handler : Type 0
Handler = ℕ → List Bytes → ℕ → Effect StorageAdapter RespValue

-- `if b { 1 } else { 0 }`
abbrev pub flag : Bool → RespValue
flag b = integer (if b then pos 1 else pos 0)

-- `Err(AikvError::WrongArgCount(…))`
abbrev pub wrong_count : String → AikvError
wrong_count name = wrong_arg_count (literal name)
