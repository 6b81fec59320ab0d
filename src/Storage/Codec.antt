-- ===== src/Storage/Codec.antt =====
-- The encoding of values of the bincode crate, as DUMP, RESTORE and the persistent storage use it.
use ai_kv.Base.{◌≡◌}
use ai_kv.Text.{Bytes}
use ai_kv.Storage.Value.{SerializableStoredValue}

-- The third-party encoding: the bytes, or the message of a failure.
pub data Coded {ℓ} (A : Type ℓ) : Type ℓ where
  coded : A → Coded A
  refused : Bytes → Coded A

pub record Codec : Type 0 where
  pub serialize : SerializableStoredValue → Coded Bytes
  pub deserialize : Bytes → Coded SerializableStoredValue

-- What the encoding promises: what it has written it reads back.
abbrev pub Reads : Codec → Type 0
Reads codec =
    (v : SerializableStoredValue) (bytes : Bytes)
    → codec.serialize v ≡ coded bytes
    → codec.deserialize bytes ≡ coded v
