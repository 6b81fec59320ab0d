-- ===== src/Command/Keys/Dump.antt =====
-- src/command/key.rs: DUMP and RESTORE. The encoding of a value is the bincode crate's: `serialize` and
-- `deserialize` are arguments, and a failure of either is kept by its message.
pub mod RoundTrip
use ai_kv.Base.{
  ℕ, zero, suc, ◌+◌, ◌-◌, ◌*◌, ◌/◌, ◌%◌, Bool, true, false, not, ◌&&◌, ◌||◌, Option, none, some,
  List, [], ◌∷◌, ◌++◌, length, take, drop, ltb, ◌==◌, ℤ, pos, negsuc, u64_mod, if◌then◌else◌,
}
use ai_kv.Text.{Bytes, codes, bytes_eq}
use ai_kv.Text.Utf8.{from_utf8_lossy, to_uppercase}
use ai_kv.Error.{Result, ok, err, AikvError, invalid_argument, storage, with_text}
use ai_kv.Effect.{Effect, give, fail, check, ◌>>=◌, ◌>>◌}
use ai_kv.Resp.{RespValue, bulk_string, null_bulk_string, ok_reply}
use ai_kv.Storage.Value.{
  StoredValue, SerializableStoredValue, to_serializable, from_serializable, set_expiration,
}
use ai_kv.Storage.Codec.{Codec, Coded, coded, refused}
use ai_kv.Text.LittleEndian.{le_bytes, of_le_bytes}
use ai_kv.Storage.Adapter.{StorageAdapter, exists_in_db, get_value, set_value}
use ai_kv.Command.Index.{bad_argument, i64_arg}
use ai_kv.Command.Replies.{Handler, wrong_count}
use ai_kv.Command.Scanning.{syntax_error}

-- `wrapping_add` and `wrapping_mul` in `u64`: each byte times its place, from 1.
pub checksum_from : ℕ → ℕ → Bytes → ℕ
checksum_from i acc [] = acc
checksum_from i acc (byte ∷ data_) =
    checksum_from (i + 1) ((acc + byte * ((i + 1) % u64_mod) % u64_mod) % u64_mod) data_

pub calculate_checksum : Bytes → ℕ
unfolding checksum_from
calculate_checksum = checksum_from 0 0

pub verify_checksum : Bytes → Bool
unfolding calculate_checksum
verify_checksum payload =
    if ltb (length payload) 10
    then false
    else of_le_bytes (drop (length payload - 8) payload)
      == calculate_checksum (take (length payload - 8) payload)

-- The payload of DUMP: the value, the version, and the checksum of both.
pub with_trailer : Bytes → Bytes
unfolding calculate_checksum
with_trailer serialized =
    let dump_data = serialized ++ 0x00 ∷ 0x09 ∷ [] in
    dump_data ++ le_bytes 8 (calculate_checksum dump_data)

dumped : Coded Bytes → Result RespValue
unfolding with_trailer
dumped (coded bytes) = ok (bulk_string (some (with_trailer bytes)))
dumped (refused message) = err (storage (with_text "Failed to serialize value: " message))

dump_reply : Codec → Option StoredValue → Result RespValue
unfolding dumped
dump_reply codec none = ok null_bulk_string
dump_reply codec (some stored) = dumped (codec.serialize (to_serializable stored))

pub dump : Codec → Handler
unfolding dump_reply
dump codec now (k ∷ []) db = do
  stored ← get_value now db (from_utf8_lossy k)
  check (dump_reply codec stored)
dump codec now _ db = fail (wrong_count "DUMP")

pub record RestoreOptions : Type 0 where
  pub replace : Bool
  pub absttl : Bool

-- The loop over the arguments. The argument of IDLETIME and FREQ is skipped.
unfoldable mutual
  pub restore_options : List Bytes → RestoreOptions → Result RestoreOptions
  restore_options [] o = ok o
  restore_options (word ∷ rest) o =
      let option = to_uppercase (from_utf8_lossy word) in
      elim (bytes_eq option (codes "REPLACE")) [
        | true ↦ restore_options rest (record o { replace = true })
        | false ↦ elim (bytes_eq option (codes "ABSTTL")) [
          | true ↦ restore_options rest (record o { absttl = true })
          | false ↦ elim (bytes_eq option (codes "IDLETIME") || bytes_eq option (codes "FREQ")) [
            | true ↦ restore_skipping rest o
            | false ↦ err (invalid_argument (with_text "ERR syntax error, unknown option: " option))
          ]
        ]
      ]

  pub restore_skipping : List Bytes → RestoreOptions → Result RestoreOptions
  restore_skipping [] o = err syntax_error
  restore_skipping (_ ∷ rest) o = restore_options rest o

wrong_payload : AikvError
wrong_payload = bad_argument "ERR DUMP payload version or checksum are wrong"

decoded : Coded SerializableStoredValue → Result SerializableStoredValue
decoded (coded v) = ok v
decoded (refused message) =
    err (invalid_argument (with_text "ERR DUMP payload version or checksum are wrong: " message))

-- The value of a payload: its length and its checksum are looked at, its version is not.
pub read_payload : Codec → Bytes → Result SerializableStoredValue
unfolding decoded wrong_payload
read_payload codec payload =
    if ltb (length payload) 10
    then err wrong_payload
    else if verify_checksum payload
    then decoded (codec.deserialize (take (length payload - 10) payload))
    else err wrong_payload

-- The time to live: relative, or a time of the clock with ABSTTL; 0 stands for none.
pub with_ttl : ℕ → Bool → ℤ → StoredValue → Result StoredValue
with_ttl now absttl (pos zero) v = ok (set_expiration v none)
with_ttl now absttl (pos (suc n)) v =
    ok (set_expiration v (some (if absttl then suc n else (now + suc n) % u64_mod)))
with_ttl now absttl (negsuc n) v = err (bad_argument "ERR invalid TTL value, must be >= 0")

refuse_busy : ℕ → ℕ → Bytes → Bool → Effect StorageAdapter (Unit {0})
refuse_busy now db key true = give tt
refuse_busy now db key false = do
  busy ← exists_in_db now db key
  if busy then fail (bad_argument "BUSYKEY Target key name already exists") else give tt

pub restore : Codec → Handler
unfolding refuse_busy with_ttl
restore codec now (k ∷ t ∷ payload ∷ rest) db = do
  let key = from_utf8_lossy k
  time ← check (i64_arg "ERR invalid TTL value" t)
  o ← check (restore_options rest (record { replace = false; absttl = false }))
  refuse_busy now db key o.replace
  serializable ← check (read_payload codec payload)
  stored_value ← check (with_ttl now o.absttl time (from_serializable serializable))
  set_value db key stored_value
  give ok_reply
restore codec now _ db = fail (wrong_count "RESTORE")
