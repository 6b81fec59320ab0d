-- ===== src/Command/Keys/Dump/RoundTrip.antt =====
-- src/command/key.rs: what DUMP replies, RESTORE reads.
use ai_kv.Base.{
  ℕ, zero, suc, ◌+◌, ◌-◌, ◌*◌, ◌%◌, ◌<◌, ◌≡◌, refl, ap, ◌∙◌, true, false, Option, none, some, List,
  [], ◌∷◌, ◌++◌, append_assoc, length, take, drop, length-append, ltb, ==_iff, pos, u64_mod, arith,
}
use ai_kv.Text.{Bytes}
use ai_kv.Text.Utf8.{from_utf8_lossy}
use ai_kv.Error.{ok}
use ai_kv.Resp.{bulk_string, ok_reply}
use ai_kv.Storage.Value.{StoredValue, to_serializable, set_expiration}
use ai_kv.Storage.Adapter.{StorageAdapter, insert_at}
use ai_kv.Storage.View.{view, InRange}
use ai_kv.Storage.Contract.{get_value-view, exists_in_db-view, set_value-InRange}
use ai_kv.Storage.Serial.{IsProper, from_serializable-to_serializable}
use ai_kv.Storage.Codec.{Codec, Reads, coded}
use ai_kv.Text.LittleEndian.{le_bytes, of_le_bytes, span, length-le_bytes, of_le_bytes-le_bytes}
use ai_kv.Command.Index.{i64_arg}
use ai_kv.Command.Keys.Dump.{
  checksum_from, calculate_checksum, verify_checksum, with_trailer, decoded, dump_reply, dumped,
  dump, read_payload, with_ttl, restore, refuse_busy, restore_options,
}

module _ {ℓ} {A : Type ℓ} where
  take-append : (xs ys : List A) → take (length xs) (xs ++ ys) ≡ xs
  take-append [] ys = refl
  take-append (x ∷ xs) ys = ap (λ l. x ∷ l) (take-append xs ys)

  drop-append : (xs ys : List A) → drop (length xs) (xs ++ ys) ≡ ys
  drop-append [] ys = refl
  drop-append (x ∷ xs) ys = drop-append xs ys

checksum_from-lt : (i acc : ℕ) (bytes : Bytes) → acc < u64_mod → checksum_from i acc bytes < u64_mod
unfolding checksum_from
checksum_from-lt i acc [] h = h
checksum_from-lt i acc (b ∷ bytes) h =
    checksum_from-lt (i + 1) ((acc + b * ((i + 1) % u64_mod) % u64_mod) % u64_mod) bytes
      (omega arith)

of_le_bytes-checksum :
    (bytes : Bytes) → of_le_bytes (le_bytes 8 (calculate_checksum bytes)) ≡ calculate_checksum bytes
unfolding calculate_checksum span
of_le_bytes-checksum bytes =
    of_le_bytes-le_bytes 8 (checksum_from 0 0 bytes) (checksum_from-lt 0 0 bytes (omega arith))

-- The trailer is found again at the end of a payload.
module _ (bytes : Bytes) where
  body : Bytes
  body = bytes ++ 0x00 ∷ 0x09 ∷ []

  trailer : Bytes
  trailer = le_bytes 8 (calculate_checksum body)

  with_trailer_lem : with_trailer bytes ≡ body ++ trailer
  unfolding with_trailer body trailer
  with_trailer_lem = refl

  length-body : length body ≡ length bytes + 2
  unfolding body
  length-body = length-append bytes (0x00 ∷ 0x09 ∷ [])

  length-with_trailer : length (with_trailer bytes) ≡ length bytes + 10
  unfolding trailer
  length-with_trailer =
      ap length with_trailer_lem
      ∙ omega (
        arith,
        length-append body trailer,
        length-body,
        length-le_bytes 8 (calculate_checksum body),
      )

  take-body : take (length (with_trailer bytes) - 8) (with_trailer bytes) ≡ body
  take-body =
      ap (λ n. take n (with_trailer bytes)) {x = length (with_trailer bytes) - 8} {y = length body}
        (omega (arith, length-with_trailer, length-body))
      ∙ ap (take (length body)) with_trailer_lem
      ∙ take-append body trailer

  drop-body : drop (length (with_trailer bytes) - 8) (with_trailer bytes) ≡ trailer
  drop-body =
      ap (λ n. drop n (with_trailer bytes)) {x = length (with_trailer bytes) - 8} {y = length body}
        (omega (arith, length-with_trailer, length-body))
      ∙ ap (drop (length body)) with_trailer_lem
      ∙ drop-append body trailer

  take-bytes : take (length (with_trailer bytes) - 10) (with_trailer bytes) ≡ bytes
  unfolding body
  take-bytes =
      ap (λ n. take n (with_trailer bytes)) {x = length (with_trailer bytes) - 10}
        {y = length bytes} (omega (arith, length-with_trailer))
      ∙ ap (take (length bytes)) (with_trailer_lem ∙ append_assoc bytes (0x00 ∷ 0x09 ∷ []) trailer)
      ∙ take-append bytes ((0x00 ∷ 0x09 ∷ []) ++ trailer)

  long_enough : ltb (length (with_trailer bytes)) 10 ≡ false
  long_enough = ground (arith, length-with_trailer)

  verify_checksum-with_trailer : verify_checksum (with_trailer bytes) ≡ true
  unfolding verify_checksum trailer
  verify_checksum-with_trailer =
      rw (long_enough, take-body, drop-body, of_le_bytes-checksum body)
        ((==_iff (calculate_checksum body) (calculate_checksum body)).1 refl)

  read_payload-with_trailer :
      (codec : Codec) → read_payload codec (with_trailer bytes) ≡ decoded (codec.deserialize bytes)
  unfolding read_payload
  read_payload-with_trailer codec = rw (long_enough, verify_checksum-with_trailer, take-bytes) refl

-- The time that RESTORE gives for a relative time to live.
abbrev pub restored_time : ℕ → ℕ → Option ℕ
restored_time now zero = none
restored_time now (suc n) = some ((now + suc n) % u64_mod)

with_ttl-restored :
    (now n : ℕ) (v : StoredValue)
    → with_ttl now false (pos n) v ≡ ok (set_expiration v (restored_time now n))
unfolding with_ttl
with_ttl-restored now zero v = refl
with_ttl-restored now (suc n) v = refl

module _ (codec : Codec) (now later : ℕ) (k n t : Bytes) (src dst ttl : ℕ) (s u : StorageAdapter)
    (v : StoredValue) (bytes : Bytes) where
  -- DUMP at a key that shows `v`, and RESTORE of the reply at a key that shows nothing, with no
  -- options: the value is stored again, with the time that the time to live gives.
  dumped_value :
      view now s src (from_utf8_lossy k) ≡ some v
      → codec.serialize (to_serializable v) ≡ coded bytes
      → dump codec now (k ∷ []) src s ≡ (ok (bulk_string (some (with_trailer bytes))), s)
  unfolding dump dump_reply dumped
  dumped_value shown e = rw (get_value-view now src (from_utf8_lossy k) s, shown, e) refl

  restored_value :
      IsProper v.value
      → codec.deserialize bytes ≡ coded (to_serializable v)
      → i64_arg "ERR invalid TTL value" t ≡ ok (pos ttl)
      → InRange u dst
      → view later u dst (from_utf8_lossy n) ≡ none
      → restore codec later (n ∷ t ∷ with_trailer bytes ∷ []) dst u ≡ (
        ok ok_reply,
        insert_at dst (from_utf8_lossy n) (set_expiration v (restored_time later ttl)) u,
      )
  unfolding restore refuse_busy restore_options decoded
  restored_value proper e time there free =
      rw
        (
          time,
          exists_in_db-view later dst (from_utf8_lossy n) u,
          free,
          read_payload-with_trailer bytes codec,
          e,
          from_serializable-to_serializable v proper,
          with_ttl-restored later ttl v,
          set_value-InRange dst (from_utf8_lossy n) u (set_expiration v (restored_time later ttl))
              there,
        )
        refl

-- DUMP at a key that shows `v`, and RESTORE of the payload it replies at a key that shows nothing, with
-- a time to live that is not negative and no options: DUMP changes nothing, RESTORE replies OK, and the
-- value is stored at the new key with no time, if the time to live is 0, and else with the clock and
-- the time to live added (as a `u64`). The encoding has to read back what it has written, and to take
-- the value.
pub restore-dump :
    (codec : Codec) (now later : ℕ) (k n t : Bytes) (src dst ttl : ℕ) (s u : StorageAdapter)
    (v : StoredValue) (bytes : Bytes)
    → Reads codec
    → view now s src (from_utf8_lossy k) ≡ some v
    → IsProper v.value
    → codec.serialize (to_serializable v) ≡ coded bytes
    → i64_arg "ERR invalid TTL value" t ≡ ok (pos ttl)
    → InRange u dst
    → view later u dst (from_utf8_lossy n) ≡ none
    → (payload : Bytes) × (dump codec now (k ∷ []) src s ≡ (ok (bulk_string (some payload)), s))
      × (restore codec later (n ∷ t ∷ payload ∷ []) dst u ≡ (
        ok ok_reply,
        insert_at dst (from_utf8_lossy n) (set_expiration v (restored_time later ttl)) u,
      ))
restore-dump codec now later k n t src dst ttl s u v bytes reads shown proper e time there free = (
  with_trailer bytes,
  dumped_value codec now later k n t src dst ttl s u v bytes shown e,
  restored_value codec now later k n t src dst ttl s u v bytes proper
      (reads (to_serializable v) bytes e) time there free,
)
