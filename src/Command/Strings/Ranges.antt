-- ===== src/Command/Strings/Ranges.antt =====
-- src/command/string.rs: GETRANGE, SETRANGE and SETBIT.
pub mod Placement
pub mod Bits
use ai_kv.Base.{
  ℕ, ◌+◌, ◌-◌, ◌*◌, ◌/◌, ◌%◌, ◌^◌, ◌||◌, Option, none, some, [], ◌∷◌, ◌++◌, length, take, drop,
  replicate, get_elem?, adjust, ltb, ◌==◌, pos, if◌then◌else◌,
}
use ai_kv.Text.{Bytes}
use ai_kv.Text.Utf8.{from_utf8_lossy}
use ai_kv.Text.Number.{parse_unsigned}
use ai_kv.Error.{Result, ok, err, wrong_arg_count, literal}
use ai_kv.Effect.{give, fail, check, ◌>>=◌, ◌>>◌}
use ai_kv.Resp.{integer, bulk_string}
use ai_kv.Storage.Adapter.{get_from_db, set_in_db}
use ai_kv.Command.Index.{bad_argument, i64_arg, usize_arg, slice}
use ai_kv.Command.Strings.{Handler, out_of_range, bytes_or_empty}

pub getrange : Handler
getrange now (k ∷ a ∷ b ∷ []) db = do
  start ← check (i64_arg out_of_range a)
  stop ← check (i64_arg out_of_range b)
  value ← get_from_db now db (from_utf8_lossy k)
  give (bulk_string (some (slice start stop (bytes_or_empty value))))
getrange now _ db = fail (wrong_arg_count (literal "GETRANGE"))

-- `resize(len, 0)` where it makes the string longer
pub extend : ℕ → Bytes → Bytes
extend len b = if ltb (length b) len then b ++ replicate (len - length b) 0 else b

-- `current[offset..offset + value.len()].copy_from_slice(value)`
pub overwrite : ℕ → Bytes → Bytes → Bytes
overwrite offset value b = take offset b ++ (value ++ drop (offset + length value) b)

pub setrange : Handler
unfolding extend overwrite
setrange now (k ∷ o ∷ value ∷ []) db = do
  let key = from_utf8_lossy k
  offset ← check (usize_arg "ERR offset is out of range" o)
  old ← get_from_db now db key
  let current = overwrite offset value (extend (offset + length value) (bytes_or_empty old))
  set_in_db db key current
  give (integer (pos (length current)))
setrange now _ db = fail (wrong_arg_count (literal "SETRANGE"))

-- Bit `i` of a byte, from the most significant.
pub bit_at : ℕ → ℕ → ℕ
bit_at i byte = byte / 2 ^ (7 - i) % 2

-- `byte |= 1 << (7 - i)` and `byte &= !(1 << (7 - i))`
pub put_bit : ℕ → ℕ → ℕ → ℕ
unfolding bit_at
put_bit i bit byte = byte - bit_at i byte * 2 ^ (7 - i) + bit * 2 ^ (7 - i)

pub byte_or_zero : Option ℕ → ℕ
byte_or_zero none = 0
byte_or_zero (some x) = x

-- `parse::<u8>()`, and then only 0 and 1
unfoldable pub bit_arg : Bytes → Result ℕ
bit_arg arg = elim (parse_unsigned 256 (from_utf8_lossy arg)) [
  | none ↦ err (bad_argument "ERR bit is not an integer or out of range")
  | some n ↦
      if n == 0 || n == 1
      then ok n
      else err (bad_argument "ERR bit is not an integer or out of range")
]

unfoldable pub setbit : Handler
unfolding bit_arg byte_or_zero extend bit_at put_bit
setbit now (k ∷ o ∷ v ∷ []) db = do
  let key = from_utf8_lossy k
  offset ← check (usize_arg "ERR bit offset is not an integer or out of range" o)
  bit ← check (bit_arg v)
  old ← get_from_db now db key
  let current = extend (offset / 8 + 1) (bytes_or_empty old)
  let old_bit = bit_at (offset % 8) (byte_or_zero (get_elem? current (offset / 8)))
  set_in_db db key (adjust current (offset / 8) (put_bit (offset % 8) bit))
  give (integer (pos old_bit))
setbit now _ db = fail (wrong_arg_count (literal "SETBIT"))
