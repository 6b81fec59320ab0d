-- ===== src/Tests/StringRuns.antt =====
-- The string commands' theorems on the small storage.
use ai_kv.Base.{ℕ, ◌≡◌, refl, ◌==◌, none, some, List, [], ◌∷◌, pos, is_some, if◌then◌else◌}
use ai_kv.Text.{Bytes, codes, bytes_eq}
use ai_kv.Text.Utf8.{from_utf8_lossy, to_uppercase}
use ai_kv.Text.Number.{parse_i64, parse_unsigned}
use ai_kv.Error.{ok}
use ai_kv.HashMap
use ai_kv.Resp.{integer, bulk_string}
use ai_kv.Storage.Value.{new_string, as_string, is_expired}
use ai_kv.Storage.Adapter.{find}
use ai_kv.Storage.View.{view}
use ai_kv.Storage.Contract.{Shows, string_of}
use ai_kv.Command.Index.{i64_arg, usize_arg}
use ai_kv.Command.Strings.{get, bytes_or_empty}
use ai_kv.Command.Strings.Options.Said.{SetItem, Says, if_absent, millis, nx_said, px_said, nothing}
use ai_kv.Command.Strings.Options
use ai_kv.Command.Strings.Options.Conditions.{SetContract, set_contract, get-set, held_back}
use ai_kv.Command.Strings.Numbers.{incrby, current_value, fits}
use ai_kv.Command.Strings.Numbers.Counting.{IncrContract, incrby_contract}
use ai_kv.Command.Strings.Ranges.{setbit, bit_arg}
use ai_kv.Command.Strings.Ranges.Bits.{bit_of, setbit_contract}
use ai_kv.Tests.{number_key, timed_key, free_key, elem_x, elem_y, two, store, first-InRange}

abbrev nx_arg : Bytes
nx_arg = b'n' ∷ b'x' ∷ []

abbrev px_arg : Bytes
px_arg = b'P' ∷ b'X' ∷ []

abbrev nx_options : List SetItem
nx_options = if_absent ∷ millis 2 ∷ []

number_read : string_of (view 5 store 0 (from_utf8_lossy number_key)) ≡ ok (some two)
unfolding as_string view find from_utf8_lossy HashMap.get bytes_eq is_expired
number_read = refl

free_read : string_of (view 5 store 0 (from_utf8_lossy free_key)) ≡ ok none
unfolding view find from_utf8_lossy HashMap.get bytes_eq is_expired
free_read = refl

range_read : i64_arg "ERR value is not an integer or out of range" two ≡ ok (pos 2)
unfolding i64_arg from_utf8_lossy parse_i64
range_read = refl

offset_read : usize_arg "ERR offset is out of range" two ≡ ok 2
unfolding usize_arg from_utf8_lossy parse_unsigned
offset_read = refl

number_is_two : current_value (some two) ≡ ok (pos 2)
unfolding current_value i64_arg from_utf8_lossy parse_i64
number_is_two = refl

-- "nx PX 2"
options_said : Says (nx_arg ∷ px_arg ∷ two ∷ []) nx_options
unfolding codes from_utf8_lossy to_uppercase parse_unsigned
options_said =
    nx_said nx_arg (px_arg ∷ two ∷ []) (millis 2 ∷ []) refl
      (px_said px_arg two 2 [] [] refl refl nothing)

set_example :
    SetContract 5
      (from_utf8_lossy free_key)
      elem_x
      0
      store
      nx_options
      (Options.set 5 (free_key ∷ elem_x ∷ nx_arg ∷ px_arg ∷ two ∷ []) 0 store)
      (held_back nx_options (is_some (view 5 store 0 (from_utf8_lossy free_key))))
set_example =
    set_contract 5 free_key elem_x (nx_arg ∷ px_arg ∷ two ∷ []) 0 store nx_options first-InRange
      options_said

get-set_example :
    (get 5 (timed_key ∷ []) 0 (Options.set 5 (timed_key ∷ elem_y ∷ []) 0 store).1).0 ≡ (
      if bytes_eq (from_utf8_lossy timed_key) (from_utf8_lossy timed_key)
      then ok (bulk_string (some elem_y))
      else (get 5 (timed_key ∷ []) 0 store).0)
get-set_example = get-set 5 timed_key elem_y timed_key 0 store first-InRange

incrby_example :
    IncrContract 5
      (from_utf8_lossy number_key)
      0
      store
      (pos 4)
      (incrby 5 (number_key ∷ two ∷ []) 0 store)
      (fits (pos 4))
incrby_example =
    incrby_contract 5 number_key two 0 store (pos 2) (pos 2) (some two) first-InRange range_read
      number_read number_is_two

bit_offset_read : usize_arg "ERR bit offset is not an integer or out of range" two ≡ ok 2
unfolding usize_arg from_utf8_lossy parse_unsigned
bit_offset_read = refl

bit_read : bit_arg (b'1' ∷ []) ≡ ok 1
unfolding bit_arg from_utf8_lossy parse_unsigned
bit_read = refl

setbit_example :
    (r : Bytes) × ((j : ℕ)
      → bit_of r j ≡ (if 2 == j then 1 else bit_of (bytes_or_empty (some two)) j))
    × ((setbit 5 (number_key ∷ two ∷ (b'1' ∷ []) ∷ []) 0 store).0
        ≡ ok (integer (pos (bit_of (bytes_or_empty (some two)) 2))))
    × Shows 5 store 0
        (from_utf8_lossy number_key)
        (some (new_string r))
        (setbit 5 (number_key ∷ two ∷ (b'1' ∷ []) ∷ []) 0 store).1
setbit_example =
    setbit_contract 5 number_key two (b'1' ∷ []) 0 store 2 1 (some two) first-InRange
      bit_offset_read bit_read number_read
