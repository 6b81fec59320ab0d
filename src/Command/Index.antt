-- ===== src/Command/Index.antt =====
-- What the handlers share: keys, numbers and indices from arguments.
use ai_kv.Base.{
  ℕ, ◌+◌, ◌-◌, Bool, ◌&&◌, ◌||◌, Option, none, some, List, [], ◌∷◌, length, take, drop, leb, ltb, ℤ,
  pos, pos_part, ◌+ℤ◌, ltb_ℤ, leb_ℤ, max_ℤ, min_ℤ, if◌then◌else◌,
}
use ai_kv.Text.{Bytes}
use ai_kv.Text.Utf8.{from_utf8_lossy}
use ai_kv.Text.Number.{parse_i64, parse_u64, parse_usize}
use ai_kv.Error.{Result, ok_or, invalid_argument, literal, AikvError}
use ai_kv.Base.{String}

-- `Err(AikvError::InvalidArgument(…))`
abbrev pub bad_argument : String → AikvError
bad_argument message = invalid_argument (literal message)

-- `String::from_utf8_lossy(&args[i]).parse::<…>().map_err(…)`
unfoldable pub i64_arg : String → Bytes → Result ℤ
i64_arg message arg = ok_or (parse_i64 (from_utf8_lossy arg)) (bad_argument message)

unfoldable pub usize_arg : String → Bytes → Result ℕ
usize_arg message arg = ok_or (parse_usize (from_utf8_lossy arg)) (bad_argument message)

unfoldable pub u64_arg : String → Bytes → Result ℕ
u64_arg message arg = ok_or (parse_u64 (from_utf8_lossy arg)) (bad_argument message)

-- The normalised start and stop of LRANGE, LTRIM and GETRANGE. `as usize` is used at numbers that are
-- not negative; `pos_part` is that number.
unfoldable pub start_index : ℕ → ℤ → ℕ
start_index len start =
    if ltb_ℤ start (pos 0)
    then pos_part (max_ℤ (pos len +ℤ start) (pos 0))
    else pos_part (min_ℤ start (pos len))

unfoldable pub stop_index : ℕ → ℤ → ℕ
stop_index len stop =
    if ltb_ℤ stop (pos 0)
    then pos_part (max_ℤ (pos len +ℤ stop) (pos 0))
    else pos_part (min_ℤ stop (pos (len - 1)))

-- The test `start_idx > stop_idx || start_idx >= len`, at a length that is not 0.
unfoldable pub is_outside : ℕ → ℕ → ℕ → Bool
is_outside len start_idx stop_idx = ltb stop_idx start_idx || leb len start_idx

-- `skip(start_idx).take(stop_idx - start_idx + 1)`, or nothing
unfoldable pub slice {ℓ} : {A : Type ℓ} → ℤ → ℤ → List A → List A
unfolding start_index stop_index is_outside
slice start stop [] = []
slice start stop (x ∷ xs) =
    let l = x ∷ xs in
    let a = start_index (length l) start in
    let b = stop_index (length l) stop in
    if is_outside (length l) a b then [] else take (b - a + 1) (drop a l)

-- The index from the end, if it is negative.
unfoldable pub element_index : ℕ → ℤ → ℤ
element_index len index = if ltb_ℤ index (pos 0) then pos len +ℤ index else index

-- The test `idx >= 0 && idx < len`, with the index as a `usize`.
unfoldable pub index_within : ℕ → ℤ → Option ℕ
index_within len idx =
    if leb_ℤ (pos 0) idx && ltb_ℤ idx (pos len) then some (pos_part idx) else none
