-- ===== src/Resp/Parser.antt =====
-- src/protocol/parser.rs: `RespParser`. The cursor is the list of the bytes that it has not passed.
pub mod Lines
pub mod Sendable
pub mod Parts
pub mod Streams
pub mod Depth
pub mod RoundTrip
pub mod Stalls
use ai_kv.Base.{
  ℕ, zero, suc, ◌+◌, true, false, ◌&&◌, Option, none, some, List, [], ◌∷◌, ◌++◌, length, take, drop,
  ◌==◌, leb, pos, negsuc, String, if◌then◌else◌,
}
use ai_kv.Text.{Bytes, bytes_eq}
use ai_kv.Text.Utf8.{from_utf8_lossy}
use ai_kv.Text.Number.{parse_i64, parse_usize, print_i64}
use ai_kv.Error.{AikvError, Result, ok, err, ok_or, protocol, literal, with_text, with_number}
use ai_kv.Effect.{Effect, give, fail, check, ◌>>=◌, ◌>>◌}
use ai_kv.Resp.{
  RespValue, RespList, RespPairs, simple_string, error, integer, bulk_string, array, null_array,
  null, boolean, double, big_number, bulk_error, verbatim_string, map, set, push, attribute,
  streamed_string, nil, cons, no_pairs, pair,
}
use ai_kv.Resp.Serialize.{Floats, infinity, negative_infinity, inf_text, negative_inf_text}

abbrev pub malformed : String → AikvError
malformed message = protocol (literal message)

-- The bytes before the first CR LF, and those behind it.
pub split_line : Bytes → Option (Bytes × Bytes)
split_line [] = none
split_line (c ∷ []) = none
split_line (c ∷ d ∷ s) =
    let later = split_line (d ∷ s) in
    if c == 13 && d == 10
    then some ([], s)
    else elim later [ none ↦ none | some (text, rest) ↦ some (c ∷ text, rest) ]

pub read_line : Effect Bytes Bytes
unfolding split_line
read_line s = elim (split_line s) [
  | none ↦ (err (malformed "Incomplete line"), s)
  | some (text, rest) ↦ (ok (from_utf8_lossy text), rest)
]

-- `len` bytes and the two behind them, which are not looked at. The comparison is that of the numbers: a
-- chunk's length so near 2^64 that `pos + len + 2` wraps is taken for incomplete here, where the code
-- panics at the slice.
pub read_data : String → ℕ → Effect Bytes Bytes
read_data message len s =
    if leb (len + 2) (length s)
    then (ok (take len s), drop (len + 2) s)
    else (err (malformed message), s)

-- A length that may not be negative.
pub length_arg : String → Bytes → Result ℕ
length_arg message text = elim (parse_i64 text) [
  | none ↦ err (protocol (with_text message text))
  | some (pos n) ↦ ok n
  | some (negsuc n) ↦ err (protocol (with_text message (print_i64 (negsuc n))))
]

-- The same, but -1 stands for null.
pub optional_length : String → Bytes → Result (Option ℕ)
optional_length message text = elim (parse_i64 text) [
  | none ↦ err (protocol (with_text message text))
  | some (pos n) ↦ ok (some n)
  | some (negsuc zero) ↦ ok none
  | some (negsuc (suc n)) ↦ err (protocol (with_text message (print_i64 (negsuc (suc n)))))
]

-- The loop over the chunks of a streamed string; each one takes bytes, and `fuel` bounds their number.
pub parse_chunks : ℕ → Effect Bytes (List Bytes)
unfolding read_line read_data
parse_chunks zero s = (err (malformed "Incomplete streamed string"), s)
parse_chunks (suc fuel) [] = (err (malformed "Incomplete streamed string"), [])
parse_chunks (suc fuel) (c ∷ s) =
    let next = parse_chunks fuel in
    if c == b';'
    then ((do
      text ← read_line
      len ←
          check
            (ok_or (parse_usize text) (protocol (with_text "Invalid streamed chunk length: " text)))
      (if len == 0 then give [] else (do
        chunk ← read_data "Incomplete streamed chunk" len
        chunks ← next
        give (chunk ∷ chunks))))
        s)
    else (err (protocol (with_number "Expected ';' in streamed string, got " c)), s)

-- `content.iter().position(|&b| b == b':')`, and the two sides of it
pub split_colon : Bytes → Option (Bytes × Bytes)
split_colon [] = none
split_colon (c ∷ s) =
    let later = split_colon s in
    if c == b':'
    then some ([], s)
    else elim later [ none ↦ none | some (format, body) ↦ some (c ∷ format, body) ]

pub boolean_of : Bytes → Result RespValue
boolean_of text =
    if bytes_eq text (b't' ∷ [])
    then ok (boolean true)
    else if bytes_eq text (b'f' ∷ [])
    then ok (boolean false)
    else err (protocol (with_text "Invalid boolean: " text))

unfoldable pub double_of : Floats → Bytes → Result RespValue
double_of floats text =
    if bytes_eq text inf_text
    then ok (double infinity)
    else if bytes_eq text negative_inf_text
    then ok (double negative_infinity)
    else elim (floats.parse text) [
      | none ↦ err (protocol (with_text "Invalid double: " text))
      | some d ↦ ok (double d)
    ]

pub verbatim_of : Bytes → Result RespValue
unfolding split_colon
verbatim_of content = elim (split_colon content) [
  | none ↦ err (malformed "Invalid verbatim string format")
  | some (format, body) ↦ ok (verbatim_string (from_utf8_lossy format) body)
]

-- The loops over the items of an array, a set or a push, and over the pairs of a map.
pub parse_items : Effect Bytes RespValue → ℕ → Effect Bytes RespList
parse_items item zero = give nil
parse_items item (suc n) = do v ← item; vs ← parse_items item n; give (cons v vs)

pub parse_pairs : Effect Bytes RespValue → ℕ → Effect Bytes RespPairs
parse_pairs item zero = give no_pairs
parse_pairs item (suc n) = do k ← item; v ← item; ps ← parse_pairs item n; give (pair k v ps)

-- The line behind a marker, as a length.
pub read_length : String → Effect Bytes ℕ
unfolding read_line length_arg
read_length message = do text ← read_line; check (length_arg message text)

pub parse_block : String → String → Effect Bytes Bytes
unfolding read_length read_data
parse_block invalid incomplete = do len ← read_length invalid; read_data incomplete len

pub parse_bulk_string : Effect Bytes RespValue
unfolding read_line read_data optional_length parse_chunks
parse_bulk_string = do
  text ← read_line
  (if bytes_eq text (b'?' ∷ [])
      then (λ s. (do chunks ← parse_chunks (suc (length s)); give (streamed_string chunks)) s)
      else (do
        len ← check (optional_length "Invalid bulk string length: " text)
        elim len [
          | none ↦ give (bulk_string none)
          | some n ↦ (do
            body ← read_data "Incomplete bulk string" n
            give (bulk_string (some body)))
        ]))

pub parse_array : Effect Bytes RespValue → Effect Bytes RespValue
unfolding read_line optional_length parse_items
parse_array item = do
  text ← read_line
  len ← check (optional_length "Invalid array length: " text)
  elim len [ none ↦ give null_array | some n ↦ (do vs ← parse_items item n; give (array vs)) ]

pub parse_attribute : Effect Bytes RespValue → Effect Bytes RespValue
unfolding read_length parse_pairs
parse_attribute item = do
  n ← read_length "Invalid attribute length: "
  ps ← parse_pairs item n
  v ← item
  give (attribute ps v)

-- The match on the marker, with the parser of the values inside.
pub parse_marked : Floats → Effect Bytes RespValue → ℕ → Effect Bytes RespValue
unfolding read_line parse_bulk_string parse_array read_length parse_items parse_pairs parse_block
    parse_attribute boolean_of double_of verbatim_of
parse_marked floats item marker =
    if marker == b'+'
    then (do text ← read_line; give (simple_string text))
    else if marker == b'-'
    then (do text ← read_line; give (error text))
    else if marker == b':'
    then (do
      text ← read_line
      i ← check (ok_or (parse_i64 text) (protocol (with_text "Invalid integer: " text)))
      give (integer i))
    else if marker == b'$'
    then parse_bulk_string
    else if marker == b'*'
    then parse_array item
    else if marker == b'_'
    then (do read_line; give null)
    else if marker == b'#'
    then (do text ← read_line; check (boolean_of text))
    else if marker == b','
    then (do text ← read_line; check (double_of floats text))
    else if marker == b'('
    then (do text ← read_line; give (big_number text))
    else if marker == b'!'
    then (do
      body ← parse_block "Invalid bulk error length: " "Incomplete bulk error"
      give (bulk_error (from_utf8_lossy body)))
    else if marker == b'='
    then (do
      body ← parse_block "Invalid verbatim string length: " "Incomplete verbatim string"
      check (verbatim_of body))
    else if marker == b'%'
    then (do n ← read_length "Invalid map length: "; ps ← parse_pairs item n; give (map ps))
    else if marker == b'~'
    then (do n ← read_length "Invalid set length: "; vs ← parse_items item n; give (set vs))
    else if marker == b'>'
    then (do n ← read_length "Invalid push length: "; vs ← parse_items item n; give (push vs))
    else if marker == b'|'
    then parse_attribute item
    else if marker == b';'
    then fail (malformed "Unexpected ';' marker outside streamed string context")
    else fail (protocol (with_number "Invalid RESP type marker: " marker))

-- `fuel` bounds the nesting; each level takes a byte.
pub parse_value : Floats → ℕ → Effect Bytes RespValue
unfolding parse_marked
parse_value floats zero s = (err (malformed "Incomplete data"), s)
parse_value floats (suc fuel) [] = (err (malformed "Incomplete data"), [])
parse_value floats (suc fuel) (marker ∷ s) = parse_marked floats (parse_value floats fuel) marker s

-- What a call of `parse` makes of the outcome: the buffer moves on only behind a whole value, and every
-- protocol error is taken for a value that is not complete.
abbrev outcome : Bytes → Result RespValue × Bytes → Result (Option RespValue) × Bytes
outcome buffer (ok v, rest) = (ok (some v), rest)
outcome buffer (err (protocol message), rest) = (ok none, buffer)
outcome buffer (err e, rest) = (err e, buffer)

pub parse : Floats → Effect Bytes (Option RespValue)
unfolding parse_value
parse floats [] = (ok none, [])
parse floats (c ∷ s) = outcome (c ∷ s) (parse_value floats (suc (length (c ∷ s))) (c ∷ s))

-- `feed`
pub feed : Bytes → Bytes → Bytes
feed more buffer = buffer ++ more
