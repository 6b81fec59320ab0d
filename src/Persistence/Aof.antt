-- ===== src/Persistence/Aof.antt =====
-- src/persistence/aof.rs: the append-only file. Logging appends to the bytes of the file, and reading
-- takes them from its front; errors of the disk are not modelled. Of the cause of a number's error, which
-- the standard library words, only that there is one is kept.
pub mod Lines
pub mod Replay
pub mod Fuel
use ai_kv.Base.{
  ℕ, zero, suc, ◌+◌, ◌*◌, i64_bound, Bool, true, false, ◌&&◌, ◌||◌, Option, none, some, List, [],
  ◌∷◌, ◌++◌, leb, ◌==◌, length, take, drop, is_empty, String, if◌then◌else◌,
}
use mathlib.Core.Option
use ai_kv.Text.{Bytes, bytes_eq, codes}
use ai_kv.Text.Utf8.{from_utf8_lossy}
use ai_kv.Text.Number.{parse_usize, print_nat}
use ai_kv.Error.{Result, ok, err, ok_or, AikvError, persistence, literal, with_text}
use ai_kv.Effect.{Effect, give, fail, check, ◌>>=◌, ◌>>◌}
use ai_kv.Glob.{chars}

abbrev pub crlf : Bytes
crlf = 13 ∷ 10 ∷ []

-- `write!(writer, "{}{}\r\n", …)`
unfoldable pub length_line : ℕ → ℕ → Bytes
length_line marker n = marker ∷ print_nat n ++ crlf

unfoldable pub logged_args : List Bytes → Bytes
logged_args [] = []
logged_args (arg ∷ args) = length_line b'$' (length arg) ++ (arg ++ (crlf ++ logged_args args))

unfoldable pub log_command : List Bytes → Bytes → Bytes
unfolding logged_args
log_command command file = file ++ (length_line b'*' (length command) ++ logged_args command)

-- `char::is_whitespace` of a character's bytes.
unfoldable pub is_whitespace : Bytes → Bool
is_whitespace (c ∷ []) = (leb 9 c && leb c 13) || c == 32
is_whitespace (b ∷ c ∷ []) = b == 0xC2 && (c == 0x85 || c == 0xA0)
is_whitespace (a ∷ b ∷ c ∷ []) =
    (a == 0xE1 && (b == 0x9A && c == 0x80))
    || ((a == 0xE2
          && ((b == 0x80 && (leb c 0x8A || (c == 0xA8 || (c == 0xA9 || c == 0xAF))))
              || (b == 0x81 && c == 0x9F)))
        || (a == 0xE3 && (b == 0x80 && c == 0x80)))
is_whitespace _ = false

unfoldable pub trim_start : List Bytes → List Bytes
trim_start [] = []
trim_start (c ∷ cs) = let rest = trim_start cs in if is_whitespace c then rest else c ∷ cs

unfoldable pub trim_end : List Bytes → List Bytes
trim_end [] = []
trim_end (c ∷ cs) =
    let rest = trim_end cs in if is_empty rest && is_whitespace c then [] else c ∷ rest

unfoldable pub concat : List Bytes → Bytes
concat [] = []
concat (c ∷ cs) = c ++ concat cs

unfoldable pub trim : Bytes → Bytes
unfolding trim_start trim_end concat
trim s = concat (trim_start (trim_end (chars s)))

-- Up to a line feed, which is taken along, or the end of the file.
unfoldable pub split_line : Bytes → Bytes × Bytes
split_line [] = ([], [])
split_line (c ∷ s) = if c == 10 then (c ∷ [], s) else (c ∷ (split_line s).0, (split_line s).1)

abbrev no_text : AikvError
no_text =
    persistence (with_text "Failed to read line: " (codes "stream did not contain valid UTF-8"))

-- `read_line`, which fails if the line is not UTF-8
unfoldable pub read_line : Effect Bytes Bytes
unfolding split_line
read_line s =
    if bytes_eq (from_utf8_lossy (split_line s).0) (split_line s).0
    then (ok (split_line s).0, (split_line s).1)
    else (err no_text, (split_line s).1)

-- A line with the marker in front of a length.
unfoldable pub marked_length : ℕ → String → String → Bytes → Result ℕ
unfolding trim
marked_length marker expected invalid_length [] = err (persistence (with_text expected []))
marked_length marker expected invalid_length (c ∷ line) =
    if c == marker
    then ok_or (parse_usize (trim line)) (persistence (literal invalid_length))
    else err (persistence (with_text expected (c ∷ line)))

read_exact : ℕ → Effect Bytes Bytes
read_exact len s = if leb len (length s) then (ok (take len s), drop len s) else (
  err (
      persistence (with_text "Failed to read bulk string: " (codes "failed to fill whole buffer"))),
  [],
)

of_utf8 : Bytes → Result Bytes
of_utf8 s =
    if bytes_eq (from_utf8_lossy s) s then ok s else err (persistence (literal "Invalid UTF-8: "))

-- The line behind the bytes of an argument is read and not looked at.
unfoldable pub read_body : ℕ → Effect Bytes (Option Bytes)
unfolding read_line read_exact of_utf8
read_body len = do buf ← read_exact len; read_line; arg ← check (of_utf8 buf); give (some arg)

-- `none` is a panic: `vec![0u8; len]` takes no more than `isize::MAX` bytes.
unfoldable pub read_arg : Effect Bytes (Option Bytes)
unfolding read_line marked_length read_body
read_arg = do
  line ← read_line
  len ← check (
      marked_length b'$' "Invalid AOF format: expected bulk string, got: "
        "Invalid bulk string length: " line)
  (if leb i64_bound len then give none else read_body len)

unfoldable pub with_arg :
    Option Bytes → Effect Bytes (Option (List Bytes)) → Effect Bytes (Option (List Bytes))
with_arg none rest = give none
with_arg (some arg) rest = do args ← rest; give (Option.map (λ l. arg ∷ l) args)

unfoldable pub read_args : ℕ → Effect Bytes (Option (List Bytes))
unfolding read_arg with_arg
read_args zero = give (some [])
read_args (suc count) = do arg ← read_arg; with_arg arg (read_args count)

-- What the next read comes to: the end of the file, a panic, or a command.
pub data Reading : Type 0 where
  finished panicked : Reading
  command : List Bytes → Reading

unfoldable pub read_counted : ℕ → Effect Bytes Reading
unfolding read_args
read_counted count = do
  args ← read_args count
  give (elim args [ none ↦ panicked | some l ↦ command l ])

-- At the end of the file there is no command. `Vec::with_capacity(count)` panics if so many strings, of
-- 24 bytes each, take more than `isize::MAX` bytes.
unfoldable pub read_command : Effect Bytes Reading
unfolding read_line marked_length read_counted
read_command [] = (ok finished, [])
read_command (c ∷ s) =
    (do
      line ← read_line
      count ← check (
          marked_length b'*' "Invalid AOF format: expected array, got: " "Invalid array length: "
            line)
      (if leb i64_bound (24 * count) then give panicked else read_counted count))
      (c ∷ s)

unfoldable pub behind :
    Reading → Effect Bytes (Option (List (List Bytes))) → Effect Bytes (Option (List (List Bytes)))
behind finished rest = give (some [])
behind panicked rest = give none
behind (command args) rest = do commands ← rest; give (Option.map (λ l. args ∷ l) commands)

-- Each command takes a byte at least. `none` is a panic.
unfoldable pub load_from : ℕ → Effect Bytes (Option (List (List Bytes)))
unfolding read_command behind
load_from zero = give (some [])
load_from (suc fuel) = let rest = load_from fuel in do next ← read_command; behind next rest

unfoldable pub load_all : Bytes → Result (Option (List (List Bytes)))
load_all file = (load_from (length file + 1) file).0
