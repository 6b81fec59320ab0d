-- ===== src/Persistence/Aof/Lines.antt =====
-- src/persistence/aof.rs: reading back a line with a length.
use ai_kv.Base.{
  ℕ, ◌<◌, ◌≡◌, refl, ap, true, false, List, [], ◌∷◌, ◌++◌, ◌==◌, arith, u64_mod, String,
}
use ai_kv.Text.{Bytes, bytes_eq, bytes_eq_iff}
use ai_kv.Text.Utf8.{from_utf8_lossy_ascii, IsAscii}
use ai_kv.Text.Number.{print_nat}
use ai_kv.Text.Number.Digits.{AllDigits, print_nat-AllDigits}
use ai_kv.Text.Number.RoundTrip.{parse_unsigned-print_nat}
use ai_kv.Error.{ok}
use ai_kv.Glob.{chars}
use ai_kv.Persistence.Aof.{
  crlf, length_line, is_whitespace, trim_start, trim_end, concat, trim, split_line, read_line,
  marked_length,
}

abbrev singles : Bytes → List Bytes
singles [] = []
singles (c ∷ s) = (c ∷ []) ∷ singles s

chars-line : (d : Bytes) → AllDigits d → chars (d ++ crlf) ≡ singles (d ++ crlf)
unfolding chars
chars-line [] h = refl
chars-line (c ∷ []) h = refl
chars-line (c ∷ e ∷ d) (_, _, h) = let rest = chars-line (e ∷ d) h in ground arith

trim_end-line : (d : Bytes) → AllDigits d → trim_end (singles (d ++ crlf)) ≡ singles d
unfolding trim_end is_whitespace
trim_end-line [] h = refl
trim_end-line (c ∷ d) (low, high, h) = let rest = trim_end-line d h in ground arith

trim_start-digits : (d : Bytes) → AllDigits d → trim_start (singles d) ≡ singles d
unfolding trim_start is_whitespace
trim_start-digits [] h = refl
trim_start-digits (c ∷ d) (low, high, h) = ground arith

concat-singles : (d : Bytes) → concat (singles d) ≡ d
unfolding concat
concat-singles [] = refl
concat-singles (c ∷ d) = ap (λ s. c ∷ s) (concat-singles d)

trim-line : (d : Bytes) → AllDigits d → trim (d ++ crlf) ≡ d
unfolding trim
trim-line d h = rw (chars-line d h, trim_end-line d h, trim_start-digits d h) (concat-singles d)

split_line-digits :
    (d rest : Bytes) → AllDigits d → split_line ((d ++ crlf) ++ rest) ≡ (d ++ crlf, rest)
unfolding split_line
split_line-digits [] rest h = refl
split_line-digits (c ∷ d) rest (low, high, h) =
    let e : (c == 10) ≡ false = ground arith in rw (e, split_line-digits d rest h) refl

IsAscii-line : (d : Bytes) → AllDigits d → IsAscii (d ++ crlf)
IsAscii-line [] h = (omega arith, (omega arith, tt))
IsAscii-line (c ∷ d) (low, high, h) = (omega arith, IsAscii-line d h)

pub bytes_eq_self : (s : Bytes) → bytes_eq s s ≡ true
bytes_eq_self s = (bytes_eq_iff s s).1 refl

-- A marker is an ASCII character and no line feed.
module _ (marker n : ℕ) (low : 10 < marker) (high : marker < 0x80) where
  pub read_line-length_line :
      (rest : Bytes) → read_line (length_line marker n ++ rest) ≡ (ok (length_line marker n), rest)
  unfolding read_line length_line split_line
  read_line-length_line rest =
      let d = print_nat n in
      let h = print_nat-AllDigits n in
      let e : (marker == 10) ≡ false = ground arith in
      let same = from_utf8_lossy_ascii (marker ∷ (d ++ crlf)) (high, IsAscii-line d h) in
      rw (e, split_line-digits d rest h, same, bytes_eq_self (marker ∷ (d ++ crlf))) refl

  pub marked_length-length_line :
      (expected invalid_length : String)
      → n < u64_mod
      → marked_length marker expected invalid_length (length_line marker n) ≡ ok n
  unfolding marked_length length_line
  marked_length-length_line expected invalid_length fits =
      let same : (marker == marker) ≡ true = ground arith in
      rw (same, trim-line (print_nat n) (print_nat-AllDigits n), parse_unsigned-print_nat n fits)
        refl
