-- ===== src/Resp/Parser/Lines.antt =====
-- src/protocol/parser.rs: `read_line` and the reading of data, behind what `serialize` writes.
use ai_kv.Base.{
  ℕ, suc, ◌+◌, ◌<◌, ◌≡◌, refl, sym, ap, ◌∙◌, false, some, [], ◌∷◌, ◌++◌, length, take, drop, arith,
  ◌==◌, ℤ, pos, String, append_assoc, length-append, i64_bound,
}
use mathlib.Core.Path.{subst}
use ai_kv.Text.{Bytes}
use ai_kv.Text.Utf8.{from_utf8_lossy, from_utf8_lossy_ascii, IsPlain}
use ai_kv.Text.Number.{print_nat, print_i64, parse_i64}
use ai_kv.Text.Number.RoundTrip.{parse_i64-print_i64, print_i64-IsAscii, print_i64-IsPlain}
use ai_kv.Error.{ok}
use ai_kv.Resp.Serialize.{crlf}
use ai_kv.Resp.Parser.{
  split_line, read_line, read_data, length_arg, optional_length, read_length, parse_block,
}

-- A text that a line can hold: no carriage return, and valid UTF-8.
abbrev pub IsText : Bytes → Type 0
IsText s = IsPlain s × (from_utf8_lossy s ≡ s)

split_line-cons :
    (c : ℕ) (s text rest : Bytes)
    → (c == 13) ≡ false
    → split_line s ≡ some (text, rest)
    → split_line (c ∷ s) ≡ some (c ∷ text, rest)
unfolding split_line
split_line-cons c [] text rest h e = cc
split_line-cons c (d ∷ s) text rest h e = ground arith

split_line_lem :
    (text rest : Bytes) → IsPlain text → split_line (text ++ 13 ∷ 10 ∷ rest) ≡ some (text, rest)
split_line_lem [] rest h = unfold split_line in refl
split_line_lem (c ∷ text) rest h =
    split_line-cons c (text ++ 13 ∷ 10 ∷ rest) text rest h.0 (split_line_lem text rest h.1)

read_line_split :
    (s text rest : Bytes)
    → split_line s ≡ some (text, rest)
    → read_line s ≡ (ok (from_utf8_lossy text), rest)
unfolding read_line
read_line_split s text rest e = ground arith

pub read_line_lem :
    (text rest : Bytes) → IsText text → read_line ((text ++ crlf) ++ rest) ≡ (ok text, rest)
read_line_lem text rest h =
    ap read_line (append_assoc text crlf rest)
    ∙ read_line_split (text ++ 13 ∷ 10 ∷ rest) text rest (split_line_lem text rest h.0)
    ∙ λ i. (ok (h.1 i), rest)

take_front : (b s : Bytes) → take (length b) (b ++ s) ≡ b
take_front [] s = refl
take_front (c ∷ b) s = ap (λ t. c ∷ t) (take_front b s)

drop_front : (b : Bytes) (x y : ℕ) (s : Bytes) → drop (length b + 2) (b ++ x ∷ y ∷ s) ≡ s
drop_front [] x y s = refl
drop_front (c ∷ b) x y s =
    ap (λ n. drop n (c ∷ (b ++ x ∷ y ∷ s))) {x = suc (length b) + 2} {y = suc (length b + 2)}
      (omega arith)
    ∙ drop_front b x y s

pub read_data_lem :
    (message : String) (b rest : Bytes)
    → read_data message (length b) ((b ++ crlf) ++ rest) ≡ (ok b, rest)
unfolding read_data
read_data_lem message b rest =
    rw (append_assoc b crlf rest, take_front b (13 ∷ 10 ∷ rest), drop_front b 13 10 rest)
      (ground (arith, length-append b (13 ∷ 10 ∷ rest)))

-- A printed number is a text.
pub print_i64-IsText : (z : ℤ) → IsText (print_i64 z)
print_i64-IsText z =
    (print_i64-IsPlain z, from_utf8_lossy_ascii (print_i64 z) (print_i64-IsAscii z))

print_nat-pos : (n : ℕ) → print_nat n ≡ print_i64 (pos n)
unfolding print_i64
print_nat-pos n = refl

pub print_nat-IsText : (n : ℕ) → IsText (print_nat n)
print_nat-IsText n = subst IsText (sym (print_nat-pos n)) (print_i64-IsText (pos n))

pub parse_i64-print_nat : (n : ℕ) → n < i64_bound → parse_i64 (print_nat n) ≡ some (pos n)
parse_i64-print_nat n h =
    ap parse_i64 (print_nat-pos n) ∙ parse_i64-print_i64 (pos n) (h, omega arith)

length_arg_lem :
    (message : String) (n : ℕ) → n < i64_bound → length_arg message (print_nat n) ≡ ok n
unfolding length_arg
length_arg_lem message n h = ground (arith, parse_i64-print_nat n h)

pub optional_length_lem :
    (message : String) (n : ℕ) → n < i64_bound → optional_length message (print_nat n) ≡ ok (some n)
unfolding optional_length
optional_length_lem message n h = ground (arith, parse_i64-print_nat n h)

-- A length line is read as the length.
pub read_length_lem :
    (message : String) (n : ℕ) (rest : Bytes)
    → n < i64_bound
    → read_length message ((print_nat n ++ crlf) ++ rest) ≡ (ok n, rest)
unfolding read_length
read_length_lem message n rest h =
    rw (read_line_lem (print_nat n) rest (print_nat-IsText n), length_arg_lem message n h) refl

pub parse_block_lem :
    (invalid incomplete : String) (b rest : Bytes)
    → length b < i64_bound
    → parse_block invalid incomplete (((print_nat (length b) ++ crlf) ++ (b ++ crlf)) ++ rest)
      ≡ (ok b, rest)
unfolding parse_block
parse_block_lem invalid incomplete b rest h =
    rw
      (
        append_assoc (print_nat (length b) ++ crlf) (b ++ crlf) rest,
        read_length_lem invalid (length b) ((b ++ crlf) ++ rest) h,
        read_data_lem incomplete b rest,
      )
      refl
