-- ===== src/Resp/Parser/Streams.antt =====
-- src/protocol/parser.rs: streamed strings.
use ai_kv.Base.{
  ℕ, zero, suc, ◌<◌, ◌≤◌, ◌≡◌, refl, ap, ◌∙◌, false, some, List, [], ◌∷◌, ◌++◌, length, arith, ◌==◌,
  append_assoc, length-append, i64_bound,
}
use ai_kv.Text.{Bytes, bytes_eq}
use ai_kv.Text.Utf8.{from_utf8_lossy}
use ai_kv.Text.Number.{print_nat, parse_usize, parse_unsigned}
use ai_kv.Text.Number.RoundTrip.{parse_unsigned-print_nat}
use ai_kv.Error.{ok}
use ai_kv.Effect.{give, ◌>>=◌}
use ai_kv.Resp.{streamed_string}
use ai_kv.Resp.Serialize.{crlf, serialize_chunks}
use ai_kv.Resp.Parser.{parse_bulk_string, parse_chunks, read_line, split_line}
use ai_kv.Resp.Parser.Lines.{read_line_lem, read_data_lem, print_nat-IsText}
use ai_kv.Resp.Parser.Sendable.{AllChunks}

parse_usize-print_nat : (n : ℕ) → n < i64_bound → parse_usize (print_nat n) ≡ some n
parse_usize-print_nat n h = parse_unsigned-print_nat n (omega arith)

chunks_last :
    (fuel : ℕ) (rest : Bytes)
    → parse_chunks (suc fuel) (serialize_chunks [] ++ rest) ≡ (ok [], rest)
unfolding parse_chunks serialize_chunks read_line split_line from_utf8_lossy parse_unsigned
chunks_last fuel rest = refl

length-nonzero : (c : Bytes) → 0 < length c → (length c == 0) ≡ false
length-nonzero c h = ground arith

chunks_step :
    (fuel : ℕ) (c t : Bytes)
    → 0 < length c
    → length c < i64_bound
    → parse_chunks (suc fuel) (b';' ∷ ((print_nat (length c) ++ crlf) ++ ((c ++ crlf) ++ t)))
      ≡ (do chunks ← parse_chunks fuel; give (c ∷ chunks)) t
unfolding parse_chunks
chunks_step fuel c t positive h =
    rw
      (
        read_line_lem (print_nat (length c)) ((c ++ crlf) ++ t) (print_nat-IsText (length c)),
        parse_usize-print_nat (length c) h,
        length-nonzero c positive,
        read_data_lem "Incomplete streamed chunk" c t,
      )
      refl

chunks_lem :
    (chunks : List Bytes) (fuel : ℕ) (rest : Bytes)
    → AllChunks chunks
    → length chunks < fuel
    → parse_chunks fuel (serialize_chunks chunks ++ rest) ≡ (ok chunks, rest)
chunks_lem chunks zero rest h d = elim d [ ]
chunks_lem [] (suc fuel) rest h d = chunks_last fuel rest
chunks_lem (c ∷ cs) (suc fuel) rest h d =
    ap (parse_chunks (suc fuel)) (apart c cs rest)
    ∙ chunks_step fuel c (serialize_chunks cs ++ rest) h.0 h.1
    ∙ rw (chunks_lem cs fuel rest h.2 (omega arith)) refl
  where
    apart :
        (c : Bytes) (cs : List Bytes) (rest : Bytes)
        → serialize_chunks (c ∷ cs) ++ rest
          ≡ b';'
            ∷ ((print_nat (length c) ++ crlf) ++ ((c ++ crlf) ++ (serialize_chunks cs ++ rest)))
    apart c cs rest =
        unfold serialize_chunks in
        ap (λ t. b';' ∷ t)
          (append_assoc ((print_nat (length c) ++ crlf) ++ (c ++ crlf)) (serialize_chunks cs) rest
            ∙ append_assoc (print_nat (length c) ++ crlf) (c ++ crlf) (serialize_chunks cs ++ rest))

length-serialize_chunks : (chunks : List Bytes) → length chunks ≤ length (serialize_chunks chunks)
unfolding serialize_chunks
length-serialize_chunks [] = omega arith
length-serialize_chunks (c ∷ cs) = omega (
  arith,
  length-serialize_chunks cs,
  length-append ((print_nat (length c) ++ crlf) ++ (c ++ crlf)) (serialize_chunks cs),
)

pub streamed_lem :
    (chunks : List Bytes) (rest : Bytes)
    → AllChunks chunks
    → parse_bulk_string (((b'?' ∷ []) ++ crlf) ++ (serialize_chunks chunks ++ rest))
      ≡ (ok (streamed_string chunks), rest)
unfolding parse_bulk_string read_line split_line bytes_eq from_utf8_lossy
streamed_lem chunks rest h =
    rw
      (chunks_lem chunks (suc (length (serialize_chunks chunks ++ rest))) rest h (
        omega
          (arith, length-serialize_chunks chunks, length-append (serialize_chunks chunks) rest)))
      refl
