-- ===== src/Tests/ProtocolRuns.antt =====
-- The protocol's theorems on small values.
use ai_kv.Base.{◌≡◌, refl, arith, none, some, [], ◌∷◌, ◌++◌, negsuc, ◌^◌}
use ai_kv.Text.{bytes_eq}
use ai_kv.Text.Utf8.{from_utf8_lossy}
use ai_kv.Text.Number.{print_nat, parse_unsigned}
use ai_kv.Error.{ok}
use ai_kv.Resp.{
  RespValue, simple_string, integer, bulk_string, array, double, map, streamed_string, nil, cons,
  no_pairs, pair,
}
use ai_kv.Resp.Serialize.{Floats, double_text, serialize}
use ai_kv.Resp.Parser.{parse, double_of, feed}
use ai_kv.Resp.Parser.Sendable.{IsSendable}
use ai_kv.Resp.Parser.RoundTrip.{parse-serialize}
use ai_kv.Resp.Parser.Stalls.{parse_stalls}
use ai_kv.Tests.{elem_x, two}

-- Doubles that are printed and read as their bit patterns
abbrev patterns : Floats
patterns = record { print = print_nat; parse = parse_unsigned (2 ^ 64) }

abbrev reply : RespValue
reply = array (
    cons (bulk_string (some two)) (
      cons (integer (negsuc 2)) (
        cons (map (pair (simple_string elem_x) (double 5) no_pairs))
          (cons (streamed_string (two ∷ [])) nil))))

reply-IsSendable : IsSendable patterns reply
unfolding IsSendable double_text double_of bytes_eq from_utf8_lossy print_nat parse_unsigned
reply-IsSendable = (
  omega arith,
  (
    omega arith,
    (
      (omega arith, omega arith),
      (
        (omega arith, ((((refl, tt), refl), (((refl, tt), refl), refl), tt))),
        ((omega arith, omega arith, tt), tt),
      ),
    ),
  ),
)

parse-serialize_example :
    parse patterns (serialize patterns reply ++ elem_x) ≡ (ok (some reply), elem_x)
parse-serialize_example = parse-serialize patterns reply elem_x reply-IsSendable

parse_stalls_example :
    (parse patterns (b'G' ∷ elem_x) ≡ (ok none, b'G' ∷ elem_x))
    × (parse patterns (feed two (b'G' ∷ elem_x)) ≡ (ok none, feed two (b'G' ∷ elem_x)))
parse_stalls_example = parse_stalls patterns b'G' elem_x two refl
