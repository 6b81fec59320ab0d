-- ===== src/Resp/Parser/Stalls.antt =====
-- src/protocol/parser.rs: what `parse` does with a byte that begins no value.
use ai_kv.Base.{ℕ, ◌≡◌, Bool, false, ◌||◌, none, ◌∷◌, arith, ◌==◌}
use ai_kv.Text.{Bytes}
use ai_kv.Error.{ok}
use ai_kv.Resp.Serialize.{Floats}
use ai_kv.Resp.Parser.{feed, parse, parse_value, parse_marked}

abbrev pub is_marker : ℕ → Bool
is_marker c =
    c == b'+'
    || c == b'-'
    || c == b':'
    || c == b'$'
    || c == b'*'
    || c == b'_'
    || c == b'#'
    || c == b','
    || c == b'('
    || c == b'!'
    || c == b'='
    || c == b'%'
    || c == b'~'
    || c == b'>'
    || c == b'|'
    || c == b';'

-- A buffer that begins with a byte that is no marker is taken for an incomplete value: `parse` returns
-- none and leaves the buffer, so that no data that follows can ever make it succeed or fail.
pub parse_stalls :
    (floats : Floats) (c : ℕ) (s more : Bytes)
    → is_marker c ≡ false
    → (parse floats (c ∷ s) ≡ (ok none, c ∷ s))
      × (parse floats (feed more (c ∷ s)) ≡ (ok none, feed more (c ∷ s)))
unfolding parse parse_value parse_marked feed
parse_stalls floats c s more h = (ground arith, ground arith)
