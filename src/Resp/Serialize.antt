-- ===== src/Resp/Serialize.antt =====
-- src/protocol/types.rs: `RespValue::serialize`. A value becomes its bytes on the wire.
use ai_kv.Base.{
  ℕ, suc, ◌*◌, ◌^◌, Option, none, some, List, [], ◌∷◌, ◌++◌, length, ◌==◌, if◌then◌else◌,
}
use ai_kv.Text.{Bytes}
use ai_kv.Text.Number.{print_nat, print_i64}
use ai_kv.Resp.{
  RespValue, RespList, RespPairs, simple_string, error, integer, bulk_string, array, null_array,
  null, boolean, double, big_number, bulk_error, verbatim_string, map, set, push, attribute,
  streamed_string, nil, cons, no_pairs, pair,
}

-- How Rust prints a finite `f64`, and how it reads one.
pub record Floats : Type 0 where
  pub print : ℕ → Bytes
  pub parse : Bytes → Option ℕ

-- The bit patterns of the infinities
abbrev pub infinity : ℕ
infinity = 2047 * 2 ^ 52

abbrev pub negative_infinity : ℕ
negative_infinity = 4095 * 2 ^ 52

abbrev pub inf_text : Bytes
inf_text = b'i' ∷ b'n' ∷ b'f' ∷ []

abbrev pub negative_inf_text : Bytes
negative_inf_text = b'-' ∷ inf_text

abbrev pub crlf : Bytes
crlf = 13 ∷ 10 ∷ []

unfoldable pub double_text : Floats → ℕ → Bytes
double_text floats d =
    if d == infinity
    then inf_text
    else if d == negative_infinity
    then negative_inf_text
    else floats.print d

-- A marker, a text and the end of the line.
abbrev pub line : ℕ → Bytes → Bytes
line marker text = marker ∷ (text ++ crlf)

-- A marker with a length, and as many bytes with an end of line behind them.
abbrev pub block : ℕ → Bytes → Bytes
block marker body = line marker (print_nat (length body)) ++ (body ++ crlf)

abbrev pub item_count : RespList → ℕ
item_count nil = 0
item_count (cons v vs) = suc (item_count vs)

abbrev pub pair_count : RespPairs → ℕ
pair_count no_pairs = 0
pair_count (pair k v ps) = suc (pair_count ps)

unfoldable pub serialize_chunks : List Bytes → Bytes
serialize_chunks [] = line b';' (b'0' ∷ [])
serialize_chunks (chunk ∷ chunks) = block b';' chunk ++ serialize_chunks chunks

unfoldable mutual
  unfolding double_text serialize_chunks

  pub serialize : Floats → RespValue → Bytes
  serialize floats (simple_string s) = line b'+' s
  serialize floats (error e) = line b'-' e
  serialize floats (integer i) = line b':' (print_i64 i)
  serialize floats (bulk_string none) = line b'$' (b'-' ∷ b'1' ∷ [])
  serialize floats (bulk_string (some s)) = block b'$' s
  serialize floats null_array = line b'*' (b'-' ∷ b'1' ∷ [])
  serialize floats (array vs) = line b'*' (print_nat (item_count vs)) ++ serialize_items floats vs
  serialize floats null = line b'_' []
  serialize floats (boolean b) = line b'#' ((if b then b't' else b'f') ∷ [])
  serialize floats (double d) = line b',' (double_text floats d)
  serialize floats (big_number s) = line b'(' s
  serialize floats (bulk_error e) = block b'!' e
  serialize floats (verbatim_string format body) = block b'=' (format ++ (b':' ∷ body))
  serialize floats (map ps) = line b'%' (print_nat (pair_count ps)) ++ serialize_pairs floats ps
  serialize floats (set vs) = line b'~' (print_nat (item_count vs)) ++ serialize_items floats vs
  serialize floats (push vs) = line b'>' (print_nat (item_count vs)) ++ serialize_items floats vs
  serialize floats (attribute ps v) =
      line b'|' (print_nat (pair_count ps)) ++ (serialize_pairs floats ps ++ serialize floats v)
  serialize floats (streamed_string chunks) = line b'$' (b'?' ∷ []) ++ serialize_chunks chunks

  pub serialize_items : Floats → RespList → Bytes
  serialize_items floats nil = []
  serialize_items floats (cons v vs) = serialize floats v ++ serialize_items floats vs

  pub serialize_pairs : Floats → RespPairs → Bytes
  serialize_pairs floats no_pairs = []
  serialize_pairs floats (pair k v ps) =
      serialize floats k ++ (serialize floats v ++ serialize_pairs floats ps)
