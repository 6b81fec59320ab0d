-- ===== src/Resp/Parser/RoundTrip.antt =====
-- `parse` behind `serialize`: every value that the wire can carry is read back.
use ai_kv.Base.{
  ℕ, zero, suc, ◌<◌, ◌≤◌, ◌≡◌, refl, true, false, none, some, [], ◌∷◌, ◌++◌, length, arith,
  append_assoc, length-append,
}
use ai_kv.Text.{Bytes}
use ai_kv.Text.Number.{print_i64}
use ai_kv.Text.Number.RoundTrip.{parse_i64-print_i64}
use ai_kv.Error.{ok}
use ai_kv.Resp.{
  RespValue, RespList, RespPairs, simple_string, error, integer, bulk_string, array, null_array,
  null, boolean, double, big_number, bulk_error, verbatim_string, map, set, push, attribute,
  streamed_string, nil, cons, no_pairs, pair,
}
use ai_kv.Resp.Serialize.{
  Floats, double_text, item_count, pair_count, serialize, serialize_items, serialize_pairs,
}
use ai_kv.Resp.Parser.{parse_items, parse_pairs, parse_marked, parse_value, parse}
use ai_kv.Resp.Parser.Lines.{read_line_lem, print_i64-IsText, parse_block_lem}
use ai_kv.Resp.Parser.Sendable.{
  IsSendable, AllSendable, PairsSendable, depth, depth_items, depth_pairs,
}
use ai_kv.Resp.Parser.Parts.{
  bulk_lem, array_lem, verbatim_of_lem, null_bulk_lem, null_array_lem, null_value, boolean_value,
  items_lem, pairs_lem, attribute_lem,
}
use ai_kv.Resp.Parser.Streams.{streamed_lem}
use ai_kv.Resp.Parser.Depth.{depth-positive, depth-serialize}

mutual
  unfolding parse_value parse_marked serialize IsSendable depth parse_items parse_pairs

  value_lem :
      (floats : Floats) (v : RespValue) (fuel : ℕ) (rest : Bytes)
      → IsSendable floats v
      → depth v ≤ fuel
      → parse_value floats fuel (serialize floats v ++ rest) ≡ (ok v, rest)
  value_lem floats v zero rest h d = absurd (omega (arith, depth-positive v))
  value_lem floats (simple_string s) (suc fuel) rest h d = rw (read_line_lem s rest h) refl
  value_lem floats (error s) (suc fuel) rest h d = rw (read_line_lem s rest h) refl
  value_lem floats (integer z) (suc fuel) rest h d =
      rw (read_line_lem (print_i64 z) rest (print_i64-IsText z), parse_i64-print_i64 z h) refl
  value_lem floats (bulk_string none) (suc fuel) rest h d = null_bulk_lem rest
  value_lem floats (bulk_string (some b)) (suc fuel) rest h d = bulk_lem floats fuel rest b h
  value_lem floats (array vs) (suc fuel) rest h d =
      array_lem floats fuel rest (parse_value floats fuel) vs (serialize_items floats vs) h.0
        (all_lem floats vs fuel rest h.1 (omega arith))
  value_lem floats null_array (suc fuel) rest h d = null_array_lem (parse_value floats fuel) rest
  value_lem floats null (suc fuel) rest h d = null_value floats fuel rest
  value_lem floats (boolean true) (suc fuel) rest h d = boolean_value floats fuel rest true
  value_lem floats (boolean false) (suc fuel) rest h d = boolean_value floats fuel rest false
  value_lem floats (double x) (suc fuel) rest h d =
      rw (read_line_lem (double_text floats x) rest h.0, h.1) refl
  value_lem floats (big_number s) (suc fuel) rest h d = rw (read_line_lem s rest h) refl
  value_lem floats (bulk_error e) (suc fuel) rest h d =
      rw (parse_block_lem "Invalid bulk error length: " "Incomplete bulk error" e rest h.0, h.1)
        refl
  value_lem floats (verbatim_string format body) (suc fuel) rest h d =
      rw
        (
          parse_block_lem "Invalid verbatim string length: " "Incomplete verbatim string"
              (format ++ (b':' ∷ body)) rest h.0,
          verbatim_of_lem format body h.1 h.2,
        )
        refl
  value_lem floats (map ps) (suc fuel) rest h d =
      pairs_lem (parse_value floats fuel) (serialize_pairs floats ps) rest "Invalid map length: " ps
        map h.0 (each_lem floats ps fuel rest h.1 (omega arith))
  value_lem floats (set vs) (suc fuel) rest h d =
      items_lem (parse_value floats fuel) (serialize_items floats vs) rest "Invalid set length: " vs
        set h.0 (all_lem floats vs fuel rest h.1 (omega arith))
  value_lem floats (push vs) (suc fuel) rest h d =
      items_lem (parse_value floats fuel) (serialize_items floats vs) rest "Invalid push length: "
        vs push h.0 (all_lem floats vs fuel rest h.1 (omega arith))
  value_lem floats (attribute ps v) (suc fuel) rest h d =
      attribute_lem (parse_value floats fuel) ps v (serialize_pairs floats ps) (serialize floats v)
        rest h.0 (each_lem floats ps fuel (serialize floats v ++ rest) h.1 (omega arith))
        (value_lem floats v fuel rest h.2 (omega arith))
  value_lem floats (streamed_string chunks) (suc fuel) rest h d = streamed_lem chunks rest h

  all_lem :
      (floats : Floats) (vs : RespList) (fuel : ℕ) (rest : Bytes)
      → AllSendable floats vs
      → depth_items vs ≤ fuel
      → parse_items (parse_value floats fuel) (item_count vs) (serialize_items floats vs ++ rest)
        ≡ (ok vs, rest)
  all_lem floats nil fuel rest h d = refl
  all_lem floats (cons v vs) fuel rest h d =
      rw
        (
          append_assoc (serialize floats v) (serialize_items floats vs) rest,
          value_lem floats v fuel (serialize_items floats vs ++ rest) h.0 (omega arith),
          all_lem floats vs fuel rest h.1 (omega arith),
        )
        refl

  each_lem :
      (floats : Floats) (ps : RespPairs) (fuel : ℕ) (rest : Bytes)
      → PairsSendable floats ps
      → depth_pairs ps ≤ fuel
      → parse_pairs (parse_value floats fuel) (pair_count ps) (serialize_pairs floats ps ++ rest)
        ≡ (ok ps, rest)
  each_lem floats no_pairs fuel rest h d = refl
  each_lem floats (pair k v ps) fuel rest h d =
      rw
        (
          append_assoc (serialize floats k) (serialize floats v ++ serialize_pairs floats ps) rest,
          append_assoc (serialize floats v) (serialize_pairs floats ps) rest,
          value_lem floats k fuel (serialize floats v ++ (serialize_pairs floats ps ++ rest)) h.0
              (omega arith),
          value_lem floats v fuel (serialize_pairs floats ps ++ rest) h.1 (omega arith),
          each_lem floats ps fuel rest h.2 (omega arith),
        )
        refl

-- What `serialize` writes for a value that the wire can carry, whatever follows it in the buffer, `parse`
-- reads back as that value, whatever it holds and however deep it is nested, and exactly its bytes leave
-- the buffer.
pub parse-serialize :
    (floats : Floats) (v : RespValue) (rest : Bytes)
    → IsSendable floats v
    → parse floats (serialize floats v ++ rest) ≡ (ok (some v), rest)
parse-serialize floats v rest h =
    nonempty (serialize floats v ++ rest)
      (omega (
        arith,
        depth-positive v,
        depth-serialize floats v,
        length-append (serialize floats v) rest,
      ))
      (value_lem floats v (suc (length (serialize floats v ++ rest))) rest h
        (omega (arith, depth-serialize floats v, length-append (serialize floats v) rest)))
  where
    nonempty :
        (buffer : Bytes)
        → 0 < length buffer
        → parse_value floats (suc (length buffer)) buffer ≡ (ok v, rest)
        → parse floats buffer ≡ (ok (some v), rest)
    nonempty [] lt e = elim lt [ ]
    nonempty (c ∷ s) lt e = unfold parse in rw e refl
