-- ===== src/Resp/Parser/Depth.antt =====
-- protocol: a value is nested no deeper than its bytes are many.
use ai_kv.Base.{◌<◌, ◌≤◌, none, some, ◌++◌, length, arith, length-append}
use ai_kv.Text.Number.{print_nat}
use ai_kv.Resp.{
  RespValue, RespList, RespPairs, simple_string, error, integer, bulk_string, array, null_array,
  null, boolean, double, big_number, bulk_error, verbatim_string, map, set, push, attribute,
  streamed_string, nil, cons, no_pairs, pair,
}
use ai_kv.Resp.Serialize.{
  Floats, crlf, item_count, pair_count, serialize, serialize_items, serialize_pairs,
}
use ai_kv.Resp.Parser.Sendable.{depth, depth_items, depth_pairs}

pub depth-positive : (v : RespValue) → 0 < depth v
unfolding depth
depth-positive (simple_string s) = omega arith
depth-positive (error e) = omega arith
depth-positive (integer i) = omega arith
depth-positive (bulk_string o) = omega arith
depth-positive (array vs) = omega arith
depth-positive null_array = omega arith
depth-positive null = omega arith
depth-positive (boolean b) = omega arith
depth-positive (double d) = omega arith
depth-positive (big_number s) = omega arith
depth-positive (bulk_error e) = omega arith
depth-positive (verbatim_string format body) = omega arith
depth-positive (map ps) = omega arith
depth-positive (set vs) = omega arith
depth-positive (push vs) = omega arith
depth-positive (attribute ps v) = omega arith
depth-positive (streamed_string chunks) = omega arith

mutual
  unfolding serialize depth

  pub depth-serialize : (floats : Floats) (v : RespValue) → depth v ≤ length (serialize floats v)
  depth-serialize floats (simple_string s) = omega arith
  depth-serialize floats (error e) = omega arith
  depth-serialize floats (integer i) = omega arith
  depth-serialize floats (bulk_string none) = omega arith
  depth-serialize floats (bulk_string (some b)) = omega arith
  depth-serialize floats (array vs) = omega (
    arith,
    depth-serialize_items floats vs,
    length-append (print_nat (item_count vs) ++ crlf) (serialize_items floats vs),
  )
  depth-serialize floats null_array = omega arith
  depth-serialize floats null = omega arith
  depth-serialize floats (boolean b) = omega arith
  depth-serialize floats (double d) = omega arith
  depth-serialize floats (big_number s) = omega arith
  depth-serialize floats (bulk_error e) = omega arith
  depth-serialize floats (verbatim_string format body) = omega arith
  depth-serialize floats (map ps) = omega (
    arith,
    depth-serialize_pairs floats ps,
    length-append (print_nat (pair_count ps) ++ crlf) (serialize_pairs floats ps),
  )
  depth-serialize floats (set vs) = omega (
    arith,
    depth-serialize_items floats vs,
    length-append (print_nat (item_count vs) ++ crlf) (serialize_items floats vs),
  )
  depth-serialize floats (push vs) = omega (
    arith,
    depth-serialize_items floats vs,
    length-append (print_nat (item_count vs) ++ crlf) (serialize_items floats vs),
  )
  depth-serialize floats (attribute ps v) = omega (
    arith,
    depth-serialize_pairs floats ps,
    depth-serialize floats v,
    length-append (print_nat (pair_count ps) ++ crlf)
        (serialize_pairs floats ps ++ serialize floats v),
    length-append (serialize_pairs floats ps) (serialize floats v),
  )
  depth-serialize floats (streamed_string chunks) = omega arith

  depth-serialize_items :
      (floats : Floats) (vs : RespList) → depth_items vs ≤ length (serialize_items floats vs)
  depth-serialize_items floats nil = omega arith
  depth-serialize_items floats (cons v vs) = omega (
    arith,
    depth-serialize floats v,
    depth-serialize_items floats vs,
    length-append (serialize floats v) (serialize_items floats vs),
  )

  depth-serialize_pairs :
      (floats : Floats) (ps : RespPairs) → depth_pairs ps ≤ length (serialize_pairs floats ps)
  depth-serialize_pairs floats no_pairs = omega arith
  depth-serialize_pairs floats (pair k v ps) = omega (
    arith,
    depth-serialize floats k,
    depth-serialize floats v,
    depth-serialize_pairs floats ps,
    length-append (serialize floats k) (serialize floats v ++ serialize_pairs floats ps),
    length-append (serialize floats v) (serialize_pairs floats ps),
  )
