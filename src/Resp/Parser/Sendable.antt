-- ===== src/Resp/Parser/Sendable.antt =====
-- protocol: the values that the wire can carry, and how deep a value is nested.
use ai_kv.Base.{
  ℕ, ◌+◌, ◌<◌, max, ◌≡◌, false, none, some, List, [], ◌∷◌, ◌++◌, length, ◌==◌, i64_bound,
}
use ai_kv.Text.{Bytes}
use ai_kv.Text.Utf8.{from_utf8_lossy}
use ai_kv.Text.Number.RoundTrip.{IsI64}
use ai_kv.Error.{ok}
use ai_kv.Resp.{
  RespValue, RespList, RespPairs, simple_string, error, integer, bulk_string, array, null_array,
  null, boolean, double, big_number, bulk_error, verbatim_string, map, set, push, attribute,
  streamed_string, nil, cons, no_pairs, pair,
}
use ai_kv.Resp.Serialize.{Floats, double_text, item_count, pair_count}
use ai_kv.Resp.Parser.{double_of}
use ai_kv.Resp.Parser.Lines.{IsText}

abbrev pub HasNoColon : Bytes → Type 0
HasNoColon [] = Unit
HasNoColon (c ∷ s) = ((c == b':') ≡ false) × HasNoColon s

-- The chunks of a streamed string: none of them empty, since an empty one ends the string.
abbrev pub AllChunks : List Bytes → Type 0
AllChunks [] = Unit
AllChunks (c ∷ cs) = (0 < length c) × (length c < i64_bound) × AllChunks cs

-- The values that the wire can carry: strings in a line have no carriage return, a verbatim string's
-- format has no colon, lengths and integers are in the range of `i64`, no chunk of a streamed string is
-- empty, and a double's print is read back.
unfoldable mutual
  pub IsSendable : Floats → RespValue → Type 0
  IsSendable floats (simple_string s) = IsText s
  IsSendable floats (error e) = IsText e
  IsSendable floats (integer i) = IsI64 i
  IsSendable floats (bulk_string none) = Unit
  IsSendable floats (bulk_string (some s)) = length s < i64_bound
  IsSendable floats (array vs) = (item_count vs < i64_bound) × AllSendable floats vs
  IsSendable floats null_array = Unit
  IsSendable floats null = Unit
  IsSendable floats (boolean b) = Unit
  IsSendable floats (double d) =
      IsText (double_text floats d) × (double_of floats (double_text floats d) ≡ ok (double d))
  IsSendable floats (big_number s) = IsText s
  IsSendable floats (bulk_error e) = (length e < i64_bound) × (from_utf8_lossy e ≡ e)
  IsSendable floats (verbatim_string format body) =
      (length (format ++ (b':' ∷ body)) < i64_bound)
      × HasNoColon format
      × (from_utf8_lossy format ≡ format)
  IsSendable floats (map ps) = (pair_count ps < i64_bound) × PairsSendable floats ps
  IsSendable floats (set vs) = (item_count vs < i64_bound) × AllSendable floats vs
  IsSendable floats (push vs) = (item_count vs < i64_bound) × AllSendable floats vs
  IsSendable floats (attribute ps v) =
      (pair_count ps < i64_bound) × PairsSendable floats ps × IsSendable floats v
  IsSendable floats (streamed_string chunks) = AllChunks chunks

  pub AllSendable : Floats → RespList → Type 0
  AllSendable floats nil = Unit
  AllSendable floats (cons v vs) = IsSendable floats v × AllSendable floats vs

  pub PairsSendable : Floats → RespPairs → Type 0
  PairsSendable floats no_pairs = Unit
  PairsSendable floats (pair k v ps) =
      IsSendable floats k × IsSendable floats v × PairsSendable floats ps

-- How deep a value is nested.
unfoldable mutual
  pub depth : RespValue → ℕ
  depth (array vs) = depth_items vs + 1
  depth (map ps) = depth_pairs ps + 1
  depth (set vs) = depth_items vs + 1
  depth (push vs) = depth_items vs + 1
  depth (attribute ps v) = max (depth_pairs ps) (depth v) + 1
  depth _ = 1

  pub depth_items : RespList → ℕ
  depth_items nil = 0
  depth_items (cons v vs) = max (depth v) (depth_items vs)

  pub depth_pairs : RespPairs → ℕ
  depth_pairs no_pairs = 0
  depth_pairs (pair k v ps) = max (depth k) (max (depth v) (depth_pairs ps))
