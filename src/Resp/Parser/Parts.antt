-- ===== src/Resp/Parser/Parts.antt =====
-- src/protocol/parser.rs: each kind of value behind its line.
use ai_kv.Base.{
  ℕ, suc, ◌<◌, ◌≡◌, refl, Bool, true, false, none, some, [], ◌∷◌, ◌++◌, length, arith, String,
  append_assoc, i64_bound, Bool-cases, inl, inr,
}
use ai_kv.Text.{Bytes, bytes_eq, bytes_eq_iff}
use ai_kv.Text.Utf8.{from_utf8_lossy}
use ai_kv.Text.Number.{print_nat, parse_i64}
use ai_kv.Error.{ok}
use ai_kv.Effect.{Effect, give, ◌>>=◌}
use ai_kv.Resp.{
  RespValue, RespList, RespPairs, bulk_string, array, null_array, null, boolean, verbatim_string,
  attribute,
}
use ai_kv.Resp.Serialize.{Floats, crlf, item_count, pair_count, serialize}
use ai_kv.Resp.Parser.{
  split_colon, boolean_of, verbatim_of, parse_items, parse_pairs, parse_bulk_string, parse_array,
  parse_attribute, parse_marked, parse_value, read_line, split_line, optional_length, read_length,
}
use ai_kv.Resp.Parser.Lines.{
  read_line_lem, read_data_lem, print_nat-IsText, optional_length_lem, parse_i64-print_nat,
  read_length_lem,
}
use ai_kv.Resp.Parser.Sendable.{HasNoColon}

question_mark : (n : ℕ) → n < i64_bound → bytes_eq (print_nat n) (b'?' ∷ []) ≡ false
question_mark n h = elim (Bool-cases (bytes_eq (print_nat n) (b'?' ∷ []))) [
  | inl same ↦ absurd (clash ((bytes_eq_iff (print_nat n) (b'?' ∷ [])).0 same))
  | inr other ↦ other
]
  where
    clash : print_nat n ≡ b'?' ∷ [] → ⊥
    clash e =
        let none_read : parse_i64 (b'?' ∷ []) ≡ none = unfold parse_i64 in refl in
        let read = parse_i64-print_nat n h in cc

-- A marker with a printed length and a body: the line is read, and then the rest.
module _ (floats : Floats) (fuel : ℕ) (rest : Bytes) where
  pub bulk_lem :
      (b : Bytes)
      → length b < i64_bound
      → parse_bulk_string (((print_nat (length b) ++ crlf) ++ (b ++ crlf)) ++ rest)
        ≡ (ok (bulk_string (some b)), rest)
  unfolding parse_bulk_string
  bulk_lem b h =
      rw
        (
          append_assoc (print_nat (length b) ++ crlf) (b ++ crlf) rest,
          read_line_lem (print_nat (length b)) ((b ++ crlf) ++ rest) (print_nat-IsText (length b)),
          question_mark (length b) h,
          optional_length_lem "Invalid bulk string length: " (length b) h,
          read_data_lem "Incomplete bulk string" b rest,
        )
        refl

  pub array_lem :
      (item : Effect Bytes RespValue) (vs : RespList) (body : Bytes)
      → item_count vs < i64_bound
      → parse_items item (item_count vs) (body ++ rest) ≡ (ok vs, rest)
      → parse_array item (((print_nat (item_count vs) ++ crlf) ++ body) ++ rest)
        ≡ (ok (array vs), rest)
  unfolding parse_array
  array_lem item vs body h items =
      rw
        (
          append_assoc (print_nat (item_count vs) ++ crlf) body rest,
          read_line_lem (print_nat (item_count vs)) (body ++ rest)
              (print_nat-IsText (item_count vs)),
          optional_length_lem "Invalid array length: " (item_count vs) h,
          items,
        )
        refl

split_colon_lem :
    (format body : Bytes)
    → HasNoColon format
    → split_colon (format ++ (b':' ∷ body)) ≡ some (format, body)
unfolding split_colon
split_colon_lem [] body h = refl
split_colon_lem (c ∷ format) body h = ground (arith, split_colon_lem format body h.1)

pub verbatim_of_lem :
    (format body : Bytes)
    → HasNoColon format
    → from_utf8_lossy format ≡ format
    → verbatim_of (format ++ (b':' ∷ body)) ≡ ok (verbatim_string format body)
unfolding verbatim_of
verbatim_of_lem format body h e = ground (arith, split_colon_lem format body h)

pub null_bulk_lem :
    (rest : Bytes)
    → parse_bulk_string (((b'-' ∷ b'1' ∷ []) ++ crlf) ++ rest) ≡ (ok (bulk_string none), rest)
unfolding parse_bulk_string read_line split_line optional_length bytes_eq parse_i64 from_utf8_lossy
null_bulk_lem rest = refl

pub null_array_lem :
    (item : Effect Bytes RespValue) (rest : Bytes)
    → parse_array item (((b'-' ∷ b'1' ∷ []) ++ crlf) ++ rest) ≡ (ok null_array, rest)
unfolding parse_array read_line split_line optional_length parse_i64 from_utf8_lossy
null_array_lem item rest = refl

pub null_value :
    (floats : Floats) (fuel : ℕ) (rest : Bytes)
    → parse_value floats (suc fuel) (b'_' ∷ 13 ∷ 10 ∷ rest) ≡ (ok null, rest)
unfolding parse_value parse_marked read_line split_line from_utf8_lossy
null_value floats fuel rest = refl

pub boolean_value :
    (floats : Floats) (fuel : ℕ) (rest : Bytes) (b : Bool)
    → parse_value floats (suc fuel) (serialize floats (boolean b) ++ rest) ≡ (ok (boolean b), rest)
unfolding parse_value parse_marked serialize boolean_of bytes_eq read_line split_line
    from_utf8_lossy
boolean_value floats fuel rest true = refl
boolean_value floats fuel rest false = refl

-- The line with the number of items or pairs, and the loop behind it.
module _ (item : Effect Bytes RespValue) (body rest : Bytes) where
  pub items_lem :
      (message : String) (vs : RespList) (make : RespList → RespValue)
      → item_count vs < i64_bound
      → parse_items item (item_count vs) (body ++ rest) ≡ (ok vs, rest)
      → (do n ← read_length message; ws ← parse_items item n; give (make ws))
          (((print_nat (item_count vs) ++ crlf) ++ body) ++ rest)
        ≡ (ok (make vs), rest)
  items_lem message vs make h items =
      rw
        (
          append_assoc (print_nat (item_count vs) ++ crlf) body rest,
          read_length_lem message (item_count vs) (body ++ rest) h,
          items,
        )
        refl

  pub pairs_lem :
      (message : String) (ps : RespPairs) (make : RespPairs → RespValue)
      → pair_count ps < i64_bound
      → parse_pairs item (pair_count ps) (body ++ rest) ≡ (ok ps, rest)
      → (do n ← read_length message; qs ← parse_pairs item n; give (make qs))
          (((print_nat (pair_count ps) ++ crlf) ++ body) ++ rest)
        ≡ (ok (make ps), rest)
  pairs_lem message ps make h pairs =
      rw
        (
          append_assoc (print_nat (pair_count ps) ++ crlf) body rest,
          read_length_lem message (pair_count ps) (body ++ rest) h,
          pairs,
        )
        refl

pub attribute_lem :
    (item : Effect Bytes RespValue) (ps : RespPairs) (v : RespValue)
    (pairs_body value_body rest : Bytes)
    → pair_count ps < i64_bound
    → parse_pairs item (pair_count ps) (pairs_body ++ (value_body ++ rest))
      ≡ (ok ps, value_body ++ rest)
    → item (value_body ++ rest) ≡ (ok v, rest)
    → parse_attribute item
        (((print_nat (pair_count ps) ++ crlf) ++ (pairs_body ++ value_body)) ++ rest)
      ≡ (ok (attribute ps v), rest)
unfolding parse_attribute
attribute_lem item ps v pairs_body value_body rest h pairs value =
    rw
      (
        append_assoc (print_nat (pair_count ps) ++ crlf) (pairs_body ++ value_body) rest,
        append_assoc pairs_body value_body rest,
        read_length_lem "Invalid attribute length: " (pair_count ps)
            (pairs_body ++ (value_body ++ rest)) h,
        pairs,
        value,
      )
      refl
