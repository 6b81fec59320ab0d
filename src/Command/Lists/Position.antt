-- ===== src/Command/Lists/Position.antt =====
-- src/command/list.rs: LPOS.
use ai_kv.Base.{
  ℕ, zero, suc, ◌+◌, ◌-◌, min, Bool, true, not, ◌&&◌, Option, none, some, List, [], ◌∷◌, ◌++◌,
  reverse, length, take, ltb, leb, ◌==◌, ℤ, pos, negsuc, String, if◌then◌else◌,
}
use ai_kv.Text.{Bytes, codes, bytes_eq}
use ai_kv.Text.Utf8.{from_utf8_lossy, to_uppercase}
use ai_kv.Error.{Result, ok, err, wrong_arg_count, literal}
use ai_kv.Effect.{give, fail, check, ◌>>=◌}
use ai_kv.Resp.{RespValue, RespList, integer, array, null, nil, cons}
use ai_kv.Storage.Adapter.{get_value}
use ai_kv.Command.Index.{bad_argument, i64_arg, usize_arg}
use ai_kv.Command.Lists.{Handler, list_or_new}

pub record Options : Type 0 where
  rank : ℤ
  pub count : Option ℕ
  maxlen : ℕ

abbrev pub no_options : Options
no_options = record { rank = pos 1; count = none; maxlen = 0 }

rank_of : ℤ → Result ℤ
rank_of (pos zero) = err (bad_argument "ERR RANK can't be zero")
rank_of z = ok z

abbrev not_integer : String
not_integer = "ERR value is not an integer or out of range"

-- One option with its argument.
read_option : Bytes → Bytes → Options → Result Options
unfolding rank_of
read_option word arg o =
    if bytes_eq word (codes "RANK")
    then elim (i64_arg not_integer arg) [
      | err e ↦ err e
      | ok z ↦ elim (rank_of z) [ err e ↦ err e | ok r ↦ ok (record o { rank = r }) ]
    ]
    else if bytes_eq word (codes "COUNT")
    then elim (usize_arg not_integer arg) [
      | err e ↦ err e
      | ok n ↦ ok (record o { count = some n })
    ]
    else if bytes_eq word (codes "MAXLEN")
    then elim (usize_arg not_integer arg) [ err e ↦ err e | ok n ↦ ok (record o { maxlen = n }) ]
    else err (bad_argument "ERR syntax error")

-- The loop over the arguments behind the element. A word with no argument behind it is refused,
-- whatever it is.
pub read_options : List Bytes → Options → Result Options
unfolding read_option
read_options [] o = ok o
read_options (word ∷ []) o = err (bad_argument "ERR syntax error")
read_options (word ∷ arg ∷ rest) o =
    elim (read_option (to_uppercase (from_utf8_lossy word)) arg o) [
      | err e ↦ err e
      | ok o' ↦ read_options rest o'
    ]

-- The indices of a list, with the elements.
enumerate : ℕ → List Bytes → List (ℕ × Bytes)
enumerate i [] = []
enumerate i (x ∷ xs) = (i, x) ∷ enumerate (suc i) xs

-- The loop over the elements in the order of the search: `found` occurrences have been seen, and
-- `matches` have been taken; `enough` of them end it.
scan : Bytes → ℕ → Option ℕ → ℕ → List ℕ → List (ℕ × Bytes) → List ℕ
scan element skip count found matches [] = matches
scan element skip count found matches ((i, x) ∷ rest) =
    let hit = bytes_eq x element in
    let taken = hit && leb skip found in
    let matches' = if taken then matches ++ i ∷ [] else matches in
    let enough : Bool = elim count [
      | none ↦ true
      | some n ↦ not (n == 0) && leb n (length matches')
    ] in
    let next = scan element skip count (if hit then found + 1 else found) matches' rest in
    if taken && enough then matches' else next

-- How many elements are looked at.
scan_length : ℕ → ℕ → ℕ
scan_length maxlen len = if ltb 0 maxlen then min maxlen len else len

matches_of : Bytes → Options → List Bytes → List ℕ
unfolding scan scan_length enumerate
matches_of element o l =
    let n = scan_length o.maxlen (length l) in
    elim o.rank [
      | pos r ↦ scan element (r - 1) o.count 0 [] (take n (enumerate 0 l))
      | negsuc r ↦ scan element r o.count 0 [] (take n (reverse (enumerate 0 l)))
    ]

integers : List ℕ → RespList
integers [] = nil
integers (i ∷ is) = cons (integer (pos i)) (integers is)

first_or_null : List ℕ → RespValue
first_or_null [] = null
first_or_null (i ∷ is) = integer (pos i)

lpos_reply : Option ℕ → List ℕ → RespValue
unfolding integers first_or_null
lpos_reply none matches = first_or_null matches
lpos_reply (some _) matches = array (integers matches)

unfoldable pub lpos : Handler
unfolding read_options matches_of lpos_reply
lpos now (k ∷ element ∷ options) db = do
  o ← check (read_options options no_options)
  stored ← get_value now db (from_utf8_lossy k)
  l ← check (list_or_new stored)
  give (lpos_reply o.count (matches_of element o l))
lpos now _ db = fail (wrong_arg_count (literal "LPOS"))
