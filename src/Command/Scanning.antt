-- ===== src/Command/Scanning.antt =====
-- What SCAN, HSCAN, SSCAN and ZSCAN share: the options, and the part of the matches that one call
-- replies (src/command/key.rs, hash.rs, set.rs and zset.rs). A slice out of bounds is a panic, `none`.
pub mod Loop
use ai_kv.Base.{
  ℕ, zero, suc, ◌+◌, ◌-◌, ◌%◌, min, Bool, true, Option, none, some, List, [], ◌∷◌, ◌++◌, length,
  take, drop, ltb, leb, ◌==◌, u64_mod, if◌then◌else◌,
}
use ai_kv.Text.{Bytes, codes, bytes_eq}
use ai_kv.Text.Utf8.{from_utf8_lossy, to_uppercase}
use ai_kv.Text.Number.{print_nat}
use ai_kv.Error.{Result, ok, err, AikvError, invalid_argument, with_text}
use ai_kv.Effect.{Effect}
use ai_kv.Resp.{RespValue, RespList, bulk_string, array, nil, cons}
use ai_kv.Storage.Adapter.{StorageAdapter}
use ai_kv.Command.Index.{bad_argument, usize_arg}
use ai_kv.Glob.{star}

-- `none` is a panic.
abbrev pub ScanHandler : Type 0
ScanHandler = ℕ → List Bytes → ℕ → Effect StorageAdapter (Option RespValue)

pub record ScanOptions : Type 0 where
  pub pattern : Option Bytes
  pub count : ℕ

-- A count of SCAN and HSCAN is at least 1.
unfoldable pub positive_count : Bytes → Result ℕ
positive_count arg = elim (usize_arg "ERR value is not an integer" arg) [
  | err e ↦ err e
  | ok n ↦ ok (if n == 0 then 1 else n)
]

-- That of SSCAN and ZSCAN may be 0.
unfoldable pub any_count : Bytes → Result ℕ
any_count = usize_arg "ERR value is not an integer or out of range"

abbrev pub unknown_option : Bytes → AikvError
unknown_option word = invalid_argument (with_text "ERR unknown option '{}'" word)

abbrev pub syntax_error : AikvError
syntax_error = bad_argument "ERR syntax error"

module _ (read_count : Bytes → Result ℕ) (unknown : Bytes → AikvError) where
  scan_option : Bytes → Bytes → ScanOptions → Result ScanOptions
  scan_option word arg o =
      if bytes_eq word (codes "MATCH")
      then ok (record o { pattern = some (from_utf8_lossy arg) })
      else if bytes_eq word (codes "COUNT")
      then elim (read_count arg) [ err e ↦ err e | ok n ↦ ok (record o { count = n }) ]
      else err (unknown word)

  -- A last word with no argument behind it.
  lone_option : Bytes → AikvError
  lone_option word =
      if bytes_eq word (codes "MATCH")
      then syntax_error
      else if bytes_eq word (codes "COUNT")
      then syntax_error
      else unknown word

  unfoldable pub scan_options : List Bytes → ScanOptions → Result ScanOptions
  unfolding scan_option lone_option
  scan_options [] o = ok o
  scan_options (word ∷ []) o = err (lone_option (to_uppercase (from_utf8_lossy word)))
  scan_options (word ∷ arg ∷ rest) o =
      elim (scan_option (to_uppercase (from_utf8_lossy word)) arg o) [
        | err e ↦ err e
        | ok o' ↦ scan_options rest o'
      ]

-- The options of SCAN and HSCAN, and those of SSCAN and ZSCAN.
abbrev pub read_options : List Bytes → Result ScanOptions
read_options args =
    scan_options positive_count unknown_option args (record { pattern = some star; count = 10 })

abbrev pub read_any_options : List Bytes → Result ScanOptions
read_any_options args =
    scan_options any_count (λ _. syntax_error) args (record { pattern = none; count = 10 })

-- `start + count`, in `usize`, but at most the number of matches
unfoldable pub page_end : ℕ → ℕ → ℕ → ℕ
page_end start count total = min ((start + count) % u64_mod) total

unfoldable pub next_cursor : ℕ → ℕ → ℕ
next_cursor stop total = if leb total stop then 0 else stop

module _ {ℓ} {A : Type ℓ} where
  -- `l[start..stop]`, where `stop` is at most the length
  unfoldable pub slice_of : ℕ → ℕ → List A → Option (List A)
  slice_of start stop l = if ltb stop start then none else some (take (stop - start) (drop start l))

  -- The cursor and the items of one call.
  unfoldable pub page : ℕ → ℕ → List A → ℕ × Option (List A)
  unfolding page_end next_cursor slice_of
  page cursor count l =
      let stop = page_end cursor count (length l) in
      (next_cursor stop (length l), slice_of cursor stop l)

  -- That of SSCAN and ZSCAN looks at the cursor before.
  unfoldable pub guarded_page : ℕ → ℕ → List A → ℕ × Option (List A)
  unfolding page
  guarded_page cursor count l = if leb (length l) cursor then (0, some []) else page cursor count l

-- `[cursor, [items]]`
abbrev pub scan_reply : ℕ → RespList → RespValue
scan_reply next items = array (cons (bulk_string (some (print_nat next))) (cons (array items) nil))

unfoldable pub page_reply {ℓ} :
    {A : Type ℓ} → (List A → RespList) → ℕ × Option (List A) → Option RespValue
page_reply items (next, none) = none
page_reply items (next, some l) = some (scan_reply next (items l))
