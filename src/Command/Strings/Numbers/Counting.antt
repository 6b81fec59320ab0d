-- ===== src/Command/Strings/Numbers/Counting.antt =====
-- INCR, DECR, INCRBY and DECRBY: the sum, its print, and the overflow.
use ai_kv.Base.{
  ℕ, ◌≡◌, refl, Bool, true, false, Option, some, [], ◌∷◌, arith, ℤ, pos, negsuc, ◌+ℤ◌, Bool-cases,
  inl, inr,
}
use ai_kv.Text.{Bytes}
use ai_kv.Text.Utf8.{from_utf8_lossy, from_utf8_lossy_ascii}
use ai_kv.Text.Number.{parse_i64, print_i64}
use ai_kv.Text.Number.RoundTrip.{IsI64, parse_i64-print_i64, print_i64-IsAscii}
use ai_kv.Error.{Result, ok, err}
use ai_kv.Resp.{RespValue, integer}
use ai_kv.Storage.Value.{new_string}
use ai_kv.Storage.Adapter.{StorageAdapter, insert_at}
use ai_kv.Storage.View.{view, InRange}
use ai_kv.Storage.Contract.{Shows, get_from_db-view, string_of}
use ai_kv.Command.Index.{i64_arg, bad_argument}
use ai_kv.Command.Strings.Shown.{set_in_db_lem, Shows-new_string}
use ai_kv.Command.Strings.Numbers.{
  fits, incr_by_internal, current_value, checked_add, incr, incrby, decr, decrby, wrapping_neg,
}

IsI64-of_fits : (z : ℤ) → fits z ≡ true → IsI64 z
IsI64-of_fits (pos n) h = ground arith
IsI64-of_fits (negsuc n) h = ground arith

module _ (now : ℕ) (key : Bytes) (db : ℕ) (s : StorageAdapter) (current increment : ℤ)
    (old : Option Bytes) where
  incr_fits :
      InRange s db
      → string_of (view now s db key) ≡ ok old
      → current_value old ≡ ok current
      → fits (current +ℤ increment) ≡ true
      → incr_by_internal now key increment db s ≡ (
        ok (integer (current +ℤ increment)),
        insert_at db key (new_string (print_i64 (current +ℤ increment))) s,
      )
  unfolding incr_by_internal checked_add
  incr_fits h shown number fit = rw (
    get_from_db-view now db key s,
    shown,
    number,
    fit,
    set_in_db_lem db key s (print_i64 (current +ℤ increment)) h,
  )

  incr_overflows :
      string_of (view now s db key) ≡ ok old
      → current_value old ≡ ok current
      → fits (current +ℤ increment) ≡ false
      → incr_by_internal now key increment db s
        ≡ (err (bad_argument "ERR increment or decrement would overflow"), s)
  unfolding incr_by_internal checked_add
  incr_overflows shown number over = rw (get_from_db-view now db key s, shown, number, over) refl

-- A number that was printed is read back from the key.
current_value-print_i64 : (z : ℤ) → fits z ≡ true → current_value (some (print_i64 z)) ≡ ok z
unfolding current_value i64_arg
current_value-print_i64 z h =
    rw
      (
        from_utf8_lossy_ascii (print_i64 z) (print_i64-IsAscii z),
        parse_i64-print_i64 z (IsI64-of_fits z h),
      )
      refl

-- What an increment does whose sum with the current number is `c`, where the test tells whether that is
-- in the range of `i64`: the key shows the print of the sum, which is read back as the sum, or
-- nothing happens.
abbrev pub IncrContract :
    ℕ → Bytes → ℕ → StorageAdapter → ℤ → Result RespValue × StorageAdapter → Bool → Type 0
IncrContract now key db s c result true =
    (result.0 ≡ ok (integer c))
    × Shows now s db key (some (new_string (print_i64 c))) result.1
    × (current_value (some (print_i64 c)) ≡ ok c)
IncrContract now key db s c result false =
    result ≡ (err (bad_argument "ERR increment or decrement would overflow"), s)

-- INCRBY into a database that is there, of a number to a key that shows a number or nothing, which
-- counts as 0: if the sum is in the range of `i64`, it is the reply, and the key shows its decimal
-- print with no time, from which the next increment reads the sum back; if not, the call fails and
-- nothing changes.
pub incrby_contract :
    (now : ℕ) (k n : Bytes) (db : ℕ) (s : StorageAdapter) (current increment : ℤ)
    (old : Option Bytes)
    → InRange s db
    → i64_arg "ERR value is not an integer or out of range" n ≡ ok increment
    → string_of (view now s db (from_utf8_lossy k)) ≡ ok old
    → current_value old ≡ ok current
    → IncrContract now
        (from_utf8_lossy k)
        db
        s
        (current +ℤ increment)
        (incrby now (k ∷ n ∷ []) db s)
        (fits (current +ℤ increment))
unfolding incrby
incrby_contract now k n db s current increment old h parsed shown number =
    let c = current +ℤ increment in
    let key = from_utf8_lossy k in
    elim (Bool-cases (fits c)) [
      | inl fit ↦
          rw (fit, parsed, incr_fits now key db s current increment old h shown number fit)
            (refl, Shows-new_string db key s (print_i64 c) now h, current_value-print_i64 c fit)
      | inr over ↦
          rw (over, parsed, incr_overflows now key db s current increment old shown number over)
            refl
    ]

abbrev one_arg : Bytes
one_arg = b'1' ∷ []

one_read : i64_arg "ERR value is not an integer or out of range" one_arg ≡ ok (pos 1)
unfolding i64_arg from_utf8_lossy parse_i64
one_read = refl

-- INCR is INCRBY of 1 and DECR is DECRBY of 1, at every key and in every state.
incr-incrby :
    (now : ℕ) (k : Bytes) (db : ℕ) (s : StorageAdapter)
    → (incr now (k ∷ []) db s ≡ incrby now (k ∷ (b'1' ∷ []) ∷ []) db s)
      × (decr now (k ∷ []) db s ≡ decrby now (k ∷ (b'1' ∷ []) ∷ []) db s)
unfolding incr incrby decr decrby wrapping_neg
incr-incrby now k db s = (rw one_read refl, rw one_read refl)
