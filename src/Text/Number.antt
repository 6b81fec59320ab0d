-- ===== src/Text/Number.antt =====
-- `parse::<u64>()`, `parse::<usize>()`, `parse::<i64>()` and `to_string()` of the standard library.
pub mod RoundTrip
pub mod Digits
use ai_kv.Base.{
  ℕ, zero, suc, ◌+◌, ◌-◌, ◌*◌, ◌/◌, ◌%◌, ◌<◌, Bool, ◌&&◌, List, [], ◌∷◌, Option, none, some, ltb,
  leb, ◌==◌, if◌then◌else◌, ℤ, pos, negsuc, i64_bound, u64_mod,
}

pub is_digit : ℕ → Bool
is_digit c = leb b'0' c && leb c b'9'

-- The digits of an unsigned number that stays below `bound`; `acc` is what has been read.
pub digits : ℕ → ℕ → List ℕ → Option ℕ
unfolding is_digit
digits bound acc [] = some acc
digits bound acc (c ∷ s) =
    let acc' = acc * 10 + (c - b'0') in
    if is_digit c && ltb acc' bound then digits bound acc' s else none

-- At least one digit.
pub some_digits : ℕ → List ℕ → Option ℕ
unfolding digits
some_digits bound [] = none
some_digits bound (c ∷ s) = digits bound 0 (c ∷ s)

-- A leading `+` is allowed, a `-` is not.
unfoldable pub parse_unsigned : ℕ → List ℕ → Option ℕ
unfolding some_digits
parse_unsigned bound [] = none
parse_unsigned bound (c ∷ s) = if c == b'+' then some_digits bound s else some_digits bound (c ∷ s)

abbrev pub parse_u64 : List ℕ → Option ℕ
parse_u64 = parse_unsigned u64_mod

-- `usize` has 64 bits.
abbrev pub parse_usize : List ℕ → Option ℕ
parse_usize = parse_unsigned u64_mod

abbrev pub of_magnitude : ℕ → ℤ
of_magnitude zero = pos 0
of_magnitude (suc n) = negsuc n

negative : Option ℕ → Option ℤ
negative none = none
negative (some n) = some (of_magnitude n)

nonnegative : Option ℕ → Option ℤ
nonnegative none = none
nonnegative (some n) = some (pos n)

-- -(2 ^ 63) fits and 2 ^ 63 does not.
unfoldable pub parse_i64 : List ℕ → Option ℤ
unfolding some_digits negative nonnegative
parse_i64 [] = none
parse_i64 (c ∷ s) =
    if c == b'-'
    then negative (some_digits (i64_bound + 1) s)
    else if c == b'+'
    then nonnegative (some_digits i64_bound s)
    else nonnegative (some_digits i64_bound (c ∷ s))

-- The digits of `n` in front of `out`; a `u64` has at most 20.
pub emit : ℕ → ℕ → List ℕ → List ℕ
emit zero n out = out
emit (suc rounds) n out =
    let rest = emit rounds (n / 10) ((b'0' + n % 10) ∷ out) in if n == 0 then out else rest

unfoldable pub print_nat : ℕ → List ℕ
unfolding emit
print_nat n = if n == 0 then b'0' ∷ [] else emit 20 n []

unfoldable pub print_i64 : ℤ → List ℕ
unfolding print_nat
print_i64 (pos n) = print_nat n
print_i64 (negsuc n) = b'-' ∷ print_nat (suc n)
