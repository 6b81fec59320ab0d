-- ===== src/Text/Number/RoundTrip.antt =====
-- Reading back what `to_string` prints, and the range of what `parse` accepts.
use native.Mathlib.Nat.{pow-suc}
use ai_kv.Base.{
  ℕ, zero, suc, ◌+◌, ◌-◌, ◌*◌, ◌/◌, ◌%◌, ◌^◌, ◌≤◌, ◌<◌, ◌≡◌, refl, Bool, true, false, List, [], ◌∷◌,
  Option, none, some, arith, ◌==◌, if◌then◌else◌, ℤ, pos, negsuc, pos_part, neg_part, i64_bound,
  u64_mod, ◌∙◌, Bool-cases, inl, inr,
}
use ai_kv.Text.Utf8.{IsAscii, IsPlain}
use ai_kv.Text.Number.{
  is_digit, digits, some_digits, parse_unsigned, parse_i64, negative, nonnegative, emit, print_nat,
  print_i64,
}

digits-lt :
    (bound acc : ℕ) (s : List ℕ) (n : ℕ) → acc < bound → digits bound acc s ≡ some n → n < bound
unfolding digits
digits-lt bound acc [] n lt h = ground arith
digits-lt bound acc (c ∷ s) n lt h = ground (arith, digits-lt bound (acc * 10 + (c - b'0')) s n)

some_digits-lt :
    (bound : ℕ) (s : List ℕ) (n : ℕ) → 0 < bound → some_digits bound s ≡ some n → n < bound
unfolding some_digits
some_digits-lt bound [] n h e = cc
some_digits-lt bound (c ∷ s) n h e = digits-lt bound 0 (c ∷ s) n h e

parse_unsigned-lt :
    (bound : ℕ) (s : List ℕ) (n : ℕ) → 0 < bound → parse_unsigned bound s ≡ some n → n < bound
unfolding parse_unsigned
parse_unsigned-lt bound [] n h e = cc
parse_unsigned-lt bound (c ∷ s) n h e =
    ground (arith, some_digits-lt bound s n, some_digits-lt bound (c ∷ s) n)

-- Reading the digits of `n` leaves the reader where it has read `n`.
digits-emit :
    (bound rounds n : ℕ) (out : List ℕ)
    → n < 10 ^ rounds
    → n < bound
    → digits bound 0 (emit rounds n out) ≡ digits bound n out
unfolding emit digits
digits-emit bound zero n out fits lt = ground arith
digits-emit bound (suc k) n out fits lt =
    ground (arith, digits-emit bound k (n / 10) ((b'0' + n % 10) ∷ out), pow-suc 10 k)

-- The first byte is a digit.
starts : List ℕ → Bool
starts [] = false
starts (c ∷ s) = is_digit c

emit_zero : (rounds : ℕ) (out : List ℕ) → emit rounds 0 out ≡ out
unfolding emit
emit_zero zero out = refl
emit_zero (suc k) out = refl

starts-emit :
    (rounds n : ℕ) (out : List ℕ) → n < 10 ^ rounds → 0 < n → starts (emit rounds n out) ≡ true
unfolding emit starts is_digit
starts-emit zero n out fits h = absurd (omega arith)
starts-emit (suc k) n out fits h = ground (
  arith,
  starts-emit k (n / 10) ((b'0' + n % 10) ∷ out),
  pow-suc 10 k,
  emit_zero k ((b'0' + n % 10) ∷ out),
)

starts-print_nat : (n : ℕ) → n < u64_mod → starts (print_nat n) ≡ true
unfolding print_nat starts is_digit
starts-print_nat n h = ground (arith, starts-emit 20 n [])

digits-print_nat : (bound n : ℕ) → n < u64_mod → n < bound → digits bound 0 (print_nat n) ≡ some n
unfolding print_nat digits
digits-print_nat bound n h lt = ground (arith, digits-emit bound 20 n [])

-- A text that begins with a digit has no sign.
some_digits_of_starts :
    (bound : ℕ) (s : List ℕ) → starts s ≡ true → some_digits bound s ≡ digits bound 0 s
unfolding some_digits starts
some_digits_of_starts bound [] h = cc
some_digits_of_starts bound (c ∷ s) h = refl

parse_unsigned_of_starts :
    (bound : ℕ) (s : List ℕ) → starts s ≡ true → parse_unsigned bound s ≡ digits bound 0 s
unfolding parse_unsigned some_digits starts is_digit
parse_unsigned_of_starts bound [] h = cc
parse_unsigned_of_starts bound (c ∷ s) h = ground arith

parse_i64_of_starts :
    (s : List ℕ) → starts s ≡ true → parse_i64 s ≡ nonnegative (digits i64_bound 0 s)
unfolding parse_i64 some_digits starts is_digit
parse_i64_of_starts [] h = cc
parse_i64_of_starts (c ∷ s) h = ground arith

-- Every `u64` is read back from its decimal print.
pub parse_unsigned-print_nat : (n : ℕ) → n < u64_mod → parse_unsigned u64_mod (print_nat n) ≡ some n
parse_unsigned-print_nat n h =
    parse_unsigned_of_starts u64_mod (print_nat n) (starts-print_nat n h)
    ∙ digits-print_nat u64_mod n h h

-- The range of `i64`.
abbrev pub IsI64 : ℤ → Type 0
IsI64 z = (pos_part z < i64_bound) × (neg_part z ≤ i64_bound)

parse_i64_minus : (s : List ℕ) → parse_i64 (b'-' ∷ s) ≡ negative (some_digits (i64_bound + 1) s)
unfolding parse_i64
parse_i64_minus s = refl

-- Every `i64` is read back from its decimal print.
pub parse_i64-print_i64 : (z : ℤ) → IsI64 z → parse_i64 (print_i64 z) ≡ some z
unfolding print_i64
parse_i64-print_i64 (pos n) h =
    parse_i64_of_starts (print_nat n) (starts-print_nat n (omega arith))
    ∙ unfold nonnegative in rw (digits-print_nat i64_bound n (omega arith) h.0)
parse_i64-print_i64 (negsuc n) h =
    parse_i64_minus (print_nat (suc n))
    ∙ unfold negative in
      rw (
        some_digits_of_starts _ _ (starts-print_nat (suc n) (omega arith)),
        digits-print_nat (i64_bound + 1) (suc n) (omega arith) (omega arith),
      )

nonnegative-IsI64 :
    (o : Option ℕ) (z : ℤ)
    → ((n : ℕ) → o ≡ some n → n < i64_bound)
    → nonnegative o ≡ some z
    → IsI64 z
unfolding nonnegative
nonnegative-IsI64 none z h e = cc
nonnegative-IsI64 (some n) (pos m) h e = ground (arith, h n refl)
nonnegative-IsI64 (some n) (negsuc m) h e = cc

negative-IsI64 :
    (o : Option ℕ) (z : ℤ)
    → ((n : ℕ) → o ≡ some n → n < i64_bound + 1)
    → negative o ≡ some z
    → IsI64 z
unfolding negative
negative-IsI64 none z h e = cc
negative-IsI64 (some zero) z h e = ground arith
negative-IsI64 (some (suc n)) z h e = ground (arith, h (suc n) refl)

-- What `parse::<i64>` accepts is in the range of `i64`.
parse_i64-IsI64 : (s : List ℕ) (z : ℤ) → parse_i64 s ≡ some z → IsI64 z
unfolding parse_i64
parse_i64-IsI64 [] z e = cc
parse_i64-IsI64 (c ∷ s) z e = elim (Bool-cases (c == b'-')) [
  | inl minus ↦
      negative-IsI64 (some_digits (i64_bound + 1) s) z
        (λ n. some_digits-lt (i64_bound + 1) s n (omega arith)) (ground arith)
  | inr other ↦ elim (Bool-cases (c == b'+')) [
    | inl plus ↦
        nonnegative-IsI64 (some_digits i64_bound s) z
          (λ n. some_digits-lt i64_bound s n (omega arith)) (ground arith)
    | inr bare ↦
        nonnegative-IsI64 (some_digits i64_bound (c ∷ s)) z
          (λ n. some_digits-lt i64_bound (c ∷ s) n (omega arith)) (ground arith)
  ]
]

IsAscii-if : (b : Bool) (x y : List ℕ) → IsAscii x → IsAscii y → IsAscii (if b then x else y)
IsAscii-if true x y h k = h
IsAscii-if false x y h k = k

emit-IsAscii : (rounds n : ℕ) (out : List ℕ) → IsAscii out → IsAscii (emit rounds n out)
unfolding emit
emit-IsAscii zero n out h = h
emit-IsAscii (suc k) n out h =
    IsAscii-if (n == 0) out (emit k (n / 10) ((b'0' + n % 10) ∷ out)) h
      (emit-IsAscii k (n / 10) ((b'0' + n % 10) ∷ out) (omega arith, h))

pub print_nat-IsAscii : (n : ℕ) → IsAscii (print_nat n)
unfolding print_nat
print_nat-IsAscii n =
    IsAscii-if (n == 0) (b'0' ∷ []) (emit 20 n []) (omega arith, tt) (emit-IsAscii 20 n [] tt)

-- A printed number is ASCII, so that it is read back as it was written.
pub print_i64-IsAscii : (z : ℤ) → IsAscii (print_i64 z)
unfolding print_i64
print_i64-IsAscii (pos n) = print_nat-IsAscii n
print_i64-IsAscii (negsuc n) = (omega arith, print_nat-IsAscii (suc n))

IsPlain-if : (b : Bool) (x y : List ℕ) → IsPlain x → IsPlain y → IsPlain (if b then x else y)
IsPlain-if true x y h k = h
IsPlain-if false x y h k = k

emit-IsPlain : (rounds n : ℕ) (out : List ℕ) → IsPlain out → IsPlain (emit rounds n out)
unfolding emit
emit-IsPlain zero n out h = h
emit-IsPlain (suc k) n out h =
    IsPlain-if (n == 0) out (emit k (n / 10) ((b'0' + n % 10) ∷ out)) h
      (emit-IsPlain k (n / 10) ((b'0' + n % 10) ∷ out) (ground arith, h))

print_nat-IsPlain : (n : ℕ) → IsPlain (print_nat n)
unfolding print_nat
print_nat-IsPlain n =
    IsPlain-if (n == 0) (b'0' ∷ []) (emit 20 n []) (refl, tt) (emit-IsPlain 20 n [] tt)

pub print_i64-IsPlain : (z : ℤ) → IsPlain (print_i64 z)
unfolding print_i64
print_i64-IsPlain (pos n) = print_nat-IsPlain n
print_i64-IsPlain (negsuc n) = (refl, print_nat-IsPlain (suc n))
