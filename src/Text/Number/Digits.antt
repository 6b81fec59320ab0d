-- ===== src/Text/Number/Digits.antt =====
-- What `to_string` of a number prints is digits.
use ai_kv.Base.{
  ℕ, zero, suc, ◌+◌, ◌/◌, ◌%◌, ◌≤◌, Bool, true, false, List, [], ◌∷◌, ◌==◌, arith, if◌then◌else◌,
}
use ai_kv.Text.Number.{emit, print_nat}

abbrev pub AllDigits : List ℕ → Type 0
AllDigits [] = Unit
AllDigits (c ∷ s) = (b'0' ≤ c) × (c ≤ b'9') × AllDigits s

AllDigits-if :
    (b : Bool) (x y : List ℕ) → AllDigits x → AllDigits y → AllDigits (if b then x else y)
AllDigits-if true x y h k = h
AllDigits-if false x y h k = k

emit-AllDigits : (rounds n : ℕ) (out : List ℕ) → AllDigits out → AllDigits (emit rounds n out)
unfolding emit
emit-AllDigits zero n out h = h
emit-AllDigits (suc k) n out h =
    AllDigits-if (n == 0) out (emit k (n / 10) ((b'0' + n % 10) ∷ out)) h
      (emit-AllDigits k (n / 10) ((b'0' + n % 10) ∷ out) (omega arith, omega arith, h))

pub print_nat-AllDigits : (n : ℕ) → AllDigits (print_nat n)
unfolding print_nat
print_nat-AllDigits n =
    AllDigits-if (n == 0) (b'0' ∷ []) (emit 20 n []) (omega arith, omega arith, tt)
      (emit-AllDigits 20 n [] tt)
