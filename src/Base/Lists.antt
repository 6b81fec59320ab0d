-- ===== src/Base/Lists.antt =====
-- Lists measured and indexed by native numbers, under the library's names.
use Prim.Native.Nat.{ℕ, zero, suc, ◌+◌, ◌-◌, ◌≤◌, ◌<◌, min}
use mathlib.Core.Path.{◌≡◌, refl, sym, ap, ◌∙◌}
use mathlib.Core.Logic.{◌≢◌}
use mathlib.Core.Bool.{Bool, true, false}
use mathlib.Core.List.{List, [], ◌∷◌, ◌++◌, map, reverse, reverse-append}
use mathlib.Core.Option
use mathlib.Core.Option.{Option, none, some}
use native.Mathlib.Omega.{arith}
use native.Mathlib.Decide.{dec_le}
use ai_kv.Base.Tests.{ltb, if◌then◌else◌}

module _ {ℓ} {A : Type ℓ} where
  abbrev pub length : List A → ℕ
  length [] = 0
  length (x ∷ xs) = suc (length xs)

  abbrev pub get_elem? : List A → ℕ → Option A
  get_elem? [] i = none
  get_elem? (x ∷ xs) zero = some x
  get_elem? (x ∷ xs) (suc i) = get_elem? xs i

  abbrev pub set : List A → ℕ → A → List A
  set [] i v = []
  set (x ∷ xs) zero v = v ∷ xs
  set (x ∷ xs) (suc i) v = x ∷ set xs i v

  -- A change through `get_mut`: out of bounds nothing happens.
  abbrev pub adjust : List A → ℕ → (A → A) → List A
  adjust [] i f = []
  adjust (x ∷ xs) zero f = f x ∷ xs
  adjust (x ∷ xs) (suc i) f = x ∷ adjust xs i f

  pub length-adjust : (xs : List A) (i : ℕ) (f : A → A) → length (adjust xs i f) ≡ length xs
  length-adjust [] i f = refl
  length-adjust (x ∷ xs) zero f = refl
  length-adjust (x ∷ xs) (suc i) f = ap suc (length-adjust xs i f)

  get_elem?-adjust_ne :
      (xs : List A) (i j : ℕ) (f : A → A) → i ≢ j → get_elem? (adjust xs i f) j ≡ get_elem? xs j
  get_elem?-adjust_ne [] i j f h = refl
  get_elem?-adjust_ne (x ∷ xs) zero zero f h = absurd (h refl)
  get_elem?-adjust_ne (x ∷ xs) zero (suc j) f h = refl
  get_elem?-adjust_ne (x ∷ xs) (suc i) zero f h = refl
  get_elem?-adjust_ne (x ∷ xs) (suc i) (suc j) f h =
      get_elem?-adjust_ne xs i j f (λ e. h (ap suc e))

  get_elem?-adjust_self :
      (xs : List A) (i : ℕ) (f : A → A)
      → get_elem? (adjust xs i f) i ≡ Option.map f (get_elem? xs i)
  get_elem?-adjust_self [] i f = refl
  get_elem?-adjust_self (x ∷ xs) zero f = refl
  get_elem?-adjust_self (x ∷ xs) (suc i) f = get_elem?-adjust_self xs i f

  abbrev pub take : ℕ → List A → List A
  take zero xs = []
  take (suc n) [] = []
  take (suc n) (x ∷ xs) = x ∷ take n xs

  abbrev pub drop : ℕ → List A → List A
  drop zero xs = xs
  drop (suc n) [] = []
  drop (suc n) (x ∷ xs) = drop n xs

  abbrev pub replicate : ℕ → A → List A
  replicate zero a = []
  replicate (suc n) a = a ∷ replicate n a

  abbrev pub is_empty : List A → Bool
  is_empty [] = true
  is_empty (x ∷ xs) = false

  -- `filter` with a Boolean test
  abbrev pub filter : (A → Bool) → List A → List A
  filter test [] = []
  filter test (x ∷ xs) = if test x then x ∷ filter test xs else filter test xs

  pub length-append : (xs ys : List A) → length (xs ++ ys) ≡ length xs + length ys
  length-append [] ys = omega arith
  length-append (x ∷ xs) ys = omega (arith, length-append xs ys)

  pub length-set : (xs : List A) (i : ℕ) (v : A) → length (set xs i v) ≡ length xs
  length-set [] i v = refl
  length-set (x ∷ xs) zero v = refl
  length-set (x ∷ xs) (suc i) v = ap suc (length-set xs i v)

  pub get_elem?-set_self :
      (xs : List A) (i : ℕ) (v : A) → i < length xs → get_elem? (set xs i v) i ≡ some v
  get_elem?-set_self [] i v h = elim h [ ]
  get_elem?-set_self (x ∷ xs) zero v h = refl
  get_elem?-set_self (x ∷ xs) (suc i) v h = get_elem?-set_self xs i v (omega arith)

  get_elem?-set_ne :
      (xs : List A) (i j : ℕ) (v : A) → i ≢ j → get_elem? (set xs i v) j ≡ get_elem? xs j
  get_elem?-set_ne [] i j v h = refl
  get_elem?-set_ne (x ∷ xs) zero zero v h = absurd (h refl)
  get_elem?-set_ne (x ∷ xs) zero (suc j) v h = refl
  get_elem?-set_ne (x ∷ xs) (suc i) zero v h = refl
  get_elem?-set_ne (x ∷ xs) (suc i) (suc j) v h = get_elem?-set_ne xs i j v (λ e. h (ap suc e))

  pub get_elem?-some : (xs : List A) (i : ℕ) → i < length xs → (a : A) × (get_elem? xs i ≡ some a)
  get_elem?-some [] i h = elim h [ ]
  get_elem?-some (x ∷ xs) zero h = (x, refl)
  get_elem?-some (x ∷ xs) (suc i) h = get_elem?-some xs i (omega arith)

  pub get_elem?-none : (xs : List A) (i : ℕ) → length xs ≤ i → get_elem? xs i ≡ none
  get_elem?-none [] i h = refl
  get_elem?-none (x ∷ xs) zero h = absurd (omega arith)
  get_elem?-none (x ∷ xs) (suc i) h = get_elem?-none xs i (omega arith)

  pub length_of_get_elem? : (xs : List A) (i : ℕ) (a : A) → get_elem? xs i ≡ some a → i < length xs
  length_of_get_elem? [] i a h = cc
  length_of_get_elem? (x ∷ xs) zero a h = omega arith
  length_of_get_elem? (x ∷ xs) (suc i) a h = omega (arith, length_of_get_elem? xs i a h)

  pub take-nil : (n : ℕ) → take n [] ≡ []
  take-nil zero = refl
  take-nil (suc n) = refl

  pub drop-nil : (n : ℕ) → drop n [] ≡ []
  drop-nil zero = refl
  drop-nil (suc n) = refl

  drop-length-le : (n : ℕ) (xs : List A) → length xs ≤ n → drop n xs ≡ []
  drop-length-le zero [] h = refl
  drop-length-le zero (x ∷ xs) h = absurd (omega arith)
  drop-length-le (suc n) [] h = refl
  drop-length-le (suc n) (x ∷ xs) h = drop-length-le n xs (omega arith)

  pub take-length-le : (n : ℕ) (xs : List A) → length xs ≤ n → take n xs ≡ xs
  take-length-le zero [] h = refl
  take-length-le zero (x ∷ xs) h = absurd (omega arith)
  take-length-le (suc n) [] h = refl
  take-length-le (suc n) (x ∷ xs) h = ap (λ l. x ∷ l) (take-length-le n xs (omega arith))

  pub take-min : (n : ℕ) (xs : List A) → take (min n (length xs)) xs ≡ take n xs
  take-min n xs = elim (dec_le n (length xs)) [
    | yes h ↦ ap (λ m. take m xs) {x = min n (length xs)} {y = n} (omega arith)
    | no h ↦
        ap (λ m. take m xs) {x = min n (length xs)} {y = length xs} (omega arith)
        ∙ take-length-le (length xs) xs (omega arith)
        ∙ sym (take-length-le n xs (omega arith))
  ]

  pub drop-min : (n : ℕ) (xs : List A) → drop (min n (length xs)) xs ≡ drop n xs
  drop-min n xs = elim (dec_le n (length xs)) [
    | yes h ↦ ap (λ m. drop m xs) {x = min n (length xs)} {y = n} (omega arith)
    | no h ↦
        ap (λ m. drop m xs) {x = min n (length xs)} {y = length xs} (omega arith)
        ∙ drop-length-le (length xs) xs (omega arith)
        ∙ sym (drop-length-le n xs (omega arith))
  ]

  pub take-append-drop : (n : ℕ) (xs : List A) → take n xs ++ drop n xs ≡ xs
  take-append-drop zero xs = refl
  take-append-drop (suc n) [] = refl
  take-append-drop (suc n) (x ∷ xs) = rw (take-append-drop n xs)

  pub length-take : (n : ℕ) (xs : List A) → length (take n xs) ≡ min n (length xs)
  length-take zero xs = omega arith
  length-take (suc n) [] = omega arith
  length-take (suc n) (x ∷ xs) = omega (arith, length-take n xs)

  pub length-drop : (n : ℕ) (xs : List A) → length (drop n xs) ≡ length xs - n
  length-drop zero xs = omega arith
  length-drop (suc n) [] = omega arith
  length-drop (suc n) (x ∷ xs) = omega (arith, length-drop n xs)

  pub get_elem?-take :
      (n : ℕ) (xs : List A) (i : ℕ) → i < n → get_elem? (take n xs) i ≡ get_elem? xs i
  get_elem?-take zero xs i h = elim h [ ]
  get_elem?-take (suc n) [] i h = refl
  get_elem?-take (suc n) (x ∷ xs) zero h = refl
  get_elem?-take (suc n) (x ∷ xs) (suc i) h = get_elem?-take n xs i (omega arith)

  pub get_elem?-drop :
      (n : ℕ) (xs : List A) (i : ℕ) → get_elem? (drop n xs) i ≡ get_elem? xs (n + i)
  get_elem?-drop zero xs i = ap (get_elem? xs) {x = i} {y = zero + i} (omega arith)
  get_elem?-drop (suc n) [] i = refl
  get_elem?-drop (suc n) (x ∷ xs) i =
      get_elem?-drop n xs i
      ∙ ap (get_elem? (x ∷ xs)) {x = suc (n + i)} {y = suc n + i} (omega arith)

  pub length-replicate : (n : ℕ) (a : A) → length (replicate n a) ≡ n
  length-replicate zero a = refl
  length-replicate (suc n) a = ap suc (length-replicate n a)

module _ {ℓ} {A : Type ℓ} where
  pub length-reverse : (xs : List A) → length (reverse xs) ≡ length xs
  length-reverse [] = refl
  length-reverse (x ∷ xs) =
      ap length (reverse-append (x ∷ []) xs)
      ∙ length-append (reverse xs) (x ∷ [])
      ∙ omega (arith, length-reverse xs)

  pub length-map {κ} : {B : Type κ} (xs : List A) (f : A → B) → length (map f xs) ≡ length xs
  length-map [] f = refl
  length-map (x ∷ xs) f = ap suc (length-map xs f)

module _ {A : Type 0} where
  pub get_elem?-append :
      (xs ys : List A) (i : ℕ)
      → get_elem? (xs ++ ys) i
        ≡ (if ltb i (length xs) then get_elem? xs i else get_elem? ys (i - length xs))
  get_elem?-append [] ys i = ground arith
  get_elem?-append (x ∷ xs) ys zero = ground arith
  get_elem?-append (x ∷ xs) ys (suc i) = ground (arith, get_elem?-append xs ys i)

  pub get_elem?-replicate :
      (n : ℕ) (x : A) (i : ℕ) → get_elem? (replicate n x) i ≡ (if ltb i n then some x else none)
  get_elem?-replicate zero x i = ground arith
  get_elem?-replicate (suc n) x zero = ground arith
  get_elem?-replicate (suc n) x (suc i) = ground (arith, get_elem?-replicate n x i)
