-- ===== src/Base/Sort/Ordered.antt =====
-- A stable sort of a list that is in the order `le2` already is in the lexicographic order of `le` and
-- `le2`, and has the elements of the list.
use mathlib.Core.Path.{◌≡◌, refl, ◌∙◌}
use mathlib.Core.Bool.{Bool, true, not, ◌&&◌, ◌||◌}
use mathlib.Core.List.{List, [], ◌∷◌}
use native.Mathlib.Omega.{arith}
use ai_kv.Base.Tests.{Bool-cases}
use ai_kv.Base.Lists.{length, filter}
use mathlib.Core.Logic.{inl, inr}
use ai_kv.Base.Sort.{insert_by, sort_by}

module _ {A : Type 0} where
  -- Every element passes the test.
  abbrev pub All : (A → Bool) → List A → Type 0
  All test [] = Unit
  All test (x ∷ xs) = (test x ≡ true) × All test xs

  -- Every element is `le` those behind it.
  abbrev pub IsSorted : (A → A → Bool) → List A → Type 0
  IsSorted le [] = Unit
  IsSorted le (x ∷ xs) = All (le x) xs × IsSorted le xs

  pub All-mono :
      (p q : A → Bool) (l : List A) → ((x : A) → p x ≡ true → q x ≡ true) → All p l → All q l
  All-mono p q [] f h = tt
  All-mono p q (x ∷ l) f h = (f x h.0, All-mono p q l f h.1)

module _ {A : Type 0} (le : A → A → Bool) where
  All-insert_by :
      (p : A → Bool) (x : A) (l : List A) → p x ≡ true → All p l → All p (insert_by le x l)
  unfolding insert_by
  All-insert_by p x [] h k = (h, tt)
  All-insert_by p x (y ∷ l) h k = elim (Bool-cases (le x y)) [
    | inl e ↦ rw e (h, k)
    | inr e ↦ rw e (k.0, All-insert_by p x l h k.1)
  ]

  pub All-sort_by : (p : A → Bool) (l : List A) → All p l → All p (sort_by le l)
  unfolding sort_by
  All-sort_by p [] h = tt
  All-sort_by p (x ∷ l) h = All-insert_by p x (sort_by le l) h.0 (All-sort_by p l h.1)

  count-insert_by :
      (p : A → Bool) (x : A) (l : List A)
      → length (filter p (insert_by le x l)) ≡ length (filter p (x ∷ l))
  unfolding insert_by
  count-insert_by p x [] = refl
  count-insert_by p x (y ∷ l) = ground (arith, count-insert_by p x l)

  -- As many elements pass any test as before.
  pub count-sort_by :
      (p : A → Bool) (l : List A) → length (filter p (sort_by le l)) ≡ length (filter p l)
  unfolding sort_by
  count-sort_by p [] = refl
  count-sort_by p (x ∷ l) = count-insert_by p x (sort_by le l) ∙ ground (arith, count-sort_by p l)

module _ {A : Type 0} (le le2 : A → A → Bool) where
  -- By `le`, and among equals by `le2`.
  abbrev pub lex : A → A → Bool
  lex x y = le x y && (not (le y x) || le2 x y)

-- `le` is total and transitive on what passes `fine`.
module _ {A : Type 0} (le le2 : A → A → Bool) (fine : A → Bool)
    (total : (x y : A) → fine x ≡ true → fine y ≡ true → (le x y || le y x) ≡ true)
    (trans : (x y z : A) → le x y ≡ true → le y z ≡ true → le x z ≡ true) where
  lex_through :
      (x y : A) (l : List A)
      → le x y ≡ true
      → All (lex le le2 y) l
      → All (le2 x) l
      → All (lex le le2 x) l
  lex_through x y [] h k m = tt
  lex_through x y (z ∷ l) h k m =
      (ground (arith, trans x y z, k.0, m.0), lex_through x y l h k.1 m.1)

  insert_by-IsSorted :
      (x : A) (l : List A)
      → fine x ≡ true
      → All fine l
      → All (le2 x) l
      → IsSorted (lex le le2) l
      → IsSorted (lex le le2) (insert_by le x l)
  unfolding insert_by
  insert_by-IsSorted x [] f g h s = (tt, tt)
  insert_by-IsSorted x (y ∷ l) f g h s = elim (Bool-cases (le x y)) [
    | inl e ↦ rw e ((ground (arith, h.0), lex_through x y l e s.0 h.1), s)
    | inr e ↦
        let below : lex le le2 y x ≡ true = ground (arith, total x y f g.0) in
        rw e (All-insert_by le (lex le le2 y) x l below s.0, insert_by-IsSorted x l f g.1 h.1 s.1)
  ]

  pub sort_by-IsSorted :
      (l : List A) → All fine l → IsSorted le2 l → IsSorted (lex le le2) (sort_by le l)
  unfolding sort_by
  sort_by-IsSorted [] g h = tt
  sort_by-IsSorted (x ∷ l) g h =
      insert_by-IsSorted x (sort_by le l) g.0 (All-sort_by le fine l g.1)
        (All-sort_by le (le2 x) l h.0) (sort_by-IsSorted l g.1 h.1)

pub IsSorted-mono :
    {A : Type 0} (p q : A → A → Bool) (l : List A)
    → ((x y : A) → p x y ≡ true → q x y ≡ true)
    → IsSorted p l
    → IsSorted q l
IsSorted-mono p q [] f h = tt
IsSorted-mono p q (x ∷ l) f h = (All-mono (p x) (q x) l (f x) h.0, IsSorted-mono p q l f h.1)
