-- ===== src/Command/Lists/Edit/Removal.antt =====
-- LREM and LTRIM: which occurrences go, and what is left at the key.
use ai_kv.Base.{
  ℕ, zero, suc, ◌+◌, ◌≡◌, refl, sym, ap, ◌∙◌, min, true, false, List, [], ◌∷◌, ◌++◌, reverse, arith,
  ℤ, pos, negsuc, if◌then◌else◌, append-nil, reverse-append, reverse-reverse, Bool-cases, inl, inr,
}
use ai_kv.Text.{Bytes, bytes_eq}
use ai_kv.Command.Lists.Edit.{remove_all, remove_some, remove_last, remove_by}

-- The elements that differ from one, in their order, and the number of those that do not.
abbrev pub others : Bytes → List Bytes → List Bytes
others e [] = []
others e (x ∷ xs) = if bytes_eq x e then others e xs else x ∷ others e xs

abbrev pub occurrences : Bytes → List Bytes → ℕ
occurrences e [] = 0
occurrences e (x ∷ xs) = if bytes_eq x e then occurrences e xs + 1 else occurrences e xs

others-append : (e : Bytes) (a b : List Bytes) → others e (a ++ b) ≡ others e a ++ others e b
others-append e [] b = refl
others-append e (x ∷ a) b = ground (arith, others-append e a b)

occurrences-append :
    (e : Bytes) (a b : List Bytes) → occurrences e (a ++ b) ≡ occurrences e a + occurrences e b
occurrences-append e [] b = omega arith
occurrences-append e (x ∷ a) b = ground (arith, occurrences-append e a b)

others-reverse : (e : Bytes) (l : List Bytes) → others e (reverse l) ≡ reverse (others e l)
others-reverse e [] = refl
others-reverse e (x ∷ l) =
    ap (others e) (reverse-append (x ∷ []) l)
    ∙ others-append e (reverse l) (x ∷ [])
    ∙ ground (
      arith,
      others-reverse e l,
      append-nil (reverse (others e l)),
      reverse-append (x ∷ []) (others e l),
    )

occurrences-reverse : (e : Bytes) (l : List Bytes) → occurrences e (reverse l) ≡ occurrences e l
occurrences-reverse e [] = refl
occurrences-reverse e (x ∷ l) =
    ap (occurrences e) (reverse-append (x ∷ []) l)
    ∙ occurrences-append e (reverse l) (x ∷ [])
    ∙ ground (arith, occurrences-reverse e l)

remove_all_lem : (e : Bytes) (l : List Bytes) → remove_all e l ≡ (occurrences e l, others e l)
unfolding remove_all
remove_all_lem e [] = refl
remove_all_lem e (x ∷ l) = ground (arith, remove_all_lem e l)

remove_some_none : (e : Bytes) (l : List Bytes) → remove_some e 0 l ≡ (0, l)
unfolding remove_some
remove_some_none e [] = refl
remove_some_none e (x ∷ l) = ground (arith, remove_some_none e l)

-- The first part of a list without its occurrences, at most `n` of them, and the rest untouched.
abbrev pub FirstRemoved : Bytes → ℕ → List Bytes → ℕ × List Bytes → Type 0
FirstRemoved e n l (removed, kept) =
    (a b : List Bytes) × (l ≡ a ++ b)
    × (kept ≡ others e a ++ b)
    × (removed ≡ occurrences e a)
    × (removed ≡ min n (occurrences e l))

remove_some-hit :
    (e : Bytes) (n : ℕ) (x : Bytes) (l : List Bytes)
    → bytes_eq x e ≡ true
    → remove_some e (suc n) (x ∷ l) ≡ ((remove_some e n l).0 + 1, (remove_some e n l).1)
unfolding remove_some
remove_some-hit e n x l hit = ground arith

remove_some-miss :
    (e : Bytes) (n : ℕ) (x : Bytes) (l : List Bytes)
    → bytes_eq x e ≡ false
    → remove_some e n (x ∷ l) ≡ ((remove_some e n l).0, x ∷ (remove_some e n l).1)
unfolding remove_some
remove_some-miss e n x l miss = ground arith

remove_some_lem : (e : Bytes) (n : ℕ) (l : List Bytes) → FirstRemoved e n l (remove_some e n l)
remove_some_lem e n [] = unfold remove_some in ([], [], refl, refl, refl, omega arith)
remove_some_lem e zero (x ∷ l) =
    rw (remove_some_none e (x ∷ l)) ([], x ∷ l, refl, refl, refl, omega arith)
remove_some_lem e (suc n) (x ∷ l) = elim (Bool-cases (bytes_eq x e)) [
  | inl hit ↦
      let (a, b, whole, kept, count, bound) = remove_some_lem e n l in
      rw (remove_some-hit e n x l hit)
        (x ∷ a, b, ap (λ t. x ∷ t) whole, ground arith, ground arith, ground arith)
  | inr miss ↦
      let (a, b, whole, kept, count, bound) = remove_some_lem e (suc n) l in
      rw (remove_some-miss e (suc n) x l miss)
        (x ∷ a, b, ap (λ t. x ∷ t) whole, ground arith, ground arith, ground arith)
]

-- The same of the last part.
abbrev pub LastRemoved : Bytes → ℕ → List Bytes → ℕ × List Bytes → Type 0
LastRemoved e n l (removed, kept) =
    (a b : List Bytes) × (l ≡ a ++ b)
    × (kept ≡ a ++ others e b)
    × (removed ≡ occurrences e b)
    × (removed ≡ min n (occurrences e l))

remove_last_lem : (e : Bytes) (n : ℕ) (l : List Bytes) → LastRemoved e n l (remove_last e n l)
remove_last_lem e n l =
    let (a, b, whole, kept, count, bound) = remove_some_lem e n (reverse l) in
    unfold remove_last in
    (
      reverse b,
      reverse a,
      sym (reverse-reverse l) ∙ ap reverse whole ∙ reverse-append a b,
      ap reverse kept
          ∙ reverse-append (others e a) b
          ∙ ap (λ t. reverse b ++ t) (sym (others-reverse e a)),
      count ∙ sym (occurrences-reverse e a),
      bound ∙ ap (λ t. min n t) (occurrences-reverse e l),
    )

-- What LREM removes: with count 0 every occurrence, with a positive count so many of the first ones,
-- with a negative count so many of the last ones.
abbrev pub Removed : ℤ → Bytes → List Bytes → ℕ × List Bytes → Type 0
Removed (pos zero) e l (removed, kept) = (removed ≡ occurrences e l) × (kept ≡ others e l)
Removed (pos (suc n)) e l r = FirstRemoved e (suc n) l r
Removed (negsuc n) e l r = LastRemoved e (suc n) l r

pub remove_by_lem :
    (count : ℤ) (e : Bytes) (l : List Bytes) → Removed count e l (remove_by count e l)
unfolding remove_by
remove_by_lem (pos zero) e l = rw (remove_all_lem e l) (refl, refl)
remove_by_lem (pos (suc n)) e l = remove_some_lem e (suc n) l
remove_by_lem (negsuc n) e l = remove_last_lem e (suc n) l
