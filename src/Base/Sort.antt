-- ===== src/Base/Sort.antt =====
-- A stable sort by a Boolean order, as the standard library's `sort_by` gives it.
pub mod Ordered
use mathlib.Core.Bool.{Bool}
use mathlib.Core.List.{List, [], ◌∷◌}
use ai_kv.Base.Tests.{if◌then◌else◌}

module _ {ℓ} {A : Type ℓ} (le : A → A → Bool) where
  -- In front of the first element that is not smaller.
  unfoldable pub insert_by : A → List A → List A
  insert_by x [] = x ∷ []
  insert_by x (y ∷ ys) = let rest = insert_by x ys in if le x y then x ∷ y ∷ ys else y ∷ rest

  unfoldable pub sort_by : List A → List A
  unfolding insert_by
  sort_by [] = []
  sort_by (x ∷ xs) = insert_by x (sort_by xs)
