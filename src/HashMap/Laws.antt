-- ===== src/HashMap/Laws.antt =====
-- Looking up in a map that has been changed, and the invariant that a key has one entry.
use ai_kv.Base.{◌≡◌, refl, Bool, none, some, [], ◌∷◌, arith, if◌then◌else◌}
use ai_kv.Text.{Bytes, bytes_eq, bytes_eq_iff}
use ai_kv.HashMap.{HashMap, get, insert, remove, retain}

module _ {ℓ} {V : Type ℓ} where
  pub get-insert :
      (m : HashMap V) (k j : Bytes) (v : V)
      → get (insert m k v) j ≡ (if bytes_eq k j then some v else get m j)
  unfolding get insert
  get-insert [] k j v = refl
  get-insert ((i, w) ∷ m) k j v =
      ground (arith, get-insert m k j v, bytes_eq_iff k j, bytes_eq_iff i k, bytes_eq_iff i j)

  pub get-remove :
      (m : HashMap V) (k j : Bytes) → get (remove m k) j ≡ (if bytes_eq k j then none else get m j)
  unfolding get remove
  get-remove [] k j = ground arith
  get-remove ((i, w) ∷ m) k j =
      ground (arith, get-remove m k j, bytes_eq_iff k j, bytes_eq_iff i k, bytes_eq_iff i j)

  abbrev pub Lacks : HashMap V → Bytes → Type ℓ
  Lacks m k = get m k ≡ none

  -- One entry for each key.
  abbrev pub IsDistinct : HashMap V → Type ℓ
  IsDistinct [] = Unit
  IsDistinct ((j, v) ∷ m) = Lacks m j × IsDistinct m

  insert-IsDistinct : (m : HashMap V) (k : Bytes) (v : V) → IsDistinct m → IsDistinct (insert m k v)
  unfolding get insert
  insert-IsDistinct [] k v h = (refl, tt)
  insert-IsDistinct ((j, w) ∷ m) k v h =
      ground
        (arith, insert-IsDistinct m k v h.1, get-insert m k j v, bytes_eq_iff j k, bytes_eq_iff k j)

  pub remove-IsDistinct : (m : HashMap V) (k : Bytes) → IsDistinct m → IsDistinct (remove m k)
  unfolding remove
  remove-IsDistinct [] k h = tt
  remove-IsDistinct ((j, w) ∷ m) k h = ground (arith, remove-IsDistinct m k h.1, get-remove m k j)

  -- With one entry for each key, a key is looked up among those that are kept.
  get-retain :
      (keep : V → Bool) (m : HashMap V) (k : Bytes)
      → IsDistinct m
      → get (retain keep m) k
        ≡ elim (get m k) [ none ↦ none | some v ↦ if keep v then some v else none ]
  unfolding get retain
  get-retain keep [] k h = refl
  get-retain keep ((j, v) ∷ m) k h = ground (arith, get-retain keep m k h.1, bytes_eq_iff j k)

  retain-IsDistinct : (keep : V → Bool) (m : HashMap V) → IsDistinct m → IsDistinct (retain keep m)
  unfolding retain
  retain-IsDistinct keep [] h = tt
  retain-IsDistinct keep ((j, v) ∷ m) h =
      ground (arith, retain-IsDistinct keep m h.1, get-retain keep m j h.1)
