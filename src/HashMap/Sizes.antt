-- ===== src/HashMap/Sizes.antt =====
-- How many entries a map has after an insertion and a removal.
use ai_kv.Base.{◌+◌, ◌≡◌, refl, [], ◌∷◌, length, is_none, is_some, arith, if◌then◌else◌}
use ai_kv.Text.{Bytes, bytes_eq_iff}
use ai_kv.HashMap.{HashMap, get, insert, remove}
use ai_kv.HashMap.Laws.{IsDistinct, Lacks}

module _ {ℓ} {V : Type ℓ} where
  pub length-insert :
      (h : HashMap V) (f : Bytes) (v : V)
      → length (insert h f v) ≡ (if is_none (get h f) then length h + 1 else length h)
  unfolding insert get
  length-insert [] f v = refl
  length-insert ((j, w) ∷ h) f v = ground (arith, length-insert h f v)

  remove-Lacks : (h : HashMap V) (f : Bytes) → Lacks h f → remove h f ≡ h
  unfolding remove get
  remove-Lacks [] f e = refl
  remove-Lacks ((j, w) ∷ h) f e = ground (arith, remove-Lacks h f)

  pub length-remove :
      (h : HashMap V) (f : Bytes)
      → IsDistinct h
      → length (remove h f) + (if is_some (get h f) then 1 else 0) ≡ length h
  unfolding remove get
  length-remove [] f d = refl
  length-remove ((j, w) ∷ h) f d =
      ground (arith, length-remove h f d.1, remove-Lacks h j d.0, bytes_eq_iff j f)
