-- ===== src/HashMap.antt =====
-- `HashMap<String, V>` and `HashSet<Vec<u8>>` as the handlers use them: an association list that
-- keeps one entry for a key. Iteration runs through the list; the order of the entries stands for
-- the order, not specified by Rust, in which the map would be read.
pub mod Laws
pub mod Sizes
use ai_kv.Base.{Bool, Option, none, some, List, [], ◌∷◌, if◌then◌else◌, is_some}
use ai_kv.Text.{Bytes, bytes_eq}

abbrev pub HashMap {ℓ} : Type ℓ → Type ℓ
HashMap V = List (Bytes × V)

module _ {ℓ} {V : Type ℓ} where
  unfoldable pub get : HashMap V → Bytes → Option V
  get [] k = none
  get ((j, v) ∷ m) k = if bytes_eq j k then some v else get m k

  unfoldable pub contains_key : HashMap V → Bytes → Bool
  contains_key m k = is_some (get m k)

  -- An entry that is there is overwritten in its place.
  unfoldable pub insert : HashMap V → Bytes → V → HashMap V
  insert [] k v = (k, v) ∷ []
  insert ((j, w) ∷ m) k v = if bytes_eq j k then (j, v) ∷ m else (j, w) ∷ insert m k v

  unfoldable pub remove : HashMap V → Bytes → HashMap V
  remove [] k = []
  remove ((j, v) ∷ m) k = let rest = remove m k in if bytes_eq j k then rest else (j, v) ∷ rest

  -- `retain`, and `filter` on the values
  unfoldable pub retain : (V → Bool) → HashMap V → HashMap V
  retain keep [] = []
  retain keep ((j, v) ∷ m) = let rest = retain keep m in if keep v then (j, v) ∷ rest else rest

  unfoldable pub keys : HashMap V → List Bytes
  keys [] = []
  keys ((j, v) ∷ m) = j ∷ keys m

  unfoldable pub values : HashMap V → List V
  values [] = []
  values ((j, v) ∷ m) = v ∷ values m
