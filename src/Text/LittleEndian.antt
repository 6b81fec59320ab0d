-- ===== src/Text/LittleEndian.antt =====
-- `u64::to_le_bytes` and `u64::from_le_bytes` of the standard library.
use ai_kv.Base.{ℕ, zero, suc, ◌+◌, ◌*◌, ◌/◌, ◌%◌, ◌<◌, ◌≡◌, refl, ap, [], ◌∷◌, length, arith}
use ai_kv.Text.{Bytes}

-- `to_le_bytes`, the low `n` of them
unfoldable pub le_bytes : ℕ → ℕ → Bytes
le_bytes zero x = []
le_bytes (suc n) x = (x % 256) ∷ le_bytes n (x / 256)

-- `u64::from_le_bytes`
unfoldable pub of_le_bytes : Bytes → ℕ
of_le_bytes [] = 0
of_le_bytes (b ∷ bs) = b + 256 * of_le_bytes bs

-- 256 to the power n
unfoldable pub span : ℕ → ℕ
span zero = 1
span (suc n) = 256 * span n

pub length-le_bytes : (n x : ℕ) → length (le_bytes n x) ≡ n
unfolding le_bytes
length-le_bytes zero x = refl
length-le_bytes (suc n) x = ap suc (length-le_bytes n (x / 256))

pub of_le_bytes-le_bytes : (n x : ℕ) → x < span n → of_le_bytes (le_bytes n x) ≡ x
unfolding of_le_bytes le_bytes span
of_le_bytes-le_bytes zero x h = omega arith
of_le_bytes-le_bytes (suc n) x h = omega (arith, of_le_bytes-le_bytes n (x / 256) (omega arith))
