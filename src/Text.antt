-- ===== src/Text.antt =====
-- Rust's strings and numbers as the handlers use them. A `String` is the list of its UTF-8 bytes.
-- `from_utf8_lossy`, `to_uppercase`, `parse` and `to_string` are the standard library's.
pub mod Utf8
pub mod Number
pub mod LittleEndian
use Prim.Native.Char.{code}
use ai_kv.Base.{
  ℕ, String, ◌≡◌, ◌↔◌, Bool, true, false, ◌&&◌, List, [], ◌∷◌, refl, arith, ltb, ◌==◌,
  if◌then◌else◌,
}

abbrev pub Bytes : Type 0
Bytes = List ℕ

-- The bytes of an ASCII literal.
unfoldable pub codes : String → Bytes
codes String.[] = []
codes (String.◌∷◌ c s) = code c ∷ codes s

-- `==` on byte strings and on strings.
unfoldable pub bytes_eq : Bytes → Bytes → Bool
bytes_eq [] [] = true
bytes_eq [] (b ∷ t) = false
bytes_eq (a ∷ s) [] = false
bytes_eq (a ∷ s) (b ∷ t) = a == b && bytes_eq s t

bytes_eq_sound : (s t : Bytes) → bytes_eq s t ≡ true → s ≡ t
unfolding bytes_eq
bytes_eq_sound [] [] h = refl
bytes_eq_sound [] (b ∷ t) h = cc
bytes_eq_sound (a ∷ s) [] h = cc
bytes_eq_sound (a ∷ s) (b ∷ t) h = ground (arith, bytes_eq_sound s t)

bytes_eq_refl : (s : Bytes) → bytes_eq s s ≡ true
unfolding bytes_eq
bytes_eq_refl [] = refl
bytes_eq_refl (a ∷ s) = ground (arith, bytes_eq_refl s)

bytes_eq_complete : (s t : Bytes) → s ≡ t → bytes_eq s t ≡ true
bytes_eq_complete s t e = rw (← e) (bytes_eq_refl s)

pub bytes_eq_iff : (s t : Bytes) → (bytes_eq s t ≡ true) ↔ (s ≡ t)
bytes_eq_iff s t = (bytes_eq_sound s t, bytes_eq_complete s t)

-- `<=` on byte strings and on strings: the order of the bytes, a prefix first
unfoldable pub bytes_leb : Bytes → Bytes → Bool
bytes_leb [] t = true
bytes_leb (a ∷ s) [] = false
bytes_leb (a ∷ s) (b ∷ t) = if a == b then bytes_leb s t else ltb a b
