-- ===== src/Command/Strings/Ranges/Bits.antt =====
-- SETBIT, bit by bit.
use ai_kv.Base.{
  ℕ, zero, suc, ◌+◌, ◌/◌, ◌%◌, ◌<◌, ◌≤◌, ◌≡◌, refl, ap, false, Option, some, [], ◌∷◌, arith, ◌==◌,
  if◌then◌else◌, get_elem?, get_elem?-none, adjust, length, pos, Option-cases, inl, inr,
}
use ai_kv.Text.{Bytes}
use ai_kv.Text.Utf8.{from_utf8_lossy}
use ai_kv.Text.Number.{parse_unsigned}
use ai_kv.Error.{ok}
use ai_kv.Resp.{integer}
use ai_kv.Storage.Value.{new_string}
use ai_kv.Storage.Adapter.{StorageAdapter}
use ai_kv.Storage.View.{view, InRange}
use ai_kv.Storage.Contract.{Shows, get_from_db-view, string_of}
use ai_kv.Command.Index.{usize_arg}
use ai_kv.Command.Strings.{bytes_or_empty}
use ai_kv.Command.Strings.Shown.{set_in_db_lem, Shows-new_string}
use ai_kv.Command.Strings.Ranges.{setbit, extend, bit_at, put_bit, byte_or_zero, bit_arg}
use ai_kv.Command.Strings.Ranges.Placement.{get_elem?-extend, length-extend}

below_8 : (P : ℕ → Type 0) → P 0 → P 1 → P 2 → P 3 → P 4 → P 5 → P 6 → P 7 → (i : ℕ) → i < 8 → P i
below_8 P a b c d e f g h zero lt = a
below_8 P a b c d e f g h (suc zero) lt = b
below_8 P a b c d e f g h (suc (suc zero)) lt = c
below_8 P a b c d e f g h (suc (suc (suc zero))) lt = d
below_8 P a b c d e f g h (suc (suc (suc (suc zero)))) lt = e
below_8 P a b c d e f g h (suc (suc (suc (suc (suc zero))))) lt = f
below_8 P a b c d e f g h (suc (suc (suc (suc (suc (suc zero)))))) lt = g
below_8 P a b c d e f g h (suc (suc (suc (suc (suc (suc (suc zero))))))) lt = h
below_8 P a b c d e f g h (suc (suc (suc (suc (suc (suc (suc (suc i)))))))) lt =
    absurd (omega arith)

-- Writing one bit of a byte leaves the seven others.
bit_at-put_bit :
    (bit byte i : ℕ)
    → bit ≤ 1
    → i < 8
    → (j : ℕ) → j < 8
    → bit_at j (put_bit i bit byte) ≡ (if i == j then bit else bit_at j byte)
unfolding bit_at put_bit
bit_at-put_bit bit byte i small lt =
    below_8
      (λ i.
        (j : ℕ) → j < 8 → bit_at j (put_bit i bit byte) ≡ (if i == j then bit else bit_at j byte))
      (below_8 (λ j. bit_at j (put_bit 0 bit byte) ≡ (if 0 == j then bit else bit_at j byte))
        (omega arith) (omega arith) (omega arith) (omega arith) (omega arith) (omega arith)
        (omega arith) (omega arith))
      (below_8 (λ j. bit_at j (put_bit 1 bit byte) ≡ (if 1 == j then bit else bit_at j byte))
        (omega arith) (omega arith) (omega arith) (omega arith) (omega arith) (omega arith)
        (omega arith) (omega arith))
      (below_8 (λ j. bit_at j (put_bit 2 bit byte) ≡ (if 2 == j then bit else bit_at j byte))
        (omega arith) (omega arith) (omega arith) (omega arith) (omega arith) (omega arith)
        (omega arith) (omega arith))
      (below_8 (λ j. bit_at j (put_bit 3 bit byte) ≡ (if 3 == j then bit else bit_at j byte))
        (omega arith) (omega arith) (omega arith) (omega arith) (omega arith) (omega arith)
        (omega arith) (omega arith))
      (below_8 (λ j. bit_at j (put_bit 4 bit byte) ≡ (if 4 == j then bit else bit_at j byte))
        (omega arith) (omega arith) (omega arith) (omega arith) (omega arith) (omega arith)
        (omega arith) (omega arith))
      (below_8 (λ j. bit_at j (put_bit 5 bit byte) ≡ (if 5 == j then bit else bit_at j byte))
        (omega arith) (omega arith) (omega arith) (omega arith) (omega arith) (omega arith)
        (omega arith) (omega arith))
      (below_8 (λ j. bit_at j (put_bit 6 bit byte) ≡ (if 6 == j then bit else bit_at j byte))
        (omega arith) (omega arith) (omega arith) (omega arith) (omega arith) (omega arith)
        (omega arith) (omega arith))
      (below_8 (λ j. bit_at j (put_bit 7 bit byte) ≡ (if 7 == j then bit else bit_at j byte))
        (omega arith) (omega arith) (omega arith) (omega arith) (omega arith) (omega arith)
        (omega arith) (omega arith))
      i lt

-- Bit `i` of a string: the bits of a byte count from the most significant, and behind the end they are 0.
abbrev pub bit_of : Bytes → ℕ → ℕ
bit_of b i = bit_at (i % 8) (byte_or_zero (get_elem? b (i / 8)))

byte-extend :
    (n : ℕ) (b : Bytes) (k : ℕ)
    → byte_or_zero (get_elem? (extend n b) k) ≡ byte_or_zero (get_elem? b k)
unfolding byte_or_zero
byte-extend n b k = ground (arith, get_elem?-extend n b k, get_elem?-none b k)

byte-adjust :
    (b : Bytes) (k m : ℕ) (f : ℕ → ℕ)
    → k < length b
    → byte_or_zero (get_elem? (adjust b k f) m)
      ≡ (if k == m then f (byte_or_zero (get_elem? b k)) else byte_or_zero (get_elem? b m))
unfolding byte_or_zero
byte-adjust [] k m f h = elim h [ ]
byte-adjust (x ∷ b) zero zero f h = refl
byte-adjust (x ∷ b) zero (suc m) f h = ground arith
byte-adjust (x ∷ b) (suc k) zero f h = ground arith
byte-adjust (x ∷ b) (suc k) (suc m) f h = ground (arith, byte-adjust b k m f)

same_place : (o j : ℕ) → (o == j) ≡ (if o / 8 == j / 8 then o % 8 == j % 8 else false)
same_place o j = ground arith

module _ (offset bit : ℕ) (old : Bytes) where
  abbrev pub with_bit : Bytes
  with_bit = adjust (extend (offset / 8 + 1) old) (offset / 8) (put_bit (offset % 8) bit)

  bit_of-with_bit :
      (j : ℕ) → bit ≤ 1 → bit_of with_bit j ≡ (if offset == j then bit else bit_of old j)
  bit_of-with_bit j small = ground (
    arith,
    byte-adjust (extend (offset / 8 + 1) old) (offset / 8) (j / 8) (put_bit (offset % 8) bit)
        (omega (arith, length-extend (offset / 8 + 1) old)),
    byte-extend (offset / 8 + 1) old (offset / 8),
    byte-extend (offset / 8 + 1) old (j / 8),
    bit_at-put_bit bit (byte_or_zero (get_elem? old (offset / 8))) (offset % 8) small (omega arith)
        (j % 8) (omega arith),
    same_place offset j,
  )

bit_arg-le : (v : Bytes) (bit : ℕ) → bit_arg v ≡ ok bit → bit ≤ 1
unfolding bit_arg
bit_arg-le v bit e = elim (Option-cases (parse_unsigned 256 (from_utf8_lossy v))) [
  | inl miss ↦ ground arith
  | inr (n, read) ↦ ground arith
]

-- SETBIT into a database that is there, at a key that shows a string or nothing: the reply is the old bit
-- at the offset; the key shows a string with no time in which that bit is the new one and every other
-- bit is as it was, and all other keys show what they showed.
pub setbit_contract :
    (now : ℕ) (k o v : Bytes) (db : ℕ) (s : StorageAdapter) (offset bit : ℕ) (old : Option Bytes)
    → InRange s db
    → usize_arg "ERR bit offset is not an integer or out of range" o ≡ ok offset
    → bit_arg v ≡ ok bit
    → string_of (view now s db (from_utf8_lossy k)) ≡ ok old
    → (r : Bytes) × ((j : ℕ)
        → bit_of r j ≡ (if offset == j then bit else bit_of (bytes_or_empty old) j))
      × ((setbit now (k ∷ o ∷ v ∷ []) db s).0
          ≡ ok (integer (pos (bit_of (bytes_or_empty old) offset))))
      × Shows now s db
          (from_utf8_lossy k)
          (some (new_string r))
          (setbit now (k ∷ o ∷ v ∷ []) db s).1
unfolding setbit
setbit_contract now k o v db s offset bit old h parsed bit_parsed shown =
    let key = from_utf8_lossy k in
    let b = bytes_or_empty old in
    let r = with_bit offset bit b in
    rw (parsed, bit_parsed, get_from_db-view now db key s, shown, set_in_db_lem db key s r h)
      (
        r,
        λ j. bit_of-with_bit offset bit b j (bit_arg-le v bit bit_parsed),
        ap (λ x. ok (integer (pos (bit_at (offset % 8) x))))
            (byte-extend (offset / 8 + 1) b (offset / 8)),
        Shows-new_string db key s r now h,
      )
