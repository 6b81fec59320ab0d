-- ===== src/Storage/Serial.antt =====
-- The serialised form of a value reads back as the value.
use ai_kv.Base.{◌≡◌, refl, sym, ◌∙◌, ap, false, arith, [], ◌∷◌, ◌++◌, map, append_assoc, append-nil}
use ai_kv.Text.{Bytes, bytes_eq, bytes_eq_iff}
use ai_kv.HashMap
use ai_kv.HashMap.{HashMap}
use ai_kv.HashMap.Laws.{IsDistinct, Lacks}
use ai_kv.Storage.Value.{
  ValueType, StoredValue, to_serializable, from_serializable, serializable_value,
  value_of_serializable, collect,
}

-- The maps and the sets in a value have one entry for each key.
abbrev pub IsProper : ValueType → Type 0
IsProper (ValueType.hash h) = IsDistinct h
IsProper (ValueType.set m) = IsDistinct m
IsProper (ValueType.zset z) = IsDistinct z
IsProper _ = Unit

module _ {ℓ} {V : Type ℓ} where
  insert_new :
      (m : HashMap V) (k : Bytes) (v : V) → Lacks m k → HashMap.insert m k v ≡ m ++ (k, v) ∷ []
  unfolding HashMap.insert HashMap.get
  insert_new [] k v h = refl
  insert_new ((j, w) ∷ m) k v h = ground (arith, insert_new m k v)

  -- The keys of `l` are not in `m`.
  abbrev Apart : HashMap V → HashMap V → Type ℓ
  Apart m [] = Unit
  Apart m ((k, v) ∷ l) = Lacks m k × Apart m l

  Lacks-append :
      (m : HashMap V) (j : Bytes) (w : V) (k : Bytes)
      → Lacks m k
      → bytes_eq j k ≡ false
      → Lacks (m ++ (j, w) ∷ []) k
  unfolding HashMap.get
  Lacks-append [] j w k h e = ground arith
  Lacks-append ((i, u) ∷ m) j w k h e = ground (arith, Lacks-append m j w k)

  Apart-append :
      (m l : HashMap V) (j : Bytes) (w : V) → Apart m l → Lacks l j → Apart (m ++ (j, w) ∷ []) l
  unfolding HashMap.get
  Apart-append m [] j w a h = tt
  Apart-append m ((k, v) ∷ l) j w a h = (
    Lacks-append m j w k a.0 (ground (arith, bytes_eq_iff j k, bytes_eq_iff k j)),
    Apart-append m l j w a.1 (ground arith),
  )

  -- Collecting entries with distinct keys, none of them there, puts them behind the others.
  collect-append : (m l : HashMap V) → IsDistinct l → Apart m l → collect m l ≡ m ++ l
  unfolding collect
  collect-append m [] d a = sym (append-nil m)
  collect-append m ((k, v) ∷ l) d a =
      rw
        (
          insert_new m k v a.0,
          collect-append (m ++ (k, v) ∷ []) l d.1 (Apart-append m l k v a.1 d.0),
        )
        (append_assoc m ((k, v) ∷ []) l)

  Apart-nil : (l : HashMap V) → Apart [] l
  unfolding HashMap.get
  Apart-nil [] = tt
  Apart-nil ((k, v) ∷ l) = (refl, Apart-nil l)

  collect_all : (l : HashMap V) → IsDistinct l → collect [] l ≡ l
  collect_all l d = collect-append [] l d (Apart-nil l)

-- A set's members, with their entries again.
entries-keys : (m : HashMap (Unit {0})) → map (λ k. (k, tt)) (HashMap.keys m) ≡ m
unfolding HashMap.keys
entries-keys [] = refl
entries-keys ((k, tt) ∷ m) = ap (λ l. (k, tt) ∷ l) (entries-keys m)

round_value : (v : ValueType) → IsProper v → value_of_serializable (serializable_value v) ≡ v
unfolding value_of_serializable serializable_value
round_value (ValueType.string b) h = refl
round_value (ValueType.list l) h = refl
round_value (ValueType.hash m) h = ap ValueType.hash (collect_all m h)
round_value (ValueType.set m) h =
    ap ValueType.set (ap (collect []) (entries-keys m) ∙ collect_all m h)
round_value (ValueType.zset z) h = ap ValueType.zset (collect_all z h)

-- A value, its time included, is read back from its serialised form, if its maps and sets have one
-- entry for each key, as they have in Rust.
pub from_serializable-to_serializable :
    (v : StoredValue) → IsProper v.value → from_serializable (to_serializable v) ≡ v
unfolding from_serializable to_serializable
from_serializable-to_serializable v h =
    λ i. record { value = round_value v.value h i; expires_at = v.expires_at }
