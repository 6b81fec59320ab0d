-- ===== src/Storage/Disk/Reading.antt =====
-- What `set_value` of the persistent adapter stores, as `get_value` reads it, and the memory adapter.
use ai_kv.Base.{
  ℕ, ◌<◌, ◌≡◌, refl, ap, ◌∙◌, Option, none, some, get_elem?, set, arith, u64_mod, Bool-cases, inl,
  inr, if◌then◌else◌,
}
use ai_kv.Text.{Bytes, bytes_eq_iff}
use ai_kv.Text.LittleEndian.{le_bytes, span, length-le_bytes, of_le_bytes-le_bytes}
use ai_kv.Error.{ok}
use ai_kv.Storage.Value.{StoredValue, to_serializable}
use ai_kv.Storage.Serial.{IsProper, from_serializable-to_serializable}
use ai_kv.Storage.Codec.{Codec, Reads, coded}
use ai_kv.Storage.Disk.{
  Db, Disk, get_value, set_value, encoded, decoded, mapped, has_passed, time_of, expiration_key,
}
use ai_kv.Storage.Disk.Access.{
  IsMap, key-ne-expiration_key, check_index_lem, read_lem, put_lem, remove_lem, there-set,
  stored_time, is_expired_lem,
}

-- The time of a key after a value has been stored: the value's, or else the one that is there.
abbrev pub time_after : Option ℕ → Option ℕ → Option ℕ
time_after none old = old
time_after (some t) old = some t

time_of-le_bytes : (t : ℕ) → t < u64_mod → time_of (some (le_bytes 8 t)) ≡ some t
unfolding time_of span
time_of-le_bytes t h = rw (length-le_bytes 8 t, of_le_bytes-le_bytes 8 t h) refl

-- The time fits a `u64`.
abbrev pub FitsU64 : Option ℕ → Type 0
FitsU64 none = Unit
FitsU64 (some t) = t < u64_mod

module _ (db : Db) (m : IsMap db) (codec : Codec) (i : ℕ) (key : Bytes) (v : StoredValue)
    (bytes : Bytes) where
  -- What is in the database after the value has been stored.
  abbrev Holds : Disk db → Option ℕ → Type 0
  Holds s time =
      (d : db.Data) × (get_elem? s i ≡ some d)
      × (m.look d key ≡ some bytes)
      × (time_of (m.look d (expiration_key key)) ≡ time)

  module _ (s : Disk db) (d : db.Data) (there : get_elem? s i ≡ some d) where
    abbrev with_bytes : Disk db
    with_bytes = set s i (db.put key bytes d).1

    Holds-bytes : Holds with_bytes (stored_time db m i s d there key)
    Holds-bytes = (
      (db.put key bytes d).1,
      there-set db m i s d there (db.put key bytes d).1,
      rw (m.look-put key bytes d key, (bytes_eq_iff key key).1 refl) refl,
      ap time_of
          (m.look-put key bytes d (expiration_key key) ∙ ground (arith, key-ne-expiration_key key)),
    )

    abbrev with_time : ℕ → Disk db
    with_time t =
        set with_bytes i (db.put (expiration_key key) (le_bytes 8 t) (db.put key bytes d).1).1

    Holds-time : (t : ℕ) → t < u64_mod → Holds (with_time t) (some t)
    Holds-time t fits =
        let d1 = (db.put key bytes d).1 in
        let there1 = there-set db m i s d there d1 in
        let d2 = (db.put (expiration_key key) (le_bytes 8 t) d1).1 in
        (
          d2,
          there-set db m i with_bytes d1 there1 d2,
          m.look-put (expiration_key key) (le_bytes 8 t) d1 key
              ∙ ground (
                arith,
                key-ne-expiration_key key,
                bytes_eq_iff key (expiration_key key),
                bytes_eq_iff (expiration_key key) key,
                Holds-bytes.2,
              ),
          ap time_of (
                m.look-put (expiration_key key) (le_bytes 8 t) d1 (expiration_key key)
                ∙ ground (arith, bytes_eq_iff (expiration_key key) (expiration_key key)))
              ∙ time_of-le_bytes t fits,
        )

    module _ (e : codec.serialize (to_serializable v) ≡ coded bytes) where
      Stored : Option ℕ → Type 0
      Stored time =
          (s' : Disk db) × (set_value db codec i key v s ≡ (ok tt, s'))
          × Holds s' (time_after time (stored_time db m i s d there key))

      Stored-by : (time : Option ℕ) → v.expires_at ≡ time → FitsU64 time → Stored time
      unfolding Stored set_value encoded mapped
      Stored-by none timeless fits = (
        with_bytes,
        rw
            (
              check_index_lem db m i s d there,
              e,
              put_lem db m i s d there "Failed to put value: " key bytes,
              timeless,
            )
            refl,
        Holds-bytes,
      )
      Stored-by (some t) timed fits =
          let d1 = (db.put key bytes d).1 in
          (
            with_time t,
            rw
                (
                  check_index_lem db m i s d there,
                  e,
                  put_lem db m i s d there "Failed to put value: " key bytes,
                  timed,
                  put_lem db m i with_bytes d1 (there-set db m i s d there d1)
                      "Failed to set expiration: " (expiration_key key) (le_bytes 8 t),
                )
                refl,
            Holds-time t fits,
          )

      pub set_value-Holds :
          FitsU64 v.expires_at
          → (s' : Disk db) × (set_value db codec i key v s ≡ (ok tt, s'))
            × Holds s' (time_after v.expires_at (stored_time db m i s d there key))
      unfolding Stored
      set_value-Holds fits = Stored-by v.expires_at refl fits

  module _ (reads : Reads codec) (proper : IsProper v.value)
      (e : codec.serialize (to_serializable v) ≡ coded bytes) where
    decoded_lem : decoded db codec bytes ≡ ok (some v)
    unfolding decoded
    decoded_lem =
        rw (reads (to_serializable v) bytes e, decoded)
          (ap (λ w. ok (some w)) (from_serializable-to_serializable v proper))

    -- What `get_value` returns of a value that is held.
    pub get_value-Holds :
        (now : ℕ) (s : Disk db) (time : Option ℕ)
        → Holds s time
        → (get_value db codec now i key s).0 ≡ ok (if has_passed now time then none else some v)
    unfolding get_value
    get_value-Holds now s time (d, there, held, timed) = elim (Bool-cases (has_passed now time)) [
      | inl passed ↦ rw passed (
          rw
            (
              check_index_lem db m i s d there,
              read_lem db m i s d there "Failed to get value: " key,
              held,
              is_expired_lem db m i s d there now key,
              timed,
              passed,
              remove_lem db m i s d there "Failed to delete expired key: " key,
              remove_lem db m i (set s i (db.delete key d).1) (db.delete key d).1
                  (there-set db m i s d there (db.delete key d).1) "Failed to delete expiration: "
                  (expiration_key key),
            )
            refl)
      | inr lives ↦ rw lives (
          rw
            (
              check_index_lem db m i s d there,
              read_lem db m i s d there "Failed to get value: " key,
              held,
              is_expired_lem db m i s d there now key,
              timed,
              lives,
              decoded_lem,
            )
            refl)
    ]
