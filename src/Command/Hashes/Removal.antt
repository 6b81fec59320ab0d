-- ===== src/Command/Hashes/Removal.antt =====
-- src/command/hash.rs: what HDEL leaves, as HGET and HLEN read it.
use mathlib.Core.Path.{subst}
use ai_kv.Base.{
  as_i32, ℕ, ◌+◌, ◌≡◌, refl, sym, ap, ◌∙◌, Bool, false, none, some, List, [], ◌∷◌, length, arith,
  pos, is_some, ◌||◌, if◌then◌else◌, Option-cases, inl, inr,
}
use ai_kv.Text.{Bytes, bytes_eq}
use ai_kv.Text.Utf8.{from_utf8_lossy}
use ai_kv.Error.{ok}
use ai_kv.HashMap
use ai_kv.HashMap.{HashMap}
use ai_kv.HashMap.Sizes.{length-remove}
use ai_kv.HashMap.Laws.{get-remove, IsDistinct, remove-IsDistinct}
use ai_kv.Resp.{integer}
use ai_kv.Storage.Value.{StoredValue, as_hash}
use ai_kv.Storage.Adapter.{StorageAdapter}
use ai_kv.Storage.View.{view, InRange}
use ai_kv.Storage.Contract.{get_value-view}
use ai_kv.Command.Hashes.{
  hash_or_new, delete_fields, hget, hlen, hdel, hdel_stored, store_hash, value_reply,
}
use ai_kv.Command.Hashes.Fields.{store_hash_lem, hlen_lem, hget_lem}

-- The count of HDEL's loop is by how many fields the hash has shrunk.
length-delete_fields :
    (fs : List Bytes) (h : HashMap Bytes) (count : ℕ)
    → IsDistinct h
    → length (delete_fields fs h count).1 + (delete_fields fs h count).0 ≡ length h + count
unfolding delete_fields
length-delete_fields [] h count d = refl
length-delete_fields (f ∷ fs) h count d = ground (
  arith,
  length-delete_fields fs (HashMap.remove h (from_utf8_lossy f))
      (if is_some (HashMap.get h (from_utf8_lossy f)) then count + 1 else count)
      (remove-IsDistinct h (from_utf8_lossy f) d),
  length-remove h (from_utf8_lossy f) d,
)

-- Whether one of the arguments names the field.
abbrev pub named_in : Bytes → List Bytes → Bool
named_in f [] = false
named_in f (k ∷ ks) = bytes_eq (from_utf8_lossy k) f || named_in f ks

get-delete_fields :
    (fs : List Bytes) (h : HashMap Bytes) (count : ℕ) (f : Bytes)
    → HashMap.get (delete_fields fs h count).1 f ≡ (if named_in f fs then none else HashMap.get h f)
unfolding delete_fields
get-delete_fields [] h count f = refl
get-delete_fields (k ∷ fs) h count f = ground (
  arith,
  get-delete_fields fs (HashMap.remove h (from_utf8_lossy k))
      (if is_some (HashMap.get h (from_utf8_lossy k)) then count + 1 else count) f,
  get-remove h (from_utf8_lossy k) f,
)

delete_fields_nil : (fs : List Bytes) (count : ℕ) → delete_fields fs [] count ≡ (count, [])
unfolding delete_fields HashMap.remove HashMap.get
delete_fields_nil [] count = refl
delete_fields_nil (f ∷ fs) count = delete_fields_nil fs count

module _ (now : ℕ) (k f : Bytes) (fs : List Bytes) (db : ℕ) (s : StorageAdapter)
    (there : InRange s db) where
  abbrev Left : HashMap Bytes → Type 0
  Left h =
      (s' : StorageAdapter) × (hdel now (k ∷ f ∷ fs) db s
        ≡ (ok (integer (as_i32 (delete_fields (f ∷ fs) h 0).0)), s'))
      × (hash_or_new (view now s' db (from_utf8_lossy k)) ≡ ok (delete_fields (f ∷ fs) h 0).1)

  Left-by_none : view now s db (from_utf8_lossy k) ≡ none → Left []
  unfolding hdel hdel_stored hash_or_new
  Left-by_none e = (
    s,
    rw (get_value-view now db (from_utf8_lossy k) s, e, delete_fields_nil (f ∷ fs) 0) refl,
    rw (e, delete_fields_nil (f ∷ fs) 0) refl,
  )

  Left-by_some :
      (v : StoredValue) (h : HashMap Bytes)
      → view now s db (from_utf8_lossy k) ≡ some v
      → as_hash v ≡ ok h
      → Left h
  unfolding hdel hdel_stored
  Left-by_some v h e kind =
      let (stored, reads) =
        store_hash_lem now db (from_utf8_lossy k) s (delete_fields (f ∷ fs) h 0).1 there in
      (
        (store_hash db (from_utf8_lossy k) (delete_fields (f ∷ fs) h 0).1 s).1,
        rw (get_value-view now db (from_utf8_lossy k) s, e, kind, stored) refl,
        reads,
      )

  hdel_leaves :
      (h : HashMap Bytes) → hash_or_new (view now s db (from_utf8_lossy k)) ≡ ok h → Left h
  unfolding hash_or_new
  hdel_leaves h shown = elim (Option-cases (view now s db (from_utf8_lossy k))) [
    | inl e ↦
        let empty : [] ≡ h = cc (sym (ap hash_or_new e) ∙ shown) in
        subst Left empty (Left-by_none e)
    | inr (v, e) ↦ Left-by_some v h e (sym (ap hash_or_new e) ∙ shown)
  ]

-- HDEL at a key that shows the hash `h`, which has one entry for each field, or nothing for an empty
-- one: the reply is a number of fields, as an `i32`, which with HLEN afterwards adds up to the fields
-- of `h`, and HGET of any field replies null if the arguments name it and else what `h` has.
pub hdel_contract :
    (now : ℕ) (k f : Bytes) (fs : List Bytes) (db : ℕ) (s : StorageAdapter) (h : HashMap Bytes)
    (g : Bytes)
    → InRange s db
    → hash_or_new (view now s db (from_utf8_lossy k)) ≡ ok h
    → IsDistinct h
    → (gone left : ℕ) × ((hdel now (k ∷ f ∷ fs) db s).0 ≡ ok (integer (as_i32 gone)))
      × ((hlen now (k ∷ []) db (hdel now (k ∷ f ∷ fs) db s).1).0 ≡ ok (integer (pos left)))
      × (left + gone ≡ length h)
      × ((hget now (k ∷ g ∷ []) db (hdel now (k ∷ f ∷ fs) db s).1).0
          ≡ ok (
              value_reply (
                if named_in (from_utf8_lossy g) (f ∷ fs)
                then none
                else HashMap.get h (from_utf8_lossy g))))
hdel_contract now k f fs db s h g there shown distinct =
    let key = from_utf8_lossy k in
    let (s', e, reads) = hdel_leaves now k f fs db s there h shown in
    let (gone, h') = delete_fields (f ∷ fs) h 0 in
    (
      gone,
      length h',
      rw e refl,
      rw (e, hlen_lem now db key s' k h' refl reads) refl,
      omega (arith, length-delete_fields (f ∷ fs) h 0 distinct),
      rw
          (
            e,
            hget_lem now db key s' k g h' refl reads,
            get-delete_fields (f ∷ fs) h 0 (from_utf8_lossy g),
          )
          refl,
    )
