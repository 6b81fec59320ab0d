-- ===== src/Command/Hashes/Fields.antt =====
-- src/command/hash.rs: what HSET and HDEL leave, as HGET and HLEN read it.
use ai_kv.Base.{
  as_i32, ℕ, ◌+◌, ◌%◌, ◌≡◌, refl, ap, ◌∙◌, Bool, true, false, Option, none, some, List, [], ◌∷◌,
  length, arith, pos, is_none, ◌==◌, if◌then◌else◌,
}
use ai_kv.Text.{Bytes, bytes_eq, bytes_eq_iff}
use ai_kv.Text.Utf8.{from_utf8_lossy}
use ai_kv.Error.{ok}
use ai_kv.HashMap
use ai_kv.HashMap.{HashMap}
use ai_kv.HashMap.Sizes.{length-insert}
use ai_kv.HashMap.Laws.{get-insert}
use ai_kv.Resp.{integer}
use ai_kv.Storage.Value.{new_hash, is_expired, as_hash}
use ai_kv.Storage.Adapter.{StorageAdapter, insert_at, remove_at}
use ai_kv.Storage.View.{view, InRange, view-insert_at_self}
use ai_kv.Storage.Contract.{Shows-remove, get_value-view, set_value-InRange, delete_from_db_lem}
use ai_kv.Command.Strings.Many.{or_else, last_value}
use ai_kv.Command.Hashes.{hash_or_new, set_fields, hset, hget, hlen, store_hash, value_reply}

or_else_if :
    (later : Option Bytes) (here : Bool) (v : Bytes) (old : Option Bytes)
    → or_else later (if here then some v else old)
      ≡ or_else (or_else later (if here then some v else none)) old
or_else_if none true v old = refl
or_else_if none false v old = refl
or_else_if (some w) here v old = refl

-- The hash after HSET's loop: at each field its last value in the arguments, or else the old one.
get-set_fields :
    (args : List Bytes) (h : HashMap Bytes) (count : ℕ) (f : Bytes)
    → HashMap.get (set_fields args h count).1 f ≡ or_else (last_value f args) (HashMap.get h f)
unfolding set_fields
get-set_fields [] h count f = refl
get-set_fields (k ∷ []) h count f = refl
get-set_fields (k ∷ v ∷ rest) h count f =
    let field = from_utf8_lossy k in
    get-set_fields rest (HashMap.insert h field v)
      (if is_none (HashMap.get h field) then count + 1 else count) f
    ∙ ap (or_else (last_value f rest)) (get-insert h field f v)
    ∙ or_else_if (last_value f rest) (bytes_eq field f) v (HashMap.get h f)

-- The count of HSET's loop is by how many fields the hash has grown.
length-set_fields :
    (args : List Bytes) (h : HashMap Bytes) (count : ℕ)
    → length (set_fields args h count).1 + count ≡ length h + (set_fields args h count).0
unfolding set_fields
length-set_fields [] h count = refl
length-set_fields (k ∷ []) h count = refl
length-set_fields (k ∷ v ∷ rest) h count = ground (
  arith,
  length-set_fields rest (HashMap.insert h (from_utf8_lossy k) v)
      (if is_none (HashMap.get h (from_utf8_lossy k)) then count + 1 else count),
  length-insert h (from_utf8_lossy k) v,
)

module _ (now db : ℕ) (key : Bytes) (s : StorageAdapter) where
  pub hash-insert_at :
      (h : HashMap Bytes)
      → InRange s db
      → hash_or_new (view now (insert_at db key (new_hash h) s) db key) ≡ ok h
  unfolding hash_or_new is_expired as_hash
  hash-insert_at h there = ap hash_or_new (view-insert_at_self s db key now (new_hash h) there)

  hash-remove_at : hash_or_new (view now (remove_at db key s) db key) ≡ ok []
  unfolding hash_or_new
  hash-remove_at =
      ap hash_or_new {x = view now (remove_at db key s) db key} {y = none}
        (ground (arith, Shows-remove now db key s db key, bytes_eq_iff key key))

  -- A hash that is stored, or taken away if it is empty, is read back.
  pub store_hash_lem :
      (h : HashMap Bytes)
      → InRange s db
      → ((store_hash db key h s).0 ≡ ok tt)
        × (hash_or_new (view now (store_hash db key h s).1 db key) ≡ ok h)
  unfolding store_hash
  store_hash_lem [] there = rw (delete_from_db_lem db key s) (refl, hash-remove_at)
  store_hash_lem (e ∷ h) there =
      rw (set_value-InRange db key s (new_hash (e ∷ h)) there) (refl, hash-insert_at (e ∷ h) there)

  pub hlen_lem :
      (k : Bytes) (h : HashMap Bytes)
      → from_utf8_lossy k ≡ key
      → hash_or_new (view now s db key) ≡ ok h
      → hlen now (k ∷ []) db s ≡ (ok (integer (pos (length h))), s)
  unfolding hlen
  hlen_lem k h e shown = rw (e, get_value-view now db key s, shown) refl

  pub hget_lem :
      (k f : Bytes) (h : HashMap Bytes)
      → from_utf8_lossy k ≡ key
      → hash_or_new (view now s db key) ≡ ok h
      → hget now (k ∷ f ∷ []) db s ≡ (ok (value_reply (HashMap.get h (from_utf8_lossy f))), s)
  unfolding hget
  hget_lem k f h e shown = rw (e, get_value-view now db key s, shown) refl

module _ (now : ℕ) (k f v : Bytes) (rest : List Bytes) (db : ℕ) (s : StorageAdapter)
    (h : HashMap Bytes) (there : InRange s db)
    (shown : hash_or_new (view now s db (from_utf8_lossy k)) ≡ ok h)
    (pairs : (length rest % 2 == 0) ≡ true) where
  hset_eq : hset now (k ∷ f ∷ v ∷ rest) db s ≡ (
    ok (integer (as_i32 (set_fields (f ∷ v ∷ rest) h 0).0)),
    insert_at db (from_utf8_lossy k) (new_hash (set_fields (f ∷ v ∷ rest) h 0).1) s,
  )
  unfolding hset
  hset_eq =
      rw
        (
          pairs,
          get_value-view now db (from_utf8_lossy k) s,
          shown,
          set_value-InRange db (from_utf8_lossy k) s (new_hash (set_fields (f ∷ v ∷ rest) h 0).1)
              there,
        )
        refl

-- HSET of pairs at a key that shows the hash `h`, or nothing for an empty one, in a database that is
-- there: the reply is, as an `i32`, the number of fields by which HLEN has grown, and HGET of any field replies the
-- last value that a pair gives it, or if there is none what `h` has.
pub hset_contract :
    (now : ℕ) (k f v : Bytes) (rest : List Bytes) (db : ℕ) (s : StorageAdapter) (h : HashMap Bytes)
    (g : Bytes)
    → InRange s db
    → hash_or_new (view now s db (from_utf8_lossy k)) ≡ ok h
    → (length rest % 2 == 0) ≡ true
    → (new : ℕ) × ((hset now (k ∷ f ∷ v ∷ rest) db s).0 ≡ ok (integer (as_i32 new)))
      × ((hlen now (k ∷ []) db (hset now (k ∷ f ∷ v ∷ rest) db s).1).0
          ≡ ok (integer (pos (length h + new))))
      × ((hget now (k ∷ g ∷ []) db (hset now (k ∷ f ∷ v ∷ rest) db s).1).0
          ≡ ok (
              value_reply (
                or_else
                  (last_value (from_utf8_lossy g) (f ∷ v ∷ rest))
                  (HashMap.get h (from_utf8_lossy g)))))
hset_contract now k f v rest db s h g there shown pairs =
    let key = from_utf8_lossy k in
    let args = f ∷ v ∷ rest in
    let (count, h') = set_fields args h 0 in
    let s' = insert_at db key (new_hash h') s in
    let reads = hash-insert_at now db key s h' there in
    let size : length h' ≡ length h + count = omega (arith, length-set_fields args h 0) in
    (
      count,
      rw (hset_eq now k f v rest db s h there shown pairs) refl,
      rw
          (
            hset_eq now k f v rest db s h there shown pairs,
            hlen_lem now db key s' k h' refl reads,
            size,
          )
          refl,
      rw
          (
            hset_eq now k f v rest db s h there shown pairs,
            hget_lem now db key s' k g h' refl reads,
            get-set_fields args h 0 (from_utf8_lossy g),
          )
          refl,
    )
