-- ===== src/Storage/View.antt =====
-- What a client can see of the storage: the live value of each key of each database.
use ai_kv.Base.{
  ℕ, ◌<◌, ◌≡◌, refl, false, ◌&&◌, Option, none, some, ◌==◌, arith, length, get_elem?, if◌then◌else◌,
  length-adjust, adjust, length_of_get_elem?, List, [], ◌∷◌, zero, suc,
}
use ai_kv.Text.{Bytes, bytes_eq, bytes_eq_iff}
use ai_kv.HashMap
use ai_kv.HashMap.Laws.{get-insert, get-remove}
use ai_kv.Storage.Value.{StoredValue, is_expired}
use ai_kv.Storage.Adapter.{StorageAdapter, Database, get_in, find, modify, insert_at, remove_at}

abbrev pub live : ℕ → Option StoredValue → Option StoredValue
live now none = none
live now (some v) = if is_expired now v then none else some v

unfoldable pub view : ℕ → StorageAdapter → ℕ → Bytes → Option StoredValue
view now s db key = live now (find s db key)

abbrev pub InRange : StorageAdapter → ℕ → Type 0
InRange s db = db < length s.databases

length-modify :
    (db : ℕ) (f : Database → Database) (s : StorageAdapter)
    → length (modify db f s).databases ≡ length s.databases
unfolding modify
length-modify db f s = length-adjust s.databases db f

get_in-insert :
    (l : List Database) (i j : ℕ) (key k : Bytes) (v : StoredValue)
    → i < length l
    → get_in (get_elem? (adjust l i (λ d. HashMap.insert d key v)) j) k
      ≡ (if i == j && bytes_eq key k then some v else get_in (get_elem? l j) k)
get_in-insert [] i j key k v h = elim h [ ]
get_in-insert (d ∷ l) zero zero key k v h = get-insert d key k v
get_in-insert (d ∷ l) zero (suc j) key k v h = ground arith
get_in-insert (d ∷ l) (suc i) zero key k v h = ground arith
get_in-insert (d ∷ l) (suc i) (suc j) key k v h = ground (arith, get_in-insert l i j key k v)

get_in-remove :
    (l : List Database) (i j : ℕ) (key k : Bytes)
    → get_in (get_elem? (adjust l i (λ d. HashMap.remove d key)) j) k
      ≡ (if i == j && bytes_eq key k then none else get_in (get_elem? l j) k)
get_in-remove [] i j key k = ground arith
get_in-remove (d ∷ l) zero zero key k = get-remove d key k
get_in-remove (d ∷ l) zero (suc j) key k = ground arith
get_in-remove (d ∷ l) (suc i) zero key k = ground arith
get_in-remove (d ∷ l) (suc i) (suc j) key k = ground (arith, get_in-remove l i j key k)

-- An insertion and a removal, as the maps' laws read from outside.
module _ (s : StorageAdapter) (db : ℕ) (key : Bytes) where
  pub find-insert_at :
      (v : StoredValue) (j : ℕ) (k : Bytes)
      → InRange s db
      → find (insert_at db key v s) j k ≡ (if db == j && bytes_eq key k then some v else find s j k)
  unfolding find insert_at
  find-insert_at v j k h = get_in-insert s.databases db j key k v h

  pub find-remove_at :
      (j : ℕ) (k : Bytes)
      → find (remove_at db key s) j k ≡ (if db == j && bytes_eq key k then none else find s j k)
  unfolding find remove_at
  find-remove_at j k = get_in-remove s.databases db j key k

  pub length-insert_at :
      (v : StoredValue) → length (insert_at db key v s).databases ≡ length s.databases
  unfolding insert_at
  length-insert_at v = length-modify db (λ d. HashMap.insert d key v) s

  pub length-remove_at : length (remove_at db key s).databases ≡ length s.databases
  unfolding remove_at
  length-remove_at = length-modify db (λ d. HashMap.remove d key) s

  pub view-insert_at :
      (now : ℕ) (v : StoredValue) (j : ℕ) (k : Bytes)
      → InRange s db
      → view now (insert_at db key v s) j k
        ≡ (if db == j && bytes_eq key k then live now (some v) else view now s j k)
  unfolding view
  view-insert_at now v j k h = ground (arith, find-insert_at v j k h)

  pub view-remove_at :
      (now j : ℕ) (k : Bytes)
      → view now (remove_at db key s) j k
        ≡ (if db == j && bytes_eq key k then none else view now s j k)
  unfolding view
  view-remove_at now j k = ground (arith, find-remove_at j k)

  -- The entry of a key that is there lies in a database that is there.
  pub InRange-of_find : (v : StoredValue) → find s db key ≡ some v → InRange s db
  unfolding find
  InRange-of_find v e = go (get_elem? s.databases db) refl e
    where
      go :
          (o : Option Database)
          → get_elem? s.databases db ≡ o
          → get_in o key ≡ some v
          → InRange s db
      go none p q = cc
      go (some d) p q = length_of_get_elem? s.databases db d p

pub find_of_view :
    (now : ℕ) (s : StorageAdapter) (db : ℕ) (key : Bytes) (v : StoredValue)
    → view now s db key ≡ some v
    → (find s db key ≡ some v) × (is_expired now v ≡ false)
unfolding view
find_of_view now s db key v e = ground arith

-- The database of a key that shows something is there.
pub InRange-of_view :
    (now : ℕ) (s : StorageAdapter) (db : ℕ) (key : Bytes) (v : StoredValue)
    → view now s db key ≡ some v
    → InRange s db
InRange-of_view now s db key v e = InRange-of_find s db key v (find_of_view now s db key v e).0

-- The key that has been written shows what was written, at every time.
pub view-insert_at_self :
    (s : StorageAdapter) (db : ℕ) (key : Bytes) (t : ℕ) (v : StoredValue)
    → InRange s db
    → view t (insert_at db key v s) db key ≡ live t (some v)
view-insert_at_self s db key t v h =
    ground (arith, view-insert_at s db key t v db key h, bytes_eq_iff key key)
