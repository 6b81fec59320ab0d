-- ===== src/Storage/Contract.antt =====
-- The core methods of the adapter against the view: what each returns, and what it leaves to see.
use ai_kv.Base.{
  ℕ, ◌≤◌, ◌≡◌, refl, true, false, ◌&&◌, Option, none, some, ◌==◌, arith, length, get_elem?-some,
  get_elem?-none, if◌then◌else◌, is_some, Option-cases, inl, inr,
}
use ai_kv.Text.{Bytes, bytes_eq, bytes_eq_iff}
use ai_kv.Error.{Result, ok, err}
use ai_kv.Effect.{Effect}
use ai_kv.Storage.Value.{StoredValue, is_expired, as_string}
use ai_kv.Storage.Adapter.{
  StorageAdapter, find, insert_at, remove_at, get_value, set_value, delete_and_get, update_value,
  get_from_db, exists_in_db, delete_from_db, invalid_index,
}
use ai_kv.Storage.View.{
  live, view, InRange, view-insert_at, view-remove_at, find-remove_at, InRange-of_find,
  find_of_view,
}

-- `s'` shows at every key what `s` shows, but `new` at the key `key` of the database `db`.
abbrev pub Shows : ℕ → StorageAdapter → ℕ → Bytes → Option StoredValue → StorageAdapter → Type 0
Shows now s db key new s' =
    (j : ℕ) (k : Bytes)
    → view now s' j k ≡ (if db == j && bytes_eq key k then new else view now s j k)

-- The string that a key shows: nothing, its bytes, or a complaint about its type.
abbrev pub string_of : Option StoredValue → Result (Option Bytes)
string_of none = ok none
string_of (some v) = elim (as_string v) [ ok b ↦ ok (some b) | err e ↦ err e ]

module _ (now db : ℕ) (key : Bytes) (s : StorageAdapter) where
  pub get_value-view : get_value now db key s ≡ (ok (view now s db key), s)
  unfolding get_value view
  get_value-view = ground arith

  pub exists_in_db-view : exists_in_db now db key s ≡ (ok (is_some (view now s db key)), s)
  unfolding exists_in_db view
  exists_in_db-view = ground arith

  pub get_from_db-view : get_from_db now db key s ≡ (string_of (view now s db key), s)
  unfolding get_from_db view
  get_from_db-view = ground arith

module _ (db : ℕ) (key : Bytes) (s : StorageAdapter) where
  pub set_value-InRange :
      (v : StoredValue) → InRange s db → set_value db key v s ≡ (ok tt, insert_at db key v s)
  unfolding set_value
  set_value-InRange v h = let (d, hit) = get_elem?-some s.databases db h in ground arith

  pub delete_from_db_lem :
      delete_from_db db key s ≡ (ok (is_some (find s db key)), remove_at db key s)
  unfolding delete_from_db
  delete_from_db_lem = refl

  set_value_out_of_range :
      (v : StoredValue)
      → length s.databases ≤ db
      → set_value db key v s ≡ (err (invalid_index db), s)
  unfolding set_value
  set_value_out_of_range v h = ground (arith, get_elem?-none s.databases db h)

module _ (now db : ℕ) (key : Bytes) (s : StorageAdapter) where
  -- Nothing has changed, and the key shows `new` already.
  pub Shows-same : (new : Option StoredValue) → view now s db key ≡ new → Shows now s db key new s
  Shows-same new h j k = ground (arith, bytes_eq_iff key k)

  pub Shows-insert :
      (v : StoredValue)
      → InRange s db
      → Shows now s db key (live now (some v)) (insert_at db key v s)
  Shows-insert v h j k = view-insert_at s db key now v j k h

  pub Shows-remove : Shows now s db key none (remove_at db key s)
  Shows-remove j k = view-remove_at s db key now j k

-- After a `set_value` into a database that is there, a `get_value` of any key of any database
-- returns the new value, if it is the key that was set and the value has not expired, and else what
-- it returned before.
pub get_value-set_value :
    (now db : ℕ) (key : Bytes) (v : StoredValue) (s : StorageAdapter) (j : ℕ) (k : Bytes)
    → InRange s db
    → (get_value now j k (set_value db key v s).1).0
      ≡ (if db == j && bytes_eq key k then ok (live now (some v)) else (get_value now j k s).0)
get_value-set_value now db key v s j k h = ground (
  arith,
  set_value-InRange db key s v h,
  get_value-view now j k (insert_at db key v s),
  get_value-view now j k s,
  view-insert_at s db key now v j k h,
)

-- `delete_and_get` returns the value that `get_value` would return, and afterwards the key shows
-- nothing and every other key what it showed.
pub delete_and_get_contract :
    (now db : ℕ) (key : Bytes) (s : StorageAdapter)
    → ((delete_and_get now db key s).0 ≡ (get_value now db key s).0)
      × Shows now s db key none (delete_and_get now db key s).1
unfolding delete_and_get get_value view
delete_and_get_contract now db key s =
    (ground arith, λ j k. ground (arith, find-remove_at s db key j k, bytes_eq_iff key k))

-- `delete_from_db` tells whether the key had an entry, expired or not, and afterwards the key shows
-- nothing and every other key what it showed.
pub delete_from_db_contract :
    (now db : ℕ) (key : Bytes) (s : StorageAdapter)
    → ((delete_from_db db key s).0 ≡ ok (is_some (find s db key)))
      × Shows now s db key none (delete_from_db db key s).1
unfolding delete_from_db
delete_from_db_contract now db key s = (refl, Shows-remove now db key s)

module _ (now db : ℕ) (key : Bytes) (f : Effect StoredValue (Unit {0})) (s : StorageAdapter) where
  abbrev pub UpdateContract : Option StoredValue → Type 0
  UpdateContract none =
      ((update_value now db key f s).0 ≡ ok false)
      × Shows now s db key none (update_value now db key f s).1
  UpdateContract (some v) =
      ((update_value now db key f s).0 ≡ elim (f v).0 [ ok _ ↦ ok true | err e ↦ err e ])
      × Shows now s db key (live now (some (f v).1)) (update_value now db key f s).1

  update_value_none : view now s db key ≡ none → UpdateContract none
  unfolding update_value view
  update_value_none e =
      (ground arith, λ j k. ground (arith, find-remove_at s db key j k, bytes_eq_iff key k))

  update_value_eq :
      (v : StoredValue)
      → find s db key ≡ some v
      → is_expired now v ≡ false
      → update_value now db key f s
        ≡ (elim (f v).0 [ ok _ ↦ ok true | err e ↦ err e ], insert_at db key (f v).1 s)
  unfolding update_value
  update_value_eq v e fresh = ground arith

  update_value_some : (v : StoredValue) → view now s db key ≡ some v → UpdateContract (some v)
  update_value_some v e =
      let (hit, fresh) = find_of_view now s db key v e in
      rw (update_value_eq v hit fresh)
        (refl, Shows-insert now db key s (f v).1 (InRange-of_find s db key v hit))

-- `update_value` on a key that shows nothing returns false and changes nothing that is shown. On a
-- key that shows `v` it runs the closure once on `v`, returns true or the closure's error, and in
-- both cases leaves at the key the value that the closure left, and every other key as it was.
pub update_value_contract :
    (now db : ℕ) (key : Bytes) (f : Effect StoredValue (Unit {0})) (s : StorageAdapter)
    → UpdateContract now db key f s (view now s db key)
update_value_contract now db key f s = elim (Option-cases (view now s db key)) [
  | inl e ↦ rw e (update_value_none now db key f s e)
  | inr (v, e) ↦ rw e (update_value_some now db key f s v e)
]
