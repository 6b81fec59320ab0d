-- ===== src/Command/Sets/Members.antt =====
-- src/command/set.rs: what SADD and SREM leave, as SISMEMBER and SCARD read it.
use mathlib.Core.Path.{subst}
use ai_kv.Base.{
  as_i32, ℕ, ◌+◌, ◌≡◌, refl, sym, ap, ◌∙◌, Bool, false, not, ◌&&◌, ◌||◌, none, some, List, [], ◌∷◌,
  length, pos, is_none, is_some, arith, Option-cases, inl, inr, if◌then◌else◌,
}
use ai_kv.Text.{Bytes, bytes_eq, bytes_eq_iff}
use ai_kv.Text.Utf8.{from_utf8_lossy}
use ai_kv.Error.{ok}
use ai_kv.HashMap
use ai_kv.HashMap.{HashMap}
use ai_kv.HashMap.Laws.{get-insert, get-remove, IsDistinct, remove-IsDistinct}
use ai_kv.HashMap.Sizes.{length-insert, length-remove}
use ai_kv.Resp.{integer}
use ai_kv.Storage.Value.{StoredValue, new_set, is_expired, as_set}
use ai_kv.Storage.Adapter.{StorageAdapter, insert_at, remove_at}
use ai_kv.Storage.View.{view, InRange, view-insert_at_self}
use ai_kv.Storage.Contract.{Shows-remove, get_value-view, set_value-InRange, delete_from_db_lem}
use ai_kv.Command.Replies.{flag}
use ai_kv.Command.Sets.{
  HashSet, set_or_new, add_members, remove_members, sadd, srem, srem_stored, store_set, sismember,
  scard,
}
use ai_kv.Command.Sets.Algebra.{has}

abbrev pub listed_in : Bytes → List Bytes → Bool
listed_in x [] = false
listed_in x (y ∷ ys) = bytes_eq y x || listed_in x ys

has-add_members :
    (xs : List Bytes) (m : HashSet) (count : ℕ) (x : Bytes)
    → has (add_members xs m count).1 x ≡ (listed_in x xs || has m x)
unfolding add_members has
has-add_members [] m count x = refl
has-add_members (y ∷ ys) m count x = ground (
  arith,
  has-add_members ys (HashMap.insert m y tt)
      (if is_none (HashMap.get m y) then count + 1 else count) x,
  get-insert m y x tt,
)

length-add_members :
    (xs : List Bytes) (m : HashSet) (count : ℕ)
    → length (add_members xs m count).1 + count ≡ length m + (add_members xs m count).0
unfolding add_members
length-add_members [] m count = refl
length-add_members (y ∷ ys) m count = ground (
  arith,
  length-add_members ys (HashMap.insert m y tt)
      (if is_none (HashMap.get m y) then count + 1 else count),
  length-insert m y tt,
)

has-remove_members :
    (xs : List Bytes) (m : HashSet) (count : ℕ) (x : Bytes)
    → has (remove_members xs m count).1 x ≡ (not (listed_in x xs) && has m x)
unfolding remove_members has
has-remove_members [] m count x = refl
has-remove_members (y ∷ ys) m count x = ground (
  arith,
  has-remove_members ys (HashMap.remove m y)
      (if is_some (HashMap.get m y) then count + 1 else count) x,
  get-remove m y x,
)

length-remove_members :
    (xs : List Bytes) (m : HashSet) (count : ℕ)
    → IsDistinct m
    → length (remove_members xs m count).1 + (remove_members xs m count).0 ≡ length m + count
unfolding remove_members
length-remove_members [] m count d = refl
length-remove_members (y ∷ ys) m count d = ground (
  arith,
  length-remove_members ys (HashMap.remove m y)
      (if is_some (HashMap.get m y) then count + 1 else count) (remove-IsDistinct m y d),
  length-remove m y d,
)

remove_members_nil : (xs : List Bytes) (count : ℕ) → remove_members xs [] count ≡ (count, [])
unfolding remove_members HashMap.remove HashMap.get
remove_members_nil [] count = refl
remove_members_nil (x ∷ xs) count = remove_members_nil xs count

module _ (now db : ℕ) (key : Bytes) (s : StorageAdapter) where
  pub set-insert_at :
      (m : HashSet)
      → InRange s db
      → set_or_new (view now (insert_at db key (new_set m) s) db key) ≡ ok m
  unfolding set_or_new is_expired as_set
  set-insert_at m there = ap set_or_new (view-insert_at_self s db key now (new_set m) there)

  pub set-remove_at : set_or_new (view now (remove_at db key s) db key) ≡ ok []
  unfolding set_or_new
  set-remove_at =
      ap set_or_new {x = view now (remove_at db key s) db key} {y = none}
        (ground (arith, Shows-remove now db key s db key, bytes_eq_iff key key))

  -- A set that is stored, or taken away if it is empty, is read back.
  pub store_set_lem :
      (m : HashSet)
      → InRange s db
      → ((store_set db key m s).0 ≡ ok tt)
        × (set_or_new (view now (store_set db key m s).1 db key) ≡ ok m)
  unfolding store_set
  store_set_lem [] there = rw (delete_from_db_lem db key s) (refl, set-remove_at)
  store_set_lem (e ∷ m) there =
      rw (set_value-InRange db key s (new_set (e ∷ m)) there) (refl, set-insert_at (e ∷ m) there)

  pub scard_lem :
      (k : Bytes) (m : HashSet)
      → from_utf8_lossy k ≡ key
      → set_or_new (view now s db key) ≡ ok m
      → scard now (k ∷ []) db s ≡ (ok (integer (pos (length m))), s)
  unfolding scard
  scard_lem k m e shown = rw (e, get_value-view now db key s, shown) refl

  pub sismember_lem :
      (k x : Bytes) (m : HashSet)
      → from_utf8_lossy k ≡ key
      → set_or_new (view now s db key) ≡ ok m
      → sismember now (k ∷ x ∷ []) db s ≡ (ok (flag (has m x)), s)
  unfolding sismember has
  sismember_lem k x m e shown = rw (e, get_value-view now db key s, shown) refl

-- SADD at a key that shows the set `m`, or nothing for an empty one, in a database that is there: the
-- reply is, as an `i32`, the number of members by which SCARD has grown, and SISMEMBER replies 1 exactly for what
-- the arguments list and what was in `m`.
pub sadd_contract :
    (now : ℕ) (k y : Bytes) (ys : List Bytes) (db : ℕ) (s : StorageAdapter) (m : HashSet)
    (x : Bytes)
    → InRange s db
    → set_or_new (view now s db (from_utf8_lossy k)) ≡ ok m
    → (new : ℕ) × ((sadd now (k ∷ y ∷ ys) db s).0 ≡ ok (integer (as_i32 new)))
      × ((scard now (k ∷ []) db (sadd now (k ∷ y ∷ ys) db s).1).0
          ≡ ok (integer (pos (length m + new))))
      × ((sismember now (k ∷ x ∷ []) db (sadd now (k ∷ y ∷ ys) db s).1).0
          ≡ ok (flag (listed_in x (y ∷ ys) || has m x)))
unfolding sadd
sadd_contract now k y ys db s m x there shown =
    let key = from_utf8_lossy k in
    let (count, m') = add_members (y ∷ ys) m 0 in
    let s' = insert_at db key (new_set m') s in
    let reads = set-insert_at now db key s m' there in
    let size : length m' ≡ length m + count = omega (arith, length-add_members (y ∷ ys) m 0) in
    rw (get_value-view now db key s, shown, set_value-InRange db key s (new_set m') there)
      (
        count,
        refl,
        rw (scard_lem now db key s' k m' refl reads, size) refl,
        rw (sismember_lem now db key s' k x m' refl reads, has-add_members (y ∷ ys) m 0 x) refl,
      )

module _ (now : ℕ) (k y : Bytes) (ys : List Bytes) (db : ℕ) (s : StorageAdapter)
    (there : InRange s db) where
  abbrev Left : HashSet → Type 0
  Left m =
      (s' : StorageAdapter) × (srem now (k ∷ y ∷ ys) db s
        ≡ (ok (integer (as_i32 (remove_members (y ∷ ys) m 0).0)), s'))
      × (set_or_new (view now s' db (from_utf8_lossy k)) ≡ ok (remove_members (y ∷ ys) m 0).1)

  Left-by_none : view now s db (from_utf8_lossy k) ≡ none → Left []
  unfolding srem srem_stored set_or_new
  Left-by_none e = (
    s,
    rw (get_value-view now db (from_utf8_lossy k) s, e, remove_members_nil (y ∷ ys) 0) refl,
    rw (e, remove_members_nil (y ∷ ys) 0) refl,
  )

  Left-by_some :
      (v : StoredValue) (m : HashSet)
      → view now s db (from_utf8_lossy k) ≡ some v
      → as_set v ≡ ok m
      → Left m
  unfolding srem srem_stored
  Left-by_some v m e kind =
      let m' = (remove_members (y ∷ ys) m 0).1 in
      let (stored, reads) = store_set_lem now db (from_utf8_lossy k) s m' there in
      (
        (store_set db (from_utf8_lossy k) m' s).1,
        rw (get_value-view now db (from_utf8_lossy k) s, e, kind, stored) refl,
        reads,
      )

  srem_leaves : (m : HashSet) → set_or_new (view now s db (from_utf8_lossy k)) ≡ ok m → Left m
  unfolding set_or_new
  srem_leaves m shown = elim (Option-cases (view now s db (from_utf8_lossy k))) [
    | inl e ↦
        let empty : [] ≡ m = cc (sym (ap set_or_new e) ∙ shown) in subst Left empty (Left-by_none e)
    | inr (v, e) ↦ Left-by_some v m e (sym (ap set_or_new e) ∙ shown)
  ]

-- SREM at a key that shows the set `m`, which has each member once, or nothing for an empty one: the
-- reply is a number of members, as an `i32`, which with SCARD afterwards adds up to those of `m`, and SISMEMBER replies 1 exactly for what
-- was in `m` and is not listed by the arguments.
pub srem_contract :
    (now : ℕ) (k y : Bytes) (ys : List Bytes) (db : ℕ) (s : StorageAdapter) (m : HashSet)
    (x : Bytes)
    → InRange s db
    → set_or_new (view now s db (from_utf8_lossy k)) ≡ ok m
    → IsDistinct m
    → (gone : ℕ) × (left : ℕ) × ((srem now (k ∷ y ∷ ys) db s).0 ≡ ok (integer (as_i32 gone)))
      × ((scard now (k ∷ []) db (srem now (k ∷ y ∷ ys) db s).1).0 ≡ ok (integer (pos left)))
      × (left + gone ≡ length m)
      × ((sismember now (k ∷ x ∷ []) db (srem now (k ∷ y ∷ ys) db s).1).0
          ≡ ok (flag (not (listed_in x (y ∷ ys)) && has m x)))
srem_contract now k y ys db s m x there shown distinct =
    let key = from_utf8_lossy k in
    let (s', e, reads) = srem_leaves now k y ys db s there m shown in
    let (gone, m') = remove_members (y ∷ ys) m 0 in
    (
      gone,
      length m',
      rw e refl,
      rw (e, scard_lem now db key s' k m' refl reads) refl,
      omega (arith, length-remove_members (y ∷ ys) m 0 distinct),
      rw (e, sismember_lem now db key s' k x m' refl reads, has-remove_members (y ∷ ys) m 0 x) refl,
    )
