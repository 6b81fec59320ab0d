-- ===== src/Storage/Lifetime.antt =====
-- Expiration: when a key is there, and what the methods that set, read and clear its time do.
use ai_kv.Base.{
  ℕ, zero, suc, ◌∙◌, ◌+◌, ◌%◌, ◌≤◌, ◌≡◌, refl, ap, Bool, true, false, Option, none, some, arith,
  if◌then◌else◌, is_some, ltb, ℤ, pos, negsuc, i64_bound, u64_mod,
}
use ai_kv.Text.{Bytes, bytes_eq_iff}
use ai_kv.Error.{ok}
use ai_kv.Storage.Value.{StoredValue, is_expired, set_expiration}
use ai_kv.Storage.Adapter.{StorageAdapter, find, insert_at}
use ai_kv.Storage.Expiry.{
  as_i64, update_live, set_expire_in_db, set_expire_at_in_db, get_ttl_in_db, persist_in_db,
}
use ai_kv.Storage.View.{
  live, view, view-insert_at_self, find-remove_at, find_of_view, InRange-of_view,
}

-- What has expired stays so.
is_expired_mono :
    (now later : ℕ) (v : StoredValue)
    → now ≤ later
    → is_expired now v ≡ true
    → is_expired later v ≡ true
unfolding is_expired
is_expired_mono now later v h e = ground arith

-- A key that shows nothing at one time shows nothing later, if nobody writes in between.
view_stays_none :
    (now later : ℕ) (s : StorageAdapter) (db : ℕ) (key : Bytes)
    → now ≤ later
    → view now s db key ≡ none
    → view later s db key ≡ none
unfolding view
view_stays_none now later s db key h e = go (find s db key) e
  where
    go : (o : Option StoredValue) → live now o ≡ none → live later o ≡ none
    go none p = refl
    go (some v) p = ground (arith, is_expired_mono now later v h)

module _ (now db : ℕ) (key : Bytes) (f : StoredValue → StoredValue) (s : StorageAdapter) where
  pub update_live-some :
      (v : StoredValue)
      → view now s db key ≡ some v
      → update_live now db key f s ≡ (ok true, insert_at db key (f v) s)
  unfolding update_live
  update_live-some v e = ground (arith, find_of_view now s db key v e)

  update_live-none :
      view now s db key ≡ none
      → ((update_live now db key f s).0 ≡ ok false)
        × ((j : ℕ) (k : Bytes) → view now (update_live now db key f s).1 j k ≡ view now s j k)
  unfolding update_live view
  update_live-none e =
      (ground arith, λ j k. ground (arith, find-remove_at s db key j k, bytes_eq_iff key k))

live-set_expiration :
    (t : ℕ) (v : StoredValue) (e : ℕ)
    → live t (some (set_expiration v (some e)))
      ≡ (if ltb t e then some (set_expiration v (some e)) else none)
unfolding is_expired set_expiration
live-set_expiration t v e = ground arith

-- After `set_expire_in_db` of `ms` milliseconds at the clock `later`, a key that was there shows its
-- value with the new time exactly while the clock is below `later + ms` (as a `u64`), whatever its
-- time was before; and the call returns true.
pub set_expire_in_db_exact :
    (now later db : ℕ) (key : Bytes) (ms : ℕ) (s : StorageAdapter) (v : StoredValue) (t : ℕ)
    → view now s db key ≡ some v
    → ((set_expire_in_db now later db key ms s).0 ≡ ok true)
      × (view t (set_expire_in_db now later db key ms s).1 db key ≡ (
          if ltb t ((later + ms) % u64_mod)
          then some (set_expiration v (some ((later + ms) % u64_mod)))
          else none))
unfolding set_expire_in_db
set_expire_in_db_exact now later db key ms s v t h =
    let e : ℕ = (later + ms) % u64_mod in
    let in_range = InRange-of_view now s db key v h in
    rw (update_live-some now db key (λ w. set_expiration w (some e)) s v h) (
      refl,
      view-insert_at_self s db key t (set_expiration v (some e)) in_range
          ∙ live-set_expiration t v e,
    )

-- `set_expire_in_db` and `set_expire_at_in_db` on a key that shows nothing return false and change
-- nothing that is shown.
expire_missing :
    (now later db : ℕ) (key : Bytes) (ms : ℕ) (s : StorageAdapter) (j : ℕ) (k : Bytes)
    → view now s db key ≡ none
    → ((set_expire_in_db now later db key ms s).0 ≡ ok false)
      × ((set_expire_at_in_db now db key ms s).0 ≡ ok false)
      × (view now (set_expire_in_db now later db key ms s).1 j k ≡ view now s j k)
      × (view now (set_expire_at_in_db now db key ms s).1 j k ≡ view now s j k)
unfolding set_expire_in_db set_expire_at_in_db
expire_missing now later db key ms s j k h =
    let at =
      update_live-none now db key (λ v. set_expiration v (some ((later + ms) % u64_mod))) s h in
    let at' = update_live-none now db key (λ v. set_expiration v (some ms)) s h in
    (at.0, at'.0, at.1 j k, at'.1 j k)

-- The time of the entry, if it has one, fits an `i64`.
abbrev pub fits_i64 : Option StoredValue → Bool
fits_i64 none = true
fits_i64 (some v) = elim v.expires_at [ none ↦ true | some t ↦ ltb t i64_bound ]

module _ (now later : ℕ) (s : StorageAdapter) (db : ℕ) (key : Bytes) where
  -- What a reply of `get_ttl_in_db` says of the key.
  abbrev pub TtlMeaning : ℤ → Type 0
  TtlMeaning (pos n) = (t : ℕ) → is_some (view t s db key) ≡ ltb t (later + n)
  TtlMeaning (negsuc zero) = (t : ℕ) → is_some (view t s db key) ≡ true
  TtlMeaning (negsuc (suc zero)) = view later s db key ≡ none
  TtlMeaning (negsuc (suc (suc _))) = ⊥

  ttl_means :
      (z : ℤ)
      → fits_i64 (find s db key) ≡ true
      → now ≤ later
      → (get_ttl_in_db now later db key s).0 ≡ ok z
      → TtlMeaning z
  unfolding get_ttl_in_db view is_expired as_i64
  ttl_means (pos n) f h e = λ t. ground arith
  ttl_means (negsuc zero) f h e = λ t. ground arith
  ttl_means (negsuc (suc zero)) f h e = ground arith
  ttl_means (negsuc (suc (suc n))) f h e = ground arith

  ttl_replies : (z : ℤ) × (get_ttl_in_db now later db key s ≡ (ok z, s))
  unfolding get_ttl_in_db
  ttl_replies = (_, refl)

-- `get_ttl_in_db` changes nothing and returns a number, which is true: `n` means that the key is there
-- exactly while the clock is below `later + n`, -1 that it is there at every time, -2 that it is not
-- there, and no other number is returned. `now` and `later` are the two readings of the clock in the
-- call; the condition is that the time of the entry fits an `i64`.
pub get_ttl_in_db_meaning :
    (now later : ℕ) (s : StorageAdapter) (db : ℕ) (key : Bytes)
    → fits_i64 (find s db key) ≡ true
    → now ≤ later
    → (z : ℤ) × (get_ttl_in_db now later db key s ≡ (ok z, s)) × TtlMeaning now later s db key z
get_ttl_in_db_meaning now later s db key f h =
    let (z, e) = ttl_replies now later s db key in
    (z, e, ttl_means now later s db key z f h (ap (λ r. r.0) e))

live-clear :
    (t : ℕ) (v : StoredValue) → live t (some (set_expiration v none)) ≡ some (set_expiration v none)
unfolding is_expired set_expiration
live-clear t v = refl

view_timeless :
    (t : ℕ) (s : StorageAdapter) (db : ℕ) (key : Bytes) (v : StoredValue)
    → find s db key ≡ some v
    → v.expires_at ≡ none
    → view t s db key ≡ some (set_expiration v none)
unfolding view is_expired set_expiration
view_timeless t s db key v hit e = ground arith

-- PERSIST's storage call on a key that shows `v`: returns whether `v` had a time, and afterwards the
-- key shows the value with no time, at every time of the clock.
pub persist_in_db_contract :
    (now db : ℕ) (key : Bytes) (s : StorageAdapter) (v : StoredValue) (t : ℕ)
    → view now s db key ≡ some v
    → ((persist_in_db now db key s).0 ≡ ok (is_some v.expires_at))
      × (view t (persist_in_db now db key s).1 db key ≡ some (set_expiration v none))
unfolding persist_in_db
persist_in_db_contract now db key s v t h =
    let hit = find_of_view now s db key v h in
    (
      ground arith,
      ground (
        arith,
        view-insert_at_self s db key t (set_expiration v none) (InRange-of_view now s db key v h),
        live-clear t v,
        view_timeless t s db key v,
      ),
    )
