-- ===== src/Command/Keys/Lifetimes.antt =====
-- src/command/key.rs: the EXPIRE commands against TTL, PTTL and PERSIST.
use ai_kv.Base.{
  ℕ, ◌+◌, ◌-◌, ◌*◌, ◌/◌, ◌%◌, ◌<◌, ◌≡◌, refl, ap, ◌∙◌, Bool, true, false, none, some, [], ◌∷◌, ℤ,
  pos, leb_ℤ, i64_bound, u64_mod, arith,
}
use ai_kv.Text.{Bytes, bytes_eq_iff}
use ai_kv.Text.Utf8.{from_utf8_lossy}
use ai_kv.Error.{ok}
use ai_kv.Effect.{Effect}
use ai_kv.Resp.{integer}
use ai_kv.Storage.Value.{StoredValue, set_expiration, is_expired}
use ai_kv.Storage.Adapter.{StorageAdapter, insert_at, find}
use ai_kv.Storage.Expiry.{set_expire_in_db, get_ttl_in_db, as_i64}
use ai_kv.Storage.View.{view, find-insert_at, InRange-of_view}
use ai_kv.Storage.Contract.{Shows, delete_from_db_contract}
use ai_kv.Storage.Lifetime.{update_live-some}
use ai_kv.Command.Index.{i64_arg}
use ai_kv.Command.Replies.{flag}
use ai_kv.Command.Keys.Expiration.{
  expire, pexpire, ttl, pttl, expire_or_delete, in_seconds, in_millis, expireat, pexpireat,
}

module _ (now db : ℕ) (key : Bytes) (s : StorageAdapter) (v : StoredValue)
    (shown : view now s db key ≡ some v) where
  -- The storage after an expiration has been set.
  abbrev pub timed_at : ℕ → StorageAdapter
  timed_at e = insert_at db key (set_expiration v (some e)) s

  set_expire_in_db_lem :
      (ms : ℕ)
      → now + ms < u64_mod
      → set_expire_in_db now now db key ms s ≡ (ok true, timed_at (now + ms))
  unfolding set_expire_in_db
  set_expire_in_db_lem ms fits =
      update_live-some now db key (λ w. set_expiration w (some ((now + ms) % u64_mod))) s v shown
      ∙ ap (λ e. (ok true, timed_at e)) {x = (now + ms) % u64_mod} {y = now + ms} (omega arith)

  find-timed_at : (e : ℕ) → find (timed_at e) db key ≡ some (set_expiration v (some e))
  find-timed_at e = ground (
    arith,
    find-insert_at s db key (set_expiration v (some e)) db key
        (InRange-of_view now s db key v shown),
    bytes_eq_iff key key,
  )

  get_ttl_in_db-timed_at :
      (t e : ℕ)
      → t < e
      → e < i64_bound
      → get_ttl_in_db t t db key (timed_at e) ≡ (ok (pos (e - t)), timed_at e)
  unfolding get_ttl_in_db is_expired set_expiration as_i64
  get_ttl_in_db-timed_at t e early fits = rw (find-timed_at e) (ground arith)

leb_ℤ_positive : (n : ℕ) → 0 < n → leb_ℤ (pos n) (pos 0) ≡ false
leb_ℤ_positive n h = ground arith

in_seconds_pos : (n : ℕ) → in_seconds (pos n) ≡ pos (n / 1000)
unfolding in_seconds
in_seconds_pos n = ground arith

expire_or_delete_positive :
    (db : ℕ) (key : Bytes) (n : ℕ) (set_time : ℕ → Effect StorageAdapter Bool)
    (s s' : StorageAdapter) (b : Bool)
    → 0 < n
    → set_time n s ≡ (ok b, s')
    → expire_or_delete db key (pos n) set_time s ≡ (ok (flag b), s')
unfolding expire_or_delete
expire_or_delete_positive db key n set_time s s' b positive e =
    rw (leb_ℤ_positive n positive, e) refl

module _ (now t db : ℕ) (k arg : Bytes) (n : ℕ) (s : StorageAdapter) (v : StoredValue)
    (shown : view now s db (from_utf8_lossy k) ≡ some v)
    (number : i64_arg "ERR value is not an integer" arg ≡ ok (pos n)) (positive : 0 < n) where
  expire_lem :
      now + n * 1000 < u64_mod
      → expire now (k ∷ arg ∷ []) db s
        ≡ (ok (flag true), timed_at now db (from_utf8_lossy k) s v shown (now + n * 1000))
  unfolding expire
  expire_lem fits =
      let key = from_utf8_lossy k in
      let small : n * 1000 % u64_mod ≡ n * 1000 = omega arith in
      rw number (
        expire_or_delete_positive db key n (λ m. set_expire_in_db now now db key (in_millis m)) s
          (timed_at now db key s v shown (now + n * 1000)) true positive
          (ap (λ ms. set_expire_in_db now now db key ms s) small
            ∙ set_expire_in_db_lem now db key s v shown (n * 1000) fits))

  pexpire_lem :
      now + n < u64_mod
      → pexpire now (k ∷ arg ∷ []) db s
        ≡ (ok (flag true), timed_at now db (from_utf8_lossy k) s v shown (now + n))
  unfolding pexpire
  pexpire_lem fits =
      let key = from_utf8_lossy k in
      rw number (
        expire_or_delete_positive db key n (λ m. set_expire_in_db now now db key m) s
          (timed_at now db key s v shown (now + n)) true positive
          (set_expire_in_db_lem now db key s v shown n fits))

-- EXPIRE of `n` seconds, `n` positive, at a key that is there: it replies 1, and while the key lives,
-- at every clock `t` below the end, TTL replies the whole seconds and PTTL the milliseconds that are
-- left. The end fits an `i64`.
pub ttl-expire :
    (now t db : ℕ) (k arg : Bytes) (n : ℕ) (s : StorageAdapter) (v : StoredValue)
    → view now s db (from_utf8_lossy k) ≡ some v
    → i64_arg "ERR value is not an integer" arg ≡ ok (pos n)
    → 0 < n
    → now + n * 1000 < i64_bound
    → t < now + n * 1000
    → ((expire now (k ∷ arg ∷ []) db s).0 ≡ ok (flag true))
      × ((ttl t (k ∷ []) db (expire now (k ∷ arg ∷ []) db s).1).0
          ≡ ok (integer (pos ((now + n * 1000 - t) / 1000))))
      × ((pttl t (k ∷ []) db (expire now (k ∷ arg ∷ []) db s).1).0
          ≡ ok (integer (pos (now + n * 1000 - t))))
unfolding ttl pttl
ttl-expire now t db k arg n s v shown number positive fits early =
    rw
      (
        expire_lem now t db k arg n s v shown number positive (omega arith),
        get_ttl_in_db-timed_at now db (from_utf8_lossy k) s v shown t (now + n * 1000) early fits,
        in_seconds_pos (now + n * 1000 - t),
      )
      (refl, refl, refl)

-- PEXPIRE of `n` milliseconds, `n` positive, at a key that is there replies 1, and PTTL replies at
-- every clock `t` below the end the milliseconds that are left. The end fits an `i64`.
pttl-pexpire :
    (now t db : ℕ) (k arg : Bytes) (n : ℕ) (s : StorageAdapter) (v : StoredValue)
    → view now s db (from_utf8_lossy k) ≡ some v
    → i64_arg "ERR value is not an integer" arg ≡ ok (pos n)
    → 0 < n
    → now + n < i64_bound
    → t < now + n
    → ((pexpire now (k ∷ arg ∷ []) db s).0 ≡ ok (flag true))
      × ((pttl t (k ∷ []) db (pexpire now (k ∷ arg ∷ []) db s).1).0
          ≡ ok (integer (pos (now + n - t))))
unfolding pttl
pttl-pexpire now t db k arg n s v shown number positive fits early =
    rw
      (
        pexpire_lem now t db k arg n s v shown number positive (omega arith),
        get_ttl_in_db-timed_at now db (from_utf8_lossy k) s v shown t (now + n) early fits,
      )
      (refl, refl)

-- The four EXPIRE commands with a time that is not positive: the key shows nothing afterwards, and
-- all other keys show what they showed.
pub expire_deletes :
    (now db : ℕ) (k arg : Bytes) (time : ℤ) (s : StorageAdapter)
    → i64_arg "ERR value is not an integer" arg ≡ ok time
    → leb_ℤ time (pos 0) ≡ true
    → Shows now s db (from_utf8_lossy k) none (expire now (k ∷ arg ∷ []) db s).1
      × Shows now s db (from_utf8_lossy k) none (expireat now (k ∷ arg ∷ []) db s).1
      × Shows now s db (from_utf8_lossy k) none (pexpire now (k ∷ arg ∷ []) db s).1
      × Shows now s db (from_utf8_lossy k) none (pexpireat now (k ∷ arg ∷ []) db s).1
unfolding expire expireat pexpire pexpireat expire_or_delete
expire_deletes now db k arg time s number past =
    let (reply, gone) = delete_from_db_contract now db (from_utf8_lossy k) s in
    rw (number, past, reply) (gone, gone, gone, gone)
