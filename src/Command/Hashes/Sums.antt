-- ===== src/Command/Hashes/Sums.antt =====
-- src/command/hash.rs: HINCRBY against the sum of the integers.
use ai_kv.Base.{
  ℕ, ◌≡◌, refl, ap, ◌∙◌, some, [], ◌∷◌, arith, ◌-◌, ◌≤◌, pos, negsuc, ℤ, ◌+ℤ◌, i64_bound, u64_mod,
}
use ai_kv.Text.{Bytes, bytes_eq_iff}
use ai_kv.Text.Utf8.{from_utf8_lossy}
use ai_kv.Text.Number.{print_i64}
use ai_kv.Text.Number.RoundTrip.{IsI64}
use ai_kv.Error.{ok}
use ai_kv.HashMap
use ai_kv.HashMap.{HashMap}
use ai_kv.HashMap.Laws.{get-insert}
use ai_kv.Resp.{integer, bulk_string}
use ai_kv.Storage.Value.{new_hash}
use ai_kv.Storage.Adapter.{StorageAdapter, insert_at}
use ai_kv.Storage.View.{view, InRange}
use ai_kv.Storage.Contract.{get_value-view, set_value-InRange}
use ai_kv.Command.Index.{i64_arg}
use ai_kv.Command.Hashes.{hash_or_new, hget}
use ai_kv.Command.Hashes.Counters.{hincrby, wrapping_add, current_value}
use ai_kv.Command.Hashes.Fields.{hash-insert_at, hget_lem}

-- In the range of `i64` the sum is the sum, and above it 2^64 is taken off.
wrapping_add-fits : (a b : ℤ) → IsI64 (a +ℤ b) → wrapping_add a b ≡ a +ℤ b
unfolding wrapping_add
wrapping_add-fits a b h = ground arith

wrapping_add_above :
    (a b : ℤ) (n : ℕ) → a +ℤ b ≡ pos n → i64_bound ≤ n → wrapping_add a b ≡ negsuc (u64_mod - n - 1)
unfolding wrapping_add
wrapping_add_above a b n e h = rw e (ground arith)

module _ (now : ℕ) (k f arg : Bytes) (db : ℕ) (s : StorageAdapter) (h : HashMap Bytes) (a b : ℤ)
    (there : InRange s db) (shown : hash_or_new (view now s db (from_utf8_lossy k)) ≡ ok h)
    (held : current_value (HashMap.get h (from_utf8_lossy f)) ≡ ok a)
    (number : i64_arg "invalid increment" arg ≡ ok b) where
  abbrev summed : HashMap Bytes
  summed = HashMap.insert h (from_utf8_lossy f) (print_i64 (wrapping_add a b))

  hincrby_eq :
      hincrby now (k ∷ f ∷ arg ∷ []) db s
      ≡ (ok (integer (wrapping_add a b)), insert_at db (from_utf8_lossy k) (new_hash summed) s)
  unfolding hincrby
  hincrby_eq =
      rw
        (
          number,
          get_value-view now db (from_utf8_lossy k) s,
          shown,
          held,
          set_value-InRange db (from_utf8_lossy k) s (new_hash summed) there,
        )
        refl

  get-summed : HashMap.get summed (from_utf8_lossy f) ≡ some (print_i64 (wrapping_add a b))
  get-summed = ground (
    arith,
    get-insert h (from_utf8_lossy f) (from_utf8_lossy f) (print_i64 (wrapping_add a b)),
    bytes_eq_iff (from_utf8_lossy f) (from_utf8_lossy f),
  )

  hget-hincrby :
      (hget now (k ∷ f ∷ []) db (hincrby now (k ∷ f ∷ arg ∷ []) db s).1).0
      ≡ ok (bulk_string (some (print_i64 (wrapping_add a b))))
  hget-hincrby =
      rw
        (
          hincrby_eq,
          hget_lem now db (from_utf8_lossy k) (insert_at db (from_utf8_lossy k) (new_hash summed) s)
              k f summed refl (hash-insert_at now db (from_utf8_lossy k) s summed there),
          get-summed,
        )
        refl

-- HINCRBY at a field of a hash that holds the number `a`, or 0 for a field that is not there: it
-- replies the sum with the increment, and HGET replies the sum's decimal print, if the sum fits an
-- `i64`.
pub hincrby_contract :
    (now : ℕ) (k f arg : Bytes) (db : ℕ) (s : StorageAdapter) (h : HashMap Bytes) (a b : ℤ)
    → InRange s db
    → hash_or_new (view now s db (from_utf8_lossy k)) ≡ ok h
    → current_value (HashMap.get h (from_utf8_lossy f)) ≡ ok a
    → i64_arg "invalid increment" arg ≡ ok b
    → IsI64 (a +ℤ b)
    → ((hincrby now (k ∷ f ∷ arg ∷ []) db s).0 ≡ ok (integer (a +ℤ b)))
      × ((hget now (k ∷ f ∷ []) db (hincrby now (k ∷ f ∷ arg ∷ []) db s).1).0
          ≡ ok (bulk_string (some (print_i64 (a +ℤ b)))))
hincrby_contract now k f arg db s h a b there shown held number small =
    let sum = wrapping_add-fits a b small in
    (
      ap (λ r. r.0) (hincrby_eq now k f arg db s h a b there shown held number)
          ∙ ap (λ c. ok (integer c)) sum,
      hget-hincrby now k f arg db s h a b there shown held number
          ∙ ap (λ c. ok (bulk_string (some (print_i64 c)))) sum,
    )

-- HINCRBY by which a field would go above the `i64` range is no error, as it is for INCRBY: the reply
-- and the field are 2^64 less than the sum, which is negative.
pub hincrby_overflow :
    (now : ℕ) (k f arg : Bytes) (db : ℕ) (s : StorageAdapter) (h : HashMap Bytes) (a b : ℤ) (n : ℕ)
    → InRange s db
    → hash_or_new (view now s db (from_utf8_lossy k)) ≡ ok h
    → current_value (HashMap.get h (from_utf8_lossy f)) ≡ ok a
    → i64_arg "invalid increment" arg ≡ ok b
    → a +ℤ b ≡ pos n
    → i64_bound ≤ n
    → ((hincrby now (k ∷ f ∷ arg ∷ []) db s).0 ≡ ok (integer (negsuc (u64_mod - n - 1))))
      × ((hget now (k ∷ f ∷ []) db (hincrby now (k ∷ f ∷ arg ∷ []) db s).1).0
          ≡ ok (bulk_string (some (print_i64 (negsuc (u64_mod - n - 1))))))
hincrby_overflow now k f arg db s h a b n there shown held number e above =
    let sum = wrapping_add_above a b n e above in
    (
      ap (λ r. r.0) (hincrby_eq now k f arg db s h a b there shown held number)
          ∙ ap (λ c. ok (integer c)) sum,
      hget-hincrby now k f arg db s h a b there shown held number
          ∙ ap (λ c. ok (bulk_string (some (print_i64 c)))) sum,
    )
