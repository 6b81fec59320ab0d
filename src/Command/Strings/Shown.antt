-- ===== src/Command/Strings/Shown.antt =====
-- What the string handlers read and write, as the storage shows it.
use ai_kv.Base.{ℕ, ◌≡◌, Option, none, some}
use ai_kv.Text.{Bytes}
use ai_kv.Error.{ok}
use ai_kv.Storage.Value.{StoredValue, new_string, with_expiration, is_expired, ValueType}
use ai_kv.Storage.Adapter.{StorageAdapter, set_in_db, set_with_expiration_in_db, insert_at}
use ai_kv.Storage.View.{InRange}
use ai_kv.Storage.Contract.{Shows, Shows-insert, set_value-InRange}

-- The value that a write with an optional time stores.
abbrev pub timed_string : Bytes → Option ℕ → StoredValue
timed_string b none = new_string b
timed_string b (some t) = with_expiration (ValueType.string b) t

module _ (db : ℕ) (key : Bytes) (s : StorageAdapter) (b : Bytes) where
  pub set_in_db_lem :
      InRange s db → set_in_db db key b s ≡ (ok tt, insert_at db key (new_string b) s)
  unfolding set_in_db
  set_in_db_lem h = set_value-InRange db key s (new_string b) h

  pub set_with_expiration_in_db_lem :
      (t : ℕ)
      → InRange s db
      → set_with_expiration_in_db db key b t s
        ≡ (ok tt, insert_at db key (timed_string b (some t)) s)
  unfolding set_with_expiration_in_db
  set_with_expiration_in_db_lem t h = set_value-InRange db key s (timed_string b (some t)) h

  -- A new string is shown whole: it has no time.
  pub Shows-new_string :
      (now : ℕ)
      → InRange s db
      → Shows now s db key (some (new_string b)) (insert_at db key (new_string b) s)
  unfolding is_expired
  Shows-new_string now h = Shows-insert now db key s (new_string b) h
