-- ===== src/Command/Strings/Basic.antt =====
-- GET, APPEND, GETDEL, SETNX and STRLEN: what they reply, and what they leave at the key.
use ai_kv.Base.{
  ℕ, ◌+◌, ◌≡◌, refl, Option, none, some, [], ◌∷◌, ◌++◌, length, arith, pos, length-append,
  Option-cases, inl, inr,
}
use ai_kv.Text.{Bytes}
use ai_kv.Text.Utf8.{from_utf8_lossy}
use ai_kv.Error.{ok}
use ai_kv.Resp.{integer}
use ai_kv.Storage.Value.{StoredValue, new_string}
use ai_kv.Storage.Adapter.{StorageAdapter}
use ai_kv.Storage.View.{view, InRange}
use ai_kv.Storage.Contract.{
  Shows, get_from_db-view, exists_in_db-view, string_of, delete_from_db_contract, Shows-same,
}
use ai_kv.Command.Strings.{get, append, getdel, setnx, bytes_or_empty}
use ai_kv.Command.Strings.Shown.{set_in_db_lem, Shows-new_string}

-- APPEND into a database that is there, at a key that shows a string or nothing: the key shows the old
-- bytes with the new ones behind them and no time, the reply is their length, and all other keys show
-- what they showed.
pub append_contract :
    (now : ℕ) (k more : Bytes) (db : ℕ) (s : StorageAdapter) (old : Option Bytes)
    → InRange s db
    → string_of (view now s db (from_utf8_lossy k)) ≡ ok old
    → ((append now (k ∷ more ∷ []) db s).0
        ≡ ok (integer (pos (length (bytes_or_empty old) + length more))))
      × Shows now s db
          (from_utf8_lossy k)
          (some (new_string (bytes_or_empty old ++ more)))
          (append now (k ∷ more ∷ []) db s).1
unfolding append
append_contract now k more db s old h shown =
    let key = from_utf8_lossy k in
    let value = bytes_or_empty old ++ more in
    rw (get_from_db-view now db key s, shown, set_in_db_lem db key s value h)
      (
        ground (arith, length-append (bytes_or_empty old) more),
        Shows-new_string db key s value now h,
      )

-- GETDEL at a key that shows a string or nothing: the reply is what GET replies, afterwards the key shows
-- nothing, and all other keys show what they showed.
getdel_contract :
    (now : ℕ) (k : Bytes) (db : ℕ) (s : StorageAdapter) (old : Option Bytes)
    → string_of (view now s db (from_utf8_lossy k)) ≡ ok old
    → ((getdel now (k ∷ []) db s).0 ≡ (get now (k ∷ []) db s).0)
      × Shows now s db (from_utf8_lossy k) none (getdel now (k ∷ []) db s).1
unfolding getdel get
getdel_contract now k db s none shown =
    let key = from_utf8_lossy k in
    rw (get_from_db-view now db key s, shown) (refl, Shows-same now db key s none (ground arith))
getdel_contract now k db s (some b) shown =
    let key = from_utf8_lossy k in
    let (reply, gone) = delete_from_db_contract now db key s in
    rw (get_from_db-view now db key s, shown, reply) (refl, gone)

abbrev pub SetnxContract : ℕ → Bytes → Bytes → ℕ → StorageAdapter → Option StoredValue → Type 0
SetnxContract now k value db s (some old) =
    setnx now (k ∷ value ∷ []) db s ≡ (ok (integer (pos 0)), s)
SetnxContract now k value db s none =
    ((setnx now (k ∷ value ∷ []) db s).0 ≡ ok (integer (pos 1)))
    × Shows now s db (from_utf8_lossy k) (some (new_string value))
        (setnx now (k ∷ value ∷ []) db s).1

-- SETNX into a database that is there: at a key that shows anything it replies 0 and changes nothing; at
-- a key that shows nothing it replies 1, the key shows the value with no time, and all other keys
-- show what they showed.
pub setnx_contract :
    (now : ℕ) (k value : Bytes) (db : ℕ) (s : StorageAdapter)
    → InRange s db
    → SetnxContract now k value db s (view now s db (from_utf8_lossy k))
setnx_contract now k value db s h = elim (Option-cases (view now s db (from_utf8_lossy k))) [
  | inl e ↦ rw e (absent e)
  | inr (old, e) ↦ rw e (present old e)
]
  where
    key : Bytes
    key = from_utf8_lossy k

    absent : view now s db key ≡ none → SetnxContract now k value db s none
    absent e =
        unfold setnx in
        rw (exists_in_db-view now db key s, e, set_in_db_lem db key s value h)
          (refl, Shows-new_string db key s value now h)

    present :
        (old : StoredValue)
        → view now s db key ≡ some old
        → SetnxContract now k value db s (some old)
    present old e = unfold setnx in rw (exists_in_db-view now db key s, e) refl
