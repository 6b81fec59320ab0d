-- ===== src/Command/Strings/Options/Conditions.antt =====
-- SET: its conditions NX and XX, its time, and what GET replies afterwards.
use ai_kv.Base.{
  ℕ, ◌+◌, ◌%◌, u64_mod, ◌∙◌, ◌≡◌, refl, ap, Bool, true, false, not, ◌&&◌, ◌||◌, Option, none, some,
  List, [], ◌∷◌, arith, is_some, if◌then◌else◌, Bool-cases, inl, inr, ==_iff,
}
use ai_kv.Text.{Bytes, bytes_eq}
use ai_kv.Text.Utf8.{from_utf8_lossy}
use ai_kv.Error.{Result, ok}
use ai_kv.Resp.{RespValue, bulk_string, null_bulk_string, ok_reply}
use ai_kv.Storage.Value.{new_string, as_string}
use ai_kv.Storage.Adapter.{StorageAdapter, insert_at}
use ai_kv.Storage.View.{view, InRange, live}
use ai_kv.Storage.Contract.{Shows, Shows-insert, get_from_db-view, exists_in_db-view}
use ai_kv.Command.Strings.{get, at_millis}
use ai_kv.Command.Strings.Shown.{
  timed_string, set_in_db_lem, set_with_expiration_in_db_lem, Shows-new_string,
}
use ai_kv.Command.Strings.Options.Said.{
  SetItem, Says, asks_absent, asks_present, lasting, last_of, read_options_lem,
}
use ai_kv.Command.Strings.Options.{SetOptions, no_options, read_options, refused, store_with, set}

-- The conditions of SET at a key that is there, or is not.
abbrev kept_out : SetOptions → Bool → Bool
kept_out o there = o.nx && there || o.xx && not there

-- The time that SET writes: so many milliseconds from now, if it has the option.
abbrev time_of : ℕ → Option ℕ → Option ℕ
time_of now none = none
time_of now (some ms) = some (at_millis now ms)

module _ (now db : ℕ) (key : Bytes) (s : StorageAdapter) where
  refused_lem :
      (o : SetOptions) → refused now db key o s ≡ (ok (kept_out o (is_some (view now s db key))), s)
  unfolding refused
  refused_lem o = ground (arith, exists_in_db-view now db key s)

  store_with_lem :
      (value : Bytes) (time : Option ℕ)
      → InRange s db
      → store_with now db key value time s
        ≡ (ok tt, insert_at db key (timed_string value (time_of now time)) s)
  unfolding store_with
  store_with_lem value none h = set_in_db_lem db key s value h
  store_with_lem value (some ms) h =
      set_with_expiration_in_db_lem db key s value (at_millis now ms) h

set_eq :
    (now : ℕ) (k value : Bytes) (options : List Bytes) (db : ℕ) (s : StorageAdapter)
    (o : SetOptions)
    → InRange s db
    → read_options options no_options ≡ ok o
    → kept_out o (is_some (view now s db (from_utf8_lossy k))) ≡ false
    → set now (k ∷ value ∷ options) db s ≡ (
      ok ok_reply,
      insert_at db (from_utf8_lossy k) (timed_string value (time_of now o.expire_ms)) s,
    )
unfolding set
set_eq now k value options db s o h parsed free =
    let key = from_utf8_lossy k in
    rw (parsed, refused_lem now db key s o, free, store_with_lem now db key s value o.expire_ms h)
      refl

-- The options as the loop of SET has read them.
abbrev options_of : List SetItem → SetOptions
options_of is = record {
  nx = asks_absent is;
  xx = asks_present is;
  expire_ms = last_of (lasting is) none;
}

options_of_lem :
    (ws : List Bytes) (is : List SetItem)
    → Says ws is
    → read_options ws no_options ≡ ok (options_of is)
options_of_lem ws is said = read_options_lem ws is false false none said

set_held :
    (now : ℕ) (k value : Bytes) (options : List Bytes) (db : ℕ) (s : StorageAdapter)
    (is : List SetItem)
    → read_options options no_options ≡ ok (options_of is)
    → kept_out (options_of is) (is_some (view now s db (from_utf8_lossy k))) ≡ true
    → set now (k ∷ value ∷ options) db s ≡ (ok null_bulk_string, s)
unfolding set
set_held now k value options db s is parsed out =
    rw (parsed, refused_lem now db (from_utf8_lossy k) s (options_of is), out) refl

-- Whether the options keep SET from writing at a key that is there, or is not.
abbrev pub held_back : List SetItem → Bool → Bool
held_back is true = asks_absent is
held_back is false = asks_present is

held_back_lem :
    (is : List SetItem) (there : Bool) → kept_out (options_of is) there ≡ held_back is there
held_back_lem is there = ground arith

-- The time that the options give: the clock and how long they say, as a `u64`.
abbrev pub until_time : ℕ → List SetItem → Option ℕ
until_time now is = elim (lasting is) [ none ↦ none | some ms ↦ some ((now + ms) % u64_mod) ]

until_time_lem :
    (now : ℕ) (is : List SetItem) → time_of now (last_of (lasting is) none) ≡ until_time now is
unfolding at_millis
until_time_lem now is = ground arith

abbrev pub SetContract :
    ℕ
    → Bytes
    → Bytes
    → ℕ
    → StorageAdapter
    → List SetItem
    → Result RespValue × StorageAdapter
    → Bool
    → Type 0
SetContract now key value db s is result true = result ≡ (ok null_bulk_string, s)
SetContract now key value db s is result false =
    (result.0 ≡ ok ok_reply)
    × Shows now s db key (live now (some (timed_string value (until_time now is)))) result.1

-- SET into a database that is there, with words that say options: with NX at a key that shows
-- something, and with XX at a key that shows nothing, the reply is null and nothing changes; else the
-- reply is OK, and the key shows the value, with no time if no option gives one, and else with the
-- time that is the clock and the last given duration, in milliseconds, added, where EX gives seconds;
-- if this time is not after the clock the key shows nothing; all other keys show what they showed.
-- The words may be in any case, and a word that is no option is passed over. Products and sums of
-- times are taken as `u64`.
pub set_contract :
    (now : ℕ) (k value : Bytes) (options : List Bytes) (db : ℕ) (s : StorageAdapter)
    (is : List SetItem)
    → InRange s db
    → Says options is
    → SetContract now
        (from_utf8_lossy k)
        value
        db
        s
        is
        (set now (k ∷ value ∷ options) db s)
        (held_back is (is_some (view now s db (from_utf8_lossy k))))
set_contract now k value options db s is h said =
    let key = from_utf8_lossy k in
    let there = is_some (view now s db key) in
    let parsed = options_of_lem options is said in
    let same = held_back_lem is there in
    elim (Bool-cases (held_back is there)) [
      | inl out ↦ rw (out, set_held now k value options db s is parsed (same ∙ out)) refl
      | inr free ↦
          rw (free, set_eq now k value options db s (options_of is) h parsed (same ∙ free))
            (
              refl,
              rw (until_time_lem now is)
                  (Shows-insert now db key s (timed_string value (until_time now is)) h),
            )
    ]

no_options_read : read_options [] no_options ≡ ok no_options
unfolding read_options
no_options_read = refl

set_plain :
    (now : ℕ) (k value : Bytes) (db : ℕ) (s : StorageAdapter)
    → InRange s db
    → (set now (k ∷ value ∷ []) db s).1 ≡ insert_at db (from_utf8_lossy k) (new_string value) s
set_plain now k value db s h =
    ap (λ r. r.1) (set_eq now k value [] db s no_options h no_options_read refl)

-- After a SET without options into a database that is there, GET of any key of it replies the value, if
-- the key is the one that was set, and else what it replied before.
pub get-set :
    (now : ℕ) (k value j : Bytes) (db : ℕ) (s : StorageAdapter)
    → InRange s db
    → (get now (j ∷ []) db (set now (k ∷ value ∷ []) db s).1).0 ≡ (
        if bytes_eq (from_utf8_lossy k) (from_utf8_lossy j)
        then ok (bulk_string (some value))
        else (get now (j ∷ []) db s).0)
unfolding get as_string
get-set now k value j db s h =
    let key = from_utf8_lossy k in
    let other = from_utf8_lossy j in
    let s' = insert_at db key (new_string value) s in
    rw
      (
        set_plain now k value db s h,
        get_from_db-view now db other s',
        get_from_db-view now db other s,
        Shows-new_string db key s value now h db other,
      )
      (ground (arith, ==_iff db db))
