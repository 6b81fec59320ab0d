-- ===== src/Command/Strings/Many.antt =====
-- MSET, DEL and EXISTS: the loops over several keys.
use ai_kv.Base.{
  ℕ, ◌+◌, ◌%◌, ◌≡◌, refl, ◌∙◌, Bool, true, false, ◌&&◌, ◌||◌, Option, none, some, List, [], ◌∷◌,
  length, arith, pos, is_some, if◌then◌else◌, ◌==◌,
}
use ai_kv.Text.{Bytes, bytes_eq}
use ai_kv.Text.Utf8.{from_utf8_lossy}
use ai_kv.Error.{ok}
use ai_kv.Resp.{integer, ok_reply}
use ai_kv.Storage.Value.{StoredValue, new_string}
use ai_kv.Storage.Adapter.{StorageAdapter, insert_at, remove_at, delete_from_db, find}
use ai_kv.Storage.View.{view, InRange, length-insert_at, view-remove_at}
use ai_kv.Storage.Contract.{exists_in_db-view}
use ai_kv.Command.Strings.{mset, mset_all, del, del_all, exists, exists_all}
use ai_kv.Command.Strings.Shown.{set_in_db_lem, Shows-new_string}

abbrev pub or_else : Option Bytes → Option Bytes → Option Bytes
or_else none o = o
or_else (some w) o = some w

-- The value of a key's last pair in the arguments of MSET.
abbrev pub last_value : Bytes → List Bytes → Option Bytes
last_value key [] = none
last_value key (k ∷ []) = none
last_value key (k ∷ v ∷ rest) =
    or_else (last_value key rest) (if bytes_eq (from_utf8_lossy k) key then some v else none)

abbrev pub set_or_old : Option Bytes → Option StoredValue → Option StoredValue
set_or_old none old = old
set_or_old (some v) old = some (new_string v)

abbrev pub MsetShows : ℕ → ℕ → StorageAdapter → List Bytes → StorageAdapter → Type 0
MsetShows now db s args s' =
    (j : ℕ) (key : Bytes)
    → view now s' j key
      ≡ (if db == j then set_or_old (last_value key args) (view now s j key) else view now s j key)

-- One pair and then the rest, at one key: `here` tells whether it is the pair's.
mset_step :
    (same here : Bool) (v : Bytes) (w : Option Bytes) (old mid new : Option StoredValue)
    → mid ≡ (if same && here then some (new_string v) else old)
    → new ≡ (if same then set_or_old w mid else mid)
    → new ≡ (if same then set_or_old (or_else w (if here then some v else none)) old else old)
mset_step false here v w old mid new p q = q ∙ p
mset_step true true v none old mid new p q = q ∙ p
mset_step true false v none old mid new p q = q ∙ p
mset_step true here v (some w) old mid new p q = q

mset_all_lem :
    (now : ℕ) (args : List Bytes) (db : ℕ) (s : StorageAdapter)
    → InRange s db
    → ((mset_all args db s).0 ≡ ok tt) × MsetShows now db s args (mset_all args db s).1
unfolding mset_all
mset_all_lem now [] db s h = (refl, λ j key. ground arith)
mset_all_lem now (k ∷ []) db s h = (refl, λ j key. ground arith)
mset_all_lem now (k ∷ v ∷ rest) db s h =
    let first = from_utf8_lossy k in
    let s' = insert_at db first (new_string v) s in
    let (done, later) =
      mset_all_lem now rest db s' (omega (arith, length-insert_at s db first (new_string v))) in
    rw (set_in_db_lem db first s v h) (
      done,
      λ j key.
          mset_step (db == j) (bytes_eq first key) v (last_value key rest) (view now s j key)
            (view now s' j key) _ (Shows-new_string db first s v now h j key) (later j key),
    )

-- MSET of pairs into a database that is there replies OK: every key of that database shows the value of
-- its last pair with no time, if it has one, and all other keys show what they showed.
pub mset_contract :
    (now : ℕ) (k : Bytes) (rest : List Bytes) (db : ℕ) (s : StorageAdapter)
    → InRange s db
    → length (k ∷ rest) % 2 ≡ 0
    → ((mset now (k ∷ rest) db s).0 ≡ ok ok_reply)
      × MsetShows now db s (k ∷ rest) (mset now (k ∷ rest) db s).1
unfolding mset
mset_contract now k rest db s h even =
    let (done, shown) = mset_all_lem now (k ∷ rest) db s h in
    (ground arith, λ j key. ground (arith, shown j key))

-- Whether a key is among the arguments.
abbrev pub named : Bytes → List Bytes → Bool
named key [] = false
named key (k ∷ ks) = bytes_eq (from_utf8_lossy k) key || named key ks

del_all_lem :
    (now : ℕ) (ks : List Bytes) (db count : ℕ) (s : StorageAdapter) (j : ℕ) (key : Bytes)
    → view now (del_all ks db count s).1 j key
      ≡ (if db == j && named key ks then none else view now s j key)
unfolding del_all delete_from_db
del_all_lem now [] db count s j key = ground arith
del_all_lem now (k ∷ ks) db count s j key =
    let first = from_utf8_lossy k in
    ground (
      arith,
      del_all_lem now ks db (if is_some (find s db first) then count + 1 else count)
          (remove_at db first s) j key,
      view-remove_at s db first now j key,
    )

-- The number of the arguments, repetitions included, that show something.
abbrev pub shown_count : ℕ → StorageAdapter → ℕ → List Bytes → ℕ
shown_count now s db [] = 0
shown_count now s db (k ∷ ks) =
    let more = shown_count now s db ks in
    if is_some (view now s db (from_utf8_lossy k)) then more + 1 else more

exists_all_lem :
    (now : ℕ) (ks : List Bytes) (db count : ℕ) (s : StorageAdapter)
    → exists_all now ks db count s ≡ (ok (count + shown_count now s db ks), s)
unfolding exists_all
exists_all_lem now [] db count s = ground arith
exists_all_lem now (k ∷ ks) db count s =
    rw (exists_in_db-view now db (from_utf8_lossy k) s)
      (ground (arith, exists_all_lem now ks db (count + 1) s, exists_all_lem now ks db count s))

-- EXISTS changes nothing and replies how many of its arguments, repetitions included, show something; DEL
-- leaves none of its arguments in its database showing anything, and every other key shows what it
-- showed.
pub exists-del :
    (now : ℕ) (k : Bytes) (ks : List Bytes) (db : ℕ) (s : StorageAdapter)
    → (exists now (k ∷ ks) db s ≡ (ok (integer (pos (shown_count now s db (k ∷ ks)))), s))
      × ((j : ℕ) (key : Bytes)
          → view now (del now (k ∷ ks) db s).1 j key
            ≡ (if db == j && named key (k ∷ ks) then none else view now s j key))
unfolding exists del
exists-del now k ks db s = (
  rw (exists_all_lem now (k ∷ ks) db 0 s) (ground arith),
  λ j key. ground (arith, del_all_lem now (k ∷ ks) db 0 s j key),
)
