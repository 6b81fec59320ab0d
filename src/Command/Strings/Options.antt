-- ===== src/Command/Strings/Options.antt =====
-- src/command/string.rs: SET and GETEX, whose options set a time.
pub mod Said
pub mod Conditions
use ai_kv.Base.{
  ℕ, ◌%◌, ◌*◌, Bool, true, false, not, ◌&&◌, Option, none, some, List, [], ◌∷◌, u64_mod,
  if◌then◌else◌,
}
use ai_kv.Text.{Bytes, codes, bytes_eq}
use ai_kv.Text.Utf8.{from_utf8_lossy, to_uppercase}
use ai_kv.Error.{Result, ok, err, wrong_arg_count, literal}
use ai_kv.Effect.{Effect, give, fail, check, ◌>>=◌, ◌>>◌}
use ai_kv.Resp.{RespValue, bulk_string, null_bulk_string, ok_reply}
use ai_kv.Storage.Adapter.{
  StorageAdapter, get_from_db, set_in_db, set_with_expiration_in_db, exists_in_db,
}
use ai_kv.Command.Index.{u64_arg, bad_argument}
use ai_kv.Command.Strings.{Handler, out_of_range, at_seconds, at_millis}

pub record SetOptions : Type 0 where
  pub nx : Bool
  pub xx : Bool
  pub expire_ms : Option ℕ

abbrev pub no_options : SetOptions
no_options = record { nx = false; xx = false; expire_ms = none }

-- What a word is to the loop of SET. An unknown word is passed over.
pub data SetWord : Type 0 where
  nx_word xx_word ex_word px_word other_word : SetWord

unfoldable pub set_word : Bytes → SetWord
set_word arg =
    let word = to_uppercase (from_utf8_lossy arg) in
    if bytes_eq word (codes "NX")
    then nx_word
    else if bytes_eq word (codes "XX")
    then xx_word
    else if bytes_eq word (codes "EX")
    then ex_word
    else if bytes_eq word (codes "PX")
    then px_word
    else other_word

-- The time behind EX or PX, in milliseconds as a `u64`.
unfoldable pub time_arg : ℕ → Bytes → Result ℕ
time_arg unit arg = elim (u64_arg "ERR value is not an integer" arg) [
  | err e ↦ err e
  | ok n ↦ ok (n * unit % u64_mod)
]

unfoldable pub read_options : List Bytes → SetOptions → Result SetOptions
unfolding set_word time_arg
read_options [] o = ok o
read_options (word ∷ []) o = elim (set_word word) [
  | nx_word ↦ ok (record o { nx = true })
  | xx_word ↦ ok (record o { xx = true })
  | other_word ↦ ok o
  | _ ↦ err (bad_argument "ERR syntax error")
]
read_options (word ∷ arg ∷ rest) o = elim (set_word word) [
  | nx_word ↦ read_options (arg ∷ rest) (record o { nx = true })
  | xx_word ↦ read_options (arg ∷ rest) (record o { xx = true })
  | other_word ↦ read_options (arg ∷ rest) o
  | ex_word ↦ elim (time_arg 1000 arg) [
    | err e ↦ err e
    | ok ms ↦ read_options rest (record o { expire_ms = some ms })
  ]
  | px_word ↦ elim (time_arg 1 arg) [
    | err e ↦ err e
    | ok ms ↦ read_options rest (record o { expire_ms = some ms })
  ]
]

-- `nx && exists`, and then `xx && !exists`: the storage is asked only where the flag is set.
pub refused : ℕ → ℕ → Bytes → SetOptions → Effect StorageAdapter Bool
refused now db key o = do
  by_nx ← if o.nx then exists_in_db now db key else give false
  (if by_nx
      then give true
      else if o.xx
      then (do there ← exists_in_db now db key; give (not there))
      else give false)

pub store_with : ℕ → ℕ → Bytes → Bytes → Option ℕ → Effect StorageAdapter (Unit {0})
store_with now db key value none = set_in_db db key value
store_with now db key value (some ms) = set_with_expiration_in_db db key value (at_millis now ms)

pub set : Handler
unfolding read_options refused store_with
set now (k ∷ value ∷ options) db = do
  let key = from_utf8_lossy k
  o ← check (read_options options no_options)
  skip ← refused now db key o
  (if skip
      then give null_bulk_string
      else (do store_with now db key value o.expire_ms; give ok_reply))
set now _ db = fail (wrong_arg_count (literal "SET"))

-- The time that an option of GETEX sets.
pub data Lifetime : Type 0 where
  keep clear : Lifetime
  until : ℕ → Lifetime

timed : (ℕ → ℕ) → List Bytes → Result Lifetime
timed at [] = err (bad_argument "ERR syntax error")
timed at (arg ∷ _) = elim (u64_arg out_of_range arg) [ err e ↦ err e | ok n ↦ ok (until (at n)) ]

getex_option : ℕ → List Bytes → Result Lifetime
unfolding timed at_seconds at_millis
getex_option now [] = ok keep
getex_option now (arg ∷ rest) =
    let word = to_uppercase (from_utf8_lossy arg) in
    if bytes_eq word (codes "EX")
    then timed (at_seconds now) rest
    else if bytes_eq word (codes "PX")
    then timed (at_millis now) rest
    else if bytes_eq word (codes "EXAT")
    then timed (λ t. t * 1000 % u64_mod) rest
    else if bytes_eq word (codes "PXAT")
    then timed (λ t. t) rest
    else if bytes_eq word (codes "PERSIST")
    then ok clear
    else err (bad_argument "ERR syntax error")

apply_lifetime : ℕ → Bytes → Bytes → Lifetime → Effect StorageAdapter (Unit {0})
apply_lifetime db key value keep = give tt
apply_lifetime db key value clear = set_in_db db key value
apply_lifetime db key value (until t) = set_with_expiration_in_db db key value t

-- The options are read only if the key is there.
getex_found : ℕ → List Bytes → ℕ → Bytes → Option Bytes → Effect StorageAdapter RespValue
unfolding getex_option apply_lifetime
getex_found now options db key none = give null_bulk_string
getex_found now options db key (some value) = do
  lifetime ← check (getex_option now options)
  apply_lifetime db key value lifetime
  give (bulk_string (some value))

unfoldable pub getex : Handler
unfolding getex_found
getex now (k ∷ options) db = do
  let key = from_utf8_lossy k
  value ← get_from_db now db key
  getex_found now options db key value
getex now [] db = fail (wrong_arg_count (literal "GETEX"))
