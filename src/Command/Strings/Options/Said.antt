-- ===== src/Command/Strings/Options/Said.antt =====
-- The options of SET as a client means them, and as the loop of SET reads them.
use ai_kv.Base.{
  ℕ, ◌*◌, ◌%◌, ◌≡◌, refl, ◌∙◌, Bool, true, false, ◌||◌, Option, none, some, List, [], ◌∷◌, arith,
  u64_mod,
}
use ai_kv.Text.{Bytes, codes, bytes_eq}
use ai_kv.Text.Utf8.{from_utf8_lossy, to_uppercase}
use ai_kv.Text.Number.{parse_u64}
use ai_kv.Error.{ok}
use ai_kv.Command.Index.{u64_arg}
use ai_kv.Command.Strings.Options.{
  SetOptions, nx_word, xx_word, ex_word, px_word, other_word, set_word, time_arg, read_options,
}

-- An option: only if the key is not there, only if it is there, for so many seconds, or for so many
-- milliseconds.
pub data SetItem : Type 0 where
  if_absent if_present : SetItem
  seconds millis : ℕ → SetItem

abbrev upper : Bytes → Bytes
upper w = to_uppercase (from_utf8_lossy w)

-- The words of a request and the options that they say, in any case; a word that is no option is passed
-- over.
pub data Says : List Bytes → List SetItem → Type 0 where
  nothing : Says [] []
  nx_said :
      (w : Bytes) (ws : List Bytes) (is : List SetItem)
      → upper w ≡ codes "NX"
      → Says ws is
      → Says (w ∷ ws) (if_absent ∷ is)
  xx_said :
      (w : Bytes) (ws : List Bytes) (is : List SetItem)
      → upper w ≡ codes "XX"
      → Says ws is
      → Says (w ∷ ws) (if_present ∷ is)
  ex_said :
      (w a : Bytes) (n : ℕ) (ws : List Bytes) (is : List SetItem)
      → upper w ≡ codes "EX"
      → parse_u64 (from_utf8_lossy a) ≡ some n
      → Says ws is
      → Says (w ∷ a ∷ ws) (seconds n ∷ is)
  px_said :
      (w a : Bytes) (n : ℕ) (ws : List Bytes) (is : List SetItem)
      → upper w ≡ codes "PX"
      → parse_u64 (from_utf8_lossy a) ≡ some n
      → Says ws is
      → Says (w ∷ a ∷ ws) (millis n ∷ is)
  other_said :
      (w : Bytes) (ws : List Bytes) (is : List SetItem)
      → bytes_eq (upper w) (codes "NX") ≡ false
      → bytes_eq (upper w) (codes "XX") ≡ false
      → bytes_eq (upper w) (codes "EX") ≡ false
      → bytes_eq (upper w) (codes "PX") ≡ false
      → Says ws is
      → Says (w ∷ ws) is

abbrev pub asks_absent : List SetItem → Bool
asks_absent [] = false
asks_absent (if_absent ∷ is) = true
asks_absent (if_present ∷ is) = asks_absent is
asks_absent (seconds n ∷ is) = asks_absent is
asks_absent (millis n ∷ is) = asks_absent is

abbrev pub asks_present : List SetItem → Bool
asks_present [] = false
asks_present (if_present ∷ is) = true
asks_present (if_absent ∷ is) = asks_present is
asks_present (seconds n ∷ is) = asks_present is
asks_present (millis n ∷ is) = asks_present is

abbrev pub last_of : Option ℕ → Option ℕ → Option ℕ
last_of none before = before
last_of (some ms) before = some ms

-- For how many milliseconds the last of the options on time says, as a `u64`.
abbrev pub lasting : List SetItem → Option ℕ
lasting [] = none
lasting (if_absent ∷ is) = lasting is
lasting (if_present ∷ is) = lasting is
lasting (seconds n ∷ is) = last_of (lasting is) (some (n * 1000 % u64_mod))
lasting (millis n ∷ is) = last_of (lasting is) (some (n % u64_mod))

set_word_nx : (w : Bytes) → upper w ≡ codes "NX" → set_word w ≡ nx_word
unfolding set_word codes bytes_eq
set_word_nx w e = rw e refl

set_word_xx : (w : Bytes) → upper w ≡ codes "XX" → set_word w ≡ xx_word
unfolding set_word codes bytes_eq
set_word_xx w e = rw e refl

set_word_ex : (w : Bytes) → upper w ≡ codes "EX" → set_word w ≡ ex_word
unfolding set_word codes bytes_eq
set_word_ex w e = rw e refl

set_word_px : (w : Bytes) → upper w ≡ codes "PX" → set_word w ≡ px_word
unfolding set_word codes bytes_eq
set_word_px w e = rw e refl

set_word_other :
    (w : Bytes)
    → bytes_eq (upper w) (codes "NX") ≡ false
    → bytes_eq (upper w) (codes "XX") ≡ false
    → bytes_eq (upper w) (codes "EX") ≡ false
    → bytes_eq (upper w) (codes "PX") ≡ false
    → set_word w ≡ other_word
unfolding set_word
set_word_other w p q r t = rw (p, q, r, t) refl

time_arg_lem :
    (unit : ℕ) (a : Bytes) (n : ℕ)
    → parse_u64 (from_utf8_lossy a) ≡ some n
    → time_arg unit a ≡ ok (n * unit % u64_mod)
unfolding time_arg u64_arg
time_arg_lem unit a n e = rw (time_arg, e) refl

read_nx :
    (w : Bytes) (ws : List Bytes) (o : SetOptions)
    → set_word w ≡ nx_word
    → read_options (w ∷ ws) o ≡ read_options ws (record o { nx = true })
unfolding read_options
read_nx w [] o e = rw (read_options, e) refl
read_nx w (a ∷ ws) o e = rw (read_options, e) refl

read_xx :
    (w : Bytes) (ws : List Bytes) (o : SetOptions)
    → set_word w ≡ xx_word
    → read_options (w ∷ ws) o ≡ read_options ws (record o { xx = true })
unfolding read_options
read_xx w [] o e = rw (read_options, e) refl
read_xx w (a ∷ ws) o e = rw (read_options, e) refl

read_other :
    (w : Bytes) (ws : List Bytes) (o : SetOptions)
    → set_word w ≡ other_word
    → read_options (w ∷ ws) o ≡ read_options ws o
unfolding read_options
read_other w [] o e = rw (read_options, e) refl
read_other w (a ∷ ws) o e = rw (read_options, e) refl

read_ex :
    (w a : Bytes) (n : ℕ) (ws : List Bytes) (o : SetOptions)
    → set_word w ≡ ex_word
    → parse_u64 (from_utf8_lossy a) ≡ some n
    → read_options (w ∷ a ∷ ws) o
      ≡ read_options ws (record o { expire_ms = some (n * 1000 % u64_mod) })
unfolding read_options
read_ex w a n ws o e p = rw (read_options, e, time_arg_lem 1000 a n p) refl

read_px :
    (w a : Bytes) (n : ℕ) (ws : List Bytes) (o : SetOptions)
    → set_word w ≡ px_word
    → parse_u64 (from_utf8_lossy a) ≡ some n
    → read_options (w ∷ a ∷ ws) o
      ≡ read_options ws (record o { expire_ms = some (n * 1 % u64_mod) })
unfolding read_options
read_px w a n ws o e p = rw (read_options, e, time_arg_lem 1 a n p) refl

-- The loop of SET reads what the words say.
pub read_options_lem :
    (ws : List Bytes) (is : List SetItem) (absent present : Bool) (ms : Option ℕ)
    → Says ws is
    → read_options ws (record { nx = absent; xx = present; expire_ms = ms })
      ≡ ok (record {
        nx = absent || asks_absent is;
        xx = present || asks_present is;
        expire_ms = last_of (lasting is) ms;
      })
read_options_lem ws is absent present ms nothing = unfold read_options in ground arith
read_options_lem ws is absent present ms (nx_said w vs js e h) =
    read_nx w vs _ (set_word_nx w e) ∙ read_options_lem vs js true present ms h ∙ ground arith
read_options_lem ws is absent present ms (xx_said w vs js e h) =
    read_xx w vs _ (set_word_xx w e) ∙ read_options_lem vs js absent true ms h ∙ ground arith
read_options_lem ws is absent present ms (ex_said w a n vs js e p h) =
    read_ex w a n vs _ (set_word_ex w e) p
    ∙ read_options_lem vs js absent present (some (n * 1000 % u64_mod)) h
    ∙ ground arith
read_options_lem ws is absent present ms (px_said w a n vs js e p h) =
    read_px w a n vs _ (set_word_px w e) p
    ∙ read_options_lem vs js absent present (some (n * 1 % u64_mod)) h
    ∙ ground arith
read_options_lem ws is absent present ms (other_said w vs js p q r t h) =
    read_other w vs _ (set_word_other w p q r t) ∙ read_options_lem vs js absent present ms h
