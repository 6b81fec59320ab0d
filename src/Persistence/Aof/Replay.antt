-- ===== src/Persistence/Aof/Replay.antt =====
-- src/persistence/aof.rs: what is logged is read back.
use ai_kv.Base.{
  ℕ, zero, suc, ◌+◌, ◌<◌, ◌≤◌, ◌≡◌, refl, sym, ap, ◌∙◌, true, false, some, List, [], ◌∷◌, ◌++◌,
  append_assoc, append-nil, leb, length, length-append, take, drop, arith, i64_bound, ◌*◌,
}
use ai_kv.Text.{Bytes, bytes_eq}
use ai_kv.Text.Utf8.{from_utf8_lossy}
use ai_kv.Text.Number.{print_nat}
use ai_kv.Error.{ok}
use ai_kv.Persistence.Aof.{
  crlf, length_line, logged_args, log_command, split_line, read_line, marked_length, read_exact,
  of_utf8, read_body, with_arg, read_counted, command, read_arg, read_args, read_command, behind,
  load_from, load_all,
}
use ai_kv.Persistence.Aof.Lines.{bytes_eq_self, read_line-length_line, marked_length-length_line}

take-front : (s rest : Bytes) → take (length s) (s ++ rest) ≡ s
take-front [] rest = refl
take-front (c ∷ s) rest = ap (λ t. c ∷ t) (take-front s rest)

drop-front : (s rest : Bytes) → drop (length s) (s ++ rest) ≡ rest
drop-front [] rest = refl
drop-front (c ∷ s) rest = drop-front s rest

-- An argument of a command is a string, and no longer than one can be in Rust.
abbrev pub AllText : List Bytes → Type 0
AllText [] = Unit
AllText (arg ∷ args) = (from_utf8_lossy arg ≡ arg) × (length arg < i64_bound) × AllText args

read_exact-front : (s rest : Bytes) → read_exact (length s) (s ++ rest) ≡ (ok s, rest)
unfolding read_exact
read_exact-front s rest =
    let fits : leb (length s) (length (s ++ rest)) ≡ true = ground (arith, length-append s rest) in
    rw (fits, take-front s rest, drop-front s rest) refl

read_line-crlf : (rest : Bytes) → read_line (crlf ++ rest) ≡ (ok crlf, rest)
unfolding read_line split_line from_utf8_lossy bytes_eq
read_line-crlf rest = refl

read_arg-logged :
    (arg rest : Bytes)
    → from_utf8_lossy arg ≡ arg
    → length arg < i64_bound
    → read_arg (length_line b'$' (length arg) ++ (arg ++ (crlf ++ rest))) ≡ (ok (some arg), rest)
unfolding read_arg read_body of_utf8
read_arg-logged arg rest text fits =
    let small : leb i64_bound (length arg) ≡ false = ground arith in
    rw
      (
        read_line-length_line b'$' (length arg) (omega arith) (omega arith) (arg ++ (crlf ++ rest)),
        marked_length-length_line b'$' (length arg) (omega arith) (omega arith)
            "Invalid AOF format: expected bulk string, got: " "Invalid bulk string length: "
            (omega arith),
        small,
        read_exact-front arg (crlf ++ rest),
        read_line-crlf rest,
        text,
        bytes_eq_self arg,
      )
      refl

logged_arg-append :
    (arg : Bytes) (args : List Bytes) (rest : Bytes)
    → logged_args (arg ∷ args) ++ rest
      ≡ length_line b'$' (length arg) ++ (arg ++ (crlf ++ (logged_args args ++ rest)))
unfolding logged_args
logged_arg-append arg args rest =
    append_assoc (length_line b'$' (length arg)) (arg ++ (crlf ++ logged_args args)) rest
    ∙ ap (λ t. length_line b'$' (length arg) ++ t)
        (append_assoc arg (crlf ++ logged_args args) rest)

read_args-logged :
    (args : List Bytes) (rest : Bytes)
    → AllText args
    → read_args (length args) (logged_args args ++ rest) ≡ (ok (some args), rest)
unfolding read_args with_arg logged_args
read_args-logged [] rest h = refl
read_args-logged (arg ∷ args) rest (text, fits, h) =
    rw
      (
        logged_arg-append arg args rest,
        read_arg-logged arg (logged_args args ++ rest) text fits,
        read_args-logged args rest h,
      )
      refl

abbrev pub IsCommand : List Bytes → Type 0
IsCommand args = (24 * length args < i64_bound) × AllText args

abbrev logged : List Bytes → Bytes
logged args = length_line b'*' (length args) ++ logged_args args

read_command_of_line :
    (c : ℕ) (t line rest : Bytes) (count : ℕ) (args : List Bytes) (u : Bytes)
    → read_line (c ∷ t) ≡ (ok line, rest)
    → marked_length b'*' "Invalid AOF format: expected array, got: " "Invalid array length: " line
      ≡ ok count
    → leb i64_bound (24 * count) ≡ false
    → read_args count rest ≡ (ok (some args), u)
    → read_command (c ∷ t) ≡ (ok (command args), u)
unfolding read_command read_counted
read_command_of_line c t line rest count args u h k small l = rw (h, k, small, l) refl

read_command-logged :
    (args : List Bytes) (rest : Bytes)
    → IsCommand args
    → read_command (logged args ++ rest) ≡ (ok (command args), rest)
unfolding length_line
read_command-logged args rest (fits, h) =
    let n = length args in
    let behind_line = logged_args args ++ rest in
    let small : leb i64_bound (24 * n) ≡ false = ground arith in
    ap read_command (append_assoc (length_line b'*' n) (logged_args args) rest)
    ∙ read_command_of_line b'*' ((print_nat n ++ crlf) ++ behind_line) (length_line b'*' n)
        behind_line n args rest
        (read_line-length_line b'*' n (omega arith) (omega arith) behind_line)
        (marked_length-length_line b'*' n (omega arith) (omega arith)
          "Invalid AOF format: expected array, got: " "Invalid array length: " (omega arith))
        small (read_args-logged args rest h)

abbrev pub AllCommands : List (List Bytes) → Type 0
AllCommands [] = Unit
AllCommands (args ∷ commands) = IsCommand args × AllCommands commands

-- The file after the commands have been logged one after the other.
abbrev pub log_all : List (List Bytes) → Bytes → Bytes
log_all [] file = file
log_all (args ∷ commands) file = log_all commands (log_command args file)

abbrev all_logged : List (List Bytes) → Bytes
all_logged [] = []
all_logged (args ∷ commands) = logged args ++ all_logged commands

log_all-append :
    (commands : List (List Bytes)) (file : Bytes)
    → log_all commands file ≡ file ++ all_logged commands
unfolding log_command
log_all-append [] file = sym (append-nil file)
log_all-append (args ∷ commands) file =
    log_all-append commands (log_command args file)
    ∙ append_assoc file (logged args) (all_logged commands)

-- Fuel above the number of commands is enough.
load_from-logged :
    (fuel : ℕ) (commands : List (List Bytes))
    → length commands < fuel
    → AllCommands commands
    → load_from fuel (all_logged commands) ≡ (ok (some commands), [])
unfolding load_from behind read_command
load_from-logged zero commands h all = absurd (omega arith)
load_from-logged (suc fuel) [] h all = refl
load_from-logged (suc fuel) (args ∷ commands) h (one, all) =
    rw
      (
        read_command-logged args (all_logged commands) one,
        load_from-logged fuel commands (omega arith) all,
      )
      refl

length-all_logged : (commands : List (List Bytes)) → length commands ≤ length (all_logged commands)
unfolding length_line
length-all_logged [] = omega arith
length-all_logged (args ∷ commands) =
    omega (arith, length-all_logged commands, length-append (logged args) (all_logged commands))

-- A file that commands are logged to, one after the other from the empty file, loads as these commands,
-- in their order. A command is a list of strings; neither it nor they take more than
-- `isize::MAX` bytes, as nothing does in Rust.
pub load_all-log_all :
    (commands : List (List Bytes))
    → AllCommands commands
    → load_all (log_all commands []) ≡ ok (some commands)
unfolding load_all
load_all-log_all commands all =
    let fuel = length (all_logged commands) + 1 in
    let enough : length commands < fuel = omega (arith, length-all_logged commands) in
    rw (log_all-append commands []) (ap (λ r. r.0) (load_from-logged fuel commands enough all))
