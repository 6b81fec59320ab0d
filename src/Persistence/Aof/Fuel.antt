-- ===== src/Persistence/Aof/Fuel.antt =====
-- src/persistence/aof.rs: how much of a file each read takes, and the rounds of `load_all`.
use ai_kv.Base.{
  Bool, true, false, leb, i64_bound, ◌*◌, if◌then◌else◌, ℕ, zero, suc, ◌+◌, ◌<◌, ◌≤◌, ◌≡◌, refl, ap,
  ◌∙◌, Option, none, some, List, [], ◌∷◌, length, length-drop, arith,
}
use ai_kv.Text.{Bytes}
use ai_kv.Error.{Result, ok, err}
use ai_kv.Effect.{give, Effect, check, proceed, ◌>>=◌}
use ai_kv.Persistence.Aof.{
  split_line, read_line, marked_length, read_exact, of_utf8, read_arg, read_args, read_command,
  read_body, with_arg, read_counted, Reading, finished, panicked, command, behind, load_from,
  load_all,
}

-- What is left is no longer than what there was.
abbrev Shrinks : {A : Type 0} → Effect Bytes A → Type 0
Shrinks m = (s : Bytes) → length (m s).1 ≤ length s

proceed-Shrinks :
    {A B : Type 0} (r : Result A) (s : Bytes) (f : A → Effect Bytes B)
    → ((a : A) → Shrinks (f a))
    → length (proceed (r, s) f).1 ≤ length s
proceed-Shrinks (ok a) s f h = h a s
proceed-Shrinks (err e) s f h = omega arith

bind-Shrinks :
    {A B : Type 0} (m : Effect Bytes A) (f : A → Effect Bytes B)
    → Shrinks m
    → ((a : A) → Shrinks (f a))
    → Shrinks (m >>= f)
bind-Shrinks m f h k s = omega (arith, h s, proceed-Shrinks (m s).0 (m s).1 f k)

split_line-Shrinks : (s : Bytes) → length (split_line s).1 ≤ length s
unfolding split_line
split_line-Shrinks [] = omega arith
split_line-Shrinks (c ∷ s) = ground (arith, split_line-Shrinks s)

read_line-Shrinks : Shrinks read_line
unfolding read_line
read_line-Shrinks s = ground (arith, split_line-Shrinks s)

read_line-shorter : (c : ℕ) (s : Bytes) → length (read_line (c ∷ s)).1 ≤ length s
unfolding read_line split_line
read_line-shorter c s = ground (arith, split_line-Shrinks s)

read_exact-Shrinks : (n : ℕ) → Shrinks (read_exact n)
unfolding read_exact
read_exact-Shrinks n s = ground (arith, length-drop n s)

check-Shrinks : {A : Type 0} (r : Result A) → Shrinks (check r)
check-Shrinks r s = omega arith

abbrev arg_length : Bytes → Result ℕ
arg_length =
    marked_length b'$' "Invalid AOF format: expected bulk string, got: "
      "Invalid bulk string length: "

abbrev array_length : Bytes → Result ℕ
array_length =
    marked_length b'*' "Invalid AOF format: expected array, got: " "Invalid array length: "

if-Shrinks :
    {A : Type 0} (b : Bool) (m n : Effect Bytes A)
    → Shrinks m
    → Shrinks n
    → Shrinks (if b then m else n)
if-Shrinks true m n h k = h
if-Shrinks false m n h k = k

read_body-Shrinks : (len : ℕ) → Shrinks (read_body len)
unfolding read_body
read_body-Shrinks len = bind-Shrinks (read_exact len) _ (read_exact-Shrinks len) λ buf.
    bind-Shrinks read_line _ read_line-Shrinks
      λ _. bind-Shrinks (check (of_utf8 buf)) _ (check-Shrinks (of_utf8 buf)) λ arg s. omega arith

read_arg-Shrinks : Shrinks read_arg
unfolding read_arg
read_arg-Shrinks = bind-Shrinks read_line _ read_line-Shrinks λ line.
    bind-Shrinks (check (arg_length line)) _ (check-Shrinks (arg_length line)) λ len.
      if-Shrinks (leb i64_bound len) (give none) (read_body len) (λ s. omega arith)
        (read_body-Shrinks len)

with_arg-Shrinks :
    (arg : Option Bytes) (m : Effect Bytes (Option (List Bytes)))
    → Shrinks m
    → Shrinks (with_arg arg m)
unfolding with_arg
with_arg-Shrinks none m h = λ s. omega arith
with_arg-Shrinks (some arg) m h = bind-Shrinks m _ h λ args s. omega arith

read_args-Shrinks : (count : ℕ) → Shrinks (read_args count)
unfolding read_args
read_args-Shrinks zero = λ s. omega arith
read_args-Shrinks (suc count) =
    bind-Shrinks read_arg _ read_arg-Shrinks
      λ arg. with_arg-Shrinks arg (read_args count) (read_args-Shrinks count)

read_counted-Shrinks : (count : ℕ) → Shrinks (read_counted count)
unfolding read_counted
read_counted-Shrinks count =
    bind-Shrinks (read_args count) _ (read_args-Shrinks count) λ args s. omega arith

abbrev array_behind : Bytes → Effect Bytes Reading
array_behind line = check (array_length line) >>= λ count.
    if leb i64_bound (24 * count) then give panicked else read_counted count

array_behind-Shrinks : (line : Bytes) → Shrinks (array_behind line)
array_behind-Shrinks line =
    bind-Shrinks (check (array_length line)) _ (check-Shrinks (array_length line)) λ count.
      if-Shrinks (leb i64_bound (24 * count)) (give panicked) (read_counted count)
        (λ s. omega arith) (read_counted-Shrinks count)

read_command-shorter : (c : ℕ) (s : Bytes) → length (read_command (c ∷ s)).1 ≤ length s
unfolding read_command
read_command-shorter c s = omega (
  arith,
  read_line-shorter c s,
  proceed-Shrinks (read_line (c ∷ s)).0 (read_line (c ∷ s)).1 array_behind array_behind-Shrinks,
)

behind-same :
    (r : Result Reading) (s : Bytes) (f g : Effect Bytes (Option (List (List Bytes))))
    → f s ≡ g s
    → proceed (r, s) (λ next. behind next f) ≡ proceed (r, s) (λ next. behind next g)
unfolding behind
behind-same (ok finished) s f g h = refl
behind-same (ok panicked) s f g h = refl
behind-same (ok (command args)) s f g h = rw h refl
behind-same (err e) s f g h = refl

load_from-suc : (fuel : ℕ) (s : Bytes) → length s < fuel → load_from (suc fuel) s ≡ load_from fuel s
unfolding load_from
load_from-suc zero s h = absurd (omega arith)
load_from-suc (suc fuel) [] h = unfold read_command in unfold behind in refl
load_from-suc (suc fuel) (c ∷ s) h =
    let u = (read_command (c ∷ s)).1 in
    behind-same (read_command (c ∷ s)).0 u (load_from (suc fuel)) (load_from fuel)
      (load_from-suc fuel u (omega (arith, read_command-shorter c s)))

load_from-add :
    (more fuel : ℕ) (s : Bytes) → length s < fuel → load_from (more + fuel) s ≡ load_from fuel s
load_from-add zero fuel s h = ap (λ n. load_from n s) {x = zero + fuel} {y = fuel} (omega arith)
load_from-add (suc more) fuel s h =
    ap (λ n. load_from n s) {x = suc more + fuel} {y = suc (more + fuel)} (omega arith)
    ∙ load_from-suc (more + fuel) s (omega arith)
    ∙ load_from-add more fuel s h

-- Whatever stands in a file that has a byte, `read_command` takes a byte of it at least, also when it
-- fails or panics; so the loop of `load_all` ends by itself, after no more rounds than there are
-- bytes and one: with any number of further rounds the result is the same.
pub load_all_ends :
    (more c : ℕ) (rest : Bytes)
    → (length (read_command (c ∷ rest)).1 < length (c ∷ rest))
      × ((load_from (more + (length (c ∷ rest) + 1)) (c ∷ rest)).0 ≡ load_all (c ∷ rest))
unfolding load_all
load_all_ends more c rest =
    let file : Bytes = c ∷ rest in
    (
      omega (arith, read_command-shorter c rest),
      ap (λ r. r.0) (load_from-add more (length file + 1) file (omega arith)),
    )
