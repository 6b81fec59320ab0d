-- ===== src/Command/Lists/Filled/Keeps.antt =====
-- src/command/list.rs: LPUSH, RPUSH, LPOP and RPOP, and the methods of the storage, among those that leave
-- no empty list.
use ai_kv.Base.{
  ℕ, suc, zero, ◌≡◌, refl, Bool, true, false, Option-cases, inl, inr, Option, none, some, List, [],
  ◌∷◌, ◌++◌, arith, set, get_elem?, length_of_get_elem?, min, length,
}
use ai_kv.Text.{Bytes}
use ai_kv.Text.Utf8.{from_utf8_lossy}
use ai_kv.Error.{Result, ok, err}
use ai_kv.Effect.{Effect, proceed, check, ◌>>=◌}
use ai_kv.Storage.Value.{StoredValue, new_list, as_list}
use ai_kv.Storage.Adapter.{StorageAdapter, get_value, set_value, delete_from_db}
use ai_kv.Storage.View.{find-insert_at, find-remove_at}
use ai_kv.Command.Lists.{
  lpush, rpush, lpop, rpop, list_or_new, push_front_all, push_back_all, pop_count, pop_fronts,
  pop_backs, pop_stored, store_or_delete,
}
use ai_kv.Command.Lists.Edit.{push_end}
use ai_kv.Command.Lists.Filled.{is_filled, HasNoEmptyList}

abbrev pub Keeps : {A : Type 0} → Effect StorageAdapter A → Type 0
Keeps m = (s : StorageAdapter) → HasNoEmptyList s → HasNoEmptyList (m s).1

proceed-Keeps :
    {A B : Type 0} (r : Result A) (s : StorageAdapter) (f : A → Effect StorageAdapter B)
    → HasNoEmptyList s
    → ((a : A) → Keeps (f a))
    → HasNoEmptyList (proceed (r, s) f).1
proceed-Keeps (ok a) s f h k = k a s h
proceed-Keeps (err e) s f h k = h

pub bind-Keeps :
    {A B : Type 0} (m : Effect StorageAdapter A) (f : A → Effect StorageAdapter B)
    → Keeps m
    → ((a : A) → Keeps (f a))
    → Keeps (m >>= f)
bind-Keeps m f h k s n = proceed-Keeps (m s).0 (m s).1 f (h s n) k

pub get_value-Keeps : (now db : ℕ) (key : Bytes) → Keeps (get_value now db key)
unfolding get_value
get_value-Keeps now db key s n = n

pub set_value-Keeps :
    (db : ℕ) (key : Bytes) (v : StoredValue)
    → is_filled (some v) ≡ true
    → Keeps (set_value db key v)
unfolding set_value
set_value-Keeps db key v filled s n j k = elim (Option-cases (get_elem? s.databases db)) [
  | inl e ↦ rw e (n j k)
  | inr (d, e) ↦
      rw (e, find-insert_at s db key v j k (length_of_get_elem? s.databases db d e))
        (ground (arith, filled, n j k))
]

new_list-Keeps :
    (db : ℕ) (key : Bytes) (x : Bytes) (xs : List Bytes)
    → Keeps (set_value db key (new_list (x ∷ xs)))
new_list-Keeps db key x xs = set_value-Keeps db key (new_list (x ∷ xs)) refl

delete_from_db-Keeps : (db : ℕ) (key : Bytes) → Keeps (delete_from_db db key)
unfolding delete_from_db
delete_from_db-Keeps db key s n j k = rw (find-remove_at s db key j k) (ground (arith, n j k))

pub store_or_delete-Keeps :
    (db : ℕ) (key : Bytes) (l : List Bytes) → Keeps (store_or_delete db key l)
unfolding store_or_delete delete_from_db
store_or_delete-Keeps db key [] = delete_from_db-Keeps db key
store_or_delete-Keeps db key (x ∷ xs) = new_list-Keeps db key x xs

abbrev pub IsFilled : List Bytes → Type 0
IsFilled l = is_filled (some (new_list l)) ≡ true

push_front_all-IsFilled :
    (es : List Bytes) (x : Bytes) (l : List Bytes) → IsFilled (push_front_all es (x ∷ l))
unfolding push_front_all
push_front_all-IsFilled [] x l = refl
push_front_all-IsFilled (e ∷ es) x l = push_front_all-IsFilled es e (x ∷ l)

pub append-IsFilled : (l : List Bytes) (x : Bytes) (r : List Bytes) → IsFilled (l ++ (x ∷ r))
append-IsFilled [] x r = refl
append-IsFilled (y ∷ l) x r = refl

push_back_all-IsFilled : (es l : List Bytes) → IsFilled l → IsFilled (push_back_all es l)
unfolding push_back_all
push_back_all-IsFilled [] l h = h
push_back_all-IsFilled (e ∷ es) l h =
    push_back_all-IsFilled es (l ++ e ∷ []) (append-IsFilled l e [])

pub push_end-IsFilled : (left : Bool) (v : Bytes) (l : List Bytes) → IsFilled (push_end left v l)
unfolding push_end
push_end-IsFilled true v l = refl
push_end-IsFilled false v l = append-IsFilled l v []

pub set-IsFilled : (l : List Bytes) (i : ℕ) (v : Bytes) → IsFilled l → IsFilled (set l i v)
set-IsFilled [] i v h = h
set-IsFilled (x ∷ l) zero v h = refl
set-IsFilled (x ∷ l) (suc i) v h = refl

pub lpush-Keeps : (now : ℕ) (args : List Bytes) (db : ℕ) → Keeps (lpush now args db)
unfolding lpush
lpush-Keeps now [] db = λ s n. n
lpush-Keeps now (k ∷ []) db = λ s n. n
lpush-Keeps now (k ∷ e ∷ es) db =
    let key = from_utf8_lossy k in
    bind-Keeps (get_value now db key) _ (get_value-Keeps now db key) λ stored.
      bind-Keeps (check (list_or_new stored)) _ (λ s n. n)
        λ old.
          bind-Keeps (set_value db key (new_list (push_front_all (e ∷ es) old))) _
            (set_value-Keeps db key (new_list (push_front_all (e ∷ es) old))
              (unfold push_front_all in push_front_all-IsFilled es e old))
            λ _ s n. n

pub rpush-Keeps : (now : ℕ) (args : List Bytes) (db : ℕ) → Keeps (rpush now args db)
unfolding rpush
rpush-Keeps now [] db = λ s n. n
rpush-Keeps now (k ∷ []) db = λ s n. n
rpush-Keeps now (k ∷ e ∷ es) db =
    let key = from_utf8_lossy k in
    bind-Keeps (get_value now db key) _ (get_value-Keeps now db key) λ stored.
      bind-Keeps (check (list_or_new stored)) _ (λ s n. n)
        λ old.
          bind-Keeps (set_value db key (new_list (push_back_all (e ∷ es) old))) _
            (set_value-Keeps db key (new_list (push_back_all (e ∷ es) old)) (
              unfold push_back_all in
              push_back_all-IsFilled es (old ++ e ∷ []) (append-IsFilled old e [])))
            λ _ s n. n

pop_stored-Keeps :
    (pops : ℕ → List Bytes → List Bytes → List Bytes × List Bytes) (count db : ℕ) (key : Bytes)
    (stored : Option StoredValue)
    → Keeps (pop_stored pops count db key stored)
unfolding pop_stored
pop_stored-Keeps pops count db key none = λ s n. n
pop_stored-Keeps pops count db key (some stored) =
    bind-Keeps (check (as_list stored)) _ (λ s n. n)
      λ l.
        let rest = (pops (min count (length l)) [] l).1 in
        bind-Keeps (store_or_delete db key rest) _ (store_or_delete-Keeps db key rest) λ _ s n. n

pub lpop-Keeps : (now : ℕ) (args : List Bytes) (db : ℕ) → Keeps (lpop now args db)
unfolding lpop
lpop-Keeps now [] db = λ s n. n
lpop-Keeps now (k ∷ more) db =
    let key = from_utf8_lossy k in
    bind-Keeps (check (pop_count more)) _ (λ s n. n)
      λ count. bind-Keeps (get_value now db key) _ (get_value-Keeps now db key) λ stored.
        bind-Keeps (pop_stored pop_fronts count db key stored) _
          (pop_stored-Keeps pop_fronts count db key stored) λ _ s n. n

pub rpop-Keeps : (now : ℕ) (args : List Bytes) (db : ℕ) → Keeps (rpop now args db)
unfolding rpop
rpop-Keeps now [] db = λ s n. n
rpop-Keeps now (k ∷ more) db =
    let key = from_utf8_lossy k in
    bind-Keeps (check (pop_count more)) _ (λ s n. n)
      λ count. bind-Keeps (get_value now db key) _ (get_value-Keeps now db key) λ stored.
        bind-Keeps (pop_stored pop_backs count db key stored) _
          (pop_stored-Keeps pop_backs count db key stored) λ _ s n. n
