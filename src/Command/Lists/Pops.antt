-- ===== src/Command/Lists/Pops.antt =====
-- LPOP and RPOP: what they reply and what they leave at the key.
use ai_kv.Base.{
  ℕ, zero, suc, min, ◌≡◌, refl, sym, ap, ◌∙◌, Option, none, some, List, [], ◌∷◌, ◌++◌, reverse,
  length, take, drop, arith, append-nil, append_assoc, reverse-append, reverse-reverse,
  length-reverse, take-nil, drop-nil, take-min, drop-min,
}
use ai_kv.Text.{Bytes}
use ai_kv.Text.Utf8.{from_utf8_lossy}
use ai_kv.Text.Number.{parse_usize}
use ai_kv.Error.{ok}
use ai_kv.Command.Index.{usize_arg}
use ai_kv.Resp.{RespValue, null, bulk_string, array, bulk_list}
use ai_kv.Storage.Value.{StoredValue, new_list, as_list}
use ai_kv.Storage.Adapter.{StorageAdapter, delete_from_db}
use ai_kv.Storage.View.{view, InRange, InRange-of_view}
use ai_kv.Storage.Contract.{Shows, Shows-remove, get_value-view, set_value-InRange}
use ai_kv.Command.Lists.{
  lpop, rpop, pop_count, pop_fronts, pop_backs, pop_back, pop_stored, pop_reply, store_or_delete,
}
use ai_kv.Command.Lists.Ends.{Shows-new_list}

pop_fronts_lem :
    (n : ℕ) (values l : List Bytes) → pop_fronts n values l ≡ (values ++ take n l, drop n l)
unfolding pop_fronts
pop_fronts_lem zero values l = λ i. (sym (append-nil values) i, l)
pop_fronts_lem (suc n) values [] = pop_fronts_lem n values [] ∙ rw (take-nil n, drop-nil n)
pop_fronts_lem (suc n) values (x ∷ xs) = pop_fronts_lem n (values ++ x ∷ []) xs ∙ λ i.
    (append_assoc values (x ∷ []) (take n xs) i, drop n xs)

pub pop_back_last : (xs : List Bytes) (x : Bytes) → pop_back (xs ++ x ∷ []) ≡ some (x, xs)
unfolding pop_back
pop_back_last [] x = refl
pop_back_last (y ∷ xs) x = rw (pop_back_last xs x)

pop_back-reverse : (x : Bytes) (r : List Bytes) → pop_back (reverse (x ∷ r)) ≡ some (x, reverse r)
pop_back-reverse x r = rw (reverse-append (x ∷ []) r) (pop_back_last (reverse r) x)

pop_backs_step :
    (n : ℕ) (values l : List Bytes) (v : Bytes) (rest : List Bytes)
    → pop_back l ≡ some (v, rest)
    → pop_backs (suc n) values l ≡ pop_backs n (values ++ v ∷ []) rest
unfolding pop_backs
pop_backs_step n values l v rest e = ground arith

pop_backs_empty : (n : ℕ) (values : List Bytes) → pop_backs n values [] ≡ (values, [])
unfolding pop_backs pop_back
pop_backs_empty zero values = refl
pop_backs_empty (suc n) values = pop_backs_empty n values

-- Popping from the back is popping from the front of the reversed list.
pop_backs-reverse :
    (n : ℕ) (values r : List Bytes)
    → pop_backs n values (reverse r) ≡ (values ++ take n r, reverse (drop n r))
pop_backs-reverse zero values r = unfold pop_backs in λ i. (sym (append-nil values) i, reverse r)
pop_backs-reverse (suc n) values [] = pop_backs_empty (suc n) values ∙ rw (append-nil values)
pop_backs-reverse (suc n) values (x ∷ r) =
    pop_backs_step n values (reverse (x ∷ r)) x (reverse r) (pop_back-reverse x r)
    ∙ pop_backs-reverse n (values ++ x ∷ []) r
    ∙ λ i. (append_assoc values (x ∷ []) (take n r) i, reverse (drop n r))

pop_backs_lem :
    (n : ℕ) (l : List Bytes) → pop_backs n [] l ≡ (take n (reverse l), reverse (drop n (reverse l)))
pop_backs_lem n l =
    ap (pop_backs n []) (sym (reverse-reverse l)) ∙ pop_backs-reverse n [] (reverse l)

-- What a key shows after a list has been stored back: an empty list takes the key away.
abbrev pub stored_list : List Bytes → Option StoredValue
stored_list [] = none
stored_list (x ∷ xs) = some (new_list (x ∷ xs))

module _ (now db : ℕ) (key : Bytes) (s : StorageAdapter) where
  pub store_or_delete_contract :
      (l : List Bytes)
      → InRange s db
      → ((store_or_delete db key l s).0 ≡ ok tt)
        × Shows now s db key (stored_list l) (store_or_delete db key l s).1
  unfolding store_or_delete delete_from_db
  store_or_delete_contract [] h = (refl, Shows-remove now db key s)
  store_or_delete_contract (x ∷ xs) h =
      rw (set_value-InRange db key s (new_list (x ∷ xs)) h)
        (refl, Shows-new_list now db key s (x ∷ xs) h)

module _ (db : ℕ) (key : Bytes) (s : StorageAdapter) (stored : StoredValue) (l : List Bytes) where
  pop_fronts_stored :
      (count : ℕ)
      → as_list stored ≡ ok l
      → InRange s db
      → pop_stored pop_fronts count db key (some stored) s
        ≡ (ok (take count l), (store_or_delete db key (drop count l) s).1)
  unfolding pop_stored
  pop_fronts_stored count e h =
      rw (e, pop_fronts_lem (min count (length l)) [] l, take-min count l, drop-min count l)
        (ground (arith, store_or_delete_contract 0 db key s (drop count l) h))

  pop_backs_stored :
      (count : ℕ)
      → as_list stored ≡ ok l
      → InRange s db
      → pop_stored pop_backs count db key (some stored) s ≡ (
        ok (take count (reverse l)),
        (store_or_delete db key (reverse (drop count (reverse l))) s).1,
      )
  unfolding pop_stored
  pop_backs_stored count e h =
      let same : min count (length l) ≡ min count (length (reverse l)) =
        omega (arith, length-reverse l) in
      rw
        (
          e,
          pop_backs_lem (min count (length l)) l,
          same,
          take-min count (reverse l),
          drop-min count (reverse l),
        )
        (ground (arith, store_or_delete_contract 0 db key s (reverse (drop count (reverse l))) h))

-- How many elements the arguments ask for: one if they do not say, and else what the first of them is
-- as a `usize`, if it is one.
abbrev pub asked_for : List Bytes → Option ℕ
asked_for [] = some 1
asked_for (c ∷ _) = parse_usize (from_utf8_lossy c)

pop_count_lem : (more : List Bytes) (n : ℕ) → asked_for more ≡ some n → pop_count more ≡ ok n
unfolding pop_count usize_arg
pop_count_lem [] n e = ground arith
pop_count_lem (c ∷ more) n e = rw e refl

-- What a client is told of a pop of so many elements from the front of a list: null of none, whether
-- none was asked for or none was there, one string where one was asked for, and else an array of what
-- was there.
abbrev pub popped : ℕ → List Bytes → RespValue
popped zero l = null
popped (suc n) [] = null
popped (suc zero) (x ∷ l) = bulk_string (some x)
popped (suc (suc n)) (x ∷ l) = array (bulk_list (x ∷ take (suc n) l))

pop_reply_lem : (count : ℕ) (l : List Bytes) → pop_reply count (take count l) ≡ popped count l
unfolding pop_reply
pop_reply_lem zero l = refl
pop_reply_lem (suc zero) [] = refl
pop_reply_lem (suc (suc n)) [] = refl
pop_reply_lem (suc zero) (x ∷ l) = refl
pop_reply_lem (suc (suc n)) (x ∷ l) = ground arith

-- LPOP at a key that shows a list, with an optional count, a `usize`, which is 1 if it is not given: the
-- reply is null if the count is 0 or the list is empty, else the first element as one string if the count is
-- 1, and else an array of the first elements, so many as the count says or the list has; the key
-- shows the rest with no time, or nothing where the rest is empty, and all other keys show what they
-- showed.
pub lpop_contract :
    (now : ℕ) (k : Bytes) (more : List Bytes) (db : ℕ) (s : StorageAdapter) (stored : StoredValue)
    (count : ℕ) (l : List Bytes)
    → asked_for more ≡ some count
    → view now s db (from_utf8_lossy k) ≡ some stored
    → as_list stored ≡ ok l
    → ((lpop now (k ∷ more) db s).0 ≡ ok (popped count l))
      × Shows now s db (from_utf8_lossy k) (stored_list (drop count l)) (lpop now (k ∷ more) db s).1
unfolding lpop
lpop_contract now k more db s stored count l parsed shown typed =
    let key = from_utf8_lossy k in
    let h = InRange-of_view now s db key stored shown in
    rw
      (
        pop_count_lem more count parsed,
        get_value-view now db key s,
        shown,
        pop_fronts_stored db key s stored l count typed h,
        pop_reply_lem count l,
      )
      (refl, (store_or_delete_contract now db key s (drop count l) h).1)

-- RPOP at a key that shows a list, with an optional count: the reply is that of LPOP on the reversed
-- list; the key shows the rest with no time, or nothing where the rest is empty, and all other keys show what they showed.
pub rpop_contract :
    (now : ℕ) (k : Bytes) (more : List Bytes) (db : ℕ) (s : StorageAdapter) (stored : StoredValue)
    (count : ℕ) (l : List Bytes)
    → asked_for more ≡ some count
    → view now s db (from_utf8_lossy k) ≡ some stored
    → as_list stored ≡ ok l
    → ((rpop now (k ∷ more) db s).0 ≡ ok (popped count (reverse l)))
      × Shows now s db
          (from_utf8_lossy k)
          (stored_list (reverse (drop count (reverse l))))
          (rpop now (k ∷ more) db s).1
unfolding rpop
rpop_contract now k more db s stored count l parsed shown typed =
    let key = from_utf8_lossy k in
    let h = InRange-of_view now s db key stored shown in
    rw
      (
        pop_count_lem more count parsed,
        get_value-view now db key s,
        shown,
        pop_backs_stored db key s stored l count typed h,
        pop_reply_lem count (reverse l),
      )
      (refl, (store_or_delete_contract now db key s (reverse (drop count (reverse l))) h).1)
