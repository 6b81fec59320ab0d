-- ===== src/Command/Lists/Ends.antt =====
-- LPUSH and RPUSH: what they reply and what they leave at the key.
use ai_kv.Base.{
  ℕ, ◌+◌, ◌≡◌, refl, sym, ap, ◌∙◌, some, List, [], ◌∷◌, ◌++◌, reverse, length, arith, pos,
  append-nil, append_assoc, reverse-append, length-append, length-reverse,
}
use ai_kv.Text.{Bytes}
use ai_kv.Text.Utf8.{from_utf8_lossy}
use ai_kv.Error.{ok}
use ai_kv.Resp.{integer}
use ai_kv.Storage.Value.{new_list, is_expired}
use ai_kv.Storage.Adapter.{StorageAdapter, insert_at}
use ai_kv.Storage.View.{view, InRange}
use ai_kv.Storage.Contract.{Shows, Shows-insert, get_value-view, set_value-InRange}
use ai_kv.Command.Lists.{list_or_new, push_front_all, push_back_all, lpush, rpush}

pub push_front_all_lem : (es l : List Bytes) → push_front_all es l ≡ reverse es ++ l
unfolding push_front_all
push_front_all_lem [] l = refl
push_front_all_lem (e ∷ es) l =
    push_front_all_lem es (e ∷ l)
    ∙ sym (append_assoc (reverse es) (e ∷ []) l)
    ∙ ap (λ r. r ++ l) (sym (reverse-append (e ∷ []) es))

push_back_all_lem : (es l : List Bytes) → push_back_all es l ≡ l ++ es
unfolding push_back_all
push_back_all_lem [] l = sym (append-nil l)
push_back_all_lem (e ∷ es) l = push_back_all_lem es (l ++ e ∷ []) ∙ append_assoc l (e ∷ []) es

-- A new list value is shown whole: it has no time.
pub Shows-new_list :
    (now db : ℕ) (key : Bytes) (s : StorageAdapter) (l : List Bytes)
    → InRange s db
    → Shows now s db key (some (new_list l)) (insert_at db key (new_list l) s)
unfolding is_expired
Shows-new_list now db key s l h = Shows-insert now db key s (new_list l) h

module _ (now : ℕ) (k e : Bytes) (es : List Bytes) (db : ℕ) (s : StorageAdapter)
    (l : List Bytes) where
  pub lpush_eq :
      InRange s db
      → list_or_new (view now s db (from_utf8_lossy k)) ≡ ok l
      → lpush now (k ∷ e ∷ es) db s ≡ (
        ok (integer (pos (length (reverse (e ∷ es) ++ l)))),
        insert_at db (from_utf8_lossy k) (new_list (reverse (e ∷ es) ++ l)) s,
      )
  unfolding lpush
  lpush_eq h shown = rw (
    get_value-view now db (from_utf8_lossy k) s,
    shown,
    push_front_all_lem (e ∷ es) l,
    set_value-InRange db (from_utf8_lossy k) s (new_list (reverse (e ∷ es) ++ l)) h,
  )

  rpush_eq :
      InRange s db
      → list_or_new (view now s db (from_utf8_lossy k)) ≡ ok l
      → rpush now (k ∷ e ∷ es) db s ≡ (
        ok (integer (pos (length (l ++ e ∷ es)))),
        insert_at db (from_utf8_lossy k) (new_list (l ++ e ∷ es)) s,
      )
  unfolding rpush
  rpush_eq h shown = rw (
    get_value-view now db (from_utf8_lossy k) s,
    shown,
    push_back_all_lem (e ∷ es) l,
    set_value-InRange db (from_utf8_lossy k) s (new_list (l ++ e ∷ es)) h,
  )

-- LPUSH of elements into a database that is there, at a key that shows a list or nothing: replies the
-- new length; the key shows the elements in reverse in front of the old ones, with no time, and all
-- other keys show what they showed.
pub lpush_contract :
    (now : ℕ) (k e : Bytes) (es : List Bytes) (db : ℕ) (s : StorageAdapter) (l : List Bytes)
    → InRange s db
    → list_or_new (view now s db (from_utf8_lossy k)) ≡ ok l
    → ((lpush now (k ∷ e ∷ es) db s).0 ≡ ok (integer (pos (length l + length (e ∷ es)))))
      × Shows now s db
          (from_utf8_lossy k)
          (some (new_list (reverse (e ∷ es) ++ l)))
          (lpush now (k ∷ e ∷ es) db s).1
lpush_contract now k e es db s l h shown =
    let new = reverse (e ∷ es) ++ l in
    rw (lpush_eq now k e es db s l h shown) (
      ap (λ n. ok (integer (pos n))) {x = length new} {y = length l + length (e ∷ es)}
          (omega (arith, length-append (reverse (e ∷ es)) l, length-reverse (e ∷ es))),
      Shows-new_list now db (from_utf8_lossy k) s new h,
    )

-- RPUSH likewise: the key shows the elements behind the old ones, in their order.
pub rpush_contract :
    (now : ℕ) (k e : Bytes) (es : List Bytes) (db : ℕ) (s : StorageAdapter) (l : List Bytes)
    → InRange s db
    → list_or_new (view now s db (from_utf8_lossy k)) ≡ ok l
    → ((rpush now (k ∷ e ∷ es) db s).0 ≡ ok (integer (pos (length l + length (e ∷ es)))))
      × Shows now s db
          (from_utf8_lossy k)
          (some (new_list (l ++ e ∷ es)))
          (rpush now (k ∷ e ∷ es) db s).1
rpush_contract now k e es db s l h shown = rw (rpush_eq now k e es db s l h shown) (
  ap (λ n. ok (integer (pos n))) {x = length (l ++ e ∷ es)} {y = length l + length (e ∷ es)}
      (length-append l (e ∷ es)),
  Shows-new_list now db (from_utf8_lossy k) s (l ++ e ∷ es) h,
)
