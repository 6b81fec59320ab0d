-- ===== src/Command/Lists/Edit/Kept.antt =====
-- src/command/list.rs: LSET, LREM, LTRIM and the commands that only read, among those that
-- leave no empty list.
use ai_kv.Base.{ℕ, ◌≡◌, refl, Option, none, some, List, [], ◌∷◌, arith, set, ℤ, length, negsuc, pos}
use ai_kv.Text.{Bytes}
use ai_kv.Text.Utf8.{from_utf8_lossy}
use ai_kv.Effect.{Effect, check, give, fail, ◌>>◌}
use ai_kv.Resp.{RespValue, ok_reply}
use ai_kv.Storage.Value.{StoredValue, new_list, as_list}
use ai_kv.Storage.Adapter.{StorageAdapter, get_value, set_value}
use ai_kv.Command.Index.{bad_argument, i64_arg, slice, index_within, element_index}
use ai_kv.Command.Lists.{llen, lrange, list_or_new, store_or_delete}
use ai_kv.Command.Lists.Edit.{
  lindex, lset, lrem, ltrim, lset_stored, lrem_stored, ltrim_stored, remove_by,
}
use ai_kv.Command.Lists.Position.{lpos, read_options, no_options}
use ai_kv.Command.Lists.Filled.Keeps.{
  Keeps, bind-Keeps, get_value-Keeps, set_value-Keeps, store_or_delete-Keeps, set-IsFilled,
}

pub llen-Keeps : (now : ℕ) (args : List Bytes) (db : ℕ) → Keeps (llen now args db)
unfolding llen
llen-Keeps now [] db = λ s n. n
llen-Keeps now (k ∷ a ∷ r) db = λ s n. n
llen-Keeps now (k ∷ []) db =
    let key = from_utf8_lossy k in
    bind-Keeps (get_value now db key) _ (get_value-Keeps now db key)
      λ stored. bind-Keeps (check (list_or_new stored)) _ (λ s n. n) λ _ s n. n

pub lrange-Keeps : (now : ℕ) (args : List Bytes) (db : ℕ) → Keeps (lrange now args db)
unfolding lrange
lrange-Keeps now [] db = λ s n. n
lrange-Keeps now (k ∷ []) db = λ s n. n
lrange-Keeps now (k ∷ a ∷ []) db = λ s n. n
lrange-Keeps now (k ∷ a ∷ b ∷ c ∷ r) db = λ s n. n
lrange-Keeps now (k ∷ a ∷ b ∷ []) db =
    let key = from_utf8_lossy k in
    bind-Keeps (check (i64_arg "invalid start index" a)) _ (λ s n. n)
      λ start.
        bind-Keeps (check (i64_arg "invalid stop index" b)) _ (λ s n. n)
          λ stop.
            bind-Keeps (get_value now db key) _ (get_value-Keeps now db key)
              λ stored. bind-Keeps (check (list_or_new stored)) _ (λ s n. n) λ _ s n. n

pub lindex-Keeps : (now : ℕ) (args : List Bytes) (db : ℕ) → Keeps (lindex now args db)
unfolding lindex
lindex-Keeps now [] db = λ s n. n
lindex-Keeps now (k ∷ []) db = λ s n. n
lindex-Keeps now (k ∷ a ∷ b ∷ r) db = λ s n. n
lindex-Keeps now (k ∷ a ∷ []) db =
    let key = from_utf8_lossy k in
    bind-Keeps (check (i64_arg "invalid index" a)) _ (λ s n. n)
      λ index.
        bind-Keeps (get_value now db key) _ (get_value-Keeps now db key)
          λ stored. bind-Keeps (check (list_or_new stored)) _ (λ s n. n) λ _ s n. n

pub lpos-Keeps : (now : ℕ) (args : List Bytes) (db : ℕ) → Keeps (lpos now args db)
unfolding lpos
lpos-Keeps now [] db = λ s n. n
lpos-Keeps now (k ∷ []) db = λ s n. n
lpos-Keeps now (k ∷ element ∷ options) db =
    let key = from_utf8_lossy k in
    bind-Keeps (check (read_options options no_options)) _ (λ s n. n)
      λ o.
        bind-Keeps (get_value now db key) _ (get_value-Keeps now db key)
          λ stored. bind-Keeps (check (list_or_new stored)) _ (λ s n. n) λ _ s n. n

index_within_empty : (z : ℤ) → index_within 0 z ≡ none
unfolding index_within
index_within_empty (pos n) = ground arith
index_within_empty (negsuc n) = ground arith

lset_list :
    (index : ℤ) (element : Bytes) (db : ℕ) (key : Bytes) (l : List Bytes) (o : Option ℕ)
    → index_within (length l) (element_index (length l) index) ≡ o
    → Keeps (elim o as (λ _. Effect StorageAdapter RespValue) [
      | none ↦ fail (bad_argument "index out of range")
      | some i ↦ set_value db key (new_list (set l i element)) >> give ok_reply
    ])
lset_list index element db key l none e = λ s n. n
lset_list index element db key [] (some i) e =
    let miss = index_within_empty (element_index 0 index) in cc
lset_list index element db key (x ∷ l) (some i) e =
    bind-Keeps (set_value db key (new_list (set (x ∷ l) i element))) _
      (set_value-Keeps db key (new_list (set (x ∷ l) i element))
        (set-IsFilled (x ∷ l) i element refl))
      λ _ s n. n

lset_stored-Keeps :
    (index : ℤ) (element : Bytes) (db : ℕ) (key : Bytes) (stored : Option StoredValue)
    → Keeps (lset_stored index element db key stored)
unfolding lset_stored
lset_stored-Keeps index element db key none = λ s n. n
lset_stored-Keeps index element db key (some stored) =
    bind-Keeps (check (as_list stored)) _ (λ s n. n)
      λ l.
        lset_list index element db key l (index_within (length l) (element_index (length l) index))
          refl

pub lset-Keeps : (now : ℕ) (args : List Bytes) (db : ℕ) → Keeps (lset now args db)
unfolding lset
lset-Keeps now [] db = λ s n. n
lset-Keeps now (k ∷ []) db = λ s n. n
lset-Keeps now (k ∷ a ∷ []) db = λ s n. n
lset-Keeps now (k ∷ a ∷ b ∷ c ∷ r) db = λ s n. n
lset-Keeps now (k ∷ a ∷ element ∷ []) db =
    let key = from_utf8_lossy k in
    bind-Keeps (check (i64_arg "invalid index" a)) _ (λ s n. n)
      λ index.
        bind-Keeps (get_value now db key) _ (get_value-Keeps now db key)
          λ stored. lset_stored-Keeps index element db key stored

lrem_stored-Keeps :
    (count : ℤ) (element : Bytes) (db : ℕ) (key : Bytes) (stored : Option StoredValue)
    → Keeps (lrem_stored count element db key stored)
unfolding lrem_stored
lrem_stored-Keeps count element db key none = λ s n. n
lrem_stored-Keeps count element db key (some stored) =
    bind-Keeps (check (as_list stored)) _ (λ s n. n)
      λ l.
        let rest = (remove_by count element l).1 in
        bind-Keeps (store_or_delete db key rest) _ (store_or_delete-Keeps db key rest) λ _ s n. n

pub lrem-Keeps : (now : ℕ) (args : List Bytes) (db : ℕ) → Keeps (lrem now args db)
unfolding lrem
lrem-Keeps now [] db = λ s n. n
lrem-Keeps now (k ∷ []) db = λ s n. n
lrem-Keeps now (k ∷ a ∷ []) db = λ s n. n
lrem-Keeps now (k ∷ a ∷ b ∷ c ∷ r) db = λ s n. n
lrem-Keeps now (k ∷ c ∷ element ∷ []) db =
    let key = from_utf8_lossy k in
    bind-Keeps (check (i64_arg "invalid count" c)) _ (λ s n. n)
      λ count. bind-Keeps (get_value now db key) _ (get_value-Keeps now db key) λ stored.
        bind-Keeps (lrem_stored count element db key stored) _
          (lrem_stored-Keeps count element db key stored) λ _ s n. n

ltrim_stored-Keeps :
    (start stop : ℤ) (db : ℕ) (key : Bytes) (stored : Option StoredValue)
    → Keeps (ltrim_stored start stop db key stored)
unfolding ltrim_stored
ltrim_stored-Keeps start stop db key none = λ s n. n
ltrim_stored-Keeps start stop db key (some stored) =
    bind-Keeps (check (as_list stored)) _ (λ s n. n)
      λ l. store_or_delete-Keeps db key (slice start stop l)

pub ltrim-Keeps : (now : ℕ) (args : List Bytes) (db : ℕ) → Keeps (ltrim now args db)
unfolding ltrim
ltrim-Keeps now [] db = λ s n. n
ltrim-Keeps now (k ∷ []) db = λ s n. n
ltrim-Keeps now (k ∷ a ∷ []) db = λ s n. n
ltrim-Keeps now (k ∷ a ∷ b ∷ c ∷ r) db = λ s n. n
ltrim-Keeps now (k ∷ a ∷ b ∷ []) db =
    let key = from_utf8_lossy k in
    bind-Keeps (check (i64_arg "invalid start index" a)) _ (λ s n. n)
      λ start.
        bind-Keeps (check (i64_arg "invalid stop index" b)) _ (λ s n. n)
          λ stop. bind-Keeps (get_value now db key) _ (get_value-Keeps now db key) λ stored.
            bind-Keeps (ltrim_stored start stop db key stored) _
              (ltrim_stored-Keeps start stop db key stored) λ _ s n. n
