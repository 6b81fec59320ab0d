-- ===== src/Command/Sets/Transfer.antt =====
-- src/command/set.rs: SMOVE, and what it leaves at the two keys.
use ai_kv.Base.{
  ℕ, ◌≡◌, refl, ap, ◌∙◌, true, false, not, ◌&&◌, ◌||◌, Option, none, some, [], ◌∷◌, is_some, arith,
  pos, if◌then◌else◌,
}
use ai_kv.Text.{Bytes, bytes_eq, bytes_eq_iff}
use ai_kv.Text.Utf8.{from_utf8_lossy}
use ai_kv.Error.{ok}
use ai_kv.Effect.{Effect, give, fail, check, ◌>>=◌, ◌>>◌}
use ai_kv.HashMap
use ai_kv.HashMap.{HashMap}
use ai_kv.HashMap.Laws.{get-insert, get-remove}
use ai_kv.Resp.{RespValue, integer}
use ai_kv.Storage.Value.{StoredValue, as_set, new_set}
use ai_kv.Storage.Adapter.{StorageAdapter, get_value, set_value, insert_at}
use ai_kv.Storage.View.{view, InRange, view-insert_at, length-insert_at, length-remove_at}
use ai_kv.Storage.Contract.{get_value-view, set_value-InRange, delete_from_db_lem}
use ai_kv.Command.Replies.{Handler, flag, wrong_count}
use ai_kv.Command.Sets.{HashSet, set_or_new, store_set, sismember}
use ai_kv.Command.Sets.Algebra.{has}
use ai_kv.Command.Sets.Members.{set-insert_at, store_set_lem, sismember_lem}

-- The destination with the member in it; `rest` is what is left of the source.
smove_dest : ℕ → ℕ → Bytes → Bytes → Bytes → HashSet → Effect StorageAdapter HashSet
smove_dest now db source_key dest_key member rest =
    if bytes_eq source_key dest_key then give (HashMap.insert rest member tt) else (do
      stored ← get_value now db dest_key
      dest ← check (set_or_new stored)
      give (HashMap.insert dest member tt))

-- The source is written unless it is the destination.
smove_source : ℕ → Bytes → Bytes → HashSet → Effect StorageAdapter (Unit {0})
smove_source db source_key dest_key rest =
    if bytes_eq source_key dest_key then give tt else store_set db source_key rest

smove_member : ℕ → ℕ → Bytes → Bytes → Bytes → HashSet → Effect StorageAdapter RespValue
unfolding smove_dest smove_source
smove_member now db source_key dest_key member source =
    if is_some (HashMap.get source member)
    then (do
      let rest = HashMap.remove source member
      dest ← smove_dest now db source_key dest_key member rest
      smove_source db source_key dest_key rest
      set_value db dest_key (new_set dest)
      give (integer (pos 1)))
    else give (integer (pos 0))

smove_stored : ℕ → ℕ → Bytes → Bytes → Bytes → Option StoredValue → Effect StorageAdapter RespValue
unfolding smove_member
smove_stored now db source_key dest_key member none = give (integer (pos 0))
smove_stored now db source_key dest_key member (some stored) = do
  source ← check (as_set stored)
  smove_member now db source_key dest_key member source

pub smove : Handler
unfolding smove_stored
smove now (a ∷ b ∷ member ∷ []) db = do
  let source_key = from_utf8_lossy a
  stored ← get_value now db source_key
  smove_stored now db source_key (from_utf8_lossy b) member stored
smove now _ db = fail (wrong_count "SMOVE")

store_set-InRange :
    (db : ℕ) (key : Bytes) (m : HashSet) (s : StorageAdapter)
    → InRange s db
    → InRange (store_set db key m s).1 db
unfolding store_set
store_set-InRange db key [] s h =
    rw (delete_from_db_lem db key s) (omega (arith, length-remove_at s db key))
store_set-InRange db key (e ∷ m) s h =
    rw (set_value-InRange db key s (new_set (e ∷ m)) h)
      (omega (arith, length-insert_at s db key (new_set (e ∷ m))))

-- A write at one key is not seen at another.
view-insert_at_other :
    (now db : ℕ) (key other : Bytes) (v : StoredValue) (s : StorageAdapter)
    → InRange s db
    → bytes_eq key other ≡ false
    → view now (insert_at db key v s) db other ≡ view now s db other
view-insert_at_other now db key other v s h apart =
    ground (arith, view-insert_at s db key now v db other h)

module _ (now : ℕ) (a b x : Bytes) (db : ℕ) (s : StorageAdapter) (v : StoredValue) (m d : HashSet)
    (there : InRange s db) (source : view now s db (from_utf8_lossy a) ≡ some v)
    (kind : as_set v ≡ ok m) (member : has m x ≡ true)
    (dest : set_or_new (view now s db (from_utf8_lossy b)) ≡ ok d)
    (apart : bytes_eq (from_utf8_lossy a) (from_utf8_lossy b) ≡ false) where
  -- The storage after the source has been written, and after the destination has.
  abbrev taken : StorageAdapter
  taken = (store_set db (from_utf8_lossy a) (HashMap.remove m x) s).1

  abbrev joined : HashSet
  joined = HashMap.insert d x tt

  abbrev moved_to : StorageAdapter
  moved_to = insert_at db (from_utf8_lossy b) (new_set joined) taken

  smove_eq : smove now (a ∷ b ∷ x ∷ []) db s ≡ (ok (integer (pos 1)), moved_to)
  unfolding smove has HashMap.contains_key
  smove_eq =
      rw
        (
          get_value-view now db (from_utf8_lossy a) s,
          source,
          kind,
          member,
          apart,
          get_value-view now db (from_utf8_lossy b) s,
          dest,
          (store_set_lem now db (from_utf8_lossy a) s (HashMap.remove m x) there).0,
          set_value-InRange db (from_utf8_lossy b) taken (new_set joined)
              (store_set-InRange db (from_utf8_lossy a) (HashMap.remove m x) s there),
        )
        refl

  source_shows : set_or_new (view now moved_to db (from_utf8_lossy a)) ≡ ok (HashMap.remove m x)
  source_shows =
      ap set_or_new (
        view-insert_at_other now db (from_utf8_lossy b) (from_utf8_lossy a) (new_set joined) taken
          (store_set-InRange db (from_utf8_lossy a) (HashMap.remove m x) s there)
          (ground (
            arith,
            bytes_eq_iff (from_utf8_lossy a) (from_utf8_lossy b),
            bytes_eq_iff (from_utf8_lossy b) (from_utf8_lossy a),
          )))
      ∙ (store_set_lem now db (from_utf8_lossy a) s (HashMap.remove m x) there).1

  dest_shows : set_or_new (view now moved_to db (from_utf8_lossy b)) ≡ ok joined
  dest_shows =
      set-insert_at now db (from_utf8_lossy b) taken joined
        (store_set-InRange db (from_utf8_lossy a) (HashMap.remove m x) s there)

has-remove :
    (m : HashSet) (x y : Bytes) → has (HashMap.remove m x) y ≡ (not (bytes_eq x y) && has m y)
unfolding has
has-remove m x y = ground (arith, get-remove m x y)

has-insert : (m : HashSet) (x y : Bytes) → has (HashMap.insert m x tt) y ≡ (bytes_eq x y || has m y)
unfolding has
has-insert m x y = ground (arith, get-insert m x y tt)

-- SMOVE of a member of the set at one key to the set, or to nothing, at another key, in a database that
-- is there: it replies 1, SISMEMBER at the source then replies 1 for the other members and no more,
-- and at the destination for the member and what was there before.
pub smove_contract :
    (now : ℕ) (a b x : Bytes) (db : ℕ) (s : StorageAdapter) (v : StoredValue) (m d : HashSet)
    (y : Bytes)
    → InRange s db
    → view now s db (from_utf8_lossy a) ≡ some v
    → as_set v ≡ ok m
    → has m x ≡ true
    → set_or_new (view now s db (from_utf8_lossy b)) ≡ ok d
    → bytes_eq (from_utf8_lossy a) (from_utf8_lossy b) ≡ false
    → ((smove now (a ∷ b ∷ x ∷ []) db s).0 ≡ ok (integer (pos 1)))
      × ((sismember now (a ∷ y ∷ []) db (smove now (a ∷ b ∷ x ∷ []) db s).1).0
          ≡ ok (flag (not (bytes_eq x y) && has m y)))
      × ((sismember now (b ∷ y ∷ []) db (smove now (a ∷ b ∷ x ∷ []) db s).1).0
          ≡ ok (flag (bytes_eq x y || has d y)))
smove_contract now a b x db s v m d y there source kind member dest apart =
    let s' = moved_to now a b x db s v m d there source kind member dest apart in
    rw (smove_eq now a b x db s v m d there source kind member dest apart) (
      refl,
      rw
          (
            sismember_lem now db (from_utf8_lossy a) s' a y (HashMap.remove m x) refl
                (source_shows now a b x db s v m d there source kind member dest apart),
            has-remove m x y,
          )
          refl,
      rw
          (
            sismember_lem now db (from_utf8_lossy b) s' b y (HashMap.insert d x tt) refl
                (dest_shows now a b x db s v m d there source kind member dest apart),
            has-insert d x y,
          )
          refl,
    )
