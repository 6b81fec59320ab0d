-- ===== src/Command/Lists/Race/Outcomes.antt =====
-- LPUSH of one connection alone, and of two whose steps interleave.
use ai_kv.Base.{
  ℕ, ◌≡◌, refl, ◌∙◌, ◌==◌, ◌&&◌, if◌then◌else◌, some, List, ◌∷◌, ◌++◌, reverse, length, arith, pos,
  inl, inr,
}
use mathlib.Core.Path.{subst}
use ai_kv.Text.{Bytes, bytes_eq}
use ai_kv.Text.Utf8.{from_utf8_lossy}
use ai_kv.Error.{ok, err, AikvError, Result-cases}
use ai_kv.Resp.{integer}
use ai_kv.Storage.Value.{new_list}
use ai_kv.Storage.Adapter.{StorageAdapter, insert_at}
use ai_kv.Storage.View.{view, InRange, length-insert_at}
use ai_kv.Storage.Contract.{Shows, get_value-view, set_value-InRange}
use ai_kv.Command.Lists.{lpush, list_or_new}
use ai_kv.Command.Lists.Ends.{lpush_eq, push_front_all_lem, Shows-new_list}
use ai_kv.Command.Lists.Race.{
  Phase, waiting, holding, replied, push_step, Pair, Step, first_steps, second_steps, Steps, stop,
  more,
}

module _ (now : ℕ) (key : Bytes) (es : List Bytes) (db : ℕ) (s : StorageAdapter) where
  read_step :
      (l : List Bytes)
      → list_or_new (view now s db key) ≡ ok l
      → push_step now key es db waiting s ≡ (holding (reverse es ++ l), s)
  unfolding push_step
  read_step l shown = rw (get_value-view now db key s, shown, push_front_all_lem es l) refl

  read_step_fails :
      (e : AikvError)
      → list_or_new (view now s db key) ≡ err e
      → push_step now key es db waiting s ≡ (replied (err e), s)
  unfolding push_step
  read_step_fails e shown = rw (get_value-view now db key s, shown) refl

  write_step :
      (l : List Bytes)
      → InRange s db
      → push_step now key es db (holding l) s
        ≡ (replied (ok (integer (pos (length l)))), insert_at db key (new_list l) s)
  unfolding push_step
  write_step l h = rw (set_value-InRange db key s (new_list l) h) refl

module _ (now : ℕ) (k e : Bytes) (es : List Bytes) (db : ℕ) (s : StorageAdapter) where
  abbrev two_steps : Phase × StorageAdapter
  two_steps =
      let key = from_utf8_lossy k in
      let (p, s') = push_step now key (e ∷ es) db waiting s in push_step now key (e ∷ es) db p s'

  lpush_fails :
      (x : AikvError)
      → list_or_new (view now s db (from_utf8_lossy k)) ≡ err x
      → lpush now (k ∷ e ∷ es) db s ≡ (err x, s)
  unfolding lpush
  lpush_fails x shown = rw (get_value-view now db (from_utf8_lossy k) s, shown) refl

  step_fails :
      (x : AikvError)
      → list_or_new (view now s db (from_utf8_lossy k)) ≡ err x
      → two_steps ≡ (replied (lpush now (k ∷ e ∷ es) db s).0, (lpush now (k ∷ e ∷ es) db s).1)
  step_fails x shown =
      rw (read_step_fails now (from_utf8_lossy k) (e ∷ es) db s x shown, lpush_fails x shown)
        (unfold push_step in refl)

  step_writes :
      (l : List Bytes)
      → InRange s db
      → list_or_new (view now s db (from_utf8_lossy k)) ≡ ok l
      → two_steps ≡ (replied (lpush now (k ∷ e ∷ es) db s).0, (lpush now (k ∷ e ∷ es) db s).1)
  step_writes l h shown =
      let key = from_utf8_lossy k in
      rw
        (
          read_step now key (e ∷ es) db s l shown,
          write_step now key (e ∷ es) db s (reverse (e ∷ es) ++ l) h,
          lpush_eq now k e es db s l h shown,
        )
        refl

-- The two accesses of an LPUSH, taken without a step between them in a database that is there, reply and
-- leave what the handler does, whether the key shows a list, nothing or a value of another type.
push_step-lpush :
    (now : ℕ) (k e : Bytes) (es : List Bytes) (db : ℕ) (s : StorageAdapter)
    → InRange s db
    → (let key = from_utf8_lossy k in
        let (p, s') = push_step now key (e ∷ es) db waiting s in push_step now key (e ∷ es) db p s')
      ≡ (replied (lpush now (k ∷ e ∷ es) db s).0, (lpush now (k ∷ e ∷ es) db s).1)
push_step-lpush now k e es db s h =
    elim (Result-cases (list_or_new (view now s db (from_utf8_lossy k)))) [
      | inl (l, shown) ↦ step_writes now k e es db s l h shown
      | inr (x, shown) ↦ step_fails now k e es db s x shown
    ]

module _ (now : ℕ) (key : Bytes) (es fs : List Bytes) (db : ℕ) where
  first_to :
      (p q p' : Phase) (s s' : StorageAdapter)
      → push_step now key es db p s ≡ (p', s')
      → Step now key es fs db
          (record { first = p; second = q; storage = s })
          (record { first = p'; second = q; storage = s' })
  first_to p q p' s s' e =
      subst
        (λ x.
          Step now key es fs db (record { first = p; second = q; storage = s })
            (record { first = x.0; second = q; storage = x.1 }))
        e (first_steps p q s)

  second_to :
      (p q q' : Phase) (s s' : StorageAdapter)
      → push_step now key fs db q s ≡ (q', s')
      → Step now key es fs db
          (record { first = p; second = q; storage = s })
          (record { first = p; second = q'; storage = s' })
  second_to p q q' s s' e =
      subst
        (λ x.
          Step now key es fs db (record { first = p; second = q; storage = s })
            (record { first = p; second = x.0; storage = x.1 }))
        e (second_steps p q s)

-- Two connections that push to one key of a database that is there, which shows a list or nothing: there
-- is an order of their steps after which both have replied a length, but the key shows only the
-- elements of the second in front of the old ones, and those of the first are lost.
pub push_step_loses :
    (now : ℕ) (key : Bytes) (es fs : List Bytes) (db : ℕ) (s : StorageAdapter) (l : List Bytes)
    → InRange s db
    → list_or_new (view now s db key) ≡ ok l
    → (final : Pair) × Steps now key es fs db
        (record { first = waiting; second = waiting; storage = s })
        final
      × (final.first ≡ replied (ok (integer (pos (length (reverse es ++ l))))))
      × (final.second ≡ replied (ok (integer (pos (length (reverse fs ++ l))))))
      × Shows now s db key (some (new_list (reverse fs ++ l))) final.storage
push_step_loses now key es fs db s l h shown =
    let a : List Bytes = reverse es ++ l in
    let b : List Bytes = reverse fs ++ l in
    let s1 : StorageAdapter = insert_at db key (new_list a) s in
    let s2 : StorageAdapter = insert_at db key (new_list b) s1 in
    let h1 : InRange s1 db = omega (arith, length-insert_at s db key (new_list a)) in
    let done : Phase = replied (ok (integer (pos (length a)))) in
    let done' : Phase = replied (ok (integer (pos (length b)))) in
    (
      record { first = done; second = done'; storage = s2 },
      more _ _ _
          (first_to now key es fs db waiting waiting (holding a) s s
            (read_step now key es db s l shown))
          (more _ _ _
            (second_to now key es fs db (holding a) waiting (holding b) s s
              (read_step now key fs db s l shown))
            (more _ _ _
              (first_to now key es fs db (holding a) (holding b) done s s1
                (write_step now key es db s a h))
              (more _ _ _
                (second_to now key es fs db done (holding b) done' s1 s2
                  (write_step now key fs db s1 b h1))
                (stop _)))),
      refl,
      refl,
      λ j k. Shows-new_list now db key s1 b h1 j k ∙ over j k,
    )
  where
    over :
        (j : ℕ) (k : Bytes)
        → (if db == j && bytes_eq key k
            then some (new_list (reverse fs ++ l))
            else view now (insert_at db key (new_list (reverse es ++ l)) s) j k)
          ≡ (if db == j && bytes_eq key k
              then some (new_list (reverse fs ++ l))
              else view now s j k)
    over j k = ground (arith, Shows-new_list now db key s (reverse es ++ l) h j k)
