-- ===== src/Command/Sets/Algebra.antt =====
-- src/command/set.rs: SUNION, SINTER and SDIFF against membership.
use ai_kv.Base.{
  ℕ, ◌≡◌, refl, sym, ap, ◌∙◌, Bool, true, false, not, ◌&&◌, ◌||◌, Option, none, some, List, [], ◌∷◌,
  arith, Option-cases, inl, inr,
}
use ai_kv.Text.{Bytes, bytes_eq_iff}
use ai_kv.Text.Utf8.{from_utf8_lossy}
use ai_kv.Error.{ok}
use ai_kv.HashMap
use ai_kv.HashMap.{HashMap}
use ai_kv.HashMap.Laws.{get-insert}
use ai_kv.Storage.Value.{StoredValue, as_set}
use ai_kv.Storage.Adapter.{StorageAdapter}
use ai_kv.Storage.View.{view}
use ai_kv.Storage.Contract.{get_value-view}
use ai_kv.Command.Sets.{
  HashSet, set_or_new, extend, intersection, difference, union_of, inter_of, diff_of, diff_all,
  meet, or_default, sunion, sinter, sdiff, members_reply,
}

-- Membership.
unfoldable pub has : HashSet → Bytes → Bool
unfolding HashMap.contains_key
has m x = HashMap.contains_key m x

has-extend : (a b : HashSet) (x : Bytes) → has (extend a b) x ≡ (has a x || has b x)
unfolding has extend HashMap.get
has-extend a [] x = ground arith
has-extend a ((y, tt) ∷ b) x =
    ground (arith, has-extend (HashMap.insert a y tt) b x, get-insert a y x tt)

has-intersection : (a b : HashSet) (x : Bytes) → has (intersection a b) x ≡ (has a x && has b x)
unfolding has intersection HashMap.get
has-intersection [] b x = refl
has-intersection ((y, tt) ∷ a) b x = ground (arith, has-intersection a b x, bytes_eq_iff y x)

has-difference : (a b : HashSet) (x : Bytes) → has (difference a b) x ≡ (has a x && not (has b x))
unfolding has difference HashMap.get
has-difference [] b x = refl
has-difference ((y, tt) ∷ a) b x = ground (arith, has-difference a b x, bytes_eq_iff y x)

-- Each of the keys shows its set, or nothing for an empty one.
abbrev pub Shown : ℕ → ℕ → StorageAdapter → List Bytes → List HashSet → Type 0
Shown now db s [] [] = Unit
Shown now db s (k ∷ ks) (m ∷ ms) =
    (set_or_new (view now s db (from_utf8_lossy k)) ≡ ok m) × Shown now db s ks ms
Shown now db s _ _ = ⊥

abbrev pub some_has : Bytes → List HashSet → Bool
some_has x [] = false
some_has x (m ∷ ms) = has m x || some_has x ms

abbrev pub all_have : Bytes → List HashSet → Bool
all_have x [] = true
all_have x (m ∷ ms) = has m x && all_have x ms

module _ (now db : ℕ) (s : StorageAdapter) where
  union_of_lem :
      (ks : List Bytes) (ms : List HashSet) (a : HashSet)
      → Shown now db s ks ms
      → (r : HashSet) × (union_of now db ks a s ≡ (ok r, s))
        × ((x : Bytes) → has r x ≡ (has a x || some_has x ms))
  unfolding union_of
  union_of_lem [] [] a h = (a, refl, λ x. ground arith)
  union_of_lem [] (m ∷ ms) a h = elim h [ ]
  union_of_lem (k ∷ ks) [] a h = elim h [ ]
  union_of_lem (k ∷ ks) (m ∷ ms) a h =
      let (r, e, members) = union_of_lem ks ms (extend a m) h.1 in
      (
        r,
        rw (get_value-view now db (from_utf8_lossy k) s, h.0) e,
        λ x. ground (arith, members x, has-extend a m x),
      )

  diff_all_lem :
      (ks : List Bytes) (ms : List HashSet) (a : HashSet)
      → Shown now db s ks ms
      → (r : HashSet) × (diff_all now db ks a s ≡ (ok r, s))
        × ((x : Bytes) → has r x ≡ (has a x && not (some_has x ms)))
  unfolding diff_all
  diff_all_lem [] [] a h = (a, refl, λ x. ground arith)
  diff_all_lem [] (m ∷ ms) a h = elim h [ ]
  diff_all_lem (k ∷ ks) [] a h = elim h [ ]
  diff_all_lem (k ∷ ks) (m ∷ ms) a h =
      let (r, e, members) = diff_all_lem ks ms (difference a m) h.1 in
      (
        r,
        rw (get_value-view now db (from_utf8_lossy k) s, h.0) e,
        λ x. ground (arith, members x, has-difference a m x),
      )

  -- What the loop of SINTER has so far.
  abbrev has_so_far : Option HashSet → Bytes → Bool
  has_so_far none x = true
  has_so_far (some m) x = has m x

  has-meet :
      (result : Option HashSet) (m : HashSet) (x : Bytes)
      → has (meet result m) x ≡ (has_so_far result x && has m x)
  unfolding meet
  has-meet none m x = refl
  has-meet (some a) m x = has-intersection a m x

  abbrev Inter : List Bytes → List HashSet → Option HashSet → Type 0
  Inter ks ms result =
      (r : HashSet) × (inter_of now db ks result s ≡ (ok r, s))
      × ((x : Bytes) → has r x ≡ (has_so_far result x && all_have x ms))

  Inter-missing :
      (k : Bytes) (ks : List Bytes) (m : HashSet) (ms : List HashSet) (result : Option HashSet)
      → view now s db (from_utf8_lossy k) ≡ none
      → m ≡ []
      → Inter (k ∷ ks) (m ∷ ms) result
  unfolding inter_of has HashMap.get
  Inter-missing k ks m ms result e empty =
      ([], rw (get_value-view now db (from_utf8_lossy k) s, e) refl, λ x. rw empty (ground arith))

  Inter-found :
      (k : Bytes) (ks : List Bytes) (m : HashSet) (ms : List HashSet) (result : Option HashSet)
      (v : StoredValue)
      → view now s db (from_utf8_lossy k) ≡ some v
      → as_set v ≡ ok m
      → Inter ks ms (some (meet result m))
      → Inter (k ∷ ks) (m ∷ ms) result
  unfolding inter_of
  Inter-found k ks m ms result v e kind (r, done, members) = (
    r,
    rw (get_value-view now db (from_utf8_lossy k) s, e, kind) done,
    λ x. ground (arith, members x, has-meet result m x),
  )

  Inter-step :
      (k : Bytes) (ks : List Bytes) (m : HashSet) (ms : List HashSet) (result : Option HashSet)
      → set_or_new (view now s db (from_utf8_lossy k)) ≡ ok m
      → Inter ks ms (some (meet result m))
      → Inter (k ∷ ks) (m ∷ ms) result
  unfolding set_or_new
  Inter-step k ks m ms result shown rest = elim (Option-cases (view now s db (from_utf8_lossy k))) [
    | inl e ↦ Inter-missing k ks m ms result e (cc (sym (ap set_or_new e) ∙ shown))
    | inr (v, e) ↦ Inter-found k ks m ms result v e (sym (ap set_or_new e) ∙ shown) rest
  ]

  Inter-of_some :
      (ks : List Bytes) (ms : List HashSet) (a : HashSet)
      → Shown now db s ks ms
      → Inter ks ms (some a)
  unfolding inter_of or_default
  Inter-of_some [] [] a h = (a, refl, λ x. ground arith)
  Inter-of_some [] (m ∷ ms) a h = elim h [ ]
  Inter-of_some (k ∷ ks) [] a h = elim h [ ]
  Inter-of_some (k ∷ ks) (m ∷ ms) a h =
      Inter-step k ks m ms (some a) h.0 (Inter-of_some ks ms (meet (some a) m) h.1)

-- SUNION, SINTER and SDIFF of one or more keys, each of which shows a set, or nothing for an empty one:
-- they change nothing and reply the members of a set. In that of SUNION is what is in one of the sets,
-- in that of SINTER what is in all of them, and in that of SDIFF what is in the first and in no other.
pub set_algebra :
    (now : ℕ) (k : Bytes) (ks : List Bytes) (db : ℕ) (s : StorageAdapter) (m : HashSet)
    (ms : List HashSet) (x : Bytes)
    → Shown now db s (k ∷ ks) (m ∷ ms)
    → (u : HashSet) × (i : HashSet) × (d : HashSet) × (sunion now (k ∷ ks) db s
        ≡ (ok (members_reply u), s))
      × (sinter now (k ∷ ks) db s ≡ (ok (members_reply i), s))
      × (sdiff now (k ∷ ks) db s ≡ (ok (members_reply d), s))
      × (has u x ≡ some_has x (m ∷ ms))
      × (has i x ≡ all_have x (m ∷ ms))
      × (has d x ≡ (has m x && not (some_has x ms)))
unfolding sunion sinter sdiff diff_of has HashMap.get meet
set_algebra now k ks db s m ms x h =
    let (u, ue, um) = union_of_lem now db s (k ∷ ks) (m ∷ ms) [] h in
    let (i, ie, im) = Inter-step now db s k ks m ms none h.0 (Inter-of_some now db s ks ms m h.1) in
    let (d, de, dm) = diff_all_lem now db s ks ms m h.1 in
    (
      u,
      i,
      d,
      rw ue refl,
      rw ie refl,
      rw (get_value-view now db (from_utf8_lossy k) s, h.0, de) refl,
      um x,
      im x,
      dm x,
    )
