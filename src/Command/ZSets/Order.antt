-- ===== src/Command/ZSets/Order.antt =====
-- src/command/zset.rs: the order of ZRANGE, and the rank that ZRANK replies.
use ai_kv.Base.{
  ℕ, ◌≡◌, refl, Bool, true, false, Bool-cases, inl, inr, not, ◌&&◌, ◌||◌, some, List, [], ◌∷◌,
  length, filter, arith,
}
use ai_kv.Base.Sort.{sort_by}
use ai_kv.Base.Sort.Ordered.{All, IsSorted, All-sort_by, lex, sort_by-IsSorted, IsSorted-mono}
use ai_kv.Text.{Bytes, bytes_eq, bytes_eq_iff, bytes_leb}
use ai_kv.HashMap
use ai_kv.HashMap.{HashMap}
use ai_kv.Command.Floats.{F64}
use ai_kv.Command.ZSets.{ZSet, iter, member_leb}
use ai_kv.Command.ZSets.Ranges.{upward, has_nan, position_in}

-- What the comparison of floats promises: it is transitive, and total on all that equal themselves.
pub record IsOrder (floats : F64) : Type 0 where
  pub total :
      (x y : ℕ)
      → floats.le x x ≡ true
      → floats.le y y ≡ true
      → (floats.le x y || floats.le y x) ≡ true
  pub trans : (x y z : ℕ) → floats.le x y ≡ true → floats.le y z ≡ true → floats.le x z ≡ true

-- The order of byte strings.
bytes_leb_total : (s t : Bytes) → (bytes_leb s t || bytes_leb t s) ≡ true
unfolding bytes_leb
bytes_leb_total [] t = refl
bytes_leb_total (a ∷ s) [] = refl
bytes_leb_total (a ∷ s) (b ∷ t) = ground (arith, bytes_leb_total s t)

bytes_leb_trans :
    (s t u : Bytes) → bytes_leb s t ≡ true → bytes_leb t u ≡ true → bytes_leb s u ≡ true
unfolding bytes_leb
bytes_leb_trans [] t u h k = refl
bytes_leb_trans (a ∷ s) [] u h k = cc
bytes_leb_trans (a ∷ s) (b ∷ t) [] h k = cc
bytes_leb_trans (a ∷ s) (b ∷ t) (c ∷ u) h k = ground (arith, bytes_leb_trans s t u)

bytes_leb_antisymm : (s t : Bytes) → bytes_leb s t ≡ true → bytes_leb t s ≡ true → s ≡ t
unfolding bytes_leb
bytes_leb_antisymm [] [] h k = refl
bytes_leb_antisymm [] (b ∷ t) h k = cc
bytes_leb_antisymm (a ∷ s) [] h k = cc
bytes_leb_antisymm (a ∷ s) (b ∷ t) h k = ground (arith, bytes_leb_antisymm s t)

nothing_known : (l : List (Bytes × ℕ)) → IsSorted (λ _ _. true) l
nothing_known [] = tt
nothing_known (x ∷ l) = (anything l, nothing_known l)
  where
    anything : (l : List (Bytes × ℕ)) → All (λ _. true) l
    anything [] = tt
    anything (x ∷ l) = (refl, anything l)

everything_fine : (l : List (Bytes × ℕ)) → All (λ _. true) l
everything_fine [] = tt
everything_fine (x ∷ l) = (refl, everything_fine l)

iter-IsSorted : (z : ZSet) → IsSorted member_leb (iter z)
unfolding iter
iter-IsSorted z =
    IsSorted-mono (lex member_leb (λ _ _. true)) member_leb (sort_by member_leb z)
      (λ x y (h : lex member_leb (λ _ _. true) x y ≡ true). ground arith)
      (sort_by-IsSorted member_leb (λ _ _. true) (λ _. true) (λ x y _ _. bytes_leb_total x.0 y.0)
        (λ x y z. bytes_leb_trans x.0 y.0 z.0) z (everything_fine z) (nothing_known z))

module _ (floats : F64) where
  -- The score equals itself: it is no NaN.
  abbrev pub is_number : Bytes × ℕ → Bool
  is_number e = floats.le e.1 e.1

  pub numbers_of : (l : List (Bytes × ℕ)) → has_nan floats l ≡ false → All is_number l
  unfolding has_nan
  numbers_of [] h = tt
  numbers_of (e ∷ l) h = (ground arith, numbers_of l (ground arith))

  pub has_nan_of_numbers : (l : List (Bytes × ℕ)) → All is_number l → has_nan floats l ≡ false
  unfolding has_nan
  has_nan_of_numbers [] h = refl
  has_nan_of_numbers (e ∷ l) h = ground (arith, h.0, has_nan_of_numbers l h.1)

  -- A lower score, or the same score and a lower member.
  abbrev pub before : Bytes × ℕ → Bytes × ℕ → Bool
  before a b =
      floats.le a.1 b.1
      && (not (floats.le b.1 a.1) || (bytes_leb a.0 b.0 && not (bytes_eq a.0 b.0)))

  abbrev pub in_order : Bytes × ℕ → Bytes × ℕ → Bool
  in_order = lex (upward floats) member_leb

  -- The members by score, and by name among equal scores.
  pub ranks-IsSorted :
      IsOrder floats
      → (z : ZSet) → has_nan floats z ≡ false
      → IsSorted in_order (sort_by (upward floats) (iter z))
  unfolding iter
  ranks-IsSorted order z h =
      sort_by-IsSorted (upward floats) member_leb is_number (λ x y. order.total x.1 y.1)
        (λ x y z. order.trans x.1 y.1 z.1) (iter z)
        (All-sort_by member_leb is_number z (numbers_of z h)) (iter-IsSorted z)

  none_before :
      (e : Bytes × ℕ) (l : List (Bytes × ℕ))
      → All (in_order e) l
      → length (filter (λ y. before y e) l) ≡ 0
  none_before e [] h = refl
  none_before e (y ∷ l) h =
      ground (arith, h.0, none_before e l h.1, bytes_leb_antisymm y.0 e.0, bytes_eq_iff y.0 e.0)

  not_before_itself : (e : Bytes × ℕ) → before e e ≡ false
  not_before_itself e = ground (arith, bytes_eq_iff e.0 e.0)

  All-get :
      (test : Bytes × ℕ → Bool) (l : List (Bytes × ℕ)) (m : Bytes) (x : ℕ)
      → All test l
      → HashMap.get l m ≡ some x
      → test (m, x) ≡ true
  unfolding HashMap.get
  All-get test [] m x h e = cc
  All-get test ((j, v) ∷ l) m x h e = elim (Bool-cases (bytes_eq j m)) [
    | inl same ↦
        let there : v ≡ x = ground arith in
        let name : j ≡ m = (bytes_eq_iff j m).0 same in rw (← name, ← there) h.0
    | inr other ↦ All-get test l m x h.1 (ground arith)
  ]

  first_lem :
      (j : Bytes) (v : ℕ) (l : List (Bytes × ℕ)) (m : Bytes) (x : ℕ)
      → All (in_order (j, v)) l
      → bytes_eq j m ≡ true
      → v ≡ x
      → (before (j, v) (m, x) ≡ false) × (length (filter (λ e. before e (m, x)) l) ≡ 0)
  first_lem j v l m x h same there =
      rw (← (bytes_eq_iff j m).0 same, ← there) (not_before_itself (j, v), none_before (j, v) l h)

  -- In a list in this order a member stands behind those that are before it.
  pub position_in_lem :
      (l : List (Bytes × ℕ)) (m : Bytes) (x : ℕ)
      → IsSorted in_order l
      → HashMap.get l m ≡ some x
      → position_in m l ≡ some (length (filter (λ e. before e (m, x)) l))
  unfolding position_in HashMap.get
  position_in_lem [] m x s e = cc
  position_in_lem ((j, v) ∷ l) m x s e = elim (Bool-cases (bytes_eq j m)) [
    | inl same ↦
        let here = first_lem j v l m x s.0 same (ground arith) in ground (arith, here.0, here.1)
    | inr other ↦
        let rest : HashMap.get l m ≡ some x = ground arith in
        let found = All-get (in_order (j, v)) l m x s.0 rest in
        let strict : before (j, v) (m, x) ≡ true = ground arith in
        ground (arith, strict, position_in_lem l m x s.1 rest)
  ]
