-- ===== src/Command/Scanning/Loop.antt =====
-- src/command/key.rs, SCAN: a client that calls until the cursor is 0 sees every match once.
use ai_kv.Base.{
  ℕ, zero, suc, ◌+◌, ◌-◌, ◌<◌, ◌≤◌, ◌≡◌, refl, sym, ap, ◌∙◌, false, Option, none, some, List, [],
  ◌∷◌, ◌++◌, length, take, drop, ◌==◌, u64_mod, arith, if◌then◌else◌, drop-nil, length-drop,
  take-length-le, take-append-drop,
}
use native.Mathlib.Decide.{dec_le}
use ai_kv.Command.Scanning.{page, page_end, next_cursor, slice_of}

==-positive : (n : ℕ) → 0 < n → (n == 0) ≡ false
==-positive n h = ground arith

module _ {ℓ} {A : Type ℓ} where
  -- The items of the calls, one behind the other; `none` if one of them panics or the fuel runs out.
  abbrev pub after_page : Option (List A) → Option (List A) → Option (List A)
  after_page none rest = none
  after_page (some items) none = none
  after_page (some items) (some more) = some (items ++ more)

  pub gather : (ℕ → ℕ × Option (List A)) → ℕ → ℕ → Option (List A)
  gather call zero cursor = none
  gather call (suc fuel) cursor =
      let rest = gather call fuel (call cursor).0 in
      if (call cursor).0 == 0 then (call cursor).1 else after_page (call cursor).1 rest

  drop-drop : (m n : ℕ) (l : List A) → drop m (drop n l) ≡ drop (n + m) l
  drop-drop m zero l = ap (λ k. drop k l) {x = m} {y = zero + m} (omega arith)
  drop-drop m (suc n) [] = drop-nil m ∙ sym (drop-nil (suc n + m))
  drop-drop m (suc n) (x ∷ l) =
      drop-drop m n l ∙ ap (λ k. drop k (x ∷ l)) {x = suc (n + m)} {y = suc n + m} (omega arith)

  -- The last page, and one that is followed by others.
  module _ (cursor count : ℕ) (l : List A) (fits : length l + count < u64_mod) where
    page_last :
        cursor ≤ length l
        → length l ≤ cursor + count
        → page cursor count l ≡ (0, some (drop cursor l))
    unfolding page page_end next_cursor slice_of
    page_last h last =
        let stop : page_end cursor count (length l) ≡ length l = omega arith in
        rw stop (
          ground (
            arith,
            length-drop cursor l,
            take-length-le (length l - cursor) (drop cursor l)
                (omega (arith, length-drop cursor l)),
          ))

    page_more :
        cursor + count < length l
        → page cursor count l ≡ (cursor + count, some (take count (drop cursor l)))
    unfolding page page_end next_cursor slice_of
    page_more more =
        let stop : page_end cursor count (length l) ≡ cursor + count = omega arith in
        let size : cursor + count - cursor ≡ count = omega arith in
        rw stop (ground (arith, ap (λ k. take k (drop cursor l)) size))

    -- A page from a cursor within the matches is no panic.
    pub page_proceeds :
        cursor ≤ length l
        → (next : ℕ) × (items : List A) × (page cursor count l ≡ (next, some items))
          × (next ≤ length l)
    page_proceeds h = elim (dec_le (length l) (cursor + count)) [
      | yes last ↦ (0, drop cursor l, page_last h last, omega arith)
      | no more ↦ (cursor + count, take count (drop cursor l), page_more (omega arith), omega arith)
    ]

  pub page_past_end :
      (cursor count : ℕ) (l : List A) → length l < cursor → (page cursor count l).1 ≡ none
  unfolding page page_end next_cursor slice_of
  page_past_end cursor count l h = ground arith

  -- Calls that reply the pages of `l` gather what is left of it from the cursor on.
  pub gather_rest :
      (call : ℕ → ℕ × Option (List A)) (fuel cursor count : ℕ) (l : List A)
      → ((c : ℕ) → c ≤ length l → call c ≡ page c count l)
      → length l + count < u64_mod
      → 0 < count
      → cursor ≤ length l
      → length l - cursor < fuel
      → gather call fuel cursor ≡ some (drop cursor l)
  unfolding gather
  gather_rest call zero cursor count l pages fits some_count inside enough = absurd (omega arith)
  gather_rest call (suc fuel) cursor count l pages fits some_count inside enough =
      elim (dec_le (length l) (cursor + count)) [
        | yes last ↦ rw (pages cursor inside, page_last cursor count l fits inside last) refl
        | no more ↦
            rw
              (
                pages cursor inside,
                page_more cursor count l fits (omega arith),
                gather_rest call fuel (cursor + count) count l pages fits some_count (omega arith)
                    (omega arith),
                ==-positive (cursor + count) (omega arith),
                ← drop-drop count cursor l,
                take-append-drop count (drop cursor l),
              )
              refl
      ]
