-- ===== src/Glob/Agreement.antt =====
-- src/command/set.rs and src/command/key.rs: the two glob matchers against each other.
use ai_kv.Base.{
  ◌≡◌, refl, sym, ◌∙◌, ap, Bool, true, false, Bool-cases, inl, inr, List, [], ◌∷◌, is_empty, arith,
}
use ai_kv.Text.{Bytes, bytes_eq, bytes_eq_iff}
use ai_kv.Glob.{
  chars, star, at_some_place, one_more, match_pattern_recursive, match_pattern, glob_chars,
  glob_stars, glob_one, glob_match,
}

at_some_place-ext :
    (f g : List Bytes → Bool) (text : List Bytes)
    → ((t : List Bytes) → f t ≡ g t)
    → at_some_place f text ≡ at_some_place g text
unfolding at_some_place
at_some_place-ext f g [] h = h []
at_some_place-ext f g (k ∷ ks) h = rw (h (k ∷ ks), at_some_place-ext f g ks h) refl

at_some_place_twice :
    (f : List Bytes → Bool) (text : List Bytes)
    → at_some_place (at_some_place f) text ≡ at_some_place f text
unfolding at_some_place
at_some_place_twice f [] = refl
at_some_place_twice f (k ∷ ks) = ground (arith, at_some_place_twice f ks)

at_some_place-is_empty : (text : List Bytes) → at_some_place is_empty text ≡ true
unfolding at_some_place
at_some_place-is_empty [] = refl
at_some_place-is_empty (k ∷ ks) = at_some_place-is_empty ks

one_more-ext :
    (test : Bytes → Bool) (f g : List Bytes → Bool) (text : List Bytes)
    → ((t : List Bytes) → f t ≡ g t)
    → one_more test f text ≡ one_more test g text
unfolding one_more
one_more-ext test f g [] h = refl
one_more-ext test f g (k ∷ ks) h = rw (h ks) refl

-- At a character that is no star the two go on alike.
glob_one-match :
    (p : Bytes) (ps text : List Bytes)
    → bytes_eq p star ≡ false
    → ((t : List Bytes) → glob_chars ps t ≡ match_pattern_recursive ps t)
    → glob_one p (glob_chars ps) text ≡ match_pattern_recursive (p ∷ ps) text
unfolding glob_one match_pattern_recursive
glob_one-match p ps text e h = ground (
  arith,
  one_more-ext (λ _. true) (glob_chars ps) (match_pattern_recursive ps) text h,
  one_more-ext (λ k. bytes_eq k p) (glob_chars ps) (match_pattern_recursive ps) text h,
)

module _ (p : Bytes) (ps text : List Bytes) where
  match_star :
      bytes_eq p star ≡ true
      → match_pattern_recursive (p ∷ ps) text ≡ at_some_place (match_pattern_recursive ps) text
  unfolding match_pattern_recursive
  match_star e = ground arith

  glob_chars-star : bytes_eq p star ≡ true → glob_chars (p ∷ ps) text ≡ glob_stars ps text
  unfolding glob_chars
  glob_chars-star e = ground arith

  glob_chars_one :
      bytes_eq p star ≡ false → glob_chars (p ∷ ps) text ≡ glob_one p (glob_chars ps) text
  unfolding glob_chars
  glob_chars_one e = ground arith

  glob_stars-star : bytes_eq p star ≡ true → glob_stars (p ∷ ps) text ≡ glob_stars ps text
  unfolding glob_stars
  glob_stars-star e = ground arith

  glob_stars_one :
      bytes_eq p star ≡ false
      → glob_stars (p ∷ ps) text ≡ at_some_place (glob_one p (glob_chars ps)) text
  unfolding glob_stars
  glob_stars_one e = ground arith

glob_chars_nil : (text : List Bytes) → glob_chars [] text ≡ match_pattern_recursive [] text
unfolding glob_chars match_pattern_recursive
glob_chars_nil text = refl

glob_stars_nil :
    (text : List Bytes) → glob_stars [] text ≡ at_some_place (match_pattern_recursive []) text
unfolding glob_stars match_pattern_recursive
glob_stars_nil text = sym (at_some_place-is_empty text)

mutual
  glob_chars-match : (ps text : List Bytes) → glob_chars ps text ≡ match_pattern_recursive ps text
  glob_chars-match [] text = glob_chars_nil text
  glob_chars-match (p ∷ ps) text = elim (Bool-cases (bytes_eq p star)) [
    | inl e ↦ glob_chars-star p ps text e ∙ glob_stars-match ps text ∙ sym (match_star p ps text e)
    | inr e ↦ glob_chars_one p ps text e ∙ glob_one-match p ps text e (glob_chars-match ps)
  ]

  glob_stars-match :
      (ps text : List Bytes) → glob_stars ps text ≡ at_some_place (match_pattern_recursive ps) text
  glob_stars-match [] text = glob_stars_nil text
  glob_stars-match (p ∷ ps) text = elim (Bool-cases (bytes_eq p star)) [
    | inl e ↦
        glob_stars-star p ps text e
        ∙ glob_stars-match ps text
        ∙ sym (at_some_place_twice (match_pattern_recursive ps) text)
        ∙ at_some_place-ext (at_some_place (match_pattern_recursive ps))
            (match_pattern_recursive (p ∷ ps)) text (λ t. sym (match_star p ps t e))
    | inr e ↦
        glob_stars_one p ps text e
        ∙ at_some_place-ext (glob_one p (glob_chars ps)) (match_pattern_recursive (p ∷ ps)) text
            (λ t. glob_one-match p ps t e (glob_chars-match ps))
  ]

only_star : (t : List Bytes) → glob_chars (chars star) t ≡ true
unfolding chars bytes_eq glob_chars
only_star t = refl

-- `glob_match` of SSCAN and ZSCAN answers as `match_pattern` of KEYS, SCAN and HSCAN does, at every
-- pattern and every text.
pub glob_match-match_pattern :
    (pattern text : Bytes) → glob_match pattern text ≡ match_pattern text pattern
unfolding glob_match match_pattern
glob_match-match_pattern pattern text = elim (Bool-cases (bytes_eq pattern star)) [
  | inl e ↦ rw e (
      ap (λ p. glob_chars (chars p) (chars text)) ((bytes_eq_iff pattern star).0 e)
      ∙ only_star (chars text))
  | inr e ↦ rw e (glob_chars-match (chars pattern) (chars text))
]
