-- ===== src/Glob.antt =====
-- The glob matchers: `match_pattern` of src/command/key.rs and src/command/hash.rs, and `glob_match`
-- of src/command/set.rs and src/command/zset.rs. A place in a text is what is left of it there.
pub mod Meaning
pub mod Agreement
use ai_kv.Base.{Bool, true, false, ◌&&◌, ◌||◌, List, [], ◌∷◌, ◌++◌, leb, is_empty, if◌then◌else◌}
use ai_kv.Text.{Bytes, bytes_eq}

-- The first byte lies inside a character.
abbrev continues : Bytes → Bool
continues [] = false
continues (c ∷ s) = leb 0x80 c && leb c 0xBF

abbrev join : Bytes → List Bytes → List Bytes
join c [] = c ∷ []
join c (d ∷ ds) = (c ++ d) ∷ ds

-- `str::chars`: a character is its bytes.
unfoldable pub chars : Bytes → List Bytes
chars [] = []
chars (c ∷ s) = let rest = chars s in if continues s then join (c ∷ []) rest else (c ∷ []) ∷ rest

abbrev pub star : Bytes
star = b'*' ∷ []

abbrev pub question : Bytes
question = b'?' ∷ []

-- `for i in ki..=key.len()`, and the `while` of `glob_match` with the call behind it
pub at_some_place : (List Bytes → Bool) → List Bytes → Bool
at_some_place f [] = f []
at_some_place f (k ∷ ks) = f (k ∷ ks) || at_some_place f ks

pub one_more : (Bytes → Bool) → (List Bytes → Bool) → List Bytes → Bool
one_more test rest [] = false
one_more test rest (k ∷ ks) = test k && rest ks

pub match_pattern_recursive : List Bytes → List Bytes → Bool
unfolding at_some_place one_more
match_pattern_recursive [] key = is_empty key
match_pattern_recursive (p ∷ ps) key = elim (bytes_eq p star) [
  | true ↦ at_some_place (match_pattern_recursive ps) key
  | false ↦ elim (bytes_eq p question) [
    | true ↦ one_more (λ _. true) (match_pattern_recursive ps) key
    | false ↦ one_more (λ k. bytes_eq k p) (match_pattern_recursive ps) key
  ]
]

unfoldable pub match_pattern : Bytes → Bytes → Bool
unfolding match_pattern_recursive
match_pattern key pattern =
    if bytes_eq pattern star then true else match_pattern_recursive (chars pattern) (chars key)

-- A character of the pattern that is not a star.
pub glob_one : Bytes → (List Bytes → Bool) → List Bytes → Bool
unfolding one_more
glob_one p rest text = elim (bytes_eq p question) [
  | true ↦ one_more (λ _. true) rest text
  | false ↦ one_more (λ k. bytes_eq k p) rest text
]

-- `glob_stars` stands behind a star: it skips further stars.
unfoldable mutual
  unfolding glob_one at_some_place

  pub glob_chars : List Bytes → List Bytes → Bool
  glob_chars [] text = is_empty text
  glob_chars (p ∷ ps) text = elim (bytes_eq p star) [
    | true ↦ glob_stars ps text
    | false ↦ glob_one p (glob_chars ps) text
  ]

  pub glob_stars : List Bytes → List Bytes → Bool
  glob_stars [] text = true
  glob_stars (p ∷ ps) text = elim (bytes_eq p star) [
    | true ↦ glob_stars ps text
    | false ↦ at_some_place (glob_one p (glob_chars ps)) text
  ]

unfoldable pub glob_match : Bytes → Bytes → Bool
unfolding glob_chars
glob_match pattern text = glob_chars (chars pattern) (chars text)
