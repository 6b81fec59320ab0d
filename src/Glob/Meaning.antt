-- ===== src/Glob/Meaning.antt =====
-- src/command/key.rs, `match_pattern`: what the search finds, as a relation of a pattern and a text.
use ai_kv.Base.{
  ◌≡◌, refl, sym, ◌∙◌, append-nil, ◌↔◌, Bool, true, false, Bool-cases, inl, inr, List, [], ◌∷◌,
  ◌++◌, map, arith,
}
use ai_kv.Text.{Bytes, bytes_eq, bytes_eq_iff}
use ai_kv.Glob.{
  chars, star, question, at_some_place, one_more, match_pattern_recursive, match_pattern,
}

pub data Token : Type 0 where
  any_text any_char : Token
  exactly : Bytes → Token

abbrev pub token : Bytes → Token
token p = elim (bytes_eq p star) [
  | true ↦ any_text
  | false ↦ elim (bytes_eq p question) [ true ↦ any_char | false ↦ exactly p ]
]

-- A text matches if it can be cut into one part for each token.
abbrev pub Matches : List Token → List Bytes → Type 0
Matches [] text = text ≡ []
Matches (any_text ∷ ts) text =
    (front : List Bytes) × (back : List Bytes) × (text ≡ front ++ back) × Matches ts back
Matches (any_char ∷ ts) text =
    (k : Bytes) × (back : List Bytes) × (text ≡ k ∷ back) × Matches ts back
Matches (exactly p ∷ ts) text = (back : List Bytes) × (text ≡ p ∷ back) × Matches ts back

at_some_place_cut :
    (f : List Bytes → Bool) (text : List Bytes)
    → at_some_place f text ≡ true
    → (front : List Bytes) × (back : List Bytes) × (text ≡ front ++ back) × (f back ≡ true)
unfolding at_some_place
at_some_place_cut f [] h = ([], [], refl, h)
at_some_place_cut f (k ∷ ks) h = elim (Bool-cases (f (k ∷ ks))) [
  | inl e ↦ ([], k ∷ ks, refl, e)
  | inr e ↦
      let (front, back, cut, found) = at_some_place_cut f ks (ground arith) in
      (k ∷ front, back, cc, found)
]

at_some_place_of_cut :
    (f : List Bytes → Bool) (front back : List Bytes)
    → f back ≡ true
    → at_some_place f (front ++ back) ≡ true
unfolding at_some_place
at_some_place_of_cut f [] [] h = h
at_some_place_of_cut f [] (k ∷ ks) h = ground arith
at_some_place_of_cut f (x ∷ front) back h = ground (arith, at_some_place_of_cut f front back h)

-- One step of the search, at a token.
try_token : Token → (List Bytes → Bool) → List Bytes → Bool
try_token any_text rest = at_some_place rest
try_token any_char rest = one_more (λ _. true) rest
try_token (exactly p) rest = one_more (λ k. bytes_eq k p) rest

match_pattern_recursive-cons :
    (p : Bytes) (ps key : List Bytes)
    → match_pattern_recursive (p ∷ ps) key ≡ try_token (token p) (match_pattern_recursive ps) key
unfolding match_pattern_recursive try_token
match_pattern_recursive-cons p ps key = ground arith

module _ (ts : List Token) (rest : List Bytes → Bool) where
  try_token_sound :
      (t : Token) (key : List Bytes)
      → ((k : List Bytes) → rest k ≡ true → Matches ts k)
      → try_token t rest key ≡ true
      → Matches (t ∷ ts) key
  unfolding try_token one_more
  try_token_sound any_text key ih h =
      let (front, back, cut, found) = at_some_place_cut rest key h in
      (front, back, cut, ih back found)
  try_token_sound any_char [] ih h = cc
  try_token_sound any_char (k ∷ ks) ih h = (k, ks, refl, ih ks h)
  try_token_sound (exactly p) [] ih h = cc
  try_token_sound (exactly p) (k ∷ ks) ih h =
      (ks, ground (arith, bytes_eq_iff k p), ih ks (ground arith))

  try_token_complete :
      (t : Token) (key : List Bytes)
      → ((k : List Bytes) → Matches ts k → rest k ≡ true)
      → Matches (t ∷ ts) key
      → try_token t rest key ≡ true
  unfolding try_token one_more
  try_token_complete any_text key ih (front, back, cut, m) =
      rw cut (at_some_place_of_cut rest front back (ih back m))
  try_token_complete any_char key ih (k, back, cut, m) = rw cut (ih back m)
  try_token_complete (exactly p) key ih (back, cut, m) =
      rw cut (ground (arith, bytes_eq_iff p p, ih back m))

match_sound :
    (ps key : List Bytes) → match_pattern_recursive ps key ≡ true → Matches (map token ps) key
unfolding match_pattern_recursive
match_sound [] [] h = refl
match_sound [] (k ∷ ks) h = cc
match_sound (p ∷ ps) key h =
    try_token_sound (map token ps) (match_pattern_recursive ps) (token p) key (match_sound ps)
      (sym (match_pattern_recursive-cons p ps key) ∙ h)

match_complete :
    (ps key : List Bytes) → Matches (map token ps) key → match_pattern_recursive ps key ≡ true
unfolding match_pattern_recursive
match_complete [] key h = rw h refl
match_complete (p ∷ ps) key h =
    match_pattern_recursive-cons p ps key
    ∙ try_token_complete (map token ps) (match_pattern_recursive ps) (token p) key
        (match_complete ps) h

anything : (text : List Bytes) → (true ≡ true) ↔ Matches (map token (chars star)) text
unfolding chars bytes_eq
anything text = (λ _. (text, [], sym (append-nil text), refl), λ _. refl)

-- `match_pattern` of KEYS, SCAN and HSCAN answers true exactly if the key, by characters, can be cut
-- into one part for each character of the pattern: any text for `*`, any one character for `?`, and
-- the character itself for every other.
pub match_pattern_iff :
    (key pattern : Bytes)
    → (match_pattern key pattern ≡ true) ↔ Matches (map token (chars pattern)) (chars key)
unfolding match_pattern
match_pattern_iff key pattern = elim (Bool-cases (bytes_eq pattern star)) [
  | inl e ↦ rw (e, (bytes_eq_iff pattern star).0 e) (anything (chars key))
  | inr e ↦
      rw e (match_sound (chars pattern) (chars key), match_complete (chars pattern) (chars key))
]
