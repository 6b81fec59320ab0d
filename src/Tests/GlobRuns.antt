-- ===== src/Tests/GlobRuns.antt =====
-- The glob matchers on a pattern.
use ai_kv.Base.{◌≡◌, ◌↔◌, true, [], ◌∷◌, map}
use ai_kv.Text.{Bytes}
use ai_kv.Glob.{chars, match_pattern, glob_match}
use ai_kv.Glob.Meaning.{match_pattern_iff, token, Matches}
use ai_kv.Glob.Agreement.{glob_match-match_pattern}

-- "a*?" and "abc"
abbrev pattern : Bytes
pattern = b'a' ∷ b'*' ∷ b'?' ∷ []

abbrev text : Bytes
text = b'a' ∷ b'b' ∷ b'c' ∷ []

match_pattern_iff_example :
    (match_pattern text pattern ≡ true) ↔ Matches (map token (chars pattern)) (chars text)
match_pattern_iff_example = match_pattern_iff text pattern

glob_match-match_pattern_example : glob_match pattern text ≡ match_pattern text pattern
glob_match-match_pattern_example = glob_match-match_pattern pattern text
