-- ===== src/Text/Utf8.antt =====
-- `String::from_utf8_lossy` and `str::to_uppercase` of the standard library, over bytes.
use ai_kv.Base.{
  ℕ, ◌-◌, ◌<◌, ◌≡◌, refl, Bool, false, ◌&&◌, ◌||◌, List, [], ◌∷◌, ◌++◌, arith, ltb, leb, ◌==◌,
  if◌then◌else◌,
}

-- What the decoder has read of a character: nothing, or a prefix that `more` further bytes complete,
-- the next of them in the range `lo` to `hi`.
pub data Pending : Type 0 where
  start : Pending
  partial : List ℕ → ℕ → ℕ → ℕ → Pending

-- U+FFFD, which stands for each part that is not UTF-8.
abbrev replacement : List ℕ
replacement = 0xEF ∷ 0xBF ∷ 0xBD ∷ []

abbrev within : ℕ → ℕ → ℕ → Bool
within lo hi c = leb lo c && leb c hi

-- The first byte of a character.
lead : ℕ → List ℕ × Pending
lead c =
    if ltb c 0x80
    then (c ∷ [], start)
    else if within 0xC2 0xDF c
    then ([], partial (c ∷ []) 0x80 0xBF 1)
    else if c == 0xE0
    then ([], partial (c ∷ []) 0xA0 0xBF 2)
    else if c == 0xED
    then ([], partial (c ∷ []) 0x80 0x9F 2)
    else if within 0xE1 0xEF c
    then ([], partial (c ∷ []) 0x80 0xBF 2)
    else if c == 0xF0
    then ([], partial (c ∷ []) 0x90 0xBF 3)
    else if within 0xF1 0xF3 c
    then ([], partial (c ∷ []) 0x80 0xBF 3)
    else if c == 0xF4
    then ([], partial (c ∷ []) 0x80 0x8F 3)
    else (replacement, start)

-- A byte that does not continue the character ends the bad part, and is read once more.
after_bad : List ℕ × Pending → List ℕ × Pending
after_bad (out, p) = (replacement ++ out, p)

step : Pending → ℕ → List ℕ × Pending
unfolding lead after_bad
step start c = lead c
step (partial seen lo hi more) c =
    if within lo hi c
    then (if more == 1
        then (seen ++ c ∷ [], start)
        else ([], partial (seen ++ c ∷ []) 0x80 0xBF (more - 1)))
    else after_bad (lead c)

decode : Pending → List ℕ → List ℕ
decode start [] = []
decode (partial seen lo hi more) [] = replacement
decode p (c ∷ s) = let (out, p') = step p c in out ++ decode p' s

unfoldable pub from_utf8_lossy : List ℕ → List ℕ
unfolding decode step
from_utf8_lossy = decode start

-- Upper case. A character outside ASCII is kept, but for those whose upper case is ASCII: ı, ß, ſ and
-- the ligatures U+FB00 to U+FB06. The handlers only compare the result with ASCII words.
abbrev upper_ascii : ℕ → ℕ
upper_ascii c = if within b'a' b'z' c then c - 32 else c

-- The first bytes of a character that may have such an upper case.
pub data Held : Type 0 where
  nothing : Held
  one : ℕ → Held
  ligature : Held

upper_one : Held → ℕ → List ℕ × Held
upper_one nothing c =
    if c == 0xC3 || c == 0xC4 || c == 0xC5 || c == 0xEF
    then ([], one c)
    else (upper_ascii c ∷ [], nothing)
upper_one (one x) c =
    if x == 0xC3 && c == 0x9F
    then (b'S' ∷ b'S' ∷ [], nothing)
    else if x == 0xC4 && c == 0xB1
    then (b'I' ∷ [], nothing)
    else if x == 0xC5 && c == 0xBF
    then (b'S' ∷ [], nothing)
    else if x == 0xEF && c == 0xAC
    then ([], ligature)
    else (x ∷ c ∷ [], nothing)
upper_one ligature c =
    if c == 0x80
    then (b'F' ∷ b'F' ∷ [], nothing)
    else if c == 0x81
    then (b'F' ∷ b'I' ∷ [], nothing)
    else if c == 0x82
    then (b'F' ∷ b'L' ∷ [], nothing)
    else if c == 0x83
    then (b'F' ∷ b'F' ∷ b'I' ∷ [], nothing)
    else if c == 0x84
    then (b'F' ∷ b'F' ∷ b'L' ∷ [], nothing)
    else if c == 0x85 || c == 0x86
    then (b'S' ∷ b'T' ∷ [], nothing)
    else (0xEF ∷ 0xAC ∷ c ∷ [], nothing)

held_bytes : Held → List ℕ
held_bytes nothing = []
held_bytes (one x) = x ∷ []
held_bytes ligature = 0xEF ∷ 0xAC ∷ []

upper : Held → List ℕ → List ℕ
unfolding upper_one held_bytes
upper h [] = held_bytes h
upper h (c ∷ s) = let (out, h') = upper_one h c in out ++ upper h' s

unfoldable pub to_uppercase : List ℕ → List ℕ
unfolding upper
to_uppercase = upper nothing

-- Every byte is below 128.
abbrev pub IsAscii : List ℕ → Type 0
IsAscii [] = Unit
IsAscii (c ∷ s) = (c < 0x80) × IsAscii s

-- ASCII text is decoded as it stands.
pub from_utf8_lossy_ascii : (s : List ℕ) → IsAscii s → from_utf8_lossy s ≡ s
unfolding from_utf8_lossy
from_utf8_lossy_ascii [] h = refl
from_utf8_lossy_ascii (c ∷ s) h = ground (arith, from_utf8_lossy_ascii s h.1)

-- No byte is a carriage return.
abbrev pub IsPlain : List ℕ → Type 0
IsPlain [] = Unit
IsPlain (c ∷ s) = ((c == 13) ≡ false) × IsPlain s
