-- ===== src/Command/ZSets/Lex.antt =====
-- src/command/zset.rs: ZRANGEBYLEX, ZREVRANGEBYLEX and ZLEXCOUNT. A key of the `BTreeMap` is compared
-- with the bounds as it is printed.
use ai_kv.Base.{
  ℕ, Bool, true, false, not, ◌&&◌, Option, none, some, List, [], ◌∷◌, filter, reverse, take, drop,
  min, length, pos, ◌==◌, if◌then◌else◌,
}
use ai_kv.Base.Sort.{sort_by}
use ai_kv.Text.{Bytes, codes, bytes_eq, bytes_leb}
use ai_kv.Text.Utf8.{from_utf8_lossy, to_uppercase}
use ai_kv.Error.{Result, ok, err}
use ai_kv.Effect.{give, fail, check, ◌>>=◌}
use ai_kv.HashMap
use ai_kv.Resp.{integer, array, bulk_list}
use ai_kv.Storage.Adapter.{get_value}
use ai_kv.Command.Index.{usize_arg}
use ai_kv.Command.Replies.{Handler, wrong_count}
use ai_kv.Command.Scanning.{syntax_error}
use ai_kv.Command.ZSets.{zset_or_new}

-- A bound: open at this end, a text that belongs to the range or one that does not, or no bound.
lex_min : Bytes → Bytes → Option Bool
lex_min member [] = none
lex_min member (c ∷ s) =
    if bytes_eq (c ∷ s) (codes "-")
    then some true
    else if c == b'['
    then some (bytes_leb s member)
    else if c == b'('
    then some (not (bytes_leb member s))
    else none

lex_max : Bytes → Bytes → Option Bool
lex_max member [] = none
lex_max member (c ∷ s) =
    if bytes_eq (c ∷ s) (codes "+")
    then some true
    else if c == b'['
    then some (bytes_leb member s)
    else if c == b'('
    then some (not (bytes_leb s member))
    else none

both_ends : Option Bool → Option Bool → Bool
both_ends (some a) (some b) = a && b
both_ends _ _ = false

unfoldable pub in_lex_range : Bytes → Bytes → Bytes → Bool
unfolding lex_min lex_max both_ends
in_lex_range member min_str max_str =
    both_ends (lex_min (from_utf8_lossy member) min_str) (lex_max (from_utf8_lossy member) max_str)

-- Offset and limit; a fourth argument that is not LIMIT is not looked at.
unfoldable pub lex_limit : List Bytes → Result (ℕ × Option ℕ)
lex_limit [] = ok (0, none)
lex_limit (word ∷ rest) =
    if bytes_eq (to_uppercase (from_utf8_lossy word)) (codes "LIMIT")
    then elim rest [
      | [] ↦ err syntax_error
      | b ∷ more ↦ elim more [
        | [] ↦ err syntax_error
        | c ∷ _ ↦ elim (usize_arg "ERR value is not an integer or out of range" b) [
          | err e ↦ err e
          | ok n ↦ elim (usize_arg "ERR value is not an integer or out of range" c) [
            | err e ↦ err e
            | ok m ↦ ok (n, some m)
          ]
        ]
      ]
    ]
    else ok (0, none)

unfoldable pub lex_limited : ℕ × Option ℕ → List Bytes → List Bytes
lex_limited (offset, none) l = drop (min offset (length l)) l
lex_limited (offset, some count) l = take count (drop (min offset (length l)) l)

unfoldable pub zrangebylex : Handler
zrangebylex now (k ∷ a ∷ b ∷ rest) db = do
  limit ← check (lex_limit rest)
  stored ← get_value now db (from_utf8_lossy k)
  z ← check (zset_or_new stored)
  let members = sort_by bytes_leb (HashMap.keys z)
  let matched = filter (λ m. in_lex_range m (from_utf8_lossy a) (from_utf8_lossy b)) members
  give (array (bulk_list (lex_limited limit matched)))
zrangebylex now _ db = fail (wrong_count "ZRANGEBYLEX")

-- The greater bound comes first.
unfoldable pub zrevrangebylex : Handler
zrevrangebylex now (k ∷ a ∷ b ∷ rest) db = do
  limit ← check (lex_limit rest)
  stored ← get_value now db (from_utf8_lossy k)
  z ← check (zset_or_new stored)
  let members = reverse (sort_by bytes_leb (HashMap.keys z))
  let matched = filter (λ m. in_lex_range m (from_utf8_lossy b) (from_utf8_lossy a)) members
  give (array (bulk_list (lex_limited limit matched)))
zrevrangebylex now _ db = fail (wrong_count "ZREVRANGEBYLEX")

unfoldable pub zlexcount : Handler
zlexcount now (k ∷ a ∷ b ∷ []) db = do
  stored ← get_value now db (from_utf8_lossy k)
  z ← check (zset_or_new stored)
  let matched =
      filter (λ m. in_lex_range m (from_utf8_lossy a) (from_utf8_lossy b)) (HashMap.keys z)
  give (integer (pos (length matched)))
zlexcount now _ db = fail (wrong_count "ZLEXCOUNT")
