-- ===== src/Command/ZSets/Pops.antt =====
-- src/command/zset.rs: ZPOPMIN, ZPOPMAX and ZSCAN. The pops take scores that cannot be compared for
-- equal, so that a NaN is no panic; the order of the sort is then not specified.
use ai_kv.Base.{ℕ, Bool, true, not, Option, none, some, List, [], ◌∷◌, filter, take, min, length}
use ai_kv.Base.Sort.{sort_by}
use ai_kv.Text.{Bytes}
use ai_kv.Text.Utf8.{from_utf8_lossy}
use ai_kv.Error.{Result, ok, err}
use ai_kv.Effect.{Effect, give, fail, check, ◌>>=◌, ◌>>◌}
use ai_kv.HashMap
use ai_kv.HashMap.{HashMap}
use ai_kv.Resp.{RespValue, array, bulk_list}
use ai_kv.Storage.Value.{StoredValue, as_zset}
use ai_kv.Storage.Adapter.{StorageAdapter, get_value}
use ai_kv.Glob.{glob_match}
use ai_kv.Command.Floats.{F64}
use ai_kv.Command.Index.{usize_arg}
use ai_kv.Command.Replies.{Handler, wrong_count}
use ai_kv.Command.Scanning.{ScanHandler, ScanOptions, read_any_options, guarded_page, page_reply}
use ai_kv.Command.ZSets.{ZSet, iter, store_zset}
use ai_kv.Command.ZSets.Ranges.{listed_scores}

-- `partial_cmp(…).unwrap_or(Equal)`
abbrev pub lowest : F64 → Bytes × ℕ → Bytes × ℕ → Bool
lowest floats a b = not (floats.lt b.1 a.1)

abbrev pub highest : F64 → Bytes × ℕ → Bytes × ℕ → Bool
highest floats a b = not (floats.lt a.1 b.1)

pop_count : List Bytes → Result ℕ
pop_count [] = ok 1
pop_count (c ∷ _) = usize_arg "ERR value is not an integer or out of range" c

unfoldable pub remove_popped : List (Bytes × ℕ) → ZSet → ZSet
remove_popped [] z = z
remove_popped (e ∷ l) z = remove_popped l (HashMap.remove z e.0)

unfoldable pub popped : (Bytes × ℕ → Bytes × ℕ → Bool) → ℕ → ZSet → List (Bytes × ℕ)
popped le count z = let l = sort_by le (iter z) in take (min count (length l)) l

module _ (floats : F64) (le : Bytes × ℕ → Bytes × ℕ → Bool) where
  unfoldable pub pop_stored : ℕ → Bytes → ℕ → Option StoredValue → Effect StorageAdapter RespValue
  pop_stored db key count none = give (array (bulk_list []))
  pop_stored db key count (some stored) = do
    z ← check (as_zset stored)
    let gone = popped le count z
    store_zset db key (remove_popped gone z)
    give (array (bulk_list (listed_scores floats true gone)))

unfoldable pub zpopmin : F64 → Handler
unfolding pop_count
zpopmin floats now (k ∷ more) db = do
  let key = from_utf8_lossy k
  count ← check (pop_count more)
  stored ← get_value now db key
  pop_stored floats (lowest floats) db key count stored
zpopmin floats now [] db = fail (wrong_count "ZPOPMIN")

unfoldable pub zpopmax : F64 → Handler
unfolding pop_count
zpopmax floats now (k ∷ more) db = do
  let key = from_utf8_lossy k
  count ← check (pop_count more)
  stored ← get_value now db key
  pop_stored floats (highest floats) db key count stored
zpopmax floats now [] db = fail (wrong_count "ZPOPMAX")

-- A member that is not UTF-8 is matched as it is printed.
matched_members : Option Bytes → List (Bytes × ℕ) → List (Bytes × ℕ)
matched_members none l = l
matched_members (some pattern) l = filter (λ e. glob_match pattern (from_utf8_lossy e.0)) l

zscan_page : ℕ → ScanOptions → Option StoredValue → Result (ℕ × Option (List (Bytes × ℕ)))
unfolding matched_members
zscan_page cursor o none = ok (0, some [])
zscan_page cursor o (some stored) = elim (as_zset stored) [
  | err e ↦ err e
  | ok z ↦ ok (guarded_page cursor o.count (matched_members o.pattern (iter z)))
]

unfoldable pub zscan : F64 → ScanHandler
unfolding zscan_page
zscan floats now (k ∷ c ∷ rest) db = do
  cursor ← check (usize_arg "ERR invalid cursor" c)
  options ← check (read_any_options rest)
  stored ← get_value now db (from_utf8_lossy k)
  p ← check (zscan_page cursor options stored)
  give (page_reply (λ l. bulk_list (listed_scores floats true l)) p)
zscan floats now _ db = fail (wrong_count "ZSCAN")
