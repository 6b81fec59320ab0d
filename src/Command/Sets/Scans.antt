-- ===== src/Command/Sets/Scans.antt =====
-- src/command/set.rs: SSCAN.
use ai_kv.Base.{ℕ, Option, none, some, List, [], ◌∷◌, filter}
use ai_kv.Text.{Bytes}
use ai_kv.Text.Utf8.{from_utf8_lossy}
use ai_kv.Error.{Result, ok, err}
use ai_kv.Effect.{give, fail, check, ◌>>=◌}
use ai_kv.HashMap
use ai_kv.Resp.{bulk_list}
use ai_kv.Storage.Value.{StoredValue, as_set}
use ai_kv.Storage.Adapter.{get_value}
use ai_kv.Glob.{glob_match}
use ai_kv.Command.Index.{usize_arg}
use ai_kv.Command.Replies.{wrong_count}
use ai_kv.Command.Scanning.{ScanHandler, ScanOptions, read_any_options, guarded_page, page_reply}

-- A member that is not UTF-8 is matched as it is printed.
unfoldable pub filtered : Option Bytes → List Bytes → List Bytes
filtered none members = members
filtered (some pattern) members = filter (λ m. glob_match pattern (from_utf8_lossy m)) members

unfoldable pub sscan_page : ℕ → ScanOptions → Option StoredValue → Result (ℕ × Option (List Bytes))
unfolding filtered
sscan_page cursor o none = ok (0, some [])
sscan_page cursor o (some stored) = elim (as_set stored) [
  | err e ↦ err e
  | ok m ↦ ok (guarded_page cursor o.count (filtered o.pattern (HashMap.keys m)))
]

unfoldable pub sscan : ScanHandler
sscan now (k ∷ c ∷ rest) db = do
  cursor ← check (usize_arg "ERR invalid cursor" c)
  options ← check (read_any_options rest)
  stored ← get_value now db (from_utf8_lossy k)
  p ← check (sscan_page cursor options stored)
  give (page_reply bulk_list p)
sscan now _ db = fail (wrong_count "SSCAN")
