-- ===== src/Command/Hashes/Scans.antt =====
-- src/command/hash.rs: HSCAN, over the fields in their order.
use ai_kv.Base.{Bool, ◌∷◌, filter, length, take, drop, if◌then◌else◌}
use ai_kv.Base.Sort.{sort_by}
use ai_kv.Text.{Bytes, bytes_eq, bytes_leb}
use ai_kv.Text.Utf8.{from_utf8_lossy}
use ai_kv.Effect.{give, fail, check, ◌>>=◌}
use ai_kv.HashMap.{HashMap}
use ai_kv.Resp.{bulk_list}
use ai_kv.Storage.Adapter.{get_value}
use ai_kv.Glob.{star, match_pattern}
use ai_kv.Command.Index.{usize_arg}
use ai_kv.Command.Replies.{Handler, wrong_count}
use ai_kv.Command.Scanning.{read_options, page_end, next_cursor, scan_reply}
use ai_kv.Command.Keys.{pattern_of}
use ai_kv.Command.Hashes.{hash_or_new, entries}

abbrev pub field_leb : Bytes × Bytes → Bytes × Bytes → Bool
field_leb a b = bytes_leb a.0 b.0

matched_fields : Bytes → HashMap Bytes → HashMap Bytes
matched_fields pattern h =
    let fields = sort_by field_leb h in
    if bytes_eq pattern star then fields else filter (λ e. match_pattern e.0 pattern) fields

-- `skip(start).take(count)` is no slice, so that a cursor past the end is no panic.
unfoldable pub hscan : Handler
unfolding matched_fields
hscan now (k ∷ c ∷ rest) db = do
  cursor ← check (usize_arg "ERR invalid cursor" c)
  options ← check (read_options rest)
  stored ← get_value now db (from_utf8_lossy k)
  h ← check (hash_or_new stored)
  let matched = matched_fields (pattern_of options.pattern) h
  let stop = page_end cursor options.count (length matched)
  give (
      scan_reply (next_cursor stop (length matched))
        (bulk_list (entries (take options.count (drop cursor matched)))))
hscan now _ db = fail (wrong_count "HSCAN")
