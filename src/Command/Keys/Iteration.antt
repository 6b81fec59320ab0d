-- ===== src/Command/Keys/Iteration.antt =====
-- src/command/key.rs: SCAN as a client sees it, against KEYS.
use ai_kv.Base.{ℕ, ◌≡◌, Option, none, some, List, [], ◌∷◌}
use ai_kv.Text.{Bytes, codes}
use ai_kv.Text.Utf8.{from_utf8_lossy}
use ai_kv.Text.Number.{parse_usize, print_nat}
use ai_kv.Error.{Result, ok}
use ai_kv.Resp.{RespValue, RespList, bulk_string, array, nil, cons}
use ai_kv.Storage.Adapter.{StorageAdapter}
use ai_kv.Storage.Keyspace.{get_all_keys_in_db}
use ai_kv.Command.Keys.{scan, matching}

-- The arguments of one call, and what the client reads in its reply.
abbrev pub scan_args : ℕ → Bytes → ℕ → List Bytes
scan_args cursor pattern count =
    print_nat cursor ∷ codes "MATCH" ∷ pattern ∷ codes "COUNT" ∷ print_nat count ∷ []

abbrev pub strings : RespList → List Bytes
strings nil = []
strings (cons (bulk_string (some b)) rest) = b ∷ strings rest
strings (cons _ rest) = strings rest

abbrev pub page_read : RespList → Option ℕ → ℕ × Option (List Bytes)
page_read items none = (0, none)
page_read items (some next) = (next, some (strings items))

abbrev pub read_page : Result (Option RespValue) → ℕ × Option (List Bytes)
read_page (ok (some (array (cons (bulk_string (some c)) (cons (array items) nil))))) =
    page_read items (parse_usize c)
read_page _ = (0, none)

abbrev pub scan_call : ℕ → Bytes → ℕ → ℕ → StorageAdapter → ℕ → ℕ × Option (List Bytes)
scan_call now pattern count db s cursor =
    read_page (scan now (scan_args cursor pattern count) db s).0

module _ (now : ℕ) (pattern : Bytes) (count db : ℕ) (s : StorageAdapter) (all : List Bytes)
    (there : get_all_keys_in_db now db s ≡ (ok all, s)) where
  abbrev matched : List Bytes
  matched = matching (from_utf8_lossy pattern) all
