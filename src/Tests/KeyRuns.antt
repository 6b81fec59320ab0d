-- ===== src/Tests/KeyRuns.antt =====
-- The theorems on the key commands on the small storage.
use ai_kv.Base.{◌+◌, ◌*◌, ◌-◌, ◌/◌, ◌≡◌, refl, arith, true, some, List, [], ◌∷◌, pos}
use ai_kv.Text.{Bytes, bytes_eq}
use ai_kv.Text.Utf8.{from_utf8_lossy}
use ai_kv.Text.Number.{parse_i64}
use ai_kv.Error.{ok}
use ai_kv.HashMap
use ai_kv.Resp.{integer, bulk_string, ok_reply}
use ai_kv.Storage.Value.{new_string, is_expired, set_expiration, to_serializable}
use ai_kv.Storage.Adapter.{find, insert_at}
use ai_kv.Storage.View.{view}
use ai_kv.Command.Index.{i64_arg}
use ai_kv.Command.Replies.{flag}
use ai_kv.Command.Keys.Expiration.{expire, ttl, pttl}
use ai_kv.Command.Keys.Lifetimes.{ttl-expire}
use ai_kv.Command.Keys.Dump.{dump, restore}
use ai_kv.Command.Keys.Dump.RoundTrip.{restore-dump, restored_time}
use ai_kv.Tests.{
  list_key, number_key, timed_key, free_key, two, timed, store, first-InRange, timed_shown,
}
use ai_kv.Tests.Kinds.{codec, codec-Reads, plain}

abbrev any_pattern : Bytes
any_pattern = b'*' ∷ []

abbrev live_keys : List Bytes
live_keys = list_key ∷ number_key ∷ timed_key ∷ []

two_seconds : i64_arg "ERR value is not an integer" two ≡ ok (pos 2)
unfolding i64_arg from_utf8_lossy parse_i64
two_seconds = refl

ttl-expire_example :
    ((expire 5 (timed_key ∷ two ∷ []) 0 store).0 ≡ ok (flag true))
    × ((ttl 1000 (timed_key ∷ []) 0 (expire 5 (timed_key ∷ two ∷ []) 0 store).1).0
        ≡ ok (integer (pos ((5 + 2 * 1000 - 1000) / 1000))))
    × ((pttl 1000 (timed_key ∷ []) 0 (expire 5 (timed_key ∷ two ∷ []) 0 store).1).0
        ≡ ok (integer (pos (5 + 2 * 1000 - 1000))))
unfolding from_utf8_lossy
ttl-expire_example =
    ttl-expire 5 1000 0 timed_key two 2 store timed timed_shown two_seconds (omega arith)
      (omega arith) (omega arith)

no_seconds : i64_arg "ERR value is not an integer" (b'0' ∷ []) ≡ ok (pos 0)
unfolding i64_arg from_utf8_lossy parse_i64
no_seconds = refl

restore-dump_example :
    (payload : Bytes) × (dump codec 5 (number_key ∷ []) 0 store
      ≡ (ok (bulk_string (some payload)), store))
    × (restore codec 7 (free_key ∷ two ∷ payload ∷ []) 0 store ≡ (
      ok ok_reply,
      insert_at 0
          (from_utf8_lossy free_key)
          (set_expiration (new_string two) (restored_time 7 2))
          store,
    ))
unfolding from_utf8_lossy view find HashMap.get bytes_eq is_expired to_serializable plain i64_arg
    parse_i64
restore-dump_example =
    restore-dump codec 5 7 number_key free_key two 0 0 2 store store (new_string two) two
      codec-Reads refl tt refl refl first-InRange refl
