-- ===== src/Tests/ListRuns.antt =====
-- The list commands' theorems on the small storage.
use ai_kv.Base.{as_i32, ℕ, ◌≡◌, refl, true, false, some, List, [], ◌∷◌, drop, pos, negsuc}
use ai_kv.Text.{Bytes, codes, bytes_eq}
use ai_kv.Text.Utf8.{from_utf8_lossy, to_uppercase}
use ai_kv.Text.Number.{parse_i64, parse_unsigned}
use ai_kv.Error.{ok}
use ai_kv.HashMap
use ai_kv.Resp.{integer, bulk_string, array, bulk_list}
use ai_kv.Storage.Value.{new_list, as_list, is_expired}
use ai_kv.Storage.Adapter.{with_db_count, find}
use ai_kv.Storage.View.{view}
use ai_kv.Storage.Contract.{Shows}
use ai_kv.Command.Index.{i64_arg}
use ai_kv.Command.Lists.{lpop, lrange, list_or_new}
use ai_kv.Command.Lists.Pops.{lpop_contract, stored_list, popped, asked_for}
use ai_kv.Command.Lists.Order.{lrange_contract, IsRange}
use ai_kv.Command.Lists.Filled.{
  ListCall, HasNoEmptyList, call_all, lpush_call, rpush_call, ltrim_call, lrem_call,
}
use ai_kv.Command.Lists.Filled.Always.{call_all-HasNoEmptyList}
use ai_kv.Command.Lists.Race.{Pair, Steps, waiting, replied}
use ai_kv.Command.Lists.Race.Outcomes.{push_step_loses}
use ai_kv.Command.Lists.Edit.{lrem, lmove, push_end, one_of}
use ai_kv.Command.Lists.Edit.Removal.{occurrences, Removed}
use ai_kv.Command.Lists.Edit.Trimmed.{lrem_contract}
use ai_kv.Command.Lists.Edit.Moving.{lmove_contract, ShowsMoved, destination_list}
use ai_kv.Tests.{list_key, free_key, elem_x, elem_y, two, listed, store, first-InRange}

abbrev zero_arg : Bytes
zero_arg = b'0' ∷ []

-- "-1" and "-9"
abbrev last_arg : Bytes
last_arg = b'-' ∷ b'1' ∷ []

abbrev far_arg : Bytes
far_arg = b'-' ∷ b'9' ∷ []

abbrev left_arg : Bytes
left_arg = b'l' ∷ b'e' ∷ b'f' ∷ b't' ∷ []

abbrev after_arg : Bytes
after_arg = b'a' ∷ b'f' ∷ b't' ∷ b'e' ∷ b'r' ∷ []

abbrev right_arg : Bytes
right_arg = b'R' ∷ b'I' ∷ b'G' ∷ b'H' ∷ b'T' ∷ []

list_there : view 5 store 0 (from_utf8_lossy list_key) ≡ some (new_list listed)
unfolding view find from_utf8_lossy HashMap.get bytes_eq is_expired
list_there = refl

list_read : list_or_new (view 5 store 0 (from_utf8_lossy list_key)) ≡ ok listed
unfolding list_or_new as_list view find from_utf8_lossy HashMap.get bytes_eq is_expired
list_read = refl

free_read : list_or_new (view 5 store 0 (from_utf8_lossy free_key)) ≡ ok []
unfolding list_or_new as_list view find from_utf8_lossy HashMap.get bytes_eq is_expired
free_read = refl

list_typed : as_list (new_list listed) ≡ ok listed
unfolding as_list
list_typed = refl

start_read : i64_arg "invalid start index" zero_arg ≡ ok (pos 0)
unfolding i64_arg from_utf8_lossy parse_i64
start_read = refl

stop_read : i64_arg "invalid stop index" last_arg ≡ ok (negsuc 0)
unfolding i64_arg from_utf8_lossy parse_i64
stop_read = refl

far_stop_read : i64_arg "invalid stop index" far_arg ≡ ok (negsuc 8)
unfolding i64_arg from_utf8_lossy parse_i64
far_stop_read = refl

index_read : i64_arg "invalid index" last_arg ≡ ok (negsuc 0)
unfolding i64_arg from_utf8_lossy parse_i64
index_read = refl

count_read : i64_arg "invalid count" last_arg ≡ ok (negsuc 0)
unfolding i64_arg from_utf8_lossy parse_i64
count_read = refl

two_popped : asked_for (two ∷ []) ≡ some 2
unfolding from_utf8_lossy parse_unsigned
two_popped = refl

lpop_example :
    ((lpop 5 (list_key ∷ two ∷ []) 0 store).0 ≡ ok (popped 2 listed))
    × Shows 5 store 0
        (from_utf8_lossy list_key)
        (stored_list (drop 2 listed))
        (lpop 5 (list_key ∷ two ∷ []) 0 store).1
lpop_example =
    lpop_contract 5 list_key (two ∷ []) 0 store (new_list listed) 2 listed two_popped list_there
      list_typed

lrange_example :
    (r : List Bytes) × (lrange 5 (list_key ∷ zero_arg ∷ last_arg ∷ []) 0 store
      ≡ (ok (array (bulk_list r)), store))
    × IsRange (pos 0) (negsuc 0) listed r
lrange_example =
    lrange_contract 5 list_key zero_arg last_arg 0 store (pos 0) (negsuc 0) listed start_read
      stop_read list_read

lrem_example :
    (removed : ℕ) × (kept : List Bytes) × Removed (negsuc 0) elem_x listed (removed, kept)
    × ((lrem 5 (list_key ∷ last_arg ∷ elem_x ∷ []) 0 store).0 ≡ ok (integer (as_i32 removed)))
    × Shows 5 store 0
        (from_utf8_lossy list_key)
        (stored_list kept)
        (lrem 5 (list_key ∷ last_arg ∷ elem_x ∷ []) 0 store).1
lrem_example =
    lrem_contract 5 list_key last_arg elem_x 0 store (negsuc 0) (new_list listed) listed count_read
      list_there list_typed

left_read : one_of (codes "LEFT") (codes "RIGHT") left_arg ≡ ok true
unfolding one_of codes from_utf8_lossy to_uppercase bytes_eq
left_read = refl

right_read : one_of (codes "LEFT") (codes "RIGHT") right_arg ≡ ok false
unfolding one_of codes from_utf8_lossy to_uppercase bytes_eq
right_read = refl

end_typed : as_list (new_list listed) ≡ ok (push_end true elem_x (elem_y ∷ elem_x ∷ []))
unfolding as_list push_end
end_typed = refl

destination_read :
    destination_list 5 store 0
      (from_utf8_lossy list_key)
      (from_utf8_lossy list_key)
      (elem_y ∷ elem_x ∷ [])
    ≡ ok (elem_y ∷ elem_x ∷ [])
unfolding from_utf8_lossy bytes_eq
destination_read = refl

lmove_example :
    ((lmove 5 (list_key ∷ list_key ∷ left_arg ∷ right_arg ∷ []) 0 store).0
      ≡ ok (bulk_string (some elem_x)))
    × ShowsMoved 5 store 0
        (from_utf8_lossy list_key)
        (from_utf8_lossy list_key)
        (elem_y ∷ elem_x ∷ [])
        (push_end false elem_x (elem_y ∷ elem_x ∷ []))
        (lmove 5 (list_key ∷ list_key ∷ left_arg ∷ right_arg ∷ []) 0 store).1
lmove_example =
    lmove_contract 5 list_key list_key left_arg right_arg 0 store true false (new_list listed)
      elem_x (elem_y ∷ elem_x ∷ []) (elem_y ∷ elem_x ∷ []) left_read right_read list_there end_typed
      destination_read

-- LPUSH of one element, LTRIM to nothing, RPUSH of none, which fails, and LREM of what is not there.
abbrev list_calls : List ListCall
list_calls =
    record { command = lpush_call; now = 5; args = free_key ∷ elem_x ∷ []; db = 0 }
    ∷ record { command = ltrim_call; now = 6; args = free_key ∷ two ∷ two ∷ []; db = 0 }
    ∷ record { command = rpush_call; now = 7; args = free_key ∷ []; db = 0 }
    ∷ record { command = lrem_call; now = 8; args = list_key ∷ zero_arg ∷ elem_x ∷ []; db = 1 }
    ∷ []

call_all-HasNoEmptyList_example : HasNoEmptyList (call_all list_calls (with_db_count 2))
call_all-HasNoEmptyList_example = call_all-HasNoEmptyList 2 list_calls

push_step_loses_example :
    (final : Pair) × Steps 5
      (from_utf8_lossy free_key)
      (elem_x ∷ [])
      (elem_y ∷ [])
      0
      (record { first = waiting; second = waiting; storage = store })
      final
    × (final.first ≡ replied (ok (integer (pos 1))))
    × (final.second ≡ replied (ok (integer (pos 1))))
    × Shows 5 store 0 (from_utf8_lossy free_key) (some (new_list (elem_y ∷ []))) final.storage
push_step_loses_example =
    push_step_loses 5 (from_utf8_lossy free_key) (elem_x ∷ []) (elem_y ∷ []) 0 store []
      first-InRange free_read

after_read : one_of (codes "BEFORE") (codes "AFTER") after_arg ≡ ok false
unfolding one_of codes from_utf8_lossy to_uppercase bytes_eq
after_read = refl

no_front : occurrences elem_x [] ≡ 0
no_front = refl
