-- ===== src/Tests/HandlerRuns.antt =====
-- Runs of the handlers on the small storage.
use ai_kv.Base.{◌≡◌, refl, none, some, [], ◌∷◌, pos}
use ai_kv.Text.{codes, bytes_eq}
use ai_kv.Text.Utf8.{from_utf8_lossy, to_uppercase}
use ai_kv.Text.Number.{parse_unsigned}
use ai_kv.Error.{ok}
use ai_kv.HashMap
use ai_kv.Resp.{integer, bulk_string, array, cons, nil}
use ai_kv.Storage.Value.{new_string, is_expired, as_list, as_string}
use ai_kv.Storage.Adapter.{
  find, insert_at, get_value, set_value, get_from_db, set_in_db, set_with_expiration_in_db,
}
use ai_kv.Storage.Expiry.{get_ttl_in_db, as_i64}
use ai_kv.Command.Index.{usize_arg, u64_arg}
use ai_kv.Command.Lists.{llen, list_or_new}
use ai_kv.Command.Lists.Edit.{linsert, one_of, position}
use ai_kv.Command.Lists.Position.{lpos}
use ai_kv.Command.Strings.{mget, strlen, setex, psetex, bytes_or_empty}
use ai_kv.Command.Strings.Options.{getex}
use ai_kv.Command.Strings.Ranges.{setbit}
use ai_kv.Tests.{list_key, number_key, timed_key, stale_key, free_key, elem_x, elem_y, two, store}

llen_run : (llen 5 (list_key ∷ []) 0 store).0 ≡ ok (integer (pos 3))
unfolding llen get_value find list_or_new as_list from_utf8_lossy HashMap.get bytes_eq is_expired
llen_run = refl

linsert_run :
    (linsert 5 (list_key ∷ (b'a' ∷ b'f' ∷ b't' ∷ b'e' ∷ b'r' ∷ []) ∷ elem_y ∷ two ∷ []) 0 store).0
    ≡ ok (integer (pos 4))
unfolding linsert one_of codes to_uppercase get_value set_value find as_list from_utf8_lossy
    HashMap.get bytes_eq is_expired position
linsert_run = refl

lpos_run : (lpos 5 (list_key ∷ elem_y ∷ []) 0 store).0 ≡ ok (integer (pos 1))
unfolding lpos get_value find list_or_new as_list from_utf8_lossy HashMap.get bytes_eq is_expired
lpos_run = refl

mget_run :
    (mget 5 (number_key ∷ stale_key ∷ []) 0 store).0
    ≡ ok (array (cons (bulk_string (some two)) (cons (bulk_string none) nil)))
unfolding mget get_from_db find as_string from_utf8_lossy HashMap.get bytes_eq is_expired
mget_run = refl

strlen_run : (strlen 5 (timed_key ∷ []) 0 store).0 ≡ ok (integer (pos 1))
unfolding strlen get_from_db find as_string from_utf8_lossy HashMap.get bytes_eq is_expired
strlen_run = refl

setex_run :
    (get_ttl_in_db 5 5 0 free_key (setex 5 (free_key ∷ two ∷ elem_x ∷ []) 0 store).1).0
    ≡ ok (pos 2000)
unfolding setex u64_arg parse_unsigned get_ttl_in_db set_with_expiration_in_db set_value insert_at
    find from_utf8_lossy HashMap.get HashMap.insert bytes_eq is_expired as_i64
setex_run = refl

psetex_run :
    (get_ttl_in_db 5 5 0 free_key (psetex 5 (free_key ∷ two ∷ elem_x ∷ []) 0 store).1).0
    ≡ ok (pos 2)
unfolding psetex u64_arg parse_unsigned get_ttl_in_db set_with_expiration_in_db set_value insert_at
    find from_utf8_lossy HashMap.get HashMap.insert bytes_eq is_expired as_i64
psetex_run = refl

getex_run :
    (get_ttl_in_db 5 5 0 timed_key
      (getex 5 (timed_key ∷ (b'p' ∷ b'x' ∷ []) ∷ two ∷ []) 0 store).1).0
    ≡ ok (pos 2)
unfolding getex codes to_uppercase u64_arg parse_unsigned get_ttl_in_db get_from_db
    set_with_expiration_in_db set_value insert_at find as_string from_utf8_lossy HashMap.get
    HashMap.insert bytes_eq is_expired as_i64
getex_run = refl

-- Bit 6 of "2", 0x32, is 1; it is cleared, and the byte is then "0".
setbit_run :
    setbit 5 (number_key ∷ (b'6' ∷ []) ∷ (b'0' ∷ []) ∷ []) 0 store
    ≡ (ok (integer (pos 1)), insert_at 0 number_key (new_string (b'0' ∷ [])) store)
unfolding setbit usize_arg parse_unsigned get_from_db set_in_db set_value insert_at find as_string
    from_utf8_lossy HashMap.get HashMap.insert bytes_eq is_expired bytes_or_empty
setbit_run = refl
