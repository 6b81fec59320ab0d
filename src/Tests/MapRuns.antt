-- ===== src/Tests/MapRuns.antt =====
-- The theorems on the hash and set commands on the small storage.
use ai_kv.Base.{
  as_i32, ℕ, ◌+◌, ◌≡◌, refl, arith, not, ◌&&◌, ◌||◌, none, some, [], ◌∷◌, length, pos, negsuc,
  u64_mod, if◌then◌else◌, ◌-◌,
}
use ai_kv.Text.{Bytes, codes, bytes_eq}
use ai_kv.Text.Utf8.{from_utf8_lossy}
use ai_kv.Text.Number.{print_i64, parse_i64}
use ai_kv.Error.{ok}
use ai_kv.HashMap
use ai_kv.Resp.{integer, bulk_string}
use ai_kv.Storage.Value.{new_set, is_expired, as_hash, as_set}
use ai_kv.Storage.Adapter.{find}
use ai_kv.Storage.View.{view, InRange}
use ai_kv.Command.Index.{i64_arg}
use ai_kv.Command.Replies.{flag}
use ai_kv.Command.Hashes.{hash_or_new, hset, hdel, hget, hlen, value_reply}
use ai_kv.Command.Hashes.Counters.{current_value, hincrby}
use ai_kv.Command.Hashes.Fields.{hset_contract}
use ai_kv.Command.Strings.Many.{or_else, last_value}
use ai_kv.Command.Hashes.Removal.{hdel_contract, named_in}
use ai_kv.Command.Hashes.Sums.{hincrby_overflow}
use ai_kv.Command.Sets.{
  HashSet, set_or_new, sadd, scard, sismember, sunion, sinter, sdiff, members_reply,
}
use ai_kv.Command.Sets.Algebra.{has, some_has, all_have, set_algebra}
use ai_kv.Command.Sets.Members.{listed_in, sadd_contract}
use ai_kv.Command.Sets.Transfer.{smove, smove_contract}
use ai_kv.Tests.{elem_x, elem_y, two}
use ai_kv.Tests.Kinds.{hash_key, set_key, other_key, fields, members, others, kinds}

kinds-InRange : InRange kinds 0
kinds-InRange = omega arith

hash_shown : hash_or_new (view 5 kinds 0 (from_utf8_lossy hash_key)) ≡ ok fields
unfolding hash_or_new view find HashMap.get bytes_eq is_expired from_utf8_lossy as_hash
hash_shown = refl

members_shown : set_or_new (view 5 kinds 0 (from_utf8_lossy set_key)) ≡ ok members
unfolding set_or_new view find HashMap.get bytes_eq is_expired from_utf8_lossy as_set
members_shown = refl

others_shown : set_or_new (view 5 kinds 0 (from_utf8_lossy other_key)) ≡ ok others
unfolding set_or_new view find HashMap.get bytes_eq is_expired from_utf8_lossy as_set
others_shown = refl

source_shown : view 5 kinds 0 (from_utf8_lossy set_key) ≡ some (new_set members)
unfolding view find HashMap.get bytes_eq is_expired from_utf8_lossy
source_shown = refl

hset_example :
    (new : ℕ) × ((hset 5 (hash_key ∷ elem_y ∷ two ∷ []) 0 kinds).0 ≡ ok (integer (as_i32 new)))
    × ((hlen 5 (hash_key ∷ []) 0 (hset 5 (hash_key ∷ elem_y ∷ two ∷ []) 0 kinds).1).0
        ≡ ok (integer (pos (length fields + new))))
    × ((hget 5 (hash_key ∷ elem_y ∷ []) 0 (hset 5 (hash_key ∷ elem_y ∷ two ∷ []) 0 kinds).1).0
        ≡ ok (
            value_reply (
              or_else
                (last_value (from_utf8_lossy elem_y) (elem_y ∷ two ∷ []))
                (HashMap.get fields (from_utf8_lossy elem_y)))))
hset_example =
    hset_contract 5 hash_key elem_y two [] 0 kinds fields elem_y kinds-InRange hash_shown refl

hdel_example :
    (gone left : ℕ) × ((hdel 5 (hash_key ∷ elem_x ∷ []) 0 kinds).0 ≡ ok (integer (as_i32 gone)))
    × ((hlen 5 (hash_key ∷ []) 0 (hdel 5 (hash_key ∷ elem_x ∷ []) 0 kinds).1).0
        ≡ ok (integer (pos left)))
    × (left + gone ≡ length fields)
    × ((hget 5 (hash_key ∷ elem_x ∷ []) 0 (hdel 5 (hash_key ∷ elem_x ∷ []) 0 kinds).1).0
        ≡ ok (
            value_reply (
              if named_in (from_utf8_lossy elem_x) (elem_x ∷ [])
              then none
              else HashMap.get fields (from_utf8_lossy elem_x))))
unfolding HashMap.get
hdel_example =
    hdel_contract 5 hash_key elem_x [] 0 kinds fields elem_x kinds-InRange hash_shown (refl, tt)

field_number : current_value (HashMap.get fields (from_utf8_lossy elem_x)) ≡ ok (pos 2)
unfolding current_value HashMap.get bytes_eq from_utf8_lossy parse_i64 i64_arg
field_number = refl

three_number : i64_arg "invalid increment" (b'3' ∷ []) ≡ ok (pos 3)
unfolding i64_arg from_utf8_lossy parse_i64
three_number = refl

-- 2^63 - 1
abbrev far_number : Bytes
far_number = codes "9223372036854775807"

far_reads : i64_arg "invalid increment" far_number ≡ ok (pos 9223372036854775807)
unfolding i64_arg from_utf8_lossy parse_i64 codes
far_reads = refl

hincrby_overflow_example :
    ((hincrby 5 (hash_key ∷ elem_x ∷ far_number ∷ []) 0 kinds).0
      ≡ ok (integer (negsuc (u64_mod - 9223372036854775809 - 1))))
    × ((hget 5
          (hash_key ∷ elem_x ∷ [])
          0
          (hincrby 5 (hash_key ∷ elem_x ∷ far_number ∷ []) 0 kinds).1).0
        ≡ ok (bulk_string (some (print_i64 (negsuc (u64_mod - 9223372036854775809 - 1))))))
hincrby_overflow_example =
    hincrby_overflow 5 hash_key elem_x far_number 0 kinds fields (pos 2) (pos 9223372036854775807)
      9223372036854775809 kinds-InRange hash_shown field_number far_reads refl (omega arith)

set_algebra_example :
    (u : HashSet) × (i : HashSet) × (d : HashSet) × (sunion 5 (set_key ∷ other_key ∷ []) 0 kinds
      ≡ (ok (members_reply u), kinds))
    × (sinter 5 (set_key ∷ other_key ∷ []) 0 kinds ≡ (ok (members_reply i), kinds))
    × (sdiff 5 (set_key ∷ other_key ∷ []) 0 kinds ≡ (ok (members_reply d), kinds))
    × (has u elem_x ≡ some_has elem_x (members ∷ others ∷ []))
    × (has i elem_x ≡ all_have elem_x (members ∷ others ∷ []))
    × (has d elem_x ≡ (has members elem_x && not (some_has elem_x (others ∷ []))))
set_algebra_example =
    set_algebra 5 set_key (other_key ∷ []) 0 kinds members (others ∷ []) elem_x
      (members_shown, (others_shown, tt))

sadd_example :
    (new : ℕ) × ((sadd 5 (other_key ∷ elem_x ∷ elem_y ∷ []) 0 kinds).0 ≡ ok (integer (as_i32 new)))
    × ((scard 5 (other_key ∷ []) 0 (sadd 5 (other_key ∷ elem_x ∷ elem_y ∷ []) 0 kinds).1).0
        ≡ ok (integer (pos (length others + new))))
    × ((sismember 5
          (other_key ∷ two ∷ [])
          0
          (sadd 5 (other_key ∷ elem_x ∷ elem_y ∷ []) 0 kinds).1).0
        ≡ ok (flag (listed_in two (elem_x ∷ elem_y ∷ []) || has others two)))
sadd_example =
    sadd_contract 5 other_key elem_x (elem_y ∷ []) 0 kinds others two kinds-InRange others_shown

smove_example :
    ((smove 5 (set_key ∷ other_key ∷ elem_x ∷ []) 0 kinds).0 ≡ ok (integer (pos 1)))
    × ((sismember 5
          (set_key ∷ elem_y ∷ [])
          0
          (smove 5 (set_key ∷ other_key ∷ elem_x ∷ []) 0 kinds).1).0
        ≡ ok (flag (not (bytes_eq elem_x elem_y) && has members elem_y)))
    × ((sismember 5
          (other_key ∷ elem_y ∷ [])
          0
          (smove 5 (set_key ∷ other_key ∷ elem_x ∷ []) 0 kinds).1).0
        ≡ ok (flag (bytes_eq elem_x elem_y || has others elem_y)))
unfolding as_set has HashMap.get bytes_eq from_utf8_lossy
smove_example =
    smove_contract 5 set_key other_key elem_x 0 kinds (new_set members) members others elem_y
      kinds-InRange source_shown refl refl others_shown refl
