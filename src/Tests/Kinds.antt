-- ===== src/Tests/Kinds.antt =====
-- A small storage with a hash, two sets and a sorted set, and instances of what the model takes as
-- arguments: floats, an encoding and a database of the persistent adapter.
use ai_kv.Base.{false, ℕ, ◌+◌, ◌≡◌, refl, arith, Option, none, some, List, [], ◌∷◌, leb, ltb}
use ai_kv.Text.{Bytes}
use ai_kv.Text.Number.{parse_u64, print_nat}
use ai_kv.HashMap
use ai_kv.HashMap.{HashMap}
use ai_kv.HashMap.Laws.{get-insert, get-remove}
use ai_kv.Storage.Value.{
  SerializableStoredValue, new_hash, new_set, new_zset, SerializableValueType, string, list, hash,
  set, zset,
}
use ai_kv.Storage.Codec.{Codec, Coded, coded, refused, Reads}
use ai_kv.Storage.Adapter.{StorageAdapter}
use ai_kv.Storage.Disk.{Db, Write, put_entry, delete_entry}
use ai_kv.Storage.Disk.Access.{IsMap}
use ai_kv.Command.Floats.{F64}
use ai_kv.Command.ZSets.Order.{IsOrder}
use ai_kv.Tests.{elem_x, elem_y, two}

abbrev pub hash_key : Bytes
hash_key = b'h' ∷ []

abbrev pub set_key : Bytes
set_key = b'm' ∷ []

abbrev pub other_key : Bytes
other_key = b'o' ∷ []

abbrev pub ranked_key : Bytes
ranked_key = b'z' ∷ []

abbrev pub fields : HashMap Bytes
fields = (elem_x, two) ∷ []

abbrev pub members : HashMap (Unit {0})
members = (elem_x, tt) ∷ (elem_y, tt) ∷ []

abbrev pub others : HashMap (Unit {0})
others = (elem_y, tt) ∷ []

abbrev pub scores : HashMap ℕ
scores = (elem_x, 9) ∷ (elem_y, 4) ∷ []

abbrev pub kinds : StorageAdapter
kinds = record {
  databases =
      ((hash_key, new_hash fields)
        ∷ (set_key, new_set members)
        ∷ (other_key, new_set others)
        ∷ (ranked_key, new_zset scores)
        ∷ [])
      ∷ [];
}

-- Numbers in place of floats.
abbrev pub floats : F64
floats = record {
  parse = parse_u64;
  to_string = print_nat;
  zero_score = 0;
  add = λ x y. x + y;
  le = leb;
  lt = ltb;
  is_infinite = λ _. false;
}

pub floats-IsOrder : IsOrder floats
floats-IsOrder = record { total = λ x y _ _. ground arith; trans = λ x y z h k. ground arith }

-- An encoding that takes strings with no time.
unfoldable pub plain : SerializableValueType → Option ℕ → Coded Bytes
plain (string b) none = coded b
plain _ _ = refused []

abbrev pub plain_string : Bytes → SerializableStoredValue
plain_string b = record { value = string b; expires_at = none }

abbrev pub codec : Codec
codec = record {
  serialize = λ v. plain v.value v.expires_at;
  deserialize = λ bytes. coded (plain_string bytes);
}

plain_reads :
    (x : SerializableValueType) (t : Option ℕ) (bytes : Bytes)
    → plain x t ≡ coded bytes
    → coded (plain_string bytes) ≡ coded (record { value = x; expires_at = t })
unfolding plain
plain_reads (string b) none bytes h = cc
plain_reads (string b) (some t) bytes h = cc
plain_reads (list l) t bytes h = cc
plain_reads (hash l) t bytes h = cc
plain_reads (set l) t bytes h = cc
plain_reads (zset l) t bytes h = cc

pub codec-Reads : Reads codec
codec-Reads v bytes h = plain_reads v.value v.expires_at bytes h

unfoldable pub apply_writes : List Write → HashMap Bytes → HashMap Bytes
apply_writes [] d = d
apply_writes (put_entry k v ∷ ws) d = apply_writes ws (HashMap.insert d k v)
apply_writes (delete_entry k ∷ ws) d = apply_writes ws (HashMap.remove d k)

-- A database as an association list.
abbrev pub db : Db
db = record {
  Data = HashMap Bytes;
  get = λ d k. coded (HashMap.get d k);
  put = λ k v d. (coded tt, HashMap.insert d k v);
  delete = λ k d. (coded tt, HashMap.remove d k);
  write = λ ws d. (coded tt, apply_writes ws d);
  keys = HashMap.keys;
}

unfoldable pub db-IsMap : IsMap db
db-IsMap = record {
  look = HashMap.get;
  get_look = λ d k. refl;
  put_works = λ k v d. refl;
  look-put = λ k v d j. get-insert d k j v;
  delete_works = λ k d. refl;
  look-delete = λ k d j. get-remove d k j;
}
