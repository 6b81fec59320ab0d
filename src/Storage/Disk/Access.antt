-- ===== src/Storage/Disk/Access.antt =====
-- The databases as maps from keys to bytes, and each call of them by what it reads and leaves.
use ai_kv.Base.{
  ℕ, ◌≡◌, refl, ap, false, Option, none, some, length, length-append, get_elem?, set,
  get_elem?-set_self, length_of_get_elem?, arith, String, Bool-cases, inl, inr, if◌then◌else◌,
}
use ai_kv.Text.{Bytes, bytes_eq, bytes_eq_iff, codes}
use ai_kv.Error.{ok}
use ai_kv.Storage.Codec.{coded}
use ai_kv.Storage.Disk.{
  Db, Disk, read, put, remove, check_index, mapped, is_expired, has_passed, time_of, expiration_key,
  expiration_prefix,
}

-- What is relied on: no call fails, and a database is a map.
pub record IsMap (db : Db) : Type 0 where
  pub look : db.Data → Bytes → Option Bytes
  pub get_look : (d : db.Data) (k : Bytes) → db.get d k ≡ coded (look d k)
  pub put_works : (k v : Bytes) (d : db.Data) → (db.put k v d).0 ≡ coded tt
  pub look-put :
      (k v : Bytes) (d : db.Data) (j : Bytes)
      → look (db.put k v d).1 j ≡ (if bytes_eq k j then some v else look d j)
  pub delete_works : (k : Bytes) (d : db.Data) → (db.delete k d).0 ≡ coded tt
  pub look-delete :
      (k : Bytes) (d : db.Data) (j : Bytes)
      → look (db.delete k d).1 j ≡ (if bytes_eq k j then none else look d j)

expiration_key-ne : (key : Bytes) → bytes_eq (expiration_key key) key ≡ false
unfolding expiration_key codes
expiration_key-ne key = elim (Bool-cases (bytes_eq (expiration_key key) key)) [
  | inl e ↦
      let same = ap length ((bytes_eq_iff (expiration_key key) key).0 e) in
      absurd (omega (arith, same, length-append expiration_prefix key))
  | inr e ↦ e
]

pub key-ne-expiration_key : (key : Bytes) → bytes_eq key (expiration_key key) ≡ false
key-ne-expiration_key key = ground (
  arith,
  expiration_key-ne key,
  bytes_eq_iff key (expiration_key key),
  bytes_eq_iff (expiration_key key) key,
)

module _ (db : Db) (m : IsMap db) (i : ℕ) (s : Disk db) (d : db.Data)
    (there : get_elem? s i ≡ some d) where
  pub check_index_lem : check_index db i s ≡ (ok tt, s)
  unfolding check_index
  check_index_lem = ground (arith, length_of_get_elem? s i d there)

  pub read_lem : (message : String) (key : Bytes) → read db i message key s ≡ (ok (m.look d key), s)
  unfolding read mapped
  read_lem message key = rw (there, m.get_look d key) refl

  pub put_lem :
      (message : String) (k v : Bytes) → put db i message k v s ≡ (ok tt, set s i (db.put k v d).1)
  unfolding put mapped
  put_lem message k v = rw (there, m.put_works k v d) refl

  pub remove_lem :
      (message : String) (k : Bytes) → remove db i message k s ≡ (ok tt, set s i (db.delete k d).1)
  unfolding remove mapped
  remove_lem message k = rw (there, m.delete_works k d) refl

  pub there-set : (d' : db.Data) → get_elem? (set s i d') i ≡ some d'
  there-set d' = get_elem?-set_self s i d' (length_of_get_elem? s i d there)

  -- The time that is stored for a key.
  abbrev pub stored_time : Bytes → Option ℕ
  stored_time key = time_of (m.look d (expiration_key key))

  pub is_expired_lem :
      (now : ℕ) (key : Bytes)
      → is_expired db now i key s ≡ (ok (has_passed now (stored_time key)), s)
  unfolding is_expired
  is_expired_lem now key = rw (read_lem "Failed to get expiration: " (expiration_key key)) refl
