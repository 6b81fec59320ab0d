-- ===== src/Storage/Value.antt =====
-- src/storage/memory_adapter.rs: the values that the storage keeps.
-- A score, an `f64`, is kept by its bit pattern: the storage only copies it. A `HashSet` is the list
-- of its members.
use ai_kv.Base.{ℕ, String, Bool, false, Option, none, some, List, [], ◌∷◌, map, leb}
use ai_kv.Text.{Bytes}
use ai_kv.Error.{Result, ok, err, wrong_type, literal, AikvError}
use ai_kv.HashMap
use ai_kv.HashMap.{HashMap}

pub data ValueType : Type 0 where
  string : Bytes → ValueType
  list : List Bytes → ValueType
  hash : HashMap Bytes → ValueType
  set : HashMap (Unit {0}) → ValueType
  zset : HashMap ℕ → ValueType

pub record StoredValue : Type 0 where
  pub value : ValueType
  pub expires_at : Option ℕ

pub data SerializableValueType : Type 0 where
  string : Bytes → SerializableValueType
  list : List Bytes → SerializableValueType
  hash : List (Bytes × Bytes) → SerializableValueType
  set : List Bytes → SerializableValueType
  zset : List (Bytes × ℕ) → SerializableValueType

pub record SerializableStoredValue : Type 0 where
  pub value : SerializableValueType
  pub expires_at : Option ℕ

unfoldable pub serializable_value : ValueType → SerializableValueType
serializable_value (ValueType.string b) = SerializableValueType.string b
serializable_value (ValueType.list l) = SerializableValueType.list l
serializable_value (ValueType.hash h) = SerializableValueType.hash h
serializable_value (ValueType.set m) = SerializableValueType.set (HashMap.keys m)
serializable_value (ValueType.zset z) = SerializableValueType.zset z

unfoldable pub to_serializable : StoredValue → SerializableStoredValue
unfolding serializable_value
to_serializable v = record { value = serializable_value v.value; expires_at = v.expires_at }

-- `collect` into a map inserts the pairs one by one.
unfoldable pub collect {ℓ} : {V : Type ℓ} → HashMap V → List (Bytes × V) → HashMap V
collect m [] = m
collect m ((k, v) ∷ l) = collect (HashMap.insert m k v) l

unfoldable pub value_of_serializable : SerializableValueType → ValueType
unfolding collect
value_of_serializable (SerializableValueType.string b) = ValueType.string b
value_of_serializable (SerializableValueType.list l) = ValueType.list l
value_of_serializable (SerializableValueType.hash h) = ValueType.hash (collect [] h)
value_of_serializable (SerializableValueType.set l) =
    ValueType.set (collect [] (map (λ k. (k, tt)) l))
value_of_serializable (SerializableValueType.zset z) = ValueType.zset (collect [] z)

unfoldable pub from_serializable : SerializableStoredValue → StoredValue
unfolding value_of_serializable
from_serializable v = record { value = value_of_serializable v.value; expires_at = v.expires_at }

abbrev pub new_string : Bytes → StoredValue
new_string b = record { value = ValueType.string b; expires_at = none }

abbrev pub new_list : List Bytes → StoredValue
new_list l = record { value = ValueType.list l; expires_at = none }

abbrev pub new_hash : HashMap Bytes → StoredValue
new_hash h = record { value = ValueType.hash h; expires_at = none }

abbrev pub new_set : HashMap (Unit {0}) → StoredValue
new_set m = record { value = ValueType.set m; expires_at = none }

abbrev pub new_zset : HashMap ℕ → StoredValue
new_zset z = record { value = ValueType.zset z; expires_at = none }

abbrev pub with_expiration : ValueType → ℕ → StoredValue
with_expiration v t = record { value = v; expires_at = some t }

-- `now` is the clock, in milliseconds.
unfoldable pub is_expired : ℕ → StoredValue → Bool
is_expired now v = elim v.expires_at [ none ↦ false | some t ↦ leb t now ]

unfoldable pub get_type_name : StoredValue → String
get_type_name v = elim v.value [
  | ValueType.string _ ↦ "string"
  | ValueType.list _ ↦ "list"
  | ValueType.hash _ ↦ "hash"
  | ValueType.set _ ↦ "set"
  | ValueType.zset _ ↦ "zset"
]

abbrev pub wrong_kind : AikvError
wrong_kind = wrong_type (literal "Operation against a key holding the wrong kind of value")

as_string_value : ValueType → Result Bytes
as_string_value (ValueType.string b) = ok b
as_string_value _ = err wrong_kind

unfoldable pub as_string : StoredValue → Result Bytes
unfolding as_string_value
as_string v = as_string_value v.value

as_list_value : ValueType → Result (List Bytes)
as_list_value (ValueType.list l) = ok l
as_list_value _ = err wrong_kind

unfoldable pub as_list : StoredValue → Result (List Bytes)
unfolding as_list_value
as_list v = as_list_value v.value

as_hash_value : ValueType → Result (HashMap Bytes)
as_hash_value (ValueType.hash h) = ok h
as_hash_value _ = err wrong_kind

unfoldable pub as_hash : StoredValue → Result (HashMap Bytes)
unfolding as_hash_value
as_hash v = as_hash_value v.value

as_set_value : ValueType → Result (HashMap (Unit {0}))
as_set_value (ValueType.set m) = ok m
as_set_value _ = err wrong_kind

unfoldable pub as_set : StoredValue → Result (HashMap (Unit {0}))
unfolding as_set_value
as_set v = as_set_value v.value

as_zset_value : ValueType → Result (HashMap ℕ)
as_zset_value (ValueType.zset z) = ok z
as_zset_value _ = err wrong_kind

unfoldable pub as_zset : StoredValue → Result (HashMap ℕ)
unfolding as_zset_value
as_zset v = as_zset_value v.value

unfoldable pub set_expiration : StoredValue → Option ℕ → StoredValue
set_expiration v t = record v { expires_at = t }
