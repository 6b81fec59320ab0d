-- ===== src/Command/Scripts/Together.antt =====
-- src/command/script.rs, `commit`: the two lists of operations it hands to the storage.
use ai_kv.Base.{
  ◌≡◌, refl, true, false, Bool-cases, inl, inr, Option, none, some, List, [], ◌∷◌, arith,
  if◌then◌else◌,
}
use ai_kv.Text.{Bytes, bytes_eq, bytes_eq_iff}
use ai_kv.HashMap
use ai_kv.HashMap.{HashMap}
use ai_kv.HashMap.Laws.{Lacks, IsDistinct}
use ai_kv.Storage.Value.{StoredValue, new_list, new_hash, new_set, new_zset}
use ai_kv.Storage.Batch.{last_op, left_by}
use ai_kv.Command.Scripts.{
  ExtendedBatchOp, set_string, set_list, set_hash, set_set, set_zset, drop_key, buffered_value,
  string_ops, complex_ops,
}

-- The value that an operation on its own brings, unless a batch does.
abbrev pub complex_value : ExtendedBatchOp → Option StoredValue
complex_value (set_list l) = some (new_list l)
complex_value (set_hash h) = some (new_hash h)
complex_value (set_set m) = some (new_set m)
complex_value (set_zset z) = some (new_zset z)
complex_value _ = none

abbrev pub last_complex : Bytes → List (Bytes × ExtendedBatchOp) → Option StoredValue
last_complex k [] = none
last_complex k ((j, op) ∷ rest) = elim (last_complex k rest) [
  | some v ↦ some v
  | none ↦ if bytes_eq j k then complex_value op else none
]

abbrev pub over : Option StoredValue → Option StoredValue → Option StoredValue
over none old = old
over (some v) old = some v

string_ops-Lacks :
    (k : Bytes) (b : HashMap ExtendedBatchOp) → Lacks b k → last_op k (string_ops b) ≡ none
unfolding string_ops HashMap.get
string_ops-Lacks k [] h = refl
string_ops-Lacks k ((j, set_string v) ∷ b) h = ground (arith, string_ops-Lacks k b)
string_ops-Lacks k ((j, set_list v) ∷ b) h = ground (arith, string_ops-Lacks k b)
string_ops-Lacks k ((j, set_hash v) ∷ b) h = ground (arith, string_ops-Lacks k b)
string_ops-Lacks k ((j, set_set v) ∷ b) h = ground (arith, string_ops-Lacks k b)
string_ops-Lacks k ((j, set_zset v) ∷ b) h = ground (arith, string_ops-Lacks k b)
string_ops-Lacks k ((j, drop_key) ∷ b) h = ground (arith, string_ops-Lacks k b)

complex_ops-Lacks :
    (k : Bytes) (b : HashMap ExtendedBatchOp) → Lacks b k → last_complex k (complex_ops b) ≡ none
unfolding complex_ops HashMap.get
complex_ops-Lacks k [] h = refl
complex_ops-Lacks k ((j, set_string v) ∷ b) h = ground (arith, complex_ops-Lacks k b)
complex_ops-Lacks k ((j, set_list v) ∷ b) h = ground (arith, complex_ops-Lacks k b)
complex_ops-Lacks k ((j, set_hash v) ∷ b) h = ground (arith, complex_ops-Lacks k b)
complex_ops-Lacks k ((j, set_set v) ∷ b) h = ground (arith, complex_ops-Lacks k b)
complex_ops-Lacks k ((j, set_zset v) ∷ b) h = ground (arith, complex_ops-Lacks k b)
complex_ops-Lacks k ((j, drop_key) ∷ b) h = ground (arith, complex_ops-Lacks k b)

-- What the buffer leaves at a key.
abbrev pub left_at : Option ExtendedBatchOp → Option StoredValue → Option StoredValue
left_at none old = old
left_at (some op) old = buffered_value op

-- The two lists together do what the buffer says.
abbrev pub Together : HashMap ExtendedBatchOp → Type 0
Together b =
    (k : Bytes) (old : Option StoredValue)
    → over (last_complex k (complex_ops b)) (left_by (last_op k (string_ops b)) old)
      ≡ left_at (HashMap.get b k) old

Together-first :
    (j : Bytes) (op : ExtendedBatchOp) (b : HashMap ExtendedBatchOp)
    → Lacks b j
    → Together b
    → Together ((j, op) ∷ b)
unfolding string_ops complex_ops HashMap.get buffered_value
Together-first j op b lacks h k old = elim (Bool-cases (bytes_eq j k)) [
  | inl e ↦
      let missing : Lacks b k = cc (lacks, (bytes_eq_iff j k).0 e) in
      at_key op (string_ops-Lacks k b missing) (complex_ops-Lacks k b missing) e
  | inr e ↦ elsewhere op e
]
  where
    at_key :
        (op : ExtendedBatchOp)
        → last_op k (string_ops b) ≡ none
        → last_complex k (complex_ops b) ≡ none
        → bytes_eq j k ≡ true
        → over
            (last_complex k (complex_ops ((j, op) ∷ b)))
            (left_by (last_op k (string_ops ((j, op) ∷ b))) old)
          ≡ left_at (HashMap.get ((j, op) ∷ b) k) old
    at_key (set_string v) p q e = rw (p, q, e) refl
    at_key (set_list v) p q e = rw (p, q, e) refl
    at_key (set_hash v) p q e = rw (p, q, e) refl
    at_key (set_set v) p q e = rw (p, q, e) refl
    at_key (set_zset v) p q e = rw (p, q, e) refl
    at_key drop_key p q e = rw (p, q, e) refl

    elsewhere :
        (op : ExtendedBatchOp)
        → bytes_eq j k ≡ false
        → over
            (last_complex k (complex_ops ((j, op) ∷ b)))
            (left_by (last_op k (string_ops ((j, op) ∷ b))) old)
          ≡ left_at (HashMap.get ((j, op) ∷ b) k) old
    elsewhere (set_string v) e = ground (arith, h k old)
    elsewhere (set_list v) e = ground (arith, h k old)
    elsewhere (set_hash v) e = ground (arith, h k old)
    elsewhere (set_set v) e = ground (arith, h k old)
    elsewhere (set_zset v) e = ground (arith, h k old)
    elsewhere drop_key e = ground (arith, h k old)

pub together : (b : HashMap ExtendedBatchOp) → IsDistinct b → Together b
unfolding string_ops complex_ops HashMap.get
together [] h = λ k old. refl
together ((j, op) ∷ b) (lacks, h) = Together-first j op b lacks (together b h)
