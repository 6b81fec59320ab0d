-- ===== src/Cluster/Redirection.antt =====
-- src/cluster/commands.rs: hash tags, and what a redirection promises a client.
use ai_kv.Base.{
  sym, ℕ, ◌≡◌, refl, true, false, Bool-cases, inl, inr, Option, none, some, List, [], ◌∷◌, ◌++◌,
  ◌==◌, arith, get_elem?,
}
use ai_kv.Text.{Bytes}
use ai_kv.Error.{Result, ok, err, moved}
use ai_kv.Cluster.{
  ClusterMeta, GroupMeta, contains, entry, is_node, split_at, tag_or, closing, extract_hash_tag,
  leader_address, group_missing, redirected, owned_by, assigned, check_slot_ownership, owner_of,
  assigned_owner, get_slot_owner, key_to_slot_with_hash_tag, in_slot, check_keys_slot,
}

split_at_first :
    (b : ℕ) (front back : Bytes)
    → contains front b ≡ false
    → split_at b (front ++ b ∷ back) ≡ some (front, back)
unfolding split_at contains
split_at_first b [] back h = ground arith
split_at_first b (c ∷ front) back h = rw (split_at_first b front back (ground arith)) (ground arith)

-- The slot of a key that has a first `{`, behind it a text without `}` that is not empty, and then a
-- `}`, is the slot of this text, whatever stands in front and behind.
pub key_to_slot_with_hash_tag-tagged :
    (key_to_slot : Bytes → ℕ) (front : Bytes) (c : ℕ) (tag back : Bytes)
    → contains front b'{' ≡ false
    → contains (c ∷ tag) b'}' ≡ false
    → key_to_slot_with_hash_tag key_to_slot (front ++ b'{' ∷ (c ∷ tag ++ b'}' ∷ back))
      ≡ key_to_slot (c ∷ tag)
unfolding key_to_slot_with_hash_tag extract_hash_tag closing tag_or
key_to_slot_with_hash_tag-tagged key_to_slot front c tag back h k =
    rw (split_at_first b'{' front (c ∷ tag ++ b'}' ∷ back) h, split_at_first b'}' (c ∷ tag) back k)
      refl

leader_address-leader :
    (meta : ClusterMeta) (leader : Option ℕ) (l : ℕ) (addr : Bytes)
    → leader_address meta leader ≡ some (l, addr)
    → leader ≡ some l
unfolding leader_address
leader_address-leader meta none l addr h = cc
leader_address-leader meta (some leader) l addr h = ground arith

is_node-some : (leader : Option ℕ) (l : ℕ) → leader ≡ some l → is_node leader l ≡ true
unfolding is_node
is_node-some none l h = cc
is_node-some (some m) l h = ground arith

-- The owner of a redirection, under which the slot is served.
abbrev Found : (ℕ → Result (Unit {0})) → Option (ℕ × Bytes) → ℕ → ℕ → Bytes → Type 0
Found at owner slot s addr = (l : ℕ) × (s ≡ slot) × (owner ≡ some (l, addr)) × (at l ≡ ok tt)

module _ (meta : ClusterMeta) (node_id slot s : ℕ) (addr : Bytes) where
  redirected-Found :
      (group : ℕ) (g : GroupMeta) (o : Option (ℕ × Bytes))
      → leader_address meta g.leader ≡ o
      → redirected slot group o ≡ err (moved s addr)
      → Found (λ n. owned_by n meta slot group (some g)) (leader_address meta g.leader) slot s addr
  unfolding redirected group_missing owned_by
  redirected-Found group g none e h = cc
  redirected-Found group g (some (l, a)) e h =
      let leads = is_node-some g.leader l (leader_address-leader meta g.leader l a e) in
      (l, cc, cc, rw leads refl)

  owned_by-Found :
      (group : ℕ) (o : Option GroupMeta)
      → owned_by node_id meta slot group o ≡ err (moved s addr)
      → Found (λ n. owned_by n meta slot group o) (owner_of meta o) slot s addr
  unfolding owned_by owner_of group_missing
  owned_by-Found group none h = cc
  owned_by-Found group (some g) h =
      redirected-Found group g (leader_address meta g.leader) refl (ground arith)

  assigned-Found :
      (o : Option ℕ)
      → assigned node_id meta slot o ≡ err (moved s addr)
      → Found (λ n. assigned n meta slot o) (assigned_owner meta o) slot s addr
  unfolding assigned assigned_owner
  assigned-Found none h = cc
  assigned-Found (some group) h = elim (Bool-cases (group == 0)) [
    | inl e ↦ cc
    | inr e ↦
        let (l, same, owner, serves) =
          owned_by-Found group (entry meta.groups group) (ground arith) in
        (l, same, ground arith, ground arith)
  ]

-- Every key has the slot.
abbrev pub AllIn : (Bytes → ℕ) → ℕ → List Bytes → Type 0
AllIn key_to_slot slot [] = Unit
AllIn key_to_slot slot (key ∷ keys) =
    (key_to_slot_with_hash_tag key_to_slot key ≡ slot) × AllIn key_to_slot slot keys

in_slot-AllIn :
    (key_to_slot : Bytes → ℕ) (slot : ℕ) (keys : List Bytes)
    → in_slot key_to_slot slot keys ≡ true
    → AllIn key_to_slot slot keys
unfolding in_slot
in_slot-AllIn key_to_slot slot [] h = tt
in_slot-AllIn key_to_slot slot (key ∷ keys) h =
    (ground arith, in_slot-AllIn key_to_slot slot keys (ground arith))

-- A redirection of a command with keys: all keys have the slot that it names, the address is that of the
-- owner of this slot, and the owner, asked for the same keys with the same state of the cluster, serves
-- them.
pub check_keys_slot-redirect :
    (key_to_slot : Bytes → ℕ) (node_id : ℕ) (meta : ClusterMeta) (keys : List Bytes) (s : ℕ)
    (addr : Bytes)
    → check_keys_slot key_to_slot node_id meta keys ≡ err (moved s addr)
    → AllIn key_to_slot s keys
      × (l : ℕ) × (get_slot_owner meta s ≡ some (l, addr))
      × (check_keys_slot key_to_slot l meta keys ≡ ok tt)
unfolding check_keys_slot check_slot_ownership get_slot_owner in_slot
check_keys_slot-redirect key_to_slot node_id meta [] s addr h = cc
check_keys_slot-redirect key_to_slot node_id meta (key ∷ keys) s addr h =
    let slot = key_to_slot_with_hash_tag key_to_slot key in
    elim (Bool-cases (in_slot key_to_slot slot keys)) [
      | inl e ↦
          let (l, same, owner, serves) =
            assigned-Found meta node_id slot s addr (get_elem? meta.slots slot) (ground arith) in
          ((sym same, in_slot-AllIn key_to_slot s keys (ground arith)), l, cc, ground arith)
      | inr e ↦ cc
    ]
