-- ===== src/Cluster.antt =====
-- src/cluster/commands.rs: the slot of a key, and who serves a slot. The state of the cluster is the
-- aidb crate's: what is read of it is a record, and the hash of a key is an argument.
pub mod Slots
pub mod Groups
pub mod Redirection
pub mod Assignment
use ai_kv.Base.{
  ℕ, zero, suc, ◌+◌, ◌-◌, ◌^◌, Bool, true, false, not, ◌&&◌, ◌||◌, Option, none, some, List, [],
  ◌∷◌, ◌++◌, leb, ltb, ◌==◌, length, take, drop, filter, get_elem?, is_some, String, if◌then◌else◌,
}
use ai_kv.Text.{Bytes, codes}
use ai_kv.Text.Number.{parse_unsigned, print_nat}
use ai_kv.Error.{
  Result, ok, err, AikvError, moved, cross_slot, internal, invalid, with_number, with_numbers,
  between, between_numbers,
}

-- `MetaRaftNode::get_cluster_meta`, as far as it is read: the group of each slot, 0 for none, the
-- groups, and the address of each node.
pub record GroupMeta : Type 0 where
  pub leader : Option ℕ
  pub replicas : List ℕ

pub record ClusterMeta : Type 0 where
  pub slots : List ℕ
  pub groups : List (ℕ × GroupMeta)
  pub nodes : List (ℕ × Bytes)

unfoldable pub entry {ℓ} : {A : Type ℓ} → List (ℕ × A) → ℕ → Option A
entry [] k = none
entry ((j, a) ∷ m) k = if j == k then some a else entry m k

unfoldable pub contains : List ℕ → ℕ → Bool
contains [] x = false
contains (y ∷ l) x = y == x || contains l x

unfoldable pub is_node : Option ℕ → ℕ → Bool
is_node none n = false
is_node (some m) n = m == n

abbrev pub total_slots : ℕ
total_slots = 16384

-- The text in front of a byte and behind it, at its first place.
unfoldable pub split_at : ℕ → Bytes → Option (Bytes × Bytes)
split_at b [] = none
split_at b (c ∷ s) =
    if c == b
    then some ([], s)
    else elim (split_at b s) [ none ↦ none | some (front, back) ↦ some (c ∷ front, back) ]

tag_or : Bytes → Option (Bytes × Bytes) → Bytes
tag_or key none = key
tag_or key (some ([], back)) = key
tag_or key (some (c ∷ tag, back)) = c ∷ tag

closing : Bytes → Option (Bytes × Bytes) → Bytes
unfolding tag_or
closing key none = key
closing key (some (front, rest)) = tag_or key (split_at b'}' rest)

-- What is between the first `{` and the first `}` behind it, unless that is empty.
unfoldable pub extract_hash_tag : Bytes → Bytes
unfolding closing
extract_hash_tag key = closing key (split_at b'{' key)

-- The part behind the last colon, or the whole.
unfoldable pub last_part : Bytes → Bytes
last_part [] = []
last_part (c ∷ s) = elim (split_at b':' (c ∷ s)) [ none ↦ c ∷ s | some _ ↦ last_part s ]

local_address : ℕ → Bytes
local_address port = codes "127.0.0.1:" ++ print_nat port

data_address : Bytes → Option ℕ → Bytes
unfolding local_address
data_address addr none = addr
data_address addr (some port) =
    if leb 50051 port && leb port 50056
    then local_address (6379 + (port - 50051))
    else if leb 6379 port && leb port 6384
    then local_address port
    else addr

unfoldable pub extract_data_address : Bytes → Bytes
unfolding data_address
extract_data_address addr = data_address addr (parse_unsigned (2 ^ 16) (last_part addr))

abbrev pub moved_error : ℕ → Bytes → AikvError
moved_error slot addr = moved slot addr

-- The address of the leader, if a group has one and it is known.
unfoldable pub leader_address : ClusterMeta → Option ℕ → Option (ℕ × Bytes)
leader_address meta none = none
leader_address meta (some leader) = elim (entry meta.nodes leader) [
  | none ↦ none
  | some addr ↦ some (leader, extract_data_address addr)
]

group_missing : ℕ → ℕ → AikvError
group_missing slot group =
    internal
      (between_numbers "CLUSTERDOWN Hash slot " slot " not served (group " group " not found)")

redirected : ℕ → ℕ → Option (ℕ × Bytes) → Result (Unit {0})
unfolding group_missing
redirected slot group none = err (group_missing slot group)
redirected slot group (some (leader, addr)) = err (moved_error slot addr)

module _ (node_id : ℕ) (meta : ClusterMeta) where
  -- A replica redirects to the leader as any other node does.
  owned_by : ℕ → ℕ → Option GroupMeta → Result (Unit {0})
  unfolding redirected group_missing
  owned_by slot group none = err (group_missing slot group)
  owned_by slot group (some g) =
      if is_node g.leader node_id
      then ok tt
      else redirected slot group (leader_address meta g.leader)

  assigned : ℕ → Option ℕ → Result (Unit {0})
  unfolding owned_by
  assigned slot none = err (invalid (with_number "Invalid slot: " slot))
  assigned slot (some group) =
      if group == 0
      then err (internal (between "CLUSTERDOWN Hash slot " slot " not served"))
      else owned_by slot group (entry meta.groups group)

  unfoldable pub check_slot_ownership : ℕ → Result (Unit {0})
  unfolding assigned
  check_slot_ownership slot = assigned slot (get_elem? meta.slots slot)

owner_of : ClusterMeta → Option GroupMeta → Option (ℕ × Bytes)
owner_of meta none = none
owner_of meta (some g) = leader_address meta g.leader

assigned_owner : ClusterMeta → Option ℕ → Option (ℕ × Bytes)
unfolding owner_of
assigned_owner meta none = none
assigned_owner meta (some group) =
    if group == 0 then none else owner_of meta (entry meta.groups group)

unfoldable pub get_slot_owner : ClusterMeta → ℕ → Option (ℕ × Bytes)
unfolding assigned_owner
get_slot_owner meta slot = assigned_owner meta (get_elem? meta.slots slot)

-- Every group that has a slot has a leader.
lacks_leader : ClusterMeta → List (ℕ × GroupMeta) → Result (Unit {0})
lacks_leader meta [] = ok tt
lacks_leader meta ((group, g) ∷ rest) =
    if contains meta.slots group && not (is_some g.leader)
    then err (internal (between "CLUSTERDOWN The cluster is down. Group " group " has no leader"))
    else lacks_leader meta rest

unfoldable pub check_cluster_state : ClusterMeta → Result (Unit {0})
unfolding lacks_leader
check_cluster_state meta =
    let served = length (filter (ltb 0) meta.slots) in
    if served == total_slots
    then lacks_leader meta meta.groups
    else err (
        internal (
          between_numbers "CLUSTERDOWN The cluster is down. Only " served " of " total_slots
            " slots are assigned"))

-- `Router::key_to_slot` of the aidb crate is an argument.
module _ (key_to_slot : Bytes → ℕ) where
  unfoldable pub key_to_slot_with_hash_tag : Bytes → ℕ
  key_to_slot_with_hash_tag key = key_to_slot (extract_hash_tag key)

  unfoldable pub check_key_slot : ℕ → ClusterMeta → Bytes → Result (Unit {0})
  check_key_slot node_id meta key =
      check_slot_ownership node_id meta (key_to_slot_with_hash_tag key)

  unfoldable pub in_slot : ℕ → List Bytes → Bool
  in_slot slot [] = true
  in_slot slot (key ∷ keys) = key_to_slot_with_hash_tag key == slot && in_slot slot keys

  unfoldable pub check_keys_slot : ℕ → ClusterMeta → List Bytes → Result (Unit {0})
  unfolding in_slot
  check_keys_slot node_id meta [] = ok tt
  check_keys_slot node_id meta (key ∷ keys) =
      let first_slot = key_to_slot_with_hash_tag key in
      if in_slot first_slot keys
      then check_slot_ownership node_id meta first_slot
      else err cross_slot
