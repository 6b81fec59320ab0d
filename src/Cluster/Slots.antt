-- ===== src/Cluster/Slots.antt =====
-- src/cluster/commands.rs: the commands that give slots to groups and take them away. The consensus is the
-- aidb crate's: its calls are an argument, and each of them may fail with a message.
use ai_kv.Base.{
  ℕ, zero, suc, ◌+◌, ◌-◌, ◌%◌, ◌^◌, true, false, ◌||◌, Option, none, some, List, [], ◌∷◌, leb, ltb,
  ◌==◌, String, if◌then◌else◌,
}
use ai_kv.Base.Sort.{sort_by}
use ai_kv.Text.{Bytes}
use ai_kv.Error.{
  Result, ok, err, Message, internal, invalid, with_number, with_numbers, with_text,
  with_number_text, with_numbers_text, between,
}
use ai_kv.Effect.{Effect, give, fail, check, ◌>>=◌, ◌>>◌}
use ai_kv.Resp.{RespValue, ok_reply}
use ai_kv.Storage.Codec.{Coded, coded, refused}
use ai_kv.Cluster.{ClusterMeta, GroupMeta, contains, entry, is_node, total_slots}

-- `MetaRaftNode`. A call returns the state as it then is, also if it fails.
pub record MetaRaft : Type 1 where
  pub State : Type 0
  pub get_cluster_meta : State → ClusterMeta
  pub create_group : ℕ → List ℕ → State → Coded (Unit {0}) × State
  pub update_group_leader : ℕ → ℕ → State → Coded (Unit {0}) × State
  pub update_slots : ℕ → ℕ → ℕ → State → Coded (Unit {0}) × State
  pub update_group_members : ℕ → List ℕ → State → Coded (Unit {0}) × State
  pub add_node : ℕ → Bytes → State → Coded (Unit {0}) × State
  pub remove_node : ℕ → State → Coded (Unit {0}) × State

-- The first group with the node among its replicas.
unfoldable pub group_with : ℕ → List (ℕ × GroupMeta) → Option ℕ
group_with node [] = none
group_with node ((group, g) ∷ rest) =
    if contains g.replicas node then some group else group_with node rest

unfoldable pub validate_slots : List ℕ → Result (Unit {0})
validate_slots [] = ok tt
validate_slots (slot ∷ slots) =
    if leb total_slots slot
    then err (invalid (with_number "Invalid slot: " slot))
    else validate_slots slots

-- The range that is open, the end with it, and the slots behind it; an end of a range that is closed
-- is without it. `u16` sums wrap.
unfoldable pub merge_from : ℕ → ℕ → List ℕ → List (ℕ × ℕ)
merge_from range_start range_end [] = (range_start, (range_end + 1) % 2 ^ 16) ∷ []
merge_from range_start range_end (slot ∷ slots) = elim (slot == (range_end + 1) % 2 ^ 16) [
  | true ↦ merge_from range_start slot slots
  | false ↦ (range_start, (range_end + 1) % 2 ^ 16) ∷ merge_from slot slot slots
]

unfoldable pub merged : List ℕ → List (ℕ × ℕ)
unfolding merge_from
merged [] = []
merged (slot ∷ slots) = merge_from slot slot slots

unfoldable pub slot_ranges : List ℕ → List (ℕ × ℕ)
unfolding merged sort_by
slot_ranges slots = merged (sort_by leb slots)

module _ (raft : MetaRaft) where
  unfoldable pub answered :
      (Bytes → Message) → Coded (Unit {0}) × raft.State → Result (Unit {0}) × raft.State
  answered message (coded a, s) = (ok a, s)
  answered message (refused e, s) = (err (internal (message e)), s)

  unfoldable pub update_slots : (Bytes → Message) → ℕ → ℕ → ℕ → Effect raft.State (Unit {0})
  unfolding answered
  update_slots message start stop group s = answered message (raft.update_slots start stop group s)

  unfoldable pub create_group : String → ℕ → ℕ → Effect raft.State (Unit {0})
  unfolding answered
  create_group message group node s =
      answered (with_text message) (raft.create_group group (node ∷ []) s)

  update_group_leader : ℕ → ℕ → Effect raft.State (Unit {0})
  unfolding answered
  update_group_leader group node s =
      answered (with_text "Failed to set group leader: ") (raft.update_group_leader group node s)

  -- The group of this node, or a new one under the number of the node.
  unfoldable pub own_group : ℕ → Option ℕ → Effect raft.State ℕ
  unfolding create_group
  own_group node none = do create_group "Failed to create group for node: " node node; give node
  own_group node (some group) = give group

  unfoldable pub update_ranges : ℕ → List (ℕ × ℕ) → Effect raft.State (Unit {0})
  unfolding update_slots
  update_ranges group [] = give tt
  update_ranges group ((start, stop) ∷ ranges) = do
    update_slots (with_numbers_text "Failed to assign slots " start (stop - 1)) start stop group
    update_ranges group ranges

  unfoldable pub groups_at : raft.State → List (ℕ × GroupMeta)
  groups_at s = (raft.get_cluster_meta s).groups

  -- The group is found or made before the slots are validated.
  unfoldable pub cluster_addslots : ℕ → List ℕ → Effect raft.State RespValue
  unfolding own_group update_ranges slot_ranges groups_at
  cluster_addslots node_id slots s =
      (do
        group ← own_group node_id (group_with node_id (groups_at s))
        check (validate_slots slots)
        update_ranges group (slot_ranges slots)
        give ok_reply)
        s

  -- A new group of ADDSLOTSRANGE gets its leader as well.
  led_group : ℕ → Option ℕ → Effect raft.State ℕ
  unfolding create_group update_group_leader
  led_group node none = do
    create_group "Failed to create group for node: " node node
    update_group_leader node node
    give node
  led_group node (some group) = give group

  target_node : ℕ → ℕ → List (ℕ × Bytes) → Result ℕ
  target_node node_id zero nodes = ok node_id
  target_node node_id (suc n) nodes = elim (entry nodes (suc n)) [
    | none ↦ err (invalid (between "Target node " (suc n) " not found in cluster"))
    | some _ ↦ ok (suc n)
  ]

  unfoldable pub check_range : ℕ → ℕ → Result (Unit {0})
  check_range start stop =
      if ltb stop start || leb total_slots stop
      then err (invalid (with_numbers "Invalid slot range: " start stop))
      else ok tt

  unfoldable pub cluster_addslotsrange : ℕ → ℕ → ℕ → ℕ → Effect raft.State RespValue
  unfolding led_group target_node check_range update_slots groups_at
  cluster_addslotsrange node_id start stop target_node_id s =
      (do
        node ← check (target_node node_id target_node_id (raft.get_cluster_meta s).nodes)
        group ← led_group node (group_with node (groups_at s))
        check (check_range start stop)
        update_slots (with_numbers_text "Failed to assign slots " start stop) start (stop + 1) group
        give ok_reply)
        s

  -- A slot is checked when its turn comes: the slots before it are taken away.
  unfoldable pub cluster_delslots : List ℕ → Effect raft.State RespValue
  unfolding update_slots
  cluster_delslots [] = give ok_reply
  cluster_delslots (slot ∷ slots) =
      if leb total_slots slot then fail (invalid (with_number "Invalid slot: " slot)) else (do
        update_slots (with_number_text "Failed to delete slot " slot) slot (slot + 1) 0
        cluster_delslots slots)

  unfoldable pub cluster_delslotsrange : ℕ → ℕ → Effect raft.State RespValue
  unfolding check_range update_slots
  cluster_delslotsrange start stop = do
    check (check_range start stop)
    update_slots (with_numbers_text "Failed to delete slots " start stop) start (stop + 1) 0
    give ok_reply

  -- The slots of one group, of those that were there at the start.
  flush_group : ℕ → ℕ → List ℕ → Effect raft.State (Unit {0})
  unfolding update_slots
  flush_group group slot [] = give tt
  flush_group group slot (assigned ∷ rest) =
      if assigned == group
      then (do
        update_slots (with_text "Failed to flush slot: ") (slot % 2 ^ 16) ((slot + 1) % 2 ^ 16) 0
        flush_group group (suc slot) rest)
      else flush_group group (suc slot) rest

  unfoldable pub flush_groups : ℕ → List ℕ → List (ℕ × GroupMeta) → Effect raft.State (Unit {0})
  unfolding flush_group
  flush_groups node_id slots [] = give tt
  flush_groups node_id slots ((group, g) ∷ groups) =
      if is_node g.leader node_id
      then (do flush_group group 0 slots; flush_groups node_id slots groups)
      else flush_groups node_id slots groups

  unfoldable pub cluster_flushslots : ℕ → Effect raft.State RespValue
  unfolding flush_groups groups_at
  cluster_flushslots node_id s =
      (do flush_groups node_id (raft.get_cluster_meta s).slots (groups_at s); give ok_reply) s
