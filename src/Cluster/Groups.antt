-- ===== src/Cluster/Groups.antt =====
-- src/cluster/commands.rs: the commands on nodes and groups, and those that only answer. A node's number is
-- printed in hexadecimal; a message keeps the number.
use ai_kv.Base.{
  ℕ, ◌==◌, not, ◌&&◌, ◌||◌, Option, none, some, List, [], ◌∷◌, ◌++◌, leb, String, pos,
  if◌then◌else◌,
}
use ai_kv.Text.{Bytes, codes}
use ai_kv.Text.Number.{print_nat}
use ai_kv.Error.{
  Result, ok, err, internal, invalid, literal, with_number, with_text, with_number_text,
  with_numbers_text, Message, between,
}
use ai_kv.Effect.{Effect, give, fail, check, ◌>>=◌, ◌>>◌}
use ai_kv.Resp.{RespValue, ok_reply, integer, array, nil}
use ai_kv.Cluster.{
  ClusterMeta, GroupMeta, contains, entry, is_node, total_slots, key_to_slot_with_hash_tag,
}
use ai_kv.Cluster.Slots.{MetaRaft, answered}

-- The first group of the master: by its number, its leader, or one of its replicas.
unfoldable pub group_of_master : ℕ → List (ℕ × GroupMeta) → Option ℕ
group_of_master master [] = none
group_of_master master ((group, g) ∷ rest) =
    if group == master || (is_node g.leader master || contains g.replicas master)
    then some group
    else group_of_master master rest

unfoldable pub with_replica : ℕ → List ℕ → List ℕ
with_replica replica replicas =
    if contains replicas replica then replicas else replicas ++ replica ∷ []

unfoldable pub master_group : ℕ → ClusterMeta → Result (ℕ × GroupMeta)
unfolding group_of_master
master_group master meta = elim (group_of_master master meta.groups) [
  | none ↦ err (internal (between "Master node " master " does not belong to any group"))
  | some group ↦ elim (entry meta.groups group) [
    | none ↦ err (internal (between "Group " group " not found"))
    | some g ↦ ok (group, g)
  ]
]

-- The first group in which the node is a replica and not the leader.
unfoldable pub group_to_lead : ℕ → List (ℕ × GroupMeta) → Option ℕ
group_to_lead node [] = none
group_to_lead node ((group, g) ∷ rest) =
    if contains g.replicas node && not (is_node g.leader node)
    then some group
    else group_to_lead node rest

pub data FailoverMode : Type 0 where
  default force takeover : FailoverMode

failover_failure : FailoverMode → String
failover_failure takeover = "Failed to perform takeover: "
failover_failure _ = "Failed to perform failover: "

module _ (raft : MetaRaft) where
  add_replica : (ℕ → Bytes → Message) → ℕ → ℕ → Effect raft.State RespValue
  unfolding answered master_group with_replica
  add_replica failure replica master s =
      (do
        found ← check (master_group master (raft.get_cluster_meta s))
        λ s.
            answered raft (failure found.0)
              (raft.update_group_members found.0 (with_replica replica found.1.replicas) s)
        give ok_reply)
        s

  unfoldable pub cluster_replicate : ℕ → ℕ → Effect raft.State RespValue
  unfolding add_replica
  cluster_replicate node_id master_id =
      add_replica (with_number_text "Failed to add replica to group ") node_id master_id

  unfoldable pub cluster_add_replication : ℕ → ℕ → Effect raft.State RespValue
  unfolding add_replica
  cluster_add_replication replica_id master_id =
      add_replica (with_numbers_text "Failed to add replica " replica_id) replica_id master_id

  node_or : ℕ → Option ℕ → ℕ
  node_or hashed none = hashed
  node_or hashed (some n) = n

  -- `DefaultHasher` of the address is an argument.
  unfoldable pub cluster_meet : (Bytes → ℕ) → Bytes → ℕ → Option ℕ → Effect raft.State RespValue
  unfolding answered node_or
  cluster_meet hash ip port node_id_opt = do
    let addr = ip ++ (codes ":" ++ print_nat port)
    let node_id = node_or (hash addr) node_id_opt
    λ s. answered raft (with_text "Failed to add node to cluster: ") (raft.add_node node_id addr s)
    give ok_reply

  unfoldable pub cluster_forget : ℕ → Effect raft.State RespValue
  unfolding answered
  cluster_forget node_id = do
    λ s. answered raft (with_text "Failed to remove node: ") (raft.remove_node node_id s)
    give ok_reply

  failover_to : FailoverMode → ℕ → Option ℕ → Effect raft.State RespValue
  unfolding answered failover_failure
  failover_to mode node_id none =
      fail (invalid (literal "This node is not a replica or already a master"))
  failover_to mode node_id (some group) = do
    λ s.
        answered raft (with_text (failover_failure mode)) (raft.update_group_leader group node_id s)
    give ok_reply

  unfoldable pub cluster_failover : ℕ → FailoverMode → Effect raft.State RespValue
  unfolding failover_to group_to_lead
  cluster_failover node_id mode s =
      failover_to mode node_id (group_to_lead node_id (raft.get_cluster_meta s).groups) s

  unfoldable pub cluster_keyslot : (Bytes → ℕ) → Bytes → Effect raft.State RespValue
  cluster_keyslot key_to_slot key = give (integer (pos (key_to_slot_with_hash_tag key_to_slot key)))

  check_slot : ℕ → RespValue → Effect raft.State RespValue
  check_slot slot reply =
      if leb total_slots slot
      then fail (invalid (with_number "Invalid slot: " slot))
      else give reply

  -- No keys are counted or listed.
  unfoldable pub cluster_getkeysinslot : ℕ → ℕ → Effect raft.State RespValue
  unfolding check_slot
  cluster_getkeysinslot slot count = check_slot slot (array nil)

  unfoldable pub cluster_countkeysinslot : ℕ → Effect raft.State RespValue
  unfolding check_slot
  cluster_countkeysinslot slot = check_slot slot (integer (pos 0))
