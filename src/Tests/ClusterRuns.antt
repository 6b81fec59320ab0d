-- ===== src/Tests/ClusterRuns.antt =====
-- A cluster with two nodes, and a consensus of one copy.
use ai_kv.Base.{
  ℕ, zero, suc, ◌+◌, ◌≡◌, refl, ◌∙◌, ◌&&◌, none, some, List, [], ◌∷◌, leb, ltb, arith, get_elem?,
  if◌then◌else◌,
}
use ai_kv.Text.{Bytes, codes}
use ai_kv.Error.{ok, err, moved}
use ai_kv.Resp.{ok_reply}
use ai_kv.Storage.Codec.{coded}
use ai_kv.Cluster.{
  ClusterMeta, contains, entry, is_node, extract_data_address, leader_address, check_slot_ownership,
  get_slot_owner, key_to_slot_with_hash_tag, in_slot, check_keys_slot,
}
use ai_kv.Cluster.Redirection.{AllIn, check_keys_slot-redirect}
use ai_kv.Cluster.Slots.{MetaRaft, group_with, validate_slots, groups_at, cluster_addslots}
use ai_kv.Cluster.Assignment.{given, slot_group, IsRaft, own, cluster_addslots_contract}
use ai_kv.Tests.{elem_x, elem_y}

abbrev meta : ClusterMeta
meta = record {
  slots = 1 ∷ 2 ∷ 0 ∷ 0 ∷ [];
  groups =
      (1, record { leader = some 1; replicas = 1 ∷ [] })
      ∷ (2, record { leader = some 2; replicas = 2 ∷ [] })
      ∷ [];
  nodes = (1, codes "a:6379") ∷ (2, codes "b:50052") ∷ [];
}

-- Every key has slot 1.
abbrev second_slot : Bytes → ℕ
second_slot key = 1

abbrev second_address : Bytes
second_address = extract_data_address (codes "b:50052")

redirected :
    check_keys_slot second_slot 1 meta (elem_x ∷ elem_y ∷ []) ≡ err (moved 1 second_address)
unfolding check_keys_slot check_slot_ownership key_to_slot_with_hash_tag in_slot entry is_node
    leader_address
redirected = refl

check_keys_slot-redirect_example :
    AllIn second_slot 1 (elem_x ∷ elem_y ∷ [])
    × (l : ℕ) × (get_slot_owner meta 1 ≡ some (l, second_address))
    × (check_keys_slot second_slot l meta (elem_x ∷ elem_y ∷ []) ≡ ok tt)
check_keys_slot-redirect_example =
    check_keys_slot-redirect second_slot 1 meta (elem_x ∷ elem_y ∷ []) 1 second_address redirected

assign_range : ℕ → ℕ → ℕ → ℕ → List ℕ → List ℕ
assign_range i a b g [] = []
assign_range i a b g (x ∷ l) = (if leb a i && ltb i b then g else x) ∷ assign_range (suc i) a b g l

get_elem?-assign_range :
    (i a b g : ℕ) (l : List ℕ) (n : ℕ)
    → get_elem? (assign_range i a b g l) n
      ≡ (if leb a (n + i) && ltb (n + i) b then given g (get_elem? l n) else get_elem? l n)
unfolding assign_range
get_elem?-assign_range i a b g [] n = ground arith
get_elem?-assign_range i a b g (x ∷ l) zero = ground arith
get_elem?-assign_range i a b g (x ∷ l) (suc n) =
    get_elem?-assign_range (suc i) a b g l n ∙ ground arith

abbrev raft : MetaRaft
raft = record {
  State = ClusterMeta;
  get_cluster_meta = λ s. s;
  create_group = λ g ns s. (
    coded tt,
    record {
      slots = s.slots;
      groups = (g, record { leader = none; replicas = ns }) ∷ s.groups;
      nodes = s.nodes;
    },
  );
  update_group_leader = λ g n s. (coded tt, s);
  update_group_members = λ g ns s. (coded tt, s);
  add_node = λ n addr s. (coded tt, s);
  remove_node = λ n s. (coded tt, s);
  update_slots = λ a b g s. (
    coded tt,
    record { slots = assign_range 0 a b g s.slots; groups = s.groups; nodes = s.nodes },
  );
}

raft-IsRaft : IsRaft raft
raft-IsRaft = record {
  create_works = λ g ns s. refl;
  slots-create = λ g ns s n. refl;
  update_works = λ a b g s. refl;
  slots-update = λ a b g s n. get_elem?-assign_range 0 a b g s.slots n ∙ ground arith;
}

cluster_addslots_example :
    ((cluster_addslots raft 1 (3 ∷ 2 ∷ []) meta).0 ≡ ok ok_reply)
    × (slot_group raft (cluster_addslots raft 1 (3 ∷ 2 ∷ []) meta).1 3 ≡ (
        if contains (3 ∷ 2 ∷ []) 3
        then given (own 1 (group_with 1 (groups_at raft meta))) (slot_group raft meta 3)
        else slot_group raft meta 3))
unfolding validate_slots
cluster_addslots_example = cluster_addslots_contract raft 1 (3 ∷ 2 ∷ []) meta 3 raft-IsRaft refl
