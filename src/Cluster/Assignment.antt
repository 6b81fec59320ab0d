-- ===== src/Cluster/Assignment.antt =====
-- src/cluster/commands.rs, CLUSTER ADDSLOTS: the ranges cover the slots, and the slots get the group.
use ai_kv.Base.{
  ℕ, ◌+◌, ◌%◌, ◌^◌, ◌<◌, ◌≤◌, ◌≡◌, refl, ◌∙◌, Bool, true, false, Bool-cases, inl, inr, ◌&&◌, ◌||◌,
  Option, none, some, List, [], ◌∷◌, leb, ltb, ◌==◌, arith, get_elem?, if◌then◌else◌,
}
use ai_kv.Base.Sort.{sort_by, insert_by}
use ai_kv.Error.{ok}
use ai_kv.Resp.{ok_reply}
use ai_kv.Storage.Codec.{coded}
use ai_kv.Cluster.{contains, total_slots}
use ai_kv.Cluster.Slots.{
  MetaRaft, group_with, validate_slots, merge_from, merged, slot_ranges, answered, update_slots,
  create_group, own_group, update_ranges, groups_at, cluster_addslots,
}

-- A slot is in one of the ranges.
abbrev pub covered : ℕ → List (ℕ × ℕ) → Bool
covered n [] = false
covered n ((start, stop) ∷ ranges) = (leb start n && ltb n stop) || covered n ranges

contains-insert_by :
    (n x : ℕ) (l : List ℕ) → contains (insert_by leb x l) n ≡ (x == n || contains l n)
unfolding contains insert_by
contains-insert_by n x [] = refl
contains-insert_by n x (y ∷ l) = ground (arith, contains-insert_by n x l)

contains-sort_by : (n : ℕ) (l : List ℕ) → contains (sort_by leb l) n ≡ contains l n
unfolding contains sort_by
contains-sort_by n [] = refl
contains-sort_by n (x ∷ l) =
    contains-insert_by n x (sort_by leb l) ∙ ground (arith, contains-sort_by n l)

-- All slots are below the bound.
abbrev pub Below : List ℕ → Type 0
Below [] = Unit
Below (x ∷ l) = (x < total_slots) × Below l

validate_slots-Below : (l : List ℕ) → validate_slots l ≡ ok tt → Below l
unfolding validate_slots
validate_slots-Below [] h = tt
validate_slots-Below (x ∷ l) h = elim (Bool-cases (leb total_slots x)) [
  | inl e ↦ cc
  | inr e ↦ (ground arith, validate_slots-Below l (ground arith))
]

insert_by-Below : (x : ℕ) (l : List ℕ) → x < total_slots → Below l → Below (insert_by leb x l)
unfolding insert_by
insert_by-Below x [] h b = (h, tt)
insert_by-Below x (y ∷ l) h (b, bs) = elim (Bool-cases (leb x y)) [
  | inl e ↦ rw e (h, (b, bs))
  | inr e ↦ rw e (b, insert_by-Below x l h bs)
]

sort_by-Below : (l : List ℕ) → Below l → Below (sort_by leb l)
unfolding sort_by
sort_by-Below [] b = tt
sort_by-Below (x ∷ l) (b, bs) = insert_by-Below x (sort_by leb l) b (sort_by-Below l bs)

covered-merge_from :
    (n start stop : ℕ) (l : List ℕ)
    → start ≤ stop
    → stop < total_slots
    → Below l
    → covered n (merge_from start stop l) ≡ ((leb start n && leb n stop) || contains l n)
unfolding merge_from contains
covered-merge_from n start stop [] h k b = ground arith
covered-merge_from n start stop (x ∷ l) h k (b, bs) = elim (Bool-cases (x == (stop + 1) % 2 ^ 16)) [
  | inl e ↦ let rest = covered-merge_from n start x l (ground arith) b bs in ground arith
  | inr e ↦ let rest = covered-merge_from n x x l (omega arith) b bs in ground arith
]

covered-merged : (n : ℕ) (m : List ℕ) → Below m → covered n (merged m) ≡ contains m n
unfolding merged contains
covered-merged n [] b = refl
covered-merged n (x ∷ m) (b, bs) =
    let rest = covered-merge_from n x x m (omega arith) b bs in ground arith

-- The ranges that ADDSLOTS makes of slots cover those and no others.
covered-slot_ranges : (n : ℕ) (l : List ℕ) → Below l → covered n (slot_ranges l) ≡ contains l n
unfolding slot_ranges
covered-slot_ranges n l b =
    covered-merged n (sort_by leb l) (sort_by-Below l b) ∙ contains-sort_by n l

-- The group of a slot that is there.
abbrev pub given : ℕ → Option ℕ → Option ℕ
given g none = none
given g (some _) = some g

abbrev pub slot_group : (raft : MetaRaft) → raft.State → ℕ → Option ℕ
slot_group raft s n = get_elem? (raft.get_cluster_meta s).slots n

-- What is relied on: the calls do not fail, a new group leaves the slots, and an update sets those of
-- its range and no others.
pub record IsRaft (raft : MetaRaft) : Type 0 where
  pub create_works :
      (g : ℕ) (ns : List ℕ) (s : raft.State) → (raft.create_group g ns s).0 ≡ coded tt
  pub slots-create :
      (g : ℕ) (ns : List ℕ) (s : raft.State) (n : ℕ)
      → slot_group raft (raft.create_group g ns s).1 n ≡ slot_group raft s n
  pub update_works : (a b g : ℕ) (s : raft.State) → (raft.update_slots a b g s).0 ≡ coded tt
  pub slots-update :
      (a b g : ℕ) (s : raft.State) (n : ℕ)
      → slot_group raft (raft.update_slots a b g s).1 n
        ≡ (if leb a n && ltb n b then given g (slot_group raft s n) else slot_group raft s n)

-- The group of the node: the first with the node among its replicas, or a new one of its number.
abbrev pub own : ℕ → Option ℕ → ℕ
own node none = node
own node (some g) = g

given_again :
    (g : ℕ) (p q : Bool) (o : Option ℕ)
    → (if q then given g (if p then given g o else o) else (if p then given g o else o))
      ≡ (if p || q then given g o else o)
given_again g false q o = refl
given_again g true false o = refl
given_again g true true none = refl
given_again g true true (some _) = refl

module _ (raft : MetaRaft) (works : IsRaft raft) where
  update_ranges_lem :
      (g : ℕ) (ranges : List (ℕ × ℕ)) (s : raft.State)
      → (s' : raft.State) × (update_ranges raft g ranges s ≡ (ok tt, s'))
        × ((n : ℕ)
            → slot_group raft s' n
              ≡ (if covered n ranges then given g (slot_group raft s n) else slot_group raft s n))
  unfolding update_ranges update_slots answered
  update_ranges_lem g [] s = (s, refl, λ n. refl)
  update_ranges_lem g ((a, b) ∷ ranges) s =
      let (s', runs, shows) = update_ranges_lem g ranges (raft.update_slots a b g s).1 in
      (
        s',
        rw (works.update_works a b g s) runs,
        λ n.
            shows n
            ∙ rw (works.slots-update a b g s n)
                (given_again g (leb a n && ltb n b) (covered n ranges) (slot_group raft s n)),
      )

  own_group_lem :
      (node : ℕ) (o : Option ℕ) (s : raft.State)
      → (s' : raft.State) × (own_group raft node o s ≡ (ok (own node o), s'))
        × ((n : ℕ) → slot_group raft s' n ≡ slot_group raft s n)
  unfolding own_group create_group answered
  own_group_lem node none s = (
    (raft.create_group node (node ∷ []) s).1,
    rw (works.create_works node (node ∷ []) s) refl,
    works.slots-create node (node ∷ []) s,
  )
  own_group_lem node (some g) s = (s, refl, λ n. refl)

-- CLUSTER ADDSLOTS of slots that are all valid: it replies OK, each of these slots that the cluster has
-- then belongs to the group of the node, or to a new one of the node's number if it has none, and
-- every other slot to the group that it belonged to. The calls of the consensus do not fail and do
-- what they are named for.
pub cluster_addslots_contract :
    (raft : MetaRaft) (node_id : ℕ) (slots : List ℕ) (s : raft.State) (n : ℕ)
    → IsRaft raft
    → validate_slots slots ≡ ok tt
    → let group = own node_id (group_with node_id (groups_at raft s)) in
      ((cluster_addslots raft node_id slots s).0 ≡ ok ok_reply)
      × (slot_group raft (cluster_addslots raft node_id slots s).1 n
          ≡ (if contains slots n then given group (slot_group raft s n) else slot_group raft s n))
unfolding cluster_addslots
cluster_addslots_contract raft node_id slots s n works valid =
    let found = group_with node_id (groups_at raft s) in
    let (t, grouped, kept) = own_group_lem raft works node_id found s in
    let (u, runs, shows) = update_ranges_lem raft works (own node_id found) (slot_ranges slots) t in
    let covers = covered-slot_ranges n slots (validate_slots-Below slots valid) in
    rw (grouped, valid, runs) (refl, shows n ∙ rw (kept n, covers) refl)
