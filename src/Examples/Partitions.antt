-- ===== src/Examples/Partitions.antt =====
-- The theorems about PartitionMap on the map of three partitions over two nodes.
use openset.PartitionMap.Slots.{
  rank, NodeState, active_owner, active_clone, active_placeholder, Location, free_node, is_free,
  is_mapped,
}
use openset.PartitionMap.{
  PartitionMap, find, set_state, set_owner, is_mapped_in, is_owner_of, is_cluster_complete,
  state_in,
}
use openset.PartitionMap.States.{state_at, room_at, state_at-set_state}
use openset.PartitionMap.Ownership.{set_owner_unmapped}
use openset.PartitionMap.Coverage.{held, is_cluster_complete_iff}
use openset.PartitionMap.Document.{Document, change_mapping, was_visited, state_of_name}
use openset.PartitionMap.Change.{names, state_at-change_mapping}
use openset.Prelude.{
  ◌≤◌, ℕ, ◌<◌, ◌≡◌, ◌↔◌, refl, true, ◌&&◌, ◌||◌, List, [], ◌∷◌, some, ◌==◌, if◌then◌else◌,
}

-- Partition 0 is owned by node 7 and cloned by node 9, partition 1 is owned by node 9.
abbrev shared : Location
shared =
    record { state = active_owner; node_id = 7 }
    ∷ record { state = active_clone; node_id = 9 }
    ∷ free_node
    ∷ free_node
    ∷ free_node
    ∷ free_node
    ∷ []

abbrev single : Location
single =
    record { state = active_owner; node_id = 9 }
    ∷ free_node
    ∷ free_node
    ∷ free_node
    ∷ free_node
    ∷ free_node
    ∷ []

abbrev cluster : PartitionMap
cluster = (0, shared) ∷ (1, single) ∷ []

abbrev full_states : List NodeState
full_states = active_owner ∷ active_clone ∷ []

state_at-set_state_example : state_at (set_state cluster 1 7 active_placeholder) 1 7 ≡ (
    if 1 == 1 && 7 == 7 && room_at cluster 1 7
    then some active_placeholder
    else state_at cluster 1 7)
unfolding is_free
state_at-set_state_example = state_at-set_state cluster 1 7 active_placeholder 1 7 refl

-- Node 7 is not mapped at partition 1: node 9 is still an owner of it after node 7 becomes one.
set_owner_unmapped_example :
    is_owner_of (set_owner cluster 1 7) 1 9
    ≡ (is_owner_of cluster 1 9 || (7 == 9 && room_at cluster 1 7))
unfolding is_mapped_in is_free
set_owner_unmapped_example = set_owner_unmapped cluster 1 7 9 refl

is_cluster_complete_iff_example : (is_cluster_complete cluster 2 full_states 1 ≡ true) ↔ (
    (i : ℕ)
    → i < 2
    → (loc : Location) × (find cluster i ≡ some loc)
      × (1 ≤ held full_states loc)
      × (1 ≤ held full_states loc))
unfolding state_in rank
is_cluster_complete_iff_example = is_cluster_complete_iff cluster full_states 1 2 (refl, (refl, tt))

-- A configuration in which node 9 has taken partition 0 over.
abbrev new_config : Document
new_config = (0, some (record { node_id = some 9; state = "active_owner" } ∷ [])) ∷ []

state_at-change_mapping_example : names new_config 0 9 active_owner ≡ true
unfolding change_mapping find is_mapped state_of_name is_free was_visited
state_at-change_mapping_example = state_at-change_mapping 7 cluster new_config 0 9 active_owner refl
