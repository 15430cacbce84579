-- ===== src/PartitionMap.antt =====
-- src/internodemapping.h and src/internodemapping.cpp: which node holds which partition, and how.
--
-- The locks make each operation one step. `part2node` is an association list in its iteration order,
-- with one entry for each partition id; a location is the list of its six records. A set of states
-- is a list without repetition.
pub mod Slots
pub mod States
pub mod Ownership
pub mod Coverage
pub mod Purge
pub mod Document
pub mod Change
use openset.PartitionMap.Slots.{
  NodeState, free, routable, active_owner, active_clone, active_placeholder, rank, Node, Location,
  cleared, state_eq, add_mapping, remove_mapping, is_mapped, assign_state, is_owner, purge_node_id,
  change_owner, get_by_status, get_replicas, purge_incomplete,
}
use openset.Prelude.{
  ℕ, zero, suc, ◌+◌, Bool, true, false, not, ◌&&◌, ◌||◌, List, [], ◌∷◌, ◌++◌, map, Option, none,
  some, leb, ◌==◌, if◌then◌else◌, length,
}

abbrev pub PartitionMap : Type 0
PartitionMap = List (ℕ × Location)

unfoldable pub find : PartitionMap → ℕ → Option Location
find [] id = none
find ((p, loc) ∷ m) id = if p == id then some loc else find m id

-- `part2node.find(id)->second = f(…)`, after an `emplace` of a fresh location if there is none.
unfoldable pub update : PartitionMap → ℕ → (Location → Location) → PartitionMap
update [] id f = (id, f cleared) ∷ []
update ((p, loc) ∷ m) id f = if p == id then (p, f loc) ∷ m else (p, loc) ∷ update m id f

-- The same where a missing partition is left out.
unfoldable pub adjust : PartitionMap → ℕ → (Location → Location) → PartitionMap
adjust [] id f = []
adjust ((p, loc) ∷ m) id f = if p == id then (p, f loc) ∷ m else (p, loc) ∷ adjust m id f

-- `std::unordered_set<NodeState_e>::count`.
unfoldable pub state_in : List NodeState → NodeState → Bool
state_in [] s = false
state_in (t ∷ ts) s = state_eq t s || state_in ts s

abbrev node_passes : (NodeState → Bool) → Option Node → Bool
node_passes test none = false
node_passes test (some n) = test n.state

unfoldable pub partitions_where : PartitionMap → ℕ → (NodeState → Bool) → List ℕ
unfolding is_mapped
partitions_where [] id test = []
partitions_where ((p, loc) ∷ m) id test =
    let rest = partitions_where m id test in
    if node_passes test (is_mapped loc id) then p ∷ rest else rest

unfoldable pub get_partitions_by_node_id : PartitionMap → ℕ → List ℕ
unfolding partitions_where
get_partitions_by_node_id m id = partitions_where m id (λ s. leb (rank routable) (rank s))

unfoldable pub get_partitions_by_node_id_and_states : PartitionMap → ℕ → List NodeState → List ℕ
unfolding partitions_where state_in
get_partitions_by_node_id_and_states m id states = partitions_where m id (state_in states)

unfoldable pub get_nodes_by_partition_id : PartitionMap → ℕ → List ℕ
unfolding find get_replicas
get_nodes_by_partition_id m id = elim (find m id) [ none ↦ [] | some loc ↦ get_replicas loc ]

-- The sizes of `getByStatus` over the states, summed.
unfoldable pub active_nodes : List NodeState → Location → ℕ
unfolding get_by_status
active_nodes [] loc = 0
active_nodes (s ∷ ss) loc = length (get_by_status loc s) + active_nodes ss loc

-- `partitions[i]`, where a partition with no such node has no entry.
unfoldable pub found_count : PartitionMap → List NodeState → ℕ → Option ℕ
unfolding find active_nodes
found_count m states i = elim (find m i) [
  | none ↦ none
  | some loc ↦ if active_nodes states loc == 0 then none else some (active_nodes states loc)
]

abbrev pub enough : Option ℕ → ℕ → Bool
enough none replication = false
enough (some c) replication = leb replication c

-- `for (i = first; i < first + n; ++i)`, counting the partitions that are found.
unfoldable pub partitions_found : PartitionMap → List NodeState → ℕ → ℕ → ℕ → ℕ
unfolding found_count
partitions_found m states replication first zero = 0
partitions_found m states replication first (suc n) =
    (if enough (found_count m states first) replication then 1 else 0)
    + partitions_found m states replication (first + 1) n

unfoldable pub is_cluster_complete : PartitionMap → ℕ → List NodeState → ℕ → Bool
unfolding partitions_found
is_cluster_complete m total states replication =
    total == partitions_found m states replication 0 total

abbrev pub missing : Option ℕ → ℕ → Bool
missing none replication = true
missing (some c) replication = not (c == replication)

unfoldable pub missing_from : PartitionMap → List NodeState → ℕ → ℕ → ℕ → List ℕ
unfolding found_count
missing_from m states replication first zero = []
missing_from m states replication first (suc n) =
    let rest = missing_from m states replication (first + 1) n in
    if missing (found_count m states first) replication then first ∷ rest else rest

unfoldable pub get_missing_partitions : PartitionMap → ℕ → List NodeState → ℕ → List ℕ
unfolding missing_from
get_missing_partitions m total states replication = missing_from m states replication 0 total

unfoldable pub is_owner_of : PartitionMap → ℕ → ℕ → Bool
unfolding find is_owner
is_owner_of m id node = elim (find m id) [ none ↦ false | some loc ↦ is_owner loc node ]

unfoldable pub is_mapped_in : PartitionMap → ℕ → ℕ → Bool
unfolding find is_mapped
is_mapped_in m id node = elim (find m id) [
  | none ↦ false
  | some loc ↦ node_passes (λ _. true) (is_mapped loc node)
]

-- The state of the first record with the node id, free or not.
unfoldable pub first_state : Location → ℕ → NodeState
first_state [] node = free
first_state (n ∷ ns) node = if n.node_id == node then n.state else first_state ns node

unfoldable pub get_state : PartitionMap → ℕ → ℕ → NodeState
unfolding find first_state
get_state m id node = elim (find m id) [ none ↦ free | some loc ↦ first_state loc node ]

abbrev pub own : ℕ → Location → Location
own node loc =
    let (loc', done) = change_owner loc node in
    if done then loc' else (add_mapping loc' node active_owner).0

unfoldable pub set_owner : PartitionMap → ℕ → ℕ → PartitionMap
unfolding update change_owner
set_owner m id node = update m id (own node)

abbrev pub put_state : ℕ → NodeState → Location → Location
put_state node state loc = elim (is_mapped loc node) [
  | none ↦ (add_mapping loc node state).0
  | some _ ↦ assign_state loc node state
]

unfoldable pub set_state : PartitionMap → ℕ → ℕ → NodeState → PartitionMap
unfolding update is_mapped add_mapping assign_state
set_state m id node state = update m id (put_state node state)

abbrev pub swap_node : ℕ → ℕ → Node → Node
swap_node old_owner new_owner n =
    if n.node_id == old_owner
    then record n { state = active_clone }
    else if n.node_id == new_owner
    then record n { state = active_owner }
    else n

unfoldable pub swap_state : PartitionMap → ℕ → ℕ → ℕ → PartitionMap × Bool
unfolding find adjust
swap_state m id old_owner new_owner = elim (find m id) [
  | none ↦ (m, false)
  | some _ ↦ (adjust m id (map (swap_node old_owner new_owner)), true)
]

unfoldable pub remove_map : PartitionMap → ℕ → ℕ → NodeState → PartitionMap
unfolding adjust remove_mapping
remove_map m id node state = adjust m id (λ loc. (remove_mapping loc node state).0)

unfoldable pub purge_node_by_id : PartitionMap → ℕ → PartitionMap
unfolding purge_node_id
purge_node_by_id [] node = []
purge_node_by_id ((p, loc) ∷ m) node = (p, purge_node_id loc node) ∷ purge_node_by_id m node

-- The loop of `purgeByState` that collects, and the one that removes.
unfoldable pub purge_list : PartitionMap → NodeState → List (ℕ × ℕ)
unfolding get_by_status
purge_list [] state = []
purge_list ((p, loc) ∷ m) state =
    map (λ node. (p, node)) (get_by_status loc state) ++ purge_list m state

unfoldable pub remove_all : PartitionMap → List (ℕ × ℕ) → NodeState → PartitionMap
unfolding remove_map
remove_all m [] state = m
remove_all m ((p, node) ∷ rest) state = remove_all (remove_map m p node state) rest state

unfoldable pub purge_by_state : PartitionMap → NodeState → PartitionMap
unfolding purge_list remove_all
purge_by_state m state = remove_all m (purge_list m state) state

unfoldable pub clear : PartitionMap → PartitionMap
clear [] = []
clear ((p, loc) ∷ m) = (p, cleared) ∷ clear m

-- `purgeIncomplete`: the map, and this node's partitions that were dropped, as often as dropped.
abbrev mine : ℕ → ℕ → List ℕ → List ℕ
mine this_node p [] = []
mine this_node p (n ∷ ns) =
    let rest = mine this_node p ns in if n == this_node then p ∷ rest else rest

unfoldable pub purge_incomplete_map : ℕ → PartitionMap → PartitionMap × List ℕ
unfolding purge_incomplete
purge_incomplete_map this_node [] = ([], [])
purge_incomplete_map this_node ((p, loc) ∷ m) =
    let (loc', dropped) = purge_incomplete loc in
    let (m', result) = purge_incomplete_map this_node m in
    ((p, loc') ∷ m', mine this_node p dropped ++ result)
