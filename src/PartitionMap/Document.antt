-- ===== src/PartitionMap/Document.antt =====
-- `serializePartitionMap`, `deserializePartitionMap` and `changeMapping`.
--
-- A JSON document is taken as what the code reads of it: the members of the object with their
-- partition numbers, the "nodes" array if there is one, and of each of its items the two fields.
-- A missing "node_id" reads as -1, here none. A callback is the list of the calls made of it.
use Prim.Native.String.{String}
use text.Mathlib.Text.{◌==◌ as str_eq}
use openset.PartitionMap.Slots.{
  NodeState, active_owner, active_clone, active_placeholder, is_free, Location, free_node, state_eq,
}
use openset.PartitionMap.{PartitionMap, is_mapped_in, set_state}
use openset.Prelude.{
  ℕ, Bool, false, not, ◌&&◌, ◌||◌, List, [], ◌∷◌, ◌++◌, Option, none, some, ◌==◌, if◌then◌else◌,
}

pub record NodeDoc : Type 0 where
  pub node_id : Option ℕ
  pub state : String

abbrev pub Document : Type 0
Document = List (ℕ × Option (List NodeDoc))

unfoldable pub state_name : NodeState → Option String
state_name active_owner = some "active_owner"
state_name active_clone = some "active_clone"
state_name active_placeholder = some "active_build"
state_name _ = none

unfoldable pub state_of_name : String → Option NodeState
state_of_name s =
    if str_eq s "active_owner"
    then some active_owner
    else if str_eq s "active_clone"
    then some active_clone
    else if str_eq s "active_build"
    then some active_placeholder
    else none

unfoldable pub node_docs : Location → List NodeDoc
unfolding state_name
node_docs [] = []
node_docs (n ∷ ns) =
    let rest = node_docs ns in
    elim (state_name n.state) [
      | none ↦ rest
      | some name ↦ record { node_id = some n.node_id; state = name } ∷ rest
    ]

unfoldable pub serialize_partition_map : PartitionMap → Document
unfolding node_docs
serialize_partition_map [] = []
serialize_partition_map ((p, loc) ∷ m) = (p, some (node_docs loc)) ∷ serialize_partition_map m

-- The node and the state of an item, unless the loops pass over it.
unfoldable pub read_node : NodeDoc → Option (ℕ × NodeState)
unfolding state_of_name
read_node n = elim n.node_id [
  | none ↦ none
  | some id ↦ elim (state_of_name n.state) [ none ↦ none | some state ↦ some (id, state) ]
]

unfoldable pub read_nodes : PartitionMap → ℕ → List NodeDoc → PartitionMap
unfolding read_node
read_nodes m p [] = m
read_nodes m p (n ∷ ns) = elim (read_node n) [
  | none ↦ read_nodes m p ns
  | some (id, state) ↦ read_nodes (set_state m p id state) p ns
]

unfoldable pub deserialize_partition_map : PartitionMap → Document → PartitionMap
unfolding read_nodes
deserialize_partition_map m [] = m
deserialize_partition_map m ((p, none) ∷ doc) = deserialize_partition_map m doc
deserialize_partition_map m ((p, some nodes) ∷ doc) =
    deserialize_partition_map (read_nodes m p nodes) doc

abbrev pub Visited : Type 0
Visited = List (ℕ × ℕ × NodeState)

unfoldable pub was_visited : Visited → ℕ → ℕ → NodeState → Bool
was_visited [] p id state = false
was_visited ((q, k, s) ∷ vs) p id state =
    (q == p && k == id && state_eq s state) || was_visited vs p id state

-- What `changeMapping` has built: the map, `mapsVisited` and `newPartitions`.
pub record Change : Type 0 where
  pub mapping : PartitionMap
  pub visited : Visited
  pub new_partitions : List ℕ

abbrev has : List ℕ → ℕ → Bool
has [] p = false
has (q ∷ qs) p = q == p || has qs p

-- `std::unordered_set<int>::insert`.
abbrev insert : List ℕ → ℕ → List ℕ
insert ps p = if has ps p then ps else p ∷ ps

unfoldable pub visit_node : ℕ → Change → ℕ → ℕ → NodeState → Change
unfolding is_mapped_in set_state
visit_node this_node c p id state = record {
  mapping = set_state c.mapping p id state;
  visited = (p, id, state) ∷ c.visited;
  new_partitions =
      if id == this_node && not (is_mapped_in c.mapping p id)
      then insert c.new_partitions p
      else c.new_partitions;
}

unfoldable pub visit_nodes : ℕ → Change → ℕ → List NodeDoc → Change
unfolding read_node visit_node
visit_nodes this_node c p [] = c
visit_nodes this_node c p (n ∷ ns) = elim (read_node n) [
  | none ↦ visit_nodes this_node c p ns
  | some (id, state) ↦ visit_nodes this_node (visit_node this_node c p id state) p ns
]

unfoldable pub visit_all : ℕ → Change → Document → Change
unfolding visit_nodes
visit_all this_node c [] = c
visit_all this_node c ((p, none) ∷ doc) = visit_all this_node c doc
visit_all this_node c ((p, some nodes) ∷ doc) =
    visit_all this_node (visit_nodes this_node c p nodes) doc

-- The clean-up of one location, with a call of `deletePartition_cb` for each record of this node.
unfoldable pub clean : ℕ → Visited → ℕ → Location → Location × List ℕ
clean this_node visited p [] = ([], [])
clean this_node visited p (n ∷ ns) =
    let (ns', calls) = clean this_node visited p ns in
    if is_free n.state || was_visited visited p n.node_id n.state
    then (n ∷ ns', calls)
    else (free_node ∷ ns', (if n.node_id == this_node then p ∷ calls else calls))

unfoldable pub clean_all : ℕ → Visited → PartitionMap → PartitionMap × List ℕ
unfolding clean
clean_all this_node visited [] = ([], [])
clean_all this_node visited ((p, loc) ∷ m) =
    let (loc', calls) = clean this_node visited p loc in
    let (m', more) = clean_all this_node visited m in ((p, loc') ∷ m', calls ++ more)

-- The map, the calls of `addPartition_cb` and those of `deletePartition_cb`.
unfoldable pub change_mapping : ℕ → PartitionMap → Document → PartitionMap × List ℕ × List ℕ
unfolding visit_all clean_all
change_mapping this_node m config =
    let c =
      visit_all this_node (record { mapping = m; visited = []; new_partitions = [] }) config in
    let (m', deleted) = clean_all this_node c.visited c.mapping in (m', c.new_partitions, deleted)
