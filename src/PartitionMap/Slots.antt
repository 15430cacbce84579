-- ===== src/PartitionMap/Slots.antt =====
-- `NodeState_e` and `PartitionMap::location_s` of src/internodemapping.h: six records of a node and
-- its state. A node id is a number, and 0 in a free record.
use openset.Prelude.{
  ℕ, Bool, true, false, not, ◌&&◌, ◌||◌, List, [], ◌∷◌, map, Option, none, some, leb, ◌==◌,
  if◌then◌else◌, replicate,
}

pub data NodeState : Type 0 where
  free failed routable active_owner active_clone active_placeholder : NodeState

-- The value of the enumerator.
unfoldable pub rank : NodeState → ℕ
rank free = 0
rank failed = 1
rank routable = 2
rank active_owner = 3
rank active_clone = 4
rank active_placeholder = 5

abbrev pub state_eq : NodeState → NodeState → Bool
state_eq s t = rank s == rank t

-- `state == NodeState_e::free`.
unfoldable pub is_free : NodeState → Bool
unfolding rank
is_free s = state_eq s free

pub record Node : Type 0 where
  pub state : NodeState
  pub node_id : ℕ

abbrev pub Location : Type 0
Location = List Node

abbrev pub map_depth : ℕ
map_depth = 6

abbrev pub free_node : Node
free_node = record { state = free; node_id = 0 }

-- `clear`, which the constructor calls.
abbrev pub cleared : Location
cleared = replicate map_depth free_node

-- A search that ends at the first hit returns whether it wrote.
unfoldable pub add_mapping : Location → ℕ → NodeState → Location × Bool
add_mapping [] id state = ([], false)
add_mapping (n ∷ ns) id state =
    let (ns', done) = add_mapping ns id state in
    if is_free n.state then (record { state = state; node_id = id } ∷ ns, true) else (n ∷ ns', done)

-- A removed record is freed.
unfoldable pub remove_mapping : Location → ℕ → NodeState → Location × Bool
remove_mapping [] id state = ([], false)
remove_mapping (n ∷ ns) id state =
    let (ns', done) = remove_mapping ns id state in
    if n.node_id == id && state_eq n.state state then (free_node ∷ ns, true) else (n ∷ ns', done)

-- The record that `isMapped` points to.
unfoldable pub is_mapped : Location → ℕ → Option Node
is_mapped [] id = none
is_mapped (n ∷ ns) id = if not (is_free n.state) && n.node_id == id then some n else is_mapped ns id

-- `isMapped(id)->state = state`.
unfoldable pub assign_state : Location → ℕ → NodeState → Location
assign_state [] id state = []
assign_state (n ∷ ns) id state =
    if not (is_free n.state) && n.node_id == id
    then record n { state = state } ∷ ns
    else n ∷ assign_state ns id state

unfoldable pub is_owner : Location → ℕ → Bool
is_owner [] id = false
is_owner (n ∷ ns) id = (state_eq n.state active_owner && n.node_id == id) || is_owner ns id

unfoldable pub purge_node_id : Location → ℕ → Location
purge_node_id loc id = map (λ n. if n.node_id == id then free_node else n) loc

-- The loop of `changeOwner`, with the flag that it leaves.
abbrev pub promote : ℕ → Node → Node
promote id n =
    if n.node_id == id
    then record n { state = active_owner }
    else if state_eq n.state active_owner
    then record n { state = active_clone }
    else n

unfoldable pub any_id : Location → ℕ → Bool
any_id [] id = false
any_id (n ∷ ns) id = n.node_id == id || any_id ns id

unfoldable pub change_owner : Location → ℕ → Location × Bool
unfolding is_mapped any_id add_mapping
change_owner loc id = elim (is_mapped loc id) [
  | none ↦ (loc, false)
  | some _ ↦
      let loc' = map (promote id) loc in
      if any_id loc id then (loc', true) else add_mapping loc' id active_owner
]

unfoldable pub get_by_status : Location → NodeState → List ℕ
get_by_status [] state = []
get_by_status (n ∷ ns) state =
    let rest = get_by_status ns state in if state_eq n.state state then n.node_id ∷ rest else rest

unfoldable pub get_replicas : Location → List ℕ
get_replicas [] = []
get_replicas (n ∷ ns) =
    let rest = get_replicas ns in
    if leb (rank routable) (rank n.state) then n.node_id ∷ rest else rest

abbrev pub is_complete : NodeState → Bool
is_complete s = state_eq s active_owner || state_eq s active_clone

-- The location, and the nodes that were dropped from it.
unfoldable pub purge_incomplete : Location → Location × List ℕ
purge_incomplete [] = ([], [])
purge_incomplete (n ∷ ns) =
    let (ns', dropped) = purge_incomplete ns in
    if is_complete n.state then (n ∷ ns', dropped) else (free_node ∷ ns', n.node_id ∷ dropped)
