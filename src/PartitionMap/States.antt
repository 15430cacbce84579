-- ===== src/PartitionMap/States.antt =====
-- Which node is mapped in which state: the location and the map as functions of the node.
use openset.PartitionMap.Slots.{
  NodeState, is_free, Node, Location, cleared, add_mapping, is_mapped, assign_state,
}
use openset.PartitionMap.{PartitionMap, find, update, put_state, set_state}
use openset.Prelude.{
  ℕ, ◌≡◌, refl, Bool, true, false, ◌&&◌, ◌||◌, [], ◌∷◌, Option, none, some, ◌==◌, if◌then◌else◌,
  arith, inl, inr, Option-cases,
}

abbrev pub state_of : Option Node → Option NodeState
state_of none = none
state_of (some n) = some n.state

-- The state in which a node is mapped at a location, if it is.
abbrev pub mapped_state : Location → ℕ → Option NodeState
mapped_state loc node = state_of (is_mapped loc node)

abbrev pub is_some : Option NodeState → Bool
is_some none = false
is_some (some s) = true

unfoldable pub has_free : Location → Bool
has_free [] = false
has_free (n ∷ ns) = is_free n.state || has_free ns

pub mapped_state-add_mapping :
    (loc : Location) (node : ℕ) (state : NodeState) (k : ℕ)
    → is_free state ≡ false
    → mapped_state loc node ≡ none
    → mapped_state (add_mapping loc node state).0 k
      ≡ (if node == k && has_free loc then some state else mapped_state loc k)
unfolding add_mapping is_mapped has_free
mapped_state-add_mapping [] node state k real absent = ground arith
mapped_state-add_mapping (n ∷ ns) node state k real absent =
    ground (arith, mapped_state-add_mapping ns node state k real)

pub mapped_state-assign_state :
    (loc : Location) (node : ℕ) (state : NodeState) (k : ℕ)
    → is_free state ≡ false
    → mapped_state (assign_state loc node state) k
      ≡ (if node == k && is_some (mapped_state loc node) then some state else mapped_state loc k)
unfolding assign_state is_mapped
mapped_state-assign_state [] node state k real = ground arith
mapped_state-assign_state (n ∷ ns) node state k real =
    ground (arith, mapped_state-assign_state ns node state k real)

-- A node can be put at a location where it is mapped already or a record is free.
abbrev pub has_room : Location → ℕ → Bool
has_room loc node = is_some (mapped_state loc node) || has_free loc

pub mapped_state-put_state :
    (loc : Location) (node : ℕ) (state : NodeState) (k : ℕ)
    → is_free state ≡ false
    → mapped_state (put_state node state loc) k
      ≡ (if node == k && has_room loc node then some state else mapped_state loc k)
mapped_state-put_state loc node state k real = ground (
  arith,
  mapped_state-add_mapping loc node state k real,
  mapped_state-assign_state loc node state k real,
)

pub mapped_state-cleared : (k : ℕ) → mapped_state cleared k ≡ none
unfolding is_mapped is_free
mapped_state-cleared k = refl

pub has_free-cleared : has_free cleared ≡ true
unfolding has_free is_free
has_free-cleared = refl

-- The state in which a node holds a partition.
abbrev pub state_in_map : Option Location → ℕ → Option NodeState
state_in_map none node = none
state_in_map (some loc) node = mapped_state loc node

abbrev pub state_at : PartitionMap → ℕ → ℕ → Option NodeState
state_at m id node = state_in_map (find m id) node

abbrev pub room_in_map : Option Location → ℕ → Bool
room_in_map none node = true
room_in_map (some loc) node = has_room loc node

abbrev pub room_at : PartitionMap → ℕ → ℕ → Bool
room_at m id node = room_in_map (find m id) node

pub find-update :
    (m : PartitionMap) (id q : ℕ) (f : Location → Location)
    → find (update m id f) q ≡ (
        if id == q
        then elim (find m id) [ none ↦ some (f cleared) | some loc ↦ some (f loc) ]
        else find m q)
unfolding find update
find-update [] id q f = ground arith
find-update ((p, loc) ∷ m) id q f = ground (arith, find-update m id q f)

-- `setState` puts the node into the state, which is not free, and changes no other node and no other
-- partition. It does nothing where six other records are in use.
pub state_at-set_state :
    (m : PartitionMap) (id node : ℕ) (state : NodeState) (q k : ℕ)
    → is_free state ≡ false
    → state_at (set_state m id node state) q k
      ≡ (if id == q && node == k && room_at m id node then some state else state_at m q k)
unfolding set_state
state_at-set_state m id node state q k real = elim (Option-cases (find m id)) [
  | inl fresh ↦
      rw (find-update m id q (put_state node state), fresh)
        (ground (
          arith,
          fresh,
          mapped_state-put_state cleared node state k real,
          mapped_state-cleared k,
          has_free-cleared,
        ))
  | inr (loc, known) ↦
      rw (find-update m id q (put_state node state), known)
        (ground (arith, known, mapped_state-put_state loc node state k real))
]
