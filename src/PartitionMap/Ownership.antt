-- ===== src/PartitionMap/Ownership.antt =====
-- `setOwner`, `changeOwner` and `isOwner`.
use openset.PartitionMap.Slots.{
  active_owner, active_clone, rank, is_free, Location, cleared, state_eq, add_mapping, is_mapped,
  is_owner, promote, any_id, change_owner,
}
use openset.PartitionMap.States.{
  mapped_state, is_some, has_free, room_at, find-update, mapped_state-cleared, has_free-cleared,
}
use openset.PartitionMap.{PartitionMap, find, own, set_owner, is_owner_of, is_mapped_in}
use openset.Prelude.{
  ℕ, ◌≡◌, refl, ◌∙◌, true, false, ◌&&◌, ◌||◌, [], ◌∷◌, map, ◌==◌, if◌then◌else◌, arith, inl, inr,
  Option-cases,
}

owner-ne-clone : state_eq active_clone active_owner ≡ false
unfolding rank
owner-ne-clone = refl

owner_not_free : is_free active_owner ≡ false
unfolding is_free
owner_not_free = refl

is_mapped-any_id :
    (loc : Location) (node : ℕ) → is_some (mapped_state loc node) ≡ true → any_id loc node ≡ true
unfolding is_mapped any_id
is_mapped-any_id [] node h = cc
is_mapped-any_id (n ∷ ns) node h = ground (arith, is_mapped-any_id ns node)

-- The loop of `changeOwner` leaves the node as the only owner.
is_owner-promote :
    (loc : Location) (node k : ℕ)
    → is_owner (map (promote node) loc) k ≡ (node == k && any_id loc node)
unfolding is_owner any_id
is_owner-promote [] node k = ground arith
is_owner-promote (n ∷ ns) node k = ground (arith, owner-ne-clone, is_owner-promote ns node k)

is_owner-add_mapping :
    (loc : Location) (node k : ℕ)
    → is_owner (add_mapping loc node active_owner).0 k
      ≡ (is_owner loc k || (node == k && has_free loc))
unfolding is_owner add_mapping has_free is_free
is_owner-add_mapping [] node k = ground arith
is_owner-add_mapping (n ∷ ns) node k = ground (arith, is_owner-add_mapping ns node k)

is_owner-own :
    (loc : Location) (node k : ℕ)
    → is_owner (own node loc) k ≡ (
        if is_some (mapped_state loc node)
        then node == k
        else is_owner loc k || (node == k && has_free loc))
unfolding change_owner
is_owner-own loc node k =
    ground (
      arith,
      is_mapped-any_id loc node,
      is_owner-promote loc node k,
      is_owner-add_mapping loc node k,
    )

is_owner-cleared : (k : ℕ) → is_owner cleared k ≡ false
unfolding is_owner rank
is_owner-cleared k = refl

is_owner_of-set_owner :
    (m : PartitionMap) (id node q k : ℕ)
    → is_owner_of (set_owner m id node) q k ≡ (
        if id == q
        then if is_mapped_in m id node
          then node == k
          else is_owner_of m id k || (node == k && room_at m id node)
        else is_owner_of m q k)
unfolding set_owner is_owner_of is_mapped_in
is_owner_of-set_owner m id node q k = elim (Option-cases (find m id)) [
  | inl fresh ↦
      rw (is_owner_of, find-update m id q (own node), fresh)
        (ground (
          arith,
          fresh,
          is_owner-own cleared node k,
          mapped_state-cleared node,
          has_free-cleared,
          is_owner-cleared k,
        ))
  | inr (loc, known) ↦
      rw (is_owner_of, find-update m id q (own node), known)
        (ground (arith, known, is_owner-own loc node k))
]

-- If the node is mapped at the partition, `setOwner` makes it the one owner there, and changes the
-- owners of no other partition.
pub set_owner_mapped :
    (m : PartitionMap) (id node q k : ℕ)
    → is_mapped_in m id node ≡ true
    → is_owner_of (set_owner m id node) q k ≡ (if id == q then node == k else is_owner_of m q k)
set_owner_mapped m id node q k mapped = is_owner_of-set_owner m id node q k ∙ rw mapped

-- If the node is not mapped at the partition, `setOwner` adds it as an owner where a record is free,
-- and every earlier owner stays one.
pub set_owner_unmapped :
    (m : PartitionMap) (id node k : ℕ)
    → is_mapped_in m id node ≡ false
    → is_owner_of (set_owner m id node) id k
      ≡ (is_owner_of m id k || (node == k && room_at m id node))
set_owner_unmapped m id node k unmapped =
    is_owner_of-set_owner m id node id k ∙ ground (arith, unmapped)
