-- ===== src/PartitionMap/Purge.antt =====
-- `purgeNodeById`, `purgeByState` and `removeMap`.
use openset.PartitionMap.Slots.{
  NodeState, free, is_free, Location, state_eq, remove_mapping, is_mapped, purge_node_id,
  get_by_status,
}
use openset.PartitionMap.States.{mapped_state, state_at}
use openset.PartitionMap.{
  PartitionMap, find, adjust, purge_node_by_id, remove_map, purge_list, remove_all, purge_by_state,
}
use openset.Prelude.{
  ℕ, ◌≡◌, refl, ◌∙◌, true, false, List, [], ◌∷◌, ◌++◌, map, Option, none, some, ◌==◌, if◌then◌else◌,
  arith,
}

free_is_free : is_free free ≡ true
unfolding is_free
free_is_free = refl

mapped_state-purge_node_id :
    (loc : Location) (node k : ℕ)
    → mapped_state (purge_node_id loc node) k ≡ (if node == k then none else mapped_state loc k)
unfolding purge_node_id is_mapped
mapped_state-purge_node_id [] node k = ground arith
mapped_state-purge_node_id (n ∷ ns) node k =
    ground (arith, free_is_free, mapped_state-purge_node_id ns node k)

-- `purgeNodeById` unmaps the node everywhere and leaves every other node as it was.
pub state_at-purge_node_by_id :
    (m : PartitionMap) (node q k : ℕ)
    → state_at (purge_node_by_id m node) q k ≡ (if node == k then none else state_at m q k)
unfolding purge_node_by_id find
state_at-purge_node_by_id [] node q k = ground arith
state_at-purge_node_by_id ((p, loc) ∷ m) node q k =
    ground (arith, mapped_state-purge_node_id loc node k, state_at-purge_node_by_id m node q k)

-- The nodes of a partition in a state, in the order of their records.
abbrev pub nodes_in : Option Location → NodeState → List ℕ
nodes_in none state = []
nodes_in (some loc) state = get_by_status loc state

-- Each partition has one entry, as the keys of a map do.
abbrev pub HasKeysOnce : PartitionMap → Type 0
HasKeysOnce [] = Unit {0}
HasKeysOnce ((p, loc) ∷ m) = (find m p ≡ none) × HasKeysOnce m

get_by_status-remove_mapping :
    (loc : Location) (node : ℕ) (state : NodeState) (rest : List ℕ)
    → state_eq free state ≡ false
    → get_by_status loc state ≡ node ∷ rest
    → get_by_status (remove_mapping loc node state).0 state ≡ rest
unfolding get_by_status remove_mapping
get_by_status-remove_mapping [] node state rest real e = cc
get_by_status-remove_mapping (n ∷ ns) node state rest real e =
    ground (arith, get_by_status-remove_mapping ns node state rest real)

get_by_status-remove_other :
    (loc : Location) (node : ℕ) (state other : NodeState)
    → state_eq free other ≡ false
    → state_eq state other ≡ false
    → get_by_status (remove_mapping loc node state).0 other ≡ get_by_status loc other
unfolding get_by_status remove_mapping
get_by_status-remove_other [] node state other real apart = refl
get_by_status-remove_other (n ∷ ns) node state other real apart =
    ground (arith, get_by_status-remove_other ns node state other real apart)

abbrev tagged : ℕ → List ℕ → List (ℕ × ℕ)
tagged p = map (λ node. (p, node))

remove_all-append :
    (m : PartitionMap) (xs ys : List (ℕ × ℕ)) (state : NodeState)
    → remove_all m (xs ++ ys) state ≡ remove_all (remove_all m xs state) ys state
unfolding remove_all
remove_all-append m [] ys state = refl
remove_all-append m ((p, node) ∷ xs) ys state =
    remove_all-append (remove_map m p node state) xs ys state

-- No entry of the list is for the partition.
abbrev Avoids : ℕ → List (ℕ × ℕ) → Type 0
Avoids p [] = Unit {0}
Avoids p ((q, node) ∷ xs) = (p == q ≡ false) × Avoids p xs

Avoids-append : (p : ℕ) (xs ys : List (ℕ × ℕ)) → Avoids p xs → Avoids p ys → Avoids p (xs ++ ys)
Avoids-append p [] ys a b = b
Avoids-append p (x ∷ xs) ys a b = (a.0, Avoids-append p xs ys a.1 b)

tagged-Avoids : (p q : ℕ) (ids : List ℕ) → p == q ≡ false → Avoids p (tagged q ids)
tagged-Avoids p q [] h = tt
tagged-Avoids p q (i ∷ ids) h = (h, tagged-Avoids p q ids h)

purge_list-Avoids :
    (p : ℕ) (m : PartitionMap) (state : NodeState) → find m p ≡ none → Avoids p (purge_list m state)
unfolding purge_list find
purge_list-Avoids p [] state h = tt
purge_list-Avoids p ((q, loc) ∷ m) state h =
    Avoids-append p (tagged q (get_by_status loc state)) (purge_list m state)
      (tagged-Avoids p q (get_by_status loc state) (ground arith))
      (purge_list-Avoids p m state (ground arith))

get_by_status-congr :
    (loc : Location) (s t : NodeState)
    → state_eq s t ≡ true
    → get_by_status loc s ≡ get_by_status loc t
unfolding get_by_status
get_by_status-congr [] s t e = refl
get_by_status-congr (n ∷ ns) s t e = ground (arith, get_by_status-congr ns s t)

module _ (state : NodeState) (real : state_eq free state ≡ false) where
  -- The removals for the first entry leave the others alone.
  remove_all-head :
      (p : ℕ) (m : PartitionMap) (ids : List ℕ) (loc : Location)
      → get_by_status loc state ≡ ids
      → (loc' : Location) × (remove_all ((p, loc) ∷ m) (tagged p ids) state ≡ (p, loc') ∷ m)
        × (get_by_status loc' state ≡ [])
        × ((t : NodeState)
            → state_eq free t ≡ false
            → state_eq state t ≡ false
            → get_by_status loc' t ≡ get_by_status loc t)
  unfolding remove_all remove_map adjust
  remove_all-head p m [] loc e = (loc, refl, e, λ t r a. refl)
  remove_all-head p m (node ∷ ids) loc e =
      let (loc', run, gone, kept) =
        remove_all-head p m ids (remove_mapping loc node state).0
          (get_by_status-remove_mapping loc node state ids real e) in
      (
        loc',
        ground (arith, run),
        gone,
        λ t r a. kept t r a ∙ get_by_status-remove_other loc node state t r a,
      )

  remove_all-tail :
      (p : ℕ) (loc : Location) (m : PartitionMap) (xs : List (ℕ × ℕ))
      → Avoids p xs
      → remove_all ((p, loc) ∷ m) xs state ≡ (p, loc) ∷ remove_all m xs state
  unfolding remove_all remove_map adjust
  remove_all-tail p loc m [] h = refl
  remove_all-tail p loc m ((q, node) ∷ xs) h =
      rw h.0 (remove_all-tail p loc (adjust m q (λ l. (remove_mapping l node state).0)) xs h.1)

  purge_by_state-cons :
      (p : ℕ) (loc : Location) (m : PartitionMap)
      → find m p ≡ none
      → (loc' : Location) × (purge_by_state ((p, loc) ∷ m) state
          ≡ (p, loc') ∷ purge_by_state m state)
        × (get_by_status loc' state ≡ [])
        × ((t : NodeState)
            → state_eq free t ≡ false
            → state_eq state t ≡ false
            → get_by_status loc' t ≡ get_by_status loc t)
  unfolding purge_by_state purge_list
  purge_by_state-cons p loc m once =
      let (loc', run, gone, kept) = remove_all-head p m (get_by_status loc state) loc refl in
      (
        loc',
        remove_all-append ((p, loc) ∷ m) (tagged p (get_by_status loc state)) (purge_list m state)
              state
            ∙ rw run
                (remove_all-tail p loc' m (purge_list m state) (purge_list-Avoids p m state once)),
        gone,
        kept,
      )

  -- `purgeByState` frees every record in the state, and keeps the nodes of every other state, as
  -- long as each partition has one entry. The state is not `free`.
  pub nodes_in-purge_by_state :
      (m : PartitionMap) (q : ℕ) (t : NodeState)
      → HasKeysOnce m
      → state_eq free t ≡ false
      → nodes_in (find (purge_by_state m state) q) t
        ≡ (if state_eq state t then [] else nodes_in (find m q) t)
  unfolding find
  nodes_in-purge_by_state [] q t once real' =
      unfold purge_by_state purge_list remove_all in ground arith
  nodes_in-purge_by_state ((p, loc) ∷ m) q t once real' =
      let (loc', run, gone, kept) = purge_by_state-cons p loc m once.0 in
      rw run (
        ground (
          arith,
          gone,
          kept t,
          get_by_status-congr loc' state t,
          nodes_in-purge_by_state m q t once.1,
        ))
