-- ===== src/PartitionMap/Change.antt =====
-- What `changeMapping` leaves in the map.
use openset.PartitionMap.Slots.{NodeState, is_free, Location, free, state_eq, is_mapped}
use openset.PartitionMap.States.{mapped_state, state_at}
use openset.PartitionMap.Document.{
  NodeDoc, Document, read_node, Visited, was_visited, Change, visit_node, visit_nodes, visit_all,
  clean, clean_all, change_mapping,
}
use openset.PartitionMap.{PartitionMap, find}
use openset.Prelude.{
  ℕ, ◌≡◌, refl, sym, ◌∙◌, Bool, true, false, ◌&&◌, ◌||◌, List, [], ◌∷◌, Option, none, some, ◌==◌,
  arith, inl, inr, Bool-cases, Option-cases,
}

free_is_free : is_free free ≡ true
unfolding is_free
free_is_free = refl

-- Whether a document maps a node to a partition in a state.
abbrev names_node : Option (ℕ × NodeState) → ℕ → NodeState → Bool
names_node none k s = false
names_node (some (id, state)) k s = id == k && state_eq state s

abbrev nodes_name : List NodeDoc → ℕ → NodeState → Bool
nodes_name [] k s = false
nodes_name (n ∷ ns) k s = names_node (read_node n) k s || nodes_name ns k s

abbrev pub names : Document → ℕ → ℕ → NodeState → Bool
names [] q k s = false
names ((p, none) ∷ doc) q k s = names doc q k s
names ((p, some ns) ∷ doc) q k s = (p == q && nodes_name ns k s) || names doc q k s

visited-visit_nodes :
    (this_node : ℕ) (c : Change) (p : ℕ) (ns : List NodeDoc) (q k : ℕ) (s : NodeState)
    → was_visited (visit_nodes this_node c p ns).visited q k s
      ≡ (was_visited c.visited q k s || (p == q && nodes_name ns k s))
unfolding visit_nodes visit_node was_visited
visited-visit_nodes this_node c p [] q k s = ground arith
visited-visit_nodes this_node c p (n ∷ ns) q k s = elim (Option-cases (read_node n)) [
  | inl skipped ↦ rw (skipped, visit_nodes) (visited-visit_nodes this_node c p ns q k s)
  | inr ((id, state), taken) ↦
      rw (taken, visit_nodes)
        (visited-visit_nodes this_node (visit_node this_node c p id state) p ns q k s
          ∙ ground arith)
]

visited-visit_all :
    (this_node : ℕ) (c : Change) (doc : Document) (q k : ℕ) (s : NodeState)
    → was_visited (visit_all this_node c doc).visited q k s
      ≡ (was_visited c.visited q k s || names doc q k s)
unfolding visit_all
visited-visit_all this_node c [] q k s = ground arith
visited-visit_all this_node c ((p, none) ∷ doc) q k s = visited-visit_all this_node c doc q k s
visited-visit_all this_node c ((p, some ns) ∷ doc) q k s =
    visited-visit_all this_node (visit_nodes this_node c p ns) doc q k s
    ∙ ground (arith, visited-visit_nodes this_node c p ns q k s)

mapped_state-clean :
    (this_node : ℕ) (visited : Visited) (p : ℕ) (loc : Location) (k : ℕ) (s : NodeState)
    → mapped_state (clean this_node visited p loc).0 k ≡ some s
    → was_visited visited p k s ≡ true
unfolding clean is_mapped
mapped_state-clean this_node visited p [] k s e = cc
mapped_state-clean this_node visited p (n ∷ ns) k s e =
    ground (arith, free_is_free, mapped_state-clean this_node visited p ns k s)

clean-keeps :
    (this_node : ℕ) (visited : Visited) (p : ℕ) (loc : Location) (k : ℕ) (s : NodeState)
    → mapped_state loc k ≡ some s
    → was_visited visited p k s ≡ true
    → mapped_state (clean this_node visited p loc).0 k ≡ some s
unfolding clean is_mapped
clean-keeps this_node visited p [] k s e seen = cc
clean-keeps this_node visited p (n ∷ ns) k s e seen =
    ground (arith, free_is_free, clean-keeps this_node visited p ns k s)

state_at-clean_all :
    (this_node : ℕ) (visited : Visited) (m : PartitionMap) (q k : ℕ) (s : NodeState)
    → state_at (clean_all this_node visited m).0 q k ≡ some s
    → was_visited visited q k s ≡ true
unfolding clean_all find
state_at-clean_all this_node visited [] q k s e = cc
state_at-clean_all this_node visited ((p, loc) ∷ m) q k s e = elim (Bool-cases (p == q)) [
  | inl here ↦
      let same : p ≡ q = ground arith in
      rw (← same) (mapped_state-clean this_node visited p loc k s (ground arith))
  | inr there ↦ state_at-clean_all this_node visited m q k s (ground arith)
]

clean_all-keeps :
    (this_node : ℕ) (visited : Visited) (m : PartitionMap) (q k : ℕ) (s : NodeState)
    → state_at m q k ≡ some s
    → was_visited visited q k s ≡ true
    → state_at (clean_all this_node visited m).0 q k ≡ some s
unfolding clean_all find
clean_all-keeps this_node visited [] q k s e seen = cc
clean_all-keeps this_node visited ((p, loc) ∷ m) q k s e seen = elim (Bool-cases (p == q)) [
  | inl here ↦
      let same : p ≡ q = ground arith in
      rw here (clean-keeps this_node visited p loc k s (ground arith) (rw same seen))
  | inr there ↦ rw there (clean_all-keeps this_node visited m q k s (ground arith) seen)
]

-- After `changeMapping` no node is mapped to a partition in a state that the new configuration does
-- not name: what it does not name is freed.
pub state_at-change_mapping :
    (this_node : ℕ) (m : PartitionMap) (config : Document) (q k : ℕ) (s : NodeState)
    → state_at (change_mapping this_node m config).0 q k ≡ some s
    → names config q k s ≡ true
unfolding change_mapping was_visited
state_at-change_mapping this_node m config q k s e =
    let start : Change = record { mapping = m; visited = []; new_partitions = [] } in
    sym (visited-visit_all this_node start config q k s)
    ∙ state_at-clean_all this_node (visit_all this_node start config).visited
        (visit_all this_node start config).mapping q k s e

-- What the `setState` calls of `changeMapping` have left of a named node and state is kept.
pub change_mapping-keeps :
    (this_node : ℕ) (m : PartitionMap) (config : Document) (q k : ℕ) (s : NodeState)
    → state_at
        (visit_all this_node
          (record { mapping = m; visited = []; new_partitions = [] })
          config).mapping
        q
        k
      ≡ some s
    → names config q k s ≡ true
    → state_at (change_mapping this_node m config).0 q k ≡ some s
unfolding change_mapping was_visited
change_mapping-keeps this_node m config q k s e named =
    let start : Change = record { mapping = m; visited = []; new_partitions = [] } in
    clean_all-keeps this_node (visit_all this_node start config).visited
      (visit_all this_node start config).mapping q k s e
      (visited-visit_all this_node start config q k s ∙ named)
