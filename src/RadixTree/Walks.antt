-- ===== src/RadixTree/Walks.antt =====
-- cpp/src/radix_tree.cpp: the loops over the tree. A loop that climbs or descends is given as many
-- rounds as the vector has cells, a loop over siblings too, and the search for a resident
-- descendant pops each cell once. Each vector that the source grows at its back is a list with the
-- back first.
use dwpdsim.Base.{
  ℕ, suc, zero, Bool, true, false, List, [], ◌∷◌, Option, none, some, Result, ok, err, out_of_fuel,
  ◌>>=◌, Vector, read, ◌==◌, leb, if◌then◌else◌, reverse,
}
use dwpdsim.Types.{NodeId, NodeSlot, Node, invalid_node_slot}
use dwpdsim.RadixTree.{NodeRecord, RadixTree, slot, id, root_slot}

-- The slot of the parent, or none where the climb out of a segment stops: at a child of the root and
-- below a node with two children or more.
unfoldable pub segment_parent : Vector NodeRecord → NodeSlot → Result (Option NodeSlot)
segment_parent v current = do
  r ← read v current
  if r.parent == root_slot
      then ok none
      else (do p ← read v r.parent; ok (if leb 2 p.child_count then none else some r.parent))

unfoldable pub climb : ℕ → Vector NodeRecord → NodeSlot → Result NodeSlot
unfolding segment_parent
climb zero v current = err out_of_fuel
climb (suc n) v current =
    segment_parent v current >>= λ p. elim p [ none ↦ ok current | some up ↦ climb n v up ]

unfoldable pub segment_top : RadixTree → NodeId → Result NodeId
unfolding slot climb id
segment_top t endpoint = do s ← slot t endpoint; top ← climb t.nodes.size t.nodes s; id t top

-- The identifiers met on the way up are pushed to the back; the source reverses them at the end.
unfoldable pub collect_up : ℕ → RadixTree → NodeSlot → List NodeId → Result (List NodeId)
unfolding segment_parent id
collect_up zero t current segment = err out_of_fuel
collect_up (suc n) t current segment = id t current >>= λ h. segment_parent t.nodes current >>= λ p.
    elim p [ none ↦ ok (h ∷ segment) | some up ↦ collect_up n t up (h ∷ segment) ]

unfoldable pub resolve_segment : RadixTree → NodeId → Result (List NodeId)
unfolding slot collect_up
resolve_segment t endpoint = do s ← slot t endpoint; collect_up t.nodes.size t s []

-- `std::sort` on identifiers.
abbrev pub insert_sorted : ℕ → List ℕ → List ℕ
insert_sorted a [] = a ∷ []
insert_sorted a (x ∷ xs) = if leb a x then a ∷ x ∷ xs else x ∷ insert_sorted a xs

abbrev pub sort : List ℕ → List ℕ
sort [] = []
sort (x ∷ xs) = insert_sorted x (sort xs)

-- The slots of a child and of its later siblings, pushed to the back of `pending`.
unfoldable pub push_siblings :
    ℕ → Vector NodeRecord → NodeSlot → List NodeSlot → Result (List NodeSlot)
push_siblings zero v child pending =
    if child == invalid_node_slot then ok pending else err out_of_fuel
push_siblings (suc n) v child pending = elim (child == invalid_node_slot) [
  | true ↦ ok pending
  | false ↦ read v child >>= λ r. push_siblings n v r.next_sibling (child ∷ pending)
]

unfoldable pub push_children : Vector NodeRecord → NodeSlot → List NodeSlot → Result (List NodeSlot)
unfolding push_siblings
push_children v s pending = do r ← read v s; push_siblings v.size v r.first_child pending

unfoldable pub ids_of : RadixTree → List NodeSlot → Result (List NodeId)
unfolding id
ids_of t [] = ok []
ids_of t (s ∷ ss) = do h ← id t s; hs ← ids_of t ss; ok (h ∷ hs)

unfoldable pub children : RadixTree → NodeId → Result (List NodeId)
unfolding slot push_children ids_of
children t h = do
  s ← slot t h
  slots ← push_children t.nodes s []
  hs ← ids_of t slots
  ok (sort (reverse hs))

-- Depth-first search of the records below, by the pending slots.
unfoldable pub search_below : ℕ → Vector NodeRecord → (Node → Bool) → List NodeSlot → Result Bool
unfolding push_children
search_below zero v test [] = ok false
search_below zero v test (s ∷ pending) = err out_of_fuel
search_below (suc n) v test [] = ok false
search_below (suc n) v test (s ∷ pending) = read v s >>= λ r. elim (test r.node) [
  | true ↦ ok true
  | false ↦ push_children v s pending >>= λ more. search_below n v test more
]

unfoldable pub has_descendant : (Node → Bool) → RadixTree → NodeId → Result Bool
unfolding slot push_children search_below
has_descendant test t h = do
  s ← slot t h
  pending ← push_children t.nodes s []
  search_below t.nodes.size t.nodes test pending

unfoldable pub has_memory_descendant : RadixTree → NodeId → Result Bool
unfolding has_descendant
has_memory_descendant t h = has_descendant (λ n. n.in_memory) t h

unfoldable pub has_storage_descendant : RadixTree → NodeId → Result Bool
unfolding has_descendant
has_storage_descendant t h = has_descendant (λ n. n.on_storage) t h

unfoldable pub descend : ℕ → Vector NodeRecord → NodeSlot → Result NodeSlot
descend zero v current = err out_of_fuel
descend (suc n) v current = read v current >>= λ r. elim (r.child_count == 1) [
  | true ↦ descend n v r.first_child
  | false ↦ ok current
]

unfoldable pub segment_leaf_for : RadixTree → NodeId → Result NodeId
unfolding slot descend id
segment_leaf_for t h = do s ← slot t h; leaf ← descend t.nodes.size t.nodes s; id t leaf
