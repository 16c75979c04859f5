-- ===== src/Tests/Trees.antt =====
-- Small trees, and the victim of an eviction over one.
use dwpdsim.Base.{
  ℕ, ◌<◌, ◌≤◌, ◌≡◌, refl, Bool, true, [], ◌∷◌, Option, Result, is_ok, the, the_lem, arith, length,
}
use dwpdsim.Types.{NodeId, RequestContext}
use dwpdsim.RadixTree.{RadixTree, new_tree, get_or_create_at}
use dwpdsim.RadixTree.Updates.{detach_leaf, release_detached}
use dwpdsim.RadixTree.Slots.{
  IsIndexed, new_tree-IsIndexed, detach_leaf-IsIndexed, release_detached-IsIndexed,
}
use dwpdsim.RadixTree.Creation.{Enters, get_or_create_at-Enters}
use dwpdsim.MemoryPolicy.{MemoryEvictionDecision}
use dwpdsim.MemoryPolicy.Baseline.{BaselineMemoryLruPolicy, evict}
use dwpdsim.MemoryPolicy.Baseline.Victims.{IsLeastRecent, evict-IsLeastRecent}
use dwpdsim.Tests.Scenario.{code}
use dwpdsim.Tests.Policies.{two_linked, two_linked-Holds}

abbrev first_created : Result (NodeId × Bool × RadixTree)
first_created = get_or_create_at new_tree 0 7 10

first_created_ok : is_ok first_created ≡ true
unfolding code
first_created_ok = refl

abbrev one_node : RadixTree
one_node = (the first_created first_created_ok).2

new_tree_room : new_tree.nodes.size < 4294967296
unfolding new_tree
new_tree_room = omega arith

get_or_create_at-Enters_example : Enters new_tree 7 (the first_created first_created_ok).0 one_node
get_or_create_at-Enters_example =
    get_or_create_at-Enters new_tree one_node 0 7 (the first_created first_created_ok).0 10
      (the first_created first_created_ok).1 new_tree-IsIndexed new_tree_room
      (the_lem first_created first_created_ok)

one_node-IsIndexed : IsIndexed one_node
one_node-IsIndexed =
    (get_or_create_at-Enters new_tree one_node 0 7 (the first_created first_created_ok).0 10
      (the first_created first_created_ok).1 new_tree-IsIndexed new_tree_room
      (the_lem first_created first_created_ok)).indexed

abbrev second_created : Result (NodeId × Bool × RadixTree)
second_created = get_or_create_at one_node 0 3 11

second_created_ok : is_ok second_created ≡ true
unfolding code
second_created_ok = refl

abbrev two_nodes : RadixTree
two_nodes = (the second_created second_created_ok).2

abbrev cut : Result (Option NodeId × RadixTree)
cut = detach_leaf one_node 7

cut_ok : is_ok cut ≡ true
unfolding code
cut_ok = refl

detach_leaf-IsIndexed_example : IsIndexed (the cut cut_ok).1
detach_leaf-IsIndexed_example =
    detach_leaf-IsIndexed one_node 7 (the cut cut_ok).0 (the cut cut_ok).1 one_node-IsIndexed
      (the_lem cut cut_ok)

abbrev dropped : Result RadixTree
dropped = release_detached (the cut cut_ok).1 7

dropped_ok : is_ok dropped ≡ true
unfolding code
dropped_ok = refl

cut-IsIndexed : IsIndexed (the cut cut_ok).1
cut-IsIndexed =
    detach_leaf-IsIndexed one_node 7 (the cut cut_ok).0 (the cut cut_ok).1 one_node-IsIndexed
      (the_lem cut cut_ok)

release_detached-IsIndexed_example : IsIndexed (the dropped dropped_ok)
release_detached-IsIndexed_example =
    release_detached-IsIndexed (the cut cut_ok).1 (the dropped dropped_ok) 7 cut-IsIndexed
      (the_lem dropped dropped_ok)

abbrev some_request : RequestContext
some_request = record {
  timestamp_ns = 12;
  request_id = 1;
  affinity_id = 0;
  ordered_hashes = [];
  protected_prefix = [];
}

abbrev decided : Result (MemoryEvictionDecision × BaselineMemoryLruPolicy)
decided = evict some_request two_nodes two_linked

decided_ok : is_ok decided ≡ true
unfolding code
decided_ok = refl

decided_victim : (the decided decided_ok).0.leaf_segment_endpoint ≡ 3
unfolding code
decided_victim = refl

two_nodes_room : length {A = ℕ} (7 ∷ 3 ∷ []) ≤ two_nodes.nodes.size
unfolding code
two_nodes_room = omega arith

evict-IsLeastRecent_example :
    IsLeastRecent two_nodes (7 ∷ 3 ∷ []) (the decided decided_ok).0.leaf_segment_endpoint
evict-IsLeastRecent_example =
    evict-IsLeastRecent two_nodes some_request two_linked (the decided decided_ok).1 (7 ∷ 3 ∷ [])
      (the decided decided_ok).0 two_linked-Holds two_nodes_room (the_lem decided decided_ok)
