-- ===== src/StorageView.antt =====
-- `SegmentView` and `StorageView` of cpp/include/dwpdsim/policies/storage/storage_policy.hpp and
-- cpp/src/policies/storage/storage_policy.cpp: what the storage policies see of the tree and of the
-- tiers.
use dwpdsim.Base.{
  ℕ, Bool, true, false, List, [], ◌∷◌, Result, ok, ◌>>=◌, length, contains, ◌&&◌, not,
  if◌then◌else◌,
}
use dwpdsim.Types.{NodeId, Node, StorageTier, tier_eq}
use dwpdsim.RadixTree.{RadixTree, node}
use dwpdsim.RadixTree.Walks
use dwpdsim.RadixTree.Walks.{segment_top, has_storage_descendant}
use dwpdsim.Storage.{StorageState}

pub record SegmentView : Type 0 where
  pub segment_top : NodeId
  pub segment_endpoint : NodeId
  pub ordered_nodes : List NodeId

pub record StorageView : Type 0 where
  pub tree : RadixTree
  pub storage : StorageState
  pub block_size_bytes : ℕ

unfoldable pub resolve_segment : StorageView → NodeId → Result SegmentView
resolve_segment v endpoint = do
  top ← segment_top v.tree endpoint
  nodes ← Walks.resolve_segment v.tree endpoint
  ok (record { segment_top = top; segment_endpoint = endpoint; ordered_nodes = nodes })

-- `std::any_of`, which stops at the first node that passes.
unfoldable pub any_node : RadixTree → (Node → Bool) → List NodeId → Result Bool
any_node t test [] = ok false
any_node t test (h ∷ hs) =
    node t h >>= λ n. elim (test n) [ true ↦ ok true | false ↦ any_node t test hs ]

unfoldable pub is_storage_leaf : StorageView → NodeId → Result Bool
unfolding resolve_segment any_node
is_storage_leaf v endpoint = do
  segment ← resolve_segment v endpoint
  resident ← any_node v.tree (λ n. n.on_storage) segment.ordered_nodes
  if resident then (do below ← has_storage_descendant v.tree endpoint; ok (not below)) else ok false

abbrev pub resident_on : StorageTier → Node → Bool
resident_on tier n = n.on_storage && tier_eq n.storage_tier tier

-- The listed nodes that pass a test, in order.
unfoldable pub select_nodes : RadixTree → (Node → Bool) → List NodeId → Result (List NodeId)
select_nodes t test [] = ok []
select_nodes t test (h ∷ hs) = do
  n ← node t h
  rest ← select_nodes t test hs
  ok (if test n then h ∷ rest else rest)

unfoldable pub resident_nodes : StorageView → NodeId → StorageTier → Result (List NodeId)
unfolding resolve_segment select_nodes
resident_nodes v endpoint tier = do
  segment ← resolve_segment v endpoint
  select_nodes v.tree (resident_on tier) segment.ordered_nodes

-- `std::count_if` over the same test.
unfoldable pub resident_blocks : StorageView → NodeId → StorageTier → Result ℕ
unfolding resolve_segment select_nodes
resident_blocks v endpoint tier = do
  segment ← resolve_segment v endpoint
  nodes ← select_nodes v.tree (resident_on tier) segment.ordered_nodes
  ok (length nodes)

abbrev pub any_contained : List NodeId → List NodeId → Bool
any_contained [] protected_nodes = false
any_contained (h ∷ hs) protected_nodes =
    if contains protected_nodes h then true else any_contained hs protected_nodes

unfoldable pub intersects_protected : StorageView → NodeId → List NodeId → Result Bool
unfolding resolve_segment
intersects_protected v endpoint protected_nodes = do
  segment ← resolve_segment v endpoint
  ok (any_contained segment.ordered_nodes protected_nodes)
