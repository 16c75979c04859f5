-- ===== src/StoragePolicy/Fused.antt =====
-- `lru_leaf_fused` of cpp/src/policies/storage/storage_policy_state.cpp: the scan for the least
-- recently used leaf segment that visits the nodes of a segment once.
use dwpdsim.Base.{
  Bool, false, List, [], ◌∷◌, ◌++◌, Option, none, Result, ok, out_of_range, ◌>>=◌, or_fail,
  contains, max, ◌&&◌, ◌||◌, not, if◌then◌else◌,
}
use dwpdsim.Types.{NodeId, TimestampNs, StorageTier, tier_eq}
use dwpdsim.RadixTree.{RadixTree, node}
use dwpdsim.RadixTree.Walks.{segment_leaf_for, resolve_segment, has_storage_descendant}
use dwpdsim.StorageView.{StorageView, resident_on}
use dwpdsim.StoragePolicy.Entries.{Entries, PolicyState, lookup}
use dwpdsim.StoragePolicy.Searches.{SegmentTime, improve}

-- What the scan carries: the nodes seen and the best candidate.
pub record FusedSearch : Type 0 where
  pub visited_nodes : List NodeId
  pub best : Option SegmentTime

-- What is known of a segment: its last access and whether a node of it is protected.
pub record SegmentScan : Type 0 where
  pub last_ns : TimestampNs
  pub protected_segment : Bool

unfoldable pub scan_nodes :
    Entries → StorageTier → List NodeId → RadixTree → List NodeId → SegmentScan → Result SegmentScan
unfolding lookup
scan_nodes entries tier protected_nodes tree [] k = ok k
scan_nodes entries tier protected_nodes tree (x ∷ xs) k = node tree x >>= λ n.
    (if resident_on tier n
      then (do e ← or_fail (lookup x entries) out_of_range; ok (max k.last_ns e.last_ns))
      else ok k.last_ns)
    >>= λ last. scan_nodes entries tier protected_nodes tree xs (record {
      last_ns = last;
      protected_segment = k.protected_segment || contains protected_nodes x;
    })

unfoldable pub fused_step :
    PolicyState
    → StorageTier
    → List NodeId
    → StorageView
    → NodeId
    → FusedSearch
    → Result FusedSearch
unfolding scan_nodes improve
fused_step s tier protected_nodes view node_id k = do
  endpoint ← segment_leaf_for view.tree node_id
  nodes ← resolve_segment view.tree endpoint
  scan ←
      scan_nodes s.entries tier protected_nodes view.tree nodes
        (record { last_ns = 0; protected_segment = false })
  let seen = record k { visited_nodes = nodes ++ k.visited_nodes }
  if scan.protected_segment then ok seen else (do
    below ← has_storage_descendant view.tree endpoint
    ok (
        if below then seen else record seen {
          best = improve (record { endpoint = endpoint; timestamp_ns = scan.last_ns }) k.best;
        }))

unfoldable pub fused_entries :
    PolicyState
    → StorageTier
    → List NodeId
    → StorageView
    → Entries
    → FusedSearch
    → Result FusedSearch
unfolding fused_step
fused_entries s tier protected_nodes view [] k = ok k
fused_entries s tier protected_nodes view ((node_id, e) ∷ m) k =
    (if tier_eq e.tier tier && not (contains k.visited_nodes node_id)
      then fused_step s tier protected_nodes view node_id k
      else ok k)
    >>= λ k'. fused_entries s tier protected_nodes view m k'

unfoldable pub lru_leaf_fused :
    PolicyState → StorageTier → List NodeId → StorageView → Result (Option SegmentTime)
unfolding fused_entries
lru_leaf_fused s tier protected_nodes view = do
  k ←
      fused_entries s tier protected_nodes view s.entries
        (record { visited_nodes = []; best = none })
  ok k.best
