-- ===== src/StoragePolicy/Searches.antt =====
-- cpp/src/policies/storage/storage_policy_state.cpp: the searches of the residency entries for the
-- segment that was used last, or written first, the longest ago. The counters of `StoragePolicyWork`
-- are not modelled: no decision reads them.
pub mod Least
use dwpdsim.Base.{
  ℕ, Bool, true, false, List, [], ◌∷◌, Option, none, some, Result, ok, err, out_of_range, ◌>>=◌,
  or_fail, add64, contains, min, max, ltb, ◌==◌, ◌&&◌, ◌||◌, not, if◌then◌else◌,
}
use dwpdsim.Types.{NodeId, TimestampNs, StorageTier, PerTier, at_tier, change_tier, tier_eq}
use dwpdsim.RadixTree.{RadixTree, has_node}
use dwpdsim.RadixTree.Walks.{segment_leaf_for}
use dwpdsim.StorageView.{
  StorageView, is_storage_leaf, resident_blocks, resident_nodes, intersects_protected,
}
use dwpdsim.StoragePolicy.{
  StorageMutation, StorageMutationKind, dump_write_committed, capacity_trim_committed,
  idle_trim_committed, relocation_read_committed, relocation_write_committed,
  relocation_source_trim_committed, storage_access_committed, node_pruned,
}
use dwpdsim.StoragePolicy.Entries.{Entry, Entries, PolicyState, lookup}

pub record SegmentTime : Type 0 where
  pub endpoint : NodeId
  pub timestamp_ns : TimestampNs

-- `entries_.at(k).field` over the nodes, folded by `std::min` or `std::max`.
unfoldable pub fold_times :
    Entries → (Entry → ℕ) → (ℕ → ℕ → ℕ) → ℕ → List NodeId → Result TimestampNs
unfolding lookup
fold_times m field pick acc [] = ok acc
fold_times m field pick acc (k ∷ ks) =
    or_fail (lookup k m) out_of_range >>= λ e. fold_times m field pick (pick acc (field e)) ks

unfoldable pub segment_first_ns :
    PolicyState → NodeId → StorageTier → StorageView → Result TimestampNs
unfolding fold_times
segment_first_ns s endpoint tier view = do
  nodes ← resident_nodes view endpoint tier
  fold_times s.entries (λ e. e.first_ns) min 18446744073709551615 nodes

unfoldable pub segment_last_ns :
    PolicyState → NodeId → StorageTier → StorageView → Result TimestampNs
unfolding fold_times
segment_last_ns s endpoint tier view = do
  nodes ← resident_nodes view endpoint tier
  fold_times s.entries (λ e. e.last_ns) max 0 nodes

abbrev earlier : SegmentTime → SegmentTime → Bool
earlier a b =
    ltb a.timestamp_ns b.timestamp_ns
    || (a.timestamp_ns == b.timestamp_ns && ltb a.endpoint b.endpoint)

-- The better of a candidate and the best one so far.
unfoldable pub improve : SegmentTime → Option SegmentTime → Option SegmentTime
improve c none = some c
improve c (some b) = if earlier c b then some c else some b

-- What a search carries: the endpoints seen and the best candidate.
pub record Search : Type 0 where
  pub visited : List NodeId
  pub best : Option SegmentTime

-- Whether an unseen endpoint is a candidate for `lru_leaf`; each test is made only if those before
-- it passed.
unfoldable pub is_candidate : StorageTier → List NodeId → StorageView → NodeId → Result Bool
is_candidate tier protected_nodes view endpoint = do
  leaf ← is_storage_leaf view endpoint
  if leaf
      then (do
        blocks ← resident_blocks view endpoint tier
        if blocks == 0
            then ok false
            else (do hit ← intersects_protected view endpoint protected_nodes; ok (not hit)))
      else ok false

unfoldable pub lru_step :
    PolicyState → StorageTier → List NodeId → StorageView → NodeId → Search → Result Search
unfolding is_candidate segment_last_ns improve
lru_step s tier protected_nodes view node_id k = do
  endpoint ← segment_leaf_for view.tree node_id
  if contains k.visited endpoint then ok k else (do
    let seen = record k { visited = endpoint ∷ k.visited }
    candidate ← is_candidate tier protected_nodes view endpoint
    if candidate
        then (do
          last ← segment_last_ns s endpoint tier view
          ok (record seen {
            best = improve (record { endpoint = endpoint; timestamp_ns = last }) k.best;
          }))
        else ok seen)

-- The scan of the entries; an entry of the other tier, or of a node that is gone, is passed over.
unfoldable pub scan_entries :
    (NodeId → Search → Result Search) → StorageTier → RadixTree → Entries → Search → Result Search
scan_entries step tier tree [] k = ok k
scan_entries step tier tree ((node_id, e) ∷ m) k =
    (if tier_eq e.tier tier && has_node tree node_id then step node_id k else ok k) >>= λ k'.
    scan_entries step tier tree m k'

unfoldable pub lru_leaf :
    PolicyState → StorageTier → List NodeId → StorageView → Result (Option SegmentTime)
unfolding lru_step scan_entries
lru_leaf s tier protected_nodes view = do
  k ←
      scan_entries (lru_step s tier protected_nodes view) tier view.tree s.entries
        (record { visited = []; best = none })
  ok k.best

unfoldable pub oldest_step :
    PolicyState → StorageTier → StorageView → NodeId → Search → Result Search
unfolding segment_first_ns improve
oldest_step s tier view node_id k = do
  endpoint ← segment_leaf_for view.tree node_id
  if contains k.visited endpoint then ok k else (do
    let seen = record k { visited = endpoint ∷ k.visited }
    blocks ← resident_blocks view endpoint tier
    if blocks == 0 then ok seen else (do
      first ← segment_first_ns s endpoint tier view
      ok (record seen {
        best = improve (record { endpoint = endpoint; timestamp_ns = first }) k.best;
      })))

unfoldable pub oldest_segment :
    PolicyState → StorageTier → StorageView → Result (Option SegmentTime)
unfolding oldest_step scan_entries
oldest_segment s tier view = do
  k ←
      scan_entries (oldest_step s tier view) tier view.tree s.entries
        (record { visited = []; best = none })
  ok k.best
