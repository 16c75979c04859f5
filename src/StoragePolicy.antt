-- ===== src/StoragePolicy.antt =====
-- cpp/include/dwpdsim/policies/storage/storage_policy.hpp: the contexts, intents and mutations that
-- the simulator and a storage policy exchange, and the policy's interface. The `State` is that of
-- the policy object; a `const` method may change its `mutable` work counters, so the methods that
-- search return the state too.
pub mod Entries
pub mod Searches
pub mod Fixed
pub mod Fused
pub mod Ratio
pub mod Affinity
pub mod Placements
pub mod RoundRobin
use dwpdsim.Base.{ℕ, Bool, Option, List, Result}
use dwpdsim.Types.{
  NodeId, TimestampNs, StorageTier, Placement, StorageLocation, RequestContext, AccessContext,
  CapacityCause, RelocationCause,
}
use dwpdsim.StorageView.{StorageView, SegmentView}

pub record DumpContext : Type 0 where
  pub request : RequestContext
  pub segment : SegmentView
  pub write_nodes : List NodeId
  pub write_blocks : ℕ
  pub write_bytes : ℕ
  pub protected_nodes : List NodeId

pub record CapacityPressureContext : Type 0 where
  pub timestamp_ns : TimestampNs
  pub cause : CapacityCause
  pub target_tier : StorageTier
  pub required_blocks : ℕ
  pub protected_nodes : List NodeId

pub record StorageAccessContext : Type 0 where
  pub access : AccessContext
  pub source : StorageLocation

pub record TrimIntent : Type 0 where
  pub segment_endpoint : NodeId
  pub tier : StorageTier

pub record RelocateIntent : Type 0 where
  pub source_segment_endpoint : NodeId
  pub destination : Placement
  pub cause : RelocationCause

pub data StorageActionIntent : Type 0 where
  trim : TrimIntent → StorageActionIntent
  relocate : RelocateIntent → StorageActionIntent

pub data StorageMutationKind : Type 0 where
  dump_write_committed capacity_trim_committed idle_trim_committed : StorageMutationKind
  relocation_read_committed relocation_write_committed : StorageMutationKind
  relocation_source_trim_committed storage_access_committed node_pruned : StorageMutationKind

pub record StorageMutation : Type 0 where
  pub kind : StorageMutationKind
  pub timestamp_ns : TimestampNs
  pub affinity_id : ℕ
  pub segment_endpoint : NodeId
  pub nodes : List NodeId
  pub placement : Placement
  pub source_tier : StorageTier
  pub bytes : ℕ

-- `Feedback` is the type of what a closed feedback window reports.
pub record StoragePolicy (Feedback : Type 0) : Type 1 where
  pub State : Type 0
  pub background_period_ns : State → TimestampNs
  pub on_request_begin : RequestContext → StorageView → State → Result State
  pub on_node_created : NodeId → StorageView → State → Result State
  pub on_node_pruned : NodeId → Option NodeId → StorageView → State → Result State
  pub on_shadow_feedback : Feedback → StorageView → State → Result State
  pub place_dump : DumpContext → StorageView → State → Result Placement
  pub capacity_limit_blocks : StorageTier → StorageView → State → ℕ
  pub reclaim_for :
      CapacityPressureContext → StorageView → State → Result (Option StorageActionIntent × State)
  pub next_background_action :
      TimestampNs → StorageView → State → Result (Option StorageActionIntent × State)
  pub on_storage_access :
      StorageAccessContext → StorageView → State → Result (Option StorageActionIntent × State)
  pub on_commit : StorageMutation → StorageView → State → Result State
