-- ===== src/Simulator/Trimming.antt =====
-- `execute_trim` of cpp/src/simulator.cpp: the blocks of a segment on one tier are given up.
use dwpdsim.Base.{
  ℕ, Bool, true, false, List, [], ◌∷◌, none, Result, ok, ◌>>=◌, for_each, length, mul64,
  if◌then◌else◌,
}
use dwpdsim.Types.{
  NodeId, trim_op, TraceReason, storage_location, clear_storage_location, change_tier,
}
use dwpdsim.RadixTree.{node}
use dwpdsim.Storage.{release}
use dwpdsim.StorageView.{resident_nodes}
use dwpdsim.StoragePolicy.{
  TrimIntent, StorageMutationKind, capacity_trim_committed, idle_trim_committed,
}
use dwpdsim.Metrics.{storage_removed, add_counts, Metrics}
use dwpdsim.Trace.{TraceContext}
use dwpdsim.Simulator.{
  Parts, Simulator, view, on_metrics, on_node, count_io, emit_io, shadow_loss,
  notify_storage_commit,
}
use dwpdsim.Simulator.Pruning.{prune_segment}

pub data ActionPlane : Type 0 where
  capacity background : ActionPlane

abbrev pub trim_reason : ActionPlane → TraceReason
trim_reason capacity = TraceReason.capacity_eviction
trim_reason background = TraceReason.idle_eviction

abbrev pub trim_kind : ActionPlane → StorageMutationKind
trim_kind capacity = capacity_trim_committed
trim_kind background = idle_trim_committed

abbrev pub count_trim : ActionPlane → ℕ → ℕ → Metrics → Metrics
count_trim capacity blocks size m = record m {
  foreground_capacity_evictions = add_counts blocks size m.foreground_capacity_evictions;
}
count_trim background blocks size m = record m {
  background_idle_evictions = add_counts blocks size m.background_idle_evictions;
}

module _ (P : Parts) where
  unfoldable pub trim_node :
      TraceReason → TraceContext → NodeId → Simulator P → Result (Simulator P)
  trim_node reason context h s = do
    n ← node s.tree h
    let location = storage_location n
    out ← emit_io P context h trim_op n location reason none none s
    s1 ← count_io P trim_op location.tier location.stream_id false out.1
    let s2 : Simulator P = on_metrics P (storage_removed location.tier n.in_memory) (record s1 {
      storage = change_tier location.tier (release location.block_address) s1.storage;
    })
    s3 ← on_node P h clear_storage_location s2
    ok (if n.in_memory then s3 else shadow_loss P h context.timestamp_ns s3)

  unfoldable pub trim_nodes :
      TrimIntent
      → ActionPlane
      → TraceContext
      → List NodeId
      → Simulator P
      → Result (Bool × Simulator P)
  unfolding trim_node for_each
  trim_nodes intent plane context nodes s = do
    s1 ← for_each nodes (trim_node (trim_reason plane) context) s
    s2 ←
        notify_storage_commit P
          (record {
            kind = trim_kind plane;
            timestamp_ns = context.timestamp_ns;
            affinity_id = 0;
            segment_endpoint = intent.segment_endpoint;
            nodes = nodes;
            placement = record { tier = intent.tier; stream_id = 0 };
            source_tier = intent.tier;
            bytes = mul64 (length nodes) s1.config.block_size_bytes;
          })
          s1
    s3 ←
        prune_segment P nodes
          (on_metrics P (count_trim plane (length nodes) s2.config.block_size_bytes) s2)
    ok (true, s3)

  -- A segment that has no block on the tier is no progress.
  unfoldable pub execute_trim :
      TrimIntent → ActionPlane → TraceContext → Simulator P → Result (Bool × Simulator P)
  unfolding trim_nodes
  execute_trim intent plane context s = do
    nodes ← resident_nodes (view P s) intent.segment_endpoint intent.tier
    elim nodes [
      | [] ↦ ok (false, s)
      | first ∷ others ↦ trim_nodes intent plane context (first ∷ others) s
    ]
