-- ===== src/Simulator/Dumping.antt =====
-- `dump_segment` of cpp/src/simulator.cpp: blocks that leave memory are written to storage.
use dwpdsim.Base.{
  ℕ, Bool, true, false, List, ◌++◌, none, Result, ok, ◌>>=◌, for_each, length, add64, mul64,
  if◌then◌else◌,
}
use dwpdsim.Types.{
  NodeId, StorageTier, StorageLocation, Placement, tlc, write_op, TraceReason, CapacityCause,
  AccessContext, set_storage_location, at_tier, change_tier,
}
use dwpdsim.RadixTree.{node}
use dwpdsim.Storage.{allocate, record_unaddressed_write}
use dwpdsim.StorageView.{SegmentView}
use dwpdsim.StoragePolicy.{dump_write_committed}
use dwpdsim.Metrics.{storage_written, add_counts}
use dwpdsim.Simulator.{
  Parts, Simulator, view, on_metrics, on_node, count_io, emit_io, notify_storage_commit,
  trace_context,
}
use dwpdsim.Simulator.Capacity.{ensure_capacity}

module _ (P : Parts) where
  abbrev count_dump : StorageTier → ℕ → Simulator P → Simulator P
  count_dump tier blocks s =
      on_metrics P
        (λ m. record m {
          dumps_admitted = add_counts blocks s.config.block_size_bytes m.dumps_admitted;
          placements = change_tier tier (add_counts blocks s.config.block_size_bytes) m.placements;
        })
        s

  unfoldable pub write_unaddressed : NodeId → Simulator P → Result (Simulator P)
  write_unaddressed h s = do
    s1 ←
        on_node P h (set_storage_location (record { tier = tlc; block_address = 0; stream_id = 0 }))
          s
    n ← node s1.tree h
    let s2 : Simulator P =
        on_metrics P (storage_written tlc n.in_memory)
          (record s1 { storage = change_tier tlc record_unaddressed_write s1.storage })
    count_io P write_op tlc 0 true s2

  unfoldable pub write_dumped :
      AccessContext → Placement → NodeId → Simulator P → Result (Simulator P)
  write_dumped context placement h s = do
    let a = allocate (at_tier placement.tier s.storage)
    let location : StorageLocation = record {
      tier = placement.tier;
      block_address = a.0;
      stream_id = placement.stream_id;
    }
    s1 ←
        on_node P h (set_storage_location location)
          (record s { storage = change_tier placement.tier (λ old. a.1) s.storage })
    n ← node s1.tree h
    s2 ←
        count_io P write_op placement.tier placement.stream_id true
          (on_metrics P (storage_written placement.tier n.in_memory) s1)
    out ←
        emit_io P (trace_context context) h write_op n location TraceReason.memory_dump none none s2
    ok out.1

  unfoldable pub dump_admitted :
      AccessContext
      → SegmentView
      → List NodeId
      → Placement
      → Simulator P
      → Result (Bool × Simulator P)
  unfolding write_dumped for_each
  dump_admitted context segment write_nodes placement s = do
    s1 ← for_each write_nodes (write_dumped context placement) s
    s2 ←
        notify_storage_commit P
          (record {
            kind = dump_write_committed;
            timestamp_ns = context.request.timestamp_ns;
            affinity_id = context.request.affinity_id;
            segment_endpoint = segment.segment_endpoint;
            nodes = write_nodes;
            placement = placement;
            source_tier = placement.tier;
            bytes = mul64 (length write_nodes) s.config.block_size_bytes;
          })
          s1
    ok (true, count_dump placement.tier (length write_nodes) s2)

  unfoldable pub dump_segment :
      AccessContext → SegmentView → List NodeId → Simulator P → Result (Bool × Simulator P)
  unfolding write_unaddressed dump_admitted for_each
  dump_segment context segment write_nodes s0 =
      let s : Simulator P =
        on_metrics P (λ m. record m { dump_requests = add64 m.dump_requests 1 }) s0 in
      if s.config.infinite_storage
      then (do
        s1 ← for_each write_nodes write_unaddressed s
        ok (true, count_dump tlc (length write_nodes) s1))
      else (do
        let protected_nodes = context.request.protected_prefix ++ segment.ordered_nodes
        placement ←
            P.storage_policy.place_dump
              (record {
                request = context.request;
                segment = segment;
                write_nodes = write_nodes;
                write_blocks = length write_nodes;
                write_bytes = mul64 (length write_nodes) s.config.block_size_bytes;
                protected_nodes = protected_nodes;
              })
              (view P s) s.storage_state
        room ←
            ensure_capacity P placement.tier (length write_nodes) CapacityCause.dump_admission
              protected_nodes (trace_context context) s
        if room.0
            then dump_admitted context segment write_nodes placement room.1
            else ok (
              false,
              on_metrics P
                  (λ m. record m {
                    admission_rejections = add64 m.admission_rejections 1;
                    dumps_rejected =
                        add_counts (length write_nodes) s.config.block_size_bytes m.dumps_rejected;
                  })
                  room.1,
            ))
