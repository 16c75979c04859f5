-- ===== src/Simulator/Access.antt =====
-- `process_access` of cpp/src/simulator.cpp: one block of a request is looked for in memory, then on
-- storage, and is computed anew if it is in neither.
use dwpdsim.Base.{
  ℕ, Bool, true, false, ◌++◌, Option, none, some, Result, ok, ◌>>=◌, add64, if◌then◌else◌,
}
use dwpdsim.Types.{
  NodeId, Node, StorageTier, slc, tlc, StorageLocation, AccessResult, memory_hit, slc_hit, tlc_hit,
  global_miss, read_op, TraceReason, CapacityCause, AccessContext, storage_location,
}
use dwpdsim.RadixTree.{node}
use dwpdsim.RadixTree.Updates.{record_access}
use dwpdsim.RadixTree.Walks.{segment_leaf_for}
use dwpdsim.StorageView.{resolve_segment, resident_nodes, resident_blocks}
use dwpdsim.StoragePolicy.{
  RelocateIntent, StorageActionIntent, trim, relocate, storage_access_committed,
}
use dwpdsim.MemoryPolicy.{accessed}
use dwpdsim.Simulator.{
  Parts, Simulator, view, on_metrics, count_io, emit_io, notify_memory_commit,
  notify_storage_commit, trace_context,
}
use dwpdsim.Simulator.Relocation.{execute_relocation}
use dwpdsim.Simulator.Capacity.{ensure_capacity}
use dwpdsim.Simulator.Memory.{insert_into_memory}

abbrev pub hit_on : StorageTier → AccessResult
hit_on slc = slc_hit
hit_on tlc = tlc_hit

module _ (P : Parts) where
  abbrev pub on_access : NodeId → ℕ → Bool → Simulator P → Result (Simulator P)
  on_access h now hit s = do t ← record_access s.tree h now hit; ok (record s { tree = t })

  unfoldable pub read_hit :
      AccessContext → StorageLocation → Option ℕ → Simulator P → Result (ℕ × Simulator P)
  read_hit context source move s = do
    n ← node s.tree context.node_id
    out ←
        emit_io P (trace_context context) context.node_id read_op n source TraceReason.storage_hit
          move none s
    s1 ← count_io P read_op source.tier source.stream_id false out.1
    ok (out.0, s1)

  -- The policy's move of the segment that was hit; false when there is no room or it fails.
  unfoldable pub migrate_hit :
      AccessContext → StorageLocation → RelocateIntent → Simulator P → Result (Bool × Simulator P)
  unfolding read_hit
  migrate_hit context source intent s = do
    segment ← resolve_segment (view P s) intent.source_segment_endpoint
    let protected_nodes = context.request.protected_prefix ++ segment.ordered_nodes
    blocks ← resident_blocks (view P s) intent.source_segment_endpoint source.tier
    room ←
        ensure_capacity P intent.destination.tier blocks CapacityCause.access_migration
          protected_nodes (trace_context context) s
    if room.0
        then (do
          let move = room.1.next_move_id
          out ← read_hit context source (some move) (record room.1 { next_move_id = add64 move 1 })
          execute_relocation P (ensure_capacity P) intent protected_nodes (trace_context context)
              (record {
                reused_read_node = some context.node_id;
                reused_read_sequence = some out.0;
                capacity_ready = true;
                assigned_move_id = some move;
              })
              out.1)
        else ok (false, room.1)

  abbrev pub follow_action :
      AccessContext
      → StorageLocation
      → Option StorageActionIntent
      → Simulator P
      → Result (Bool × Simulator P)
  follow_action context source none s = ok (false, s)
  follow_action context source (some (trim intent)) s = ok (false, s)
  follow_action context source (some (relocate intent)) s = migrate_hit context source intent s

  -- A hit on finite storage.
  unfoldable pub access_storage :
      AccessContext → StorageLocation → Simulator P → Result (Simulator P)
  unfolding migrate_hit read_hit
  access_storage context source s = do
    endpoint ← segment_leaf_for s.tree context.node_id
    nodes ← resident_nodes (view P s) endpoint source.tier
    s1 ←
        notify_storage_commit P
          (record {
            kind = storage_access_committed;
            timestamp_ns = context.request.timestamp_ns;
            affinity_id = context.request.affinity_id;
            segment_endpoint = endpoint;
            nodes = nodes;
            placement = record { tier = source.tier; stream_id = source.stream_id };
            source_tier = source.tier;
            bytes = 0;
          })
          s
    out ←
        P.storage_policy.on_storage_access (record { access = context; source = source })
          (view P s1) s1.storage_state
    moved ← follow_action context source out.0 (record s1 { storage_state = out.1 })
    if moved.0 then ok moved.1 else (do r ← read_hit context source none moved.1; ok r.1)

  -- Whether a block that was found on storage is kept in memory.
  unfoldable pub promote : AccessContext → Simulator P → Result (Simulator P)
  promote context s = do
    n ← node s.tree context.node_id
    if P.memory_policy.admit_storage_hit context n s.tree s.memory_state
        then insert_into_memory P context.node_id context
            (on_metrics P (λ m. record m { storage_promotions = add64 m.storage_promotions 1 }) s)
        else ok (on_metrics P (λ m. record m { storage_bypasses = add64 m.storage_bypasses 1 }) s)

  unfoldable pub access_node :
      AccessContext → Node → Simulator P → Result (AccessResult × Simulator P)
  unfolding access_storage promote
  access_node context n s =
      if n.in_memory
      then (do
        s1 ← on_access context.node_id context.request.timestamp_ns true s
        s2 ← notify_memory_commit P (record { kind = accessed; node_id = context.node_id }) s1
        ok (memory_hit, s2))
      else if n.on_storage
      then (do
        s1 ← on_access context.node_id context.request.timestamp_ns true s
        s2 ←
            if s.config.infinite_storage
            then count_io P read_op tlc 0 false s1
            else access_storage context (storage_location n) s1
        s3 ← promote context s2
        ok (hit_on n.storage_tier, s3))
      else (do
        s1 ← on_access context.node_id context.request.timestamp_ns false s
        s2 ← insert_into_memory P context.node_id context s1
        ok (global_miss, s2))

  unfoldable pub process_access : AccessContext → Simulator P → Result (AccessResult × Simulator P)
  unfolding access_node
  process_access context s = do
    n ← node s.tree context.node_id
    out ← access_node context n (record s { active_node_id = some context.node_id })
    ok (out.0, record out.1 { active_node_id = none })
