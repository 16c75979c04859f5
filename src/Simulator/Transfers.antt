-- ===== src/Simulator/Transfers.antt =====
-- The loops of `execute_relocation` of cpp/src/simulator.cpp over the blocks that it moves: they are
-- read, written and trimmed.
use dwpdsim.Base.{
  ℕ, Bool, false, List, [], ◌∷◌, Option, none, some, Result, ok, undefined, ◌>>=◌, or_fail,
  for_each, length, add64, mul64, same, if◌then◌else◌,
}
use dwpdsim.Types.{
  NodeId, StorageTier, StorageLocation, Placement, read_op, write_op, trim_op, TraceReason,
  RelocationCause, storage_location, set_storage_location, change_tier, at_tier,
}
use dwpdsim.RadixTree.{node}
use dwpdsim.Storage.{allocate, release}
use dwpdsim.StoragePolicy.{
  RelocateIntent, StorageMutationKind, relocation_read_committed, relocation_write_committed,
  relocation_source_trim_committed,
}
use dwpdsim.Metrics.{storage_removed, storage_written, add_counts, Metrics}
use dwpdsim.Trace.{TraceContext}
use dwpdsim.Simulator.{
  Parts, Simulator, on_metrics, on_node, count_io, emit_io, notify_storage_commit,
  relocation_reason,
}

-- What `execute_relocation` is told of a move that its caller has begun: the node that was read
-- already with the sequence number of that read, whether there is room, and the number of the move.
pub record Begun : Type 0 where
  pub reused_read_node : Option NodeId
  pub reused_read_sequence : Option ℕ
  pub capacity_ready : Bool
  pub assigned_move_id : Option ℕ

abbrev pub not_begun : Begun
not_begun = record {
  reused_read_node = none;
  reused_read_sequence = none;
  capacity_ready = false;
  assigned_move_id = none;
}

-- One block on its way: where it was, where it goes, and the rows of its read and its write.
pub record Transfer : Type 0 where
  pub node_id : NodeId
  pub source : StorageLocation
  pub destination : StorageLocation
  pub read_sequence : ℕ
  pub write_sequence : ℕ

abbrev pub count_migration : RelocationCause → ℕ → ℕ → Metrics → Metrics
count_migration RelocationCause.access blocks size m = record m {
  access_migrations = add_counts blocks size m.access_migrations;
}
count_migration RelocationCause.background blocks size m = record m {
  background_migrations = add_counts blocks size m.background_migrations;
}
count_migration RelocationCause.capacity blocks size m = record m {
  foreground_capacity_evictions = add_counts blocks size m.foreground_capacity_evictions;
  capacity_migrations = add_counts blocks size m.capacity_migrations;
}

module _ (P : Parts) where
  -- The source of each node, and a new address on the destination tier.
  unfoldable pub assign_destinations :
      Placement → List NodeId → Simulator P → Result (List Transfer × Simulator P)
  assign_destinations destination [] s = ok ([], s)
  assign_destinations destination (h ∷ hs) s = do
    n ← node s.tree h
    let a = allocate (at_tier destination.tier s.storage)
    let s1 : Simulator P = record s {
      storage = change_tier destination.tier (λ old. a.1) s.storage;
    }
    rest ← assign_destinations destination hs s1
    ok (
      record {
        node_id = h;
        source = storage_location n;
        destination = record {
          tier = destination.tier;
          block_address = a.0;
          stream_id = destination.stream_id;
        };
        read_sequence = 0;
        write_sequence = 0;
      }
          ∷ rest.0,
      rest.1,
    )

  -- The read of one block, unless the access that caused the move has read it.
  unfoldable pub read_block :
      TraceContext
      → TraceReason
      → ℕ
      → Begun
      → Transfer
      → Simulator P
      → Result (Transfer × Simulator P)
  read_block context reason move begun x s =
      if same begun.reused_read_node (some x.node_id)
      then (do
        q ← or_fail begun.reused_read_sequence undefined
        ok (
          record x { read_sequence = q },
          on_metrics P
              (λ m. record m {
                relocation_reused_read_blocks = add64 m.relocation_reused_read_blocks 1;
                relocation_reused_read_bytes =
                    add64 m.relocation_reused_read_bytes s.config.block_size_bytes;
              })
              s,
        ))
      else (do
        n ← node s.tree x.node_id
        out ← emit_io P context x.node_id read_op n x.source reason (some move) none s
        s1 ← count_io P read_op x.source.tier x.source.stream_id false out.1
        ok (
          record x { read_sequence = out.0 },
          on_metrics P
              (λ m. record m {
                relocation_explicit_read_blocks = add64 m.relocation_explicit_read_blocks 1;
                relocation_explicit_read_bytes =
                    add64 m.relocation_explicit_read_bytes s.config.block_size_bytes;
              })
              s1,
        ))

  -- The write of one block, which depends on its read.
  unfoldable pub write_block :
      TraceContext → TraceReason → ℕ → Transfer → Simulator P → Result (Transfer × Simulator P)
  write_block context reason move x s = do
    n ← node s.tree x.node_id
    out ←
        emit_io P context x.node_id write_op n x.destination reason (some move)
          (some x.read_sequence) s
    s1 ← count_io P write_op x.destination.tier x.destination.stream_id false out.1
    let s2 : Simulator P = on_metrics P (storage_removed x.source.tier n.in_memory) s1
    s3 ← on_node P x.node_id (set_storage_location x.destination) s2
    ok (
      record x { write_sequence = out.0 },
      on_metrics P (storage_written x.destination.tier n.in_memory) s3,
    )

  -- The trim of one block at its source, which depends on its write.
  unfoldable pub trim_source :
      TraceContext → TraceReason → ℕ → Transfer → Simulator P → Result (Simulator P)
  trim_source context reason move x s = do
    n ← node s.tree x.node_id
    out ←
        emit_io P context x.node_id trim_op n x.source reason (some move) (some x.write_sequence) s
    s1 ← count_io P trim_op x.source.tier x.source.stream_id false out.1
    ok (record s1 {
      storage = change_tier x.source.tier (release x.source.block_address) s1.storage;
    })

  -- A loop that may change the elements as it goes.
  unfoldable pub map_blocks :
      (Transfer → Simulator P → Result (Transfer × Simulator P))
      → List Transfer
      → Simulator P
      → Result (List Transfer × Simulator P)
  map_blocks body [] s = ok ([], s)
  map_blocks body (x ∷ xs) s = do
    out ← body x s
    rest ← map_blocks body xs out.1
    ok (out.0 ∷ rest.0, rest.1)

  unfoldable pub relocation_commit :
      StorageMutationKind
      → TraceContext
      → RelocateIntent
      → StorageTier
      → List NodeId
      → Simulator P
      → Result (Simulator P)
  relocation_commit kind context intent source nodes s =
      notify_storage_commit P
        (record {
          kind = kind;
          timestamp_ns = context.timestamp_ns;
          affinity_id = 0;
          segment_endpoint = intent.source_segment_endpoint;
          nodes = nodes;
          placement = intent.destination;
          source_tier = source;
          bytes = mul64 (length nodes) s.config.block_size_bytes;
        })
        s

  abbrev pub count_reads : ℕ → Simulator P → Simulator P
  count_reads blocks s =
      on_metrics P
        (λ m. record m {
          relocation_source_read_blocks = add64 m.relocation_source_read_blocks blocks;
          relocation_source_read_bytes =
              add64 m.relocation_source_read_bytes (mul64 blocks s.config.block_size_bytes);
        })
        s

  abbrev pub count_writes : ℕ → Simulator P → Simulator P
  count_writes blocks s =
      on_metrics P
        (λ m. record m {
          relocation_destination_write_blocks = add64 m.relocation_destination_write_blocks blocks;
          relocation_destination_write_bytes =
              add64 m.relocation_destination_write_bytes (mul64 blocks s.config.block_size_bytes);
        })
        s

  abbrev pub count_trims : ℕ → Simulator P → Simulator P
  count_trims blocks s =
      on_metrics P
        (λ m. record m {
          relocation_source_trim_blocks = add64 m.relocation_source_trim_blocks blocks;
          relocation_source_trim_bytes =
              add64 m.relocation_source_trim_bytes (mul64 blocks s.config.block_size_bytes);
        })
        s

  abbrev pub take_move_id : Option ℕ → Simulator P → ℕ × Simulator P
  take_move_id (some i) s = (i, s)
  take_move_id none s = (s.next_move_id, record s { next_move_id = add64 s.next_move_id 1 })

  -- The move itself, once there is room for it.
  unfoldable pub transfer_blocks :
      RelocateIntent
      → TraceContext
      → Begun
      → StorageTier
      → List NodeId
      → Simulator P
      → Result (Simulator P)
  unfolding assign_destinations read_block write_block trim_source map_blocks relocation_commit
      for_each
  transfer_blocks intent context begun source nodes s = do
    let move = take_move_id begun.assigned_move_id s
    let reason = relocation_reason intent.cause
    a ← assign_destinations intent.destination nodes move.1
    r ← map_blocks (read_block context reason move.0 begun) a.0 a.1
    s1 ←
        relocation_commit relocation_read_committed context intent source nodes
          (count_reads (length nodes) r.1)
    w ← map_blocks (write_block context reason move.0) r.0 s1
    s2 ←
        relocation_commit relocation_write_committed context intent source nodes
          (count_writes (length nodes) w.1)
    s3 ← for_each w.0 (trim_source context reason move.0) s2
    s4 ←
        relocation_commit relocation_source_trim_committed context intent source nodes
          (count_trims (length nodes) s3)
    ok (on_metrics P (count_migration intent.cause (length nodes) s4.config.block_size_bytes) s4)
