-- ===== src/Metrics.antt =====
-- cpp/include/dwpdsim/metrics.hpp and cpp/src/metrics.cpp: the counters of a run. Every counter is a
-- `uint64_t` and wraps.
use dwpdsim.Base.{
  ℕ, Bool, Option, none, some, Result, ok, ◌>>=◌, Vector, modify, add64, sub64, mul64, max,
  if◌then◌else◌,
}
use dwpdsim.Types.{
  TimestampNs, AccessResult, memory_hit, slc_hit, tlc_hit, global_miss, Operation, read_op,
  write_op, trim_op, StorageTier, PerTier, at_tier, change_tier, SimulationConfig,
}

pub record StorageTierIoCounters : Type 0 where
  pub reads : ℕ
  pub writes : ℕ
  pub trims : ℕ
  pub host_writes : ℕ
  pub stream_writes : Vector ℕ

pub record SegmentBlockByteCounters : Type 0 where
  pub segments : ℕ
  pub blocks : ℕ
  pub bytes : ℕ

pub record Metrics : Type 0 where
  pub request_count : ℕ
  pub block_access_count : ℕ
  pub memory_hits : ℕ
  pub slc_hits : ℕ
  pub tlc_hits : ℕ
  pub global_misses : ℕ
  pub compute_cost : ℕ
  pub storage_promotions : ℕ
  pub storage_bypasses : ℕ
  pub memory_evicted_segments : ℕ
  pub memory_evicted_blocks : ℕ
  pub memory_evictions_with_storage_copy : ℕ
  pub memory_drop_segments : ℕ
  pub memory_drop_blocks : ℕ
  pub memory_dump_segments : ℕ
  pub memory_dump_blocks : ℕ
  pub dump_requests : ℕ
  pub dumps_admitted : SegmentBlockByteCounters
  pub dumps_rejected : SegmentBlockByteCounters
  pub foreground_capacity_evictions : SegmentBlockByteCounters
  pub background_ticks : ℕ
  pub background_idle_evictions : SegmentBlockByteCounters
  pub access_migrations : SegmentBlockByteCounters
  pub background_migrations : SegmentBlockByteCounters
  pub capacity_migrations : SegmentBlockByteCounters
  pub relocation_source_read_blocks : ℕ
  pub relocation_source_read_bytes : ℕ
  pub relocation_reused_read_blocks : ℕ
  pub relocation_reused_read_bytes : ℕ
  pub relocation_explicit_read_blocks : ℕ
  pub relocation_explicit_read_bytes : ℕ
  pub relocation_destination_write_blocks : ℕ
  pub relocation_destination_write_bytes : ℕ
  pub relocation_source_trim_blocks : ℕ
  pub relocation_source_trim_bytes : ℕ
  pub placements : PerTier SegmentBlockByteCounters
  pub no_space : ℕ
  pub protected_victim_exhaustion : ℕ
  pub admission_rejections : ℕ
  pub memory_resident_blocks : ℕ
  pub peak_memory_resident_blocks : ℕ
  pub duplicated_blocks : ℕ
  pub storage_resident_blocks : PerTier ℕ
  pub peak_storage_resident_blocks : PerTier ℕ
  pub io : PerTier StorageTierIoCounters
  pub tree_nodes_created : ℕ
  pub tree_nodes_removed : ℕ
  pub start_timestamp_ns : Option TimestampNs
  pub end_timestamp_ns : Option TimestampNs

abbrev no_counts : SegmentBlockByteCounters
no_counts = record { segments = 0; blocks = 0; bytes = 0 }

abbrev new_io : ℕ → StorageTierIoCounters
new_io streams = record {
  reads = 0;
  writes = 0;
  trims = 0;
  host_writes = 0;
  stream_writes = record { size = streams; cell = λ i. 0 };
}

-- The constructor: everything 0, with a write counter for each stream.
unfoldable pub new_metrics : SimulationConfig → Metrics
new_metrics c = record {
  request_count = 0;
  block_access_count = 0;
  memory_hits = 0;
  slc_hits = 0;
  tlc_hits = 0;
  global_misses = 0;
  compute_cost = 0;
  storage_promotions = 0;
  storage_bypasses = 0;
  memory_evicted_segments = 0;
  memory_evicted_blocks = 0;
  memory_evictions_with_storage_copy = 0;
  memory_drop_segments = 0;
  memory_drop_blocks = 0;
  memory_dump_segments = 0;
  memory_dump_blocks = 0;
  dump_requests = 0;
  dumps_admitted = no_counts;
  dumps_rejected = no_counts;
  foreground_capacity_evictions = no_counts;
  background_ticks = 0;
  background_idle_evictions = no_counts;
  access_migrations = no_counts;
  background_migrations = no_counts;
  capacity_migrations = no_counts;
  relocation_source_read_blocks = 0;
  relocation_source_read_bytes = 0;
  relocation_reused_read_blocks = 0;
  relocation_reused_read_bytes = 0;
  relocation_explicit_read_blocks = 0;
  relocation_explicit_read_bytes = 0;
  relocation_destination_write_blocks = 0;
  relocation_destination_write_bytes = 0;
  relocation_source_trim_blocks = 0;
  relocation_source_trim_bytes = 0;
  placements = record { slc_part = no_counts; tlc_part = no_counts };
  no_space = 0;
  protected_victim_exhaustion = 0;
  admission_rejections = 0;
  memory_resident_blocks = 0;
  peak_memory_resident_blocks = 0;
  duplicated_blocks = 0;
  storage_resident_blocks = record { slc_part = 0; tlc_part = 0 };
  peak_storage_resident_blocks = record { slc_part = 0; tlc_part = 0 };
  io = record {
    slc_part = new_io c.slc_config.stream_count;
    tlc_part = new_io c.tlc_config.stream_count;
  };
  tree_nodes_created = 0;
  tree_nodes_removed = 0;
  start_timestamp_ns = none;
  end_timestamp_ns = none;
}

abbrev value_or : Option ℕ → ℕ → ℕ
value_or none d = d
value_or (some x) d = x

unfoldable pub record_request : TimestampNs → Metrics → Metrics
record_request now m = record m {
  start_timestamp_ns = some (value_or m.start_timestamp_ns now);
  end_timestamp_ns = some now;
  request_count = add64 m.request_count 1;
}

abbrev count_result : AccessResult → Metrics → Metrics
count_result memory_hit m = record m { memory_hits = add64 m.memory_hits 1 }
count_result slc_hit m = record m { slc_hits = add64 m.slc_hits 1 }
count_result tlc_hit m = record m { tlc_hits = add64 m.tlc_hits 1 }
count_result global_miss m = record m { global_misses = add64 m.global_misses 1 }

unfoldable pub record_access : AccessResult → Metrics → Metrics
record_access r m = count_result r (record m { block_access_count = add64 m.block_access_count 1 })

-- A write counts for its stream, and a stream that the tier does not have is out of range.
abbrev pub count_io : Operation → ℕ → Bool → StorageTierIoCounters → Result StorageTierIoCounters
count_io read_op stream host c = ok (record c { reads = add64 c.reads 1 })
count_io trim_op stream host c = ok (record c { trims = add64 c.trims 1 })
count_io write_op stream host c = do
  w ← modify c.stream_writes stream (λ n. add64 n 1)
  ok (record c {
    writes = add64 c.writes 1;
    stream_writes = w;
    host_writes = if host then add64 c.host_writes 1 else c.host_writes;
  })

unfoldable pub record_io : Operation → StorageTier → ℕ → Bool → Metrics → Result Metrics
record_io operation tier stream host m = do
  c ← count_io operation stream host (at_tier tier m.io)
  ok (record m { io = change_tier tier (λ old. c) m.io })

unfoldable pub memory_inserted : Bool → Metrics → Metrics
memory_inserted has_storage_copy m = record m {
  memory_resident_blocks = add64 m.memory_resident_blocks 1;
  peak_memory_resident_blocks =
      max m.peak_memory_resident_blocks (add64 m.memory_resident_blocks 1);
  duplicated_blocks = if has_storage_copy then add64 m.duplicated_blocks 1 else m.duplicated_blocks;
}

unfoldable pub memory_removed : Bool → Metrics → Metrics
memory_removed has_storage_copy m = record m {
  memory_resident_blocks = sub64 m.memory_resident_blocks 1;
  duplicated_blocks = if has_storage_copy then sub64 m.duplicated_blocks 1 else m.duplicated_blocks;
}

unfoldable pub storage_written : StorageTier → Bool → Metrics → Metrics
storage_written tier has_memory_copy m =
    let resident = change_tier tier (λ n. add64 n 1) m.storage_resident_blocks in
    record m {
      storage_resident_blocks = resident;
      peak_storage_resident_blocks =
          change_tier tier (λ n. max n (at_tier tier resident)) m.peak_storage_resident_blocks;
      duplicated_blocks =
          if has_memory_copy then add64 m.duplicated_blocks 1 else m.duplicated_blocks;
    }

unfoldable pub storage_removed : StorageTier → Bool → Metrics → Metrics
storage_removed tier has_memory_copy m = record m {
  storage_resident_blocks = change_tier tier (λ n. sub64 n 1) m.storage_resident_blocks;
  duplicated_blocks = if has_memory_copy then sub64 m.duplicated_blocks 1 else m.duplicated_blocks;
}

-- `add_counts` of cpp/src/simulator.cpp.
unfoldable pub add_counts : ℕ → ℕ → SegmentBlockByteCounters → SegmentBlockByteCounters
add_counts blocks block_size c = record {
  segments = add64 c.segments 1;
  blocks = add64 c.blocks blocks;
  bytes = add64 c.bytes (mul64 blocks block_size);
}
