-- ===== src/Tests/Scenario.antt =====
-- A simulator with room for two blocks in memory and two on each tier, the LRU memory policy and the
-- fixed LRU storage policy, and no shadow device.
use dwpdsim.Base.{
  ℕ, true, false, [], ◌∷◌, none, Result, ok, ◌≡◌, refl, is_ok, the, add64, sub64, mul64, add32,
  sub32, to_u32, for_each, ◌>>=◌,
}
use dwpdsim.Types.{SimulationConfig, slc}
use dwpdsim.MemoryPolicy.Baseline.{baseline_memory_lru, new_policy}
use dwpdsim.StoragePolicy.Fixed.{baseline_fixed_lru, FixedPolicy}
use dwpdsim.StoragePolicy.Entries.{new_state}
use dwpdsim.Simulator.{Parts, Simulator, ShadowDevice}
use dwpdsim.Simulator.Requests.{new_simulator, process_request}
use dwpdsim.Storage.{new_storage, new_tier, allocate, release, record_unaddressed_write}
use dwpdsim.StorageView
use dwpdsim.StorageView.{
  is_storage_leaf, resident_nodes, resident_blocks, intersects_protected, any_node, select_nodes,
}
use dwpdsim.RadixTree
use dwpdsim.RadixTree.{
  new_tree, get_or_create, get_or_create_root, get_or_create_at, node, modify_node, find_root_child,
  find_child, node_record, child_count, has_node, link_front,
}
use dwpdsim.RadixTree.Walks.{
  segment_top, segment_leaf_for, has_memory_descendant, has_storage_descendant, resolve_segment,
}
use dwpdsim.RadixTree.Updates
use dwpdsim.RadixTree.Updates.{detach_leaf, release_detached}
use dwpdsim.Metrics
use dwpdsim.Metrics.{
  new_metrics, record_request, memory_inserted, memory_removed, storage_written, storage_removed,
  add_counts,
}
use dwpdsim.Trace.{new_writer, emit}
use dwpdsim.StoragePolicy.Entries
use dwpdsim.StoragePolicy.Searches.{lru_leaf}
use dwpdsim.StoragePolicy.Fixed.{reclaim_for}
use dwpdsim.MemoryPolicy.Baseline.{attach_front, detach, evict, commit, on_commit}
use dwpdsim.Simulator.{validate_config, notify_memory_commit, notify_storage_commit, emit_io}
use dwpdsim.Simulator.Pruning.{prune_segment}
use dwpdsim.Simulator.Trimming.{execute_trim}
use dwpdsim.Simulator.Relocation.{execute_relocation}
use dwpdsim.Simulator.Capacity.{ensure_capacity, reclaim_until, execute_action}
use dwpdsim.Simulator.Memory.{insert_into_memory, evict_from_memory}
use dwpdsim.Simulator.Access.{process_access}
use dwpdsim.Simulator.Timeline.{run_until, run_events}
use dwpdsim.Simulator.Requests.{check_request, begin_request, process_blocks, process_block}

abbrev pub no_shadow : ShadowDevice
no_shadow = record {
  State = Unit {0};
  Feedback = Unit {0};
  consume = λ o l t s. ok s;
  record_loss = λ h t s. s;
  ghost_prefix = λ h t s. (0, s);
  record_request = λ a b s. s;
  close_window = λ t s. (tt, s);
}

abbrev pub small_parts : Parts
small_parts = record {
  shadow_device = no_shadow;
  memory_policy = baseline_memory_lru;
  storage_policy = baseline_fixed_lru;
}

abbrev pub small_config : SimulationConfig
small_config = record {
  block_size_bytes = 4096;
  memory_capacity_bytes = 8192;
  slc_config = record { capacity_bytes = 8192; stream_count = 1 };
  tlc_config = record { capacity_bytes = 8192; stream_count = 2 };
  simulation_end_ns = none;
  infinite_storage = false;
}

abbrev pub fixed_policy : FixedPolicy
fixed_policy = record { placement = record { tier = slc; stream_id = 0 }; state = new_state }

abbrev pub started : Result (Simulator small_parts)
started = new_simulator small_parts small_config (new_policy true) fixed_policy none

-- The code that a request runs through.
unfoldable pub code : ℕ
unfolding new_simulator validate_config new_tree new_storage new_tier new_metrics new_writer
    new_policy new_state process_request check_request run_until run_events begin_request
    process_blocks process_block process_access insert_into_memory evict_from_memory
    notify_memory_commit notify_storage_commit emit_io prune_segment ensure_capacity reclaim_until
    execute_action execute_trim execute_relocation get_or_create get_or_create_root get_or_create_at
    node modify_node find_root_child find_child RadixTree.slot RadixTree.id node_record child_count
    RadixTree.parent has_node resolve_segment segment_top segment_leaf_for has_memory_descendant
    has_storage_descendant detach_leaf release_detached Updates.record_access attach_front detach
    evict commit on_commit lru_leaf Entries.on_commit reclaim_for StorageView.resolve_segment
    is_storage_leaf resident_nodes resident_blocks intersects_protected allocate release
    record_unaddressed_write emit record_request Metrics.record_access Metrics.record_io
    memory_inserted memory_removed storage_written storage_removed add_counts add64 sub64 mul64
    add32 sub32 to_u32 for_each ◌>>=◌ link_front
code = 0

pub started_ok : is_ok started ≡ true
unfolding code
started_ok = refl

abbrev pub first_request : Result (Simulator small_parts)
first_request = process_request small_parts 5 1 0 (1 ∷ 2 ∷ 3 ∷ []) (the started started_ok)

pub first_ok : is_ok first_request ≡ true
unfolding code
first_ok = refl
