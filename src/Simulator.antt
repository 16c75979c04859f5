-- ===== src/Simulator.antt =====
-- cpp/include/dwpdsim/simulator.hpp and the parts of cpp/src/simulator.cpp that every operation of
-- the simulator uses: its state, the check of the configuration, and the hooks by which it tells
-- the policies and the trace of a change. The two policies and the shadow device are reached through
-- interfaces. Timers, the diagnostics file and the controller's CSV file are not modelled.
pub mod Pruning
pub mod Trimming
pub mod Transfers
pub mod Relocation
pub mod Capacity
pub mod Dumping
pub mod Memory
pub mod Access
pub mod Timeline
pub mod Requests
pub mod Balance
pub mod Books
pub mod Histories
pub mod Config
pub mod Admission
use dwpdsim.Base.{
  ℕ, Bool, true, false, not, List, [], ◌∷◌, Option, none, some, Result, ok, err, invalid_argument,
  ◌>>=◌, for_each, add64, sub64, ◌+◌, ◌*◌, ◌/◌, ◌%◌, ltb, ◌==◌, ◌&&◌, ◌||◌, if◌then◌else◌, u64_mod,
}
use dwpdsim.Types.{
  NodeId, HashId, Node, TimestampNs, StorageTier, slc, tlc, Operation, StorageLocation, TraceReason,
  RequestContext, AccessContext, CapacityCause, RelocationCause, SimulationConfig,
  StorageTierConfig, at_tier, change_tier,
}
use dwpdsim.RadixTree
use dwpdsim.RadixTree.{RadixTree, modify_node, new_tree}
use dwpdsim.Storage.{StorageState, StorageTierState, new_storage}
use dwpdsim.StorageView.{StorageView}
use dwpdsim.MemoryPolicy.{MemoryPolicy, MemoryMutation}
use dwpdsim.StoragePolicy.{
  StoragePolicy, StorageMutation, StorageMutationKind, dump_write_committed,
  storage_access_committed,
}
use dwpdsim.Metrics
use dwpdsim.Metrics.{Metrics, new_metrics}
use dwpdsim.Trace.{TraceContext, TraceWriter, new_writer, emit}

-- The interface of `ShadowFtl` that the simulator calls.
pub record ShadowDevice : Type 1 where
  pub State : Type 0
  pub Feedback : Type 0
  pub consume : Operation → StorageLocation → TimestampNs → State → Result State
  pub record_loss : NodeId → TimestampNs → State → State
  pub ghost_prefix : List HashId → TimestampNs → State → ℕ × State
  pub record_request : ℕ → ℕ → State → State
  pub close_window : TimestampNs → State → Feedback × State

-- The objects that a simulator is built from.
pub record Parts : Type 1 where
  pub shadow_device : ShadowDevice
  pub memory_policy : MemoryPolicy
  pub storage_policy : StoragePolicy shadow_device.Feedback

pub record State (M S H : Type 0) : Type 0 where
  pub config : SimulationConfig
  pub memory_capacity_blocks : ℕ
  pub memory_used_blocks : ℕ
  pub tree : RadixTree
  pub storage : StorageState
  pub memory_state : M
  pub storage_state : S
  pub metrics : Metrics
  pub trace_writer : TraceWriter
  pub shadow : Option H
  pub feedback_period_ns : TimestampNs
  pub next_feedback_ns : TimestampNs
  pub last_timestamp_ns : Option TimestampNs
  pub active_node_id : Option NodeId
  pub request_ids : ℕ → Bool
  pub next_access_sequence : ℕ
  pub next_move_id : ℕ
  pub next_background_tick_ns : TimestampNs
  pub protected_prefix : List NodeId
  pub finished : Bool

abbrev pub Simulator : Parts → Type 0
Simulator P = State P.memory_policy.State P.storage_policy.State P.shadow_device.State

abbrev whole_blocks : ℕ → ℕ → Bool
whole_blocks bytes block_size = not (ltb bytes block_size) && (bytes % block_size == 0)

abbrev check_tiers : SimulationConfig → Result SimulationConfig
check_tiers c =
    if not (whole_blocks c.slc_config.capacity_bytes c.block_size_bytes)
    then err invalid_argument
    else if c.slc_config.stream_count == 0
    then err invalid_argument
    else if not (whole_blocks c.tlc_config.capacity_bytes c.block_size_bytes)
    then err invalid_argument
    else if c.tlc_config.stream_count == 0
    then err invalid_argument
    else if ltb 8 (c.slc_config.stream_count + c.tlc_config.stream_count)
    then err invalid_argument
    else ok c

-- With infinite storage the tiers' configuration is replaced.
unfoldable pub validate_config : SimulationConfig → Result SimulationConfig
validate_config c =
    if c.block_size_bytes == 0
    then err invalid_argument
    else if not (whole_blocks c.memory_capacity_bytes c.block_size_bytes)
    then err invalid_argument
    else if c.infinite_storage
    then ok (record c {
      slc_config = record { capacity_bytes = 0; stream_count = 1 };
      tlc_config = record {
        capacity_bytes = 18446744073709551615 / c.block_size_bytes * c.block_size_bytes;
        stream_count = 1;
      };
    })
    else check_tiers c

abbrev pub trace_context : AccessContext → TraceContext
trace_context a = record {
  timestamp_ns = a.request.timestamp_ns;
  request_id = some a.request.request_id;
  access_sequence = some a.access_sequence;
}

abbrev pub relocation_reason : RelocationCause → TraceReason
relocation_reason RelocationCause.capacity = TraceReason.capacity_eviction
relocation_reason RelocationCause.access = TraceReason.access_migration
relocation_reason RelocationCause.background = TraceReason.background_migration

abbrev pub relocation_capacity_cause : RelocationCause → CapacityCause
relocation_capacity_cause RelocationCause.access = CapacityCause.access_migration
relocation_capacity_cause RelocationCause.background = CapacityCause.background_migration
relocation_capacity_cause RelocationCause.capacity = CapacityCause.dump_admission

abbrev pub stamps : StorageMutationKind → Bool
stamps dump_write_committed = true
stamps storage_access_committed = true
stamps _ = false

module _ (P : Parts) where
  abbrev pub view : Simulator P → StorageView
  view s = record {
    tree = s.tree;
    storage = s.storage;
    block_size_bytes = s.config.block_size_bytes;
  }

  -- A change of a tree node, of a tier, of the metrics.
  abbrev pub on_node : NodeId → (Node → Node) → Simulator P → Result (Simulator P)
  on_node h f s = do t ← modify_node s.tree h f; ok (record s { tree = t })

  abbrev pub on_metrics : (Metrics → Metrics) → Simulator P → Simulator P
  on_metrics f s = record s { metrics = f s.metrics }

  abbrev pub count_io : Operation → StorageTier → ℕ → Bool → Simulator P → Result (Simulator P)
  count_io operation tier stream host s = do
    m ← Metrics.record_io operation tier stream host s.metrics
    ok (record s { metrics = m })

  unfoldable pub notify_memory_commit : MemoryMutation → Simulator P → Result (Simulator P)
  notify_memory_commit u s = do
    m ← P.memory_policy.on_commit u s.tree s.memory_state
    ok (record s { memory_state = m })

  abbrev stamp_all : StorageMutation → Simulator P → Result (Simulator P)
  stamp_all u s =
      if stamps u.kind
      then for_each u.nodes
          (λ h. on_node h (λ n. record n { storage_last_access_timestamp_ns = u.timestamp_ns })) s
      else ok s

  unfoldable pub notify_storage_commit : StorageMutation → Simulator P → Result (Simulator P)
  unfolding for_each
  notify_storage_commit u s = if s.config.infinite_storage then ok s else (do
    s1 ← stamp_all u s
    p ← P.storage_policy.on_commit u (view s1) s1.storage_state
    ok (record s1 { storage_state = p }))

  abbrev tell_shadow :
      Operation
      → StorageLocation
      → TimestampNs
      → Option P.shadow_device.State
      → Result (Option P.shadow_device.State)
  tell_shadow operation location now none = ok none
  tell_shadow operation location now (some h) = do
    h1 ← P.shadow_device.consume operation location now h
    ok (some h1)

  unfoldable pub emit_io :
      TraceContext
      → NodeId
      → Operation
      → Node
      → StorageLocation
      → TraceReason
      → Option ℕ
      → Option ℕ
      → Simulator P
      → Result (ℕ × Simulator P)
  emit_io context h operation n location reason move depends s = do
    let out = emit context h operation n location reason move depends s.trace_writer
    d ← tell_shadow operation location context.timestamp_ns s.shadow
    ok (out.0, record s { trace_writer = out.1; shadow = d })

  abbrev pub shadow_loss : NodeId → TimestampNs → Simulator P → Simulator P
  shadow_loss h now s = record s {
    shadow = elim s.shadow [ none ↦ none | some d ↦ some (P.shadow_device.record_loss h now d) ];
  }
