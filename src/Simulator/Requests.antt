-- ===== src/Simulator/Requests.antt =====
-- The public operations of cpp/src/simulator.cpp: construction, `process_request` and `finish`.
-- Opening and flushing the output files is not modelled.
use dwpdsim.Base.{
  ℕ, suc, Bool, true, false, List, [], ◌∷◌, Option, none, some, Result, ok, err, invalid_argument,
  logic_error, ◌>>=◌, length, add64, sub64, mul64, ltb, ◌==◌, ◌&&◌, ◌||◌, not, ◌/◌, if◌then◌else◌,
}
use dwpdsim.Types.{
  NodeId, HashId, TimestampNs, SimulationConfig, RequestContext, AccessContext, AccessResult,
  global_miss,
}
use dwpdsim.RadixTree.{
  RadixTree, node, new_tree, find_child, find_root_child, get_or_create, get_or_create_root,
}
use dwpdsim.Storage.{new_storage}
use dwpdsim.Metrics
use dwpdsim.Metrics.{Metrics, new_metrics, record_request}
use dwpdsim.Trace.{new_writer}
use dwpdsim.Simulator.{Parts, Simulator, validate_config, view, on_metrics}
use dwpdsim.Simulator.Access.{process_access}
use dwpdsim.Simulator.Timeline.{run_until}

-- The prefix of the request's blocks whose data is held in memory or on storage.
unfoldable pub collect_protected_prefix :
    RadixTree → Option NodeId → List HashId → Result (List NodeId)
collect_protected_prefix t parent_id [] = ok []
collect_protected_prefix t parent_id (h ∷ hs) =
    elim parent_id [ none ↦ find_root_child t h | some p ↦ find_child t p h ] >>= λ found.
    elim found [
      | none ↦ ok []
      | some x ↦ node t x >>= λ n. elim (n.in_memory || n.on_storage) [
        | false ↦ ok []
        | true ↦ collect_protected_prefix t (some x) hs >>= λ rest. ok (x ∷ rest)
      ]
    ]

abbrev pub is_miss : AccessResult → Bool
is_miss global_miss = true
is_miss _ = false

-- The variables of the loop over a request's blocks.
pub record Progress : Type 0 where
  pub parent_id : Option NodeId
  pub prefix_hit : Bool
  pub hit_blocks : ℕ

-- After one access: a block counts as hit only if it and all blocks before it were found.
unfoldable pub count_access : NodeId → AccessResult → Progress → Metrics → Progress × Metrics
count_access h r p m =
    let prefix_hit = p.prefix_hit && not (is_miss r) in
    (
      record {
        parent_id = some h;
        prefix_hit = prefix_hit;
        hit_blocks = if prefix_hit then add64 p.hit_blocks 1 else p.hit_blocks;
      },
      Metrics.record_access (if prefix_hit then r else global_miss) m,
    )

-- Whether a time is before the last request's.
abbrev pub is_before : TimestampNs → Option TimestampNs → Bool
is_before now none = false
is_before now (some t) = ltb now t

module _ (P : Parts) where
  -- `shadow` is the shadow device with its feedback period, when the storage policy wants one.
  unfoldable pub new_simulator :
      SimulationConfig
      → P.memory_policy.State
      → P.storage_policy.State
      → Option (P.shadow_device.State × TimestampNs)
      → Result (Simulator P)
  new_simulator given memory storage shadow = do
    c ← validate_config given
    ok (record {
      config = c;
      memory_capacity_blocks = c.memory_capacity_bytes / c.block_size_bytes;
      memory_used_blocks = 0;
      tree = new_tree;
      storage = new_storage c;
      memory_state = memory;
      storage_state = storage;
      metrics = new_metrics c;
      trace_writer = new_writer c.block_size_bytes;
      shadow = if c.infinite_storage then none else elim shadow [ none ↦ none | some d ↦ some d.0 ];
      feedback_period_ns =
          if c.infinite_storage then 0 else elim shadow [ none ↦ 0 | some d ↦ d.1 ];
      next_feedback_ns = if c.infinite_storage then 0 else elim shadow [ none ↦ 0 | some d ↦ d.1 ];
      last_timestamp_ns = none;
      active_node_id = none;
      request_ids = λ i. false;
      next_access_sequence = 0;
      next_move_id = 1;
      next_background_tick_ns =
          if c.infinite_storage then 0 else P.storage_policy.background_period_ns storage;
      protected_prefix = [];
      finished = false;
    })

  abbrev create_block :
      Option NodeId → HashId → TimestampNs → RadixTree → Result (NodeId × Bool × RadixTree)
  create_block none h now t = get_or_create_root t h now
  create_block (some p) h now t = get_or_create t p h now

  -- The policies hear of a new node.
  unfoldable pub announce : NodeId → Simulator P → Result (Simulator P)
  announce h s = do
    let s1 : Simulator P =
        on_metrics P (λ m. record m { tree_nodes_created = add64 m.tree_nodes_created 1 }) s
    m ← P.memory_policy.on_node_created h s1.tree s1.memory_state
    let s2 : Simulator P = record s1 { memory_state = m }
    p ←
        if s.config.infinite_storage
        then ok s2.storage_state
        else P.storage_policy.on_node_created h (view P s2) s2.storage_state
    ok (record s2 { storage_state = p })

  -- The round of the loop for one block.
  unfoldable pub process_block :
      RequestContext → ℕ → HashId → Progress → Simulator P → Result (Progress × Simulator P)
  unfolding announce count_access
  process_block request position h p s = do
    c ← create_block p.parent_id h request.timestamp_ns s.tree
    let s1 : Simulator P = record s { tree = c.2 }
    s2 ← if c.1 then announce c.0 s1 else ok s1
    let context : AccessContext = record {
      request = request;
      access_sequence = s2.next_access_sequence;
      position = position;
      node_id = c.0;
      parent_id = p.parent_id;
    }
    out ←
        process_access P context
          (record s2 { next_access_sequence = add64 s2.next_access_sequence 1 })
    let counted = count_access c.0 out.0 p out.1.metrics
    ok (counted.0, record out.1 { metrics = counted.1 })

  unfoldable pub process_blocks :
      RequestContext → ℕ → List HashId → Progress → Simulator P → Result (Progress × Simulator P)
  unfolding process_block
  process_blocks request position [] p s = ok (p, s)
  process_blocks request position (h ∷ hs) p s = do
    out ← process_block request position h p s
    process_blocks request (suc position) hs out.0 out.1

  -- The guards of a request.
  unfoldable pub check_request : TimestampNs → ℕ → Simulator P → Result (Simulator P)
  check_request now request_id s =
      if s.finished
      then err logic_error
      else if is_before now s.last_timestamp_ns
      then err invalid_argument
      else if s.request_ids request_id
      then err invalid_argument
      else ok (record s { request_ids = λ i. if i == request_id then true else s.request_ids i })

  -- How far the request's blocks were known before they were lost.
  abbrev pub ask_ghosts :
      List HashId → TimestampNs → Option P.shadow_device.State → ℕ × Option P.shadow_device.State
  ask_ghosts hs now none = (0, none)
  ask_ghosts hs now (some d) =
      let out = P.shadow_device.ghost_prefix hs now d in (out.0, some out.1)

  abbrev pub report_request : ℕ → ℕ → Simulator P → Simulator P
  report_request ghost_prefix hits s = record s {
    shadow = elim s.shadow [
      | none ↦ none
      | some d ↦ some (
          P.shadow_device.record_request hits
            (if ltb hits ghost_prefix then sub64 ghost_prefix hits else 0) d)
    ];
  }

  -- The hooks before the first block.
  unfoldable pub begin_request : RequestContext → Simulator P → Result (Simulator P)
  begin_request request s = do
    p ←
        if s.config.infinite_storage
        then ok s.storage_state
        else P.storage_policy.on_request_begin request (view P s) s.storage_state
    m ← P.memory_policy.on_request_begin request s.tree s.memory_state
    ok (record s {
      storage_state = p;
      memory_state = m;
      metrics = record_request request.timestamp_ns s.metrics;
      last_timestamp_ns = some request.timestamp_ns;
    })

  unfoldable pub process_request :
      TimestampNs → ℕ → ℕ → List HashId → Simulator P → Result (Simulator P)
  unfolding check_request begin_request process_blocks collect_protected_prefix
  process_request now request_id affinity_id hashes s = do
    s1 ← check_request now request_id s
    s2 ← run_until P now s1
    prefix ←
        if s2.config.infinite_storage
        then ok s2.protected_prefix
        else collect_protected_prefix s2.tree none hashes
    let request : RequestContext = record {
      timestamp_ns = now;
      request_id = request_id;
      affinity_id = affinity_id;
      ordered_hashes = hashes;
      protected_prefix = prefix;
    }
    s3 ← begin_request request (record s2 { protected_prefix = prefix })
    let g = ask_ghosts hashes now s3.shadow
    out ←
        process_blocks request 0 hashes
          (record { parent_id = none; prefix_hit = true; hit_blocks = 0 })
          (record s3 { shadow = g.1 })
    let s4 : Simulator P = report_request g.0 out.0.hit_blocks out.1
    let s5 : Simulator P =
        on_metrics P
          (λ m. record m {
            compute_cost =
                add64 m.compute_cost
                  (mul64 (sub64 m.global_misses s3.metrics.global_misses) (length hashes));
          })
          s4
    m ← P.memory_policy.on_request_end request s5.tree s5.memory_state
    ok (record s5 { memory_state = m })

  unfoldable pub finish_at : TimestampNs → Simulator P → Result (Simulator P)
  finish_at end_ns s =
      if s.finished
      then ok s
      else if is_before end_ns s.last_timestamp_ns
      then err invalid_argument
      else (do s1 ← run_until P end_ns s; ok (record s1 { finished = true }))

  abbrev value_or : Option ℕ → ℕ → ℕ
  value_or none d = d
  value_or (some x) d = x

  unfoldable pub finish : Simulator P → Result (Simulator P)
  unfolding finish_at
  finish s = finish_at (value_or s.config.simulation_end_ns (value_or s.last_timestamp_ns 0)) s
