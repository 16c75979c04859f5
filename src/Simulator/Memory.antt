-- ===== src/Simulator/Memory.antt =====
-- `insert_into_memory` and `evict_from_memory` of cpp/src/simulator.cpp. The
-- diagnostics file is not modelled.
use dwpdsim.Base.{
  ℕ, suc, zero, Bool, true, false, List, [], ◌∷◌, Option, none, some, Result, ok, err, out_of_fuel,
  ◌>>=◌, for_each, length, add64, sub64, not, leb, ◌==◌, ◌||◌, ◌&&◌, reverse, if◌then◌else◌,
}
use dwpdsim.Types.{NodeId, MemoryEvictionAction, drop, dump, AccessContext}
use dwpdsim.RadixTree.{RadixTree, node, parent}
use dwpdsim.RadixTree.Walks
use dwpdsim.RadixTree.Walks.{segment_top}
use dwpdsim.StorageView.{SegmentView}
use dwpdsim.MemoryPolicy.{MemoryEvictionDecision, inserted, removed}
use dwpdsim.Metrics.{memory_inserted, memory_removed}
use dwpdsim.Simulator.{Parts, Simulator, on_metrics, on_node, shadow_loss, notify_memory_commit}
use dwpdsim.Simulator.Pruning.{prune_segment}
use dwpdsim.Simulator.Dumping.{dump_segment}

-- Whether the limit on evicted blocks is reached.
abbrev limit_reached : Option ℕ → ℕ → Bool
limit_reached none n = false
limit_reached (some limit) n = leb limit n

-- The deepest blocks in memory, at most `limit` of them but at least one: the nodes come from the
-- endpoint upwards, and the result is in top-to-endpoint order.
unfoldable pub select_deepest :
    RadixTree → Option ℕ → List NodeId → List NodeId → Result (List NodeId)
select_deepest t limit [] chosen = ok chosen
select_deepest t limit (h ∷ hs) chosen = node t h >>= λ n. elim n.in_memory [
  | false ↦ select_deepest t limit hs chosen
  | true ↦ elim (limit_reached limit (suc (length chosen))) [
    | true ↦ ok (h ∷ chosen)
    | false ↦ select_deepest t limit hs (h ∷ chosen)
  ]
]

-- The chosen blocks that have no copy on storage, in order.
unfoldable pub select_unwritten : RadixTree → List NodeId → Result (List NodeId)
select_unwritten t [] = ok []
select_unwritten t (h ∷ hs) = do
  n ← node t h
  rest ← select_unwritten t hs
  ok (if n.on_storage then rest else h ∷ rest)

module _ (P : Parts) where
  -- One block leaves memory.
  unfoldable pub remove_from_memory : AccessContext → NodeId → Simulator P → Result (Simulator P)
  remove_from_memory context h s = do
    n ← node s.tree h
    s1 ←
        on_node P h (λ k. record k { in_memory = false })
          (on_metrics P (memory_removed n.on_storage) s)
    let s2 : Simulator P =
        if n.on_storage then s1 else shadow_loss P h context.request.timestamp_ns s1
    notify_memory_commit P (record { kind = removed; node_id = h })
        (record s2 { memory_used_blocks = sub64 s2.memory_used_blocks 1 })

  abbrev count_drop : ℕ → Simulator P → Simulator P
  count_drop blocks s =
      on_metrics P
        (λ m. record m {
          memory_drop_segments = add64 m.memory_drop_segments 1;
          memory_drop_blocks = add64 m.memory_drop_blocks blocks;
        })
        s

  abbrev count_evicted : ℕ → Simulator P → Simulator P
  count_evicted blocks s =
      on_metrics P
        (λ m. record m {
          memory_evicted_segments = add64 m.memory_evicted_segments 1;
          memory_evicted_blocks = add64 m.memory_evicted_blocks blocks;
        })
        s

  -- The chosen blocks are dropped, or those without a copy are dumped.
  unfoldable pub save_or_drop :
      MemoryEvictionAction
      → AccessContext
      → SegmentView
      → List NodeId
      → List NodeId
      → Simulator P
      → Result (Simulator P)
  unfolding dump_segment
  save_or_drop drop context segment memory_nodes write_nodes s =
      ok (count_drop (length memory_nodes) s)
  save_or_drop dump context segment memory_nodes [] s = ok s
  save_or_drop dump context segment memory_nodes (w ∷ ws) s = do
    out ← dump_segment P context segment (w ∷ ws) (
        on_metrics P
          (λ m. record m {
            memory_dump_segments = add64 m.memory_dump_segments 1;
            memory_dump_blocks = add64 m.memory_dump_blocks (length (w ∷ ws));
          })
          s)
    ok (if out.0 then out.1 else count_drop (length memory_nodes) out.1)

  -- The eviction of the chosen blocks of one segment.
  unfoldable pub evict_blocks :
      MemoryEvictionAction
      → AccessContext
      → SegmentView
      → List NodeId
      → List NodeId
      → Simulator P
      → Result (Simulator P)
  unfolding save_or_drop remove_from_memory for_each
  evict_blocks action context segment memory_nodes write_nodes s = do
    s1 ←
        save_or_drop action context segment memory_nodes write_nodes
          (count_evicted (length memory_nodes) s)
    s2 ← for_each memory_nodes (remove_from_memory context) s1
    prune_segment P segment.ordered_nodes s2

  abbrev is_drop : MemoryEvictionAction → Bool
  is_drop drop = true
  is_drop dump = false

  abbrev is_empty : List NodeId → Bool
  is_empty [] = true
  is_empty (h ∷ hs) = false

  -- The segment above, for a dump that may go on there.
  unfoldable pub parent_segment :
      MemoryEvictionDecision → NodeId → Simulator P → Result (Option NodeId)
  parent_segment d top s =
      if not (is_drop d.action) && d.reclaim_parent then parent s.tree top else ok none

  -- One segment of the loop: the next endpoint, or none when the loop ends.
  unfoldable pub evict_segment :
      MemoryEvictionDecision
      → AccessContext
      → NodeId
      → Simulator P
      → Result (Option NodeId × Simulator P)
  unfolding select_deepest select_unwritten evict_blocks parent_segment
  evict_segment d context endpoint s = do
    nodes ← Walks.resolve_segment s.tree endpoint
    top ← segment_top s.tree endpoint
    above ← parent_segment d top s
    memory_nodes ← select_deepest s.tree d.max_eviction_blocks (reverse nodes) []
    write_nodes ← select_unwritten s.tree memory_nodes
    let s1 : Simulator P =
        on_metrics P
          (λ m. record m {
            memory_evictions_with_storage_copy =
                add64 m.memory_evictions_with_storage_copy
                  (sub64 (length memory_nodes) (length write_nodes));
          })
          s
    if is_empty memory_nodes then ok (if is_drop d.action then none else above, s1) else (do
      s2 ←
          evict_blocks d.action context
            (record { segment_top = top; segment_endpoint = endpoint; ordered_nodes = nodes })
            memory_nodes write_nodes s1
      ok (if is_drop d.action || not (is_empty write_nodes) then none else above, s2))

  unfoldable pub evict_segments :
      ℕ
      → MemoryEvictionDecision
      → AccessContext
      → Option NodeId
      → Simulator P
      → Result (Simulator P)
  unfolding evict_segment
  evict_segments n d context none s = ok s
  evict_segments zero d context (some endpoint) s = err out_of_fuel
  evict_segments (suc n) d context (some endpoint) s =
      evict_segment d context endpoint s >>= λ out. evict_segments n d context out.0 out.1

  unfoldable pub evict_from_memory : AccessContext → Simulator P → Result (Simulator P)
  unfolding evict_segments
  evict_from_memory context s = do
    out ← P.memory_policy.evict context.request s.tree s.memory_state
    evict_segments (suc s.tree.nodes.size) out.0 context (some out.0.leaf_segment_endpoint)
        (record s { memory_state = out.1 })

  unfoldable pub insert_into_memory : NodeId → AccessContext → Simulator P → Result (Simulator P)
  unfolding evict_from_memory
  insert_into_memory h context s = do
    s1 ←
        if s.memory_used_blocks == s.memory_capacity_blocks
        then evict_from_memory context s
        else ok s
    s2 ← on_node P h (λ k. record k { in_memory = true }) s1
    s3 ←
        notify_memory_commit P (record { kind = inserted; node_id = h })
          (record s2 { memory_used_blocks = add64 s2.memory_used_blocks 1 })
    n ← node s3.tree h
    ok (on_metrics P (memory_inserted n.on_storage) s3)
