-- ===== src/Simulator/Pruning.antt =====
-- `prune_segment` and `prune_from` of cpp/src/simulator.cpp: nodes that hold nothing leave the tree.
use dwpdsim.Base.{
  ℕ, suc, zero, Bool, true, false, List, [], ◌∷◌, Option, none, some, Result, ok, err, out_of_fuel,
  ◌>>=◌, for_each, add64, ◌==◌, ◌||◌, not, same, reverse, if◌then◌else◌,
}
use dwpdsim.Types.{NodeId, slc}
use dwpdsim.RadixTree.{has_node, node, child_count}
use dwpdsim.RadixTree.Updates.{detach_leaf, release_detached}
use dwpdsim.StoragePolicy.{node_pruned}
use dwpdsim.Simulator.{Parts, Simulator, view, on_metrics, notify_storage_commit}

abbrev last_timestamp : Option ℕ → ℕ
last_timestamp none = 0
last_timestamp (some t) = t

module _ (P : Parts) where
  -- Whether the node is still needed: it is being accessed, holds data or has children.
  unfoldable pub is_needed : NodeId → Simulator P → Result Bool
  is_needed h s = if same s.active_node_id (some h) then ok true else (do
    n ← node s.tree h
    if n.in_memory || n.on_storage
        then ok true
        else (do k ← child_count s.tree h; ok (not (k == 0))))

  -- A node without use leaves the tree, and the policies hear of it.
  unfoldable pub prune_node : NodeId → Simulator P → Result (Option NodeId × Simulator P)
  prune_node h s = do
    out ← detach_leaf s.tree h
    let s1 : Simulator P = record s { tree = out.1 }
    m ← P.memory_policy.on_node_pruned h out.0 s1.tree s1.memory_state
    let s2 : Simulator P = record s1 { memory_state = m }
    p ←
        if s.config.infinite_storage
        then ok s2.storage_state
        else P.storage_policy.on_node_pruned h out.0 (view P s2) s2.storage_state
    let s3 : Simulator P =
        on_metrics P (λ c. record c { tree_nodes_removed = add64 c.tree_nodes_removed 1 })
          (record s2 { storage_state = p })
    s4 ←
        notify_storage_commit P
          (record {
            kind = node_pruned;
            timestamp_ns = last_timestamp s.last_timestamp_ns;
            affinity_id = 0;
            segment_endpoint = h;
            nodes = h ∷ [];
            placement = record { tier = slc; stream_id = 0 };
            source_tier = slc;
            bytes = 0;
          })
          s3
    t ← release_detached s4.tree h
    ok (out.0, record s4 { tree = t })

  -- The climb from a node: one round for each node that is removed.
  unfoldable pub prune_from : ℕ → Option NodeId → Simulator P → Result (Simulator P)
  unfolding is_needed prune_node
  prune_from n none s = ok s
  prune_from zero (some h) s = err out_of_fuel
  prune_from (suc n) (some h) s = elim (has_node s.tree h) [
    | false ↦ ok s
    | true ↦ is_needed h s >>= λ needed. elim needed [
      | true ↦ ok s
      | false ↦ prune_node h s >>= λ out. prune_from n out.0 out.1
    ]
  ]

  unfoldable pub prune_segment : List NodeId → Simulator P → Result (Simulator P)
  unfolding prune_from for_each
  prune_segment segment s =
      for_each (reverse segment)
        (λ h k. if has_node k.tree h then prune_from (suc k.tree.nodes.size) (some h) k else ok k) s
