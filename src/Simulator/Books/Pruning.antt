-- ===== src/Simulator/Books/Pruning.antt =====
-- Pruning the tree and trimming a segment keep the books of the simulator.
use dwpdsim.Base.{
  ℕ, suc, zero, Bool, true, false, List, ◌∷◌, Option, none, some, reverse, if◌then◌else◌, Ensures,
  returns, fails, Ensures-bind, Ensures-after, Ensures-for_each, Ensures-if, Ensures-case,
  Ensures-list,
}
use dwpdsim.Types.{NodeId, StorageTier, TraceReason}
use dwpdsim.RadixTree.{has_node}
use dwpdsim.StoragePolicy.{TrimIntent}
use dwpdsim.Metrics.{storage_removed}
use dwpdsim.Trace.{TraceContext}
use dwpdsim.Simulator.{Parts, Simulator, on_metrics}
use dwpdsim.Simulator.Pruning.{prune_node, prune_from, prune_segment}
use dwpdsim.Simulator.Trimming.{
  ActionPlane, capacity, background, trim_node, trim_nodes, count_trim, execute_trim,
}
use dwpdsim.Simulator.Balance.{uncounted-Balanced, release-Balanced}
use dwpdsim.Simulator.Books.{
  Frame, InBooks, on_node-InBooks, notify_storage_commit-InBooks, count_io-InBooks, emit_io-InBooks,
  shadow_loss-InBooks,
}

module _ (P : Parts) (d : StorageTier → ℕ) (k : Frame) where
  prune_node-InBooks :
      (h : NodeId) (s : Simulator P)
      → InBooks P d k s
      → Ensures (λ out. InBooks P d k out.1) (prune_node P h s)
  unfolding prune_node
  prune_node-InBooks h s b = Ensures-after _ λ out. Ensures-after _ λ m. Ensures-after _ λ p.
      Ensures-bind (notify_storage_commit-InBooks P d k _ _ b)
        λ s4 b4. Ensures-after _ λ t. returns b4

  prune_from-InBooks :
      (n : ℕ) (h : Option NodeId) (s : Simulator P)
      → InBooks P d k s
      → Ensures (InBooks P d k) (prune_from P n h s)
  unfolding prune_from
  prune_from-InBooks zero none s b = returns b
  prune_from-InBooks zero (some h) s b = fails
  prune_from-InBooks (suc n) none s b = returns b
  prune_from-InBooks (suc n) (some h) s b =
      Ensures-case (has_node s.tree h)
        (Ensures-after _ λ needed.
          Ensures-case needed (returns b)
            (Ensures-bind (prune_node-InBooks h s b) λ out b1. prune_from-InBooks n out.0 out.1 b1))
        (returns b)

  pub prune_segment-InBooks :
      (segment : List NodeId) (s : Simulator P)
      → InBooks P d k s
      → Ensures (InBooks P d k) (prune_segment P segment s)
  unfolding prune_segment
  prune_segment-InBooks segment s b =
      Ensures-for_each (InBooks P d k) _
        (λ h t b1.
          Ensures-if (has_node t.tree h) (prune_from-InBooks (suc t.tree.nodes.size) (some h) t b1)
            (returns {a = t} b1))
        (reverse segment) s b

  pub either-InBooks :
      (c : Bool) (s t : Simulator P)
      → InBooks P d k s
      → InBooks P d k t
      → InBooks P d k (if c then s else t)
  either-InBooks true s t b e = b
  either-InBooks false s t b e = e

  trim_node-InBooks :
      (r : TraceReason) (c : TraceContext) (h : NodeId) (s : Simulator P)
      → InBooks P d k s
      → Ensures (InBooks P d k) (trim_node P r c h s)
  unfolding trim_node storage_removed
  trim_node-InBooks r c h s b = Ensures-after _ λ n.
      Ensures-bind (emit_io-InBooks P d k _ _ _ _ _ _ _ _ _ b) λ out b1.
        Ensures-bind (count_io-InBooks P d k _ _ _ _ _ b1) λ s1 b2.
          Ensures-bind
            (on_node-InBooks P d k _ _ _ (record {
              tiers = release-Balanced d _ _ n.storage_tier _ (
                  uncounted-Balanced d s1.storage s1.metrics.storage_resident_blocks n.storage_tier
                    b2.tiers);
              memory = b2.memory;
              started = b2.started;
              results = b2.results;
              rows = b2.rows;
              kept = b2.kept;
            }))
            λ s3 b3. returns (
              either-InBooks n.in_memory s3 _ b3 (shadow_loss-InBooks P d k h c.timestamp_ns s3 b3))

  counted_trim :
      (plane : ActionPlane) (blocks size : ℕ) (s : Simulator P)
      → InBooks P d k s
      → InBooks P d k (on_metrics P (count_trim plane blocks size) s)
  counted_trim capacity blocks size s b = b
  counted_trim background blocks size s b = b

  trim_nodes-InBooks :
      (i : TrimIntent) (plane : ActionPlane) (c : TraceContext) (nodes : List NodeId)
      (s : Simulator P)
      → InBooks P d k s
      → Ensures (λ out. InBooks P d k out.1) (trim_nodes P i plane c nodes s)
  unfolding trim_nodes
  trim_nodes-InBooks i plane c nodes s b =
      Ensures-bind (Ensures-for_each (InBooks P d k) _ (trim_node-InBooks _ c) nodes s b) λ s1 b1.
        Ensures-bind (notify_storage_commit-InBooks P d k _ _ b1) λ s2 b2.
          Ensures-bind (prune_segment-InBooks nodes _ (counted_trim plane _ _ s2 b2))
            λ s3 b3. returns b3

  pub execute_trim-InBooks :
      (i : TrimIntent) (plane : ActionPlane) (c : TraceContext) (s : Simulator P)
      → InBooks P d k s
      → Ensures (λ out. InBooks P d k out.1) (execute_trim P i plane c s)
  unfolding execute_trim
  execute_trim-InBooks i plane c s b = Ensures-after _ λ nodes.
      Ensures-list nodes (returns b)
        λ first others. trim_nodes-InBooks i plane c (first ∷ others) s b
