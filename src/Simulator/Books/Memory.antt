-- ===== src/Simulator/Books/Memory.antt =====
-- Eviction, dumping and insertion keep the books of the simulator.
use dwpdsim.Base.{
  ℕ, suc, zero, List, [], ◌∷◌, Option, none, some, ap, add64, sub64, Ensures, returns, fails,
  Ensures-bind, Ensures-after, Ensures-for_each, Ensures-if, either_holds,
}
use dwpdsim.Types.{
  NodeId, StorageTier, tlc, Placement, MemoryEvictionAction, drop, dump, AccessContext,
}
use dwpdsim.StorageView.{SegmentView}
use dwpdsim.MemoryPolicy.{MemoryEvictionDecision}
use dwpdsim.Metrics.{memory_inserted, memory_removed, storage_written}
use dwpdsim.Simulator.{Parts, Simulator, shadow_loss, notify_memory_commit}
use dwpdsim.Simulator.Memory.{
  remove_from_memory, save_or_drop, evict_blocks, evict_segment, evict_segments, evict_from_memory,
  insert_into_memory,
}
use dwpdsim.Simulator.Dumping.{write_unaddressed, write_dumped, dump_admitted, dump_segment}
use dwpdsim.Simulator.Balance.{grow-Balanced, allocate-Balanced, counted-Balanced, owe}
use dwpdsim.Simulator.Books.{
  Frame, past_of, Books, InBooks, Books-tiers, Books-memory, on_node-InBooks,
  notify_memory_commit-InBooks, notify_storage_commit-InBooks, count_io-InBooks, emit_io-InBooks,
}
use dwpdsim.Simulator.Books.Pruning.{prune_segment-InBooks, either-InBooks}
use dwpdsim.Simulator.Books.Capacity.{ensure_capacity-KeepsBooks}

module _ (P : Parts) (d : StorageTier → ℕ) (k : Frame) where
  write_unaddressed-InBooks :
      (h : NodeId) (s : Simulator P)
      → InBooks P d k s
      → Ensures (InBooks P d k) (write_unaddressed P h s)
  unfolding write_unaddressed storage_written
  write_unaddressed-InBooks h s b = Ensures-bind (on_node-InBooks P d k h _ s b) λ s1 b1.
      Ensures-after _ λ n. count_io-InBooks P d k _ _ _ _ _ (
        Books-tiers _ _ _
          (counted-Balanced d _ _ tlc
            (grow-Balanced d s1.storage s1.metrics.storage_resident_blocks tlc b1.tiers))
          b1)

  write_dumped-InBooks :
      (c : AccessContext) (p : Placement) (h : NodeId) (s : Simulator P)
      → InBooks P d k s
      → Ensures (InBooks P d k) (write_dumped P c p h s)
  unfolding write_dumped storage_written
  write_dumped-InBooks c p h s b =
      Ensures-bind
        (on_node-InBooks P (owe p.tier d) k h _ _ (
          Books-tiers _ _ _
            (allocate-Balanced d s.storage s.metrics.storage_resident_blocks p.tier b.tiers) b))
        λ s1 b1. Ensures-after _ λ n.
          Ensures-bind
            (count_io-InBooks P d k _ _ _ _ _ (
              Books-tiers _ _ _
                (counted-Balanced d s1.storage s1.metrics.storage_resident_blocks p.tier b1.tiers)
                b1))
            λ s2 b2. Ensures-bind (emit_io-InBooks P d k _ _ _ _ _ _ _ _ s2 b2) λ out b3. returns b3

  dump_admitted-InBooks :
      (c : AccessContext) (g : SegmentView) (nodes : List NodeId) (p : Placement) (s : Simulator P)
      → InBooks P d k s
      → Ensures (λ out. InBooks P d k out.1) (dump_admitted P c g nodes p s)
  unfolding dump_admitted
  dump_admitted-InBooks c g nodes p s b =
      Ensures-bind (Ensures-for_each (InBooks P d k) _ (write_dumped-InBooks c p) nodes s b)
        λ s1 b1. Ensures-bind (notify_storage_commit-InBooks P d k _ s1 b1) λ s2 b2. returns b2

  dump_segment-InBooks :
      (c : AccessContext) (g : SegmentView) (nodes : List NodeId) (s : Simulator P)
      → InBooks P d k s
      → Ensures (λ out. InBooks P d k out.1) (dump_segment P c g nodes s)
  unfolding dump_segment
  dump_segment-InBooks c g nodes s b =
      Ensures-if s.config.infinite_storage
        (Ensures-bind (Ensures-for_each (InBooks P d k) _ write_unaddressed-InBooks nodes _ b)
          λ s1 b1. returns b1)
        (Ensures-after _ λ p.
          Ensures-bind (ensure_capacity-KeepsBooks P d k _ _ _ _ _ _ b)
            λ room b1. Ensures-if room.0 (dump_admitted-InBooks c g nodes p room.1 b1) (returns b1))

  -- The two counts of the blocks in memory fall together.
  remove_from_memory-InBooks :
      (c : AccessContext) (h : NodeId) (s : Simulator P)
      → InBooks P d k s
      → Ensures (InBooks P d k) (remove_from_memory P c h s)
  unfolding remove_from_memory memory_removed
  remove_from_memory-InBooks c h s b = Ensures-after _ λ n.
      Ensures-bind {P = λ t. Less t}
        (Ensures-after _ λ t. returns (Books-memory _ _ (ap (λ x. sub64 x 1) b.memory) b))
        λ s1 b1.
          notify_memory_commit-InBooks P d k _ _
            (either_holds Less n.on_storage s1 (shadow_loss P h c.request.timestamp_ns s1) b1 b1)
    where
      Less : Simulator P → Type 0
      Less t = InBooks P d k (record t { memory_used_blocks = sub64 t.memory_used_blocks 1 })

  save_or_drop-InBooks :
      (a : MemoryEvictionAction) (c : AccessContext) (g : SegmentView) (ms ws : List NodeId)
      (s : Simulator P)
      → InBooks P d k s
      → Ensures (InBooks P d k) (save_or_drop P a c g ms ws s)
  unfolding save_or_drop
  save_or_drop-InBooks drop c g ms ws s b = returns b
  save_or_drop-InBooks dump c g ms [] s b = returns b
  save_or_drop-InBooks dump c g ms (w ∷ ws) s b =
      Ensures-bind (dump_segment-InBooks c g (w ∷ ws) _ b)
        λ out b1. returns (either-InBooks P d k out.0 out.1 _ b1 b1)

  evict_blocks-InBooks :
      (a : MemoryEvictionAction) (c : AccessContext) (g : SegmentView) (ms ws : List NodeId)
      (s : Simulator P)
      → InBooks P d k s
      → Ensures (InBooks P d k) (evict_blocks P a c g ms ws s)
  unfolding evict_blocks
  evict_blocks-InBooks a c g ms ws s b =
      Ensures-bind (save_or_drop-InBooks a c g ms ws _ b) λ s1 b1.
        Ensures-bind (Ensures-for_each (InBooks P d k) _ (remove_from_memory-InBooks c) ms s1 b1)
          λ s2 b2. prune_segment-InBooks P d k g.ordered_nodes s2 b2

  evict_segment-InBooks :
      (e : MemoryEvictionDecision) (c : AccessContext) (h : NodeId) (s : Simulator P)
      → InBooks P d k s
      → Ensures (λ out. InBooks P d k out.1) (evict_segment P e c h s)
  unfolding evict_segment
  evict_segment-InBooks e c h s b = Ensures-after _ λ nodes. Ensures-after _ λ top.
      Ensures-after _ λ above. Ensures-after _ λ ms. Ensures-after _ λ ws.
        Ensures-if _ (returns b)
          (Ensures-bind (evict_blocks-InBooks e.action c _ ms ws _ b) λ s2 b2. returns b2)

  evict_segments-InBooks :
      (n : ℕ) (e : MemoryEvictionDecision) (c : AccessContext) (h : Option NodeId) (s : Simulator P)
      → InBooks P d k s
      → Ensures (InBooks P d k) (evict_segments P n e c h s)
  unfolding evict_segments
  evict_segments-InBooks zero e c none s b = returns b
  evict_segments-InBooks zero e c (some h) s b = fails
  evict_segments-InBooks (suc n) e c none s b = returns b
  evict_segments-InBooks (suc n) e c (some h) s b =
      Ensures-bind (evict_segment-InBooks e c h s b)
        λ out b1. evict_segments-InBooks n e c out.0 out.1 b1

  evict_from_memory-InBooks :
      (c : AccessContext) (s : Simulator P)
      → InBooks P d k s
      → Ensures (InBooks P d k) (evict_from_memory P c s)
  unfolding evict_from_memory
  evict_from_memory-InBooks c s b = Ensures-after _ λ out.
      evict_segments-InBooks (suc s.tree.nodes.size) out.0 c (some out.0.leaf_segment_endpoint)
        (record s { memory_state = out.1 }) b

  -- The two counts of the blocks in memory rise together.
  pub insert_into_memory-InBooks :
      (h : NodeId) (c : AccessContext) (s : Simulator P)
      → InBooks P d k s
      → Ensures (InBooks P d k) (insert_into_memory P h c s)
  unfolding insert_into_memory memory_inserted notify_memory_commit
  insert_into_memory-InBooks h c s b =
      Ensures-bind {P = InBooks P d k} (Ensures-if _ (evict_from_memory-InBooks c s b) (returns b))
        λ s1 b1.
          Ensures-bind {P = More}
            (Ensures-after _ λ t. returns (Books-memory _ _ (ap (λ x. add64 x 1) b1.memory) b1))
            λ s2 b2.
              Ensures-bind {P = Counted} (Ensures-after _ λ m. returns b2)
                λ s3 b3. Ensures-after _ λ n. returns b3
    where
      Counted : Simulator P → Type 0
      Counted t =
          Books d k t.storage t.metrics.storage_resident_blocks t.memory_used_blocks
            (add64 t.metrics.memory_resident_blocks 1) t.next_access_sequence
            t.metrics.block_access_count t.metrics.memory_hits t.metrics.slc_hits t.metrics.tlc_hits
            t.metrics.global_misses t.trace_writer (past_of P t)

      More : Simulator P → Type 0
      More t = Counted (record t { memory_used_blocks = add64 t.memory_used_blocks 1 })
