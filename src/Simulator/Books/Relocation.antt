-- ===== src/Simulator/Books/Relocation.antt =====
-- A relocation keeps the books of the simulator: while it runs, the blocks that are allocated and not
-- yet written, or written and not yet trimmed, are its debt.
use dwpdsim.Base.{
  ℕ, List, [], ◌∷◌, Option, none, some, ◌≡◌, refl, ap, ap₂, sym, map, for_each, arith, Ensures,
  returns, Ensures-bind, Ensures-after, Ensures-if, Ensures-option, Ensures-list, ◌∙◌,
}
use dwpdsim.Types.{NodeId, StorageTier, Placement, TraceReason, RelocationCause, CapacityCause}
use dwpdsim.StoragePolicy.{RelocateIntent, StorageMutationKind}
use dwpdsim.Metrics.{storage_removed, storage_written}
use dwpdsim.Trace.{TraceContext}
use dwpdsim.Simulator.{Parts, Simulator, on_metrics}
use dwpdsim.Simulator.Relocation.{Ensure, execute_relocation, relocate_nodes}
use dwpdsim.Simulator.Transfers.{
  Begun, Transfer, assign_destinations, read_block, write_block, trim_source, map_blocks,
  relocation_commit, transfer_blocks, count_migration, take_move_id,
}
use dwpdsim.Simulator.Balance.{
  allocate-Balanced, uncounted-Balanced, counted-Balanced, release-Balanced, owe, owing, owing-cons,
  owing-owe, owe_swap,
}
use dwpdsim.Simulator.Books.{
  Frame, InBooks, Books-debt, Books-tiers, on_node-InBooks, notify_storage_commit-InBooks,
  count_io-InBooks, emit_io-InBooks,
}

abbrev sources : List Transfer → List StorageTier
sources xs = map (λ x. x.source.tier) xs

abbrev destinations : List Transfer → List StorageTier
destinations xs = map (λ x. x.destination.tier) xs

module _ (P : Parts) (k : Frame) where
  assign-InBooks :
      (d : StorageTier → ℕ) (p : Placement) (nodes : List NodeId) (s : Simulator P)
      → InBooks P d k s
      → Ensures
          (λ out. InBooks P (owing d (destinations out.0)) k out.1)
          (assign_destinations P p nodes s)
  unfolding assign_destinations
  assign-InBooks d p [] s b = returns (Books-debt d _ (λ t. omega arith) b)
  assign-InBooks d p (h ∷ hs) s b = Ensures-after _ λ n.
      Ensures-bind
        (assign-InBooks (owe p.tier d) p hs _ (
          Books-tiers _ _ _
            (allocate-Balanced d s.storage s.metrics.storage_resident_blocks p.tier b.tiers) b))
        λ rest b1. returns (
          Books-debt _ _
            (λ t.
              owing-owe d p.tier (destinations rest.0) t
              ∙ sym (owing-cons d p.tier (destinations rest.0) t))
            b1)

  -- A read changes no debt and keeps the transfer's ends.
  abbrev SameEnds : Transfer → Transfer → Type 0
  SameEnds x y = (x.source.tier ≡ y.source.tier) × (x.destination.tier ≡ y.destination.tier)

  read_block-InBooks :
      (d : StorageTier → ℕ) (c : TraceContext) (r : TraceReason) (move : ℕ) (begun : Begun)
      (x : Transfer) (s : Simulator P)
      → InBooks P d k s
      → Ensures (λ out. SameEnds out.0 x × InBooks P d k out.1) (read_block P c r move begun x s)
  unfolding read_block
  read_block-InBooks d c r move begun x s b =
      Ensures-if _ (Ensures-after _ λ q. returns ((refl, refl), b)) (
        Ensures-after _ λ n. Ensures-bind (emit_io-InBooks P d k _ _ _ _ _ _ _ _ s b) λ out b1.
          Ensures-bind (count_io-InBooks P d k _ _ _ _ out.1 b1)
            λ s1 b2. returns ((refl, refl), b2))

  read_blocks-InBooks :
      (d : StorageTier → ℕ) (c : TraceContext) (r : TraceReason) (move : ℕ) (begun : Begun)
      (xs : List Transfer) (s : Simulator P)
      → InBooks P d k s
      → Ensures
          (λ out. (destinations out.0 ≡ destinations xs) × InBooks P d k out.1)
          (map_blocks P (read_block P c r move begun) xs s)
  unfolding map_blocks
  read_blocks-InBooks d c r move begun [] s b = returns (refl, b)
  read_blocks-InBooks d c r move begun (x ∷ xs) s b =
      Ensures-bind (read_block-InBooks d c r move begun x s b) λ out b1.
        Ensures-bind (read_blocks-InBooks d c r move begun xs out.1 b1.1)
          λ rest b2. returns (ap₂ ◌∷◌ b1.0.1 b2.0, b2.1)

  write_block-InBooks :
      (d : StorageTier → ℕ) (c : TraceContext) (r : TraceReason) (move : ℕ) (x : Transfer)
      (s : Simulator P)
      → InBooks P (owe x.destination.tier d) k s
      → Ensures
          (λ out. SameEnds out.0 x × InBooks P (owe x.source.tier d) k out.1)
          (write_block P c r move x s)
  unfolding write_block storage_removed storage_written
  write_block-InBooks d c r move x s b = Ensures-after _ λ n.
      Ensures-bind (emit_io-InBooks P _ k _ _ _ _ _ _ _ _ s b) λ out b1.
        Ensures-bind (count_io-InBooks P _ k _ _ _ _ out.1 b1) λ s1 b2.
          Ensures-bind
            (on_node-InBooks P _ k _ _ _ (
              Books-debt _ (owe x.destination.tier (owe x.source.tier d))
                (owe_swap d x.source.tier x.destination.tier)
                (Books-tiers _ _ _
                  (uncounted-Balanced (owe x.destination.tier d) s1.storage
                    s1.metrics.storage_resident_blocks x.source.tier b2.tiers)
                  b2)))
            λ s3 b3. returns (
              (refl, refl),
              Books-tiers _ _ _
                  (counted-Balanced (owe x.source.tier d) s3.storage
                    s3.metrics.storage_resident_blocks x.destination.tier b3.tiers)
                  b3,
            )

  write_blocks-InBooks :
      (d : StorageTier → ℕ) (c : TraceContext) (r : TraceReason) (move : ℕ) (xs : List Transfer)
      (s : Simulator P)
      → InBooks P (owing d (destinations xs)) k s
      → Ensures
          (λ out. InBooks P (owing d (sources out.0)) k out.1)
          (map_blocks P (write_block P c r move) xs s)
  unfolding map_blocks
  write_blocks-InBooks d c r move [] s b = returns b
  write_blocks-InBooks d c r move (x ∷ xs) s b =
      Ensures-bind
        (write_block-InBooks (owing d (destinations xs)) c r move x s
          (Books-debt _ _ (owing-cons d x.destination.tier (destinations xs)) b))
        λ out b1.
          Ensures-bind
            (write_blocks-InBooks (owe x.source.tier d) c r move xs out.1
              (Books-debt _ _ (λ t. sym (owing-owe d x.source.tier (destinations xs) t)) b1.1))
            λ rest b2. returns (
              Books-debt _ _
                (λ t. rw (b1.0.0) (
                  owing-owe d x.source.tier (sources rest.0) t
                  ∙ sym (owing-cons d x.source.tier (sources rest.0) t)))
                b2)

  trim_sources-InBooks :
      (d : StorageTier → ℕ) (c : TraceContext) (r : TraceReason) (move : ℕ) (xs : List Transfer)
      (s : Simulator P)
      → InBooks P (owing d (sources xs)) k s
      → Ensures (InBooks P d k) (for_each xs (trim_source P c r move) s)
  unfolding for_each trim_source
  trim_sources-InBooks d c r move [] s b = returns (Books-debt _ _ (λ t. omega arith) b)
  trim_sources-InBooks d c r move (x ∷ xs) s b =
      Ensures-bind
        (Ensures-after _ λ n.
          Ensures-bind
            (emit_io-InBooks P _ k _ _ _ _ _ _ _ _ s (
              Books-debt _ (owe x.source.tier (owing d (sources xs)))
                (owing-cons d x.source.tier (sources xs)) b))
            λ out b1. Ensures-bind (count_io-InBooks P _ k _ _ _ _ out.1 b1) λ s1 b2. returns (
              Books-tiers _ _ _
                (release-Balanced (owing d (sources xs)) s1.storage
                  s1.metrics.storage_resident_blocks x.source.tier x.source.block_address b2.tiers)
                b2))
        λ s1 b1. trim_sources-InBooks d c r move xs s1 b1

  relocation_commit-InBooks :
      (d : StorageTier → ℕ) (kind : StorageMutationKind) (c : TraceContext) (i : RelocateIntent)
      (t : StorageTier) (nodes : List NodeId) (s : Simulator P)
      → InBooks P d k s
      → Ensures (InBooks P d k) (relocation_commit P kind c i t nodes s)
  unfolding relocation_commit
  relocation_commit-InBooks d kind c i t nodes s b = notify_storage_commit-InBooks P d k _ s b

  took_move_id :
      (d : StorageTier → ℕ) (m : Option ℕ) (s : Simulator P)
      → InBooks P d k s
      → InBooks P d k (take_move_id P m s).1
  took_move_id d none s b = b
  took_move_id d (some i) s b = b

  counted_migration :
      (d : StorageTier → ℕ) (c : RelocationCause) (blocks size : ℕ) (s : Simulator P)
      → InBooks P d k s
      → InBooks P d k (on_metrics P (count_migration c blocks size) s)
  counted_migration d RelocationCause.capacity blocks size s b = b
  counted_migration d RelocationCause.access blocks size s b = b
  counted_migration d RelocationCause.background blocks size s b = b

  transfer_blocks-InBooks :
      (d : StorageTier → ℕ) (i : RelocateIntent) (c : TraceContext) (begun : Begun)
      (source : StorageTier) (nodes : List NodeId) (s : Simulator P)
      → InBooks P d k s
      → Ensures (InBooks P d k) (transfer_blocks P i c begun source nodes s)
  unfolding transfer_blocks
  transfer_blocks-InBooks d i c begun source nodes s b =
      Ensures-bind
        (assign-InBooks d i.destination nodes _ (took_move_id d begun.assigned_move_id s b))
        λ a b1. Ensures-bind (read_blocks-InBooks _ c _ _ begun a.0 a.1 b1) λ r b2.
          Ensures-bind (relocation_commit-InBooks _ _ c i source nodes _ b2.1) λ s1 b3.
            Ensures-bind
              (write_blocks-InBooks d c _ _ r.0 s1
                (Books-debt _ _ (λ t. ap (λ ts. owing d ts t) (sym b2.0)) b3))
              λ w b4. Ensures-bind (relocation_commit-InBooks _ _ c i source nodes _ b4) λ s2 b5.
                Ensures-bind (trim_sources-InBooks d c _ _ w.0 s2 b5) λ s3 b6.
                  Ensures-bind (relocation_commit-InBooks d _ c i source nodes _ b6)
                    λ s4 b7. returns (counted_migration d i.cause _ _ s4 b7)

  -- `ensure` keeps the books.
  abbrev pub KeepsBooks : (StorageTier → ℕ) → Ensure P → Type 0
  KeepsBooks d ensure =
      (t : StorageTier) (n : ℕ) (c : CapacityCause) (p : List NodeId) (x : TraceContext)
      (s : Simulator P)
      → InBooks P d k s
      → Ensures (λ out. InBooks P d k out.1) (ensure t n c p x s)

  relocate_nodes-InBooks :
      (d : StorageTier → ℕ) (ensure : Ensure P) (i : RelocateIntent) (p : List NodeId)
      (c : TraceContext) (begun : Begun) (source : StorageTier) (nodes : List NodeId)
      (s : Simulator P)
      → KeepsBooks d ensure
      → InBooks P d k s
      → Ensures (λ out. InBooks P d k out.1) (relocate_nodes P ensure i p c begun source nodes s)
  unfolding relocate_nodes
  relocate_nodes-InBooks d ensure i p c begun source nodes s e b =
      Ensures-bind {P = λ out. InBooks P d k out.1}
        (Ensures-if begun.capacity_ready (returns b) (e _ _ _ _ _ s b))
        λ room b1.
          Ensures-if room.0
            (Ensures-bind (transfer_blocks-InBooks d i c begun source nodes room.1 b1)
              λ s1 b2. returns b2)
            (returns b1)

  pub execute_relocation-InBooks :
      (d : StorageTier → ℕ) (ensure : Ensure P) (i : RelocateIntent) (p : List NodeId)
      (c : TraceContext) (begun : Begun) (s : Simulator P)
      → KeepsBooks d ensure
      → InBooks P d k s
      → Ensures (λ out. InBooks P d k out.1) (execute_relocation P ensure i p c begun s)
  unfolding execute_relocation
  execute_relocation-InBooks d ensure i p c begun s e b = Ensures-after _ λ segment.
      Ensures-after _ λ tier. Ensures-option tier (returns b) λ source. Ensures-after _ λ nodes.
        Ensures-list nodes (returns b)
          λ first others. relocate_nodes-InBooks d ensure i _ c begun source (first ∷ others) s e b
