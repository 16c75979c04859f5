-- ===== src/Simulator/Relocation.antt =====
-- `execute_relocation` of cpp/src/simulator.cpp: the blocks of a segment on one tier are read, written
-- to the other tier and given up on the first.
use dwpdsim.Base.{
  ℕ, Bool, true, false, List, [], ◌∷◌, ◌++◌, Option, none, some, Result, ok, ◌>>=◌, length, not,
  ◌&&◌, if◌then◌else◌,
}
use dwpdsim.Types.{NodeId, StorageTier, CapacityCause, tier_eq}
use dwpdsim.RadixTree.{RadixTree, node}
use dwpdsim.StorageView.{resident_nodes, resolve_segment}
use dwpdsim.StoragePolicy.{RelocateIntent}
use dwpdsim.Trace.{TraceContext}
use dwpdsim.Simulator.{Parts, Simulator, view, relocation_capacity_cause}
use dwpdsim.Simulator.Transfers.{transfer_blocks, Begun}

-- The first node's tier that is not the destination.
unfoldable pub find_source_tier :
    RadixTree → StorageTier → List NodeId → Result (Option StorageTier)
find_source_tier t destination [] = ok none
find_source_tier t destination (h ∷ hs) = node t h >>= λ n.
    elim (n.on_storage && not (tier_eq n.storage_tier destination)) [
      | true ↦ ok (some n.storage_tier)
      | false ↦ find_source_tier t destination hs
    ]

module _ (P : Parts) where
  -- The type of `ensure_capacity`.
  abbrev pub Ensure : Type 0
  Ensure =
      StorageTier
      → ℕ
      → CapacityCause
      → List NodeId
      → TraceContext
      → Simulator P
      → Result (Bool × Simulator P)

  -- The room for the blocks, unless the caller has made it, and the move.
  unfoldable pub relocate_nodes :
      Ensure
      → RelocateIntent
      → List NodeId
      → TraceContext
      → Begun
      → StorageTier
      → List NodeId
      → Simulator P
      → Result (Bool × Simulator P)
  unfolding transfer_blocks
  relocate_nodes ensure intent protected_nodes context begun source nodes s = do
    room ←
        if begun.capacity_ready
        then ok (true, s)
        else ensure intent.destination.tier (length nodes) (relocation_capacity_cause intent.cause)
            protected_nodes context s
    if room.0
        then (do s1 ← transfer_blocks P intent context begun source nodes room.1; ok (true, s1))
        else ok (false, room.1)

  unfoldable pub execute_relocation :
      Ensure
      → RelocateIntent
      → List NodeId
      → TraceContext
      → Begun
      → Simulator P
      → Result (Bool × Simulator P)
  unfolding find_source_tier relocate_nodes
  execute_relocation ensure intent protected_nodes context begun s = do
    segment ← resolve_segment (view P s) intent.source_segment_endpoint
    tier ← find_source_tier s.tree intent.destination.tier segment.ordered_nodes
    elim tier [
      | none ↦ ok (false, s)
      | some source ↦ do
        nodes ← resident_nodes (view P s) intent.source_segment_endpoint source
        elim nodes [
          | [] ↦ ok (false, s)
          | first ∷ others ↦
              relocate_nodes ensure intent (protected_nodes ++ segment.ordered_nodes) context begun
                source (first ∷ others) s
        ]
    ]
