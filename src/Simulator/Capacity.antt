-- ===== src/Simulator/Capacity.antt =====
-- `ensure_capacity` and `execute_action` of cpp/src/simulator.cpp: the storage policy names segments
-- until a tier has room. The loop, and the relocations that call it again, share their fuel.
use dwpdsim.Base.{
  ℕ, suc, zero, Bool, true, false, List, [], ◌∷◌, Option, none, some, Result, ok, err, out_of_fuel,
  ◌>>=◌, add64, ltb, ◌+◌, ◌*◌, ◌&&◌, if◌then◌else◌,
}
use dwpdsim.Types.{NodeId, StorageTier, slc, tlc, at_tier, tier_eq}
use dwpdsim.RadixTree.{RadixTree, has_node, node}
use dwpdsim.StoragePolicy.{StorageActionIntent, trim, relocate}
use dwpdsim.Trace.{TraceContext}
use dwpdsim.Simulator.{Parts, Simulator, view, on_metrics}
use dwpdsim.Simulator.Trimming.{ActionPlane, capacity, execute_trim}
use dwpdsim.Simulator.Relocation.{Ensure, execute_relocation}
use dwpdsim.Simulator.Transfers.{not_begun}

-- Whether one of the protected nodes lies on the tier.
unfoldable pub any_protected : RadixTree → StorageTier → List NodeId → Result Bool
any_protected t tier [] = ok false
any_protected t tier (h ∷ hs) = elim (has_node t h) [
  | false ↦ any_protected t tier hs
  | true ↦ node t h >>= λ n. elim (n.on_storage && tier_eq n.storage_tier tier) [
    | true ↦ ok true
    | false ↦ any_protected t tier hs
  ]
]

module _ (P : Parts) where
  unfoldable pub execute_action :
      Ensure P
      → StorageActionIntent
      → ActionPlane
      → List NodeId
      → TraceContext
      → Simulator P
      → Result (Bool × Simulator P)
  execute_action ensure (trim intent) plane protected_nodes context s =
      execute_trim P intent plane context s
  execute_action ensure (relocate intent) plane protected_nodes context s =
      execute_relocation P ensure intent protected_nodes context not_begun s

  abbrev count_no_space : Simulator P → Simulator P
  count_no_space s = on_metrics P (λ m. record m { no_space = add64 m.no_space 1 }) s

  unfoldable pub report_no_space :
      StorageTier → List NodeId → Simulator P → Result (Bool × Simulator P)
  unfolding any_protected
  report_no_space tier protected_nodes s = do
    hit ← any_protected s.tree tier protected_nodes
    let s1 = count_no_space s
    ok (
      false,
      if hit
          then on_metrics P
              (λ m. record m {
                protected_victim_exhaustion = add64 m.protected_victim_exhaustion 1;
              })
              s1
          else s1,
    )

  -- What one round of the loop asks of the policy, and the action that it carries out; false when
  -- there is none or it fails.
  unfoldable pub reclaim_once : Ensure P → Ensure P
  unfolding execute_action
  reclaim_once ensure tier required cause protected_nodes context s = do
    out ←
        P.storage_policy.reclaim_for
          (record {
            timestamp_ns = context.timestamp_ns;
            cause = cause;
            target_tier = tier;
            required_blocks = required;
            protected_nodes = protected_nodes;
          })
          (view P s) s.storage_state
    let s1 : Simulator P = record s { storage_state = out.1 }
    elim out.0 [
      | none ↦ ok (false, s1)
      | some action ↦ execute_action ensure action capacity protected_nodes context s1
    ]

  -- `ensure_capacity`: with no limit it asks the policy for the tier's limit, with a limit it is in
  -- the loop.
  unfoldable pub reclaim_until : ℕ → Option ℕ → Ensure P
  unfolding reclaim_once report_no_space
  reclaim_until zero limit tier required cause protected_nodes context s = err out_of_fuel
  reclaim_until (suc n) none tier required cause protected_nodes context s =
      elim (ltb (P.storage_policy.capacity_limit_blocks tier (view P s) s.storage_state) required) [
        | true ↦ ok (false, count_no_space s)
        | false ↦
            reclaim_until n
              (some (P.storage_policy.capacity_limit_blocks tier (view P s) s.storage_state)) tier
              required cause protected_nodes context s
      ]
  reclaim_until (suc n) (some limit) tier required cause protected_nodes context s =
      elim (ltb limit (add64 (at_tier tier s.storage).used_blocks required)) [
        | false ↦ ok (true, s)
        | true ↦
            reclaim_once (reclaim_until n none) tier required cause protected_nodes context s
            >>= λ out. elim out.0 [
              | true ↦
                  reclaim_until n (some limit) tier required cause protected_nodes context out.1
              | false ↦ report_no_space tier protected_nodes out.1
            ]
      ]

  -- Each round takes blocks off a tier, and a relocation onto the other tier calls the loop again.
  abbrev pub rounds : Simulator P → ℕ
  rounds s = 2 * ((at_tier slc s.storage).used_blocks + (at_tier tlc s.storage).used_blocks) + 8

  unfoldable pub ensure_capacity : Ensure P
  unfolding reclaim_until
  ensure_capacity tier required cause protected_nodes context s =
      reclaim_until (rounds s) none tier required cause protected_nodes context s
