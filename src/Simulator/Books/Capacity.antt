-- ===== src/Simulator/Books/Capacity.antt =====
-- Making room and the policy's actions keep the books of the simulator.
use dwpdsim.Base.{
  ℕ, suc, zero, List, Option, none, some, Ensures, returns, fails, Ensures-bind, Ensures-after,
  Ensures-case, Ensures-option,
}
use dwpdsim.Types.{NodeId, StorageTier}
use dwpdsim.StoragePolicy.{StorageActionIntent, trim, relocate}
use dwpdsim.Trace.{TraceContext}
use dwpdsim.Simulator.{Parts, Simulator}
use dwpdsim.Simulator.Trimming.{ActionPlane}
use dwpdsim.Simulator.Relocation.{Ensure}
use dwpdsim.Simulator.Capacity.{
  execute_action, report_no_space, reclaim_once, reclaim_until, ensure_capacity,
}
use dwpdsim.Simulator.Books.{Frame, InBooks}
use dwpdsim.Simulator.Books.Pruning.{execute_trim-InBooks, either-InBooks}
use dwpdsim.Simulator.Books.Relocation.{KeepsBooks, execute_relocation-InBooks}

module _ (P : Parts) (d : StorageTier → ℕ) (k : Frame) where
  pub execute_action-InBooks :
      (ensure : Ensure P) (a : StorageActionIntent) (plane : ActionPlane) (p : List NodeId)
      (c : TraceContext) (s : Simulator P)
      → KeepsBooks P k d ensure
      → InBooks P d k s
      → Ensures (λ out. InBooks P d k out.1) (execute_action P ensure a plane p c s)
  unfolding execute_action
  execute_action-InBooks ensure (trim i) plane p c s e b = execute_trim-InBooks P d k i plane c s b
  execute_action-InBooks ensure (relocate i) plane p c s e b =
      execute_relocation-InBooks P k d ensure i p c _ s e b

  report_no_space-InBooks :
      (t : StorageTier) (p : List NodeId) (s : Simulator P)
      → InBooks P d k s
      → Ensures (λ out. InBooks P d k out.1) (report_no_space P t p s)
  unfolding report_no_space
  report_no_space-InBooks t p s b =
      Ensures-after _ λ hit. returns (either-InBooks P d k hit _ _ b b)

  reclaim_once-KeepsBooks :
      (ensure : Ensure P) → KeepsBooks P k d ensure → KeepsBooks P k d (reclaim_once P ensure)
  unfolding reclaim_once
  reclaim_once-KeepsBooks ensure e t n c p x s b =
      Ensures-after _
        λ out. Ensures-option out.0 (returns b) λ a. execute_action-InBooks ensure a _ p x _ e b

  reclaim_until-KeepsBooks :
      (fuel : ℕ) (limit : Option ℕ) → KeepsBooks P k d (reclaim_until P fuel limit)
  unfolding reclaim_until
  reclaim_until-KeepsBooks zero none t n c p x s b = fails
  reclaim_until-KeepsBooks zero (some limit) t n c p x s b = fails
  reclaim_until-KeepsBooks (suc fuel) none t n c p x s b =
      Ensures-case _ (returns b) (reclaim_until-KeepsBooks fuel _ t n c p x s b)
  reclaim_until-KeepsBooks (suc fuel) (some limit) t n c p x s b =
      Ensures-case _
        (Ensures-bind (reclaim_once-KeepsBooks _ (reclaim_until-KeepsBooks fuel none) t n c p x s b)
          λ out b1.
            Ensures-case out.0 (reclaim_until-KeepsBooks fuel (some limit) t n c p x out.1 b1)
              (report_no_space-InBooks t p out.1 b1))
        (returns b)

  pub ensure_capacity-KeepsBooks : KeepsBooks P k d (ensure_capacity P)
  unfolding ensure_capacity
  ensure_capacity-KeepsBooks t n c p x s b = reclaim_until-KeepsBooks _ none t n c p x s b
