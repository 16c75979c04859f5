-- ===== src/MemoryPolicy.antt =====
-- cpp/include/dwpdsim/policies/memory/memory_policy.hpp: what a memory policy is asked for, and the
-- mutations that it is told of. `State` is the policy object's own state; a `const` method that
-- changes a `mutable` member returns the new state too.
pub mod Baseline
pub mod Indexed
use dwpdsim.Base.{ℕ, Bool, Option, Result, false}
use dwpdsim.Types.{NodeId, Node, RequestContext, AccessContext, MemoryEvictionAction}
use dwpdsim.RadixTree.{RadixTree}

pub record MemoryEvictionDecision : Type 0 where
  pub leaf_segment_endpoint : NodeId
  pub action : MemoryEvictionAction
  pub reclaim_parent : Bool
  pub max_eviction_blocks : Option ℕ

pub data MemoryMutationKind : Type 0 where
  inserted accessed removed : MemoryMutationKind

pub record MemoryMutation : Type 0 where
  pub kind : MemoryMutationKind
  pub node_id : NodeId

pub record MemoryPolicy : Type 1 where
  pub State : Type 0
  pub on_request_begin : RequestContext → RadixTree → State → Result State
  pub on_request_end : RequestContext → RadixTree → State → Result State
  pub on_node_created : NodeId → RadixTree → State → Result State
  pub on_node_pruned : NodeId → Option NodeId → RadixTree → State → Result State
  pub admit_storage_hit : AccessContext → Node → RadixTree → State → Bool
  pub evict : RequestContext → RadixTree → State → Result (MemoryEvictionDecision × State)
  pub on_commit : MemoryMutation → RadixTree → State → Result State
