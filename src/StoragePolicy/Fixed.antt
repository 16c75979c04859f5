-- ===== src/StoragePolicy/Fixed.antt =====
-- cpp/src/policies/storage/baseline_fixed_lru_storage_policy.cpp: every dump goes to one placement,
-- SLC overflows into TLC, and TLC drops its least recently used leaf segment.
use dwpdsim.Base.{ℕ, Option, none, some, Result, ok, ◌>>=◌}
use dwpdsim.Types.{StorageTier, slc, tlc, Placement, at_tier, RelocationCause}
use dwpdsim.StorageView.{StorageView}
use dwpdsim.StoragePolicy.{
  StoragePolicy, CapacityPressureContext, StorageActionIntent, trim, relocate,
}
use dwpdsim.StoragePolicy.Entries.{PolicyState, on_commit}
use dwpdsim.StoragePolicy.Searches.{SegmentTime, lru_leaf}

pub record FixedPolicy : Type 0 where
  pub placement : Placement
  pub state : PolicyState

abbrev pub overflow_stream : Placement → ℕ
overflow_stream p = elim p.tier [ tlc ↦ p.stream_id | slc ↦ 0 ]

-- What to do with the least recently used leaf segment of the tier under pressure.
abbrev pub overflow : Placement → StorageTier → SegmentTime → StorageActionIntent
overflow p slc victim = relocate (record {
  source_segment_endpoint = victim.endpoint;
  destination = record { tier = tlc; stream_id = overflow_stream p };
  cause = RelocationCause.capacity;
})
overflow p tlc victim = trim (record { segment_endpoint = victim.endpoint; tier = tlc })

unfoldable pub reclaim_for :
    CapacityPressureContext → StorageView → FixedPolicy → Result (Option StorageActionIntent)
reclaim_for pressure view s = do
  victim ← lru_leaf s.state pressure.target_tier pressure.protected_nodes view
  ok (elim victim [ none ↦ none | some v ↦ some (overflow s.placement pressure.target_tier v) ])

abbrev pub baseline_fixed_lru : {Feedback : Type 0} → StoragePolicy Feedback
baseline_fixed_lru = record {
  State = FixedPolicy;
  background_period_ns = λ s. 0;
  on_request_begin = λ r v s. ok s;
  on_node_created = λ n v s. ok s;
  on_node_pruned = λ n p v s. ok s;
  on_shadow_feedback = λ f v s. ok s;
  place_dump = λ d v s. ok s.placement;
  capacity_limit_blocks = λ t v s. (at_tier t v.storage).capacity_blocks;
  reclaim_for = λ p v s. do
    a ← reclaim_for p v s
    ok (a, s);
  next_background_action = λ t v s. ok (none, s);
  on_storage_access = λ a v s. ok (none, s);
  on_commit = λ m v s. do
    t ← on_commit m s.state
    ok (record s { state = t });
}
