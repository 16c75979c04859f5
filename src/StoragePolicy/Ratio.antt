-- ===== src/StoragePolicy/Ratio.antt =====
-- cpp/src/policies/storage/baseline_ratio_lru_storage_policy.cpp: the tiers share the programmed bytes
-- by a ratio and the streams of a tier take turns; SLC overflows into TLC.
use dwpdsim.Base.{
  ℕ, Option, none, some, Result, ok, err, undefined, ◌>>=◌, add64, to_u32, ◌==◌, ◌%◌, if◌then◌else◌,
}
use dwpdsim.Types.{StorageTier, slc, tlc, Placement, at_tier, RelocationCause}
use dwpdsim.Floats.{Floats}
use dwpdsim.StorageView.{StorageView}
use dwpdsim.StoragePolicy.{
  StoragePolicy, DumpContext, CapacityPressureContext, StorageActionIntent, trim, relocate,
}
use dwpdsim.StoragePolicy.Entries.{PolicyState, on_commit}
use dwpdsim.StoragePolicy.Searches.{SegmentTime, lru_leaf}

pub record RatioPolicy (F : Type 0) : Type 0 where
  pub slc_write_ratio : F
  pub state : PolicyState

unfoldable pub next_stream : StorageTier → StorageView → PolicyState → Result ℕ
next_stream tier view s =
    let count = (at_tier tier view.storage).stream_count in
    if count == 0
    then err undefined
    else ok (to_u32 (at_tier tier s.committed_write_segments % count))

module _ {F : Type 0} (M : Floats F) where
  unfoldable pub choose_tier : DumpContext → RatioPolicy F → StorageTier
  choose_tier dump s =
      let slc_bytes = s.state.program_bytes.slc_part in
      let tlc_bytes = s.state.program_bytes.tlc_part in
      let target_slc =
        M.times (M.of_nat (add64 (add64 slc_bytes tlc_bytes) dump.write_bytes)) s.slc_write_ratio in
      if M.is_less (M.of_nat slc_bytes) target_slc then slc else tlc

  unfoldable pub place_dump : DumpContext → StorageView → RatioPolicy F → Result Placement
  unfolding choose_tier next_stream
  place_dump dump view s = do
    stream ← next_stream (choose_tier dump s) view s.state
    ok (record { tier = choose_tier dump s; stream_id = stream })

-- What to do with the least recently used leaf segment of the tier under pressure.
unfoldable pub overflow :
    StorageTier → StorageView → PolicyState → SegmentTime → Result StorageActionIntent
unfolding next_stream
overflow slc view s victim = do
  stream ← next_stream tlc view s
  ok (
      relocate (record {
        source_segment_endpoint = victim.endpoint;
        destination = record { tier = tlc; stream_id = stream };
        cause = RelocationCause.capacity;
      }))
overflow tlc view s victim = ok (trim (record { segment_endpoint = victim.endpoint; tier = tlc }))

unfoldable pub reclaim_for :
    CapacityPressureContext → StorageView → PolicyState → Result (Option StorageActionIntent)
unfolding overflow
reclaim_for pressure view s = do
  victim ← lru_leaf s pressure.target_tier pressure.protected_nodes view
  elim victim [
    | none ↦ ok none
    | some v ↦ do a ← overflow pressure.target_tier view s v; ok (some a)
  ]

abbrev pub baseline_ratio_lru : {F Feedback : Type 0} → Floats F → StoragePolicy Feedback
baseline_ratio_lru {F} M = record {
  State = RatioPolicy F;
  background_period_ns = λ s. 0;
  on_request_begin = λ r v s. ok s;
  on_node_created = λ n v s. ok s;
  on_node_pruned = λ n p v s. ok s;
  on_shadow_feedback = λ f v s. ok s;
  place_dump = λ d v s. place_dump M d v s;
  capacity_limit_blocks = λ t v s. (at_tier t v.storage).capacity_blocks;
  reclaim_for = λ p v s. do
    a ← reclaim_for p v s.state
    ok (a, s);
  next_background_action = λ t v s. ok (none, s);
  on_storage_access = λ a v s. ok (none, s);
  on_commit = λ m v s. do
    t ← on_commit m s.state
    ok (record s { state = t });
}
