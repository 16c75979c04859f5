-- ===== src/StoragePolicy/Affinity.antt =====
-- cpp/src/policies/storage/wear_share_affinity_storage_policy.cpp: the tiers share the programmed bytes
-- and a dump's affinity names its stream.
use dwpdsim.Base.{
  ℕ, Option, none, some, Result, ok, err, undefined, ◌>>=◌, add64, scramble, to_u32, ◌==◌, ◌%◌,
  if◌then◌else◌,
}
use dwpdsim.Types.{NodeId, StorageTier, slc, tlc, Placement, at_tier}
use dwpdsim.Floats.{Floats}
use dwpdsim.StorageView.{StorageView}
use dwpdsim.StoragePolicy.{
  StoragePolicy, DumpContext, CapacityPressureContext, StorageActionIntent, trim,
}
use dwpdsim.StoragePolicy.Entries.{PolicyState, on_commit}
use dwpdsim.StoragePolicy.Searches.{lru_leaf}

pub record AffinityConfig (F : Type 0) : Type 0 where
  pub slc_host_share : F
  pub logical_fill_fraction : F

pub record AffinityPolicy (F : Type 0) : Type 0 where
  pub config : AffinityConfig F
  pub state : PolicyState

unfoldable pub stable_hash : ℕ → ℕ
unfolding scramble
stable_hash value = scramble (add64 (add64 value 11400714819323198485) 11)

unfoldable pub stream_for : StorageTier → ℕ → NodeId → StorageView → Result ℕ
unfolding stable_hash
stream_for tier affinity_id segment_endpoint view =
    let key = if affinity_id == 0 then segment_endpoint else affinity_id in
    let count = (at_tier tier view.storage).stream_count in
    if count == 0 then err undefined else ok (to_u32 (stable_hash key % count))

-- The affinity of a dump, which is that of its segment when the request has none.
abbrev pub affinity_of : DumpContext → ℕ
affinity_of dump =
    if dump.request.affinity_id == 0
    then dump.segment.segment_endpoint
    else dump.request.affinity_id

module _ {F : Type 0} (M : Floats F) where
  unfoldable pub choose_tier : DumpContext → AffinityPolicy F → StorageTier
  choose_tier dump s =
      let written = M.of_nat dump.write_bytes in
      let slc_score =
        M.over (M.plus (M.of_nat s.state.program_bytes.slc_part) written) s.config.slc_host_share in
      let tlc_score =
        M.over (M.plus (M.of_nat s.state.program_bytes.tlc_part) written)
          (M.minus (M.literal 1 1) s.config.slc_host_share) in
      if M.is_at_most slc_score tlc_score then slc else tlc

  unfoldable pub place_dump : DumpContext → StorageView → AffinityPolicy F → Result Placement
  unfolding choose_tier stream_for
  place_dump dump view s = do
    stream ← stream_for (choose_tier dump s) (affinity_of dump) dump.segment.segment_endpoint view
    ok (record { tier = choose_tier dump s; stream_id = stream })

  unfoldable pub capacity_limit_blocks : StorageTier → StorageView → AffinityPolicy F → ℕ
  capacity_limit_blocks tier view s = M.to_nat (
      M.times (M.of_nat (at_tier tier view.storage).capacity_blocks) s.config.logical_fill_fraction)

unfoldable pub reclaim_for :
    CapacityPressureContext → StorageView → PolicyState → Result (Option StorageActionIntent)
reclaim_for pressure view s = do
  victim ← lru_leaf s pressure.target_tier pressure.protected_nodes view
  ok (elim victim [
    | none ↦ none
    | some v ↦ some (trim (record { segment_endpoint = v.endpoint; tier = pressure.target_tier }))
  ])

abbrev pub wear_share_affinity : {F Feedback : Type 0} → Floats F → StoragePolicy Feedback
wear_share_affinity {F} M = record {
  State = AffinityPolicy F;
  background_period_ns = λ s. 0;
  on_request_begin = λ r v s. ok s;
  on_node_created = λ n v s. ok s;
  on_node_pruned = λ n p v s. ok s;
  on_shadow_feedback = λ f v s. ok s;
  place_dump = λ d v s. place_dump M d v s;
  capacity_limit_blocks = λ t v s. capacity_limit_blocks M t v s;
  reclaim_for = λ p v s. do
    a ← reclaim_for p v s.state
    ok (a, s);
  next_background_action = λ t v s. ok (none, s);
  on_storage_access = λ a v s. ok (none, s);
  on_commit = λ m v s. do
    t ← on_commit m s.state
    ok (record s { state = t });
}
