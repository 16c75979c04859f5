-- ===== src/StoragePolicy/Placements.antt =====
-- The placements of the ratio and affinity policies.
use native.Mathlib.Nat.{mod-lt}
use dwpdsim.Base.{
  subst, ℕ, ◌<◌, ◌%◌, ◌≡◌, ◌≢◌, refl, ◌∙◌, ap, ok, err, undefined, arith, ◌==◌, if◌then◌else◌,
  ne→==false, to_u32, to_u32_lem, u32_mod, ◌>>=◌, Returns,
}
use dwpdsim.Types.{StorageTier, at_tier, Placement}
use dwpdsim.StorageView.{StorageView}
use dwpdsim.Floats.{Floats}
use dwpdsim.StoragePolicy.{DumpContext}
use dwpdsim.StoragePolicy.Ratio
use dwpdsim.StoragePolicy.Ratio.{RatioPolicy, next_stream}
use dwpdsim.StoragePolicy.Affinity
use dwpdsim.StoragePolicy.Affinity.{AffinityPolicy, stable_hash, stream_for}

-- A remainder by a number of streams, cut to 32 bits.
pub remainder_lem :
    (x count : ℕ)
    → 0 < count
    → count < u32_mod
    → (if count == 0 then err undefined else ok (to_u32 (x % count))) ≡ ok (x % count)
remainder_lem x count h k =
    rw (ne→==false count 0 (λ e. omega (arith, h, e)))
      (ap ok (to_u32_lem _ (omega (arith, mod-lt x h, k))))

-- The tier has streams, fewer than 2 ^ 32.
pub record HasStreams (view : StorageView) (tier : StorageTier) : Type 0 where
  pub some_stream : 0 < (at_tier tier view.storage).stream_count
  pub few_streams : (at_tier tier view.storage).stream_count < u32_mod

-- When both tiers have streams, fewer than 2 ^ 32, the ratio policy places a dump on the tier that it
-- chose and on one of that tier's streams.
pub ratio_place_dump-bounded :
    {F : Type 0} (M : Floats F) (dump : DumpContext) (view : StorageView) (s : RatioPolicy F)
    → ((tier : StorageTier) → HasStreams view tier)
    → Returns (Ratio.place_dump M dump view s) (λ p.
      (p.tier ≡ Ratio.choose_tier M dump s)
      × (p.stream_id < (at_tier p.tier view.storage).stream_count))
unfolding Ratio.place_dump next_stream ◌>>=◌
ratio_place_dump-bounded M dump view s h =
    let tier = Ratio.choose_tier M dump s in
    let x = at_tier tier s.state.committed_write_segments in
    rw
      (remainder_lem x (at_tier tier view.storage).stream_count (h tier).some_stream
        (h tier).few_streams)
      (refl, mod-lt x (h tier).some_stream)

-- The stream of an affinity other than 0.
stream_for_lem :
    (tier : StorageTier) (affinity_id segment_endpoint : ℕ) (view : StorageView)
    → HasStreams view tier
    → affinity_id ≢ 0
    → stream_for tier affinity_id segment_endpoint view
      ≡ ok (stable_hash affinity_id % (at_tier tier view.storage).stream_count)
unfolding stream_for
stream_for_lem tier affinity_id segment_endpoint view h n = rw (ne→==false affinity_id 0 n) (
    remainder_lem (stable_hash affinity_id) (at_tier tier view.storage).stream_count h.some_stream
      h.few_streams)

-- Where the affinity policy places a dump with an affinity other than 0.
stable_placement : (tier : StorageTier) (affinity_id : ℕ) (view : StorageView) → Placement
stable_placement tier affinity_id view = record {
  tier = tier;
  stream_id = stable_hash affinity_id % (at_tier tier view.storage).stream_count;
}

place_dump_lem :
    {F : Type 0} (M : Floats F) (dump : DumpContext) (view : StorageView) (s : AffinityPolicy F)
    → ((tier : StorageTier) → HasStreams view tier)
    → dump.request.affinity_id ≢ 0
    → Affinity.place_dump M dump view s
      ≡ ok (stable_placement (Affinity.choose_tier M dump s) dump.request.affinity_id view)
unfolding Affinity.place_dump ◌>>=◌ stable_placement
place_dump_lem M dump view s h n =
    let tier = Affinity.choose_tier M dump s in
    rw (ne→==false dump.request.affinity_id 0 n) (
      rw
        (stream_for_lem tier dump.request.affinity_id dump.segment.segment_endpoint view (h tier) n)
        refl)

-- Take two dumps with the same affinity other than 0, placed at different times: each with its own view
-- and state of the affinity policy, each tier having as many streams in both views, between 1 and
-- 2 ^ 32 - 1. If the policy chooses the same tier for both, it gives both the same stream of that tier.
pub affinity_place_dump-same :
    {F : Type 0} (M : Floats F) (a b : DumpContext) (v w : StorageView) (s t : AffinityPolicy F)
    → ((tier : StorageTier) → HasStreams v tier)
    → ((tier : StorageTier)
        → (at_tier tier v.storage).stream_count ≡ (at_tier tier w.storage).stream_count)
    → a.request.affinity_id ≡ b.request.affinity_id
    → a.request.affinity_id ≢ 0
    → Affinity.choose_tier M a s ≡ Affinity.choose_tier M b t
    → Returns (Affinity.place_dump M a v s) (λ p.
      (p.stream_id < (at_tier p.tier v.storage).stream_count)
      × (Affinity.place_dump M b w t ≡ ok p))
unfolding stable_placement
affinity_place_dump-same M a b v w s t h same e n c =
    let there : (tier : StorageTier) → HasStreams w tier = λ tier. record {
      some_stream = subst (λ m. 0 < m) (same tier) (h tier).some_stream;
      few_streams = subst (λ m. m < u32_mod) (same tier) (h tier).few_streams;
    } in
    rw (place_dump_lem M a v s h n) (
      mod-lt (stable_hash a.request.affinity_id) (h (Affinity.choose_tier M a s)).some_stream,
      rw c (
          rw (same (Affinity.choose_tier M b t))
            (rw e (place_dump_lem M b w t there (λ z. n (e ∙ z))))),
    )
