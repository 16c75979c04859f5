-- ===== src/StoragePolicy/RoundRobin/Streams.antt =====
-- The streams that dumps take, and the victim that the index gives.
use native.Mathlib.Nat.{mod-lt, mod-add-mod}
use dwpdsim.Base.{
  ℕ, ◌<◌, ◌+◌, ◌%◌, ◌≡◌, ◌⊎◌, refl, sym, ap, ◌∙◌, true, false, List, Option, none, some, ok, arith,
  Key, has_key, before, if◌then◌else◌, ne→==false, to_u32_lem, add64, add64_lem, u32_mod, u64_mod,
  ◌>>=◌, Returns, Ensures, returns, same_ok, Ensures-map, Ensures-after, Ensures-if,
}
use dwpdsim.Types.{NodeId, StorageTier, slc, tlc, at_tier, change_tier, PerTier}
use dwpdsim.RadixTree.Walks.{segment_leaf_for}
use dwpdsim.StorageView.{StorageView, intersects_protected}
use dwpdsim.Floats.{Floats}
use dwpdsim.StoragePolicy.{DumpContext, StorageMutation, dump_write_committed}
use dwpdsim.StoragePolicy.Searches.{SegmentTime}
use dwpdsim.StoragePolicy.RoundRobin.{RoundRobinPolicy, refresh_segment}
use dwpdsim.StoragePolicy.RoundRobin.Decisions.{
  is_insertion, next_stream, choose_tier, place_dump, is_covered, index_mutation, on_commit,
}

next_stream_lem :
    {F : Type 0} (tier : StorageTier) (view : StorageView) (s : RoundRobinPolicy F)
    → 0 < (at_tier tier view.storage).stream_count
    → (at_tier tier view.storage).stream_count < u32_mod
    → next_stream tier view s
      ≡ ok (at_tier tier s.write_segments % (at_tier tier view.storage).stream_count)
unfolding next_stream
next_stream_lem tier view s h k =
    let below = mod-lt (at_tier tier s.write_segments) h in
    rw (ne→==false (at_tier tier view.storage).stream_count 0 (λ e. omega (arith, h, e)))
      (ap ok (to_u32_lem _ (omega (arith, below, k))))

-- When the tier that is chosen for a dump has streams, fewer than 2 ^ 32, the dump gets one of them.
pub place_dump-bounded :
    {F : Type 0} (M : Floats F) (dump : DumpContext) (view : StorageView) (s : RoundRobinPolicy F)
    → ((tier : StorageTier) → 0 < (at_tier tier view.storage).stream_count)
    → ((tier : StorageTier) → (at_tier tier view.storage).stream_count < u32_mod)
    → Returns (place_dump M dump view s) (λ p.
      (p.tier ≡ choose_tier M dump s) × (p.stream_id < (at_tier p.tier view.storage).stream_count))
unfolding place_dump ◌>>=◌
place_dump-bounded M dump view s h k =
    let tier = choose_tier M dump s in
    rw (next_stream_lem tier view s (h tier) (k tier))
      (refl, mod-lt (at_tier tier s.write_segments) (h tier))

at_tier-change_tier :
    {A : Type 0} (tier : StorageTier) (f : A → A) (p : PerTier A)
    → at_tier tier (change_tier tier f p) ≡ f (at_tier tier p)
at_tier-change_tier slc f p = refl
at_tier-change_tier tlc f p = refl

on_commit-write_segments :
    {F : Type 0} (m : StorageMutation) (view : StorageView) (s : RoundRobinPolicy F)
    → m.kind ≡ dump_write_committed
    → Ensures
        (λ r.
          at_tier m.placement.tier r.write_segments
          ≡ add64 (at_tier m.placement.tier s.write_segments) 1)
        (on_commit m view s)
unfolding on_commit index_mutation
on_commit-write_segments m view s e =
    let counted : at_tier m.placement.tier (
          if is_insertion m.kind
          then change_tier m.placement.tier (λ b. add64 b 1) s.write_segments
          else s.write_segments)
        ≡ add64 (at_tier m.placement.tier s.write_segments) 1 =
      rw e (at_tier-change_tier m.placement.tier (λ b. add64 b 1) s.write_segments) in
    Ensures-after _ (λ t.
      Ensures-if _
        (Ensures-after _ (λ counts.
          Ensures-if _
            (Ensures-after (segment_leaf_for view.tree m.segment_endpoint) (λ leaf.
              Ensures-after (refresh_segment leaf view.tree s.index) (λ x. returns counted)))
            (returns counted)))
        (returns counted))

-- The streams of a tier take turns: once a dump to a tier is committed, before the count of the tier's
-- segments passes 64 bits, the tier's next stream is the one after, or stream 0 after the last one.
pub on_commit-next_stream :
    {F : Type 0} (m : StorageMutation) (view : StorageView) (s : RoundRobinPolicy F)
    → m.kind ≡ dump_write_committed
    → 0 < (at_tier m.placement.tier view.storage).stream_count
    → (at_tier m.placement.tier view.storage).stream_count < u32_mod
    → at_tier m.placement.tier s.write_segments + 1 < u64_mod
    → Ensures
        (λ r.
          (i : ℕ)
          → next_stream m.placement.tier view s ≡ ok i
          → next_stream m.placement.tier view r
            ≡ ok ((i + 1) % (at_tier m.placement.tier view.storage).stream_count))
        (on_commit m view s)
on_commit-next_stream m view s e h k b =
    Ensures-map (on_commit-write_segments m view s e) (λ r w i f.
      let tier = m.placement.tier in
      let count = (at_tier tier view.storage).stream_count in
      let before_it : at_tier tier s.write_segments % count ≡ i =
        same_ok (next_stream_lem tier view s h k) f in
      next_stream_lem tier view r h k
      ∙ ap (λ n. ok (n % count)) (w ∙ add64_lem (at_tier tier s.write_segments) 1 b)
      ∙ ap ok (
          sym (mod-add-mod (at_tier tier s.write_segments) count 1)
          ∙ ap (λ n. (n + 1) % count) before_it))

-- Whether a segment cannot be trimmed.
abbrev pub IsRejected : {F : Type 0} → List NodeId → StorageView → RoundRobinPolicy F → Key → Type 0
IsRejected protected_nodes view s k =
    (is_covered k.1 view s ≡ ok true) ⊎ (intersects_protected view k.1 protected_nodes ≡ ok true)

-- The first of the candidates that can be trimmed, if there is one.
abbrev pub IsFirst :
    {F : Type 0}
    → List NodeId
    → StorageView
    → RoundRobinPolicy F
    → List Key
    → Option SegmentTime
    → Type 0
IsFirst protected_nodes view s l none =
    (k : Key) → has_key k l ≡ true → IsRejected protected_nodes view s k
IsFirst protected_nodes view s l (some v) =
    (has_key (v.timestamp_ns, v.endpoint) l ≡ true)
    × ((is_covered v.endpoint view s ≡ ok false)
        × ((intersects_protected view v.endpoint protected_nodes ≡ ok false)
            × ((k : Key)
                → has_key k l ≡ true
                → before k (v.timestamp_ns, v.endpoint) ≡ true
                → IsRejected protected_nodes view s k)))
