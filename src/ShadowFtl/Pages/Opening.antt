-- ===== src/ShadowFtl/Pages/Opening.antt =====
-- A free block is opened for a stream, and a block whose slots are all stale is erased.
use dwpdsim.Base.{
  ℕ, ◌<◌, ◌≡◌, refl, subst, Bool, true, false, List, ◌∷◌, Option, some, contains, Distinct, arith,
  update, ◌==◌, ◌||◌, Bool-cases, inl, inr,
}
use dwpdsim.Types.{TimestampNs}
use dwpdsim.ShadowFtl.{FlashBlock, Location}
use dwpdsim.ShadowFtl.Pages.{opened, erased}
use dwpdsim.ShadowFtl.Pages.Soundness.{fill_of, HoldsPage, IsFrontier, Agreement, nothing_stale}

module _ (stale : ℕ → ℕ → Bool) (pages size : ℕ) (c : ℕ → FlashBlock) (count : ℕ)
    (opens : ℕ → Option ℕ) (mapping : ℕ → ℕ → Option Location) where
  pub opened-Agreement :
      (s id : ℕ) (rest : List ℕ) (now : TimestampNs)
      → Agreement stale pages size c count opens (id ∷ rest) mapping
      → s < count
      → Agreement stale pages size
          (update c id (opened s now (c id)))
          count
          (update opens s (some id))
          rest
          mapping
  opened-Agreement s id rest now i b = record {
    mapped = λ s' q' k m.
        let old = i.mapped s' q' k m in
        let apart = other k old.block_in old.slot_in in
        record {
          block_in = old.block_in;
          slot_in = ground (arith, old.slot_in, apart);
          same_page = ground (arith, old.same_page, apart);
          same_stream = ground (arith, old.same_stream, apart);
          is_valid = ground (arith, old.is_valid, apart);
          not_stale = old.not_stale;
        };
    backed = λ b k h m v u. ground (arith, m, v, i.backed b k h);
    live = λ b h. ground (arith, i.live b h);
    bounded = λ b h. ground (arith, i.bounded b h);
    streams = λ b k h m. ground (arith, m, i.streams b k h);
    stream_in = λ b' h a. ground (arith, a, b, i.stream_in b' h);
    idle = λ b h a. ground (arith, a, i.idle b h);
    frontier = frontiers;
    free_in = λ k m. i.free_in k (ground (arith, m));
    free_idle = λ k h. ground (arith, h, i.free_distinct.0, i.free_idle k);
    free_distinct = i.free_distinct.1;
    paged = i.paged;
    small = i.small;
  }
    where
      idle_block : fill_of c id ≡ 0
      idle_block = i.idle id (i.free_in id (ground arith)) (i.free_idle id (ground arith))

      other : (k : Location) → k.block < size → k.slot < fill_of c k.block → (k.block == id) ≡ false
      other k h m = ground (arith, m, idle_block)

      frontiers :
          (t k : ℕ)
          → update opens s (some id) t ≡ some k
          → IsFrontier pages size (update c id (opened s now (c id))) t k
      frontiers t k m = elim (Bool-cases (t == s)) [
        | inl e ↦
            let same : id ≡ k = ground (arith, e, m) in
            subst (IsFrontier pages size (update c id (opened s now (c id))) t) same (record {
              block_in = i.free_in id (ground arith);
              is_active = ground arith;
              of_stream = ground (arith, e);
              not_full = ground (arith, i.paged);
            })
        | inr e ↦
            let old = i.frontier t k (ground (arith, e, m)) in
            let apart : (k == id) ≡ false = ground (arith, old.is_active, i.free_idle id) in
            record {
              block_in = old.block_in;
              is_active = ground (arith, old.is_active, apart);
              of_stream = ground (arith, old.of_stream, apart);
              not_full = ground (arith, old.not_full, apart);
            }
      ]

  pub erased-Agreement :
      (v : ℕ) (free free' : List ℕ)
      → Agreement stale pages size c count opens free mapping
      → v < size
      → fill_of c v ≡ pages
      → ((k : ℕ) → k < pages → stale v k ≡ true)
      → ((b k : ℕ) → (b == v) ≡ false → stale b k ≡ false)
      → ((k : ℕ) → contains free' k ≡ k == v || contains free k)
      → Distinct free'
      → Agreement nothing_stale pages size (update c v (erased (c v))) count opens free' mapping
  erased-Agreement v free free' i h full gone apart w d = record {
    mapped = λ s' q' k m.
        let old = i.mapped s' q' k m in
        let other = left k old in
        record {
          block_in = old.block_in;
          slot_in = ground (arith, old.slot_in, other);
          same_page = ground (arith, old.same_page, other);
          same_stream = ground (arith, old.same_stream, other);
          is_valid = ground (arith, old.is_valid, other);
          not_stale = refl;
        };
    backed = λ b k h m v u. ground (arith, m, v, apart b k, i.backed b k h);
    live = λ b h. ground (arith, i.live b h);
    bounded = λ b h. ground (arith, i.bounded b h);
    streams = λ b k h m. ground (arith, m, i.streams b k h);
    stream_in = λ b h a. ground (arith, a, i.stream_in b h);
    idle = λ b h a. ground (arith, a, i.idle b h);
    frontier = λ t k m.
        let old = i.frontier t k m in
        let other : (k == v) ≡ false = ground (arith, old.not_full, full) in
        record {
          block_in = old.block_in;
          is_active = ground (arith, old.is_active, other);
          of_stream = ground (arith, old.of_stream, other);
          not_full = ground (arith, old.not_full, other);
        };
    free_in = λ k m. ground (arith, h, w k, m, i.free_in k);
    free_idle = λ k m. ground (arith, w k, m, i.free_idle k);
    free_distinct = d;
    paged = i.paged;
    small = i.small;
  }
    where
      left : {s' q' : ℕ} (k : Location) → HoldsPage stale size c s' q' k → (k.block == v) ≡ false
      left k old = elim (Bool-cases (k.block == v)) [
        | inl t ↦ absurd (ground (arith, t, gone k.slot, old.slot_in, full, old.not_stale))
        | inr t ↦ t
      ]
