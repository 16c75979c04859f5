-- ===== src/ShadowFtl/Pages/Placing.antt =====
-- A page is appended to a block that has room for it, and mapped to its new slot.
use dwpdsim.Base.{
  ℕ, suc, ◌<◌, ◌≡◌, sym, subst, Bool, true, false, List, Option, some, arith, update, ◌==◌, ◌&&◌,
  Bool-cases, inl, inr, add64_lem,
}
use dwpdsim.Types.{TimestampNs}
use dwpdsim.ShadowFtl.{FlashBlock, Location}
use dwpdsim.ShadowFtl.Pages.{appended, map_page}
use dwpdsim.ShadowFtl.Pages.Soundness.{
  valid_count, valid_count-le, valid_count-beyond, slot_of, fill_of, HoldsPage, IsFrontier,
  Agreement,
}

module _ (stale stale' : ℕ → ℕ → Bool) (pages size : ℕ) (c : ℕ → FlashBlock) (count : ℕ)
    (opens opens' : ℕ → Option ℕ) (free : List ℕ) (mapping : ℕ → ℕ → Option Location) (s q id : ℕ)
    (now : TimestampNs) (i : Agreement stale pages size c count opens free mapping)
    (f : IsFrontier pages size c s id)
    (moved : (k : Location) → mapping s q ≡ some k → stale' k.block k.slot ≡ true)
    (more : (b j : ℕ) → stale' b j ≡ false → stale b j ≡ false)
    (only : (b j : ℕ)
      → stale b j ≡ false
      → stale' b j ≡ true
      → mapping s q ≡ some (record { block = b; slot = j }))
    (new : stale' id (fill_of c id) ≡ false)
    (still_open : (t k : ℕ)
      → opens' t ≡ some k
      → (opens t ≡ some k) × (k ≡ id → suc (fill_of c id) < pages)) where
  abbrev pub placed : ℕ → FlashBlock
  placed = update c id (appended s q now (c id))

  abbrev pub placed_map : ℕ → ℕ → Option Location
  placed_map = map_page s q (some (record { block = id; slot = fill_of c id })) mapping

  -- A mapped slot of another page is not moved.
  not_moved :
      (k : Location)
      → ((slot_of c k.block k.slot).stream == s && (slot_of c k.block k.slot).page == q) ≡ false
      → stale k.block k.slot ≡ false
      → stale' k.block k.slot ≡ false
  not_moved k t u = elim (Bool-cases (stale' k.block k.slot)) [
    | inl v ↦
        let old = i.mapped s q k (only k.block k.slot u v) in
        absurd (ground (arith, t, old.same_page, old.same_stream))
    | inr v ↦ v
  ]

  placed-mapped :
      (s' q' : ℕ) (k : Location) → placed_map s' q' ≡ some k → HoldsPage stale' size placed s' q' k
  placed-mapped s' q' k m = elim (Bool-cases (s' == s && q' == q)) [
    | inl t ↦
        let e : k ≡ record { block = id; slot = fill_of c id } = ground (arith, t, m) in
        subst (HoldsPage stale' size placed s' q') (sym e) (record {
          block_in = f.block_in;
          slot_in = ground arith;
          same_page = ground (arith, t);
          same_stream = ground (arith, t);
          is_valid = ground arith;
          not_stale = new;
        })
    | inr t ↦
        let old = i.mapped s' q' k (ground (arith, t, m)) in
        record {
          block_in = old.block_in;
          slot_in = ground (arith, old.slot_in);
          same_page = ground (arith, old.same_page, old.slot_in);
          same_stream = ground (arith, old.same_stream, old.slot_in);
          is_valid = ground (arith, old.is_valid, old.slot_in);
          not_stale = not_moved k (ground (arith, t, old.same_page, old.same_stream)) old.not_stale;
        }
  ]

  placed-backed :
      (b k : ℕ)
      → b < size
      → k < fill_of placed b
      → (slot_of placed b k).valid ≡ true
      → stale' b k ≡ false
      → placed_map (slot_of placed b k).stream (slot_of placed b k).page
        ≡ some (record { block = b; slot = k })
  placed-backed b k h m v u = elim (Bool-cases (b == id && k == fill_of c id)) [
    | inl t ↦ ground (arith, t)
    | inr t ↦
        let known = i.backed b k h (ground (arith, m, t)) (ground (arith, v, t)) (more b k u) in
        elim (Bool-cases ((slot_of c b k).stream == s && (slot_of c b k).page == q)) [
          | inl w ↦
              absurd (
                ground
                  (arith, u, moved (record { block = b; slot = k }) (ground (arith, w, known))))
          | inr w ↦ ground (arith, t, w, known)
        ]
  ]

  placed-live :
      (b : ℕ) → b < size → (placed b).live ≡ valid_count (fill_of placed b) (placed b).slots.cell
  placed-live b h = ground (
    arith,
    i.live b h,
    i.small,
    f.not_full,
    valid_count-beyond (fill_of c b) (fill_of c b) (c b).slots.cell
        (record { page = q; stream = s; valid = true }),
    valid_count-le (fill_of c b) (c b).slots.cell,
    add64_lem (c id).live 1,
  )

  pub placed-Agreement : Agreement stale' pages size placed count opens' free placed_map
  placed-Agreement = record {
    mapped = placed-mapped;
    backed = placed-backed;
    live = placed-live;
    bounded = λ b h. ground (arith, i.bounded b h, f.not_full);
    streams = λ b k h m. ground (arith, m, f.of_stream, i.streams b k h);
    stream_in = λ b h a. ground (arith, a, i.stream_in b h);
    idle = λ b h a. ground (arith, a, i.idle b h, f.is_active);
    frontier = λ s' k m.
        let old = i.frontier s' k (still_open s' k m).0 in
        record {
          block_in = old.block_in;
          is_active = ground (arith, old.is_active);
          of_stream = ground (arith, old.of_stream);
          not_full = ground (arith, old.not_full, (still_open s' k m).1);
        };
    free_in = i.free_in;
    free_idle = λ k h. ground (arith, i.free_idle k h);
    free_distinct = i.free_distinct;
    paged = i.paged;
    small = i.small;
  }
