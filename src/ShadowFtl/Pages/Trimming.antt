-- ===== src/ShadowFtl/Pages/Trimming.antt =====
-- A page is trimmed.
use dwpdsim.Base.{
  ℕ, ◌<◌, ◌≡◌, refl, true, false, Option, none, some, arith, update, ◌==◌, ◌&&◌, Bool-cases, inl,
  inr, lt→ltb, read, write, sub64, sub64_lem, Returns, ◌>>=◌, ok,
}
use dwpdsim.ShadowFtl.{Location, Pool}
use dwpdsim.ShadowFtl.Pages.{trim, drop_slot, invalidate, map_page}
use dwpdsim.ShadowFtl.Pages.Soundness.{
  valid_count, valid_count-le, valid_count-invalidate, slot_of, fill_of, HoldsPage, IsSound,
  nothing_stale,
}

-- A page is unmapped, and its slot is no longer valid.
abbrev pub dropped : ℕ → ℕ → Location → Pool → Pool
dropped s q l p =
    let b = p.blocks.cell l.block in
    record p {
      blocks = record {
        size = p.blocks.size;
        cell = update p.blocks.cell l.block (record b {
          slots = record {
            size = b.slots.size;
            cell = update b.slots.cell l.slot (invalidate (b.slots.cell l.slot));
          };
          live = sub64 b.live 1;
        });
      };
      mapping = map_page s q none p.mapping;
    }

-- A page at another location stays mapped.
map_page-other :
    (m : ℕ → ℕ → Option Location) (s q s' q' : ℕ) (l k : Location)
    → m s q ≡ some l
    → m s' q' ≡ some k
    → (k.block == l.block && k.slot == l.slot) ≡ false
    → map_page s q none m s' q' ≡ some k
map_page-other m s q s' q' l k e f h = ground (arith, e, f, h)

module _ (p : Pool) (s q : ℕ) (l : Location) (i : IsSound nothing_stale p)
    (e : p.mapping s q ≡ some l) where
  dropped-mapped :
      (s' q' : ℕ) (k : Location)
      → map_page s q none p.mapping s' q' ≡ some k
      → HoldsPage nothing_stale p.blocks.size (dropped s q l p).blocks.cell s' q' k
  dropped-mapped s' q' k m =
      let a = i.mapped s q l e in
      let old : p.mapping s' q' ≡ some k = ground (arith, m) in
      let b = i.mapped s' q' k old in
      record {
        block_in = b.block_in;
        slot_in = ground (arith, b.slot_in);
        same_page = ground (arith, b.same_page);
        same_stream = ground (arith, b.same_stream);
        is_valid =
            ground (arith, b.is_valid, m, a.same_page, a.same_stream, b.same_page, b.same_stream);
        not_stale = refl;
      }

  dropped-backed :
      (b k : ℕ)
      → b < p.blocks.size
      → k < fill_of (dropped s q l p).blocks.cell b
      → (slot_of (dropped s q l p).blocks.cell b k).valid ≡ true
      → map_page s q none p.mapping
          (slot_of (dropped s q l p).blocks.cell b k).stream
          (slot_of (dropped s q l p).blocks.cell b k).page
        ≡ some (record { block = b; slot = k })
  dropped-backed b k h m v = elim (Bool-cases (b == l.block)) [
    | inl t ↦ elim (Bool-cases (k == l.slot)) [
      | inl u ↦ absurd (ground (arith, t, u, v))
      | inr u ↦
          let known = i.backed b k h (ground (arith, t, m)) (ground (arith, t, u, v)) refl in
          let moved =
            map_page-other p.mapping s q _ _ l (record { block = b; slot = k }) e known
              (ground (arith, u)) in
          ground (arith, t, u, moved)
    ]
    | inr t ↦
        let known = i.backed b k h (ground (arith, t, m)) (ground (arith, t, v)) refl in
        let moved =
          map_page-other p.mapping s q _ _ l (record { block = b; slot = k }) e known
            (ground (arith, t)) in
        ground (arith, t, moved)
  ]

  dropped-live :
      (b : ℕ)
      → b < p.blocks.size
      → ((dropped s q l p).blocks.cell b).live
        ≡ valid_count
            (fill_of (dropped s q l p).blocks.cell b)
            ((dropped s q l p).blocks.cell b).slots.cell
  dropped-live b h = ground (
    arith,
    i.live b h,
    i.small,
    i.bounded b h,
    (i.mapped s q l e).slot_in,
    (i.mapped s q l e).is_valid,
    valid_count-invalidate (fill_of p.blocks.cell l.block) l.slot
        (p.blocks.cell l.block).slots.cell,
    valid_count-le (fill_of p.blocks.cell b) (p.blocks.cell b).slots.cell,
    sub64_lem (p.blocks.cell l.block).live 1,
  )

  dropped-IsSound : IsSound nothing_stale (dropped s q l p)
  dropped-IsSound = record {
    mapped = dropped-mapped;
    backed = λ b k h m v u. dropped-backed b k h m v;
    live = dropped-live;
    bounded = λ b h. ground (arith, i.bounded b h);
    streams = λ b k h m. ground (arith, m, i.streams b k h);
    stream_in = λ b h a. ground (arith, a, i.stream_in b h);
    idle = λ b h a. ground (arith, a, i.idle b h);
    frontier = λ s' id f.
        let old = i.frontier s' id f in
        record {
          block_in = old.block_in;
          is_active = ground (arith, old.is_active);
          of_stream = ground (arith, old.of_stream);
          not_full = ground (arith, old.not_full);
        };
    free_in = i.free_in;
    free_idle = λ k h. ground (arith, i.free_idle k h);
    free_distinct = i.free_distinct;
    paged = i.paged;
    small = i.small;
  }

-- From a sound pool, `trim` returns a sound pool that no longer maps the page and maps every other
-- page to the location that it had; no block is opened or closed.
pub trim-IsSound :
    (s q : ℕ) (p : Pool)
    → IsSound nothing_stale p
    → Returns (trim s q p) (λ r.
      IsSound nothing_stale r
      × (((s' q' : ℕ) → r.mapping s' q' ≡ map_page s q none p.mapping s' q')
          × (r.open_blocks ≡ p.open_blocks)))
unfolding trim drop_slot ◌>>=◌
trim-IsSound s q p i = go (p.mapping s q) refl
  where
    go :
        (o : Option Location)
        → p.mapping s q ≡ o
        → Returns
            (elim o [
              | none ↦ ok p
              | some l ↦ do
                b ← read p.blocks l.block
                c ← drop_slot l.slot b
                v ← write p.blocks l.block c
                ok (record p { blocks = v; mapping = map_page s q none p.mapping })
            ])
            (λ r.
              IsSound nothing_stale r
              × (((s' q' : ℕ) → r.mapping s' q' ≡ map_page s q none p.mapping s' q')
                  × (r.open_blocks ≡ p.open_blocks)))
    go none e = (i, (λ s' q'. ground (arith, e), refl))
    go (some l) e =
        let a = i.mapped s q l e in
        rw (lt→ltb _ _ a.block_in)
          (rw (lt→ltb _ _ a.slot_in) (dropped-IsSound p s q l i e, (λ s' q'. refl, refl)))
