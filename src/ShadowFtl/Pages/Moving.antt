-- ===== src/ShadowFtl/Pages/Moving.antt =====
-- What the collector's loop keeps while it moves pages, and how a live page is appended.
use dwpdsim.Base.{
  ℕ, suc, ◌≤◌, ◌<◌, ◌+◌, ◌-◌, ◌≡◌, refl, subst, Bool, true, false, List, [], ◌∷◌, Option, none,
  some, Key, arith, update, ◌==◌, ◌&&◌, Bool-cases, inl, inr, ltb, lt→ltb, Returns, ok, add64,
  add64_lem, ◌>>=◌, or_fail, out_of_range,
}
use dwpdsim.Types.{TimestampNs}
use dwpdsim.ShadowFtl.{FlashBlock, Location, Pool}
use dwpdsim.ShadowFtl.Pages.{opened, appended, map_page, take_block, place}
use dwpdsim.ShadowFtl.Pages.Soundness.{
  valid_count, valid_count-le, fill_of, ids, IsFrontier, Agreement, IsSound, room_in, room, dead,
  dead-update,
}
use dwpdsim.ShadowFtl.Pages.Placing.{placed-Agreement}
use dwpdsim.ShadowFtl.Pages.Opening.{opened-Agreement}

-- The slots of the victim that the loop has passed.
abbrev pub below : ℕ → ℕ → ℕ → ℕ → Bool
below v k b j = b == v && ltb j k

abbrev pub is_mapped : Option Location → Bool
is_mapped none = false
is_mapped (some l) = true

-- After the loop has passed the first `k` slots of the victim, whose block was `b0` in the pool
-- `base`.
pub record Moving (v : ℕ) (b0 : FlashBlock) (base : Pool) (k : ℕ) (p : Pool) : Type 0 where
  pub sound : IsSound (below v k) p
  pub victim_in : v < p.blocks.size
  pub victim : p.blocks.cell v ≡ b0
  pub is_active : b0.active ≡ true
  pub full : b0.slots.size ≡ p.pages_per_block
  pub pages : p.pages_per_block ≡ base.pages_per_block
  pub size : p.blocks.size ≡ base.blocks.size
  pub count : p.open_blocks.size ≡ base.open_blocks.size
  pub limit : p.active_limit ≡ base.active_limit
  pub enough :
      valid_count p.pages_per_block b0.slots.cell ≤ valid_count k b0.slots.cell + room b0.stream p
  pub domain : (s q : ℕ) → is_mapped (p.mapping s q) ≡ is_mapped (base.mapping s q)
  pub same_dead : dead p.blocks.size p.blocks.cell ≡ dead base.blocks.size base.blocks.cell

module _ (v : ℕ) (b0 : FlashBlock) (base : Pool) (k : ℕ) (now : TimestampNs) where
  -- With room left but no block for its stream, the collector opens one.
  pub take_block-Moving :
      (p : Pool)
      → Moving v b0 base k p
      → p.open_blocks.cell b0.stream ≡ none
      → 0 < room b0.stream p
      → Returns
          (take_block b0.stream now p)
          (λ out. Moving v b0 base k out.1 × (out.1.open_blocks.cell b0.stream ≡ some out.0))
  unfolding take_block ◌>>=◌
  take_block-Moving p m o r = go p.free_blocks refl
    where
      go :
          (free : List Key)
          → p.free_blocks ≡ free
          → Returns
              (take_block b0.stream now (record p { free_blocks = free }))
              (λ out. Moving v b0 base k out.1 × (out.1.open_blocks.cell b0.stream ≡ some out.0))
      go [] e = absurd (ground (arith, r, o, e))
      go (f ∷ rest) e =
          let i : Agreement (below v k) p.pages_per_block p.blocks.size p.blocks.cell
              p.open_blocks.size p.open_blocks.cell (f.1 ∷ ids rest) p.mapping =
            subst
              (λ x.
                Agreement (below v k) p.pages_per_block p.blocks.size p.blocks.cell
                  p.open_blocks.size p.open_blocks.cell (ids x) p.mapping)
              e m.sound in
          let s_in : b0.stream < p.open_blocks.size =
            ground (arith, i.stream_in v m.victim_in, m.victim, m.is_active) in
          let id_in = i.free_in f.1 (ground arith) in
          let apart : (v == f.1) ≡ false =
            ground (arith, i.free_idle f.1 (ground arith), m.victim, m.is_active) in
          let idle = i.idle f.1 id_in (i.free_idle f.1 (ground arith)) in
          rw (lt→ltb _ _ id_in) (
            rw (lt→ltb _ _ s_in) (
              record {
                sound = opened-Agreement _ _ _ _ _ _ _ b0.stream f.1 (ids rest) now i s_in;
                victim_in = m.victim_in;
                victim = ground (arith, apart, m.victim);
                is_active = m.is_active;
                full = m.full;
                pages = m.pages;
                size = m.size;
                count = m.count;
                limit = m.limit;
                enough = ground (arith, m.enough, o, e);
                domain = m.domain;
                same_dead = ground (
                  arith,
                  m.same_dead,
                  idle,
                  dead-update p.blocks.size f.1 p.blocks.cell
                      (opened b0.stream now (p.blocks.cell f.1)) id_in,
                );
              },
              ground arith,
            ))

  -- What the step needs to know of the open blocks after it.
  record Opens (p : Pool) (id : ℕ) (opens : ℕ → Option ℕ) : Type 0 where
    still_open :
        (t j : ℕ)
        → opens t ≡ some j
        → (p.open_blocks.cell t ≡ some j)
          × (j ≡ id → suc (fill_of p.blocks.cell id) < p.pages_per_block)
    one_less :
        (c : ℕ → FlashBlock)
        → fill_of c id ≡ suc (fill_of p.blocks.cell id)
        → suc (room_in p.pages_per_block c (opens b0.stream))
          ≡ p.pages_per_block - fill_of p.blocks.cell id

  module _ (p : Pool) (id : ℕ) (m : Moving v b0 base k p)
      (o : p.open_blocks.cell b0.stream ≡ some id) (h : k < b0.slots.size)
      (x : (b0.slots.cell k).valid ≡ true) where
    abbrev s : ℕ
    s = (b0.slots.cell k).stream

    abbrev q : ℕ
    q = (b0.slots.cell k).page

    same_s : s ≡ b0.stream
    same_s = ground (arith, m.sound.streams v k m.victim_in, m.victim, h)

    was : p.mapping s q ≡ some (record { block = v; slot = k })
    was = ground (arith, m.sound.backed v k m.victim_in, m.victim, h, x)

    frontier : IsFrontier p.pages_per_block p.blocks.size p.blocks.cell s id
    frontier = m.sound.frontier s id (rw same_s o)

    placed_step :
        (opens : ℕ → Option ℕ)
        → Opens p id opens
        → Moving v b0 base (suc k) (record p {
          blocks = record {
            size = p.blocks.size;
            cell = update p.blocks.cell id (appended s q now (p.blocks.cell id));
          };
          open_blocks = record { size = p.open_blocks.size; cell = opens };
          gc_pages = add64 p.gc_pages 1;
          mapping =
              map_page s q
                (some (record { block = id; slot = fill_of p.blocks.cell id }))
                p.mapping;
        })
    placed_step opens w =
        let f = frontier in
        let apart : (v == id) ≡ false = ground (arith, f.not_full, m.victim, m.full) in
        record {
          sound =
              placed-Agreement (below v k) (below v (suc k)) _ _ _ _ _ _ _ _ s q id now m.sound f
                (λ j e. ground (arith, was, e)) (λ b j e. ground (arith, e))
                (λ b j e u. ground (arith, e, u, was)) (ground (arith, apart)) w.still_open;
          victim_in = m.victim_in;
          victim = ground (arith, apart, m.victim);
          is_active = m.is_active;
          full = m.full;
          pages = m.pages;
          size = m.size;
          count = m.count;
          limit = m.limit;
          enough = ground (
            arith,
            m.enough,
            x,
            o,
            w.one_less (update p.blocks.cell id (appended s q now (p.blocks.cell id)))
                (ground arith),
          );
          domain = λ s' q'. ground (arith, was, m.domain s' q');
          same_dead = ground (
            arith,
            m.same_dead,
            f.not_full,
            m.sound.small,
            m.sound.live id f.block_in,
            valid_count-le (fill_of p.blocks.cell id) (p.blocks.cell id).slots.cell,
            add64_lem (p.blocks.cell id).live 1,
            dead-update p.blocks.size id p.blocks.cell (appended s q now (p.blocks.cell id))
                f.block_in,
          );
        }

    pub place-Moving :
        Returns
          (place id s q now true p >>= λ out. or_fail (out.1.mapping s q) out_of_range >>= λ old.
            ok (record out.1 { mapping = map_page s q (some out.0) out.1.mapping }))
          (Moving v b0 base (suc k))
    unfolding place ◌>>=◌
    place-Moving =
        let f = frontier in
        let s_in : s < p.open_blocks.size =
          ground (arith, m.sound.stream_in id f.block_in f.is_active, f.of_stream) in
        rw (lt→ltb _ _ f.block_in)
          (elim (Bool-cases ((p.blocks.cell id).slots.size + 1 == p.pages_per_block)) [
            | inl t ↦ rw t (
                rw (lt→ltb _ _ s_in) (
                  rw was (
                    placed_step (update p.open_blocks.cell s none) (record {
                      still_open = λ a j e. (
                        ground (arith, e),
                        λ u. absurd (
                            ground (
                              arith,
                              e,
                              u,
                              (m.sound.frontier a j (ground (arith, e))).of_stream,
                              f.of_stream,
                            )),
                      );
                      one_less = λ c e. ground (arith, t, f.not_full, same_s);
                    }))))
            | inr t ↦ rw t (
                rw was (
                  placed_step p.open_blocks.cell (record {
                    still_open = λ a j e. (e, λ u. ground (arith, t, f.not_full));
                    one_less = λ c e. ground (arith, o, e, f.not_full);
                  })))
          ])
