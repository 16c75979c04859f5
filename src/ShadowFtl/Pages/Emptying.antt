-- ===== src/ShadowFtl/Pages/Emptying.antt =====
-- The collector's loop: the live pages of the victim are appended elsewhere.
use dwpdsim.Base.{
  ℕ, zero, suc, ◌<◌, ◌+◌, ◌≡◌, refl, sym, subst, true, false, Option, none, some, arith, Bool-cases,
  inl, inr, lt→ltb, Result, Returns-assoc, Returns, Returns-bind, ok, ◌>>=◌, or_fail, out_of_range,
}
use dwpdsim.Types.{TimestampNs}
use dwpdsim.ShadowFtl.{FlashBlock, Location, Pool}
use dwpdsim.ShadowFtl.Pages.{map_page, take_block, place, append_gc, move_slot, move_slots}
use dwpdsim.ShadowFtl.Pages.Soundness.{valid_count-at, room}
use dwpdsim.ShadowFtl.Pages.Moving.{Moving, take_block-Moving, place-Moving}

module _ (v : ℕ) (b0 : FlashBlock) (base : Pool) (k : ℕ) (now : TimestampNs) where
  -- A slot that is not live is passed.
  passed-Moving :
      (p : Pool)
      → Moving v b0 base k p
      → k < b0.slots.size
      → (b0.slots.cell k).valid ≡ false
      → Moving v b0 base (suc k) p
  passed-Moving p m h x = record {
    sound = record {
      mapped = λ s q l e.
          let old = m.sound.mapped s q l e in
          record {
            block_in = old.block_in;
            slot_in = old.slot_in;
            same_page = old.same_page;
            same_stream = old.same_stream;
            is_valid = old.is_valid;
            not_stale = ground (arith, old.not_stale, old.is_valid, x, m.victim);
          };
      backed = λ b j i l u w. m.sound.backed b j i l u (ground (arith, w));
      live = m.sound.live;
      bounded = m.sound.bounded;
      streams = m.sound.streams;
      stream_in = m.sound.stream_in;
      idle = m.sound.idle;
      frontier = m.sound.frontier;
      free_in = m.sound.free_in;
      free_idle = m.sound.free_idle;
      free_distinct = m.sound.free_distinct;
      paged = m.sound.paged;
      small = m.sound.small;
    };
    victim_in = m.victim_in;
    victim = m.victim;
    is_active = m.is_active;
    full = m.full;
    pages = m.pages;
    size = m.size;
    count = m.count;
    limit = m.limit;
    enough = ground (arith, m.enough, x);
    domain = m.domain;
    same_dead = m.same_dead;
  }

  -- What the loop does with a live slot's location.
  abbrev remap : ℕ → ℕ → Location × Pool → Result Pool
  remap s q out = or_fail (out.1.mapping s q) out_of_range >>= λ old.
      ok (record out.1 { mapping = map_page s q (some out.0) out.1.mapping })

  append_gc-Moving :
      (p : Pool)
      → Moving v b0 base k p
      → k < b0.slots.size
      → (b0.slots.cell k).valid ≡ true
      → Returns
          (append_gc (b0.slots.cell k).stream (b0.slots.cell k).page now p
            >>= remap (b0.slots.cell k).stream (b0.slots.cell k).page)
          (Moving v b0 base (suc k))
  unfolding append_gc place ◌>>=◌
  append_gc-Moving p m h x =
      subst (λ s. Returns (append_gc s page now p >>= remap s page) (Moving v b0 base (suc k)))
        (sym same)
        (rw (lt→ltb _ _ s_in) (
          Returns-assoc (Moving v b0 base (suc k))
            (elim (p.open_blocks.cell b0.stream) [
              | some id ↦ ok (id, p)
              | none ↦ take_block b0.stream now p
            ])
            (λ out. place out.0 b0.stream page now true out.1) (remap b0.stream page)
            (go (p.open_blocks.cell b0.stream) refl)))
    where
      page : ℕ
      page = (b0.slots.cell k).page

      same : (b0.slots.cell k).stream ≡ b0.stream
      same = ground (arith, m.sound.streams v k m.victim_in, m.victim, h)

      s_in : b0.stream < p.open_blocks.size
      s_in = ground (arith, m.sound.stream_in v m.victim_in, m.victim, m.is_active)

      has_space : p.open_blocks.cell b0.stream ≡ none → 0 < room b0.stream p
      has_space o = omega (
        arith,
        m.enough,
        valid_count-at p.pages_per_block k b0.slots.cell (subst (λ n. k < n) m.full h) x,
      )

      finish :
          (id : ℕ) (r : Pool)
          → Moving v b0 base k r
          → r.open_blocks.cell b0.stream ≡ some id
          → Returns
              (place id b0.stream page now true r >>= remap b0.stream page)
              (Moving v b0 base (suc k))
      finish id r n o =
          subst
            (λ s. Returns (place id s page now true r >>= remap s page) (Moving v b0 base (suc k)))
            same (place-Moving v b0 base k now r id n o h x)

      go :
          (o : Option ℕ)
          → p.open_blocks.cell b0.stream ≡ o
          → Returns
              (elim o [ some id ↦ ok (id, p) | none ↦ take_block b0.stream now p ] >>= λ out.
                place out.0 b0.stream page now true out.1 >>= remap b0.stream page)
              (Moving v b0 base (suc k))
      go (some id) e = finish id p m e
      go none e =
          Returns-bind _ (take_block b0.stream now p) _
            (take_block-Moving v b0 base k now p m e (has_space e))
            (λ out n. finish out.0 out.1 n.0 n.1)

  pub move_slot-Moving :
      (p : Pool)
      → Moving v b0 base k p
      → k < b0.slots.size
      → Returns (move_slot v k now p) (Moving v b0 base (suc k))
  unfolding move_slot ◌>>=◌
  move_slot-Moving p m h = elim (Bool-cases (b0.slots.cell k).valid) [
    | inl x ↦
        rw (lt→ltb _ _ m.victim_in)
          (rw m.victim (rw (lt→ltb _ _ h) (rw x (append_gc-Moving p m h x))))
    | inr x ↦
        rw (lt→ltb _ _ m.victim_in) (rw m.victim (rw (lt→ltb _ _ h) (rw x (passed-Moving p m h x))))
  ]

pub move_slots-Moving :
    (v : ℕ) (b0 : FlashBlock) (base : Pool) (now : TimestampNs) (n k : ℕ) (p : Pool)
    → n + k ≡ b0.slots.size
    → Moving v b0 base k p
    → Returns (move_slots n k v now p) (Moving v b0 base (n + k))
unfolding move_slots
move_slots-Moving v b0 base now zero k p e m = subst (λ j. Moving v b0 base j p) (omega arith) m
move_slots-Moving v b0 base now (suc n) k p e m =
    Returns-bind _ (move_slot v k now p) _ (move_slot-Moving v b0 base k now p m (omega arith))
      (λ r w.
        subst (λ j. Returns (move_slots n (suc k) v now r) (Moving v b0 base j)) (omega arith)
          (move_slots-Moving v b0 base now n (suc k) r (omega arith) w))
