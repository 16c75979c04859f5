-- ===== src/ShadowFtl/Pages/Collecting.antt =====
-- A collection moves every live page of its victim and erases it: no page is lost, and fewer slots
-- are dead.
use dwpdsim.Base.{
  ℕ, ◌≤◌, ◌<◌, ◌+◌, ◌≡◌, refl, sym, subst, ap, ◌∙◌, Bool, true, false, not, List, [], ◌∷◌, Option,
  none, some, Key, contains, Distinct, arith, ◌==◌, ◌||◌, if◌then◌else◌, Bool-cases, inl, inr, read,
  ltb, lt→ltb, Returns, Returns-bind, ok, ◌>>=◌, sub64, sub64_lem,
}
use dwpdsim.Types.{TimestampNs}
use dwpdsim.ShadowFtl.{FlashBlock, Location, Pool}
use dwpdsim.ShadowFtl.Pages.{
  erased, push_free, is_collectable, find_victim, has_room, erase_block, move_slots, collect,
}
use dwpdsim.ShadowFtl.Pages.Soundness.{
  valid_count, valid_count-le, fill_of, ids, Agreement, IsSound, nothing_stale, room_in, pages_in,
  room, dead, dead-update,
}
use dwpdsim.ShadowFtl.Pages.Opening.{erased-Agreement}
use dwpdsim.ShadowFtl.Pages.Moving.{below, is_mapped, Moving}
use dwpdsim.ShadowFtl.Pages.Emptying.{move_slots-Moving}
use dwpdsim.ShadowFtl.Pages.Victims.{IsVictim, find_victim-IsVictim}

contains-push_free :
    (k : Key) (l : List Key) (j : ℕ)
    → contains (ids (push_free k l)) j ≡ j == k.1 || contains (ids l) j
unfolding push_free
contains-push_free k [] j = refl
contains-push_free k (x ∷ l) j = ground (arith, contains-push_free k l j)

Distinct-push_free :
    (k : Key) (l : List Key)
    → Distinct (ids l)
    → contains (ids l) k.1 ≡ false
    → Distinct (ids (push_free k l))
unfolding push_free
Distinct-push_free k [] d h = (refl, tt)
Distinct-push_free k (x ∷ l) d h =
    ground (arith, d, h, Distinct-push_free k l, contains-push_free k l x.1)

-- A collection returns, keeps the pool sound, the pages mapped and the shape; when it erased a block,
-- fewer slots are dead.
pub record Collected (p : Pool) (out : Bool × Pool) : Type 0 where
  pub sound : IsSound nothing_stale out.1
  pub domain : (s q : ℕ) → is_mapped (out.1.mapping s q) ≡ is_mapped (p.mapping s q)
  pub pages : out.1.pages_per_block ≡ p.pages_per_block
  pub size : out.1.blocks.size ≡ p.blocks.size
  pub count : out.1.open_blocks.size ≡ p.open_blocks.size
  pub limit : out.1.active_limit ≡ p.active_limit
  pub progress :
      out.0 ≡ true → dead out.1.blocks.size out.1.blocks.cell < dead p.blocks.size p.blocks.cell

skipped-Collected : (p : Pool) → IsSound nothing_stale p → Collected p (false, p)
skipped-Collected p i = record {
  sound = i;
  domain = λ s q. refl;
  pages = refl;
  size = refl;
  count = refl;
  limit = refl;
  progress = λ e. cc e;
}

Agreement-restale :
    {pages size count : ℕ} {c : ℕ → FlashBlock} {opens : ℕ → Option ℕ} {free : List ℕ}
    {mapping : ℕ → ℕ → Option Location} (stale stale' : ℕ → ℕ → Bool)
    → ((b j : ℕ) → stale' b j ≡ stale b j)
    → Agreement stale pages size c count opens free mapping
    → Agreement stale' pages size c count opens free mapping
Agreement-restale {pages} {size} {count} {c} {opens} {free} {mapping} stale stale' e i =
    subst (λ f. Agreement f pages size c count opens free mapping) (λ t b j. sym (e b j) t) i

module _ (v : ℕ) (base : Pool) (now : TimestampNs) (i : IsSound nothing_stale base)
    (h : v < base.blocks.size)
    (c : is_collectable base.pages_per_block (base.blocks.cell v) ≡ true) where
  abbrev b0 : FlashBlock
  b0 = base.blocks.cell v

  started :
      valid_count base.pages_per_block b0.slots.cell ≤ room b0.stream base → Moving v b0 base 0 base
  started r = record {
    sound = Agreement-restale nothing_stale (below v 0) (λ b j. ground arith) i;
    victim_in = h;
    victim = refl;
    is_active = ground (arith, c);
    full = ground (arith, c);
    pages = refl;
    size = refl;
    count = refl;
    limit = refl;
    enough = omega (arith, r);
    domain = λ s q. refl;
    same_dead = refl;
  }

  erase_block-Collected :
      (p : Pool)
      → Moving v b0 base p.pages_per_block p
      → Returns (erase_block v p) (λ r. Collected base (true, r))
  unfolding erase_block ◌>>=◌
  erase_block-Collected p m = rw (lt→ltb _ _ m.victim_in) (record {
    sound =
        erased-Agreement _ _ _ _ _ _ _ v (ids p.free_blocks) _ m.sound m.victim_in
          (ap (λ b. b.slots.size) m.victim ∙ m.full) (λ k l. ground (arith, l))
          (λ b k e. ground (arith, e)) (contains-push_free _ p.free_blocks)
          (Distinct-push_free _ p.free_blocks m.sound.free_distinct fresh);
    domain = m.domain;
    pages = m.pages;
    size = m.size;
    count = m.count;
    limit = m.limit;
    progress = λ e. ground (
      arith,
      m.same_dead,
      c,
      m.pages,
      m.full,
      m.victim,
      i.live v h,
      i.bounded v h,
      valid_count-le (fill_of base.blocks.cell v) b0.slots.cell,
      dead-update p.blocks.size v p.blocks.cell (erased (p.blocks.cell v)) m.victim_in,
    );
  })
    where
      fresh : contains (ids p.free_blocks) v ≡ false
      fresh = ground (arith, m.sound.free_idle v, m.victim, m.is_active)

  -- The room for the victim's live pages, when `collect` goes on.
  has_room-Returns :
      Returns
        (has_room b0 base)
        (λ r. r ≡ true → valid_count base.pages_per_block b0.slots.cell ≤ room b0.stream base)
  unfolding has_room ◌>>=◌
  has_room-Returns =
      rw (lt→ltb _ _ s_in) (go base.free_blocks (base.open_blocks.cell b0.stream) refl)
    where
      s_in : b0.stream < base.open_blocks.size
      s_in = ground (arith, i.stream_in v h, c)

      of_live : b0.live ≡ valid_count base.pages_per_block b0.slots.cell
      of_live = ground (arith, i.live v h, c)

      go :
          (free : List Key) (o : Option ℕ)
          → base.open_blocks.cell b0.stream ≡ o
          → Returns
              (elim free [
                | f ∷ rest ↦ ok true
                | [] ↦ if b0.live == 0 then ok true else elim o [
                  | none ↦ ok false
                  | some id ↦ do
                    f ← read base.blocks id
                    ok (not (ltb (sub64 base.pages_per_block f.slots.size) b0.live))
                ]
              ])
              (λ r.
                r ≡ true
                → valid_count base.pages_per_block b0.slots.cell
                  ≤ room_in base.pages_per_block base.blocks.cell o
                    + pages_in base.pages_per_block free)
      go (f ∷ rest) o e = λ t. omega (arith, valid_count-le base.pages_per_block b0.slots.cell)
      go [] none e = elim (Bool-cases (b0.live == 0)) [
        | inl z ↦ rw z (λ t. ground (arith, of_live, z))
        | inr z ↦ rw z (λ t. absurd (ground (arith, t)))
      ]
      go [] (some id) e =
          let f = i.frontier b0.stream id e in
          elim (Bool-cases (b0.live == 0)) [
            | inl z ↦ rw z (λ t. ground (arith, of_live, z))
            | inr z ↦ rw z (
                rw (lt→ltb _ _ f.block_in) (λ t. ground (
                  arith,
                  of_live,
                  t,
                  f.not_full,
                  i.small,
                  sub64_lem base.pages_per_block (fill_of base.blocks.cell id),
                )))
          ]

  collected :
      Returns
        (has_room b0 base >>= λ room.
          if room
          then (do q ← move_slots b0.slots.size 0 v now base; r ← erase_block v q; ok (true, r))
          else ok (false, base))
        (Collected base)
  unfolding ◌>>=◌
  collected = Returns-bind _ (has_room b0 base) _ has_room-Returns decided
    where
      decided :
          (r : Bool)
          → (r ≡ true → valid_count base.pages_per_block b0.slots.cell ≤ room b0.stream base)
          → Returns
              (if r
                then (do
                  q ← move_slots b0.slots.size 0 v now base
                  r ← erase_block v q
                  ok (true, r))
                else ok (false, base))
              (Collected base)
      decided false w = skipped-Collected base i
      decided true w =
          Returns-bind _ (move_slots b0.slots.size 0 v now base) _
            (move_slots-Moving v b0 base now b0.slots.size 0 base (omega arith) (started (w refl)))
            (λ q m.
              Returns-bind _ (erase_block v q) _
                (erase_block-Collected q
                  (subst (λ k. Moving v b0 base k q) (omega (arith, m.full)) m))
                (λ p w. w))

-- From a sound pool a collection returns a sound pool that maps the pages that were mapped before,
-- each to a slot that holds it; when it reports an erased block, fewer slots hold no live page.
pub collect-Collected :
    (now : TimestampNs) (p : Pool) → IsSound nothing_stale p → Returns (collect now p) (Collected p)
unfolding collect ◌>>=◌
collect-Collected now p i =
    go (find_victim p.pages_per_block p.blocks.size p.blocks)
      (find_victim-IsVictim p.pages_per_block p.blocks.size p.blocks)
  where
    go :
        (o : Option ℕ)
        → IsVictim p.pages_per_block p.blocks.size p.blocks.cell o
        → Returns
            (elim o [
              | none ↦ ok (false, p)
              | some victim ↦ do
                b ← read p.blocks victim
                room ← has_room b p
                if room
                    then (do
                      q ← move_slots b.slots.size 0 victim now p
                      r ← erase_block victim q
                      ok (true, r))
                    else ok (false, p)
            ])
            (Collected p)
    go none h = skipped-Collected p i
    go (some v) h = rw (lt→ltb _ _ h.0) (collected v p now i h.0 h.1.0)
