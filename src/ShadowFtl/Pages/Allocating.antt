-- ===== src/ShadowFtl/Pages/Allocating.antt =====
-- Collections make room, and a block is found for a page that the host writes.
use dwpdsim.Base.{
  Returns-map, ℕ, zero, suc, ◌≤◌, ◌<◌, ◌*◌, ◌≡◌, refl, subst, ◌∙◌, Bool, true, false, List, [], ◌∷◌,
  Option, none, some, Key, arith, read, leb, lt→ltb, Returns, Returns-bind, ReturnsOr,
  ReturnsOr-bind, Returns-or, runtime_error, ok, ◌>>=◌,
}
use dwpdsim.Types.{TimestampNs}
use dwpdsim.ShadowFtl.{FlashBlock, Pool}
use dwpdsim.ShadowFtl.Pages.{collect, make_room, collect_rounds, take_block, allocate_host}
use dwpdsim.ShadowFtl.Pages.Soundness.{fill_of, ids, Agreement, IsSound, nothing_stale, dead}
use dwpdsim.ShadowFtl.Pages.Opening.{opened-Agreement}
use dwpdsim.ShadowFtl.Pages.Moving.{is_mapped}
use dwpdsim.ShadowFtl.Pages.Collecting.{Collected, collect-Collected}

dead-le :
    (pages n : ℕ) (c : ℕ → FlashBlock)
    → ((b : ℕ) → b < n → fill_of c b ≤ pages)
    → dead n c ≤ n * pages
dead-le pages zero c h = omega arith
dead-le pages (suc n) c h = ground (arith, h n, dead-le pages n c (λ b l. h b (omega arith)))

-- What every step before the page is placed keeps.
pub record Ready (s : ℕ) (p r : Pool) : Type 0 where
  pub sound : IsSound nothing_stale r
  pub domain : (t q : ℕ) → is_mapped (r.mapping t q) ≡ is_mapped (p.mapping t q)
  pub count : r.open_blocks.size ≡ p.open_blocks.size
  pub in_range : s < r.open_blocks.size

abbrev pub Open : ℕ → Pool → ℕ → Type 0
Open s r id = r.open_blocks.cell s ≡ some id

abbrev pub OpenIf : ℕ → Pool → Option ℕ → Type 0
OpenIf s r none = Unit
OpenIf s r (some id) = Open s r id

Collected-Ready :
    (s : ℕ) (base p : Pool) (out : Bool × Pool)
    → Ready s base p
    → Collected p out
    → Ready s base out.1
Collected-Ready s base p out y c = record {
  sound = c.sound;
  domain = λ t q. c.domain t q ∙ y.domain t q;
  count = c.count ∙ y.count;
  in_range = ground (arith, c.count, y.in_range);
}

-- The collections end before the rounds run out, since each leaves fewer dead slots.
make_room-Ready :
    (n s : ℕ) (now : TimestampNs) (base p : Pool)
    → dead p.blocks.size p.blocks.cell < n
    → Ready s base p
    → Returns (make_room n s now p) (λ out. Ready s base out.1 × OpenIf s out.1 out.0)
unfolding make_room ◌>>=◌
make_room-Ready zero s now base p l y = absurd (omega (arith, l))
make_room-Ready (suc n) s now base p l y =
    go (λ r. make_room-Ready n s now base r) (leb p.active_limit p.active_blocks)
  where
    go :
        ((r : Pool)
          → dead r.blocks.size r.blocks.cell < n
          → Ready s base r
          → Returns (make_room n s now r) (λ out. Ready s base out.1 × OpenIf s out.1 out.0))
        → (b : Bool)
        → Returns {A = Option ℕ × Pool}
            (elim b [
              | false ↦ ok (none, p)
              | true ↦ collect now p >>= λ out. elim out.0 [
                | false ↦ ok (none, out.1)
                | true ↦ read out.1.open_blocks s >>= λ o. elim o [
                  | some id ↦ ok (some id, out.1)
                  | none ↦ make_room n s now out.1
                ]
              ]
            ])
            (λ out. Ready s base out.1 × OpenIf s out.1 out.0)
    go ih false = (y, tt)
    go ih true =
        Returns-bind _ (collect now p) _ (collect-Collected now p y.sound)
          (λ out c. after out.0 out.1 c)
      where
        next :
            (r : Pool) (o : Option ℕ)
            → r.open_blocks.cell s ≡ o
            → Ready s base r
            → dead r.blocks.size r.blocks.cell < n
            → Returns {A = Option ℕ × Pool}
                (elim o [ some id ↦ ok (some id, r) | none ↦ make_room n s now r ])
                (λ out. Ready s base out.1 × OpenIf s out.1 out.0)
        next r none e y d = ih r d y
        next r (some id) e y d = (y, e)

        after :
            (b : Bool) (r : Pool)
            → Collected p (b, r)
            → Returns {A = Option ℕ × Pool}
                (elim b [
                  | false ↦ ok (none, r)
                  | true ↦ read r.open_blocks s >>= λ o. elim o [
                    | some id ↦ ok (some id, r)
                    | none ↦ make_room n s now r
                  ]
                ])
                (λ out. Ready s base out.1 × OpenIf s out.1 out.0)
        after false r c = (Collected-Ready s base p (false, r) y c, tt)
        after true r c =
            let z = Collected-Ready s base p (true, r) y c in
            rw (lt→ltb _ _ z.in_range)
              (next r (r.open_blocks.cell s) refl z (omega (arith, c.progress refl, l)))

take_block-Ready :
    (s : ℕ) (now : TimestampNs) (base p : Pool)
    → Ready s base p
    → ReturnsOr runtime_error (take_block s now p) (λ out. Ready s base out.1 × Open s out.1 out.0)
unfolding take_block ◌>>=◌
take_block-Ready s now base p y = go p.free_blocks refl
  where
    go :
        (free : List Key)
        → p.free_blocks ≡ free
        → ReturnsOr runtime_error
            (take_block s now (record p { free_blocks = free }))
            (λ out. Ready s base out.1 × Open s out.1 out.0)
    go [] e = refl
    go (f ∷ rest) e =
        let i : Agreement nothing_stale p.pages_per_block p.blocks.size p.blocks.cell
            p.open_blocks.size p.open_blocks.cell (f.1 ∷ ids rest) p.mapping =
          subst
            (λ x.
              Agreement nothing_stale p.pages_per_block p.blocks.size p.blocks.cell
                p.open_blocks.size p.open_blocks.cell (ids x) p.mapping)
            e y.sound in
        rw (lt→ltb _ _ (i.free_in f.1 (ground arith))) (
          rw (lt→ltb _ _ y.in_range) (
            record {
              sound = opened-Agreement _ _ _ _ _ _ _ s f.1 (ids rest) now i y.in_range;
              domain = y.domain;
              count = y.count;
              in_range = y.in_range;
            },
            ground arith,
          ))

dead-rounds :
    (p : Pool) → IsSound nothing_stale p → dead p.blocks.size p.blocks.cell < collect_rounds p
dead-rounds p i = omega (arith, dead-le p.pages_per_block p.blocks.size p.blocks.cell i.bounded)

pub allocate_host-Ready :
    (s : ℕ) (now : TimestampNs) (p : Pool)
    → Ready s p p
    → ReturnsOr runtime_error (allocate_host s now p) (λ out. Ready s p out.1 × Open s out.1 out.0)
unfolding allocate_host
allocate_host-Ready s now p y =
    ReturnsOr-bind {P = λ out. Ready s p out.1 × OpenIf s out.1 out.0}
      (λ out. Ready s p out.1 × Open s out.1 out.0) runtime_error
      (make_room (collect_rounds p) s now p) _
      (Returns-or (λ out. Ready s p out.1 × OpenIf s out.1 out.0) runtime_error
        (make_room (collect_rounds p) s now p)
        (make_room-Ready (collect_rounds p) s now p p (dead-rounds p y.sound) y))
      (λ out w. found out.0 out.1 w.0 w.1)
  where
    again :
        (r : Pool) (free : List Key)
        → Ready s p r
        → ReturnsOr runtime_error
            (elim free [
              | f ∷ rest ↦ take_block s now r
              | [] ↦ do again ← collect now r; take_block s now again.1
            ])
            (λ out. Ready s p out.1 × Open s out.1 out.0)
    again r (f ∷ rest) y = take_block-Ready s now p r y
    again r [] y =
        ReturnsOr-bind (λ out. Ready s p out.1 × Open s out.1 out.0) runtime_error (collect now r)
          (λ out. take_block s now out.1)
          (Returns-or (Collected r) runtime_error (collect now r) (collect-Collected now r y.sound))
          (λ out c. take_block-Ready s now p out.1 (Collected-Ready s p r out y c))

    found :
        (o : Option ℕ) (r : Pool)
        → Ready s p r
        → OpenIf s r o
        → ReturnsOr runtime_error
            (elim o [
              | some id ↦ ok (id, r)
              | none ↦ elim r.free_blocks [
                | f ∷ rest ↦ take_block s now r
                | [] ↦ do again ← collect now r; take_block s now again.1
              ]
            ])
            (λ out. Ready s p out.1 × Open s out.1 out.0)
    found none r y u = again r r.free_blocks y
    found (some id) r y u = (y, u)

-- From a sound pool with the stream in range, the loop that makes room for a write returns: as many
-- collections as the pool has slots, and one more, are enough, since each leaves fewer dead slots. The
-- pool is sound again and maps the pages that were mapped.
pub make_room-terminates :
    (s : ℕ) (now : TimestampNs) (p : Pool)
    → IsSound nothing_stale p
    → s < p.open_blocks.size
    → Returns (make_room (collect_rounds p) s now p) (λ out.
      IsSound nothing_stale out.1
      × ((t q : ℕ) → is_mapped (out.1.mapping t q) ≡ is_mapped (p.mapping t q)))
make_room-terminates s now p i h =
    Returns-map (make_room (collect_rounds p) s now p)
      (make_room-Ready (collect_rounds p) s now p p (dead-rounds p i)
        (record { sound = i; domain = λ t q. refl; count = refl; in_range = h }))
      (λ out w. (w.0.sound, w.0.domain))
