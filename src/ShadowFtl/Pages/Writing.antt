-- ===== src/ShadowFtl/Pages/Writing.antt =====
-- A write of the host: collections make room, a block is found for the page, and the page is mapped.
use dwpdsim.Base.{
  ap, ℕ, suc, ◌<◌, ◌+◌, ◌≡◌, refl, sym, subst, ◌∙◌, false, Option, none, some, arith, update, ◌==◌,
  ◌&&◌, ◌||◌, Bool-cases, inl, inr, add64, lt→ltb, ReturnsOr, ReturnsOr-map, ReturnsOr-bind,
  ReturnsOr-assoc, Returns-or, runtime_error, ok, ◌>>=◌,
}
use dwpdsim.Types.{TimestampNs}
use dwpdsim.ShadowFtl.{Location, Pool}
use dwpdsim.ShadowFtl.Pages.{
  appended, allocate_host, append_host, place, trim, write_page, map_page,
}
use dwpdsim.ShadowFtl.Pages.Soundness.{fill_of, IsSound, nothing_stale}
use dwpdsim.ShadowFtl.Pages.Trimming.{trim-IsSound}
use dwpdsim.ShadowFtl.Pages.Placing.{placed-Agreement}
use dwpdsim.ShadowFtl.Pages.Moving.{is_mapped}
use dwpdsim.ShadowFtl.Pages.Allocating.{Ready, Open, allocate_host-Ready}

-- What a pool is after the page `q` of a stream `s` was written.
pub record Written (s q : ℕ) (p r : Pool) : Type 0 where
  pub sound : IsSound nothing_stale r
  pub domain : (t u : ℕ) → is_mapped (r.mapping t u) ≡ t == s && u == q || is_mapped (p.mapping t u)
  pub count : r.open_blocks.size ≡ p.open_blocks.size

place-Written :
    (s q : ℕ) (now : TimestampNs) (p : Pool) (out : ℕ × Pool)
    → p.mapping s q ≡ none
    → Ready s p out.1
    → Open s out.1 out.0
    → ReturnsOr runtime_error
        (place out.0 s q now false out.1 >>= λ w.
          ok (record w.1 { mapping = map_page s q (some w.0) w.1.mapping }))
        (Written s q p)
unfolding place ◌>>=◌
place-Written s q now p (id, r) e y o =
    let f = y.sound.frontier s id o in
    rw (lt→ltb _ _ f.block_in)
      (elim (Bool-cases ((r.blocks.cell id).slots.size + 1 == r.pages_per_block)) [
        | inl t ↦ rw t (
            rw (lt→ltb _ _ y.in_range) (
              result (update r.open_blocks.cell s none) (λ a j u. (
                ground (arith, u),
                λ v. absurd (
                    ground (
                      arith,
                      u,
                      v,
                      (y.sound.frontier a j (ground (arith, u))).of_stream,
                      f.of_stream,
                    )),
              ))))
        | inr t ↦
            rw t (result r.open_blocks.cell (λ a j u. (u, λ v. ground (arith, t, f.not_full))))
      ])
  where
    unmapped : r.mapping s q ≡ none
    unmapped = none_mapped (r.mapping s q) (ground (arith, y.domain s q, e))
      where
        none_mapped : (l : Option Location) → is_mapped l ≡ false → l ≡ none
        none_mapped none h = refl
        none_mapped (some l) h = cc h

    result :
        (opens : ℕ → Option ℕ)
        → ((t k : ℕ)
            → opens t ≡ some k
            → (r.open_blocks.cell t ≡ some k)
              × (k ≡ id → suc (fill_of r.blocks.cell id) < r.pages_per_block))
        → Written s q p (record r {
          blocks = record {
            size = r.blocks.size;
            cell = update r.blocks.cell id (appended s q now (r.blocks.cell id));
          };
          open_blocks = record { size = r.open_blocks.size; cell = opens };
          host_pages = add64 r.host_pages 1;
          mapping =
              map_page s q
                (some (record { block = id; slot = fill_of r.blocks.cell id }))
                r.mapping;
        })
    result opens still = record {
      sound =
          placed-Agreement nothing_stale nothing_stale _ _ _ _ _ _ _ _ s q id now y.sound
            (y.sound.frontier s id o) (λ k u. cc (u, unmapped)) (λ b j u. u) (λ b j u v. cc v) refl
            still;
      domain = λ t u. ground (arith, y.domain t u);
      count = y.count;
    }

append_host-Written :
    (s q : ℕ) (now : TimestampNs) (r : Pool)
    → Ready s r r
    → r.mapping s q ≡ none
    → ReturnsOr runtime_error
        (append_host s q now r >>= λ out.
          ok (record out.1 { mapping = map_page s q (some out.0) out.1.mapping }))
        (Written s q r)
unfolding append_host ◌>>=◌
append_host-Written s q now r y e = rw (lt→ltb _ _ y.in_range) (
    ReturnsOr-assoc (Written s q r) runtime_error
      (elim (r.open_blocks.cell s) [ some id ↦ ok (id, r) | none ↦ allocate_host s now r ])
      (λ out. place out.0 s q now false out.1)
      (λ out. ok (record out.1 { mapping = map_page s q (some out.0) out.1.mapping }))
      (ReturnsOr-bind {P = λ out. Ready s r out.1 × Open s out.1 out.0} (Written s q r)
        runtime_error
        (elim (r.open_blocks.cell s) [ some id ↦ ok (id, r) | none ↦ allocate_host s now r ])
        (λ out. place out.0 s q now false out.1 >>= λ w.
          ok (record w.1 { mapping = map_page s q (some w.0) w.1.mapping }))
        (block (r.open_blocks.cell s) refl) (λ out w. place-Written s q now r out e w.0 w.1)))
  where
    block :
        (o : Option ℕ)
        → r.open_blocks.cell s ≡ o
        → ReturnsOr runtime_error
            (elim o [ some id ↦ ok (id, r) | none ↦ allocate_host s now r ])
            (λ out. Ready s r out.1 × Open s out.1 out.0)
    block none e = allocate_host-Ready s now r y
    block (some id) e = (y, e)

-- From a sound pool with the stream in range, a write of the host either throws the exception of an
-- exhausted device or returns a sound pool that maps the page and otherwise the pages that were
-- mapped: whatever collections it takes, they come to an end and no page is lost.
pub write_page-Written :
    (s q : ℕ) (now : TimestampNs) (p : Pool)
    → IsSound nothing_stale p
    → s < p.open_blocks.size
    → ReturnsOr runtime_error (write_page s q now p) (Written s q p)
unfolding write_page
write_page-Written s q now p i h =
    ReturnsOr-bind (Written s q p) runtime_error (trim s q p)
      (λ r. append_host s q now r >>= λ out.
        ok (record out.1 { mapping = map_page s q (some out.0) out.1.mapping }))
      (Returns-or _ runtime_error (trim s q p) (trim-IsSound s q p i))
      (λ r t.
        ReturnsOr-map {P = Written s q r} {Q = Written s q p} runtime_error
          (append_host s q now r >>= λ out.
            ok (record out.1 { mapping = map_page s q (some out.0) out.1.mapping }))
          (append_host-Written s q now r
            (record {
              sound = t.0;
              domain = λ a u. refl;
              count = refl;
              in_range = subst (λ v. s < v.size) (sym t.1.1) h;
            })
            (ground (arith, t.1.0 s q)))
          (λ w x. record {
            sound = x.sound;
            domain = λ a u. ground (arith, x.domain a u, t.1.0 a u);
            count = x.count ∙ ap (λ v. v.size) t.1.1;
          }))
