-- ===== src/ShadowFtl/Consuming.antt =====
-- The device takes the physical operations of the simulator.
use dwpdsim.Base.{
  ℕ, zero, suc, ◌<◌, ◌≡◌, refl, ap, ◌∙◌, Bool, true, false, ◌&&◌, ◌||◌, arith, ◌==◌, add64, mul64,
  ok, runtime_error, ◌>>=◌, Returns-or, Returns-map, ReturnsOr, ReturnsOr-bind, ReturnsOr-map,
  if◌then◌else◌,
}
use dwpdsim.Types.{
  TimestampNs, PerTier, StorageTier, slc, tlc, at_tier, change_tier, tier_eq, Operation, read_op,
  write_op, trim_op, StorageLocation,
}
use dwpdsim.ShadowFtl.{Pool}
use dwpdsim.ShadowFtl.Device.{ShadowFtl, consume_kind, consume, consume_pages}
use dwpdsim.ShadowFtl.Pages.{trim, write_page}
use dwpdsim.ShadowFtl.Pages.Moving.{is_mapped}
use dwpdsim.ShadowFtl.Pages.Trimming.{trim-IsSound}
use dwpdsim.ShadowFtl.Pages.Writing.{Written, write_page-Written}
use dwpdsim.ShadowFtl.Pages.Fresh.{IsSoundPool, IsSoundDevice}

-- Whether a page is one of the `n` pages from `first + i` on.
abbrev pub is_touched : ℕ → ℕ → ℕ → ℕ → Bool
is_touched zero i first u = false
is_touched (suc n) i first u = u == add64 first i || is_touched n (suc i) first u

abbrev pub after_pages : Bool → Bool → Bool → Bool
after_pages is_write touched old = if touched then is_write else old

-- What a pool maps after the pages of a block are written or trimmed.
pub record Consumed (n i : ℕ) (is_write : Bool) (stream first streams : ℕ) (p r : Pool)
    : Type 0 where
  pub sound : IsSoundPool streams r
  pub domain :
      (t u : ℕ)
      → is_mapped (r.mapping t u)
        ≡ after_pages is_write (t == stream && is_touched n i first u) (is_mapped (p.mapping t u))

one_page :
    (is_write : Bool) (stream page streams : ℕ) (now : TimestampNs) (p : Pool)
    → stream < streams
    → IsSoundPool streams p
    → ReturnsOr runtime_error
        (if is_write then write_page stream page now p else trim stream page p)
        (λ r.
          IsSoundPool streams r
          × ((t u : ℕ)
              → is_mapped (r.mapping t u)
                ≡ after_pages is_write (t == stream && u == page) (is_mapped (p.mapping t u))))
one_page true stream page streams now p h i =
    ReturnsOr-map {P = Written stream page p} runtime_error (write_page stream page now p)
      (write_page-Written stream page now p i.0 (ground (arith, h, i.1)))
      (λ r w. ((w.sound, w.count ∙ i.1), λ t u. ground (arith, w.domain t u)))
one_page false stream page streams now p h i = Returns-or _ runtime_error (trim stream page p) (
    Returns-map (trim stream page p) (trim-IsSound stream page p i.0)
      (λ r w. ((w.0, ap (λ v. v.size) w.1.1 ∙ i.1), λ t u. ground (arith, w.1.0 t u))))

consume_pages-Consumed :
    (n i : ℕ) (is_write : Bool) (stream first streams : ℕ) (now : TimestampNs) (p : Pool)
    → stream < streams
    → IsSoundPool streams p
    → ReturnsOr runtime_error
        (consume_pages n i is_write stream first now p)
        (Consumed n i is_write stream first streams p)
unfolding consume_pages
consume_pages-Consumed zero i is_write stream first streams now p h j = record {
  sound = j;
  domain = λ t u. ground arith;
}
consume_pages-Consumed (suc n) i is_write stream first streams now p h j =
    ReturnsOr-bind (Consumed (suc n) i is_write stream first streams p) runtime_error
      (if is_write then write_page stream (add64 first i) now p else trim stream (add64 first i) p)
      (λ q. consume_pages n (suc i) is_write stream first now q)
      (one_page is_write stream (add64 first i) streams now p h j)
      (λ q w.
        ReturnsOr-map {P = Consumed n (suc i) is_write stream first streams q} runtime_error
          (consume_pages n (suc i) is_write stream first now q)
          (consume_pages-Consumed n (suc i) is_write stream first streams now q h w.0)
          (λ r x. record {
            sound = x.sound;
            domain = λ t u. ground (arith, x.domain t u, w.1 t u);
          }))

-- Whether a page belongs to the block at a location of a device with `n` pages in a block.
abbrev pub is_of_block : ℕ → StorageLocation → StorageTier → ℕ → ℕ → Bool
is_of_block n l tier t u =
    tier_eq tier l.tier && (t == l.stream_id && is_touched n 0 (mul64 l.block_address n) u)

-- Whether a page is mapped after an operation on the block that it belongs to or not.
abbrev pub expected : Operation → Bool → Bool → Bool
expected read_op touched old = old
expected write_op touched old = after_pages true touched old
expected trim_op touched old = after_pages false touched old

pub record Agrees {F : Type 0} (op : Operation) (l : StorageLocation) (streams : PerTier ℕ)
    (d r : ShadowFtl F) : Type 0 where
  pub sound : IsSoundDevice streams r
  pub domain :
      (tier : StorageTier) (t u : ℕ)
      → is_mapped ((at_tier tier r.pools).mapping t u)
        ≡ expected op
            (is_of_block d.pages_per_kv_block l tier t u)
            (is_mapped ((at_tier tier d.pools).mapping t u))

abbrev replaced : {F : Type 0} → StorageTier → Pool → ShadowFtl F → ShadowFtl F
replaced tier p d = record d { pools = change_tier tier (λ old. p) d.pools }

-- The device with one pool replaced by what a block's pages left of it.
replaced-IsSoundDevice :
    {F : Type 0} (tier : StorageTier) (streams : PerTier ℕ) (d : ShadowFtl F) (p : Pool)
    → IsSoundDevice streams d
    → IsSoundPool (at_tier tier streams) p
    → IsSoundDevice streams (replaced tier p d)
replaced-IsSoundDevice slc streams d p i j = record { slc_sound = j; tlc_sound = i.tlc_sound }
replaced-IsSoundDevice tlc streams d p i j = record { slc_sound = i.slc_sound; tlc_sound = j }

at-IsSoundPool :
    {F : Type 0} (tier : StorageTier) (streams : PerTier ℕ) (d : ShadowFtl F)
    → IsSoundDevice streams d
    → IsSoundPool (at_tier tier streams) (at_tier tier d.pools)
at-IsSoundPool slc streams d i = i.slc_sound
at-IsSoundPool tlc streams d i = i.tlc_sound

replaced-domain :
    {F : Type 0} (w : Bool) (l : StorageLocation) (streams : PerTier ℕ) (d : ShadowFtl F) (p : Pool)
    → Consumed d.pages_per_kv_block 0 w l.stream_id
        (mul64 l.block_address d.pages_per_kv_block)
        (at_tier l.tier streams)
        (at_tier l.tier d.pools)
        p
    → (tier : StorageTier) (t u : ℕ)
    → is_mapped ((at_tier tier (replaced l.tier p d).pools).mapping t u)
      ≡ after_pages w
          (is_of_block d.pages_per_kv_block l tier t u)
          (is_mapped ((at_tier tier d.pools).mapping t u))
replaced-domain w l streams d p c = go l.tier c.domain
  where
    go :
        (own : StorageTier)
        → ((t u : ℕ)
            → is_mapped (p.mapping t u)
              ≡ after_pages w
                  (t == l.stream_id
                    && is_touched d.pages_per_kv_block 0
                        (mul64 l.block_address d.pages_per_kv_block)
                        u)
                  (is_mapped ((at_tier own d.pools).mapping t u)))
        → (tier : StorageTier) (t u : ℕ)
        → is_mapped ((at_tier tier (replaced own p d).pools).mapping t u)
          ≡ after_pages w
              (tier_eq tier own
                && (t == l.stream_id
                    && is_touched d.pages_per_kv_block 0
                        (mul64 l.block_address d.pages_per_kv_block)
                        u))
              (is_mapped ((at_tier tier d.pools).mapping t u))
    go slc h slc t u = h t u
    go slc h tlc t u = refl
    go tlc h slc t u = refl
    go tlc h tlc t u = h t u

consume_kind-ReturnsOr :
    {F : Type 0} (w : Bool) (l : StorageLocation) (now : TimestampNs) (streams : PerTier ℕ)
    (d : ShadowFtl F)
    → l.stream_id < at_tier l.tier streams
    → IsSoundDevice streams d
    → ReturnsOr runtime_error (consume_kind w l now d) (λ r.
      IsSoundDevice streams r
      × ((tier : StorageTier) (t u : ℕ)
          → is_mapped ((at_tier tier r.pools).mapping t u)
            ≡ after_pages w
                (is_of_block d.pages_per_kv_block l tier t u)
                (is_mapped ((at_tier tier d.pools).mapping t u))))
unfolding consume_kind ◌>>=◌
consume_kind-ReturnsOr w l now streams d h i =
    ReturnsOr-bind _ runtime_error
      (consume_pages d.pages_per_kv_block 0 w l.stream_id
        (mul64 l.block_address d.pages_per_kv_block) now (at_tier l.tier d.pools))
      (λ p. ok (replaced l.tier p d))
      (consume_pages-Consumed d.pages_per_kv_block 0 w l.stream_id
        (mul64 l.block_address d.pages_per_kv_block) (at_tier l.tier streams) now
        (at_tier l.tier d.pools) h (at-IsSoundPool l.tier streams d i))
      (λ p c.
        (replaced-IsSoundDevice l.tier streams d p i c.sound, replaced-domain w l streams d p c))

-- From a device whose two pools are sound, an operation on a location whose stream its tier has
-- either throws the exception of an exhausted device or returns a device with two sound pools, in
-- which the pages of that location's block are mapped after a write and unmapped after a trim, and
-- every other page of both tiers is mapped if and only if it was; a read changes none.
pub consume-Agrees :
    {F : Type 0} (op : Operation) (l : StorageLocation) (now : TimestampNs) (streams : PerTier ℕ)
    (d : ShadowFtl F)
    → l.stream_id < at_tier l.tier streams
    → IsSoundDevice streams d
    → ReturnsOr runtime_error (consume op l now d) (Agrees op l streams d)
unfolding consume
consume-Agrees read_op l now streams d h i = record { sound = i; domain = λ tier t u. refl }
consume-Agrees write_op l now streams d h i =
    ReturnsOr-map runtime_error (consume_kind true l now d)
      (consume_kind-ReturnsOr true l now streams d h i)
      (λ r w. record { sound = w.0; domain = w.1 })
consume-Agrees trim_op l now streams d h i =
    ReturnsOr-map runtime_error (consume_kind false l now d)
      (consume_kind-ReturnsOr false l now streams d h i)
      (λ r w. record { sound = w.0; domain = w.1 })
