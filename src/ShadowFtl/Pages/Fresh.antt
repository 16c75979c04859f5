-- ===== src/ShadowFtl/Pages/Fresh.antt =====
-- A new pool is sound, and the device that the constructor returns has two sound pools.
use dwpdsim.Base.{
  ℕ, zero, suc, ◌≤◌, ◌<◌, ◌+◌, ◌≡◌, refl, Bool, true, false, contains, Distinct, arith, ◌==◌, ◌||◌,
  u64_mod, Ensures, Ensures-if, Ensures-if_known, Ensures-bind, Ensures-ok, ok, returns, fails,
  if◌then◌else◌, max, add32, ltb, not, ◌%◌, invalid_argument,
}
use dwpdsim.Types.{SimulationConfig, PerTier}
use dwpdsim.Floats.{Machine}
use dwpdsim.ShadowFtl.{Pool}
use dwpdsim.ShadowFtl.Pages.Soundness.{ids, IsSound, nothing_stale}
use dwpdsim.ShadowFtl.Device.{ShadowConfig, ShadowFtl}
use dwpdsim.ShadowFtl.Construction.{
  asked_blocks, is_cramped, all_free, sized_pool, new_pool, new_tier_pool, is_bad_config,
  new_device,
}

all_free-in : (n i k : ℕ) → contains (ids (all_free n i)) k ≡ true → (i ≤ k) × (k < i + n)
all_free-in zero i k h = cc h
all_free-in (suc n) i k h = ground (arith, h, all_free-in n (suc i) k)

all_free-Distinct : (n i : ℕ) → Distinct (ids (all_free n i))
all_free-Distinct zero i = tt
all_free-Distinct (suc n) i = (ground (arith, all_free-in n (suc i) i), all_free-Distinct n (suc i))

module _ (M : Machine) (c : ShadowConfig M.Double) where
  pub sized_pool-IsSound :
      (nominal streams size : ℕ)
      → 0 < c.pages_per_block
      → c.pages_per_block < u64_mod
      → IsSound nothing_stale (sized_pool M c nominal streams size)
  sized_pool-IsSound nominal streams size h k = record {
    mapped = λ s q l e. cc e;
    backed = λ b i h m v u. absurd (omega arith);
    live = λ b h. refl;
    bounded = λ b h. omega arith;
    streams = λ b i h m. absurd (omega arith);
    stream_in = λ b h a. cc a;
    idle = λ b h a. refl;
    frontier = λ s id e. cc e;
    free_in = λ j m. omega (arith, (all_free-in size 0 j m).1);
    free_idle = λ j m. refl;
    free_distinct = all_free-Distinct size 0;
    paged = h;
    small = k;
  }

-- A sound pool with a number of streams, and a device with two of them.
abbrev pub IsSoundPool : ℕ → Pool → Type 0
IsSoundPool streams p = IsSound nothing_stale p × (p.open_blocks.size ≡ streams)

pub record IsSoundDevice {F : Type 0} (streams : PerTier ℕ) (d : ShadowFtl F) : Type 0 where
  pub slc_sound : IsSoundPool streams.slc_part d.pools.slc_part
  pub tlc_sound : IsSoundPool streams.tlc_part d.pools.tlc_part

second_false : (a b c : Bool) → a || (b || c) ≡ false → b ≡ false
second_false a b c h = ground (arith, h)

module _ (M : Machine) (c : ShadowConfig M.Double) (h : 0 < c.pages_per_block)
    (k : c.pages_per_block < u64_mod) where
  new_pool-IsSound :
      (nominal streams physical : ℕ)
      → Ensures (IsSoundPool streams) (new_pool M c nominal streams physical)
  unfolding new_pool
  new_pool-IsSound nominal streams physical =
      let asked = asked_blocks M c nominal physical in
      Ensures-if (M.long_double.is_less (M.long_double.of_nat 18446744073709551615) asked)
        (fails {e = invalid_argument})
        (Ensures-if (is_cramped M c nominal streams physical) (fails {e = invalid_argument}) (
          returns
            {a = sized_pool M c nominal streams
              (max (add32 streams 2) (M.long_double.to_nat asked))}
            (sized_pool-IsSound M c nominal streams _ h k, refl)))

  new_tier_pool-IsSound :
      (capacity streams nominal physical : ℕ)
      → Ensures (IsSoundPool streams) (new_tier_pool M c capacity streams nominal physical)
  unfolding new_tier_pool
  new_tier_pool-IsSound capacity streams nominal physical =
      let bytes = if nominal == 0 then capacity else nominal in
      Ensures-if (ltb bytes capacity || not (bytes % c.page_bytes == 0))
        (fails {e = invalid_argument}) (new_pool-IsSound bytes streams physical)

paged :
    (M : Machine) (s : SimulationConfig) (c : ShadowConfig M.Double)
    → is_bad_config M s c ≡ false
    → 0 < c.pages_per_block
unfolding is_bad_config
paged M s c e =
    let pages = second_false (c.page_bytes == 0) (c.pages_per_block == 0) _ e in
    ground (arith, pages)

new_device-Ensures :
    (M : Machine) (s : SimulationConfig) (c : ShadowConfig M.Double)
    → c.pages_per_block < u64_mod
    → Ensures
        (IsSoundDevice
          (record { slc_part = s.slc_config.stream_count; tlc_part = s.tlc_config.stream_count }))
        (new_device M s c)
unfolding new_device is_bad_config
new_device-Ensures M s c k =
    Ensures-if_known (is_bad_config M s c) (λ e. fails {e = invalid_argument})
      (λ e.
        let h = paged M s c e in
        Ensures-bind
          (new_tier_pool-IsSound M c h k s.slc_config.capacity_bytes s.slc_config.stream_count
            c.nominal_bytes.slc_part c.physical_blocks.slc_part)
          (λ p a.
            Ensures-bind
              (new_tier_pool-IsSound M c h k s.tlc_config.capacity_bytes s.tlc_config.stream_count
                c.nominal_bytes.tlc_part c.physical_blocks.tlc_part)
              (λ q b. returns (record { slc_sound = a; tlc_sound = b }))))

-- A device that the constructor returns, for fewer than 2 ^ 64 pages in a block, has two sound pools
-- with the streams that the configuration gives each tier.
pub new_device-IsSoundDevice :
    (M : Machine) (s : SimulationConfig) (c : ShadowConfig M.Double) (d : ShadowFtl M.Double)
    → c.pages_per_block < u64_mod
    → new_device M s c ≡ ok d
    → IsSoundDevice
        (record { slc_part = s.slc_config.stream_count; tlc_part = s.tlc_config.stream_count })
        d
new_device-IsSoundDevice M s c d k e = Ensures-ok d (new_device-Ensures M s c k) e
