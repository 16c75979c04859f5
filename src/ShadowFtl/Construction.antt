-- ===== src/ShadowFtl/Construction.antt =====
-- The constructors of `ShadowFtl` and of its pools.
use dwpdsim.Base.{
  ℕ, suc, zero, Bool, false, not, ◌&&◌, ◌||◌, List, [], ◌∷◌, none, Result, ok, err,
  invalid_argument, ◌>>=◌, Key, sub64, add32, ltb, ◌==◌, if◌then◌else◌, min, max, ◌%◌, ◌/◌,
}
use dwpdsim.Types.{SimulationConfig}
use dwpdsim.Floats.{Machine}
use dwpdsim.ShadowFtl.{FlashBlock, Pool}
use dwpdsim.ShadowFtl.Pages.{no_slots}
use dwpdsim.ShadowFtl.Device.{ShadowConfig, ShadowFtl}

abbrev pub fresh_block : FlashBlock
fresh_block = record {
  slots = no_slots;
  live = 0;
  stream = 0;
  erases = 0;
  last_write = 0;
  active = false;
}

-- The free blocks `(0, i)` of a new pool, from `i` on.
abbrev pub all_free : ℕ → ℕ → List Key
all_free zero i = []
all_free (suc n) i = (0, i) ∷ all_free n (suc i)

module _ (M : Machine) where
  -- The number of blocks that a pool asks for, in `long double`.
  unfoldable pub asked_blocks : ShadowConfig M.Double → ℕ → ℕ → M.LongDouble
  asked_blocks c nominal physical =
      let w = M.long_double in
      if physical == 0
      then w.ceil (
          w.over
            (w.over (w.over (w.of_nat nominal) (w.of_nat c.page_bytes))
              (w.of_nat c.pages_per_block))
            (M.widen (M.double.minus (M.double.literal 1 1) c.overprovisioning)))
      else w.of_nat physical

  -- Whether a geometry that is given has too few blocks or no more than the nominal capacity.
  abbrev pub is_cramped : ShadowConfig M.Double → ℕ → ℕ → ℕ → Bool
  is_cramped c nominal streams physical =
      not (physical == 0)
      && (ltb physical (add32 streams 2)
          || M.long_double.is_at_most
              (M.long_double.times
                (M.long_double.times (M.long_double.of_nat physical)
                  (M.long_double.of_nat c.pages_per_block))
                (M.long_double.of_nat c.page_bytes))
              (M.long_double.of_nat nominal))

  abbrev pub limit_of : ShadowConfig M.Double → ℕ → ℕ
  limit_of c size = min (sub64 size 1) (
      max 1 (
        M.double.to_nat (
          M.double.ceil (
            M.double.times (M.double.of_nat size)
              (M.double.minus (M.double.literal 1 1) c.overprovisioning)))))

  abbrev pub sized_pool : ShadowConfig M.Double → ℕ → ℕ → ℕ → Pool
  sized_pool c nominal streams size = record {
    nominal = nominal;
    page_bytes = c.page_bytes;
    pages_per_block = c.pages_per_block;
    blocks = record { size = size; cell = λ i. fresh_block };
    open_blocks = record { size = streams; cell = λ i. none };
    free_blocks = all_free size 0;
    mapping = λ s q. none;
    active_blocks = 0;
    active_limit = limit_of c size;
    host_pages = 0;
    gc_pages = 0;
    erase_count = 0;
  }

  unfoldable pub new_pool : ShadowConfig M.Double → ℕ → ℕ → ℕ → Result Pool
  unfolding asked_blocks
  new_pool c nominal streams physical =
      let asked = asked_blocks c nominal physical in
      if M.long_double.is_less (M.long_double.of_nat 18446744073709551615) asked
      then err invalid_argument
      else if is_cramped c nominal streams physical
      then err invalid_argument
      else ok (sized_pool c nominal streams (max (add32 streams 2) (M.long_double.to_nat asked)))

  abbrev pub bad_share : M.Double → Bool
  bad_share x =
      not (M.double.is_finite x)
      || (M.double.is_at_most x (M.double.literal 0 1)
          || M.double.is_at_most (M.double.literal 1 1) x)

  abbrev pub bad_endurance : M.Double → Bool
  bad_endurance x = not (M.double.is_finite x) || M.double.is_at_most x (M.double.literal 0 1)

  unfoldable pub is_bad_config : SimulationConfig → ShadowConfig M.Double → Bool
  is_bad_config s c =
      c.page_bytes == 0
      || (c.pages_per_block == 0
          || (not (s.block_size_bytes % c.page_bytes == 0)
              || (c.feedback_period_ns == 0
                  || (bad_share c.overprovisioning
                      || (bad_endurance c.endurance.slc_part
                          || (bad_endurance c.endurance.tlc_part
                              || (not (M.double.is_finite c.reuse_loss_budget)
                                  || (M.double.is_less c.reuse_loss_budget (M.double.literal 0 1)
                                      || (M.double.is_at_most (M.double.literal 1 1)
                                            c.reuse_loss_budget
                                          || (c.min_reuse_blocks == 0
                                              || c.reuse_ema_scale_blocks == 0))))))))))

  -- The pool of one tier.
  unfoldable pub new_tier_pool : ShadowConfig M.Double → ℕ → ℕ → ℕ → ℕ → Result Pool
  unfolding new_pool
  new_tier_pool c capacity streams nominal physical =
      let bytes = if nominal == 0 then capacity else nominal in
      if ltb bytes capacity || not (bytes % c.page_bytes == 0)
      then err invalid_argument
      else new_pool c bytes streams physical

  unfoldable pub new_device : SimulationConfig → ShadowConfig M.Double → Result (ShadowFtl M.Double)
  unfolding is_bad_config new_tier_pool
  new_device s c = if is_bad_config s c then err invalid_argument else (do
    p ←
        new_tier_pool c s.slc_config.capacity_bytes s.slc_config.stream_count
          c.nominal_bytes.slc_part c.physical_blocks.slc_part
    q ←
        new_tier_pool c s.tlc_config.capacity_bytes s.tlc_config.stream_count
          c.nominal_bytes.tlc_part c.physical_blocks.tlc_part
    ok (record {
      config = c;
      pages_per_kv_block = s.block_size_bytes / c.page_bytes;
      pools = record { slc_part = p; tlc_part = q };
      last_host = record { slc_part = 0; tlc_part = 0 };
      last_nand = record { slc_part = 0; tlc_part = 0 };
      wa = record { slc_part = M.double.literal 1 1; tlc_part = M.double.literal 1 1 };
      ghosts = λ h. none;
      expirations = [];
      hits = 0;
      ghost_misses = 0;
      total_ghost_misses = 0;
    }))
