-- ===== src/ShadowFtl/Windows.antt =====
-- The counters of a feedback window: `stats` and `close_window` of `ShadowFtl`.
use dwpdsim.Base.{ℕ, add64, sub64, ltb, if◌then◌else◌}
use dwpdsim.Types.{TimestampNs, PerTier, at_tier, StorageTier, slc, tlc}
use dwpdsim.Floats.{Machine}
use dwpdsim.ShadowFtl.{Pool}
use dwpdsim.ShadowFtl.Device.{ShadowPoolStats, ShadowFeedback, ShadowFtl, expire_ghosts}

module _ (M : Machine) where
  unfoldable pub pool_stats : M.Double → M.Double → Pool → ShadowPoolStats M.Double
  pool_stats endurance wa p = record {
    host_program_pages = p.host_pages;
    gc_program_pages = p.gc_pages;
    erases = p.erase_count;
    physical_blocks = p.blocks.size;
    nominal_bytes = p.nominal;
    wa_ema = wa;
    lifetime_pressure =
        M.double.over
          (M.double.times (M.double.of_nat (add64 p.host_pages p.gc_pages))
            (M.double.of_nat p.page_bytes))
          (M.double.times (M.double.of_nat p.nominal) endurance);
  }

  unfoldable pub stats : ShadowFtl M.Double → ShadowFeedback M.Double
  unfolding pool_stats
  stats d = record {
    timestamp_ns = 0;
    pools = record {
      slc_part = pool_stats d.config.endurance.slc_part d.wa.slc_part d.pools.slc_part;
      tlc_part = pool_stats d.config.endurance.tlc_part d.wa.tlc_part d.pools.tlc_part;
    };
    hit_blocks = d.hits;
    ghost_miss_blocks = d.ghost_misses;
  }

  abbrev double_max : M.Double → M.Double → M.Double
  double_max a b = if M.double.is_less a b then b else a

  -- The write amplification of a tier after a window, by the pages that it programmed.
  unfoldable pub next_wa : ShadowPoolStats M.Double → ℕ → ℕ → M.Double → M.Double
  next_wa p last_host last_nand wa =
      if ltb last_host p.host_program_pages
      then M.double.plus (M.double.times (M.double.literal 3 4) wa) (
          M.double.times (M.double.literal 1 4) (
            double_max (M.double.literal 1 1) (
              M.double.over
                (M.double.of_nat (sub64 (add64 p.host_program_pages p.gc_program_pages) last_nand))
                (M.double.of_nat (sub64 p.host_program_pages last_host)))))
      else wa

  abbrev closed_wa : StorageTier → ShadowFtl M.Double → M.Double
  closed_wa tier d =
      next_wa (at_tier tier (stats d).pools) (at_tier tier d.last_host) (at_tier tier d.last_nand)
        (at_tier tier d.wa)

  abbrev nand_pages : ShadowPoolStats M.Double → ℕ
  nand_pages p = add64 p.host_program_pages p.gc_program_pages

  unfoldable pub close_window :
      TimestampNs → ShadowFtl M.Double → ShadowFeedback M.Double × ShadowFtl M.Double
  unfolding stats next_wa expire_ghosts
  close_window now given =
      let d = expire_ghosts now given in
      let s = stats d in
      let wa : PerTier M.Double = record {
        slc_part = closed_wa slc d;
        tlc_part = closed_wa tlc d;
      } in
      (
        record s {
          timestamp_ns = now;
          pools = record {
            slc_part = record s.pools.slc_part { wa_ema = wa.slc_part };
            tlc_part = record s.pools.tlc_part { wa_ema = wa.tlc_part };
          };
        },
        record d {
          wa = wa;
          last_host = record {
            slc_part = s.pools.slc_part.host_program_pages;
            tlc_part = s.pools.tlc_part.host_program_pages;
          };
          last_nand = record {
            slc_part = nand_pages s.pools.slc_part;
            tlc_part = nand_pages s.pools.tlc_part;
          };
          hits = 0;
          ghost_misses = 0;
        },
      )
