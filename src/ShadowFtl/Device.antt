-- ===== src/ShadowFtl/Device.antt =====
-- The class `ShadowFtl` of cpp/src/shadow_ftl.cpp: the pools of both tiers, the ghosts of lost blocks
-- and the counters of a feedback window. An unordered map of which only lookups are asked is a
-- function.
use dwpdsim.Base.{
  ℕ, suc, zero, Bool, true, false, not, ◌&&◌, List, [], ◌∷◌, Option, none, some, Result, ok, ◌>>=◌,
  Map, insert, erase, Key, insert_key, erase_key, add64, sub64, mul64, ltb, if◌then◌else◌,
}
use dwpdsim.Types.{
  TimestampNs, NodeId, HashId, Operation, read_op, write_op, trim_op, StorageLocation, PerTier,
  at_tier, change_tier,
}
use dwpdsim.ShadowFtl.{Pool}
use dwpdsim.ShadowFtl.Pages.{trim, write_page}

-- `reuse_loss_budget`, `min_reuse_blocks` and `reuse_ema_scale_blocks` are read by the constructor
-- and by the adaptive policy.
pub record ShadowConfig (F : Type 0) : Type 0 where
  pub online_tuning : Bool
  pub feedback_period_ns : TimestampNs
  pub page_bytes : ℕ
  pub pages_per_block : ℕ
  pub overprovisioning : F
  pub nominal_bytes : PerTier ℕ
  pub endurance : PerTier F
  pub reuse_loss_budget : F
  pub min_reuse_blocks : ℕ
  pub reuse_ema_scale_blocks : ℕ
  pub physical_blocks : PerTier ℕ

pub record ShadowPoolStats (F : Type 0) : Type 0 where
  pub host_program_pages : ℕ
  pub gc_program_pages : ℕ
  pub erases : ℕ
  pub physical_blocks : ℕ
  pub nominal_bytes : ℕ
  pub wa_ema : F
  pub lifetime_pressure : F

pub record ShadowFeedback (F : Type 0) : Type 0 where
  pub timestamp_ns : TimestampNs
  pub pools : PerTier (ShadowPoolStats F)
  pub hit_blocks : ℕ
  pub ghost_miss_blocks : ℕ

pub record ShadowFtl (F : Type 0) : Type 0 where
  pub config : ShadowConfig F
  pub pages_per_kv_block : ℕ
  pub pools : PerTier Pool
  pub last_host : PerTier ℕ
  pub last_nand : PerTier ℕ
  pub wa : PerTier F
  pub ghosts : Map TimestampNs
  pub expirations : List Key
  pub hits : ℕ
  pub ghost_misses : ℕ
  pub total_ghost_misses : ℕ

unfoldable pub ghost_ttl : ℕ
ghost_ttl = 86400000000000

-- `expire_ghosts`, by the ghosts in the order in which they expire.
unfoldable pub expire_from : TimestampNs → List Key → Map TimestampNs → List Key × Map TimestampNs
unfolding ghost_ttl
expire_from now [] ghosts = ([], ghosts)
expire_from now (k ∷ rest) ghosts = elim (ltb k.0 now && ltb ghost_ttl (sub64 now k.0)) [
  | true ↦ expire_from now rest (erase k.1 ghosts)
  | false ↦ (k ∷ rest, ghosts)
]

unfoldable pub expire_ghosts : {F : Type 0} → TimestampNs → ShadowFtl F → ShadowFtl F
unfolding expire_from
expire_ghosts now d =
    let out = expire_from now d.expirations d.ghosts in
    record d { expirations = out.0; ghosts = out.1 }

-- A ghost that is there already expires by its latest loss.
unfoldable pub forget : Option TimestampNs → NodeId → List Key → List Key
forget none h e = e
forget (some t) h e = erase_key (t, h) e

unfoldable pub record_loss : {F : Type 0} → NodeId → TimestampNs → ShadowFtl F → ShadowFtl F
unfolding expire_ghosts forget
record_loss h now d =
    if not d.config.online_tuning
    then d
    else (let e = expire_ghosts now d in
        record e {
          ghosts = insert h now e.ghosts;
          expirations = insert_key (now, h) (forget (e.ghosts h) h e.expirations);
        })

-- The position after the last hash that is a ghost; `i` is the loop's counter.
unfoldable pub longest_ghost : Map TimestampNs → ℕ → ℕ → List HashId → ℕ
longest_ghost ghosts i longest [] = longest
longest_ghost ghosts i longest (h ∷ hs) =
    longest_ghost ghosts (suc i) (elim (ghosts h) [ none ↦ longest | some t ↦ suc i ]) hs

unfoldable pub ghost_prefix :
    {F : Type 0} → List HashId → TimestampNs → ShadowFtl F → ℕ × ShadowFtl F
unfolding expire_ghosts longest_ghost
ghost_prefix hs now d = let e = expire_ghosts now d in (longest_ghost e.ghosts 0 0 hs, e)

unfoldable pub record_request : {F : Type 0} → ℕ → ℕ → ShadowFtl F → ShadowFtl F
record_request hits misses d = record d {
  hits = add64 d.hits hits;
  ghost_misses = add64 d.ghost_misses misses;
  total_ghost_misses = add64 d.total_ghost_misses misses;
}

-- The pages of a block that is written or trimmed, from page `i` on.
unfoldable pub consume_pages : ℕ → ℕ → Bool → ℕ → ℕ → TimestampNs → Pool → Result Pool
consume_pages zero i is_write stream first now p = ok p
consume_pages (suc n) i is_write stream first now p =
    (if is_write then write_page stream (add64 first i) now p else trim stream (add64 first i) p)
    >>= λ q. consume_pages n (suc i) is_write stream first now q

unfoldable pub consume_kind :
    {F : Type 0} → Bool → StorageLocation → TimestampNs → ShadowFtl F → Result (ShadowFtl F)
unfolding consume_pages
consume_kind is_write location now d = do
  p ←
      consume_pages d.pages_per_kv_block 0 is_write location.stream_id
        (mul64 location.block_address d.pages_per_kv_block) now (at_tier location.tier d.pools)
  ok (record d { pools = change_tier location.tier (λ old. p) d.pools })

unfoldable pub consume :
    {F : Type 0} → Operation → StorageLocation → TimestampNs → ShadowFtl F → Result (ShadowFtl F)
unfolding consume_kind
consume read_op location now d = ok d
consume write_op location now d = consume_kind true location now d
consume trim_op location now d = consume_kind false location now d
