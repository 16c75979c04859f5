-- ===== src/Storage.antt =====
-- cpp/include/dwpdsim/storage.hpp and cpp/src/storage.cpp: the block allocator of one tier and the
-- pair of tiers. The back of the vector of recycled addresses is the head of a list.
pub mod Addresses
use dwpdsim.Base.{ℕ, Bool, List, [], ◌∷◌, leb, add64, sub64, max, ◌/◌}
use dwpdsim.Types.{StorageTier, PerTier, at_tier, StorageTierConfig, SimulationConfig}

pub record StorageTierState : Type 0 where
  pub capacity_blocks : ℕ
  pub used_blocks : ℕ
  pub peak_used_blocks : ℕ
  pub next_address : ℕ
  pub stream_count : ℕ
  pub recycled_addresses : List ℕ

-- The constructor from a configuration.
unfoldable pub new_tier : StorageTierConfig → ℕ → StorageTierState
new_tier config block_size = record {
  capacity_blocks = config.capacity_bytes / block_size;
  used_blocks = 0;
  peak_used_blocks = 0;
  next_address = 0;
  stream_count = config.stream_count;
  recycled_addresses = [];
}

unfoldable pub has_free_blocks : StorageTierState → ℕ → Bool
has_free_blocks s blocks = leb blocks (sub64 s.capacity_blocks s.used_blocks)

-- The address that the allocator hands out, and what it leaves of its address supply.
abbrev pub take_address : StorageTierState → List ℕ → ℕ × StorageTierState
take_address s [] = (s.next_address, record s { next_address = add64 s.next_address 1 })
take_address s (a ∷ rest) = (a, record s { recycled_addresses = rest })

-- One more block is in use.
abbrev pub grow : StorageTierState → StorageTierState
grow s = record s {
  used_blocks = add64 s.used_blocks 1;
  peak_used_blocks = max s.peak_used_blocks (add64 s.used_blocks 1);
}

unfoldable pub allocate : StorageTierState → ℕ × StorageTierState
allocate s = let (a, t) = take_address s s.recycled_addresses in (a, grow t)

unfoldable pub record_unaddressed_write : StorageTierState → StorageTierState
record_unaddressed_write s = grow s

unfoldable pub release : ℕ → StorageTierState → StorageTierState
release a s = record s {
  recycled_addresses = a ∷ s.recycled_addresses;
  used_blocks = sub64 s.used_blocks 1;
}

unfoldable pub free_blocks : StorageTierState → ℕ
free_blocks s = sub64 s.capacity_blocks s.used_blocks

abbrev pub StorageState : Type 0
StorageState = PerTier StorageTierState

unfoldable pub new_storage : SimulationConfig → StorageState
new_storage c = record {
  slc_part = new_tier c.slc_config c.block_size_bytes;
  tlc_part = new_tier c.tlc_config c.block_size_bytes;
}

pub record StorageTierSummary : Type 0 where
  pub capacity_blocks : ℕ
  pub used_blocks : ℕ
  pub stream_count : ℕ

unfoldable pub tier_summary : StorageTierState → StorageTierSummary
tier_summary s = record {
  capacity_blocks = s.capacity_blocks;
  used_blocks = s.used_blocks;
  stream_count = s.stream_count;
}

unfoldable pub summary : StorageState → PerTier StorageTierSummary
summary s = record { slc_part = tier_summary s.slc_part; tlc_part = tier_summary s.tlc_part }
