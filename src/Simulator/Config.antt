-- ===== src/Simulator/Config.antt =====
-- What `validate_config` of cpp/src/simulator.cpp accepts.
use dwpdsim.Base.{ℕ, ◌+◌, ◌%◌, ◌≤◌, ◌<◌, ◌≡◌, ◌↔◌, true, false, arith, is_ok}
use dwpdsim.Types.{SimulationConfig, StorageTierConfig}
use dwpdsim.Simulator.{validate_config}

-- A tier of at least one block, of whole blocks only, with a stream.
pub record IsTier (block_size : ℕ) (t : StorageTierConfig) : Type 0 where
  pub room : block_size ≤ t.capacity_bytes
  pub whole : t.capacity_bytes % block_size ≡ 0
  pub streamed : 0 < t.stream_count

pub record IsValid (c : SimulationConfig) : Type 0 where
  pub positive : 0 < c.block_size_bytes
  pub room : c.block_size_bytes ≤ c.memory_capacity_bytes
  pub whole : c.memory_capacity_bytes % c.block_size_bytes ≡ 0
  pub slc_IsTier : c.infinite_storage ≡ false → IsTier c.block_size_bytes c.slc_config
  pub tlc_IsTier : c.infinite_storage ≡ false → IsTier c.block_size_bytes c.tlc_config
  pub streams :
      c.infinite_storage ≡ false → c.slc_config.stream_count + c.tlc_config.stream_count ≤ 8

accepts : (c : SimulationConfig) → IsValid c → is_ok (validate_config c) ≡ true
unfolding validate_config
accepts c v = ground (arith, v.slc_IsTier, v.tlc_IsTier, v.streams)

accepted : (c : SimulationConfig) → is_ok (validate_config c) ≡ true → IsValid c
unfolding validate_config
accepted c h = record {
  positive = ground (arith, h);
  room = ground (arith, h);
  whole = ground (arith, h);
  slc_IsTier = λ f. record {
    room = ground (arith, h, f);
    whole = ground (arith, h, f);
    streamed = ground (arith, h, f);
  };
  tlc_IsTier = λ f. record {
    room = ground (arith, h, f);
    whole = ground (arith, h, f);
    streamed = ground (arith, h, f);
  };
  streams = λ f. ground (arith, h, f);
}

-- A configuration is accepted exactly when blocks have a size, the memory is made of whole blocks
-- and holds one at least, and, unless storage is infinite, each tier likewise, each with a stream
-- and both together with eight streams at most.
pub validate_config-IsValid :
    (c : SimulationConfig) → (IsValid c) ↔ (is_ok (validate_config c) ≡ true)
validate_config-IsValid c = (accepts c, accepted c)
