-- ===== src/Types.antt =====
-- cpp/include/dwpdsim/types.hpp and config.hpp: identifiers, enumerations, nodes and contexts.
-- Identifiers, timestamps and addresses are 64-bit numbers; slots and streams are 32-bit numbers.
use dwpdsim.Base.{ℕ, Option, Bool, true, false, List}

abbrev pub HashId : Type 0
HashId = ℕ

abbrev pub NodeId : Type 0
NodeId = HashId

abbrev pub NodeSlot : Type 0
NodeSlot = ℕ

abbrev pub TimestampNs : Type 0
TimestampNs = ℕ

abbrev pub invalid_node_slot : NodeSlot
invalid_node_slot = 4294967295

pub data StorageTier : Type 0 where
  slc tlc : StorageTier

pub data AccessResult : Type 0 where
  memory_hit slc_hit tlc_hit global_miss : AccessResult

pub data MemoryEvictionAction : Type 0 where
  drop dump : MemoryEvictionAction

pub data Operation : Type 0 where
  read_op write_op trim_op : Operation

pub data TraceReason : Type 0 where
  storage_hit memory_dump capacity_eviction idle_eviction access_migration background_migration :
      TraceReason

pub data CapacityCause : Type 0 where
  dump_admission background_migration access_migration : CapacityCause

pub data RelocationCause : Type 0 where
  capacity access background : RelocationCause

pub record StorageLocation : Type 0 where
  pub tier : StorageTier
  pub block_address : ℕ
  pub stream_id : ℕ

pub record Node : Type 0 where
  pub hash_id : HashId
  pub first_seen_timestamp_ns : TimestampNs
  pub last_access_timestamp_ns : TimestampNs
  pub last_hit_timestamp_ns : TimestampNs
  pub access_count : ℕ
  pub storage_block_address : ℕ
  pub storage_stream_id : ℕ
  pub storage_tier : StorageTier
  pub in_memory : Bool
  pub on_storage : Bool
  pub has_last_hit : Bool
  pub storage_last_access_timestamp_ns : TimestampNs

abbrev pub storage_location : Node → StorageLocation
storage_location n = record {
  tier = n.storage_tier;
  block_address = n.storage_block_address;
  stream_id = n.storage_stream_id;
}

abbrev pub set_storage_location : StorageLocation → Node → Node
set_storage_location l n = record n {
  storage_block_address = l.block_address;
  storage_stream_id = l.stream_id;
  storage_tier = l.tier;
  on_storage = true;
}

abbrev pub clear_storage_location : Node → Node
clear_storage_location n = record n { on_storage = false }

pub record RequestContext : Type 0 where
  pub timestamp_ns : TimestampNs
  pub request_id : ℕ
  pub affinity_id : ℕ
  pub ordered_hashes : List HashId
  pub protected_prefix : List NodeId

pub record AccessContext : Type 0 where
  pub request : RequestContext
  pub access_sequence : ℕ
  pub position : ℕ
  pub node_id : NodeId
  pub parent_id : Option NodeId

pub record Placement : Type 0 where
  pub tier : StorageTier
  pub stream_id : ℕ

abbrev pub storage_tier_index : StorageTier → ℕ
storage_tier_index slc = 0
storage_tier_index tlc = 1

abbrev pub tier_eq : StorageTier → StorageTier → Bool
tier_eq slc slc = true
tier_eq tlc tlc = true
tier_eq slc tlc = false
tier_eq tlc slc = false

-- A pair of values, one for each tier: `std::array<T, 2>` indexed by `storage_tier_index`.
pub record PerTier {ℓ} (A : Type ℓ) : Type ℓ where
  pub slc_part : A
  pub tlc_part : A

abbrev pub at_tier {ℓ} : {A : Type ℓ} → StorageTier → PerTier A → A
at_tier slc p = p.slc_part
at_tier tlc p = p.tlc_part

abbrev pub change_tier {ℓ} : {A : Type ℓ} → StorageTier → (A → A) → PerTier A → PerTier A
change_tier slc f p = record { slc_part = f p.slc_part; tlc_part = p.tlc_part }
change_tier tlc f p = record { slc_part = p.slc_part; tlc_part = f p.tlc_part }

pub record StorageTierConfig : Type 0 where
  pub capacity_bytes : ℕ
  pub stream_count : ℕ

pub record SimulationConfig : Type 0 where
  pub block_size_bytes : ℕ
  pub memory_capacity_bytes : ℕ
  pub slc_config : StorageTierConfig
  pub tlc_config : StorageTierConfig
  pub simulation_end_ns : Option TimestampNs
  pub infinite_storage : Bool
