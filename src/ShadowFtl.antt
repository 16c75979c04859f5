-- ===== src/ShadowFtl.antt =====
-- cpp/include/dwpdsim/shadow_ftl.hpp and cpp/src/shadow_ftl.cpp: an estimate of the pages that a
-- flash device would program. ShadowFtl/Pages is the class of one tier's flash blocks,
-- ShadowFtl/Device, Construction and
-- Windows the class that the simulator calls.
pub mod Pages
pub mod Device
pub mod Construction
pub mod Windows
pub mod Consuming
pub mod Ghosts
pub mod Prefixes
pub mod Attached
use dwpdsim.Base.{ℕ, Bool, Option, none, List, Vector, Key, Result}
use dwpdsim.Types.{TimestampNs}

pub record Slot : Type 0 where
  pub page : ℕ
  pub stream : ℕ
  pub valid : Bool

pub record FlashBlock : Type 0 where
  pub slots : Vector Slot
  pub live : ℕ
  pub stream : ℕ
  pub erases : ℕ
  pub last_write : TimestampNs
  pub active : Bool

pub record Location : Type 0 where
  pub block : ℕ
  pub slot : ℕ

-- `open_blocks` has the block that each stream appends to. `free_blocks` is the priority queue of
-- erase counts and identifiers, its least entry first. `mapping` is looked up by stream and page.
pub record Pool : Type 0 where
  pub nominal : ℕ
  pub page_bytes : ℕ
  pub pages_per_block : ℕ
  pub blocks : Vector FlashBlock
  pub open_blocks : Vector (Option ℕ)
  pub free_blocks : List Key
  pub mapping : ℕ → ℕ → Option Location
  pub active_blocks : ℕ
  pub active_limit : ℕ
  pub host_pages : ℕ
  pub gc_pages : ℕ
  pub erase_count : ℕ
