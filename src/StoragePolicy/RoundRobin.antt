-- ===== src/StoragePolicy/RoundRobin.antt =====
-- cpp/src/policies/storage/wear_share_round_robin_storage_policy.cpp: the tiers take turns by the bytes
-- that were programmed, the streams of a tier take turns, and the least recently used leaf segment is
-- trimmed. The index of the resident segments is here, `StoragePolicy/RoundRobin/Decisions` has the
-- policy's decisions and hooks. An `assert` is compiled away, `PolicyTimer` only measures time, and the
-- counters of `StoragePolicyWork` are not modelled: no decision reads them.
pub mod Decisions
pub mod Streams
pub mod Index
pub mod Counted
use dwpdsim.Base.{
  ℕ, zero, suc, Bool, true, false, List, [], ◌∷◌, Option, none, some, Result, ok, err, out_of_fuel,
  undefined, ◌>>=◌, Map, insert, erase, Key, insert_key, erase_key, add64, sub64, max, ◌==◌, ◌&&◌,
  if◌then◌else◌,
}
use dwpdsim.Types.{NodeId, Node, TimestampNs, StorageTier, PerTier, slc, tlc, at_tier, change_tier}
use dwpdsim.RadixTree.{RadixTree, node, parent}
use dwpdsim.RadixTree.Walks.{resolve_segment}
use dwpdsim.StoragePolicy.Entries.{PolicyState}

-- `victim_search`, a string of the source; the constructor refuses any other.
pub data VictimSearch : Type 0 where
  scan fused indexed other : VictimSearch

pub record RoundRobinConfig (F : Type 0) : Type 0 where
  pub slc_host_share : F
  pub logical_fill_fraction : F
  pub victim_search : VictimSearch
  pub subtree_counts : Bool
  pub verify_victims : Bool

pub record Segment : Type 0 where
  pub resident_blocks : PerTier ℕ
  pub last_ns : PerTier TimestampNs

-- The index of the resident segments.
pub record SegmentIndex : Type 0 where
  pub segments : Map Segment
  pub candidates : PerTier (List Key)

pub record RoundRobinPolicy (F : Type 0) : Type 0 where
  pub config : RoundRobinConfig F
  pub index : SegmentIndex
  pub subtree_storage : Map ℕ
  pub program_bytes : PerTier ℕ
  pub write_segments : PerTier ℕ
  pub state : PolicyState

-- One tier's candidates without a segment, or with it, if blocks of the segment are resident there.
abbrev pub without : ℕ → Key → List Key → List Key
without blocks k l = if blocks == 0 then l else erase_key k l

abbrev pub with_key : ℕ → Key → List Key → List Key
with_key blocks k l = if blocks == 0 then l else insert_key k l

unfoldable pub erase_segment : NodeId → SegmentIndex → SegmentIndex
erase_segment endpoint x = elim (x.segments endpoint) [
  | none ↦ x
  | some g ↦ record {
    segments = erase endpoint x.segments;
    candidates = record {
      slc_part =
          without g.resident_blocks.slc_part (g.last_ns.slc_part, endpoint) x.candidates.slc_part;
      tlc_part =
          without g.resident_blocks.tlc_part (g.last_ns.tlc_part, endpoint) x.candidates.tlc_part;
    };
  }
]

unfoldable pub insert_segment : NodeId → Segment → SegmentIndex → SegmentIndex
insert_segment endpoint g x =
    if g.resident_blocks.slc_part == 0 && g.resident_blocks.tlc_part == 0 then x else record {
      segments = insert endpoint g x.segments;
      candidates = record {
        slc_part =
            with_key g.resident_blocks.slc_part (g.last_ns.slc_part, endpoint)
              x.candidates.slc_part;
        tlc_part =
            with_key g.resident_blocks.tlc_part (g.last_ns.tlc_part, endpoint)
              x.candidates.tlc_part;
      };
    }

abbrev pub no_segment : Segment
no_segment = record {
  resident_blocks = record { slc_part = 0; tlc_part = 0 };
  last_ns = record { slc_part = 0; tlc_part = 0 };
}

abbrev pub count_node : Node → Segment → Segment
count_node n g =
    if n.on_storage
    then record {
      resident_blocks = change_tier n.storage_tier (λ b. add64 b 1) g.resident_blocks;
      last_ns =
          change_tier n.storage_tier (λ t. max t n.storage_last_access_timestamp_ns) g.last_ns;
    }
    else g

unfoldable pub count_nodes : RadixTree → List NodeId → Segment → Result Segment
count_nodes tree [] g = ok g
count_nodes tree (x ∷ xs) g = node tree x >>= λ n. count_nodes tree xs (count_node n g)

unfoldable pub refresh_segment : NodeId → RadixTree → SegmentIndex → Result SegmentIndex
unfolding erase_segment insert_segment count_nodes
refresh_segment endpoint tree x = do
  nodes ← resolve_segment tree endpoint
  g ← count_nodes tree nodes no_segment
  ok (insert_segment endpoint g (erase_segment endpoint x))

-- `++subtree_storage_[n]` for a node and its ancestors, or `--` with the entry erased at 0.
abbrev changed_count : Bool → Option ℕ → Result (Option ℕ)
changed_count true none = ok (some 1)
changed_count true (some n) = ok (some (add64 n 1))
changed_count false none = err undefined
changed_count false (some n) = ok (if sub64 n 1 == 0 then none else some (sub64 n 1))

unfoldable pub change_ancestors : ℕ → RadixTree → Bool → Option NodeId → Map ℕ → Result (Map ℕ)
change_ancestors n tree is_insert none m = ok m
change_ancestors zero tree is_insert (some x) m = err out_of_fuel
change_ancestors (suc n) tree is_insert (some x) m = changed_count is_insert (m x) >>= λ count.
    parent tree x >>= λ up.
    change_ancestors n tree is_insert up (λ j. if j == x then count else m j)
