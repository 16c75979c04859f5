-- ===== src/StoragePolicy/Entries.antt =====
-- cpp/include/dwpdsim/policies/storage/storage_policy_state.hpp and
-- cpp/src/policies/storage/storage_policy_state.cpp: the residency entries that the scanning
-- policies keep. `std::map` is the list of its pairs by rising key.
pub mod Keys
pub mod Commits
use dwpdsim.Base.{
  ℕ, Bool, true, false, List, [], ◌∷◌, Option, none, some, Result, ok, err, out_of_range, ◌>>=◌,
  or_fail, add64, contains, min, max, ltb, ◌==◌, ◌&&◌, ◌||◌, not, if◌then◌else◌,
}
use dwpdsim.Types.{NodeId, TimestampNs, StorageTier, PerTier, at_tier, change_tier, tier_eq}
use dwpdsim.RadixTree.{RadixTree, has_node}
use dwpdsim.RadixTree.Walks.{segment_leaf_for}
use dwpdsim.StorageView.{
  StorageView, is_storage_leaf, resident_blocks, resident_nodes, intersects_protected,
}
use dwpdsim.StoragePolicy.{
  StorageMutation, StorageMutationKind, dump_write_committed, capacity_trim_committed,
  idle_trim_committed, relocation_read_committed, relocation_write_committed,
  relocation_source_trim_committed, storage_access_committed, node_pruned,
}

pub record Entry : Type 0 where
  pub tier : StorageTier
  pub first_ns : TimestampNs
  pub last_ns : TimestampNs
  pub affinity_id : ℕ

abbrev pub Entries : Type 0
Entries = List (NodeId × Entry)

pub record PolicyState : Type 0 where
  pub entries : Entries
  pub program_bytes : PerTier ℕ
  pub committed_write_segments : PerTier ℕ

unfoldable pub new_state : PolicyState
new_state = record {
  entries = [];
  program_bytes = record { slc_part = 0; tlc_part = 0 };
  committed_write_segments = record { slc_part = 0; tlc_part = 0 };
}

unfoldable pub lookup : NodeId → Entries → Option Entry
lookup k [] = none
lookup k ((j, e) ∷ m) = if k == j then some e else lookup k m

-- `entries_[k] = e`, at the place of the key's order.
unfoldable pub assign : NodeId → Entry → Entries → Entries
assign k e [] = (k, e) ∷ []
assign k e ((j, d) ∷ m) =
    if k == j then (k, e) ∷ m else if ltb k j then (k, e) ∷ (j, d) ∷ m else (j, d) ∷ assign k e m

unfoldable pub erase : NodeId → Entries → Entries
erase k [] = []
erase k ((j, d) ∷ m) = if k == j then m else (j, d) ∷ erase k m

unfoldable pub assign_all : List NodeId → Entry → Entries → Entries
unfolding assign
assign_all [] e m = m
assign_all (k ∷ ks) e m = assign_all ks e (assign k e m)

unfoldable pub erase_all : List NodeId → Entries → Entries
unfolding erase
erase_all [] m = m
erase_all (k ∷ ks) m = erase_all ks (erase k m)

-- `entries_.at(k).tier = tier` for each node.
unfoldable pub move_all : List NodeId → StorageTier → Entries → Result Entries
unfolding assign lookup
move_all [] tier m = ok m
move_all (k ∷ ks) tier m = or_fail (lookup k m) out_of_range >>= λ e.
    move_all ks tier (assign k (record e { tier = tier }) m)

abbrev touch : TimestampNs → NodeId → Option Entry → Entries → Entries
touch now k none m = m
touch now k (some e) m = assign k (record e { last_ns = now }) m

unfoldable pub touch_all : List NodeId → TimestampNs → Entries → Entries
unfolding lookup assign
touch_all [] now m = m
touch_all (k ∷ ks) now m = touch_all ks now (touch now k (lookup k m) m)

-- A write to a tier is counted in bytes and in segments.
abbrev count_write : StorageMutation → PolicyState → PolicyState
count_write u s = record s {
  program_bytes = change_tier u.placement.tier (λ n. add64 n u.bytes) s.program_bytes;
  committed_write_segments =
      change_tier u.placement.tier (λ n. add64 n 1) s.committed_write_segments;
}

abbrev pub commit_kind : StorageMutationKind → StorageMutation → PolicyState → Result PolicyState
commit_kind dump_write_committed u s =
    let entry : Entry = record {
      tier = u.placement.tier;
      first_ns = u.timestamp_ns;
      last_ns = u.timestamp_ns;
      affinity_id = u.affinity_id;
    } in
    ok (count_write u (record s { entries = assign_all u.nodes entry s.entries }))
commit_kind capacity_trim_committed u s = ok (record s { entries = erase_all u.nodes s.entries })
commit_kind idle_trim_committed u s = ok (record s { entries = erase_all u.nodes s.entries })
commit_kind relocation_write_committed u s = do
  m ← move_all u.nodes u.placement.tier s.entries
  ok (count_write u (record s { entries = m }))
commit_kind storage_access_committed u s =
    ok (record s { entries = touch_all u.nodes u.timestamp_ns s.entries })
commit_kind node_pruned u s = ok (record s { entries = erase_all u.nodes s.entries })
commit_kind relocation_read_committed u s = ok s
commit_kind relocation_source_trim_committed u s = ok s

unfoldable pub on_commit : StorageMutation → PolicyState → Result PolicyState
unfolding assign_all erase_all move_all touch_all
on_commit u s = commit_kind u.kind u s
