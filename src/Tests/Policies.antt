-- ===== src/Tests/Policies.antt =====
-- The allocator and the policies' records at small inputs.
use dwpdsim.Base.{
  add64, ◌≡◌, ◌<◌, ◌+◌, ◌==◌, if◌then◌else◌, refl, true, false, [], ◌∷◌, none, some, Returns, arith,
  contains, remove,
}
use dwpdsim.Types.{slc, tlc}
use dwpdsim.Storage.{StorageTierState, new_tier, allocate, release}
use dwpdsim.Storage.Addresses.{Owns, new_tier-Owns, allocate-Owns, release-Owns}
use dwpdsim.MemoryPolicy.{accessed}
use dwpdsim.MemoryPolicy.Baseline.{BaselineMemoryLruPolicy, commit}
use dwpdsim.MemoryPolicy.Baseline.Recency.{commit-Holds}
use dwpdsim.MemoryPolicy.Baseline.Order.{Holds}
use dwpdsim.StoragePolicy.{StorageMutation, relocation_write_committed}
use dwpdsim.StoragePolicy.Entries.{Entry, PolicyState, lookup, on_commit}
use dwpdsim.StoragePolicy.Entries.Commits.{Implements, committed, Applies, on_commit-Implements}

abbrev fresh_tier : StorageTierState
fresh_tier = new_tier (record { capacity_bytes = 8192; stream_count = 1 }) 4096

abbrev one_block : StorageTierState
one_block = (allocate fresh_tier).1

one_block-Owns : Owns one_block ((allocate fresh_tier).0 ∷ [])
unfolding new_tier
one_block-Owns =
    (allocate-Owns fresh_tier []
      (new_tier-Owns (record { capacity_bytes = 8192; stream_count = 1 }) 4096) (omega arith)).1

one_block_room : one_block.next_address + 1 < 18446744073709551616
unfolding new_tier allocate add64
one_block_room = omega arith

allocate-Owns_example :
    (contains ((allocate fresh_tier).0 ∷ []) (allocate one_block).0 ≡ false)
    × Owns (allocate one_block).1 ((allocate one_block).0 ∷ (allocate fresh_tier).0 ∷ [])
allocate-Owns_example =
    allocate-Owns one_block ((allocate fresh_tier).0 ∷ []) one_block-Owns one_block_room

release-Owns_example :
    Owns
      (release (allocate fresh_tier).0 one_block)
      (remove (allocate fresh_tier).0 ((allocate fresh_tier).0 ∷ []))
release-Owns_example =
    release-Owns one_block ((allocate fresh_tier).0 ∷ []) (allocate fresh_tier).0 one_block-Owns
      (ground arith)

abbrev pub two_linked : BaselineMemoryLruPolicy
two_linked = record {
  admit_storage_hits = true;
  head = some 7;
  tail = some 3;
  links = λ k.
      if k == 7
      then some (record { previous = none; next = some 3 })
      else if k == 3
      then some (record { previous = some 7; next = none })
      else none;
  candidates_examined = 0;
}

pub two_linked-Holds : Holds two_linked (7 ∷ 3 ∷ [])
two_linked-Holds = record {
  distinct = (refl, (refl, tt));
  first = refl;
  last = refl;
  linked = λ k. ground arith;
  chained = (refl, refl, (refl, refl, tt));
}

commit-Holds_example : Returns (commit accessed 3 two_linked) (λ t. Holds t (3 ∷ 7 ∷ []))
commit-Holds_example = commit-Holds accessed 3 two_linked (7 ∷ 3 ∷ []) two_linked-Holds refl

abbrev entry : Entry
entry = record { tier = slc; first_ns = 1; last_ns = 2; affinity_id = 0 }

abbrev two_entries : PolicyState
two_entries = record {
  entries = (3, entry) ∷ (7, entry) ∷ [];
  program_bytes = record { slc_part = 0; tlc_part = 0 };
  committed_write_segments = record { slc_part = 0; tlc_part = 0 };
}

abbrev moved : StorageMutation
moved = record {
  kind = relocation_write_committed;
  timestamp_ns = 9;
  affinity_id = 0;
  segment_endpoint = 7;
  nodes = 7 ∷ [];
  placement = record { tier = tlc; stream_id = 0 };
  source_tier = slc;
  bytes = 4096;
}

moved-Applies : Applies moved.kind moved two_entries.entries
unfolding lookup
moved-Applies k h = ground (arith, h)

on_commit-Implements_example :
    Returns
      (on_commit moved two_entries)
      (λ t. Implements t.entries (committed moved.kind moved (λ q. lookup q two_entries.entries)))
on_commit-Implements_example =
    on_commit-Implements moved two_entries (omega arith, tt) moved-Applies
