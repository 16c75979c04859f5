-- ===== src/Tests/Indexes.antt =====
-- The indexed memory policy and the placements of the round-robin, ratio and affinity policies at small
-- inputs.
use dwpdsim.Base.{
  Result, Distinct, erase_key, scramble, is_ok, same_ok, subst, insert_key, add64, ℕ, ◌≡◌, ◌<◌, ◌+◌,
  ◌-◌, ◌*◌, ◌/◌, ◌%◌, refl, arith, true, false, [], ◌∷◌, none, some, Returns, Ensures, ok, has_key,
  leb, ltb, ◌==◌, if◌then◌else◌, u32_mod,
}
use dwpdsim.Types.{change_tier, dump_admission, slc, tlc, at_tier, StorageTier, NodeId}
use dwpdsim.Floats.{Floats}
use dwpdsim.RadixTree.{RadixTree, parent}
use dwpdsim.MemoryPolicy.{MemoryMutation, accessed}
use dwpdsim.MemoryPolicy.Indexed.{IndexedMemoryLruPolicy, unpublish, publish, ensure_segment, mix}
use dwpdsim.MemoryPolicy.Indexed.Hooks
use dwpdsim.MemoryPolicy.Indexed.Splitting.{Splittable, on_node_created-Regrouped}
use dwpdsim.MemoryPolicy.Indexed.Merging.{Regrouped, on_node_pruned-Regrouped}
use dwpdsim.MemoryPolicy.Indexed.Hooks.{
  on_node_created, split_segment, split_member, open_split, on_node_pruned, merge, merge_segments,
  adopt,
}
use dwpdsim.MemoryPolicy.Indexed.Blocks.{HasMembers, Commits, on_commit-Commits}
use dwpdsim.StorageView.{StorageView}
use dwpdsim.StoragePolicy.{
  DumpContext, CapacityPressureContext, StorageMutation, dump_write_committed,
}
use dwpdsim.StoragePolicy.Entries.{new_state}
use dwpdsim.StoragePolicy.RoundRobin.{RoundRobinPolicy, indexed}
use dwpdsim.StoragePolicy.RoundRobin.Decisions.{choose_tier, place_dump, next_stream, on_commit}
use dwpdsim.StoragePolicy.RoundRobin.Index.{IsIndex}
use dwpdsim.StoragePolicy.RoundRobin.Counted.{Refreshed, dumped, on_commit-Refreshed}
use dwpdsim.RadixTree.Walks.{segment_leaf_for, resolve_segment}
use dwpdsim.StoragePolicy.RoundRobin.Streams.{place_dump-bounded, on_commit-next_stream}
use dwpdsim.StoragePolicy.Ratio
use dwpdsim.StoragePolicy.Ratio.{RatioPolicy}
use dwpdsim.StoragePolicy.Affinity
use dwpdsim.StoragePolicy.Affinity.{AffinityPolicy}
use dwpdsim.StoragePolicy.Placements.{
  HasStreams, ratio_place_dump-bounded, affinity_place_dump-same,
}
use dwpdsim.Simulator.{view, Simulator}
use dwpdsim.Simulator.Requests.{process_request}
use dwpdsim.Tests.Scenario.{code, small_parts, first_request, first_ok}
use dwpdsim.Base.{the}

-- Two segments in two groups, block 2 used before block 3, and two workers.
abbrev two_segments : IndexedMemoryLruPolicy
two_segments = record {
  admit_storage_hits = true;
  sampled_groups = 0;
  workers = 2;
  seed = 5;
  retention_ns = none;
  next_recency = 2;
  next_handle = 2;
  residents = λ n.
      if n == 2
      then some (record { recency = 1; segment = 1 })
      else if n == 3
      then some (record { recency = 2; segment = 2 })
      else none;
  subtree_memory = λ n. if n == 2 then some 1 else if n == 3 then some 1 else none;
  endpoints = λ n. if n == 2 then some 1 else if n == 3 then some 2 else none;
  segments = λ h.
      if h == 1
      then some (record { endpoint = 2; group = 0; members = (1, 2) ∷ [] })
      else if h == 2
      then some (record { endpoint = 3; group = 1; members = (2, 3) ∷ [] })
      else none;
  groups = record { size = 2; cell = λ i. if i == 0 then (1, 2) ∷ [] else (2, 3) ∷ [] };
  decision = 0;
  work = record {
    candidates_examined = 0;
    topology_nodes_examined = 0;
    topology_member_moves = 0;
    ancestor_updates = 0;
    worker_rounds = 0;
  };
}

abbrev tree : RadixTree
tree = (view small_parts (the first_request first_ok)).tree

abbrev access : MemoryMutation
access = record { kind = accessed; node_id = 2 }

two_segments-HasMembers : HasMembers two_segments
unfolding has_key
two_segments-HasMembers = record {
  members = record { ordered = λ h. ground arith; same = λ h t x. ground arith };
  handles = record { fresh = λ h b. ground (arith, b); known = λ e h q. ground (arith, q) };
}

on_commit-Commits_example :
    Ensures (Commits 2 (some 3) two_segments) (Hooks.on_commit access tree two_segments)
unfolding add64
on_commit-Commits_example =
    on_commit-Commits access tree two_segments two_segments-HasMembers (omega arith) (λ e. cc e)

leaf_of_two : segment_leaf_for tree 2 ≡ ok 3
unfolding code
leaf_of_two = refl

-- Of the tree of the blocks 1, 2 and 3, block 9 was lost below block 2: the segments of 2 and 3 merge.
merged_ok : is_ok (on_node_pruned 9 (some 2) tree two_segments) ≡ true
unfolding code on_node_pruned merge merge_segments adopt unpublish publish insert_key
merged_ok = refl

on_node_pruned-Regrouped_example :
    Ensures (Regrouped two_segments) (on_node_pruned 9 (some 2) tree two_segments)
on_node_pruned-Regrouped_example =
    on_node_pruned-Regrouped 9 (some 2) tree two_segments two_segments-HasMembers (λ p e c q.
      let two : p ≡ 2 = cc e in
      let three : 3 ≡ 2 = same_ok leaf_of_two (subst (λ x. segment_leaf_for tree x ≡ ok x) two q) in
      omega (arith, three))

-- Block 4 is new below block 1, beside block 2; blocks 1 and 3 were in one segment.
abbrev branched : Result (Simulator small_parts)
branched = process_request small_parts 6 2 0 (1 ∷ 4 ∷ []) (the first_request first_ok)

branched_ok : is_ok branched ≡ true
unfolding code
branched_ok = refl

abbrev branched_tree : RadixTree
branched_tree = (the branched branched_ok).tree

nodes_of_one : resolve_segment branched_tree 1 ≡ ok (1 ∷ [])
unfolding code branched_ok
nodes_of_one = refl

parent_of_four : parent branched_tree 4 ≡ ok (some 1)
unfolding code branched_ok
parent_of_four = refl

abbrev one_segment : IndexedMemoryLruPolicy
one_segment = record two_segments {
  residents = λ n.
      if n == 1
      then some (record { recency = 1; segment = 1 })
      else if n == 3
      then some (record { recency = 2; segment = 1 })
      else none;
  endpoints = λ n. if n == 3 then some 1 else none;
  segments = λ h.
      if h == 1
      then some (record { endpoint = 3; group = 0; members = (1, 1) ∷ (2, 3) ∷ [] })
      else none;
  groups = record { size = 2; cell = λ i. if i == 0 then (2, 3) ∷ [] else [] };
}

one_segment-HasMembers : HasMembers one_segment
unfolding has_key
one_segment-HasMembers = record {
  members = record { ordered = λ h. ground arith; same = λ h t x. ground arith };
  handles = record { fresh = λ h b. ground (arith, b); known = λ e h q. ground (arith, q) };
}

split_ok : is_ok (on_node_created 4 branched_tree one_segment) ≡ true
unfolding code branched_ok on_node_created split_segment split_member open_split ensure_segment
    unpublish publish insert_key erase_key mix scramble
split_ok = refl

one_segment-Splittable : Splittable branched_tree 1 one_segment
one_segment-Splittable = record {
  handle = 1;
  once = λ nodes e. subst Distinct (same_ok nodes_of_one e) (refl, tt);
  one = λ nodes e x r c q. ground (arith, q);
}

on_node_created-Regrouped_example :
    Ensures (Regrouped one_segment) (on_node_created 4 branched_tree one_segment)
on_node_created-Regrouped_example =
    on_node_created-Regrouped 4 branched_tree one_segment one_segment-HasMembers (omega arith)
      (λ up e c.
        subst (λ p. Splittable branched_tree p one_segment) (cc (parent_of_four, e))
          one_segment-Splittable)

-- Natural numbers in place of doubles.
abbrev whole : Floats ℕ
whole = record {
  of_nat = λ n. n;
  to_nat = λ n. n;
  literal = λ n d. n / d;
  plus = λ a b. a + b;
  minus = λ a b. a - b;
  times = λ a b. a * b;
  over = λ a b. a / b;
  is_less = λ a b. ltb a b;
  is_at_most = λ a b. leb a b;
  is_finite = λ a. true;
  ceil = λ a. a;
}

abbrev small_view : StorageView
small_view = view small_parts (the first_request first_ok)

abbrev policy : RoundRobinPolicy ℕ
policy = record {
  config = record {
    slc_host_share = 1;
    logical_fill_fraction = 1;
    victim_search = indexed;
    subtree_counts = false;
    verify_victims = false;
  };
  index = record {
    segments = λ n.
        if n == 3
        then some (record {
          resident_blocks = record { slc_part = 2; tlc_part = 0 };
          last_ns = record { slc_part = 5; tlc_part = 0 };
        })
        else none;
    candidates = record { slc_part = (5, 3) ∷ []; tlc_part = [] };
  };
  subtree_storage = λ n. none;
  program_bytes = record { slc_part = 0; tlc_part = 0 };
  write_segments = record { slc_part = 4; tlc_part = 7 };
  state = new_state;
}

policy-IsIndex : IsIndex policy.index
unfolding has_key
policy-IsIndex = record {
  slc_lists = record { ordered = tt; same = λ t e. ground arith };
  tlc_lists = record { ordered = tt; same = λ t e. ground arith };
}

abbrev mutation : StorageMutation
mutation = record {
  kind = dump_write_committed;
  timestamp_ns = 6;
  affinity_id = 0;
  segment_endpoint = 3;
  nodes = 3 ∷ [];
  placement = record { tier = tlc; stream_id = 1 };
  source_tier = slc;
  bytes = 4096;
}

slc_streams : (at_tier slc small_view.storage).stream_count ≡ 1
unfolding code
slc_streams = refl

tlc_streams : (at_tier tlc small_view.storage).stream_count ≡ 2
unfolding code
tlc_streams = refl

some_streams : (tier : StorageTier) → 0 < (at_tier tier small_view.storage).stream_count
some_streams slc = omega (arith, slc_streams)
some_streams tlc = omega (arith, tlc_streams)

few_streams : (tier : StorageTier) → (at_tier tier small_view.storage).stream_count < u32_mod
few_streams slc = omega (arith, slc_streams)
few_streams tlc = omega (arith, tlc_streams)

on_commit-next_stream_example :
    Ensures
      (λ r.
        (i : ℕ)
        → next_stream tlc small_view policy ≡ ok i
        → next_stream tlc small_view r
          ≡ ok ((i + 1) % (at_tier tlc small_view.storage).stream_count))
      (on_commit mutation small_view policy)
on_commit-next_stream_example =
    on_commit-next_stream mutation small_view policy refl (some_streams tlc) (few_streams tlc)
      (omega arith)

on_commit-Refreshed_example :
    Ensures
      (λ r.
        IsIndex r.index
        × ((leaf : NodeId)
            → segment_leaf_for small_view.tree 3 ≡ ok leaf
            → Refreshed small_view leaf policy.index r.index))
      (on_commit mutation small_view policy)
on_commit-Refreshed_example =
    on_commit-Refreshed mutation small_view policy refl dumped policy-IsIndex

abbrev pressure : CapacityPressureContext
pressure = record {
  timestamp_ns = 6;
  cause = dump_admission;
  target_tier = slc;
  required_blocks = 1;
  protected_nodes = [];
}

abbrev dump : DumpContext
dump = record {
  request = record {
    timestamp_ns = 6;
    request_id = 1;
    affinity_id = 0;
    ordered_hashes = 1 ∷ 2 ∷ 3 ∷ [];
    protected_prefix = [];
  };
  segment = record { segment_top = 1; segment_endpoint = 3; ordered_nodes = 1 ∷ 2 ∷ 3 ∷ [] };
  write_nodes = 3 ∷ [];
  write_blocks = 1;
  write_bytes = 4096;
  protected_nodes = [];
}

place_dump-bounded_example : Returns (place_dump whole dump small_view policy) (λ p.
    (p.tier ≡ choose_tier whole dump policy)
    × (p.stream_id < (at_tier p.tier small_view.storage).stream_count))
place_dump-bounded_example =
    place_dump-bounded whole dump small_view policy some_streams few_streams

has_streams : (tier : StorageTier) → HasStreams small_view tier
has_streams tier = record { some_stream = some_streams tier; few_streams = few_streams tier }

abbrev ratio_policy : RatioPolicy ℕ
ratio_policy = record { slc_write_ratio = 1; state = new_state }

ratio_place_dump-bounded_example :
    Returns (Ratio.place_dump whole dump small_view ratio_policy) (λ p.
      (p.tier ≡ Ratio.choose_tier whole dump ratio_policy)
      × (p.stream_id < (at_tier p.tier small_view.storage).stream_count))
ratio_place_dump-bounded_example =
    ratio_place_dump-bounded whole dump small_view ratio_policy has_streams

abbrev affinity_policy : AffinityPolicy ℕ
affinity_policy = record {
  config = record { slc_host_share = 1; logical_fill_fraction = 1 };
  state = new_state;
}

-- The dump, asked for by a request with an affinity.
abbrev tagged_dump : DumpContext
tagged_dump = record dump { request = record dump.request { affinity_id = 9 } }

-- A later dump of another segment for the same affinity, after a block was written to SLC.
abbrev later_dump : DumpContext
later_dump = record tagged_dump {
  segment = record { segment_top = 4; segment_endpoint = 6; ordered_nodes = 4 ∷ 5 ∷ 6 ∷ [] };
  write_nodes = 6 ∷ [];
}

abbrev later_policy : AffinityPolicy ℕ
later_policy = record affinity_policy {
  state = record new_state { program_bytes = record { slc_part = 0; tlc_part = 4096 } };
}

same_tier :
    Affinity.choose_tier whole tagged_dump affinity_policy
    ≡ Affinity.choose_tier whole later_dump later_policy
unfolding Affinity.choose_tier new_state
same_tier = refl

abbrev later_view : StorageView
later_view = record small_view {
  storage = change_tier slc (λ d. record d { used_blocks = 1 }) small_view.storage;
}

same_streams :
    (tier : StorageTier)
    → (at_tier tier small_view.storage).stream_count
      ≡ (at_tier tier later_view.storage).stream_count
same_streams slc = refl
same_streams tlc = refl

affinity_place_dump-same_example :
    Returns (Affinity.place_dump whole tagged_dump small_view affinity_policy) (λ p.
      (p.stream_id < (at_tier p.tier small_view.storage).stream_count)
      × (Affinity.place_dump whole later_dump later_view later_policy ≡ ok p))
affinity_place_dump-same_example =
    affinity_place_dump-same whole tagged_dump later_dump small_view later_view affinity_policy
      later_policy has_streams same_streams refl (λ e. omega (arith, e)) same_tier
