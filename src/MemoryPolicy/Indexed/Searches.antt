-- ===== src/MemoryPolicy/Indexed/Searches.antt =====
-- The search of `IndexedMemoryLruPolicy` for a victim. The workers only read the groups, and the caller
-- waits for all of them before it reads a result: `search_groups` computes each worker's result.
use Prim.Native.Nat.{bit_xor}
use dwpdsim.Base.{
  ℕ, suc, zero, Bool, true, false, List, [], ◌∷◌, Option, none, some, Result, ok, err, out_of_range,
  undefined, ◌>>=◌, or_fail, Key, before, Vector, read, add64, sub64, ◌%◌, ◌+◌, ◌-◌, ◌==◌,
  if◌then◌else◌, ltb,
}
use dwpdsim.Types.{NodeId, TimestampNs, RequestContext, dump, drop}
use dwpdsim.RadixTree.{RadixTree, node}
use dwpdsim.MemoryPolicy.{MemoryPolicy, MemoryEvictionDecision}
use dwpdsim.MemoryPolicy.Indexed.{IndexedMemoryLruPolicy, Resident, mix, last_key}
use dwpdsim.MemoryPolicy.Indexed.Hooks.{on_commit, on_node_created, on_node_pruned}

-- `Result` of the policy.
pub record Found : Type 0 where
  pub best : Option Key
  pub examined : ℕ

abbrev pub count_of : Option ℕ → ℕ
count_of none = 0
count_of (some n) = n

abbrev pub resident_count : Option Resident → ℕ
resident_count none = 0
resident_count (some r) = 1

-- Whether no block below the segment's endpoint is in memory.
abbrev pub is_eligible : IndexedMemoryLruPolicy → Key → Bool
is_eligible s key = count_of (s.subtree_memory key.1) == resident_count (s.residents key.1)

abbrev pub better : Option Key → Key → Option Key
better none k = some k
better (some b) k = if before k b then some k else some b

-- One group, in its order, up to the first eligible segment.
unfoldable pub search_group : (Key → Bool) → List Key → Found → Found
search_group ok_key [] f = f
search_group ok_key (k ∷ ks) f =
    let g = record f { examined = add64 f.examined 1 } in
    elim (ok_key k) [
      | true ↦ record g { best = better f.best k }
      | false ↦ search_group ok_key ks g
    ]

-- The groups at the positions `skip`, `skip + step`, `skip + 2 * step` and so on of a list, where
-- `step` is `suc gap`.
unfoldable pub every : ℕ → ℕ → List ℕ → List ℕ
every skip gap [] = []
every zero gap (x ∷ xs) = x ∷ every gap gap xs
every (suc skip) gap (x ∷ xs) = every skip gap xs

-- A loop over groups; a group that is out of range is undefined.
unfoldable pub search_list : (Key → Bool) → Vector (List Key) → List ℕ → Found → Result Found
unfolding search_group
search_list ok_key groups [] f = ok f
search_list ok_key groups (i ∷ is) f =
    read groups i >>= λ g. search_list ok_key groups is (search_group ok_key g f)

abbrev pub nothing_found : Found
nothing_found = record { best = none; examined = 0 }

-- `search(worker, workers)`.
unfoldable pub search : (Key → Bool) → Vector (List Key) → List ℕ → ℕ → ℕ → Result Found
unfolding search_list every
search ok_key groups selected worker workers =
    search_list ok_key groups (every worker (workers - 1) selected) nothing_found

abbrev pub join : Found → Found → Found
join f part = record {
  best = elim part.best [ none ↦ f.best | some k ↦ better f.best k ];
  examined = add64 f.examined part.examined;
}

-- The results of the workers from `worker` on, joined in their order.
unfoldable pub join_workers :
    ℕ → (Key → Bool) → Vector (List Key) → List ℕ → ℕ → ℕ → Found → Result Found
unfolding search
join_workers zero ok_key groups selected worker workers f = ok f
join_workers (suc n) ok_key groups selected worker workers f =
    search ok_key groups selected worker workers >>= λ part.
    join_workers n ok_key groups selected (suc worker) workers (join f part)

unfoldable pub search_groups :
    List ℕ → IndexedMemoryLruPolicy → Result (Found × IndexedMemoryLruPolicy)
unfolding search join_workers
search_groups selected s =
    if ltb 1 s.workers
    then (do
      f ← join_workers s.workers (is_eligible s) s.groups selected 0 s.workers nothing_found
      ok (f, record s { work = record s.work { worker_rounds = add64 s.work.worker_rounds 1 } }))
    else (do f ← search (is_eligible s) s.groups selected 0 1; ok (f, s))

-- The groups `start + i`, `start + i + 1` and so on, `n` of them.
unfoldable pub groups_from : ℕ → ℕ → ℕ → ℕ → List ℕ
groups_from zero start i size = []
groups_from (suc n) start i size = (start + i) % size ∷ groups_from n start (suc i) size

abbrev pub count_examined : Found → IndexedMemoryLruPolicy → IndexedMemoryLruPolicy
count_examined f s = record s {
  work = record s.work { candidates_examined = add64 s.work.candidates_examined f.examined };
}

abbrev pub sample_size : IndexedMemoryLruPolicy → ℕ
sample_size s = if s.sampled_groups == 0 then s.groups.size else s.sampled_groups

-- The second search, over the groups that the sample left out.
unfoldable pub search_rest :
    ℕ → Option Key → IndexedMemoryLruPolicy → Result (Option Key × IndexedMemoryLruPolicy)
unfolding search_groups groups_from
search_rest start (some k) s = ok (some k, s)
search_rest start none s =
    if ltb (sample_size s) s.groups.size
    then (do
      out ←
          search_groups
            (groups_from (s.groups.size - sample_size s) start (sample_size s) s.groups.size) s
      ok (out.0.best, count_examined out.0 out.1))
    else ok (none, s)

unfoldable pub select_victim : IndexedMemoryLruPolicy → Result (NodeId × IndexedMemoryLruPolicy)
unfolding search_groups groups_from search_rest mix
select_victim given = if given.groups.size == 0 then err undefined else (do
  let start = mix (bit_xor given.seed given.decision) % given.groups.size
  let s = record given { decision = add64 given.decision 1 }
  out ← search_groups (groups_from (sample_size s) start 0 s.groups.size) s
  rest ← search_rest start out.0.best (count_examined out.0 out.1)
  k ← or_fail rest.0 undefined
  ok (k.1, rest.1))

-- Whether the newest block of a segment was used longer ago than the retention.
unfoldable pub is_retained_out :
    RequestContext → RadixTree → NodeId → TimestampNs → IndexedMemoryLruPolicy → Result Bool
is_retained_out request tree endpoint retention s = do
  handle ← or_fail (s.endpoints endpoint) out_of_range
  g ← or_fail (s.segments handle) out_of_range
  newest ← or_fail (last_key g.members) undefined
  n ← node tree newest.1
  ok (ltb retention (sub64 request.timestamp_ns n.last_access_timestamp_ns))

unfoldable pub evict :
    RequestContext
    → RadixTree
    → IndexedMemoryLruPolicy
    → Result (MemoryEvictionDecision × IndexedMemoryLruPolicy)
unfolding select_victim is_retained_out
evict request tree given = do
  out ← select_victim given
  dropped ← elim out.1.retention_ns [
    | none ↦ ok false
    | some retention ↦ is_retained_out request tree out.0 retention out.1
  ]
  ok (
    record {
      leaf_segment_endpoint = out.0;
      action = if dropped then drop else dump;
      reclaim_parent = true;
      max_eviction_blocks = none;
    },
    out.1,
  )

-- The policy object as an instance of the interface.
abbrev pub indexed_memory_lru : MemoryPolicy
indexed_memory_lru = record {
  State = IndexedMemoryLruPolicy;
  on_request_begin = λ r t s. ok s;
  on_request_end = λ r t s. ok s;
  on_node_created = λ n t s. on_node_created n t s;
  on_node_pruned = λ n p t s. on_node_pruned n p t s;
  admit_storage_hit = λ a n t s. s.admit_storage_hits;
  evict = evict;
  on_commit = λ m t s. on_commit m t s;
}
