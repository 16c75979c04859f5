-- ===== src/MemoryPolicy/Indexed.antt =====
-- cpp/src/policies/memory/indexed_memory_lru_policy.cpp: memory segments by the recency of their
-- newest block, in groups that can be searched apart. `MemoryPolicy/Indexed/Hooks` has the policy's
-- hooks and `MemoryPolicy/Indexed/Searches` its search for a victim. The tree that `tree_` points to
-- is an argument. An `assert` is compiled away.
pub mod Hooks
pub mod Searches
pub mod Least
pub mod Victims
pub mod Ordered
pub mod Members
pub mod Blocks
pub mod Merging
pub mod Splitting
use dwpdsim.Base.{
  scramble, ℕ, zero, suc, Bool, true, false, List, [], ◌∷◌, Option, none, some, Result, ok, err,
  out_of_range, undefined, out_of_fuel, ◌>>=◌, or_fail, Map, insert, erase, Key, insert_key,
  erase_key, Vector, read, modify, add64, sub64, mul64, ◌%◌, ◌/◌, ◌==◌, if◌then◌else◌, ◌||◌, ltb,
  invalid_argument,
}
use dwpdsim.Types.{NodeId, TimestampNs}
use dwpdsim.RadixTree.{RadixTree, parent}

pub record Resident : Type 0 where
  pub recency : ℕ
  pub segment : ℕ

pub record Segment : Type 0 where
  pub endpoint : NodeId
  pub group : ℕ
  pub members : List Key

-- `MemoryPolicyWork`; `work()` fills in the sizes of the maps, which are not kept here.
pub record MemoryPolicyWork : Type 0 where
  pub candidates_examined : ℕ
  pub topology_nodes_examined : ℕ
  pub topology_member_moves : ℕ
  pub ancestor_updates : ℕ
  pub worker_rounds : ℕ

-- `workers` is the number of search results, 1 when there are no threads.
pub record IndexedMemoryLruPolicy : Type 0 where
  pub admit_storage_hits : Bool
  pub sampled_groups : ℕ
  pub workers : ℕ
  pub seed : ℕ
  pub retention_ns : Option TimestampNs
  pub next_recency : ℕ
  pub next_handle : ℕ
  pub residents : Map Resident
  pub subtree_memory : Map ℕ
  pub endpoints : Map ℕ
  pub segments : Map Segment
  pub groups : Vector (List Key)
  pub decision : ℕ
  pub work : MemoryPolicyWork

unfoldable pub new_policy :
    Bool → ℕ → ℕ → ℕ → ℕ → Option TimestampNs → Result IndexedMemoryLruPolicy
new_policy admit groups sampled workers seed retention =
    if groups == 0 || (workers == 0 || (ltb groups workers || ltb groups sampled))
    then err invalid_argument
    else ok (record {
      admit_storage_hits = admit;
      sampled_groups = sampled;
      workers = workers;
      seed = seed;
      retention_ns = retention;
      next_recency = 0;
      next_handle = 0;
      residents = λ n. none;
      subtree_memory = λ n. none;
      endpoints = λ n. none;
      segments = λ h. none;
      groups = record { size = groups; cell = λ i. [] };
      decision = 0;
      work = record {
        candidates_examined = 0;
        topology_nodes_examined = 0;
        topology_member_moves = 0;
        ancestor_updates = 0;
        worker_rounds = 0;
      };
    })

unfoldable pub mix : ℕ → ℕ
unfolding scramble
mix value = scramble (add64 value 11400714819323198485)

unfoldable pub ensure_segment :
    NodeId → IndexedMemoryLruPolicy → Result (ℕ × IndexedMemoryLruPolicy)
unfolding mix
ensure_segment endpoint s = elim (s.endpoints endpoint) [
  | some h ↦ ok (h, s)
  | none ↦
      let handle = add64 s.next_handle 1 in
      if s.groups.size == 0
      then err undefined
      else ok (
        handle,
        record s {
          next_handle = handle;
          segments =
              insert handle
                (record { endpoint = endpoint; group = mix endpoint % s.groups.size; members = [] })
                s.segments;
          endpoints = insert endpoint handle s.endpoints;
        },
      )
]

-- `rbegin` of a set.
abbrev pub last_key : List Key → Option Key
last_key [] = none
last_key (k ∷ []) = some k
last_key (k ∷ j ∷ ks) = last_key (j ∷ ks)

unfoldable pub unpublish : ℕ → IndexedMemoryLruPolicy → Result IndexedMemoryLruPolicy
unpublish handle s = do
  g ← or_fail (s.segments handle) out_of_range
  elim (last_key g.members) [
    | none ↦ ok s
    | some k ↦ do
      v ← modify s.groups g.group (erase_key (k.0, g.endpoint))
      ok (record s { groups = v })
  ]

unfoldable pub publish : ℕ → IndexedMemoryLruPolicy → Result IndexedMemoryLruPolicy
publish handle s = do
  g ← or_fail (s.segments handle) out_of_range
  elim (last_key g.members) [
    | none ↦
        ok (record s {
          endpoints = erase g.endpoint s.endpoints;
          segments = erase handle s.segments;
        })
    | some k ↦ do
      v ← modify s.groups g.group (insert_key (k.0, g.endpoint))
      ok (record s { groups = v })
  ]

abbrev pub change_segment :
    ℕ → (Segment → Segment) → IndexedMemoryLruPolicy → Result IndexedMemoryLruPolicy
change_segment handle f s = do
  g ← or_fail (s.segments handle) out_of_range
  ok (record s { segments = insert handle (f g) s.segments })

-- `emplace` keeps an entry that is there.
abbrev pub emplace {ℓ} : {V : Type ℓ} → ℕ → V → Map V → Map V
emplace k v m = elim (m k) [ none ↦ insert k v m | some w ↦ m ]

unfoldable pub move_endpoint : ℕ → NodeId → IndexedMemoryLruPolicy → Result IndexedMemoryLruPolicy
unfolding unpublish publish
move_endpoint handle endpoint given = do
  s ← unpublish handle given
  g ← or_fail (s.segments handle) out_of_range
  publish handle (record s {
    endpoints = emplace endpoint handle (erase g.endpoint s.endpoints);
    segments = insert handle (record g { endpoint = endpoint }) s.segments;
  })

-- `++subtree_memory_[n]` for a node and its ancestors, or `--` with the entry erased at 0.
abbrev pub changed_count : Bool → Option ℕ → Result (Option ℕ)
changed_count true none = ok (some 1)
changed_count true (some n) = ok (some (add64 n 1))
changed_count false none = err undefined
changed_count false (some n) = ok (if sub64 n 1 == 0 then none else some (sub64 n 1))

unfoldable pub change_from :
    ℕ → RadixTree → Bool → Option NodeId → IndexedMemoryLruPolicy → Result IndexedMemoryLruPolicy
change_from n tree is_insert none s = ok s
change_from zero tree is_insert (some x) s = err out_of_fuel
change_from (suc n) tree is_insert (some x) s =
    changed_count is_insert (s.subtree_memory x) >>= λ count. parent tree x >>= λ up.
    change_from n tree is_insert up (record s {
      subtree_memory = λ j. if j == x then count else s.subtree_memory j;
      work = record s.work { ancestor_updates = add64 s.work.ancestor_updates 1 };
    })

unfoldable pub change_ancestors :
    RadixTree → NodeId → Bool → IndexedMemoryLruPolicy → Result IndexedMemoryLruPolicy
unfolding change_from
change_ancestors tree x is_insert s = change_from (suc tree.nodes.size) tree is_insert (some x) s
