-- ===== src/MemoryPolicy/Baseline.antt =====
-- cpp/src/policies/memory/baseline_memory_lru_policy.cpp: least recently used memory blocks, kept in
-- a doubly linked list of links in a hash map. `links_.at` of a missing key throws
-- `std::out_of_range`; dereferencing a missing iterator or an empty optional is undefined.
pub mod Order
pub mod Detaching
pub mod Recency
pub mod Scans
pub mod Victims
use dwpdsim.Base.{
  ℕ, suc, zero, Bool, true, false, List, [], ◌∷◌, Option, none, some, Result, ok, err, undefined,
  out_of_range, out_of_fuel, ◌>>=◌, or_fail, Map, insert, erase, contains, ◌&&◌, not, add64,
  if◌then◌else◌,
}
use dwpdsim.Types.{NodeId, Node, AccessContext, RequestContext, dump}
use dwpdsim.RadixTree.{RadixTree}
use dwpdsim.RadixTree.Walks.{segment_leaf_for, has_memory_descendant}
use dwpdsim.MemoryPolicy.{
  MemoryPolicy, MemoryEvictionDecision, MemoryMutation, MemoryMutationKind, inserted, accessed,
  removed,
}

pub record Link : Type 0 where
  pub previous : Option NodeId
  pub next : Option NodeId

pub record BaselineMemoryLruPolicy : Type 0 where
  pub admit_storage_hits : Bool
  pub head : Option NodeId
  pub tail : Option NodeId
  pub links : Map Link
  pub candidates_examined : ℕ

abbrev pub set_link_previous : Option NodeId → Link → Link
set_link_previous p l = record l { previous = p }

abbrev pub set_link_next : Option NodeId → Link → Link
set_link_next n l = record l { next = n }

-- A write through `links_.at(k)`.
abbrev pub modify_at : NodeId → (Link → Link) → Map Link → Result (Map Link)
modify_at k f m = do l ← or_fail (m k) out_of_range; ok (insert k (f l) m)

unfoldable pub attach_front : NodeId → BaselineMemoryLruPolicy → Result BaselineMemoryLruPolicy
attach_front x s = do
  let linked = insert x (record { previous = none; next = s.head }) s.links
  elim s.head [
    | none ↦ ok (record s { links = linked; tail = some x; head = some x })
    | some h ↦ do
      m ← modify_at h (set_link_previous (some x)) linked
      ok (record s { links = m; head = some x })
  ]

unfoldable pub detach : NodeId → BaselineMemoryLruPolicy → Result BaselineMemoryLruPolicy
detach x s = do
  link ← or_fail (s.links x) undefined
  s1 ← elim link.previous [
    | some p ↦ do m ← modify_at p (set_link_next link.next) s.links; ok (record s { links = m })
    | none ↦ ok (record s { head = link.next })
  ]
  s2 ← elim link.next [
    | some n ↦ do
      m ← modify_at n (set_link_previous link.previous) s1.links
      ok (record s1 { links = m })
    | none ↦ ok (record s1 { tail = link.previous })
  ]
  ok (record s2 { links = erase x s2.links })

unfoldable pub commit :
    MemoryMutationKind → NodeId → BaselineMemoryLruPolicy → Result BaselineMemoryLruPolicy
unfolding attach_front detach
commit inserted x s = attach_front x s
commit accessed x s = do s1 ← detach x s; attach_front x s1
commit removed x s = detach x s

unfoldable pub on_commit : MemoryMutation → BaselineMemoryLruPolicy → Result BaselineMemoryLruPolicy
unfolding commit
on_commit m s = commit m.kind m.node_id s

-- What the search for a victim carries: the segments seen, the last candidate and the work counter.
pub record Scan : Type 0 where
  pub seen_segments : List NodeId
  pub victim : Option NodeId
  pub examined : ℕ

unfoldable pub examine : RadixTree → NodeId → Scan → Result Scan
examine tree x k = do
  endpoint ← segment_leaf_for tree x
  let k1 = record k { examined = add64 k.examined 1 }
  if contains k.seen_segments endpoint then ok k1 else (do
    below ← has_memory_descendant tree endpoint
    let k2 = record k1 { seen_segments = endpoint ∷ k.seen_segments }
    ok (if below then k2 else record k2 { victim = some endpoint }))

-- From the most recent block to the least recent one.
unfoldable pub scan : ℕ → RadixTree → Map Link → Option NodeId → Scan → Result Scan
unfolding examine
scan n tree links none k = ok k
scan zero tree links (some x) k = err out_of_fuel
scan (suc n) tree links (some x) k =
    examine tree x k >>= λ k1. or_fail (links x) out_of_range >>= λ l. scan n tree links l.next k1

unfoldable pub evict :
    RequestContext
    → RadixTree
    → BaselineMemoryLruPolicy
    → Result (MemoryEvictionDecision × BaselineMemoryLruPolicy)
unfolding scan
evict request tree s = do
  k ←
      scan tree.nodes.size tree s.links s.head
        (record { seen_segments = []; victim = none; examined = s.candidates_examined })
  v ← or_fail k.victim undefined
  ok (
    record {
      leaf_segment_endpoint = v;
      action = dump;
      reclaim_parent = true;
      max_eviction_blocks = none;
    },
    record s { candidates_examined = k.examined },
  )

unfoldable pub new_policy : Bool → BaselineMemoryLruPolicy
new_policy admit = record {
  admit_storage_hits = admit;
  head = none;
  tail = none;
  links = λ k. none;
  candidates_examined = 0;
}

-- The policy object as an instance of the interface; the hooks that it does not override do nothing.
abbrev pub baseline_memory_lru : MemoryPolicy
baseline_memory_lru = record {
  State = BaselineMemoryLruPolicy;
  on_request_begin = λ r t s. ok s;
  on_request_end = λ r t s. ok s;
  on_node_created = λ n t s. ok s;
  on_node_pruned = λ n p t s. ok s;
  admit_storage_hit = λ a n t s. s.admit_storage_hits;
  evict = evict;
  on_commit = λ m t s. on_commit m s;
}
