-- ===== src/StoragePolicy/RoundRobin/Decisions.antt =====
-- The decisions and hooks of `WearShareRoundRobinStoragePolicy`.
use dwpdsim.Base.{
  ℕ, suc, Bool, true, false, not, List, [], ◌∷◌, Option, none, some, Result, ok, err,
  invalid_argument, logic_error, undefined, ◌>>=◌, for_each, Key, add64, to_u32, ◌==◌, ◌&&◌, ◌||◌,
  ◌%◌, if◌then◌else◌,
}
use dwpdsim.Types.{NodeId, StorageTier, Placement, slc, tlc, at_tier, change_tier}
use dwpdsim.RadixTree.{RadixTree, node, parent, child_count}
use dwpdsim.RadixTree.Walks.{children, segment_leaf_for, has_storage_descendant}
use dwpdsim.StorageView.{StorageView, intersects_protected}
use dwpdsim.StoragePolicy.{
  StoragePolicy, DumpContext, CapacityPressureContext, StorageActionIntent, trim, StorageMutation,
  StorageMutationKind, dump_write_committed, capacity_trim_committed, storage_access_committed,
}
use dwpdsim.StoragePolicy.Entries
use dwpdsim.StoragePolicy.Entries.{new_state}
use dwpdsim.StoragePolicy.Searches.{SegmentTime, lru_leaf}
use dwpdsim.StoragePolicy.Fused.{lru_leaf_fused}
use dwpdsim.Floats.{Floats}
use dwpdsim.StoragePolicy.RoundRobin.{
  VictimSearch, scan, fused, indexed, other, RoundRobinConfig, Segment, SegmentIndex,
  RoundRobinPolicy, erase_segment, refresh_segment, change_ancestors,
}

abbrev fresh_policy : {F : Type 0} → RoundRobinConfig F → RoundRobinPolicy F
fresh_policy c = record {
  config = c;
  index = record { segments = λ n. none; candidates = record { slc_part = []; tlc_part = [] } };
  subtree_storage = λ n. none;
  program_bytes = record { slc_part = 0; tlc_part = 0 };
  write_segments = record { slc_part = 0; tlc_part = 0 };
  state = new_state;
}

unfoldable pub new_policy : {F : Type 0} → RoundRobinConfig F → Result (RoundRobinPolicy F)
new_policy c = elim c.victim_search [
  | other ↦ err invalid_argument
  | scan ↦ ok (fresh_policy c)
  | fused ↦ ok (fresh_policy c)
  | indexed ↦ ok (fresh_policy c)
]

-- `next_stream`: a remainder by 0 is undefined.
unfoldable pub next_stream :
    {F : Type 0} → StorageTier → StorageView → RoundRobinPolicy F → Result ℕ
next_stream tier view s =
    let count = (at_tier tier view.storage).stream_count in
    if count == 0 then err undefined else ok (to_u32 (at_tier tier s.write_segments % count))

module _ {F : Type 0} (M : Floats F) where
  unfoldable pub choose_tier : DumpContext → RoundRobinPolicy F → StorageTier
  choose_tier dump s =
      let written = M.of_nat dump.write_bytes in
      let slc_score =
        M.over (M.plus (M.of_nat s.program_bytes.slc_part) written) s.config.slc_host_share in
      let tlc_score =
        M.over (M.plus (M.of_nat s.program_bytes.tlc_part) written)
          (M.minus (M.literal 1 1) s.config.slc_host_share) in
      if M.is_at_most slc_score tlc_score then slc else tlc

  unfoldable pub place_dump : DumpContext → StorageView → RoundRobinPolicy F → Result Placement
  unfolding choose_tier next_stream
  place_dump dump view s = do
    stream ← next_stream (choose_tier dump s) view s
    ok (record { tier = choose_tier dump s; stream_id = stream })

  unfoldable pub capacity_limit_blocks : StorageTier → StorageView → RoundRobinPolicy F → ℕ
  capacity_limit_blocks tier view s = M.to_nat (
      M.times (M.of_nat (at_tier tier view.storage).capacity_blocks) s.config.logical_fill_fraction)

abbrev count_of : Option ℕ → ℕ
count_of none = 0
count_of (some n) = n

-- Whether a segment has resident blocks below it, by the counts or by the tree.
unfoldable pub is_covered : {F : Type 0} → NodeId → StorageView → RoundRobinPolicy F → Result Bool
is_covered endpoint view s =
    if s.config.subtree_counts
    then (do
      n ← node view.tree endpoint
      ok (not (count_of (s.subtree_storage endpoint) == (if n.on_storage then 1 else 0))))
    else has_storage_descendant view.tree endpoint

-- The first candidate that is not covered and has no protected node.
unfoldable pub first_candidate :
    {F : Type 0}
    → List NodeId
    → StorageView
    → RoundRobinPolicy F
    → List Key
    → Result (Option SegmentTime)
unfolding is_covered
first_candidate protected_nodes view s [] = ok none
first_candidate protected_nodes view s (k ∷ ks) = is_covered k.1 view s >>= λ covered.
    elim covered [
      | true ↦ first_candidate protected_nodes view s ks
      | false ↦ intersects_protected view k.1 protected_nodes >>= λ hit. elim hit [
        | true ↦ first_candidate protected_nodes view s ks
        | false ↦ ok (some (record { endpoint = k.1; timestamp_ns = k.0 }))
      ]
    ]

unfoldable pub indexed_victim :
    {F : Type 0}
    → CapacityPressureContext
    → StorageView
    → RoundRobinPolicy F
    → Result (Option SegmentTime)
unfolding first_candidate
indexed_victim pressure view s =
    first_candidate pressure.protected_nodes view s
      (at_tier pressure.target_tier s.index.candidates)

abbrev same_victim : Option SegmentTime → Option SegmentTime → Bool
same_victim none none = true
same_victim (some a) (some b) = a.endpoint == b.endpoint && a.timestamp_ns == b.timestamp_ns
same_victim none (some b) = false
same_victim (some a) none = false

unfoldable pub find_victim :
    {F : Type 0}
    → CapacityPressureContext
    → StorageView
    → RoundRobinPolicy F
    → Result (Option SegmentTime)
unfolding indexed_victim
find_victim pressure view s = elim s.config.victim_search [
  | indexed ↦ indexed_victim pressure view s
  | fused ↦ lru_leaf_fused s.state pressure.target_tier pressure.protected_nodes view
  | scan ↦ lru_leaf s.state pressure.target_tier pressure.protected_nodes view
  | other ↦ lru_leaf s.state pressure.target_tier pressure.protected_nodes view
]

-- `verify_victims` compares each victim with that of the scan.
unfoldable pub verified :
    {F : Type 0}
    → CapacityPressureContext
    → StorageView
    → RoundRobinPolicy F
    → Option SegmentTime
    → Result (Option SegmentTime)
verified pressure view s victim =
    if s.config.verify_victims
    then (do
      wanted ← lru_leaf s.state pressure.target_tier pressure.protected_nodes view
      if same_victim victim wanted then ok victim else err logic_error)
    else ok victim

unfoldable pub reclaim_for :
    {F : Type 0}
    → CapacityPressureContext
    → StorageView
    → RoundRobinPolicy F
    → Result (Option StorageActionIntent)
unfolding find_victim verified
reclaim_for pressure view s = do
  found ← find_victim pressure view s
  victim ← verified pressure view s found
  ok (elim victim [
    | none ↦ none
    | some v ↦ some (trim (record { segment_endpoint = v.endpoint; tier = pressure.target_tier }))
  ])

abbrev pub is_insertion : StorageMutationKind → Bool
is_insertion dump_write_committed = true
is_insertion kind = false

abbrev pub is_trim : StorageMutationKind → Bool
is_trim capacity_trim_committed = true
is_trim kind = false

abbrev pub is_access : StorageMutationKind → Bool
is_access storage_access_committed = true
is_access kind = false

-- What a mutation does to the counts of the ancestors and to the index.
unfoldable pub index_mutation :
    {F : Type 0} → StorageMutation → RadixTree → RoundRobinPolicy F → Result (RoundRobinPolicy F)
unfolding change_ancestors refresh_segment for_each
index_mutation m tree s = do
  counts ←
      if s.config.subtree_counts && (is_insertion m.kind || is_trim m.kind)
      then for_each m.nodes
          (λ x c. change_ancestors (suc tree.nodes.size) tree (is_insertion m.kind) (some x) c)
          s.subtree_storage
      else ok s.subtree_storage
  if is_insertion m.kind || (is_trim m.kind || is_access m.kind)
      then (do
        leaf ← segment_leaf_for tree m.segment_endpoint
        x ← refresh_segment leaf tree s.index
        ok (record s { subtree_storage = counts; index = x }))
      else ok (record s { subtree_storage = counts })

abbrev pub is_indexed : VictimSearch → Bool
is_indexed indexed = true
is_indexed search = false

unfoldable pub on_commit :
    {F : Type 0} → StorageMutation → StorageView → RoundRobinPolicy F → Result (RoundRobinPolicy F)
unfolding index_mutation
on_commit m view s = do
  t ←
      if not (is_indexed s.config.victim_search) || s.config.verify_victims
      then Entries.on_commit m s.state
      else ok s.state
  let p = record s {
    state = t;
    program_bytes =
        if is_insertion m.kind
        then change_tier m.placement.tier (λ b. add64 b m.bytes) s.program_bytes
        else s.program_bytes;
    write_segments =
        if is_insertion m.kind
        then change_tier m.placement.tier (λ b. add64 b 1) s.write_segments
        else s.write_segments;
  }
  if is_indexed s.config.victim_search then index_mutation m view.tree p else ok p

abbrev has_segment : Option Segment → Bool
has_segment none = false
has_segment (some g) = true

-- A segment that got a second child is split.
unfoldable pub split_index : NodeId → NodeId → RadixTree → SegmentIndex → Result SegmentIndex
unfolding refresh_segment
split_index node_id up tree x = do
  below ← children tree up
  sibling ← elim below [
    | a ∷ b ∷ rest ↦ ok (if a == node_id then b else a)
    | a ∷ [] ↦ err undefined
    | [] ↦ err undefined
  ]
  suffix ← segment_leaf_for tree sibling
  if has_segment (x.segments suffix)
      then (do y ← refresh_segment up tree x; refresh_segment suffix tree y)
      else ok x

unfoldable pub index_created : NodeId → RadixTree → SegmentIndex → Result SegmentIndex
unfolding refresh_segment erase_segment split_index
index_created node_id tree x = parent tree node_id >>= λ p. elim p [
  | none ↦ ok x
  | some up ↦ do
    n ← child_count tree up
    if n == 1
        then (if has_segment (x.segments up)
            then refresh_segment node_id tree (erase_segment up x)
            else ok x)
        else (if n == 2 then split_index node_id up tree x else ok x)
]

unfoldable pub index_pruned :
    NodeId → Option NodeId → RadixTree → SegmentIndex → Result SegmentIndex
unfolding refresh_segment erase_segment
index_pruned node_id none tree x = ok (erase_segment node_id x)
index_pruned node_id (some up) tree x =
    let y = erase_segment node_id x in
    do
      n ← child_count tree up
      if n == 0
          then (if has_segment (x.segments node_id) then refresh_segment up tree y else ok y)
          else (if n == 1
              then (do
                suffix ← segment_leaf_for tree up
                if has_segment (y.segments up) || has_segment (y.segments suffix)
                    then refresh_segment suffix tree (erase_segment up y)
                    else ok y)
              else ok y)

abbrev on_index :
    {F : Type 0}
    → (SegmentIndex → Result SegmentIndex)
    → RoundRobinPolicy F
    → Result (RoundRobinPolicy F)
on_index f s =
    if is_indexed s.config.victim_search
    then (do x ← f s.index; ok (record s { index = x }))
    else ok s

abbrev pub wear_share_round_robin : {F Feedback : Type 0} → Floats F → StoragePolicy Feedback
wear_share_round_robin {F} M = record {
  State = RoundRobinPolicy F;
  background_period_ns = λ s. 0;
  on_request_begin = λ r v s. ok s;
  on_node_created = λ n v s. on_index (index_created n v.tree) s;
  on_node_pruned = λ n p v s. on_index (index_pruned n p v.tree) s;
  on_shadow_feedback = λ f v s. ok s;
  place_dump = λ d v s. place_dump M d v s;
  capacity_limit_blocks = λ t v s. capacity_limit_blocks M t v s;
  reclaim_for = λ p v s. do
    a ← reclaim_for p v s
    ok (a, s);
  next_background_action = λ t v s. ok (none, s);
  on_storage_access = λ a v s. ok (none, s);
  on_commit = λ m v s. on_commit m v s;
}
