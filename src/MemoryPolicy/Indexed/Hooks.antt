-- ===== src/MemoryPolicy/Indexed/Hooks.antt =====
-- The hooks of `IndexedMemoryLruPolicy`: the tree's topology and the memory's mutations.
use dwpdsim.Base.{
  ℕ, true, false, List, [], ◌∷◌, Option, none, some, Result, ok, out_of_range, undefined, for_each,
  ◌>>=◌, or_fail, Map, insert, erase, Key, insert_key, erase_key, add64, ◌==◌, if◌then◌else◌,
}
use dwpdsim.Types.{NodeId}
use dwpdsim.RadixTree.{RadixTree, parent, child_count}
use dwpdsim.RadixTree.Walks.{resolve_segment, segment_leaf_for}
use dwpdsim.MemoryPolicy.{MemoryMutation, MemoryMutationKind, inserted, accessed, removed}
use dwpdsim.MemoryPolicy.Indexed.{
  IndexedMemoryLruPolicy, Resident, Segment, ensure_segment, unpublish, publish, change_segment,
  move_endpoint, change_ancestors,
}

abbrev pub with_members : (List Key → List Key) → Segment → Segment
with_members f g = record g { members = f g.members }

abbrev pub count_move : IndexedMemoryLruPolicy → IndexedMemoryLruPolicy
count_move s = record s {
  work = record s.work { topology_member_moves = add64 s.work.topology_member_moves 1 };
}

-- The members of the segment above go to the one below: `residents_.at(...)` for each.
unfoldable pub adopt : ℕ → Key → IndexedMemoryLruPolicy → Result IndexedMemoryLruPolicy
adopt b key s = do
  r ← or_fail (s.residents key.1) out_of_range
  ok (count_move (record s { residents = insert key.1 (record r { segment = b }) s.residents }))

abbrev pub merge_keys : List Key → List Key → List Key
merge_keys [] into = into
merge_keys (k ∷ ks) into = merge_keys ks (insert_key k into)

unfoldable pub merge_segments :
    NodeId → ℕ → ℕ → IndexedMemoryLruPolicy → Result IndexedMemoryLruPolicy
unfolding unpublish publish adopt for_each
merge_segments prefix a b given = do
  s1 ← unpublish a given
  s2 ← unpublish b s1
  g ← or_fail (s2.segments a) out_of_range
  s3 ← for_each g.members (adopt b) s2
  s4 ← change_segment b (with_members (merge_keys g.members)) s3
  publish b (record s4 { endpoints = erase prefix s4.endpoints; segments = erase a s4.segments })

unfoldable pub merge : NodeId → NodeId → IndexedMemoryLruPolicy → Result IndexedMemoryLruPolicy
unfolding move_endpoint merge_segments
merge prefix suffix s = elim (s.endpoints prefix) [
  | none ↦ ok s
  | some a ↦ elim (s.endpoints suffix) [
    | none ↦ move_endpoint a suffix s
    | some b ↦ merge_segments prefix a b s
  ]
]

-- What the split of a segment carries: the handles above and below, once a resident was met.
pub record Split : Type 0 where
  pub policy : IndexedMemoryLruPolicy
  pub handles : Option (ℕ × ℕ)

abbrev count_node : IndexedMemoryLruPolicy → IndexedMemoryLruPolicy
count_node s = record s {
  work = record s.work { topology_nodes_examined = add64 s.work.topology_nodes_examined 1 };
}

-- The handles of the suffix and the prefix: at the first resident, the suffix leaves its group.
unfoldable pub open_split :
    NodeId
    → Resident
    → Option (ℕ × ℕ)
    → IndexedMemoryLruPolicy
    → Result ((ℕ × ℕ) × IndexedMemoryLruPolicy)
unfolding unpublish ensure_segment
open_split up r (some handles) s = ok (handles, s)
open_split up r none s = do
  s1 ← unpublish r.segment s
  out ← ensure_segment up s1
  ok ((out.0, r.segment), out.1)

-- One block of the prefix.
unfoldable pub split_member : NodeId → NodeId → Split → Result Split
unfolding open_split
split_member up x given =
    let c = count_node given.policy in
    elim (c.residents x) [
      | none ↦ ok (record given { policy = c })
      | some r ↦ do
        out ← open_split up r given.handles c
        let key : Key = (r.recency, x)
        s1 ← change_segment out.0.1 (with_members (erase_key key)) out.1
        s2 ← change_segment out.0.0 (with_members (insert_key key)) s1
        ok (record {
          policy =
              count_move
                (record s2 { residents = insert x (record r { segment = out.0.0 }) s2.residents });
          handles = some out.0;
        })
    ]

unfoldable pub split_segment :
    NodeId → RadixTree → IndexedMemoryLruPolicy → Result IndexedMemoryLruPolicy
unfolding split_member publish for_each
split_segment up tree s = do
  nodes ← resolve_segment tree up
  k ← for_each nodes (split_member up) (record { policy = s; handles = none })
  elim k.handles [ none ↦ ok k.policy | some h ↦ do s1 ← publish h.1 k.policy; publish h.0 s1 ]

unfoldable pub on_node_created :
    NodeId → RadixTree → IndexedMemoryLruPolicy → Result IndexedMemoryLruPolicy
unfolding move_endpoint split_segment
on_node_created x tree s = parent tree x >>= λ p. elim p [
  | none ↦ ok s
  | some up ↦ do
    n ← child_count tree up
    if n == 1
        then elim (s.endpoints up) [ none ↦ ok s | some h ↦ move_endpoint h x s ]
        else (if n == 2 then split_segment up tree s else ok s)
]

unfoldable pub on_node_pruned :
    NodeId → Option NodeId → RadixTree → IndexedMemoryLruPolicy → Result IndexedMemoryLruPolicy
unfolding move_endpoint merge
on_node_pruned x none tree s = ok s
on_node_pruned x (some up) tree s = do
  n ← child_count tree up
  if n == 0
      then elim (s.endpoints x) [ none ↦ ok s | some h ↦ move_endpoint h up s ]
      else (if n == 1 then (segment_leaf_for tree up >>= λ leaf. merge up leaf s) else ok s)

unfoldable pub insert_block :
    NodeId → RadixTree → IndexedMemoryLruPolicy → Result IndexedMemoryLruPolicy
unfolding ensure_segment unpublish publish change_ancestors
insert_block x tree given = do
  leaf ← segment_leaf_for tree x
  out ← ensure_segment leaf given
  s ← unpublish out.0 out.1
  let sequence = add64 s.next_recency 1
  let fresh : Resident = record { recency = sequence; segment = out.0 }
  let residents : Map Resident = elim (s.residents x) [
    | none ↦ insert x fresh s.residents
    | some r ↦ s.residents
  ]
  s1 ←
      change_segment out.0 (with_members (insert_key (sequence, x)))
        (record s { next_recency = sequence; residents = residents })
  s2 ← change_ancestors tree x true s1
  publish out.0 s2

-- The end of a mutation of a resident: it becomes the most recent one, or it is forgotten.
unfoldable pub settle_block :
    MemoryMutationKind
    → NodeId
    → Resident
    → RadixTree
    → IndexedMemoryLruPolicy
    → Result IndexedMemoryLruPolicy
unfolding change_ancestors
settle_block accessed x r tree s =
    let sequence = add64 s.next_recency 1 in
    change_segment r.segment (with_members (insert_key (sequence, x))) (record s {
      next_recency = sequence;
      residents = insert x (record r { recency = sequence }) s.residents;
    })
settle_block kind x r tree s = do
  s1 ← change_ancestors tree x false s
  ok (record s1 { residents = erase x s1.residents })

unfoldable pub change_block :
    MemoryMutationKind → NodeId → RadixTree → IndexedMemoryLruPolicy → Result IndexedMemoryLruPolicy
unfolding unpublish publish settle_block
change_block kind x tree given = do
  r ← or_fail (given.residents x) undefined
  s ← unpublish r.segment given
  s1 ← change_segment r.segment (with_members (erase_key (r.recency, x))) s
  s2 ← settle_block kind x r tree s1
  publish r.segment s2

unfoldable pub on_commit :
    MemoryMutation → RadixTree → IndexedMemoryLruPolicy → Result IndexedMemoryLruPolicy
unfolding insert_block change_block
on_commit m tree s = elim m.kind [
  | inserted ↦ insert_block m.node_id tree s
  | accessed ↦ change_block accessed m.node_id tree s
  | removed ↦ change_block removed m.node_id tree s
]
