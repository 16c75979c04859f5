-- ===== src/RadixTree/Updates.antt =====
-- cpp/src/radix_tree.cpp: recording an access, taking a leaf out of the tree and freeing its slot.
use dwpdsim.Base.{
  ℕ, Bool, true, ◌∷◌, Option, none, some, Result, ok, undefined, ◌>>=◌, or_fail, insert, erase,
  Vector, read, write, modify, add64, sub64, sub32, ◌==◌, if◌then◌else◌,
}
use dwpdsim.Types.{NodeId, Node, TimestampNs, invalid_node_slot}
use dwpdsim.RadixTree.{
  NodeRecord, RadixTree, slot, id, root_slot, modify_node, set_previous, set_next, set_first_child,
  default_record,
}

abbrev pub touch : TimestampNs → Bool → Node → Node
touch now hit n =
    let n1 = record n { last_access_timestamp_ns = now; access_count = add64 n.access_count 1 } in
    if hit then record n1 { last_hit_timestamp_ns = now; has_last_hit = true } else n1

unfoldable pub record_access : RadixTree → NodeId → TimestampNs → Bool → Result RadixTree
unfolding modify_node
record_access t h now hit = modify_node t h (touch now hit)

abbrev pub drop_child : NodeRecord → NodeRecord
drop_child r = record r { child_count = sub32 r.child_count 1 }

-- The writes that take a record out of its parent's list of children. The fields of the record are
-- read before the writes; none of these goes to the record itself.
unfoldable pub unlink : Vector NodeRecord → NodeRecord → Result (Vector NodeRecord)
unlink v r = do
  v1 ←
      if r.previous_sibling == invalid_node_slot
      then modify v r.parent (set_first_child r.next_sibling)
      else modify v r.previous_sibling (set_next r.next_sibling)
  v2 ←
      if r.next_sibling == invalid_node_slot
      then ok v1
      else modify v1 r.next_sibling (set_previous r.previous_sibling)
  modify v2 r.parent drop_child

-- `emplace` keeps an entry that is there already.
unfoldable pub emplace {ℓ} : {V : Type ℓ} → ℕ → V → (ℕ → Option V) → ℕ → Option V
emplace k v m = elim (m k) [ none ↦ insert k v m | some w ↦ m ]

unfoldable pub detach_leaf : RadixTree → NodeId → Result (Option NodeId × RadixTree)
unfolding slot unlink emplace id
detach_leaf t h = do
  s ← slot t h
  r ← read t.nodes s
  v ← unlink t.nodes r
  let t' = record t {
    nodes = v;
    node_index = erase h t.node_index;
    detached_index = emplace h s t.detached_index;
    active_nodes = sub64 t.active_nodes 1;
  }
  if r.parent == root_slot then ok (none, t') else (do p ← id t' r.parent; ok (some p, t'))

unfoldable pub release_detached : RadixTree → NodeId → Result RadixTree
release_detached t h = do
  s ← or_fail (t.detached_index h) undefined
  v ← write t.nodes s default_record
  ok (record t {
    nodes = v;
    detached_index = erase h t.detached_index;
    free_slots = s ∷ t.free_slots;
  })
