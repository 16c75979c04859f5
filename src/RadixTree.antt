-- ===== src/RadixTree.antt =====
-- cpp/include/dwpdsim/radix_tree.hpp and cpp/src/radix_tree.cpp: the tree of prefix blocks, kept in
-- a vector of records that are linked by slots. Slot 0 is the root and carries no node.
-- `node_index_.find(x)->second` for a missing `x`, and a vector index out of range, are undefined in
-- the source: `err undefined`.
pub mod Walks
pub mod Updates
pub mod Slots
pub mod Creation
use dwpdsim.Base.{
  ℕ, suc, zero, Bool, true, false, List, [], ◌∷◌, Option, none, some, Result, ok, err, Error,
  undefined, out_of_fuel, ◌>>=◌, or_fail, Map, insert, erase, Vector, read, write, modify,
  push_back, add64, sub64, add32, sub32, to_u32, ◌==◌, ◌&&◌, ◌||◌, if◌then◌else◌, leb, ltb, same,
}
use dwpdsim.Types.{HashId, NodeId, NodeSlot, TimestampNs, Node, StorageTier, slc, invalid_node_slot}

pub record NodeRecord : Type 0 where
  pub node : Node
  pub parent : NodeSlot
  pub first_child : NodeSlot
  pub previous_sibling : NodeSlot
  pub next_sibling : NodeSlot
  pub child_count : ℕ

pub record RadixTree : Type 0 where
  pub nodes : Vector NodeRecord
  pub node_index : Map NodeSlot
  pub detached_index : Map NodeSlot
  pub free_slots : List NodeSlot
  pub active_nodes : ℕ

abbrev pub root_slot : NodeSlot
root_slot = 0

abbrev pub default_node : Node
default_node = record {
  hash_id = 0;
  first_seen_timestamp_ns = 0;
  last_access_timestamp_ns = 0;
  last_hit_timestamp_ns = 0;
  access_count = 0;
  storage_block_address = 0;
  storage_stream_id = 0;
  storage_tier = slc;
  in_memory = false;
  on_storage = false;
  has_last_hit = false;
  storage_last_access_timestamp_ns = 0;
}

abbrev pub default_record : NodeRecord
default_record = record {
  node = default_node;
  parent = invalid_node_slot;
  first_child = invalid_node_slot;
  previous_sibling = invalid_node_slot;
  next_sibling = invalid_node_slot;
  child_count = 0;
}

-- The constructor: the root's record alone.
unfoldable pub new_tree : RadixTree
new_tree = record {
  nodes = record { size = 1; cell = λ i. default_record };
  node_index = λ h. none;
  detached_index = λ h. none;
  free_slots = [];
  active_nodes = 0;
}

unfoldable pub slot : RadixTree → NodeId → Result NodeSlot
slot t h = or_fail (t.node_index h) undefined

unfoldable pub id : RadixTree → NodeSlot → Result NodeId
id t s = do r ← read t.nodes s; ok r.node.hash_id

-- The slot for a new node: the last one freed, or a new cell of the vector.
abbrev pub take_slot : RadixTree → List NodeSlot → NodeSlot × RadixTree
take_slot t [] = (to_u32 t.nodes.size, record t { nodes = push_back t.nodes default_record })
take_slot t (s ∷ rest) = (s, record t { free_slots = rest })

abbrev pub new_record : HashId → TimestampNs → NodeSlot → NodeRecord
new_record h now parent_slot = record default_record {
  node = record default_node { hash_id = h; first_seen_timestamp_ns = now };
  parent = parent_slot;
}

abbrev pub set_previous : NodeSlot → NodeRecord → NodeRecord
set_previous s r = record r { previous_sibling = s }

abbrev pub set_next : NodeSlot → NodeRecord → NodeRecord
set_next s r = record r { next_sibling = s }

abbrev pub set_first_child : NodeSlot → NodeRecord → NodeRecord
set_first_child s r = record r { first_child = s }

abbrev pub add_child : NodeSlot → NodeRecord → NodeRecord
add_child s r = record r { first_child = s; child_count = add32 r.child_count 1 }

-- The writes that put a record at the front of its parent's children.
unfoldable pub link_front : Vector NodeRecord → NodeSlot → NodeSlot → Result (Vector NodeRecord)
link_front v s parent_slot = do
  parent ← read v parent_slot
  v1 ← modify v s (set_next parent.first_child)
  v2 ←
      if parent.first_child == invalid_node_slot
      then ok v1
      else modify v1 parent.first_child (set_previous s)
  modify v2 parent_slot (add_child s)

unfoldable pub create_at : RadixTree → NodeSlot → NodeSlot → HashId → TimestampNs → Result RadixTree
unfolding link_front
create_at t s parent_slot h now = do
  v ← write t.nodes s (new_record h now parent_slot)
  w ← link_front v s parent_slot
  ok (record t {
    nodes = w;
    node_index = insert h s t.node_index;
    active_nodes = add64 t.active_nodes 1;
  })

unfoldable pub get_or_create_at :
    RadixTree → NodeSlot → HashId → TimestampNs → Result (NodeId × Bool × RadixTree)
unfolding create_at
get_or_create_at t parent_slot h now = elim (t.node_index h) [
  | some s ↦ ok (h, false, t)
  | none ↦ do
    let st = take_slot t t.free_slots
    t' ← create_at st.1 st.0 parent_slot h now
    ok (h, true, t')
]

unfoldable pub get_or_create_root :
    RadixTree → HashId → TimestampNs → Result (NodeId × Bool × RadixTree)
get_or_create_root t h now = get_or_create_at t root_slot h now

unfoldable pub get_or_create :
    RadixTree → NodeId → HashId → TimestampNs → Result (NodeId × Bool × RadixTree)
get_or_create t parent_id h now = do s ← slot t parent_id; get_or_create_at t s h now

unfoldable pub has_node : RadixTree → NodeId → Bool
has_node t h = elim (t.node_index h) [ none ↦ false | some s ↦ true ]

unfoldable pub find : RadixTree → HashId → Option NodeId
find t h = elim (t.node_index h) [ none ↦ none | some s ↦ some h ]

unfoldable pub find_root_child : RadixTree → HashId → Result (Option NodeId)
find_root_child t h = elim (t.node_index h) [
  | none ↦ ok none
  | some s ↦ do r ← read t.nodes s; ok (if r.parent == root_slot then some h else none)
]

unfoldable pub find_child : RadixTree → NodeId → HashId → Result (Option NodeId)
unfolding slot
find_child t parent_id h = elim (t.node_index h) [
  | none ↦ ok none
  | some s ↦ do
    r ← read t.nodes s
    p ← slot t parent_id
    ok (if r.parent == p then some h else none)
]

unfoldable pub node_record : RadixTree → NodeId → Result NodeRecord
unfolding slot
node_record t h = do s ← slot t h; read t.nodes s

unfoldable pub node : RadixTree → NodeId → Result Node
unfolding node_record
node t h = do r ← node_record t h; ok r.node

-- A write through the reference that `node` returns.
unfoldable pub modify_node : RadixTree → NodeId → (Node → Node) → Result RadixTree
unfolding slot
modify_node t h f = do
  s ← slot t h
  v ← modify t.nodes s (λ r. record r { node = f r.node })
  ok (record t { nodes = v })

unfoldable pub parent : RadixTree → NodeId → Result (Option NodeId)
unfolding node_record id
parent t h = do
  r ← node_record t h
  if r.parent == root_slot then ok none else (do p ← id t r.parent; ok (some p))

unfoldable pub child_count : RadixTree → NodeId → Result ℕ
unfolding node_record
child_count t h = do r ← node_record t h; ok r.child_count

unfoldable pub is_leaf : RadixTree → NodeId → Result Bool
unfolding child_count
is_leaf t h = do n ← child_count t h; ok (n == 0)

unfoldable pub size : RadixTree → ℕ
size t = t.active_nodes
