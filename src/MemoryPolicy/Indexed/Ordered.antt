-- ===== src/MemoryPolicy/Indexed/Ordered.antt =====
-- Every hook of the policy keeps its groups in order.
use dwpdsim.Base.{
  Bool-cases, inl, inr, ltb→lt, ℕ, suc, zero, ◌<◌, Bool, true, false, List, Option, none, some, ok,
  arith, Key, Ascends, insert_key, erase_key, insert_key-Ascends, erase_key-Ascends, ltb, ◌==◌,
  ◌||◌, modify, Ensures, returns, fails, Ensures-bind, Ensures-after, Ensures-if, Ensures-if_known,
  Ensures-option, Ensures-for_each, if◌then◌else◌, or_fail, out_of_range, undefined,
  invalid_argument, ◌>>=◌,
}
use dwpdsim.Types.{NodeId, TimestampNs}
use dwpdsim.RadixTree.{RadixTree, parent, child_count}
use dwpdsim.RadixTree.Walks.{resolve_segment, segment_leaf_for}
use dwpdsim.MemoryPolicy.{MemoryMutation, MemoryMutationKind, inserted, accessed, removed}
use dwpdsim.MemoryPolicy.Indexed.{
  IndexedMemoryLruPolicy, Resident, Segment, new_policy, ensure_segment, last_key, unpublish,
  publish, changed_count, change_segment, move_endpoint, change_from, change_ancestors,
}
use dwpdsim.MemoryPolicy.Indexed.Hooks.{
  adopt, merge_segments, merge, Split, open_split, split_member, split_segment, on_node_created,
  on_node_pruned, insert_block, settle_block, change_block, on_commit,
}
use dwpdsim.MemoryPolicy.Indexed.Victims.{IsIndexed}

modified-IsIndexed :
    (s : IndexedMemoryLruPolicy) (g : ℕ) (f : List Key → List Key)
    → IsIndexed s
    → ((l : List Key) → Ascends l → Ascends (f l))
    → Ensures IsIndexed (modify s.groups g f >>= λ v. ok (record s { groups = v }))
unfolding ◌>>=◌
modified-IsIndexed s g f x h = elim (Bool-cases (ltb g s.groups.size)) [
  | inl t ↦ rw t (
      returns (record {
        has_groups = x.has_groups;
        has_workers = x.has_workers;
        in_sample = x.in_sample;
        ordered = λ i l. one i (i == g) (ltb→lt g s.groups.size t) l;
      }))
  | inr t ↦ rw t fails
]
  where
    one :
        (i : ℕ) (b : Bool)
        → g < s.groups.size
        → i < s.groups.size
        → Ascends (if b then f (s.groups.cell g) else s.groups.cell i)
    one i true m l = h (s.groups.cell g) (x.ordered g m)
    one i false m l = x.ordered i l

unpublish-IsIndexed :
    (handle : ℕ) (s : IndexedMemoryLruPolicy) → IsIndexed s → Ensures IsIndexed (unpublish handle s)
unfolding unpublish
unpublish-IsIndexed handle s x = Ensures-after (or_fail (s.segments handle) out_of_range) (λ g.
    Ensures-option (last_key g.members) (returns x) (λ k.
      modified-IsIndexed s g.group (erase_key (k.0, g.endpoint)) x
        (erase_key-Ascends (k.0, g.endpoint))))

publish-IsIndexed :
    (handle : ℕ) (s : IndexedMemoryLruPolicy) → IsIndexed s → Ensures IsIndexed (publish handle s)
unfolding publish
publish-IsIndexed handle s x = Ensures-after (or_fail (s.segments handle) out_of_range) (λ g.
    Ensures-option (last_key g.members) (returns x) (λ k.
      modified-IsIndexed s g.group (insert_key (k.0, g.endpoint)) x
        (insert_key-Ascends (k.0, g.endpoint))))

changed-IsIndexed :
    (handle : ℕ) (f : Segment → Segment) (s : IndexedMemoryLruPolicy)
    → IsIndexed s
    → Ensures IsIndexed (change_segment handle f s)
changed-IsIndexed handle f s x =
    Ensures-after (or_fail (s.segments handle) out_of_range) (λ g. returns x)

ensure_segment-IsIndexed :
    (endpoint : NodeId) (s : IndexedMemoryLruPolicy)
    → IsIndexed s
    → Ensures (λ out. IsIndexed out.1) (ensure_segment endpoint s)
unfolding ensure_segment
ensure_segment-IsIndexed endpoint s x =
    Ensures-option (s.endpoints endpoint)
      (Ensures-if (s.groups.size == 0) (fails {e = undefined}) (returns x)) (λ h. returns x)

move_endpoint-IsIndexed :
    (handle : ℕ) (endpoint : NodeId) (s : IndexedMemoryLruPolicy)
    → IsIndexed s
    → Ensures IsIndexed (move_endpoint handle endpoint s)
unfolding move_endpoint
move_endpoint-IsIndexed handle endpoint s x = Ensures-bind (unpublish-IsIndexed handle s x) (λ r y.
    Ensures-after (or_fail (r.segments handle) out_of_range) (λ g. publish-IsIndexed handle _ y))

change_from-IsIndexed :
    (n : ℕ) (tree : RadixTree) (b : Bool) (node : Option NodeId) (s : IndexedMemoryLruPolicy)
    → IsIndexed s
    → Ensures IsIndexed (change_from n tree b node s)
unfolding change_from
change_from-IsIndexed n tree b none s x = returns x
change_from-IsIndexed zero tree b (some node) s x = fails
change_from-IsIndexed (suc n) tree b (some node) s x =
    Ensures-after (changed_count b (s.subtree_memory node))
      (λ count. Ensures-after (parent tree node) (λ up. change_from-IsIndexed n tree b up _ x))

change_ancestors-IsIndexed :
    (tree : RadixTree) (node : NodeId) (b : Bool) (s : IndexedMemoryLruPolicy)
    → IsIndexed s
    → Ensures IsIndexed (change_ancestors tree node b s)
unfolding change_ancestors
change_ancestors-IsIndexed tree node b s x =
    change_from-IsIndexed (suc tree.nodes.size) tree b (some node) s x

merge_segments-IsIndexed :
    (prefix : NodeId) (a b : ℕ) (s : IndexedMemoryLruPolicy)
    → IsIndexed s
    → Ensures IsIndexed (merge_segments prefix a b s)
unfolding merge_segments adopt
merge_segments-IsIndexed prefix a b s x = Ensures-bind (unpublish-IsIndexed a s x) (λ s1 x1.
    Ensures-bind (unpublish-IsIndexed b s1 x1) (λ s2 x2.
      Ensures-after (or_fail (s2.segments a) out_of_range) (λ g.
        Ensures-bind
          (Ensures-for_each IsIndexed (adopt b)
            (λ key t y. Ensures-after (or_fail (t.residents key.1) out_of_range) (λ r. returns y))
            g.members s2 x2)
          (λ s3 x3.
            Ensures-bind (changed-IsIndexed b _ s3 x3) (λ s4 x4. publish-IsIndexed b _ x4)))))

merge-IsIndexed :
    (prefix suffix : NodeId) (s : IndexedMemoryLruPolicy)
    → IsIndexed s
    → Ensures IsIndexed (merge prefix suffix s)
unfolding merge
merge-IsIndexed prefix suffix s x = Ensures-option (s.endpoints prefix) (returns x) (λ a.
    Ensures-option (s.endpoints suffix) (move_endpoint-IsIndexed a suffix s x)
      (λ b. merge_segments-IsIndexed prefix a b s x))

open_split-IsIndexed :
    (up : NodeId) (r : Resident) (h : Option (ℕ × ℕ)) (s : IndexedMemoryLruPolicy)
    → IsIndexed s
    → Ensures (λ out. IsIndexed out.1) (open_split up r h s)
unfolding open_split
open_split-IsIndexed up r (some h) s x = returns x
open_split-IsIndexed up r none s x =
    Ensures-bind (unpublish-IsIndexed r.segment s x)
      (λ s1 x1. Ensures-bind (ensure_segment-IsIndexed up s1 x1) (λ out y. returns y))

split_member-IsIndexed :
    (up node : NodeId) (k : Split)
    → IsIndexed k.policy
    → Ensures (λ t. IsIndexed t.policy) (split_member up node k)
unfolding split_member
split_member-IsIndexed up node k x = Ensures-option (k.policy.residents node) (returns x) (λ r.
    Ensures-bind (open_split-IsIndexed up r k.handles _ x) (λ out y.
      Ensures-bind (changed-IsIndexed out.0.1 _ out.1 y)
        (λ s1 x1. Ensures-bind (changed-IsIndexed out.0.0 _ s1 x1) (λ s2 x2. returns x2))))

split_segment-IsIndexed :
    (up : NodeId) (tree : RadixTree) (s : IndexedMemoryLruPolicy)
    → IsIndexed s
    → Ensures IsIndexed (split_segment up tree s)
unfolding split_segment
split_segment-IsIndexed up tree s x = Ensures-after (resolve_segment tree up) (λ nodes.
    Ensures-bind
      (Ensures-for_each (λ t. IsIndexed t.policy) (split_member up)
        (λ node k y. split_member-IsIndexed up node k y) nodes
        (record { policy = s; handles = none }) x)
      (λ k y. Ensures-option k.handles (returns y) (λ h.
        Ensures-bind (publish-IsIndexed h.1 k.policy y) (λ s1 x1. publish-IsIndexed h.0 s1 x1))))

-- If the policy follows a new node of the tree and returns, there are groups and workers as before, and
-- the groups are in order.
pub on_node_created-IsIndexed :
    (node : NodeId) (tree : RadixTree) (s : IndexedMemoryLruPolicy)
    → IsIndexed s
    → Ensures IsIndexed (on_node_created node tree s)
unfolding on_node_created
on_node_created-IsIndexed node tree s x = Ensures-after (parent tree node) (λ p.
    Ensures-option p (returns x) (λ up. Ensures-after (child_count tree up) (λ n.
      Ensures-if (n == 1)
        (Ensures-option (s.endpoints up) (returns x) (λ h. move_endpoint-IsIndexed h node s x))
        (Ensures-if (n == 2) (split_segment-IsIndexed up tree s x) (returns x)))))

-- If the policy follows the loss of a node of the tree and returns, there are groups and workers as
-- before, and the groups are in order.
pub on_node_pruned-IsIndexed :
    (node : NodeId) (up : Option NodeId) (tree : RadixTree) (s : IndexedMemoryLruPolicy)
    → IsIndexed s
    → Ensures IsIndexed (on_node_pruned node up tree s)
unfolding on_node_pruned
on_node_pruned-IsIndexed node none tree s x = returns x
on_node_pruned-IsIndexed node (some up) tree s x = Ensures-after (child_count tree up) (λ n.
    Ensures-if (n == 0)
      (Ensures-option (s.endpoints node) (returns x) (λ h. move_endpoint-IsIndexed h up s x))
      (Ensures-if (n == 1)
        (Ensures-after (segment_leaf_for tree up) (λ leaf. merge-IsIndexed up leaf s x))
        (returns x)))

insert_block-IsIndexed :
    (node : NodeId) (tree : RadixTree) (s : IndexedMemoryLruPolicy)
    → IsIndexed s
    → Ensures IsIndexed (insert_block node tree s)
unfolding insert_block
insert_block-IsIndexed node tree s x = Ensures-after (segment_leaf_for tree node) (λ leaf.
    Ensures-bind (ensure_segment-IsIndexed leaf s x) (λ out y.
      Ensures-bind (unpublish-IsIndexed out.0 out.1 y) (λ s1 x1.
        Ensures-bind (changed-IsIndexed out.0 _ _ x1) (λ s2 x2.
          Ensures-bind (change_ancestors-IsIndexed tree node true s2 x2)
            (λ s3 x3. publish-IsIndexed out.0 s3 x3)))))

settle_block-IsIndexed :
    (kind : MemoryMutationKind) (node : NodeId) (r : Resident) (tree : RadixTree)
    (s : IndexedMemoryLruPolicy)
    → IsIndexed s
    → Ensures IsIndexed (settle_block kind node r tree s)
unfolding settle_block
settle_block-IsIndexed accessed node r tree s x = changed-IsIndexed r.segment _ _ x
settle_block-IsIndexed inserted node r tree s x =
    Ensures-bind (change_ancestors-IsIndexed tree node false s x) (λ s1 x1. returns x1)
settle_block-IsIndexed removed node r tree s x =
    Ensures-bind (change_ancestors-IsIndexed tree node false s x) (λ s1 x1. returns x1)

change_block-IsIndexed :
    (kind : MemoryMutationKind) (node : NodeId) (tree : RadixTree) (s : IndexedMemoryLruPolicy)
    → IsIndexed s
    → Ensures IsIndexed (change_block kind node tree s)
unfolding change_block
change_block-IsIndexed kind node tree s x =
    Ensures-after (or_fail (s.residents node) undefined) (λ r.
      Ensures-bind (unpublish-IsIndexed r.segment s x) (λ s1 x1.
        Ensures-bind (changed-IsIndexed r.segment _ s1 x1) (λ s2 x2.
          Ensures-bind (settle_block-IsIndexed kind node r tree s2 x2)
            (λ s3 x3. publish-IsIndexed r.segment s3 x3))))

-- If the policy follows a block that is inserted, accessed or removed and returns, there are groups and
-- workers as before, and the groups are in order.
pub on_commit-IsIndexed :
    (m : MemoryMutation) (tree : RadixTree) (s : IndexedMemoryLruPolicy)
    → IsIndexed s
    → Ensures IsIndexed (on_commit m tree s)
unfolding on_commit
on_commit-IsIndexed m tree s x = go m.kind
  where
    go :
        (k : MemoryMutationKind)
        → Ensures IsIndexed (elim k [
          | inserted ↦ insert_block m.node_id tree s
          | accessed ↦ change_block accessed m.node_id tree s
          | removed ↦ change_block removed m.node_id tree s
        ])
    go inserted = insert_block-IsIndexed m.node_id tree s x
    go accessed = change_block-IsIndexed accessed m.node_id tree s x
    go removed = change_block-IsIndexed removed m.node_id tree s x

-- A policy that the constructor returns has groups and workers, a sample that fits, and groups in
-- order.
pub new_policy-IsIndexed :
    (admit : Bool) (groups sampled workers seed : ℕ) (retention : Option TimestampNs)
    → Ensures IsIndexed (new_policy admit groups sampled workers seed retention)
unfolding new_policy
new_policy-IsIndexed admit groups sampled workers seed retention =
    Ensures-if_known (groups == 0 || (workers == 0 || (ltb groups workers || ltb groups sampled)))
      (λ e. fails {e = invalid_argument})
      (λ e. returns (record {
        has_groups = ground (arith, e);
        has_workers = ground (arith, e);
        in_sample = ground (arith, e);
        ordered = λ i l. tt;
      }))
