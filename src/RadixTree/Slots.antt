-- ===== src/RadixTree/Slots.antt =====
-- How nodes and slots of cpp/src/radix_tree.cpp correspond, as nodes are created, detached and
-- released.
use dwpdsim.Base.{
  or_fail-some, ℕ, ◌≡◌, ◌<◌, ◌⊎◌, refl, sym, subst, ◌∙◌, ap, true, false, ◌∷◌, Option, none, some,
  ok, arith, contains, Distinct, Map, insert, erase, Vector, modify, update, sub64, ◌==◌, Ensures,
  returns, fails, Ensures-known, Ensures-after, Ensures-bind, Ensures-if, Ensures-ok, Bool-cases,
  inl, inr, ==true→eq, ==false→ne, ne→==false,
}
use dwpdsim.Types.{NodeId, NodeSlot, invalid_node_slot}
use dwpdsim.RadixTree.{
  RadixTree, NodeRecord, new_tree, link_front, set_next, set_previous, set_first_child, add_child,
  slot, default_record,
}
use dwpdsim.RadixTree.Updates.{unlink, emplace, detach_leaf, release_detached, drop_child}

-- A slot other than the root's whose record carries the node's identifier.
pub record IsSlotOf (v : Vector NodeRecord) (h : NodeId) (s : NodeSlot) : Type 0 where
  pub not_root : 0 < s
  pub in_range : s < v.size
  pub named : (v.cell s).node.hash_id ≡ h

-- Each node of the tree, and each detached node, has a slot of its own, and a free slot belongs to
-- none of them.
pub record IsIndexed (t : RadixTree) : Type 0 where
  pub rooted : 0 < t.nodes.size
  pub live : (h s : ℕ) → t.node_index h ≡ some s → IsSlotOf t.nodes h s
  pub gone : (h s : ℕ) → t.detached_index h ≡ some s → IsSlotOf t.nodes h s
  pub apart : (h j s : ℕ) → t.node_index h ≡ some s → ¬ (t.detached_index j ≡ some s)
  pub free_range : (s : ℕ) → contains t.free_slots s ≡ true → (0 < s) × (s < t.nodes.size)
  pub free_live : (h s : ℕ) → t.node_index h ≡ some s → contains t.free_slots s ≡ false
  pub free_gone : (h s : ℕ) → t.detached_index h ≡ some s → contains t.free_slots s ≡ false
  pub free_distinct : Distinct t.free_slots

-- The writes change links only.
pub record SameIds (v w : Vector NodeRecord) : Type 0 where
  pub size : w.size ≡ v.size
  pub ids : (i : ℕ) → (w.cell i).node.hash_id ≡ (v.cell i).node.hash_id

SameIds-refl : (v : Vector NodeRecord) → SameIds v v
SameIds-refl v = record { size = refl; ids = λ i. refl }

SameIds-trans : (u v w : Vector NodeRecord) → SameIds u v → SameIds v w → SameIds u w
SameIds-trans u v w a b = record { size = b.size ∙ a.size; ids = λ i. b.ids i ∙ a.ids i }

modify-SameIds :
    (u v : Vector NodeRecord) (i : ℕ) (f : NodeRecord → NodeRecord)
    → ((r : NodeRecord) → (f r).node.hash_id ≡ r.node.hash_id)
    → SameIds u v
    → Ensures (SameIds u) (modify v i f)
modify-SameIds u v i f h a =
    Ensures-if _
      (returns
        (record { size = a.size; ids = λ j. ground (arith, a.ids j, h (v.cell j), ==true→eq j i) }))
      fails

pub link_front-SameIds :
    (v : Vector NodeRecord) (s p : NodeSlot) → Ensures (SameIds v) (link_front v s p)
unfolding link_front
link_front-SameIds v s p = Ensures-after _ λ parent.
    Ensures-bind (modify-SameIds v v s (set_next parent.first_child) (λ r. refl) (SameIds-refl v))
      λ v1 a.
        Ensures-bind
          (Ensures-if (parent.first_child == invalid_node_slot) (returns a)
            (modify-SameIds v v1 parent.first_child (set_previous s) (λ r. refl) a))
          λ v2 b. modify-SameIds v v2 p (add_child s) (λ r. refl) b

unlink-SameIds : (v : Vector NodeRecord) (r : NodeRecord) → Ensures (SameIds v) (unlink v r)
unfolding unlink
unlink-SameIds v r =
    Ensures-bind
      (Ensures-if (r.previous_sibling == invalid_node_slot)
        (modify-SameIds v v r.parent (set_first_child r.next_sibling) (λ q. refl) (SameIds-refl v))
        (modify-SameIds v v r.previous_sibling (set_next r.next_sibling) (λ q. refl)
          (SameIds-refl v)))
      λ v1 a.
        Ensures-bind
          (Ensures-if (r.next_sibling == invalid_node_slot) (returns a)
            (modify-SameIds v v1 r.next_sibling (set_previous r.previous_sibling) (λ q. refl) a))
          λ v2 b. modify-SameIds v v2 r.parent drop_child (λ q. refl) b

IsSlotOf-SameIds :
    (v w : Vector NodeRecord) (h s : ℕ) → SameIds v w → IsSlotOf v h s → IsSlotOf w h s
IsSlotOf-SameIds v w h s a i = record {
  not_root = i.not_root;
  in_range = ground (arith, a.size, i.in_range);
  named = a.ids s ∙ i.named;
}

-- Two nodes with one slot are one node.
same_node : (v : Vector NodeRecord) (h j s : ℕ) → IsSlotOf v h s → IsSlotOf v j s → h ≡ j
same_node v h j s a b = sym a.named ∙ b.named

pub new_tree-IsIndexed : IsIndexed new_tree
unfolding new_tree
new_tree-IsIndexed = record {
  rooted = omega arith;
  live = λ h s e. cc e;
  gone = λ h s e. cc e;
  apart = λ h j s e. cc e;
  free_range = λ s m. cc m;
  free_live = λ h s e. refl;
  free_gone = λ h s e. refl;
  free_distinct = tt;
}

emplace-cases :
    (k v : ℕ) (m : Map ℕ) (j r : ℕ)
    → emplace k v m j ≡ some r
    → (m j ≡ some r) ⊎ ((j ≡ k) × (r ≡ v))
unfolding emplace
emplace-cases k v m j r e = by_entry (m k) e
  where
    by_entry :
        (o : Option ℕ)
        → (elim o as (λ x. Map ℕ) [ none ↦ insert k v m | some w ↦ m ]) j ≡ some r
        → (m j ≡ some r) ⊎ ((j ≡ k) × (r ≡ v))
    by_entry (some w) e = inl e
    by_entry none e = elim (Bool-cases (j == k)) [
      | inl t ↦ inr (==true→eq j k t, ground (arith, e, t))
      | inr f ↦ inl (ground (arith, e, f))
    ]

erase-some :
    (k : ℕ) (m : Map ℕ) (j r : ℕ) → erase k m j ≡ some r → (m j ≡ some r) × ((j == k) ≡ false)
erase-some k m j r e = ground (arith, e)

detached :
    (t : RadixTree) (h s : ℕ) (w : Vector NodeRecord)
    → IsIndexed t
    → t.node_index h ≡ some s
    → SameIds t.nodes w
    → IsIndexed (record t {
      nodes = w;
      node_index = erase h t.node_index;
      detached_index = emplace h s t.detached_index;
      active_nodes = sub64 t.active_nodes 1;
    })
detached t h s w i e a = record {
  rooted = ground (arith, a.size, i.rooted);
  live = λ j r k. IsSlotOf-SameIds t.nodes w j r a (i.live j r (erase-some h t.node_index j r k).0);
  gone = λ j r k.
      IsSlotOf-SameIds t.nodes w j r a (elim (emplace-cases h s t.detached_index j r k) [
        | inl l ↦ i.gone j r l
        | inr (p, q) ↦
            subst (λ x. IsSlotOf t.nodes x r) (sym p)
              (subst (IsSlotOf t.nodes h) (sym q) (i.live h s e))
      ]);
  apart = λ j g r k l. elim (emplace-cases h s t.detached_index g r l) [
    | inl m ↦ i.apart j g r (erase-some h t.node_index j r k).0 m
    | inr (p, q) ↦ ==false→ne j h (erase-some h t.node_index j r k).1 (
        same_node t.nodes j h r (i.live j r (erase-some h t.node_index j r k).0)
          (subst (IsSlotOf t.nodes h) (sym q) (i.live h s e)))
  ];
  free_range = λ r m. ground (arith, a.size, i.free_range r m);
  free_live = λ j r k. i.free_live j r (erase-some h t.node_index j r k).0;
  free_gone = λ j r k. elim (emplace-cases h s t.detached_index j r k) [
    | inl l ↦ i.free_gone j r l
    | inr (p, q) ↦ subst (λ x. contains t.free_slots x ≡ false) (sym q) (i.free_live h s e)
  ];
  free_distinct = i.free_distinct;
}

detach_leaf-Ensures :
    (t : RadixTree) (h : ℕ) → IsIndexed t → Ensures (λ out. IsIndexed out.1) (detach_leaf t h)
unfolding detach_leaf slot
detach_leaf-Ensures t h i = Ensures-known _ λ s e. Ensures-after _ λ r.
    Ensures-bind (unlink-SameIds t.nodes r) λ w a.
      Ensures-if _ (returns (detached t h s w i (or_fail-some _ s e) a))
        (Ensures-after _ λ p. returns (detached t h s w i (or_fail-some _ s e) a))

freed :
    (t : RadixTree) (h s : ℕ)
    → IsIndexed t
    → t.detached_index h ≡ some s
    → IsIndexed (record t {
      nodes = record { size = t.nodes.size; cell = update t.nodes.cell s default_record };
      detached_index = erase h t.detached_index;
      free_slots = s ∷ t.free_slots;
    })
freed t h s i e = record {
  rooted = i.rooted;
  live = λ j r k. elsewhere j r (i.live j r k) (λ q. i.apart j h r k (e ∙ ap some (sym q)));
  gone = λ j r k.
      elsewhere j r (i.gone j r (erase-some h t.detached_index j r k).0) (λ q. other j r k q);
  apart = λ j g r k l. i.apart j g r k (erase-some h t.detached_index g r l).0;
  free_range = λ r m.
      ground
        (arith, m, i.free_range r, (i.gone h s e).not_root, (i.gone h s e).in_range, ==true→eq r s);
  free_live = λ j r k.
      ground
        (arith, i.free_live j r k, ne→==false r s (λ q. i.apart j h r k (e ∙ ap some (sym q))));
  free_gone = λ j r k. ground (
    arith,
    i.free_gone j r (erase-some h t.detached_index j r k).0,
    ne→==false r s (other j r k),
  );
  free_distinct = (i.free_gone h s e, i.free_distinct);
}
  where
    elsewhere :
        (j r : ℕ)
        → IsSlotOf t.nodes j r
        → ¬ (r ≡ s)
        → IsSlotOf (record { size = t.nodes.size; cell = update t.nodes.cell s default_record }) j r
    elsewhere j r a n = record {
      not_root = a.not_root;
      in_range = a.in_range;
      named = ground (arith, a.named, n);
    }

    other : (j r : ℕ) → erase h t.detached_index j ≡ some r → ¬ (r ≡ s)
    other j r k q = ==false→ne j h (erase-some h t.detached_index j r k).1 (
        same_node t.nodes j h r (i.gone j r (erase-some h t.detached_index j r k).0)
          (subst (IsSlotOf t.nodes h) (sym q) (i.gone h s e)))

release_detached-Ensures :
    (t : RadixTree) (h : ℕ) → IsIndexed t → Ensures IsIndexed (release_detached t h)
unfolding release_detached
release_detached-Ensures t h i = Ensures-known _ λ s e.
    Ensures-bind
      {P = λ (v : Vector NodeRecord).
        v ≡ record { size = t.nodes.size; cell = update t.nodes.cell s default_record }}
      (Ensures-if _ (returns refl) fails)
      λ v p. returns (
        subst
          (λ (u : Vector NodeRecord). IsIndexed (record t {
            nodes = u;
            detached_index = erase h t.detached_index;
            free_slots = s ∷ t.free_slots;
          }))
          (sym p) (freed t h s i (or_fail-some _ s e)))

-- If each node and each detached node has a slot of its own, apart from the free ones, it has after a
-- leaf was detached.
pub detach_leaf-IsIndexed :
    (t : RadixTree) (h : ℕ) (parent : Option NodeId) (u : RadixTree)
    → IsIndexed t
    → detach_leaf t h ≡ ok (parent, u)
    → IsIndexed u
detach_leaf-IsIndexed t h parent u i e =
    Ensures-ok {P = λ (out : Option NodeId × RadixTree). IsIndexed out.1} (parent, u)
      (detach_leaf-Ensures t h i) e

-- If each node and each detached node has a slot of its own, apart from the free ones, it has after a
-- detached node was released.
pub release_detached-IsIndexed :
    (t u : RadixTree) (h : ℕ) → IsIndexed t → release_detached t h ≡ ok u → IsIndexed u
release_detached-IsIndexed t u h i e =
    Ensures-ok {P = IsIndexed} u (release_detached-Ensures t h i) e
