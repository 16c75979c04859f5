-- ===== src/RadixTree/Creation.antt =====
-- The slot that `get_or_create_at` of cpp/src/radix_tree.cpp gives a new node.
use dwpdsim.Base.{
  ℕ, ◌≡◌, ◌<◌, refl, sym, subst, ◌∙◌, ap, Bool, true, false, List, [], ◌∷◌, Option, none, some, ok,
  arith, contains, Distinct, Map, insert, Vector, push_back, update, add64, to_u32_lem, ◌==◌,
  if◌then◌else◌, Ensures, returns, fails, Ensures-if, Ensures-bind, Ensures-ok, Bool-cases, inl,
  inr, ==true→eq,
}
use dwpdsim.Types.{NodeId, TimestampNs}
use dwpdsim.RadixTree.{
  RadixTree, NodeRecord, take_slot, new_record, create_at, get_or_create_at, default_record,
}
use dwpdsim.RadixTree.Slots.{IsIndexed, IsSlotOf, link_front-SameIds}

-- A slot that no node has.
record IsUnused (t : RadixTree) (s : ℕ) : Type 0 where
  indexed : IsIndexed t
  not_root : 0 < s
  in_range : s < t.nodes.size
  not_live : (j r : ℕ) → t.node_index j ≡ some r → (r == s) ≡ false
  not_gone : (j r : ℕ) → t.detached_index j ≡ some r → (r == s) ≡ false
  not_free : contains t.free_slots s ≡ false

grown-IsSlotOf :
    (v : Vector NodeRecord) (h s : ℕ) → IsSlotOf v h s → IsSlotOf (push_back v default_record) h s
grown-IsSlotOf v h s i = record {
  not_root = i.not_root;
  in_range = omega (arith, i.in_range);
  named = ground (arith, i.named, i.in_range);
}

take_slot-IsUnused :
    (t : RadixTree) (free : List ℕ)
    → t.free_slots ≡ free
    → IsIndexed t
    → t.nodes.size < 4294967296
    → IsUnused (take_slot t free).1 (take_slot t free).0
take_slot-IsUnused t [] e i m =
    subst (IsUnused (record t { nodes = push_back t.nodes default_record }))
      (sym (to_u32_lem t.nodes.size m))
      (record {
        indexed = record {
          rooted = omega arith;
          live = λ j r k. grown-IsSlotOf t.nodes j r (i.live j r k);
          gone = λ j r k. grown-IsSlotOf t.nodes j r (i.gone j r k);
          apart = i.apart;
          free_range = λ r k. ground (arith, i.free_range r k);
          free_live = i.free_live;
          free_gone = i.free_gone;
          free_distinct = i.free_distinct;
        };
        not_root = i.rooted;
        in_range = omega arith;
        not_live = λ j r k. ground (arith, (i.live j r k).in_range);
        not_gone = λ j r k. ground (arith, (i.gone j r k).in_range);
        not_free = subst (λ l. contains l t.nodes.size ≡ false) (sym e) refl;
      })
take_slot-IsUnused t (s ∷ rest) e i m = record {
  indexed = record {
    rooted = i.rooted;
    live = i.live;
    gone = i.gone;
    apart = i.apart;
    free_range =
        λ r k. i.free_range r (subst (λ l. contains l r ≡ true) (sym e) (ground (arith, k)));
    free_live = λ j r k. ground (arith, subst (λ l. contains l r ≡ false) e (i.free_live j r k));
    free_gone = λ j r k. ground (arith, subst (λ l. contains l r ≡ false) e (i.free_gone j r k));
    free_distinct = (subst Distinct e i.free_distinct).1;
  };
  not_root = (i.free_range s (subst (λ l. contains l s ≡ true) (sym e) (ground arith))).0;
  in_range = (i.free_range s (subst (λ l. contains l s ≡ true) (sym e) (ground arith))).1;
  not_live = λ j r k. ground (arith, subst (λ l. contains l r ≡ false) e (i.free_live j r k));
  not_gone = λ j r k. ground (arith, subst (λ l. contains l r ≡ false) e (i.free_gone j r k));
  not_free = (subst Distinct e i.free_distinct).0;
}

stored : (h s : ℕ) (m : Map ℕ) (j r : ℕ) → insert h s m j ≡ some r → (j == h) ≡ true → r ≡ s
stored h s m j r k y = ground (arith, k, y)

filed :
    (t : RadixTree) (h s : ℕ) (w : Vector NodeRecord)
    → IsUnused t s
    → t.node_index h ≡ none
    → w.size ≡ t.nodes.size
    → ((j : ℕ) → (w.cell j).node.hash_id ≡ (if j == s then h else (t.nodes.cell j).node.hash_id))
    → IsIndexed (record t {
      nodes = w;
      node_index = insert h s t.node_index;
      active_nodes = add64 t.active_nodes 1;
    })
filed t h s w u fresh size ids = record {
  rooted = ground (arith, size, u.indexed.rooted);
  live = λ j r k. elim (Bool-cases (j == h)) [
    | inl y ↦ subst (IsSlotOf w j) (sym (stored h s t.node_index j r k y)) (record {
      not_root = u.not_root;
      in_range = ground (arith, size, u.in_range);
      named = ground (arith, ids s, ==true→eq j h y);
    })
    | inr n ↦
        kept j r (u.indexed.live j r (ground (arith, k, n))) (u.not_live j r (ground (arith, k, n)))
  ];
  gone = λ j r k. kept j r (u.indexed.gone j r k) (u.not_gone j r k);
  apart = λ j g r k l. elim (Bool-cases (j == h)) [
    | inl y ↦ ground (arith, k, y, u.not_gone g r l)
    | inr n ↦ u.indexed.apart j g r (ground (arith, k, n)) l
  ];
  free_range = λ r m. ground (arith, size, u.indexed.free_range r m);
  free_live = λ j r k. elim (Bool-cases (j == h)) [
    | inl y ↦
        subst (λ x. contains t.free_slots x ≡ false) (sym (stored h s t.node_index j r k y))
          u.not_free
    | inr n ↦ u.indexed.free_live j r (ground (arith, k, n))
  ];
  free_gone = u.indexed.free_gone;
  free_distinct = u.indexed.free_distinct;
}
  where
    kept : (j r : ℕ) → IsSlotOf t.nodes j r → (r == s) ≡ false → IsSlotOf w j r
    kept j r i n = record {
      not_root = i.not_root;
      in_range = ground (arith, size, i.in_range);
      named = ground (arith, ids r, n, i.named);
    }

create_at-Ensures :
    (t : RadixTree) (h s p : ℕ) (now : TimestampNs)
    → IsUnused t s
    → t.node_index h ≡ none
    → Ensures
        (λ out. IsIndexed out × ((j : ℕ) → out.node_index j ≡ insert h s t.node_index j))
        (create_at t s p h now)
unfolding create_at
create_at-Ensures t h s p now u fresh =
    Ensures-bind
      {P = λ (v : Vector NodeRecord).
        v ≡ record { size = t.nodes.size; cell = update t.nodes.cell s (new_record h now p) }}
      (Ensures-if _ (returns refl) fails)
      λ v q. Ensures-bind (link_front-SameIds v s p) λ w a. returns (
        filed t h s w u fresh (a.size ∙ ap (λ (x : Vector NodeRecord). x.size) q) (λ j.
            a.ids j ∙ ap (λ (x : Vector NodeRecord). (x.cell j).node.hash_id) q ∙ ground arith),
        λ j. refl,
      )

self_insert : (h s : ℕ) (m : Map ℕ) → insert h s m h ≡ some s
self_insert h s m = ground arith

index-take_slot :
    (t : RadixTree) (free : List ℕ) (j : ℕ) → (take_slot t free).1.node_index j ≡ t.node_index j
index-take_slot t [] j = refl
index-take_slot t (s ∷ rest) j = refl

-- The answer names the node; the tree is indexed, has the node and the others as before.
pub record Enters (t : RadixTree) (h g : NodeId) (u : RadixTree) : Type 0 where
  pub answer : g ≡ h
  pub indexed : IsIndexed u
  pub entered : ¬ (u.node_index h ≡ none)
  pub others : (j : ℕ) → (j == h) ≡ false → u.node_index j ≡ t.node_index j

get_or_create_at-Ensures :
    (t : RadixTree) (p h : ℕ) (now : TimestampNs)
    → IsIndexed t
    → t.nodes.size < 4294967296
    → Ensures (λ out. Enters t h out.0 out.2) (get_or_create_at t p h now)
unfolding get_or_create_at
get_or_create_at-Ensures t p h now i m = found (t.node_index h) refl
  where
    found :
        (o : Option ℕ)
        → t.node_index h ≡ o
        → Ensures (λ out. Enters t h out.0 out.2) (get_or_create_at t p h now)
    found (some s) e =
        rw (e, get_or_create_at)
          (returns
            (record { answer = refl; indexed = i; entered = λ n. cc (n, e); others = λ j k. refl }))
    found none e =
        rw (e, get_or_create_at)
          (Ensures-bind
            (create_at-Ensures (take_slot t t.free_slots).1 h (take_slot t t.free_slots).0 p now
              (take_slot-IsUnused t t.free_slots refl i m) (index-take_slot t t.free_slots h ∙ e))
            λ u a. returns (record {
              answer = refl;
              indexed = a.0;
              entered = λ n. cc (
                self_insert h (take_slot t t.free_slots).0 (take_slot t t.free_slots).1.node_index,
                a.1 h,
                n,
              );
              others = λ j k. a.1 j ∙ ground (arith, k, index-take_slot t t.free_slots j);
            }))

-- From a tree of fewer than 2^32 cells in which each node has a slot of its own, `get_or_create_at`,
-- if it returns, answers with the node that was asked for; afterwards the tree has that node, every other node has the slot that it had, and each node
-- still has a slot of its own.
pub get_or_create_at-Enters :
    (t u : RadixTree) (p h g : ℕ) (now : TimestampNs) (created : Bool)
    → IsIndexed t
    → t.nodes.size < 4294967296
    → get_or_create_at t p h now ≡ ok (g, created, u)
    → Enters t h g u
get_or_create_at-Enters t u p h g now created i m e =
    Ensures-ok {P = λ (out : NodeId × Bool × RadixTree). Enters t h out.0 out.2} (g, created, u)
      (get_or_create_at-Ensures t p h now i m) e
