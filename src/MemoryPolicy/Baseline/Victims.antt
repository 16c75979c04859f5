-- ===== src/MemoryPolicy/Baseline/Victims.antt =====
-- Which segment `BaselineMemoryLruPolicy::evict` chooses.
use dwpdsim.Base.{
  same_ok, contains-append, append-nil, append_assoc, or_fail-some, ℕ, ◌≤◌, ◌≡◌, refl, sym, ap,
  subst, ◌∙◌, Bool, true, false, List, [], ◌∷◌, ◌++◌, none, some, ok, for_each, arith, contains,
  length, add64, if◌then◌else◌, ◌==◌, Ensures, returns, Ensures-known, Ensures-if_known,
  Ensures-bind, Ensures-ok, Bool-cases, inl, inr, ==true→eq,
}
use dwpdsim.Types.{NodeId, RequestContext}
use dwpdsim.RadixTree.{RadixTree}
use dwpdsim.RadixTree.Walks.{segment_leaf_for, has_memory_descendant}
use dwpdsim.MemoryPolicy.{MemoryEvictionDecision}
use dwpdsim.MemoryPolicy.Baseline.{BaselineMemoryLruPolicy, Scan, examine, scan, evict}
use dwpdsim.MemoryPolicy.Baseline.Order.{Holds}
use dwpdsim.MemoryPolicy.Baseline.Scans.{scan-links}

-- `v` is the endpoint of `y`'s segment, has no block in memory below it, and is not the segment of a
-- more recent block; each other such endpoint of a block after `y` has a more recent block.
pub record IsLeastRecent (tree : RadixTree) (order : List ℕ) (v : NodeId) : Type 0 where
  pub before : List ℕ
  pub y : ℕ
  pub after : List ℕ
  pub split : order ≡ before ++ y ∷ after
  pub endpoint : segment_leaf_for tree y ≡ ok v
  pub clear : has_memory_descendant tree v ≡ ok false
  pub fresh : (x : ℕ) → contains before x ≡ true → ¬ (segment_leaf_for tree x ≡ ok v)
  pub newer :
      (x w : ℕ)
      → contains after x ≡ true
      → segment_leaf_for tree x ≡ ok w
      → has_memory_descendant tree w ≡ ok false
      → (z : ℕ) × (contains (before ++ y ∷ []) z ≡ true) × (segment_leaf_for tree z ≡ ok w)

last_one : (l : List ℕ) (x u : ℕ) → contains (l ++ x ∷ []) u ≡ true → contains l u ≡ false → u ≡ x
last_one l x u m f = ground (arith, m, f, contains-append l (x ∷ []) u)

early :
    (l m : List ℕ) (y z : ℕ)
    → contains (l ++ y ∷ m) z ≡ true
    → contains m z ≡ false
    → contains (l ++ y ∷ []) z ≡ true
early l m y z h f = ground (arith, h, f, contains-append l (y ∷ m) z, contains-append l (y ∷ []) z)

module _ (tree : RadixTree) where
  record Tracks (done : List ℕ) (k : Scan) : Type 0 where
    seen :
        (x w : ℕ)
        → contains done x ≡ true
        → segment_leaf_for tree x ≡ ok w
        → contains k.seen_segments w ≡ true
    back :
        (w : ℕ)
        → contains k.seen_segments w ≡ true
        → (z : ℕ) × (contains done z ≡ true) × (segment_leaf_for tree z ≡ ok w)
    nothing :
        (w : ℕ)
        → k.victim ≡ none
        → contains k.seen_segments w ≡ true
        → ¬ (has_memory_descendant tree w ≡ ok false)
    chosen : (v : ℕ) → k.victim ≡ some v → IsLeastRecent tree done v

  -- A block whose segment is no new candidate comes after the victim.
  extend :
      (done : List ℕ) (x v : ℕ)
      → ((w : ℕ)
          → segment_leaf_for tree x ≡ ok w
          → has_memory_descendant tree w ≡ ok false
          → (z : ℕ) × (contains done z ≡ true) × (segment_leaf_for tree z ≡ ok w))
      → IsLeastRecent tree done v
      → IsLeastRecent tree (done ++ x ∷ []) v
  extend done x v old i = record {
    before = i.before;
    y = i.y;
    after = i.after ++ x ∷ [];
    split = ap (λ l. l ++ x ∷ []) i.split ∙ append_assoc i.before (i.y ∷ i.after) (x ∷ []);
    endpoint = i.endpoint;
    clear = i.clear;
    fresh = i.fresh;
    newer = λ u w m e c. elim (Bool-cases (contains i.after u)) [
      | inl t ↦ i.newer u w t e c
      | inr f ↦
          let (z, in_done, at_z) =
            old w (subst (λ j. segment_leaf_for tree j ≡ ok w) (last_one i.after x u m f) e) c in
          elim (Bool-cases (contains i.after z)) [
            | inl t ↦ i.newer z w t at_z c
            | inr g ↦ (
              z,
              early i.before i.after i.y z (subst (λ d. contains d z ≡ true) i.split in_done) g,
              at_z,
            )
          ]
    ];
  }

  at_end : (done : List ℕ) (x : ℕ) → contains (done ++ x ∷ []) x ≡ true
  at_end done x = ground (arith, contains-append done (x ∷ []) x)

  inside : (done : List ℕ) (x z : ℕ) → contains done z ≡ true → contains (done ++ x ∷ []) z ≡ true
  inside done x z m = ground (arith, m, contains-append done (x ∷ []) z)

  -- The new scan has seen the segment of each block, and of no others.
  seen_step :
      (done : List ℕ) (x e : ℕ) (k : Scan) (seen' : List ℕ)
      → Tracks done k
      → segment_leaf_for tree x ≡ ok e
      → contains seen' e ≡ true
      → ((w : ℕ) → contains k.seen_segments w ≡ true → contains seen' w ≡ true)
      → (u w : ℕ) → contains (done ++ x ∷ []) u ≡ true
      → segment_leaf_for tree u ≡ ok w
      → contains seen' w ≡ true
  seen_step done x e k seen' i at_e has grow u w m at_w = elim (Bool-cases (contains done u)) [
    | inl t ↦ grow w (i.seen u w t at_w)
    | inr f ↦
        subst (λ j. contains seen' j ≡ true)
          (same_ok at_e (subst (λ j. segment_leaf_for tree j ≡ ok w) (last_one done x u m f) at_w))
          has
  ]

  back_step :
      (done : List ℕ) (x e : ℕ) (k : Scan)
      → Tracks done k
      → segment_leaf_for tree x ≡ ok e
      → (w : ℕ) → contains (e ∷ k.seen_segments) w ≡ true
      → (z : ℕ) × (contains (done ++ x ∷ []) z ≡ true) × (segment_leaf_for tree z ≡ ok w)
  back_step done x e k i at_e w m = elim (Bool-cases (w == e)) [
    | inl t ↦
        (x, at_end done x, subst (λ j. segment_leaf_for tree x ≡ ok j) (sym (==true→eq w e t)) at_e)
    | inr f ↦ let (z, n, at_w) = i.back w (ground (arith, m, f)) in (z, inside done x z n, at_w)
  ]

  later :
      (l : List ℕ) (x y : ℕ) → (y == x) ≡ false → contains (x ∷ l) y ≡ true → contains l y ≡ true
  later l x y n m = ground (arith, n, m)

  examine-Tracks :
      (done : List ℕ) (x : ℕ) (k : Scan)
      → Tracks done k
      → Ensures (Tracks (done ++ x ∷ [])) (examine tree x k)
  unfolding examine
  examine-Tracks done x k i = Ensures-known _ λ e at_e.
      Ensures-if_known _
        (λ t. returns (record {
          seen = seen_step done x e k k.seen_segments i at_e t (λ w n. n);
          back = λ w n. let (z, d, at_w) = i.back w n in (z, inside done x z d, at_w);
          nothing = i.nothing;
          chosen = λ v n.
              extend done x v
                (λ w at_w c.
                  i.back w (subst (λ j. contains k.seen_segments j ≡ true) (same_ok at_e at_w) t))
                (i.chosen v n);
        }))
        (λ f. Ensures-known _ λ below is_below. returns (picked done x e k i at_e f below is_below))
    where
      picked :
          (done : List ℕ) (x e : ℕ) (k : Scan)
          → Tracks done k
          → segment_leaf_for tree x ≡ ok e
          → contains k.seen_segments e ≡ false
          → (below : Bool) → has_memory_descendant tree e ≡ ok below
          → Tracks (done ++ x ∷ []) (
              if below
              then record {
                seen_segments = e ∷ k.seen_segments;
                victim = k.victim;
                examined = add64 k.examined 1;
              }
              else record {
                seen_segments = e ∷ k.seen_segments;
                victim = some e;
                examined = add64 k.examined 1;
              })
      picked done x e k i at_e f true is_below = (record {
        seen =
            seen_step done x e k (e ∷ k.seen_segments) i at_e (ground arith)
              (λ w n. ground (arith, n));
        back = back_step done x e k i at_e;
        nothing = λ w n m c. elim (Bool-cases (w == e)) [
          | inl t ↦ cc (
              same_ok is_below
                (subst (λ j. has_memory_descendant tree j ≡ ok false) (==true→eq w e t) c))
          | inr g ↦ i.nothing w n (later k.seen_segments e w g m) c
        ];
        chosen = λ v n.
            extend done x v
              (λ w at_w c. cc (
                same_ok is_below
                  (subst (λ j. has_memory_descendant tree j ≡ ok false) (same_ok at_w at_e) c)))
              (i.chosen v n);
      })
      picked done x e k i at_e f false is_below = (record {
        seen =
            seen_step done x e k (e ∷ k.seen_segments) i at_e (ground arith)
              (λ w n. ground (arith, n));
        back = back_step done x e k i at_e;
        nothing = λ w n m c. cc n;
        chosen = λ v n. subst (IsLeastRecent tree (done ++ x ∷ [])) (cc n) (record {
          before = done;
          y = x;
          after = [];
          split = refl;
          endpoint = at_e;
          clear = is_below;
          fresh = λ z m at_z. cc (f, i.seen z e m at_z);
          newer = λ z w m at_z c. cc m;
        });
      })

  scan-Tracks :
      (done order : List ℕ) (k : Scan)
      → Tracks done k
      → Ensures (Tracks (done ++ order)) (for_each order (examine tree) k)
  unfolding for_each
  scan-Tracks done [] k i =
      subst (λ l. Ensures (Tracks l) (ok k)) (sym (append-nil done)) (returns i)
  scan-Tracks done (x ∷ order) k i =
      subst (λ l. Ensures (Tracks l) (for_each (x ∷ order) (examine tree) k))
        (append_assoc done (x ∷ []) order)
        (Ensures-bind (examine-Tracks done x k i) λ k1 j. scan-Tracks (done ++ x ∷ []) order k1 j)

  -- With the blocks in the order of their last use in the linked list, no more of them than the tree
  -- has cells, an eviction that returns
  -- names a segment without a block in memory below it, such that each other segment of this kind
  -- has a more recently used block.
  pub evict-IsLeastRecent :
      (request : RequestContext) (s t : BaselineMemoryLruPolicy) (order : List ℕ)
      (d : MemoryEvictionDecision)
      → Holds s order
      → length order ≤ tree.nodes.size
      → evict request tree s ≡ ok (d, t)
      → IsLeastRecent tree order d.leaf_segment_endpoint
  unfolding evict
  evict-IsLeastRecent request s t order d h m e =
      Ensures-ok
        {P = λ (out : MemoryEvictionDecision × BaselineMemoryLruPolicy).
          IsLeastRecent tree order out.0.leaf_segment_endpoint}
        (d, t)
        (Ensures-bind {P = Tracks order} (walked h m)
          λ k i. Ensures-known _ λ v p. returns (i.chosen v (or_fail-some k.victim v p)))
        e
    where
      start : Scan
      start = record { seen_segments = []; victim = none; examined = s.candidates_examined }

      untouched : Tracks [] start
      untouched = record {
        seen = λ x w n at_w. cc n;
        back = λ w n. cc n;
        nothing = λ w p n c. cc n;
        chosen = λ v p. cc p;
      }

      walked :
          Holds s order
          → length order ≤ tree.nodes.size
          → Ensures (Tracks order) (scan tree.nodes.size tree s.links s.head start)
      walked h m =
          subst (λ o. Ensures (Tracks order) (scan tree.nodes.size tree s.links o start))
            (sym h.first)
            (subst (Ensures (Tracks order))
              (sym (
                scan-links tree.nodes.size tree s.links none order start h.chained
                  (λ j n. h.linked j ∙ n) m))
              (scan-Tracks [] order start untouched))
