-- ===== src/StoragePolicy/RoundRobin/Counted.antt =====
-- The entries of the index against the blocks of the tree.
use dwpdsim.Base.{
  ℕ, ◌<◌, ◌≤◌, ◌+◌, ◌%◌, ◌≡◌, ◌⊎◌, inl, inr, refl, sym, subst, ◌∙◌, Bool, true, false, List, [],
  ◌∷◌, Option, none, some, ok, arith, length, contains, add64, max, ◌==◌, ◌&&◌, if◌then◌else◌,
  Bool-cases, u64_mod, Ensures, returns, same_ok, Ensures-bind, Ensures-map, Ensures-after,
  Ensures-known, Ensures-if_known, Ensures-ok, Ensures-both, ◌||◌,
}
use dwpdsim.Types.{NodeId, Node, StorageTier, slc, tlc, at_tier, change_tier, tier_eq, PerTier}
use dwpdsim.RadixTree.{RadixTree, node}
use dwpdsim.RadixTree.Walks
use dwpdsim.RadixTree.Walks.{segment_leaf_for, segment_top}
use dwpdsim.StorageView.{StorageView, resolve_segment, resident_on, select_nodes, resident_blocks}
use dwpdsim.StoragePolicy.{
  StorageMutation, StorageMutationKind, dump_write_committed, capacity_trim_committed,
  storage_access_committed,
}
use dwpdsim.StoragePolicy.RoundRobin.{
  indexed, Segment, SegmentIndex, RoundRobinPolicy, erase_segment, insert_segment, no_segment,
  count_node, count_nodes, refresh_segment,
}
use dwpdsim.StoragePolicy.RoundRobin.Decisions.{
  index_mutation, on_commit, is_insertion, is_trim, is_access, is_indexed,
}
use dwpdsim.StoragePolicy.RoundRobin.Index.{IsIndex, refresh_segment-IsIndex}

-- The time of a listed block that is resident on the tier, or 0.
pub data IsTime (tree : RadixTree) (tier : StorageTier) (xs : List NodeId) : ℕ → Type 0 where
  never : IsTime tree tier xs 0
  at_block :
      (x : NodeId) (n : Node)
      → contains xs x ≡ true
      → node tree x ≡ ok n
      → resident_on tier n ≡ true
      → IsTime tree tier xs n.storage_last_access_timestamp_ns

-- Every listed block that is resident on the tier was last used at the time or before.
abbrev pub IsLatest : RadixTree → StorageTier → List NodeId → ℕ → Type 0
IsLatest tree tier xs t =
    (x : NodeId) (n : Node)
    → contains xs x ≡ true
    → node tree x ≡ ok n
    → resident_on tier n ≡ true
    → n.storage_last_access_timestamp_ns ≤ t

abbrev pub blocks_of : StorageTier → Option Segment → ℕ
blocks_of tier none = 0
blocks_of tier (some g) = at_tier tier g.resident_blocks

-- An entry has as many blocks of each tier as the storage view counts in the segment, modulo 2 ^ 64, and
-- the time of the tier's block that was used last.
pub record Describes (view : StorageView) (endpoint : NodeId) (o : Option Segment) : Type 0 where
  pub blocks :
      (tier : StorageTier) (n : ℕ)
      → resident_blocks view endpoint tier ≡ ok n
      → blocks_of tier o ≡ n % u64_mod
  pub newest :
      (g : Segment) (xs : List NodeId) (tier : StorageTier)
      → o ≡ some g
      → Walks.resolve_segment view.tree endpoint ≡ ok xs
      → IsLatest view.tree tier xs (at_tier tier g.last_ns)
        × IsTime view.tree tier xs (at_tier tier g.last_ns)

changed_part :
    {A : Type 0} (t u : StorageTier) (f : A → A) (p : PerTier A)
    → at_tier t (change_tier u f p) ≡ (if tier_eq u t then f (at_tier t p) else at_tier t p)
changed_part slc slc f p = refl
changed_part slc tlc f p = refl
changed_part tlc slc f p = refl
changed_part tlc tlc f p = refl

module _ (tree : RadixTree) (tier : StorageTier) where
  count_node-both :
      (n : Node) (g : Segment)
      → (at_tier tier (count_node n g).resident_blocks ≡ (
          if resident_on tier n
          then add64 (at_tier tier g.resident_blocks) 1
          else at_tier tier g.resident_blocks))
        × (at_tier tier (count_node n g).last_ns ≡ (
            if resident_on tier n
            then max (at_tier tier g.last_ns) n.storage_last_access_timestamp_ns
            else at_tier tier g.last_ns))
  count_node-both n g = elim (Bool-cases n.on_storage) [
    | inl e ↦ rw e (
      changed_part tier n.storage_tier (λ b. add64 b 1) g.resident_blocks,
      changed_part tier n.storage_tier (λ t. max t n.storage_last_access_timestamp_ns) g.last_ns,
    )
    | inr e ↦ rw e (refl, refl)
  ]

  -- What counting a list of blocks makes of a segment.
  record Counts (xs : List NodeId) (g r : Segment) : Type 0 where
    total :
        Ensures
          (λ l.
            at_tier tier r.resident_blocks ≡ (at_tier tier g.resident_blocks + length l) % u64_mod)
          (select_nodes tree (resident_on tier) xs)
    least : at_tier tier g.last_ns ≤ at_tier tier r.last_ns
    above : IsLatest tree tier xs (at_tier tier r.last_ns)
    attained :
        (at_tier tier r.last_ns ≡ at_tier tier g.last_ns)
        ⊎ IsTime tree tier xs (at_tier tier r.last_ns)

  later :
      (x : NodeId) (xs : List NodeId) (t : ℕ) → IsTime tree tier xs t → IsTime tree tier (x ∷ xs) t
  later x xs _ never = never
  later x xs _ (at_block y n h e u) = at_block y n (ground (arith, h)) e u

  reached :
      (x : NodeId) (xs : List NodeId) (n : Node) (old t : ℕ)
      → node tree x ≡ ok n
      → t ≡ (if resident_on tier n then max old n.storage_last_access_timestamp_ns else old)
      → (t ≡ old) ⊎ IsTime tree tier (x ∷ xs) t
  reached x xs n old t e h = elim (Bool-cases (t == old)) [
    | inl z ↦ inl (ground (arith, z))
    | inr z ↦ elim (Bool-cases (resident_on tier n)) [
      | inl u ↦
          let same : n.storage_last_access_timestamp_ns ≡ t = ground (arith, h, z, u) in
          inr (subst (IsTime tree tier (x ∷ xs)) same (at_block x n (ground arith) e u))
      | inr u ↦ inl (ground (arith, h, u))
    ]
  ]

  count_nodes-Counts :
      (xs : List NodeId) (g : Segment)
      → at_tier tier g.resident_blocks < u64_mod
      → Ensures (Counts xs g) (count_nodes tree xs g)
  unfolding count_nodes select_nodes add64
  count_nodes-Counts [] g b = returns (record {
    total = returns (omega (arith, b));
    least = omega arith;
    above = λ x n h. cc h;
    attained = inl refl;
  })
  count_nodes-Counts (x ∷ xs) g b = Ensures-known (node tree x) (λ n e.
      let both = count_node-both n g in
      Ensures-map (count_nodes-Counts xs (count_node n g) (ground (arith, b, both.0))) (λ r c.
        record {
          total = Ensures-known (node tree x) (λ m f.
              let same : n ≡ m = same_ok e f in
              Ensures-bind c.total (λ l k. returns (
                subst
                  (λ u.
                    at_tier tier r.resident_blocks
                    ≡ (at_tier tier g.resident_blocks
                        + length (if resident_on tier u then x ∷ l else l))
                      % u64_mod)
                  same (ground (arith, b, both.0, k)))));
          least = ground (arith, both.1, c.least);
          above = λ y m h f u. elim (Bool-cases (x == y)) [
            | inl z ↦
                let there : node tree x ≡ ok m = ground (arith, z, f) in
                let same : m ≡ n = same_ok there e in
                let v : resident_on tier n ≡ true = subst (λ w. resident_on tier w ≡ true) same u in
                subst (λ w. w.storage_last_access_timestamp_ns ≤ at_tier tier r.last_ns) (sym same)
                  (ground (arith, both.1, c.least, v))
            | inr z ↦ c.above y m (ground (arith, h, z)) f u
          ];
          attained = elim c.attained [
            | inl z ↦
                reached x xs n (at_tier tier g.last_ns) (at_tier tier r.last_ns) e (z ∙ both.1)
            | inr t ↦ inr (later x xs (at_tier tier r.last_ns) t)
          ];
        }))

-- The index after the entry of a segment was made anew: the entry describes it, and the others stay.
pub record Refreshed (view : StorageView) (endpoint : NodeId) (x y : SegmentIndex) : Type 0 where
  pub made : Describes view endpoint (y.segments endpoint)
  pub others : (e : NodeId) → (e == endpoint) ≡ false → y.segments e ≡ x.segments e

erased :
    (endpoint : NodeId) (x : SegmentIndex) (e : NodeId)
    → (erase_segment endpoint x).segments e ≡ (if e == endpoint then none else x.segments e)
unfolding erase_segment
erased endpoint x e = go (x.segments endpoint) refl
  where
    go :
        (o : Option Segment)
        → x.segments endpoint ≡ o
        → (erase_segment endpoint x).segments e ≡ (if e == endpoint then none else x.segments e)
    go none h = rw (h, erase_segment) (ground (arith, h))
    go (some g) h = rw (h, erase_segment) refl

inserted_one :
    (endpoint : NodeId) (g : Segment) (x : SegmentIndex) (e : NodeId)
    → (insert_segment endpoint g x).segments e ≡ (
        if g.resident_blocks.slc_part == 0 && g.resident_blocks.tlc_part == 0
        then x.segments e
        else if e == endpoint
        then some g
        else x.segments e)
unfolding insert_segment
inserted_one endpoint g x e = ground arith

counted_blocks :
    (endpoint : NodeId) (view : StorageView) (nodes : List NodeId) (tier : StorageTier)
    (g : Segment)
    → Walks.resolve_segment view.tree endpoint ≡ ok nodes
    → Counts view.tree tier nodes no_segment g
    → Ensures
        (λ n. at_tier tier g.resident_blocks ≡ n % u64_mod)
        (resident_blocks view endpoint tier)
unfolding resident_blocks resolve_segment
counted_blocks endpoint view nodes tier g e c =
    Ensures-bind {P = λ segment. nodes ≡ segment.ordered_nodes}
      (Ensures-after (segment_top view.tree endpoint) (λ top.
        Ensures-known (Walks.resolve_segment view.tree endpoint) (λ ns f. returns (same_ok e f))))
      (λ segment q.
        Ensures-bind
          (subst
            (λ ns.
              Ensures
                (λ l.
                  at_tier tier g.resident_blocks
                  ≡ (at_tier tier no_segment.resident_blocks + length l) % u64_mod)
                (select_nodes view.tree (resident_on tier) ns))
            q c.total)
          (λ l k. returns (ground (arith, k, nothing tier))))
  where
    nothing : (t : StorageTier) → at_tier t no_segment.resident_blocks ≡ 0
    nothing slc = refl
    nothing tlc = refl

-- The entry that a count leaves, if it found no block of either tier or if it did.
entry-blocks :
    (none_there : Bool) (tier : StorageTier) (g : Segment)
    → (none_there ≡ true → at_tier tier g.resident_blocks ≡ 0)
    → blocks_of tier (if none_there then none else some g) ≡ at_tier tier g.resident_blocks
entry-blocks true tier g h = sym (h refl)
entry-blocks false tier g h = refl

entry_same :
    (none_there : Bool) (g h : Segment) → (if none_there then none else some g) ≡ some h → g ≡ h
entry_same true g h e = cc e
entry_same false g h e = cc e

no_blocks :
    (tier : StorageTier) (g : Segment)
    → (g.resident_blocks.slc_part == 0 && g.resident_blocks.tlc_part == 0) ≡ true
    → at_tier tier g.resident_blocks ≡ 0
no_blocks slc g h = ground (arith, h)
no_blocks tlc g h = ground (arith, h)

described :
    (endpoint : NodeId) (view : StorageView) (nodes : List NodeId) (g : Segment)
    → Walks.resolve_segment view.tree endpoint ≡ ok nodes
    → ((tier : StorageTier) → Counts view.tree tier nodes no_segment g)
    → Describes view endpoint (
        if g.resident_blocks.slc_part == 0 && g.resident_blocks.tlc_part == 0 then none else some g)
described endpoint view nodes g e c = record {
  blocks = λ tier n h.
      entry-blocks _ tier g (no_blocks tier g)
      ∙ Ensures-ok n (counted_blocks endpoint view nodes tier g e (c tier)) h;
  newest = λ g' xs tier h f.
      subst
        (λ r.
          IsLatest view.tree tier xs (at_tier tier r.last_ns)
          × IsTime view.tree tier xs (at_tier tier r.last_ns))
        (entry_same _ g g' h)
        (subst
          (λ ns.
            IsLatest view.tree tier ns (at_tier tier g.last_ns)
            × IsTime view.tree tier ns (at_tier tier g.last_ns))
          (same_ok e f) ((c tier).above, time tier (c tier).attained));
}
  where
    time :
        (t : StorageTier)
        → (at_tier t g.last_ns ≡ at_tier t no_segment.last_ns)
          ⊎ IsTime view.tree t nodes (at_tier t g.last_ns)
        → IsTime view.tree t nodes (at_tier t g.last_ns)
    time slc (inl z) = subst (IsTime view.tree slc nodes) (sym z) never
    time tlc (inl z) = subst (IsTime view.tree tlc nodes) (sym z) never
    time t (inr h) = h

refresh_segment-Refreshed :
    (endpoint : NodeId) (view : StorageView) (x : SegmentIndex)
    → Ensures (Refreshed view endpoint x) (refresh_segment endpoint view.tree x)
unfolding refresh_segment
refresh_segment-Refreshed endpoint view x =
    Ensures-known (Walks.resolve_segment view.tree endpoint) (λ nodes e.
      Ensures-known (count_nodes view.tree nodes no_segment) (λ g f.
        let y = erase_segment endpoint x in
        let entry : (if g.resident_blocks.slc_part == 0 && g.resident_blocks.tlc_part == 0
              then none
              else some g)
            ≡ (insert_segment endpoint g y).segments endpoint =
          ground (arith, erased endpoint x endpoint, inserted_one endpoint g y endpoint) in
        returns (record {
          made = subst (Describes view endpoint) entry (
              described endpoint view nodes g e (λ tier.
                Ensures-ok g (count_nodes-Counts view.tree tier nodes no_segment (small tier)) f));
          others = λ j d. ground (arith, d, erased endpoint x j, inserted_one endpoint g y j);
        })))
  where
    small : (t : StorageTier) → at_tier t no_segment.resident_blocks < u64_mod
    small slc = omega arith
    small tlc = omega arith

-- The kinds of mutations that the index follows.
pub data Follows : StorageMutationKind → Type 0 where
  dumped : Follows dump_write_committed
  trimmed : Follows capacity_trim_committed
  accessed : Follows storage_access_committed

followed :
    (k : StorageMutationKind) → Follows k → (is_insertion k || (is_trim k || is_access k)) ≡ true
followed _ dumped = refl
followed _ trimmed = refl
followed _ accessed = refl

-- Suppose that the policy searches by its index, whose candidates are each tier's resident segments by
-- their last use. If it follows a committed dump, trim or access and returns, that holds again, the entry
-- of the segment at the leaf of the mutation has the blocks that the storage view counts on each tier and
-- the last use of each, and the entries of all other segments are as before.
pub on_commit-Refreshed :
    {F : Type 0} (m : StorageMutation) (view : StorageView) (s : RoundRobinPolicy F)
    → s.config.victim_search ≡ indexed
    → Follows m.kind
    → IsIndex s.index
    → Ensures
        (λ r.
          IsIndex r.index
          × ((leaf : NodeId)
              → segment_leaf_for view.tree m.segment_endpoint ≡ ok leaf
              → Refreshed view leaf s.index r.index))
        (on_commit m view s)
unfolding on_commit index_mutation
on_commit-Refreshed m view s c k i = Ensures-after _ (λ t.
    Ensures-if_known (is_indexed s.config.victim_search)
      (λ a. Ensures-after _ (λ counts.
        Ensures-if_known (is_insertion m.kind || (is_trim m.kind || is_access m.kind))
          (λ b. Ensures-known (segment_leaf_for view.tree m.segment_endpoint) (λ leaf e.
            Ensures-both (refresh_segment-IsIndex leaf view.tree s.index i)
              (refresh_segment-Refreshed leaf view s.index)
              (λ x j q.
                returns (j, λ other f. subst (λ h. Refreshed view h s.index x) (same_ok e f) q))))
          (λ b. cc (followed m.kind k, b))))
      (λ a. cc (c, a)))
