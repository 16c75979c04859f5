-- ===== src/StoragePolicy/RoundRobin/Index.antt =====
-- The index of the resident segments and the candidates of the tiers agree.
use dwpdsim.Base.{
  ℕ, ◌≡◌, refl, Bool, false, not, List, Option, none, some, arith, Map, insert, erase, Key, Ascends,
  has_key, insert_key-Ascends, erase_key-Ascends, has_key-insert_key, has_key-erase_key, ◌==◌, ◌&&◌,
  Bool-cases, inl, inr, Ensures, returns, Ensures-bind, Ensures-after, Ensures-if, Ensures-option,
}
use dwpdsim.Types.{NodeId, StorageTier, slc, tlc, at_tier}
use dwpdsim.RadixTree.{RadixTree, parent, child_count}
use dwpdsim.RadixTree.Walks.{resolve_segment, segment_leaf_for, children}
use dwpdsim.StoragePolicy.RoundRobin.{
  Segment, SegmentIndex, without, with_key, erase_segment, insert_segment, refresh_segment,
  count_nodes, no_segment,
}
use dwpdsim.StoragePolicy.RoundRobin.Decisions.{split_index, index_created, index_pruned}

-- Whether a segment has resident blocks of a tier, the newest of them used at a time.
abbrev pub is_listed : StorageTier → Option Segment → ℕ → Bool
is_listed tier none t = false
is_listed tier (some g) t = not (at_tier tier g.resident_blocks == 0) && t == at_tier tier g.last_ns

-- The candidates of a tier are the resident segments by their last use.
pub record Lists (tier : StorageTier) (l : List Key) (m : Map Segment) : Type 0 where
  pub ordered : Ascends l
  pub same : (t e : ℕ) → has_key (t, e) l ≡ is_listed tier (m e) t

without-Lists :
    (tier : StorageTier) (l : List Key) (m : Map Segment) (endpoint : NodeId) (g : Segment)
    → m endpoint ≡ some g
    → Lists tier l m
    → Lists tier
        (without (at_tier tier g.resident_blocks) (at_tier tier g.last_ns, endpoint) l)
        (erase endpoint m)
without-Lists tier l m endpoint g e x = elim (Bool-cases (at_tier tier g.resident_blocks == 0)) [
  | inl z ↦ rw z (record { ordered = x.ordered; same = λ t k. ground (arith, x.same t k, e, z) })
  | inr z ↦ rw z (record {
    ordered = erase_key-Ascends (at_tier tier g.last_ns, endpoint) l x.ordered;
    same = λ t k. ground (
      arith,
      x.same t k,
      e,
      z,
      has_key-erase_key (t, k) (at_tier tier g.last_ns, endpoint) l x.ordered,
    );
  })
]

with-Lists :
    (tier : StorageTier) (l : List Key) (m : Map Segment) (endpoint : NodeId) (g : Segment)
    → m endpoint ≡ none
    → Lists tier l m
    → Lists tier
        (with_key (at_tier tier g.resident_blocks) (at_tier tier g.last_ns, endpoint) l)
        (insert endpoint g m)
with-Lists tier l m endpoint g e x = elim (Bool-cases (at_tier tier g.resident_blocks == 0)) [
  | inl z ↦ rw z (record { ordered = x.ordered; same = λ t k. ground (arith, x.same t k, e, z) })
  | inr z ↦ rw z (record {
    ordered = insert_key-Ascends (at_tier tier g.last_ns, endpoint) l x.ordered;
    same = λ t k.
        ground
          (arith, x.same t k, e, z, has_key-insert_key (t, k) (at_tier tier g.last_ns, endpoint) l);
  })
]

-- Both tiers' candidates agree with the segments.
pub record IsIndex (x : SegmentIndex) : Type 0 where
  pub slc_lists : Lists slc x.candidates.slc_part x.segments
  pub tlc_lists : Lists tlc x.candidates.tlc_part x.segments

erase_segment-IsIndex :
    (endpoint : NodeId) (x : SegmentIndex)
    → IsIndex x
    → IsIndex (erase_segment endpoint x) × ((erase_segment endpoint x).segments endpoint ≡ none)
unfolding erase_segment
erase_segment-IsIndex endpoint x i = go (x.segments endpoint) refl
  where
    outcome : Option Segment → SegmentIndex
    outcome o = elim o [
      | none ↦ x
      | some g ↦ record {
        segments = erase endpoint x.segments;
        candidates = record {
          slc_part =
              without g.resident_blocks.slc_part (g.last_ns.slc_part, endpoint)
                x.candidates.slc_part;
          tlc_part =
              without g.resident_blocks.tlc_part (g.last_ns.tlc_part, endpoint)
                x.candidates.tlc_part;
        };
      }
    ]

    go :
        (o : Option Segment)
        → x.segments endpoint ≡ o
        → IsIndex (outcome o) × ((outcome o).segments endpoint ≡ none)
    go none e = (i, e)
    go (some g) e = (
      record {
        slc_lists = without-Lists slc x.candidates.slc_part x.segments endpoint g e i.slc_lists;
        tlc_lists = without-Lists tlc x.candidates.tlc_part x.segments endpoint g e i.tlc_lists;
      },
      ground arith,
    )

insert_segment-IsIndex :
    (endpoint : NodeId) (g : Segment) (x : SegmentIndex)
    → x.segments endpoint ≡ none
    → IsIndex x
    → IsIndex (insert_segment endpoint g x)
unfolding insert_segment
insert_segment-IsIndex endpoint g x e i =
    elim (Bool-cases (g.resident_blocks.slc_part == 0 && g.resident_blocks.tlc_part == 0)) [
      | inl z ↦ rw z i
      | inr z ↦ rw z (record {
        slc_lists = with-Lists slc x.candidates.slc_part x.segments endpoint g e i.slc_lists;
        tlc_lists = with-Lists tlc x.candidates.tlc_part x.segments endpoint g e i.tlc_lists;
      })
    ]

pub refresh_segment-IsIndex :
    (endpoint : NodeId) (tree : RadixTree) (x : SegmentIndex)
    → IsIndex x
    → Ensures IsIndex (refresh_segment endpoint tree x)
unfolding refresh_segment
refresh_segment-IsIndex endpoint tree x i = Ensures-after (resolve_segment tree endpoint) (λ nodes.
    Ensures-after (count_nodes tree nodes no_segment) (λ g.
      let w = erase_segment-IsIndex endpoint x i in
      returns (insert_segment-IsIndex endpoint g (erase_segment endpoint x) w.1 w.0)))

split_index-IsIndex :
    (node_id up : NodeId) (tree : RadixTree) (x : SegmentIndex)
    → IsIndex x
    → Ensures IsIndex (split_index node_id up tree x)
unfolding split_index
split_index-IsIndex node_id up tree x i = Ensures-after (children tree up) (λ below.
    Ensures-after _ (λ sibling. Ensures-after (segment_leaf_for tree sibling) (λ suffix.
      Ensures-if _
        (Ensures-bind (refresh_segment-IsIndex up tree x i)
          (λ y j. refresh_segment-IsIndex suffix tree y j))
        (returns i))))

-- If the index follows a new node of the tree and returns, each tier's candidates are again its resident
-- segments by their last use.
pub index_created-IsIndex :
    (node_id : NodeId) (tree : RadixTree) (x : SegmentIndex)
    → IsIndex x
    → Ensures IsIndex (index_created node_id tree x)
unfolding index_created
index_created-IsIndex node_id tree x i = Ensures-after (parent tree node_id) (λ p.
    Ensures-option p (returns i) (λ up. Ensures-after (child_count tree up) (λ n.
      Ensures-if (n == 1)
        (Ensures-if _
          (refresh_segment-IsIndex node_id tree (erase_segment up x)
            (erase_segment-IsIndex up x i).0)
          (returns i))
        (Ensures-if (n == 2) (split_index-IsIndex node_id up tree x i) (returns i)))))

-- If the index follows the loss of a node of the tree and returns, each tier's candidates are again its
-- resident segments by their last use.
pub index_pruned-IsIndex :
    (node_id : NodeId) (up : Option NodeId) (tree : RadixTree) (x : SegmentIndex)
    → IsIndex x
    → Ensures IsIndex (index_pruned node_id up tree x)
unfolding index_pruned
index_pruned-IsIndex node_id none tree x i = returns (erase_segment-IsIndex node_id x i).0
index_pruned-IsIndex node_id (some up) tree x i =
    let j = (erase_segment-IsIndex node_id x i).0 in
    Ensures-after (child_count tree up) (λ n.
      Ensures-if (n == 0)
        (Ensures-if _ (refresh_segment-IsIndex up tree (erase_segment node_id x) j) (returns j))
        (Ensures-if (n == 1)
          (Ensures-after (segment_leaf_for tree up) (λ suffix.
            Ensures-if _
              (refresh_segment-IsIndex suffix tree (erase_segment up (erase_segment node_id x))
                (erase_segment-IsIndex up (erase_segment node_id x) j).0)
              (returns j)))
          (returns j)))
