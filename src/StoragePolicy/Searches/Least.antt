-- ===== src/StoragePolicy/Searches/Least.antt =====
-- What `lru_leaf` of cpp/src/policies/storage/storage_policy_state.cpp finds.
use dwpdsim.Base.{
  same_ok, Ensures-map, ℕ, List, [], ◌∷◌, Option, none, some, ok, ◌≡◌, refl, Bool, true, false, not,
  arith, sym, subst, ◌∙◌, ◌==◌, ◌&&◌, contains, if◌then◌else◌, Ensures, returns, Ensures-known,
  Ensures-if_known, Ensures-bind, Ensures-ok, Ensures-map, Bool-cases, inl, inr, ==true→eq,
}
use mathlib.Core.Bool.{false≢true}
use dwpdsim.Types.{NodeId, StorageTier, tier_eq}
use dwpdsim.RadixTree.{has_node}
use dwpdsim.RadixTree.Walks.{segment_leaf_for}
use dwpdsim.StorageView.{StorageView}
use dwpdsim.StoragePolicy.Entries.{Entry, Entries, PolicyState, lookup}
use dwpdsim.StoragePolicy.Searches.{
  SegmentTime, Search, earlier, improve, is_candidate, segment_last_ns, lru_step, scan_entries,
  lru_leaf,
}

-- No candidate that was found comes after `c`.
abbrev pub yields : Option SegmentTime → SegmentTime → Bool
yields none c = false
yields (some b) c = not (earlier c b)

improve-yields_new :
    (n c : SegmentTime) (best : Option SegmentTime)
    → c.endpoint ≡ n.endpoint
    → c.timestamp_ns ≡ n.timestamp_ns
    → yields (improve n best) c ≡ true
unfolding improve
improve-yields_new n c none h k = ground (arith, h, k)
improve-yields_new n c (some b) h k = ground (arith, h, k)

improve-yields :
    (n c : SegmentTime) (best : Option SegmentTime)
    → yields best c ≡ true
    → yields (improve n best) c ≡ true
unfolding improve
improve-yields n c none h = cc
improve-yields n c (some b) h = ground (arith, h)

improve-cases :
    (n b : SegmentTime) (best : Option SegmentTime) (Q : SegmentTime → Type 0)
    → Q n
    → ((d : SegmentTime) → best ≡ some d → Q d)
    → improve n best ≡ some b
    → Q b
unfolding improve
improve-cases n b none Q h k e = subst Q (cc) h
improve-cases n b (some d) Q h k e = elim (Bool-cases (earlier n d)) [
  | inl y ↦ subst Q (ground (arith, y, e)) h
  | inr y ↦ subst Q (ground (arith, y, e)) (k d refl)
]

contains_later :
    (l : List ℕ) (x y : ℕ) → (y == x) ≡ false → contains (x ∷ l) y ≡ true → contains l y ≡ true
contains_later l x y n m = ground (arith, n, m)

found_first :
    (t : Bool) (d e : Entry) (o : Option Entry)
    → t ≡ true
    → (if t then some d else o) ≡ some e
    → d ≡ e
found_first true d e o t h = cc h
found_first false d e o t h = cc t

found_later :
    (t : Bool) (d e : Entry) (o : Option Entry)
    → t ≡ false
    → (if t then some d else o) ≡ some e
    → o ≡ some e
found_later true d e o t h = cc t
found_later false d e o t h = h

module _ (s : PolicyState) (tier : StorageTier) (protected_nodes : List NodeId)
    (view : StorageView) where
  -- An endpoint that may be chosen, with the time of its segment's last use on the tier.
  pub record IsEligible (c : SegmentTime) : Type 0 where
    pub candidate : is_candidate tier protected_nodes view c.endpoint ≡ ok true
    pub time : segment_last_ns s c.endpoint tier view ≡ ok c.timestamp_ns

  -- The search has the best of the eligible endpoints that it visited.
  record Keeps (k : Search) : Type 0 where
    sound : (b : SegmentTime) → k.best ≡ some b → IsEligible b
    least :
        (c : SegmentTime)
        → contains k.visited c.endpoint ≡ true
        → IsEligible c
        → yields k.best c ≡ true

  -- What a step of the search adds.
  record Adds (h : NodeId) (k k' : Search) : Type 0 where
    kept : Keeps k'
    grown : (x : NodeId) → contains k.visited x ≡ true → contains k'.visited x ≡ true
    reached : (x : NodeId) → segment_leaf_for view.tree h ≡ ok x → contains k'.visited x ≡ true

  visit-Keeps :
      (k : Search) (x last : ℕ)
      → Keeps k
      → IsEligible (record { endpoint = x; timestamp_ns = last })
      → Keeps (record {
        visited = x ∷ k.visited;
        best = improve (record { endpoint = x; timestamp_ns = last }) k.best;
      })
  visit-Keeps k x last i l = record {
    sound = λ b e. improve-cases _ b k.best IsEligible l i.sound e;
    least = λ c m f. elim (Bool-cases (c.endpoint == x)) [
      | inl y ↦ improve-yields_new _ c k.best (==true→eq _ _ y) (
          same_ok f.time
            (subst (λ z. segment_last_ns s z tier view ≡ ok last) (sym (==true→eq _ _ y)) l.time))
      | inr y ↦ improve-yields _ c k.best (i.least c (contains_later k.visited x c.endpoint y m) f)
    ];
  }

  pass-Keeps :
      (k : Search) (x : ℕ)
      → Keeps k
      → is_candidate tier protected_nodes view x ≡ ok false
      → Keeps (record k { visited = x ∷ k.visited })
  pass-Keeps k x i n = record {
    sound = i.sound;
    least = λ c m f. elim (Bool-cases (c.endpoint == x)) [
      | inl y ↦ absurd (
          false≢true (
            same_ok
              (subst (λ z. is_candidate tier protected_nodes view z ≡ ok false)
                (sym (==true→eq _ _ y)) n)
              f.candidate))
      | inr y ↦ i.least c (contains_later k.visited x c.endpoint y m) f
    ];
  }

  lru_step-Adds :
      (h : NodeId) (k : Search)
      → Keeps k
      → Ensures (Adds h k) (lru_step s tier protected_nodes view h k)
  unfolding lru_step
  lru_step-Adds h k i = Ensures-known _ λ x ex.
      Ensures-if_known _
        (λ m. returns (record {
          kept = i;
          grown = λ y n. n;
          reached = λ y ey. subst (λ z. contains k.visited z ≡ true) (same_ok ex ey) m;
        }))
        (λ m. Ensures-known _ λ cnd ec.
          Ensures-if_known cnd
            (λ yes_cnd. Ensures-known _ λ last el. returns (record {
              kept = visit-Keeps k x last i (record {
                candidate = subst (λ b. is_candidate tier protected_nodes view x ≡ ok b) yes_cnd ec;
                time = el;
              });
              grown = λ y n. ground (arith, n);
              reached = λ y ey. ground (arith, same_ok ex ey);
            }))
            (λ no_cnd. returns (record {
              kept =
                  pass-Keeps k x i
                    (subst (λ b. is_candidate tier protected_nodes view x ≡ ok b) no_cnd ec);
              grown = λ y n. ground (arith, n);
              reached = λ y ey. ground (arith, same_ok ex ey);
            })))

  -- The entry of a node that is in the tree, on the tier of the search.
  abbrev pub Listed : Entries → NodeId → Entry → Type 0
  Listed m h e = (lookup h m ≡ some e) × (tier_eq e.tier tier && has_node view.tree h ≡ true)

  -- What a scan of entries adds.
  record Covers (m : Entries) (k k' : Search) : Type 0 where
    kept : Keeps k'
    grown : (x : NodeId) → contains k.visited x ≡ true → contains k'.visited x ≡ true
    reached :
        (h : NodeId) (e : Entry) (x : NodeId)
        → Listed m h e
        → segment_leaf_for view.tree h ≡ ok x
        → contains k'.visited x ≡ true

  -- What the first round of a scan adds.
  record Starts (j : NodeId) (d : Entry) (k k' : Search) : Type 0 where
    kept : Keeps k'
    grown : (x : NodeId) → contains k.visited x ≡ true → contains k'.visited x ≡ true
    reached :
        tier_eq d.tier tier && has_node view.tree j ≡ true
        → (x : NodeId) → segment_leaf_for view.tree j ≡ ok x
        → contains k'.visited x ≡ true

  scan_entries-Covers :
      (m : Entries) (k : Search)
      → Keeps k
      → Ensures
          (Covers m k)
          (scan_entries (lru_step s tier protected_nodes view) tier view.tree m k)
  unfolding scan_entries lookup
  scan_entries-Covers [] k i =
      returns (record { kept = i; grown = λ x n. n; reached = λ h e x l r. cc (l.0) })
  scan_entries-Covers ((j, d) ∷ m) k i =
      Ensures-bind {P = Starts j d k}
        (Ensures-if_known _
          (λ t.
            Ensures-map (lru_step-Adds j k i) (λ k' a. record {
              kept = a.kept;
              grown = a.grown;
              reached = λ t' x r. a.reached x r;
            }))
          (λ f. returns (record {
            kept = i;
            grown = λ x n. n;
            reached = λ t x r. absurd (false≢true (sym f ∙ t));
          })))
        λ k1 a. Ensures-map (scan_entries-Covers m k1 a.kept) λ k2 c. record {
          kept = c.kept;
          grown = λ x n. c.grown x (a.grown x n);
          reached = λ h e x l r. elim (Bool-cases (h == j)) [
            | inl y ↦ c.grown x (
                a.reached
                  (subst (λ (z : Entry). tier_eq z.tier tier && has_node view.tree j ≡ true)
                    (sym (found_first _ d e _ y l.0))
                    (subst (λ z. tier_eq e.tier tier && has_node view.tree z ≡ true)
                      (==true→eq _ _ y) l.1))
                  x (subst (λ z. segment_leaf_for view.tree z ≡ ok x) (==true→eq _ _ y) r))
            | inr y ↦ c.reached h e x (found_later _ d e _ y l.0, l.1) r
          ];
        }

  -- The victim is eligible, and no eligible leaf of a listed node was used before it, or at the same
  -- time with a smaller identifier.
  pub record IsVictim (found : Option SegmentTime) : Type 0 where
    pub sound : (b : SegmentTime) → found ≡ some b → IsEligible b
    pub least :
        (h : NodeId) (e : Entry) (c : SegmentTime)
        → Listed s.entries h e
        → segment_leaf_for view.tree h ≡ ok c.endpoint
        → IsEligible c
        → yields found c ≡ true

  -- If the search returns, it returns an eligible leaf segment that was used least recently, the one
  -- with the least identifier among several, or nothing if no listed node lies in such a segment.
  pub lru_leaf-IsVictim :
      (found : Option SegmentTime)
      → lru_leaf s tier protected_nodes view ≡ ok found
      → IsVictim found
  unfolding lru_leaf
  lru_leaf-IsVictim found e =
      Ensures-ok {P = IsVictim} found
        (Ensures-bind
          (scan_entries-Covers s.entries (record { visited = []; best = none })
            (record { sound = λ b p. cc p; least = λ c p l. cc p }))
          λ k a. returns (record {
            sound = a.kept.sound;
            least = λ h e' c l r g. a.kept.least c (a.reached h e' c.endpoint l r) g;
          }))
        e
