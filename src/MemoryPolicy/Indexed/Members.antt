-- ===== src/MemoryPolicy/Indexed/Members.antt =====
-- The members of the segments against the residents, and the handles of the segments against their
-- endpoints, as the maps change.
use dwpdsim.Base.{
  ℕ, ◌<◌, ◌+◌, ◌⊎◌, ◌≡◌, refl, ap, ◌∙◌, Bool, false, List, [], ◌∷◌, Option, none, some, arith, Map,
  insert, erase, Key, Ascends, has_key, insert_key, erase_key, insert_key-Ascends,
  erase_key-Ascends, has_key-insert_key, has_key-erase_key, ◌==◌, ◌&&◌, Bool-cases, inl, inr,
}
use dwpdsim.Types.{NodeId}
use dwpdsim.MemoryPolicy.Indexed.{Resident, Segment, last_key, emplace}

abbrev pub members_of : Option Segment → List Key
members_of none = []
members_of (some g) = g.members

abbrev pub endpoint_of : Option Segment → Option NodeId
endpoint_of none = none
endpoint_of (some g) = some g.endpoint

-- Whether a block is resident with a recency and in a segment.
abbrev pub is_home : Option Resident → ℕ → ℕ → Bool
is_home none t h = false
is_home (some r) t h = t == r.recency && h == r.segment

-- The members of every segment are the resident blocks that name it, each with its recency.
pub record Members (residents : Map Resident) (segments : Map Segment) : Type 0 where
  pub ordered : (h : ℕ) → Ascends (members_of (segments h))
  pub same : (h t x : ℕ) → has_key (t, x) (members_of (segments h)) ≡ is_home (residents x) t h

-- No segment has a handle that is still to come, and an endpoint's handle leads to a segment with that
-- endpoint.
pub record Handles (next : ℕ) (endpoints : Map ℕ) (segments : Map Segment) : Type 0 where
  pub fresh : (h : ℕ) → next < h → segments h ≡ none
  pub known : (e h : ℕ) → endpoints e ≡ some h → endpoint_of (segments h) ≡ some e

pub last_key-none : (l : List Key) → last_key l ≡ none → l ≡ []
last_key-none [] e = refl
last_key-none (k ∷ []) e = cc e
last_key-none (k ∷ j ∷ l) e = cc (last_key-none (j ∷ l) e)

module _ (residents : Map Resident) (segments : Map Segment) (m : Members residents segments) where
  pub same-Members :
      (other : Map Resident) → ((x : ℕ) → residents x ≡ other x) → Members other segments
  same-Members other e = record {
    ordered = m.ordered;
    same = λ h t x. m.same h t x ∙ ap (λ o. is_home o t h) (e x);
  }

  -- A block leaves its segment.
  pub leave-Members :
      (x : NodeId) (r : Resident) (g : Segment)
      → residents x ≡ some r
      → segments r.segment ≡ some g
      → Members
          (erase x residents)
          (insert r.segment (record g { members = erase_key (r.recency, x) g.members }) segments)
  leave-Members x r g e f = record {
    ordered = λ h.
        ground
          (arith, m.ordered h, m.ordered r.segment, f, erase_key-Ascends (r.recency, x) g.members);
    same = λ h t y. ground (
      arith,
      m.same h t y,
      m.same r.segment t y,
      m.ordered r.segment,
      f,
      e,
      has_key-erase_key (t, y) (r.recency, x) g.members,
    );
  }

  -- A block enters a segment.
  pub enter-Members :
      (x : NodeId) (r : Resident) (g : Segment)
      → residents x ≡ none
      → segments r.segment ≡ some g
      → Members
          (insert x r residents)
          (insert r.segment (record g { members = insert_key (r.recency, x) g.members }) segments)
  enter-Members x r g e f = record {
    ordered = λ h.
        ground
          (arith, m.ordered h, m.ordered r.segment, f, insert_key-Ascends (r.recency, x) g.members);
    same = λ h t y. ground (
      arith,
      m.same h t y,
      m.same r.segment t y,
      f,
      e,
      has_key-insert_key (t, y) (r.recency, x) g.members,
    );
  }

  -- A segment without members comes or goes, and an endpoint changes.
  pub close-Members :
      (h : ℕ) (g : Segment)
      → segments h ≡ some g
      → g.members ≡ []
      → Members residents (erase h segments)
  close-Members h g e f = record {
    ordered = λ k. ground (arith, m.ordered k, m.ordered h, e, f);
    same = λ k t y. ground (arith, m.same k t y, m.same h t y, e, f);
  }

  pub open-Members :
      (h : ℕ) (g : Segment)
      → segments h ≡ none
      → g.members ≡ []
      → Members residents (insert h g segments)
  open-Members h g e f = record {
    ordered = λ k. ground (arith, m.ordered k, m.ordered h, e, f);
    same = λ k t y. ground (arith, m.same k t y, m.same h t y, e, f);
  }

  pub rename-Members :
      (h : ℕ) (g j : Segment)
      → segments h ≡ some g
      → g.members ≡ j.members
      → Members residents (insert h j segments)
  rename-Members h g j e f = record {
    ordered = λ k. ground (arith, m.ordered k, m.ordered h, e, f);
    same = λ k t y. ground (arith, m.same k t y, m.same h t y, e, f);
  }

emplace-cases :
    (e h : ℕ) (m : Map ℕ) (x k : ℕ)
    → emplace e h m x ≡ some k
    → (m x ≡ some k) ⊎ ((x ≡ e) × (k ≡ h))
emplace-cases e h m x k = go (m e)
  where
    outcome : Option ℕ → Map ℕ
    outcome o = elim o [ none ↦ insert e h m | some w ↦ m ]

    go : (o : Option ℕ) → outcome o x ≡ some k → (m x ≡ some k) ⊎ ((x ≡ e) × (k ≡ h))
    go (some w) q = inl q
    go none q = elim (Bool-cases (x == e)) [
      | inl z ↦ inr (ground (arith, z), ground (arith, z, q))
      | inr z ↦ inl (ground (arith, z, q))
    ]

module _ (next : ℕ) (endpoints : Map ℕ) (segments : Map Segment)
    (l : Handles next endpoints segments) where
  -- A segment changes and keeps its endpoint.
  pub change-Handles :
      (h : ℕ) (g j : Segment)
      → segments h ≡ some g
      → g.endpoint ≡ j.endpoint
      → Handles next endpoints (insert h j segments)
  change-Handles h g j e f = record {
    fresh = λ k b. ground (arith, l.fresh k b, e);
    known = λ x k q. ground (arith, l.known x k q, e, f);
  }

  -- A segment is opened with the next handle.
  pub open-Handles :
      (g : Segment) (n : ℕ)
      → n ≡ next + 1
      → endpoints g.endpoint ≡ none
      → Handles n (insert g.endpoint n endpoints) (insert n g segments)
  open-Handles g n w e = record {
    fresh = λ k c. ground (arith, l.fresh k (omega (arith, c, w)), c);
    known = λ x k q. elim (Bool-cases (x == g.endpoint)) [
      | inl z ↦ ground (arith, q, z)
      | inr z ↦
          let old : endpoints x ≡ some k = ground (arith, q, z) in
          elim (Bool-cases (k == n)) [
            | inl y ↦ ground (arith, l.known x k old, l.fresh k (ground (arith, y, w)))
            | inr y ↦ ground (arith, l.known x k old, y)
          ]
    ];
  }

  pub close-Handles :
      (h : ℕ) (g : Segment)
      → segments h ≡ some g
      → Handles next (erase g.endpoint endpoints) (erase h segments)
  close-Handles h g e = record {
    fresh = λ k b. ground (arith, l.fresh k b);
    known = λ x k q. ground (arith, l.known x k, q, e);
  }

  pub rename-Handles :
      (h : ℕ) (g : Segment) (endpoint : NodeId)
      → segments h ≡ some g
      → Handles next
          (emplace endpoint h (erase g.endpoint endpoints))
          (insert h (record g { endpoint = endpoint }) segments)
  rename-Handles h g endpoint e = record {
    fresh = λ k b. ground (arith, l.fresh k b, e);
    known = λ x k q. elim (emplace-cases endpoint h (erase g.endpoint endpoints) x k q) [
      | inl old ↦ ground (arith, l.known x k, old, e)
      | inr new ↦ ground (arith, new.0, new.1)
    ];
  }
