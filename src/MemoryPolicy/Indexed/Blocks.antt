-- ===== src/MemoryPolicy/Indexed/Blocks.antt =====
-- What a mutation of the memory does to the residents and to the members of their segments.
use dwpdsim.Base.{
  ℕ, suc, zero, ◌<◌, ◌+◌, ◌≡◌, refl, subst, ◌∙◌, Bool, true, false, Option, none, some, ok, arith,
  Map, insert, erase, Key, insert_key, erase_key, ◌==◌, add64, add64_lem, u64_mod, ◌>>=◌, or_fail,
  or_fail-some, out_of_range, undefined, modify, Ensures, returns, fails, Ensures-bind,
  Ensures-after, Ensures-known, Ensures-option, Ensures-if, Vector, List, [],
}
use dwpdsim.Types.{NodeId}
use dwpdsim.RadixTree.{RadixTree, parent}
use dwpdsim.RadixTree.Walks.{segment_leaf_for}
use dwpdsim.MemoryPolicy.{MemoryMutation, MemoryMutationKind, inserted, accessed, removed}
use dwpdsim.MemoryPolicy.Indexed.{
  IndexedMemoryLruPolicy, MemoryPolicyWork, Resident, Segment, ensure_segment, last_key, unpublish,
  publish, changed_count, change_segment, change_from, change_ancestors,
}
use dwpdsim.MemoryPolicy.Indexed.Hooks.{insert_block, settle_block, change_block, on_commit}
use dwpdsim.MemoryPolicy.Indexed.Members.{
  Members, Handles, last_key-none, leave-Members, enter-Members, same-Members, close-Members,
  open-Members, change-Handles, open-Handles, close-Handles,
}

-- The policy's maps with other residents agree.
pub record Fits (residents : Map Resident) (s : IndexedMemoryLruPolicy) : Type 0 where
  pub members : Members residents s.segments
  pub handles : Handles s.next_handle s.endpoints s.segments

-- The members of the segments are the residents, and the handles lead to segments.
abbrev pub HasMembers : IndexedMemoryLruPolicy → Type 0
HasMembers s = Fits s.residents s

-- The policy has members and handles, and the residents and the last recency of an earlier state.
pub record Alike (given s : IndexedMemoryLruPolicy) : Type 0 where
  pub fits : HasMembers s
  pub held : (x : ℕ) → s.residents x ≡ given.residents x
  pub recency : s.next_recency ≡ given.next_recency

abbrev pub recency_of : Option Resident → Option ℕ
recency_of none = none
recency_of (some r) = some r.recency

-- A block has a recency, or none, and every other block stays as it was. Members and handles agree.
pub record Commits (x : NodeId) (o : Option ℕ) (given s : IndexedMemoryLruPolicy) : Type 0 where
  pub fits : HasMembers s
  pub block : recency_of (s.residents x) ≡ o
  pub others : (y : ℕ) → (y == x) ≡ false → s.residents y ≡ given.residents y

-- The recency that the end of a mutation gives to its block.
abbrev settled_as : MemoryMutationKind → ℕ → Option ℕ
settled_as accessed n = some (add64 n 1)
settled_as inserted n = none
settled_as removed n = none

-- The recency that a mutation gives to its block.
abbrev pub settled : MemoryMutationKind → ℕ → Option ℕ
settled inserted n = some (add64 n 1)
settled accessed n = some (add64 n 1)
settled removed n = none

module _ (Q : IndexedMemoryLruPolicy → Type 0) (s : IndexedMemoryLruPolicy) where
  -- Taking a segment out of its group changes the groups only.
  pub unpublish-Groups :
      (h : ℕ) → ((v : Vector (List Key)) → Q (record s { groups = v })) → Ensures Q (unpublish h s)
  unfolding unpublish
  unpublish-Groups h q = Ensures-after (or_fail (s.segments h) out_of_range) (λ g.
      Ensures-option (last_key g.members) (returns (q s.groups)) (λ k.
        Ensures-after (modify s.groups g.group (erase_key (k.0, g.endpoint))) (λ v. returns (q v))))

  -- Putting it back changes the groups, or takes out a segment without members.
  pub publish-Groups :
      (h : ℕ)
      → ((v : Vector (List Key)) → Q (record s { groups = v }))
      → ((g : Segment)
          → s.segments h ≡ some g
          → g.members ≡ []
          → Q (record s {
            endpoints = erase g.endpoint s.endpoints;
            segments = erase h s.segments;
          }))
      → Ensures Q (publish h s)
  unfolding publish
  publish-Groups h q e =
      Ensures-known (or_fail (s.segments h) out_of_range)
        (λ g f. settle g (found (s.segments h) g f) (last_key g.members) refl)
    where
      found : (o : Option Segment) (g : Segment) → or_fail o out_of_range ≡ ok g → o ≡ some g
      found none g f = cc f
      found (some j) g f = cc f

      settle :
          (g : Segment)
          → s.segments h ≡ some g
          → (o : Option Key) → last_key g.members ≡ o
          → Ensures Q (elim o [
            | none ↦ ok (record s {
              endpoints = erase g.endpoint s.endpoints;
              segments = erase h s.segments;
            })
            | some k ↦ do
              v ← modify s.groups g.group (insert_key (k.0, g.endpoint))
              ok (record s { groups = v })
          ])
      settle g f none n = returns (e g f (last_key-none g.members n))
      settle g f (some k) n =
          Ensures-after (modify s.groups g.group (insert_key (k.0, g.endpoint)))
            (λ v. returns (q v))

-- The counts of the ancestors change nothing else but the work counters.
change_from-Counts :
    (Q : IndexedMemoryLruPolicy → Type 0) (n : ℕ) (tree : RadixTree) (b : Bool) (x : Option NodeId)
    (s : IndexedMemoryLruPolicy)
    → ((c : Map ℕ) (w : MemoryPolicyWork) → Q (record s { subtree_memory = c; work = w }))
    → Ensures Q (change_from n tree b x s)
unfolding change_from
change_from-Counts Q n tree b none s q = returns (q s.subtree_memory s.work)
change_from-Counts Q zero tree b (some x) s q = fails
change_from-Counts Q (suc n) tree b (some x) s q =
    Ensures-after (changed_count b (s.subtree_memory x))
      (λ count. Ensures-after (parent tree x) (λ up. change_from-Counts Q n tree b up _ q))

publish-Commits :
    (h : ℕ) (x : NodeId) (o : Option ℕ) (given s : IndexedMemoryLruPolicy)
    → Commits x o given s
    → Ensures (Commits x o given) (publish h s)
publish-Commits h x o given s c =
    publish-Groups (Commits x o given) s h
      (λ v. record {
        fits = record { members = c.fits.members; handles = c.fits.handles };
        block = c.block;
        others = c.others;
      })
      (λ g f e. record {
        fits = record {
          members = close-Members s.residents s.segments c.fits.members h g f e;
          handles = close-Handles s.next_handle s.endpoints s.segments c.fits.handles h g f;
        };
        block = c.block;
        others = c.others;
      })

pub unpublish-Alike :
    (h : ℕ) (given s : IndexedMemoryLruPolicy)
    → Alike given s
    → Ensures (Alike given) (unpublish h s)
unpublish-Alike h given s a = unpublish-Groups (Alike given) s h (λ v. record {
  fits = record { members = a.fits.members; handles = a.fits.handles };
  held = a.held;
  recency = a.recency;
})

pub ensure_segment-Alike :
    (e : NodeId) (s : IndexedMemoryLruPolicy)
    → HasMembers s
    → s.next_handle + 1 < u64_mod
    → Ensures (λ out. Alike s out.1) (ensure_segment e s)
unfolding ensure_segment
ensure_segment-Alike e s f b = go (s.endpoints e) refl
  where
    handle : add64 s.next_handle 1 ≡ s.next_handle + 1
    handle = add64_lem s.next_handle 1 b

    go : (o : Option ℕ) → s.endpoints e ≡ o → Ensures (λ out. Alike s out.1) (ensure_segment e s)
    go (some h) q =
        rw (q, ensure_segment) (returns (record { fits = f; held = λ x. refl; recency = refl }))
    go none q =
        rw (q, ensure_segment)
          (Ensures-if (s.groups.size == 0) (fails {e = undefined}) (
            returns (record {
              fits = record {
                members =
                    open-Members s.residents s.segments f.members (add64 s.next_handle 1) _
                      (f.handles.fresh (add64 s.next_handle 1) (omega (arith, handle))) refl;
                handles =
                    open-Handles s.next_handle s.endpoints s.segments f.handles _
                      (add64 s.next_handle 1) handle q;
              };
              held = λ x. refl;
              recency = refl;
            })))

pub found : (o : Option Segment) (g : Segment) → or_fail o out_of_range ≡ ok g → o ≡ some g
found none g f = cc f
found (some j) g f = cc f

-- A segment's members change with the residents.
pub change_segment-Ensures :
    (Q : IndexedMemoryLruPolicy → Type 0) (h : ℕ) (f : Segment → Segment)
    (s : IndexedMemoryLruPolicy)
    → ((g : Segment)
        → s.segments h ≡ some g
        → Q (record s { segments = insert h (f g) s.segments }))
    → Ensures Q (change_segment h f s)
change_segment-Ensures Q h f s q =
    Ensures-known (or_fail (s.segments h) out_of_range) (λ g e. returns (q g (found _ g e)))

-- Every member but the block's is a resident.
pub record Emptied (x : NodeId) (given s : IndexedMemoryLruPolicy) : Type 0 where
  pub fits : Fits (erase x s.residents) s
  pub held : (y : ℕ) → s.residents y ≡ given.residents y

forgotten :
    (x : NodeId) (tree : RadixTree) (given s : IndexedMemoryLruPolicy)
    → Fits (erase x s.residents) s
    → ((y : ℕ) → s.residents y ≡ given.residents y)
    → Ensures
        (Commits x none given)
        (change_ancestors tree x false s >>= λ t. ok (record t { residents = erase x t.residents }))
unfolding change_ancestors
forgotten x tree given s f h =
    Ensures-bind
      (change_from-Counts (Emptied x given) (suc tree.nodes.size) tree false (some x) s
        (λ c w. record { fits = record { members = f.members; handles = f.handles }; held = h }))
      (λ t a. returns (record {
        fits = record { members = a.fits.members; handles = a.fits.handles };
        block = ground arith;
        others = λ y d. ground (arith, d, a.held y);
      }))

settle_block-Commits :
    (kind : MemoryMutationKind) (x : NodeId) (r : Resident) (tree : RadixTree)
    (given s : IndexedMemoryLruPolicy)
    → Fits (erase x s.residents) s
    → ((y : ℕ) → s.residents y ≡ given.residents y)
    → Ensures (Commits x (settled_as kind s.next_recency) given) (settle_block kind x r tree s)
unfolding settle_block
settle_block-Commits accessed x r tree given s f h =
    let r' : Resident = record r { recency = add64 s.next_recency 1 } in
    change_segment-Ensures _ r.segment _ _ (λ g e. record {
      fits = record {
        members =
            same-Members (insert x r' (erase x s.residents)) _
              (enter-Members (erase x s.residents) s.segments f.members x r' g (ground arith) e)
              (insert x r' s.residents) (λ y. ground arith);
        handles =
            change-Handles s.next_handle s.endpoints s.segments f.handles r.segment g _ e refl;
      };
      block = ground arith;
      others = λ y d. ground (arith, d, h y);
    })
settle_block-Commits inserted x r tree given s f h = forgotten x tree given s f h
settle_block-Commits removed x r tree given s f h = forgotten x tree given s f h

record Left (x : NodeId) (given s : IndexedMemoryLruPolicy) : Type 0 where
  emptied : Emptied x given s
  recency : s.next_recency ≡ given.next_recency

change_block-Commits :
    (kind : MemoryMutationKind) (x : NodeId) (tree : RadixTree) (given : IndexedMemoryLruPolicy)
    → HasMembers given
    → Ensures
        (Commits x (settled_as kind given.next_recency) given)
        (change_block kind x tree given)
unfolding change_block
change_block-Commits kind x tree given f =
    Ensures-known (or_fail (given.residents x) undefined) (λ r q.
      let e : given.residents x ≡ some r = or_fail-some (given.residents x) r q in
      Ensures-bind
        (unpublish-Alike r.segment given given
          (record { fits = f; held = λ y. refl; recency = refl }))
        (λ s a.
          Ensures-bind
            (change_segment-Ensures (Left x given) r.segment _ s (λ g j. record {
              emptied = record {
                fits = record {
                  members =
                      leave-Members s.residents s.segments a.fits.members x r g (a.held x ∙ e) j;
                  handles =
                      change-Handles s.next_handle s.endpoints s.segments a.fits.handles r.segment g
                        _ j refl;
                };
                held = a.held;
              };
              recency = a.recency;
            }))
            (λ s1 l.
              Ensures-bind
                (settle_block-Commits kind x r tree given s1 l.emptied.fits l.emptied.held)
                (λ s2 c.
                  publish-Commits r.segment x (settled_as kind given.next_recency) given s2
                    (subst (λ n. Commits x (settled_as kind n) given s2) l.recency c)))))

insert_block-Commits :
    (x : NodeId) (tree : RadixTree) (given : IndexedMemoryLruPolicy)
    → HasMembers given
    → given.next_handle + 1 < u64_mod
    → given.residents x ≡ none
    → Ensures (Commits x (some (add64 given.next_recency 1)) given) (insert_block x tree given)
unfolding insert_block change_ancestors
insert_block-Commits x tree given f b n = Ensures-after (segment_leaf_for tree x) (λ leaf.
    Ensures-bind (ensure_segment-Alike leaf given f b) (λ out a0.
      Ensures-bind (unpublish-Alike out.0 given out.1 a0) (λ s a.
        let fresh : Resident = record { recency = add64 s.next_recency 1; segment = out.0 } in
        let none_yet : s.residents x ≡ none = a.held x ∙ n in
        Ensures-bind
          (change_segment-Ensures (Commits x (some (add64 given.next_recency 1)) given) out.0 _ _
            (λ g j. record {
              fits = record {
                members =
                    same-Members (insert x fresh s.residents) _
                      (enter-Members s.residents s.segments a.fits.members x fresh g none_yet j) _
                      (λ y. rw none_yet refl);
                handles =
                    change-Handles s.next_handle s.endpoints s.segments a.fits.handles out.0 g _ j
                      refl;
              };
              block = rw none_yet (ground (arith, a.recency));
              others = λ y d. rw none_yet (ground (arith, d, a.held y));
            }))
          (λ s1 c.
            Ensures-bind
              (change_from-Counts (Commits x (some (add64 given.next_recency 1)) given)
                (suc tree.nodes.size) tree true (some x) s1
                (λ m w. record {
                  fits = record { members = c.fits.members; handles = c.fits.handles };
                  block = c.block;
                  others = c.others;
                }))
              (λ s2 c2. publish-Commits out.0 x _ given s2 c2)))))

-- Suppose that the members of every segment are the resident blocks that name it, each with its recency,
-- that the handle of an endpoint leads to a segment with that endpoint, and that the handles have not
-- passed 64 bits. If the policy follows a block that is accessed, removed, or inserted when it was not
-- resident, and returns, both hold again; the block has the next recency, or is no longer resident if it
-- was removed; and every other block keeps its recency and its segment.
pub on_commit-Commits :
    (m : MemoryMutation) (tree : RadixTree) (s : IndexedMemoryLruPolicy)
    → HasMembers s
    → s.next_handle + 1 < u64_mod
    → (m.kind ≡ inserted → s.residents m.node_id ≡ none)
    → Ensures (Commits m.node_id (settled m.kind s.next_recency) s) (on_commit m tree s)
unfolding on_commit
on_commit-Commits m tree s f b = go m.kind
  where
    go :
        (k : MemoryMutationKind)
        → (k ≡ inserted → s.residents m.node_id ≡ none)
        → Ensures (Commits m.node_id (settled k s.next_recency) s) (elim k [
          | inserted ↦ insert_block m.node_id tree s
          | accessed ↦ change_block accessed m.node_id tree s
          | removed ↦ change_block removed m.node_id tree s
        ])
    go inserted n = insert_block-Commits m.node_id tree s f b (n refl)
    go accessed n = change_block-Commits accessed m.node_id tree s f
    go removed n = change_block-Commits removed m.node_id tree s f
