-- ===== src/MemoryPolicy/Indexed/Splitting.antt =====
-- What a new node does to the residents and to the members of the segments.
use dwpdsim.Base.{
  ℕ, ◌<◌, ◌+◌, ◌≡◌, refl, sym, ap, subst, ◌∙◌, true, false, List, [], ◌∷◌, Option, none, some, ok,
  arith, insert, erase, insert_key, erase_key, contains, Distinct, ◌==◌, Bool-cases, inl, inr,
  u64_mod, ◌>>=◌, for_each, if◌then◌else◌, Ensures, returns, Ensures-bind, Ensures-known,
  Ensures-if, Ensures-if_known, Ensures-option,
}
use dwpdsim.Types.{NodeId}
use dwpdsim.RadixTree.{RadixTree, parent, child_count}
use dwpdsim.RadixTree.Walks.{resolve_segment}
use dwpdsim.MemoryPolicy.Indexed.{IndexedMemoryLruPolicy, Resident, Segment, move_endpoint}
use dwpdsim.MemoryPolicy.Indexed.Hooks.{
  count_move, Split, open_split, split_member, split_segment, on_node_created,
}
use dwpdsim.MemoryPolicy.Indexed.Members.{
  Members, same-Members, leave-Members, enter-Members, change-Handles,
}
use dwpdsim.MemoryPolicy.Indexed.Blocks.{
  Emptied, HasMembers, Alike, unpublish-Groups, ensure_segment-Alike, change_segment-Ensures,
}
use dwpdsim.MemoryPolicy.Indexed.Merging.{Regrouped, publish-Regrouped, move_endpoint-Regrouped}

-- The listed blocks that are resident are in one segment.
abbrev pub InSegment : ℕ → List NodeId → IndexedMemoryLruPolicy → Type 0
InSegment h nodes s =
    (x : NodeId) (r : Resident) → contains nodes x ≡ true → s.residents x ≡ some r → r.segment ≡ h

-- The handles of a split lead from the segment that is split.
abbrev FromSegment : ℕ → Option (ℕ × ℕ) → ℕ → Type 0
FromSegment h none next = next + 1 < u64_mod
FromSegment h (some p) next = p.1 ≡ h

record Splits (h : ℕ) (nodes : List NodeId) (given : IndexedMemoryLruPolicy) (k : Split)
    : Type 0 where
  regrouped : Regrouped given k.policy
  rest : InSegment h nodes k.policy
  from : FromSegment h k.handles k.policy.next_handle

-- The members and handles after a split is open.
record Opened (h : ℕ) (given : IndexedMemoryLruPolicy) (out : (ℕ × ℕ) × IndexedMemoryLruPolicy)
    : Type 0 where
  alike : Alike given out.1
  from : out.0.1 ≡ h

record Closed (given s : IndexedMemoryLruPolicy) : Type 0 where
  alike : Alike given s
  room : s.next_handle + 1 < u64_mod

Alike-trans : (a b c : IndexedMemoryLruPolicy) → Alike a b → Alike b c → Alike a c
Alike-trans a b c p q = record {
  fits = q.fits;
  held = λ x. q.held x ∙ p.held x;
  recency = q.recency ∙ p.recency;
}

open_split-Opened :
    (h : ℕ) (up : NodeId) (r : Resident) (o : Option (ℕ × ℕ)) (s : IndexedMemoryLruPolicy)
    → HasMembers s
    → r.segment ≡ h
    → FromSegment h o s.next_handle
    → Ensures (Opened h s) (open_split up r o s)
unfolding open_split
open_split-Opened h up r (some p) s f e d =
    returns (record { alike = record { fits = f; held = λ x. refl; recency = refl }; from = d })
open_split-Opened h up r none s f e d =
    Ensures-bind {P = Closed s}
      (unpublish-Groups (Closed s) s r.segment (λ v. record {
        alike = record {
          fits = record { members = f.members; handles = f.handles };
          held = λ x. refl;
          recency = refl;
        };
        room = d;
      }))
      (λ t c.
        Ensures-bind (ensure_segment-Alike up t c.alike.fits c.room)
          (λ out a. returns (record { alike = Alike-trans s t out.1 c.alike a; from = e })))

split_member-Splits :
    (h : ℕ) (up x : NodeId) (nodes : List NodeId) (given : IndexedMemoryLruPolicy) (k : Split)
    → contains nodes x ≡ false
    → Splits h (x ∷ nodes) given k
    → Ensures (Splits h nodes given) (split_member up x k)
unfolding split_member
split_member-Splits h up x nodes given k new p = go (k.policy.residents x) refl
  where
    Landed : ℕ × ℕ → Resident → IndexedMemoryLruPolicy → Type 0
    Landed handles r s2 = Splits h nodes given (record {
      policy =
          count_move
            (record s2 { residents = insert x (record r { segment = handles.0 }) s2.residents });
      handles = some handles;
    })

    landed :
        (handles : ℕ × ℕ) (r : Resident) (s1 : IndexedMemoryLruPolicy)
        → Emptied x k.policy s1
        → k.policy.residents x ≡ some r
        → handles.1 ≡ h
        → (g : Segment) → s1.segments handles.0 ≡ some g
        → Landed handles r (record s1 {
          segments =
              insert handles.0
                (record g { members = insert_key (r.recency, x) g.members })
                s1.segments;
        })
    landed handles r s1 l e c g j =
        let r' : Resident = record r { segment = handles.0 } in
        record {
          regrouped = record {
            fits = record {
              members =
                  same-Members (insert x r' (erase x s1.residents)) _
                    (enter-Members (erase x s1.residents) s1.segments l.fits.members x r' g
                      (ground arith) j)
                    (insert x r' s1.residents) (λ y. ground arith);
              handles =
                  change-Handles s1.next_handle s1.endpoints s1.segments l.fits.handles handles.0 g
                    _ j refl;
            };
            kept = λ y. elim (Bool-cases (y == x)) [
              | inl z ↦ ground (arith, p.regrouped.kept x, e, z)
              | inr z ↦ ground (arith, l.held y, p.regrouped.kept y, z)
            ];
          };
          rest = λ y r2 m q.
              p.rest y r2 (ground (arith, m)) (sym (l.held y) ∙ ground (arith, m, new, q));
          from = c;
        }

    go :
        (o : Option Resident)
        → k.policy.residents x ≡ o
        → Ensures (Splits h nodes given) (split_member up x k)
    go none e =
        rw (e, split_member)
          (returns (record {
            regrouped = record {
              fits = record {
                members = p.regrouped.fits.members;
                handles = p.regrouped.fits.handles;
              };
              kept = p.regrouped.kept;
            };
            rest = λ y r c q. p.rest y r (ground (arith, c)) q;
            from = p.from;
          }))
    go (some r) e =
        rw (e, split_member)
          (Ensures-bind
            (open_split-Opened h up r k.handles _
              (record { members = p.regrouped.fits.members; handles = p.regrouped.fits.handles })
              (p.rest x r (ground arith) e) p.from)
            (λ out a.
              let seg : r.segment ≡ out.0.1 = p.rest x r (ground arith) e ∙ sym a.from in
              Ensures-bind
                (change_segment-Ensures (Emptied x k.policy) out.0.1 _ out.1 (λ g j. record {
                  fits = record {
                    members =
                        subst
                          (λ q. Members (erase x out.1.residents) (
                            insert q (record g { members = erase_key (r.recency, x) g.members })
                              out.1.segments))
                          seg
                          (leave-Members out.1.residents out.1.segments a.alike.fits.members x r g
                            (a.alike.held x ∙ e)
                            (subst (λ q. out.1.segments q ≡ some g) (sym seg) j));
                    handles =
                        change-Handles out.1.next_handle out.1.endpoints out.1.segments
                          a.alike.fits.handles out.0.1 g _ j refl;
                  };
                  held = a.alike.held;
                }))
                (λ s1 l.
                  Ensures-bind
                    (change_segment-Ensures (Landed out.0 r) out.0.0 _ s1
                      (λ g j. landed out.0 r s1 l e a.from g j))
                    (λ s2 q. returns q))))

split_nodes-Splits :
    (h : ℕ) (up : NodeId) (nodes : List NodeId) (given : IndexedMemoryLruPolicy) (k : Split)
    → Distinct nodes
    → Splits h nodes given k
    → Ensures (Splits h [] given) (for_each nodes (split_member up) k)
unfolding for_each
split_nodes-Splits h up [] given k d p = returns p
split_nodes-Splits h up (x ∷ xs) given k d p =
    Ensures-bind (split_member-Splits h up x xs given k d.0 p)
      (λ t q. split_nodes-Splits h up xs given t d.1 q)

-- The hypotheses on the segment that a new node splits: its blocks are listed once, and those that are
-- resident are in one segment of the policy.
pub record Splittable (tree : RadixTree) (up : NodeId) (s : IndexedMemoryLruPolicy) : Type 0 where
  pub handle : ℕ
  pub once : (nodes : List NodeId) → resolve_segment tree up ≡ ok nodes → Distinct nodes
  pub one : (nodes : List NodeId) → resolve_segment tree up ≡ ok nodes → InSegment handle nodes s

split_segment-Regrouped :
    (up : NodeId) (tree : RadixTree) (s : IndexedMemoryLruPolicy)
    → HasMembers s
    → s.next_handle + 1 < u64_mod
    → Splittable tree up s
    → Ensures (Regrouped s) (split_segment up tree s)
unfolding split_segment
split_segment-Regrouped up tree s f room w = Ensures-known (resolve_segment tree up) (λ nodes e.
    Ensures-bind
      (split_nodes-Splits w.handle up nodes s (record { policy = s; handles = none })
        (w.once nodes e)
        (record {
          regrouped = record { fits = f; kept = λ x. refl };
          rest = w.one nodes e;
          from = room;
        }))
      (λ k p. Ensures-option k.handles (returns p.regrouped) (λ h.
        Ensures-bind (publish-Regrouped h.1 s k.policy p.regrouped)
          (λ t q. publish-Regrouped h.0 s t q))))

-- Suppose that the members of every segment are the resident blocks that name it, each with its recency,
-- that the handle of an endpoint leads to a segment with that endpoint, that the handles have not passed
-- 64 bits, and that, if the new node is its parent's second child, the tree lists the blocks of the
-- parent's segment once each and the resident ones are in one segment of the policy. If the policy follows
-- the new node and returns, the first two hold again, and the same blocks are resident with the same
-- recencies.
pub on_node_created-Regrouped :
    (node : NodeId) (tree : RadixTree) (s : IndexedMemoryLruPolicy)
    → HasMembers s
    → s.next_handle + 1 < u64_mod
    → ((up : NodeId)
        → parent tree node ≡ ok (some up)
        → child_count tree up ≡ ok 2
        → Splittable tree up s)
    → Ensures (Regrouped s) (on_node_created node tree s)
unfolding on_node_created
on_node_created-Regrouped node tree s f room w = Ensures-known (parent tree node) (λ p e. go p e)
  where
    same : Regrouped s s
    same = record { fits = f; kept = λ x. refl }

    go :
        (p : Option NodeId)
        → parent tree node ≡ ok p
        → Ensures (Regrouped s) (elim p [
          | none ↦ ok s
          | some up ↦ do
            n ← child_count tree up
            if n == 1
                then elim (s.endpoints up) [ none ↦ ok s | some h ↦ move_endpoint h node s ]
                else (if n == 2 then split_segment up tree s else ok s)
        ])
    go none e = returns same
    go (some up) e = Ensures-known (child_count tree up) (λ n q.
        Ensures-if (n == 1)
          (Ensures-option (s.endpoints up) (returns same) (λ h. move_endpoint-Regrouped h node s f))
          (Ensures-if_known (n == 2)
            (λ z. split_segment-Regrouped up tree s f room (w up e (q ∙ ap ok (ground (arith, z)))))
            (λ z. returns same)))
