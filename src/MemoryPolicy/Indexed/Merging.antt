-- ===== src/MemoryPolicy/Indexed/Merging.antt =====
-- What the loss of a node does to the residents and to the members of the segments.
use dwpdsim.Base.{
  ℕ, ◌≡◌, ◌≢◌, refl, sym, ap, subst, ◌∙◌, Bool, true, false, List, [], ◌∷◌, Option, none, some,
  Result, ok, arith, Map, insert, erase, Key, Ascends, has_key, insert_key, insert_key-Ascends,
  has_key-insert_key, ◌==◌, ◌||◌, Bool-cases, inl, inr, ◌>>=◌, or_fail, out_of_range, for_each,
  if◌then◌else◌, Ensures, returns, Ensures-bind, Ensures-known, Ensures-if_known, Ensures-if,
  Ensures-option,
}
use dwpdsim.Types.{NodeId}
use dwpdsim.RadixTree.{RadixTree, child_count}
use dwpdsim.RadixTree.Walks.{segment_leaf_for}
use dwpdsim.MemoryPolicy.Indexed.{
  IndexedMemoryLruPolicy, MemoryPolicyWork, Resident, Segment, publish, unpublish, move_endpoint,
  change_segment,
}
use dwpdsim.MemoryPolicy.Indexed.Hooks.{
  adopt, with_members, merge_keys, merge_segments, merge, on_node_pruned,
}
use dwpdsim.MemoryPolicy.Indexed.Members.{
  Members, Handles, close-Members, rename-Members, rename-Handles, change-Handles, close-Handles,
}
use dwpdsim.MemoryPolicy.Indexed.Blocks.{
  HasMembers, recency_of, publish-Groups, unpublish-Groups, unpublish-Alike, change_segment-Ensures,
  found,
}

-- Members and handles agree, and every block is resident with the recency that it had, or is not.
pub record Regrouped (given s : IndexedMemoryLruPolicy) : Type 0 where
  pub fits : HasMembers s
  pub kept : (x : ℕ) → recency_of (s.residents x) ≡ recency_of (given.residents x)

pub publish-Regrouped :
    (h : ℕ) (given s : IndexedMemoryLruPolicy)
    → Regrouped given s
    → Ensures (Regrouped given) (publish h s)
publish-Regrouped h given s c =
    publish-Groups (Regrouped given) s h
      (λ v. record {
        fits = record { members = c.fits.members; handles = c.fits.handles };
        kept = c.kept;
      })
      (λ g f e. record {
        fits = record {
          members = close-Members s.residents s.segments c.fits.members h g f e;
          handles = close-Handles s.next_handle s.endpoints s.segments c.fits.handles h g f;
        };
        kept = c.kept;
      })

pub move_endpoint-Regrouped :
    (h : ℕ) (endpoint : NodeId) (given : IndexedMemoryLruPolicy)
    → HasMembers given
    → Ensures (Regrouped given) (move_endpoint h endpoint given)
unfolding move_endpoint
move_endpoint-Regrouped h endpoint given f =
    Ensures-bind
      (unpublish-Alike h given given (record { fits = f; held = λ x. refl; recency = refl }))
      (λ s a. Ensures-known (or_fail (s.segments h) out_of_range) (λ g e.
        let q = found (s.segments h) g e in
        publish-Regrouped h given _ (record {
          fits = record {
            members = rename-Members s.residents s.segments a.fits.members h g _ q refl;
            handles =
                rename-Handles s.next_handle s.endpoints s.segments a.fits.handles h g endpoint q;
          };
          kept = λ x. ap recency_of (a.held x);
        })))

-- Whether a block is among the keys.
abbrev adopts : List Key → ℕ → Bool
adopts [] y = false
adopts (k ∷ ks) y = y == k.1 || adopts ks y

abbrev rehomed : ℕ → Option Resident → Option Resident
rehomed b none = none
rehomed b (some r) = some (record r { segment = b })

adopts-has_key : (l : List Key) (t y : ℕ) → has_key (t, y) l ≡ true → adopts l y ≡ true
unfolding has_key
adopts-has_key [] t y h = h
adopts-has_key (k ∷ ks) t y h = ground (arith, h, adopts-has_key ks t y)

adopts-none : (l : List Key) (y : ℕ) → ((t : ℕ) → has_key (t, y) l ≡ false) → adopts l y ≡ false
unfolding has_key
adopts-none [] y h = refl
adopts-none (k ∷ ks) y h = ground (arith, h k.0, adopts-none ks y (λ t. ground (arith, h t)))

adopt_all-Ensures :
    (Q : IndexedMemoryLruPolicy → Type 0) (b : ℕ) (l : List Key) (s : IndexedMemoryLruPolicy)
    → ((other : Map Resident) (w : MemoryPolicyWork)
        → ((y : ℕ) → other y ≡ (if adopts l y then rehomed b (s.residents y) else s.residents y))
        → Q (record s { residents = other; work = w }))
    → Ensures Q (for_each l (adopt b) s)
unfolding for_each adopt
adopt_all-Ensures Q b [] s q = returns (q s.residents s.work (λ y. refl))
adopt_all-Ensures Q b (k ∷ ks) s q =
    Ensures-bind {P = Rest}
      (Ensures-known (or_fail (s.residents k.1) out_of_range) (λ r e.
        returns (λ other w f. q other w (λ y. ground (arith, f y, held (s.residents k.1) r e)))))
      (λ t p. adopt_all-Ensures Q b ks t p)
  where
    Rest : IndexedMemoryLruPolicy → Type 0
    Rest t =
        (other : Map Resident) (w : MemoryPolicyWork)
        → ((y : ℕ) → other y ≡ (if adopts ks y then rehomed b (t.residents y) else t.residents y))
        → Q (record t { residents = other; work = w })

    held : (o : Option Resident) (r : Resident) → or_fail o out_of_range ≡ ok r → o ≡ some r
    held none r e = cc e
    held (some u) r e = cc e

has_key-merge_keys :
    (q : Key) (ks into : List Key) → has_key q (merge_keys ks into) ≡ has_key q ks || has_key q into
unfolding has_key
has_key-merge_keys q [] into = refl
has_key-merge_keys q (k ∷ ks) into =
    ground (arith, has_key-merge_keys q ks (insert_key k into), has_key-insert_key q k into)

merge_keys-Ascends : (ks into : List Key) → Ascends into → Ascends (merge_keys ks into)
merge_keys-Ascends [] into a = a
merge_keys-Ascends (k ∷ ks) into a =
    merge_keys-Ascends ks (insert_key k into) (insert_key-Ascends k into a)

module _ (residents : Map Resident) (segments : Map Segment) (m : Members residents segments)
    (a b : ℕ) (apart : a ≢ b) (g j : Segment) (at_a : segments a ≡ some g)
    (at_b : segments b ≡ some j) where
  adopts-home :
      (y : ℕ)
      → (o : Option Resident) → residents y ≡ o
      → adopts g.members y ≡ (elim o [ none ↦ false | some r ↦ a == r.segment ])
  adopts-home y none e = adopts-none g.members y (λ t. ground (arith, m.same a t y, e, at_a))
  adopts-home y (some r) e = elim (Bool-cases (a == r.segment)) [
    | inl z ↦
        adopts-has_key g.members r.recency y (ground (arith, m.same a r.recency y, e, at_a, z))
        ∙ sym z
    | inr z ↦ adopts-none g.members y (λ t. ground (arith, m.same a t y, e, at_a, z)) ∙ sym z
  ]

  merged-Members :
      (other : Map Resident)
      → ((y : ℕ) → other y ≡ (if adopts g.members y then rehomed b (residents y) else residents y))
      → Members other
          (erase a (insert b (record j { members = merge_keys g.members j.members }) segments))
  unfolding has_key
  merged-Members other e = record {
    ordered =
        λ h. ground (arith, m.ordered h, m.ordered b, at_b, merge_keys-Ascends g.members j.members);
    same = λ h t y. ground (
      arith,
      e y,
      m.same h t y,
      m.same a t y,
      m.same b t y,
      at_a,
      at_b,
      apart,
      adopts-home y (residents y) refl,
      has_key-merge_keys (t, y) g.members j.members,
    );
  }

-- What the merge of two segments starts from.
record Ready (prefix : NodeId) (a : ℕ) (given s : IndexedMemoryLruPolicy) : Type 0 where
  fits : HasMembers s
  held : (x : ℕ) → s.residents x ≡ given.residents x
  at_prefix : s.endpoints prefix ≡ some a

unpublish-Ready :
    (prefix : NodeId) (a h : ℕ) (given s : IndexedMemoryLruPolicy)
    → Ready prefix a given s
    → Ensures (Ready prefix a given) (unpublish h s)
unpublish-Ready prefix a h given s c = unpublish-Groups (Ready prefix a given) s h (λ v. record {
  fits = record { members = c.fits.members; handles = c.fits.handles };
  held = c.held;
  at_prefix = c.at_prefix;
})

recency-rehomed :
    (c : Bool) (b : ℕ) (o : Option Resident)
    → recency_of (if c then rehomed b o else o) ≡ recency_of o
recency-rehomed true b none = refl
recency-rehomed true b (some r) = refl
recency-rehomed false b o = refl

merge_segments-Regrouped :
    (prefix : NodeId) (a b : ℕ) (given : IndexedMemoryLruPolicy)
    → HasMembers given
    → given.endpoints prefix ≡ some a
    → a ≢ b
    → Ensures (Regrouped given) (merge_segments prefix a b given)
unfolding merge_segments
merge_segments-Regrouped prefix a b given f p apart =
    Ensures-bind
      (unpublish-Ready prefix a a given given
        (record { fits = f; held = λ x. refl; at_prefix = p }))
      (λ s1 r1. Ensures-bind (unpublish-Ready prefix a b given s1 r1) (λ s2 r2.
        Ensures-known (or_fail (s2.segments a) out_of_range) (λ g e.
          Ensures-bind {P = λ s3. Ensures (Regrouped given) (rest g.members s3)}
            (adopt_all-Ensures (λ s3. Ensures (Regrouped given) (rest g.members s3)) b g.members s2
              (λ other w h. merged s2 r2 g (found (s2.segments a) g e) other w h))
            (λ s3 k. k))))
  where
    rest : List Key → IndexedMemoryLruPolicy → Result IndexedMemoryLruPolicy
    rest keys s3 = change_segment b (with_members (merge_keys keys)) s3 >>= λ s4.
        publish b
          (record s4 { endpoints = erase prefix s4.endpoints; segments = erase a s4.segments })

    Last : IndexedMemoryLruPolicy → Type 0
    Last s4 = Ensures (Regrouped given) (
        publish b
          (record s4 { endpoints = erase prefix s4.endpoints; segments = erase a s4.segments }))

    merged :
        (s2 : IndexedMemoryLruPolicy)
        → Ready prefix a given s2
        → (g : Segment) → s2.segments a ≡ some g
        → (other : Map Resident) (w : MemoryPolicyWork)
        → ((y : ℕ)
            → other y ≡ (if adopts g.members y then rehomed b (s2.residents y) else s2.residents y))
        → Ensures (Regrouped given) (rest g.members (record s2 { residents = other; work = w }))
    merged s2 r g at_a other w h =
        Ensures-bind {P = Last}
          (change_segment-Ensures Last b _ _ (λ j at_b.
            let merged_one : Segment = record j { members = merge_keys g.members j.members } in
            let same_prefix : g.endpoint ≡ prefix =
              ground (arith, r.fits.handles.known prefix a r.at_prefix, at_a) in
            publish-Regrouped b given _ (record {
              fits = record {
                members =
                    merged-Members s2.residents s2.segments r.fits.members a b apart g j at_a at_b
                      other h;
                handles =
                    subst
                      (λ x.
                        Handles s2.next_handle (erase x s2.endpoints)
                          (erase a (insert b merged_one s2.segments)))
                      same_prefix
                      (close-Handles s2.next_handle s2.endpoints (insert b merged_one s2.segments)
                        (change-Handles s2.next_handle s2.endpoints s2.segments r.fits.handles b j
                          merged_one at_b refl)
                        a g (ground (arith, apart, at_a)));
              };
              kept = λ x.
                  ap recency_of (h x)
                  ∙ recency-rehomed (adopts g.members x) b (s2.residents x)
                  ∙ ap recency_of (r.held x);
            })))
          (λ s4 k. k)

merge-Regrouped :
    (prefix suffix : NodeId) (s : IndexedMemoryLruPolicy)
    → HasMembers s
    → prefix ≢ suffix
    → Ensures (Regrouped s) (merge prefix suffix s)
unfolding merge
merge-Regrouped prefix suffix s f n = from_prefix (s.endpoints prefix) refl
  where
    both : (a b : ℕ) → s.endpoints prefix ≡ some a → s.endpoints suffix ≡ some b → a ≢ b
    both a b p q z = n (ground (arith, f.handles.known prefix a p, f.handles.known suffix b q, z))

    outcome : Option ℕ → Option ℕ → Result IndexedMemoryLruPolicy
    outcome o u = elim o [
      | none ↦ ok s
      | some a ↦ elim u [ none ↦ move_endpoint a suffix s | some b ↦ merge_segments prefix a b s ]
    ]

    from_suffix :
        (a : ℕ)
        → s.endpoints prefix ≡ some a
        → (u : Option ℕ) → s.endpoints suffix ≡ u
        → Ensures (Regrouped s) (outcome (some a) u)
    from_suffix a p none q = move_endpoint-Regrouped a suffix s f
    from_suffix a p (some b) q = merge_segments-Regrouped prefix a b s f p (both a b p q)

    from_prefix :
        (o : Option ℕ)
        → s.endpoints prefix ≡ o
        → Ensures (Regrouped s) (outcome o (s.endpoints suffix))
    from_prefix none p = returns (record { fits = f; kept = λ x. refl })
    from_prefix (some a) p = from_suffix a p (s.endpoints suffix) refl

-- Suppose that the members of every segment are the resident blocks that name it, each with its recency,
-- that the handle of an endpoint leads to a segment with that endpoint, and that the parent of the lost
-- node, if one child is left to it, is not the leaf of its segment. If the policy follows the loss of the
-- node and returns, the first two hold again, and the same blocks are resident with the same recencies.
pub on_node_pruned-Regrouped :
    (node : NodeId) (up : Option NodeId) (tree : RadixTree) (s : IndexedMemoryLruPolicy)
    → HasMembers s
    → ((p : NodeId) → up ≡ some p → child_count tree p ≡ ok 1 → segment_leaf_for tree p ≢ ok p)
    → Ensures (Regrouped s) (on_node_pruned node up tree s)
unfolding on_node_pruned
on_node_pruned-Regrouped node none tree s f w = returns (record { fits = f; kept = λ x. refl })
on_node_pruned-Regrouped node (some up) tree s f w = Ensures-known (child_count tree up) (λ n e.
    Ensures-if (n == 0)
      (Ensures-option (s.endpoints node) (returns (record { fits = f; kept = λ x. refl }))
        (λ h. move_endpoint-Regrouped h up s f))
      (Ensures-if_known (n == 1)
        (λ z. Ensures-known (segment_leaf_for tree up) (λ leaf q.
          merge-Regrouped up leaf s f
            (λ c. w up refl (e ∙ ap ok (ground (arith, z))) (q ∙ ap ok (sym c)))))
        (λ z. returns (record { fits = f; kept = λ x. refl }))))
