-- ===== src/MemoryPolicy/Baseline/Recency.antt =====
-- The linked list of the LRU policy as a list of blocks, most recent first.
use dwpdsim.Base.{
  ℕ, true, false, List, [], ◌∷◌, none, some, ok, ◌≡◌, refl, ◌≢◌, arith, contains, remove, ◌==◌,
  insert, contains-remove_self, Returns-bind, sym, ne→==false, subst, Returns, ◌>>=◌,
}
use dwpdsim.Chain.{IsChain, IsChain-frame}
use dwpdsim.MemoryPolicy.{MemoryMutationKind, inserted, accessed, removed}
use dwpdsim.MemoryPolicy.Baseline.{BaselineMemoryLruPolicy, Link, attach_front, detach, commit}
use dwpdsim.MemoryPolicy.Baseline.Order.{previous_of, next_of, Holds, link_of}
use dwpdsim.MemoryPolicy.Baseline.Detaching.{detach-Holds}

attached_front : ℕ → ℕ → Link → BaselineMemoryLruPolicy → BaselineMemoryLruPolicy
attached_front x y l s = record s {
  links =
      insert y (record { previous = some x; next = l.next })
        (insert x (record { previous = none; next = s.head }) s.links);
  head = some x;
}

attached_front-Holds :
    (s : BaselineMemoryLruPolicy) (order : List ℕ) (x y : ℕ) (l : Link)
    → Holds s (y ∷ order)
    → contains (y ∷ order) x ≡ false
    → s.links y ≡ some l
    → Holds (attached_front x y l s) (x ∷ y ∷ order)
unfolding attached_front
attached_front-Holds s order x y l h fresh e = record {
  distinct = (fresh, h.distinct);
  first = refl;
  last = h.last;
  linked = λ k. ground (arith, h.linked k);
  chained = (
    ground (arith, fresh),
    ground (arith, fresh, h.first),
    (ground arith, ground (arith, h.chained.1, e), rest),
  );
}
  where
    rest :
        IsChain
          (λ k. previous_of ((attached_front x y l s).links k))
          (λ k. next_of ((attached_front x y l s).links k))
          (some y)
          order
    rest =
        IsChain-frame (λ k. previous_of (s.links k)) (λ k. next_of (s.links k)) _ _ (some y) order
          (λ k m. elsewhere k (ne→==false k x (apart k m)) (ne→==false k y (behind k m)))
          h.chained.2
      where
        apart : (k : ℕ) → contains order k ≡ true → k ≢ x
        apart k m e = ground (arith, subst (λ u. contains order u ≡ true) e m, fresh)

        behind : (k : ℕ) → contains order k ≡ true → k ≢ y
        behind k m e = ground (arith, subst (λ u. contains order u ≡ true) e m, h.distinct)

        elsewhere :
            (k : ℕ)
            → (k == x) ≡ false
            → (k == y) ≡ false
            → (previous_of ((attached_front x y l s).links k) ≡ previous_of (s.links k))
              × (next_of ((attached_front x y l s).links k) ≡ next_of (s.links k))
        elsewhere k a b = ground (arith, a, b)

attach_front_eq :
    (s : BaselineMemoryLruPolicy) (x y : ℕ) (l : Link)
    → s.head ≡ some y
    → s.links y ≡ some l
    → (y == x) ≡ false
    → attach_front x s ≡ ok (attached_front x y l s)
unfolding attach_front attached_front ◌>>=◌
attach_front_eq s x y l e k ne = rw (e, attach_front) (rw ne (rw k (rw e)))

attach_front-Holds :
    (s : BaselineMemoryLruPolicy) (order : List ℕ) (x : ℕ)
    → Holds s order
    → contains order x ≡ false
    → Returns (attach_front x s) (λ t. Holds t (x ∷ order))
unfolding attach_front ◌>>=◌
attach_front-Holds s [] x h fresh =
    rw (h.first, attach_front)
      (record {
        distinct = (refl, tt);
        first = refl;
        last = refl;
        linked = λ k. ground (arith, h.linked k);
        chained = (ground arith, ground arith, tt);
      })
attach_front-Holds s (y ∷ order) x h fresh =
    let (l, k) = link_of s (y ∷ order) y h (ground arith) in
    subst (λ r. Returns r (λ t. Holds t (x ∷ y ∷ order)))
      (sym (attach_front_eq s x y l h.first k (ground (arith, fresh))))
      (attached_front-Holds s order x y l h fresh k)

-- The list of blocks after a mutation.
abbrev pub reorder : MemoryMutationKind → ℕ → List ℕ → List ℕ
reorder inserted x order = x ∷ order
reorder accessed x order = x ∷ remove x order
reorder removed x order = remove x order

-- A block is inserted when it is new, and accessed or removed when it is there.
abbrev pub Applies : MemoryMutationKind → ℕ → List ℕ → Type 0
Applies inserted x order = contains order x ≡ false
Applies accessed x order = contains order x ≡ true
Applies removed x order = contains order x ≡ true

-- From a linked list that holds `order`, a mutation that applies succeeds and leaves a linked list
-- that holds the blocks reordered by it: the block in front if it was inserted or accessed, the
-- block gone if it was removed, and all others in their old order.
pub commit-Holds :
    (kind : MemoryMutationKind) (x : ℕ) (s : BaselineMemoryLruPolicy) (order : List ℕ)
    → Holds s order
    → Applies kind x order
    → Returns (commit kind x s) (λ t. Holds t (reorder kind x order))
unfolding commit ◌>>=◌
commit-Holds inserted x s order h a = attach_front-Holds s order x h a
commit-Holds accessed x s order h a =
    Returns-bind _ (detach x s) (attach_front x) (detach-Holds s order x h a)
      (λ t k. attach_front-Holds t (remove x order) x k (contains-remove_self x order h.distinct))
commit-Holds removed x s order h a = detach-Holds s order x h a
