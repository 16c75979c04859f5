-- ===== src/MemoryPolicy/Baseline/Detaching.antt =====
-- A block that leaves the linked list of the LRU policy.
use dwpdsim.Base.{
  ℕ, true, false, List, Option, none, some, ◌≡◌, refl, arith, contains, remove, ◌==◌, same, ap,
  Bool-cases, inl, inr, Distinct-remove, contains-remove, contains-remove_self, ==true→eq,
  Returns-map, ◌∙◌, ne→==false, Returns, if◌then◌else◌, ◌>>=◌,
}
use dwpdsim.Chain.{
  IsChain-remove, or_else, head-remove, last-remove, no_self_link, next_inside, prev_member,
}
use dwpdsim.MemoryPolicy.Baseline.{BaselineMemoryLruPolicy, Link, detach}
use dwpdsim.MemoryPolicy.Baseline.Order.{
  previous_of, next_of, present, Holds, present-some, link_of,
}

-- What `detach` leaves, when the block's link was to `p` and `n`.
record Detached (x : ℕ) (p n : Option ℕ) (s t : BaselineMemoryLruPolicy) : Type 0 where
  first : t.head ≡ or_else p n s.head
  last : t.tail ≡ or_else n p s.tail
  gone : t.links x ≡ none
  still : (k : ℕ) → (k == x) ≡ false → present (t.links k) ≡ present (s.links k)
  relinked :
      (k : ℕ)
      → (k == x) ≡ false
      → present (s.links k) ≡ true
      → (previous_of (t.links k) ≡ (if same n (some k) then p else previous_of (s.links k)))
        × (next_of (t.links k) ≡ (if same p (some k) then n else next_of (s.links k)))

abbrev Neighbour : BaselineMemoryLruPolicy → ℕ → Option ℕ → Type 0
Neighbour s x none = Unit
Neighbour s x (some a) = ((a == x) ≡ false) × (present (s.links a) ≡ true)

detach-Detached :
    (s : BaselineMemoryLruPolicy) (x : ℕ) (p n : Option ℕ)
    → s.links x ≡ some (record { previous = p; next = n })
    → Neighbour s x p
    → Neighbour s x n
    → Returns (detach x s) (Detached x p n s)
unfolding detach ◌>>=◌
detach-Detached s x none none e hp hn =
    rw (e, detach)
      (record {
        first = refl;
        last = refl;
        gone = ground arith;
        still = λ k i. ground (arith, i);
        relinked = λ k i j. ground (arith, i);
      })
detach-Detached s x none (some b) e hp hn =
    let (lb, kb) = present-some (s.links b) hn.1 in
    rw (e, detach)
      (rw kb (record {
        first = refl;
        last = refl;
        gone = ground arith;
        still = λ k i. ground (arith, i);
        relinked = λ k i j. ground (arith, i);
      }))
detach-Detached s x (some a) none e hp hn =
    let (la, ka) = present-some (s.links a) hp.1 in
    rw (e, detach)
      (rw ka (record {
        first = refl;
        last = refl;
        gone = ground arith;
        still = λ k i. ground (arith, i);
        relinked = λ k i j. ground (arith, i);
      }))
detach-Detached s x (some a) (some b) e hp hn =
    let (la, ka) = present-some (s.links a) hp.1 in
    let (lb, kb) = present-some (s.links b) hn.1 in
    rw (e, detach)
      (rw ka (elim (Bool-cases (b == a)) [
        | inl q ↦ rw q (record {
          first = refl;
          last = refl;
          gone = ground arith;
          still = λ k i. ground (arith, i, q);
          relinked = λ k i j. ground (arith, i, q);
        })
        | inr q ↦ rw q (
            rw kb (record {
              first = refl;
              last = refl;
              gone = ground arith;
              still = λ k i. ground (arith, i, q);
              relinked = λ k i j. ground (arith, i, q);
            }))
      ]))

Detached-Holds :
    (s t : BaselineMemoryLruPolicy) (order : List ℕ) (x : ℕ) (p n : Option ℕ)
    → Holds s order
    → contains order x ≡ true
    → s.links x ≡ some (record { previous = p; next = n })
    → Detached x p n s t
    → Holds t (remove x order)
Detached-Holds s t order x p n h m e d = record {
  distinct = Distinct-remove x order h.distinct;
  first = ground (arith, d.first, head-remove prev next order x m h.chained);
  last = ground (arith, d.last, last-remove prev next none order x m h.chained);
  linked = λ k. elim (Bool-cases (k == x)) [
    | inl i ↦ ground (arith, d.gone, ==true→eq k x i, contains-remove_self x order h.distinct)
    | inr i ↦ ground (arith, d.still k i, contains-remove k x order i, h.linked k)
  ];
  chained =
      IsChain-remove prev next _ _ none order x h.distinct tt m
        (λ y j ne. rw (e) (d.relinked y (ne→==false y x ne) (h.linked y ∙ j))) h.chained;
}
  where
    prev : ℕ → Option ℕ
    prev k = previous_of (s.links k)

    next : ℕ → Option ℕ
    next k = next_of (s.links k)

pub detach-Holds :
    (s : BaselineMemoryLruPolicy) (order : List ℕ) (x : ℕ)
    → Holds s order
    → contains order x ≡ true
    → Returns (detach x s) (λ t. Holds t (remove x order))
detach-Holds s order x h m =
    let (l, e) = link_of s order x h m in
    Returns-map (detach x s) (detach-Detached s x l.previous l.next e (near l e).0 (near l e).1)
      (λ t d. Detached-Holds s t order x l.previous l.next h m e d)
  where
    prev : ℕ → Option ℕ
    prev k = previous_of (s.links k)

    next : ℕ → Option ℕ
    next k = next_of (s.links k)

    neighbour :
        (o : Option ℕ)
        → same o (some x) ≡ false
        → ((w : ℕ) → o ≡ some w → contains order w ≡ true)
        → Neighbour s x o
    neighbour none ne i = tt
    neighbour (some w) ne i = (ne, h.linked w ∙ i w refl)

    near : (l : Link) → s.links x ≡ some l → Neighbour s x l.previous × Neighbour s x l.next
    near l e =
        let loop = no_self_link prev next none order x h.distinct tt m h.chained in
        (
          neighbour l.previous (ground (arith, loop.0, e))
              (λ w k. prev_member prev next order x w h.chained m (ap previous_of e ∙ k)),
          neighbour l.next (ground (arith, loop.1, e))
              (λ w k. next_inside prev next none order x w h.chained m (ap next_of e ∙ k)),
        )
