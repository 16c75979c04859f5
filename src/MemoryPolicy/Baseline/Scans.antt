-- ===== src/MemoryPolicy/Baseline/Scans.antt =====
-- The search for a victim along the links is the search along the list that they hold.
use dwpdsim.Base.{
  ℕ, zero, suc, ◌≤◌, ◌≡◌, refl, sym, ap, subst, ◌∙◌, true, List, [], ◌∷◌, Option, some, Result, ok,
  err, ◌>>=◌, for_each, arith, contains, length, Map,
}
use dwpdsim.Chain.{IsChain, head?}
use dwpdsim.RadixTree.{RadixTree}
use dwpdsim.MemoryPolicy.Baseline.{Link, Scan, examine, scan}
use dwpdsim.MemoryPolicy.Baseline.Order.{previous_of, next_of, present, present-some}

bind_congr {ℓ κ} :
    {A : Type ℓ} {B : Type κ} (r : Result A) {f g : A → Result B}
    → ((a : A) → f a ≡ g a)
    → (r >>= f) ≡ (r >>= g)
unfolding ◌>>=◌
bind_congr (ok a) h = h a
bind_congr (err e) h = refl

pub scan-links :
    (n : ℕ) (tree : RadixTree) (links : Map Link) (p : Option ℕ) (order : List ℕ) (k : Scan)
    → IsChain (λ j. previous_of (links j)) (λ j. next_of (links j)) p order
    → ((j : ℕ) → contains order j ≡ true → present (links j) ≡ true)
    → length order ≤ n
    → scan n tree links (head? order) k ≡ for_each order (examine tree) k
unfolding scan for_each ◌>>=◌
scan-links zero tree links p [] k c h m = refl
scan-links (suc n) tree links p [] k c h m = refl
scan-links zero tree links p (x ∷ order) k c h m = absurd (omega arith)
scan-links (suc n) tree links p (x ∷ order) k c h m =
    let (l, e) = present-some (links x) (h x (ground arith)) in
    bind_congr (examine tree x k) λ k1. rw e (
      subst (λ o. scan n tree links o k1 ≡ for_each order (examine tree) k1) {y = l.next}
        (sym c.1 ∙ ap next_of e)
        (scan-links n tree links (some x) order k1 c.2 (λ j i. h j (ground (arith, i)))
          (omega arith)))
