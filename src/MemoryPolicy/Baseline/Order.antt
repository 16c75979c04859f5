-- ===== src/MemoryPolicy/Baseline/Order.antt =====
-- When the links of the LRU policy hold a list of blocks, most recent first.
use dwpdsim.Base.{
  ℕ, Bool, true, false, List, [], Option, none, some, ◌≡◌, refl, contains, Distinct, ◌∙◌,
}
use dwpdsim.Chain.{IsChain, head?, last_or}
use dwpdsim.MemoryPolicy.Baseline.{BaselineMemoryLruPolicy, Link, new_policy}

abbrev pub previous_of : Option Link → Option ℕ
previous_of none = none
previous_of (some l) = l.previous

abbrev pub next_of : Option Link → Option ℕ
next_of none = none
next_of (some l) = l.next

abbrev pub present : Option Link → Bool
present none = false
present (some l) = true

-- The links hold exactly the blocks of `order`, in that order.
pub record Holds (s : BaselineMemoryLruPolicy) (order : List ℕ) : Type 0 where
  pub distinct : Distinct order
  pub first : s.head ≡ head? order
  pub last : s.tail ≡ last_or none order
  pub linked : (k : ℕ) → present (s.links k) ≡ contains order k
  pub chained : IsChain (λ k. previous_of (s.links k)) (λ k. next_of (s.links k)) none order

new_policy-Holds : (admit : Bool) → Holds (new_policy admit) []
unfolding new_policy
new_policy-Holds admit = record {
  distinct = tt;
  first = refl;
  last = refl;
  linked = λ k. refl;
  chained = tt;
}

pub present-some : (o : Option Link) → present o ≡ true → (l : Link) × (o ≡ some l)
present-some none h = cc
present-some (some l) h = (l, refl)

pub link_of :
    (s : BaselineMemoryLruPolicy) (order : List ℕ) (x : ℕ)
    → Holds s order
    → contains order x ≡ true
    → (l : Link) × (s.links x ≡ some l)
link_of s order x h m = present-some (s.links x) (h.linked x ∙ m)
