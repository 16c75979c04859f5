-- ===== src/Chain.antt =====
-- Doubly linked lists seen through their links: the sibling lists of cpp/src/radix_tree.cpp and the
-- recency list of cpp/src/policies/memory/baseline_memory_lru_policy.cpp share these lemmas.
use dwpdsim.Base.{
  ℕ, true, false, List, [], ◌∷◌, Option, none, some, ◌≡◌, refl, ◌≢◌, inl, inr, arith, contains,
  remove, Distinct, same, ◌==◌, if◌then◌else◌, Bool-cases, ==true→eq, ==false→ne, eq→==true, subst,
  sym, ap, ◌∙◌,
}

abbrev pub head? : List ℕ → Option ℕ
head? [] = none
head? (x ∷ xs) = some x

-- `prev` and `next` link the list's elements in order, and `prev` of the first one is `q`.
abbrev pub IsChain : (ℕ → Option ℕ) → (ℕ → Option ℕ) → Option ℕ → List ℕ → Type 0
IsChain prev next q [] = Unit
IsChain prev next q (x ∷ l) = (prev x ≡ q) × (next x ≡ head? l) × IsChain prev next (some x) l

abbrev pub Outside : Option ℕ → List ℕ → Type 0
Outside none l = Unit
Outside (some a) l = contains l a ≡ false

Outside-tail : (q : Option ℕ) (y : ℕ) (r : List ℕ) → Outside q (y ∷ r) → Outside q r
Outside-tail none y r o = tt
Outside-tail (some a) y r o = ground (arith, o)

pub IsChain-frame :
    (p n p' n' : ℕ → Option ℕ) (q : Option ℕ) (l : List ℕ)
    → ((y : ℕ) → contains l y ≡ true → (p' y ≡ p y) × (n' y ≡ n y))
    → IsChain p n q l
    → IsChain p' n' q l
IsChain-frame p n p' n' q [] h c = tt
IsChain-frame p n p' n' q (x ∷ l) h c = (
  ground (arith, h x),
  ground (arith, h x),
  IsChain-frame p n p' n' (some x) l (λ y m. h y (ground (arith, m))) c.2,
)

pub next_inside :
    (p n : ℕ → Option ℕ) (q : Option ℕ) (l : List ℕ) (x w : ℕ)
    → IsChain p n q l
    → contains l x ≡ true
    → n x ≡ some w
    → contains l w ≡ true
next_inside p n q [] x w c m e = cc
next_inside p n q (y ∷ []) x w c m e = ground arith
next_inside p n q (y ∷ z ∷ l) x w c m e = ground (arith, next_inside p n (some y) (z ∷ l) x w)

pub prev_inside :
    (p n : ℕ → Option ℕ) (q : Option ℕ) (y : ℕ) (l : List ℕ) (x w : ℕ)
    → IsChain p n q (y ∷ l)
    → contains l x ≡ true
    → p x ≡ some w
    → contains (y ∷ l) w ≡ true
prev_inside p n q y [] x w c m e = cc
prev_inside p n q y (z ∷ l) x w c m e = ground (arith, prev_inside p n (some y) z l x w)

-- The links after `x` is taken out: its neighbours are linked to one another.
abbrev pub Unlinked :
    (ℕ → Option ℕ) → (ℕ → Option ℕ) → (ℕ → Option ℕ) → (ℕ → Option ℕ) → ℕ → ℕ → Type 0
Unlinked p n p' n' x y =
    (p' y ≡ (if same (n x) (some y) then p x else p y))
    × (n' y ≡ (if same (p x) (some y) then n x else n y))

not_same :
    (o : Option ℕ) (l : List ℕ) (w : ℕ)
    → Outside o l
    → contains l w ≡ true
    → same o (some w) ≡ false
not_same none l w h m = refl
not_same (some a) l w h m = elim (Bool-cases (a == w)) [
  | inl e ↦ ground (arith, subst (λ v. contains l v ≡ true) (sym (==true→eq a w e)) m)
  | inr e ↦ e
]

-- The first element goes: the rest begins where it began.
remove_first :
    (p n p' n' : ℕ → Option ℕ) (q : Option ℕ) (x : ℕ) (r : List ℕ)
    → Distinct (x ∷ r)
    → Outside q r
    → ((y : ℕ) → contains r y ≡ true → Unlinked p n p' n' x y)
    → IsChain p n q (x ∷ r)
    → IsChain p' n' q r
remove_first p n p' n' q x [] d o h c = tt
remove_first p n p' n' q x (z ∷ r) d o h c =
    let o' : Outside (p x) (z ∷ r) = subst (λ t. Outside t (z ∷ r)) (sym c.0) o in
    (
      ground (arith, h z),
      ground (arith, h z, not_same (p x) (z ∷ r) z o'),
      IsChain-frame p n p' n' (some z) r
          (λ w m. ground (arith, h w, m, not_same (p x) (z ∷ r) w o')) c.2.2,
    )

no_link : (o : Option ℕ) (y : ℕ) → o ≢ some y → same o (some y) ≡ false
no_link none y h = refl
no_link (some a) y h = elim (Bool-cases (a == y)) [
  | inl e ↦ absurd (h (ap some (==true→eq a y e)))
  | inr e ↦ e
]

-- The other case: the head stays.
keep_prev :
    (p n p' n' : ℕ → Option ℕ) (q : Option ℕ) (y : ℕ) (r : List ℕ) (x : ℕ)
    → contains r y ≡ false
    → contains r x ≡ true
    → Unlinked p n p' n' x y
    → IsChain p n q (y ∷ r)
    → p' y ≡ q
keep_prev p n p' n' q y r x d m h c =
    h.0 ∙ rw (no_link (n x) y λ e. absurd_mem (next_inside p n (some y) r x y c.2 m e)) c.0
  where
    absurd_mem : contains r y ≡ true → ⊥
    absurd_mem i = cc

keep_next :
    (p n p' n' : ℕ → Option ℕ) (q : Option ℕ) (y : ℕ) (r : List ℕ) (x : ℕ)
    → contains r y ≡ false
    → contains r x ≡ true
    → Unlinked p n p' n' x y
    → IsChain p n q (y ∷ r)
    → n' y ≡ head? (remove x r)
keep_next p n p' n' q y [] x d m h c = cc
keep_next p n p' n' q y (z ∷ r) x d m h c = elim (Bool-cases (x == z)) [
  | inl e ↦ rw e (at_front (==true→eq x z e))
  | inr e ↦ rw e (
      h.1
      ∙ rw
          (no_link (p x) y
            λ k. behind (prev_inside p n (some y) z r x y c.2 (ground (arith, m, e)) k))
          c.1)
]
  where
    behind : contains (z ∷ r) y ≡ true → ⊥
    behind i = cc

    at_front : x ≡ z → n' y ≡ head? r
    at_front e =
        h.1
        ∙ subst (λ u. (if same (p u) (some y) then n u else n y) ≡ head? r) (sym e)
            (rw (c.2.0) (rw (eq→==true y y refl) c.2.1))

remove_head :
    (p n p' n' : ℕ → Option ℕ) (q : Option ℕ) (y : ℕ) (r : List ℕ) (x : ℕ)
    → Distinct (y ∷ r)
    → Outside q (y ∷ r)
    → ((w : ℕ) → contains (y ∷ r) w ≡ true → w ≢ x → Unlinked p n p' n' x w)
    → IsChain p n q (y ∷ r)
    → x ≡ y
    → IsChain p' n' q r
remove_head p n p' n' q y r x d o h c e =
    remove_first p n p' n' q y r d (Outside-tail q y r o)
      (λ w i.
        subst (λ u. Unlinked p n p' n' u w) e (h w (ground (arith, i)) (λ k. fresh w i (k ∙ e))))
      c
  where
    fresh : (w : ℕ) → contains r w ≡ true → w ≢ y
    fresh w i k = ground (arith, subst (λ u. contains r u ≡ true) k i, d)

pub IsChain-remove :
    (p n p' n' : ℕ → Option ℕ) (q : Option ℕ) (l : List ℕ) (x : ℕ)
    → Distinct l
    → Outside q l
    → contains l x ≡ true
    → ((y : ℕ) → contains l y ≡ true → y ≢ x → Unlinked p n p' n' x y)
    → IsChain p n q l
    → IsChain p' n' q (remove x l)
IsChain-remove p n p' n' q [] x d o m h c = cc
IsChain-remove p n p' n' q (y ∷ r) x d o m h c = elim (Bool-cases (x == y)) [
  | inl e ↦ rw e (remove_head p n p' n' q y r x d o h c (==true→eq x y e))
  | inr e ↦
      let inside : contains r x ≡ true = ground (arith, m, e) in
      let at_y = h y (ground arith) (λ k. ==false→ne x y e (sym k)) in
      rw e (
        keep_prev p n p' n' q y r x d.0 inside at_y c,
        keep_next p n p' n' q y r x d.0 inside at_y c,
        IsChain-remove p n p' n' (some y) r x d.1 d.0 inside (λ w i j. h w (ground (arith, i)) j)
            c.2,
      )
]

-- The last element of a list, or what stands before an empty one.
abbrev pub last_or : Option ℕ → List ℕ → Option ℕ
last_or q [] = q
last_or q (x ∷ l) = last_or (some x) l

abbrev pub or_else : Option ℕ → Option ℕ → Option ℕ → Option ℕ
or_else none a b = a
or_else (some w) a b = b

pub last-remove :
    (p n : ℕ → Option ℕ) (q : Option ℕ) (l : List ℕ) (x : ℕ)
    → contains l x ≡ true
    → IsChain p n q l
    → last_or q (remove x l) ≡ or_else (n x) (p x) (last_or q l)
last-remove p n q [] x m c = cc
last-remove p n q (y ∷ []) x m c = ground arith
last-remove p n q (y ∷ z ∷ r) x m c = ground (arith, last-remove p n (some y) (z ∷ r) x)

prev_ne_none :
    (p n : ℕ → Option ℕ) (y : ℕ) (l : List ℕ) (x : ℕ)
    → contains l x ≡ true
    → IsChain p n (some y) l
    → (a : ℕ) × (p x ≡ some a)
prev_ne_none p n y [] x m c = cc
prev_ne_none p n y (z ∷ l) x m c = elim (Bool-cases (x == z)) [
  | inl e ↦ (y, subst (λ u. p u ≡ some y) (sym (==true→eq x z e)) c.0)
  | inr e ↦ prev_ne_none p n z l x (ground (arith, m, e)) c.2
]

pub head-remove :
    (p n : ℕ → Option ℕ) (l : List ℕ) (x : ℕ)
    → contains l x ≡ true
    → IsChain p n none l
    → head? (remove x l) ≡ or_else (p x) (n x) (head? l)
head-remove p n [] x m c = cc
head-remove p n (y ∷ r) x m c = elim (Bool-cases (x == y)) [
  | inl e ↦ rw e (
      subst (λ u. head? r ≡ or_else (p u) (n u) (some y)) (sym (==true→eq x y e))
        (rw (c.0) (sym c.1)))
  | inr e ↦ let (a, k) = prev_ne_none p n y r x (ground (arith, m, e)) c.2 in rw e (rw k refl)
]

pub no_self_link :
    (p n : ℕ → Option ℕ) (q : Option ℕ) (l : List ℕ) (x : ℕ)
    → Distinct l
    → Outside q l
    → contains l x ≡ true
    → IsChain p n q l
    → (same (p x) (some x) ≡ false) × (same (n x) (some x) ≡ false)
no_self_link p n q [] x d o m c = cc
no_self_link p n q (y ∷ r) x d o m c = elim (Bool-cases (x == y)) [
  | inl e ↦
      subst (λ u. (same (p u) (some u) ≡ false) × (same (n u) (some u) ≡ false))
        (sym (==true→eq x y e))
        (rw (c.0) (not_same q (y ∷ r) y o (ground arith)), rw (c.1) (head_ne r d.0))
  | inr e ↦ no_self_link p n (some y) r x d.1 d.0 (ground (arith, m, e)) c.2
]
  where
    head_ne : (r : List ℕ) → contains r y ≡ false → same (head? r) (some y) ≡ false
    head_ne [] i = refl
    head_ne (z ∷ r) i = ground (arith, i)

pub prev_member :
    (p n : ℕ → Option ℕ) (l : List ℕ) (x w : ℕ)
    → IsChain p n none l
    → contains l x ≡ true
    → p x ≡ some w
    → contains l w ≡ true
prev_member p n [] x w c m e = cc
prev_member p n (y ∷ r) x w c m e = elim (Bool-cases (x == y)) [
  | inl i ↦ absurd_none (sym (c.0) ∙ sym (ap p (==true→eq x y i)) ∙ e)
  | inr i ↦ prev_inside p n none y r x w c (ground (arith, m, i)) e
]
  where
    absurd_none : none ≡ some w → contains (y ∷ r) w ≡ true
    absurd_none k = cc
