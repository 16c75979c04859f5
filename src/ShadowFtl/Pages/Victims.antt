-- ===== src/ShadowFtl/Pages/Victims.antt =====
-- The block that a collection chooses.
use dwpdsim.Base.{
  ℕ, zero, suc, ◌<◌, ◌≡◌, subst, true, false, Option, none, some, Vector, arith, ◌==◌, ◌&&◌, ◌||◌,
  Bool-cases, inl, inr, ==true→eq,
}
use dwpdsim.ShadowFtl.{FlashBlock}
use dwpdsim.ShadowFtl.Pages.{is_collectable, is_better, choose, find_victim}

-- What the scan of the first `n` blocks finds.
abbrev pub IsVictim : ℕ → ℕ → (ℕ → FlashBlock) → Option ℕ → Type 0
IsVictim pages n c none = (i : ℕ) → i < n → is_collectable pages (c i) ≡ false
IsVictim pages n c (some j) =
    (j < n)
    × ((is_collectable pages (c j) ≡ true)
        × ((i : ℕ)
            → i < n
            → is_collectable pages (c i) ≡ true
            → (i == j || is_better j (c j) i (c i)) ≡ true))

is_better_trans :
    (i j k : ℕ) (a b c : FlashBlock)
    → is_better i a j b ≡ true
    → is_better j b k c ≡ true
    → is_better i a k c ≡ true
is_better_trans i j k a b c h g = ground (arith, h, g)

is_better_total :
    (i j : ℕ) (a b : FlashBlock)
    → (i == j) ≡ false
    → is_better i a j b ≡ false
    → is_better j b i a ≡ true
is_better_total i j a b e h = ground (arith, e, h)

choose-IsVictim :
    (pages n : ℕ) (v : Vector FlashBlock) (o : Option ℕ)
    → IsVictim pages n v.cell o
    → IsVictim pages (suc n) v.cell (choose pages v n o)
choose-IsVictim pages n v none h = elim (Bool-cases (is_collectable pages (v.cell n))) [
  | inl t ↦ rw t (
    omega arith,
    (
      t,
      λ i l u. elim (Bool-cases (i == n)) [
        | inl e ↦ ground (arith, e)
        | inr e ↦ absurd (ground (arith, e, l, u, h i))
      ],
    ),
  )
  | inr t ↦ rw t (λ i l. elim (Bool-cases (i == n)) [
    | inl e ↦ rw (==true→eq i n e) t
    | inr e ↦ h i (ground (arith, e, l))
  ])
]
choose-IsVictim pages n v (some j) h =
    elim (Bool-cases (is_collectable pages (v.cell n) && is_better n (v.cell n) j (v.cell j))) [
      | inl t ↦ rw t (
        omega arith,
        (
          ground (arith, t),
          λ i l u. elim (Bool-cases (i == n)) [
            | inl e ↦ ground (arith, e)
            | inr e ↦ before_rest t i (h.1.1 i (ground (arith, e, l)) u)
          ],
        ),
      )
      | inr t ↦ rw t (
        omega (arith, h.0),
        (
          h.1.0,
          λ i l u. elim (Bool-cases (i == n)) [
            | inl e ↦ rw (==true→eq i n e) (
                ground (
                  arith,
                  is_better_total n j (v.cell n) (v.cell j) (ground (arith, h.0)) (
                      ground (
                        arith,
                        t,
                        subst (λ x. is_collectable pages (v.cell x) ≡ true) (==true→eq i n e) u,
                      )),
                ))
            | inr e ↦ h.1.1 i (ground (arith, e, l)) u
          ],
        ),
      )
    ]
  where
    before_rest :
        is_collectable pages (v.cell n) && is_better n (v.cell n) j (v.cell j) ≡ true
        → (i : ℕ) → (i == j || is_better j (v.cell j) i (v.cell i)) ≡ true
        → (i == n || is_better n (v.cell n) i (v.cell i)) ≡ true
    before_rest t i w = elim (Bool-cases (i == j)) [
      | inl e ↦ rw (==true→eq i j e) (ground (arith, t))
      | inr e ↦ ground (
        arith,
        is_better_trans n j i (v.cell n) (v.cell j) (v.cell i) (ground (arith, t))
            (ground (arith, e, w)),
      )
    ]

-- The block that a collection chooses is one of the first `n`, full and with a slot that is not
-- live, and no other such block comes before it by live pages, last write, erases and number; none
-- is chosen only if there is no such block.
pub find_victim-IsVictim :
    (pages n : ℕ) (v : Vector FlashBlock) → IsVictim pages n v.cell (find_victim pages n v)
unfolding find_victim
find_victim-IsVictim pages zero v = λ i h. absurd (omega arith)
find_victim-IsVictim pages (suc n) v =
    choose-IsVictim pages n v (find_victim pages n v) (find_victim-IsVictim pages n v)
