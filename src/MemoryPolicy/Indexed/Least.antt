-- ===== src/MemoryPolicy/Indexed/Least.antt =====
-- A search finds the least eligible segment of its groups, however the groups are shared out.
use dwpdsim.Base.{
  case_true, case_false, Returns-map, ℕ, suc, zero, ◌<◌, ◌+◌, ◌-◌, ◌≡◌, refl, sym, subst, ap, ap₂,
  ◌∙◌, inl, inr, Bool, true, false, List, [], ◌∷◌, Option, none, some, Returns, Returns-bind, ◌>>=◌,
  Key, before, same_key, has_key, has_key-After, same_key→eq, Ascends, After-Ascends, Vector,
  lt→ltb, add64, ◌&&◌, ◌||◌, Bool-cases, arith, All,
}
use dwpdsim.MemoryPolicy.Indexed.Searches.{
  Found, better, search_group, search_list, search, every, nothing_found, join, join_workers,
}

-- What is known of the least key of a set that is given by a test on keys.
abbrev pub IsLeast : (Key → Bool) → Option Key → Type 0
IsLeast P none = (k : Key) → P k ≡ false
IsLeast P (some b) = (P b ≡ true) × ((k : Key) → P k ≡ true → before k b ≡ false)

-- Adding a set with a known least key.
abbrev pub merged : Option Key → Option Key → Option Key
merged f none = f
merged f (some k) = better f k

IsLeast-merged :
    (P Q R : Key → Bool) (f o : Option Key)
    → ((k : Key) → R k ≡ P k || Q k)
    → IsLeast P f
    → IsLeast Q o
    → IsLeast R (merged f o)
IsLeast-merged P Q R none none e p q = λ k. ground (arith, e k, p k, q k)
IsLeast-merged P Q R (some b) none e p q =
    (ground (arith, e b, p.0), λ k h. p.1 k (ground (arith, e k, q k, h)))
IsLeast-merged P Q R none (some j) e p q =
    (ground (arith, e j, q.0), λ k h. q.1 k (ground (arith, e k, p k, h)))
IsLeast-merged P Q R (some b) (some j) e p q = elim (Bool-cases (before j b)) [
  | inl t ↦ rw t (ground (arith, e j, q.0), λ k h. ground (arith, e k, h, p.1 k, q.1 k, t))
  | inr t ↦ rw t (ground (arith, e b, p.0), λ k h. ground (arith, e k, h, p.1 k, q.1 k, t))
]

IsLeast-same :
    (P R : Key → Bool) (o : Option Key) → ((k : Key) → R k ≡ P k) → IsLeast P o → IsLeast R o
IsLeast-same P R o e h =
    IsLeast-merged P (λ k. false) R o none (λ k. e k ∙ ground arith) h (λ k. refl)

-- Two least keys of one set are the same.
IsLeast-unique : (P : Key → Bool) (a b : Option Key) → IsLeast P a → IsLeast P b → a ≡ b
IsLeast-unique P none none h g = refl
IsLeast-unique P none (some b) h g = absurd (ground (arith, h b, g.0))
IsLeast-unique P (some a) none h g = absurd (ground (arith, g a, h.0))
IsLeast-unique P (some a) (some b) h g =
    let e0 : a.0 ≡ b.0 = ground (arith, h.0, g.0, h.1 b, g.1 a) in
    let e1 : a.1 ≡ b.1 = ground (arith, h.0, g.0, h.1 b, g.1 a) in ap₂ (λ x y. some (x, y)) e0 e1

every-All : (P : ℕ → Type 0) (skip gap : ℕ) (xs : List ℕ) → All P xs → All P (every skip gap xs)
unfolding every
every-All P skip gap [] h = tt
every-All P zero gap (x ∷ xs) h = (h.0, every-All P gap gap xs h.1)
every-All P (suc skip) gap (x ∷ xs) h = every-All P skip gap xs h.1

or_false : (a : Bool) → a || false ≡ a
or_false a = ground arith

or_assoc : (a b c : Bool) → a || (b || c) ≡ (a || b) || c
or_assoc a b c = ground arith

regrouped : (a b c d : Bool) → c || b ≡ d → (a || b) || c ≡ a || d
regrouped a b c d h = ground (arith, h)

module _ (ok_key : Key → Bool) (groups : Vector (List Key)) where
  abbrev pub in_group : ℕ → Key → Bool
  in_group i k = ok_key k && has_key k (groups.cell i)

  -- The eligible keys of a list of groups.
  abbrev pub in_groups : List ℕ → Key → Bool
  in_groups [] k = false
  in_groups (i ∷ is) k = in_group i k || in_groups is k

  abbrev pub in_list : List Key → Key → Bool
  in_list l k = ok_key k && has_key k l

  search_group-IsLeast :
      (l : List Key) (P R : Key → Bool) (f : Found)
      → Ascends l
      → ((k : Key) → R k ≡ P k || in_list l k)
      → IsLeast P f.best
      → IsLeast R (search_group ok_key l f).best
  unfolding search_group has_key
  search_group-IsLeast [] P R f a e h =
      IsLeast-merged P (in_list []) R f.best none e h (λ k. ground arith)
  search_group-IsLeast (x ∷ l) P R f a e h = elim (Bool-cases (ok_key x)) [
    | inl t ↦
        subst {A = Found} (λ r. IsLeast R r.best) (sym (case_true (ok_key x) _ _ t))
          (IsLeast-merged P (in_list (x ∷ l)) R f.best (some x) e h (first t))
    | inr t ↦
        subst {A = Found} (λ r. IsLeast R r.best) (sym (case_false (ok_key x) _ _ t))
          (search_group-IsLeast l P R (record f { examined = add64 f.examined 1 })
            (After-Ascends x l a) (λ k. e k ∙ ap (λ c. P k || c) (passed t k)) h)
  ]
    where
      first : ok_key x ≡ true → IsLeast (in_list (x ∷ l)) (some x)
      first t = (ground (arith, t), λ k h. ground (arith, h, has_key-After x k l a))

      passed : ok_key x ≡ false → (k : Key) → in_list (x ∷ l) k ≡ in_list l k
      passed t k = elim (Bool-cases (same_key k x)) [
        | inl u ↦ rw (same_key→eq k x u) (rw t refl)
        | inr u ↦ rw u refl
      ]

  search_list-IsLeast :
      (is : List ℕ) (P : Key → Bool) (f : Found)
      → All (λ i. i < groups.size) is
      → ((i : ℕ) → i < groups.size → Ascends (groups.cell i))
      → IsLeast P f.best
      → Returns (search_list ok_key groups is f) (λ r. IsLeast (λ k. P k || in_groups is k) r.best)
  unfolding search_list ◌>>=◌
  search_list-IsLeast [] P f b a h = IsLeast-same P (λ k. P k || false) f.best (λ k. ground arith) h
  search_list-IsLeast (i ∷ is) P f b a h =
      let R : Key → Bool = λ k. P k || in_group i k in
      let step = search_group-IsLeast (groups.cell i) P R f (a i b.0) (λ k. refl) h in
      rw (lt→ltb _ _ b.0) (
        Returns-map (search_list ok_key groups is (search_group ok_key (groups.cell i) f))
          (search_list-IsLeast is R (search_group ok_key (groups.cell i) f) b.1 a step)
          (λ r w. IsLeast-same (λ k. R k || in_groups is k) _ r.best (λ k. ground arith) w))

  search-IsLeast :
      (selected : List ℕ) (worker workers : ℕ)
      → All (λ i. i < groups.size) selected
      → ((i : ℕ) → i < groups.size → Ascends (groups.cell i))
      → Returns
          (search ok_key groups selected worker workers)
          (λ r. IsLeast (in_groups (every worker (workers - 1) selected)) r.best)
  unfolding search
  search-IsLeast selected worker workers b a =
      Returns-map (search_list ok_key groups (every worker (workers - 1) selected) nothing_found)
        (search_list-IsLeast (every worker (workers - 1) selected) (λ k. false) nothing_found
          (every-All _ worker (workers - 1) selected b) a (λ k. refl))
        (λ r w.
          IsLeast-same (λ k. false || in_groups (every worker (workers - 1) selected) k) _ r.best
            (λ k. refl) w)

  -- A test on the numbers `w`, `w + 1` and so on, `n` of them.
  abbrev or_from : ℕ → ℕ → (ℕ → Bool) → Bool
  or_from zero w h = false
  or_from (suc n) w h = h w || or_from n (suc w) h

  or_from-shift : (n w : ℕ) (h : ℕ → Bool) → or_from n (suc w) h ≡ or_from n w (λ j. h (suc j))
  or_from-shift zero w h = refl
  or_from-shift (suc n) w h = ap (λ b. h (suc w) || b) (or_from-shift n (suc w) h)

  or_from-last : (n w j : ℕ) (h : ℕ → Bool) → w + n ≡ j → or_from (suc n) w h ≡ or_from n w h || h j
  or_from-last zero w j h e = rw (sym e) (or_false (h w) ∙ ap h (omega arith))
  or_from-last (suc n) w j h e =
      ap (λ b. h w || b) (or_from-last n (suc w) j h (omega (arith, e)))
      ∙ or_assoc (h w) (or_from n (suc w) h) (h j)

  or_from-false : (n w : ℕ) → or_from n w (λ j. false) ≡ false
  or_from-false zero w = refl
  or_from-false (suc n) w = or_from-false n (suc w)

  -- Every group is some worker's.
  every-all :
      (gap : ℕ) (selected : List ℕ) (k : Key)
      → or_from (suc gap) 0 (λ w. in_groups (every w gap selected) k) ≡ in_groups selected k
  unfolding every
  every-all gap [] k = or_from-false (suc gap) 0
  every-all gap (x ∷ xs) k =
      let h : ℕ → Bool = λ w. in_groups (every w gap xs) k in
      ap (λ b. (in_group x k || in_groups (every gap gap xs) k) || b)
        (or_from-shift gap 0 (λ w. in_groups (every w gap (x ∷ xs)) k))
      ∙ regrouped (in_group x k) (h gap) (or_from gap 0 h) (in_groups xs k)
          (sym (or_from-last gap 0 gap h (omega arith)) ∙ every-all gap xs k)

  join_workers-IsLeast :
      (n w workers : ℕ) (selected : List ℕ) (P : Key → Bool) (f : Found)
      → All (λ i. i < groups.size) selected
      → ((i : ℕ) → i < groups.size → Ascends (groups.cell i))
      → IsLeast P f.best
      → Returns (join_workers n ok_key groups selected w workers f) (λ r.
        IsLeast
          (λ k. P k || or_from n w (λ j. in_groups (every j (workers - 1) selected) k))
          r.best)
  unfolding join_workers
  join_workers-IsLeast zero w workers selected P f b a h =
      IsLeast-same P (λ k. P k || false) f.best (λ k. or_false (P k)) h
  join_workers-IsLeast (suc n) w workers selected P f b a h =
      Returns-bind _ (search ok_key groups selected w workers) _
        (search-IsLeast selected w workers b a)
        (λ part l.
          let R : Key → Bool = λ k. P k || in_groups (every w (workers - 1) selected) k in
          Returns-map (join_workers n ok_key groups selected (suc w) workers (join f part))
            (join_workers-IsLeast n (suc w) workers selected R (join f part) b a
              (joined P _ f part h l))
            (λ r m.
              IsLeast-same
                (λ k. R k || or_from n (suc w) (λ j. in_groups (every j (workers - 1) selected) k))
                _ r.best (λ k. or_assoc (P k) _ _) m))
    where
      joined :
          (P Q : Key → Bool) (f part : Found)
          → IsLeast P f.best
          → IsLeast Q part.best
          → IsLeast (λ k. P k || Q k) (join f part).best
      joined P Q f part h l = go part.best l
        where
          go :
              (o : Option Key)
              → IsLeast Q o
              → IsLeast (λ k. P k || Q k) (elim o [ none ↦ f.best | some k ↦ better f.best k ])
          go none l = IsLeast-merged P Q (λ k. P k || Q k) f.best none (λ k. refl) h l
          go (some j) l = IsLeast-merged P Q (λ k. P k || Q k) f.best (some j) (λ k. refl) h l

  every-one : (xs : List ℕ) → every 0 0 xs ≡ xs
  unfolding every
  every-one [] = refl
  every-one (x ∷ xs) = ap (◌∷◌ x) (every-one xs)

  -- The workers' results joined are what one search of all groups finds.
  pub workers-IsLeast :
      (workers : ℕ) (selected : List ℕ)
      → 0 < workers
      → All (λ i. i < groups.size) selected
      → ((i : ℕ) → i < groups.size → Ascends (groups.cell i))
      → Returns
          (join_workers workers ok_key groups selected 0 workers nothing_found)
          (λ r. IsLeast (in_groups selected) r.best)
  workers-IsLeast zero selected h b a = absurd (omega (arith, h))
  workers-IsLeast (suc gap) selected h b a =
      Returns-map (join_workers (suc gap) ok_key groups selected 0 (suc gap) nothing_found)
        (join_workers-IsLeast (suc gap) 0 (suc gap) selected (λ k. false) nothing_found b a
          (λ k. refl))
        (λ r w.
          IsLeast-same
            (λ k. false || or_from (suc gap) 0 (λ j. in_groups (every j (suc gap - 1) selected) k))
            _ r.best
            (λ k. sym (
              subst
                (λ g.
                  or_from (suc gap) 0 (λ w. in_groups (every w g selected) k)
                  ≡ in_groups selected k)
                (omega arith) (every-all gap selected k)))
            w)

  pub one-IsLeast :
      (selected : List ℕ)
      → All (λ i. i < groups.size) selected
      → ((i : ℕ) → i < groups.size → Ascends (groups.cell i))
      → Returns (search ok_key groups selected 0 1) (λ r. IsLeast (in_groups selected) r.best)
  one-IsLeast selected b a =
      subst (λ l. Returns (search ok_key groups selected 0 1) (λ r. IsLeast (in_groups l) r.best))
        (every-one selected) (search-IsLeast selected 0 1 b a)
