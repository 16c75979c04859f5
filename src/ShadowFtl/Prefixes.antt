-- ===== src/ShadowFtl/Prefixes.antt =====
-- The longest prefix of a request that ends in a ghost.
use dwpdsim.Base.{
  ℕ, zero, suc, ◌≤◌, ◌<◌, ◌+◌, ◌≡◌, refl, Bool, true, false, List, [], ◌∷◌, Option, none, some,
  arith, Map, u64_mod, ◌∙◌,
}
use dwpdsim.Types.{TimestampNs, NodeId, HashId}
use dwpdsim.ShadowFtl.Device.{ShadowFtl, expire_ghosts, longest_ghost, ghost_prefix}
use dwpdsim.ShadowFtl.Ghosts.{GhostsAgree, unexpired, expire_ghosts-GhostsAgree}

abbrev pub is_ghost : Option TimestampNs → Bool
is_ghost none = false
is_ghost (some t) = true

-- Whether the hash at a position of the request is a ghost.
abbrev pub ghost_at : Map TimestampNs → List HashId → ℕ → Bool
ghost_at g [] i = false
ghost_at g (h ∷ hs) zero = is_ghost (g h)
ghost_at g (h ∷ hs) (suc i) = ghost_at g hs i

record Scanned (g : Map TimestampNs) (i longest : ℕ) (hs : List HashId) (r : ℕ) : Type 0 where
  none_after : (j : ℕ) → r ≤ i + j → ghost_at g hs j ≡ false
  ends_in_ghost : (m : ℕ) → r ≡ suc (i + m) → ghost_at g hs m ≡ true
  kept : r ≤ i → r ≡ longest

Scanned-step :
    (g : Map TimestampNs) (i longest : ℕ) (h : HashId) (hs : List HashId) (r : ℕ)
    (o : Option TimestampNs)
    → g h ≡ o
    → longest ≤ i
    → Scanned g (suc i) (elim o [ none ↦ longest | some t ↦ suc i ]) hs r
    → Scanned g i longest (h ∷ hs) r
Scanned-step g i longest h hs r o e b s = record {
  none_after = after;
  ends_in_ghost = ends;
  kept = λ k. first o e s.kept k;
}
  where
    first :
        (o : Option TimestampNs)
        → g h ≡ o
        → (r ≤ suc i → r ≡ elim o [ none ↦ longest | some t ↦ suc i ])
        → r ≤ i
        → r ≡ longest
    first none e k l = k (omega arith)
    first (some t) e k l = absurd (omega (arith, k (omega arith)))

    absent :
        (o : Option TimestampNs)
        → (r ≤ suc i → r ≡ elim o [ none ↦ longest | some t ↦ suc i ])
        → r ≤ i
        → is_ghost o ≡ false
    absent none k l = refl
    absent (some t) k l = absurd (omega (arith, k (omega arith)))

    present :
        (o : Option TimestampNs)
        → (r ≤ suc i → r ≡ elim o [ none ↦ longest | some t ↦ suc i ])
        → r ≡ suc i
        → is_ghost o ≡ true
    present none k l = absurd (omega (arith, k (omega arith)))
    present (some t) k l = refl

    after : (j : ℕ) → r ≤ i + j → ghost_at g (h ∷ hs) j ≡ false
    after zero l = rw e (absent o s.kept (omega arith))
    after (suc j) l = s.none_after j (omega arith)

    ends : (m : ℕ) → r ≡ suc (i + m) → ghost_at g (h ∷ hs) m ≡ true
    ends zero l = rw e (present o s.kept (omega arith))
    ends (suc m) l = s.ends_in_ghost m (omega arith)

longest_ghost-Scanned :
    (g : Map TimestampNs) (i longest : ℕ) (hs : List HashId)
    → longest ≤ i
    → Scanned g i longest hs (longest_ghost g i longest hs)
unfolding longest_ghost
longest_ghost-Scanned g i longest [] b = record {
  none_after = λ j l. refl;
  ends_in_ghost = λ m l. absurd (omega arith);
  kept = λ l. refl;
}
longest_ghost-Scanned g i longest (h ∷ hs) b =
    Scanned-step g i longest h hs _ (g h) refl b
      (longest_ghost-Scanned g (suc i) _ hs (at_most (g h)))
  where
    at_most : (o : Option TimestampNs) → elim o [ none ↦ longest | some t ↦ suc i ] ≤ suc i
    at_most none = omega arith
    at_most (some t) = omega arith

-- A position that is after the last ghost of a list of hashes.
pub record EndsGhosts (g : Map TimestampNs) (hs : List HashId) (n : ℕ) : Type 0 where
  pub none_after : (j : ℕ) → n ≤ j → ghost_at g hs j ≡ false
  pub ends_in_ghost : (m : ℕ) → n ≡ suc m → ghost_at g hs m ≡ true

-- When the ghost map and the expiration set agree and the time has 64 bits, the number that
-- `ghost_prefix` returns is the position after the last hash of the request that was lost at most a
-- day before, or 0 without one; what it leaves behind agrees again and holds only such ghosts.
pub ghost_prefix-EndsGhosts :
    {F : Type 0} (hs : List HashId) (now : TimestampNs) (d : ShadowFtl F)
    → now < u64_mod
    → GhostsAgree d
    → EndsGhosts (λ h. unexpired now (d.ghosts h)) hs (ghost_prefix hs now d).0
      × (GhostsAgree (ghost_prefix hs now d).1
          × ((h : NodeId) → (ghost_prefix hs now d).1.ghosts h ≡ unexpired now (d.ghosts h)))
unfolding ghost_prefix
ghost_prefix-EndsGhosts hs now d b a =
    let x = expire_ghosts-GhostsAgree now d b a in
    let s = longest_ghost-Scanned (expire_ghosts now d).ghosts 0 0 hs (omega arith) in
    (
      record {
        none_after = λ j l. same hs j ∙ s.none_after j (omega (arith, l));
        ends_in_ghost = λ m l. same hs m ∙ s.ends_in_ghost m (omega (arith, l));
      },
      x,
    )
  where
    same :
        (xs : List HashId) (j : ℕ)
        → ghost_at (λ h. unexpired now (d.ghosts h)) xs j
          ≡ ghost_at (expire_ghosts now d).ghosts xs j
    same [] j = refl
    same (h ∷ xs) zero = rw ((expire_ghosts-GhostsAgree now d b a).1 h) refl
    same (h ∷ xs) (suc j) = same xs j
