-- ===== src/Simulator/Balance.antt =====
-- The blocks in use on each tier against the blocks that cpp/src/metrics.cpp counts there, as blocks
-- are allocated, counted, uncounted and released.
use dwpdsim.Base.{
  ℕ, suc, List, [], ◌∷◌, ◌≡◌, refl, ◌+◌, ◌%◌, arith, add64, sub64, u64_mod, if◌then◌else◌,
}
use dwpdsim.Types.{StorageTier, slc, tlc, PerTier, at_tier, change_tier, tier_eq}
use dwpdsim.Storage.{
  StorageTierState, StorageState, allocate, release, record_unaddressed_write, take_address, grow,
}

pub used-allocate : (s : StorageTierState) → (allocate s).1.used_blocks ≡ add64 s.used_blocks 1
unfolding allocate
used-allocate s = grown s.recycled_addresses
  where
    grown : (r : List ℕ) → (grow (take_address s r).1).used_blocks ≡ add64 s.used_blocks 1
    grown [] = refl
    grown (a ∷ r) = refl

-- `debt t` blocks of tier `t` are in use and not counted, modulo 2^64.
abbrev pub Balanced : (StorageTier → ℕ) → StorageState → PerTier ℕ → Type 0
Balanced debt storage resident =
    (t : StorageTier) → (at_tier t storage).used_blocks ≡ (at_tier t resident + debt t) % u64_mod

-- One more block of a tier in debt.
abbrev pub owe : StorageTier → (StorageTier → ℕ) → StorageTier → ℕ
owe t debt u = if tier_eq u t then suc (debt u) else debt u

module _ (debt : StorageTier → ℕ) (storage : StorageState) (resident : PerTier ℕ) where
  pub allocate-Balanced :
      (t : StorageTier)
      → Balanced debt storage resident
      → Balanced
          (owe t debt)
          (change_tier t (λ old. (allocate (at_tier t storage)).1) storage)
          resident
  unfolding add64
  allocate-Balanced slc b slc = omega (arith, used-allocate storage.slc_part, b slc)
  allocate-Balanced slc b tlc = b tlc
  allocate-Balanced tlc b slc = b slc
  allocate-Balanced tlc b tlc = omega (arith, used-allocate storage.tlc_part, b tlc)

  pub grow-Balanced :
      (t : StorageTier)
      → Balanced debt storage resident
      → Balanced (owe t debt) (change_tier t record_unaddressed_write storage) resident
  unfolding add64 record_unaddressed_write
  grow-Balanced slc b slc = omega (arith, b slc)
  grow-Balanced slc b tlc = b tlc
  grow-Balanced tlc b slc = b slc
  grow-Balanced tlc b tlc = omega (arith, b tlc)

  pub counted-Balanced :
      (t : StorageTier)
      → Balanced (owe t debt) storage resident
      → Balanced debt storage (change_tier t (λ n. add64 n 1) resident)
  unfolding add64
  counted-Balanced slc b slc = omega (arith, b slc)
  counted-Balanced slc b tlc = b tlc
  counted-Balanced tlc b slc = b slc
  counted-Balanced tlc b tlc = omega (arith, b tlc)

  pub uncounted-Balanced :
      (t : StorageTier)
      → Balanced debt storage resident
      → Balanced (owe t debt) storage (change_tier t (λ n. sub64 n 1) resident)
  unfolding sub64
  uncounted-Balanced slc b slc = omega (arith, b slc)
  uncounted-Balanced slc b tlc = b tlc
  uncounted-Balanced tlc b slc = b slc
  uncounted-Balanced tlc b tlc = omega (arith, b tlc)

  pub release-Balanced :
      (t : StorageTier) (a : ℕ)
      → Balanced (owe t debt) storage resident
      → Balanced debt (change_tier t (release a) storage) resident
  unfolding sub64 release
  release-Balanced slc a b slc = omega (arith, b slc)
  release-Balanced slc a b tlc = b tlc
  release-Balanced tlc a b slc = b slc
  release-Balanced tlc a b tlc = omega (arith, b tlc)

-- How many of the listed blocks are on a tier, and a debt that is larger by them.
abbrev pub tally : StorageTier → List StorageTier → ℕ
tally t [] = 0
tally t (u ∷ us) = if tier_eq t u then suc (tally t us) else tally t us

abbrev pub owing : (StorageTier → ℕ) → List StorageTier → StorageTier → ℕ
owing debt ts t = debt t + tally t ts

pub owing-cons :
    (debt : StorageTier → ℕ) (u : StorageTier) (us : List StorageTier) (t : StorageTier)
    → owing debt (u ∷ us) t ≡ owe u (owing debt us) t
owing-cons debt slc us slc = omega arith
owing-cons debt slc us tlc = refl
owing-cons debt tlc us slc = refl
owing-cons debt tlc us tlc = omega arith

pub owing-owe :
    (debt : StorageTier → ℕ) (u : StorageTier) (us : List StorageTier) (t : StorageTier)
    → owing (owe u debt) us t ≡ owe u (owing debt us) t
owing-owe debt slc us slc = omega arith
owing-owe debt slc us tlc = refl
owing-owe debt tlc us slc = refl
owing-owe debt tlc us tlc = omega arith

pub owe_swap :
    (debt : StorageTier → ℕ) (u v : StorageTier) (t : StorageTier)
    → owe u (owe v debt) t ≡ owe v (owe u debt) t
owe_swap debt slc slc t = refl
owe_swap debt tlc tlc t = refl
owe_swap debt slc tlc slc = refl
owe_swap debt slc tlc tlc = refl
owe_swap debt tlc slc slc = refl
owe_swap debt tlc slc tlc = refl
