-- ===== src/StoragePolicy/Entries/Keys.antt =====
-- The residency entries of cpp/src/policies/storage/storage_policy_state.cpp as a map with rising
-- keys, as mutations are committed.
use dwpdsim.Base.{ℕ, ◌<◌, ◌≡◌, refl, [], ◌∷◌, none, some, true, arith, ◌==◌, if◌then◌else◌}
use dwpdsim.StoragePolicy.Entries.{Entry, Entries, lookup, assign, erase}

-- The keys rise and are all above a bound.
abbrev Above : ℕ → Entries → Type 0
Above k [] = Unit
Above k ((j, d) ∷ m) = (k < j) × Above j m

abbrev pub Rises : Entries → Type 0
Rises [] = Unit
Rises ((j, d) ∷ m) = Above j m

Above-weaken : (k j : ℕ) (m : Entries) → k < j → Above j m → Above k m
Above-weaken k j [] h a = tt
Above-weaken k j ((i, d) ∷ m) h a = (omega (arith, a.0), a.1)

Above-Rises : (k : ℕ) (m : Entries) → Above k m → Rises m
Above-Rises k [] a = tt
Above-Rises k ((j, d) ∷ m) a = a.1

assign-Above : (b k : ℕ) (e : Entry) (m : Entries) → b < k → Above b m → Above b (assign k e m)
unfolding assign
assign-Above b k e [] h a = (h, tt)
assign-Above b k e ((j, d) ∷ m) h a = ground (arith, a, assign-Above j k e m)

pub assign-Rises : (k : ℕ) (e : Entry) (m : Entries) → Rises m → Rises (assign k e m)
unfolding assign
assign-Rises k e [] a = tt
assign-Rises k e ((j, d) ∷ m) a = ground (arith, a, assign-Above j k e m)

erase-Above : (b k : ℕ) (m : Entries) → Above b m → Above b (erase k m)
unfolding erase
erase-Above b k [] a = tt
erase-Above b k ((j, d) ∷ m) a =
    ground (arith, a, erase-Above j k m a.1, Above-weaken b j m a.0 a.1)

pub erase-Rises : (k : ℕ) (m : Entries) → Rises m → Rises (erase k m)
unfolding erase
erase-Rises k [] a = tt
erase-Rises k ((j, d) ∷ m) a = ground (arith, a, erase-Above j k m a, Above-Rises j m a)

pub lookup-assign :
    (q k : ℕ) (e : Entry) (m : Entries)
    → lookup q (assign k e m) ≡ (if q == k then some e else lookup q m)
unfolding lookup assign
lookup-assign q k e [] = refl
lookup-assign q k e ((j, d) ∷ m) = ground (arith, lookup-assign q k e m)

lookup-Above : (b q : ℕ) (m : Entries) → Above b m → (q == b) ≡ true → lookup q m ≡ none
unfolding lookup
lookup-Above b q [] a h = refl
lookup-Above b q ((j, d) ∷ m) a h =
    ground (arith, a.0, h, lookup-Above b q m (Above-weaken b j m a.0 a.1) h)

pub lookup-erase :
    (q k : ℕ) (m : Entries) → Rises m → lookup q (erase k m) ≡ (if q == k then none else lookup q m)
unfolding lookup erase
lookup-erase q k [] a = ground arith
lookup-erase q k ((j, d) ∷ m) a =
    ground (arith, lookup-erase q k m (Above-Rises j m a), lookup-Above j q m a)
