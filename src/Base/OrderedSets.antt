-- ===== src/Base/OrderedSets.antt =====
-- `std::set` of pairs of numbers: the list of its pairs in rising lexicographic order.
use Prim.Native.Nat.{ℕ}
use mathlib.Core.Path.{◌≡◌, refl, ap₂}
use mathlib.Core.Bool.{Bool, true, false, not, ◌&&◌, ◌||◌}
use mathlib.Core.List.{List, [], ◌∷◌}
use native.Mathlib.Omega.{arith}
use dwpdsim.Base.Tests.{ltb, ◌==◌, if◌then◌else◌}

abbrev pub Key : Type 0
Key = ℕ × ℕ

abbrev pub same_key : Key → Key → Bool
same_key a b = a.0 == b.0 && a.1 == b.1

abbrev pub before : Key → Key → Bool
before a b = ltb a.0 b.0 || (a.0 == b.0 && ltb a.1 b.1)

unfoldable pub has_key : Key → List Key → Bool
has_key q [] = false
has_key q (x ∷ xs) = same_key q x || has_key q xs

-- `emplace` and `insert` keep a pair that is there.
unfoldable pub insert_key : Key → List Key → List Key
insert_key k [] = k ∷ []
insert_key k (x ∷ xs) =
    if before k x then k ∷ x ∷ xs else if same_key k x then x ∷ xs else x ∷ insert_key k xs

unfoldable pub erase_key : Key → List Key → List Key
erase_key k [] = []
erase_key k (x ∷ xs) = if same_key k x then xs else x ∷ erase_key k xs

abbrev pub After : Key → List Key → Type 0
After k [] = Unit
After k (x ∷ xs) = (before k x ≡ true) × After x xs

abbrev pub Ascends : List Key → Type 0
Ascends [] = Unit
Ascends (x ∷ xs) = After x xs

After-later : (k j : Key) (m : List Key) → before k j ≡ true → After j m → After k m
After-later k j [] h a = tt
After-later k j (x ∷ xs) h a = (ground (arith, h, a.0), a.1)

pub After-Ascends : (k : Key) (m : List Key) → After k m → Ascends m
After-Ascends k [] a = tt
After-Ascends k (x ∷ xs) a = a.1

insert_key-After :
    (b k : Key) (m : List Key) → before b k ≡ true → After b m → After b (insert_key k m)
unfolding insert_key
insert_key-After b k [] h a = (h, tt)
insert_key-After b k (x ∷ xs) h a = ground (arith, a, h, insert_key-After x k xs)

pub insert_key-Ascends : (k : Key) (m : List Key) → Ascends m → Ascends (insert_key k m)
unfolding insert_key
insert_key-Ascends k [] a = tt
insert_key-Ascends k (x ∷ xs) a = ground (arith, a, insert_key-After x k xs)

erase_key-After : (b k : Key) (m : List Key) → After b m → After b (erase_key k m)
unfolding erase_key
erase_key-After b k [] a = tt
erase_key-After b k (x ∷ xs) a =
    ground (arith, a, erase_key-After x k xs a.1, After-later b x xs a.0 a.1)

pub erase_key-Ascends : (k : Key) (m : List Key) → Ascends m → Ascends (erase_key k m)
unfolding erase_key
erase_key-Ascends k [] a = tt
erase_key-Ascends k (x ∷ xs) a = ground (arith, a, erase_key-After x k xs a, After-Ascends x xs a)

pub has_key-insert_key :
    (q k : Key) (m : List Key) → has_key q (insert_key k m) ≡ same_key q k || has_key q m
unfolding has_key insert_key
has_key-insert_key q k [] = refl
has_key-insert_key q k (x ∷ xs) = ground (arith, has_key-insert_key q k xs)

pub has_key-After : (b q : Key) (m : List Key) → After b m → has_key q m ≡ true → before b q ≡ true
unfolding has_key
has_key-After b q [] a h = ground (arith, h)
has_key-After b q (x ∷ xs) a h = ground (arith, a.0, h, has_key-After x q xs a.1)

pub has_key-erase_key :
    (q k : Key) (m : List Key)
    → Ascends m
    → has_key q (erase_key k m) ≡ not (same_key q k) && has_key q m
unfolding has_key erase_key
has_key-erase_key q k [] a = ground arith
has_key-erase_key q k (x ∷ xs) a =
    ground (arith, has_key-erase_key q k xs (After-Ascends x xs a), has_key-After x q xs a)

pub same_key→eq : (a b : Key) → same_key a b ≡ true → a ≡ b
same_key→eq a b h =
    let e0 : a.0 ≡ b.0 = ground (arith, h) in
    let e1 : a.1 ≡ b.1 = ground (arith, h) in ap₂ (λ x y. (x, y)) e0 e1
