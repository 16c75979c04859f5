-- ===== src/Base/Lists.antt =====
-- Lists over the native numbers: length, membership and duplicates as computed predicates.
use Prim.Native.Nat.{ℕ, suc, ◌+◌, ◌≤◌}
use mathlib.Core.Path.{◌≡◌, refl, ap}
use mathlib.Core.Bool.{Bool, true, false, ◌||◌}
use mathlib.Core.List.{List, [], ◌∷◌, ◌++◌}
use native.Mathlib.Omega.{arith}
use mathlib.Core.Logic.{inl, inr}
use dwpdsim.Base.Tests.{Bool-cases, ==true→eq, ltb, ◌==◌, if◌then◌else◌}

module _ {ℓ} {A : Type ℓ} where
  abbrev pub length : List A → ℕ
  length [] = 0
  length (x ∷ xs) = suc (length xs)

  pub length-append : (xs ys : List A) → length (xs ++ ys) ≡ length xs + length ys
  length-append [] ys = omega arith
  length-append (x ∷ xs) ys = omega (arith, length-append xs ys)

abbrev pub All {ℓ κ} : {A : Type ℓ} → (A → Type κ) → List A → Type κ
All P [] = Unit
All P (x ∷ xs) = P x × All P xs

abbrev pub contains : List ℕ → ℕ → Bool
contains [] a = false
contains (x ∷ xs) a = a == x || contains xs a

-- No number stands twice in the list.
abbrev pub Distinct : List ℕ → Type 0
Distinct [] = Unit
Distinct (x ∷ xs) = (contains xs x ≡ false) × Distinct xs

-- The list without the first occurrence of a number.
abbrev pub remove : ℕ → List ℕ → List ℕ
remove a [] = []
remove a (x ∷ xs) = if a == x then xs else x ∷ remove a xs

pub filter {ℓ} : {A : Type ℓ} → (A → Bool) → List A → List A
filter p [] = []
filter p (x ∷ xs) = if p x then x ∷ filter p xs else filter p xs

-- How often a number stands in the list.
abbrev pub count : ℕ → List ℕ → ℕ
count a [] = 0
count a (x ∷ xs) = if a == x then suc (count a xs) else count a xs

pub count-remove :
    (a b : ℕ) (xs : List ℕ)
    → contains xs b ≡ true
    → count a (remove b xs) + (if a == b then 1 else 0) ≡ count a xs
count-remove a b [] h = cc
count-remove a b (x ∷ xs) h = ground (arith, count-remove a b xs)

pub length-remove :
    (b : ℕ) (xs : List ℕ) → contains xs b ≡ true → length (remove b xs) + 1 ≡ length xs
length-remove b [] h = cc
length-remove b (x ∷ xs) h = ground (arith, length-remove b xs)

pub contains-count : (a : ℕ) (xs : List ℕ) → contains xs a ≡ ltb 0 (count a xs)
contains-count a [] = refl
contains-count a (x ∷ xs) = ground (arith, contains-count a xs)

pub length-remove_le : (b : ℕ) (xs : List ℕ) → length (remove b xs) ≤ length xs
length-remove_le b [] = omega arith
length-remove_le b (x ∷ xs) = ground (arith, length-remove_le b xs)

pub contains-remove :
    (a b : ℕ) (xs : List ℕ) → (a == b) ≡ false → contains (remove b xs) a ≡ contains xs a
contains-remove a b [] h = refl
contains-remove a b (x ∷ xs) h = ground (arith, contains-remove a b xs h)

pub contains-remove_self : (a : ℕ) (xs : List ℕ) → Distinct xs → contains (remove a xs) a ≡ false
contains-remove_self a [] d = refl
contains-remove_self a (x ∷ xs) d = elim (Bool-cases (a == x)) [
  | inl e ↦ rw e (rw (==true→eq a x e) d.0)
  | inr e ↦ rw e (rw e (contains-remove_self a xs d.1))
]

contains-remove-false :
    (a b : ℕ) (xs : List ℕ) → contains xs a ≡ false → contains (remove b xs) a ≡ false
contains-remove-false a b [] h = refl
contains-remove-false a b (x ∷ xs) h = ground (arith, contains-remove-false a b xs)

pub Distinct-remove : (a : ℕ) (xs : List ℕ) → Distinct xs → Distinct (remove a xs)
Distinct-remove a [] d = tt
Distinct-remove a (x ∷ xs) d = elim (Bool-cases (a == x)) [
  | inl e ↦ rw e d.1
  | inr e ↦ rw e (contains-remove-false x a xs d.0, Distinct-remove a xs d.1)
]

pub contains-append : (l m : List ℕ) (a : ℕ) → contains (l ++ m) a ≡ contains l a || contains m a
contains-append [] m a = refl
contains-append (x ∷ l) m a = ground (arith, contains-append l m a)

pub append-nil : (l : List ℕ) → l ++ [] ≡ l
append-nil [] = refl
append-nil (x ∷ l) = ap (◌∷◌ x) (append-nil l)

pub append_assoc : (l m n : List ℕ) → (l ++ m) ++ n ≡ l ++ (m ++ n)
append_assoc [] m n = refl
append_assoc (x ∷ l) m n = ap (◌∷◌ x) (append_assoc l m n)
