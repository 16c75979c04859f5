-- ===== src/Base/Results.antt =====
-- Outcomes of the C++ code: a value, an exception, or a read that the language leaves undefined.
use mathlib.Core.Path.{◌≡◌, refl, subst}
use mathlib.Core.Bool.{Bool, true, false, false≢true}
use dwpdsim.Base.Tests.{if◌then◌else◌}
use mathlib.Core.Option.{Option, none, some}
use mathlib.Core.List.{List, [], ◌∷◌}

-- `undefined` is a read or write through an index or iterator that is out of range; `out_of_fuel`
-- says that a loop was given too few rounds; the others are the exceptions of the source.
pub data Error : Type 0 where
  undefined out_of_fuel invalid_argument logic_error runtime_error out_of_range : Error

pub data Result {ℓ} (V : Type ℓ) : Type ℓ where
  ok : V → Result V
  err : Error → Result V

abbrev pub or_fail {ℓ} : {A : Type ℓ} → Option A → Error → Result A
or_fail none e = err e
or_fail (some a) e = ok a

infixl 5 ◌>>=◌
unfoldable pub ◌>>=◌ {ℓ κ} : {V : Type ℓ} {W : Type κ} → Result V → (V → Result W) → Result W
err why >>= k = err why
ok v >>= k = k v

-- Total correctness: the code returns a value, and the value has the property.
abbrev pub Returns {ℓ} : {A : Type ℓ} → Result A → (A → Type 0) → Type 0
Returns (ok a) P = P a
Returns (err e) P = ⊥

pub Returns-map {ℓ} :
    {A : Type ℓ} {P Q : A → Type 0} (r : Result A)
    → Returns r P
    → ((a : A) → P a → Q a)
    → Returns r Q
Returns-map (ok a) h f = f a h
Returns-map (err e) h f = absurd h

pub Returns-bind {ℓ κ} :
    {A : Type ℓ} {B : Type κ} {P : A → Type 0} (Q : B → Type 0) (r : Result A) (f : A → Result B)
    → Returns r P
    → ((a : A) → P a → Returns (f a) Q)
    → Returns (r >>= f) Q
unfolding ◌>>=◌
Returns-bind Q (ok a) f h k = k a h
Returns-bind Q (err e) f h k = absurd h

pub Returns-assoc {ℓ κ μ} :
    {A : Type ℓ} {B : Type κ} {C : Type μ} (Q : C → Type 0) (r : Result A) (f : A → Result B)
    (g : B → Result C)
    → Returns (r >>= λ a. f a >>= g) Q
    → Returns (r >>= f >>= g) Q
unfolding ◌>>=◌
Returns-assoc Q (ok a) f g h = h
Returns-assoc Q (err e) f g h = h

-- The code returns a value with the property, or throws the one error that it may throw.
abbrev pub ReturnsOr {ℓ} : Error → {A : Type ℓ} → Result A → (A → Type 0) → Type 0
ReturnsOr why (ok a) P = P a
ReturnsOr why (err e) P = e ≡ why

pub ReturnsOr-bind {ℓ κ} :
    {A : Type ℓ} {B : Type κ} {P : A → Type 0} (Q : B → Type 0) (why : Error) (r : Result A)
    (f : A → Result B)
    → ReturnsOr why r P
    → ((a : A) → P a → ReturnsOr why (f a) Q)
    → ReturnsOr why (r >>= f) Q
unfolding ◌>>=◌
ReturnsOr-bind Q why (ok a) f h k = k a h
ReturnsOr-bind Q why (err e) f h k = h

pub ReturnsOr-map {ℓ} :
    {A : Type ℓ} {P Q : A → Type 0} (why : Error) (r : Result A)
    → ReturnsOr why r P
    → ((a : A) → P a → Q a)
    → ReturnsOr why r Q
ReturnsOr-map why (ok a) h f = f a h
ReturnsOr-map why (err e) h f = h

pub ReturnsOr-assoc {ℓ κ μ} :
    {A : Type ℓ} {B : Type κ} {C : Type μ} (Q : C → Type 0) (why : Error) (r : Result A)
    (f : A → Result B) (g : B → Result C)
    → ReturnsOr why (r >>= λ a. f a >>= g) Q
    → ReturnsOr why (r >>= f >>= g) Q
unfolding ◌>>=◌
ReturnsOr-assoc Q why (ok a) f g h = h
ReturnsOr-assoc Q why (err e) f g h = h

pub Returns-or {ℓ} :
    {A : Type ℓ} (P : A → Type 0) (why : Error) (r : Result A) → Returns r P → ReturnsOr why r P
Returns-or P why (ok a) h = h
Returns-or P why (err e) h = absurd h

-- A loop over a list whose body may fail.
unfoldable pub for_each {ℓ κ} :
    {A : Type ℓ} {S : Type κ} → List A → (A → S → Result S) → S → Result S
for_each [] body s = ok s
for_each (x ∷ xs) body s = body x s >>= λ t. for_each xs body t

-- Partial correctness: what the code returns, if it returns, has the property.
pub data Ensures {ℓ} {A : Type ℓ} (P : A → Type 0) : Result A → Type ℓ where
  returns : {a : A} → P a → Ensures P (ok a)
  fails : {e : Error} → Ensures P (err e)

pub Ensures-bind {ℓ κ} :
    {A : Type ℓ} {B : Type κ} {P : A → Type 0} {Q : B → Type 0} {r : Result A} {f : A → Result B}
    → Ensures P r
    → ((a : A) → P a → Ensures Q (f a))
    → Ensures Q (r >>= f)
unfolding ◌>>=◌
Ensures-bind (returns p) k = k _ p
Ensures-bind fails k = fails

pub Ensures-any {ℓ} : {A : Type ℓ} {Q : Type 0} (r : Result A) → Q → Ensures (λ a. Q) r
Ensures-any (ok a) q = returns q
Ensures-any (err e) q = fails

pub Ensures-map {ℓ} :
    {A : Type ℓ} {P Q : A → Type 0} {r : Result A}
    → Ensures P r
    → ((a : A) → P a → Q a)
    → Ensures Q r
Ensures-map (returns p) k = returns (k _ p)
Ensures-map fails k = fails

-- A step whose value does not matter.
pub Ensures-after {ℓ κ} :
    {A : Type ℓ} {B : Type κ} {Q : B → Type 0} (r : Result A) {f : A → Result B}
    → ((a : A) → Ensures Q (f a))
    → Ensures Q (r >>= f)
unfolding ◌>>=◌
Ensures-after (ok a) k = k a
Ensures-after (err e) k = fails

pub Ensures-for_each {ℓ κ} :
    {A : Type ℓ} {S : Type κ} (I : S → Type 0) (body : A → S → Result S)
    → ((a : A) (s : S) → I s → Ensures I (body a s))
    → (xs : List A) (s : S) → I s
    → Ensures I (for_each xs body s)
unfolding for_each ◌>>=◌
Ensures-for_each I body h [] s i = returns i
Ensures-for_each I body h (x ∷ xs) s i =
    Ensures-bind (h x s i) (λ t j. Ensures-for_each I body h xs t j)

pub Ensures-ok {ℓ} :
    {A : Type ℓ} {P : A → Type 0} {r : Result A} (a : A) → Ensures P r → r ≡ ok a → P a
Ensures-ok {P} a (returns p) e = subst P (cc) p
Ensures-ok a fails e = cc

-- Two facts about what one step returns.
pub Ensures-both {ℓ κ} :
    {A : Type ℓ} {B : Type κ} {P R : A → Type 0} {Q : B → Type 0} {r : Result A} {f : A → Result B}
    → Ensures P r
    → Ensures R r
    → ((a : A) → P a → R a → Ensures Q (f a))
    → Ensures Q (r >>= f)
unfolding ◌>>=◌
Ensures-both {r = ok a} p q k = k a (Ensures-ok a p refl) (Ensures-ok a q refl)
Ensures-both {r = err e} p q k = fails

pub Ensures-if {ℓ} :
    {A : Type ℓ} {P : A → Type 0} (c : Bool) {x y : Result A}
    → Ensures P x
    → Ensures P y
    → Ensures P (if c then x else y)
Ensures-if true h k = h
Ensures-if false h k = k

-- The same with the equations that the code's values satisfy.
pub Ensures-known {ℓ κ} :
    {A : Type ℓ} {B : Type κ} {Q : B → Type 0} (r : Result A) {f : A → Result B}
    → ((a : A) → r ≡ ok a → Ensures Q (f a))
    → Ensures Q (r >>= f)
unfolding ◌>>=◌
Ensures-known (ok a) k = k a refl
Ensures-known (err e) k = fails

pub Ensures-if_known {ℓ} :
    {A : Type ℓ} {P : A → Type 0} (c : Bool) {x y : Result A}
    → (c ≡ true → Ensures P x)
    → (c ≡ false → Ensures P y)
    → Ensures P (if c then x else y)
Ensures-if_known true h k = h refl
Ensures-if_known false h k = k refl

pub Ensures-case_known {ℓ} :
    {A : Type ℓ} {P : A → Type 0} (c : Bool) {x y : Result A}
    → (c ≡ true → Ensures P x)
    → (c ≡ false → Ensures P y)
    → Ensures P (elim c [ true ↦ x | false ↦ y ])
Ensures-case_known true h k = h refl
Ensures-case_known false h k = k refl

pub Ensures-case {ℓ} :
    {A : Type ℓ} {P : A → Type 0} (c : Bool) {x y : Result A}
    → Ensures P x
    → Ensures P y
    → Ensures P (elim c [ true ↦ x | false ↦ y ])
Ensures-case true h k = h
Ensures-case false h k = k

pub Ensures-option {ℓ κ} :
    {A : Type ℓ} {B : Type κ} {P : A → Type 0} (o : Option B) {x : Result A} {f : B → Result A}
    → Ensures P x
    → ((b : B) → Ensures P (f b))
    → Ensures P (elim o [ none ↦ x | some b ↦ f b ])
Ensures-option none h k = h
Ensures-option (some b) h k = k b

pub Ensures-list {ℓ κ} :
    {A : Type ℓ} {B : Type κ} {P : A → Type 0} (l : List B) {x : Result A}
    {f : B → List B → Result A}
    → Ensures P x
    → ((b : B) (bs : List B) → Ensures P (f b bs))
    → Ensures P (elim l [ [] ↦ x | b ∷ bs ↦ f b bs ])
Ensures-list [] h k = h
Ensures-list (b ∷ bs) h k = k b bs

pub either_holds {ℓ} :
    {A : Type ℓ} (Q : A → Type 0) (c : Bool) (x y : A) → Q x → Q y → Q (if c then x else y)
either_holds Q true x y h k = h
either_holds Q false x y h k = k

abbrev pub is_ok {ℓ} : {A : Type ℓ} → Result A → Bool
is_ok (ok a) = true
is_ok (err e) = false

-- The value of a call that returns.
abbrev pub the {ℓ} : {A : Type ℓ} (r : Result A) → is_ok r ≡ true → A
the (ok a) h = a
the (err e) h = absurd (false≢true h)

pub the_lem {ℓ} : {A : Type ℓ} (r : Result A) (h : is_ok r ≡ true) → r ≡ ok (the r h)
the_lem (ok a) h = refl
the_lem (err e) h = absurd (false≢true h)

-- A call has one outcome.
pub same_ok {ℓ} : {A : Type ℓ} {r : Result A} {a b : A} → r ≡ ok a → r ≡ ok b → a ≡ b
same_ok p q = cc (p, q)

pub or_fail-some {ℓ} : {A : Type ℓ} (o : Option A) (v : A) → or_fail o undefined ≡ ok v → o ≡ some v
or_fail-some none v h = cc h
or_fail-some (some w) v h = cc h

pub ReturnsOr-the {ℓ} :
    {A : Type ℓ} (P : A → Type 0) (why : Error) (r : Result A)
    → ReturnsOr why r P
    → (h : is_ok r ≡ true) → P (the r h)
ReturnsOr-the P why (ok a) p h = p
ReturnsOr-the P why (err e) p h = absurd (false≢true h)
