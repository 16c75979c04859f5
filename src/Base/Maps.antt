-- ===== src/Base/Maps.antt =====
-- Hash maps with numbers as keys, of which the code only asks for lookups: finite maps as functions.
use Prim.Native.Nat.{ℕ}
use mathlib.Core.Option.{Option, none, some}
use dwpdsim.Base.Tests.{◌==◌, if◌then◌else◌}

abbrev pub Map {ℓ} : Type ℓ → Type ℓ
Map V = ℕ → Option V

-- A function changed at one argument.
abbrev pub update {ℓ} : {V : Type ℓ} → (ℕ → V) → ℕ → V → ℕ → V
update f k v j = if j == k then v else f j

abbrev pub insert {ℓ} : {V : Type ℓ} → ℕ → V → Map V → Map V
insert k v m j = if j == k then some v else m j

abbrev pub erase {ℓ} : {V : Type ℓ} → ℕ → Map V → Map V
erase k m j = if j == k then none else m j
