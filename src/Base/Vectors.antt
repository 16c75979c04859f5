-- ===== src/Base/Vectors.antt =====
-- `std::vector`: a size and the cells. A read or a write out of range is undefined.
use Prim.Native.Nat.{ℕ, ◌+◌, ◌<◌}
use mathlib.Core.Path.{◌≡◌}
use dwpdsim.Base.Tests.{ltb, lt→ltb, if◌then◌else◌}
use dwpdsim.Base.Results.{Result, ok, err, undefined}
use dwpdsim.Base.Maps.{update}

pub record Vector {ℓ} (A : Type ℓ) : Type ℓ where
  pub size : ℕ
  pub cell : ℕ → A

module _ {ℓ} {A : Type ℓ} where
  abbrev pub read : Vector A → ℕ → Result A
  read v i = if ltb i v.size then ok (v.cell i) else err undefined

  abbrev pub write : Vector A → ℕ → A → Result (Vector A)
  write v i a =
      if ltb i v.size
      then ok (record { size = v.size; cell = update v.cell i a })
      else err undefined

  abbrev pub modify : Vector A → ℕ → (A → A) → Result (Vector A)
  modify v i f =
      if ltb i v.size
      then ok (record { size = v.size; cell = update v.cell i (f (v.cell i)) })
      else err undefined

  abbrev pub push_back : Vector A → A → Vector A
  push_back v a = record { size = v.size + 1; cell = update v.cell v.size a }

  pub read_lem : (v : Vector A) (i : ℕ) → i < v.size → read v i ≡ ok (v.cell i)
  read_lem v i h = rw (lt→ltb _ _ h)

  pub write_lem :
      (v : Vector A) (i : ℕ) (a : A)
      → i < v.size
      → write v i a ≡ ok (record { size = v.size; cell = update v.cell i a })
  write_lem v i a h = rw (lt→ltb _ _ h)

  pub modify_lem :
      (v : Vector A) (i : ℕ) (f : A → A)
      → i < v.size
      → modify v i f ≡ ok (record { size = v.size; cell = update v.cell i (f (v.cell i)) })
  modify_lem v i f h = rw (lt→ltb _ _ h)
