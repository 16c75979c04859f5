-- ===== src/Base/Words.antt =====
-- `uint64_t` and `uint32_t` arithmetic, with its wrap-around.
use Prim.Native.Nat.{bit_xor, ◌/◌, ℕ, ◌+◌, ◌-◌, ◌*◌, ◌%◌, ◌≤◌, ◌<◌}
use mathlib.Core.Path.{◌≡◌}
use native.Mathlib.Omega.{arith}

abbrev pub u32_mod : ℕ
u32_mod = 4294967296

abbrev pub u64_mod : ℕ
u64_mod = 18446744073709551616

unfoldable pub add64 : ℕ → ℕ → ℕ
add64 a b = (a + b) % u64_mod

unfoldable pub sub64 : ℕ → ℕ → ℕ
sub64 a b = (a + u64_mod - b) % u64_mod

unfoldable pub mul64 : ℕ → ℕ → ℕ
mul64 a b = (a * b) % u64_mod

abbrev mix_step : ℕ → ℕ → ℕ → ℕ
mix_step shift factor v = mul64 (bit_xor v (v / shift)) factor

-- The scrambling that the hashes of the policies share. The right shifts by 30, 27 and 31 digits are
-- divisions.
unfoldable pub scramble : ℕ → ℕ
scramble value =
    let v =
      mix_step 134217728 10723151780598845931 (mix_step 1073741824 13787848793156543929 value) in
    bit_xor v (v / 2147483648)

unfoldable pub to_u32 : ℕ → ℕ
to_u32 a = a % u32_mod

unfoldable pub add32 : ℕ → ℕ → ℕ
add32 a b = (a + b) % u32_mod

unfoldable pub sub32 : ℕ → ℕ → ℕ
sub32 a b = (a + u32_mod - b) % u32_mod

pub add64_lem : (a b : ℕ) → a + b < u64_mod → add64 a b ≡ a + b
unfolding add64
add64_lem a b h = omega arith

pub sub64_lem : (a b : ℕ) → b ≤ a → a < u64_mod → sub64 a b ≡ a - b
unfolding sub64
sub64_lem a b h k = omega arith

pub add32_lem : (a b : ℕ) → a + b < u32_mod → add32 a b ≡ a + b
unfolding add32
add32_lem a b h = omega arith

pub sub32_lem : (a b : ℕ) → b ≤ a → a < u32_mod → sub32 a b ≡ a - b
unfolding sub32
sub32_lem a b h k = omega arith

pub to_u32_lem : (a : ℕ) → a < u32_mod → to_u32 a ≡ a
unfolding to_u32
to_u32_lem a h = omega arith

pub ruleset words = (arith, add64_lem, sub64_lem, add32_lem, sub32_lem, to_u32_lem)
