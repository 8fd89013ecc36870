-- ===== src/Prelude/Bits.antt =====
-- A mask bounds its result, and setting the lowest bit of an even number adds one.
use Prim.Native.Nat.{
  ℕ, zero, suc, ◌+◌, ◌*◌, ◌/◌, ◌%◌, ◌≤◌, min, max, digits, bit_and, bit_and-bitwise, bit_or,
  bit_or-bitwise,
}
use mathlib.Core.Path.{◌≡◌}
use native.Mathlib.Omega.{arith}

-- However many digits are looked at, a mask lets no more through than it has itself.
masked-le : (count number mask : ℕ) → digits (λ y. 0) min count number mask ≤ mask
masked-le zero number mask = omega arith
masked-le (suc count) zero mask = omega arith
masked-le (suc count) (suc number) mask = omega (arith, masked-le count (suc number / 2) (mask / 2))

pub bit_and-le : (a b : ℕ) → bit_and a b ≤ b
bit_and-le a b = simp bit_and-bitwise (masked-le a a b)

unset : (count number : ℕ) → number ≤ count → digits (λ y. y) max count number 0 ≡ number
unset zero number h = omega arith
unset (suc count) zero h = omega arith
unset (suc count) (suc number) h = omega (arith, unset count (suc number / 2) (omega arith))

set_lowest :
    (count number : ℕ)
    → number ≤ count
    → number % 2 ≡ 0
    → digits (λ y. y) max count number 1 ≡ number + 1
set_lowest zero number h even = omega arith
set_lowest (suc count) zero h even = omega arith
set_lowest (suc count) (suc number) h even =
    omega (arith, even, unset count (suc number / 2) (omega arith))

pub bit_or_low : (a : ℕ) → bit_or (a * 2) 1 ≡ a * 2 + 1
bit_or_low a = simp bit_or-bitwise (set_lowest (a * 2) (a * 2) (omega arith) (omega arith))
