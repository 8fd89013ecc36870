-- ===== src/Prelude/Memory.antt =====
-- Arrays of bytes, and `memcmp` as a test.
use Prim.Native.Nat.{ℕ, ◌+◌, ◌*◌, ◌/◌, ◌%◌, ◌^◌, ◌<◌}
use mathlib.Core.Path.{◌≡◌, refl}
use mathlib.Core.Logic.{◌↔◌, ◌≢◌}
use mathlib.Core.Bool.{Bool, true, false, ◌&&◌}
use mathlib.Core.List.{List, [], ◌∷◌, ◌++◌}
use native.Mathlib.Omega.{arith}
use tcbackup.Prelude.Tests.{◌==◌, leb}
use tcbackup.Prelude.Lists.{length, drop, get_or}

abbrev pub Bytes : Type 0
Bytes = List ℕ

-- `memcmp(a, b, n) == 0` for two arrays of the same size n.
unfoldable pub bytes_eq : Bytes → Bytes → Bool
bytes_eq [] [] = true
bytes_eq [] (y ∷ ys) = false
bytes_eq (x ∷ xs) [] = false
bytes_eq (x ∷ xs) (y ∷ ys) = x == y && bytes_eq xs ys

pub bytes_eq_iff : (a b : Bytes) → (bytes_eq a b ≡ true) ↔ (a ≡ b)
unfolding bytes_eq
bytes_eq_iff [] [] = ground arith
bytes_eq_iff [] (y ∷ ys) = ground arith
bytes_eq_iff (x ∷ xs) [] = ground arith
bytes_eq_iff (x ∷ xs) (y ∷ ys) = ground (arith, bytes_eq_iff xs ys)

pub bytes_eq_comm : (a b : Bytes) → bytes_eq a b ≡ bytes_eq b a
unfolding bytes_eq
bytes_eq_comm [] [] = ground arith
bytes_eq_comm [] (y ∷ ys) = ground arith
bytes_eq_comm (x ∷ xs) [] = ground arith
bytes_eq_comm (x ∷ xs) (y ∷ ys) = ground (arith, bytes_eq_comm xs ys)

pub bytes_eq_refl : (a : Bytes) → bytes_eq a a ≡ true
bytes_eq_refl a = ground (arith, bytes_eq_iff a a)

pub bytes_ne : (a b : Bytes) → a ≢ b → bytes_eq a b ≡ false
bytes_ne a b ne = ground (arith, ne, bytes_eq_iff a b)

pub bytes_eq-false : (a b : Bytes) → bytes_eq a b ≡ false → a ≢ b
bytes_eq-false a b e = ground (arith, e, bytes_eq_iff a b)

-- `memcpy` of a 32-bit integer to memory and back, in little-endian order; an `int32_t` is its
-- bit pattern.
unfoldable pub le32 : ℕ → Bytes
le32 n = n % 256 ∷ n / 256 % 256 ∷ n / 65536 % 256 ∷ n / 16777216 % 256 ∷ []

unfoldable pub un_le32 : Bytes → ℕ
un_le32 b = get_or b 0 0 + get_or b 1 0 * 256 + get_or b 2 0 * 65536 + get_or b 3 0 * 16777216

pub un_le32-le32 : (n : ℕ) (rest : Bytes) → n < 2 ^ 32 → un_le32 (le32 n ++ rest) ≡ n
unfolding le32 un_le32
un_le32-le32 n rest h = omega arith

-- The sign bit of an `int32_t`.
abbrev pub is_neg32 : ℕ → Bool
is_neg32 n = leb (2 ^ 31) n

pub drop-le32 : (n : ℕ) (rest : Bytes) → drop 4 (le32 n ++ rest) ≡ rest
unfolding le32
drop-le32 n rest = refl

pub length-le32 : (n : ℕ) → length (le32 n) ≡ 4
unfolding le32
length-le32 n = refl
