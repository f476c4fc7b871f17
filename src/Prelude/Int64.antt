-- ===== src/Prelude/Int64.antt =====
-- Go's int64 as its 64-bit pattern: a number below 2 ^ 64, of which those from 2 ^ 63 on stand for
-- the negative values. Sums and differences wrap around.
use Prim.Native.Nat.{ℕ, ◌+◌, ◌-◌, ◌%◌, ◌<◌}
use mathlib.Core.Path.{◌≡◌}
use mathlib.Core.Bool.{Bool}
use native.Mathlib.Omega.{arith}
use personalized_email_pipel.Prelude.Tests.{ltb, leb}

abbrev pub modulus : ℕ
modulus = 18446744073709551616

abbrev pub sign_bit : ℕ
sign_bit = 9223372036854775808

abbrev pub add64 : ℕ → ℕ → ℕ
add64 a b = (a + b) % modulus

abbrev pub sub64 : ℕ → ℕ → ℕ
sub64 a b = (a + modulus - b) % modulus

abbrev pub inc64 : ℕ → ℕ
inc64 a = (a + 1) % modulus

-- a < 0
abbrev pub is_negative : ℕ → Bool
is_negative a = leb sign_bit a

-- The signed order, by moving the sign bit.
abbrev pub lt64 : ℕ → ℕ → Bool
lt64 a b = ltb ((a + sign_bit) % modulus) ((b + sign_bit) % modulus)

-- A pattern that stands for a value which is at least 0.
abbrev pub IsNat64 : ℕ → Type 0
IsNat64 a = a < sign_bit

pub inc64_exact : (a : ℕ) → a < sign_bit → inc64 a ≡ a + 1
inc64_exact a h = omega arith

pub lt64_exact : (a b : ℕ) → a < sign_bit → b < sign_bit → lt64 a b ≡ ltb a b
lt64_exact a b h k = ground arith
