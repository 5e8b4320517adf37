-- ===== src/Int64/Laws.antt =====
-- In the range of the values that are not negative the arithmetic is that of the numbers.
use forge_wingman.Prelude.{◌+◌, ◌*◌, ◌≡◌, arith, ltb}
use forge_wingman.Int64.{Int64, add64, mul64, gt64, NonNegative}

pub add64_exact : (a b : Int64) → NonNegative (a + b) → add64 a b ≡ a + b
add64_exact a b h = omega arith

pub gt64_exact : (a b : Int64) → NonNegative a → NonNegative b → gt64 a b ≡ ltb b a
gt64_exact a b ha hb = ground arith

pub mul64_exact : (a b : Int64) → NonNegative (a * b) → mul64 a b ≡ a * b
mul64_exact a b h = omega arith
