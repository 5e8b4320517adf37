-- ===== src/Int64.antt =====
-- Go's int64 as the 64-bit pattern that stands for it: arithmetic wraps, and an order compares the
-- patterns shifted by half the range, which is the order of the signed values.
pub mod Laws
use forge_wingman.Prelude.{ℕ, ◌+◌, ◌-◌, ◌*◌, ◌%◌, ◌^◌, ◌<◌, Bool, ltb}

abbrev pub Int64 : Type 0
Int64 = ℕ

-- a + b
abbrev pub add64 : Int64 → Int64 → Int64
add64 a b = (a + b) % 2 ^ 64

-- a - b
abbrev pub sub64 : Int64 → Int64 → Int64
sub64 a b = (a + 2 ^ 64 - b % 2 ^ 64) % 2 ^ 64

-- a * b
abbrev pub mul64 : Int64 → Int64 → Int64
mul64 a b = (a * b) % 2 ^ 64

abbrev pub shifted : Int64 → ℕ
shifted a = (a + 2 ^ 63) % 2 ^ 64

-- a > b
abbrev pub gt64 : Int64 → Int64 → Bool
gt64 a b = ltb (shifted b) (shifted a)

-- The pattern stands for a value that is not negative.
abbrev pub NonNegative : Int64 → Type 0
NonNegative a = a < 2 ^ 63
