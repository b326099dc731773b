-- ===== src/Prelude/Words.antt =====
-- Unsigned machine integers as numbers: saturating operations, `clamp` and casts.
use Prim.Native.Nat.{ℕ, ◌+◌, ◌-◌, ◌*◌, ◌%◌, ◌^◌, min, max}

-- The largest value of an unsigned type of that many bits.
abbrev pub max_of : ℕ → ℕ
max_of bits = 2 ^ bits - 1

abbrev pub saturating_add : ℕ → ℕ → ℕ → ℕ
saturating_add bits a b = min (a + b) (max_of bits)

abbrev pub saturating_mul : ℕ → ℕ → ℕ → ℕ
saturating_mul bits a b = min (a * b) (max_of bits)

-- `saturating_sub` of any unsigned type.
abbrev pub saturating_sub : ℕ → ℕ → ℕ
saturating_sub a b = a - b

-- `as u16`, `as u32`: the low bits.
abbrev pub cast : ℕ → ℕ → ℕ
cast bits a = a % 2 ^ bits

-- `a.clamp(lo, hi)`
abbrev pub clamp : ℕ → ℕ → ℕ → ℕ
clamp a lo hi = min (max a lo) hi
