-- ===== src/Prelude/Words.antt =====
-- Machine words: `uint64_t` as numbers below 2^64, and `int` as its 32-bit pattern.
use gcnsim_awb.Prelude.{
  ℕ, suc, ◌+◌, ◌-◌, ◌*◌, ◌/◌, ◌%◌, ◌^◌, ◌≤◌, ◌<◌, ◌≡◌, arith, ltb, if◌then◌else◌,
}

abbrev pub add64 : ℕ → ℕ → ℕ
add64 a b = (a + b) % 2 ^ 64

abbrev pub sub64 : ℕ → ℕ → ℕ
sub64 a b = (a + 2 ^ 64 - b) % 2 ^ 64

-- The conversion of a `uint64_t` to an `int`, as a pattern.
abbrev pub int_of : ℕ → ℕ
int_of x = x % 2 ^ 32

-- The conversion of an `int` to a `uint64_t` extends the sign.
abbrev pub u64_of_int : ℕ → ℕ
u64_of_int p = if ltb p (2 ^ 31) then p else p + (2 ^ 64 - 2 ^ 32)

-- How often `for (int i = 0; i < count; i++)` runs, for a count given as a pattern.
abbrev pub rounds : ℕ → ℕ
rounds p = if ltb p (2 ^ 31) then p else 0

-- The pattern of the `int` -1.
abbrev pub minus_one : ℕ
minus_one = 2 ^ 32 - 1

-- `ceil((double)n / d)` for a positive `d`, as long as `n` is below 2^52.
abbrev pub ceil_div : ℕ → ℕ → ℕ
ceil_div n d = (n + d - 1) / d

pub u64_of_int-int_of : (x : ℕ) → x < 2 ^ 31 → u64_of_int (int_of x) ≡ x
u64_of_int-int_of x h = ground arith

pub ceil_div_bounds : (n d : ℕ) → 0 < d → (n ≤ ceil_div n d * d) × (ceil_div n d * d < n + d)
ceil_div_bounds n d h = grind arith

pub ceil_div-suc :
    (n d : ℕ) → 0 < d → 0 < n → (k : ℕ) × (ceil_div n d ≡ suc k) × (k * d < n) × (n ≤ k * d + d)
ceil_div-suc n d h p = (
  ceil_div n d - 1,
  ceil_pos,
  grind (arith, ceil_div_bounds n d h),
  grind (arith, ceil_div_bounds n d h),
)
  where
    ceil_pos : ceil_div n d ≡ suc (ceil_div n d - 1)
    ceil_pos = grind (arith, ceil_div_bounds n d h)
