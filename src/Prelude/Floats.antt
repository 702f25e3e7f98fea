-- ===== src/Prelude/Floats.antt =====
-- `ceil((float)n / d)`, as Distributer.cpp and CSR_converter/vtmake.cpp compute sizes: `n` and `d` are
-- rounded to 24 binary digits, and so is their quotient, each to the nearest, and to the even one of two
-- that are as near.
use native.Mathlib.Nat.{pow-suc}
use gcnsim_awb.Prelude.{
  ℕ, zero, suc, ◌+◌, ◌*◌, ◌/◌, ◌%◌, ◌^◌, ◌≤◌, ◌<◌, ◌≡◌, refl, true, ltb, leb, ◌==◌, if◌then◌else◌,
  inl, inr, Bool-cases, arith, ◌∙◌, sym, ◌⊎◌,
}
use gcnsim_awb.Prelude.Words.{ceil_div, ceil_div-suc}

-- `a / b` rounded to a whole number.
unfoldable pub round_even : ℕ → ℕ → ℕ
round_even a b =
    let q = a / b in
    let twice = 2 * (a % b) in if ltb twice b then q else if ltb b twice then q + 1 else q + q % 2

-- `a / b` rounded to a multiple of `p`, which doubles until 24 digits are enough; `fuel` bounds the
-- doublings.
unfoldable pub round_large : ℕ → ℕ → ℕ → ℕ → ℕ
unfolding round_even
round_large zero p a b = round_even a (b * p) * p
round_large (suc fuel) p a b =
    let rest = round_large fuel (2 * p) a b in
    if ltb a (2 ^ 24 * (b * p)) then round_even a (b * p) * p else rest

-- `ceil` of `a / b` rounded to 24 digits, where `a / b` is below 2^24; `p` doubles until the quotient of
-- `a * p` by `b` has 24 digits.
unfoldable pub ceil_small : ℕ → ℕ → ℕ → ℕ → ℕ
unfolding round_even
ceil_small zero p a b = ceil_div (round_even (a * p) b) p
ceil_small (suc fuel) p a b =
    let rest = ceil_small fuel (2 * p) a b in
    if leb (2 ^ 23 * b) (a * p) then ceil_div (round_even (a * p) b) p else rest

-- `(float)n` for an integer of 64 bits.
unfoldable pub float_of : ℕ → ℕ
unfolding round_large
float_of n = round_large 64 1 n 1

-- `ceil((float)n / d)` for a positive `d`, both of at most 64 bits.
unfoldable pub float_ceil_div : ℕ → ℕ → ℕ
unfolding float_of ceil_small
float_ceil_div n d =
    let a = float_of n in
    let b = float_of d in
    if a == 0 then 0 else if ltb a (2 ^ 24 * b) then ceil_small 128 1 a b else round_large 128 1 a b

round_even-one : (n : ℕ) → round_even n 1 ≡ n
unfolding round_even
round_even-one n = let none_left : n % 1 ≡ 0 = omega arith in ground (arith, none_left)

float_of-exact : (n : ℕ) → n < 2 ^ 24 → float_of n ≡ n
unfolding float_of round_large
float_of-exact n small =
    let here : ltb n (2 ^ 24 * (1 * 1)) ≡ true = ground arith in
    rw (here, round_even-one n) (omega arith)

round_even-cases :
    (x b : ℕ)
    → ((round_even x b ≡ x / b) × (2 * (x % b) ≤ b))
      ⊎ ((round_even x b ≡ x / b + 1) × (b ≤ 2 * (x % b)))
unfolding round_even
round_even-cases x b = ground arith

divided : (x b : ℕ) → 0 < b → (x ≡ x / b * b + x % b) × (x % b < b)
divided x b h = grind arith

-- Between `lo` and `hi`, at a distance from `lo` of more than half, the rounding passes neither.
round_down :
    (q r b lo hi p : ℕ)
    → b < 2 * p
    → r < b
    → 2 * r ≤ b
    → lo * b + p ≤ q * b + r
    → q * b + r ≤ hi * b
    → (lo < q) × (q ≤ hi)
round_down q r b lo hi p near inside low above below = (grind arith, grind arith)

round_up :
    (q r b lo hi p : ℕ)
    → r < b
    → b ≤ 2 * r
    → lo * b + p ≤ q * b + r
    → q * b + r ≤ hi * b
    → (lo < q + 1) × (q + 1 ≤ hi)
round_up q r b lo hi p inside high above below = (grind arith, grind arith)

round_even_bounds :
    (x b lo hi p : ℕ)
    → 0 < b
    → b < 2 * p
    → lo * b + p ≤ x
    → x ≤ hi * b
    → (lo < round_even x b) × (round_even x b ≤ hi)
round_even_bounds x b lo hi p pos near above below =
    let (e, inside) = divided x b pos in
    elim (round_even-cases x b) [
      | inl (same, low) ↦ rw same (
          round_down (x / b) (x % b) b lo hi p near inside low (omega (arith, above, e))
            (omega (arith, below, e)))
      | inr (same, high) ↦ rw same (
          round_up (x / b) (x % b) b lo hi p inside high (omega (arith, above, e))
            (omega (arith, below, e)))
    ]

-- The only multiple of `p` that is not below `r` and less than `p` above it.
ceil_div-between : (r p k : ℕ) → k * p < r → r ≤ k * p + p → ceil_div r p ≡ suc k
ceil_div-between r p k above below = grind arith

le_times : (m n p : ℕ) → m ≤ n → m * p ≤ n * p
le_times m n p h = grind arith

scaled : (k b a p : ℕ) → k * b < a → k * p * b + p ≤ a * p
scaled k b a p h =
    let more : (k * b + 1) * p ≤ a * p = le_times (k * b + 1) a p (omega arith) in
    let same : (k * b + 1) * p ≡ k * p * b + p = grind arith in omega (arith, more, same)

scaled-hi : (k b a p : ℕ) → a ≤ k * b + b → a * p ≤ (k * p + p) * b
scaled-hi k b a p h =
    let more : a * p ≤ (k * b + b) * p = le_times a (k * b + b) p h in
    let same : (k * b + b) * p ≡ (k * p + p) * b = grind arith in omega (arith, more, same)

half_step : (a b p : ℕ) → 0 < b → a < 2 ^ 24 → 2 ^ 23 * b ≤ a * p → b < 2 * p
half_step a b p pos small digits = grind arith

ceil_exact :
    (a b p : ℕ)
    → 0 < a
    → a < 2 ^ 24
    → 0 < b
    → 2 ^ 23 * b ≤ a * p
    → ceil_div (round_even (a * p) b) p ≡ ceil_div a b
ceil_exact a b p pos small divides digits =
    let (k, same, above, below) = ceil_div-suc a b divides pos in
    let (lo, hi) =
      round_even_bounds (a * p) b (k * p) (k * p + p) p divides
        (half_step a b p divides small digits) (scaled k b a p above) (scaled-hi k b a p below) in
    ceil_div-between (round_even (a * p) b) p k lo hi ∙ sym same

doubled : (p fuel : ℕ) → 2 * p * 2 ^ fuel ≡ p * 2 ^ suc fuel
doubled p fuel = rw (pow-suc 2 fuel) (grind arith)

enough_digits : (a b p : ℕ) → 0 < a → b < 2 ^ 24 → 2 ^ 47 ≤ p → 2 ^ 23 * b ≤ a * p
enough_digits a b p pos less enough = let most : p ≤ a * p = grind arith in omega (arith, most)

ceil_small-exact :
    (fuel p a b : ℕ)
    → 0 < a
    → a < 2 ^ 24
    → 0 < b
    → b < 2 ^ 24
    → 2 ^ 47 ≤ p * 2 ^ fuel
    → ceil_small fuel p a b ≡ ceil_div a b
unfolding ceil_small
ceil_small-exact zero p a b pos small divides less enough =
    ceil_exact a b p pos small divides (enough_digits a b p pos less (omega (arith, enough)))
ceil_small-exact (suc fuel) p a b pos small divides less enough =
    elim (Bool-cases (leb (2 ^ 23 * b) (a * p))) [
      | inl digits ↦ rw digits (ceil_exact a b p pos small divides (ground arith))
      | inr more ↦ rw more (
          ceil_small-exact fuel (2 * p) a b pos small divides less
            (omega (arith, enough, doubled p fuel)))
    ]

ceil_div-zero : (n d : ℕ) → 0 < d → n ≡ 0 → ceil_div n d ≡ 0
ceil_div-zero n d pos e = grind arith

ratio-exact :
    (n d : ℕ)
    → n < 2 ^ 24
    → 0 < d
    → d < 2 ^ 24
    → (if n == 0
        then 0
        else if ltb n (2 ^ 24 * d)
        then ceil_small 128 1 n d
        else round_large 128 1 n d)
      ≡ ceil_div n d
ratio-exact n d small divides less = elim (Bool-cases (n == 0)) [
  | inl none_ ↦ rw none_ (sym (ceil_div-zero n d divides (ground arith)))
  | inr some_ ↦
      let below : ltb n (2 ^ 24 * d) ≡ true = ground arith in
      rw (some_, below) (ceil_small-exact 128 1 n d (ground arith) small divides less (omega arith))
]

-- Below 2^24 the quotient is rounded past no whole number.
pub float_ceil_div-exact :
    (n d : ℕ) → n < 2 ^ 24 → 0 < d → d < 2 ^ 24 → float_ceil_div n d ≡ ceil_div n d
unfolding float_ceil_div
float_ceil_div-exact n d small divides less =
    rw (float_of-exact n small, float_of-exact d less) (ratio-exact n d small divides less)

-- From 2^24 on the odd numbers are rounded.
rounded : float_ceil_div (2 ^ 24 + 1) 1 ≡ 2 ^ 24
unfolding float_ceil_div
rounded = refl
