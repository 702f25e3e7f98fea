-- ===== src/Text/Digits.antt =====
-- `stoull` on the texts that a number is printed as.
use gcnsim_awb.Prelude.{
  ℕ, zero, suc, ◌+◌, ◌-◌, ◌*◌, ◌/◌, ◌%◌, ◌^◌, ◌≤◌, ◌<◌, ◌≡◌, refl, inl, inr, false, if◌then◌else◌,
  ltb, List, [], ◌∷◌, map, some, All, Bool-cases, lt→ltb, arith, ◌∙◌, ap,
}
use gcnsim_awb.Text.{
  ok, is_space, digit_value, skip_spaces, read_digits, read_number, read_based, read_sign, stoull,
}

abbrev pub digit : ℕ → ℕ
digit d = if ltb d 10 then d + b'0' else d - 10 + b'a'

-- The number that digits make behind a number.
abbrev pub horner : ℕ → ℕ → List ℕ → ℕ
horner base acc [] = acc
horner base acc (d ∷ ds) = horner base (acc * base + d) ds

-- The decimal digits of a number, in front of others.
unfoldable pub digits : ℕ → ℕ → List ℕ → List ℕ
digits zero n ds = ds
digits (suc fuel) n ds =
    let more = digits fuel (n / 10) (n % 10 ∷ ds) in if ltb n 10 then n ∷ ds else more

-- The text that `<<` prints.
unfoldable pub print : ℕ → List ℕ
unfolding digits
print n = map digit (digits (suc n) n [])

digit_value-digit : (d : ℕ) → d < 16 → digit_value (digit d) ≡ d
unfolding digit_value
digit_value-digit d h = ground arith

is_space-digit : (d : ℕ) → d < 16 → is_space (digit d) ≡ false
unfolding is_space
is_space-digit d h = ground arith

-- Any base up to 16.
read_digits-map :
    (base acc : ℕ) (ds : List ℕ)
    → base ≤ 16
    → All (λ d. d < base) ds
    → read_digits base acc (map digit ds) ≡ horner base acc ds
unfolding read_digits
read_digits-map base acc [] h k = refl
read_digits-map base acc (d ∷ ds) h k =
    rw (digit_value-digit d (omega (arith, k.0)), lt→ltb d base k.0)
      (read_digits-map base (acc * base + d) ds h k.1)

read_number-map :
    (base d : ℕ) (ds : List ℕ)
    → base ≤ 16
    → d < base
    → All (λ e. e < base) ds
    → read_number base (map digit (d ∷ ds)) ≡ some (horner base 0 (d ∷ ds))
unfolding read_number
read_number-map base d ds h k l =
    ground (arith, digit_value-digit d (omega arith), read_digits-map base 0 (d ∷ ds) h (k, l))

read_based-decimal :
    (d : ℕ) (ds : List ℕ)
    → 0 < d
    → d < 10
    → All (λ e. e < 10) ds
    → read_based (map digit (d ∷ ds)) ≡ some (horner 10 0 (d ∷ ds))
unfolding read_based
read_based-decimal d [] pos h k = read_number-map 10 d [] (omega arith) h k
read_based-decimal d (e ∷ ds) pos h k =
    ground (arith, read_number-map 10 d (e ∷ ds) (omega arith) h k)

-- What `stoull` makes of a text with neither a space nor a sign in front.
stoull-plain :
    (text : List ℕ) (n : ℕ)
    → skip_spaces text ≡ text
    → read_sign text ≡ (false, text)
    → read_based text ≡ some n
    → n < 2 ^ 64
    → stoull text ≡ ok n
unfolding stoull
stoull-plain text n a b e h =
    let signed : read_sign (skip_spaces text) ≡ (false, text) = ap read_sign a ∙ b in
    ground (arith, signed, e)

skip_spaces-digit : (d : ℕ) (s : List ℕ) → d < 16 → skip_spaces (digit d ∷ s) ≡ digit d ∷ s
unfolding skip_spaces
skip_spaces-digit d s h = rw (is_space-digit d h) refl

read_sign-digit : (d : ℕ) (s : List ℕ) → d < 16 → read_sign (digit d ∷ s) ≡ (false, digit d ∷ s)
unfolding read_sign
read_sign-digit d s h = ground arith

-- A number in hexadecimal digits behind `0x` is read as that number, if it is below 2^64.
pub stoull_hex :
    (d : ℕ) (ds : List ℕ)
    → d < 16
    → All (λ e. e < 16) ds
    → horner 16 0 (d ∷ ds) < 2 ^ 64
    → stoull (b'0' ∷ b'x' ∷ map digit (d ∷ ds)) ≡ ok (horner 16 0 (d ∷ ds))
unfolding read_based
stoull_hex d ds h k small =
    stoull-plain (digit 0 ∷ b'x' ∷ map digit (d ∷ ds)) (horner 16 0 (d ∷ ds))
      (skip_spaces-digit 0 (b'x' ∷ map digit (d ∷ ds)) (omega arith))
      (read_sign-digit 0 (b'x' ∷ map digit (d ∷ ds)) (omega arith))
      (rw (read_number-map 16 d ds (omega arith) h k) refl) small

stoull-decimal :
    (d : ℕ) (ds : List ℕ)
    → 0 < d
    → d < 10
    → All (λ e. e < 10) ds
    → horner 10 0 (d ∷ ds) < 2 ^ 64
    → stoull (map digit (d ∷ ds)) ≡ ok (horner 10 0 (d ∷ ds))
stoull-decimal d ds pos h k small =
    stoull-plain (map digit (d ∷ ds)) (horner 10 0 (d ∷ ds))
      (skip_spaces-digit d (map digit ds) (omega arith))
      (read_sign-digit d (map digit ds) (omega arith)) (read_based-decimal d ds pos h k) small

-- The digits are below 10, the first one is not 0 for a positive number, and they make the number.
digits_lem :
    (fuel n : ℕ) (ds : List ℕ)
    → n < fuel
    → 0 < n
    → All (λ e. e < 10) ds
    → (d : ℕ) × (es : List ℕ) × (digits fuel n ds ≡ d ∷ es)
      × (0 < d)
      × (d < 10)
      × All (λ e. e < 10) es
      × (horner 10 0 (d ∷ es) ≡ horner 10 n ds)
unfolding digits
digits_lem zero n ds h pos k = absurd (omega arith)
digits_lem (suc fuel) n ds h pos k = elim (Bool-cases (ltb n 10)) [
  | inl small ↦ (n, ds, rw small refl, pos, ground arith, k, ap (λ a. horner 10 a ds) (omega arith))
  | inr big ↦
      let (d, es, e, p, q, r, same) =
        digits_lem fuel (n / 10) (n % 10 ∷ ds) (ground arith) (ground arith) (omega arith, k) in
      (d, es, rw big e, p, q, r, same ∙ ap (λ a. horner 10 a ds) (omega arith))
]

-- A number below 2^64 that is printed in decimal is read back as that number.
pub stoull-print : (n : ℕ) → n < 2 ^ 64 → stoull (print n) ≡ ok n
unfolding print
stoull-print zero h = unfold stoull in refl
stoull-print (suc n) h =
    let (d, es, e, p, q, r, same) =
      digits_lem (suc (suc n)) (suc n) [] (omega arith) (omega arith) tt in
    rw (e, stoull-decimal d es p q r (omega (arith, same))) (ap ok same)
