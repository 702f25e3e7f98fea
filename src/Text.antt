-- ===== src/Text.antt =====
-- What the sources use of `std::string` and of the conversions `stoull` and `stoi`. A text is the list
-- of its bytes.
pub mod Search
pub mod Digits
use Prim.Native.Char.{code}
use Prim.Native.String.{String}
use gcnsim_awb.Prelude.{
  ℕ, zero, suc, ◌+◌, ◌-◌, ◌*◌, ◌^◌, Bool, true, false, not, ◌&&◌, ◌||◌, ◌==◌, if◌then◌else◌, ltb,
  leb, List, [], ◌∷◌, ◌++◌, Option, none, some, drop, length,
}

abbrev pub codes : String → List ℕ
codes String.[] = []
codes (String.◌∷◌ c s) = code c ∷ codes s

unfoldable pub same_text : List ℕ → List ℕ → Bool
same_text [] [] = true
same_text (a ∷ s) (b ∷ t) = a == b && same_text s t
same_text _ _ = false

unfoldable pub starts_with : List ℕ → List ℕ → Bool
starts_with [] s = true
starts_with (p ∷ ps) [] = false
starts_with (p ∷ ps) (a ∷ s) = p == a && starts_with ps s

-- `find`: what stands before the first occurrence and behind it.
unfoldable pub split_at : List ℕ → List ℕ → Option (List ℕ × List ℕ)
unfolding starts_with
split_at pattern [] = if starts_with pattern [] then some ([], drop (length pattern) []) else none
split_at pattern (a ∷ s) =
    let rest = split_at pattern s in
    if starts_with pattern (a ∷ s)
    then some ([], drop (length pattern) (a ∷ s))
    else elim rest [ none ↦ none | some (before, behind) ↦ some (a ∷ before, behind) ]

-- The exceptions of the conversions, and the program's own.
pub data Exception : Type 0 where
  not_exist invalid_argument out_of_range : Exception

pub data Result {ℓ} (A : Type ℓ) : Type ℓ where
  ok : A → Result A
  err : Exception → Result A

infixl 5 ◌>>=◌
abbrev pub ◌>>=◌ {ℓ κ} : {A : Type ℓ} {B : Type κ} → Result A → (A → Result B) → Result B
ok a >>= f = f a
err e >>= f = err e

-- `isspace` in the C locale.
unfoldable pub is_space : ℕ → Bool
is_space a = a == 32 || leb 9 a && leb a 13

-- The value of a digit or letter; 36 for any other byte.
unfoldable pub digit_value : ℕ → ℕ
digit_value a =
    if leb b'0' a && leb a b'9'
    then a - b'0'
    else if leb b'a' a && leb a b'z'
    then a - b'a' + 10
    else if leb b'A' a && leb a b'Z'
    then a - b'A' + 10
    else 36

unfoldable pub skip_spaces : List ℕ → List ℕ
unfolding is_space
skip_spaces [] = []
skip_spaces (a ∷ s) = let rest = skip_spaces s in if is_space a then rest else a ∷ s

-- The number that the leading digits make, from the value of those before.
unfoldable pub read_digits : ℕ → ℕ → List ℕ → ℕ
unfolding digit_value
read_digits base acc [] = acc
read_digits base acc (a ∷ s) =
    let rest = read_digits base (acc * base + digit_value a) s in
    if ltb (digit_value a) base then rest else acc

-- `none` if there is no digit.
unfoldable pub read_number : ℕ → List ℕ → Option ℕ
unfolding read_digits
read_number base [] = none
read_number base (a ∷ s) =
    if ltb (digit_value a) base then some (read_digits base 0 (a ∷ s)) else none

-- With base 0 the text tells the base. `0x` with no hexadecimal digit behind it is the number 0.
unfoldable pub read_based : List ℕ → Option ℕ
unfolding read_number
read_based [] = none
read_based (a ∷ []) = read_number 10 (a ∷ [])
read_based (a ∷ x ∷ s) =
    if a == b'0'
    then (if x == b'x' || x == b'X'
        then elim (read_number 16 s) [ none ↦ some 0 | some n ↦ some n ]
        else read_number 8 (a ∷ x ∷ s))
    else read_number 10 (a ∷ x ∷ s)

-- Whether there is a minus sign, and what stands behind the sign.
unfoldable pub read_sign : List ℕ → Bool × List ℕ
read_sign [] = (false, [])
read_sign (a ∷ s) =
    if a == b'-' then (true, s) else if a == b'+' then (false, s) else (false, a ∷ s)

-- `stoull(text, NULL, 0)`; a minus sign negates modulo 2^64.
unfoldable pub stoull : List ℕ → Result ℕ
unfolding skip_spaces read_sign read_based
stoull text =
    let (minus, s) = read_sign (skip_spaces text) in
    elim (read_based s) [
      | none ↦ err invalid_argument
      | some n ↦
          if ltb n (2 ^ 64)
          then ok (if minus && not (n == 0) then 2 ^ 64 - n else n)
          else err out_of_range
    ]

-- `stoi(text)`, the `int` as its pattern.
unfoldable pub stoi : List ℕ → Result ℕ
unfolding skip_spaces read_sign read_number
stoi text =
    let (minus, s) = read_sign (skip_spaces text) in
    elim (read_number 10 s) [
      | none ↦ err invalid_argument
      | some n ↦
          if minus
          then (if leb n (2 ^ 31) then ok (if n == 0 then 0 else 2 ^ 32 - n) else err out_of_range)
          else if ltb n (2 ^ 31)
          then ok n
          else err out_of_range
    ]
