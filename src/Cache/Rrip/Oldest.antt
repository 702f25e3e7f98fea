-- ===== src/Cache/Rrip/Oldest.antt =====
-- CacheReplacement.cpp, `RRIP::replace`.

use gcnsim_awb.Prelude.{
  ℕ, zero, suc, ◌+◌, ◌-◌, ◌≤◌, ◌<◌, ◌≡◌, refl, inl, inr, ◌==◌, if◌then◌else◌, List, [], ◌∷◌, none,
  some, get_elem?, set, length, length-set, map, max, All, Bool-cases, arith, sym, ◌∙◌, ap, ap₂,
}
use gcnsim_awb.Cache.Rrip.{find_three, increment, age, replace}

-- Re-reference values have two bits.
abbrev pub IsRrpv : List ℕ → Type 0
IsRrpv = All (λ v. v ≤ 3)

abbrev pub greatest : List ℕ → ℕ
greatest [] = 0
greatest (v ∷ vs) = max v (greatest vs)

-- The first index at which the value `m` stands.
abbrev pub first_index : ℕ → List ℕ → ℕ
first_index m [] = 0
first_index m (v ∷ vs) = if v == m then 0 else suc (first_index m vs)

abbrev pub add_all : ℕ → List ℕ → List ℕ
add_all n = map (λ v. v + n)

greatest-le : (l : List ℕ) → IsRrpv l → greatest l ≤ 3
greatest-le [] h = omega arith
greatest-le (v ∷ vs) h = omega (arith, h.0, greatest-le vs h.1)

find_three-found : (l : List ℕ) → IsRrpv l → greatest l ≡ 3 → find_three l ≡ some (first_index 3 l)
unfolding find_three
find_three-found [] h e = absurd (omega arith)
find_three-found (v ∷ vs) h e = elim (Bool-cases (v == 3)) [
  | inl k ↦ rw k
  | inr k ↦ rw (k, find_three-found vs h.1 (ground arith)) (ap some (omega arith))
]

find_three-none : (l : List ℕ) → greatest l < 3 → find_three l ≡ none
unfolding find_three
find_three-none [] h = refl
find_three-none (v ∷ vs) h = rw (find_three-none vs (omega arith)) (ground arith)

map-increment : (l : List ℕ) → greatest l < 3 → map increment l ≡ add_all 1 l
unfolding increment
map-increment [] h = refl
map-increment (v ∷ vs) h = ap₂ ◌∷◌ (ground arith) (map-increment vs (omega arith))

greatest-add_all : (v : ℕ) (vs : List ℕ) → greatest (add_all 1 (v ∷ vs)) ≡ greatest (v ∷ vs) + 1
greatest-add_all v [] = omega arith
greatest-add_all v (u ∷ vs) = omega (arith, greatest-add_all u vs)

first_index-add_all : (m : ℕ) (l : List ℕ) → first_index (m + 1) (add_all 1 l) ≡ first_index m l
first_index-add_all m [] = refl
first_index-add_all m (v ∷ vs) = ground (arith, first_index-add_all m vs)

add_all-zero : (l : List ℕ) → add_all 0 l ≡ l
add_all-zero [] = refl
add_all-zero (v ∷ vs) = ap₂ ◌∷◌ (omega arith) (add_all-zero vs)

add_all-suc : (n : ℕ) (l : List ℕ) → add_all n (add_all 1 l) ≡ add_all (suc n) l
add_all-suc n [] = refl
add_all-suc n (v ∷ vs) = ap₂ ◌∷◌ (omega arith) (add_all-suc n vs)

add_all-IsRrpv : (l : List ℕ) → greatest l < 3 → IsRrpv (add_all 1 l)
add_all-IsRrpv [] h = tt
add_all-IsRrpv (v ∷ vs) h = (omega arith, add_all-IsRrpv vs (omega arith))

age-found : (fuel i : ℕ) (l : List ℕ) → find_three l ≡ some i → age (suc fuel) l ≡ some (i, l)
unfolding age
age-found fuel i l e = rw (e, age)

age-none :
    (fuel : ℕ) (l : List ℕ) → find_three l ≡ none → age (suc fuel) l ≡ age fuel (map increment l)
unfolding age
age-none fuel l e = ground arith

-- The loop adds to every value what the greatest one lacks, and finds the first greatest.
age_lem :
    (n fuel v : ℕ) (vs : List ℕ)
    → n < fuel
    → IsRrpv (v ∷ vs)
    → greatest (v ∷ vs) + n ≡ 3
    → age fuel (v ∷ vs) ≡ some (first_index (greatest (v ∷ vs)) (v ∷ vs), add_all n (v ∷ vs))
unfolding age
age_lem n zero v vs lt h e = absurd (omega arith)
age_lem zero (suc fuel) v vs lt h e =
    let top : greatest (v ∷ vs) ≡ 3 = omega arith in
    age-found fuel (first_index 3 (v ∷ vs)) (v ∷ vs) (find_three-found (v ∷ vs) h top)
    ∙ ap₂ (λ i l. some (i, l)) (ap (λ k. first_index k (v ∷ vs)) (sym top))
        (sym (add_all-zero (v ∷ vs)))
age_lem (suc n) (suc fuel) v vs lt h e =
    let low : greatest (v ∷ vs) < 3 = omega arith in
    let more = greatest-add_all v vs in
    let ih =
      age_lem n fuel (v + 1) (add_all 1 vs) (omega arith) (add_all-IsRrpv (v ∷ vs) low)
        (omega (arith, more)) in
    age-none fuel (v ∷ vs) (find_three-none (v ∷ vs) low)
    ∙ ap (age fuel) (map-increment (v ∷ vs) low)
    ∙ (ih
        ∙ ap₂ (λ i l. some (i, l))
            (ap (λ k. first_index k (add_all 1 (v ∷ vs))) more
              ∙ first_index-add_all (greatest (v ∷ vs)) (v ∷ vs))
            (add_all-suc n (v ∷ vs)))

first_index-lt : (v : ℕ) (vs : List ℕ) → first_index (greatest (v ∷ vs)) (v ∷ vs) < length (v ∷ vs)
first_index-lt v [] = ground arith
first_index-lt v (u ∷ vs) = ground (arith, first_index-lt u vs)

set-IsRrpv : (l : List ℕ) (i : ℕ) → IsRrpv l → IsRrpv (set l i 2)
set-IsRrpv [] i h = tt
set-IsRrpv (v ∷ vs) zero h = (omega arith, h.1)
set-IsRrpv (v ∷ vs) (suc i) h = (h.0, set-IsRrpv vs i h.1)

add_all-bound : (n : ℕ) (l : List ℕ) → greatest l + n ≤ 3 → IsRrpv (add_all n l)
add_all-bound n [] h = tt
add_all-bound n (v ∷ vs) h = (omega arith, add_all-bound n vs (omega arith))

length-add_all : (n : ℕ) (l : List ℕ) → length (add_all n l) ≡ length l
length-add_all n [] = refl
length-add_all n (v ∷ vs) = ap suc (length-add_all n vs)

-- On a set with at least one way and values of two bits, `replace` ends. It picks the first of the
-- ways with the greatest value; every value grows by what that one lacks to 3, and the way that is
-- picked gets 2.
pub replace_lem :
    (rrpv : List (List ℕ)) (i v : ℕ) (vs : List ℕ)
    → get_elem? rrpv i ≡ some (v ∷ vs)
    → IsRrpv (v ∷ vs)
    → let l = v ∷ vs in
      let way = first_index (greatest l) l in
      replace i rrpv ≡ some (way, set rrpv i (set (add_all (3 - greatest l) l) way 2))
unfolding replace
replace_lem rrpv i v vs known h =
    let low = greatest-le (v ∷ vs) h in
    rw (known, age_lem (3 - greatest (v ∷ vs)) 4 v vs (omega arith) h (omega arith)) refl

-- On a set with at least one way and values of two bits, the way that `replace` picks exists, and all
-- values of the set are again of two bits.
pub replace-IsRrpv :
    (rrpv : List (List ℕ)) (i v : ℕ) (vs : List ℕ)
    → get_elem? rrpv i ≡ some (v ∷ vs)
    → IsRrpv (v ∷ vs)
    → (way : ℕ) × (l : List ℕ) × (replace i rrpv ≡ some (way, set rrpv i l))
      × (way < length (v ∷ vs))
      × (length l ≡ length (v ∷ vs))
      × IsRrpv l
replace-IsRrpv rrpv i v vs known h = (
  _,
  _,
  replace_lem rrpv i v vs known h,
  first_index-lt v vs,
  length-set (add_all (3 - greatest (v ∷ vs)) (v ∷ vs)) (first_index (greatest (v ∷ vs)) (v ∷ vs)) 2
      ∙ length-add_all (3 - greatest (v ∷ vs)) (v ∷ vs),
  set-IsRrpv (add_all (3 - greatest (v ∷ vs)) (v ∷ vs)) _
      (add_all-bound (3 - greatest (v ∷ vs)) (v ∷ vs) (omega (arith, greatest-le (v ∷ vs) h))),
)

-- The loop, for a policy that shares it.
pub age-total :
    (v : ℕ) (vs : List ℕ)
    → IsRrpv (v ∷ vs)
    → (way : ℕ) × (l : List ℕ) × (age 4 (v ∷ vs) ≡ some (way, l)) × (way < length (v ∷ vs))
age-total v vs h =
    let low = greatest-le (v ∷ vs) h in
    (
      _,
      _,
      age_lem (3 - greatest (v ∷ vs)) 4 v vs (omega arith) h (omega arith),
      first_index-lt v vs,
    )
