-- ===== src/Cache/Rrip.antt =====
-- CacheReplacement.cpp, `RRIP`: a two-bit re-reference value for each way of each set.
pub mod Oldest
use gcnsim_awb.Prelude.{
  ℕ, zero, suc, ◌+◌, ◌<◌, Bool, true, false, ◌||◌, ◌==◌, if◌then◌else◌, List, [], ◌∷◌, ◌++◌, Option,
  none, some, ◌>>=◌, get_elem?, set, replicate, map, ltb, length,
}

-- The constructor sets every value to 3.
unfoldable pub rrip : ℕ → ℕ → List (List ℕ) → List (List ℕ)
rrip way_n set_n rrpv = rrpv ++ replicate set_n (replicate way_n 3)

-- A write outside the vector is a fault.
unfoldable pub write_at : List (List ℕ) → ℕ → ℕ → ℕ → Option (List (List ℕ))
write_at rrpv set_idx way_idx v = do
  l ← get_elem? rrpv set_idx
  _ ← get_elem? l way_idx
  some (set rrpv set_idx (set l way_idx v))

unfoldable pub access : ℕ → ℕ → List (List ℕ) → Option (List (List ℕ))
access set_idx way_idx rrpv = write_at rrpv set_idx way_idx 0

-- The index of the first 3.
unfoldable pub find_three : List ℕ → Option ℕ
find_three [] = none
find_three (v ∷ vs) = if v == 3 then some 0 else (find_three vs >>= λ i. some (i + 1))

unfoldable pub increment : ℕ → ℕ
increment v = if (v == 0) || ((v == 1) || (v == 2)) then v + 1 else v

-- The `while` loop, with fuel. Values above 3 never change, so that four rounds tell whether it ends.
unfoldable pub age : ℕ → List ℕ → Option (ℕ × List ℕ)
age zero l = none
age (suc fuel) l = elim (find_three l) [ some i ↦ some (i, l) | none ↦ age fuel (map increment l) ]

-- The way to replace. `none` is a set out of range, or a loop that never ends.
unfoldable pub replace : ℕ → List (List ℕ) → Option (ℕ × List (List ℕ))
replace set_idx rrpv = do
  l ← get_elem? rrpv set_idx
  (way_idx, l') ← age 4 l
  some (way_idx, set rrpv set_idx (set l' way_idx 2))
