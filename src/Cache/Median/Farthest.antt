-- ===== src/Cache/Median/Farthest.antt =====
-- CacheReplacement.cpp, `MovingMedian::replace`.
use gcnsim_awb.Prelude.{
  ℕ, zero, suc, ◌≤◌, ◌≡◌, refl, inl, inr, false, if◌then◌else◌, ltb, ltb→lt, List, [], ◌∷◌, some,
  get_elem?, get_elem?-in, get_elem?-lt, length, map, All, Bool-cases, arith, sym,
}
use mathlib.Core.Path.{subst}
use gcnsim_awb.Cache.Median.{Median, distance, max_index, replace}

All-ge : (a b : ℕ) (l : List ℕ) → a ≤ b → All (λ n. n ≤ a) l → All (λ n. n ≤ b) l
All-ge a b [] h k = tt
All-ge a b (x ∷ l) h k = (omega (arith, k.0), All-ge a b l h k.1)

max_index-step :
    (x y : ℕ) (ys : List ℕ) (greatest : ℕ)
    → get_elem? (y ∷ ys) (max_index (y ∷ ys)) ≡ some greatest
    → max_index (x ∷ y ∷ ys) ≡ (if ltb x greatest then suc (max_index (y ∷ ys)) else 0)
unfolding max_index
max_index-step x y ys greatest e = ground arith

not_less : (a b : ℕ) → ltb a b ≡ false → b ≤ a
not_less a b h = ground arith

-- At `max_index` stands a value that no other is above.
max_index_lem :
    (x : ℕ) (xs : List ℕ)
    → (m : ℕ) × (get_elem? (x ∷ xs) (max_index (x ∷ xs)) ≡ some m) × All (λ n. n ≤ m) (x ∷ xs)
max_index_lem x [] = (x, one x, (omega arith, tt))
  where
    one : (x : ℕ) → get_elem? (x ∷ []) (max_index (x ∷ [])) ≡ some x
    one x = unfold max_index in refl
max_index_lem x (y ∷ ys) =
    let (greatest, at, above) = max_index_lem y ys in
    elim (Bool-cases (ltb x greatest)) [
      | inl lt ↦ (
        greatest,
        rw (max_index-step x y ys greatest at, lt) at,
        (omega (arith, ltb→lt x greatest lt), above),
      )
      | inr ge ↦ (
        x,
        rw (max_index-step x y ys greatest at, ge) refl,
        (omega arith, All-ge greatest x (y ∷ ys) (not_less x greatest ge) above),
      )
    ]

get_elem?-map :
    (f : ℕ → ℕ) (l : List ℕ) (i m : ℕ)
    → get_elem? (map f l) i ≡ some m
    → (a : ℕ) × (get_elem? l i ≡ some a) × (f a ≡ m)
get_elem?-map f [] i m h = absurd cc
get_elem?-map f (x ∷ l) zero m h = (x, refl, cc)
get_elem?-map f (x ∷ l) (suc i) m h = get_elem?-map f l i m h

All-map : (f : ℕ → ℕ) (m : ℕ) (l : List ℕ) → All (λ n. n ≤ m) (map f l) → All (λ a. f a ≤ m) l
All-map f m [] h = tt
All-map f m (x ∷ l) h = (h.0, All-map f m l h.1)

-- If `medians` has a number at the index `from`, then on a set with at least one way and as many
-- weight blocks as ways, `replace` faults nowhere. It names the column and the weight block of one
-- way, and no column of the set is farther from that number than the one named. Columns are read as the
-- non-negative `int`s that they are below 2^31.
pub replace-farthest :
    (from median x : ℕ) (xs ws : List ℕ) (s : Median)
    → get_elem? s.medians from ≡ some (some median)
    → length ws ≡ length (x ∷ xs)
    → (target blk way : ℕ) × (replace from (x ∷ xs) ws s ≡ some (target, blk))
      × (get_elem? (x ∷ xs) way ≡ some target)
      × (get_elem? ws way ≡ some blk)
      × All (λ to. distance median to ≤ distance median target) (x ∷ xs)
unfolding replace
replace-farthest from median x xs ws s known same =
    let f : ℕ → ℕ = λ to. distance median to in
    let (m, at, above) = max_index_lem (f x) (map f xs) in
    let way = max_index (map f (x ∷ xs)) in
    let (target, found, far) = get_elem?-map f (x ∷ xs) way m at in
    let (blk, is_blk) =
      get_elem?-lt ws way (omega (arith, same, get_elem?-in (x ∷ xs) way found)) in
    (
      target,
      blk,
      way,
      rw (known, found, is_blk) refl,
      found,
      is_blk,
      subst (λ k. All (λ to. distance median to ≤ k) (x ∷ xs)) (sym far)
          (All-map f m (x ∷ xs) above),
    )
