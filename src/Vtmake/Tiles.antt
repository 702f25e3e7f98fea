-- ===== src/Vtmake/Tiles.antt =====
-- CSR_converter/vtmake.cpp: which edges stand in which tile.
use mathlib.Core.List.{append-nil}
use gcnsim_awb.Prelude.{
  ℕ, zero, suc, ◌+◌, ◌*◌, ◌/◌, ◌%◌, ◌^◌, ◌<◌, ◌≡◌, ◌≢◌, refl, inl, inr, ◌⊎◌, false, ◌==◌,
  if◌then◌else◌, List, [], ◌∷◌, ◌++◌, none, some, some-eq, get_elem?, get_elem?-in,
  get_elem?-replicate, length, length-replicate, replicate, All, arith, sym, ◌∙◌, ap, ap₂,
}
use gcnsim_awb.Distributer.Rejoin.{join, edges, pointers}
use gcnsim_awb.Vtmake.{width, Tiling, place_rows, sums, entries, tile, vtmake}
use gcnsim_awb.Vtmake.Rows.{
  below_product, in_tile, hits, spread, place_rows-AreFilled, place_lt, AreFilled,
}

module _ (v n : ℕ) (pos : 0 < n) where
  abbrev w : ℕ
  w = width v n

  order : (a t : ℕ) → (a < t) ⊎ ((a ≡ t) ⊎ (t < a))
  order a t = ground arith

  -- Different vertices have different vectors.
  apart : (i j a t : ℕ) → i < v → j < v → i ≢ j → i + v * a ≢ j + v * t
  apart i j a t h k other e = elim (order a t) [
    | inl less ↦ omega (arith, place_lt v t i a h less)
    | inr rest ↦ elim rest [
      | inl same ↦ other (omega (arith, ap (λ x. v * x) same))
      | inr more ↦ omega (arith, place_lt v a j t k more)
    ]
  ]

  same_tile : (i a t : ℕ) → i < v → (i + v * a == i + v * t) ≡ (a == t)
  same_tile i a t h = elim (order a t) [
    | inl less ↦ ground (arith, place_lt v t i a h less)
    | inr rest ↦ elim rest [
      | inl same ↦ ground (arith, ap (λ x. v * x) same)
      | inr more ↦ ground (arith, place_lt v a i t h more)
    ]
  ]

  hits-other : (i j t : ℕ) (l : List ℕ) → i < v → j < v → i ≢ j → hits v w i (j + v * t) l ≡ []
  hits-other i j t [] h k other = refl
  hits-other i j t (e ∷ l) h k other =
      let different : (i + v * (e / w) == j + v * t) ≡ false =
        ground (arith, apart i j (e / w) t h k other) in
      rw different (hits-other i j t l h k other)

  hits-same : (i t : ℕ) (l : List ℕ) → i < v → hits v w i (i + v * t) l ≡ in_tile w t l
  hits-same i t [] h = refl
  hits-same i t (e ∷ l) h =
      ap₂ (λ b rest. if b then e ∷ rest else rest) (same_tile i (e / w) t h) (hits-same i t l h)

  spread-other :
      (i j t : ℕ) (m : List (List ℕ)) → j < i → i + length m ≡ v → spread v w i (j + v * t) m ≡ []
  spread-other i j t [] h size = refl
  spread-other i j t (r ∷ m) h size =
      ap₂ (λ a b. a ++ b) (hits-other i j t r (omega arith) (omega arith) (omega arith))
        (spread-other (i + 1) j t m (omega arith) (omega arith))

  spread-in_tile :
      (i j t : ℕ) (m : List (List ℕ)) (r : List ℕ)
      → i + length m ≡ v
      → get_elem? m j ≡ some r
      → spread v w i ((i + j) + v * t) m ≡ in_tile w t r
  spread-in_tile i j t [] r size e = absurd (cc)
  spread-in_tile i zero t (s ∷ m) r size e =
      let here : i + zero ≡ i = omega arith in
      ap (λ k. spread v w i (k + v * t) (s ∷ m)) here
      ∙ ap₂ (λ a b. a ++ b) (hits-same i t s (omega arith))
          (spread-other (i + 1) i t m (omega arith) (omega arith))
      ∙ append-nil (in_tile w t s)
      ∙ ap (in_tile w t) (some-eq e)
  spread-in_tile i (suc j) t (s ∷ m) r size e =
      let next : i + suc j ≡ (i + 1) + j = omega arith in
      let inside = get_elem?-in m j e in
      ap₂ (λ a b. a ++ b)
        (hits-other i (i + suc j) t s (omega arith) (omega (arith, inside)) (omega arith))
        (ap (λ k. spread v w (i + 1) (k + v * t) m) next
          ∙ spread-in_tile (i + 1) j t m r (omega arith) e)

vtmake-run :
    (v n : ℕ) (row tokens : List ℕ) (s : Tiling)
    → place_rows v n row 0 v
        (record { last = none; tokens = tokens; new_csr = replicate ((v * n) % 2 ^ 64) [] })
      ≡ some s
    → vtmake v n row tokens ≡ some (0 ∷ sums 0 s.new_csr, entries s.new_csr)
unfolding vtmake tile
vtmake-run v n row tokens s e = rw e refl

-- On a graph of fewer than 2^24 vertices and 2^64 edges whose columns are vertices, with a number of
-- tiles from 1 on and below 2^24, the tool returns, and the vector of the vertex `i` in the tile `t`
-- has the columns of its row that lie in the tile, in their order.
pub vtmake-in_tile :
    (n : ℕ) (m : List (List ℕ)) (i t : ℕ) (r : List ℕ)
    → 0 < n
    → n < 2 ^ 24
    → length m < 2 ^ 24
    → edges m < 2 ^ 64
    → All (All (λ e. e < length m)) m
    → get_elem? m i ≡ some r
    → t < n
    → (tiles : List (List ℕ)) × (vtmake (length m) n (0 ∷ pointers 0 m) (join m)
        ≡ some (0 ∷ sums 0 tiles, entries tiles))
      × (length tiles ≡ length m * n)
      × (get_elem? tiles (i + length m * t) ≡ some (in_tile (width (length m) n) t r))
unfolding AreFilled
vtmake-in_tile n m i t r pos tiles_small vertices few cols e inside =
    let v = length m in
    let size : (v * n) % 2 ^ 64 ≡ v * n =
      omega (arith, below_product v n (2 ^ 24) vertices tiles_small) in
    let start : List (List ℕ) = replicate ((v * n) % 2 ^ 64) [] in
    let (last, tiles, run, len, filled) =
      place_rows-AreFilled v n pos tiles_small vertices m (0 ∷ pointers 0 m) [] 0 0 none [] start
        refl refl (omega arith) (omega (arith, few)) (length-replicate ((v * n) % 2 ^ 64) [] ∙ size)
        cols in
    let there = place_lt v n i t (get_elem?-in m i e) inside in
    let empty =
      get_elem?-replicate ((v * n) % 2 ^ 64) (i + v * t) [] (omega (arith, there, size)) in
    let line =
      ap
        (λ l.
          place_rows v n (0 ∷ pointers 0 m) 0 v
            (record { last = none; tokens = l; new_csr = start }))
        (sym (append-nil (join m))) in
    let there' : i + v * t ≡ (0 + i) + v * t = omega arith in
    (
      tiles,
      vtmake-run v n (0 ∷ pointers 0 m) (join m)
          (record { last = last; tokens = []; new_csr = tiles }) (line ∙ run),
      len,
      filled (i + v * t) [] empty
          ∙ ap some (
              ap (λ k. spread v (width v n) 0 k m) there'
              ∙ spread-in_tile v n pos 0 i t m r (omega arith) e),
    )
