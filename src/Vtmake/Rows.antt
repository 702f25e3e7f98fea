-- ===== src/Vtmake/Rows.antt =====
-- CSR_converter/vtmake.cpp: what the loops over the vertices and their edges add to each vector.
use mathlib.Core.List.{append-nil, append_assoc}
use gcnsim_awb.Prelude.{
  ℕ, suc, ◌+◌, ◌*◌, ◌/◌, ◌%◌, ◌^◌, ◌≤◌, ◌<◌, ◌≡◌, refl, inl, inr, ◌==◌, if◌then◌else◌, List, [],
  ◌∷◌, ◌++◌, Option, some, get_elem?, length, length-append, All, Bool-cases, arith, sym, ◌∙◌, ap,
}
use gcnsim_awb.Prelude.Words.{add64, sub64, ceil_div_bounds}
use gcnsim_awb.Prelude.Floats.{float_ceil_div-exact}
use gcnsim_awb.Distributer.Rejoin.{join, edges, pointers}
use gcnsim_awb.RowLoop.Edges.{pointer_at}
use gcnsim_awb.RowLoop.Slots.{IsPushed, push_at-IsPushed}
use gcnsim_awb.Vtmake.{width, tile_of, push_at, next_token, Tiling, place_row, place_rows}

-- The edges of a row that belong to the tile `t`.
abbrev pub in_tile : ℕ → ℕ → List ℕ → List ℕ
in_tile w t [] = []
in_tile w t (e ∷ l) = let rest = in_tile w t l in if e / w == t then e ∷ rest else rest

-- The edges of the row of the vertex `i` that go to the vector `k`.
abbrev pub hits : ℕ → ℕ → ℕ → ℕ → List ℕ → List ℕ
hits v w i k [] = []
hits v w i k (e ∷ l) = let rest = hits v w i k l in if i + v * (e / w) == k then e ∷ rest else rest

div_lt : (e w n : ℕ) → e < w * n → e / w < n
div_lt e w n h = grind arith

width_covers : (v n : ℕ) → 0 < n → n < 2 ^ 24 → v < 2 ^ 24 → v ≤ width v n * n
width_covers v n pos tiles vertices =
    rw (float_ceil_div-exact v n vertices pos tiles) (ceil_div_bounds v n pos).0

pub below_product : (v n p : ℕ) → v < p → n < p → v * n < p * p
below_product v n p h k = grind arith

-- A vertex's column lies in one of the tiles.
tile_of-lt :
    (v tile_num e : ℕ)
    → 0 < tile_num
    → tile_num < 2 ^ 24
    → v < 2 ^ 24
    → e < v
    → (tile_of v tile_num e ≡ e / width v tile_num) × (e / width v tile_num < tile_num)
unfolding tile_of
tile_of-lt v tile_num e pos tiles vertices h =
    let inside : e / width v tile_num < tile_num =
      div_lt e (width v tile_num) tile_num
        (omega (arith, width_covers v tile_num pos tiles vertices)) in
    (ground (arith, inside), inside)

pub place_lt : (v n i a : ℕ) → i < v → a < n → i + v * a < v * n
place_lt v n i a h k = grind arith

-- The edges that the rows from the vertex `i` on send to the vector `k`.
abbrev pub spread : ℕ → ℕ → ℕ → ℕ → List (List ℕ) → List ℕ
spread v w i k [] = []
spread v w i k (r ∷ m) = hits v w i k r ++ spread v w (i + 1) k m

module _ (v n : ℕ) (pos : 0 < n) (tiles_small : n < 2 ^ 24) (vertices : v < 2 ^ 24) where
  abbrev w : ℕ
  w = width v n

  -- The vectors after a row of the vertex `i`.
  IsFilled : ℕ → List ℕ → List (List ℕ) → List (List ℕ) → Type 0
  IsFilled i l ts ts' =
      (k : ℕ) (t : List ℕ) → get_elem? ts k ≡ some t → get_elem? ts' k ≡ some (t ++ hits v w i k l)

  nil-IsFilled : (i : ℕ) (ts : List (List ℕ)) → IsFilled i [] ts ts
  unfolding IsFilled
  nil-IsFilled i ts k t q = q ∙ ap some (sym (append-nil t))

  cons-IsFilled :
      (i e : ℕ) (l : List ℕ) (ts ts₁ ts₂ : List (List ℕ))
      → IsPushed (i + v * (e / w)) e ts ts₁
      → IsFilled i l ts₁ ts₂
      → IsFilled i (e ∷ l) ts ts₂
  unfolding IsFilled
  cons-IsFilled i e l ts ts₁ ts₂ p f k t q = elim (Bool-cases (i + v * (e / w) == k)) [
    | inl here ↦
        f k (t ++ e ∷ []) (p k t q ∙ ap (λ b. some (if b then t ++ e ∷ [] else t)) here)
        ∙ ap some (append_assoc t (e ∷ []) (hits v w i k l))
        ∙ ap (λ b. some (t ++ (if b then e ∷ hits v w i k l else hits v w i k l))) (sym here)
    | inr there ↦
        f k t (p k t q ∙ ap (λ b. some (if b then t ++ e ∷ [] else t)) there)
        ∙ ap (λ b. some (t ++ (if b then e ∷ hits v w i k l else hits v w i k l))) (sym there)
  ]

  place_row-cons :
      (i e k : ℕ) (last : Option ℕ) (tokens : List ℕ) (ts ts₁ : List (List ℕ))
      → push_at (add64 i ((v * tile_of v n e) % 2 ^ 64)) e ts ≡ some ts₁
      → place_row v n i (suc k) (record { last = last; tokens = e ∷ tokens; new_csr = ts })
        ≡ place_row v n i k (record { last = some e; tokens = tokens; new_csr = ts₁ })
  unfolding place_row next_token
  place_row-cons i e k last tokens ts ts₁ run = rw run refl

  place_of : (i e a b : ℕ) → a ≡ b → i + v * b < v * n → add64 i ((v * a) % 2 ^ 64) ≡ i + v * b
  place_of i e a b same below =
      omega (arith, ap (λ x. v * x) same, below_product v n (2 ^ 24) vertices tiles_small)

  place_row-IsFilled :
      (i : ℕ) (l : List ℕ) (last : Option ℕ) (rest : List ℕ) (ts : List (List ℕ))
      → i < v
      → length ts ≡ v * n
      → All (λ e. e < v) l
      → (last' : Option ℕ) × (ts' : List (List ℕ)) × (place_row v n i
            (length l)
            (record { last = last; tokens = l ++ rest; new_csr = ts })
          ≡ some (record { last = last'; tokens = rest; new_csr = ts' }))
        × (length ts' ≡ v * n)
        × IsFilled i l ts ts'
  unfolding place_row
  place_row-IsFilled i [] last rest ts h len all = (last, ts, refl, len, nil-IsFilled i ts)
  place_row-IsFilled i (e ∷ l) last rest ts h len all =
      let (same, inside) = tile_of-lt v n e pos tiles_small vertices (all.0) in
      let below = place_lt v n i (e / w) h inside in
      let (ts₁, run, len₁, pushed) =
        push_at-IsPushed (i + v * (e / w)) e ts (omega (arith, below, len)) in
      let (last', ts₂, run', len₂, filled) =
        place_row-IsFilled i l (some e) rest ts₁ h (len₁ ∙ len) (all.1) in
      let first =
        ap (λ k. push_at k e ts) (place_of i e (tile_of v n e) (e / w) same below) ∙ run in
      (
        last',
        ts₂,
        place_row-cons i e (length l) last (l ++ rest) ts ts₁ first ∙ run',
        len₂,
        cons-IsFilled i e l ts ts₁ ts₂ pushed filled,
      )

  unfoldable pub AreFilled : ℕ → List (List ℕ) → List (List ℕ) → List (List ℕ) → Type 0
  AreFilled i m ts ts' =
      (k : ℕ) (t : List ℕ)
      → get_elem? ts k ≡ some t
      → get_elem? ts' k ≡ some (t ++ spread v w i k m)

  nil-AreFilled : (i : ℕ) (ts : List (List ℕ)) → AreFilled i [] ts ts
  unfolding AreFilled
  nil-AreFilled i ts k t q = q ∙ ap some (sym (append-nil t))

  cons-AreFilled :
      (i : ℕ) (r : List ℕ) (m ts ts₁ ts₂ : List (List ℕ))
      → IsFilled i r ts ts₁
      → AreFilled (i + 1) m ts₁ ts₂
      → AreFilled i (r ∷ m) ts ts₂
  unfolding IsFilled AreFilled
  cons-AreFilled i r m ts ts₁ ts₂ p f k t q =
      f k (t ++ hits v w i k r) (p k t q)
      ∙ ap some (append_assoc t (hits v w i k r) (spread v w (i + 1) k m))

  place_rows-cons :
      (row : List ℕ) (i k start end : ℕ) (s s' : Tiling)
      → get_elem? row i ≡ some start
      → get_elem? row (i + 1) ≡ some end
      → place_row v n i (sub64 end start) s ≡ some s'
      → place_rows v n row i (suc k) s ≡ place_rows v n row (i + 1) k s'
  unfolding place_rows
  place_rows-cons row i k start end s s' a b run = rw (a, b, run) refl

  -- One vertex, whose row is next on the line.
  place_rows-row :
      (r more : List ℕ) (m : List (List ℕ)) (row pre : List ℕ) (b i k : ℕ) (last : Option ℕ)
      (ts : List (List ℕ)) (s' : Tiling)
      → row ≡ pre ++ b ∷ pointers b (r ∷ m)
      → length pre ≡ i
      → b + length r < 2 ^ 64
      → place_row v n i (length r) (record { last = last; tokens = r ++ more; new_csr = ts })
        ≡ some s'
      → place_rows v n row i (suc k) (record { last = last; tokens = r ++ more; new_csr = ts })
        ≡ place_rows v n row (i + 1) k s'
  place_rows-row r more m row pre b i k last ts s' whole at small_ run =
      let s : Tiling = record { last = last; tokens = r ++ more; new_csr = ts } in
      let gap : sub64 (b + length r) b ≡ length r = omega arith in
      place_rows-cons row i k b (b + length r) s s'
        (pointer_at row pre (pointers b (r ∷ m)) b i whole at)
        (pointer_at row (pre ++ b ∷ []) (pointers (b + length r) m) (b + length r) (i + 1)
          (whole ∙ sym (append_assoc pre (b ∷ []) (pointers b (r ∷ m))))
          (omega (arith, at, length-append pre (b ∷ []))))
        (ap (λ c. place_row v n i c s) gap ∙ run)

  pub place_rows-AreFilled :
      (m : List (List ℕ)) (row pre : List ℕ) (b i : ℕ) (last : Option ℕ) (rest : List ℕ)
      (ts : List (List ℕ))
      → row ≡ pre ++ b ∷ pointers b m
      → length pre ≡ i
      → i + length m ≡ v
      → b + edges m < 2 ^ 64
      → length ts ≡ v * n
      → All (All (λ e. e < v)) m
      → (last' : Option ℕ) × (ts' : List (List ℕ)) × (place_rows v n row i
            (length m)
            (record { last = last; tokens = join m ++ rest; new_csr = ts })
          ≡ some (record { last = last'; tokens = rest; new_csr = ts' }))
        × (length ts' ≡ v * n)
        × AreFilled i m ts ts'
  unfolding place_rows
  place_rows-AreFilled [] row pre b i last rest ts whole at size small_ len all =
      (last, ts, refl, len, nil-AreFilled i ts)
  place_rows-AreFilled (r ∷ m) row pre b i last rest ts whole at size small_ len all =
      let size' = length-append r (join m) in
      let (last₁, ts₁, run, len₁, filled) =
        place_row-IsFilled i r last (join m ++ rest) ts (omega arith) len (all.0) in
      let (last', ts₂, run', len₂, are) =
        place_rows-AreFilled m row (pre ++ b ∷ []) (b + length r) (i + 1) last₁ rest ts₁
          (whole ∙ sym (append_assoc pre (b ∷ []) (pointers b (r ∷ m))))
          (omega (arith, at, length-append pre (b ∷ []))) (omega arith) (omega (arith, size')) len₁
          (all.1) in
      let joined =
        ap
          (λ l.
            place_rows v n row i (length (r ∷ m))
              (record { last = last; tokens = l; new_csr = ts }))
          (append_assoc r (join m) rest) in
      let first =
        place_rows-row r (join m ++ rest) m row pre b i (length m) last ts
          (record { last = last₁; tokens = join m ++ rest; new_csr = ts₁ }) whole at
          (omega (arith, size')) run in
      (last', ts₂, joined ∙ first ∙ run', len₂, cons-AreFilled i r m ts ts₁ ts₂ filled are)
