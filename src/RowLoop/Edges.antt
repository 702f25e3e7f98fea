-- ===== src/RowLoop/Edges.antt =====
-- CSR_converter: the loops of `RowLoop` on the two lines of a graph, and the run over the list of the
-- graph's edges.
use mathlib.Core.List.{append_assoc}
use gcnsim_awb.Prelude.{
  ℕ, suc, ◌+◌, ◌^◌, ◌<◌, ◌≡◌, refl, List, [], ◌∷◌, ◌++◌, Option, some, ◌>>=◌, get_elem?,
  get_elem?-append, length, length-append, inl, inr, Option-cases, arith, sym, ◌∙◌, ap, ap₂,
}
use gcnsim_awb.Prelude.Words.{sub64}
use gcnsim_awb.Distributer.Rejoin.{join, edges, pointers}
use gcnsim_awb.Vtmake.{next_token}
use gcnsim_awb.RowLoop.{loop_row, loop_rows}

-- The edges of the vertex `i`, and of the rows from `i` on.
abbrev pub from_vertex : ℕ → List ℕ → List (ℕ × ℕ)
from_vertex i [] = []
from_vertex i (e ∷ l) = (i, e) ∷ from_vertex i l

abbrev pub edge_list : ℕ → List (List ℕ) → List (ℕ × ℕ)
edge_list i [] = []
edge_list i (r ∷ m) = from_vertex i r ++ edge_list (i + 1) m

-- What `tmp` holds after some numbers.
abbrev last_of : Option ℕ → List ℕ → Option ℕ
last_of last [] = last
last_of last (e ∷ l) = last_of (some e) l

pub pointer_at :
    (row pre ys : List ℕ) (x i : ℕ)
    → row ≡ pre ++ x ∷ ys
    → length pre ≡ i
    → get_elem? row i ≡ some x
pointer_at row pre ys x i e at = ap₂ (λ l k. get_elem? l k) e (sym at) ∙ get_elem?-append pre x ys

module _ {ℓ} {S : Type ℓ} (body : ℕ → ℕ → S → Option S) where
  -- The body on each edge in turn.
  abbrev pub each : List (ℕ × ℕ) → S → Option S
  each [] s = some s
  each ((i, e) ∷ es) s = body i e s >>= each es

  pub each-append : (a b : List (ℕ × ℕ)) (s : S) → each (a ++ b) s ≡ (each a s >>= each b)
  each-append [] b s = refl
  each-append ((i, e) ∷ a) b s = elim (Option-cases (body i e s)) [
    | inl h ↦ rw h refl
    | inr (s', h) ↦ rw h (each-append a b s')
  ]

  loop_row-cons :
      (i e n : ℕ) (last : Option ℕ) (tokens : List ℕ) (s : S)
      → loop_row body i (suc n) last (e ∷ tokens) s
        ≡ (body i e s >>= λ s'. loop_row body i n (some e) tokens s')
  unfolding loop_row next_token
  loop_row-cons i e n last tokens s = refl

  loop_row-each :
      (i : ℕ) (l : List ℕ) (last : Option ℕ) (rest : List ℕ) (s : S)
      → loop_row body i (length l) last (l ++ rest) s
        ≡ (each (from_vertex i l) s >>= λ s'. some (last_of last l, rest, s'))
  unfolding loop_row
  loop_row-each i [] last rest s = refl
  loop_row-each i (e ∷ l) last rest s =
      loop_row-cons i e (length l) last (l ++ rest) s ∙ elim (Option-cases (body i e s)) [
        | inl h ↦ rw h refl
        | inr (s', h) ↦ rw h (loop_row-each i l (some e) rest s')
      ]

  loop_rows-cons :
      (row : List ℕ) (i k start end : ℕ) (last : Option ℕ) (tokens : List ℕ) (s : S)
      → get_elem? row i ≡ some start
      → get_elem? row (i + 1) ≡ some end
      → loop_rows body row i (suc k) last tokens s ≡ (
          loop_row body i (sub64 end start) last tokens s >>= λ r.
          loop_rows body row (i + 1) k (r.0) (r.1) (r.2))
  unfolding loop_rows
  loop_rows-cons row i k start end last tokens s a b = rw (a, b) refl

  last_of-append :
      (last : Option ℕ) (a b : List ℕ) → last_of (last_of last a) b ≡ last_of last (a ++ b)
  last_of-append last [] b = refl
  last_of-append last (e ∷ a) b = last_of-append (some e) a b

  -- The rows behind the first, when the first is read.
  rows_join :
      (r : List ℕ) (m : List (List ℕ)) (row : List ℕ) (i : ℕ) (last : Option ℕ) (rest : List ℕ)
      (s : S)
      → ((s' : S)
          → loop_rows body row (i + 1) (length m) (last_of last r) (join m ++ rest) s' ≡ (
              each (edge_list (i + 1) m) s' >>= λ t.
              some (last_of (last_of last r) (join m), rest, t)))
      → (loop_row body i (length r) last (r ++ (join m ++ rest)) s >>= λ q.
          loop_rows body row (i + 1) (length m) (q.0) (q.1) (q.2))
        ≡ (each (edge_list i (r ∷ m)) s >>= λ t. some (last_of last (r ++ join m), rest, t))
  rows_join r m row i last rest s later =
      rw
        (
          loop_row-each i r last (join m ++ rest) s,
          each-append (from_vertex i r) (edge_list (i + 1) m) s,
          sym (last_of-append last r (join m)),
        )
        (elim (Option-cases (each (from_vertex i r) s)) [
          | inl h ↦ rw h refl
          | inr (s', h) ↦ rw h (later s')
        ])

  pub loop_rows-each :
      (m : List (List ℕ)) (row pre : List ℕ) (b i : ℕ) (last : Option ℕ) (rest : List ℕ) (s : S)
      → row ≡ pre ++ b ∷ pointers b m
      → length pre ≡ i
      → b + edges m < 2 ^ 64
      → loop_rows body row i (length m) last (join m ++ rest) s
        ≡ (each (edge_list i m) s >>= λ s'. some (last_of last (join m), rest, s'))
  unfolding loop_rows
  loop_rows-each [] row pre b i last rest s whole at h = refl
  loop_rows-each (r ∷ m) row pre b i last rest s whole at h =
      let tokens = append_assoc r (join m) rest in
      let gap : sub64 (b + length r) b ≡ length r = omega (arith, length-append r (join m)) in
      ap (λ l. loop_rows body row i (suc (length m)) last l s) tokens
      ∙ loop_rows-cons row i (length m) b (b + length r) last (r ++ (join m ++ rest)) s
          (pointer_at row pre (pointers b (r ∷ m)) b i whole at)
          (pointer_at row (pre ++ b ∷ []) (pointers (b + length r) m) (b + length r) (i + 1)
            (whole ∙ sym (append_assoc pre (b ∷ []) (pointers b (r ∷ m))))
            (omega (arith, at, length-append pre (b ∷ []))))
      ∙ ap
          (λ n. loop_row body i n last (r ++ (join m ++ rest)) s >>= λ q.
            loop_rows body row (i + 1) (length m) (q.0) (q.1) (q.2))
          gap
      ∙ rows_join r m row i last rest s (λ s'.
        loop_rows-each m row (pre ++ b ∷ []) (b + length r) (i + 1) (last_of last r) rest s'
          (whole ∙ sym (append_assoc pre (b ∷ []) (pointers b (r ∷ m))))
          (omega (arith, at, length-append pre (b ∷ []))) (omega (arith, length-append r (join m))))
