-- ===== src/RowLoop.antt =====
-- CSR_converter: the loops over the vertices and their edges that the tiling tools share. A line of a
-- file is the list of its numbers, with one space between two and none at the end.
pub mod Edges
pub mod Slots
pub mod Owner
use gcnsim_awb.Prelude.{ℕ, zero, suc, ◌+◌, List, [], ◌∷◌, Option, none, some, ◌>>=◌, get_elem?}
use gcnsim_awb.Prelude.Words.{sub64}
use gcnsim_awb.Vtmake.{next_token}

module _ {ℓ} {S : Type ℓ} (body : ℕ → ℕ → S → Option S) where
  -- The inner loop for `n` more edges of the vertex `i`: `body` is what it does with one. The first two
  -- results are `tmp` and the rest of the second line.
  unfoldable pub loop_row : ℕ → ℕ → Option ℕ → List ℕ → S → Option (Option ℕ × List ℕ × S)
  unfolding next_token
  loop_row i zero last tokens s = some (last, tokens, s)
  loop_row i (suc n) last tokens s = do
    (edge, rest) ← next_token last tokens
    s' ← body i edge s
    loop_row i n (some edge) rest s'

  -- The outer loop, for `n` more vertices from `i` on.
  unfoldable pub loop_rows : List ℕ → ℕ → ℕ → Option ℕ → List ℕ → S → Option (Option ℕ × List ℕ × S)
  unfolding loop_row
  loop_rows row i zero last tokens s = some (last, tokens, s)
  loop_rows row i (suc n) last tokens s = do
    start ← get_elem? row i
    end ← get_elem? row (i + 1)
    (last', rest, s') ← loop_row i (sub64 end start) last tokens s
    loop_rows row (i + 1) n last' rest s'
