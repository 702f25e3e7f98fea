-- ===== src/Vtmake.antt =====
-- CSR_converter/vtmake.cpp: the division of a graph's columns into tiles. A line is the list of its
-- numbers, with one space between two and none at the end. `tile_num` is positive.
pub mod Rows
pub mod Tiles
use gcnsim_awb.Prelude.{
  ℕ, zero, suc, ◌+◌, ◌-◌, ◌*◌, ◌/◌, ◌%◌, ◌^◌, ◌==◌, if◌then◌else◌, List, [], ◌∷◌, ◌++◌, Option,
  none, some, ◌>>=◌, get_elem?, length, replicate,
}
use gcnsim_awb.Prelude.Words.{add64, sub64}
use gcnsim_awb.Prelude.Floats.{float_ceil_div}

-- `v_num`.
abbrev pub width : ℕ → ℕ → ℕ
width v tile_num = float_ceil_div v tile_num

-- `index`, with the clipping of the one that is past the end.
unfoldable pub tile_of : ℕ → ℕ → ℕ → ℕ
tile_of v tile_num edge =
    let index = edge / width v tile_num in if index == tile_num then index - 1 else index

-- `new_csr[k].push_back(e)`.
unfoldable pub push_at : ℕ → ℕ → List (List ℕ) → Option (List (List ℕ))
push_at k e [] = none
push_at zero e (t ∷ ts) = some ((t ++ e ∷ []) ∷ ts)
push_at (suc k) e (t ∷ ts) = do ts' ← push_at k e ts; some (t ∷ ts')

-- The rest of the second line, and `tmp`, which keeps its value when the line is at its end. An empty
-- line gives an empty `tmp`, and `stoull` throws.
unfoldable pub next_token : Option ℕ → List ℕ → Option (ℕ × List ℕ)
next_token last (t ∷ ts) = some (t, ts)
next_token (some t) [] = some (t, [])
next_token none [] = none

-- The vectors, with `tmp` and the rest of the line.
pub record Tiling : Type 0 where
  pub last : Option ℕ
  pub tokens : List ℕ
  pub new_csr : List (List ℕ)

-- The inner loop, for `n` more edges of the vertex `i`.
unfoldable pub place_row : ℕ → ℕ → ℕ → ℕ → Tiling → Option Tiling
unfolding tile_of push_at next_token
place_row v tile_num i zero s = some s
place_row v tile_num i (suc n) s = do
  (edge, rest) ← next_token s.last s.tokens
  tiles ← push_at (add64 i ((v * tile_of v tile_num edge) % 2 ^ 64)) edge s.new_csr
  place_row v tile_num i n (record { last = some edge; tokens = rest; new_csr = tiles })

-- The outer loop, for `n` more vertices from `i` on.
unfoldable pub place_rows : ℕ → ℕ → List ℕ → ℕ → ℕ → Tiling → Option Tiling
unfolding place_row
place_rows v tile_num row i zero s = some s
place_rows v tile_num row i (suc n) s = do
  start ← get_elem? row i
  end ← get_elem? row (i + 1)
  s' ← place_row v tile_num i (sub64 end start) s
  place_rows v tile_num row (i + 1) n s'

-- The running sums of the sizes, which the first line of the output gives behind its 0.
unfoldable pub sums : ℕ → List (List ℕ) → List ℕ
sums v_acm [] = []
sums v_acm (t ∷ ts) = add64 v_acm (length t) ∷ sums (add64 v_acm (length t)) ts

unfoldable pub entries : List (List ℕ) → List ℕ
entries [] = []
entries (t ∷ ts) = t ++ entries ts

-- From the two lines of the input to the vectors.
unfoldable pub tile : ℕ → ℕ → List ℕ → List ℕ → Option (List (List ℕ))
unfolding place_rows
tile v tile_num row tokens = do
  s ←
      place_rows v tile_num row 0 v
        (record { last = none; tokens = tokens; new_csr = replicate ((v * tile_num) % 2 ^ 64) [] })
  some s.new_csr

-- To the two lines of the output.
unfoldable pub vtmake : ℕ → ℕ → List ℕ → List ℕ → Option (List ℕ × List ℕ)
unfolding tile sums entries
vtmake v tile_num row tokens = do
  tiles ← tile v tile_num row tokens
  some (0 ∷ sums 0 tiles, entries tiles)
