-- ===== src/VtDynamic.antt =====
-- CSR_converter/vtmake_dynamic_vt_0.cpp, _0_3, _1, _2 and _3: two tiles, one block of which is divided
-- again. A slot is the index of `new_csr` to which the edge from `i` to `edge` goes. `v` is below 2^24, so
-- that the `float`s are exact where it matters and the `double`s are, and an index in `double` is cut off
-- after the point.
pub mod Sent
pub mod Two
pub mod Out
use gcnsim_awb.Prelude.{
  ℕ, zero, suc, ◌+◌, ◌-◌, ◌*◌, ◌/◌, ◌%◌, ◌^◌, ◌==◌, leb, ltb, if◌then◌else◌, List, [], ◌∷◌, Option,
  none, some, ◌>>=◌, replicate, length,
}
use gcnsim_awb.Vtmake.{width, tile_of, sums, entries}
use gcnsim_awb.RowLoop.{loop_rows}
use gcnsim_awb.RowLoop.Slots.{put_in_slot}

-- `if (index == 2) index--`.
abbrev pub clip : ℕ → ℕ
clip index = if index == 2 then index - 1 else index

-- `edge / ceil((float)(v_num/2))`, which has no value when `v_num/2` is 0.
unfoldable pub quarter_of : ℕ → ℕ → Option ℕ
quarter_of v edge = let half = width v 2 / 2 in if half == 0 then none else some (edge / half)

-- The same less 2, converted to `uint64_t`: a number of -1 or less has no defined conversion, and
-- `converted edge half` is what it gives.
unfoldable pub quarter_behind : (ℕ → ℕ → ℕ) → ℕ → ℕ → Option ℕ
quarter_behind converted v edge =
    let half = width v 2 / 2 in
    if half == 0
    then none
    else (if leb (2 * half) edge
        then some (edge / half - 2)
        else (if ltb half edge then some 0 else some (converted edge half)))

unfoldable pub slot_vt_0 : ℕ → ℕ → ℕ → Option ℕ
slot_vt_0 v i edge =
    if leb i (v / 2)
    then (quarter_of v edge >>= λ index.
        if leb 2 edge then some ((2 * i + 3 * v) / 2) else some ((2 * i + v * clip index) / 2))
    else some ((v + 2 * i + 2 * ((v * tile_of v 2 edge) % 2 ^ 64)) / 2)

unfoldable pub slot_vt_0_3 : ℕ → ℕ → ℕ → Option ℕ
slot_vt_0_3 v i edge =
    if ltb i (v / 2)
    then (if ltb edge (v / 4)
        then some i
        else (if ltb edge (v / 2) then some (i + v / 2) else some ((2 * i + 3 * v) / 2)))
    else (if ltb i (v * 3 / 4)
        then (if ltb edge (v / 2)
            then some (i + v / 2)
            else (if ltb edge (v * 3 / 4) then some ((2 * i + 3 * v) / 2) else some (i + v * 2)))
        else (if ltb edge (v / 2)
            then some (i + v / 2)
            else (if ltb edge (v * 3 / 4)
                then some ((4 * i + 7 * v) / 4)
                else some ((4 * i + 9 * v) / 4))))

unfoldable pub slot_vt_1 : (ℕ → ℕ → ℕ) → ℕ → ℕ → ℕ → Option ℕ
slot_vt_1 converted v i edge =
    if leb i (v / 2)
    then (quarter_behind converted v edge >>= λ index.
        if leb (v / 2) edge then some ((2 * i + 2 * v + v * clip index) / 2) else some i)
    else some ((2 * i + 3 * v * tile_of v 2 edge) / 2)

unfoldable pub slot_vt_2 : ℕ → ℕ → ℕ → Option ℕ
slot_vt_2 v i edge =
    if leb i (v / 2)
    then some ((2 * i + 3 * v * tile_of v 2 edge) / 2)
    else (quarter_of v edge >>= λ index.
        if leb (v / 2) edge
        then some ((2 * i + 3 * v) / 2)
        else some ((i + (v / 2) * clip index) % 2 ^ 64))

unfoldable pub slot_vt_3 : (ℕ → ℕ → ℕ) → ℕ → ℕ → ℕ → Option ℕ
slot_vt_3 converted v i edge =
    if leb i (v / 2)
    then some ((i + v * tile_of v 2 edge) % 2 ^ 64)
    else (quarter_behind converted v edge >>= λ index.
        if leb (v / 2) edge
        then some ((2 * i + 3 * v) / 2)
        else some ((i + (v / 2) * clip index) % 2 ^ 64))

-- The rounds of `for (i = 0; i < v * (tile_num+0.5); i++)`, and of the one with `v * (tile_num+1)`.
abbrev pub two_and_a_half : ℕ → ℕ
two_and_a_half v = (5 * v + 1) / 2

abbrev pub three_times : ℕ → ℕ
three_times v = v * 3 % 2 ^ 64

-- The tools, for their slots and the number of their vectors: to the two lines of the output.
unfoldable pub vt_dynamic : (ℕ → ℕ → Option ℕ) → ℕ → ℕ → List ℕ → List ℕ → Option (List ℕ × List ℕ)
unfolding loop_rows put_in_slot sums entries
vt_dynamic slot size v row tokens = do
  (last, rest, tiles) ← loop_rows (put_in_slot slot) row 0 v none tokens (replicate size [])
  some (0 ∷ sums 0 tiles, entries tiles)
