-- ===== src/Distributer.antt =====
-- Distributer.cpp: which unit an address belongs to, and the rows and edges that each unit gets.
pub mod Rejoin
pub mod Addresses
use gcnsim_awb.Prelude.{
  ℕ, zero, suc, ◌+◌, ◌-◌, ◌*◌, ◌/◌, ◌%◌, ◌^◌, Bool, true, false, ◌==◌, leb, if◌then◌else◌, List, [],
  ◌∷◌, ◌++◌, map, Option, none, some, ◌>>=◌, pop_front, is_empty, length,
}
use gcnsim_awb.Prelude.Words.{add64, sub64, int_of, rounds}
use gcnsim_awb.Prelude.Floats.{float_ceil_div}
use gcnsim_awb.DataController.{pop_many}

-- The spacing of the units' addresses.
abbrev pub unit_space : ℕ
unit_space = 2 ^ 52

-- `a_row_offset[i]`, and the other offsets alike.
abbrev pub offset_of : ℕ → ℕ
offset_of i = (unit_space * i) % 2 ^ 64

-- The mask drops the highest byte, in which the start addresses differ.
unfoldable pub return_id : ℕ → ℕ
return_id address = address % 2 ^ 56 / unit_space

-- What a unit gets: its queues, `a_row_info` and `axw_count`.
pub record Share : Type 0 where
  pub adjrowindex : List ℕ
  pub adjcolindex : List ℕ
  pub row_start : ℕ
  pub row_end : ℕ
  pub axw_count : ℕ

-- What one unit's `while (true)` loop pushes, how often it runs, and what it leaves in the queues and
-- in `last`.
pub record Filling : Type 0 where
  pub pushed : List ℕ
  pub taken : List ℕ
  pub count : ℕ
  pub rows_left : List ℕ
  pub cols_left : List ℕ
  pub last : ℕ

-- The loop, from the unit's last row pointer so far. The `int` `col_size` is a difference of two
-- pointers.
unfoldable pub fill : ℕ → ℕ → ℕ → List ℕ → List ℕ → Option Filling
fill unit_edge last back [] cols = none
fill unit_edge last back (row ∷ rows) cols =
    let entry = sub64 row last in
    (pop_many (rounds (int_of (sub64 entry back))) cols >>= (λ p.
      let rest = fill unit_edge last entry rows p.1 in
      if is_empty p.1
      then some (record {
        pushed = entry ∷ map (λ r. sub64 r last) rows;
        taken = p.0;
        count = 1;
        rows_left = [];
        cols_left = [];
        last = last;
      })
      else if leb unit_edge entry
      then some (record {
        pushed = entry ∷ [];
        taken = p.0;
        count = 1;
        rows_left = rows;
        cols_left = p.1;
        last = add64 last entry;
      })
      else rest >>= (λ f.
        some
          (record f { pushed = entry ∷ f.pushed; taken = p.0 ++ f.taken; count = f.count + 1 }))))

-- What is left in the copies of the data's queues, with the units' shares.
pub record Division : Type 0 where
  pub shares : List Share
  pub rows_left : List ℕ
  pub cols_left : List ℕ

-- The loop over the units, from the row that is next; `row_end` and `axw_count` as they are at the end.
unfoldable pub fill_all : ℕ → ℕ → ℕ → ℕ → ℕ → List ℕ → List ℕ → Option Division
unfolding fill
fill_all x_h unit_edge zero row last rows cols =
    some (record { shares = []; rows_left = rows; cols_left = cols })
fill_all x_h unit_edge (suc n) row last rows cols = do
  f ← fill unit_edge last 0 rows cols
  d ← fill_all x_h unit_edge n (row + f.count) f.last f.rows_left f.cols_left
  some (record d {
    shares =
        record {
          adjrowindex = 0 ∷ f.pushed;
          adjcolindex = f.taken;
          row_start = row;
          row_end = if n == 0 then sub64 x_h 1 else row + f.count - 1;
          axw_count = length f.pushed;
        }
        ∷ d.shares;
  })

-- `Distribute`: the shares of the units that it writes. With `CSRDivisionType` 0 the first unit gets
-- all.
unfoldable pub distribute : ℕ → ℕ → ℕ → List ℕ → List ℕ → Option Division
unfolding fill_all
distribute division_type tot_acc x_h rows cols =
    if division_type == 0
    then some (record {
      shares =
          record {
            adjrowindex = rows;
            adjcolindex = cols;
            row_start = 0;
            row_end = x_h;
            axw_count = x_h;
          }
          ∷ [];
      rows_left = [];
      cols_left = [];
    })
    else if division_type == 1
    then (do
      (_, pointers) ← pop_front rows
      fill_all x_h (float_ceil_div (length cols) tot_acc) tot_acc 0 0 pointers cols)
    else some (record { shares = []; rows_left = rows; cols_left = cols })
