-- ===== src/Tests/Input.antt =====
-- A graph of three rows and five edges, in blocks of two rows, with lines of two numbers.
use gcnsim_awb.Prelude.{ℕ, List, [], ◌∷◌}
use gcnsim_awb.Config.{Config}

abbrev pub cfg : Config
cfg = record {
  cache_line_byte = 16;
  cache_line_count = 2;
  x_start = 0;
  a_row_start = 1000;
  a_col_start = 2000;
  weight_start = 3000;
  xw_start = 4000;
  axw_start = 5000;
  max_dram = 2;
  unit_w_read = 1;
  w_w = 2;
  x_h = 3;
  a_w = 3;
  a_h = 3;
  w_fold = 2;
  max_v = 2;
}

abbrev pub rows : List ℕ
rows = 0 ∷ 2 ∷ 3 ∷ 5 ∷ []

abbrev pub cols : List ℕ
cols = 0 ∷ 1 ∷ 2 ∷ 0 ∷ 1 ∷ []
