-- ===== src/Config.antt =====
-- The settings and sizes that the program keeps in global variables: IniParser.cpp reads the
-- settings, DataReader.cpp the sizes, and RunSimulator.cpp asks for `max_v`.
use gcnsim_awb.Prelude.{ℕ}

pub record Config : Type 0 where
  pub cache_line_byte : ℕ
  pub cache_line_count : ℕ
  pub a_row_start : ℕ
  pub a_col_start : ℕ
  pub x_start : ℕ
  pub weight_start : ℕ
  pub xw_start : ℕ
  pub axw_start : ℕ
  pub max_dram : ℕ
  pub unit_w_read : ℕ
  pub w_w : ℕ
  pub x_h : ℕ
  pub a_w : ℕ
  pub a_h : ℕ
  -- `Distributer` sets `w_fold` to `w_w`.
  pub w_fold : ℕ
  pub max_v : ℕ

-- Common.h: `MAX_QUEUE_SIZE`.
abbrev pub max_queue_size : ℕ
max_queue_size = 1000000
