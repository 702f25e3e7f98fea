-- ===== src/IniParser.antt =====
-- IniParser.cpp: the lines of the settings file, the table of their values, and the settings.
-- `stof`, for the one setting that is a `float`, is a parameter: its result is only stored.
pub mod Lines
pub mod Names
use Prim.Native.String.{String}
use gcnsim_awb.Prelude.{
  ℕ, zero, suc, ◌+◌, ◌-◌, ◌/◌, Bool, true, false, ◌||◌, ◌==◌, if◌then◌else◌, List, [], ◌∷◌, Option,
  none, some, take, drop, length,
}
use gcnsim_awb.Text.{
  codes, same_text, split_at, Exception, not_exist, invalid_argument, Result, ok, err, ◌>>=◌,
  stoull, stoi,
}

abbrev pub Table : Type 0
Table = List (List ℕ × List ℕ)

-- `m_table[name] = value`.
unfoldable pub assign : List ℕ → List ℕ → Table → Table
assign name value [] = (name, value) ∷ []
assign name value ((k, v) ∷ t) =
    if same_text k name then (k, value) ∷ t else (k, v) ∷ assign name value t

unfoldable pub value_of : List ℕ → Table → Option (List ℕ)
value_of name [] = none
value_of name ((k, v) ∷ t) = if same_text k name then some v else value_of name t

-- The two texts of a line. With no `=` at all, `find` gives `npos`, to which the delimiter's length 1
-- is added: both texts are the whole line.
unfoldable pub parse_line : List ℕ → List ℕ × List ℕ
parse_line line = elim (split_at (codes " = ") line) [
  | some (token1, token2) ↦ (token1, token2)
  | none ↦ elim (split_at (codes "=") line) [
    | some (token1, token2) ↦ (token1, token2)
    | none ↦ (line, line)
  ]
]

-- The `while` loop of `ReadIni`.
unfoldable pub read_lines : List (List ℕ) → Table → Table
unfolding parse_line assign
read_lines [] t = t
read_lines (line ∷ lines) t =
    let (token1, token2) = parse_line line in read_lines lines (assign token1 token2 t)

unfoldable pub contain : List ℕ → Table → Bool
unfolding value_of
contain name t = elim (value_of name t) [ none ↦ false | some v ↦ true ]

-- The text of a name, for the functions that throw if it is missing.
abbrev pub get : List ℕ → Table → Result (List ℕ)
get name t = elim (value_of name t) [ none ↦ err not_exist | some v ↦ ok v ]

-- The first byte of an empty text is 0.
abbrev pub first_byte : List ℕ → ℕ
first_byte [] = 0
first_byte (a ∷ s) = a

unfoldable pub get_bool : List ℕ → Table → Result Bool
get_bool name t = do v ← get name t; ok (first_byte v == b't' || first_byte v == b'T')

unfoldable pub get_string : List ℕ → Table → Result (List ℕ)
get_string name t = do
  v ← get name t
  elim (split_at (b'"' ∷ []) v) [ none ↦ ok v | some p ↦ ok (take (length v - 2) (drop 1 v)) ]

unfoldable pub get_int : List ℕ → Table → Result ℕ
get_int name t = do v ← get name t; stoi v

unfoldable pub get_uint64 : List ℕ → Table → Result ℕ
get_uint64 name t = do v ← get name t; stoull v

-- The members and globals that `ParseIni` sets.
pub record Ini (F : Type 0) : Type 0 where
  pub gbsize : ℕ
  pub xbsize : ℕ
  pub tot_acc : ℕ
  pub max_dram : ℕ
  pub cache_line_byte : ℕ
  pub cache_line_count : ℕ
  pub unit_byte : ℕ
  pub x_start : ℕ
  pub a_row_start : ℕ
  pub a_col_start : ℕ
  pub weight_start : ℕ
  pub xw_start : ℕ
  pub axw_start : ℕ
  pub systolic_dim : ℕ
  pub cache_repl_algo : ℕ
  pub division_type : ℕ
  pub mecha_type : ℕ
  pub unit_w_read : ℕ
  pub bloom_filter_num : ℕ
  pub bf_ratio : F
  pub bf_overlap : ℕ
  pub cache_way_n : ℕ
  pub mem_type : List ℕ

module _ {F : Type 0} (stof : List ℕ → Result F) where
  unfoldable pub get_float : List ℕ → Table → Result F
  get_float name t = do v ← get name t; stof v

  -- `CacheLineCount` is not 0: the program divides by it.
  unfoldable pub parse_ini : Table → Result (Ini F)
  parse_ini t = do
    gbsize ← get_uint64 (codes "GlobalBufferSize") t
    xbsize ← get_uint64 (codes "XBufferSize") t
    tot_acc ← get_uint64 (codes "TotalNumOfAcc") t
    max_dram ← get_int (codes "TotalNumOfDRAM") t
    cache_line_byte ← get_uint64 (codes "CacheLineByte") t
    cache_line_count ← get_uint64 (codes "CacheLineCount") t
    x_start ← get_uint64 (codes "XStartAddress") t
    a_row_start ← get_uint64 (codes "ARowStartAddress") t
    a_col_start ← get_uint64 (codes "AColStartAddress") t
    weight_start ← get_uint64 (codes "WeightStartAddress") t
    xw_start ← get_uint64 (codes "XWResultStartAddress") t
    axw_start ← get_uint64 (codes "AXWResultStartAddress") t
    systolic_dim ← get_int (codes "SystolicDimension") t
    cache_repl_algo ← get_uint64 (codes "CacheReplacementAlgo") t
    division_type ← get_int (codes "CSRDivisionType") t
    mecha_type ← get_int (codes "MechanismType") t
    unit_w_read ← get_int (codes "UnitWeightReadBlock") t
    bloom_filter_num ← get_uint64 (codes "BloomFilterNum") t
    bf_ratio ← get_float (codes "BloomFilterRatio") t
    bf_overlap ← get_uint64 (codes "BloomFilterOverlap") t
    cache_way_n ← get_uint64 (codes "CacheWayN") t
    mem_type ← get_string (codes "MemoryType") t
    ok (record {
      gbsize = gbsize;
      xbsize = xbsize;
      tot_acc = tot_acc;
      max_dram = max_dram;
      cache_line_byte = cache_line_byte;
      cache_line_count = cache_line_count;
      unit_byte = cache_line_byte / cache_line_count;
      x_start = x_start;
      a_row_start = a_row_start;
      a_col_start = a_col_start;
      weight_start = weight_start;
      xw_start = xw_start;
      axw_start = axw_start;
      systolic_dim = systolic_dim;
      cache_repl_algo = cache_repl_algo;
      division_type = division_type;
      mecha_type = mecha_type;
      unit_w_read = unit_w_read;
      bloom_filter_num = bloom_filter_num;
      bf_ratio = bf_ratio;
      bf_overlap = bf_overlap;
      cache_way_n = cache_way_n;
      mem_type = mem_type;
    })

  -- `ReadIni`, on a file that opens.
  unfoldable pub read_ini : List (List ℕ) → Result (Ini F)
  unfolding read_lines parse_ini
  read_ini lines = parse_ini (read_lines lines [])
