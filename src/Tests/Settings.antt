-- ===== src/Tests/Settings.antt =====
-- IniParser.cpp, on the lines of configs/FP_16MB_16WAY_LRU.ini.
use gcnsim_awb.Prelude.{ℕ, ◌≡◌, refl, true, List, [], ◌∷◌, All, ◌^◌, ◌*◌, arith}
use gcnsim_awb.Text.{codes, same_text, split_at, stoull, stoi, ok}
use gcnsim_awb.Text.Search.{Avoids}
use gcnsim_awb.Text.Digits.{print}
use gcnsim_awb.IniParser.{
  Table, value_of, contain, read_lines, get_uint64, get_int, get_float, get_string, Ini, parse_ini,
}
use gcnsim_awb.IniParser.Lines.{
  IsAssignment, AreLines, no_lines, more_lines, spaced, close, last_value, read_lines-last,
  get_uint64-print,
}
use gcnsim_awb.IniParser.Names.{required, parse_ini-contain}

abbrev settings : List (List ℕ)
settings =
    codes "# GlobalBufferSize = 8388608"
    ∷ codes "GlobalBufferSize = 16777216"
    ∷ codes "XBufferSize = 16777216"
    ∷ codes "SystolicDimension = 128"
    ∷ codes "TotalNumOfAcc = 1"
    ∷ codes "TotalNumOfDRAM = 1"
    ∷ codes "CacheLineByte = 64"
    ∷ codes "CacheLineCount = 16"
    ∷ codes "CacheWayN = 16"
    ∷ codes "UnitWeightReadBlock = 1"
    ∷ codes "XStartAddress = 0x0000000000000000"
    ∷ codes "ARowStartAddress = 0x1000000000000000"
    ∷ codes "AColStartAddress = 0x2000000000000000"
    ∷ codes "WeightStartAddress = 0x3000000000000000"
    ∷ codes "XWResultStartAddress = 0x4000000000000000"
    ∷ codes "AXWResultStartAddress = 0x5000000000000000"
    ∷ codes "CacheReplacementAlgo = 1"
    ∷ codes "CSRDivisionType = 0"
    ∷ codes "MechanismType = 0"
    ∷ codes "MemoryType = DRAMsim3/configs/DDR4_8Gb_x4_2666_16bl.ini"
    ∷ codes "BloomFilterNum = 100"
    ∷ codes "BloomFilterRatio = 0.25"
    ∷ codes "BloomFilterOverlap = 50"
    ∷ []

abbrev table : Table
unfolding read_lines
table = read_lines settings []

-- A later line replaces an earlier one; both styles.
abbrev two_lines : List (List ℕ)
two_lines = codes "CacheWayN = 16" ∷ codes "CacheWayN=8" ∷ []

abbrev two_values : List (List ℕ × List ℕ)
two_values = (codes "CacheWayN", codes "16") ∷ (codes "CacheWayN", codes "8") ∷ []

no_equals : Avoids b'=' (codes "CacheWayN")
no_equals = ground arith

no_space : Avoids b' ' (codes "CacheWayN")
no_space = ground arith

first_line : IsAssignment (codes "CacheWayN") (codes "16") (codes "CacheWayN = 16")
first_line = spaced no_equals

second_line : IsAssignment (codes "CacheWayN") (codes "8") (codes "CacheWayN=8")
second_line = close no_equals no_space (ground arith)

two-AreLines : AreLines two_values two_lines
two-AreLines = more_lines first_line (more_lines second_line no_lines)

read_lines-last_example :
    value_of (codes "CacheWayN") (read_lines two_lines [])
    ≡ last_value (codes "CacheWayN") (value_of (codes "CacheWayN") []) two_values
read_lines-last_example = read_lines-last (codes "CacheWayN") [] two-AreLines

get_uint64-print_example : get_uint64 (codes "CacheWayN") (read_lines two_lines []) ≡ ok 8
unfolding same_text print
get_uint64-print_example =
    get_uint64-print (codes "CacheWayN") 8 two_values two_lines two-AreLines refl (omega arith)

abbrev values : Ini (List ℕ)
values = record {
  gbsize = 16777216;
  xbsize = 16777216;
  tot_acc = 1;
  max_dram = 1;
  cache_line_byte = 64;
  cache_line_count = 16;
  unit_byte = 4;
  x_start = 0;
  a_row_start = 1 * 2 ^ 60;
  a_col_start = 2 * 2 ^ 60;
  weight_start = 3 * 2 ^ 60;
  xw_start = 4 * 2 ^ 60;
  axw_start = 5 * 2 ^ 60;
  systolic_dim = 128;
  cache_repl_algo = 1;
  division_type = 0;
  mecha_type = 0;
  unit_w_read = 1;
  bloom_filter_num = 100;
  bf_ratio = codes "0.25";
  bf_overlap = 50;
  cache_way_n = 16;
  mem_type = codes "DRAMsim3/configs/DDR4_8Gb_x4_2666_16bl.ini";
}

parsed : parse_ini ok table ≡ ok values
unfolding table parse_ini get_uint64 value_of same_text split_at stoull get_int stoi get_float
    get_string
parsed = refl

parse_ini-contain_example : All (λ name. contain name table ≡ true) required
parse_ini-contain_example = parse_ini-contain ok table values parsed
