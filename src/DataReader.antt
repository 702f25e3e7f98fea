-- ===== src/DataReader.antt =====
-- DataReader.cpp: the two lines of the graph file, read into row pointers and column indices, and
-- the numbers of vertices and edges of each block of `max_v` rows.
-- A line is the list of its numbers. `via_float` is what `stof` makes of the first one. With `max_v` 0
-- the program divides by 0 on the row pointers, and the model faults.
pub mod Blocks
use gcnsim_awb.Prelude.{
  ℕ, ◌+◌, ◌*◌, ◌%◌, Bool, true, false, ◌&&◌, ◌||◌, ◌==◌, if◌then◌else◌, List, [], ◌∷◌, ◌++◌, Option,
  none, some, ◌>>=◌, length,
}
use gcnsim_awb.Prelude.Words.{sub64, ceil_div}
use gcnsim_awb.Config.{Config}

-- The locals of `GetUint64Val` and the globals that it appends to.
pub record Parsing : Type 0 where
  pub start_v : ℕ
  pub parse_count : ℕ
  pub v_count : ℕ
  pub internal : List ℕ
  pub edge_req_count : List ℕ
  pub vertex_req_count : List ℕ

-- Only the row pointers are divided by `max_v`.
unfoldable pub is_block_end : Config → Bool → ℕ → Option Bool
is_block_end c false parse_count = some false
is_block_end c true parse_count =
    if c.max_v == 0 then none else some ((parse_count % c.max_v == 0) || (parse_count == c.a_h))

-- What a round does with the number `t`, at the end of a block and elsewhere.
unfoldable pub push_token : Bool → Parsing → ℕ → Parsing
push_token true s t = record {
  start_v = t;
  parse_count = s.parse_count + 1;
  v_count = 0;
  internal = s.internal ++ t ∷ [];
  edge_req_count = s.edge_req_count ++ sub64 t s.start_v ∷ [];
  vertex_req_count = s.vertex_req_count ++ (s.v_count + 1) ∷ [];
}
push_token false s t = record s {
  parse_count = s.parse_count + 1;
  v_count = s.v_count + 1;
  internal = s.internal ++ t ∷ [];
}

-- One round of the `while` loop, for the number `t`.
unfoldable pub parse_token : Config → Bool → Parsing → ℕ → Option Parsing
unfolding is_block_end push_token
parse_token c is_vertex s t = do
  at_end ← is_block_end c is_vertex (s.parse_count + 1)
  some (push_token at_end s t)

-- The `while` loop.
unfoldable pub parse_tokens : Config → Bool → Parsing → List ℕ → Option Parsing
unfolding parse_token
parse_tokens c is_vertex s [] = some s
parse_tokens c is_vertex s (t ∷ ts) = do
  s' ← parse_token c is_vertex s t
  parse_tokens c is_vertex s' ts

-- The state before the loop: the first number is taken by `stof`.
abbrev pub parse_start : (ℕ → ℕ) → ℕ → List ℕ → List ℕ → Parsing
parse_start via_float first edges vertices = record {
  start_v = 0;
  parse_count = 0;
  v_count = 1;
  internal = via_float first ∷ [];
  edge_req_count = edges;
  vertex_req_count = vertices;
}

-- An empty line leaves `stof` an empty text, and it throws.
unfoldable pub get_uint64_val : (ℕ → ℕ) → Config → Bool → List ℕ → List ℕ → List ℕ → Option Parsing
unfolding parse_tokens
get_uint64_val via_float c is_vertex edges vertices [] = none
get_uint64_val via_float c is_vertex edges vertices (first ∷ rest) =
    parse_tokens c is_vertex (parse_start via_float first edges vertices) rest

-- What `ReadData` leaves in the globals, from the two lines of the second file.
pub record GraphData : Type 0 where
  pub adjrowindex : List ℕ
  pub adjcolindex : List ℕ
  pub edge_req_count : List ℕ
  pub edge_req_count_cnt : List ℕ
  pub vertex_req_count : List ℕ
  pub vertex_req_count_cnt : List ℕ
  pub tot_axw_count : ℕ

unfoldable pub read_data : (ℕ → ℕ) → Config → List ℕ → List ℕ → Option GraphData
unfolding get_uint64_val
read_data via_float c rows cols = do
  r ← get_uint64_val via_float c true [] [] rows
  e ← get_uint64_val via_float c false r.edge_req_count r.vertex_req_count cols
  some (record {
    adjrowindex = r.internal;
    adjcolindex = e.internal;
    edge_req_count = e.edge_req_count;
    edge_req_count_cnt = r.edge_req_count;
    vertex_req_count = e.vertex_req_count;
    vertex_req_count_cnt = r.vertex_req_count;
    tot_axw_count = ceil_div c.a_h c.cache_line_count * c.w_w * length e.edge_req_count;
  })
