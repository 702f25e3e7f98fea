-- ===== src/Tests/Readers.antt =====
-- VertexReader.cpp and EdgeReader.cpp.
use gcnsim_awb.Prelude.{
  Option, ◌>>=◌, ◌≡◌, refl, inl, inr, true, false, not, ◌==◌, ltb, [], ◌∷◌, ◌++◌, none, some,
  replicate, arith,
}
use gcnsim_awb.Prelude.Words.{ceil_div}
use gcnsim_awb.VertexReader.{VertexReader, read_of}
use gcnsim_awb.VertexReader.Passes.{transfers, IsBlock, IsFirst}
use gcnsim_awb.VertexReader.Blocks.{copies, calls, transfers-copies, transfers-fault}
use gcnsim_awb.VertexReader.Fetch
use gcnsim_awb.VertexReader.Fetch.{lines, fetches_lem}
use gcnsim_awb.EdgeReader.Transfer
use gcnsim_awb.EdgeReader.{
  ErData, want_more, EdgeReader, edge_reader, receive_vertex, outer_product, request,
  is_end_operation, is_pass_end,
}
use gcnsim_awb.EdgeReader.Rows.{remains, differences, remains_lem, remains_lost}
use gcnsim_awb.EdgeReader.Consume.{products, IsCached, products-IsCached, products-fault}
use gcnsim_awb.EdgeReader.Fetch as EdgeFetch
use gcnsim_awb.EdgeReader.Fetch.{fetches-over}
use gcnsim_awb.Config.{Config}
use gcnsim_awb.EdgeReader
use gcnsim_awb.Tests.Input.{cfg, cols}

-- The reader of the row pointers after the first block's pointers came in.
abbrev vertices : VertexReader
vertices = record {
  req_need = false;
  q_empty = false;
  x_repeat = 0;
  pre_row_archive = 0;
  v_cache_idx = 0;
  pop_count = 0;
  q_space = 2;
  offset = 0;
  req_address = 1016;
  req_f_address = 4000;
  pre_row = 0;
  tot_repeat = 2;
  pre_repeat = 0;
  req_stat = record { tot_read_cnt = 2; pre_read_cnt = 1; read_cnt_acm = 1 };
  vq = 2 ∷ 3 ∷ [];
  v_cache = [];
  vertex_req_count = 1 ∷ [];
  f_flag = false;
  requests = [];
}

abbrev last_vertices : VertexReader
last_vertices = record vertices { vertex_req_count = [] }

first-IsBlock : IsBlock cfg 0 2
first-IsBlock = record {
  aligned = refl;
  some_rows = omega arith;
  fits = omega arith;
  in_matrix = omega arith;
  full = inl refl;
}

vertices-IsFirst : IsFirst 0 [] (2 ∷ 3 ∷ []) (1 ∷ []) vertices
vertices-IsFirst = record {
  pass = refl;
  waiting = refl;
  kept = refl;
  start = refl;
  row = refl;
  cursor = refl;
  counts_left = refl;
}

last_vertices-IsFirst : IsFirst 0 [] (2 ∷ 3 ∷ []) [] last_vertices
last_vertices-IsFirst = record {
  pass = refl;
  waiting = refl;
  kept = refl;
  start = refl;
  row = refl;
  cursor = refl;
  counts_left = refl;
}

both_passes : copies 2 (2 ∷ 3 ∷ []) ≡ 2 ∷ 3 ∷ 2 ∷ 3 ∷ []
both_passes = refl

transfers-copies_example :
    (t : VertexReader) × (transfers cfg (calls 2 2) vertices ≡ some (copies 2 (2 ∷ 3 ∷ []), t))
    × IsFirst 2 [] [] [] t
    × (t.req_stat.tot_read_cnt ≡ ceil_div 1 2)
    × (t.req_stat.pre_read_cnt ≡ 0)
    × (t.req_need ≡ not (2 == 3))
    × (t.q_empty ≡ true)
transfers-copies_example =
    transfers-copies cfg (omega arith) 0 2 1 (3 ∷ []) [] vertices (omega arith) first-IsBlock
      vertices-IsFirst

transfers-fault_example : transfers cfg (calls 2 2) last_vertices ≡ none
transfers-fault_example =
    transfers-fault cfg (omega arith) 0 2 (3 ∷ []) last_vertices (omega arith) first-IsBlock
      last_vertices-IsFirst

fetches_lem_example :
    let t = Fetch.fetches cfg 1 (record vertices { req_need = true }) in
    (t.requests ≡ [] ++ lines 16 1016 1) × (t.req_stat.pre_read_cnt ≡ 2) × (t.req_need ≡ ltb 2 2)
fetches_lem_example =
    fetches_lem cfg 1 (record vertices { req_need = true }) (omega arith) (omega arith) refl
      (omega arith)

-- The reader of the column indices with the first row's pointer and its edges in.
abbrev edges : EdgeReader
edges = record {
  pre_w_fold = 0;
  can_receive = false;
  req_need = true;
  q_empty = false;
  x_repeat = 0;
  e_cache_idx = 0;
  pre_row_archive = 0;
  write_count = 2;
  do_write = true;
  transfer_cnt = 0;
  pre_w_fold_start = 0;
  a_col_size = 5;
  q_space = 2;
  offset = 0;
  req_address = 2032;
  write_address = 5000;
  pre_row = 1;
  row_end = 0;
  tot_req_repeat = 2;
  pre_repeat = 0;
  pre_req_repeat = 0;
  cur_v = 2;
  prev_v = 0;
  remain_col_num = 2;
  col_num_archive = 2;
  req_stat = record { tot_read_cnt = 2; pre_read_cnt = 2; read_cnt_acm = 2 };
  eq = 0 ∷ 1 ∷ 2 ∷ [];
  ev = [];
  e_cache = [];
  edge_req_count = 2 ∷ [];
  last_v = 0;
  v_arch = 2;
  block_cnt = 0;
  requests = [];
}

-- All three rows in one block.
abbrev one_block : Config
one_block = record cfg { max_v = 3 }

-- A reader from its constructor on: it asks for its three lines, which come in; then the first pass, and
-- the second one up to the last row pointer.
unfoldable up_to_last_row : Option EdgeReader
up_to_last_row = do
  s ← edge_reader one_block 0 0 5 0 (5 ∷ [])
  let asked = request one_block (request one_block (request one_block s))
  let filled =
      EdgeReader.receive_data (1 ∷ [])
        (EdgeReader.receive_data (2 ∷ 0 ∷ []) (EdgeReader.receive_data (0 ∷ 1 ∷ []) asked))
  s₁ ← products one_block 2 (receive_vertex one_block 2 filled)
  s₂ ← products one_block 1 (receive_vertex one_block 3 s₁)
  s₃ ← products one_block 2 (receive_vertex one_block 5 s₂)
  s₄ ← products one_block 2 (receive_vertex one_block 2 s₃)
  s₅ ← products one_block 1 (receive_vertex one_block 3 s₄)
  some (receive_vertex one_block 5 s₅)

-- Where that leads to: the last row of the last pass.
abbrev last_row : EdgeReader
last_row = record {
  pre_w_fold = 0;
  can_receive = false;
  req_need = false;
  q_empty = false;
  x_repeat = 1;
  e_cache_idx = 3;
  pre_row_archive = 0;
  write_count = 2;
  do_write = true;
  transfer_cnt = 0;
  pre_w_fold_start = 0;
  a_col_size = 5;
  q_space = 1;
  offset = 0;
  req_address = 2048;
  write_address = 5000;
  pre_row = 3;
  row_end = 0;
  tot_req_repeat = 2;
  pre_repeat = 0;
  pre_req_repeat = 0;
  cur_v = 5;
  prev_v = 3;
  remain_col_num = 2;
  col_num_archive = 2;
  req_stat = record { tot_read_cnt = 3; pre_read_cnt = 3; read_cnt_acm = 3 };
  eq = [];
  ev = [];
  e_cache = cols;
  edge_req_count = [];
  last_v = 0;
  v_arch = 5;
  block_cnt = 0;
  requests = read_of 2000 ∷ read_of 2016 ∷ read_of 2032 ∷ [];
}

reached : up_to_last_row ≡ some last_row
unfolding up_to_last_row edge_reader receive_vertex products outer_product EdgeReader.receive_data
    EdgeReader.outer_first EdgeReader.end_first_row want_more is_pass_end EdgeReader.outer_replay
    EdgeReader.end_replay_row request
reached = refl

-- The second pass over rows of which only the first has edges.
abbrev again : EdgeReader
again = record edges { cur_v = 2; last_v = 0 }

remains_lem_example : remains cfg (1 ∷ 3 ∷ 3 ∷ []) edges ≡ differences 0 (1 ∷ 3 ∷ 3 ∷ [])
remains_lem_example =
    remains_lem cfg 1 (3 ∷ 3 ∷ []) edges
      (omega arith, omega arith, (omega arith, omega arith, (omega arith, omega arith, tt)))
      (inr (omega arith))

remains_lost_example : remains cfg (replicate 3 2) again ≡ replicate 3 0
remains_lost_example = remains_lost cfg 3 2 again refl (omega arith)

products-IsCached_example :
    (t : EdgeReader) × (products cfg 2 edges ≡ some t) × IsCached cfg (0 ∷ 1 ∷ []) (2 ∷ []) edges t
products-IsCached_example =
    products-IsCached cfg (1 ∷ []) 0 (2 ∷ []) edges refl refl (omega arith) refl

products-fault_example :
    (t : EdgeReader) × (products one_block 1 last_row ≡ some t)
    × (t.e_cache_idx ≡ 4)
    × (t.remain_col_num ≡ 1)
    × (products one_block 2 last_row ≡ none)
unfolding is_pass_end
products-fault_example =
    products-fault one_block 1 last_row (omega arith) (omega arith) refl refl (omega arith) refl
      (omega arith) refl

fetches-over_example :
    ((EdgeFetch.fetches cfg 3 edges).req_need ≡ true)
    × (is_end_operation (EdgeFetch.fetches cfg 3 edges) ≡ false)
fetches-over_example = fetches-over cfg 2 edges (omega arith) (omega arith)

abbrev first_data : ErData
first_data = record {
  rowindex = 1;
  colindex = 0;
  address = 4000;
  pre_w_fold = 0;
  pre_w_fold_start = 0;
  pre_repeat = 0;
  is_end = false;
}

-- With one fold in a round, one call is enough for a column.
one_sent :
    Transfer.transfer_data cfg edges
    ≡ some (
      first_data,
      record edges { transfer_cnt = 1; remain_col_num = 1; eq = 1 ∷ 2 ∷ []; ev = 0 ∷ [] },
    )
unfolding Transfer.transfer_data want_more
one_sent = refl
