-- ===== src/EdgeReader.antt =====
-- EdgeReader.cpp: column indices come in by cache lines and are consumed row by row, each block
-- `w_fold` times, and each finished pass is written out.
-- The globals `e_cache`, `edge_req_count`, `last_v`, `v_arch` and `block_cnt` stand beside the
-- members; `requests` holds the calls of `DRAMRequest`, the latest last. Members that no method reads
-- (`id`) are left out. Sizes and `cache_line_count` are positive.
pub mod Write
pub mod Rows
pub mod Consume
pub mod Fetch
pub mod Waiting
pub mod Transfer
use gcnsim_awb.Prelude.{
  ℕ, zero, suc, ◌+◌, ◌-◌, ◌*◌, ◌/◌, ◌%◌, ◌^◌, Bool, true, false, not, ◌&&◌, ◌||◌, ◌==◌,
  if◌then◌else◌, ltb, List, [], ◌∷◌, ◌++◌, Option, none, some, ◌>>=◌, pop_front, is_empty,
  get_elem?, length,
}
use gcnsim_awb.Prelude.Words.{add64, sub64, ceil_div}
use gcnsim_awb.Config.{Config, max_queue_size}
use gcnsim_awb.Dram.{Transaction}
use gcnsim_awb.VertexReader.{Rcnt, read_of, no_vertex}

-- `ERData`.
pub record ErData : Type 0 where
  pub rowindex : ℕ
  pub colindex : ℕ
  pub address : ℕ
  pub pre_w_fold : ℕ
  pub pre_w_fold_start : ℕ
  pub pre_repeat : ℕ
  pub is_end : Bool

pub record EdgeReader : Type 0 where
  pub pre_w_fold : ℕ
  pub can_receive : Bool
  pub req_need : Bool
  pub q_empty : Bool
  pub x_repeat : ℕ
  pub e_cache_idx : ℕ
  pub pre_row_archive : ℕ
  pub write_count : ℕ
  pub do_write : Bool
  pub transfer_cnt : ℕ
  pub pre_w_fold_start : ℕ
  pub a_col_size : ℕ
  pub q_space : ℕ
  pub offset : ℕ
  pub req_address : ℕ
  pub write_address : ℕ
  pub pre_row : ℕ
  pub row_end : ℕ
  pub tot_req_repeat : ℕ
  pub pre_repeat : ℕ
  pub pre_req_repeat : ℕ
  pub cur_v : ℕ
  pub prev_v : ℕ
  pub remain_col_num : ℕ
  pub col_num_archive : ℕ
  pub req_stat : Rcnt
  pub eq : List ℕ
  pub ev : List ℕ
  pub e_cache : List ℕ
  pub edge_req_count : List ℕ
  pub last_v : ℕ
  pub v_arch : ℕ
  pub block_cnt : ℕ
  pub requests : List Transaction

abbrev pub write_of : ℕ → Transaction
write_of a = record { address = a; is_write = true }

-- `x_repeat` and the global `v_arch` are not set: `garbage` is what the member's memory held, and a
-- global starts at 0.
unfoldable pub edge_reader : Config → ℕ → ℕ → ℕ → ℕ → List ℕ → Option EdgeReader
edge_reader c garbage offset a_col_size row_end counts = do
  (first, others) ← pop_front counts
  some (record {
    pre_w_fold = 0;
    can_receive = true;
    req_need = true;
    q_empty = true;
    x_repeat = garbage;
    e_cache_idx = 0;
    pre_row_archive = 0;
    write_count = ceil_div c.a_h c.cache_line_count;
    do_write = false;
    transfer_cnt = 0;
    pre_w_fold_start = 0;
    a_col_size = a_col_size;
    q_space = 0;
    offset = offset;
    req_address = add64 c.a_col_start offset;
    write_address = c.axw_start;
    pre_row = 0;
    row_end = row_end;
    tot_req_repeat = c.w_fold;
    pre_repeat = 0;
    pre_req_repeat = 0;
    cur_v = 0;
    prev_v = 0;
    remain_col_num = 0;
    col_num_archive = 0;
    req_stat = record {
      tot_read_cnt = ceil_div first c.cache_line_count;
      pre_read_cnt = 0;
      read_cnt_acm = 0;
    };
    eq = [];
    ev = [];
    e_cache = [];
    edge_req_count = others;
    last_v = 0;
    v_arch = 0;
    block_cnt = 0;
    requests = [];
  })

unfoldable pub want_more : Config → EdgeReader → EdgeReader
want_more c s =
    if ltb s.req_stat.pre_read_cnt s.req_stat.tot_read_cnt
      && ltb c.cache_line_count (sub64 max_queue_size s.q_space)
    then record s { req_need = true }
    else s

-- The test that ends a pass over a block.
unfoldable pub is_pass_end : Config → EdgeReader → Bool
is_pass_end c s = (s.pre_row % c.max_v == 0) || (s.pre_row == c.a_h)

-- The end of a row, in the first pass over a block.
unfoldable pub end_first_row : Config → EdgeReader → EdgeReader
end_first_row c s =
    if s.remain_col_num == 0
    then (if is_pass_end c s
        then record s {
          can_receive = true;
          pre_row = s.pre_row_archive;
          x_repeat = s.x_repeat + 1;
          do_write = true;
        }
        else record s { can_receive = true })
    else s

unfoldable pub outer_first : Config → EdgeReader → Option EdgeReader
outer_first c s = do
  (row, rest) ← pop_front s.eq
  let s₁ =
      want_more c
        (record s { eq = rest; e_cache = s.e_cache ++ row ∷ []; q_space = sub64 s.q_space 1 })
  some (end_first_row c (record s₁ { remain_col_num = sub64 s₁.remain_col_num 1 }))

-- The end of the last pass over a block. There is a fault if no count is left.
unfoldable pub next_block : Config → EdgeReader → Option EdgeReader
next_block c s = do
  (first, others) ← pop_front s.edge_req_count
  some (record s {
    block_cnt = s.block_cnt + 1;
    req_stat = record {
      tot_read_cnt = ceil_div first c.cache_line_count;
      pre_read_cnt = 0;
      read_cnt_acm = s.req_stat.read_cnt_acm;
    };
    edge_req_count = others;
    can_receive = not (s.pre_row == c.a_h);
    req_need = if s.pre_row == c.a_h then s.req_need else true;
    pre_row_archive = s.pre_row;
    last_v = s.v_arch;
    e_cache_idx = 0;
    e_cache = [];
    x_repeat = 0;
    do_write = true;
  })

-- The end of a row, in a pass after the first.
unfoldable pub end_replay_row : Config → EdgeReader → Option EdgeReader
end_replay_row c s =
    if s.remain_col_num == 0
    then (if s.x_repeat == sub64 c.w_fold 1
        then (if is_pass_end c s
            then next_block c (record s { can_receive = true })
            else some (record s { can_receive = true }))
        else if is_pass_end c s
        then some (record s {
          can_receive = true;
          pre_row = s.pre_row_archive;
          x_repeat = s.x_repeat + 1;
          e_cache_idx = 0;
          do_write = true;
        })
        else some (record s { can_receive = true }))
    else some s

unfoldable pub outer_replay : Config → EdgeReader → Option EdgeReader
outer_replay c s = do
  row ← get_elem? s.e_cache s.e_cache_idx
  end_replay_row c
      (record s { e_cache_idx = s.e_cache_idx + 1; remain_col_num = sub64 s.remain_col_num 1 })

unfoldable pub outer_product : Config → EdgeReader → Option EdgeReader
outer_product c s =
    if not (is_empty s.eq) && (not (s.remain_col_num == 0) && (s.x_repeat == 0))
    then outer_first c s
    else if ltb 0 s.x_repeat && not (s.remain_col_num == 0)
    then outer_replay c s
    else some s

-- `write_count` is an `int`.
unfoldable pub write : Config → EdgeReader → EdgeReader
write c s =
    if s.do_write
    then (let left = (s.write_count + 2 ^ 32 - 1) % 2 ^ 32 in
        let s₁ = record s {
          requests = s.requests ++ write_of s.write_address ∷ [];
          write_count = left;
        } in
        if left == 0
        then record s₁ { write_count = ceil_div c.a_h c.cache_line_count; do_write = false }
        else s₁)
    else s

unfoldable pub is_end_request : EdgeReader → Bool
is_end_request s =
    (s.req_stat.pre_read_cnt == s.req_stat.tot_read_cnt)
    && ltb (s.pre_req_repeat + 1) s.tot_req_repeat

unfoldable pub is_end_operation : EdgeReader → Bool
is_end_operation s =
    (s.req_stat.pre_read_cnt == s.req_stat.tot_read_cnt) && is_empty s.edge_req_count

unfoldable pub can_vertex_receive : EdgeReader → Bool
can_vertex_receive s = s.can_receive

-- The overload that takes a chunk of column indices.
unfoldable pub receive_data : List ℕ → EdgeReader → EdgeReader
receive_data chunk s = record s {
  req_stat = record (s.req_stat) { read_cnt_acm = s.req_stat.read_cnt_acm + 1 };
  eq = s.eq ++ chunk;
  q_empty = false;
}

-- The overload that takes a row pointer: the row's edges lie between the pointer before it and this
-- one, and a pointer that falls back starts the block again.
unfoldable pub receive_vertex : Config → ℕ → EdgeReader → EdgeReader
receive_vertex c vertex s =
    if ltb vertex no_vertex
    then (let prev = if ltb vertex s.cur_v then s.last_v else s.cur_v in
        let remain = sub64 vertex prev in
        let s₁ = record s {
          prev_v = prev;
          cur_v = vertex;
          remain_col_num = remain;
          col_num_archive = remain;
          can_receive = remain == 0;
          pre_row = s.pre_row + 1;
          v_arch = vertex;
        } in
        if (remain == 0) && (s₁.pre_row == c.a_h)
        then record s₁ { pre_row = 0; do_write = true }
        else s₁)
    else s

unfoldable pub request : Config → EdgeReader → EdgeReader
request c s =
    let space = add64 s.q_space c.cache_line_count in
    record s {
      q_space = space;
      req_stat = record (s.req_stat) { pre_read_cnt = s.req_stat.pre_read_cnt + 1 };
      req_need =
          if ltb (sub64 max_queue_size space) c.cache_line_count
            || (s.req_stat.pre_read_cnt + 1 == s.req_stat.tot_read_cnt)
          then false
          else s.req_need;
      requests = s.requests ++ read_of s.req_address ∷ [];
      req_address = add64 s.req_address c.cache_line_byte;
    }

unfoldable pub reset_request_stat : Config → EdgeReader → EdgeReader
reset_request_stat c s = record s {
  req_stat = record (s.req_stat) { pre_read_cnt = 0 };
  req_address = add64 c.a_col_start s.offset;
  pre_req_repeat = s.pre_req_repeat + 1;
}

unfoldable pub turn_off_flag : EdgeReader → EdgeReader
turn_off_flag s = record s { req_need = false }
