-- ===== src/VertexReader.antt =====
-- VertexReader.cpp: row pointers come in by cache lines and go out one by one, each block of
-- `max_v` rows `w_fold` times.
-- The globals `v_cache`, `vertex_req_count` and `f_flag` stand beside the members; `requests` holds
-- the calls of `DRAMRequest`, the latest last. Members that no method reads (`id`, `row_info`,
-- `pre_w_fold`) are left out. The `int` `x_repeat` stays below `w_fold`, which is below 2^31. Sizes and `cache_line_count` are positive.
pub mod Passes
pub mod Replay
pub mod Blocks
pub mod Fetch
use gcnsim_awb.Prelude.{
  ℕ, zero, suc, ◌+◌, ◌%◌, Bool, true, false, not, ◌&&◌, ◌||◌, ◌==◌, if◌then◌else◌, ltb, List, [],
  ◌∷◌, ◌++◌, Option, none, some, ◌>>=◌, pop_front, is_empty, get_elem?, length,
}
use gcnsim_awb.Prelude.Words.{add64, sub64, ceil_div}
use gcnsim_awb.Config.{Config, max_queue_size}
use gcnsim_awb.Dram.{Transaction}

-- `RCNT`.
pub record Rcnt : Type 0 where
  pub tot_read_cnt : ℕ
  pub pre_read_cnt : ℕ
  pub read_cnt_acm : ℕ

pub record VertexReader : Type 0 where
  pub req_need : Bool
  pub q_empty : Bool
  pub x_repeat : ℕ
  pub pre_row_archive : ℕ
  pub v_cache_idx : ℕ
  pub pop_count : ℕ
  pub q_space : ℕ
  pub offset : ℕ
  pub req_address : ℕ
  pub req_f_address : ℕ
  pub pre_row : ℕ
  pub tot_repeat : ℕ
  pub pre_repeat : ℕ
  pub req_stat : Rcnt
  pub vq : List ℕ
  pub v_cache : List ℕ
  pub vertex_req_count : List ℕ
  pub f_flag : Bool
  pub requests : List Transaction

-- The number that stands for no vertex.
abbrev pub no_vertex : ℕ
no_vertex = 9876543210

abbrev pub read_of : ℕ → Transaction
read_of a = record { address = a; is_write = false }

-- `x_repeat` is not initialised: its first value is whatever the memory held.
unfoldable pub vertex_reader : Config → ℕ → ℕ → List ℕ → Bool → Option VertexReader
vertex_reader c garbage offset counts f_flag = do
  (first, others) ← pop_front counts
  some (record {
    req_need = true;
    q_empty = true;
    x_repeat = garbage;
    pre_row_archive = 0;
    v_cache_idx = 0;
    pop_count = 0;
    q_space = 0;
    offset = offset;
    req_address = add64 c.a_row_start offset;
    req_f_address = c.xw_start;
    pre_row = 0;
    tot_repeat = ceil_div c.a_h c.max_v;
    pre_repeat = 0;
    req_stat = record {
      tot_read_cnt = ceil_div first c.cache_line_count;
      pre_read_cnt = 0;
      read_cnt_acm = 0;
    };
    vq = [];
    v_cache = [];
    vertex_req_count = others;
    f_flag = f_flag;
    requests = [];
  })

unfoldable pub request_f : Config → VertexReader → VertexReader
request_f c s = record s {
  requests = s.requests ++ read_of s.req_f_address ∷ [];
  req_f_address = add64 s.req_f_address c.cache_line_byte;
  f_flag = false;
}

-- The two tests on `pop_count` that both branches of `TransferData` make.
unfoldable pub count_pop : Config → VertexReader → VertexReader
count_pop c s =
    let s₁ =
      if (s.pop_count == sub64 c.cache_line_count 1) || (s.pre_row == sub64 c.a_h 1)
      then request_f c s
      else s in
    if (s₁.pop_count == c.cache_line_count) || (s₁.pre_row == sub64 c.a_h 1)
    then record s₁ { pop_count = 0 }
    else s₁

unfoldable pub want_more : Config → VertexReader → VertexReader
want_more c s =
    if ltb s.req_stat.pre_read_cnt s.req_stat.tot_read_cnt
      && ltb c.cache_line_count (sub64 max_queue_size s.q_space)
    then record s { req_need = true }
    else s

unfoldable pub end_first_pass : Config → VertexReader → VertexReader
end_first_pass c s =
    if (s.pre_row % c.max_v == 0) || (s.pre_row == c.a_h)
    then record s { pre_row = s.pre_row_archive; x_repeat = s.x_repeat + 1 }
    else s

-- The branch of `TransferData` for a first pass over a block.
unfoldable pub transfer_first : Config → VertexReader → Option (ℕ × VertexReader)
transfer_first c s = do
  (ret, rest) ← pop_front s.vq
  some (
    ret,
    end_first_pass c (
        want_more c (
          count_pop c (record s {
            pre_row = s.pre_row + 1;
            v_cache = s.v_cache ++ ret ∷ [];
            vq = rest;
            q_space = sub64 s.q_space 1;
            pop_count = s.pop_count + 1;
          }))),
  )

-- The end of the last pass over a block. There is a fault if no count is left.
unfoldable pub next_block : Config → VertexReader → Option VertexReader
next_block c s = do
  (first, others) ← pop_front s.vertex_req_count
  some (record s {
    q_empty = true;
    pre_row_archive = s.pre_row;
    v_cache_idx = 0;
    v_cache = [];
    x_repeat = 0;
    req_stat = record {
      tot_read_cnt = ceil_div first c.cache_line_count;
      pre_read_cnt = 0;
      read_cnt_acm = s.req_stat.read_cnt_acm;
    };
    vertex_req_count = others;
    req_need = not (s.pre_row == c.a_h);
  })

unfoldable pub end_replay : Config → VertexReader → Option VertexReader
end_replay c s =
    if (s.v_cache_idx == c.max_v) || (s.pre_row == c.a_h)
    then (if s.x_repeat == sub64 c.w_fold 1
        then next_block c s
        else some
            (record s { pre_row = s.pre_row_archive; x_repeat = s.x_repeat + 1; v_cache_idx = 0 }))
    else some s

-- The branch of `TransferData` for the passes after the first.
unfoldable pub transfer_replay : Config → VertexReader → Option (ℕ × VertexReader)
transfer_replay c s = do
  ret ← get_elem? s.v_cache s.v_cache_idx
  s' ← end_replay c (
      count_pop c (record s {
        pre_row = s.pre_row + 1;
        v_cache_idx = s.v_cache_idx + 1;
        pop_count = s.pop_count + 1;
      }))
  some (ret, s')

unfoldable pub transfer_data : Config → VertexReader → Option (ℕ × VertexReader)
transfer_data c s =
    if not (is_empty s.vq) && (s.x_repeat == 0)
    then transfer_first c s
    else if is_empty s.vq && ltb 0 s.x_repeat
    then transfer_replay c s
    else some (no_vertex, s)

unfoldable pub is_end_request : VertexReader → Bool
is_end_request s =
    (s.req_stat.pre_read_cnt == s.req_stat.tot_read_cnt) && ltb (s.pre_repeat + 1) s.tot_repeat

unfoldable pub is_end_operation : VertexReader → Bool
is_end_operation s =
    (s.req_stat.pre_read_cnt == s.req_stat.tot_read_cnt) && is_empty s.vertex_req_count

unfoldable pub basis_end_operation : VertexReader → Bool
basis_end_operation s = s.req_stat.pre_read_cnt == s.req_stat.tot_read_cnt

-- A chunk that begins with 0 loses it; the front of an empty chunk is a fault.
unfoldable pub receive_data : List ℕ → VertexReader → Option VertexReader
receive_data chunk s = do
  (front, rest) ← pop_front chunk
  some (record s {
    vq = s.vq ++ (if front == 0 then rest else front ∷ rest);
    req_stat = record (s.req_stat) { read_cnt_acm = s.req_stat.read_cnt_acm + 1 };
    q_empty = false;
  })

unfoldable pub request : Config → VertexReader → VertexReader
request c s =
    let space = add64 s.q_space c.cache_line_count in
    record s {
      q_space = space;
      req_stat = record (s.req_stat) { pre_read_cnt = s.req_stat.pre_read_cnt + 1 };
      req_need =
          if ltb (sub64 max_queue_size space) c.cache_line_count
            || (s.req_stat.pre_read_cnt + 1 == s.req_stat.tot_read_cnt)
          then false
          else s.req_need;
      requests = s.requests ++ read_of s.req_address ∷ [];
      req_address = add64 s.req_address c.cache_line_byte;
    }

unfoldable pub reset_request_stat : Config → VertexReader → VertexReader
reset_request_stat c s = record s {
  req_stat = record (s.req_stat) { pre_read_cnt = 0 };
  req_address = add64 c.a_row_start s.offset;
  pre_repeat = s.pre_repeat + 1;
}

unfoldable pub turn_off_flag : VertexReader → VertexReader
turn_off_flag s = record s { req_need = false }
