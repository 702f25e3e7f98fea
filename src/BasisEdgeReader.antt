-- ===== src/BasisEdgeReader.antt =====
-- BasisEdgeReader.cpp: the edge reader without a cache, for the other mechanism. Each column index goes out
-- `w_fold` times. The global `tot_axw_count` stands beside the members; `requests` holds the calls of
-- `DRAMRequest`, the latest last. An `int` is its pattern; the counts of `req_stat` stay below 2^31.
-- Members that no method reads (`id`, `offset` after the constructor, `row_start`) are left out.
pub mod Sending
pub mod Row
use gcnsim_awb.Prelude.{
  ℕ, zero, suc, ◌+◌, ◌-◌, ◌*◌, ◌%◌, ◌^◌, Bool, true, false, not, ◌&&◌, ◌||◌, ◌==◌, if◌then◌else◌,
  ltb, List, [], ◌∷◌, ◌++◌, Option, some, none, ◌>>=◌, pop_front, is_empty, get_elem?, length,
}
use gcnsim_awb.Prelude.Words.{add64, sub64, int_of, u64_of_int, ceil_div}
use gcnsim_awb.Config.{Config, max_queue_size}
use gcnsim_awb.Dram.{Transaction}
use gcnsim_awb.VertexReader.{Rcnt, read_of}
use gcnsim_awb.EdgeReader.{ErData}

pub record BasisEdgeReader : Type 0 where
  pub pre_w_fold : ℕ
  pub can_receive : Bool
  pub req_need : Bool
  pub q_empty : Bool
  pub q_space : ℕ
  pub pre_w_fold_start : ℕ
  pub req_address : ℕ
  pub pre_row : ℕ
  pub cur_v : ℕ
  pub prev_v : ℕ
  pub remain_col_num : ℕ
  pub col_num_archive : ℕ
  pub req_stat : Rcnt
  pub row_end : ℕ
  pub eq : List ℕ
  pub ev : List ℕ
  pub tot_axw_count : ℕ
  pub requests : List Transaction

unfoldable pub basis_edge_reader : Config → ℕ → ℕ → ℕ → ℕ → ℕ → BasisEdgeReader
basis_edge_reader c offset a_col_size row_start row_end tot_axw_count = record {
  pre_w_fold = 0;
  can_receive = true;
  req_need = true;
  q_empty = true;
  q_space = 0;
  pre_w_fold_start = 0;
  req_address = add64 c.a_col_start offset;
  pre_row = int_of (sub64 row_start 1);
  cur_v = 0;
  prev_v = 0;
  remain_col_num = 0;
  col_num_archive = 0;
  req_stat = record {
    tot_read_cnt = ceil_div a_col_size c.cache_line_count;
    pre_read_cnt = 0;
    read_cnt_acm = 0;
  };
  row_end = row_end;
  eq = [];
  ev = [];
  tot_axw_count = tot_axw_count;
  requests = [];
}

-- The room left, in the type of `CACHE_LINE_COUNT`.
abbrev pub room : BasisEdgeReader → ℕ
room s = u64_of_int ((max_queue_size + 2 ^ 32 - s.q_space) % 2 ^ 32)

-- A column index that goes out for the first time is taken out of the queue.
unfoldable pub pull : BasisEdgeReader → Option BasisEdgeReader
pull s =
    if s.pre_w_fold == 0
    then (do (e, rest) ← pop_front s.eq; some (record s { ev = s.ev ++ e ∷ []; eq = rest }))
    else some s

unfoldable pub advance : Config → BasisEdgeReader → BasisEdgeReader
advance c s = record s {
  req_need =
      if ltb s.req_stat.pre_read_cnt s.req_stat.tot_read_cnt && ltb c.cache_line_count (room s)
      then true
      else s.req_need;
  pre_w_fold = (s.pre_w_fold + 1) % 2 ^ 32;
}

-- After the last time that a column index goes out, and after the last one of the row.
unfoldable pub end_column : Config → BasisEdgeReader → BasisEdgeReader
end_column c s =
    if u64_of_int s.pre_w_fold == c.w_fold
    then (if s.remain_col_num == 1
        then record s {
          q_space = (s.q_space + 2 ^ 32 - length s.ev % 2 ^ 32) % 2 ^ 32;
          ev = [];
          pre_w_fold = 0;
          remain_col_num = 0;
          can_receive = if u64_of_int s.pre_row == s.row_end then s.can_receive else true;
          q_empty = if u64_of_int s.pre_row == s.row_end then true else s.q_empty;
        }
        else record s { pre_w_fold = 0; remain_col_num = sub64 s.remain_col_num 1 })
    else s

unfoldable pub note_empty : BasisEdgeReader → BasisEdgeReader
note_empty s = record s { q_empty = if s.pre_w_fold == 0 && is_empty s.eq then true else s.q_empty }

-- What goes out for a column index.
abbrev pub data_of : Config → ℕ → ℕ → ℕ → ℕ → Bool → ErData
data_of c row col fold start last = record {
  rowindex = u64_of_int row;
  colindex = col;
  address =
      add64 c.xw_start (((col * c.w_fold + u64_of_int fold) % 2 ^ 64 * c.cache_line_byte) % 2 ^ 64);
  pre_w_fold = fold;
  pre_w_fold_start = start;
  pre_repeat = 0;
  is_end = last;
}

unfoldable pub transfer_data : Config → BasisEdgeReader → Option (ErData × BasisEdgeReader)
unfolding pull advance end_column note_empty
transfer_data c s = do
  s₁ ← pull s
  col ← get_elem? s₁.ev (sub64 s₁.col_num_archive s₁.remain_col_num)
  some (
    data_of c s₁.pre_row col s₁.pre_w_fold s₁.pre_w_fold_start (s₁.remain_col_num == 1),
    note_empty (end_column c (advance c s₁)),
  )

unfoldable pub is_end_operation : BasisEdgeReader → Bool
is_end_operation s = s.req_stat.pre_read_cnt == s.req_stat.tot_read_cnt

unfoldable pub is_end_colomn : BasisEdgeReader → Bool
is_end_colomn s = (s.req_stat.read_cnt_acm == s.req_stat.tot_read_cnt) && s.q_empty

unfoldable pub can_vertex_receive : BasisEdgeReader → Bool
can_vertex_receive s = s.can_receive

-- The overload that takes a chunk of column indices.
unfoldable pub receive_data : List ℕ → BasisEdgeReader → BasisEdgeReader
receive_data chunk s = record s {
  req_stat = record (s.req_stat) { read_cnt_acm = s.req_stat.read_cnt_acm + 1 };
  eq = s.eq ++ chunk;
  q_empty = false;
}

-- The overload that takes a row pointer. A row without edges is done at once.
unfoldable pub receive_vertex : Config → ℕ → BasisEdgeReader → BasisEdgeReader
receive_vertex c vertex s =
    let remain = sub64 vertex s.cur_v in
    record s {
      prev_v = s.cur_v;
      cur_v = vertex;
      remain_col_num = remain;
      col_num_archive = remain;
      pre_row = (s.pre_row + 1) % 2 ^ 32;
      can_receive = remain == 0;
      tot_axw_count = if remain == 0 then sub64 s.tot_axw_count c.w_fold else s.tot_axw_count;
    }

unfoldable pub request : Config → BasisEdgeReader → BasisEdgeReader
request c s =
    let s₁ = record s { q_space = (s.q_space + c.cache_line_count) % 2 ^ 32 } in
    record s₁ {
      req_stat = record (s.req_stat) { pre_read_cnt = s.req_stat.pre_read_cnt + 1 };
      req_need =
          if ltb (room s₁) c.cache_line_count
            || (s.req_stat.pre_read_cnt + 1 == s.req_stat.tot_read_cnt)
          then false
          else s.req_need;
      requests = s.requests ++ read_of s.req_address ∷ [];
      req_address = add64 s.req_address c.cache_line_byte;
    }

unfoldable pub turn_off_flag : BasisEdgeReader → BasisEdgeReader
turn_off_flag s = record s { req_need = false }
