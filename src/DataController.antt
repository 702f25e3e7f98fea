-- ===== src/DataController.antt =====
-- DataController.cpp: which array an address lies in, and the row pointers and column indices that
-- each read of a cache line hands out.
-- The globals `v_limit` and `vertex_req_count_cnt` stand with the row pointers that they govern,
-- `e_limit` and `edge_req_count_cnt` with the column indices. The member `flag` is never read.
pub mod Delivery
pub mod Load
use gcnsim_awb.Prelude.{
  ℕ, zero, suc, Bool, true, false, ◌&&◌, if◌then◌else◌, ltb, leb, List, [], ◌∷◌, Option, none, some,
  ◌>>=◌, pop_front, is_empty,
}
use gcnsim_awb.Prelude.Words.{add64, sub64, int_of, rounds}
use gcnsim_awb.Config.{Config}

-- `enum Type`.
pub data DataType : Type 0 where
  x a_row a_col : DataType

-- `none`: no branch returns.
unfoldable pub return_data_type : Config → ℕ → Option DataType
return_data_type c address =
    if leb c.x_start address && ltb address c.a_row_start
    then some x
    else if leb c.a_row_start address && ltb address c.a_col_start
    then some a_row
    else if leb c.a_col_start address && ltb address c.weight_start
    then some a_col
    else none

-- A queue, with its copy for `RefillQueue`, the entries left of each block, and how many entries
-- of the first block are out.
pub record Stream : Type 0 where
  pub queue : List ℕ
  pub archive : List ℕ
  pub limit : ℕ
  pub req_count_cnt : List ℕ

pub record DataController : Type 0 where
  pub rows : Stream
  pub cols : Stream

-- The loop `ret.push(q.front()); q.pop();`.
unfoldable pub pop_many : ℕ → List ℕ → Option (List ℕ × List ℕ)
pop_many zero q = some ([], q)
pop_many (suc n) [] = none
pop_many (suc n) (v ∷ q) = do (ret, rest) ← pop_many n q; some (v ∷ ret, rest)

-- The body that `AdjRowDataReturn` and `AdjColDataReturn` share.
unfoldable pub next_chunk : ℕ → Stream → Option (List ℕ × Stream)
unfolding pop_many
next_chunk line s = do
  (first, others) ← pop_front s.req_count_cnt
  if leb first (add64 s.limit line)
      then (do
        (ret, rest) ← pop_many (rounds (int_of (sub64 first s.limit))) s.queue
        some (ret, record s { queue = rest; limit = 0; req_count_cnt = others }))
      else (do
        (ret, rest) ← pop_many (rounds (int_of line)) s.queue
        some (ret, record s { queue = rest; limit = add64 s.limit line }))

unfoldable pub adj_row_data_return : Config → DataController → Option (List ℕ × DataController)
unfolding next_chunk
adj_row_data_return c d = do
  (ret, s) ← next_chunk c.cache_line_count d.rows
  some (ret, record d { rows = s })

unfoldable pub adj_col_data_return : Config → DataController → Option (List ℕ × DataController)
unfolding next_chunk
adj_col_data_return c d = do
  (ret, s) ← next_chunk c.cache_line_count d.cols
  some (ret, record d { cols = s })

unfoldable pub need_refill : DataType → DataController → Option Bool
need_refill x d = none
need_refill a_row d = some (is_empty d.rows.queue)
need_refill a_col d = some (is_empty d.cols.queue)

abbrev pub refill : Stream → Stream
refill s = record s { queue = s.archive }

unfoldable pub refill_queue : DataType → DataController → DataController
refill_queue x d = d
refill_queue a_row d = record d { rows = refill d.rows }
refill_queue a_col d = record d { cols = refill d.cols }

-- The constructor, over the counts that `DataReader` left. The limits are globals, and start at 0.
unfoldable pub data_controller : List ℕ → List ℕ → List ℕ → List ℕ → DataController
data_controller adjrowindex adjcolindex vertex_counts edge_counts = record {
  rows = record {
    queue = adjrowindex;
    archive = adjrowindex;
    limit = 0;
    req_count_cnt = vertex_counts;
  };
  cols = record {
    queue = adjcolindex;
    archive = adjcolindex;
    limit = 0;
    req_count_cnt = edge_counts;
  };
}
