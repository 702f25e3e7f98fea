-- ===== src/EdgeReader/Transfer.antt =====
-- EdgeReader.cpp, `TransferData`: whose caller in the main loop is in a comment. The folds and counts, which
-- are `int`, stay below 2^31, and `UNIT_W_READ` is positive.
use gcnsim_awb.Prelude.{
  ℕ, ◌+◌, ◌*◌, ◌/◌, ◌%◌, ◌^◌, true, ◌&&◌, ◌==◌, if◌then◌else◌, ltb, [], ◌∷◌, ◌++◌, Option, some,
  ◌>>=◌, pop_front, is_empty, get_elem?, length,
}
use gcnsim_awb.Prelude.Words.{add64, sub64}
use gcnsim_awb.Config.{Config}
use gcnsim_awb.EdgeReader.{ErData, EdgeReader, want_more}

-- `start_w_fold`, and `limit_w_fold` after its clipping.
abbrev pub start_w_fold : Config → EdgeReader → ℕ
start_w_fold c s = s.pre_repeat * c.unit_w_read

abbrev pub limit_w_fold : Config → EdgeReader → ℕ
limit_w_fold c s =
    let limit = s.pre_repeat * c.unit_w_read + c.unit_w_read in
    if ltb c.w_fold limit then c.w_fold else limit

-- A column index that goes out for the first time in this round is taken out of the queue.
unfoldable pub pull : Config → EdgeReader → Option EdgeReader
pull c s =
    if s.pre_w_fold % c.unit_w_read == 0
    then (do (e, rest) ← pop_front s.eq; some (record s { ev = s.ev ++ e ∷ []; eq = rest }))
    else some s

-- After the last fold of the round for a column, and after the last column of the row.
unfoldable pub end_column : Config → EdgeReader → EdgeReader
end_column c s =
    if s.pre_w_fold == limit_w_fold c s
    then (if s.remain_col_num == 1
        then (let over = (s.pre_row == s.row_end) && (start_w_fold c s == c.w_fold) in
            record s {
              q_space = sub64 s.q_space (length s.ev);
              ev = [];
              pre_w_fold = start_w_fold c s;
              remain_col_num = 0;
              can_receive = if over then s.can_receive else true;
              q_empty = if over then true else s.q_empty;
            })
        else record s { pre_w_fold = start_w_fold c s; remain_col_num = sub64 s.remain_col_num 1 })
    else s

unfoldable pub note_empty : Config → EdgeReader → EdgeReader
note_empty c s = record s {
  q_empty = if (s.pre_w_fold == start_w_fold c s) && is_empty s.eq then true else s.q_empty;
}

-- After all columns have gone out in a round, the next round begins.
unfoldable pub end_round : Config → EdgeReader → EdgeReader
end_round c s =
    if s.transfer_cnt == (s.a_col_size * c.unit_w_read) % 2 ^ 64
    then (let start = (s.pre_repeat + 1) * c.unit_w_read in
        record s {
          pre_repeat = s.pre_repeat + 1;
          pre_w_fold = start;
          pre_w_fold_start = start;
          transfer_cnt = 0;
        })
    else s

-- The address of a column's features, for the folds of a round.
abbrev pub address_of : Config → EdgeReader → ℕ → ℕ
address_of c s col = add64 c.xw_start (
    ((c.x_h * s.pre_repeat * c.unit_w_read
        + col * c.unit_w_read
        + sub64 s.pre_w_fold s.pre_w_fold_start / c.cache_line_count)
      * c.cache_line_byte)
    % 2 ^ 64)

unfoldable pub transfer_data : Config → EdgeReader → Option (ErData × EdgeReader)
unfolding pull end_column note_empty end_round
transfer_data c s = do
  s₁ ← pull c (record s { transfer_cnt = s.transfer_cnt + 1 })
  col ← get_elem? s₁.ev (sub64 s₁.col_num_archive s₁.remain_col_num)
  let s₂ = want_more c s₁
  let s₃ = record s₂ { pre_w_fold = s₁.pre_w_fold + 1 }
  some (
    record {
      rowindex = s₁.pre_row;
      colindex = col;
      address = address_of c s₁ col;
      pre_w_fold = s₁.pre_w_fold / c.cache_line_count;
      pre_w_fold_start = s₁.pre_w_fold_start;
      pre_repeat = s₁.pre_repeat;
      is_end = s₁.remain_col_num == 1;
    },
    end_round c (note_empty c (end_column c s₃)),
  )
