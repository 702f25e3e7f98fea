-- ===== src/Tests/Tools.antt =====
-- XWReader.cpp, BasisEdgeReader.cpp and CSR_converter/vtmake.cpp.
use gcnsim_awb.Prelude.{
  ℕ, ◌+◌, ◌*◌, ◌≡◌, refl, true, false, List, [], ◌∷◌, some, length, get_elem?, arith,
}
use gcnsim_awb.Prelude.Floats.{float_ceil_div}
use gcnsim_awb.EdgeReader.{ErData}
use gcnsim_awb.XwReader.{XwReader, xw_reader, request, receive_data}
use gcnsim_awb.XwReader.Queues.{Reach, here, received, requested, IsHeld, Reach-IsHeld}
use gcnsim_awb.BasisEdgeReader.{BasisEdgeReader}
use gcnsim_awb.BasisEdgeReader.Sending.{transfers, sent, IsSending, IsRowEnd}
use gcnsim_awb.BasisEdgeReader.Row.{transfers-sent}
use gcnsim_awb.Distributer.Rejoin.{join, pointers}
use gcnsim_awb.Vtmake.{width, vtmake, sums, entries}
use gcnsim_awb.Vtmake.Rows.{in_tile}
use gcnsim_awb.Vtmake.Tiles.{vtmake-in_tile}
use gcnsim_awb.Tests.Input.{cfg}

abbrev edge : ErData
edge = record {
  rowindex = 1;
  colindex = 2;
  address = 4000;
  pre_w_fold = 0;
  pre_w_fold_start = 0;
  pre_repeat = 0;
  is_end = false;
}

abbrev one_in : XwReader
one_in = record (xw_reader cfg 5) {
  q_empty = false;
  q_space = 2;
  xwq = edge ∷ [];
  xwq_archive = edge ∷ [];
}

abbrev asked : XwReader
asked = record one_in { xwq = []; req_cnt = 1; q_empty = true }

one_in-Reach : Reach cfg 5 (edge ∷ []) [] [] one_in
unfolding xw_reader receive_data
one_in-Reach = received edge here refl

asked-Reach : Reach cfg 5 (edge ∷ []) (edge ∷ []) [] asked
unfolding xw_reader request
asked-Reach = requested one_in-Reach refl

Reach-IsHeld_example : IsHeld (edge ∷ []) (edge ∷ []) [] asked
Reach-IsHeld_example = Reach-IsHeld cfg 5 asked-Reach

abbrev pub graph : List (List ℕ)
graph = (3 ∷ 0 ∷ []) ∷ [] ∷ (1 ∷ 2 ∷ []) ∷ (0 ∷ []) ∷ []

-- Two tiles: the columns 0 and 1, and the columns 2 and 3.
two_tiles :
    vtmake 4 2 (0 ∷ pointers 0 graph) (join graph)
    ≡ some (0 ∷ 1 ∷ 1 ∷ 2 ∷ 3 ∷ 4 ∷ 4 ∷ 5 ∷ 5 ∷ [], 0 ∷ 1 ∷ 0 ∷ 3 ∷ 2 ∷ [])
unfolding vtmake float_ceil_div
two_tiles = refl

vtmake-in_tile_example :
    (tiles : List (List ℕ)) × (vtmake (length graph) 2 (0 ∷ pointers 0 graph) (join graph)
      ≡ some (0 ∷ sums 0 tiles, entries tiles))
    × (length tiles ≡ length graph * 2)
    × (get_elem? tiles (2 + length graph * 1)
        ≡ some (in_tile (width (length graph) 2) 1 (1 ∷ 2 ∷ [])))
vtmake-in_tile_example =
    vtmake-in_tile 2 graph 2 1 (1 ∷ 2 ∷ []) (omega arith) (omega arith) (omega arith) (omega arith)
      (ground arith) refl (omega arith)

-- A row with the columns 0 and 1, and the column 2 of the next row behind them.
abbrev row_waiting : BasisEdgeReader
row_waiting = record {
  pre_w_fold = 0;
  can_receive = false;
  req_need = false;
  q_empty = false;
  q_space = 4;
  pre_w_fold_start = 0;
  req_address = 2032;
  pre_row = 0;
  cur_v = 2;
  prev_v = 0;
  remain_col_num = 2;
  col_num_archive = 2;
  req_stat = record { tot_read_cnt = 3; pre_read_cnt = 2; read_cnt_acm = 2 };
  row_end = 3;
  eq = 0 ∷ 1 ∷ 2 ∷ [];
  ev = [];
  tot_axw_count = 8;
  requests = [];
}

row_waiting-IsSending : IsSending [] (0 ∷ 1 ∷ []) (2 ∷ []) 0 0 row_waiting
row_waiting-IsSending = record {
  fold = refl;
  kept = refl;
  waiting = refl;
  left = refl;
  all = refl;
  row_same = refl;
  start_same = refl;
}

transfers-sent_example :
    (t : BasisEdgeReader) × (transfers cfg (2 * cfg.w_fold) row_waiting
      ≡ some (sent cfg 0 0 (0 ∷ 1 ∷ []), t))
    × IsRowEnd (2 ∷ []) t
transfers-sent_example =
    transfers-sent cfg (2 ∷ []) 0 0 (omega arith) [] 0 (1 ∷ []) row_waiting (omega arith)
      row_waiting-IsSending (omega arith)
