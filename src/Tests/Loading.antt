-- ===== src/Tests/Loading.antt =====
-- DataReader.cpp and DataController.cpp.
use gcnsim_awb.Prelude.{◌≡◌, refl, [], ◌∷◌, some, repeat_calls, arith}
use gcnsim_awb.DataReader.{GraphData, read_data}
use gcnsim_awb.DataReader.Blocks.{IsParsed, read_data-IsParsed}
use gcnsim_awb.DataController.{
  DataController, adj_row_data_return, adj_col_data_return, data_controller,
}
use gcnsim_awb.DataController.Delivery.{reads}
use gcnsim_awb.DataController.Load.{controller_of, load_rows-delivers, load_cols-delivers}
use gcnsim_awb.Tests.Input.{cfg, rows, cols}

abbrev graph : GraphData
graph = record {
  adjrowindex = rows;
  adjcolindex = cols;
  edge_req_count = 3 ∷ 2 ∷ [];
  edge_req_count_cnt = 3 ∷ 2 ∷ [];
  vertex_req_count = 3 ∷ 1 ∷ [];
  vertex_req_count_cnt = 3 ∷ 1 ∷ [];
  tot_axw_count = 8;
}

read_graph : read_data (λ n. n) cfg rows cols ≡ some graph
unfolding read_data
read_graph = refl

first_line :
    repeat_calls (adj_row_data_return cfg) 2 (controller_of graph)
    ≡ some (
      0 ∷ 2 ∷ 3 ∷ [],
      record (controller_of graph) {
        rows = record { queue = 5 ∷ []; archive = rows; limit = 0; req_count_cnt = 1 ∷ [] };
      },
    )
unfolding repeat_calls adj_row_data_return data_controller
first_line = refl

read_data-IsParsed_example :
    (g : GraphData) × (read_data (λ n. n) cfg rows cols ≡ some g) × IsParsed (λ n. n) rows cols 5 g
read_data-IsParsed_example =
    read_data-IsParsed cfg (λ n. n) 0 2 (3 ∷ 5 ∷ []) 0 (1 ∷ 2 ∷ 0 ∷ 1 ∷ []) (omega arith)
      (omega arith) (omega arith)

load_rows-delivers_example :
    (g : GraphData) × (read_data (λ n. n) cfg rows cols ≡ some g)
    × (g.adjrowindex ≡ rows)
    × (g.adjcolindex ≡ cols)
    × ((d : DataController) × (repeat_calls
            (adj_row_data_return cfg)
            (reads 2 g.vertex_req_count)
            (controller_of g)
          ≡ some (g.adjrowindex, d)))
load_rows-delivers_example =
    load_rows-delivers cfg (omega arith) (omega arith) (λ n. n) 0 2 (3 ∷ 5 ∷ []) 0
      (1 ∷ 2 ∷ 0 ∷ 1 ∷ []) (omega arith) (omega arith) (omega arith) (omega arith)

load_cols-delivers_example :
    (d : DataController) × (repeat_calls
        (adj_col_data_return cfg)
        (reads 2 (3 ∷ 2 ∷ []))
        (controller_of graph)
      ≡ some (cols, d))
load_cols-delivers_example =
    load_cols-delivers cfg (omega arith) (omega arith) (λ n. n) 0 2 (3 ∷ 5 ∷ []) 0
      (1 ∷ 2 ∷ 0 ∷ 1 ∷ []) (omega arith) (omega arith) (omega arith) {g = graph} (omega arith)
      (omega arith) read_graph (omega arith)
