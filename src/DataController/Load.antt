-- ===== src/DataController/Load.antt =====
-- DataReader.cpp and DataController.cpp together.
use gcnsim_awb.Prelude.{
  ℕ, ◌+◌, ◌^◌, ◌<◌, ◌≡◌, List, [], ◌∷◌, some, length, sum, repeat_calls, All, ap, arith, sym,
}
use mathlib.Core.Path.{subst}
use gcnsim_awb.Config.{Config}
use gcnsim_awb.DataReader.{GraphData, read_data}
use gcnsim_awb.DataReader.Blocks.{IsMonotone, last, read_data-IsParsed, read_data_sound}
use gcnsim_awb.DataController.{
  DataController, data_controller, adj_row_data_return, adj_col_data_return,
}
use gcnsim_awb.DataController.Delivery.{IsBlock, reads, adj_row-delivers, adj_col-delivers}

-- With one unit (`DIVISION_TYPE` 0) the parsed queues go to its controller as they are.
abbrev pub controller_of : GraphData → DataController
controller_of g =
    data_controller g.adjrowindex g.adjcolindex g.vertex_req_count_cnt g.edge_req_count_cnt

All-IsBlock : (cs : List ℕ) → All (λ k. 0 < k) cs → sum cs < 2 ^ 31 → All IsBlock cs
All-IsBlock [] h small = tt
All-IsBlock (k ∷ cs) h small = ((h.0, omega arith), All-IsBlock cs h.1 (omega arith))

module _ (c : Config) (pos : 0 < c.cache_line_count) (small : c.cache_line_count < 2 ^ 31) where
  rows_out :
      (rows cols vs vs' es : List ℕ)
      → vs' ≡ vs
      → All IsBlock vs
      → sum vs ≡ length rows
      → (d : DataController) × (repeat_calls
            (adj_row_data_return c)
            (reads c.cache_line_count vs)
            (data_controller rows cols vs' es)
          ≡ some (rows, d))
  rows_out rows cols vs vs' es same h e =
      subst
        (λ ws.
          (d : DataController) × (repeat_calls (adj_row_data_return c) (reads c.cache_line_count vs)
              (data_controller rows cols ws es)
            ≡ some (rows, d)))
        (sym same) (_, adj_row-delivers c rows cols vs es pos small h e)

  cols_out :
      (rows cols vs es es' : List ℕ)
      → es' ≡ es
      → All IsBlock es
      → sum es ≡ length cols
      → (d : DataController) × (repeat_calls
            (adj_col_data_return c)
            (reads c.cache_line_count es)
            (data_controller rows cols vs es')
          ≡ some (cols, d))
  cols_out rows cols vs es es' same h e =
      subst
        (λ ws.
          (d : DataController) × (repeat_calls (adj_col_data_return c) (reads c.cache_line_count es)
              (data_controller rows cols vs ws)
            ≡ some (cols, d)))
        (sym same) (_, adj_col-delivers c rows cols vs es pos small h e)

  module _ (via_float : ℕ → ℕ) (row t : ℕ) (ts : List ℕ) (col : ℕ) (cols : List ℕ)
      (rows_small : c.a_h + 1 < 2 ^ 31) (monotone : IsMonotone 0 (t ∷ ts))
      (height : length (t ∷ ts) ≡ c.a_h) where
    -- For 64-bit row pointers that never fall, one for each of the `a_h` rows after the first number,
    -- with a positive `max_v`, a positive line below 2^31 and `a_h + 1` below 2^31, the parser returns
    -- data that holds both lines, the first number of each as `stof` gives it. The controller hands out all its row pointers
    -- in order and without a fault, in `ceil(count / line)` reads for each block.
    pub load_rows-delivers :
        0 < c.max_v
        → (g : GraphData) × (read_data via_float c (row ∷ t ∷ ts) (col ∷ cols) ≡ some g)
          × (g.adjrowindex ≡ via_float row ∷ t ∷ ts)
          × (g.adjcolindex ≡ via_float col ∷ cols)
          × ((d : DataController) × (repeat_calls
                  (adj_row_data_return c)
                  (reads c.cache_line_count g.vertex_req_count)
                  (controller_of g)
                ≡ some (g.adjrowindex, d)))
    load_rows-delivers divides =
        let (g, parsed, facts) =
          read_data-IsParsed c via_float row t ts col cols divides monotone height in
        (
          g,
          parsed,
          facts.row_line,
          facts.col_line,
          rows_out g.adjrowindex g.adjcolindex g.vertex_req_count g.vertex_req_count_cnt
              g.edge_req_count_cnt facts.vertex_copy
              (All-IsBlock g.vertex_req_count facts.positive
                (omega (arith, facts.vertices, ap length facts.row_line)))
              facts.vertices,
        )

    -- For such row pointers, if the last one is the number of column indices and below 2^31, and no
    -- block of the parsed data is without edges, the controller hands out all its column indices in
    -- order and without a fault, in `ceil(count / line)` reads for each block.
    pub load_cols-delivers :
        {g : GraphData}
        → length (col ∷ cols) ≡ last t ts
        → last t ts < 2 ^ 31
        → read_data via_float c (row ∷ t ∷ ts) (col ∷ cols) ≡ some g
        → All (λ k. 0 < k) g.edge_req_count
        → (d : DataController) × (repeat_calls
              (adj_col_data_return c)
              (reads c.cache_line_count g.edge_req_count)
              (controller_of g)
            ≡ some (g.adjcolindex, d))
    load_cols-delivers {g} width edges_small parse blocks =
        let facts = read_data_sound c via_float row t ts col cols monotone height parse in
        cols_out g.adjrowindex g.adjcolindex g.vertex_req_count_cnt g.edge_req_count
          g.edge_req_count_cnt facts.edge_copy
          (All-IsBlock g.edge_req_count blocks (omega (arith, facts.edge_sum)))
          (omega (arith, facts.edge_sum, ap length facts.col_line))
