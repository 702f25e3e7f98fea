-- ===== src/Simulator/Setup.antt =====
-- RunSimulator.cpp, `main` before its loop, for one unit: what is built from the data that DataReader.cpp
-- left. The weight and feature phase between the constructors and the loop is in a comment there.
use gcnsim_awb.Prelude.{ℕ, ◌*◌, false, List, Option, some, ◌>>=◌, pop_front, length}
use gcnsim_awb.Config.{Config}
use gcnsim_awb.Dram.{dram_interface}
use gcnsim_awb.Distributer.{distribute, offset_of}
use gcnsim_awb.DataReader.{GraphData, read_data}
use gcnsim_awb.DataController.{data_controller}
use gcnsim_awb.VertexReader.{vertex_reader, request_f}
use gcnsim_awb.EdgeReader.{edge_reader}
use gcnsim_awb.Simulator.{Simulator, send_requests}

-- `garbage_v` and `garbage_e` are what the members that no constructor sets hold; `tot_req` is the number
-- of lines of the weights. With any other `CSRDivisionType` than 0 and 1 no unit gets anything, and
-- `row_end` is not set: that case is left out.
unfoldable pub set_up : Config → ℕ → ℕ → ℕ → ℕ → GraphData → Option Simulator
set_up c division_type garbage_v garbage_e tot_req g = do
  parts ← distribute division_type 1 c.x_h g.adjrowindex g.adjcolindex
  (share, _) ← pop_front parts.shares
  vr ← vertex_reader c garbage_v (offset_of 0) g.vertex_req_count false
  er ←
      edge_reader c garbage_e (offset_of 0) (length share.adjcolindex) share.row_end
        g.edge_req_count
  some (
      send_requests (record {
        dram = dram_interface c tot_req g.tot_axw_count (c.x_h * c.w_fold);
        dc =
            data_controller share.adjrowindex share.adjcolindex g.vertex_req_count_cnt
              g.edge_req_count_cnt;
        vr = request_f c vr;
        er = er;
        cycle = 0;
      }))

-- From the two lines of the graph file to the loop.
unfoldable pub load : (ℕ → ℕ) → Config → ℕ → ℕ → ℕ → ℕ → List ℕ → List ℕ → Option Simulator
unfolding set_up
load via_float c division_type garbage_v garbage_e tot_req rows cols = do
  g ← read_data via_float c rows cols
  set_up c division_type garbage_v garbage_e tot_req g
