-- ===== src/Simulator.antt =====
-- RunSimulator.cpp, the loop of `main`, for one unit (`tot_acc` is 1 in every settings file).
-- The loop's calls of the cache, of the feature reader and of the accelerator are in a comment there.
-- A reader's calls of `DRAMRequest` are collected in `requests` and sent after its turn, in the same
-- order: the vertex reader's come before the edge reader's. The counters of progress, which are only
-- printed, are left out.
pub mod Serving
pub mod Setup
pub mod Delivery
pub mod Safety
pub mod Progress
use gcnsim_awb.Prelude.{
  ℕ, zero, suc, ◌+◌, Bool, true, false, not, ◌&&◌, ◌==◌, if◌then◌else◌, List, [], ◌∷◌, ◌++◌, Option,
  none, some, ◌>>=◌,
}
use gcnsim_awb.Prelude.Words.{add64}
use gcnsim_awb.Config.{Config}
use gcnsim_awb.Dram.{
  Transaction, MemorySystem, Dram, Outcome, finished, fault, out_of_fuel, dram_request,
  get_read_data, add_transaction, update_cycle, write_exist,
}
use gcnsim_awb.Distributer
use gcnsim_awb.DataController.{
  DataController, x, a_row, a_col, return_data_type, adj_row_data_return, adj_col_data_return,
}
use gcnsim_awb.VertexReader
use gcnsim_awb.VertexReader.{VertexReader, transfer_data}
use gcnsim_awb.EdgeReader
use gcnsim_awb.EdgeReader.{EdgeReader, can_vertex_receive, receive_vertex, outer_product, write}

pub record Simulator : Type 0 where
  pub dram : Dram
  pub dc : DataController
  pub vr : VertexReader
  pub er : EdgeReader
  pub cycle : ℕ

-- What one round of the first loop sets `a_read_ok`, `w_read_ok` and `address` to.
pub data Arrival : Type 0 where
  no_read : Arrival
  a_read w_read : ℕ → Arrival

unfoldable pub read_one : Dram → Option (Arrival × Dram)
read_one d =
    if d.f_read_complete
    then (do (address, d') ← get_read_data false d; some (a_read address, d'))
    else if d.w_read_complete
    then (do (address, d') ← get_read_data true d; some (w_read address, d'))
    else some (no_read, d)

unfoldable pub dram_turn : ℕ → Dram → Option (List Arrival × Dram)
unfolding read_one
dram_turn zero d = some ([], d)
dram_turn (suc n) d = do (r, d') ← read_one d; (rs, d'') ← dram_turn n d'; some (r ∷ rs, d'')

-- `f_flag` is set by any read that is not matrix data.
unfoldable pub flag_after : Bool → List Arrival → Bool
flag_after f [] = f
flag_after f (no_read ∷ rs) = flag_after f rs
flag_after f (a_read address ∷ rs) = flag_after f rs
flag_after f (w_read address ∷ rs) = flag_after true rs

-- What `a_type` and `a_data` are set to.
pub data Chunk : Type 0 where
  no_chunk : Chunk
  row_chunk col_chunk : List ℕ → Chunk

-- An id other than 0 has no controller.
unfoldable pub serve : Config → Arrival → DataController → Option (Chunk × DataController)
serve c no_read dc = some (no_chunk, dc)
serve c (w_read address) dc = some (no_chunk, dc)
serve c (a_read address) dc =
    if Distributer.return_id address == 0
    then (do
      t ← return_data_type c address
      elim t [
        | x ↦ some (no_chunk, dc)
        | a_row ↦ do (l, dc') ← adj_row_data_return c dc; some (row_chunk l, dc')
        | a_col ↦ do (l, dc') ← adj_col_data_return c dc; some (col_chunk l, dc')
      ])
    else none

unfoldable pub controller_turn :
    Config → List Arrival → DataController → Option (List Chunk × DataController)
unfolding serve
controller_turn c [] dc = some ([], dc)
controller_turn c (r ∷ rs) dc = do
  (k, dc') ← serve c r dc
  (ks, dc'') ← controller_turn c rs dc'
  some (k ∷ ks, dc'')

unfoldable pub receive_rows : List Chunk → VertexReader → Option VertexReader
receive_rows [] s = some s
receive_rows (row_chunk l ∷ ks) s = do s' ← VertexReader.receive_data l s; receive_rows ks s'
receive_rows (no_chunk ∷ ks) s = receive_rows ks s
receive_rows (col_chunk l ∷ ks) s = receive_rows ks s

unfoldable pub vertex_request : Config → VertexReader → VertexReader
vertex_request c s =
    let s₁ = if VertexReader.is_end_operation s then VertexReader.turn_off_flag s else s in
    if s₁.req_need then VertexReader.request c s₁ else s₁

unfoldable pub receive_cols : List Chunk → EdgeReader → EdgeReader
receive_cols [] s = s
receive_cols (col_chunk l ∷ ks) s = receive_cols ks (EdgeReader.receive_data l s)
receive_cols (no_chunk ∷ ks) s = receive_cols ks s
receive_cols (row_chunk l ∷ ks) s = receive_cols ks s

-- The next row pointer goes over, if it is wanted, there, and `f_flag` holds.
unfoldable pub pass_vertex : Config → VertexReader → EdgeReader → Option (VertexReader × EdgeReader)
pass_vertex c v e =
    if can_vertex_receive e && (not v.q_empty && v.f_flag)
    then (do (p, v') ← transfer_data c v; some (v', receive_vertex c p e))
    else some (v, e)

unfoldable pub edge_request : Config → EdgeReader → EdgeReader
edge_request c s =
    let s₁ = if EdgeReader.is_end_operation s then EdgeReader.turn_off_flag s else s in
    if s₁.req_need then EdgeReader.request c s₁ else s₁

unfoldable pub edge_work : Config → EdgeReader → Option EdgeReader
unfolding edge_request
edge_work c s = do s' ← outer_product c (edge_request c s); some (write c s')

unfoldable pub send : List Transaction → Dram → Dram
send [] d = d
send (t ∷ ts) d = send ts (dram_request t.address t.is_write d)

-- The turns of the controller and of the readers, for what has arrived.
unfoldable pub units_turn : Config → List Arrival → Simulator → Option Simulator
unfolding controller_turn receive_rows vertex_request receive_cols pass_vertex edge_work flag_after
units_turn c rs s = do
  (ks, dc) ← controller_turn c rs s.dc
  v₁ ← receive_rows ks (record (s.vr) { f_flag = flag_after s.vr.f_flag rs })
  (v₂, e₁) ← pass_vertex c (vertex_request c v₁) (receive_cols ks s.er)
  e₂ ← edge_work c e₁
  some (record s { dc = dc; vr = v₂; er = e₂ })

unfoldable pub send_requests : Simulator → Simulator
unfolding send
send_requests s = record s {
  dram = send (s.vr.requests ++ s.er.requests) s.dram;
  vr = record (s.vr) { requests = [] };
  er = record (s.er) { requests = [] };
}

-- `AddTransaction` as a step that may fail.
abbrev pub ended : Outcome → Option Dram
ended (finished d) = some d
ended fault = none
ended out_of_fuel = none

module _ (m : MemorySystem) (c : Config) where
  unfoldable pub memory_turn : Dram → Option Dram
  memory_turn d = do d' ← ended (add_transaction m c d); update_cycle m c d'

  -- Cycles in which no unit asks for anything.
  unfoldable pub memory_turns : ℕ → Dram → Option Dram
  unfolding memory_turn
  memory_turns zero d = some d
  memory_turns (suc n) d = do d' ← memory_turn d; memory_turns n d'

  -- The body of the loop.
  unfoldable pub turn : Simulator → Option Simulator
  unfolding dram_turn units_turn send_requests memory_turn
  turn s = do
    (rs, d) ← dram_turn c.max_dram s.dram
    s₁ ← units_turn c rs (record s { dram = d })
    let s₂ = send_requests s₁
    d' ← memory_turn s₂.dram
    some (record s₂ { dram = d'; cycle = add64 s₂.cycle 1 })

  -- The test that leaves the loop.
  unfoldable pub is_over : Simulator → Option Bool
  is_over s = do busy ← write_exist m c s.dram; some ((s.dram.tot_axw_count == 0) && not busy)

  -- Some turns, one after the other.
  unfoldable pub turns : ℕ → Simulator → Option Simulator
  turns zero s = some s
  turns (suc n) s = do s' ← turn s; turns n s'

  -- The loop, for `n` turns at most: whether it was left, and the state.
  unfoldable pub run : ℕ → Simulator → Option (Bool × Simulator)
  unfolding turn is_over
  run zero s = some (false, s)
  run (suc n) s = do
    s' ← turn s
    over ← is_over s'
    elim over [ true ↦ some (true, s') | false ↦ run n s' ]
