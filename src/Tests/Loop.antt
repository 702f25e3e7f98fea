-- ===== src/Tests/Loop.antt =====
-- RunSimulator.cpp and Distributer.cpp.
use gcnsim_awb.Prelude.{
  ◌⊎◌, ℕ, ◌*◌, ◌≡◌, refl, true, false, List, [], ◌∷◌, map, length, none, some, EndsWith, arith,
}
use gcnsim_awb.Prelude.Floats.{float_ceil_div}
use gcnsim_awb.Dram.{
  Dram, added, ticked, dram_request, dram_interface, add_transaction, update_cycle, get_read_data,
}
use gcnsim_awb.Dram.Steps.{IsValid}
use gcnsim_awb.Distributer.{Division, distribute, return_id}
use gcnsim_awb.Distributer.Rejoin.{join, queues, csr, pointers, distribute-parts}
use gcnsim_awb.Simulator.{
  Simulator, Arrival, dram_turn, units_turn, turn, turns, send_requests, memory_turns,
}
use gcnsim_awb.DataReader.{read_data}
use gcnsim_awb.DataController.{
  pop_many, return_data_type, adj_row_data_return, adj_col_data_return, data_controller,
}
use gcnsim_awb.VertexReader
use gcnsim_awb.VertexReader.{vertex_reader, request_f, transfer_data}
use gcnsim_awb.EdgeReader
use gcnsim_awb.EdgeReader.{edge_reader, can_vertex_receive, outer_product, write, receive_vertex}
use gcnsim_awb.Simulator.Setup.{load}
use gcnsim_awb.Simulator.Delivery.{cols_left, turns-Delivers}
use gcnsim_awb.Simulator.Progress.{Refuses, memory_turns-drain}
use gcnsim_awb.Simulator.Safety.{turns-fault}
use gcnsim_awb.Tests.Input.{cfg, rows, cols}
use gcnsim_awb.Tests.Memory.{one_slot, asked}

-- The state before the loop.
abbrev begun : Simulator
begun = record {
  dram = record {
    dram = [] ∷ [] ∷ [];
    dram_idx = 0;
    f_read_complete = false;
    w_read_complete = false;
    f_address = [];
    w_address = [];
    t_queue = record { address = 4000; is_write = false } ∷ [];
    info = [];
    a_util = 0;
    w_util = 0;
    tot_req = 3;
    tot_axw_count = 8;
    tot_xw_count = 6;
  };
  dc = record {
    rows = record {
      queue = 0 ∷ 2 ∷ 3 ∷ 5 ∷ [];
      archive = 0 ∷ 2 ∷ 3 ∷ 5 ∷ [];
      limit = 0;
      req_count_cnt = 3 ∷ 1 ∷ [];
    };
    cols = record {
      queue = 0 ∷ 1 ∷ 2 ∷ 0 ∷ 1 ∷ [];
      archive = 0 ∷ 1 ∷ 2 ∷ 0 ∷ 1 ∷ [];
      limit = 0;
      req_count_cnt = 3 ∷ 2 ∷ [];
    };
  };
  vr = record {
    req_need = true;
    q_empty = true;
    x_repeat = 0;
    pre_row_archive = 0;
    v_cache_idx = 0;
    pop_count = 0;
    q_space = 0;
    offset = 0;
    req_address = 1000;
    req_f_address = 4016;
    pre_row = 0;
    tot_repeat = 2;
    pre_repeat = 0;
    req_stat = record { tot_read_cnt = 2; pre_read_cnt = 0; read_cnt_acm = 0 };
    vq = [];
    v_cache = [];
    vertex_req_count = 1 ∷ [];
    f_flag = false;
    requests = [];
  };
  er = record {
    pre_w_fold = 0;
    can_receive = true;
    req_need = true;
    q_empty = true;
    x_repeat = 0;
    e_cache_idx = 0;
    pre_row_archive = 0;
    write_count = 2;
    do_write = false;
    transfer_cnt = 0;
    pre_w_fold_start = 0;
    a_col_size = 5;
    q_space = 0;
    offset = 0;
    req_address = 2000;
    write_address = 5000;
    pre_row = 0;
    row_end = 3;
    tot_req_repeat = 2;
    pre_repeat = 0;
    pre_req_repeat = 0;
    cur_v = 0;
    prev_v = 0;
    remain_col_num = 0;
    col_num_archive = 0;
    req_stat = record { tot_read_cnt = 2; pre_read_cnt = 0; read_cnt_acm = 0 };
    eq = [];
    ev = [];
    e_cache = [];
    edge_req_count = 2 ∷ [];
    last_v = 0;
    v_arch = 0;
    block_cnt = 0;
    requests = [];
  };
  cycle = 0;
}

-- After ten and eleven turns.
abbrev later : Simulator
later = record {
  dram = record {
    dram =
        (ticked
          ∷ added record { address = 5000; is_write = true }
          ∷ ticked
          ∷ added record { address = 1032; is_write = false }
          ∷ ticked
          ∷ added record { address = 4064; is_write = false }
          ∷ ticked
          ∷ ticked
          ∷ added record { address = 4048; is_write = false }
          ∷ ticked
          ∷ added record { address = 4032; is_write = false }
          ∷ ticked
          ∷ ticked
          ∷ added record { address = 4016; is_write = false }
          ∷ ticked
          ∷ added record { address = 2000; is_write = false }
          ∷ ticked
          ∷ added record { address = 4000; is_write = false }
          ∷ [])
        ∷ (ticked
            ∷ added record { address = 4080; is_write = false }
            ∷ ticked
            ∷ added record { address = 2032; is_write = false }
            ∷ ticked
            ∷ added record { address = 5000; is_write = true }
            ∷ ticked
            ∷ ticked
            ∷ added record { address = 5000; is_write = true }
            ∷ ticked
            ∷ added record { address = 5000; is_write = true }
            ∷ ticked
            ∷ ticked
            ∷ added record { address = 2016; is_write = false }
            ∷ ticked
            ∷ added record { address = 1016; is_write = false }
            ∷ ticked
            ∷ added record { address = 1000; is_write = false }
            ∷ [])
        ∷ [];
    dram_idx = 0;
    f_read_complete = false;
    w_read_complete = true;
    f_address = [];
    w_address = 5000 ∷ 4080 ∷ [];
    t_queue = [];
    info = [];
    a_util = 6;
    w_util = 10;
    tot_req = 4294967283;
    tot_axw_count = 8;
    tot_xw_count = 6;
  };
  dc = record {
    rows = record { queue = []; archive = 0 ∷ 2 ∷ 3 ∷ 5 ∷ []; limit = 0; req_count_cnt = [] };
    cols = record { queue = []; archive = 0 ∷ 1 ∷ 2 ∷ 0 ∷ 1 ∷ []; limit = 0; req_count_cnt = [] };
  };
  vr = record {
    req_need = false;
    q_empty = false;
    x_repeat = 1;
    pre_row_archive = 2;
    v_cache_idx = 0;
    pop_count = 1;
    q_space = 3;
    offset = 0;
    req_address = 1048;
    req_f_address = 4096;
    pre_row = 2;
    tot_repeat = 2;
    pre_repeat = 0;
    req_stat = record { tot_read_cnt = 1; pre_read_cnt = 1; read_cnt_acm = 3 };
    vq = [];
    v_cache = 5 ∷ [];
    vertex_req_count = [];
    f_flag = false;
    requests = [];
  };
  er = record {
    pre_w_fold = 0;
    can_receive = false;
    req_need = false;
    q_empty = false;
    x_repeat = 0;
    e_cache_idx = 0;
    pre_row_archive = 2;
    write_count = 2;
    do_write = false;
    transfer_cnt = 0;
    pre_w_fold_start = 0;
    a_col_size = 5;
    q_space = 2;
    offset = 0;
    req_address = 2048;
    write_address = 5000;
    pre_row = 3;
    row_end = 3;
    tot_req_repeat = 2;
    pre_repeat = 0;
    pre_req_repeat = 0;
    cur_v = 5;
    prev_v = 3;
    remain_col_num = 1;
    col_num_archive = 2;
    req_stat = record { tot_read_cnt = 1; pre_read_cnt = 1; read_cnt_acm = 3 };
    eq = 1 ∷ [];
    ev = [];
    e_cache = 0 ∷ [];
    edge_req_count = [];
    last_v = 3;
    v_arch = 5;
    block_cnt = 1;
    requests = [];
  };
  cycle = 10;
}

abbrev last_turn : Simulator
last_turn = record {
  dram = record {
    dram =
        (ticked
          ∷ added record { address = 5000; is_write = true }
          ∷ ticked
          ∷ added record { address = 5000; is_write = true }
          ∷ ticked
          ∷ added record { address = 1032; is_write = false }
          ∷ ticked
          ∷ added record { address = 4064; is_write = false }
          ∷ ticked
          ∷ ticked
          ∷ added record { address = 4048; is_write = false }
          ∷ ticked
          ∷ added record { address = 4032; is_write = false }
          ∷ ticked
          ∷ ticked
          ∷ added record { address = 4016; is_write = false }
          ∷ ticked
          ∷ added record { address = 2000; is_write = false }
          ∷ ticked
          ∷ added record { address = 4000; is_write = false }
          ∷ [])
        ∷ (ticked
            ∷ ticked
            ∷ added record { address = 4080; is_write = false }
            ∷ ticked
            ∷ added record { address = 2032; is_write = false }
            ∷ ticked
            ∷ added record { address = 5000; is_write = true }
            ∷ ticked
            ∷ ticked
            ∷ added record { address = 5000; is_write = true }
            ∷ ticked
            ∷ added record { address = 5000; is_write = true }
            ∷ ticked
            ∷ ticked
            ∷ added record { address = 2016; is_write = false }
            ∷ ticked
            ∷ added record { address = 1016; is_write = false }
            ∷ ticked
            ∷ added record { address = 1000; is_write = false }
            ∷ [])
        ∷ [];
    dram_idx = 1;
    f_read_complete = false;
    w_read_complete = true;
    f_address = [];
    w_address = 5000 ∷ [];
    t_queue = [];
    info = [];
    a_util = 6;
    w_util = 11;
    tot_req = 4294967282;
    tot_axw_count = 8;
    tot_xw_count = 6;
  };
  dc = record {
    rows = record { queue = []; archive = 0 ∷ 2 ∷ 3 ∷ 5 ∷ []; limit = 0; req_count_cnt = [] };
    cols = record { queue = []; archive = 0 ∷ 1 ∷ 2 ∷ 0 ∷ 1 ∷ []; limit = 0; req_count_cnt = [] };
  };
  vr = record {
    req_need = false;
    q_empty = false;
    x_repeat = 1;
    pre_row_archive = 2;
    v_cache_idx = 0;
    pop_count = 1;
    q_space = 3;
    offset = 0;
    req_address = 1048;
    req_f_address = 4096;
    pre_row = 2;
    tot_repeat = 2;
    pre_repeat = 0;
    req_stat = record { tot_read_cnt = 1; pre_read_cnt = 1; read_cnt_acm = 3 };
    vq = [];
    v_cache = 5 ∷ [];
    vertex_req_count = [];
    f_flag = true;
    requests = [];
  };
  er = record {
    pre_w_fold = 0;
    can_receive = true;
    req_need = false;
    q_empty = false;
    x_repeat = 1;
    e_cache_idx = 0;
    pre_row_archive = 2;
    write_count = 1;
    do_write = true;
    transfer_cnt = 0;
    pre_w_fold_start = 0;
    a_col_size = 5;
    q_space = 1;
    offset = 0;
    req_address = 2048;
    write_address = 5000;
    pre_row = 2;
    row_end = 3;
    tot_req_repeat = 2;
    pre_repeat = 0;
    pre_req_repeat = 0;
    cur_v = 5;
    prev_v = 3;
    remain_col_num = 0;
    col_num_archive = 2;
    req_stat = record { tot_read_cnt = 1; pre_read_cnt = 1; read_cnt_acm = 3 };
    eq = [];
    ev = [];
    e_cache = 0 ∷ 1 ∷ [];
    edge_req_count = [];
    last_v = 3;
    v_arch = 5;
    block_cnt = 1;
    requests = [];
  };
  cycle = 11;
}

loaded : load (λ n. n) cfg 0 0 0 3 rows cols ≡ some begun
unfolding load read_data distribute vertex_reader edge_reader request_f dram_interface dram_request
    data_controller send_requests
loaded = refl

later-turns : turns one_slot cfg 10 begun ≡ some later
unfolding turns turn request_f dram_request dram_interface can_vertex_receive
    VertexReader.is_end_operation VertexReader.request VertexReader.turn_off_flag outer_product
    EdgeReader.is_end_operation EdgeReader.request EdgeReader.turn_off_flag add_transaction write
    update_cycle get_read_data return_id return_data_type adj_row_data_return adj_col_data_return
    data_controller VertexReader.receive_data transfer_data EdgeReader.receive_data receive_vertex
    VertexReader.transfer_first VertexReader.end_first_pass VertexReader.want_more
    VertexReader.count_pop EdgeReader.outer_first EdgeReader.end_first_row EdgeReader.want_more
    EdgeReader.is_pass_end VertexReader.transfer_replay VertexReader.end_replay
    EdgeReader.outer_replay EdgeReader.end_replay_row VertexReader.next_block EdgeReader.next_block
later-turns = refl

more-turns : turns one_slot cfg 1 later ≡ some last_turn
unfolding turns turn request_f dram_request dram_interface can_vertex_receive
    VertexReader.is_end_operation VertexReader.request VertexReader.turn_off_flag outer_product
    EdgeReader.is_end_operation EdgeReader.request EdgeReader.turn_off_flag add_transaction write
    update_cycle get_read_data return_id return_data_type adj_row_data_return adj_col_data_return
    data_controller VertexReader.receive_data transfer_data EdgeReader.receive_data receive_vertex
    VertexReader.transfer_first VertexReader.end_first_pass VertexReader.want_more
    VertexReader.count_pop EdgeReader.outer_first EdgeReader.end_first_row EdgeReader.want_more
    EdgeReader.is_pass_end VertexReader.transfer_replay VertexReader.end_replay
    EdgeReader.outer_replay EdgeReader.end_replay_row VertexReader.next_block EdgeReader.next_block
more-turns = refl

turn_fault : turn one_slot cfg last_turn ≡ none
unfolding turns turn request_f dram_request dram_interface can_vertex_receive
    VertexReader.is_end_operation VertexReader.request VertexReader.turn_off_flag outer_product
    EdgeReader.is_end_operation EdgeReader.request EdgeReader.turn_off_flag add_transaction write
    update_cycle get_read_data return_id return_data_type adj_row_data_return adj_col_data_return
    data_controller VertexReader.receive_data transfer_data EdgeReader.receive_data receive_vertex
    VertexReader.transfer_first VertexReader.end_first_pass VertexReader.want_more
    VertexReader.count_pop EdgeReader.outer_first EdgeReader.end_first_row EdgeReader.want_more
    EdgeReader.is_pass_end VertexReader.transfer_replay VertexReader.end_replay
    EdgeReader.outer_replay EdgeReader.end_replay_row VertexReader.next_block EdgeReader.next_block
turn_fault = refl

turns-Delivers_example : EndsWith 10 (cols_left begun) (cols_left later)
turns-Delivers_example = turns-Delivers one_slot cfg 10 begun later later-turns

later-IsValid : IsValid cfg later.dram
later-IsValid = record {
  consistent = record { f_flag = refl; w_flag = refl };
  memories = refl;
  index_in = omega arith;
}

asked-IsValid : IsValid cfg asked
unfolding dram_request dram_interface
asked-IsValid = record {
  consistent = record { f_flag = refl; w_flag = refl };
  memories = refl;
  index_in = omega arith;
}

memory_turns-drain_example :
    (d' : Dram) × (memory_turns one_slot cfg (length (asked.t_queue) * 2) asked ≡ some d')
    × IsValid cfg d'
    × ((d'.t_queue ≡ []) ⊎ Refuses one_slot cfg 1 (length (asked.t_queue) * 2) asked)
memory_turns-drain_example = memory_turns-drain one_slot cfg 1 asked asked-IsValid

turns-fault_example :
    IsValid cfg last_turn.dram
    × ((rs : List Arrival) × (d : Dram) × (dram_turn cfg.max_dram last_turn.dram ≡ some (rs, d))
        × (units_turn cfg rs (record last_turn { dram = d }) ≡ none))
turns-fault_example = turns-fault one_slot cfg 1 later last_turn later-IsValid more-turns turn_fault

abbrev matrix : List (List ℕ)
matrix = (0 ∷ 1 ∷ []) ∷ (2 ∷ []) ∷ [] ∷ (0 ∷ 3 ∷ []) ∷ []

abbrev divided : Division
divided = record {
  shares =
      record {
        adjrowindex = 0 ∷ 2 ∷ 3 ∷ [];
        adjcolindex = 0 ∷ 1 ∷ 2 ∷ [];
        row_start = 0;
        row_end = 1;
        axw_count = 2;
      }
      ∷ record {
        adjrowindex = 0 ∷ 0 ∷ 2 ∷ [];
        adjcolindex = 0 ∷ 3 ∷ [];
        row_start = 2;
        row_end = 3;
        axw_count = 2;
      }
      ∷ [];
  rows_left = [];
  cols_left = [];
}

distribute-parts_example :
    (parts : List (List (List ℕ))) × (join parts ≡ matrix)
    × (length parts ≡ 2)
    × (map queues divided.shares ≡ map csr parts)
unfolding distribute pop_many float_ceil_div
distribute-parts_example =
    distribute-parts 2 4 matrix divided (omega arith) (omega arith) (omega arith) (omega arith) refl

-- With two units, and all edges in the first row, the second unit finds the queue of the pointers empty.
no_rows_left :
    distribute 1 2 1 (0 ∷ pointers 0 ((0 ∷ 1 ∷ []) ∷ [])) (join ((0 ∷ 1 ∷ []) ∷ [])) ≡ none
unfolding distribute pop_many float_ceil_div
no_rows_left = refl
