-- ===== src/Tests/Buffer.antt =====
-- GlobalBuffer.cpp.
use gcnsim_awb.Prelude.{◌+◌, ◌≡◌, refl, true, false, [], ◌∷◌, some, arith}
use gcnsim_awb.Prelude.Words.{minus_one}
use gcnsim_awb.EdgeReader.{ErData}
use gcnsim_awb.Cache.Fifo.{Lists}
use gcnsim_awb.Cache.Lru
use gcnsim_awb.Cache.Dispatch.{Settings, Policies, lru_algo, first_cycle, on_fill}
use gcnsim_awb.GlobalBuffer.{
  GlobalBuffer, global_buffer, receive_edge, receive_line, lookup, request, find_way,
}
use gcnsim_awb.GlobalBuffer.Steps.{
  edge, line, Reach, here, next, IsQueued, count, outstanding, Reach-IsQueued, Reach-outstanding,
}
use gcnsim_awb.GlobalBuffer.Placing.{IsFound, edge_of, set_of, receive_line-IsFound}

-- Two sets of two ways, replaced in the order of use.
abbrev small : Settings
small = record { cache_repl_algo = lru_algo; way_n = 2; set_n = 2; bf_len = 4; bf_overlap = 0 }

abbrev empty_lists : Lists
empty_lists = record { list = [] ∷ [] ∷ []; weight = [] ∷ [] ∷ [] }

abbrev fresh : Policies
fresh = record {
  fifo = empty_lists;
  lru = empty_lists;
  ship = record { rrpv = []; line_outcome = []; line_signature = []; shct = [] };
  bloom = record {
    bf_list = [];
    ol_bf_list = [];
    bf_idx = [];
    ovl_bf_idx = [];
    use_ovl_bf = [];
    blk_idx_vector = [];
    ovl_blk_idx_vector = [];
    ovl_start_idx = 1;
  };
  median = record { mvm_tmp = []; medians = []; mvm_blk_idx_vector = []; mvm_cur_idx = 0 };
}

abbrev first_edge : ErData
first_edge = record {
  rowindex = 0;
  colindex = 3;
  address = 4016;
  pre_w_fold = 0;
  pre_w_fold_start = 0;
  pre_repeat = 0;
  is_end = false;
}

abbrev empty_buffer : GlobalBuffer
empty_buffer = record {
  can_transfer = false;
  can_receive = true;
  q_empty = true;
  cache = (minus_one ∷ minus_one ∷ []) ∷ (minus_one ∷ minus_one ∷ []) ∷ [];
  weight_blk_idx = (minus_one ∷ minus_one ∷ []) ∷ (minus_one ∷ minus_one ∷ []) ∷ [];
  set_util = 0 ∷ 0 ∷ [];
  wq = [];
  w_map = [];
  w_req_table = [];
  policies = fresh;
  requests = [];
}

-- After the edge has come in, its line is asked for.
abbrev asked_buffer : GlobalBuffer
asked_buffer = record empty_buffer {
  q_empty = false;
  set_util = 0 ∷ 1 ∷ [];
  wq = first_edge ∷ [];
  w_map = (4016, first_edge) ∷ [];
  w_req_table = (4016, true) ∷ [];
  requests = 4016 ∷ [];
}

-- After the line has come back, the edge can go out.
abbrev filled_buffer : GlobalBuffer
filled_buffer = record asked_buffer {
  can_transfer = true;
  cache = (minus_one ∷ minus_one ∷ []) ∷ (3 ∷ minus_one ∷ []) ∷ [];
  weight_blk_idx = (minus_one ∷ minus_one ∷ []) ∷ (0 ∷ minus_one ∷ []) ∷ [];
  w_req_table = (4016, false) ∷ [];
  policies = record fresh {
    lru = record { list = [] ∷ (3 ∷ []) ∷ []; weight = [] ∷ (0 ∷ []) ∷ [] };
  };
}

made : global_buffer small fresh ≡ empty_buffer
unfolding global_buffer
made = refl

edge_in : receive_edge small first_edge (global_buffer small fresh) ≡ some asked_buffer
unfolding receive_edge global_buffer first_cycle lookup request
edge_in = refl

line_in : receive_line small 4016 asked_buffer ≡ some filled_buffer
unfolding receive_line lookup on_fill Lru.access Lru.scan
line_in = refl

sent_to_memory : Reach small (global_buffer small fresh) (4016 ∷ []) filled_buffer
unfolding global_buffer lookup
sent_to_memory =
    next (next here (edge first_edge (global_buffer small fresh) asked_buffer refl edge_in))
      (line 4016 asked_buffer filled_buffer refl line_in)

Reach-IsQueued_example : IsQueued filled_buffer
Reach-IsQueued_example = Reach-IsQueued small fresh (4016 ∷ []) filled_buffer sent_to_memory

Reach-outstanding_example :
    count 4016 filled_buffer.requests ≡ count 4016 (4016 ∷ []) + outstanding 4016 filled_buffer
Reach-outstanding_example =
    Reach-outstanding small fresh 4016 (4016 ∷ []) filled_buffer sent_to_memory

receive_line-IsFound_example :
    IsFound (set_of small (edge_of 4016 asked_buffer)) (edge_of 4016 asked_buffer) filled_buffer
unfolding lookup find_way
receive_line-IsFound_example =
    receive_line-IsFound small 4016 asked_buffer filled_buffer (omega arith)
      (minus_one ∷ minus_one ∷ [], minus_one ∷ minus_one ∷ [], 0, refl, refl, refl) line_in
