-- ===== src/XwReader.antt =====
-- XWReader.cpp: the edges on their way from an edge reader to the global buffer, with a copy for the
-- accelerator. Members that no method reads (`id`, `a_col_size`) are left out.
pub mod Queues
use gcnsim_awb.Prelude.{
  ℕ, ◌+◌, ◌*◌, ◌%◌, ◌^◌, Bool, true, false, ◌==◌, if◌then◌else◌, ltb, List, [], ◌∷◌, ◌++◌, Option,
  some, ◌>>=◌, pop_front, is_empty,
}
use gcnsim_awb.Prelude.Words.{add64, sub64}
use gcnsim_awb.Config.{Config, max_queue_size}
use gcnsim_awb.EdgeReader.{ErData}

pub record XwReader : Type 0 where
  pub q_empty : Bool
  pub can_receive : Bool
  pub tot_req : ℕ
  pub req_cnt : ℕ
  pub q_space : ℕ
  pub xwq : List ErData
  pub xwq_archive : List ErData

unfoldable pub xw_reader : Config → ℕ → XwReader
xw_reader c a_col_size = record {
  q_empty = true;
  can_receive = true;
  tot_req = (a_col_size * c.w_fold) % 2 ^ 64;
  req_cnt = 0;
  q_space = 0;
  xwq = [];
  xwq_archive = [];
}

unfoldable pub is_end_operation : XwReader → Bool
is_end_operation s = s.req_cnt == s.tot_req

unfoldable pub transfer_data : XwReader → Option (ErData × XwReader)
unfolding is_end_operation
transfer_data s = do
  (ret, rest) ← pop_front s.xwq_archive
  some (
    ret,
    record s {
      xwq_archive = rest;
      q_space = sub64 s.q_space 2;
      can_receive = if is_end_operation s then s.can_receive else true;
    },
  )

unfoldable pub request : XwReader → Option (ErData × XwReader)
request s = do
  (ret, rest) ← pop_front s.xwq
  some (
    ret,
    record s {
      xwq = rest;
      req_cnt = add64 s.req_cnt 1;
      q_empty = if is_empty rest then true else s.q_empty;
    },
  )

unfoldable pub receive_data : ErData → XwReader → XwReader
receive_data d s =
    let space = add64 s.q_space 2 in
    record s {
      xwq = s.xwq ++ d ∷ [];
      xwq_archive = s.xwq_archive ++ d ∷ [];
      q_space = space;
      q_empty = false;
      can_receive = if ltb (sub64 max_queue_size space) 2 then false else s.can_receive;
    }

unfoldable pub turn_off_flag : XwReader → XwReader
turn_off_flag s = record s { can_receive = false }
