-- ===== src/Tests/Products.antt =====
-- Accelerator.cpp: three edges with two places; GlobalBuffer.cpp: five weights.
use gcnsim_awb.Prelude.{
  ℕ, ◌+◌, ◌≡◌, Bool, true, false, List, [], ◌∷◌, ◌++◌, some, none, Option, refl, ◌⊎◌, drop, arith,
}
use gcnsim_awb.Prelude.Floats.{float_ceil_div}
use gcnsim_awb.Prelude.Words.{rounds}
use gcnsim_awb.Dram.{
  Dram, dram_interface, add_transaction, update_cycle, dram_request, get_read_data,
}
use gcnsim_awb.Dram.Steps.{IsValid}
use gcnsim_awb.GlobalBuffer.Weights.{
  XwSide, requests_of, xw_side, fill_weight, memory_cycle, ask_weights, await_weights, take_weights,
}
use gcnsim_awb.GlobalBuffer.Weights.Fill.{fill_weight-left}
use gcnsim_awb.Tests.Memory.{one_slot}
use gcnsim_awb.EdgeReader.{ErData}
use gcnsim_awb.Accelerator.{Accelerator, accelerator, receive_er_data}
use gcnsim_awb.Accelerator.Lines.{lines, ends}
use gcnsim_awb.Accelerator.Flow.{Reach, here, edge, start}
use gcnsim_awb.Accelerator.Finish.{macs, macs-finish}
use gcnsim_awb.Tests.Input.{cfg}

abbrev product : ℕ → Bool → ErData
product col last = record {
  rowindex = 0;
  colindex = col;
  address = 4000;
  pre_w_fold = 0;
  pre_w_fold_start = 0;
  pre_repeat = 0;
  is_end = last;
}

abbrev received : List ErData
received = (([] ++ product 0 false ∷ []) ++ product 1 true ∷ []) ++ product 0 true ∷ []

abbrev memory : Dram
unfolding dram_interface
memory = dram_interface cfg 0 0 0

unfoldable fed : Accelerator
fed = receive_er_data (product 0 true) (
    receive_er_data (product 1 true)
      (receive_er_data (product 0 false) (record (accelerator cfg 64 4) { is_a = true })))

fed-Reach : Reach cfg 64 4 memory received 0 fed memory
unfolding fed
fed-Reach = edge (product 0 true) (edge (product 1 true) (edge (product 0 false) here))

macs-finish_example :
    (a' : Accelerator) × (s' : Dram) × (macs cfg 3 fed memory ≡ some (a', s'))
    × (a'.m2_data ≡ [])
    × (a'.a_data ≡ [])
    × (s'.t_queue ≡ memory.t_queue ++ lines cfg (start cfg 64 4 memory) (ends received + 0))
unfolding float_ceil_div fed receive_er_data accelerator
macs-finish_example =
    macs-finish cfg 64 4 memory (omega arith) 3 received 0 fed memory fed-Reach (omega arith)

-- Five weights take three lines, and two memories answer at the next tick.
abbrev filled : Option (Option (XwSide × Dram × ℕ)) → Option (Option (Bool × List ℕ × ℕ))
filled none = none
filled (some none) = some none
filled (some (some (s, d, cycle))) = some (some (s.xwflag.w_fill_complete, d.w_address, cycle))

one_line_left :
    filled (fill_weight one_slot cfg 5 9 xw_side (memory, 0)) ≡ some (some (true, 3032 ∷ [], 3))
unfolding float_ceil_div fill_weight memory_cycle ask_weights await_weights take_weights
    get_read_data add_transaction update_cycle dram_request dram_interface
one_line_left = refl

memory-IsValid : IsValid cfg memory
unfolding dram_interface
memory-IsValid = record {
  consistent = record { f_flag = refl; w_flag = refl };
  memories = refl;
  index_in = omega arith;
}

fill_weight-left_example :
    (fill_weight one_slot cfg 5 9 xw_side (memory, 0) ≡ some none)
    ⊎ ((s' : XwSide) × (a w d' : Dram) × (asked cycle' : ℕ) × (fill_weight one_slot cfg 5 9 xw_side
            (memory, 0)
          ≡ some (some (s', d', cycle')))
        × (ask_weights one_slot cfg
              (rounds (requests_of cfg 5))
              cfg.weight_start
              (record memory { tot_req = requests_of cfg 5 }, 0)
            ≡ some (a, asked))
        × (await_weights one_slot cfg 9 (a, asked) ≡ some (some (w, cycle')))
        × (s'.xwflag.w_fill_complete ≡ true)
        × (w.tot_req ≡ 0)
        × (d'.w_address ≡ drop 2 w.w_address)
        × IsValid cfg d')
fill_weight-left_example = fill_weight-left one_slot cfg 5 9 xw_side memory 0 memory-IsValid
