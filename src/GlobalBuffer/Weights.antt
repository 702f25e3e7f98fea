-- ===== src/GlobalBuffer/Weights.antt =====
-- GlobalBuffer.cpp: the weights that are read before the features, and the feature value on its way to
-- the accelerator (`XWFlag`). `CACHE_LINE_COUNT` is positive. `x_data` has no
-- value before the first `ReceiveData`.
pub mod Fill
use gcnsim_awb.Prelude.{
  ℕ, zero, suc, ◌+◌, ◌-◌, ◌≡◌, refl, Bool, true, false, not, ◌==◌, if◌then◌else◌, List, [], ◌∷◌,
  Option, none, some, ◌>>=◌, is_empty, drop, inl, inr, arith, sym, ◌∙◌, ap,
}
use gcnsim_awb.Prelude.Words.{add64, int_of, rounds}
use gcnsim_awb.Prelude.Floats.{float_ceil_div}
use gcnsim_awb.Config.{Config}
use gcnsim_awb.Accelerator.{XrData}
use gcnsim_awb.Dram.{
  MemorySystem, Dram, Outcome, finished, fault, out_of_fuel, dram_request, add_transaction,
  update_cycle, get_read_data,
}
use gcnsim_awb.Dram.Reads.{IsConsistent}

pub record XwFlag : Type 0 where
  pub w_fill_complete : Bool
  pub can_transfer : Bool

pub record XwSide : Type 0 where
  pub xwflag : XwFlag
  pub x_data : Option XrData

abbrev pub xw_side : XwSide
xw_side = record {
  xwflag = record { w_fill_complete = false; can_transfer = false };
  x_data = none;
}

-- `ReceiveData(XRData)`.
unfoldable pub receive_feature : XrData → XwSide → XwSide
receive_feature d s = record s {
  xwflag = record s.xwflag {
    can_transfer = if s.xwflag.w_fill_complete then true else s.xwflag.can_transfer;
  };
  x_data = some d;
}

unfoldable pub transfer_x_data : XwSide → Option (XrData × XwSide)
transfer_x_data s = do
  ret ← s.x_data
  some (ret, record s { xwflag = record s.xwflag { can_transfer = false } })

module _ (m : MemorySystem) (c : Config) where
  -- `AddTransaction`, `UpdateCycle` and the count of the cycle.
  unfoldable pub memory_cycle : Dram × ℕ → Option (Dram × ℕ)
  memory_cycle (d, cycle) = elim (add_transaction m c d) [
    | finished d' ↦ (update_cycle m c d' >>= λ d''. some (d'', add64 cycle 1))
    | fault ↦ none
    | out_of_fuel ↦ none
  ]

  -- The `for` loop, for `n` more lines.
  unfoldable pub ask_weights : ℕ → ℕ → Dram × ℕ → Option (Dram × ℕ)
  unfolding memory_cycle
  ask_weights zero address s = some s
  ask_weights (suc n) address (d, cycle) = do
    s' ← memory_cycle (dram_request address false d, cycle)
    ask_weights n (add64 address c.cache_line_byte) s'

  -- The `while` loop, for `fuel` rounds at most: `none` inside is the end of the fuel.
  unfoldable pub await_weights : ℕ → Dram × ℕ → Option (Option (Dram × ℕ))
  unfolding memory_cycle
  await_weights zero (d, cycle) = some (if d.tot_req == 0 then some (d, cycle) else none)
  await_weights (suc fuel) (d, cycle) =
      let next = memory_cycle (d, cycle) >>= await_weights fuel in
      if d.tot_req == 0 then some (some (d, cycle)) else next

-- The last `for` loop, for `n` more rounds.
unfoldable pub take_weights : ℕ → Dram → Option Dram
take_weights zero d = some d
take_weights (suc n) d =
    let d' = if d.w_read_complete then (get_read_data true d >>= λ q. some (q.1)) else some d in
    d' >>= take_weights n

-- What `FillWeight` sets `tot_req` to.
abbrev pub requests_of : Config → ℕ → ℕ
requests_of c tot_w = int_of (float_ceil_div tot_w c.cache_line_count)

-- `FillWeight`, with the global `cycle`. `tot_req` is the member of `Dram`.
unfoldable pub fill_weight :
    MemorySystem → Config → ℕ → ℕ → XwSide → Dram × ℕ → Option (Option (XwSide × Dram × ℕ))
unfolding ask_weights await_weights take_weights
fill_weight m c tot_w fuel s (d, cycle) = do
  let tot_req = requests_of c tot_w
  asked ← ask_weights m c (rounds tot_req) c.weight_start (record d { tot_req = tot_req }, cycle)
  waited ← await_weights m c fuel asked
  elim waited [
    | none ↦ some none
    | some (d', cycle') ↦ do
      d'' ← take_weights c.max_dram d'
      some (some (record s { xwflag = record s.xwflag { w_fill_complete = true } }, d'', cycle'))
  ]
