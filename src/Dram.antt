-- ===== src/Dram.antt =====
-- DRAMInterface.cpp: the queue of transactions in front of the memories, their assignment in turn,
-- and the addresses of completed reads.
-- DRAMsim3 is not modelled. What a memory system does depends on what was asked of it, so each one is
-- the list of the calls made to it, latest first, and `MemorySystem` gives its answers.
pub mod Issue
pub mod Reads
pub mod Steps
pub mod Progress
use gcnsim_awb.Prelude.{
  ℕ, zero, suc, ◌+◌, ◌-◌, ◌%◌, ◌^◌, Bool, true, false, not, ◌==◌, if◌then◌else◌, ltb, leb, List, [],
  ◌∷◌, ◌++◌, Option, none, some, ◌>>=◌, pop_front, is_empty, get_elem?, set, length, replicate, ◌*◌,
}
use gcnsim_awb.Prelude.Words.{add64, sub64}
use gcnsim_awb.Config.{Config}

pub record Transaction : Type 0 where
  pub address : ℕ
  pub is_write : Bool

pub record GbInfo : Type 0 where
  pub id : ℕ
  pub address : ℕ

-- A call of `dramsim3::MemorySystem`.
pub data Event : Type 0 where
  added : Transaction → Event
  ticked : Event

-- A callback that a clock tick makes.
pub data Completion : Type 0 where
  read_complete write_complete : ℕ → Completion

-- The answers of a memory system after a history of calls: `WillAcceptTransaction`, the callbacks of
-- the next `ClockTick`, and `IsQueueFill`.
pub record MemorySystem : Type 0 where
  pub accepts : List Event → Transaction → Bool
  pub completes : List Event → List Completion
  pub is_queue_fill : List Event → Bool

-- The members of `DRAMInterface` and the globals that it counts in. `tot_req` is an `int`.
pub record Dram : Type 0 where
  pub dram : List (List Event)
  pub dram_idx : ℕ
  pub f_read_complete : Bool
  pub w_read_complete : Bool
  pub f_address : List ℕ
  pub w_address : List ℕ
  pub t_queue : List Transaction
  pub info : List GbInfo
  pub a_util : ℕ
  pub w_util : ℕ
  pub tot_req : ℕ
  pub tot_axw_count : ℕ
  pub tot_xw_count : ℕ

unfoldable pub dram_request : ℕ → Bool → Dram → Dram
dram_request address is_write s = record s {
  t_queue = s.t_queue ++ record { address = address; is_write = is_write } ∷ [];
}

-- The overload with an id.
unfoldable pub dram_request_id : ℕ → Bool → ℕ → Dram → Dram
dram_request_id address is_write id s = record s {
  t_queue = s.t_queue ++ record { address = address; is_write = is_write } ∷ [];
  info = s.info ++ record { id = id; address = address } ∷ [];
}

unfoldable pub read_complete_callback : Config → ℕ → Dram → Dram
read_complete_callback c address s =
    if ltb address c.weight_start
    then record s {
      f_read_complete = true;
      f_address = s.f_address ++ address ∷ [];
      a_util = add64 s.a_util 1;
      tot_req = (s.tot_req + 2 ^ 32 - 1) % 2 ^ 32;
    }
    else record s {
      w_read_complete = true;
      w_address = s.w_address ++ address ∷ [];
      w_util = add64 s.w_util 1;
      tot_req = (s.tot_req + 2 ^ 32 - 1) % 2 ^ 32;
    }

unfoldable pub write_complete_callback : Config → ℕ → Dram → Dram
write_complete_callback c address s =
    if leb c.axw_start address
    then record s { tot_axw_count = sub64 s.tot_axw_count 1 }
    else record s { tot_xw_count = sub64 s.tot_xw_count 1 }

unfoldable pub complete : Config → Completion → Dram → Dram
unfolding read_complete_callback write_complete_callback
complete c (read_complete address) s = read_complete_callback c address s
complete c (write_complete address) s = write_complete_callback c address s

unfoldable pub complete_all : Config → List Completion → Dram → Dram
unfolding complete
complete_all c [] s = s
complete_all c (k ∷ ks) s = complete_all c ks (complete c k s)

unfoldable pub index_next : ℕ → ℕ → ℕ
index_next max_dram i = if i + 1 == max_dram then 0 else i + 1

-- How the loop of `AddTransaction` ends; `fault` is a memory index out of range.
pub data Outcome : Type 0 where
  finished : Dram → Outcome
  fault : Outcome
  out_of_fuel : Outcome

-- A call of the memory system `i`.
abbrev pub call : List (List Event) → ℕ → Event → List (List Event)
call [] i e = []
call (h ∷ hs) zero e = (e ∷ h) ∷ hs
call (h ∷ hs) (suc i) e = h ∷ call hs i e

module _ (m : MemorySystem) (c : Config) where
  -- `UpdateCycle` from the memory `i` on, with `n` memories to go.
  unfoldable pub tick_from : ℕ → ℕ → Dram → Option Dram
  unfolding complete_all
  tick_from zero i s = some s
  tick_from (suc n) i s = do
    h ← get_elem? s.dram i
    tick_from n (i + 1) (complete_all c (m.completes h) (record s { dram = call s.dram i ticked }))

  unfoldable pub update_cycle : Dram → Option Dram
  unfolding tick_from
  update_cycle s = tick_from c.max_dram 0 s

  unfoldable pub can_request : ℕ → Dram → Option Bool
  can_request idx s = do
    (t, _) ← pop_front s.t_queue
    h ← get_elem? s.dram idx
    some (m.accepts h t)

  -- The `while` loop of `AddTransaction`.
  unfoldable pub add_loop : ℕ → ℕ → Dram → Outcome
  unfolding index_next can_request
  add_loop zero check s = out_of_fuel
  add_loop (suc fuel) check s = elim s.t_queue [
    | [] ↦ finished s
    | t ∷ rest ↦ elim (can_request s.dram_idx s) [
      | none ↦ fault
      | some true ↦ add_loop fuel check (record s {
        dram = call s.dram s.dram_idx (added t);
        t_queue = rest;
        dram_idx = index_next c.max_dram s.dram_idx;
      })
      | some false ↦ elim (index_next c.max_dram s.dram_idx == check) [
        | true ↦ finished (record s { dram_idx = index_next c.max_dram s.dram_idx })
        | false ↦ add_loop fuel check (record s { dram_idx = index_next c.max_dram s.dram_idx })
      ]
    ]
  ]

  -- Each round issues a transaction or moves on towards `check`.
  unfoldable pub add_transaction : Dram → Outcome
  unfolding add_loop
  add_transaction s = add_loop (suc (length s.t_queue * c.max_dram + c.max_dram)) s.dram_idx s

  unfoldable pub write_exist : Dram → Option Bool
  write_exist s = do h ← get_elem? s.dram 0; some (m.is_queue_fill h)

-- `ReturnID`: the entry at the first match is erased; past the end is a fault.
unfoldable pub find_info : ℕ → List GbInfo → Option (ℕ × List GbInfo)
find_info address [] = none
find_info address (e ∷ es) =
    let rest = find_info address es in
    if e.address == address then some (e.id, es) else rest >>= λ r. some (r.0, e ∷ r.1)

unfoldable pub return_id : ℕ → Dram → Option (ℕ × Dram)
unfolding find_info
return_id address s = do (id, rest) ← find_info address s.info; some (id, record s { info = rest })

unfoldable pub get_read_data : Bool → Dram → Option (ℕ × Dram)
get_read_data false s = do
  (ret, rest) ← pop_front s.f_address
  some (
    ret,
    record s {
      f_address = rest;
      f_read_complete = if is_empty rest then false else s.f_read_complete;
    },
  )
get_read_data true s = do
  (ret, rest) ← pop_front s.w_address
  some (
    ret,
    record s {
      w_address = rest;
      w_read_complete = if is_empty rest then false else s.w_read_complete;
    },
  )

-- The constructor, with the globals as they are.
unfoldable pub dram_interface : Config → ℕ → ℕ → ℕ → Dram
dram_interface c tot_req tot_axw_count tot_xw_count = record {
  dram = replicate c.max_dram [];
  dram_idx = 0;
  f_read_complete = false;
  w_read_complete = false;
  f_address = [];
  w_address = [];
  t_queue = [];
  info = [];
  a_util = 0;
  w_util = 0;
  tot_req = tot_req;
  tot_axw_count = tot_axw_count;
  tot_xw_count = tot_xw_count;
}
