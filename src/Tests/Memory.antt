-- ===== src/Tests/Memory.antt =====
-- DRAMInterface.cpp.
use gcnsim_awb.Prelude.{◌≡◌, refl, Bool, true, false, List, [], ◌∷◌, some, arith}
use gcnsim_awb.Dram.{
  Event, added, ticked, Completion, read_complete, write_complete, MemorySystem, Dram, finished,
  dram_request, update_cycle, add_transaction, dram_interface,
}
use gcnsim_awb.Dram.Issue.{IsIssued, add_transaction-IsIssued}
use gcnsim_awb.Dram.Steps.{IsValid, here, next, request, Reach-safe}
use gcnsim_awb.Tests.Input.{cfg}

abbrev free : List Event → Bool
free [] = true
free (ticked ∷ h) = true
free (added t ∷ h) = false

abbrev done : List Event → List Completion
done [] = []
done (ticked ∷ h) = []
done (added t ∷ h) = read_complete t.address ∷ []

-- A memory that takes one transaction between two ticks, and completes it at the next tick.
abbrev pub one_slot : MemorySystem
one_slot = record { accepts = λ h t. free h; completes = done; is_queue_fill = λ h. false }

abbrev start : Dram
start = dram_interface cfg 2 8 0

-- Three reads for two memories.
abbrev pub asked : Dram
asked = dram_request 12 false (dram_request 3004 false (dram_request 4 false start))

abbrev waiting : Dram
waiting = record start { f_read_complete = true; f_address = 4 ∷ 12 ∷ [] }

abbrev answers : List Completion
answers = read_complete 3004 ∷ write_complete 5000 ∷ read_complete 4 ∷ []

two_issued :
    add_transaction one_slot cfg asked
    ≡ finished (record asked {
      dram =
          (added (record { address = 4; is_write = false }) ∷ [])
          ∷ (added (record { address = 3004; is_write = false }) ∷ [])
          ∷ [];
      t_queue = record { address = 12; is_write = false } ∷ [];
    })
unfolding add_transaction dram_interface dram_request
two_issued = refl

add_transaction-IsIssued_example :
    (s' : Dram) × (add_transaction one_slot cfg asked ≡ finished s')
    × IsIssued one_slot cfg asked.dram_idx asked s'
unfolding dram_interface dram_request
add_transaction-IsIssued_example = add_transaction-IsIssued one_slot cfg asked refl (omega arith)

Reach-safe_example :
    IsValid cfg (dram_request 4 false start)
    × ((s' : Dram) × (update_cycle one_slot cfg (dram_request 4 false start) ≡ some s')
        × (s'.t_queue ≡ (dram_request 4 false start).t_queue))
    × ((s' : Dram) × (add_transaction one_slot cfg (dram_request 4 false start) ≡ finished s')
        × IsIssued one_slot cfg
            (dram_request 4 false start).dram_idx
            (dram_request 4 false start)
            s')
Reach-safe_example = Reach-safe one_slot cfg 2 8 0 (omega arith) (next here (request start 4 false))
