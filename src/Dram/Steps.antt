-- ===== src/Dram/Steps.antt =====
-- DRAMInterface.cpp: sequences of calls of the interface's methods.
use mathlib.Core.Path.{subst}
use gcnsim_awb.Prelude.{
  ℕ, zero, suc, ◌+◌, ◌<◌, ◌≡◌, refl, Bool, true, false, [], some, length, arith, List-cases, inl,
  inr, sym, ◌∙◌, get_elem?-lt, length-replicate, Option-cases,
}
use gcnsim_awb.Config.{Config}
use gcnsim_awb.Dram.{
  MemorySystem, Dram, finished, dram_request, dram_request_id, complete_all, tick_from,
  update_cycle, add_transaction, return_id, find_info, get_read_data, dram_interface, call, ticked,
}
use gcnsim_awb.Dram.Issue.{IsIssued, add_transaction-IsIssued, length-call}
use gcnsim_awb.Dram.Reads.{
  IsConsistent, complete_all-IsConsistent, complete_all_lem, complete_all-dram_idx,
}

pub record IsValid (c : Config) (s : Dram) : Type 0 where
  pub consistent : IsConsistent s
  pub memories : length s.dram ≡ c.max_dram
  pub index_in : s.dram_idx < c.max_dram

-- A call of a method that returns.
pub data Step (m : MemorySystem) (c : Config) : Dram → Dram → Type 0 where
  request :
      (s : Dram) (address : ℕ) (is_write : Bool) → Step m c s (dram_request address is_write s)
  request_id :
      (s : Dram) (address : ℕ) (is_write : Bool) (id : ℕ)
      → Step m c s (dram_request_id address is_write id s)
  tick : (s s' : Dram) → update_cycle m c s ≡ some s' → Step m c s s'
  issue : (s s' : Dram) → add_transaction m c s ≡ finished s' → Step m c s s'
  take : (s s' : Dram) (is_w : Bool) (a : ℕ) → get_read_data is_w s ≡ some (a, s') → Step m c s s'
  identify : (s s' : Dram) (address id : ℕ) → return_id address s ≡ some (id, s') → Step m c s s'

pub data Reach (m : MemorySystem) (c : Config) (s : Dram) : Dram → Type 0 where
  here : Reach m c s s
  next : {t u : Dram} → Reach m c s t → Step m c t u → Reach m c s u

module _ (m : MemorySystem) (c : Config) where
  -- The memories from `i` on are there, so that the ticks fault nowhere.
  tick_from-IsValid :
      (n i : ℕ) (s : Dram)
      → i + n ≡ c.max_dram
      → IsValid c s
      → (s' : Dram) × (tick_from m c n i s ≡ some s') × IsValid c s' × (s'.t_queue ≡ s.t_queue)
  unfolding tick_from
  tick_from-IsValid zero i s e v = (s, refl, v, refl)
  tick_from-IsValid (suc n) i s e v =
      let (h, known) = get_elem?-lt s.dram i (omega (arith, v.memories)) in
      let s₁ : Dram = record s { dram = call s.dram i ticked } in
      let (_, _, queue, same) = complete_all_lem c (m.completes h) s₁ in
      let v₁ : IsValid c s₁ = record {
        consistent = record { f_flag = v.consistent.f_flag; w_flag = v.consistent.w_flag };
        memories = length-call s.dram i ticked ∙ v.memories;
        index_in = v.index_in;
      } in
      let v₂ : IsValid c (complete_all c (m.completes h) s₁) = record {
        consistent = complete_all-IsConsistent c (m.completes h) s₁ v₁.consistent;
        memories = subst (λ ds. length ds ≡ c.max_dram) (sym same) v₁.memories;
        index_in =
            subst (λ k. k < c.max_dram) (sym (complete_all-dram_idx c (m.completes h) s₁))
              v₁.index_in;
      } in
      let (s', run, v', queue') =
        tick_from-IsValid n (i + 1) (complete_all c (m.completes h) s₁) (omega arith) v₂ in
      (s', rw known run, v', queue' ∙ queue)

  -- A clock tick of all memories reads none out of range.
  pub update_cycle-IsValid :
      (s : Dram)
      → IsValid c s
      → (s' : Dram) × (update_cycle m c s ≡ some s') × IsValid c s' × (s'.t_queue ≡ s.t_queue)
  unfolding update_cycle
  update_cycle-IsValid s v = tick_from-IsValid c.max_dram 0 s (omega arith) v

  pub issue-IsValid :
      (s s' : Dram) → add_transaction m c s ≡ finished s' → IsValid c s → IsValid c s'
  issue-IsValid s s' e v =
      let (t, run, done) = add_transaction-IsIssued m c s v.memories v.index_in in
      let same : t ≡ s' = cc in
      subst (IsValid c) same (record {
        consistent =
            subst IsConsistent (sym done.others_same)
              (record { f_flag = v.consistent.f_flag; w_flag = v.consistent.w_flag });
        memories = done.memories ∙ v.memories;
        index_in = done.index_in;
      })

  pub take-IsValid :
      (s s' : Dram) (is_w : Bool) (a : ℕ)
      → get_read_data is_w s ≡ some (a, s')
      → IsValid c s
      → IsValid c s'
  unfolding get_read_data
  take-IsValid s s' false a e v = elim (List-cases s.f_address) [
    | inl k ↦ absurd (ground arith)
    | inr (b, rest, k) ↦ ground arith
  ]
  take-IsValid s s' true a e v = elim (List-cases s.w_address) [
    | inl k ↦ absurd (ground arith)
    | inr (b, rest, k) ↦ ground arith
  ]

  identify-IsValid :
      (s s' : Dram) (address id : ℕ)
      → return_id address s ≡ some (id, s')
      → IsValid c s
      → IsValid c s'
  unfolding return_id
  identify-IsValid s s' address id e v = elim (Option-cases (find_info address s.info)) [
    | inl k ↦ absurd (ground arith)
    | inr ((i, rest), k) ↦ ground arith
  ]

  pub request-IsValid :
      (s : Dram) (address : ℕ) (is_write : Bool) (id : ℕ)
      → IsValid c s
      → IsValid c (dram_request address is_write s)
        × IsValid c (dram_request_id address is_write id s)
  unfolding dram_request dram_request_id
  request-IsValid s address is_write id v = ground arith

  Step-IsValid : {s s' : Dram} → Step m c s s' → IsValid c s → IsValid c s'
  Step-IsValid (request s a w) v = (request-IsValid s a w 0 v).0
  Step-IsValid (request_id s a w id) v = (request-IsValid s a w id v).1
  Step-IsValid (tick s s' e) v =
      let (t, run, valid, _) = update_cycle-IsValid s v in
      let same : t ≡ s' = cc in subst (IsValid c) same valid
  Step-IsValid (issue s s' e) v = issue-IsValid s s' e v
  Step-IsValid (take s s' w a e) v = take-IsValid s s' w a e v
  Step-IsValid (identify s s' a id e) v = identify-IsValid s s' a id e v

  start-IsValid : (req axw xw : ℕ) → 0 < c.max_dram → IsValid c (dram_interface c req axw xw)
  unfolding dram_interface
  start-IsValid req axw xw pos = record {
    consistent = record { f_flag = refl; w_flag = refl };
    memories = length-replicate c.max_dram [];
    index_in = pos;
  }

  reached :
      (req axw xw : ℕ) {s : Dram}
      → 0 < c.max_dram
      → Reach m c (dram_interface c req axw xw) s
      → IsValid c s
  reached req axw xw pos here = start-IsValid req axw xw pos
  reached req axw xw pos (next r st) = Step-IsValid st (reached req axw xw pos r)

  -- With at least one memory, any sequence of calls from the constructor's state leaves flags that
  -- tell exactly whether a completed address waits, and the turn of a memory that exists. There
  -- `UpdateCycle` faults nowhere, and `AddTransaction` ends.
  pub Reach-safe :
      (req axw xw : ℕ) {s : Dram}
      → 0 < c.max_dram
      → Reach m c (dram_interface c req axw xw) s
      → IsValid c s
        × ((s' : Dram) × (update_cycle m c s ≡ some s') × (s'.t_queue ≡ s.t_queue))
        × ((s' : Dram) × (add_transaction m c s ≡ finished s') × IsIssued m c s.dram_idx s s')
  Reach-safe req axw xw {s} pos r =
      let v = reached req axw xw pos r in
      let (s', run, _, queue) = update_cycle-IsValid s v in
      (v, (s', run, queue), add_transaction-IsIssued m c s v.memories v.index_in)
