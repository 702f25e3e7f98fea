-- ===== src/GlobalBuffer/Weights/Fill.antt =====
-- GlobalBuffer.cpp, `FillWeight`: its calls of the memory interface, and the weights it leaves there.

use gcnsim_awb.Prelude.{
  ℕ, zero, suc, ◌≡◌, refl, true, false, not, ◌==◌, ==_iff, if◌then◌else◌, List, [], ◌∷◌, none, some,
  ◌>>=◌, is_empty, drop, inl, inr, ◌⊎◌, Bool-cases, sym, ◌∙◌, ap,
}
use gcnsim_awb.Prelude.Words.{add64, rounds}
use gcnsim_awb.Config.{Config}
use gcnsim_awb.Dram.{
  MemorySystem, Dram, finished, dram_request, add_transaction, update_cycle, get_read_data,
}
use gcnsim_awb.Dram.Issue.{add_transaction-IsIssued}
use gcnsim_awb.Dram.Reads.{get_read_data-w}
use gcnsim_awb.Dram.Steps.{
  IsValid, issue-IsValid, update_cycle-IsValid, request-IsValid, take-IsValid,
}
use gcnsim_awb.GlobalBuffer.Weights.{
  XwSide, requests_of, memory_cycle, ask_weights, await_weights, take_weights, fill_weight,
}

drop-nil : (n : ℕ) → drop {A = ℕ} n [] ≡ []
drop-nil zero = refl
drop-nil (suc n) = refl

module _ (m : MemorySystem) (c : Config) where
  memory_cycle-run :
      (d d₁ d₂ : Dram) (cycle : ℕ)
      → add_transaction m c d ≡ finished d₁
      → update_cycle m c d₁ ≡ some d₂
      → memory_cycle m c (d, cycle) ≡ some (d₂, add64 cycle 1)
  unfolding memory_cycle
  memory_cycle-run d d₁ d₂ cycle e e' = rw (memory_cycle, e, e') refl

  memory_cycle-IsValid :
      (d : Dram) (cycle : ℕ)
      → IsValid c d
      → (d' : Dram) × (memory_cycle m c (d, cycle) ≡ some (d', add64 cycle 1)) × IsValid c d'
  memory_cycle-IsValid d cycle v =
      let (d₁, e, done) = add_transaction-IsIssued m c d v.memories v.index_in in
      let (d₂, e', v₂, queue) = update_cycle-IsValid m c d₁ (issue-IsValid m c d d₁ e v) in
      (d₂, memory_cycle-run d d₁ d₂ cycle e e', v₂)

  ask_weights-IsValid :
      (n address : ℕ) (d : Dram) (cycle : ℕ)
      → IsValid c d
      → (d' : Dram) × (cycle' : ℕ) × (ask_weights m c n address (d, cycle) ≡ some (d', cycle'))
        × IsValid c d'
  unfolding ask_weights
  ask_weights-IsValid zero address d cycle v = (d, cycle, refl, v)
  ask_weights-IsValid (suc n) address d cycle v =
      let (d₁, e, v₁) =
        memory_cycle-IsValid (dram_request address false d) cycle
          ((request-IsValid m c d address false 0 v).0) in
      let (d', cycle', run, v') =
        ask_weights-IsValid n (add64 address c.cache_line_byte) d₁ (add64 cycle 1) v₁ in
      (d', cycle', rw e run, v')

  -- The loop ends with no read outstanding, or its fuel does.
  await_weights-IsValid :
      (fuel : ℕ) (d : Dram) (cycle : ℕ)
      → IsValid c d
      → (await_weights m c fuel (d, cycle) ≡ some none)
        ⊎ ((d' : Dram) × (cycle' : ℕ) × (await_weights m c fuel (d, cycle)
              ≡ some (some (d', cycle')))
            × (d'.tot_req ≡ 0)
            × IsValid c d')
  unfolding await_weights
  await_weights-IsValid zero d cycle v = elim (Bool-cases (d.tot_req == 0)) [
    | inl over ↦ inr (d, cycle, rw over refl, (==_iff d.tot_req 0).0 over, v)
    | inr more ↦ inl (rw more refl)
  ]
  await_weights-IsValid (suc fuel) d cycle v = elim (Bool-cases (d.tot_req == 0)) [
    | inl over ↦ inr (d, cycle, rw over refl, (==_iff d.tot_req 0).0 over, v)
    | inr more ↦
        let (d₁, e, v₁) = memory_cycle-IsValid d cycle v in
        rw (more, e) (await_weights-IsValid fuel d₁ (add64 cycle 1) v₁)
  ]

  take_weights-suc :
      (n a : ℕ) (d d₁ : Dram)
      → d.w_read_complete ≡ true
      → get_read_data true d ≡ some (a, d₁)
      → take_weights (suc n) d ≡ take_weights n d₁
  unfolding take_weights
  take_weights-suc n a d d₁ some_ e =
      ap
        (λ b. (if b then (get_read_data true d >>= λ q. some (q.1)) else some d) >>= take_weights n)
        some_
      ∙ rw e refl

  take_weights-none :
      (n : ℕ) (d : Dram) → d.w_read_complete ≡ false → take_weights (suc n) d ≡ take_weights n d
  unfolding take_weights
  take_weights-none n d none_ =
      ap
        (λ b. (if b then (get_read_data true d >>= λ q. some (q.1)) else some d) >>= take_weights n)
        none_

  take_weights-drop :
      (n : ℕ) (d : Dram)
      → IsValid c d
      → (d' : Dram) × (take_weights n d ≡ some d')
        × (d'.w_address ≡ drop n d.w_address)
        × IsValid c d'
  unfolding take_weights
  take_weights-drop zero d v = (d, refl, refl, v)
  take_weights-drop (suc n) d v = elim (Bool-cases d.w_read_complete) [
    | inl some_ ↦
        let (a, d₁, e, front, same, consistent) = get_read_data-w d v.consistent some_ in
        let (d', run, rest, v') = take_weights-drop n d₁ (take-IsValid m c d d₁ true a e v) in
        (d', take_weights-suc n a d d₁ some_ e ∙ run, rest ∙ ap (drop (suc n)) (sym front), v')
    | inr none_ ↦
        let empty = no_weights d.w_address (sym v.consistent.w_flag ∙ none_) in
        let (d', run, rest, v') = take_weights-drop n d v in
        (
          d',
          take_weights-none n d none_ ∙ run,
          rest ∙ ap (drop n) empty ∙ drop-nil n ∙ sym (ap (drop (suc n)) empty),
          v',
        )
  ]
    where
      no_weights : (l : List ℕ) → not (is_empty l) ≡ false → l ≡ []
      no_weights [] h = refl
      no_weights (x ∷ l) h = cc

  reset-IsValid : (d : Dram) (n : ℕ) → IsValid c d → IsValid c (record d { tot_req = n })
  reset-IsValid d n v = record {
    consistent = record { f_flag = v.consistent.f_flag; w_flag = v.consistent.w_flag };
    memories = v.memories;
    index_in = v.index_in;
  }

  -- From a valid state of the memory interface, `FillWeight` reads nothing out of range and takes from
  -- no empty queue, whatever the memories answer. Either its second loop still waits after `fuel`
  -- rounds. Or that loop ends in a state `w` in which `tot_req` is 0, and the call ends in a valid state
  -- with the flag set; the first completed weight reads of `w`, one for each memory, are taken from the
  -- queue, and all others stay there.
  pub fill_weight-left :
      (tot_w fuel : ℕ) (s : XwSide) (d : Dram) (cycle : ℕ)
      → IsValid c d
      → (fill_weight m c tot_w fuel s (d, cycle) ≡ some none)
        ⊎ ((s' : XwSide) × (a w d' : Dram) × (asked cycle' : ℕ) × (fill_weight m c tot_w fuel s
                (d, cycle)
              ≡ some (some (s', d', cycle')))
            × (ask_weights m c
                  (rounds (requests_of c tot_w))
                  c.weight_start
                  (record d { tot_req = requests_of c tot_w }, cycle)
                ≡ some (a, asked))
            × (await_weights m c fuel (a, asked) ≡ some (some (w, cycle')))
            × (s'.xwflag.w_fill_complete ≡ true)
            × (w.tot_req ≡ 0)
            × (d'.w_address ≡ drop c.max_dram w.w_address)
            × IsValid c d')
  unfolding fill_weight
  fill_weight-left tot_w fuel s d cycle v =
      let n = requests_of c tot_w in
      let (d₁, cycle₁, asks, v₁) =
        ask_weights-IsValid (rounds n) c.weight_start (record d { tot_req = n }) cycle
          (reset-IsValid d n v) in
      elim (await_weights-IsValid fuel d₁ cycle₁ v₁) [
        | inl waits ↦ inl (rw (asks, waits) refl)
        | inr (w, cycle', waited, over, v₂) ↦
            let (d', takes, rest, v₃) = take_weights-drop c.max_dram w v₂ in
            inr (
              record s { xwflag = record s.xwflag { w_fill_complete = true } },
              d₁,
              w,
              d',
              cycle₁,
              cycle',
              rw (asks, waited, takes) refl,
              asks,
              waited,
              refl,
              over,
              rest,
              v₃,
            )
      ]
