-- ===== src/Simulator/Safety.antt =====
-- RunSimulator.cpp, the loop of `main`: the guards around the memory interface.
use mathlib.Core.Path.{subst}
use gcnsim_awb.Prelude.{
  ℕ, zero, suc, ◌≡◌, refl, true, false, List, [], ◌∷◌, ◌++◌, none, some, >>=-eq-some, some-eq,
  some-ne-none, Bool-cases, Option-cases, inl, inr, arith, sym, ◌∙◌,
}
use gcnsim_awb.Config.{Config}
use gcnsim_awb.Dram.{Transaction, MemorySystem, Dram, dram_request}
use gcnsim_awb.Dram.Issue.{add_transaction-IsIssued}
use gcnsim_awb.Dram.Reads.{get_read_data-f, get_read_data-w}
use gcnsim_awb.Dram.Steps.{
  IsValid, take-IsValid, issue-IsValid, request-IsValid, update_cycle-IsValid,
}
use gcnsim_awb.Prelude.Words.{add64}
use gcnsim_awb.Simulator.Delivery.{units_turn-Delivers}
use gcnsim_awb.Simulator.{
  Simulator, Arrival, no_read, a_read, w_read, read_one, dram_turn, units_turn, send, send_requests,
  memory_turn, turn, turns,
}

module _ (m : MemorySystem) (c : Config) where
  read_one-IsValid :
      (d : Dram)
      → IsValid c d
      → (r : Arrival) × (d' : Dram) × (read_one d ≡ some (r, d')) × IsValid c d'
  unfolding read_one
  read_one-IsValid d v = elim (Bool-cases d.f_read_complete) [
    | inl f ↦
        let (a, d', e, _, _, _) = get_read_data-f d v.consistent f in
        (a_read a, d', ground (arith, e), take-IsValid m c d d' false a e v)
    | inr f ↦ elim (Bool-cases d.w_read_complete) [
      | inl w ↦
          let (a, d', e, _, _, _) = get_read_data-w d v.consistent w in
          (w_read a, d', ground (arith, e), take-IsValid m c d d' true a e v)
      | inr w ↦ (no_read, d, ground arith, v)
    ]
  ]

  dram_turn-IsValid :
      (n : ℕ) (d : Dram)
      → IsValid c d
      → (rs : List Arrival) × (d' : Dram) × (dram_turn n d ≡ some (rs, d')) × IsValid c d'
  unfolding dram_turn
  dram_turn-IsValid zero d v = ([], d, refl, v)
  dram_turn-IsValid (suc n) d v =
      let (r, d', e, v') = read_one-IsValid d v in
      let (rs, d'', e', v'') = dram_turn-IsValid n d' v' in (r ∷ rs, d'', rw (e, e') refl, v'')

  send-IsValid : (ts : List Transaction) (d : Dram) → IsValid c d → IsValid c (send ts d)
  unfolding send
  send-IsValid [] d v = v
  send-IsValid (t ∷ ts) d v =
      send-IsValid ts (dram_request t.address t.is_write d)
        ((request-IsValid m c d t.address t.is_write 0 v).0)

  memory_turn-IsValid :
      (d : Dram) → IsValid c d → (d' : Dram) × (memory_turn m c d ≡ some d') × IsValid c d'
  unfolding memory_turn
  memory_turn-IsValid d v =
      let (d', e, _) = add_transaction-IsIssued m c d v.memories v.index_in in
      let (d'', e', v'', _) = update_cycle-IsValid m c d' (issue-IsValid m c d d' e v) in
      (d'', rw (e, e') refl, v'')

  -- A turn whose units do not fault returns, with the memory interface valid again.
  rest-IsValid :
      (s s₁ : Simulator) (rs : List Arrival) (d : Dram)
      → IsValid c d
      → dram_turn c.max_dram s.dram ≡ some (rs, d)
      → units_turn c rs (record s { dram = d }) ≡ some s₁
      → (s' : Simulator) × (turn m c s ≡ some s') × IsValid c s'.dram
  unfolding turn send_requests
  rest-IsValid s s₁ rs d v h k =
      let (_, same) = units_turn-Delivers c rs (record s { dram = d }) s₁ k in
      let sent = send (s₁.vr.requests ++ s₁.er.requests) s₁.dram in
      let v₁ : IsValid c sent =
        send-IsValid (s₁.vr.requests ++ s₁.er.requests) s₁.dram (subst (IsValid c) (sym same) v) in
      let (d', e, v') = memory_turn-IsValid sent v₁ in
      (record (send_requests s₁) { dram = d'; cycle = add64 s₁.cycle 1 }, rw (h, k, e) refl, v')

  turn-IsValid : (s s' : Simulator) → IsValid c s.dram → turn m c s ≡ some s' → IsValid c s'.dram
  unfolding turn
  turn-IsValid s s' v e =
      let (rs, d, h, v₁) = dram_turn-IsValid c.max_dram s.dram v in
      let (r, h', e₁) = >>=-eq-some (dram_turn c.max_dram s.dram) _ e in
      let (t, k, _) = >>=-eq-some (units_turn c r.0 (record s { dram = r.1 })) _ e₁ in
      let same : r ≡ (rs, d) = cc in
      let k' : units_turn c rs (record s { dram = d }) ≡ some t =
        subst (λ z. units_turn c z.0 (record s { dram = z.1 }) ≡ some t) same k in
      let (s'', e', v'') = rest-IsValid s t rs d v₁ h k' in
      subst (λ z. IsValid c z.dram) (some-eq (sym e' ∙ e)) v''

  turns-IsValid :
      (n : ℕ) (s s' : Simulator) → IsValid c s.dram → turns m c n s ≡ some s' → IsValid c s'.dram
  unfolding turns
  turns-IsValid zero s s' v e = subst (λ z. IsValid c z.dram) (some-eq e) v
  turns-IsValid (suc n) s s' v e =
      let (t, h, k) = >>=-eq-some (turn m c s) _ e in turns-IsValid n t s' (turn-IsValid s t v h) k

  -- From a state with a valid memory interface, after any number of turns, the interface is valid. If
  -- the next turn faults, it is the controller or a reader that does: the guards of the loop keep
  -- `GetReadData` from an empty queue, `AddTransaction` ends, and `UpdateCycle` reads no memory out
  -- of range.
  pub turns-fault :
      (n : ℕ) (s s' : Simulator)
      → IsValid c s.dram
      → turns m c n s ≡ some s'
      → turn m c s' ≡ none
      → IsValid c s'.dram
        × ((rs : List Arrival) × (d : Dram) × (dram_turn c.max_dram s'.dram ≡ some (rs, d))
            × (units_turn c rs (record s' { dram = d }) ≡ none))
  turns-fault n s s' v e f =
      let v' = turns-IsValid n s s' v e in
      let (rs, d, h, v₁) = dram_turn-IsValid c.max_dram s'.dram v' in
      (
        v',
        elim (Option-cases (units_turn c rs (record s' { dram = d }))) [
          | inl k ↦ (rs, d, h, k)
          | inr (t, k) ↦
              let (s'', e', _) = rest-IsValid s' t rs d v₁ h k in absurd (some-ne-none (sym e' ∙ f))
        ],
      )
