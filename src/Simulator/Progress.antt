-- ===== src/Simulator/Progress.antt =====
-- RunSimulator.cpp, `AddTransaction` and `UpdateCycle` at the end of each turn: how the queue of
-- transactions empties.
use mathlib.Core.Path.{subst}
use gcnsim_awb.Prelude.{
  ℕ, zero, suc, ◌+◌, ◌*◌, ◌≤◌, ◌<◌, ◌≡◌, refl, inl, inr, ◌⊎◌, ltb, if◌then◌else◌, List, [], ◌∷◌,
  ◌++◌, some, replicate, length, arith, sym, ◌∙◌, ap,
}
use gcnsim_awb.Config.{Config}
use gcnsim_awb.Dram.{Transaction, Event, ticked, MemorySystem, Dram}
use gcnsim_awb.Dram.Issue.{add_transaction-IsIssued}
use gcnsim_awb.Dram.Progress.{AreIdle, IsStuck, update_cycle-AreIdle, add_transaction-progress}
use gcnsim_awb.Dram.Steps.{IsValid, issue-IsValid, update_cycle-IsValid}
use gcnsim_awb.Simulator.{memory_turn, memory_turns}

module _ (m : MemorySystem) (c : Config) (wait : ℕ) where
  -- What one turn does to a queue, between memories that have been left alone for `j` ticks.
  memory_turn-progress :
      (j : ℕ) (d : Dram)
      → IsValid c d
      → AreIdle j 0 d.dram
      → (d' : Dram) × (memory_turn m c d ≡ some d')
        × IsValid c d'
        × ((length d'.t_queue < length d.t_queue)
            ⊎ ((d'.t_queue ≡ d.t_queue)
                × AreIdle (suc j) 0 d'.dram
                × ((d.t_queue ≡ []) ⊎ IsStuck m j d)))
  unfolding memory_turn
  memory_turn-progress j d v idle =
      let (d₁, e, done) = add_transaction-IsIssued m c d v.memories v.index_in in
      let v₁ = issue-IsValid m c d d₁ e v in
      let (d₂, e', v₂, queue) = update_cycle-IsValid m c d₁ v₁ in
      (
        d₂,
        rw (e, e') refl,
        v₂,
        elim (add_transaction-progress m c j d d₁ idle done) [
          | inl less ↦ inl (omega (arith, ap length queue))
          | inr (same, memories, why) ↦ inr (
            queue ∙ same,
            update_cycle-AreIdle m c j d₁ d₂ v₂.memories (subst (AreIdle j 0) (sym memories) idle)
                e',
            why,
          )
        ],
      )

  any-AreIdle : (ds : List (List Event)) → AreIdle 0 0 ds
  any-AreIdle ds k h found =
      let none_yet : 0 ≡ (if ltb k 0 then 1 else 0) = ground arith in
      (h, ap (λ n. replicate n ticked ++ h) none_yet)

  one_less : (a b n j : ℕ) → a < b → j ≤ wait → b * suc wait ≤ suc n + j → a * suc wait ≤ n + 0
  one_less a b n j less near enough = grind arith

  nothing_left : (q : List Transaction) (j : ℕ) → j ≤ wait → length q * suc wait ≤ 0 + j → q ≡ []
  nothing_left [] j near enough = refl
  nothing_left (t ∷ q) j near enough = absurd (grind arith)

  -- At the start of one of the first `n` turns from `d`, a memory whose last `wait` calls were clock ticks
  -- refuses the front of the queue.
  abbrev pub Refuses : ℕ → Dram → Type 0
  Refuses n d = (k : ℕ) × (s : Dram) × (k < n) × (memory_turns m c k d ≡ some s) × IsStuck m wait s

  Refuses-suc :
      (n : ℕ) (d d₁ : Dram) → memory_turn m c d ≡ some d₁ → Refuses n d₁ → Refuses (suc n) d
  unfolding memory_turns
  Refuses-suc n d d₁ e r =
      let (k, s, lt, run, stuck) = r in (suc k, s, omega arith, rw e run, stuck)

  Refuses-here : (n : ℕ) (d : Dram) → IsStuck m wait d → Refuses (suc n) d
  unfolding memory_turns
  Refuses-here n d stuck = (0, d, omega arith, refl, stuck)

  memory_turns-total :
      (n : ℕ) (d : Dram)
      → IsValid c d
      → (d' : Dram) × (memory_turns m c n d ≡ some d') × IsValid c d'
  unfolding memory_turns
  memory_turns-total zero d v = (d, refl, v)
  memory_turns-total (suc n) d v =
      let (d₁, e, v₁, moved) = memory_turn-progress 0 d v (any-AreIdle d.dram) in
      let (d', run, v') = memory_turns-total n d₁ v₁ in (d', rw e run, v')

  near-cases : (j : ℕ) → j ≤ wait → (suc j ≤ wait) ⊎ (j ≡ wait)
  near-cases j near = ground arith

  onward :
      (n : ℕ) (d d₁ : Dram)
      → memory_turn m c d ≡ some d₁
      → (d' : Dram) × (memory_turns m c n d₁ ≡ some d')
        × IsValid c d'
        × ((d'.t_queue ≡ []) ⊎ Refuses n d₁)
      → (d' : Dram) × (memory_turns m c n d₁ ≡ some d')
        × IsValid c d'
        × ((d'.t_queue ≡ []) ⊎ Refuses (suc n) d)
  onward n d d₁ e (d', run, v, inl empty) = (d', run, v, inl empty)
  onward n d d₁ e (d', run, v, inr r) = (d', run, v, inr (Refuses-suc n d d₁ e r))

  drains :
      (n j : ℕ) (d : Dram)
      → IsValid c d
      → AreIdle j 0 d.dram
      → j ≤ wait
      → length d.t_queue * suc wait ≤ n + j
      → (d' : Dram) × (memory_turns m c n d ≡ some d')
        × IsValid c d'
        × ((d'.t_queue ≡ []) ⊎ Refuses n d)
  unfolding memory_turns
  drains zero j d v idle near enough = (d, refl, v, inl (nothing_left d.t_queue j near enough))
  drains (suc n) j d v idle near enough =
      let (d₁, e, v₁, moved) = memory_turn-progress j d v idle in
      let (d', run, v', end) : (d' : Dram) × (memory_turns m c n d₁ ≡ some d')
          × IsValid c d'
          × ((d'.t_queue ≡ []) ⊎ Refuses (suc n) d) =
        elim moved [
          | inl less ↦ onward n d d₁ e (
              drains n 0 d₁ v₁ (any-AreIdle d₁.dram) (omega arith)
                (one_less (length d₁.t_queue) (length d.t_queue) n j less near enough))
          | inr (same, idle', why) ↦ elim why [
            | inl none_left ↦ onward n d d₁ e (
                drains n 0 d₁ v₁ (any-AreIdle d₁.dram) (omega arith)
                  (grind (arith, ap length (same ∙ none_left))))
            | inr stuck ↦ elim (near-cases j near) [
              | inl early ↦ onward n d d₁ e (
                  drains n (suc j) d₁ v₁ idle' early (
                    subst (λ l. length l * suc wait ≤ n + suc j) (sym same)
                      (omega (arith, enough))))
              | inr late ↦
                  let (d', run, v') = memory_turns-total n d₁ v₁ in
                  (d', run, v', inr (Refuses-here n d (subst (λ i. IsStuck m i d) late stuck)))
            ]
          ]
        ] in
      (d', rw e run, v', end)

  -- Whatever the memories do, and for any number `wait`: from a valid state, after `suc wait` cycles for
  -- each transaction in the queue, and with no new requests, the memory interface has faulted nowhere.
  -- Its state is valid, and its queue is empty, unless at the start of one of these cycles there is a
  -- memory whose last `wait` calls were clock ticks and that still refuses the transaction at the front.
  pub memory_turns-drain :
      (d : Dram)
      → IsValid c d
      → (d' : Dram) × (memory_turns m c (length d.t_queue * suc wait) d ≡ some d')
        × IsValid c d'
        × ((d'.t_queue ≡ []) ⊎ Refuses (length d.t_queue * suc wait) d)
  memory_turns-drain d v =
      drains (length d.t_queue * suc wait) 0 d v (any-AreIdle d.dram) (omega arith) (omega arith)
