-- ===== src/Dram/Progress.antt =====
-- DRAMInterface.cpp: how long the memories have been left alone when `AddTransaction` and `UpdateCycle`
-- return.
use mathlib.Core.Path.{subst}
use gcnsim_awb.Prelude.{
  ℕ, zero, suc, ◌+◌, ◌≤◌, ◌<◌, ◌≡◌, ◌≢◌, refl, ◌⊎◌, inl, inr, false, if◌then◌else◌, ltb, List, [],
  ◌∷◌, ◌++◌, some, >>=-eq-some, some-eq, replicate, get_elem?, get_elem?-in, length, arith, ap, sym,
  ◌∙◌,
}
use gcnsim_awb.Config.{Config}
use gcnsim_awb.Dram.{
  Transaction, Event, ticked, MemorySystem, Dram, call, complete_all, tick_from, update_cycle,
}
use gcnsim_awb.Dram.Issue.{Issues, stop, issue, IsRefused, IsIssued}
use gcnsim_awb.Dram.Reads.{complete_all_lem}

-- The last calls of a memory were that many clock ticks.
abbrev pub IsIdle : ℕ → List Event → Type 0
IsIdle j h = (before : List Event) × (h ≡ replicate j ticked ++ before)

-- Each memory has been left alone for that many ticks, and the ones before `i` for one more.
abbrev pub AreIdle : ℕ → ℕ → List (List Event) → Type 0
AreIdle j i ds =
    (k : ℕ) (h : List Event) → get_elem? ds k ≡ some h → IsIdle (if ltb k i then suc j else j) h

call-cases :
    (ds : List (List Event)) (i k : ℕ) (e : Event) (h : List Event)
    → get_elem? (call ds i e) k ≡ some h
    → ((k ≡ i) × ((g : List Event) × (get_elem? ds i ≡ some g) × (h ≡ e ∷ g)))
      ⊎ ((k ≢ i) × (get_elem? ds k ≡ some h))
call-cases [] i k e h q = absurd (cc)
call-cases (g ∷ ds) zero zero e h q = inl (refl, (g, refl, sym (some-eq q)))
call-cases (g ∷ ds) zero (suc k) e h q = inr (omega arith, q)
call-cases (g ∷ ds) (suc i) zero e h q = inr (omega arith, q)
call-cases (g ∷ ds) (suc i) (suc k) e h q = elim (call-cases ds i k e h q) [
  | inl (same, found) ↦ inl (ap suc same, found)
  | inr (other, found) ↦ inr (omega (arith, other), found)
]

call-AreIdle :
    (j i : ℕ) (ds : List (List Event)) → AreIdle j i ds → AreIdle j (i + 1) (call ds i ticked)
call-AreIdle j i ds idle k h q = elim (call-cases ds i k ticked h q) [
  | inl (same, rest) ↦
      let (g, found, e) = rest in
      let now : (if ltb i i then suc j else j) ≡ j = ground arith in
      let then_ : suc j ≡ (if ltb k (i + 1) then suc j else j) = ground arith in
      let (before, e') = subst (λ n. IsIdle n g) now (idle i g found) in
      subst (λ n. IsIdle n h) then_ (before, e ∙ ap (◌∷◌ ticked) e')
  | inr (other, found) ↦
      let unmoved : (if ltb k i then suc j else j) ≡ (if ltb k (i + 1) then suc j else j) =
        ground arith in
      subst (λ n. IsIdle n h) unmoved (idle k h found)
]

Issues-length :
    {m : MemorySystem} {ds es : List (List Event)} {q r : List Transaction}
    → Issues m ds q es r
    → length r ≤ length q
Issues-length stop = omega arith
Issues-length (issue i found ok rest) = omega (arith, Issues-length rest)

Issues-cases :
    {m : MemorySystem} {ds es : List (List Event)} {q r : List Transaction}
    → Issues m ds q es r
    → (length r < length q) ⊎ ((r ≡ q) × (es ≡ ds))
Issues-cases stop = inr (refl, refl)
Issues-cases (issue i found ok rest) = inl (omega (arith, Issues-length rest))

-- A memory that was left alone for `j` ticks refuses the transaction at the front of the queue.
pub record IsStuck (m : MemorySystem) (j : ℕ) (s : Dram) : Type 0 where
  pub front : Transaction
  pub others : List Transaction
  pub index : ℕ
  pub before : List Event
  pub is_front : s.t_queue ≡ front ∷ others
  pub is_history : get_elem? s.dram index ≡ some (replicate j ticked ++ before)
  pub refused : m.accepts (replicate j ticked ++ before) front ≡ false

module _ (m : MemorySystem) (c : Config) where
  tick_from-AreIdle :
      (j n i : ℕ) (s s' : Dram)
      → AreIdle j i s.dram
      → tick_from m c n i s ≡ some s'
      → AreIdle j (i + n) s'.dram
  unfolding tick_from
  tick_from-AreIdle j zero i s s' idle e =
      subst (λ l. AreIdle j l s'.dram) (omega arith)
        (subst (λ t. AreIdle j i t.dram) (some-eq e) idle)
  tick_from-AreIdle j (suc n) i s s' idle e =
      let (h, found, e') = >>=-eq-some (get_elem? s.dram i) _ e in
      let s₁ : Dram = record s { dram = call s.dram i ticked } in
      let (_, _, _, same) = complete_all_lem c (m.completes h) s₁ in
      subst (λ l. AreIdle j l s'.dram) (omega arith)
        (tick_from-AreIdle j n (i + 1) (complete_all c (m.completes h) s₁) s'
          (subst (AreIdle j (i + 1)) (sym same) (call-AreIdle j i s.dram idle)) e')

  -- A tick of all memories.
  pub update_cycle-AreIdle :
      (j : ℕ) (s s' : Dram)
      → length s'.dram ≡ c.max_dram
      → AreIdle j 0 s.dram
      → update_cycle m c s ≡ some s'
      → AreIdle (suc j) 0 s'.dram
  unfolding update_cycle
  update_cycle-AreIdle j s s' len idle e k h found =
      let all = tick_from-AreIdle j c.max_dram 0 s s' idle e in
      let inside = get_elem?-in s'.dram k found in
      let last : (if ltb k (0 + c.max_dram) then suc j else j)
          ≡ (if ltb k 0 then suc (suc j) else suc j) =
        ground (arith, len) in
      subst (λ n. IsIdle n h) last (all k h found)

  refused-IsStuck :
      (j check : ℕ) (s s' : Dram)
      → s'.t_queue ≡ s.t_queue
      → s'.dram ≡ s.dram
      → AreIdle j 0 s.dram
      → IsRefused m c check s'
      → IsStuck m j s
  refused-IsStuck j check s s' queue same idle r =
      let there = ap (λ ds. get_elem? ds r.index) (sym same) ∙ r.is_history in
      let now : (if ltb r.index 0 then suc j else j) ≡ j = ground arith in
      let (before, e) = subst (λ n. IsIdle n r.history) now (idle r.index r.history there) in
      record {
        front = r.front;
        others = r.others;
        index = r.index;
        before = before;
        is_front = sym queue ∙ r.is_front;
        is_history = there ∙ ap some e;
        refused = ap (λ h. m.accepts h r.front) (sym e) ∙ r.refused;
      }

  -- Either a transaction is handed over, or the memories stay as they are, and then the queue is empty or
  -- a memory that was left alone for `j` ticks refuses its front.
  pub add_transaction-progress :
      (j : ℕ) (s s' : Dram)
      → AreIdle j 0 s.dram
      → IsIssued m c s.dram_idx s s'
      → (length s'.t_queue < length s.t_queue)
        ⊎ ((s'.t_queue ≡ s.t_queue) × (s'.dram ≡ s.dram) × ((s.t_queue ≡ []) ⊎ IsStuck m j s))
  add_transaction-progress j s s' idle done = elim (Issues-cases done.issues) [
    | inl less ↦ inl less
    | inr (queue, same) ↦ inr (
      queue,
      same,
      elim (done.stopped) [
        | inl empty ↦ inl (sym queue ∙ empty)
        | inr r ↦ inr (refused-IsStuck j s.dram_idx s s' queue same idle r)
      ],
    )
  ]
