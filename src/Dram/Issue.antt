-- ===== src/Dram/Issue.antt =====
-- DRAMInterface.cpp, `AddTransaction`.
use gcnsim_awb.Prelude.{
  ℕ, zero, suc, ◌+◌, ◌-◌, ◌*◌, ◌≤◌, ◌<◌, ◌≡◌, refl, ◌⊎◌, inl, inr, true, false, ◌==◌, if◌then◌else◌,
  ltb, List, [], ◌∷◌, some, get_elem?, get_elem?-lt, length, arith, List-cases, Bool-cases, ==_iff,
  ap, sym, ◌∙◌,
}
use mathlib.Core.Path.{subst}
use gcnsim_awb.Config.{Config}
use gcnsim_awb.Dram.{
  Transaction, Event, added, MemorySystem, Dram, finished, index_next, call, can_request, add_loop,
  add_transaction,
}

-- From the histories `ds` and the queue `q`, handing transactions from the front of the queue to
-- memories that accept them leads to the histories `es` and the queue `r`.
pub data Issues (m : MemorySystem)
    : List (List Event) → List Transaction → List (List Event) → List Transaction → Type 0 where
  stop : {ds : List (List Event)} {q : List Transaction} → Issues m ds q ds q
  issue :
      {ds es : List (List Event)} {q r : List Transaction} (i : ℕ) {h : List Event}
      {t : Transaction}
      → get_elem? ds i ≡ some h
      → m.accepts h t ≡ true
      → Issues m (call ds i (added t)) q es r
      → Issues m ds (t ∷ q) es r

-- The front of the queue is refused by the memory before `check`.
pub record IsRefused (m : MemorySystem) (c : Config) (check : ℕ) (s : Dram) : Type 0 where
  pub front : Transaction
  pub others : List Transaction
  pub index : ℕ
  pub history : List Event
  pub is_front : s.t_queue ≡ front ∷ others
  pub is_history : get_elem? s.dram index ≡ some history
  pub refused : m.accepts history front ≡ false
  pub before : index_next c.max_dram index ≡ check

-- What the loop has done when it ends.
pub record IsIssued (m : MemorySystem) (c : Config) (check : ℕ) (s s' : Dram) : Type 0 where
  pub issues : Issues m s.dram s.t_queue s'.dram s'.t_queue
  pub index_in : s'.dram_idx < c.max_dram
  pub memories : length s'.dram ≡ length s.dram
  pub stopped : (s'.t_queue ≡ []) ⊎ IsRefused m c check s'
  pub others_same : s' ≡ record s { dram = s'.dram; t_queue = s'.t_queue; dram_idx = s'.dram_idx }

pub length-call : (ds : List (List Event)) (i : ℕ) (e : Event) → length (call ds i e) ≡ length ds
length-call [] i e = refl
length-call (h ∷ ds) zero e = refl
length-call (h ∷ ds) (suc i) e = ap suc (length-call ds i e)

-- The steps from the index `i` round to `check`.
abbrev dist : ℕ → ℕ → ℕ → ℕ
dist n i check = if ltb i check then check - i else n + check - i

dist-next :
    (n i check : ℕ)
    → i < n
    → check < n
    → (index_next n i == check) ≡ false
    → dist n (index_next n i) check < dist n i check
unfolding index_next
dist-next n i check h k e = ground arith

dist_bounds :
    (n i check : ℕ)
    → i < n
    → check < n
    → (dist n i check ≤ n) × (index_next n i < n) × (0 < dist n i check)
unfolding index_next
dist_bounds n i check h k = ground arith

module _ (m : MemorySystem) (c : Config) where
  can_request_lem :
      (s : Dram) (t : Transaction) (rest : List Transaction) (h : List Event)
      → s.t_queue ≡ t ∷ rest
      → get_elem? s.dram s.dram_idx ≡ some h
      → can_request m c s.dram_idx s ≡ some (m.accepts h t)
  unfolding can_request
  can_request_lem s t rest h e k = rw (e, k)

  abbrev moved : Dram → Dram
  moved s = record s { dram_idx = index_next c.max_dram s.dram_idx }

  abbrev after_issue : Dram → Transaction → List Transaction → Dram
  after_issue s t rest = record s {
    dram = call s.dram s.dram_idx (added t);
    t_queue = rest;
    dram_idx = index_next c.max_dram s.dram_idx;
  }

  fuel_accepted :
      (s : Dram) (rest : List Transaction) (check fuel : ℕ)
      → length s.t_queue ≡ suc (length rest)
      → dist c.max_dram (index_next c.max_dram s.dram_idx) check ≤ c.max_dram
      → 0 < dist c.max_dram s.dram_idx check
      → length s.t_queue * c.max_dram + dist c.max_dram s.dram_idx check < suc fuel
      → length rest * c.max_dram + dist c.max_dram (index_next c.max_dram s.dram_idx) check < fuel
  fuel_accepted s rest check fuel e near pos enough =
      omega (arith, ap (λ (n : ℕ). n * c.max_dram) e)

  module _ (fuel check : ℕ) (s : Dram) where
    add_loop-nil : s.t_queue ≡ [] → add_loop m c (suc fuel) check s ≡ finished s
    unfolding add_loop
    add_loop-nil e = ground arith

    module _ (t : Transaction) (rest : List Transaction) (e : s.t_queue ≡ t ∷ rest) where
      add_loop-accepted :
          can_request m c s.dram_idx s ≡ some true
          → add_loop m c (suc fuel) check s ≡ add_loop m c fuel check (after_issue s t rest)
      unfolding add_loop
      add_loop-accepted asked = ground arith

      add_loop-last :
          can_request m c s.dram_idx s ≡ some false
          → (index_next c.max_dram s.dram_idx == check) ≡ true
          → add_loop m c (suc fuel) check s ≡ finished (moved s)
      unfolding add_loop
      add_loop-last asked last = ground arith

      add_loop-more :
          can_request m c s.dram_idx s ≡ some false
          → (index_next c.max_dram s.dram_idx == check) ≡ false
          → add_loop m c (suc fuel) check s ≡ add_loop m c fuel check (moved s)
      unfolding add_loop
      add_loop-more asked more = ground arith

  add_loop-IsIssued :
      (fuel check : ℕ) (s : Dram)
      → length s.dram ≡ c.max_dram
      → s.dram_idx < c.max_dram
      → check < c.max_dram
      → length s.t_queue * c.max_dram + dist c.max_dram s.dram_idx check < fuel
      → (s' : Dram) × (add_loop m c fuel check s ≡ finished s') × IsIssued m c check s s'
  unfolding add_loop
  add_loop-IsIssued zero check s len idx chk enough = absurd (omega arith)
  add_loop-IsIssued (suc fuel) check s len idx chk enough = elim (List-cases s.t_queue) [
    | inl e ↦ (
      s,
      add_loop-nil fuel check s e,
      record {
        issues = stop;
        index_in = idx;
        memories = refl;
        stopped = inl e;
        others_same = refl;
      },
    )
    | inr (t, rest, e) ↦
        let (h, known) = get_elem?-lt s.dram s.dram_idx (omega (arith, len)) in
        let (near, idx', pos) = dist_bounds c.max_dram s.dram_idx check idx chk in
        let (near', idx'', pos') =
          dist_bounds c.max_dram (index_next c.max_dram s.dram_idx) check idx' chk in
        let asked = can_request_lem s t rest h e known in
        elim (Bool-cases (m.accepts h t)) [
          | inl accepted ↦
              let (s', run, done) =
                add_loop-IsIssued fuel check (after_issue s t rest)
                  (omega (arith, len, length-call s.dram s.dram_idx (added t))) idx' chk
                  (fuel_accepted s rest check fuel (ap length e) near' pos enough) in
              (
                s',
                add_loop-accepted fuel check s t rest e (asked ∙ ap some accepted) ∙ run,
                record {
                  issues =
                      subst (λ q. Issues m s.dram q s'.dram s'.t_queue) (sym e)
                        (issue s.dram_idx known accepted done.issues);
                  index_in = done.index_in;
                  memories = done.memories ∙ length-call s.dram s.dram_idx (added t);
                  stopped = done.stopped;
                  others_same = done.others_same;
                },
              )
          | inr refused ↦ elim (Bool-cases (index_next c.max_dram s.dram_idx == check)) [
            | inl last ↦ (
              moved s,
              add_loop-last fuel check s t rest e (asked ∙ ap some refused) last,
              record {
                issues = stop;
                index_in = idx';
                memories = refl;
                stopped = inr (record {
                  front = t;
                  others = rest;
                  index = s.dram_idx;
                  history = h;
                  is_front = e;
                  is_history = known;
                  refused = refused;
                  before = (==_iff _ _).0 last;
                });
                others_same = refl;
              },
            )
            | inr more ↦
                let (s', run, done) =
                  add_loop-IsIssued fuel check (moved s) len idx' chk
                    (omega (arith, enough, dist-next c.max_dram s.dram_idx check idx chk more)) in
                (
                  s',
                  add_loop-more fuel check s t rest e (asked ∙ ap some refused) more ∙ run,
                  record {
                    issues = done.issues;
                    index_in = done.index_in;
                    memories = done.memories;
                    stopped = done.stopped;
                    others_same = done.others_same;
                  },
                )
          ]
        ]
  ]

  -- On as many memories as there are histories, and at least one, `AddTransaction` ends within its
  -- fuel and reads no memory out of range. Transactions left the queue from the front, each for a
  -- memory that accepted it at that point. At the end the queue is empty, or its front was just
  -- refused by the memory before the one that the call began with. Nothing else changes.
  pub add_transaction-IsIssued :
      (s : Dram)
      → length s.dram ≡ c.max_dram
      → s.dram_idx < c.max_dram
      → (s' : Dram) × (add_transaction m c s ≡ finished s') × IsIssued m c s.dram_idx s s'
  unfolding add_transaction
  add_transaction-IsIssued s len idx =
      add_loop-IsIssued (suc (length s.t_queue * c.max_dram + c.max_dram)) s.dram_idx s len idx idx
        (ground arith)
