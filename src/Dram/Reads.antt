-- ===== src/Dram/Reads.antt =====
-- DRAMInterface.cpp: the callbacks of completed transactions, and `GetReadData`.
use mathlib.Core.List.{append-nil, append_assoc}
use gcnsim_awb.Prelude.{
  ℕ, suc, ◌+◌, ◌≤◌, ◌<◌, ◌^◌, ◌≡◌, refl, true, false, not, if◌then◌else◌, ltb, leb, List, [], ◌∷◌,
  ◌++◌, some, is_empty, arith, List-cases, inl, inr, sym, ◌∙◌,
}
use gcnsim_awb.Config.{Config}
use gcnsim_awb.Dram.{
  Completion, read_complete, write_complete, Dram, complete, complete_all, get_read_data,
}

-- The addresses read below the weights, and the other ones, in order.
abbrev pub matrix_reads : Config → List Completion → List ℕ
matrix_reads c [] = []
matrix_reads c (read_complete a ∷ ks) =
    if ltb a c.weight_start then a ∷ matrix_reads c ks else matrix_reads c ks
matrix_reads c (write_complete a ∷ ks) = matrix_reads c ks

abbrev pub other_reads : Config → List Completion → List ℕ
other_reads c [] = []
other_reads c (read_complete a ∷ ks) =
    if ltb a c.weight_start then other_reads c ks else a ∷ other_reads c ks
other_reads c (write_complete a ∷ ks) = other_reads c ks

-- How many results were written.
abbrev pub result_writes : Config → List Completion → ℕ
result_writes c [] = 0
result_writes c (read_complete a ∷ ks) = result_writes c ks
result_writes c (write_complete a ∷ ks) =
    if leb c.axw_start a then suc (result_writes c ks) else result_writes c ks

-- Each flag says that its queue is not empty.
pub record IsConsistent (s : Dram) : Type 0 where
  pub f_flag : s.f_read_complete ≡ not (is_empty s.f_address)
  pub w_flag : s.w_read_complete ≡ not (is_empty s.w_address)

is_empty-append : (xs : List ℕ) (x : ℕ) → is_empty (xs ++ x ∷ []) ≡ false
is_empty-append [] x = refl
is_empty-append (y ∷ xs) x = refl

complete-IsConsistent :
    (c : Config) (k : Completion) (s : Dram) → IsConsistent s → IsConsistent (complete c k s)
unfolding complete
complete-IsConsistent c (read_complete a) s v =
    ground (arith, is_empty-append s.f_address a, is_empty-append s.w_address a)
complete-IsConsistent c (write_complete a) s v = ground arith

pub complete_all-IsConsistent :
    (c : Config) (ks : List Completion) (s : Dram)
    → IsConsistent s
    → IsConsistent (complete_all c ks s)
unfolding complete_all
complete_all-IsConsistent c [] s v = v
complete_all-IsConsistent c (k ∷ ks) s v =
    complete_all-IsConsistent c ks (complete c k s) (complete-IsConsistent c k s v)

-- One completion: where its address goes, and what it counts.
complete_lem :
    (c : Config) (k : Completion) (s : Dram)
    → let s' = complete c k s in
      (s'.f_address ≡ s.f_address ++ matrix_reads c (k ∷ []))
      × (s'.w_address ≡ s.w_address ++ other_reads c (k ∷ []))
      × (s'.t_queue ≡ s.t_queue)
      × (s'.dram ≡ s.dram)
unfolding complete
complete_lem c (read_complete a) s = ground (arith, append-nil s.f_address, append-nil s.w_address)
complete_lem c (write_complete a) s = ground (arith, append-nil s.f_address, append-nil s.w_address)

complete_count :
    (c : Config) (k : Completion) (s : Dram)
    → result_writes c (k ∷ []) ≤ s.tot_axw_count
    → s.tot_axw_count < 2 ^ 64
    → (complete c k s).tot_axw_count + result_writes c (k ∷ []) ≡ s.tot_axw_count
unfolding complete
complete_count c (read_complete a) s h b = ground arith
complete_count c (write_complete a) s h b = ground arith

reads_cons :
    (c : Config) (k : Completion) (ks : List Completion)
    → (matrix_reads c (k ∷ ks) ≡ matrix_reads c (k ∷ []) ++ matrix_reads c ks)
      × (other_reads c (k ∷ ks) ≡ other_reads c (k ∷ []) ++ other_reads c ks)
      × (result_writes c (k ∷ ks) ≡ result_writes c (k ∷ []) + result_writes c ks)
reads_cons c (read_complete a) ks = ground arith
reads_cons c (write_complete a) ks = ground arith

complete-dram_idx :
    (c : Config) (k : Completion) (s : Dram) → (complete c k s).dram_idx ≡ s.dram_idx
unfolding complete
complete-dram_idx c (read_complete a) s = ground arith
complete-dram_idx c (write_complete a) s = ground arith

-- The callbacks of a tick append the completed addresses to the two queues, in order and each to
-- the one that its address belongs to, and leave the transactions alone.
pub complete_all_lem :
    (c : Config) (ks : List Completion) (s : Dram)
    → let s' = complete_all c ks s in
      (s'.f_address ≡ s.f_address ++ matrix_reads c ks)
      × (s'.w_address ≡ s.w_address ++ other_reads c ks)
      × (s'.t_queue ≡ s.t_queue)
      × (s'.dram ≡ s.dram)
unfolding complete_all
complete_all_lem c [] s = (sym (append-nil _), sym (append-nil _), refl, refl)
complete_all_lem c (k ∷ ks) s = grind (
  arith,
  complete_lem c k s,
  complete_all_lem c ks (complete c k s),
  reads_cons c k ks,
  append_assoc s.f_address (matrix_reads c (k ∷ [])) (matrix_reads c ks),
  append_assoc s.w_address (other_reads c (k ∷ [])) (other_reads c ks),
)

pub complete_all-dram_idx :
    (c : Config) (ks : List Completion) (s : Dram) → (complete_all c ks s).dram_idx ≡ s.dram_idx
unfolding complete_all
complete_all-dram_idx c [] s = refl
complete_all-dram_idx c (k ∷ ks) s =
    complete_all-dram_idx c ks (complete c k s) ∙ complete-dram_idx c k s

-- If no more results are written than are outstanding, `tot_axw_count` falls by one for each write of a result.
pub complete_all-count :
    (c : Config) (ks : List Completion) (s : Dram)
    → result_writes c ks ≤ s.tot_axw_count
    → s.tot_axw_count < 2 ^ 64
    → (complete_all c ks s).tot_axw_count + result_writes c ks ≡ s.tot_axw_count
unfolding complete_all
complete_all-count c [] s h b = omega arith
complete_all-count c (k ∷ ks) s h b =
    let (_, _, split) = reads_cons c k ks in
    let one = complete_count c k s (omega arith) b in
    omega (arith, complete_all-count c ks (complete c k s) (omega arith) (omega arith))

-- Where each flag says whether its queue holds an address, a set one means that an address is there: the first one is returned, the others stay in order,
-- and the flags are right again.
pub get_read_data-f :
    (s : Dram)
    → IsConsistent s
    → s.f_read_complete ≡ true
    → (a : ℕ) × (s' : Dram) × (get_read_data false s ≡ some (a, s'))
      × (s.f_address ≡ a ∷ s'.f_address)
      × (s'.w_address ≡ s.w_address)
      × IsConsistent s'
unfolding get_read_data
get_read_data-f s v set = elim (List-cases s.f_address) [
  | inl e ↦ absurd (ground arith)
  | inr (a, rest, e) ↦ (
    a,
    record s {
      f_address = rest;
      f_read_complete = if is_empty rest then false else s.f_read_complete;
    },
    ground arith,
    ground arith,
    ground arith,
    ground arith,
  )
]

pub get_read_data-w :
    (s : Dram)
    → IsConsistent s
    → s.w_read_complete ≡ true
    → (a : ℕ) × (s' : Dram) × (get_read_data true s ≡ some (a, s'))
      × (s.w_address ≡ a ∷ s'.w_address)
      × (s'.f_address ≡ s.f_address)
      × IsConsistent s'
unfolding get_read_data
get_read_data-w s v set = elim (List-cases s.w_address) [
  | inl e ↦ absurd (ground arith)
  | inr (a, rest, e) ↦ (
    a,
    record s {
      w_address = rest;
      w_read_complete = if is_empty rest then false else s.w_read_complete;
    },
    ground arith,
    ground arith,
    ground arith,
    ground arith,
  )
]
