-- ===== src/Accelerator/Finish.antt =====
-- Accelerator.cpp: calls of `MAC` until nothing is left.

use mathlib.Core.List.{append-nil}
use gcnsim_awb.Prelude.{
  ℕ, zero, suc, ◌+◌, ◌≤◌, ◌<◌, ◌≡◌, refl, List, [], ◌∷◌, ◌++◌, Option, some, ◌>>=◌, length,
  length-append, inl, inr, take, drop, take-append-drop, arith, sym, ◌∙◌, ap,
}
use gcnsim_awb.Config.{Config}
use gcnsim_awb.Dram.{Dram}
use gcnsim_awb.EdgeReader.{ErData}
use gcnsim_awb.Accelerator.{Accelerator, mac}
use gcnsim_awb.Accelerator.Lines.{lines, ends}
use gcnsim_awb.Accelerator.Mac.{length-started, address_after, working, mac-working}
use gcnsim_awb.Accelerator.Flow.{Reach, IsFlowing, Reach-IsFlowing, multiplied, start, limit}

-- `n` calls of `MAC`.
abbrev pub macs : Config → ℕ → Accelerator → Dram → Option (Accelerator × Dram)
macs c zero a s = some (a, s)
macs c (suc n) a s = mac c a s >>= λ q. macs c n (q.0) (q.1)

module _ (c : Config) (axw_offset pe : ℕ) (s₀ : Dram)
    (positive : 0 < limit c axw_offset pe s₀) where
  -- The edges that are not finished.
  abbrev left : Accelerator → ℕ
  left a = length a.m2_data + length a.a_data

  nothing : {A : Type 0} (l : List A) → length l ≤ 0 → l ≡ []
  nothing [] h = refl
  nothing (x ∷ l) h = absurd (omega arith)

  left-working :
      (r : List ErData) (z n : ℕ) (a : Accelerator) (s : Dram)
      (f : IsFlowing c axw_offset pe s₀ r z a s)
      → left a ≤ suc n
      → left (
          working a
            (take (length f.now) a.a_data)
            (drop (length f.now) a.a_data)
            (address_after c a.axw_address f.now))
        ≤ n
  left-working r z n a s f h =
      let k = length f.now in
      let size : length a.m2_data ≡ k = ap length f.in_work ∙ length-started f.now in
      let all = length-append (take k a.a_data) (drop k a.a_data) in
      let whole = ap length (take-append-drop k a.a_data) in
      elim f.full [
        | inl none_ ↦ omega (arith, length-started (take k a.a_data), all, whole, ap length none_)
        | inr full_ ↦ omega (arith, length-started (take k a.a_data), all, whole, full_, positive)
      ]

  -- Nothing is left: every edge received is finished.
  done-asked :
      (r : List ErData) (z : ℕ) (a : Accelerator) (s : Dram)
      → IsFlowing c axw_offset pe s₀ r z a s
      → left a ≤ 0
      → s.t_queue ≡ s₀.t_queue ++ lines c (start c axw_offset pe s₀) (ends r + z)
  done-asked r z a s f h =
      let size : length a.m2_data ≡ length f.now = ap length f.in_work ∙ length-started f.now in
      let none_ : f.now ++ a.a_data ≡ [] =
        nothing (f.now ++ a.a_data) (omega (arith, length-append f.now a.a_data)) in
      f.asked
      ∙ ap (λ l. s₀.t_queue ++ lines c (start c axw_offset pe s₀) (ends l + z))
          (sym (f.received ∙ ap (λ l. f.finished ++ l) none_ ∙ append-nil f.finished))

  -- After any calls that received the edges `r` and wrote `z` zero rows, with at least one place: as many
  -- calls of `MAC` as there are edges in work and waiting finish them all, and the memory has been asked
  -- for the writes of consecutive lines, one for each row that ended and one for each zero row.
  pub macs-finish :
      (n : ℕ) (r : List ErData) (z : ℕ) (a : Accelerator) (s : Dram)
      → Reach c axw_offset pe s₀ r z a s
      → length a.m2_data + length a.a_data ≤ n
      → (a' : Accelerator) × (s' : Dram) × (macs c n a s ≡ some (a', s'))
        × (a'.m2_data ≡ [])
        × (a'.a_data ≡ [])
        × (s'.t_queue ≡ s₀.t_queue ++ lines c (start c axw_offset pe s₀) (ends r + z))
  macs-finish zero r z a s reach h = (
    a,
    s,
    refl,
    nothing a.m2_data (omega arith),
    nothing a.a_data (omega arith),
    done-asked r z a s (Reach-IsFlowing c axw_offset pe s₀ reach) h,
  )
  macs-finish (suc n) r z a s reach h =
      let f = Reach-IsFlowing c axw_offset pe s₀ reach in
      let run = mac-working c a s f.now f.in_work in
      let (a', s', rest, m, w, q) =
        macs-finish n r z _ _ (multiplied reach run) (left-working r z n a s f h) in
      (a', s', rw run rest, m, w, q)
