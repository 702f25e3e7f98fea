-- ===== src/Accelerator/Mac.antt =====
-- Accelerator.cpp: what a call of `MAC` does to the edges in work.
use mathlib.Core.List.{append-nil, append_assoc}
use gcnsim_awb.Prelude.{
  ℕ, zero, suc, ◌≡◌, refl, true, false, if◌then◌else◌, List, [], ◌∷◌, ◌++◌, some, length, take,
  drop, inl, inr, Bool-cases, sym, ◌∙◌, ap, ap₂,
}
use gcnsim_awb.Prelude.Words.{add64}
use gcnsim_awb.Config.{Config}
use gcnsim_awb.Dram.{Dram, Transaction, dram_request}
use gcnsim_awb.EdgeReader.{ErData, write_of}
use gcnsim_awb.Accelerator.{Accelerator, Mac2Data, finish, start_next, mac_loop, mac}

-- Edges that begin their products.
abbrev pub started : List ErData → List Mac2Data
started [] = []
started (d ∷ ds) = record { datum = d; pre_cycle = 0 } ∷ started ds

pub started-append : (a b : List ErData) → started (a ++ b) ≡ started a ++ started b
started-append [] b = refl
started-append (d ∷ a) b = ap (◌∷◌ (record { datum = d; pre_cycle = 0 })) (started-append a b)

pub length-started : (a : List ErData) → length (started a) ≡ length a
length-started [] = refl
length-started (d ∷ a) = ap suc (length-started a)

-- The writes for finished edges, from an address on, and the address behind them.
abbrev pub writes : Config → ℕ → List ErData → List Transaction
writes c address [] = []
writes c address (d ∷ ds) =
    if d.is_end
    then write_of address ∷ writes c (add64 address c.cache_line_byte) ds
    else writes c address ds

abbrev pub address_after : Config → ℕ → List ErData → ℕ
address_after c address [] = address
address_after c address (d ∷ ds) =
    if d.is_end
    then address_after c (add64 address c.cache_line_byte) ds
    else address_after c address ds

-- An accelerator with these edges in work and waiting.
abbrev pub working : Accelerator → List ErData → List ErData → ℕ → Accelerator
working a now later address = record a {
  m2_data = started now;
  a_data = later;
  axw_address = address;
}

abbrev asked : Dram → List Transaction → Dram
asked s ts = record s { t_queue = s.t_queue ++ ts }

module _ (c : Config) (a : Accelerator) where
  start_next-working :
      (now later : List ErData) (address : ℕ)
      → start_next (working a now later address)
        ≡ working a (now ++ take 1 later) (drop 1 later) address
  unfolding start_next
  start_next-working now [] address = ap (λ l. working a l [] address) (sym (append-nil now))
  start_next-working now (d ∷ later) address =
      ap (λ l. record a { m2_data = l; a_data = later; axw_address = address })
        (sym (started-append now (d ∷ [])))

  mac_loop-end :
      (n : ℕ) (d : ErData) (now later : List ErData) (address : ℕ) (s : Dram)
      → d.is_end ≡ true
      → mac_loop c (suc n) 0 (working a (d ∷ now) later address) s
        ≡ mac_loop c n 0
            (start_next (working a now later (add64 address c.cache_line_byte)))
            (dram_request address true s)
  unfolding mac_loop finish
  mac_loop-end n d now later address s e = rw e refl

  mac_loop-more :
      (n : ℕ) (d : ErData) (now later : List ErData) (address : ℕ) (s : Dram)
      → d.is_end ≡ false
      → mac_loop c (suc n) 0 (working a (d ∷ now) later address) s
        ≡ mac_loop c n 0 (start_next (working a now later address)) s
  unfolding mac_loop finish
  mac_loop-more n d now later address s e = rw e refl

  dram_request-asked :
      (address : ℕ) (s : Dram) (ts : List Transaction)
      → asked (dram_request address true s) ts ≡ asked s (write_of address ∷ ts)
  unfolding dram_request
  dram_request-asked address s ts =
      ap (λ l. record s { t_queue = l }) (append_assoc s.t_queue (write_of address ∷ []) ts)

  take-one :
      (fresh later : List ErData) (n : ℕ)
      → (fresh ++ take 1 later) ++ take n (drop 1 later) ≡ fresh ++ take (suc n) later
  take-one fresh [] zero = append-nil (fresh ++ [])
  take-one fresh [] (suc n) = append-nil (fresh ++ [])
  take-one fresh (d ∷ later) n = append_assoc fresh (d ∷ []) (take n later)

  drop-one : (later : List ErData) (n : ℕ) → drop n (drop 1 later) ≡ drop (suc n) later
  drop-one [] zero = refl
  drop-one [] (suc n) = refl
  drop-one (d ∷ later) n = refl

  mac_loop-zero : (b : Accelerator) (s : Dram) → mac_loop c 0 0 b s ≡ some (b, s)
  unfolding mac_loop
  mac_loop-zero b s = refl

  abbrev Works : List ErData → Type 0
  Works now =
      (fresh later : List ErData) (address : ℕ) (s : Dram)
      → mac_loop c (length now) 0 (working a (now ++ fresh) later address) s
        ≡ some (
          working a (fresh ++ take (length now) later) (drop (length now) later)
              (address_after c address now),
          asked s (writes c address now),
        )

  mac_loop-rest :
      (now fresh later : List ErData) (address : ℕ) (s : Dram)
      → Works now
      → mac_loop c (length now) 0 (start_next (working a (now ++ fresh) later address)) s
        ≡ some (
          working a
              (fresh ++ take (suc (length now)) later)
              (drop (suc (length now)) later)
              (address_after c address now),
          asked s (writes c address now),
        )
  mac_loop-rest now fresh later address s works =
      ap (λ b. mac_loop c (length now) 0 b s)
        (start_next-working (now ++ fresh) later address
          ∙ ap (λ l. working a l (drop 1 later) address) (append_assoc now fresh (take 1 later)))
      ∙ works (fresh ++ take 1 later) (drop 1 later) address s
      ∙ ap₂
          (λ l r.
            some (working a l r (address_after c address now), asked s (writes c address now)))
          (take-one fresh later (length now)) (drop-one later (length now))

  -- The rounds for the edges that were in work at the start, in front of those that came since.
  mac_loop-working : (now : List ErData) → Works now
  mac_loop-working [] fresh later address s =
      mac_loop-zero (working a fresh later address) s
      ∙ ap₂ (λ l t. some (working a l later address, record s { t_queue = t }))
          (sym (append-nil fresh)) (sym (append-nil s.t_queue))
  mac_loop-working (d ∷ now) fresh later address s = elim (Bool-cases d.is_end) [
    | inl last ↦
        mac_loop-end (length now) d (now ++ fresh) later address s last
        ∙ mac_loop-rest now fresh later (add64 address c.cache_line_byte)
            (dram_request address true s) (mac_loop-working now)
        ∙ rw (last, dram_request-asked address s (writes c (add64 address c.cache_line_byte) now))
            refl
    | inr more ↦
        mac_loop-more (length now) d (now ++ fresh) later address s more
        ∙ mac_loop-rest now fresh later address s (mac_loop-working now)
        ∙ rw more refl
  ]

-- A call of `MAC`, when the edges in work have not begun: each of them is finished, in order, and leaves
-- its place to the next edge that waits; each one that ends a row gives one write, and the lines follow
-- one another.
pub mac-working :
    (c : Config) (a : Accelerator) (s : Dram) (now : List ErData)
    → a.m2_data ≡ started now
    → mac c a s
      ≡ some (
        working a
            (take (length now) a.a_data)
            (drop (length now) a.a_data)
            (address_after c a.axw_address now),
        record s { t_queue = s.t_queue ++ writes c a.axw_address now },
      )
unfolding mac
mac-working c a s now e =
    ap₂ (λ n l. mac_loop c n 0 (record a { m2_data = l }) s) (ap length e ∙ length-started now)
      (e ∙ ap started (sym (append-nil now)))
    ∙ mac_loop-working c a now [] a.a_data a.axw_address s
