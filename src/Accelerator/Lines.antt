-- ===== src/Accelerator/Lines.antt =====
-- Accelerator.cpp: the addresses of the finished rows.
use gcnsim_awb.Prelude.{
  ℕ, zero, suc, ◌+◌, ◌≡◌, refl, if◌then◌else◌, List, [], ◌∷◌, ◌++◌, inl, inr, Bool-cases, arith, ap,
}
use gcnsim_awb.Prelude.Words.{add64}
use gcnsim_awb.Config.{Config}
use gcnsim_awb.Dram.{Transaction}
use gcnsim_awb.EdgeReader.{ErData, write_of}
use gcnsim_awb.Accelerator.Mac.{writes, address_after}

-- Writes of consecutive lines, and the address behind them.
abbrev pub lines : Config → ℕ → ℕ → List Transaction
lines c address zero = []
lines c address (suc n) = write_of address ∷ lines c (add64 address c.cache_line_byte) n

abbrev pub line_at : Config → ℕ → ℕ → ℕ
line_at c address zero = address
line_at c address (suc n) = line_at c (add64 address c.cache_line_byte) n

-- How many edges end a row.
abbrev pub ends : List ErData → ℕ
ends [] = 0
ends (d ∷ ds) = let n = ends ds in if d.is_end then suc n else n

pub lines-add :
    (c : Config) (address m n k : ℕ)
    → k ≡ m + n
    → lines c address k ≡ lines c address m ++ lines c (line_at c address m) n
lines-add c address zero n k e = ap (lines c address) (omega arith)
lines-add c address (suc m) n zero e = absurd (omega arith)
lines-add c address (suc m) n (suc k) e =
    ap (◌∷◌ (write_of address)) (lines-add c (add64 address c.cache_line_byte) m n k (omega arith))

pub line_at-add :
    (c : Config) (address m n k : ℕ)
    → k ≡ m + n
    → line_at c address k ≡ line_at c (line_at c address m) n
line_at-add c address zero n k e = ap (line_at c address) {x = k} {y = n} (omega arith)
line_at-add c address (suc m) n zero e = absurd (omega arith)
line_at-add c address (suc m) n (suc k) e =
    line_at-add c (add64 address c.cache_line_byte) m n k (omega arith)

pub writes-lines :
    (c : Config) (address : ℕ) (ds : List ErData) → writes c address ds ≡ lines c address (ends ds)
writes-lines c address [] = refl
writes-lines c address (d ∷ ds) = elim (Bool-cases d.is_end) [
  | inl last ↦
      rw last (ap (◌∷◌ (write_of address)) (writes-lines c (add64 address c.cache_line_byte) ds))
  | inr more ↦ rw more (writes-lines c address ds)
]

pub address_after-line_at :
    (c : Config) (address : ℕ) (ds : List ErData)
    → address_after c address ds ≡ line_at c address (ends ds)
address_after-line_at c address [] = refl
address_after-line_at c address (d ∷ ds) = elim (Bool-cases d.is_end) [
  | inl last ↦ rw last (address_after-line_at c (add64 address c.cache_line_byte) ds)
  | inr more ↦ rw more (address_after-line_at c address ds)
]

pub ends-append : (a b : List ErData) → ends (a ++ b) ≡ ends a + ends b
ends-append [] b = omega arith
ends-append (d ∷ a) b = elim (Bool-cases d.is_end) [
  | inl last ↦ rw last (omega (arith, ends-append a b))
  | inr more ↦ rw more (ends-append a b)
]
