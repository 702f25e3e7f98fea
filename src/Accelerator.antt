-- ===== src/Accelerator.antt =====
-- Accelerator.cpp: the edges whose products a unit computes, and the writes of finished rows. A feature
-- value is the pattern of its `float`, which nothing here computes with; `pre_cycle` is an `int`, kept as
-- its pattern. `CACHE_LINE_COUNT` is positive. The members that no method reads
-- behind the constructor are left out.
pub mod Mac
pub mod Lines
pub mod Flow
pub mod Finish
use gcnsim_awb.Prelude.{
  ℕ, zero, suc, ◌+◌, ◌%◌, ◌^◌, Bool, true, false, not, ◌==◌, ltb, if◌then◌else◌, List, [], ◌∷◌,
  ◌++◌, Option, none, some, ◌>>=◌, pop_front, get_elem?, set, length,
}
use gcnsim_awb.Prelude.Words.{add64}
use gcnsim_awb.Prelude.Floats.{float_ceil_div}
use gcnsim_awb.Config.{Config}
use gcnsim_awb.Dram.{Dram, dram_request}
use gcnsim_awb.EdgeReader.{ErData}

pub record XrData : Type 0 where
  pub ifvalue : ℕ
  pub is_end : Bool

-- The sources call the first field `data`.
pub record Mac1Data : Type 0 where
  pub datum : XrData
  pub pre_cycle : ℕ

pub record Mac2Data : Type 0 where
  pub datum : ErData
  pub pre_cycle : ℕ

pub record Accelerator : Type 0 where
  pub is_a : Bool
  pub limit : ℕ
  pub axw_address : ℕ
  pub x_data : List XrData
  pub a_data : List ErData
  pub m1_data : List Mac1Data
  pub m2_data : List Mac2Data

-- `MAC_CYCLE`.
abbrev pub mac_cycle : ℕ
mac_cycle = 1

unfoldable pub accelerator : Config → ℕ → ℕ → Accelerator
accelerator c axw_offset pe = record {
  is_a = false;
  limit = float_ceil_div pe c.cache_line_count;
  axw_address = add64 c.axw_start axw_offset;
  x_data = [];
  a_data = [];
  m1_data = [];
  m2_data = [];
}

unfoldable pub can_receive : Accelerator → Bool
can_receive a =
    if not a.is_a then ltb (length a.m1_data) a.limit else ltb (length a.m2_data) a.limit

-- `ReceiveData(XRData)`.
unfoldable pub receive_xr_data : XrData → Accelerator → Accelerator
unfolding can_receive
receive_xr_data d a =
    if can_receive a
    then record a { m1_data = a.m1_data ++ record { datum = d; pre_cycle = 0 } ∷ [] }
    else record a { x_data = a.x_data ++ d ∷ [] }

-- `ReceiveData(ERData)`.
unfoldable pub receive_er_data : ErData → Accelerator → Accelerator
unfolding can_receive
receive_er_data d a =
    if can_receive a
    then record a { m2_data = a.m2_data ++ record { datum = d; pre_cycle = 0 } ∷ [] }
    else record a { a_data = a.a_data ++ d ∷ [] }

-- The write of a line of the result.
abbrev pub write_line : Config → Accelerator → Dram → Accelerator × Dram
write_line c a s = (
  record a { axw_address = add64 a.axw_address c.cache_line_byte },
  dram_request a.axw_address true s,
)

-- `WriteZeroRow`, with the global `zero_row`.
unfoldable pub write_zero_row :
    Config → List ℕ → Accelerator → Dram → Option (List ℕ × Accelerator × Dram)
write_zero_row c zero_row a s = do
  (row, rest) ← pop_front zero_row
  let (a', s') = write_line c a s
  some (rest, a', s')

-- `v.erase(v.begin() + i)`.
abbrev pub erase {ℓ} : {A : Type ℓ} → ℕ → List A → List A
erase i [] = []
erase zero (x ∷ xs) = xs
erase (suc i) (x ∷ xs) = x ∷ erase i xs

-- The next of `a_data` starts.
unfoldable pub start_next : Accelerator → Accelerator
start_next a = elim a.a_data [
  | [] ↦ a
  | d ∷ rest ↦ record a {
    m2_data = a.m2_data ++ record { datum = d; pre_cycle = 0 } ∷ [];
    a_data = rest;
  }
]

-- The end of an edge's product.
unfoldable pub finish : Config → ℕ → ErData → Accelerator → Dram → Accelerator × Dram
unfolding start_next dram_request
finish c offset d a s =
    let (a', s') = if d.is_end then write_line c a s else (a, s) in
    (start_next (record a' { m2_data = erase offset a'.m2_data }), s')

-- The loop of `MAC`, for `n` more rounds.
unfoldable pub mac_loop : Config → ℕ → ℕ → Accelerator → Dram → Option (Accelerator × Dram)
unfolding finish
mac_loop c zero offset a s = some (a, s)
mac_loop c (suc n) offset a s = do
  e ← get_elem? a.m2_data offset
  let pre_cycle = (e.pre_cycle + 1) % 2 ^ 32
  let counted = record a { m2_data = set a.m2_data offset (record e { pre_cycle = pre_cycle }) }
  let done = finish c offset e.datum counted s
  if pre_cycle == mac_cycle
      then mac_loop c n offset (done.0) (done.1)
      else mac_loop c n (offset + 1) counted s

unfoldable pub mac : Config → Accelerator → Dram → Option (Accelerator × Dram)
unfolding mac_loop
mac c a s = mac_loop c (length a.m2_data) 0 a s
