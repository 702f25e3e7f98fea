-- ===== src/Distributer/Addresses.antt =====
-- Distributer.cpp: the addresses of the units.
use gcnsim_awb.Prelude.{ℕ, ◌*◌, ◌^◌, ◌<◌, ◌≡◌, arith}
use gcnsim_awb.Prelude.Words.{add64}
use gcnsim_awb.Distributer.{unit_space, offset_of, return_id}

-- `ReturnID` gives back the unit of an address: of up to 16 units, with an array that starts at a
-- multiple of 2^56, for any place in the unit's space.
pub return_id-offset_of :
    (region i k : ℕ)
    → region < 2 ^ 8
    → i < 16
    → k < unit_space
    → return_id (add64 (add64 (region * 2 ^ 56) (offset_of i)) k) ≡ i
unfolding return_id
return_id-offset_of region i k h units inside = omega arith
