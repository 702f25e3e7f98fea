-- ===== src/Cache/Ship.antt =====
-- CacheReplacement.cpp, `SHiP`: RRIP with a counter for each signature, the high bits of an address.
-- Signatures are kept as `int`s, and `SHCT` maps an `int` to an `int`: all are patterns.
pub mod Table
use gcnsim_awb.Prelude.{
  ℕ, zero, suc, ◌+◌, ◌-◌, ◌/◌, ◌%◌, ◌^◌, Bool, true, false, not, ◌&&◌, ◌==◌, if◌then◌else◌, List,
  [], ◌∷◌, ◌++◌, Option, none, some, ◌>>=◌, get_elem?, set, replicate, length,
}
use gcnsim_awb.Prelude.Words.{int_of, minus_one}
use gcnsim_awb.Cache.Rrip
use gcnsim_awb.Cache.Rrip.{write_at, age}

pub record Ship : Type 0 where
  pub rrpv : List (List ℕ)
  pub line_outcome : List Bool
  pub line_signature : List ℕ
  pub shct : List (ℕ × ℕ)

unfoldable pub ship : ℕ → ℕ → Ship → Ship
ship way_n set_n s = record s {
  rrpv = s.rrpv ++ replicate set_n (replicate way_n 3);
  line_outcome = s.line_outcome ++ replicate way_n false;
  line_signature = s.line_signature ++ replicate way_n minus_one;
}

-- `SHCT.find`.
unfoldable pub find : ℕ → List (ℕ × ℕ) → Option ℕ
find k [] = none
find k ((j, v) ∷ m) = if j == k then some v else find k m

-- A write to an entry that is there.
unfoldable pub update : ℕ → (ℕ → ℕ) → List (ℕ × ℕ) → List (ℕ × ℕ)
update k f [] = []
update k f ((j, v) ∷ m) = if j == k then (j, f v) ∷ m else (j, v) ∷ update k f m

-- `SHCT.insert`, and what `SHCT[k]` does to a key that is not there: an entry 0 is added.
unfoldable pub ensure : ℕ → List (ℕ × ℕ) → List (ℕ × ℕ)
ensure k [] = (k, 0) ∷ []
ensure k ((j, v) ∷ m) = if j == k then (j, v) ∷ m else (j, v) ∷ ensure k m

abbrev pub add_one : ℕ → ℕ
add_one v = (v + 1) % 2 ^ 32

abbrev pub sub_one : ℕ → ℕ
sub_one v = (v + 2 ^ 32 - 1) % 2 ^ 32

-- `address >> 16`, as the `int` that the tables are given.
abbrev pub signature : ℕ → ℕ
signature address = int_of (address / 2 ^ 16)

unfoldable pub access : ℕ → ℕ → ℕ → Ship → Option Ship
access set_idx way_idx address s = do
  rrpv ← write_at s.rrpv set_idx way_idx 0
  _ ← get_elem? s.line_outcome way_idx
  some (record s {
    rrpv = rrpv;
    line_outcome = set s.line_outcome way_idx true;
    shct = update (signature address) add_one s.shct;
  })

-- The counter of the line that is replaced falls, if the line was filled before and never hit.
unfoldable pub forget : Bool → ℕ → List (ℕ × ℕ) → List (ℕ × ℕ)
forget outcome sig shct =
    if not outcome && not (sig == minus_one) then update sig sub_one shct else shct

-- The signature's entry is made on a first fill, and by the read `SHCT[sig]` in any case.
unfoldable pub replace : ℕ → ℕ → Ship → Option (ℕ × Ship)
replace set_idx address s = do
  l ← get_elem? s.rrpv set_idx
  (way_idx, l') ← age 4 l
  outcome ← get_elem? s.line_outcome way_idx
  old ← get_elem? s.line_signature way_idx
  let sig = signature address
  let shct = ensure sig (forget outcome old s.shct)
  count ← find sig shct
  some (
    way_idx,
    record {
      rrpv = set s.rrpv set_idx (set l' way_idx (if count == 0 then 3 else 2));
      line_outcome = set s.line_outcome way_idx true;
      line_signature = set s.line_signature way_idx sig;
      shct = shct;
    },
  )

unfoldable pub get_shct_size : Ship → ℕ
get_shct_size s = length s.shct
