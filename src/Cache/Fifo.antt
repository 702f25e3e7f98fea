-- ===== src/Cache/Fifo.antt =====
-- CacheReplacement.cpp, `FIFO`: the columns of each set in the order of their arrival, and beside
-- them the weight blocks.
pub mod Order
use gcnsim_awb.Prelude.{
  ℕ, List, [], ◌∷◌, ◌++◌, Option, none, some, ◌>>=◌, pop_front, get_elem?, set, replicate,
}

-- `fifoList` and `fifoWeightBlkIdx`; `LRU` has two vectors of the same kind.
pub record Lists : Type 0 where
  pub list : List (List ℕ)
  pub weight : List (List ℕ)

-- The constructor appends one empty vector for each set.
unfoldable pub fifo : ℕ → Lists → Lists
fifo set_n s = record {
  list = s.list ++ replicate set_n [];
  weight = s.weight ++ replicate set_n [];
}

unfoldable pub access : ℕ → ℕ → ℕ → Lists → Option Lists
access set_idx item weight_blk_idx s = do
  l ← get_elem? s.list set_idx
  w ← get_elem? s.weight set_idx
  some (record {
    list = set s.list set_idx (l ++ item ∷ []);
    weight = set s.weight set_idx (w ++ weight_blk_idx ∷ []);
  })

unfoldable pub replace : ℕ → Lists → Option (ℕ × ℕ × Lists)
replace set_idx s = do
  l ← get_elem? s.list set_idx
  w ← get_elem? s.weight set_idx
  (first_in, l') ← pop_front l
  (first_in_blk_idx, w') ← pop_front w
  some (
    first_in,
    first_in_blk_idx,
    record { list = set s.list set_idx l'; weight = set s.weight set_idx w' },
  )

-- Only the columns are cleared.
unfoldable pub clear : ℕ → Lists → Lists
clear set_n s = record s { list = replicate set_n [] }
