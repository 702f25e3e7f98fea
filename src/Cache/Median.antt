-- ===== src/Cache/Median.antt =====
-- CacheReplacement.cpp, `MovingMedian`: the average of the columns of each block of vertices, and a
-- replacement of the column farthest from one of them.
-- `num` is the setting `MOV_MED_BLOCK_NUM`, and is positive. Columns and sizes are below 2^31 and sums
-- below 2^53, so that no `int` overflows and a `double` is exact. `medians` is only ever read as an
-- `int`: it keeps the truncated quotients, and `none` for 0 / 0, which no `int` stands for.
pub mod Farthest
use gcnsim_awb.Prelude.{
  ℕ, suc, ◌+◌, ◌-◌, ◌/◌, ◌==◌, if◌then◌else◌, ltb, leb, List, [], ◌∷◌, ◌++◌, Option, none, some,
  ◌>>=◌, get_elem?, map, length,
}
use gcnsim_awb.Cache.Bloom.{block_sizes}

pub record Median : Type 0 where
  pub mvm_tmp : List ℕ
  pub medians : List (Option ℕ)
  pub mvm_blk_idx_vector : List ℕ
  pub mvm_cur_idx : ℕ

unfoldable pub moving_median : ℕ → ℕ → Median → Median
moving_median num a_h s = record s {
  mvm_cur_idx = 0;
  mvm_blk_idx_vector = s.mvm_blk_idx_vector ++ block_sizes num a_h;
}

-- The first block that ends at `from` or behind it; 0 if there is none.
unfoldable pub block_of : ℕ → ℕ → ℕ → List ℕ → ℕ
block_of from i sum [] = 0
block_of from i sum (n ∷ ns) =
    let rest = block_of from (i + 1) (sum + n) ns in if leb from (sum + n) then i else rest

unfoldable pub total : List ℕ → ℕ
total [] = 0
total (x ∷ xs) = x + total xs

unfoldable pub average : List ℕ → Option ℕ
unfolding total
average [] = none
average (x ∷ xs) = some (total (x ∷ xs) / length (x ∷ xs))

unfoldable pub first_cycle_access : ℕ → ℕ → Median → Median
unfolding block_of average
first_cycle_access from to s =
    let idx = block_of from 0 0 s.mvm_blk_idx_vector in
    if s.mvm_cur_idx == idx
    then record s { mvm_tmp = s.mvm_tmp ++ to ∷ [] }
    else record s { medians = s.medians ++ average s.mvm_tmp ∷ []; mvm_tmp = []; mvm_cur_idx = idx }

-- `abs` of a difference of columns, which are below 2^31.
abbrev pub distance : ℕ → ℕ → ℕ
distance a b = if ltb a b then b - a else a - b

-- The index of `max_element`: the first of the greatest.
unfoldable pub max_index : List ℕ → ℕ
max_index [] = 0
max_index (x ∷ []) = 0
max_index (x ∷ y ∷ ys) =
    let m = max_index (y ∷ ys) in
    elim (get_elem? (y ∷ ys) m) [ none ↦ 0 | some greatest ↦ if ltb x greatest then suc m else 0 ]

-- `medians` is indexed by the vertex `from`, though it has one entry for each block.
unfoldable pub replace : ℕ → List ℕ → List ℕ → Median → Option (ℕ × ℕ)
replace from set_vector weight_vector s = do
  average_of ← get_elem? s.medians from
  median ← average_of
  let way = max_index (map (λ to. distance median to) set_vector)
  target ← get_elem? set_vector way
  weight_idx ← get_elem? weight_vector way
  some (target, weight_idx)
