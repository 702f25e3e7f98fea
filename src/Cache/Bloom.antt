-- ===== src/Cache/Bloom.antt =====
-- CacheReplacement.cpp, `BloomFilter`: the vertices are divided among `BLOOM_FILTER_NUM` filters, and
-- once more, shifted, among as many overlapped ones; a filter counts accesses of columns.
-- `num`, `len` and `overlap` are the settings `BLOOM_FILTER_NUM`, `BF_LEN` and `BF_OVERLAP`; `num` is
-- positive. Sizes are below 2^31 and `overlap` is at most 100, so that no `int` overflows; above 100 the
-- start index wraps, and may be negative, which is not modelled. A filter without counters divides
-- by 0, and the model faults.
pub mod Cover
pub mod Least
use gcnsim_awb.Prelude.{
  ℕ, zero, suc, ◌+◌, ◌-◌, ◌*◌, ◌/◌, ◌%◌, ◌^◌, Bool, true, false, ◌==◌, if◌then◌else◌, ltb, List, [],
  ◌∷◌, ◌++◌, Option, none, some, ◌>>=◌, get_elem?, set, replicate, length,
}
use gcnsim_awb.Prelude.Words.{minus_one, sub64, int_of, u64_of_int}

pub record Bloom : Type 0 where
  pub bf_list : List (List ℕ)
  pub ol_bf_list : List (List ℕ)
  pub bf_idx : List ℕ
  pub ovl_bf_idx : List ℕ
  pub use_ovl_bf : List Bool
  pub blk_idx_vector : List ℕ
  pub ovl_blk_idx_vector : List ℕ
  pub ovl_start_idx : ℕ

-- `v[i] += 1` for the first `n` indices.
unfoldable pub add_first : ℕ → List ℕ → List ℕ
add_first zero l = l
add_first (suc n) [] = []
add_first (suc n) (x ∷ xs) = (x + 1) ∷ add_first n xs

-- `for j < counts[i]: push_back(i)`, for each `i`.
unfoldable pub indices : ℕ → List ℕ → List ℕ
indices i [] = []
indices i (n ∷ ns) = replicate n i ++ indices (i + 1) ns

-- The loop that fills `useOvlBF`: `early` times false, and then true for what remains.
unfoldable pub overlaps : ℕ → List ℕ → List Bool
overlaps early [] = []
overlaps early (n ∷ ns) = replicate early false ++ (replicate (n - early) true ++ overlaps early ns)

-- How many vertices each filter covers.
unfoldable pub block_sizes : ℕ → ℕ → List ℕ
unfolding add_first
block_sizes num a_h = add_first (a_h - num * (a_h / num)) (replicate num (a_h / num))

-- The vertices before `ovlStartIdx`, which no overlapped filter covers, computed in `uint64_t`.
unfoldable pub early_vertices : ℕ → ℕ → ℕ → ℕ
early_vertices num overlap a_h = a_h / num * sub64 100 overlap % 2 ^ 64 / 100

unfoldable pub overlapped_sizes : ℕ → ℕ → ℕ → List ℕ
unfolding early_vertices
overlapped_sizes num overlap a_h =
    replicate (num - 1) (a_h / num)
    ++ (a_h - (num - 1) * (a_h / num) - early_vertices num overlap a_h) ∷ []

unfoldable pub bloom_filter : ℕ → ℕ → ℕ → ℕ → Bloom
unfolding indices overlaps block_sizes overlapped_sizes
bloom_filter num len overlap a_h = record {
  bf_list = replicate num (replicate len 0);
  ol_bf_list = replicate num (replicate len 0);
  bf_idx = indices 0 (block_sizes num a_h);
  ovl_bf_idx =
      replicate (early_vertices num overlap a_h) minus_one
      ++ indices 0 (overlapped_sizes num overlap a_h);
  use_ovl_bf = overlaps (early_vertices num overlap a_h) (block_sizes num a_h);
  blk_idx_vector = block_sizes num a_h;
  ovl_blk_idx_vector = overlapped_sizes num overlap a_h;
  ovl_start_idx = early_vertices num overlap a_h + 1;
}

-- `filters[which][to % len] += 1`.
unfoldable pub bump : ℕ → ℕ → ℕ → List (List ℕ) → Option (List (List ℕ))
bump len which to filters = do
  f ← get_elem? filters which
  n ← if len == 0 then none else get_elem? f (to % len)
  some (set filters which (set f (to % len) (int_of (n + 1))))

unfoldable pub first_cycle_access : ℕ → ℕ → ℕ → Bloom → Option Bloom
unfolding bump
first_cycle_access len from to s = do
  which ← get_elem? s.bf_idx from
  which_ovl ← get_elem? s.ovl_bf_idx from
  filters ← bump len which to s.bf_list
  if which_ovl == minus_one then some (record s { bf_list = filters }) else (do
    ovl_filters ← bump len which_ovl to s.ol_bf_list
    some (record s { bf_list = filters; ol_bf_list = ovl_filters }))

-- The counts of the columns of a set.
unfoldable pub counts : ℕ → List ℕ → List ℕ → Option (List ℕ)
counts len filter [] = some []
counts len filter (x ∷ xs) = do
  n ← if len == 0 then none else get_elem? filter (u64_of_int x % len)
  ns ← counts len filter xs
  some (n ∷ ns)

-- The index of `min_element`: the first of the least.
unfoldable pub min_index : List ℕ → ℕ
min_index [] = 0
min_index (x ∷ []) = 0
min_index (x ∷ y ∷ ys) =
    let m = min_index (y ∷ ys) in
    elim (get_elem? (y ∷ ys) m) [ none ↦ 0 | some least ↦ if ltb least x then suc m else 0 ]

-- The column and the weight block to replace; both vectors are the set's ways.
unfoldable pub replace : ℕ → ℕ → Bool → List ℕ → List ℕ → Bloom → Option (ℕ × ℕ)
replace len blk_idx use_ovl set_vector weight_vector s = do
  filter ← get_elem? (if use_ovl then s.ol_bf_list else s.bf_list) blk_idx
  cnt ← counts len filter set_vector
  target ← get_elem? set_vector (min_index cnt)
  weight_idx ← get_elem? weight_vector (min_index cnt)
  some (target, weight_idx)
