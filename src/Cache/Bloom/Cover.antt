-- ===== src/Cache/Bloom/Cover.antt =====
-- CacheReplacement.cpp, the constructor of `BloomFilter`: the vectors looked up by vertex.
use gcnsim_awb.Prelude.{
  ℕ, zero, suc, ◌+◌, ◌-◌, ◌*◌, ◌/◌, ◌%◌, ◌^◌, ◌≤◌, ◌<◌, ◌≡◌, refl, true, false, List, [], ◌∷◌, ◌++◌,
  length, length-append, length-replicate, replicate, sum, sum-append, All, arith, ◌∙◌,
}
use gcnsim_awb.Prelude.Words.{minus_one, sub64}
use gcnsim_awb.Cache.Bloom.{
  add_first, indices, overlaps, block_sizes, early_vertices, overlapped_sizes, bloom_filter,
}

sum-add_first : (n : ℕ) (l : List ℕ) → n ≤ length l → sum (add_first n l) ≡ sum l + n
unfolding add_first
sum-add_first zero l h = omega arith
sum-add_first (suc n) [] h = absurd (omega arith)
sum-add_first (suc n) (x ∷ xs) h = omega (arith, sum-add_first n xs (omega arith))

sum-replicate : (n x : ℕ) → sum (replicate n x) ≡ n * x
sum-replicate zero x = omega arith
sum-replicate (suc n) x = omega (arith, sum-replicate n x)

length-indices : (i : ℕ) (ns : List ℕ) → length (indices i ns) ≡ sum ns
unfolding indices
length-indices i [] = refl
length-indices i (n ∷ ns) = omega (
  arith,
  length-append (replicate n i) (indices (i + 1) ns),
  length-replicate n i,
  length-indices (i + 1) ns,
)

length-overlaps :
    (early : ℕ) (ns : List ℕ) → All (λ n. early ≤ n) ns → length (overlaps early ns) ≡ sum ns
unfolding overlaps
length-overlaps early [] h = refl
length-overlaps early (n ∷ ns) h = omega (
  arith,
  length-append (replicate early false) (replicate (n - early) true ++ overlaps early ns),
  length-append (replicate (n - early) true) (overlaps early ns),
  length-replicate early false,
  length-replicate (n - early) true,
  length-overlaps early ns h.1,
  h.0,
)

All-add_first : (k n : ℕ) (l : List ℕ) → All (λ x. k ≤ x) l → All (λ x. k ≤ x) (add_first n l)
unfolding add_first
All-add_first k zero l h = h
All-add_first k (suc n) [] h = tt
All-add_first k (suc n) (x ∷ xs) h = (omega (arith, h.0), All-add_first k n xs h.1)

All-replicate : (k n x : ℕ) → k ≤ x → All (λ y. k ≤ y) (replicate n x)
All-replicate k zero x h = tt
All-replicate k (suc n) x h = (h, All-replicate k n x h)

pred_mul : (n q : ℕ) → 0 < n → (n - 1) * q + q ≡ n * q
pred_mul zero q h = elim h [ ]
pred_mul (suc n) q h = let e : suc n - 1 ≡ n = omega arith in rw e (omega arith)

module _ (num overlap a_h : ℕ) (some_filter : 0 < num) (part : overlap ≤ 100)
    (small : a_h < 2 ^ 31) where
  rows-left : (num * (a_h / num) ≤ a_h) × (a_h < num * (a_h / num) + num) × (a_h / num ≤ a_h)
  rows-left = grind arith

  early-le : early_vertices num overlap a_h ≤ a_h / num
  unfolding early_vertices
  early-le = scale (a_h / num) (sub64 100 overlap) no_wrap (omega (arith, rows-left))
    where
      no_wrap : sub64 100 overlap ≤ 100
      no_wrap = ground arith

      scale : (n p : ℕ) → p ≤ 100 → n < 2 ^ 31 → n * p % 2 ^ 64 / 100 ≤ n
      scale n p h lt = let most : n * p ≤ n * 100 = grind arith in omega (arith, most)

  sum-block_sizes : sum (block_sizes num a_h) ≡ a_h
  unfolding block_sizes
  sum-block_sizes = omega (
    arith,
    rows-left,
    sum-add_first (a_h - num * (a_h / num)) (replicate num (a_h / num))
        (omega (arith, rows-left, length-replicate num (a_h / num))),
    sum-replicate num (a_h / num),
  )

  sum-overlapped_sizes :
      sum (overlapped_sizes num overlap a_h) + early_vertices num overlap a_h ≡ a_h
  unfolding overlapped_sizes
  sum-overlapped_sizes =
      let q = a_h / num in
      let early = early_vertices num overlap a_h in
      omega (
        arith,
        rows-left,
        sum-append (replicate (num - 1) q) ((a_h - (num - 1) * q - early) ∷ []),
        sum-replicate (num - 1) q,
        pred_mul num q some_filter,
        early-le,
      )

  early-block_sizes : All (λ n. early_vertices num overlap a_h ≤ n) (block_sizes num a_h)
  unfolding block_sizes
  early-block_sizes =
      All-add_first (early_vertices num overlap a_h) (a_h - num * (a_h / num))
        (replicate num (a_h / num))
        (All-replicate (early_vertices num overlap a_h) num (a_h / num) early-le)

  -- With at least one filter, an overlap of at most 100 and fewer than 2^31 vertices, each of the vectors
  -- `bfIdx`, `ovlBFIdx` and `useOvlBF` has as many entries as there are vertices, which is what the
  -- constructor prints for a check.
  pub bloom_filter-covers :
      (len : ℕ)
      → let b = bloom_filter num len overlap a_h in
        (length b.bf_idx ≡ a_h) × (length b.ovl_bf_idx ≡ a_h) × (length b.use_ovl_bf ≡ a_h)
  unfolding bloom_filter
  bloom_filter-covers len = (
    length-indices 0 (block_sizes num a_h) ∙ sum-block_sizes,
    omega (
      arith,
      length-append (replicate (early_vertices num overlap a_h) minus_one)
          (indices 0 (overlapped_sizes num overlap a_h)),
      length-replicate (early_vertices num overlap a_h) minus_one,
      length-indices 0 (overlapped_sizes num overlap a_h),
      sum-overlapped_sizes,
    ),
    length-overlaps (early_vertices num overlap a_h) (block_sizes num a_h) early-block_sizes
        ∙ sum-block_sizes,
  )
