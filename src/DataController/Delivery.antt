-- ===== src/DataController/Delivery.antt =====
-- DataController.cpp, lines 58 to 116: sequences of reads of cache lines.
use mathlib.Core.List.{append-nil, append_assoc}
use gcnsim_awb.Prelude.{
  Option-cases, inl, inr, repeat_calls, repeat_calls-add, ℕ, zero, suc, ◌+◌, ◌*◌, ◌^◌, ◌≤◌, ◌<◌,
  ◌≡◌, refl, List, [], ◌∷◌, ◌++◌, some, ◌>>=◌, length, sum, take, drop, All, arith, length-take,
  length-drop, take-append-drop,
}
use gcnsim_awb.Prelude.Words.{sub64, int_of, rounds, ceil_div, ceil_div-suc}
use gcnsim_awb.Config.{Config}
use gcnsim_awb.DataController.{
  DataController, pop_many, next_chunk, adj_row_data_return, adj_col_data_return, data_controller,
}

pub pop_many-append : (xs ys : List ℕ) → pop_many (length xs) (xs ++ ys) ≡ some (xs, ys)
unfolding pop_many
pop_many-append [] ys = refl
pop_many-append (x ∷ xs) ys = rw (pop_many-append xs ys)

module _ (line : ℕ) (line_pos : 0 < line) (line_small : line < 2 ^ 31) where
  chunk_rounds : (n l k : ℕ) → n + l ≡ k → k < 2 ^ 31 → rounds (int_of (sub64 k l)) ≡ n
  chunk_rounds n l k e small = ground arith

  -- The last chunk of a block.
  last_chunk :
      (xs rest arch cs : List ℕ) (l k : ℕ)
      → length xs + l ≡ k
      → k < 2 ^ 31
      → length xs ≤ line
      → next_chunk line
          (record { queue = xs ++ rest; archive = arch; limit = l; req_count_cnt = k ∷ cs })
        ≡ some (xs, record { queue = rest; archive = arch; limit = 0; req_count_cnt = cs })
  unfolding next_chunk
  last_chunk xs rest arch cs l k e small short =
      ground (arith, chunk_rounds (length xs) l k e small, pop_many-append xs rest)

  -- A chunk before the last one of its block.
  full_chunk :
      (xs rest arch cs : List ℕ) (l k : ℕ)
      → l + line < k
      → k < 2 ^ 31
      → length xs ≡ line
      → next_chunk line
          (record { queue = xs ++ rest; archive = arch; limit = l; req_count_cnt = k ∷ cs })
        ≡ some
            (xs, record { queue = rest; archive = arch; limit = l + line; req_count_cnt = k ∷ cs })
  unfolding next_chunk
  full_chunk xs rest arch cs l k more small whole = ground (arith, pop_many-append xs rest)

  grow : (n m : ℕ) → suc n * m ≡ n * m + m
  grow n m = omega arith

  -- A whole chunk, and then the rest of its block.
  block_more :
      (n : ℕ) (ys zs rest arch cs : List ℕ) (l k : ℕ)
      → l + line < k
      → k < 2 ^ 31
      → length ys ≡ line
      → repeat_calls
          (next_chunk line)
          (suc n)
          (record { queue = zs ++ rest; archive = arch; limit = l + line; req_count_cnt = k ∷ cs })
        ≡ some (zs, record { queue = rest; archive = arch; limit = 0; req_count_cnt = cs })
      → repeat_calls
          (next_chunk line)
          (suc (suc n))
          (record { queue = (ys ++ zs) ++ rest; archive = arch; limit = l; req_count_cnt = k ∷ cs })
        ≡ some (ys ++ zs, record { queue = rest; archive = arch; limit = 0; req_count_cnt = cs })
  unfolding repeat_calls
  block_more n ys zs rest arch cs l k more small whole ih =
      rw (append_assoc, full_chunk ys (zs ++ rest) arch cs l k more small whole, ih) refl

  -- A block of which `xs` is left is out after as many calls as lines cover it.
  block_left :
      (n : ℕ) (xs rest arch cs : List ℕ) (l k : ℕ)
      → length xs + l ≡ k
      → k < 2 ^ 31
      → n * line < length xs
      → length xs ≤ n * line + line
      → repeat_calls
          (next_chunk line)
          (suc n)
          (record { queue = xs ++ rest; archive = arch; limit = l; req_count_cnt = k ∷ cs })
        ≡ some (xs, record { queue = rest; archive = arch; limit = 0; req_count_cnt = cs })
  unfolding repeat_calls
  block_left zero xs rest arch cs l k e small lo hi =
      rw (last_chunk xs rest arch cs l k e small (omega arith), append-nil)
  block_left (suc n) xs rest arch cs l k e small lo hi = rw (take-append-drop line xs) at (
      block_more n (take line xs) (drop line xs) rest arch cs l k (omega (arith, grow n line)) small
        (omega (arith, length-take line xs, grow n line))
        (block_left n (drop line xs) rest arch cs (l + line) k
          (omega (arith, length-drop line xs, grow n line)) small
          (omega (arith, length-drop line xs, grow n line))
          (omega (arith, length-drop line xs, grow n line))))

  -- A whole block, in as many calls as `ceil` of its size over the line.
  block_whole :
      (xs rest arch cs : List ℕ) (k : ℕ)
      → length xs ≡ k
      → 0 < k
      → k < 2 ^ 31
      → repeat_calls
          (next_chunk line)
          (ceil_div k line)
          (record { queue = xs ++ rest; archive = arch; limit = 0; req_count_cnt = k ∷ cs })
        ≡ some (xs, record { queue = rest; archive = arch; limit = 0; req_count_cnt = cs })
  block_whole xs rest arch cs k e pos small =
      let (n, is_suc, lo, hi) = ceil_div-suc k line line_pos pos in
      rw is_suc (block_left n xs rest arch cs 0 k (omega arith) small (omega arith) (omega arith))

abbrev pub IsBlock : ℕ → Type 0
IsBlock k = (0 < k) × (k < 2 ^ 31)

-- The reads that the readers ask for over all blocks.
abbrev pub reads : ℕ → List ℕ → ℕ
reads line [] = 0
reads line (k ∷ cs) = ceil_div k line + reads line cs

pub reads_deliver :
    (line : ℕ) (cs q arch : List ℕ)
    → 0 < line
    → line < 2 ^ 31
    → All IsBlock cs
    → sum cs ≡ length q
    → repeat_calls
        (next_chunk line)
        (reads line cs)
        (record { queue = q; archive = arch; limit = 0; req_count_cnt = cs })
      ≡ some (q, record { queue = []; archive = arch; limit = 0; req_count_cnt = [] })
unfolding repeat_calls
reads_deliver line [] [] arch pos small h e = refl
reads_deliver line [] (x ∷ q) arch pos small h e = absurd (omega arith)
reads_deliver line (k ∷ cs) q arch pos small h e = rw (take-append-drop k q) at (
    repeat_calls-add (next_chunk line) (ceil_div k line) (reads line cs) _ (take k q)
      (block_whole line pos small (take k q) (drop k q) arch cs k (omega (arith, length-take k q))
        h.0.0 h.0.1)
      (reads_deliver line cs (drop k q) arch pos small h.1 (omega (arith, length-drop k q))))

adj_row-next_chunk :
    (c : Config) (n : ℕ) (d : DataController)
    → repeat_calls (adj_row_data_return c) n d ≡ (
        repeat_calls (next_chunk c.cache_line_count) n d.rows >>= λ r.
        some (r.0, record d { rows = r.1 }))
unfolding repeat_calls adj_row_data_return
adj_row-next_chunk c zero d = refl
adj_row-next_chunk c (suc n) d = elim (Option-cases (next_chunk c.cache_line_count d.rows)) [
  | inl e ↦ rw e
  | inr ((r, s), e) ↦
      rw (e, adj_row-next_chunk c n (record d { rows = s }))
        (ground (arith, Option-cases (repeat_calls (next_chunk c.cache_line_count) n s)))
]

adj_col-next_chunk :
    (c : Config) (n : ℕ) (d : DataController)
    → repeat_calls (adj_col_data_return c) n d ≡ (
        repeat_calls (next_chunk c.cache_line_count) n d.cols >>= λ r.
        some (r.0, record d { cols = r.1 }))
unfolding repeat_calls adj_col_data_return
adj_col-next_chunk c zero d = refl
adj_col-next_chunk c (suc n) d = elim (Option-cases (next_chunk c.cache_line_count d.cols)) [
  | inl e ↦ rw e
  | inr ((r, s), e) ↦
      rw (e, adj_col-next_chunk c n (record d { cols = s }))
        (ground (arith, Option-cases (repeat_calls (next_chunk c.cache_line_count) n s)))
]

module _ (c : Config) (rows cols vertex_counts edge_counts : List ℕ) (pos : 0 < c.cache_line_count)
    (small : c.cache_line_count < 2 ^ 31) where
  -- If the counts of the blocks are positive `int`s that add up to the row pointers, then as many
  -- reads as cover the blocks hand out all row pointers in order, without a fault, and leave no
  -- block open. The column indices stay as they are.
  pub adj_row-delivers :
      All IsBlock vertex_counts
      → sum vertex_counts ≡ length rows
      → repeat_calls
          (adj_row_data_return c)
          (reads c.cache_line_count vertex_counts)
          (data_controller rows cols vertex_counts edge_counts)
        ≡ some (
          rows,
          record (data_controller [] cols [] edge_counts) {
            rows = record { queue = []; archive = rows; limit = 0; req_count_cnt = [] };
          },
        )
  unfolding data_controller
  adj_row-delivers h e =
      rw
        (adj_row-next_chunk, reads_deliver c.cache_line_count vertex_counts rows rows pos small h e)

  -- The same of the column indices and the counts of edges.
  pub adj_col-delivers :
      All IsBlock edge_counts
      → sum edge_counts ≡ length cols
      → repeat_calls
          (adj_col_data_return c)
          (reads c.cache_line_count edge_counts)
          (data_controller rows cols vertex_counts edge_counts)
        ≡ some (
          cols,
          record (data_controller rows [] vertex_counts []) {
            cols = record { queue = []; archive = cols; limit = 0; req_count_cnt = [] };
          },
        )
  unfolding data_controller
  adj_col-delivers h e =
      rw (adj_col-next_chunk, reads_deliver c.cache_line_count edge_counts cols cols pos small h e)
