-- ===== src/EdgeReader/Consume.antt =====
-- EdgeReader.cpp, `OuterProduct`: the calls for the edges of a row. Tests/Readers runs a reader from its
-- constructor on into the last row of its last pass.

use mathlib.Core.List.{append_assoc}
use gcnsim_awb.Prelude.{
  ℕ, zero, suc, ◌+◌, ◌-◌, ◌<◌, ◌^◌, ◌≡◌, ◌≢◌, refl, true, if◌then◌else◌, List, [], ◌∷◌, ◌++◌,
  Option, none, some, ◌>>=◌, get_elem?-lt, length, arith,
}
use gcnsim_awb.Prelude.Words.{sub64}
use gcnsim_awb.Config.{Config}
use gcnsim_awb.EdgeReader.{
  EdgeReader, want_more, is_pass_end, end_first_row, outer_first, next_block, end_replay_row,
  outer_replay, outer_product,
}

-- `n` calls of `OuterProduct` in a row.
unfoldable pub products : Config → ℕ → EdgeReader → Option EdgeReader
products c zero s = some s
products c (suc n) s = do t ← outer_product c s; products c n t

-- What a row of the first pass leaves: its edges `xs` are cached, and the queue holds the rest. At
-- the end of the block the rows start again, for the next pass, and the pass is to be written.
pub record IsCached (c : Config) (xs rest : List ℕ) (s t : EdgeReader) : Type 0 where
  pub queue : t.eq ≡ rest
  pub cached : t.e_cache ≡ s.e_cache ++ xs
  pub none_left : t.remain_col_num ≡ 0
  pub ready : t.can_receive ≡ true
  pub pass : t.x_repeat ≡ (if is_pass_end c s then 1 else 0)
  pub row : t.pre_row ≡ (if is_pass_end c s then s.pre_row_archive else s.pre_row)
  pub writing : t.do_write ≡ (if is_pass_end c s then true else s.do_write)

-- What one call changes before the row ends.
record Moves (x : ℕ) (rest : List ℕ) (n : ℕ) (s t : EdgeReader) : Type 0 where
  queue : t.eq ≡ rest
  cached : t.e_cache ≡ s.e_cache ++ x ∷ []
  left : t.remain_col_num ≡ n
  pass : t.x_repeat ≡ 0
  row : t.pre_row ≡ s.pre_row
  archive : t.pre_row_archive ≡ s.pre_row_archive
  writing : t.do_write ≡ s.do_write

want_more-Moves :
    (c : Config) (s : EdgeReader)
    → let t = want_more c s in
      (t.eq ≡ s.eq)
      × (t.e_cache ≡ s.e_cache)
      × (t.remain_col_num ≡ s.remain_col_num)
      × (t.x_repeat ≡ s.x_repeat)
      × (t.pre_row ≡ s.pre_row)
      × (t.pre_row_archive ≡ s.pre_row_archive)
      × (t.do_write ≡ s.do_write)
unfolding want_more
want_more-Moves c s = ground arith

module _ (c : Config) where
  abbrev popped : ℕ → List ℕ → EdgeReader → EdgeReader
  popped x rest s = record s {
    eq = rest;
    e_cache = s.e_cache ++ x ∷ [];
    q_space = sub64 s.q_space 1;
  }

  -- The reader once `x` is consumed, before the end of the row is looked for.
  consumed : ℕ → List ℕ → EdgeReader → EdgeReader
  consumed x rest s =
      let s₁ = want_more c (popped x rest s) in
      record s₁ { remain_col_num = sub64 s₁.remain_col_num 1 }

  product-consumed :
      (x : ℕ) (rest : List ℕ) (s : EdgeReader)
      → s.eq ≡ x ∷ rest
      → s.remain_col_num ≢ 0
      → s.x_repeat ≡ 0
      → outer_product c s ≡ some (end_first_row c (consumed x rest s))
  unfolding outer_product outer_first consumed
  product-consumed x rest s queue left pass = ground arith

  consumed-Moves :
      (x n : ℕ) (rest : List ℕ) (s : EdgeReader)
      → s.remain_col_num ≡ suc n
      → suc n < 2 ^ 64
      → s.x_repeat ≡ 0
      → Moves x rest n s (consumed x rest s)
  unfolding consumed
  consumed-Moves x n rest s left small pass = ground (arith, want_more-Moves c (popped x rest s))

  row-goes_on :
      (x n : ℕ) (rest : List ℕ) (s t : EdgeReader)
      → Moves x rest (suc n) s t
      → end_first_row c t ≡ t
  unfolding end_first_row
  row-goes_on x n rest s t m = ground arith

  row-ends :
      (x : ℕ) (rest : List ℕ) (s t : EdgeReader)
      → Moves x rest 0 s t
      → IsCached c (x ∷ []) rest s (end_first_row c t)
  unfolding end_first_row is_pass_end
  row-ends x rest s t m = ground arith

  IsCached-cons :
      (x n : ℕ) (xs rest rest' : List ℕ) (s t u : EdgeReader)
      → Moves x rest' n s t
      → IsCached c xs rest t u
      → IsCached c (x ∷ xs) rest s u
  unfolding is_pass_end
  IsCached-cons x n xs rest rest' s t u m k = ground (arith, append_assoc s.e_cache (x ∷ []) xs)

  -- In the first pass over a block, a row with edges, fewer than 2^64, that all wait in the queue takes
  -- as many calls as it has edges. They fault nowhere, and leave what `IsCached` says: its edges are
  -- moved to the cache, and at the block's end the rows start again for the next pass.
  pub products-IsCached :
      (xs : List ℕ) (x : ℕ) (rest : List ℕ) (s : EdgeReader)
      → s.eq ≡ x ∷ (xs ++ rest)
      → s.remain_col_num ≡ suc (length xs)
      → suc (length xs) < 2 ^ 64
      → s.x_repeat ≡ 0
      → (t : EdgeReader) × (products c (suc (length xs)) s ≡ some t) × IsCached c (x ∷ xs) rest s t
  unfolding products
  products-IsCached [] x rest s queue left small pass =
      let m = consumed-Moves x 0 rest s left small pass in
      (
        end_first_row c (consumed x rest s),
        rw (product-consumed x rest s queue (omega arith) pass) refl,
        row-ends x rest s (consumed x rest s) m,
      )
  products-IsCached (y ∷ ys) x rest s queue left small pass =
      let t = consumed x (y ∷ (ys ++ rest)) s in
      let m = consumed-Moves x (suc (length ys)) (y ∷ (ys ++ rest)) s left small pass in
      let (u, run, done) = products-IsCached ys y rest t m.queue m.left (omega arith) m.pass in
      (
        u,
        rw
            (
              product-consumed x (y ∷ (ys ++ rest)) s queue (omega arith) pass,
              row-goes_on x (length ys) (y ∷ (ys ++ rest)) s t m,
            )
            run,
        IsCached-cons x (suc (length ys)) (y ∷ ys) rest (y ∷ (ys ++ rest)) s t u m done,
      )

  -- The last edge of the last pass.
  outer_product-fault :
      (s : EdgeReader)
      → 1 < c.w_fold
      → c.w_fold < 2 ^ 64
      → s.x_repeat ≡ c.w_fold - 1
      → s.remain_col_num ≡ 1
      → is_pass_end c s ≡ true
      → s.e_cache_idx < length s.e_cache
      → s.edge_req_count ≡ []
      → outer_product c s ≡ none
  unfolding outer_product outer_replay end_replay_row is_pass_end next_block
  outer_product-fault s folds small pass left end cached counts =
      let (v, known) = get_elem?-lt s.e_cache s.e_cache_idx cached in ground (arith, known)

  -- The reader after the replay of an edge, of a row that `n` more follow in.
  abbrev replayed : ℕ → EdgeReader → EdgeReader
  replayed n s = record s { e_cache_idx = s.e_cache_idx + 1; remain_col_num = n }

  outer_product-replayed :
      (n : ℕ) (s : EdgeReader)
      → 0 < s.x_repeat
      → s.remain_col_num ≡ suc (suc n)
      → suc (suc n) < 2 ^ 64
      → s.e_cache_idx < length s.e_cache
      → outer_product c s ≡ some (replayed (suc n) s)
  unfolding outer_product outer_replay end_replay_row
  outer_product-replayed n s pass left few cached =
      let (v, known) = get_elem?-lt s.e_cache s.e_cache_idx cached in ground (arith, known)

  -- The last row of the last pass over the last block: a replayed row of `n + 1` edges, fewer than 2^64,
  -- that ends the pass, with `w_fold` at least 2 and below 2^64, its edges in the cache from `e_cache_idx`
  -- on, and no count of a further block left. The first `n` calls replay their edges and fault nowhere,
  -- and the call for the last edge reads the front of the empty queue `edge_req_count`.
  pub products-fault :
      (n : ℕ) (s : EdgeReader)
      → 1 < c.w_fold
      → c.w_fold < 2 ^ 64
      → s.x_repeat ≡ c.w_fold - 1
      → s.remain_col_num ≡ suc n
      → suc n < 2 ^ 64
      → is_pass_end c s ≡ true
      → s.e_cache_idx + n < length s.e_cache
      → s.edge_req_count ≡ []
      → (t : EdgeReader) × (products c n s ≡ some t)
        × (t.e_cache_idx ≡ s.e_cache_idx + n)
        × (t.remain_col_num ≡ 1)
        × (products c (suc n) s ≡ none)
  unfolding products is_pass_end
  products-fault zero s folds small pass left few end cached counts = (
    s,
    refl,
    omega arith,
    left,
    rw (outer_product-fault s folds small pass left end (omega arith) counts) refl,
  )
  products-fault (suc n) s folds small pass left few end cached counts =
      let step = outer_product-replayed n s (omega arith) left few (omega arith) in
      let (t, run, index, one, fault) =
        products-fault n (replayed (suc n) s) folds small pass refl (omega arith) end (omega arith)
          counts in
      (t, rw step run, omega (arith, index), one, rw step fault)
