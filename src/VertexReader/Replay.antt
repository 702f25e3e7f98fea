-- ===== src/VertexReader/Replay.antt =====
-- VertexReader.cpp, `TransferData`: a later pass over a block, and its end.
use mathlib.Core.Path.{subst, subst₂}
use mathlib.Core.List.{append_assoc}
use gcnsim_awb.Prelude.{
  ℕ, suc, ◌+◌, ◌<◌, ◌≡◌, ◌≢◌, inl, inr, List, [], ◌∷◌, ◌++◌, some, ◌>>=◌, repeat_calls, length,
  length-append, get_elem?-append, Option-cases, arith, sym,
}
use gcnsim_awb.Prelude.Words.{sub64}
use gcnsim_awb.Config.{Config}
use gcnsim_awb.VertexReader.{
  VertexReader, count_pop, next_block, end_replay, transfer_replay, transfer_data,
}
use gcnsim_awb.VertexReader.Passes.{transfers, IsBlock, IsReplay, count_pop-Same}

module _ (c : Config) where
  -- The reader once it has sent a cached row pointer, before the end of the pass is looked for.
  replayed : VertexReader → VertexReader
  replayed s = count_pop c (record s {
    pre_row = s.pre_row + 1;
    v_cache_idx = s.v_cache_idx + 1;
    pop_count = s.pop_count + 1;
  })

  transfer-replayed :
      (p k : ℕ) (seen : List ℕ) (y : ℕ) (left counts : List ℕ) (s : VertexReader)
      → 0 < k
      → IsReplay p k (length seen) (seen ++ y ∷ left) counts s
      → transfer_data c s ≡ (end_replay c (replayed s) >>= λ t. some (y, t))
  unfolding transfer_data transfer_replay replayed
  transfer-replayed p k seen y left counts s pos r = ground (arith, get_elem?-append seen y left)

  replayed-IsReplay :
      (p k i : ℕ) (block counts : List ℕ) (s : VertexReader)
      → IsReplay p k i block counts s
      → IsReplay p k (i + 1) block counts (replayed s)
  unfolding replayed
  replayed-IsReplay p k i block counts s r = ground (
    arith,
    count_pop-Same c (record s {
      pre_row = s.pre_row + 1;
      v_cache_idx = s.v_cache_idx + 1;
      pop_count = s.pop_count + 1;
    }),
  )

  replay-continues :
      (p k i : ℕ) (block counts : List ℕ) (s : VertexReader)
      → IsBlock c p (length block)
      → i < length block
      → IsReplay p k i block counts s
      → 0 < i
      → end_replay c s ≡ some s
  unfolding end_replay
  replay-continues p k i block counts s b lt r pos =
      let fits = b.fits in let inside = b.in_matrix in ground arith

  -- A pass over the block ends where the last row of the block is sent.
  pub transfers-IsReplay :
      (left : List ℕ) (y p k : ℕ) (seen counts : List ℕ) (s : VertexReader)
      → 0 < k
      → IsBlock c p (length (seen ++ y ∷ left))
      → IsReplay p k (length seen) (seen ++ y ∷ left) counts s
      → (s' : VertexReader) × (transfers c (suc (length left)) s
          ≡ (end_replay c s' >>= λ t. some (y ∷ left, t)))
        × IsReplay p k (length (seen ++ y ∷ left)) (seen ++ y ∷ left) counts s'
  unfolding repeat_calls
  transfers-IsReplay [] y p k seen counts s pos b r = (
    replayed s,
    rw (transfer-replayed p k seen y [] counts s pos r)
        (elim (Option-cases (end_replay c (replayed s))) [ inl e ↦ rw e | inr (t, e) ↦ rw e ]),
    subst (λ n. IsReplay p k n (seen ++ y ∷ []) counts (replayed s))
        (omega (arith, length-append seen (y ∷ [])))
        (replayed-IsReplay p k (length seen) (seen ++ y ∷ []) counts s r),
  )
  transfers-IsReplay (z ∷ left) y p k seen counts s pos b r =
      let whole : (seen ++ y ∷ []) ++ z ∷ left ≡ seen ++ y ∷ z ∷ left =
        append_assoc seen (y ∷ []) (z ∷ left) in
      let r₁ = replayed-IsReplay p k (length seen) (seen ++ y ∷ z ∷ left) counts s r in
      let n = length-append seen (y ∷ z ∷ left) in
      let go_on =
        replay-continues p k (length seen + 1) (seen ++ y ∷ z ∷ left) counts (replayed s) b
          (omega arith) r₁ (omega arith) in
      let (s', run, done) =
        transfers-IsReplay left z p k (seen ++ y ∷ []) counts (replayed s) pos
          (subst (λ l. IsBlock c p (length l)) (sym whole) b)
          (subst₂ (λ i l. IsReplay p k i l counts (replayed s))
            (omega (arith, length-append seen (y ∷ []))) (sym whole) r₁) in
      (
        s',
        rw (transfer-replayed p k seen y (z ∷ left) counts s pos r, go_on, run)
            (elim (Option-cases (end_replay c s')) [ inl e ↦ rw e | inr (t, e) ↦ rw e ]),
        subst (λ l. IsReplay p k (length l) l counts s') whole done,
      )

  -- What stands at the end of a pass that is not the last one: the next pass.
  pub pass-repeats :
      (p k : ℕ) (block counts : List ℕ) (s : VertexReader)
      → IsBlock c p (length block)
      → IsReplay p k (length block) block counts s
      → k ≢ sub64 c.w_fold 1
      → (t : VertexReader) × (end_replay c s ≡ some t) × IsReplay p (k + 1) 0 block counts t
  unfolding end_replay
  pass-repeats p k block counts s b r more = elim b.full [
    | inl whole ↦ (next_pass s, ground arith, ground arith)
    | inr last ↦ (next_pass s, ground arith, ground arith)
  ]
    where
      next_pass : VertexReader → VertexReader
      next_pass s = record s {
        pre_row = s.pre_row_archive;
        x_repeat = s.x_repeat + 1;
        v_cache_idx = 0;
      }

  -- The last pass leads to the next block, if a count is left.
  pub pass-last :
      (p k : ℕ) (block counts : List ℕ) (s : VertexReader)
      → IsBlock c p (length block)
      → IsReplay p k (length block) block counts s
      → k ≡ sub64 c.w_fold 1
      → end_replay c s ≡ next_block c s
  unfolding end_replay
  pass-last p k block counts s b r last = elim b.full [
    | inl whole ↦ ground arith
    | inr end ↦ ground arith
  ]
