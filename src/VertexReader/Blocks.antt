-- ===== src/VertexReader/Blocks.antt =====
-- VertexReader.cpp, `TransferData`: all passes over a block.
use mathlib.Core.List.{append-nil}
use native.Mathlib.Nat.{add-zero}
use mathlib.Core.Path.{subst}
use gcnsim_awb.Prelude.{
  ℕ, zero, suc, ◌+◌, ◌-◌, ◌<◌, ◌^◌, ◌≡◌, true, not, ◌==◌, List, [], ◌∷◌, ◌++◌, none, some, ◌>>=◌,
  repeat_calls-after, length, arith, Option-cases, inl, inr, sym, ◌∙◌,
}
use gcnsim_awb.Prelude.Words.{ceil_div}
use gcnsim_awb.Config.{Config}
use gcnsim_awb.VertexReader.{VertexReader, next_block}
use gcnsim_awb.VertexReader.Passes.{transfers, IsBlock, IsFirst, IsReplay, first_pass}
use gcnsim_awb.VertexReader.Replay.{transfers-IsReplay, pass-repeats, pass-last}

-- The block as often as it is passed over, and the number of calls that this takes.
abbrev pub copies : ℕ → List ℕ → List ℕ
copies zero block = []
copies (suc j) block = block ++ copies j block

abbrev pub calls : ℕ → ℕ → ℕ
calls zero n = 0
calls (suc j) n = n + calls j n

module _ (c : Config) (fold_small : c.w_fold < 2 ^ 64) where
  passes_left :
      (j p k y : ℕ) (left counts : List ℕ) (s : VertexReader)
      → 0 < k
      → k + suc j ≡ c.w_fold
      → IsBlock c p (suc (length left))
      → IsReplay p k 0 (y ∷ left) counts s
      → (s' : VertexReader) × (transfers c (calls (suc j) (suc (length left))) s
          ≡ (next_block c s' >>= λ t. some (copies (suc j) (y ∷ left), t)))
        × IsReplay p (k + j) (suc (length left)) (y ∷ left) counts s'
  passes_left zero p k y left counts s pos e b r =
      let (s', run, done) = transfers-IsReplay c left y p k [] counts s pos b r in
      (
        s',
        rw (add-zero, append-nil)
            (rw (pass-last c p k (y ∷ left) counts s' b done (omega arith)) at run),
        rw add-zero done,
      )
  passes_left (suc j) p k y left counts s pos e b r =
      let (s₁, run₁, done₁) = transfers-IsReplay c left y p k [] counts s pos b r in
      let (t, again, r₁) = pass-repeats c p k (y ∷ left) counts s₁ b done₁ (omega arith) in
      let (s', run, done) =
        passes_left j p (k + 1) y left counts t (omega arith) (omega arith) b r₁ in
      (
        s',
        repeat_calls-after _ (suc (length left)) (calls (suc j) (suc (length left))) s t (y ∷ left)
              (rw again at run₁)
            ∙ rw run (elim (Option-cases (next_block c s')) [ inl n ↦ rw n | inr (u, n) ↦ rw n ]),
        subst (λ q. IsReplay p q (suc (length left)) (y ∷ left) counts s') (omega arith) done,
      )

  -- A block whose row pointers wait is sent `w_fold` times, the first time from the queue and then
  -- from the cache; what follows is up to `next_block`, in a state at the block's end.
  block_passes :
      (p y : ℕ) (left counts : List ℕ) (s : VertexReader)
      → 1 < c.w_fold
      → IsBlock c p (suc (length left))
      → IsFirst p [] (y ∷ left) counts s
      → (s' : VertexReader) × (transfers c (calls c.w_fold (suc (length left))) s
          ≡ (next_block c s' >>= λ t. some (copies c.w_fold (y ∷ left), t)))
        × IsReplay p (c.w_fold - 1) (suc (length left)) (y ∷ left) counts s'
  block_passes p y left counts s folds b f =
      let (s₁, run₁, r₁) =
        first_pass c left y p [] counts s f (subst (IsBlock c p) (omega arith) b) in
      let (s', run, done) =
        passes_left (c.w_fold - 2) p 1 y left counts s₁ (omega arith) (omega arith) b r₁ in
      let folds' : c.w_fold ≡ suc (suc (c.w_fold - 2)) = omega arith in
      (
        s',
        subst
            (λ w.
              transfers c (calls w (suc (length left))) s
              ≡ (next_block c s' >>= λ t. some (copies w (y ∷ left), t)))
            (sym folds')
            (repeat_calls-after _ (suc (length left))
                (calls (suc (c.w_fold - 2)) (suc (length left))) s s₁ (y ∷ left) run₁
              ∙ rw run
                  (elim (Option-cases (next_block c s')) [ inl n ↦ rw n | inr (u, n) ↦ rw n ])),
        subst (λ k. IsReplay p k (suc (length left)) (y ∷ left) counts s') (omega arith) done,
      )

  next_block-IsFirst :
      (p n k m : ℕ) (block ms : List ℕ) (s : VertexReader)
      → IsReplay p k n block (m ∷ ms) s
      → (t : VertexReader) × (next_block c s ≡ some t)
        × IsFirst (p + n) [] [] ms t
        × (t.req_stat.tot_read_cnt ≡ ceil_div m c.cache_line_count)
        × (t.req_stat.pre_read_cnt ≡ 0)
        × (t.req_need ≡ not (p + n == c.a_h))
        × (t.q_empty ≡ true)
  unfolding next_block
  next_block-IsFirst p n k m block ms s r =
      (after, ground arith, ground arith, ground arith, ground arith, ground arith, ground arith)
    where
      after : VertexReader
      after = record s {
        q_empty = true;
        pre_row_archive = s.pre_row;
        v_cache_idx = 0;
        v_cache = [];
        x_repeat = 0;
        req_stat = record {
          tot_read_cnt = ceil_div m c.cache_line_count;
          pre_read_cnt = 0;
          read_cnt_acm = s.req_stat.read_cnt_acm;
        };
        vertex_req_count = ms;
        req_need = not (s.pre_row == c.a_h);
      }

  next_block-fault : (s : VertexReader) → s.vertex_req_count ≡ [] → next_block c s ≡ none
  unfolding next_block
  next_block-fault s e = rw e

  -- If the row pointers of a block wait, `w_fold` is at least 2 and below 2^64, and the count of a
  -- further block is left, then the calls of `TransferData` hand out the block `w_fold` times, each time whole and in
  -- order. They leave the reader at the start of the next block: nothing waits or is cached, no read
  -- was asked for of as many as the next count takes, and reads are wanted unless the rows are done.
  pub transfers-copies :
      (p y m : ℕ) (left ms : List ℕ) (s : VertexReader)
      → 1 < c.w_fold
      → IsBlock c p (suc (length left))
      → IsFirst p [] (y ∷ left) (m ∷ ms) s
      → (t : VertexReader) × (transfers c (calls c.w_fold (suc (length left))) s
          ≡ some (copies c.w_fold (y ∷ left), t))
        × IsFirst (p + suc (length left)) [] [] ms t
        × (t.req_stat.tot_read_cnt ≡ ceil_div m c.cache_line_count)
        × (t.req_stat.pre_read_cnt ≡ 0)
        × (t.req_need ≡ not (p + suc (length left) == c.a_h))
        × (t.q_empty ≡ true)
  transfers-copies p y m left ms s folds b f =
      let (s', run, done) = block_passes p y left (m ∷ ms) s folds b f in
      let (t, next, start, tot, pre, need, flag) =
        next_block-IsFirst p (suc (length left)) (c.w_fold - 1) m (y ∷ left) ms s' done in
      (t, rw next at run, start, tot, pre, need, flag)

  -- If the row pointers of a block wait, `w_fold` is at least 2 and below 2^64, and no count of a
  -- further block is left, as at the last one, then the calls that hand out the block `w_fold` times
  -- fault: the last of them reads the front of the empty queue `vertex_req_count`.
  pub transfers-fault :
      (p y : ℕ) (left : List ℕ) (s : VertexReader)
      → 1 < c.w_fold
      → IsBlock c p (suc (length left))
      → IsFirst p [] (y ∷ left) [] s
      → transfers c (calls c.w_fold (suc (length left))) s ≡ none
  transfers-fault p y left s folds b f =
      let (s', run, done) = block_passes p y left [] s folds b f in
      rw (next_block-fault s' done.counts_left) at run
