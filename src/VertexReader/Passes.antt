-- ===== src/VertexReader/Passes.antt =====
-- VertexReader.cpp, `TransferData`: one pass over a block.
use mathlib.Core.Path.{subst}
use mathlib.Core.List.{append_assoc}
use gcnsim_awb.Prelude.{
  ℕ, suc, ◌+◌, ◌%◌, ◌≤◌, ◌<◌, ◌≡◌, ◌≢◌, refl, ◌⊎◌, inl, inr, List, [], ◌∷◌, ◌++◌, Option, some,
  ◌>>=◌, repeat_calls, length, length-append, arith, ◌∙◌,
}
use gcnsim_awb.Prelude.Words.{sub64}
use gcnsim_awb.Config.{Config}
use gcnsim_awb.VertexReader.{
  VertexReader, request_f, count_pop, want_more, end_first_pass, transfer_first, transfer_data,
}

-- `n` calls of `TransferData` in a row.
abbrev pub transfers : Config → ℕ → VertexReader → Option (List ℕ × VertexReader)
transfers c = repeat_calls (λ s. do (v, s') ← transfer_data c s; some (v ∷ [], s'))

-- Rows from `p` on that make one block: `max_v` of them, or as many as are left.
pub record IsBlock (c : Config) (p n : ℕ) : Type 0 where
  pub aligned : p % c.max_v ≡ 0
  pub some_rows : 0 < n
  pub fits : n ≤ c.max_v
  pub in_matrix : p + n ≤ c.a_h
  pub full : (n ≡ c.max_v) ⊎ (p + n ≡ c.a_h)

-- The first pass has sent `seen` of the block from `p` on, and `left` waits.
pub record IsFirst (p : ℕ) (seen left counts : List ℕ) (s : VertexReader) : Type 0 where
  pub pass : s.x_repeat ≡ 0
  pub waiting : s.vq ≡ left
  pub kept : s.v_cache ≡ seen
  pub start : s.pre_row_archive ≡ p
  pub row : s.pre_row ≡ p + length seen
  pub cursor : s.v_cache_idx ≡ 0
  pub counts_left : s.vertex_req_count ≡ counts

-- Pass `k` over the block `block` has sent its first `i` rows.
pub record IsReplay (p k i : ℕ) (block counts : List ℕ) (s : VertexReader) : Type 0 where
  pub pass : s.x_repeat ≡ k
  pub waiting : s.vq ≡ []
  pub kept : s.v_cache ≡ block
  pub start : s.pre_row_archive ≡ p
  pub row : s.pre_row ≡ p + i
  pub cursor : s.v_cache_idx ≡ i
  pub counts_left : s.vertex_req_count ≡ counts

-- What `TransferData` keeps apart from its own fields.
pub record Same (s t : VertexReader) : Type 0 where
  pub pass : s.x_repeat ≡ t.x_repeat
  pub waiting : s.vq ≡ t.vq
  pub kept : s.v_cache ≡ t.v_cache
  pub start : s.pre_row_archive ≡ t.pre_row_archive
  pub row : s.pre_row ≡ t.pre_row
  pub cursor : s.v_cache_idx ≡ t.v_cache_idx
  pub counts_left : s.vertex_req_count ≡ t.vertex_req_count

pub count_pop-Same : (c : Config) (s : VertexReader) → Same (count_pop c s) s
unfolding count_pop request_f
count_pop-Same c s = ground arith

want_more-Same : (c : Config) (s : VertexReader) → Same (want_more c s) s
unfolding want_more
want_more-Same c s = ground arith

mod_row : (p m i : ℕ) → p % m ≡ 0 → 0 < i → i < m → (p + i) % m ≢ 0
mod_row p m i e pos lt = grind arith

mod_end : (p m : ℕ) → p % m ≡ 0 → 0 < m → (p + m) % m ≡ 0
mod_end p m e pos = grind arith

module _ (c : Config) where
  abbrev popped : ℕ → List ℕ → VertexReader → VertexReader
  popped y rest s = record s {
    pre_row = s.pre_row + 1;
    v_cache = s.v_cache ++ y ∷ [];
    vq = rest;
    q_space = sub64 s.q_space 1;
    pop_count = s.pop_count + 1;
  }

  -- The reader once the row pointer `y` is taken, before the end of the pass is looked for.
  taken : ℕ → List ℕ → VertexReader → VertexReader
  taken y rest s = want_more c (count_pop c (popped y rest s))

  transfer-taken :
      (y : ℕ) (rest : List ℕ) (s : VertexReader)
      → s.x_repeat ≡ 0
      → s.vq ≡ y ∷ rest
      → transfer_data c s ≡ some (y, end_first_pass c (taken y rest s))
  unfolding transfer_data transfer_first taken
  transfer-taken y rest s zero_pass queue = ground arith

  taken-IsFirst :
      (p : ℕ) (seen : List ℕ) (y : ℕ) (rest counts : List ℕ) (s : VertexReader)
      → IsFirst p seen (y ∷ rest) counts s
      → IsFirst p (seen ++ y ∷ []) rest counts (taken y rest s)
  unfolding taken
  taken-IsFirst p seen y rest counts s f = ground (
    arith,
    want_more-Same c (count_pop c (popped y rest s)),
    count_pop-Same c (popped y rest s),
    length-append seen (y ∷ []),
  )

  block-inside :
      (p n i row : ℕ)
      → IsBlock c p n
      → 0 < i
      → i < n
      → row ≡ p + i
      → (row % c.max_v ≢ 0) × (row ≢ c.a_h)
  block-inside p n i row b pos lt e =
      let fits = b.fits in
      let inside = b.in_matrix in
      (rw e (mod_row p c.max_v i b.aligned pos (omega arith)), omega arith)

  block-end : (p n row : ℕ) → IsBlock c p n → row ≡ p + n → (row % c.max_v ≡ 0) ⊎ (row ≡ c.a_h)
  block-end p n row b e = elim b.full [
    | inl whole ↦ inl (rw (e, whole) (mod_end p c.max_v b.aligned (omega (arith, b.some_rows))))
    | inr last ↦ inr (e ∙ last)
  ]

  -- The end of the first pass, and the state before it.
  IsFirst-continues :
      (p : ℕ) (seen rest counts : List ℕ) (s : VertexReader)
      → IsFirst p seen rest counts s
      → s.pre_row % c.max_v ≢ 0
      → s.pre_row ≢ c.a_h
      → IsFirst p seen rest counts (end_first_pass c s)
  unfolding end_first_pass
  IsFirst-continues p seen rest counts s f h k = ground arith

  first-ends :
      (p : ℕ) (seen counts : List ℕ) (s : VertexReader)
      → IsFirst p seen [] counts s
      → (s.pre_row % c.max_v ≡ 0) ⊎ (s.pre_row ≡ c.a_h)
      → IsReplay p 1 0 seen counts (end_first_pass c s)
  unfolding end_first_pass
  first-ends p seen counts s f h = ground arith

  -- The first pass sends what waits, and keeps the whole block for the passes to come.
  pub first_pass :
      (left : List ℕ) (y p : ℕ) (seen counts : List ℕ) (s : VertexReader)
      → IsFirst p seen (y ∷ left) counts s
      → IsBlock c p (length seen + suc (length left))
      → (s' : VertexReader) × (transfers c (suc (length left)) s ≡ some (y ∷ left, s'))
        × IsReplay p 1 0 (seen ++ y ∷ left) counts s'
  unfolding repeat_calls
  first_pass [] y p seen counts s f b =
      let s₁ = end_first_pass c (taken y [] s) in
      let t = taken-IsFirst p seen y [] counts s f in
      (
        s₁,
        rw (transfer-taken y [] s f.pass f.waiting) refl,
        first-ends p (seen ++ y ∷ []) counts (taken y [] s) t (
            block-end p (length seen + 1) (taken y [] s).pre_row b
              (omega (arith, t.row, length-append seen (y ∷ [])))),
      )
  first_pass (z ∷ left) y p seen counts s f b =
      let s₁ = end_first_pass c (taken y (z ∷ left) s) in
      let t = taken-IsFirst p seen y (z ∷ left) counts s f in
      let more = length-append seen (y ∷ []) in
      let (row, below) =
        block-inside p (length seen + suc (suc (length left))) (suc (length seen))
          (taken y (z ∷ left) s).pre_row b (omega arith) (omega arith)
          (omega (arith, t.row, more)) in
      let t₁ =
        IsFirst-continues p (seen ++ y ∷ []) (z ∷ left) counts (taken y (z ∷ left) s) t row below in
      let (s', run, done) =
        first_pass left z p (seen ++ y ∷ []) counts s₁ t₁
          (subst (IsBlock c p) (omega (arith, more)) b) in
      (
        s',
        rw (transfer-taken y (z ∷ left) s f.pass f.waiting, run) refl,
        subst (λ l. IsReplay p 1 0 l counts s') (append_assoc seen (y ∷ []) (z ∷ left)) done,
      )
