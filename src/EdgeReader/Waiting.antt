-- ===== src/EdgeReader/Waiting.antt =====
-- EdgeReader.cpp: what the operations do to the queue of column indices.
use gcnsim_awb.Prelude.{
  ℕ, ◌+◌, ◌≡◌, true, not, ◌&&◌, ◌==◌, ltb, [], ◌∷◌, ◌++◌, some, is_empty, get_elem?, Bool-cases,
  Option-cases, List-cases, inl, inr, arith, EndsWith,
}
use gcnsim_awb.Prelude.Words.{sub64}
use gcnsim_awb.Config.{Config}
use gcnsim_awb.EdgeReader.{
  EdgeReader, receive_vertex, outer_product, outer_first, outer_replay, end_first_row,
  end_replay_row, write, want_more, next_block,
}

pub receive_vertex-eq : (c : Config) (v : ℕ) (s : EdgeReader) → (receive_vertex c v s).eq ≡ s.eq
unfolding receive_vertex
receive_vertex-eq c v s = ground arith

pub write-eq : (c : Config) (s : EdgeReader) → (write c s).eq ≡ s.eq
unfolding write
write-eq c s = ground arith

end_first_row-eq : (c : Config) (s : EdgeReader) → (end_first_row c s).eq ≡ s.eq
unfolding end_first_row
end_first_row-eq c s = ground arith

want_more-eq : (c : Config) (s : EdgeReader) → (want_more c s).eq ≡ s.eq
unfolding want_more
want_more-eq c s = ground arith

next_block-eq : (c : Config) (s t : EdgeReader) → next_block c s ≡ some t → t.eq ≡ s.eq
unfolding next_block
next_block-eq c s t e = elim (List-cases s.edge_req_count) [
  | inl k ↦ absurd (ground arith)
  | inr (n, ns, k) ↦ ground arith
]

end_replay_row-eq : (c : Config) (s t : EdgeReader) → end_replay_row c s ≡ some t → t.eq ≡ s.eq
unfolding end_replay_row
end_replay_row-eq c s t e = elim (Option-cases (next_block c (record s { can_receive = true }))) [
  | inl k ↦ ground arith
  | inr (u, k) ↦ ground (arith, next_block-eq c (record s { can_receive = true }) u k)
]

replay-eq : (c : Config) (s t : EdgeReader) → outer_replay c s ≡ some t → t.eq ≡ s.eq
unfolding outer_replay
replay-eq c s t e = elim (Option-cases (get_elem? s.e_cache s.e_cache_idx)) [
  | inl k ↦ absurd (ground arith)
  | inr (v, k) ↦
      end_replay_row-eq c
        (record s { e_cache_idx = s.e_cache_idx + 1; remain_col_num = sub64 s.remain_col_num 1 }) t
        (ground arith)
]

outer_first-eq : (c : Config) (s t : EdgeReader) → outer_first c s ≡ some t → EndsWith 1 s.eq t.eq
unfolding outer_first
outer_first-eq c s t e = elim (List-cases s.eq) [
  | inl k ↦ absurd (ground arith)
  | inr (v, q, k) ↦
      let s₁ : EdgeReader = record s {
        eq = q;
        e_cache = s.e_cache ++ v ∷ [];
        q_space = sub64 s.q_space 1;
      } in
      let s₂ = want_more c s₁ in
      let s₃ : EdgeReader = record s₂ { remain_col_num = sub64 s₂.remain_col_num 1 } in
      (v ∷ [], ground (arith, want_more-eq c s₁, end_first_row-eq c s₃), omega arith)
]

-- The product takes at most the first index that waits.
pub outer_product-eq :
    (c : Config) (s t : EdgeReader) → outer_product c s ≡ some t → EndsWith 1 s.eq t.eq
unfolding outer_product
outer_product-eq c s t e =
    elim (Bool-cases (not (is_empty s.eq) && (not (s.remain_col_num == 0) && (s.x_repeat == 0)))) [
      | inl k ↦ outer_first-eq c s t (ground arith)
      | inr k ↦ elim (Bool-cases (ltb 0 s.x_repeat && not (s.remain_col_num == 0))) [
        | inl g ↦ ([], replay-eq c s t (ground arith), omega arith)
        | inr g ↦ ([], ground arith, omega arith)
      ]
    ]
