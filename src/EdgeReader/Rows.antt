-- ===== src/EdgeReader/Rows.antt =====
-- EdgeReader.cpp, `ReceiveData(vertex)`: how many edges each row has, on every pass over a block.
use mathlib.Core.Path.{subst}
use gcnsim_awb.Prelude.{
  ℕ, zero, suc, ◌-◌, ◌≤◌, ◌<◌, ◌≡◌, refl, ◌⊎◌, inl, inr, List, [], ◌∷◌, replicate, arith, sym, ◌∙◌,
  ap, ap₂,
}
use gcnsim_awb.Config.{Config}
use gcnsim_awb.VertexReader.{no_vertex}
use gcnsim_awb.EdgeReader.{EdgeReader, receive_vertex}

-- The edges of the rows whose pointers `vs` are received one after the other. (What happens between
-- two rows of a block changes neither `cur_v` nor `last_v`.)
pub remains : Config → List ℕ → EdgeReader → List ℕ
remains c [] s = []
remains c (v ∷ vs) s = (receive_vertex c v s).remain_col_num ∷ remains c vs (receive_vertex c v s)

-- The differences of row pointers, the first one to `lo`.
abbrev pub differences : ℕ → List ℕ → List ℕ
differences lo [] = []
differences lo (v ∷ vs) = (v - lo) ∷ differences v vs

-- Row pointers never fall.
abbrev pub IsRising : ℕ → List ℕ → Type 0
IsRising lo [] = Unit
IsRising lo (v ∷ vs) = (lo ≤ v) × (v < no_vertex) × IsRising v vs

-- One row pointer that does not fall back.
receive-next :
    (c : Config) (v : ℕ) (s : EdgeReader)
    → s.cur_v ≤ v
    → v < no_vertex
    → let t = receive_vertex c v s in
      (t.remain_col_num ≡ v - s.cur_v) × (t.cur_v ≡ v) × (t.last_v ≡ s.last_v)
unfolding receive_vertex
receive-next c v s h k = ground arith

-- The first row pointer of a pass that starts the block again.
receive-back :
    (c : Config) (v : ℕ) (s : EdgeReader)
    → v < s.cur_v
    → s.last_v ≤ v
    → v < no_vertex
    → let t = receive_vertex c v s in
      (t.remain_col_num ≡ v - s.last_v) × (t.cur_v ≡ v) × (t.last_v ≡ s.last_v)
unfolding receive_vertex
receive-back c v s h k b = ground arith

remains-rest :
    (c : Config) (vs : List ℕ) (s : EdgeReader)
    → IsRising s.cur_v vs
    → remains c vs s ≡ differences s.cur_v vs
unfolding remains
remains-rest c [] s h = refl
remains-rest c (v ∷ vs) s h =
    let t = receive_vertex c v s in
    let (count, cur, last) = receive-next c v s h.0 h.1 in
    ap₂ ◌∷◌ count (
      remains-rest c vs t (subst (λ k. IsRising k vs) (sym cur) h.2)
      ∙ ap (λ k. differences k vs) cur)

-- The row pointers of a block, which never fall and stay below the number for no vertex, give each row as many edges as lie between its pointer and the one
-- before, on the first pass, which begins where the block before ended, and on every later pass that
-- begins below the pointer that was received last.
pub remains_lem :
    (c : Config) (v : ℕ) (vs : List ℕ) (s : EdgeReader)
    → IsRising s.last_v (v ∷ vs)
    → (s.cur_v ≡ s.last_v) ⊎ (v < s.cur_v)
    → remains c (v ∷ vs) s ≡ differences s.last_v (v ∷ vs)
unfolding remains
remains_lem c v vs s h (inl start) =
    remains-rest c (v ∷ vs) s (subst (λ k. IsRising k (v ∷ vs)) (sym start) h)
    ∙ ap (λ k. differences k (v ∷ vs)) start
remains_lem c v vs s h (inr back) =
    let t = receive_vertex c v s in
    let (count, cur, last) = receive-back c v s back h.0 h.1 in
    ap₂ ◌∷◌ count (
      remains-rest c vs t (subst (λ k. IsRising k vs) (sym cur) h.2)
      ∙ ap (λ k. differences k vs) cur)

-- A pass that starts again at the very pointer that was received last, as over a block whose rows
-- after the first are empty, finds no edge in any of its rows.
pub remains_lost :
    (c : Config) (n v : ℕ) (s : EdgeReader)
    → s.cur_v ≡ v
    → v < no_vertex
    → remains c (replicate n v) s ≡ replicate n 0
unfolding remains
remains_lost c zero v s e b = refl
remains_lost c (suc n) v s e b =
    let (count, cur, last) = receive-next c v s (omega arith) b in
    ap₂ ◌∷◌ (omega (arith, count)) (remains_lost c n v (receive_vertex c v s) cur b)
