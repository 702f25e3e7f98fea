-- ===== src/Simulator/Delivery.antt =====
-- RunSimulator.cpp, the loop of `main`: the column indices on their way from the controller, through
-- the edge reader's queue, to the product.
use mathlib.Core.List.{append-nil, append_assoc}
use mathlib.Core.Path.{subst}
use gcnsim_awb.Prelude.{
  ℕ, zero, suc, ◌≡◌, refl, not, ◌&&◌, List, [], ◌∷◌, ◌++◌, some, >>=-eq-some, Bool-cases,
  Option-cases, inl, inr, arith, sym, ◌∙◌, ap, EndsWith, length-append,
}
use gcnsim_awb.Prelude.Words.{add64}
use gcnsim_awb.Config.{Config}
use gcnsim_awb.Dram.{MemorySystem}
use gcnsim_awb.VertexReader.{VertexReader, transfer_data}
use gcnsim_awb.EdgeReader
use gcnsim_awb.EdgeReader.{EdgeReader, can_vertex_receive, receive_vertex, outer_product, write}
use gcnsim_awb.EdgeReader.Waiting.{receive_vertex-eq, write-eq, outer_product-eq}
use gcnsim_awb.Simulator.{
  Simulator, Arrival, Chunk, no_chunk, row_chunk, col_chunk, controller_turn, receive_rows,
  receive_cols, vertex_request, pass_vertex, edge_request, edge_work, units_turn, flag_after,
  dram_turn, send_requests, memory_turn, turn, turns,
}
use gcnsim_awb.Simulator.Serving.{cols_of, controller_turn-Served}

receive_cols-eq : (ks : List Chunk) (s : EdgeReader) → ((receive_cols ks s).eq ≡ s.eq ++ cols_of ks)
unfolding receive_cols EdgeReader.receive_data
receive_cols-eq [] s = sym (append-nil s.eq)
receive_cols-eq (no_chunk ∷ ks) s = receive_cols-eq ks s
receive_cols-eq (row_chunk l ∷ ks) s = receive_cols-eq ks s
receive_cols-eq (col_chunk l ∷ ks) s =
    receive_cols-eq ks (EdgeReader.receive_data l s) ∙ append_assoc s.eq l (cols_of ks)

pass_vertex-eq :
    (c : Config) (v v' : VertexReader) (e e' : EdgeReader)
    → pass_vertex c v e ≡ some (v', e')
    → e'.eq ≡ e.eq
unfolding pass_vertex
pass_vertex-eq c v v' e e' h =
    elim (Bool-cases (can_vertex_receive e && (not v.q_empty && v.f_flag))) [
      | inr k ↦ ground arith
      | inl k ↦ elim (Option-cases (transfer_data c v)) [
        | inl g ↦ absurd (ground arith)
        | inr ((p, w), g) ↦ ground (arith, receive_vertex-eq c p e)
      ]
    ]

edge_request-eq : (c : Config) (s : EdgeReader) → (edge_request c s).eq ≡ s.eq
unfolding edge_request EdgeReader.request EdgeReader.turn_off_flag
edge_request-eq c s = ground arith

edge_work-EndsWith : (c : Config) (s t : EdgeReader) → edge_work c s ≡ some t → EndsWith 1 s.eq t.eq
unfolding edge_work
edge_work-EndsWith c s t e =
    let (u, h, k) = >>=-eq-some (outer_product c (edge_request c s)) _ e in
    let (gone, same, few) = outer_product-eq c (edge_request c s) u h in
    (gone, ground (arith, write-eq c u, same, edge_request-eq c s), few)

-- The column indices that wait in the reader's queue, and those that the controller still holds.
abbrev pub cols_left : Simulator → List ℕ
cols_left s = s.er.eq ++ s.dc.cols.queue

-- The indices left at the end are the last ones of those at the start, and the copy is untouched.
pub record Delivers (s s' : Simulator) : Type 0 where
  pub ends : EndsWith 1 (cols_left s) (cols_left s')
  pub archive : s'.dc.cols.archive ≡ s.dc.cols.archive

move_over : (a b q r gone e : List ℕ) → gone ++ e ≡ a ++ b → b ++ q ≡ r → gone ++ (e ++ q) ≡ a ++ r
move_over a b q r gone e h k =
    sym (append_assoc gone e q) ∙ ap (λ l. l ++ q) h ∙ append_assoc a b q ∙ ap (λ l. a ++ l) k

pub units_turn-Delivers :
    (c : Config) (rs : List Arrival) (s s' : Simulator)
    → units_turn c rs s ≡ some s'
    → Delivers s s' × (s'.dram ≡ s.dram)
unfolding units_turn
units_turn-Delivers c rs s s' e =
    let (p, h₁, e₁) = >>=-eq-some (controller_turn c rs s.dc) _ e in
    let (v, h₂, e₂) =
      >>=-eq-some (receive_rows p.0 (record (s.vr) { f_flag = flag_after s.vr.f_flag rs })) _ e₁ in
    let (w, h₃, e₃) =
      >>=-eq-some (pass_vertex c (vertex_request c v) (receive_cols p.0 s.er)) _ e₂ in
    let (t, h₄, e₄) = >>=-eq-some (edge_work c w.1) _ e₃ in
    let (queue, archive) = controller_turn-Served c rs p.0 s.dc p.1 h₁ in
    let (gone, ends, few) = edge_work-EndsWith c w.1 t h₄ in
    let waiting =
      pass_vertex-eq c (vertex_request c v) w.0 (receive_cols p.0 s.er) w.1 h₃
      ∙ receive_cols-eq p.0 s.er in
    let last : record s { dc = p.1; vr = w.0; er = t } ≡ s' = ground arith in
    subst (λ z. Delivers s z × (z.dram ≡ s.dram)) last
      (
        record {
          ends = (
            gone,
            move_over s.er.eq (cols_of p.0) p.1.cols.queue s.dc.cols.queue gone t.eq
                (ends ∙ waiting) queue,
            few,
          );
          archive = archive;
        },
        refl,
      )

module _ (m : MemorySystem) (c : Config) where
  turn-Delivers : (s s' : Simulator) → turn m c s ≡ some s' → Delivers s s'
  unfolding turn send_requests
  turn-Delivers s s' e =
      let (r, h₁, e₁) = >>=-eq-some (dram_turn c.max_dram s.dram) _ e in
      let (t, h₂, e₂) = >>=-eq-some (units_turn c r.0 (record s { dram = r.1 })) _ e₁ in
      let (d, h₃, e₃) = >>=-eq-some (memory_turn m c (send_requests t).dram) _ e₂ in
      let (delivers, _) = units_turn-Delivers c r.0 (record s { dram = r.1 }) t h₂ in
      let last : record (send_requests t) { dram = d; cycle = add64 t.cycle 1 } ≡ s' =
        ground arith in
      subst (Delivers s) last (record { ends = delivers.ends; archive = delivers.archive })

  -- However the memory orders its completions, after `n` turns the column indices that wait in the
  -- edge reader's queue, followed by those that the controller still holds, are the ones at the start
  -- without a front part of at most `n`: a turn takes at most the first index out of the queue, for
  -- the product, and the others stay in their order.
  pub turns-Delivers :
      (n : ℕ) (s s' : Simulator) → turns m c n s ≡ some s' → EndsWith n (cols_left s) (cols_left s')
  unfolding turns
  turns-Delivers zero s s' e = ([], ground arith, omega arith)
  turns-Delivers (suc n) s s' e =
      let (t, h, k) = >>=-eq-some (turn m c s) _ e in
      let (g, p, few) = (turn-Delivers s t h).ends in
      let (g', q, few') = turns-Delivers n t s' k in
      (
        g ++ g',
        append_assoc g g' (cols_left s') ∙ ap (λ l. g ++ l) q ∙ p,
        omega (arith, few, few', length-append g g'),
      )
