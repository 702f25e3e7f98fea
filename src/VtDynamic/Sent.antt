-- ===== src/VtDynamic/Sent.antt =====
-- CSR_converter/vtmake_dynamic_vt_*.cpp: what the vectors hold, for any slots.
use mathlib.Core.Path.{subst}
use mathlib.Core.List.{append-nil}
use gcnsim_awb.Prelude.{
  ℕ, ◌+◌, ◌^◌, ◌<◌, ◌≡◌, refl, Bool, ◌&&◌, ◌==◌, List, [], ◌∷◌, ◌++◌, Option, none, some, ◌>>=◌,
  All, length, length-replicate, replicate, get_elem?, get_elem?-replicate, inl, inr, Option-cases,
  arith, sym, ◌∙◌, ap, ap₂,
}
use gcnsim_awb.Distributer.Rejoin.{join, edges, pointers}
use gcnsim_awb.Vtmake.{sums, entries}
use gcnsim_awb.RowLoop.{loop_rows}
use gcnsim_awb.RowLoop.Edges.{each, from_vertex, edge_list, loop_rows-each}
use gcnsim_awb.RowLoop.Slots.{put_in_slot, HasSlot, is_slot, each-IsSent}
use gcnsim_awb.RowLoop.Owner.{kept, sent-kept}
use gcnsim_awb.VtDynamic.{vt_dynamic}

module _ (slot : ℕ → ℕ → Option ℕ) (size v : ℕ) where
  pub vt_dynamic-each :
      (m : List (List ℕ))
      → length m ≡ v
      → edges m < 2 ^ 64
      → vt_dynamic slot size v (0 ∷ pointers 0 m) (join m) ≡ (
          each (put_in_slot slot) (edge_list 0 m) (replicate size []) >>= λ tiles.
          some (0 ∷ sums 0 tiles, entries tiles))
  unfolding vt_dynamic
  vt_dynamic-each m count few =
      let loop =
        ap₂ (λ l n. loop_rows (put_in_slot slot) (0 ∷ pointers 0 m) 0 n none l (replicate size []))
          (sym (append-nil (join m))) (sym count)
        ∙ loop_rows-each (put_in_slot slot) m (0 ∷ pointers 0 m) [] 0 0 none [] (replicate size [])
            refl refl (omega arith) in
      rw loop (elim (Option-cases (each (put_in_slot slot) (edge_list 0 m) (replicate size []))) [
        | inl h ↦ rw h refl
        | inr (tiles, h) ↦ rw h refl
      ])

  vertex-HasSlot :
      (i : ℕ) (l : List ℕ) (es : List (ℕ × ℕ))
      → ((i e : ℕ) → i < v → e < v → HasSlot slot size (i, e))
      → i < v
      → All (λ e. e < v) l
      → All (HasSlot slot size) es
      → All (HasSlot slot size) (from_vertex i l ++ es)
  vertex-HasSlot i [] es has h all rest = rest
  vertex-HasSlot i (e ∷ l) es has h (below, all) rest =
      (has i e h below, vertex-HasSlot i l es has h all rest)

  graph-HasSlot :
      (i : ℕ) (m : List (List ℕ))
      → ((i e : ℕ) → i < v → e < v → HasSlot slot size (i, e))
      → i + length m ≡ v
      → All (All (λ e. e < v)) m
      → All (HasSlot slot size) (edge_list i m)
  graph-HasSlot i [] has count all = tt
  graph-HasSlot i (l ∷ m) has count (below, all) =
      vertex-HasSlot i l (edge_list (i + 1) m) has (omega arith) below
        (graph-HasSlot (i + 1) m has (omega arith) all)

  -- When every edge has a vector, and one of them takes the edges of one row that pass a test.
  pub vt_dynamic-kept :
      (k own : ℕ) (p : ℕ → Bool) (m : List (List ℕ)) (l : List ℕ)
      → ((i e : ℕ) → i < v → e < v → HasSlot slot size (i, e))
      → ((i e : ℕ) → i < v → e < v → is_slot (slot i e) k ≡ (i == own) && p e)
      → k < size
      → length m ≡ v
      → edges m < 2 ^ 64
      → All (All (λ e. e < v)) m
      → get_elem? m own ≡ some l
      → (tiles : List (List ℕ)) × (vt_dynamic slot size v (0 ∷ pointers 0 m) (join m)
          ≡ some (0 ∷ sums 0 tiles, entries tiles))
        × (length tiles ≡ size)
        × (get_elem? tiles k ≡ some (kept p l))
  vt_dynamic-kept k own p m l has only inside count few all at =
      let start = length-replicate {A = List ℕ} size [] in
      let (tiles, run, len, sent_all) = each-IsSent slot (edge_list 0 m) (replicate size []) (
        subst (λ n. All (HasSlot slot n) (edge_list 0 m)) (sym start)
          (graph-HasSlot 0 m has (omega arith) all)) in
      (
        tiles,
        vt_dynamic-each m count few ∙ rw run refl,
        len ∙ start,
        sent_all k [] (get_elem?-replicate size k [] inside)
            ∙ ap some (sent-kept slot v k own p only 0 own m l (omega arith) (omega arith) all at),
      )
