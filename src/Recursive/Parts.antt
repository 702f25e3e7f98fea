-- ===== src/Recursive/Parts.antt =====
-- CSR_converter/recursive_tiling_maker.cpp: which edges stand in which vector of the output.
use mathlib.Core.Path.{subst, fun_ext}
use mathlib.Core.List.{append-nil}
use gcnsim_awb.Prelude.{
  ℕ, ◌+◌, ◌^◌, ◌<◌, ◌≡◌, refl, Bool, true, false, not, ◌&&◌, ◌==◌, List, [], ◌∷◌, ◌++◌, Option,
  none, some, ◌>>=◌, some-eq, All, inl, inr, Bool-cases, ==_iff, length, length-append, arith, sym,
  ◌∙◌, ap, ap₂,
}
use gcnsim_awb.Distributer.Rejoin.{join, edges, pointers}
use gcnsim_awb.RowLoop.{loop_rows}
use gcnsim_awb.RowLoop.Edges.{each, edge_list, loop_rows-each}
use gcnsim_awb.RowLoop.Slots.{is_slot, put_in_slot, HasSlot, IsSent, each-IsSent}
use gcnsim_awb.RowLoop.Owner.{kept}
use gcnsim_awb.Recursive.{Node, in_this_node, distribute_edge, all_vectors, distribute_graph}
use gcnsim_awb.Recursive.Cover.{IsSound, in_some, in_this_node-InArea}
use gcnsim_awb.Recursive.Distribute.{slot_in, distribute_edge-Placed}

-- Every edge has a leaf.
abbrev pub HaveLeaves : List Node → List (ℕ × ℕ) → Type 0
HaveLeaves leaves es = All (λ edge. in_some leaves (edge.0) (edge.1) ≡ true) es

module _ (v : ℕ) (small : v < 2 ^ 62) where
  alike-HaveLeaves :
      (a b : List Node) (es : List (ℕ × ℕ))
      → ((from to : ℕ) → in_some b from to ≡ in_some a from to)
      → HaveLeaves a es
      → HaveLeaves b es
  alike-HaveLeaves a b [] same h = tt
  alike-HaveLeaves a b ((i, e) ∷ es) same (h, hs) = (same i e ∙ h, alike-HaveLeaves a b es same hs)

  HaveLeaves-HasSlot :
      (leaves : List Node) (es : List (ℕ × ℕ))
      → All (IsSound v) leaves
      → HaveLeaves leaves es
      → All (HasSlot (slot_in leaves) (length (all_vectors leaves))) es
  HaveLeaves-HasSlot leaves [] hs h = tt
  HaveLeaves-HasSlot leaves ((i, e) ∷ es) hs (h, more) =
      let p = distribute_edge-Placed v small i e leaves hs h in
      ((p.slot, p.at, p.below), HaveLeaves-HasSlot leaves es hs more)

  each-put_in_slot :
      (es : List (ℕ × ℕ)) (leaves : List Node)
      → All (IsSound v) leaves
      → HaveLeaves leaves es
      → (placed : List Node) × (each distribute_edge es leaves ≡ some placed)
        × (each (put_in_slot (slot_in leaves)) es (all_vectors leaves) ≡ some (all_vectors placed))
  unfolding put_in_slot
  each-put_in_slot [] leaves hs h = (leaves, refl, refl)
  each-put_in_slot ((i, e) ∷ es) leaves hs (h, more) =
      let p = distribute_edge-Placed v small i e leaves hs h in
      let (placed, run, puts) =
        each-put_in_slot es p.placed p.sound
          (alike-HaveLeaves leaves p.placed es (λ f t. (p.alike f t).1) more) in
      let same : slot_in p.placed ≡ slot_in leaves =
        fun_ext (λ f. fun_ext (λ t. (p.alike f t).0)) in
      (
        placed,
        rw p.run run,
        rw (p.at, p.pushed)
            (subst (λ s. each (put_in_slot s) es (all_vectors p.placed) ≡ some (all_vectors placed))
              same puts),
      )

  distribute_graph-run :
      (leaves placed : List Node) (m : List (List ℕ))
      → length m ≡ v
      → edges m < 2 ^ 64
      → each distribute_edge (edge_list 0 m) leaves ≡ some placed
      → distribute_graph v (0 ∷ pointers 0 m) (join m) leaves ≡ some (all_vectors placed)
  unfolding distribute_graph
  distribute_graph-run leaves placed m size few run =
      let loop =
        ap₂ (λ l n. loop_rows distribute_edge (0 ∷ pointers 0 m) 0 n none l leaves)
          (sym (append-nil (join m))) (sym size)
        ∙ loop_rows-each distribute_edge m (0 ∷ pointers 0 m) [] 0 0 none [] leaves refl refl
            (omega arith) in
      rw (loop, run) refl

  -- The tool's loop sends every edge to its slot.
  pub distribute_graph-IsSent :
      (leaves : List Node) (m : List (List ℕ))
      → length m ≡ v
      → edges m < 2 ^ 64
      → All (IsSound v) leaves
      → HaveLeaves leaves (edge_list 0 m)
      → (tiles : List (List ℕ)) × (distribute_graph v (0 ∷ pointers 0 m) (join m) leaves
          ≡ some tiles)
        × (length tiles ≡ length (all_vectors leaves))
        × IsSent (slot_in leaves) (edge_list 0 m) (all_vectors leaves) tiles
  distribute_graph-IsSent leaves m size few hs h =
      let (placed, run, puts) = each-put_in_slot (edge_list 0 m) leaves hs h in
      let (tiles, run', len, is) =
        each-IsSent (slot_in leaves) (edge_list 0 m) (all_vectors leaves)
          (HaveLeaves-HasSlot leaves (edge_list 0 m) hs h) in
      (
        tiles,
        distribute_graph-run leaves placed m size few run ∙ ap some (some-eq (sym puts ∙ run')),
        len,
        is,
      )

-- The edges of the row of `from` that the node has, and none of the nodes before it.
abbrev pub part_of : List Node → Node → ℕ → List ℕ → List ℕ
part_of before nd from l = kept (λ to. in_this_node nd from to && not (in_some before from to)) l

-- The row of `from` in the node, in place.
abbrev pub offset : List Node → ℕ
offset before = length (all_vectors before)

is_slot-shift : (o : Option ℕ) (n k : ℕ) → is_slot (o >>= λ j. some (n + j)) (n + k) ≡ is_slot o k
is_slot-shift none n k = refl
is_slot-shift (some j) n k = ground arith

is_slot-low : (o : Option ℕ) (n k : ℕ) → k < n → is_slot (o >>= λ j. some (n + j)) k ≡ false
is_slot-low none n k h = refl
is_slot-low (some j) n k h = ground arith

and_false : (p q : Bool) → (p && (q && false)) ≡ false
and_false true true = refl
and_false true false = refl
and_false false q = refl

false_of : (p : Bool) → (p && false) ≡ false
false_of true = refl
false_of false = refl

module _ (v : ℕ) (nd : Node) (after : List Node) (r : ℕ) (row : r < length nd.new_csr) where
  abbrev pub own : ℕ
  own = nd.from_start + r

  is_slot-own :
      (before : List Node) (from to : ℕ)
      → All (IsSound v) (before ++ nd ∷ after)
      → is_slot (slot_in (before ++ nd ∷ after) from to) (offset before + r)
        ≡ (from == own) && (in_this_node nd from to && not (in_some before from to))
  unfolding all_vectors IsSound
  is_slot-own [] from to (h, hs) = elim (Bool-cases (in_this_node nd from to)) [
    | inl here ↦ let (a, b, c, d) = in_this_node-InArea nd from to here in rw here (ground arith)
    | inr there ↦ rw there (
        ap (is_slot (slot_in after from to >>= λ k. some (length nd.new_csr + k))) {x = 0 + r}
          {y = r} (omega arith)
        ∙ is_slot-low (slot_in after from to) (length nd.new_csr) r row
        ∙ sym (false_of (from == own)))
  ]
  is_slot-own (b ∷ before) from to (h, hs) = elim (Bool-cases (in_this_node b from to)) [
    | inl here ↦
        let (p, q, s, t) = in_this_node-InArea b from to here in
        let (i, j, k, l, m) = h in
        rw here (
          ground (arith, length-append b.new_csr (all_vectors before))
          ∙ sym (and_false (from == own) (in_this_node nd from to)))
    | inr there ↦ rw there (
        ap (is_slot (slot_in (before ++ nd ∷ after) from to >>= λ k. some (length b.new_csr + k)))
          {x = offset (b ∷ before) + r} {y = length b.new_csr + (offset before + r)}
          (omega (arith, length-append b.new_csr (all_vectors before)))
        ∙ is_slot-shift (slot_in (before ++ nd ∷ after) from to) (length b.new_csr)
            (offset before + r)
        ∙ is_slot-own before from to hs)
  ]

  pub is_slot-part_of :
      (before : List Node) (from to : ℕ)
      → All (IsSound v) (before ++ nd ∷ after)
      → is_slot (slot_in (before ++ nd ∷ after) from to) (offset before + r)
        ≡ (from == own) && (in_this_node nd own to && not (in_some before own to))
  is_slot-part_of before from to hs =
      is_slot-own before from to hs
      ∙ at_own (λ n. in_this_node nd n to && not (in_some before n to)) from own
    where
      at_own : (f : ℕ → Bool) (a b : ℕ) → ((a == b) && f a) ≡ ((a == b) && f b)
      at_own f a b = elim (Bool-cases (a == b)) [
        | inl same ↦ ap (λ n. (a == b) && f n) ((==_iff a b).0 same)
        | inr other ↦ rw other refl
      ]
