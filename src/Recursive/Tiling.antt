-- ===== src/Recursive/Tiling.antt =====
-- CSR_converter/recursive_tiling_maker.cpp: the whole tool.
use mathlib.Core.Path.{subst}
use gcnsim_awb.Prelude.{
  ℕ, zero, suc, ◌+◌, ◌^◌, ◌<◌, ◌≡◌, refl, true, not, ◌&&◌, List, [], ◌∷◌, ◌++◌, some, All, length,
  length-append, get_elem?, get_elem?-replicate, arith, sym, ◌∙◌, ap,
}
use gcnsim_awb.Distributer.Rejoin.{join, edges, pointers}
use gcnsim_awb.RowLoop.Edges.{from_vertex, edge_list}
use gcnsim_awb.RowLoop.Slots.{sent}
use gcnsim_awb.RowLoop.Owner.{sent-kept}
use gcnsim_awb.Vtmake.{sums, entries}
use gcnsim_awb.Recursive.{
  Node, Tree, new_node, in_this_node, all_vectors, distribute_graph, get_leaves_inorder,
  generate_tree, recursive_tiling,
}
use gcnsim_awb.Recursive.Cover.{IsSound, IsNew, in_some, in_this_node-true, generate_tree-IsTiled}
use gcnsim_awb.Recursive.Leaves.{inorder-IsNew, inorder-IsCovered}
use gcnsim_awb.Recursive.Distribute.{slot_in}
use gcnsim_awb.Recursive.Parts.{
  HaveLeaves, distribute_graph-IsSent, part_of, offset, is_slot-part_of,
}

front_at :
    {A : Type 0} (xs ys : List A) (i : ℕ) {a : A}
    → get_elem? xs i ≡ some a
    → get_elem? (xs ++ ys) i ≡ some a
front_at [] ys i h = absurd (cc)
front_at (x ∷ xs) ys zero h = h
front_at (x ∷ xs) ys (suc i) h = front_at xs ys i h

behind_at :
    {A : Type 0} (xs ys : List A) (i k : ℕ)
    → k ≡ length xs + i
    → get_elem? (xs ++ ys) k ≡ get_elem? ys i
behind_at [] ys i k e = ap (get_elem? ys) (omega arith)
behind_at (x ∷ xs) ys i zero e = absurd (omega arith)
behind_at (x ∷ xs) ys i (suc k) e = behind_at xs ys i k (omega arith)

all_vectors-at :
    (v : ℕ) (before : List Node) (nd : Node) (after : List Node) (r : ℕ)
    → All (IsNew v) (before ++ nd ∷ after)
    → r < length nd.new_csr
    → get_elem? (all_vectors (before ++ nd ∷ after)) (offset before + r) ≡ some []
unfolding all_vectors IsNew
all_vectors-at v [] nd after r ((h, fresh), hs) row =
    front_at nd.new_csr (all_vectors after) (0 + r) (
      ap (λ l. get_elem? l (0 + r)) fresh
      ∙ get_elem?-replicate (length nd.new_csr) (0 + r) [] (omega arith))
all_vectors-at v (b ∷ before) nd after r (h, hs) row =
    behind_at b.new_csr (all_vectors (before ++ nd ∷ after)) (offset before + r)
      (offset (b ∷ before) + r) (omega (arith, length-append b.new_csr (all_vectors before)))
    ∙ all_vectors-at v before nd after r hs row

All-map : {A : Type 0} (P Q : A → Type 0) (l : List A) → ((a : A) → P a → Q a) → All P l → All Q l
All-map P Q [] f h = tt
All-map P Q (a ∷ l) f (h, hs) = (f a h, All-map P Q l f hs)

module _ (v : ℕ) (small : v < 2 ^ 62) where
  new-IsSound : (nd : Node) → IsNew v nd → IsSound v nd
  unfolding IsNew
  new-IsSound nd (h, fresh) = h

  -- The root has every edge of a graph.
  pub root-in_some :
      (from to : ℕ) → from < v → to < v → in_some (new_node 0 v 0 v ∷ []) from to ≡ true
  unfolding new_node
  root-in_some from to h k =
      rw
        (in_this_node-true (new_node 0 v 0 v) from to
          (omega arith, omega arith, omega arith, omega arith))
        refl

  pub leaves-in_some :
      (config : List ℕ) (t : Tree) (from to : ℕ)
      → generate_tree v config ≡ some t
      → from < v
      → to < v
      → in_some (get_leaves_inorder t) from to ≡ true
  leaves-in_some config t from to gen h k =
      let (tiled, root) = generate_tree-IsTiled v small config t gen in
      inorder-IsCovered v t tiled from to
        (subst (λ l. in_some l from to ≡ true) (sym root) (root-in_some from to h k))

  pub leaves-IsNew :
      (config : List ℕ) (t : Tree)
      → generate_tree v config ≡ some t
      → All (IsNew v) (get_leaves_inorder t)
  leaves-IsNew config t gen = inorder-IsNew v t ((generate_tree-IsTiled v small config t gen).0)

  vertex-HaveLeaves :
      (leaves : List Node) (i : ℕ) (l : List ℕ) (es : List (ℕ × ℕ))
      → ((from to : ℕ) → from < v → to < v → in_some leaves from to ≡ true)
      → i < v
      → All (λ e. e < v) l
      → HaveLeaves leaves es
      → HaveLeaves leaves (from_vertex i l ++ es)
  vertex-HaveLeaves leaves i [] es has h all rest = rest
  vertex-HaveLeaves leaves i (e ∷ l) es has h (k, all) rest =
      (has i e h k, vertex-HaveLeaves leaves i l es has h all rest)

  graph-HaveLeaves :
      (leaves : List Node) (i : ℕ) (m : List (List ℕ))
      → ((from to : ℕ) → from < v → to < v → in_some leaves from to ≡ true)
      → i + length m ≡ v
      → All (All (λ e. e < v)) m
      → HaveLeaves leaves (edge_list i m)
  graph-HaveLeaves leaves i [] has size all = tt
  graph-HaveLeaves leaves i (l ∷ m) has size (h, all) =
      vertex-HaveLeaves leaves i l (edge_list (i + 1) m) has (omega arith) h
        (graph-HaveLeaves leaves (i + 1) m has (omega arith) all)

  -- What the loop over the edges gives for any list of new leaves that has every edge.
  pub distribute_graph-part_of :
      (leaves : List Node) (m : List (List ℕ)) (before : List Node) (nd : Node) (after : List Node)
      (r : ℕ) (l : List ℕ)
      → All (IsNew v) leaves
      → ((from to : ℕ) → from < v → to < v → in_some leaves from to ≡ true)
      → length m ≡ v
      → edges m < 2 ^ 64
      → All (All (λ e. e < v)) m
      → leaves ≡ before ++ nd ∷ after
      → r < length nd.new_csr
      → get_elem? m (nd.from_start + r) ≡ some l
      → (tiles : List (List ℕ)) × (distribute_graph v (0 ∷ pointers 0 m) (join m) leaves
          ≡ some tiles)
        × (length tiles ≡ length (all_vectors leaves))
        × (get_elem? tiles (offset before + r) ≡ some (part_of before nd (nd.from_start + r) l))
  distribute_graph-part_of leaves m before nd after r l new has size few all split row at =
      let hs = All-map (IsNew v) (IsSound v) leaves new-IsSound new in
      let (tiles, run, len, sent_all) =
        distribute_graph-IsSent v small leaves m size few hs
          (graph-HaveLeaves leaves 0 m has (omega arith) all) in
      (
        tiles,
        run,
        len,
        sent_all (offset before + r) [] (
              ap (λ ls. get_elem? (all_vectors ls) (offset before + r)) split
              ∙ all_vectors-at v before nd after r (subst (All (IsNew v)) split new) row)
            ∙ ap some (
                ap (λ ls. sent (slot_in ls) (offset before + r) (edge_list 0 m)) split
                ∙ sent-kept (slot_in (before ++ nd ∷ after)) v (offset before + r)
                    (nd.from_start + r)
                    (λ to.
                      in_this_node nd (nd.from_start + r) to
                      && not (in_some before (nd.from_start + r) to))
                    (λ i e h k.
                      is_slot-part_of v nd after r row before i e
                        (subst (All (IsSound v)) split hs))
                    0 (nd.from_start + r) m l (omega arith) (omega arith) all at),
      )

  -- For a graph of `v` vertices, below 2^62, whose columns are vertices, and any configuration that gives
  -- a tree: the tool returns, and its vectors are those of the leaves in order. The vector of the row
  -- `nd.from_start + r` in a leaf holds, in the order of the input, the edges of that row that the leaf
  -- has and that no leaf before it has.
  pub recursive_tiling-part_of :
      (config : List ℕ) (t : Tree) (m : List (List ℕ)) (before : List Node) (nd : Node)
      (after : List Node) (r : ℕ) (l : List ℕ)
      → generate_tree v config ≡ some t
      → length m ≡ v
      → edges m < 2 ^ 64
      → All (All (λ e. e < v)) m
      → get_leaves_inorder t ≡ before ++ nd ∷ after
      → r < length nd.new_csr
      → get_elem? m (nd.from_start + r) ≡ some l
      → (tiles : List (List ℕ)) × (recursive_tiling v config (0 ∷ pointers 0 m) (join m)
          ≡ some (0 ∷ sums 0 tiles, entries tiles, 256 ∷ 256 ∷ length tiles ∷ []))
        × (length tiles ≡ length (all_vectors (get_leaves_inorder t)))
        × (get_elem? tiles (offset before + r) ≡ some (part_of before nd (nd.from_start + r) l))
  unfolding recursive_tiling
  recursive_tiling-part_of config t m before nd after r l gen size few all leaves row at =
      let (tiles, run, len, here) =
        distribute_graph-part_of (get_leaves_inorder t) m before nd after r l
          (leaves-IsNew config t gen) (λ from to. leaves-in_some config t from to gen) size few all
          leaves row at in
      (tiles, rw (gen, run) refl, len, here)
