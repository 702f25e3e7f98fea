-- ===== src/Recursive/UniDirected/Cover.antt =====
-- CSR_converter/recursive_tiling_maker_uni_directed.cpp: the three areas, and the whole tool.
use gcnsim_awb.Prelude.{
  ℕ, ◌+◌, ◌/◌, ◌^◌, ◌<◌, ◌≡◌, refl, Bool, true, false, if◌then◌else◌, List, [], ◌∷◌, ◌++◌, some,
  some-eq, >>=-eq-some, All, length, get_elem?, arith, sym,
}
use mathlib.Core.Path.{subst}
use gcnsim_awb.Prelude.Words.{add64}
use gcnsim_awb.Distributer.Rejoin.{join, edges, pointers}
use gcnsim_awb.Vtmake.{sums, entries}
use gcnsim_awb.Recursive.{
  Node, Tree, node, childless, new_node, fresh, read_first, in_this_node, all_vectors,
  get_leaves_inorder,
}
use gcnsim_awb.Recursive.Cover.{IsNew, in_some, new_node-IsNew}
use gcnsim_awb.Recursive.Parts.{part_of, offset}
use gcnsim_awb.Recursive.Tiling.{root-in_some, distribute_graph-part_of}
use gcnsim_awb.Recursive.UniDirected.{three_parts, uni_directed_tree, recursive_tiling_uni_directed}

module _ (v : ℕ) (small : v < 2 ^ 62) where
  three_parts-IsNew : All (IsNew v) (three_parts v)
  unfolding three_parts
  three_parts-IsNew = (
    new_node-IsNew v small 0 (v / 2) 0 (v / 2) (omega arith) (omega arith) (omega arith)
        (omega arith),
    (
      new_node-IsNew v small (add64 (v / 2) 1) v 0 v (omega arith) (omega arith) (omega arith)
          (omega arith),
      (
        new_node-IsNew v small 0 (v / 2) (add64 (v / 2) 1) v (omega arith) (omega arith)
            (omega arith) (omega arith),
        tt,
      ),
    ),
  )

  three_parts-in_some : (from to : ℕ) → from < v → to < v → in_some (three_parts v) from to ≡ true
  unfolding three_parts new_node in_this_node
  three_parts-in_some from to h k = ground arith

  -- The leaves of the tree are the root, or its three parts.
  tree_of : Bool → Tree
  tree_of split = node (new_node 0 v 0 v) (if split then fresh (three_parts v) else childless)

  tree_of-IsNew : (split : Bool) → All (IsNew v) (get_leaves_inorder (tree_of split))
  unfolding tree_of get_leaves_inorder three_parts
  tree_of-IsNew true = three_parts-IsNew
  tree_of-IsNew false =
      (new_node-IsNew v small 0 v 0 v (omega arith) (omega arith) (omega arith) (omega arith), tt)

  tree_of-in_some :
      (split : Bool) (from to : ℕ)
      → from < v
      → to < v
      → in_some (get_leaves_inorder (tree_of split)) from to ≡ true
  unfolding tree_of get_leaves_inorder three_parts
  tree_of-in_some true = three_parts-in_some
  tree_of-in_some false = root-in_some v small

  uni_directed_tree-tree_of :
      (config : List ℕ) (t : Tree)
      → uni_directed_tree v config ≡ some t
      → (split : Bool) × (t ≡ tree_of split)
  unfolding uni_directed_tree tree_of
  uni_directed_tree-tree_of config t e =
      let ((ids, split, rest), run, done) = >>=-eq-some (read_first 4 config) _ e in
      (split, sym (some-eq done))

  -- For a graph of `v` vertices, below 2^62, whose columns are vertices, and any configuration that gives
  -- a tree: the tool with three areas returns, and its vectors are those of the leaves in order. The
  -- vector of the row `nd.from_start + r` in a leaf holds, in the order of the input, the edges of that
  -- row that the leaf has and that no leaf before it has.
  pub recursive_tiling_uni_directed-part_of :
      (config : List ℕ) (t : Tree) (m : List (List ℕ)) (before : List Node) (nd : Node)
      (after : List Node) (r : ℕ) (l : List ℕ)
      → uni_directed_tree v config ≡ some t
      → length m ≡ v
      → edges m < 2 ^ 64
      → All (All (λ e. e < v)) m
      → get_leaves_inorder t ≡ before ++ nd ∷ after
      → r < length nd.new_csr
      → get_elem? m (nd.from_start + r) ≡ some l
      → (tiles : List (List ℕ)) × (recursive_tiling_uni_directed v config
            (0 ∷ pointers 0 m)
            (join m)
          ≡ some (0 ∷ sums 0 tiles, entries tiles, 256 ∷ 256 ∷ length tiles ∷ []))
        × (length tiles ≡ length (all_vectors (get_leaves_inorder t)))
        × (get_elem? tiles (offset before + r) ≡ some (part_of before nd (nd.from_start + r) l))
  unfolding recursive_tiling_uni_directed
  recursive_tiling_uni_directed-part_of config t m before nd after r l gen size few all leaves row
        at =
      let (split, e) = uni_directed_tree-tree_of config t gen in
      let (tiles, run, len, here) =
        distribute_graph-part_of v small (get_leaves_inorder t) m before nd after r l
          (subst (λ t. All (IsNew v) (get_leaves_inorder t)) (sym e) (tree_of-IsNew split))
          (λ from to h k.
            subst (λ t. in_some (get_leaves_inorder t) from to ≡ true) (sym e)
              (tree_of-in_some split from to h k))
          size few all leaves row at in
      (tiles, rw (gen, run) refl, len, here)
