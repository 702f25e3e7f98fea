-- ===== src/Recursive/UniDirected.antt =====
-- CSR_converter/recursive_tiling_maker_uni_directed.cpp: a single division into three areas.
pub mod Cover
use gcnsim_awb.Prelude.{
  ℕ, zero, suc, ◌+◌, ◌/◌, ◌^◌, ◌≤◌, ◌<◌, ◌≡◌, refl, Bool, true, false, if◌then◌else◌, List, [], ◌∷◌,
  ◌++◌, Option, none, some, ◌>>=◌, All, length, get_elem?, arith, sym, ◌∙◌, ap, ap₂,
}
use gcnsim_awb.Prelude.Words.{add64}
use gcnsim_awb.Distributer.Rejoin.{join, edges, pointers}
use gcnsim_awb.Vtmake.{sums, entries}
use gcnsim_awb.Recursive.{
  Node, Tree, node, childless, new_node, fresh, read_first, in_this_node, all_vectors,
  get_leaves_inorder, distribute_graph,
}

-- `firstIdentifier` and `splitFirstDepth` are read as in the other tools.
unfoldable pub three_parts : ℕ → List Node
unfolding new_node
three_parts vertex_num =
    let q2 = vertex_num / 2 in
    new_node 0 q2 0 q2
    ∷ new_node (add64 q2 1) vertex_num 0 vertex_num
    ∷ new_node 0 q2 (add64 q2 1) vertex_num
    ∷ []

unfoldable pub uni_directed_tree : ℕ → List ℕ → Option Tree
unfolding new_node read_first three_parts
uni_directed_tree vertex_num config = do
  (identifier, split, rest) ← read_first 4 config
  some (
      node (new_node 0 vertex_num 0 vertex_num)
        (if split then fresh (three_parts vertex_num) else childless))

unfoldable pub recursive_tiling_uni_directed :
    ℕ → List ℕ → List ℕ → List ℕ → Option (List ℕ × List ℕ × List ℕ)
unfolding uni_directed_tree get_leaves_inorder distribute_graph sums entries
recursive_tiling_uni_directed vertex_num config row tokens = do
  root ← uni_directed_tree vertex_num config
  new_csr ← distribute_graph vertex_num row tokens (get_leaves_inorder root)
  some (0 ∷ sums 0 new_csr, entries new_csr, 256 ∷ 256 ∷ length new_csr ∷ [])
