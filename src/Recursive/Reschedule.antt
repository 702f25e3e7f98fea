-- ===== src/Recursive/Reschedule.antt =====
-- CSR_converter/recursive_tiling_maker_reschedule.cpp: the leaves in the order of their columns.
pub mod Order
use mathlib.Core.Path.{subst}
use mathlib.Core.List.Permᴰ
use mathlib.Core.List.{Permᴰ}
use gcnsim_awb.Prelude.{
  ℕ, zero, suc, ◌+◌, ◌^◌, ◌≤◌, ◌<◌, ◌≡◌, refl, Bool, true, false, ◌||◌, ◌==◌, ltb, if◌then◌else◌,
  List, [], ◌∷◌, ◌++◌, Option, none, some, ◌>>=◌, All, inl, inr, ◌⊎◌, Bool-cases, ==_refl, length,
  get_elem?, arith, sym, ◌∙◌, ap, ap₂,
}
use gcnsim_awb.Distributer.Rejoin.{join, edges, pointers}
use gcnsim_awb.Vtmake.{sums, entries}
use gcnsim_awb.Recursive.{
  Node, Tree, in_this_node, all_vectors, get_leaves_inorder, generate_tree, distribute_graph,
}
use gcnsim_awb.Recursive.Cover.{IsNew, in_some}
use gcnsim_awb.Recursive.Parts.{part_of, offset}
use gcnsim_awb.Recursive.Tiling.{leaves-in_some, leaves-IsNew, distribute_graph-part_of}

-- `std::set::insert` on the elements in order.
unfoldable pub set_insert : ℕ → List ℕ → List ℕ
set_insert x [] = x ∷ []
set_insert x (y ∷ ys) =
    let rest = set_insert x ys in
    if ltb x y then x ∷ y ∷ ys else if x == y then y ∷ ys else y ∷ rest

-- `idxSet`, with the insertions of these leaves.
unfoldable pub index_set : List ℕ → List Node → List ℕ
unfolding set_insert
index_set idx_set [] = idx_set
index_set idx_set (p ∷ leaves) = index_set (set_insert p.to_start idx_set) leaves

unfoldable pub with_start : ℕ → List Node → List Node
with_start idx [] = []
with_start idx (p ∷ leaves) =
    let rest = with_start idx leaves in if p.to_start == idx then p ∷ rest else rest

-- `schedLeaves`, for the rest of the set.
unfoldable pub schedule : List ℕ → List Node → List Node
unfolding with_start
schedule [] leaves = []
schedule (idx ∷ idx_set) leaves = with_start idx leaves ++ schedule idx_set leaves

unfoldable pub sched_leaves : List Node → List Node
unfolding index_set schedule
sched_leaves leaves = schedule (index_set [] leaves) leaves

unfoldable pub recursive_tiling_resched :
    ℕ → List ℕ → List ℕ → List ℕ → Option (List ℕ × List ℕ × List ℕ)
unfolding generate_tree get_leaves_inorder sched_leaves distribute_graph sums entries
recursive_tiling_resched vertex_num config row tokens = do
  root ← generate_tree vertex_num config
  new_csr ← distribute_graph vertex_num row tokens (sched_leaves (get_leaves_inorder root))
  some (0 ∷ sums 0 new_csr, entries new_csr, 256 ∷ 256 ∷ length new_csr ∷ [])
