-- ===== src/Tests/Tiling.antt =====
-- CSR_converter: the tilings by a tree and the dynamic ones.
use gcnsim_awb.Prelude.{
  ℕ, ◌+◌, ◌*◌, ◌^◌, ◌-◌, ◌<◌, ◌≡◌, refl, List, [], ◌∷◌, none, some, All, length, get_elem?,
  replicate, ◌==◌, arith,
}
use mathlib.Core.List.{Permᴰ}
use gcnsim_awb.Distributer.Rejoin.{join, pointers}
use gcnsim_awb.Vtmake.{sums, entries}
use gcnsim_awb.RowLoop.Owner.{kept}
use gcnsim_awb.Recursive.{
  Node, Tree, node, childless, child, generate_tree, get_leaves_inorder, all_vectors,
  recursive_tiling,
}
use gcnsim_awb.Recursive.Parts.{part_of, offset}
use gcnsim_awb.Recursive.Tiling.{recursive_tiling-part_of}
use gcnsim_awb.Recursive.Total.{generate_tree-total}
use gcnsim_awb.Recursive.Reschedule.{sched_leaves, recursive_tiling_resched}
use gcnsim_awb.Recursive.Reschedule.Order.{IsScheduled, recursive_tiling_resched-part_of}
use gcnsim_awb.Recursive.UniDirected.{uni_directed_tree, recursive_tiling_uni_directed}
use gcnsim_awb.Recursive.UniDirected.Cover.{recursive_tiling_uni_directed-part_of}
use gcnsim_awb.VtDynamic.{slot_vt_2, slot_vt_0_3, two_and_a_half, three_times, vt_dynamic}
use gcnsim_awb.VtDynamic.Two.{block_of, base_of, vt_dynamic_vt_2-block_of}
use gcnsim_awb.VtDynamic.Out.{vt_dynamic_vt_0_3-fault}
use gcnsim_awb.Tests.Tools.{graph}

abbrev no_split : ℕ
no_split = 2 ^ 64 - 1

-- The first of the four parts is divided again.
abbrev at_setting : List ℕ
at_setting = 1 ∷ no_split ∷ no_split ∷ no_split ∷ no_split ∷ no_split ∷ no_split ∷ no_split ∷ []

abbrev part : ℕ → ℕ → ℕ → ℕ → ℕ → Node
part a b c d rows = record {
  from_start = a;
  from_end = b;
  to_start = c;
  to_end = d;
  new_csr = replicate rows [];
}

abbrev leaf : ℕ → ℕ → ℕ → ℕ → ℕ → Tree
leaf a b c d rows = node (part a b c d rows) childless

abbrev first_parts : Tree
first_parts = node (part 0 2 0 2 3) (
    child (leaf 0 1 0 1 2)
      (child (leaf 2 2 0 1 1) (child (leaf 0 1 2 2 2) (child (leaf 2 2 2 2 1) childless))))

abbrev tree : Tree
tree = node (part 0 4 0 4 5) (
    child first_parts
      (child (leaf 3 4 0 2 2) (child (leaf 0 2 3 4 3) (child (leaf 3 4 3 4 2) childless))))

is_tree : generate_tree 4 at_setting ≡ some tree
unfolding generate_tree
is_tree = refl

below : All (All (λ e. e < 4)) graph
below = (
  (omega arith, (omega arith, tt)),
  (tt, ((omega arith, (omega arith, tt)), ((omega arith, tt), tt))),
)

-- The row of the vertex 2 in the second leaf.
abbrev others : List Node
others = part 0 1 2 2 2 ∷ part 2 2 2 2 1 ∷ part 3 4 0 2 2 ∷ part 0 2 3 4 3 ∷ part 3 4 3 4 2 ∷ []

recursive_tiling-part_of_example :
    (tiles : List (List ℕ)) × (recursive_tiling 4 at_setting (0 ∷ pointers 0 graph) (join graph)
      ≡ some (0 ∷ sums 0 tiles, entries tiles, 256 ∷ 256 ∷ length tiles ∷ []))
    × (length tiles ≡ length (all_vectors (get_leaves_inorder tree)))
    × (get_elem? tiles (offset (part 0 1 0 1 2 ∷ []) + 0)
        ≡ some (part_of (part 0 1 0 1 2 ∷ []) (part 2 2 0 1 1) (2 + 0) (1 ∷ 2 ∷ [])))
unfolding get_leaves_inorder
recursive_tiling-part_of_example =
    recursive_tiling-part_of 4 (omega arith) at_setting tree graph (part 0 1 0 1 2 ∷ [])
      (part 2 2 0 1 1) others 0 (1 ∷ 2 ∷ []) is_tree refl (omega arith) below refl (omega arith)
      refl

-- The row of the vertex 3 in its leaf, which comes third in the new order.
abbrev early : List Node
early = part 0 1 0 1 2 ∷ part 2 2 0 1 1 ∷ []

abbrev late : List Node
late = part 0 1 2 2 2 ∷ part 2 2 2 2 1 ∷ part 0 2 3 4 3 ∷ part 3 4 3 4 2 ∷ []

recursive_tiling_resched-part_of_example :
    Permᴰ (get_leaves_inorder tree) (sched_leaves (get_leaves_inorder tree))
    × IsScheduled (sched_leaves (get_leaves_inorder tree))
    × ((tiles : List (List ℕ)) × (recursive_tiling_resched 4 at_setting
            (0 ∷ pointers 0 graph)
            (join graph)
          ≡ some (0 ∷ sums 0 tiles, entries tiles, 256 ∷ 256 ∷ length tiles ∷ []))
        × (length tiles ≡ length (all_vectors (sched_leaves (get_leaves_inorder tree))))
        × (get_elem? tiles (offset early + 0)
            ≡ some (part_of early (part 3 4 0 2 2) (3 + 0) (0 ∷ []))))
unfolding get_leaves_inorder sched_leaves
recursive_tiling_resched-part_of_example =
    recursive_tiling_resched-part_of 4 (omega arith) at_setting tree graph early (part 3 4 0 2 2)
      late 0 (0 ∷ []) is_tree refl (omega arith) below refl (omega arith) refl

abbrev uni_tree : Tree
uni_tree =
    node (part 0 4 0 4 5)
      (child (leaf 0 2 0 2 3) (child (leaf 3 4 0 4 2) (child (leaf 0 2 3 4 3) childless)))

is_uni_tree : uni_directed_tree 4 at_setting ≡ some uni_tree
unfolding uni_directed_tree
is_uni_tree = refl

recursive_tiling_uni_directed-part_of_example :
    (tiles : List (List ℕ)) × (recursive_tiling_uni_directed 4 at_setting
        (0 ∷ pointers 0 graph)
        (join graph)
      ≡ some (0 ∷ sums 0 tiles, entries tiles, 256 ∷ 256 ∷ length tiles ∷ []))
    × (length tiles ≡ length (all_vectors (get_leaves_inorder uni_tree)))
    × (get_elem? tiles (offset (part 0 2 0 2 3 ∷ part 3 4 0 4 2 ∷ []) + 0)
        ≡ some
            (part_of (part 0 2 0 2 3 ∷ part 3 4 0 4 2 ∷ []) (part 0 2 3 4 3) (0 + 0) (3 ∷ 0 ∷ [])))
unfolding get_leaves_inorder
recursive_tiling_uni_directed-part_of_example =
    recursive_tiling_uni_directed-part_of 4 (omega arith) at_setting uni_tree graph
      (part 0 2 0 2 3 ∷ part 3 4 0 4 2 ∷ []) (part 0 2 3 4 3) [] 0 (3 ∷ 0 ∷ []) is_uni_tree refl
      (omega arith) below refl (omega arith) refl

generate_tree-total_example : (t : Tree) × (generate_tree 5 (replicate 20 1) ≡ some t)
generate_tree-total_example = generate_tree-total 5 (replicate 20 1) (omega arith)

-- The lower row 3 and its first quarter, in a graph of four vertices.
vt_dynamic_vt_2-block_of_example :
    (tiles : List (List ℕ)) × (vt_dynamic
        (slot_vt_2 (4 * 1))
        (two_and_a_half (4 * 1))
        (4 * 1)
        (0 ∷ pointers 0 graph)
        (join graph)
      ≡ some (0 ∷ sums 0 tiles, entries tiles))
    × (length tiles ≡ 10 * 1)
    × (get_elem? tiles (3 + base_of 1 3 0) ≡ some (kept (λ e. block_of 1 3 e == 0) (0 ∷ [])))
vt_dynamic_vt_2-block_of_example =
    vt_dynamic_vt_2-block_of 1 (omega arith) (omega arith) graph 3 0 (0 ∷ []) refl (omega arith)
      below (omega arith) refl

-- A loop at the last of four vertices.
abbrev looped : List (List ℕ)
looped = [] ∷ [] ∷ [] ∷ (0 ∷ 3 ∷ []) ∷ []

vt_dynamic_vt_0_3-fault_example :
    vt_dynamic
      (slot_vt_0_3 (4 * 1))
      (three_times (4 * 1))
      (4 * 1)
      (0 ∷ pointers 0 looped)
      (join looped)
    ≡ none
vt_dynamic_vt_0_3-fault_example =
    vt_dynamic_vt_0_3-fault 1 (omega arith) (omega arith) looped 3 3 (0 ∷ []) [] refl (omega arith)
      refl (omega arith) (omega arith)
