-- ===== src/Recursive.antt =====
-- CSR_converter/recursive_tiling_maker.cpp: the division of a graph's matrix by a tree of areas, and its
-- variants recursive_tiling_maker_reschedule.cpp and recursive_tiling_maker_uni_directed.cpp. The
-- numbers of at_setting.config are a list, in which `-1` reads as 2^64 - 1. A read past its end leaves
-- `temp` without a value.
pub mod Cover
pub mod Leaves
pub mod Distribute
pub mod Parts
pub mod Tiling
pub mod Total
pub mod Reschedule
pub mod UniDirected
use gcnsim_awb.Prelude.{
  ℕ, zero, suc, ◌+◌, ◌-◌, ◌/◌, ◌^◌, Bool, true, false, ◌||◌, ◌==◌, leb, if◌then◌else◌, List, [],
  ◌∷◌, ◌++◌, Option, none, some, ◌>>=◌, pop_front, get_elem?, length, replicate,
}
use gcnsim_awb.Prelude.Words.{add64, sub64}
use gcnsim_awb.Vtmake.{push_at, sums, entries}
use gcnsim_awb.RowLoop.{loop_rows}

-- A node without its children. All bounds belong to the area.
pub record Node : Type 0 where
  pub from_start : ℕ
  pub from_end : ℕ
  pub to_start : ℕ
  pub to_end : ℕ
  pub new_csr : List (List ℕ)

-- A node with its children, the vector of which is the second type.
mutual
  pub data Tree : Type 0 where
    node : Node → Trees → Tree

  pub data Trees : Type 0 where
    childless : Trees
    child : Tree → Trees → Trees

unfoldable pub new_node : ℕ → ℕ → ℕ → ℕ → Node
new_node from_start from_end to_start to_end = record {
  from_start = from_start;
  from_end = from_end;
  to_start = to_start;
  to_end = to_end;
  new_csr = replicate (add64 (sub64 from_end from_start) 1) [];
}

unfoldable pub in_this_node : Node → ℕ → ℕ → Bool
in_this_node nd from to =
    if leb nd.from_start from
    then (if leb from nd.from_end
        then (if leb nd.to_start to then (if leb to nd.to_end then true else false) else false)
        else false)
    else false

-- `getLeavesInorder`, with what it appends.
unfoldable mutual
  pub get_leaves_inorder : Tree → List Node
  get_leaves_inorder (node nd childless) = nd ∷ []
  get_leaves_inorder (node nd (child t ts)) = get_leaves_inorder t ++ leaves_of_children ts

  pub leaves_of_children : Trees → List Node
  leaves_of_children childless = []
  leaves_of_children (child t ts) = get_leaves_inorder t ++ leaves_of_children ts

-- `push_back` of some children.
abbrev pub push_children : Trees → Trees → Trees
push_children childless more = more
push_children (child t ts) more = child t (push_children ts more)

-- One level of `getLeaves`: its leaves, and the queue of the next level.
unfoldable pub take_level : Trees → List Node × Trees
take_level childless = ([], childless)
take_level (child (node nd childless) q) = let (leaves, next) = take_level q in (nd ∷ leaves, next)
take_level (child (node nd (child t ts)) q) =
    let (leaves, next) = take_level q in (leaves, push_children (child t ts) next)

-- The loop of `getLeaves`, for `fuel` levels at most: each level's leaves come in front.
unfoldable pub level_order : ℕ → Trees → List Node → Option (List Node)
unfolding take_level
level_order fuel childless leaves = some leaves
level_order zero (child t q) leaves = none
level_order (suc fuel) (child t q) leaves =
    let (level, next) = take_level (child t q) in level_order fuel next (level ++ leaves)

unfoldable pub get_leaves : ℕ → Tree → Option (List Node)
unfolding level_order
get_leaves fuel root = level_order fuel (child root childless) []

-- New nodes without children.
abbrev pub fresh : List Node → Trees
fresh [] = childless
fresh (nd ∷ nds) = child (node nd childless) (fresh nds)

-- The four parts of an area, in the order of their creation. `q2` is the last index of the first half.
unfoldable pub four_parts : ℕ → ℕ → ℕ → ℕ → ℕ → ℕ → List Node
unfolding new_node
four_parts from_start from_q2 from_end to_start to_q2 to_end =
    new_node from_start from_q2 to_start to_q2
    ∷ new_node (add64 from_q2 1) from_end to_start to_q2
    ∷ new_node from_start from_q2 (add64 to_q2 1) to_end
    ∷ new_node (add64 from_q2 1) from_end (add64 to_q2 1) to_end
    ∷ []

-- The parts of a node, which is halved after the rounding down of an integer division.
unfoldable pub parts_of : Node → List Node
unfolding four_parts
parts_of nd =
    four_parts nd.from_start (add64 nd.from_start nd.from_end / 2) nd.from_end nd.to_start
      (add64 nd.to_start nd.to_end / 2) nd.to_end

-- The division of `secondDepthNds.at(k)`.
unfoldable pub split_at : ℕ → Trees → Option Trees
unfolding parts_of
split_at k childless = none
split_at zero (child (node nd cs) ts) =
    some (child (node nd (push_children cs (fresh (parts_of nd)))) ts)
split_at (suc k) (child t ts) = do ts' ← split_at k ts; some (child t ts')

-- The loop `read` of the second depth, for `n` more reads, with the numbers that are left.
unfoldable pub read_second : ℕ → ℕ → List ℕ → Trees → Option (List ℕ × Trees)
unfolding split_at
read_second first_depth zero config second = some (config, second)
read_second first_depth (suc n) config second = do
  (temp, rest) ← pop_front config
  second' ← if temp == 1 then split_at first_depth second else some second
  read_second first_depth n rest second'

-- The division of `firstDepthNds.at(k)`, and the loop behind it.
unfoldable pub split_first : ℕ → ℕ → List ℕ → Trees → Option (List ℕ × Trees)
unfolding parts_of read_second
split_first first_depth k config childless = none
split_first first_depth zero config (child (node nd cs) ts) = do
  (rest, second) ← read_second first_depth 4 config (fresh (parts_of nd))
  some (rest, child (node nd (push_children cs second)) ts)
split_first first_depth (suc k) config (child t ts) = do
  (rest, ts') ← split_first first_depth k config ts
  some (rest, child t ts')

-- The loop `firstDepth`, for `n` more turns. The children of the root are `firstDepthNds`.
unfoldable pub split_depths : List ℕ → ℕ → ℕ → List ℕ → Trees → Option (List ℕ × Trees)
unfolding split_first
split_depths identifier first_depth zero config first = some (config, first)
split_depths identifier first_depth (suc n) config first = do
  flag ← get_elem? identifier first_depth
  (rest, first') ←
      if flag == 1 then split_first first_depth first_depth config first else some (config, first)
  split_depths identifier (first_depth + 1) n rest first'

-- The first four reads, with `splitFirstDepth`.
unfoldable pub read_first : ℕ → List ℕ → Option (List ℕ × Bool × List ℕ)
read_first zero config = some ([], false, config)
read_first (suc n) config = do
  (temp, rest) ← pop_front config
  (identifier, split, left) ← read_first n rest
  some (temp ∷ identifier, (temp == 1) || split, left)

unfoldable pub generate_tree : ℕ → List ℕ → Option Tree
unfolding new_node four_parts read_first split_depths
generate_tree vertex_num config = do
  (identifier, split, rest) ← read_first 4 config
  let q2 = vertex_num / 2
  let first = if split then fresh (four_parts 0 q2 vertex_num 0 q2 vertex_num) else childless
  (left, children) ← split_depths identifier 0 4 rest first
  some (node (new_node 0 vertex_num 0 vertex_num) children)

-- `targetNd->new_csr[newIdx].push_back(to)`.
unfoldable pub push_into : Node → ℕ → ℕ → Option Node
unfolding push_at
push_into nd from to = do
  new_csr ← push_at (sub64 from nd.from_start) to nd.new_csr
  some (record nd { new_csr = new_csr })

-- One edge: the search stops at the first leaf with it, and otherwise stays at the last one.
unfoldable pub distribute_edge : ℕ → ℕ → List Node → Option (List Node)
unfolding in_this_node push_into
distribute_edge from to [] = none
distribute_edge from to (nd ∷ []) = do nd' ← push_into nd from to; some (nd' ∷ [])
distribute_edge from to (nd ∷ next ∷ leaves) =
    let later = distribute_edge from to (next ∷ leaves) in
    if in_this_node nd from to
    then (push_into nd from to >>= λ nd'. some (nd' ∷ next ∷ leaves))
    else (later >>= λ leaves'. some (nd ∷ leaves'))

unfoldable pub all_vectors : List Node → List (List ℕ)
all_vectors [] = []
all_vectors (nd ∷ leaves) = nd.new_csr ++ all_vectors leaves

-- The edges of the graph go to these leaves, and all their vectors into one.
unfoldable pub distribute_graph : ℕ → List ℕ → List ℕ → List Node → Option (List (List ℕ))
unfolding loop_rows distribute_edge all_vectors
distribute_graph vertex_num row tokens leaves = do
  (last, rest, leaves') ← loop_rows distribute_edge row 0 vertex_num none tokens leaves
  some (all_vectors leaves')

-- To the two lines of the first output and the three numbers of the second. The call of `getLeaves`, of
-- which the result is not used, is left out.
unfoldable pub recursive_tiling : ℕ → List ℕ → List ℕ → List ℕ → Option (List ℕ × List ℕ × List ℕ)
unfolding generate_tree get_leaves_inorder distribute_graph sums entries
recursive_tiling vertex_num config row tokens = do
  root ← generate_tree vertex_num config
  new_csr ← distribute_graph vertex_num row tokens (get_leaves_inorder root)
  some (0 ∷ sums 0 new_csr, entries new_csr, 256 ∷ 256 ∷ length new_csr ∷ [])
