-- ===== src/Recursive/Leaves.antt =====
-- CSR_converter/recursive_tiling_maker.cpp: the leaves of the tree, in the two orders.
use mathlib.Core.Path.{subst}
use mathlib.Core.List.{append-nil, append_assoc, Perm, perm_append_comm}
use mathlib.Core.List.Perm
use gcnsim_awb.Prelude.{
  ℕ, zero, suc, ◌-◌, ◌≤◌, max, ◌≡◌, refl, true, ◌||◌, List, [], ◌∷◌, ◌++◌, some, All, All-append,
  or_true, inl, inr, ◌⊎◌, Bool-cases, arith, sym, ◌∙◌, ap,
}
use gcnsim_awb.Recursive.{
  Node, Tree, node, Trees, childless, child, in_this_node, get_leaves_inorder, leaves_of_children,
  push_children, take_level, level_order, get_leaves,
}
use gcnsim_awb.Recursive.Cover.{IsNew, in_some, roots, IsCovered, IsTiled, AreTiled}

in_some-cons :
    (nd : Node) (b : List Node) (from to : ℕ)
    → in_some (nd ∷ b) from to ≡ true
    → (in_some (nd ∷ []) from to ≡ true) ⊎ (in_some b from to ≡ true)
in_some-cons nd b from to h = elim (Bool-cases (in_this_node nd from to)) [
  | inl here ↦ inl (rw here refl)
  | inr there ↦ inr (subst (λ c. (c || in_some b from to) ≡ true) there h)
]

in_some-right :
    (a b : List Node) (from to : ℕ) → in_some b from to ≡ true → in_some (a ++ b) from to ≡ true
in_some-right [] b from to h = h
in_some-right (nd ∷ a) b from to h =
    rw (in_some-right a b from to h) (or_true (in_this_node nd from to))

in_some-left :
    (a b : List Node) (from to : ℕ) → in_some a from to ≡ true → in_some (a ++ b) from to ≡ true
in_some-left [] b from to h = absurd (cc)
in_some-left (nd ∷ a) b from to h = elim (Bool-cases (in_this_node nd from to)) [
  | inl here ↦ rw here refl
  | inr there ↦
      rw there (in_some-left a b from to (subst (λ c. (c || in_some a from to) ≡ true) there h))
]

module _ (v : ℕ) where
  mutual
    unfolding get_leaves_inorder IsTiled

    pub inorder-IsNew : (t : Tree) → IsTiled v t → All (IsNew v) (get_leaves_inorder t)
    inorder-IsNew (node nd childless) (h, c, hs) = (h, tt)
    inorder-IsNew (node nd (child t ts)) (h, c, hs) = children-IsNew (child t ts) hs

    children-IsNew : (ts : Trees) → AreTiled v ts → All (IsNew v) (leaves_of_children ts)
    children-IsNew childless hs = tt
    children-IsNew (child t ts) (h, hs) =
        All-append (IsNew v) (get_leaves_inorder t) (leaves_of_children ts) (inorder-IsNew t h)
          (children-IsNew ts hs)

  -- The leaves have what the root has.
  mutual
    unfolding get_leaves_inorder IsTiled

    pub inorder-IsCovered :
        (t : Tree) → IsTiled v t → IsCovered (roots (child t childless)) (get_leaves_inorder t)
    inorder-IsCovered (node nd childless) (h, c, hs) from to q = q
    inorder-IsCovered (node nd (child t ts)) (h, c, hs) from to q =
        children-IsCovered (child t ts) hs from to (c refl from to q)

    children-IsCovered : (ts : Trees) → AreTiled v ts → IsCovered (roots ts) (leaves_of_children ts)
    children-IsCovered childless hs from to q = q
    children-IsCovered (child (node nd cs) ts) (h, hs) from to q =
        elim (in_some-cons nd (roots ts) from to q) [
          | inl here ↦
              in_some-left (get_leaves_inorder (node nd cs)) (leaves_of_children ts) from to
                (inorder-IsCovered (node nd cs) h from to here)
          | inr there ↦
              in_some-right (get_leaves_inorder (node nd cs)) (leaves_of_children ts) from to
                (children-IsCovered ts hs from to there)
        ]

-- The level order gives the same leaves.
abbrev mutual
  pub height : Tree → ℕ
  height (node nd cs) = suc (heights cs)

  pub heights : Trees → ℕ
  heights childless = 0
  heights (child t ts) = max (height t) (heights ts)

leaves-push :
    (a b : Trees)
    → leaves_of_children (push_children a b) ≡ leaves_of_children a ++ leaves_of_children b
unfolding leaves_of_children
leaves-push childless b = refl
leaves-push (child t ts) b =
    ap (λ l. get_leaves_inorder t ++ l) (leaves-push ts b)
    ∙ sym (append_assoc (get_leaves_inorder t) (leaves_of_children ts) (leaves_of_children b))

heights-push : (a b : Trees) → heights (push_children a b) ≡ max (heights a) (heights b)
heights-push childless b = omega arith
heights-push (child t ts) b = omega (arith, heights-push ts b)

perm_swap_front : {A : Type 0} (a b c : List A) → Perm (a ++ (b ++ c)) (b ++ (a ++ c))
perm_swap_front a b c =
    subst (λ l. Perm l (b ++ (a ++ c))) (append_assoc a b c)
      (subst (λ l. Perm ((a ++ b) ++ c) l) (append_assoc b a c)
        (Perm.append_right c (perm_append_comm a b)))

take_level-Perm :
    (q : Trees)
    → Perm (leaves_of_children q) ((take_level q).0 ++ leaves_of_children ((take_level q).1))
unfolding leaves_of_children get_leaves_inorder take_level
take_level-Perm childless = Perm.rfl
take_level-Perm (child (node nd childless) q) = Perm.cons nd (take_level-Perm q)
take_level-Perm (child (node nd (child t ts)) q) =
    let more = leaves_of_children (child t ts) in
    let (level, next) = take_level q in
    Perm.trans (Perm.append_left more (take_level-Perm q)) (
      subst (λ l. Perm (more ++ (level ++ leaves_of_children next)) (level ++ l))
        (sym (leaves-push (child t ts) next))
        (perm_swap_front more level (leaves_of_children next)))

take_level-heights : (q : Trees) → heights ((take_level q).1) ≤ heights q - 1
unfolding take_level
take_level-heights childless = omega arith
take_level-heights (child (node nd childless) q) = omega (arith, take_level-heights q)
take_level-heights (child (node nd (child t ts)) q) =
    let (level, next) = take_level q in
    omega (arith, take_level-heights q, heights-push (child t ts) next)

level_order-Perm :
    (fuel : ℕ) (q : Trees) (acc : List Node)
    → heights q ≤ fuel
    → (leaves : List Node) × (level_order fuel q acc ≡ some leaves)
      × Perm leaves (leaves_of_children q ++ acc)
unfolding level_order leaves_of_children
level_order-Perm fuel childless acc h = (acc, refl, Perm.rfl)
level_order-Perm zero (child (node nd cs) q) acc h = absurd (omega arith)
level_order-Perm (suc fuel) (child t q) acc h =
    let (level, next) = take_level (child t q) in
    let (leaves, run, perm) =
      level_order-Perm fuel next (level ++ acc) (omega (arith, take_level-heights (child t q))) in
    (
      leaves,
      run,
      Perm.trans perm (
          Perm.trans (perm_swap_front (leaves_of_children next) level acc) (
            subst (λ l. Perm l (leaves_of_children (child t q) ++ acc))
              (append_assoc level (leaves_of_children next) acc)
              (Perm.append_right acc (Perm.symm (take_level-Perm (child t q)))))),
    )

-- `getLeaves` ends, after as many levels as the tree is high, and its list has exactly the leaves that
-- the inorder traversal visits, in some order.
pub get_leaves-inorder :
    (t : Tree)
    → (leaves : List Node) × (get_leaves (height t) t ≡ some leaves)
      × Perm leaves (get_leaves_inorder t)
unfolding get_leaves leaves_of_children
get_leaves-inorder t =
    let (leaves, run, perm) = level_order-Perm (height t) (child t childless) [] (omega arith) in
    (
      leaves,
      run,
      subst (λ l. Perm leaves l)
          (append-nil (get_leaves_inorder t ++ []) ∙ append-nil (get_leaves_inorder t)) perm,
    )
