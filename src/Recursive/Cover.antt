-- ===== src/Recursive/Cover.antt =====
-- CSR_converter/recursive_tiling_maker.cpp: the areas of the tree's nodes.
use mathlib.Core.Path.{subst}
use gcnsim_awb.Prelude.{
  ℕ, zero, suc, ◌+◌, ◌/◌, ◌^◌, ◌≤◌, ◌<◌, ◌≡◌, refl, Bool, true, false, ◌||◌, ◌==◌, if◌then◌else◌,
  List, [], ◌∷◌, some, >>=-eq-some, some-eq, pop_front, get_elem?, length, length-replicate,
  replicate, All, inl, inr, Bool-cases, arith, sym, ◌∙◌, ap,
}
use gcnsim_awb.Prelude.Words.{add64, sub64}
use gcnsim_awb.Recursive.{
  Node, Tree, node, Trees, childless, child, new_node, in_this_node, push_children, fresh,
  four_parts, parts_of, split_at, read_second, split_first, split_depths, read_first, generate_tree,
}

abbrev pub InArea : Node → ℕ → ℕ → Type 0
InArea nd from to =
    (nd.from_start ≤ from) × (from ≤ nd.from_end) × (nd.to_start ≤ to) × (to ≤ nd.to_end)

pub in_this_node-true :
    (nd : Node) (from to : ℕ) → InArea nd from to → in_this_node nd from to ≡ true
unfolding in_this_node
in_this_node-true nd from to (a, b, c, d) = ground arith

pub in_this_node-InArea :
    (nd : Node) (from to : ℕ) → in_this_node nd from to ≡ true → InArea nd from to
unfolding in_this_node
in_this_node-InArea nd from to e = ground arith

-- An area within the first `v + 1` indices, which may be empty, and a vector for each of its rows.
unfoldable pub IsSound : ℕ → Node → Type 0
IsSound v nd =
    (nd.from_start ≤ nd.from_end + 1)
    × (nd.from_end ≤ v)
    × (nd.to_start ≤ nd.to_end + 1)
    × (nd.to_end ≤ v)
    × (nd.from_start + length nd.new_csr ≡ nd.from_end + 1)

-- A node to which no edge went yet.
unfoldable pub IsNew : ℕ → Node → Type 0
IsNew v nd = IsSound v nd × (nd.new_csr ≡ replicate (length nd.new_csr) [])

-- One of the nodes has the edge.
abbrev pub in_some : List Node → ℕ → ℕ → Bool
in_some [] from to = false
in_some (nd ∷ nds) from to = in_this_node nd from to || in_some nds from to

abbrev pub roots : Trees → List Node
roots childless = []
roots (child (node nd cs) ts) = nd ∷ roots ts

-- Wherever the one list has an edge, so has the other.
abbrev pub IsCovered : List Node → List Node → Type 0
IsCovered a b = (from to : ℕ) → in_some a from to ≡ true → in_some b from to ≡ true

abbrev has_children : Trees → Bool
has_children childless = false
has_children (child t ts) = true

-- Every node is sound, and a node with children is covered by them.
unfoldable mutual
  pub IsTiled : ℕ → Tree → Type 0
  IsTiled v (node nd cs) =
      IsNew v nd × (has_children cs ≡ true → IsCovered (nd ∷ []) (roots cs)) × AreTiled v cs

  pub AreTiled : ℕ → Trees → Type 0
  AreTiled v childless = Unit
  AreTiled v (child t ts) = IsTiled v t × AreTiled v ts

module _ (v : ℕ) (small : v < 2 ^ 62) where
  pub new_node-IsSound :
      (a b c d : ℕ) → a ≤ b + 1 → b ≤ v → c ≤ d + 1 → d ≤ v → IsSound v (new_node a b c d)
  unfolding IsSound new_node
  new_node-IsSound a b c d h k l m =
      (h, k, l, m, omega (arith, length-replicate {A = List ℕ} (add64 (sub64 b a) 1) []))

  pub new_node-IsNew :
      (a b c d : ℕ) → a ≤ b + 1 → b ≤ v → c ≤ d + 1 → d ≤ v → IsNew v (new_node a b c d)
  unfolding IsNew new_node
  new_node-IsNew a b c d h k l m = (
    new_node-IsSound a b c d h k l m,
    ap (λ n. replicate {A = List ℕ} n [])
        (sym (length-replicate {A = List ℕ} (add64 (sub64 b a) 1) [])),
  )

  four_parts-IsNew :
      (a p b c q d : ℕ)
      → a ≤ p + 1
      → p ≤ b
      → b ≤ v
      → c ≤ q + 1
      → q ≤ d
      → d ≤ v
      → All (IsNew v) (four_parts a p b c q d)
  unfolding four_parts
  four_parts-IsNew a p b c q d h i j k l m = (
    new_node-IsNew a p c q h (omega arith) k (omega arith),
    (
      new_node-IsNew (add64 p 1) b c q (omega arith) j k (omega arith),
      (
        new_node-IsNew a p (add64 q 1) d h (omega arith) (omega arith) m,
        (new_node-IsNew (add64 p 1) b (add64 q 1) d (omega arith) j (omega arith) m, tt),
      ),
    ),
  )

  four_parts-in_some :
      (a p b c q d from to : ℕ)
      → b ≤ v
      → d ≤ v
      → p ≤ b
      → q ≤ d
      → a ≤ from
      → from ≤ b
      → c ≤ to
      → to ≤ d
      → in_some (four_parts a p b c q d) from to ≡ true
  unfolding four_parts new_node in_this_node
  four_parts-in_some a p b c q d from to i j k l m n o r = ground arith

  parts_of-IsNew : (nd : Node) → IsSound v nd → All (IsNew v) (parts_of nd)
  unfolding parts_of IsSound
  parts_of-IsNew nd (a, b, c, d, e) =
      four_parts-IsNew nd.from_start (add64 nd.from_start nd.from_end / 2) nd.from_end nd.to_start
        (add64 nd.to_start nd.to_end / 2) nd.to_end (omega arith) (omega arith) b (omega arith)
        (omega arith) d

  parts_of-IsCovered : (nd : Node) → IsSound v nd → IsCovered (nd ∷ []) (parts_of nd)
  unfolding parts_of IsSound
  parts_of-IsCovered nd (a, b, c, d, e) from to h =
      let (p, q, r, s) = in_this_node-InArea nd from to (ground arith) in
      four_parts-in_some nd.from_start (add64 nd.from_start nd.from_end / 2) nd.from_end nd.to_start
        (add64 nd.to_start nd.to_end / 2) nd.to_end from to b d (omega arith) (omega arith) p q r s

  -- Operations on the vector of children.
  pub roots-fresh : (nds : List Node) → roots (fresh nds) ≡ nds
  roots-fresh [] = refl
  roots-fresh (nd ∷ nds) = ap (◌∷◌ nd) (roots-fresh nds)

  pub fresh-AreTiled : (nds : List Node) → All (IsNew v) nds → AreTiled v (fresh nds)
  unfolding AreTiled IsTiled
  fresh-AreTiled [] all = tt
  fresh-AreTiled (nd ∷ nds) (h, all) = ((h, λ e. cc, tt), fresh-AreTiled nds all)

  push_children-AreTiled :
      (a b : Trees) → AreTiled v a → AreTiled v b → AreTiled v (push_children a b)
  unfolding AreTiled
  push_children-AreTiled childless b ha hb = hb
  push_children-AreTiled (child t ts) b (h, ha) hb = (h, push_children-AreTiled ts b ha hb)

  push_children-covers : (a b : Trees) → IsCovered (roots b) (roots (push_children a b))
  push_children-covers childless b from to h = h
  push_children-covers (child (node nd cs) ts) b from to h =
      ground (arith, push_children-covers ts b from to h)

  -- A node gets more children, which cover it.
  more-IsTiled :
      (nd : Node) (cs more : Trees)
      → IsTiled v (node nd cs)
      → AreTiled v more
      → IsCovered (nd ∷ []) (roots more)
      → IsTiled v (node nd (push_children cs more))
  unfolding IsTiled IsNew
  more-IsTiled nd cs more (h, c, ha) hm cover = (
    h,
    λ e from to q. push_children-covers cs more from to (cover from to q),
    push_children-AreTiled cs more ha hm,
  )

  parts-IsTiled :
      (nd : Node) (cs : Trees)
      → IsTiled v (node nd cs)
      → IsTiled v (node nd (push_children cs (fresh (parts_of nd))))
  unfolding IsTiled IsNew
  parts-IsTiled nd cs (h, c, ha) =
      more-IsTiled nd cs (fresh (parts_of nd)) (h, c, ha)
        (fresh-AreTiled (parts_of nd) (parts_of-IsNew nd (h.0)))
        (subst (λ l. IsCovered (nd ∷ []) l) (sym (roots-fresh (parts_of nd)))
          (parts_of-IsCovered nd (h.0)))

  -- The divisions keep the nodes of their level.
  record Kept (a b : Trees) : Type 0 where
    tiled : AreTiled v b
    same : roots b ≡ roots a

  split_at-Kept : (k : ℕ) (ts ts' : Trees) → AreTiled v ts → split_at k ts ≡ some ts' → Kept ts ts'
  unfolding split_at AreTiled
  split_at-Kept k childless ts' h e = absurd (cc)
  split_at-Kept zero (child (node nd cs) ts) ts' (h, hs) e =
      subst (λ r. Kept (child (node nd cs) ts) r) (some-eq e)
        (record { tiled = (parts-IsTiled nd cs h, hs); same = refl })
  split_at-Kept (suc k) (child (node nd cs) ts) ts' (h, hs) e =
      let (rest, run, done) = >>=-eq-some (split_at k ts) _ e in
      let kept = split_at-Kept k ts rest hs run in
      subst (λ r. Kept (child (node nd cs) ts) r) (some-eq done)
        (record { tiled = (h, kept.tiled); same = ap (◌∷◌ nd) kept.same })

  Kept-trans : {a b c : Trees} → Kept a b → Kept b c → Kept a c
  Kept-trans p q = record { tiled = q.tiled; same = q.same ∙ p.same }

  read_second-Kept :
      (d n : ℕ) (config left : List ℕ) (ts ts' : Trees)
      → AreTiled v ts
      → read_second d n config ts ≡ some (left, ts')
      → Kept ts ts'
  unfolding read_second
  read_second-Kept d zero config left ts ts' h e =
      subst (λ r. Kept ts (r.1)) (some-eq e) (record { tiled = h; same = refl })
  read_second-Kept d (suc n) config left ts ts' h e =
      let ((temp, rest), run, e₁) = >>=-eq-some (pop_front config) _ e in
      let (ts₁, run₁, e₂) = >>=-eq-some (if temp == 1 then split_at d ts else some ts) _ e₁ in
      let kept = maybe_split d temp ts ts₁ h run₁ in
      Kept-trans kept (read_second-Kept d n rest left ts₁ ts' kept.tiled e₂)
    where
      maybe_split :
          (d temp : ℕ) (ts ts₁ : Trees)
          → AreTiled v ts
          → (if temp == 1 then split_at d ts else some ts) ≡ some ts₁
          → Kept ts ts₁
      maybe_split d temp ts ts₁ h e = elim (Bool-cases (temp == 1)) [
        | inl one ↦ split_at-Kept d ts ts₁ h (ground (arith, e, one))
        | inr other ↦
            subst (λ r. Kept ts r) (some-eq (ground (arith, e, other)))
              (record { tiled = h; same = refl })
      ]

  split_first-Kept :
      (d k : ℕ) (config left : List ℕ) (ts ts' : Trees)
      → AreTiled v ts
      → split_first d k config ts ≡ some (left, ts')
      → Kept ts ts'
  unfolding split_first AreTiled IsTiled IsNew
  split_first-Kept d k config left childless ts' h e = absurd (cc)
  split_first-Kept d zero config left (child (node nd cs) ts) ts' ((h, c, hc), hs) e =
      let ((rest, second), run, done) =
        >>=-eq-some (read_second d 4 config (fresh (parts_of nd))) _ e in
      let kept =
        read_second-Kept d 4 config rest (fresh (parts_of nd)) second
          (fresh-AreTiled (parts_of nd) (parts_of-IsNew nd (h.0))) run in
      let cover =
        subst (λ l. IsCovered (nd ∷ []) l) (sym (kept.same ∙ roots-fresh (parts_of nd)))
          (parts_of-IsCovered nd (h.0)) in
      subst (λ r. Kept (child (node nd cs) ts) (r.1)) (some-eq done)
        (record {
          tiled = (more-IsTiled nd cs second (h, c, hc) kept.tiled cover, hs);
          same = refl;
        })
  split_first-Kept d (suc k) config left (child (node nd cs) ts) ts' (h, hs) e =
      let ((rest, more), run, done) = >>=-eq-some (split_first d k config ts) _ e in
      let kept = split_first-Kept d k config rest ts more hs run in
      subst (λ r. Kept (child (node nd cs) ts) (r.1)) (some-eq done)
        (record { tiled = (h, kept.tiled); same = ap (◌∷◌ nd) kept.same })

  split_depths-Kept :
      (ids : List ℕ) (d n : ℕ) (config left : List ℕ) (ts ts' : Trees)
      → AreTiled v ts
      → split_depths ids d n config ts ≡ some (left, ts')
      → Kept ts ts'
  unfolding split_depths
  split_depths-Kept ids d zero config left ts ts' h e =
      subst (λ r. Kept ts (r.1)) (some-eq e) (record { tiled = h; same = refl })
  split_depths-Kept ids d (suc n) config left ts ts' h e =
      let (flag, run, e₁) = >>=-eq-some (get_elem? ids d) _ e in
      let ((rest, ts₁), run₁, e₂) =
        >>=-eq-some (if flag == 1 then split_first d d config ts else some (config, ts)) _ e₁ in
      let kept = maybe_split flag rest ts₁ run₁ in
      Kept-trans kept (split_depths-Kept ids (d + 1) n rest left ts₁ ts' kept.tiled e₂)
    where
      maybe_split :
          (flag : ℕ) (rest : List ℕ) (ts₁ : Trees)
          → (if flag == 1 then split_first d d config ts else some (config, ts)) ≡ some (rest, ts₁)
          → Kept ts ts₁
      maybe_split flag rest ts₁ e = elim (Bool-cases (flag == 1)) [
        | inl one ↦ split_first-Kept d d config rest ts ts₁ h (ground (arith, e, one))
        | inr other ↦
            subst {A = List ℕ × Trees} (λ r. Kept ts (r.1)) {x = (config, ts)} {y = (rest, ts₁)}
              (some-eq (ground (arith, e, other))) (record { tiled = h; same = refl })
      ]

  whole-IsNew : All (IsNew v) (four_parts 0 (v / 2) v 0 (v / 2) v)
  whole-IsNew =
      four_parts-IsNew 0 (v / 2) v 0 (v / 2) v (omega arith) (omega arith) (omega arith)
        (omega arith) (omega arith) (omega arith)

  first-AreTiled :
      (split : Bool)
      → AreTiled v (if split then fresh (four_parts 0 (v / 2) v 0 (v / 2) v) else childless)
  unfolding AreTiled
  first-AreTiled true = fresh-AreTiled (four_parts 0 (v / 2) v 0 (v / 2) v) whole-IsNew
  first-AreTiled false = tt

  first-covers :
      (split : Bool) (cs : Trees)
      → roots cs ≡ roots (if split then fresh (four_parts 0 (v / 2) v 0 (v / 2) v) else childless)
      → has_children cs ≡ true
      → IsCovered (new_node 0 v 0 v ∷ []) (roots cs)
  unfolding new_node
  first-covers false (child (node nd ts) more) same h from to q = absurd (cc)
  first-covers false childless same h from to q = absurd (cc)
  first-covers true cs same h from to q =
      let (a, b, c, d) = in_this_node-InArea (new_node 0 v 0 v) from to (ground arith) in
      rw (same ∙ roots-fresh (four_parts 0 (v / 2) v 0 (v / 2) v)) (
        four_parts-in_some 0 (v / 2) v 0 (v / 2) v from to (omega arith) (omega arith) (omega arith)
          (omega arith) a b c d)

  -- The tree of any configuration: its root is the whole matrix, and every inner node is covered.
  pub generate_tree-IsTiled :
      (config : List ℕ) (t : Tree)
      → generate_tree v config ≡ some t
      → IsTiled v t × (roots (child t childless) ≡ new_node 0 v 0 v ∷ [])
  unfolding generate_tree IsTiled
  generate_tree-IsTiled config t e =
      let ((ids, split, rest), run, e₁) = >>=-eq-some (read_first 4 config) _ e in
      let parts = four_parts 0 (v / 2) v 0 (v / 2) v in
      let first = if split then fresh parts else childless in
      let ((left, cs), run₁, done) = >>=-eq-some (split_depths ids 0 4 rest first) _ e₁ in
      let kept = split_depths-Kept ids 0 4 rest left first cs (first-AreTiled split) run₁ in
      subst (λ t. IsTiled v t × (roots (child t childless) ≡ new_node 0 v 0 v ∷ [])) (some-eq done)
        (
          (
            new_node-IsNew 0 v 0 v (omega arith) (omega arith) (omega arith) (omega arith),
            first-covers split cs kept.same,
            kept.tiled,
          ),
          refl,
        )
