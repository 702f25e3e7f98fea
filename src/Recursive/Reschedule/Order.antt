-- ===== src/Recursive/Reschedule/Order.antt =====
-- CSR_converter/recursive_tiling_maker_reschedule.cpp: the order of the leaves, and the whole tool.
use mathlib.Core.Path.{subst}
use mathlib.Core.List.Permᴰ
use mathlib.Core.List.{Permᴰ}
use gcnsim_awb.Prelude.{
  ℕ, ◌+◌, ◌^◌, ◌≤◌, ◌<◌, ◌≡◌, refl, Bool, true, false, ◌||◌, ◌==◌, ltb, List, [], ◌∷◌, ◌++◌, some,
  All, All-append, or_true, or_swap, inl, inr, Bool-cases, ==_refl, ==_iff, length, get_elem?,
  arith, sym, ◌∙◌, ap, ap₂,
}
use gcnsim_awb.Distributer.Rejoin.{join, edges, pointers}
use gcnsim_awb.Vtmake.{sums, entries}
use gcnsim_awb.Recursive.{Node, Tree, in_this_node, all_vectors, get_leaves_inorder, generate_tree}
use gcnsim_awb.Recursive.Cover.{IsNew, in_some}
use gcnsim_awb.Recursive.Parts.{part_of, offset}
use gcnsim_awb.Recursive.Tiling.{leaves-in_some, leaves-IsNew, distribute_graph-part_of}
use gcnsim_awb.Recursive.Reschedule.{
  set_insert, index_set, with_start, schedule, sched_leaves, recursive_tiling_resched,
}

abbrev has : ℕ → List ℕ → Bool
has x [] = false
has x (y ∷ ys) = x == y || has x ys

abbrev pub IsAscending : List ℕ → Type 0
IsAscending [] = Unit
IsAscending (x ∷ xs) = All (λ y. x < y) xs × IsAscending xs

All-later : (a b : ℕ) (xs : List ℕ) → a < b → All (λ y. b < y) xs → All (λ y. a < y) xs
All-later a b [] h all = tt
All-later a b (x ∷ xs) h (k, all) = (omega arith, All-later a b xs h all)

All-set_insert :
    (a x : ℕ) (xs : List ℕ) → a < x → All (λ y. a < y) xs → All (λ y. a < y) (set_insert x xs)
unfolding set_insert
All-set_insert a x [] h all = (h, tt)
All-set_insert a x (y ∷ ys) h (k, all) = elim (Bool-cases (ltb x y)) [
  | inl less ↦ rw less (h, (k, all))
  | inr rest ↦ elim (Bool-cases (x == y)) [
    | inl same ↦ rw (rest, same) (k, all)
    | inr more ↦ rw (rest, more) (k, All-set_insert a x ys h all)
  ]
]

set_insert-IsAscending : (x : ℕ) (xs : List ℕ) → IsAscending xs → IsAscending (set_insert x xs)
unfolding set_insert
set_insert-IsAscending x [] h = (tt, tt)
set_insert-IsAscending x (y ∷ ys) (all, h) = elim (Bool-cases (ltb x y)) [
  | inl less ↦
      let below : x < y = ground arith in rw less ((below, All-later x y ys below all), (all, h))
  | inr rest ↦ elim (Bool-cases (x == y)) [
    | inl same ↦ rw (rest, same) (all, h)
    | inr more ↦
        rw (rest, more) (All-set_insert y x ys (ground arith) all, set_insert-IsAscending x ys h)
  ]
]

set_insert-has : (x z : ℕ) (xs : List ℕ) → has z (set_insert x xs) ≡ (z == x || has z xs)
unfolding set_insert
set_insert-has x z [] = refl
set_insert-has x z (y ∷ ys) = elim (Bool-cases (ltb x y)) [
  | inl less ↦ rw less refl
  | inr rest ↦ elim (Bool-cases (x == y)) [
    | inl same ↦ let e : x ≡ y = ground arith in rw (rest, same, e) (again (z == y) (has z ys))
    | inr more ↦ rw (rest, more, set_insert-has x z ys) (or_swap (z == y) (z == x) (has z ys))
  ]
]
  where
    again : (a b : Bool) → (a || b) ≡ (a || (a || b))
    again true b = refl
    again false b = refl

index_set-IsAscending :
    (s : List ℕ) (leaves : List Node) → IsAscending s → IsAscending (index_set s leaves)
unfolding index_set
index_set-IsAscending s [] h = h
index_set-IsAscending s (p ∷ leaves) h =
    index_set-IsAscending (set_insert p.to_start s) leaves (set_insert-IsAscending p.to_start s h)

index_set-keeps :
    (z : ℕ) (s : List ℕ) (leaves : List Node) → has z s ≡ true → has z (index_set s leaves) ≡ true
unfolding index_set
index_set-keeps z s [] h = h
index_set-keeps z s (p ∷ leaves) h =
    index_set-keeps z (set_insert p.to_start s) leaves
      (set_insert-has p.to_start z s ∙ rw h (or_true (z == p.to_start)))

index_set-has :
    (s : List ℕ) (leaves : List Node) → All (λ p. has p.to_start (index_set s leaves) ≡ true) leaves
unfolding index_set
index_set-has s [] = tt
index_set-has s (p ∷ leaves) = (
  index_set-keeps p.to_start (set_insert p.to_start s) leaves
      (set_insert-has p.to_start p.to_start s ∙ rw (==_refl p.to_start) refl),
  index_set-has (set_insert p.to_start s) leaves,
)

schedule-nil : (s : List ℕ) → schedule s [] ≡ []
unfolding schedule with_start
schedule-nil [] = refl
schedule-nil (x ∷ s) = schedule-nil s

-- A leaf that starts before all of the set.
schedule-early :
    (p : Node) (leaves : List Node) (s : List ℕ)
    → All (λ y. p.to_start < y) s
    → schedule s (p ∷ leaves) ≡ schedule s leaves
unfolding schedule with_start
schedule-early p leaves [] all = refl
schedule-early p leaves (x ∷ s) (h, all) =
    let different : (p.to_start == x) ≡ false = ground arith in
    rw different (ap (λ l. with_start x leaves ++ l) (schedule-early p leaves s all))

schedule-cons :
    (p : Node) (leaves : List Node) (s : List ℕ)
    → IsAscending s
    → has p.to_start s ≡ true
    → Permᴰ (p ∷ schedule s leaves) (schedule s (p ∷ leaves))
unfolding schedule with_start
schedule-cons p leaves [] asc h = absurd (cc)
schedule-cons p leaves (x ∷ s) (all, asc) h = elim (Bool-cases (p.to_start == x)) [
  | inl here ↦
      let e : p.to_start ≡ x = ground arith in
      rw (here, schedule-early p leaves s (subst (λ n. All (λ y. n < y) s) (sym e) all))
        (Permᴰ.refl (p ∷ (with_start x leaves ++ schedule s leaves)))
  | inr there ↦
      let in_rest : has p.to_start s ≡ true = subst (λ c. (c || has p.to_start s) ≡ true) there h in
      rw there (
        Permᴰ.trans (Permᴰ.symm (Permᴰ.middle p (with_start x leaves) (schedule s leaves)))
          (Permᴰ.append_left (with_start x leaves) (schedule-cons p leaves s asc in_rest)))
]

schedule-Permᴰ :
    (s : List ℕ) (leaves : List Node)
    → IsAscending s
    → All (λ p. has p.to_start s ≡ true) leaves
    → Permᴰ leaves (schedule s leaves)
schedule-Permᴰ s [] asc h = subst (λ l. Permᴰ [] l) (sym (schedule-nil s)) Permᴰ.nil
schedule-Permᴰ s (p ∷ leaves) asc (h, hs) =
    Permᴰ.trans (Permᴰ.cons refl (schedule-Permᴰ s leaves asc hs)) (schedule-cons p leaves s asc h)

All-Permᴰ : (P : Node → Type 0) {a b : List Node} → Permᴰ a b → All P a → All P b
All-Permᴰ P Permᴰ.nil h = tt
All-Permᴰ P (Permᴰ.cons e d) (h, hs) = (subst P e h, All-Permᴰ P d hs)
All-Permᴰ P (Permᴰ.swap e e') (h, (k, hs)) = (subst P e' k, (subst P e h, hs))
All-Permᴰ P (Permᴰ.trans d d') h = All-Permᴰ P d' (All-Permᴰ P d h)

in_some-Permᴰ : (from to : ℕ) {a b : List Node} → Permᴰ a b → in_some b from to ≡ in_some a from to
in_some-Permᴰ from to Permᴰ.nil = refl
in_some-Permᴰ from to (Permᴰ.cons {a = p} {b = q} e d) =
    ap₂ (λ n c. in_this_node n from to || c) (sym e) (in_some-Permᴰ from to d)
in_some-Permᴰ from to (Permᴰ.swap {a = p} {b = q} {l = l} e e') =
    ap₂ (λ m n. in_this_node m from to || (in_this_node n from to || in_some l from to)) (sym e')
      (sym e)
    ∙ or_swap (in_this_node q from to) (in_this_node p from to) (in_some l from to)
in_some-Permᴰ from to (Permᴰ.trans d d') = in_some-Permᴰ from to d' ∙ in_some-Permᴰ from to d

sched_leaves-Permᴰ : (leaves : List Node) → Permᴰ leaves (sched_leaves leaves)
unfolding sched_leaves
sched_leaves-Permᴰ leaves =
    schedule-Permᴰ (index_set [] leaves) leaves (index_set-IsAscending [] leaves tt)
      (index_set-has [] leaves)

-- The leaves stand by their first columns.
abbrev pub IsScheduled : List Node → Type 0
IsScheduled [] = Unit
IsScheduled (p ∷ leaves) = All (λ q. p.to_start ≤ q.to_start) leaves × IsScheduled leaves

abbrev StartsAt : ℕ → Node → Type 0
StartsAt x p = p.to_start ≡ x

with_start-StartsAt : (x : ℕ) (leaves : List Node) → All (StartsAt x) (with_start x leaves)
unfolding with_start
with_start-StartsAt x [] = tt
with_start-StartsAt x (p ∷ leaves) = elim (Bool-cases (p.to_start == x)) [
  | inl here ↦ rw here ((==_iff p.to_start x).0 here, with_start-StartsAt x leaves)
  | inr there ↦ rw there (with_start-StartsAt x leaves)
]

All-StartsAt :
    (n x : ℕ) (leaves : List Node)
    → n ≤ x
    → All (StartsAt x) leaves
    → All (λ q. n ≤ q.to_start) leaves
All-StartsAt n x [] h hs = tt
All-StartsAt n x (q ∷ leaves) h (e, hs) = (omega (arith, e), All-StartsAt n x leaves h hs)

schedule-above :
    (n : ℕ) (s : List ℕ) (leaves : List Node)
    → All (λ y. n < y) s
    → All (λ q. n ≤ q.to_start) (schedule s leaves)
unfolding schedule
schedule-above n [] leaves h = tt
schedule-above n (x ∷ s) leaves (h, hs) =
    All-append (λ q. n ≤ q.to_start) (with_start x leaves) (schedule s leaves)
      (All-StartsAt n x (with_start x leaves) (omega arith) (with_start-StartsAt x leaves))
      (schedule-above n s leaves hs)

group-IsScheduled :
    (x : ℕ) (a b : List Node)
    → All (StartsAt x) a
    → All (λ q. x ≤ q.to_start) b
    → IsScheduled b
    → IsScheduled (a ++ b)
group-IsScheduled x [] b h above k = k
group-IsScheduled x (p ∷ a) b (e, h) above k = (
  All-append (λ q. p.to_start ≤ q.to_start) a b (All-StartsAt p.to_start x a (omega (arith, e)) h)
      (subst (λ n. All (λ q. n ≤ q.to_start) b) (sym e) above),
  group-IsScheduled x a b h above k,
)

schedule-IsScheduled :
    (s : List ℕ) (leaves : List Node) → IsAscending s → IsScheduled (schedule s leaves)
unfolding schedule
schedule-IsScheduled [] leaves asc = tt
schedule-IsScheduled (x ∷ s) leaves (all, asc) =
    group-IsScheduled x (with_start x leaves) (schedule s leaves) (with_start-StartsAt x leaves)
      (schedule-above x s leaves all) (schedule-IsScheduled s leaves asc)

-- The leaves stay, each as often, and stand in the order of their first columns.
sched_leaves-IsScheduled :
    (leaves : List Node) → Permᴰ leaves (sched_leaves leaves) × IsScheduled (sched_leaves leaves)
unfolding sched_leaves
sched_leaves-IsScheduled leaves = (
  sched_leaves-Permᴰ leaves,
  schedule-IsScheduled (index_set [] leaves) leaves (index_set-IsAscending [] leaves tt),
)

module _ (v : ℕ) (small : v < 2 ^ 62) where
  -- For a graph of `v` vertices, below 2^62, whose columns are vertices, and any configuration that gives
  -- a tree: the leaves in their new order are those of the inorder traversal, each as often, and stand by
  -- their first columns; the tool returns, and its vectors are those of the leaves in this order. The
  -- vector of the row `nd.from_start + r` in a leaf holds, in the order of the input, the edges of that
  -- row that the leaf has and that no leaf before it has.
  pub recursive_tiling_resched-part_of :
      (config : List ℕ) (t : Tree) (m : List (List ℕ)) (before : List Node) (nd : Node)
      (after : List Node) (r : ℕ) (l : List ℕ)
      → generate_tree v config ≡ some t
      → length m ≡ v
      → edges m < 2 ^ 64
      → All (All (λ e. e < v)) m
      → sched_leaves (get_leaves_inorder t) ≡ before ++ nd ∷ after
      → r < length nd.new_csr
      → get_elem? m (nd.from_start + r) ≡ some l
      → Permᴰ (get_leaves_inorder t) (sched_leaves (get_leaves_inorder t))
        × IsScheduled (sched_leaves (get_leaves_inorder t))
        × ((tiles : List (List ℕ)) × (recursive_tiling_resched v config (0 ∷ pointers 0 m) (join m)
              ≡ some (0 ∷ sums 0 tiles, entries tiles, 256 ∷ 256 ∷ length tiles ∷ []))
            × (length tiles ≡ length (all_vectors (sched_leaves (get_leaves_inorder t))))
            × (get_elem? tiles (offset before + r)
                ≡ some (part_of before nd (nd.from_start + r) l)))
  unfolding recursive_tiling_resched
  recursive_tiling_resched-part_of config t m before nd after r l gen size few all leaves row at =
      let (moved, ordered) = sched_leaves-IsScheduled (get_leaves_inorder t) in
      let (tiles, run, len, here) =
        distribute_graph-part_of v small (sched_leaves (get_leaves_inorder t)) m before nd after r l
          (All-Permᴰ (IsNew v) moved (leaves-IsNew v small config t gen))
          (λ from to h k.
            in_some-Permᴰ from to moved ∙ leaves-in_some v small config t from to gen h k)
          size few all leaves row at in
      (moved, ordered, (tiles, rw (gen, run) refl, len, here))
