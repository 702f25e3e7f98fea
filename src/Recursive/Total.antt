-- ===== src/Recursive/Total.antt =====
-- CSR_converter/recursive_tiling_maker.cpp: the numbers of at_setting.config that the tool reads.
use gcnsim_awb.Prelude.{
  ℕ, zero, suc, ◌+◌, ◌*◌, ◌/◌, ◌≤◌, ◌<◌, ◌≡◌, refl, Bool, true, false, ◌||◌, ◌==◌, if◌then◌else◌,
  List, [], ◌∷◌, Option, some, inl, inr, Bool-cases, pop_front, length, get_elem?, get_elem?-lt,
  arith, ◌∙◌, ap,
}
use gcnsim_awb.Recursive.{
  Node, Tree, node, Trees, childless, child, new_node, push_children, fresh, four_parts, parts_of,
  split_at, read_second, split_first, split_depths, read_first, generate_tree,
}
use gcnsim_awb.Recursive.Cover.{roots}

abbrev size : Trees → ℕ
size ts = length (roots ts)

size-fresh : (nds : List Node) → size (fresh nds) ≡ length nds
size-fresh [] = refl
size-fresh (nd ∷ nds) = ap suc (size-fresh nds)

-- It returns, having taken `n` numbers, and the level keeps its number of nodes.
abbrev Returns : Option (List ℕ × Trees) → ℕ → List ℕ → Trees → Type 0
Returns result n config ts =
    (left : List ℕ) × (ts' : Trees) × (result ≡ some (left, ts'))
    × (length left + n ≡ length config)
    × (size ts' ≡ size ts)

pop_front-some :
    (config : List ℕ)
    → 0 < length config
    → (temp : ℕ) × (rest : List ℕ) × (pop_front config ≡ some (temp, rest))
      × (length rest + 1 ≡ length config)
pop_front-some [] h = absurd (omega arith)
pop_front-some (x ∷ rest) h = (x, rest, refl, omega arith)

split_at-some :
    (k : ℕ) (ts : Trees)
    → k < size ts
    → (ts' : Trees) × (split_at k ts ≡ some ts') × (size ts' ≡ size ts)
unfolding split_at
split_at-some k childless h = absurd (omega arith)
split_at-some zero (child (node nd cs) ts) h =
    (child (node nd (push_children cs (fresh (parts_of nd)))) ts, refl, refl)
split_at-some (suc k) (child (node nd cs) ts) h =
    let (ts', run, same) = split_at-some k ts (omega arith) in
    (child (node nd cs) ts', rw run refl, ap suc same)

maybe_split :
    (d temp : ℕ) (ts : Trees)
    → d < size ts
    → (ts' : Trees) × ((if temp == 1 then split_at d ts else some ts) ≡ some ts')
      × (size ts' ≡ size ts)
maybe_split d temp ts h = elim (Bool-cases (temp == 1)) [
  | inl one ↦ let (ts', run, same) = split_at-some d ts h in (ts', rw one run, same)
  | inr other ↦ (ts, rw other refl, refl)
]

read_second-Returns :
    (d n : ℕ) (config : List ℕ) (ts : Trees)
    → d < size ts
    → n ≤ length config
    → Returns (read_second d n config ts) n config ts
unfolding read_second
read_second-Returns d zero config ts h k = (config, ts, refl, omega arith, refl)
read_second-Returns d (suc n) config ts h k =
    let (temp, rest, pop, len) = pop_front-some config (omega arith) in
    let (ts₁, run₁, same₁) = maybe_split d temp ts h in
    let (left, ts', run, len', same) =
      read_second-Returns d n rest ts₁ (omega (arith, same₁)) (omega arith) in
    (left, ts', rw (pop, run₁) run, omega arith, same ∙ same₁)

length-parts_of : (nd : Node) → length (parts_of nd) ≡ 4
unfolding parts_of four_parts
length-parts_of nd = refl

split_first-Returns :
    (d k : ℕ) (config : List ℕ) (ts : Trees)
    → d < 4
    → k < size ts
    → 4 ≤ length config
    → Returns (split_first d k config ts) 4 config ts
unfolding split_first
split_first-Returns d k config childless h i j = absurd (omega arith)
split_first-Returns d zero config (child (node nd cs) ts) h i j =
    let (left, second, run, len, same) =
      read_second-Returns d 4 config (fresh (parts_of nd))
        (omega (arith, size-fresh (parts_of nd), length-parts_of nd)) j in
    (left, child (node nd (push_children cs second)) ts, rw run refl, len, refl)
split_first-Returns d (suc k) config (child (node nd cs) ts) h i j =
    let (left, ts', run, len, same) = split_first-Returns d k config ts h (omega arith) j in
    (left, child (node nd cs) ts', rw run refl, len, ap suc same)

-- The flags of a level without nodes are not 1.
abbrev IsFlagged : List ℕ → Trees → Type 0
IsFlagged ids ts = (d flag : ℕ) → get_elem? ids d ≡ some flag → (flag == 1) ≡ true → size ts ≡ 4

maybe_first :
    (d flag : ℕ) (config : List ℕ) (ts : Trees)
    → d < 4
    → 4 ≤ length config
    → ((flag == 1) ≡ true → size ts ≡ 4)
    → (left : List ℕ) × (ts' : Trees) × ((if flag == 1
          then split_first d d config ts
          else some (config, ts))
        ≡ some (left, ts'))
      × (length config ≤ length left + 4)
      × (size ts' ≡ size ts)
maybe_first d flag config ts h k f = elim (Bool-cases (flag == 1)) [
  | inl one ↦
      let (left, ts', run, len, same) =
        split_first-Returns d d config ts h (omega (arith, f one)) k in
      (left, ts', rw one run, omega arith, same)
  | inr other ↦ (config, ts, rw other refl, omega arith, refl)
]

split_depths-some :
    (ids : List ℕ) (d n : ℕ) (config : List ℕ) (ts : Trees)
    → d + n ≡ 4
    → length ids ≡ 4
    → 4 * n ≤ length config
    → IsFlagged ids ts
    → (left : List ℕ) × (ts' : Trees) × (split_depths ids d n config ts ≡ some (left, ts'))
unfolding split_depths
split_depths-some ids d zero config ts h len k f = (config, ts, refl)
split_depths-some ids d (suc n) config ts h len k f =
    let (flag, at) = get_elem?-lt ids d (omega arith) in
    let (rest, ts₁, run₁, more, same) =
      maybe_first d flag config ts (omega arith) (omega arith) (f d flag at) in
    let (left, ts', run) =
      split_depths-some ids (d + 1) n rest ts₁ (omega arith) len (omega arith)
        (λ i g e one. same ∙ f i g e one) in
    (left, ts', rw (at, run₁) run)

read_first-some :
    (n : ℕ) (config : List ℕ)
    → n ≤ length config
    → (ids : List ℕ) × (split : Bool) × (left : List ℕ) × (read_first n config
        ≡ some (ids, split, left))
      × (length ids ≡ n)
      × (length left + n ≡ length config)
      × ((d flag : ℕ) → get_elem? ids d ≡ some flag → (flag == 1) ≡ true → split ≡ true)
unfolding read_first
read_first-some zero config h =
    ([], false, config, refl, refl, omega arith, λ d flag e. absurd (cc))
read_first-some (suc n) config h =
    let (temp, rest, pop, len) = pop_front-some config (omega arith) in
    let (ids, split, left, run, len₁, len₂, f) = read_first-some n rest (omega arith) in
    (
      temp ∷ ids,
      (temp == 1) || split,
      left,
      rw (pop, run) refl,
      ap suc len₁,
      omega arith,
      flagged temp ids split f,
    )
  where
    flagged :
        (temp : ℕ) (ids : List ℕ) (split : Bool)
        → ((d flag : ℕ) → get_elem? ids d ≡ some flag → (flag == 1) ≡ true → split ≡ true)
        → (d flag : ℕ) → get_elem? (temp ∷ ids) d ≡ some flag
        → (flag == 1) ≡ true
        → ((temp == 1) || split) ≡ true
    flagged temp ids split f zero flag e one = ground (arith, e, one)
    flagged temp ids split f (suc d) flag e one = ground (arith, f d flag e one)

-- A configuration of twenty numbers or more gives a tree, whatever they are.
pub generate_tree-total :
    (v : ℕ) (config : List ℕ) → 20 ≤ length config → (t : Tree) × (generate_tree v config ≡ some t)
unfolding generate_tree
generate_tree-total v config h =
    let (ids, split, left, run, len, len', f) = read_first-some 4 config (omega arith) in
    let parts = four_parts 0 (v / 2) v 0 (v / 2) v in
    let first = if split then fresh parts else childless in
    let (rest, cs, run') =
      split_depths-some ids 0 4 left first (omega arith) len (omega arith) (λ d flag e one.
        ap (λ s. size (if s then fresh parts else childless)) (f d flag e one) ∙ refl) in
    (node (new_node 0 v 0 v) cs, rw (run, run') refl)
