-- ===== src/Recursive/Distribute.antt =====
-- CSR_converter/recursive_tiling_maker.cpp: the edges' way to the leaves, as the slots of the vectors of
-- all leaves put_in_slot together.
use mathlib.Core.Path.{subst}
use gcnsim_awb.Prelude.{
  ℕ, zero, suc, ◌+◌, ◌-◌, ◌^◌, ◌<◌, ◌≡◌, refl, true, false, ◌||◌, if◌then◌else◌, List, [], ◌∷◌,
  ◌++◌, Option, none, some, ◌>>=◌, >>=-eq-some, some-eq, All, inl, inr, Bool-cases, length,
  length-append, arith, ◌∙◌, ap,
}
use gcnsim_awb.Prelude.Words.{sub64}
use gcnsim_awb.Vtmake.{push_at}
use gcnsim_awb.RowLoop.Slots.{push_at-IsPushed}
use gcnsim_awb.Recursive.{Node, in_this_node, push_into, distribute_edge, all_vectors}
use gcnsim_awb.Recursive.Cover.{IsSound, in_some, in_this_node-InArea}

-- The place of an edge among the vectors of all leaves: the row of the first leaf that has it.
abbrev pub slot_in : List Node → ℕ → ℕ → Option ℕ
slot_in [] from to = none
slot_in (nd ∷ leaves) from to =
    let later = slot_in leaves from to in
    if in_this_node nd from to
    then some (from - nd.from_start)
    else (later >>= λ k. some (length nd.new_csr + k))

push_at-before :
    (k e : ℕ) (ts ts' us : List (List ℕ))
    → push_at k e ts ≡ some ts'
    → push_at k e (ts ++ us) ≡ some (ts' ++ us)
unfolding push_at
push_at-before k e [] ts' us h = absurd (cc)
push_at-before zero e (t ∷ ts) ts' us h = ap (λ l. l >>= λ r. some (r ++ us)) h
push_at-before (suc k) e (t ∷ ts) ts' us h =
    let (r, run, done) = >>=-eq-some (push_at k e ts) _ h in
    rw (push_at-before k e ts r us run) (ap (λ l. some (l ++ us)) (some-eq done))

push_at-behind :
    (k e : ℕ) (ts us us' : List (List ℕ))
    → push_at k e us ≡ some us'
    → push_at (length ts + k) e (ts ++ us) ≡ some (ts ++ us')
unfolding push_at
push_at-behind k e [] us us' h = ap (λ n. push_at n e us) (omega arith) ∙ h
push_at-behind k e (t ∷ ts) us us' h =
    ap (λ n. push_at n e (t ∷ (ts ++ us))) {y = suc (length ts + k)} (omega arith)
    ∙ rw (push_at-behind k e ts us us' h) refl

-- The leaves differ in what their vectors hold, and in nothing else.
abbrev pub IsAlike : List Node → List Node → Type 0
IsAlike a b =
    (from to : ℕ)
    → (slot_in b from to ≡ slot_in a from to) × (in_some b from to ≡ in_some a from to)

pub record Placed (v from to : ℕ) (leaves : List Node) : Type 0 where
  pub slot : ℕ
  pub placed : List Node
  pub run : distribute_edge from to leaves ≡ some placed
  pub at : slot_in leaves from to ≡ some slot
  pub below : slot < length (all_vectors leaves)
  pub pushed : push_at slot to (all_vectors leaves) ≡ some (all_vectors placed)
  pub sound : All (IsSound v) placed
  pub alike : IsAlike leaves placed

-- The node whose vectors are now these.
abbrev with_vectors : Node → List (List ℕ) → Node
with_vectors nd ts = record nd { new_csr = ts }

module _ (v : ℕ) (small : v < 2 ^ 62) (from to : ℕ) where
  push_into-some :
      (nd : Node)
      → IsSound v nd
      → in_this_node nd from to ≡ true
      → (ts : List (List ℕ)) × (push_into nd from to ≡ some (with_vectors nd ts))
        × (push_at (from - nd.from_start) to nd.new_csr ≡ some ts)
        × (length ts ≡ length nd.new_csr)
        × (from - nd.from_start < length nd.new_csr)
  unfolding push_into IsSound
  push_into-some nd (a, b, c, d, e) inside =
      let (f, g, h, i) = in_this_node-InArea nd from to inside in
      let below : from - nd.from_start < length nd.new_csr = omega arith in
      let same : sub64 from nd.from_start ≡ from - nd.from_start = omega arith in
      let (ts, run, len, pushed) = push_at-IsPushed (from - nd.from_start) to nd.new_csr below in
      (ts, rw (same, run) refl, run, len, below)

  with_vectors-IsSound :
      (nd : Node) (ts : List (List ℕ))
      → IsSound v nd
      → length ts ≡ length nd.new_csr
      → IsSound v (with_vectors nd ts)
  unfolding IsSound
  with_vectors-IsSound nd ts (a, b, c, d, e) len = (a, b, c, d, omega (arith, len))

  with_vectors-IsAlike :
      (nd : Node) (ts : List (List ℕ)) (leaves : List Node)
      → length ts ≡ length nd.new_csr
      → IsAlike (nd ∷ leaves) (with_vectors nd ts ∷ leaves)
  unfolding in_this_node
  with_vectors-IsAlike nd ts leaves len f t = (rw len refl, refl)

  cons-IsAlike : (nd : Node) (a b : List Node) → IsAlike a b → IsAlike (nd ∷ a) (nd ∷ b)
  cons-IsAlike nd a b same f t = (rw ((same f t).0) refl, rw ((same f t).1) refl)

  first-Placed :
      (nd : Node) (leaves : List Node)
      → All (IsSound v) (nd ∷ leaves)
      → in_this_node nd from to ≡ true
      → distribute_edge from to (nd ∷ leaves)
        ≡ (push_into nd from to >>= λ nd'. some (nd' ∷ leaves))
      → Placed v from to (nd ∷ leaves)
  unfolding all_vectors
  first-Placed nd leaves (h, hs) inside step =
      let (ts, into, pushed, len, below) = push_into-some nd h inside in
      record {
        slot = from - nd.from_start;
        placed = with_vectors nd ts ∷ leaves;
        run = step ∙ rw into refl;
        at = rw inside refl;
        below = omega (arith, below, length-append nd.new_csr (all_vectors leaves));
        pushed = push_at-before (from - nd.from_start) to nd.new_csr ts (all_vectors leaves) pushed;
        sound = (with_vectors-IsSound nd ts h len, hs);
        alike = with_vectors-IsAlike nd ts leaves len;
      }

  later-Placed :
      (nd : Node) (leaves : List Node)
      → IsSound v nd
      → in_this_node nd from to ≡ false
      → Placed v from to leaves
      → distribute_edge from to (nd ∷ leaves)
        ≡ (distribute_edge from to leaves >>= λ leaves'. some (nd ∷ leaves'))
      → Placed v from to (nd ∷ leaves)
  unfolding all_vectors
  later-Placed nd leaves h outside p step = record {
    slot = length nd.new_csr + p.slot;
    placed = nd ∷ p.placed;
    run = step ∙ rw p.run refl;
    at = rw (outside, p.at) refl;
    below = omega (arith, p.below, length-append nd.new_csr (all_vectors leaves));
    pushed =
        push_at-behind p.slot to nd.new_csr (all_vectors leaves) (all_vectors p.placed) p.pushed;
    sound = (h, p.sound);
    alike = cons-IsAlike nd leaves p.placed p.alike;
  }

  pub distribute_edge-Placed :
      (leaves : List Node)
      → All (IsSound v) leaves
      → in_some leaves from to ≡ true
      → Placed v from to leaves
  unfolding distribute_edge
  distribute_edge-Placed [] hs some_ = absurd (cc)
  distribute_edge-Placed (nd ∷ []) (h, hs) some_ = first-Placed nd [] (h, hs) (only some_) refl
    where
      only : in_some (nd ∷ []) from to ≡ true → in_this_node nd from to ≡ true
      only q = elim (Bool-cases (in_this_node nd from to)) [
        | inl here ↦ here
        | inr there ↦ absurd (ground (arith, q, there))
      ]
  distribute_edge-Placed (nd ∷ next ∷ leaves) (h, hs) some_ =
      elim (Bool-cases (in_this_node nd from to)) [
        | inl here ↦ first-Placed nd (next ∷ leaves) (h, hs) here (rw here refl)
        | inr there ↦
            later-Placed nd (next ∷ leaves) h there
              (distribute_edge-Placed (next ∷ leaves) hs
                (subst (λ c. (c || in_some (next ∷ leaves) from to) ≡ true) there some_))
              (rw there refl)
      ]
