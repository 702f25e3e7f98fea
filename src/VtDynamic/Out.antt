-- ===== src/VtDynamic/Out.antt =====
-- CSR_converter/vtmake_dynamic_vt_0_3.cpp: the edges without a vector.
use gcnsim_awb.Prelude.{
  ℕ, zero, suc, ◌+◌, ◌*◌, ◌^◌, ◌≤◌, ◌<◌, ◌≡◌, refl, List, [], ◌∷◌, ◌++◌, Option, none, some,
  some-eq, >>=-eq-some, inl, inr, Option-cases, length, length-replicate, replicate, get_elem?,
  arith, sym, ◌∙◌, ap,
}
use mathlib.Core.List.{append_assoc}
use gcnsim_awb.Distributer.Rejoin.{join, edges, pointers}
use gcnsim_awb.Vtmake.{push_at}
use gcnsim_awb.RowLoop.Edges.{each, each-append, from_vertex, edge_list}
use gcnsim_awb.RowLoop.Slots.{put_in_slot}
use gcnsim_awb.VtDynamic.{slot_vt_0_3, three_times, vt_dynamic}
use gcnsim_awb.VtDynamic.Sent.{vt_dynamic-each}

length-push_at :
    (k e : ℕ) (ts ts' : List (List ℕ)) → push_at k e ts ≡ some ts' → length ts' ≡ length ts
unfolding push_at
length-push_at k e [] ts' h = absurd (cc)
length-push_at zero e (t ∷ ts) ts' h = sym (ap length (some-eq h))
length-push_at (suc k) e (t ∷ ts) ts' h =
    let (r, run, done) = >>=-eq-some (push_at k e ts) _ h in
    sym (ap length (some-eq done)) ∙ ap suc (length-push_at k e ts r run)

push_at-out : (k e : ℕ) (ts : List (List ℕ)) → length ts ≤ k → push_at k e ts ≡ none
unfolding push_at
push_at-out k e [] h = refl
push_at-out zero e (t ∷ ts) h = absurd (omega arith)
push_at-out (suc k) e (t ∷ ts) h = rw (push_at-out k e ts (omega arith)) refl

module _ (slot : ℕ → ℕ → Option ℕ) where
  put_in_slot-length :
      (i e : ℕ) (ts ts' : List (List ℕ))
      → put_in_slot slot i e ts ≡ some ts'
      → length ts' ≡ length ts
  unfolding put_in_slot
  put_in_slot-length i e ts ts' h =
      let (k, at, run) = >>=-eq-some (slot i e) _ h in length-push_at k e ts ts' run

  each-length :
      (es : List (ℕ × ℕ)) (ts ts' : List (List ℕ))
      → each (put_in_slot slot) es ts ≡ some ts'
      → length ts' ≡ length ts
  each-length [] ts ts' h = sym (ap length (some-eq h))
  each-length ((i, e) ∷ es) ts ts' h =
      let (ts₁, run, rest) = >>=-eq-some (put_in_slot slot i e ts) _ h in
      each-length es ts₁ ts' rest ∙ put_in_slot-length i e ts ts₁ run

  put_in_slot-out :
      (i e k : ℕ) (ts : List (List ℕ))
      → slot i e ≡ some k
      → length ts ≤ k
      → put_in_slot slot i e ts ≡ none
  unfolding put_in_slot
  put_in_slot-out i e k ts at h = rw at (push_at-out k e ts h)

  -- An edge whose slot is past the end, somewhere in the list.
  each-out :
      (before after : List (ℕ × ℕ)) (i e k : ℕ) (ts : List (List ℕ))
      → slot i e ≡ some k
      → length ts ≤ k
      → each (put_in_slot slot) (before ++ (i, e) ∷ after) ts ≡ none
  each-out before after i e k ts at h =
      each-append (put_in_slot slot) before ((i, e) ∷ after) ts
      ∙ elim (Option-cases (each (put_in_slot slot) before ts)) [
        | inl fault ↦ rw fault refl
        | inr (ts', run) ↦
            rw (run, put_in_slot-out i e k ts' at (omega (arith, each-length before ts ts' run)))
              refl
      ]

from_vertex-append :
    (i : ℕ) (a b : List ℕ) → from_vertex i (a ++ b) ≡ from_vertex i a ++ from_vertex i b
from_vertex-append i [] b = refl
from_vertex-append i (e ∷ a) b = ap (λ l. (i, e) ∷ l) (from_vertex-append i a b)

-- An edge of a row is an edge of the graph.
edge_list-split :
    (i j : ℕ) (m : List (List ℕ)) (x y : List ℕ) (e : ℕ)
    → get_elem? m j ≡ some (x ++ e ∷ y)
    → (before : List (ℕ × ℕ)) × (after : List (ℕ × ℕ)) × (edge_list i m
        ≡ before ++ (i + j, e) ∷ after)
edge_list-split i j [] x y e h = absurd (cc)
edge_list-split i zero (l ∷ m) x y e h = (
  from_vertex i x,
  from_vertex i y ++ edge_list (i + 1) m,
  ap (λ r. from_vertex i r ++ edge_list (i + 1) m) (some-eq h)
      ∙ ap (λ r. r ++ edge_list (i + 1) m) (from_vertex-append i x (e ∷ y))
      ∙ append_assoc (from_vertex i x) ((i, e) ∷ from_vertex i y) (edge_list (i + 1) m)
      ∙ ap (λ n. from_vertex i x ++ (n, e) ∷ (from_vertex i y ++ edge_list (i + 1) m))
          (omega arith),
)
edge_list-split i (suc j) (l ∷ m) x y e h =
    let (before, after, split) = edge_list-split (i + 1) j m x y e h in
    (
      from_vertex i l ++ before,
      after,
      ap (λ r. from_vertex i l ++ r) split
          ∙ sym (append_assoc (from_vertex i l) before ((i + 1 + j, e) ∷ after))
          ∙ ap (λ n. (from_vertex i l ++ before) ++ (n, e) ∷ after) (omega arith),
    )

module _ (k : ℕ) (pos : 0 < k) (small : k < 2 ^ 22) where
  slot_vt_0_3-corner :
      (i e : ℕ) → 3 * k ≤ i → 3 * k ≤ e → slot_vt_0_3 (4 * k) i e ≡ some (i + 9 * k)
  unfolding slot_vt_0_3
  slot_vt_0_3-corner i e h h' = ground arith

  -- In a graph of `4 * k` vertices, `k` from 1 on and below 2^22, an edge from a vertex of the last quarter to one
  -- of the last quarter has no vector: the tool writes behind the end of `new_csr`.
  pub vt_dynamic_vt_0_3-fault :
      (m : List (List ℕ)) (i e : ℕ) (x y : List ℕ)
      → length m ≡ 4 * k
      → edges m < 2 ^ 64
      → get_elem? m i ≡ some (x ++ e ∷ y)
      → 3 * k ≤ i
      → 3 * k ≤ e
      → vt_dynamic (slot_vt_0_3 (4 * k)) (three_times (4 * k)) (4 * k) (0 ∷ pointers 0 m) (join m)
        ≡ none
  vt_dynamic_vt_0_3-fault m i e x y count few at h h' =
      let (before, after, split) = edge_list-split 0 i m x y e at in
      let fault =
        ap (λ es. each (put_in_slot (slot_vt_0_3 (4 * k))) es (replicate (three_times (4 * k)) []))
          split
        ∙ each-out (slot_vt_0_3 (4 * k)) before after (0 + i) e (0 + i + 9 * k)
            (replicate (three_times (4 * k)) []) (slot_vt_0_3-corner (0 + i) e (omega arith) h')
            (omega (arith, length-replicate {A = List ℕ} (three_times (4 * k)) [])) in
      vt_dynamic-each (slot_vt_0_3 (4 * k)) (three_times (4 * k)) (4 * k) m count few
      ∙ rw fault refl
