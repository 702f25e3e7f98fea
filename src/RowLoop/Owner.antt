-- ===== src/RowLoop/Owner.antt =====
-- CSR_converter: the edges that go to a vector which only one vertex uses.
use mathlib.Core.List.{append-nil}
use gcnsim_awb.Prelude.{
  ℕ, zero, suc, ◌+◌, ◌≤◌, ◌<◌, ◌≡◌, refl, Bool, true, false, ◌&&◌, ◌==◌, ==_refl, if◌then◌else◌,
  List, [], ◌∷◌, ◌++◌, Option, some, some-eq, All, length, get_elem?, arith, ◌∙◌, ap, ap₂,
}
use gcnsim_awb.RowLoop.Edges.{from_vertex, edge_list}
use gcnsim_awb.RowLoop.Slots.{is_slot, sent}

abbrev pub kept : (ℕ → Bool) → List ℕ → List ℕ
kept p [] = []
kept p (e ∷ l) = let rest = kept p l in if p e then e ∷ rest else rest

sent-append :
    (slot : ℕ → ℕ → Option ℕ) (k : ℕ) (a b : List (ℕ × ℕ))
    → sent slot k (a ++ b) ≡ sent slot k a ++ sent slot k b
sent-append slot k [] b = refl
sent-append slot k ((i, e) ∷ a) b =
    ap₂ (λ c rest. if c then e ∷ rest else rest) {x = is_slot (slot i e) k} refl
      (sent-append slot k a b)
    ∙ pull (is_slot (slot i e) k)
  where
    pull :
        (c : Bool)
        → (if c then e ∷ (sent slot k a ++ sent slot k b) else (sent slot k a ++ sent slot k b))
          ≡ (if c then e ∷ sent slot k a else sent slot k a) ++ sent slot k b
    pull true = refl
    pull false = refl

-- The vector `k` takes the edges of `own` that pass a test, and no others.
module _ (slot : ℕ → ℕ → Option ℕ) (v k own : ℕ) (p : ℕ → Bool)
    (only : (i e : ℕ) → i < v → e < v → is_slot (slot i e) k ≡ (i == own) && p e) where
  sent-own :
      (l : List ℕ) → own < v → All (λ e. e < v) l → sent slot k (from_vertex own l) ≡ kept p l
  sent-own [] h all = refl
  sent-own (e ∷ l) h (below, all) =
      ap₂ (λ c rest. if c then e ∷ rest else rest)
        (only own e h below ∙ ap (λ c. c && p e) (==_refl own)) (sent-own l h all)

  sent-other :
      (i : ℕ) (l : List ℕ)
      → i < v
      → All (λ e. e < v) l
      → (i == own) ≡ false
      → sent slot k (from_vertex i l) ≡ []
  sent-other i [] h all other = refl
  sent-other i (e ∷ l) h (below, all) other =
      ap₂ (λ c rest. if c then e ∷ rest else rest) (only i e h below ∙ ap (λ c. c && p e) other)
        (sent-other i l h all other)

  sent-past :
      (i : ℕ) (m : List (List ℕ))
      → own < i
      → i + length m ≤ v
      → All (All (λ e. e < v)) m
      → sent slot k (edge_list i m) ≡ []
  sent-past i [] h size all = refl
  sent-past i (l ∷ m) h size (below, all) =
      sent-append slot k (from_vertex i l) (edge_list (i + 1) m)
      ∙ ap₂ (λ a b. a ++ b) (sent-other i l (omega arith) below (ground arith))
          (sent-past (i + 1) m (omega arith) (omega arith) all)

  pub sent-kept :
      (i j : ℕ) (m : List (List ℕ)) (l : List ℕ)
      → i + j ≡ own
      → i + length m ≤ v
      → All (All (λ e. e < v)) m
      → get_elem? m j ≡ some l
      → sent slot k (edge_list i m) ≡ kept p l
  sent-kept i j [] l at size all e = absurd (cc)
  sent-kept i zero (l' ∷ m) l at size (below, all) e =
      let here : i ≡ own = omega arith in
      sent-append slot k (from_vertex i l') (edge_list (i + 1) m)
      ∙ ap₂ (λ a b. a ++ b)
          (ap (λ n. sent slot k (from_vertex n l')) here
            ∙ sent-own l' (omega arith) below
            ∙ ap (kept p) (some-eq e))
          (sent-past (i + 1) m (omega arith) (omega arith) all)
      ∙ append-nil (kept p l)
  sent-kept i (suc j) (l' ∷ m) l at size (below, all) e =
      sent-append slot k (from_vertex i l') (edge_list (i + 1) m)
      ∙ ap₂ (λ a b. a ++ b) (sent-other i l' (omega arith) below (ground arith))
          (sent-kept (i + 1) j m l (omega arith) (omega arith) all e)
