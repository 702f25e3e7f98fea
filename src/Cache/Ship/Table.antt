-- ===== src/Cache/Ship/Table.antt =====
-- CacheReplacement.cpp, `SHiP`: the table of counters and the lines' signatures.
use gcnsim_awb.Prelude.{
  ℕ, ◌≡◌, ◌≢◌, inl, inr, Bool, true, ◌==◌, if◌then◌else◌, List, [], ◌∷◌, some, get_elem?, set,
  Bool-cases, Option-cases, arith, ◌∙◌, ap,
}
use mathlib.Core.Path.{subst}
use gcnsim_awb.Prelude.Words.{minus_one}
use gcnsim_awb.Cache.Rrip.{write_at}
use gcnsim_awb.Cache.Ship.{Ship, find, update, ensure, add_one, signature, forget, access}

abbrev pub HasEntry : ℕ → List (ℕ × ℕ) → Type 0
HasEntry k m = (v : ℕ) × (find k m ≡ some v)

HasEntry-update :
    (j k : ℕ) (f : ℕ → ℕ) (m : List (ℕ × ℕ)) → HasEntry j m → HasEntry j (update k f m)
unfolding find update
HasEntry-update j k f [] h = h
HasEntry-update j k f ((i, v) ∷ m) (w, h) = elim (Bool-cases (i == k)) [
  | inl e ↦ elim (Bool-cases (i == j)) [ inl e' ↦ (f v, ground arith) | inr e' ↦ (w, ground arith) ]
  | inr e ↦ elim (Bool-cases (i == j)) [
    | inl e' ↦ (v, ground arith)
    | inr e' ↦ let (w', h') = HasEntry-update j k f m (w, ground arith) in (w', ground (arith, h'))
  ]
]

-- Every line that was filled has its signature in the table.
pub record IsTracked (s : Ship) : Type 0 where
  pub tracked :
      (way sig : ℕ)
      → get_elem? s.line_signature way ≡ some sig
      → sig ≢ minus_one
      → HasEntry sig s.shct

access-parts :
    (s t : Ship) (i way address : ℕ)
    → access i way address s ≡ some t
    → (s.line_signature ≡ t.line_signature) × (update (signature address) add_one s.shct ≡ t.shct)
unfolding access
access-parts s t i way address e = elim (Option-cases (write_at s.rrpv i way 0)) [
  | inl k ↦ absurd (ground arith)
  | inr (r, k) ↦ elim (Option-cases (get_elem? s.line_outcome way)) [
    | inl k' ↦ absurd (ground arith)
    | inr (o, k') ↦ ground arith
  ]
]

-- If every line is tracked, `access` at an existing way leaves every line tracked.
pub access-IsTracked :
    (s t : Ship) (i way address : ℕ) → IsTracked s → access i way address s ≡ some t → IsTracked t
access-IsTracked s t i way address v e =
    let (same, table) = access-parts s t i way address e in
    record {
      tracked = λ j sig known filled. subst (HasEntry sig) table (
          HasEntry-update sig (signature address) add_one s.shct
            (v.tracked j sig (ap (λ l. get_elem? l j) same ∙ known) filled));
    }

-- The tables after a replacement.
filled : Ship → ℕ → ℕ → ℕ → Bool → ℕ → ℕ → List ℕ → Ship
filled s i address way out old count l = record {
  rrpv = set s.rrpv i (set l way (if count == 0 then 3 else 2));
  line_outcome = set s.line_outcome way true;
  line_signature = set s.line_signature way (signature address);
  shct = ensure (signature address) (forget out old s.shct);
}
