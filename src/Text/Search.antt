-- ===== src/Text/Search.antt =====
-- `find` with `substr`: which texts it divides a line into.
use gcnsim_awb.Prelude.{ℕ, ◌≡◌, ◌≢◌, refl, false, List, [], ◌∷◌, ◌++◌, none, some, All, arith}
use gcnsim_awb.Text.{codes, starts_with, split_at}

-- A byte does not stand in a text.
abbrev pub Avoids : ℕ → List ℕ → Type 0
Avoids b = All (λ a. a ≢ b)

split_at-skip :
    (p s before behind : List ℕ) (a : ℕ)
    → starts_with p (a ∷ s) ≡ false
    → split_at p s ≡ some (before, behind)
    → split_at p (a ∷ s) ≡ some (a ∷ before, behind)
unfolding split_at
split_at-skip p s before behind a h e = rw (h, e) refl

split_at-none :
    (p s : List ℕ) (a : ℕ)
    → starts_with p (a ∷ s) ≡ false
    → split_at p s ≡ none
    → split_at p (a ∷ s) ≡ none
unfolding split_at
split_at-none p s a h e = rw (h, e) refl

-- The first ` = ` stands behind a name that has no `=`.
pub split_at-spaced :
    (name value : List ℕ)
    → Avoids b'=' name
    → split_at (codes " = ") (name ++ (codes " = " ++ value)) ≡ some (name, value)
split_at-spaced [] value h = unfold split_at starts_with in refl
split_at-spaced (a ∷ []) value h =
    split_at-skip (codes " = ") (codes " = " ++ value) [] value a
      (unfold starts_with in ground arith) (split_at-spaced [] value tt)
split_at-spaced (a ∷ b ∷ name) value h =
    split_at-skip (codes " = ") (b ∷ (name ++ (codes " = " ++ value))) (b ∷ name) value a
      (unfold starts_with in ground arith) (split_at-spaced (b ∷ name) value h.1)

-- The first `=` stands behind such a name.
pub split_at-close :
    (name value : List ℕ)
    → Avoids b'=' name
    → split_at (codes "=") (name ++ (codes "=" ++ value)) ≡ some (name, value)
split_at-close [] value h = unfold split_at starts_with in refl
split_at-close (a ∷ name) value h =
    split_at-skip (codes "=") (name ++ (codes "=" ++ value)) name value a
      (unfold starts_with in ground arith) (split_at-close name value h.1)

-- A text without the first byte of what is looked for.
pub split_at-absent : (b : ℕ) (p s : List ℕ) → Avoids b s → split_at (b ∷ p) s ≡ none
split_at-absent b p [] h = unfold split_at starts_with in refl
split_at-absent b p (a ∷ s) h =
    split_at-none (b ∷ p) s a (unfold starts_with in ground arith) (split_at-absent b p s h.1)

pub Avoids-append : (b : ℕ) (s t : List ℕ) → Avoids b s → Avoids b t → Avoids b (s ++ t)
Avoids-append b [] t h k = k
Avoids-append b (a ∷ s) t h k = (h.0, Avoids-append b s t h.1 k)
