-- ===== src/RowLoop/Slots.antt =====
-- CSR_converter: the tools that send each edge to a vector of its own, `new_csr[slot].push_back(to)`,
-- and what the vectors hold at the end.
use mathlib.Core.List.{append-nil, append_assoc}
use gcnsim_awb.Prelude.{
  ℕ, zero, suc, ◌<◌, ◌≡◌, refl, Bool, false, ◌==◌, if◌then◌else◌, List, [], ◌∷◌, ◌++◌, Option, none,
  some, ◌>>=◌, some-eq, get_elem?, length, All, inl, inr, Bool-cases, arith, sym, ◌∙◌, ap,
}
use gcnsim_awb.Vtmake.{push_at}
use gcnsim_awb.RowLoop.Edges.{each}

-- The vectors after one push.
abbrev pub IsPushed : ℕ → ℕ → List (List ℕ) → List (List ℕ) → Type 0
IsPushed k e ts ts' =
    (j : ℕ) (t : List ℕ)
    → get_elem? ts j ≡ some t
    → get_elem? ts' j ≡ some (if k == j then t ++ e ∷ [] else t)

first-IsPushed :
    (e : ℕ) (t : List ℕ) (ts : List (List ℕ)) → IsPushed 0 e (t ∷ ts) ((t ++ e ∷ []) ∷ ts)
first-IsPushed e t ts zero u q = ap (λ l. some (l ++ e ∷ [])) (some-eq q)
first-IsPushed e t ts (suc j) u q = ground arith

later-IsPushed :
    (k e : ℕ) (t : List ℕ) (ts ts' : List (List ℕ))
    → IsPushed k e ts ts'
    → IsPushed (suc k) e (t ∷ ts) (t ∷ ts')
later-IsPushed k e t ts ts' p zero u q = ground arith
later-IsPushed k e t ts ts' p (suc j) u q =
    let same : (k == j) ≡ (suc k == suc j) = ground arith in
    p j u q ∙ ap (λ b. some (if b then u ++ e ∷ [] else u)) same

pub push_at-IsPushed :
    (k e : ℕ) (ts : List (List ℕ))
    → k < length ts
    → (ts' : List (List ℕ)) × (push_at k e ts ≡ some ts')
      × (length ts' ≡ length ts)
      × IsPushed k e ts ts'
unfolding push_at
push_at-IsPushed k e [] h = absurd (omega arith)
push_at-IsPushed zero e (t ∷ ts) h = ((t ++ e ∷ []) ∷ ts, refl, refl, first-IsPushed e t ts)
push_at-IsPushed (suc k) e (t ∷ ts) h =
    let (ts', run, len, all) = push_at-IsPushed k e ts (omega arith) in
    (t ∷ ts', rw run refl, omega (arith, len), later-IsPushed k e t ts ts' all)

abbrev pub is_slot : Option ℕ → ℕ → Bool
is_slot none k = false
is_slot (some j) k = j == k

-- `slot i e` is the vector for the edge from `i` to `e`.
module _ (slot : ℕ → ℕ → Option ℕ) where
  unfoldable pub put_in_slot : ℕ → ℕ → List (List ℕ) → Option (List (List ℕ))
  put_in_slot i e ts = slot i e >>= λ k. push_at k e ts

  -- The edges among these that go to the vector `k`, by their columns.
  abbrev pub sent : ℕ → List (ℕ × ℕ) → List ℕ
  sent k [] = []
  sent k ((i, e) ∷ es) = let rest = sent k es in if is_slot (slot i e) k then e ∷ rest else rest

  -- An edge has a vector among the first `n`.
  abbrev pub HasSlot : ℕ → ℕ × ℕ → Type 0
  HasSlot n (i, e) = (k : ℕ) × (slot i e ≡ some k) × (k < n)

  -- The vectors after some edges.
  abbrev pub IsSent : List (ℕ × ℕ) → List (List ℕ) → List (List ℕ) → Type 0
  IsSent es ts ts' =
      (k : ℕ) (t : List ℕ) → get_elem? ts k ≡ some t → get_elem? ts' k ≡ some (t ++ sent k es)

  cons-IsSent :
      (i e k : ℕ) (es : List (ℕ × ℕ)) (ts ts₁ ts₂ : List (List ℕ))
      → slot i e ≡ some k
      → IsPushed k e ts ts₁
      → IsSent es ts₁ ts₂
      → IsSent ((i, e) ∷ es) ts ts₂
  cons-IsSent i e k es ts ts₁ ts₂ at p f j t q = elim (Bool-cases (k == j)) [
    | inl here ↦
        f j (t ++ e ∷ []) (p j t q ∙ ap (λ b. some (if b then t ++ e ∷ [] else t)) here)
        ∙ ap some (append_assoc t (e ∷ []) (sent j es))
        ∙ rw (at, here) refl
    | inr there ↦
        f j t (p j t q ∙ ap (λ b. some (if b then t ++ e ∷ [] else t)) there) ∙ rw (at, there) refl
  ]

  put_in_slot-some :
      (i e k : ℕ) (ts : List (List ℕ)) → slot i e ≡ some k → put_in_slot i e ts ≡ push_at k e ts
  unfolding put_in_slot
  put_in_slot-some i e k ts at = rw at refl

  pub each-IsSent :
      (es : List (ℕ × ℕ)) (ts : List (List ℕ))
      → All (HasSlot (length ts)) es
      → (ts' : List (List ℕ)) × (each put_in_slot es ts ≡ some ts')
        × (length ts' ≡ length ts)
        × IsSent es ts ts'
  each-IsSent [] ts all = (ts, refl, refl, λ k t q. q ∙ ap some (sym (append-nil t)))
  each-IsSent ((i, e) ∷ es) ts ((k, at, below), all) =
      let (ts₁, run, len, pushed) = push_at-IsPushed k e ts below in
      let (ts₂, run', len', is) = each-IsSent es ts₁ (rw len all) in
      (
        ts₂,
        rw (put_in_slot-some i e k ts at, run) run',
        len' ∙ len,
        cons-IsSent i e k es ts ts₁ ts₂ at pushed is,
      )
