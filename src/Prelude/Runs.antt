-- ===== src/Prelude/Runs.antt =====
-- Calls of a method in a row.
use mathlib.Core.List.{append_assoc}
use native.Mathlib.Nat.{suc-add, zero-add}
use Prim.Native.Nat.{ℕ, zero, suc, ◌+◌}
use mathlib.Core.Path.{◌≡◌, refl}
use mathlib.Core.Logic.{inl, inr}
use mathlib.Core.List.{List, [], ◌++◌}
use mathlib.Core.Option.{Option, none, some}
use native.Mathlib.Omega.{arith}
use gcnsim_awb.Prelude.Tests.{Option-cases}
use gcnsim_awb.Prelude.Faults.{◌>>=◌}

-- `n` calls in a row, with what they return put together.
unfoldable pub repeat_calls {ℓ} :
    {S : Type ℓ} → (S → Option (List ℕ × S)) → ℕ → S → Option (List ℕ × S)
repeat_calls call zero s = some ([], s)
repeat_calls call (suc n) s =
    call s >>= λ r. repeat_calls call n r.1 >>= λ q. some (r.0 ++ q.0, q.1)

-- Calls that return `xs`, and then calls that return `ys`.
pub repeat_calls-add {ℓ} :
    {S : Type ℓ} (call : S → Option (List ℕ × S)) (m n : ℕ) (s : S) {t u : S} (xs : List ℕ)
    {ys : List ℕ}
    → repeat_calls call m s ≡ some (xs, t)
    → repeat_calls call n t ≡ some (ys, u)
    → repeat_calls call (m + n) s ≡ some (xs ++ ys, u)
unfolding repeat_calls
repeat_calls-add call zero n s xs first second = ground (arith, zero-add n)
repeat_calls-add call (suc m) n s {t} {u} xs {ys} first second = elim (Option-cases (call s)) [
  | inl e ↦ absurd (ground arith)
  | inr ((r, s'), e) ↦ elim (Option-cases (repeat_calls call m s')) [
    | inl e' ↦ absurd (ground arith)
    | inr ((q, t'), e') ↦
        rw (suc-add m n, e)
          (ground (
            arith,
            append_assoc r q ys,
            repeat_calls-add call m n s' {u = u} q {ys = ys} e' (ground arith),
          ))
  ]
]

repeat_calls-fault {ℓ} :
    {S : Type ℓ} (call : S → Option (List ℕ × S)) (m n : ℕ) (s t : S) (xs : List ℕ)
    → repeat_calls call m s ≡ some (xs, t)
    → repeat_calls call n t ≡ none
    → repeat_calls call (m + n) s ≡ none
unfolding repeat_calls
repeat_calls-fault call zero n s t xs first second = ground (arith, zero-add n)
repeat_calls-fault call (suc m) n s t xs first second = elim (Option-cases (call s)) [
  | inl e ↦ absurd (ground arith)
  | inr ((r, s'), e) ↦ elim (Option-cases (repeat_calls call m s')) [
    | inl e' ↦ absurd (ground arith)
    | inr ((q, t'), e') ↦
        rw (suc-add m n, e) (rw (repeat_calls-fault call m n s' t' q e' (ground arith)) refl)
  ]
]

-- After calls that return `xs`, whatever the calls that follow do.
pub repeat_calls-after {ℓ} :
    {S : Type ℓ} (call : S → Option (List ℕ × S)) (m n : ℕ) (s t : S) (xs : List ℕ)
    → repeat_calls call m s ≡ some (xs, t)
    → repeat_calls call (m + n) s ≡ (repeat_calls call n t >>= λ q. some (xs ++ q.0, q.1))
repeat_calls-after call m n s t xs first = elim (Option-cases (repeat_calls call n t)) [
  | inl e ↦ rw e (repeat_calls-fault call m n s t xs first e)
  | inr ((ys, u), e) ↦ rw e (repeat_calls-add call m n s xs first e)
]
