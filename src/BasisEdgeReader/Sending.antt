-- ===== src/BasisEdgeReader/Sending.antt =====
-- BasisEdgeReader.cpp, `TransferData`: sequences of calls, and the states between them.

use mathlib.Core.Path.{subst}
use gcnsim_awb.Prelude.{
  ℕ, zero, suc, ◌+◌, ◌-◌, ◌≡◌, refl, Bool, ◌==◌, List, [], ◌∷◌, ◌++◌, Option, some, ◌>>=◌, is_empty,
  length, >>=-eq-some, some-eq, arith, ◌∙◌, ap,
}
use gcnsim_awb.Config.{Config}
use gcnsim_awb.EdgeReader.{ErData}
use gcnsim_awb.BasisEdgeReader.{BasisEdgeReader, data_of, transfer_data}

-- Some calls of `TransferData`, with what they return.
abbrev pub transfers : Config → ℕ → BasisEdgeReader → Option (List ErData × BasisEdgeReader)
transfers c zero s = some ([], s)
transfers c (suc n) s = do
  (d, s') ← transfer_data c s
  (ds, s'') ← transfers c n s'
  some (d ∷ ds, s'')

-- What goes out for the last `k` of `w` times of a column index.
abbrev pub times : Config → ℕ → ℕ → ℕ → Bool → ℕ → List ErData
times c row col start last zero = []
times c row col start last (suc k) =
    data_of c row col (c.w_fold - suc k) start last ∷ times c row col start last k

-- What goes out for the rest of a row.
abbrev pub sent : Config → ℕ → ℕ → List ℕ → List ErData
sent c row start [] = []
sent c row start (e ∷ es) = times c row e start (is_empty es) c.w_fold ++ sent c row start es

-- The row's columns `gone` are out, those of `es` are not, and `more` is what waits behind them.
pub record IsSending (gone es more : List ℕ) (row start : ℕ) (s : BasisEdgeReader) : Type 0 where
  pub fold : s.pre_w_fold ≡ 0
  pub kept : s.ev ≡ gone
  pub waiting : s.eq ≡ es ++ more
  pub left : s.remain_col_num ≡ length es
  pub all : s.col_num_archive ≡ length gone + length es
  pub row_same : s.pre_row ≡ row
  pub start_same : s.pre_w_fold_start ≡ start

-- The column `e` has been taken out and has gone out `f` times.
pub record IsAmid (gone : List ℕ) (e : ℕ) (es more : List ℕ) (row start f : ℕ) (s : BasisEdgeReader)
    : Type 0 where
  pub fold : s.pre_w_fold ≡ f
  pub kept : s.ev ≡ gone ++ e ∷ []
  pub waiting : s.eq ≡ es ++ more
  pub left : s.remain_col_num ≡ suc (length es)
  pub all : s.col_num_archive ≡ length gone + suc (length es)
  pub row_same : s.pre_row ≡ row
  pub start_same : s.pre_w_fold_start ≡ start

-- The end of a row.
pub record IsRowEnd (more : List ℕ) (s : BasisEdgeReader) : Type 0 where
  pub fold : s.pre_w_fold ≡ 0
  pub kept : s.ev ≡ []
  pub waiting : s.eq ≡ more
  pub left : s.remain_col_num ≡ 0

-- What a column leaves behind, when the columns of `es` are to come.
abbrev pub AfterColumn : List ℕ → List ℕ → List ℕ → ℕ → ℕ → BasisEdgeReader → Type 0
AfterColumn gone [] more row start s = IsRowEnd more s
AfterColumn gone (e ∷ es) more row start s = IsSending gone (e ∷ es) more row start s

pub one_left : (es : List ℕ) → (suc (length es) == 1) ≡ is_empty es
one_left [] = refl
one_left (e ∷ es) = ground arith

-- Some calls, and some more.
pub transfers-append :
    (c : Config) (n k : ℕ) (s t u : BasisEdgeReader) (ds es : List ErData)
    → transfers c n s ≡ some (ds, t)
    → transfers c k t ≡ some (es, u)
    → transfers c (n + k) s ≡ some (ds ++ es, u)
transfers-append c zero k s t u ds es e f =
    let none_more : 0 + k ≡ k = omega arith in
    let same : ([], s) ≡ (ds, t) = some-eq e in
    ap (λ n. transfers c n s) none_more
    ∙ subst (λ z. transfers c k z.1 ≡ some (es, u) → transfers c k s ≡ some (z.0 ++ es, u)) same
        (λ g. g) f
transfers-append c (suc n) k s t u ds es e f =
    let (p, h, e₁) = >>=-eq-some (transfer_data c s) _ e in
    let (q, g, e₂) = >>=-eq-some (transfers c n p.1) _ e₁ in
    let same : (p.0 ∷ q.0, q.1) ≡ (ds, t) = some-eq e₂ in
    let one_more : suc n + k ≡ suc (n + k) = omega arith in
    let rest : transfers c (n + k) p.1 ≡ some (q.0 ++ es, u) =
      transfers-append c n k p.1 q.1 u q.0 es g (ap (λ z. transfers c k z.1) same ∙ f) in
    ap (λ n. transfers c n s) one_more
    ∙ first p (q.0 ++ es) h rest
    ∙ ap (λ z. some (z.0 ++ es, u)) same
  where
    first :
        (p : ErData × BasisEdgeReader) (l : List ErData)
        → transfer_data c s ≡ some p
        → transfers c (n + k) p.1 ≡ some (l, u)
        → transfers c (suc (n + k)) s ≡ some (p.0 ∷ l, u)
    first p l h r = rw (h, r) refl
