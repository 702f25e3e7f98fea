-- ===== src/Cache/Lru/Recency.antt =====
-- CacheReplacement.cpp, `LRU`: sets as lists of pairs, and histories of uses.
use mathlib.Core.Path.{subst₂}
use gcnsim_awb.Prelude.{
  ℕ, ◌≡◌, refl, inl, inr, Bool, true, false, ◌&&◌, ◌==◌, if◌then◌else◌, List, [], ◌∷◌, ◌++◌, Option,
  some, ◌>>=◌, pop_back, All, Bool-cases, arith,
}
use gcnsim_awb.Cache.Fifo.{Lists}
use gcnsim_awb.Cache.Fifo.Order.{firsts, seconds, Represents, SameElsewhere, written}
use gcnsim_awb.Cache.Lru.{scan, access, replace}

abbrev pub is_pair : ℕ → ℕ → ℕ × ℕ → Bool
is_pair item blk (x, w) = x == item && w == blk

-- The pairs without the first one that is `(item, blk)`.
abbrev pub erase : ℕ → ℕ → List (ℕ × ℕ) → List (ℕ × ℕ)
erase item blk [] = []
erase item blk ((x, w) ∷ ps) = if is_pair item blk (x, w) then ps else (x, w) ∷ erase item blk ps

abbrev pub IsAbsent : ℕ → ℕ → List (ℕ × ℕ) → Type 0
IsAbsent item blk = All (λ p. is_pair item blk p ≡ false)

-- No pair stands twice.
abbrev pub IsDistinct : List (ℕ × ℕ) → Type 0
IsDistinct [] = Unit
IsDistinct ((x, w) ∷ ps) = IsAbsent x w ps × IsDistinct ps

pair-eq : (a b x w : ℕ) → is_pair a b (x, w) ≡ true → (x ≡ a) × (w ≡ b)
pair-eq a b x w h = ground arith

pair-IsAbsent :
    (item blk x w : ℕ) (ps : List (ℕ × ℕ))
    → is_pair item blk (x, w) ≡ true
    → IsAbsent x w ps
    → IsAbsent item blk ps
pair-IsAbsent item blk x w ps same h =
    let (e, k) = pair-eq item blk x w same in subst₂ (λ a b. IsAbsent a b ps) e k h

scan_absent :
    (item blk : ℕ) (skip : Bool) (ps : List (ℕ × ℕ))
    → IsAbsent item blk ps
    → scan item blk skip (firsts ps) (seconds ps) ≡ some (firsts ps, seconds ps)
unfolding scan
scan_absent item blk skip [] h = refl
scan_absent item blk skip ((x, w) ∷ ps) h = ground (arith, scan_absent item blk false ps h.1)

-- Without doubles, the loop erases just the pair, if it is there.
scan-erase :
    (item blk : ℕ) (ps : List (ℕ × ℕ))
    → IsDistinct ps
    → scan item blk false (firsts ps) (seconds ps)
      ≡ some (firsts (erase item blk ps), seconds (erase item blk ps))
unfolding scan
scan-erase item blk [] h = refl
scan-erase item blk ((x, w) ∷ ps) h = elim (Bool-cases (is_pair item blk (x, w))) [
  | inl same ↦ rw (same, scan_absent item blk true ps (pair-IsAbsent item blk x w ps same h.0)) refl
  | inr other ↦ rw (other, scan-erase item blk ps h.1) refl
]

-- The pair is not left behind, and no other pair is lost or moved.
erase-IsAbsent :
    (item blk : ℕ) (ps : List (ℕ × ℕ)) → IsDistinct ps → IsAbsent item blk (erase item blk ps)
erase-IsAbsent item blk [] h = tt
erase-IsAbsent item blk ((x, w) ∷ ps) h = elim (Bool-cases (is_pair item blk (x, w))) [
  | inl same ↦ rw same (pair-IsAbsent item blk x w ps same h.0)
  | inr other ↦ rw other (other, erase-IsAbsent item blk ps h.1)
]

IsAbsent-erase :
    (a b item blk : ℕ) (ps : List (ℕ × ℕ)) → IsAbsent a b ps → IsAbsent a b (erase item blk ps)
IsAbsent-erase a b item blk [] h = tt
IsAbsent-erase a b item blk ((x, w) ∷ ps) h = elim (Bool-cases (is_pair item blk (x, w))) [
  | inl same ↦ rw same h.1
  | inr other ↦ rw other (h.0, IsAbsent-erase a b item blk ps h.1)
]

erase-IsDistinct :
    (item blk : ℕ) (ps : List (ℕ × ℕ)) → IsDistinct ps → IsDistinct (erase item blk ps)
erase-IsDistinct item blk [] h = tt
erase-IsDistinct item blk ((x, w) ∷ ps) h = elim (Bool-cases (is_pair item blk (x, w))) [
  | inl same ↦ rw same h.1
  | inr other ↦ rw other (IsAbsent-erase x w item blk ps h.0, erase-IsDistinct item blk ps h.1)
]

-- On a set whose pairs are distinct, `access` moves the pair to the front, or puts it there. The
-- pairs stay distinct, and the other sets stay as they are.
pub access-front :
    (s : Lists) (i item blk : ℕ) (ps : List (ℕ × ℕ))
    → IsDistinct ps
    → Represents s i ps
    → (t : Lists) × (access i item blk s ≡ some t)
      × Represents t i ((item, blk) ∷ erase item blk ps)
      × IsDistinct ((item, blk) ∷ erase item blk ps)
      × SameElsewhere s t i
unfolding access
access-front s i item blk ps d r =
    let (now, other) = written s i ps ((item, blk) ∷ erase item blk ps) r in
    (
      _,
      rw (r.columns, r.blocks, scan-erase item blk ps d) refl,
      now,
      (erase-IsAbsent item blk ps d, erase-IsDistinct item blk ps d),
      other,
    )

pop_back-firsts :
    (ps : List (ℕ × ℕ)) (p : ℕ × ℕ)
    → (pop_back (firsts (ps ++ p ∷ [])) ≡ some (p.0, firsts ps))
      × (pop_back (seconds (ps ++ p ∷ [])) ≡ some (p.1, seconds ps))
pop_back-firsts [] p = (refl, refl)
pop_back-firsts (q ∷ ps) p = let (a, b) = pop_back-firsts ps p in (rw a refl, rw b refl)

-- `replace` takes the pair used least recently, and leaves the others in order.
pub replace-last :
    (s : Lists) (i item blk : ℕ) (ps : List (ℕ × ℕ))
    → Represents s i (ps ++ (item, blk) ∷ [])
    → (t : Lists) × (replace i s ≡ some (item, blk, t)) × Represents t i ps × SameElsewhere s t i
unfolding replace
replace-last s i item blk ps r =
    let (now, other) = written s i (ps ++ (item, blk) ∷ []) ps r in
    let (a, b) = pop_back-firsts ps (item, blk) in
    (_, rw (r.columns, r.blocks, a, b) refl, now, other)

-- A history of uses of one set, the latest last.
abbrev pub recency : List (ℕ × ℕ) → List (ℕ × ℕ) → List (ℕ × ℕ)
recency ps [] = ps
recency ps ((a, b) ∷ uses) = recency ((a, b) ∷ erase a b ps) uses

pub accesses : ℕ → List (ℕ × ℕ) → Lists → Option Lists
accesses i [] s = some s
accesses i ((a, b) ∷ uses) s = do t ← access i a b s; accesses i uses t

-- From distinct pairs on, after any history of uses, a set holds the pairs in the order of their last use, each once.
pub accesses-recency :
    (i : ℕ) (uses ps : List (ℕ × ℕ)) (s : Lists)
    → IsDistinct ps
    → Represents s i ps
    → (t : Lists) × (accesses i uses s ≡ some t)
      × Represents t i (recency ps uses)
      × IsDistinct (recency ps uses)
unfolding accesses
accesses-recency i [] ps s d r = (s, refl, r, d)
accesses-recency i ((a, b) ∷ uses) ps s d r =
    let (t, once, now, distinct, _) = access-front s i a b ps d r in
    rw once (accesses-recency i uses ((a, b) ∷ erase a b ps) t distinct now)
