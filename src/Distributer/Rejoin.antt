-- ===== src/Distributer/Rejoin.antt =====
-- Distributer.cpp, `Distribute`: a matrix as the list of its rows' column indices, its two queues, and
-- the shares of the units.
use mathlib.Core.List.{append-nil, append_assoc}
use mathlib.Core.Path.{subst}
use gcnsim_awb.Prelude.{
  ℕ, zero, suc, ◌+◌, ◌-◌, ◌*◌, ◌^◌, ◌≤◌, ◌<◌, ◌≡◌, refl, inl, inr, ◌⊎◌, true, false, ◌==◌, leb,
  if◌then◌else◌, List, [], ◌∷◌, ◌++◌, map, Option, some, ◌>>=◌, >>=-eq-some, some-eq, is_empty,
  length, length-append, Bool-cases, Option-cases, arith, sym, ◌∙◌, ap, ap₂,
}
use gcnsim_awb.Prelude.Words.{add64, sub64, int_of, rounds, ceil_div_bounds}
use gcnsim_awb.Prelude.Floats.{float_ceil_div, float_ceil_div-exact}
use gcnsim_awb.DataController.Delivery.{pop_many-append}
use gcnsim_awb.Distributer.{Share, Filling, fill, Division, fill_all, distribute}

abbrev pub join {ℓ} : {A : Type ℓ} → List (List A) → List A
join [] = []
join (r ∷ rs) = r ++ join rs

pub join-append {ℓ} : {A : Type ℓ} (a b : List (List A)) → join (a ++ b) ≡ join a ++ join b
join-append [] b = refl
join-append (r ∷ a) b = ap (λ l. r ++ l) (join-append a b) ∙ sym (append_assoc r (join a) (join b))

-- The number of edges.
abbrev pub edges : List (List ℕ) → ℕ
edges m = length (join m)

-- The row pointers behind the first, from the first.
abbrev pub pointers : ℕ → List (List ℕ) → List ℕ
pointers b [] = []
pointers b (r ∷ m) = (b + length r) ∷ pointers (b + length r) m

-- The row pointers and the column indices of a matrix.
abbrev pub csr : List (List ℕ) → List ℕ × List ℕ
csr m = (0 ∷ pointers 0 m, join m)

abbrev pub queues : Share → List ℕ × List ℕ
queues s = (s.adjrowindex, s.adjcolindex)

rebase :
    (last b : ℕ) (m : List (List ℕ))
    → last + b + edges m < 2 ^ 31
    → map (λ r. sub64 r last) (pointers (last + b) m) ≡ pointers b m
rebase last b [] h = refl
rebase last b (r ∷ m) h =
    let here : sub64 (last + b + length r) last ≡ b + length r =
      omega (arith, length-append r (join m)) in
    let there : pointers (last + b + length r) m ≡ pointers (last + (b + length r)) m =
      ap (λ n. pointers n m) (omega arith) in
    ap₂ (λ x l. x ∷ l) here
      (ap (map (λ r. sub64 r last)) there
        ∙ rebase last (b + length r) m (omega (arith, length-append r (join m))))

-- The rest of a round, whose row is taken.
abbrev after : ℕ → ℕ → ℕ → List ℕ → List ℕ → List ℕ → Option Filling
after u last entry r rows cols =
    if is_empty cols
    then some (record {
      pushed = entry ∷ map (λ r. sub64 r last) rows;
      taken = r;
      count = 1;
      rows_left = [];
      cols_left = [];
      last = last;
    })
    else if leb u entry
    then some (record {
      pushed = entry ∷ [];
      taken = r;
      count = 1;
      rows_left = rows;
      cols_left = cols;
      last = add64 last entry;
    })
    else fill u last entry rows cols >>= (λ f.
      some (record f { pushed = entry ∷ f.pushed; taken = r ++ f.taken; count = f.count + 1 }))

fill-after :
    (u last back : ℕ) (r rows cols : List ℕ)
    → last + back + length r < 2 ^ 31
    → fill u last back ((last + back + length r) ∷ rows) (r ++ cols)
      ≡ after u last (back + length r) r rows cols
unfolding fill
fill-after u last back r rows cols h =
    let entry : sub64 (last + back + length r) last ≡ back + length r = omega arith in
    let many : rounds (int_of (sub64 (back + length r) back)) ≡ length r = ground arith in
    rw (entry, many, pop_many-append r cols) refl

-- What a unit's loop takes is a first part of the matrix, and it leaves the rest: either nothing, or a
-- rest with edges when it has enough.
record Fills (u last back : ℕ) (m : List (List ℕ)) (f : Filling) : Type 0 where
  own : List (List ℕ)
  rest : List (List ℕ)
  split : m ≡ own ++ rest
  pushed_own : f.pushed ≡ pointers back own
  taken_own : f.taken ≡ join own
  rows_rest : f.rows_left ≡ pointers f.last rest
  cols_rest : f.cols_left ≡ join rest
  last_small : f.last + edges rest < 2 ^ 31
  enough : (rest ≡ []) ⊎ ((0 < edges rest) × (u ≤ back + edges own))

is_empty-length : (l : List ℕ) → is_empty l ≡ false → 0 < length l
is_empty-length [] e = cc
is_empty-length (a ∷ l) e = omega arith

is_empty-nil : (l : List ℕ) → is_empty l ≡ true → l ≡ []
is_empty-nil [] e = refl
is_empty-nil (a ∷ l) e = cc

module _ (u last back : ℕ) (r : List ℕ) (m : List (List ℕ)) where
  end-Fills :
      last + back + edges (r ∷ m) < 2 ^ 31
      → join m ≡ []
      → Fills u last back (r ∷ m) (record {
        pushed = (back + length r) ∷ map (λ x. sub64 x last) (pointers (last + back + length r) m);
        taken = r;
        count = 1;
        rows_left = [];
        cols_left = [];
        last = last;
      })
  end-Fills h none_left = record {
    own = r ∷ m;
    rest = [];
    split = sym (append-nil (r ∷ m));
    pushed_own = ap (◌∷◌ (back + length r)) (based ∙ rebase last (back + length r) m small);
    taken_own = sym (append-nil r) ∙ ap (λ l. r ++ l) (sym none_left);
    rows_rest = refl;
    cols_rest = refl;
    last_small = omega arith;
    enough = inl refl;
  }
    where
      based :
          map (λ x. sub64 x last) (pointers (last + back + length r) m)
          ≡ map (λ x. sub64 x last) (pointers (last + (back + length r)) m)
      based = ap (λ n. map (λ x. sub64 x last) (pointers n m)) (omega arith)

      small : last + (back + length r) + edges m < 2 ^ 31
      small = omega (arith, length-append r (join m))

  enough-Fills :
      last + back + edges (r ∷ m) < 2 ^ 31
      → 0 < edges m
      → u ≤ back + length r
      → Fills u last back (r ∷ m) (record {
        pushed = (back + length r) ∷ [];
        taken = r;
        count = 1;
        rows_left = pointers (last + back + length r) m;
        cols_left = join m;
        last = add64 last (back + length r);
      })
  enough-Fills h more g =
      let size = length-append r (join m) in
      record {
        own = r ∷ [];
        rest = m;
        split = refl;
        pushed_own = refl;
        taken_own = sym (append-nil r);
        rows_rest = ap (λ n. pointers n m) (omega (arith, size));
        cols_rest = refl;
        last_small = omega (arith, size);
        enough = inr (more, omega (arith, length-append r []));
      }

  more-Fills :
      (f : Filling)
      → Fills u last (back + length r) m f
      → Fills u last back (r ∷ m) (record f {
        pushed = (back + length r) ∷ f.pushed;
        taken = r ++ f.taken;
        count = f.count + 1;
      })
  more-Fills f p = record {
    own = r ∷ p.own;
    rest = p.rest;
    split = ap (◌∷◌ r) p.split;
    pushed_own = ap (◌∷◌ (back + length r)) p.pushed_own;
    taken_own = ap (λ l. r ++ l) p.taken_own;
    rows_rest = p.rows_rest;
    cols_rest = p.cols_rest;
    last_small = p.last_small;
    enough = elim (p.enough) [
      | inl e ↦ inl e
      | inr (more, g) ↦ inr (more, omega (arith, length-append r (join p.own)))
    ];
  }

fill-Fills :
    (u last back : ℕ) (m : List (List ℕ)) (f : Filling)
    → last + back + edges m < 2 ^ 31
    → fill u last back (pointers (last + back) m) (join m) ≡ some f
    → Fills u last back m f
fill-Fills u last back [] f h e = absurd (unfold fill in cc)
fill-Fills u last back (r ∷ m) f h e =
    let size = length-append r (join m) in
    let rows = pointers (last + back + length r) m in
    let e' : after u last (back + length r) r rows (join m) ≡ some f =
      sym (fill-after u last back r rows (join m) (omega (arith, size))) ∙ e in
    elim (Bool-cases (is_empty (join m))) [
      | inl k ↦
          subst (Fills u last back (r ∷ m)) (ground arith)
            (end-Fills u last back r m h (is_empty-nil (join m) k))
      | inr k ↦ elim (Bool-cases (leb u (back + length r))) [
        | inl g ↦
            subst (Fills u last back (r ∷ m)) (ground arith)
              (enough-Fills u last back r m h (is_empty-length (join m) k) (ground arith))
        | inr g ↦ elim (Option-cases (fill u last (back + length r) rows (join m))) [
          | inl none_left ↦ absurd (ground arith)
          | inr (f', e'') ↦
              let same : pointers (last + (back + length r)) m ≡ rows =
                ap (λ n. pointers n m) (omega arith) in
              subst (Fills u last back (r ∷ m)) (ground arith) (
                more-Fills u last back r m f' (
                  fill-Fills u last (back + length r) m f' (omega (arith, size))
                    (ap (λ l. fill u last (back + length r) l (join m)) same ∙ e'')))
        ]
      ]
    ]

-- The shares of the units are those of consecutive parts of the matrix.
record Divides (u n : ℕ) (m : List (List ℕ)) (d : Division) : Type 0 where
  parts : List (List (List ℕ))
  rest : List (List ℕ)
  split : m ≡ join parts ++ rest
  shares_parts : map queues d.shares ≡ map csr parts
  many : length parts ≡ n
  enough : (rest ≡ []) ⊎ ((0 < edges rest) × (n * u ≤ edges (join parts)))

edges-append : (a b : List (List ℕ)) → edges (a ++ b) ≡ edges a + edges b
edges-append a b = ap length (join-append a b) ∙ length-append (join a) (join b)

first-Fills :
    (u last : ℕ) (m : List (List ℕ)) (f : Filling)
    → last + edges m < 2 ^ 31
    → fill u last 0 (pointers last m) (join m) ≡ some f
    → Fills u last 0 m f
first-Fills u last m f h e =
    fill-Fills u last 0 m f (omega arith)
      (ap (λ n. fill u last 0 (pointers n m) (join m)) (omega arith) ∙ e)

-- One unit more, in front.
next-Divides :
    (u n row row_end last : ℕ) (m : List (List ℕ)) (f : Filling) (d : Division)
    → (p : Fills u last 0 m f) → Divides u n p.rest d
    → Divides u (suc n) m (record d {
      shares =
          record {
            adjrowindex = 0 ∷ f.pushed;
            adjcolindex = f.taken;
            row_start = row;
            row_end = row_end;
            axw_count = length f.pushed;
          }
          ∷ d.shares;
    })
next-Divides u n row row_end last m f d p q = record {
  parts = p.own ∷ q.parts;
  rest = q.rest;
  split = p.split ∙ ap (λ l. p.own ++ l) q.split ∙ sym (append_assoc p.own (join q.parts) q.rest);
  shares_parts =
      ap₂ (λ x l. x ∷ l) (ap₂ (λ a b. (0 ∷ a, b)) p.pushed_own p.taken_own) q.shares_parts;
  many = ap suc q.many;
  enough = elim q.enough [
    | inl e ↦ inl e
    | inr (more, g) ↦ elim p.enough [
      | inl e ↦
          absurd (omega (arith, ap edges q.split, edges-append (join q.parts) q.rest, ap edges e))
      | inr (_, g') ↦ inr (more, grind (arith, edges-append p.own (join q.parts)))
    ]
  ];
}

fill_all-Divides :
    (x_h u n row last : ℕ) (m : List (List ℕ)) (d : Division)
    → last + edges m < 2 ^ 31
    → (m ≡ []) ⊎ (0 < edges m)
    → fill_all x_h u n row last (pointers last m) (join m) ≡ some d
    → Divides u n m d
unfolding fill_all
fill_all-Divides x_h u zero row last m d h some_left e = record {
  parts = [];
  rest = m;
  split = refl;
  shares_parts = ap (λ z. map queues (z.shares)) (sym (some-eq e));
  many = refl;
  enough = elim some_left [ inl g ↦ inl g | inr g ↦ inr (g, omega arith) ];
}
fill_all-Divides x_h u (suc n) row last m d h some_left e =
    let (f, k, e₁) = >>=-eq-some (fill u last 0 (pointers last m) (join m)) _ e in
    let (d', k', e₂) =
      >>=-eq-some (fill_all x_h u n (row + f.count) f.last f.rows_left f.cols_left) _ e₁ in
    let p = first-Fills u last m f h k in
    let left : (p.rest ≡ []) ⊎ (0 < edges p.rest) = elim p.enough [
      | inl g ↦ inl g
      | inr (g, _) ↦ inr g
    ] in
    let q = fill_all-Divides x_h u n (row + f.count) f.last p.rest d' p.last_small left (
      ap₂ (λ a b. fill_all x_h u n (row + f.count) f.last a b) (sym p.rows_rest) (sym p.cols_rest)
      ∙ k') in
    subst (Divides u (suc n) m) (some-eq e₂)
      (next-Divides u n row (if n == 0 then sub64 x_h 1 else row + f.count - 1) last m f d' p q)

-- With `CSRDivisionType` 1, from 1 to fewer than 2^24 units, and a matrix of from 1 to fewer than 2^24
-- edges, so that the `float` is exact, a division that returns gives each unit the row
-- pointers and column indices of its own run of rows, the runs are the matrix in its order, and none
-- of its edges is left over.
pub distribute-parts :
    (tot_acc x_h : ℕ) (m : List (List ℕ)) (d : Division)
    → 0 < tot_acc
    → 0 < edges m
    → tot_acc < 2 ^ 24
    → edges m < 2 ^ 24
    → distribute 1 tot_acc x_h (0 ∷ pointers 0 m) (join m) ≡ some d
    → (parts : List (List (List ℕ))) × (join parts ≡ m)
      × (length parts ≡ tot_acc)
      × (map queues d.shares ≡ map csr parts)
unfolding distribute
distribute-parts tot_acc x_h m d units more few small e =
    let u = float_ceil_div (edges m) tot_acc in
    let q = fill_all-Divides x_h u tot_acc 0 0 m d (omega arith) (inr more) e in
    let none_left : q.rest ≡ [] = elim q.enough [
      | inl g ↦ g
      | inr (left, g) ↦ absurd (
          grind (
            arith,
            (ceil_div_bounds (edges m) tot_acc units).0,
            float_ceil_div-exact (edges m) tot_acc small units few,
            ap edges q.split,
            edges-append (join q.parts) q.rest,
          ))
    ] in
    (
      q.parts,
      sym (q.split ∙ ap (λ l. join q.parts ++ l) none_left ∙ append-nil (join q.parts)),
      q.many,
      q.shares_parts,
    )
