-- ===== src/Cache/Fifo/Order.antt =====
-- CacheReplacement.cpp, `FIFO`: sets as lists of pairs.
use mathlib.Core.List.{map-append}
use gcnsim_awb.Prelude.{
  ℕ, ◌<◌, ◌≡◌, ◌≢◌, refl, List, [], ◌∷◌, ◌++◌, some, get_elem?, get_elem?-in, set, map, replicate,
  get_elem?-set_self, get_elem?-set_ne, get_elem?-replicate, length-replicate, arith,
}
use gcnsim_awb.Cache.Fifo.{Lists, access, replace, clear}

abbrev pub firsts : List (ℕ × ℕ) → List ℕ
firsts = map (λ p. p.0)

abbrev pub seconds : List (ℕ × ℕ) → List ℕ
seconds = map (λ p. p.1)

-- The vectors of the set hold the pairs (column, weight block), in order.
pub record Represents (s : Lists) (set_idx : ℕ) (ps : List (ℕ × ℕ)) : Type 0 where
  pub columns : get_elem? s.list set_idx ≡ some (firsts ps)
  pub blocks : get_elem? s.weight set_idx ≡ some (seconds ps)

-- The other sets are as they were.
pub record SameElsewhere (s t : Lists) (set_idx : ℕ) : Type 0 where
  pub columns : (j : ℕ) → set_idx ≢ j → get_elem? t.list j ≡ get_elem? s.list j
  pub blocks : (j : ℕ) → set_idx ≢ j → get_elem? t.weight j ≡ get_elem? s.weight j

-- Writing both vectors of a set.
pub written :
    (s : Lists) (i : ℕ) (ps qs : List (ℕ × ℕ))
    → Represents s i ps
    → let t : Lists = record {
      list = set s.list i (firsts qs);
      weight = set s.weight i (seconds qs);
    } in
      Represents t i qs × SameElsewhere s t i
written s i ps qs r = (
  record {
    columns = get_elem?-set_self s.list i (firsts qs) (get_elem?-in s.list i r.columns);
    blocks = get_elem?-set_self s.weight i (seconds qs) (get_elem?-in s.weight i r.blocks);
  },
  record {
    columns = λ j h. get_elem?-set_ne s.list i j (firsts qs) h;
    blocks = λ j h. get_elem?-set_ne s.weight i j (seconds qs) h;
  },
)

-- `access` puts the pair behind the others of its set.
pub access-append :
    (s : Lists) (i item blk : ℕ) (ps : List (ℕ × ℕ))
    → Represents s i ps
    → (t : Lists) × (access i item blk s ≡ some t)
      × Represents t i (ps ++ (item, blk) ∷ [])
      × SameElsewhere s t i
unfolding access
access-append s i item blk ps r =
    let (now, other) = written s i ps (ps ++ (item, blk) ∷ []) r in
    (
      _,
      rw
          (
            r.columns,
            r.blocks,
            ← map-append (λ (p : ℕ × ℕ). p.0) ps ((item, blk) ∷ []),
            ← map-append (λ (p : ℕ × ℕ). p.1) ps ((item, blk) ∷ []),
          )
          refl,
      now,
      other,
    )

-- `replace` takes the pair that came first, and leaves the others in order.
pub replace-first :
    (s : Lists) (i item blk : ℕ) (ps : List (ℕ × ℕ))
    → Represents s i ((item, blk) ∷ ps)
    → (t : Lists) × (replace i s ≡ some (item, blk, t)) × Represents t i ps × SameElsewhere s t i
unfolding replace
replace-first s i item blk ps r =
    let (now, other) = written s i ((item, blk) ∷ ps) ps r in
    (_, rw (r.columns, r.blocks) refl, now, other)

-- `clear` empties the columns and keeps the weight blocks: on a set that held `(old, stale)` first,
-- an access and a replacement after it pair the new column with the stale block.
pub clear-stale :
    (s : Lists) (set_n i item blk old stale : ℕ) (ps : List (ℕ × ℕ))
    → i < set_n
    → Represents s i ((old, stale) ∷ ps)
    → (t u : Lists) × (access i item blk (clear set_n s) ≡ some t)
      × (replace i t ≡ some (item, stale, u))
unfolding clear access replace
clear-stale s set_n i item blk old stale ps h r = (
  t,
  u,
  rw (get_elem?-replicate {A = List ℕ} set_n i [] h, r.blocks) refl,
  rw
      (
        get_elem?-set_self (replicate set_n []) i (item ∷ [])
            (omega (arith, length-replicate {A = List ℕ} set_n [])),
        get_elem?-set_self s.weight i ((stale ∷ seconds ps) ++ blk ∷ [])
            (get_elem?-in s.weight i r.blocks),
      )
      refl,
)
  where
    t : Lists
    t = record {
      list = set (replicate set_n []) i (item ∷ []);
      weight = set s.weight i ((stale ∷ seconds ps) ++ blk ∷ []);
    }

    u : Lists
    u = record { list = set t.list i []; weight = set t.weight i (seconds ps ++ blk ∷ []) }
