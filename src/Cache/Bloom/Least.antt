-- ===== src/Cache/Bloom/Least.antt =====
-- CacheReplacement.cpp, `BloomFilter::replace`.
use gcnsim_awb.Prelude.{
  ℕ, suc, ◌%◌, ◌==◌, none, ◌≤◌, ◌<◌, ◌≡◌, refl, inl, inr, Bool, false, if◌then◌else◌, ltb, List, [],
  ◌∷◌, some, get_elem?, get_elem?-in, get_elem?-lt, length, All, Bool-cases, ltb→lt, arith, ap,
}
use native.Mathlib.Nat.{mod-lt}
use gcnsim_awb.Prelude.Words.{u64_of_int}
use gcnsim_awb.Cache.Bloom.{Bloom, counts, min_index, replace}

All-le : (a b : ℕ) (l : List ℕ) → a ≤ b → All (λ n. b ≤ n) l → All (λ n. a ≤ n) l
All-le a b [] h k = tt
All-le a b (x ∷ l) h k = (omega (arith, k.0), All-le a b l h k.1)

not-ltb : (a b : ℕ) → ltb a b ≡ false → b ≤ a
not-ltb a b h = ground arith

min_index-step :
    (x y : ℕ) (ys : List ℕ) (least : ℕ)
    → get_elem? (y ∷ ys) (min_index (y ∷ ys)) ≡ some least
    → min_index (x ∷ y ∷ ys) ≡ (if ltb least x then suc (min_index (y ∷ ys)) else 0)
unfolding min_index
min_index-step x y ys least e = ground arith

-- At `min_index` stands a value that no other is below.
min_index_lem :
    (x : ℕ) (xs : List ℕ)
    → (m : ℕ) × (get_elem? (x ∷ xs) (min_index (x ∷ xs)) ≡ some m) × All (λ n. m ≤ n) (x ∷ xs)
min_index_lem x [] = (x, one x, (omega arith, tt))
  where
    one : (x : ℕ) → get_elem? (x ∷ []) (min_index (x ∷ [])) ≡ some x
    one x = unfold min_index in refl
min_index_lem x (y ∷ ys) =
    let (least, at, below) = min_index_lem y ys in
    elim (Bool-cases (ltb least x)) [
      | inl lt ↦ (
        least,
        rw (min_index-step x y ys least at, lt) at,
        (omega (arith, ltb→lt least x lt), below),
      )
      | inr ge ↦ (
        x,
        rw (min_index-step x y ys least at, ge) refl,
        (omega arith, All-le x least (y ∷ ys) (not-ltb least x ge) below),
      )
    ]

-- A filter with counters: the hash divides by their number.
read_counter :
    (len : ℕ) (filter : List ℕ) (x : ℕ)
    → 0 < len
    → length filter ≡ len
    → (n : ℕ) × ((if len == 0 then none else get_elem? filter (u64_of_int x % len)) ≡ some n)
read_counter len filter x pos e =
    let (n, known) =
      get_elem?-lt filter (u64_of_int x % len) (omega (arith, e, mod-lt (u64_of_int x) pos)) in
    let positive : (len == 0) ≡ false = ground arith in (n, rw positive known)

-- The counts of a set's columns are read without a fault, one for each.
counts-total :
    (len : ℕ) (filter xs : List ℕ)
    → 0 < len
    → length filter ≡ len
    → (ns : List ℕ) × (counts len filter xs ≡ some ns) × (length ns ≡ length xs)
unfolding counts
counts-total len filter [] pos e = ([], refl, refl)
counts-total len filter (x ∷ xs) pos e =
    let (n, known) = read_counter len filter x pos e in
    let (ns, rest, size) = counts-total len filter xs pos e in
    (n ∷ ns, rw (known, rest) refl, ap suc size)

counts-cons :
    (len : ℕ) (filter : List ℕ) (x : ℕ) (xs : List ℕ)
    → 0 < len
    → length filter ≡ len
    → (n : ℕ) × (ns : List ℕ) × (counts len filter (x ∷ xs) ≡ some (n ∷ ns))
      × (length ns ≡ length xs)
unfolding counts
counts-cons len filter x xs pos e =
    let (n, known) = read_counter len filter x pos e in
    let (ns, rest, size) = counts-total len filter xs pos e in (n, ns, rw (known, rest) refl, size)

replace-eq :
    (len blk_idx : ℕ) (use_ovl : Bool) (xs ws filter ns : List ℕ) (s : Bloom) (target blk : ℕ)
    → get_elem? (if use_ovl then s.ol_bf_list else s.bf_list) blk_idx ≡ some filter
    → counts len filter xs ≡ some ns
    → get_elem? xs (min_index ns) ≡ some target
    → get_elem? ws (min_index ns) ≡ some blk
    → replace len blk_idx use_ovl xs ws s ≡ some (target, blk)
unfolding replace
replace-eq len blk_idx use_ovl xs ws filter ns s target blk known counted is_target is_blk =
    rw (known, counted, is_target, is_blk) refl

-- On a filter of `len` counters, `len` at least 1, and a set with at least one way and as many weight
-- blocks as ways, `replace` faults nowhere. It names the column and the weight block of one way, and no
-- way of the set has a lower count in the filter than that one.
pub replace-least :
    (len blk_idx x : ℕ) (use_ovl : Bool) (xs ws filter : List ℕ) (s : Bloom)
    → 0 < len
    → get_elem? (if use_ovl then s.ol_bf_list else s.bf_list) blk_idx ≡ some filter
    → length filter ≡ len
    → length ws ≡ length (x ∷ xs)
    → (target blk way m : ℕ) × (ns : List ℕ) × (replace len blk_idx use_ovl (x ∷ xs) ws s
        ≡ some (target, blk))
      × (get_elem? (x ∷ xs) way ≡ some target)
      × (get_elem? ws way ≡ some blk)
      × (counts len filter (x ∷ xs) ≡ some ns)
      × (get_elem? ns way ≡ some m)
      × All (λ n. m ≤ n) ns
replace-least len blk_idx x use_ovl xs ws filter s pos known size same =
    let (n, ns, counted, count_size) = counts-cons len filter x xs pos size in
    let (m, at, least) = min_index_lem n ns in
    let way = min_index (n ∷ ns) in
    let inside = get_elem?-in (n ∷ ns) way at in
    let (target, is_target) = get_elem?-lt (x ∷ xs) way (omega (arith, count_size)) in
    let (blk, is_blk) = get_elem?-lt ws way (omega (arith, count_size, same)) in
    (
      target,
      blk,
      way,
      m,
      n ∷ ns,
      replace-eq len blk_idx use_ovl (x ∷ xs) ws filter (n ∷ ns) s target blk known counted
          is_target is_blk,
      is_target,
      is_blk,
      counted,
      at,
      least,
    )
