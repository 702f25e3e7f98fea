-- ===== src/VtDynamic/Two.antt =====
-- CSR_converter/vtmake_dynamic_vt_2.cpp.
use gcnsim_awb.Prelude.{
  ℕ, ◌+◌, ◌*◌, ◌/◌, ◌^◌, ◌<◌, ◌≤◌, ◌≡◌, ◌==◌, leb, if◌then◌else◌, List, ◌∷◌, inl, inr, some, refl,
  arith, ap, ◌∙◌, sym, Bool-cases, ap₂, ◌&&◌, ==_iff, All, length, get_elem?, get_elem?-in, true,
  false,
}
use gcnsim_awb.Prelude.Floats.{float_ceil_div-exact}
use gcnsim_awb.Vtmake.{width, tile_of, sums, entries}
use gcnsim_awb.VtDynamic.{slot_vt_2, quarter_of, two_and_a_half, vt_dynamic}
use gcnsim_awb.VtDynamic.Sent.{vt_dynamic-kept}
use gcnsim_awb.RowLoop.Slots.{is_slot}
use gcnsim_awb.RowLoop.Owner.{kept}
use gcnsim_awb.Distributer.Rejoin.{join, edges, pointers}

-- The block of an edge in a matrix of `4 * k` vertices: a half of a row in the upper half, and a quarter
-- or the right half below.
abbrev pub block_of : ℕ → ℕ → ℕ → ℕ
block_of k i edge =
    if leb i (2 * k)
    then (if leb (2 * k) edge then 1 else 0)
    else (if leb (2 * k) edge then 2 else (if leb k edge then 1 else 0))

-- Where the block starts.
abbrev pub base_of : ℕ → ℕ → ℕ → ℕ
base_of k i b =
    if leb i (2 * k)
    then (if b == 1 then 6 * k else 0)
    else (if b == 2 then 6 * k else (if b == 1 then 2 * k else 0))

module _ (k : ℕ) (pos : 0 < k) (small : k < 2 ^ 22) where
  none_of : (w e : ℕ) → e < w → e / w ≡ 0
  none_of w e h = grind arith

  one_of : (w e : ℕ) → w ≤ e → e < 2 * w → e / w ≡ 1
  one_of w e h below = grind arith

  width-even : width (4 * k) 2 ≡ 2 * k
  width-even =
      float_ceil_div-exact (4 * k) 2 (omega arith) (omega arith) (omega arith) ∙ omega arith

  tile_of-half : (e : ℕ) → e < 4 * k → tile_of (4 * k) 2 e ≡ (if leb (2 * k) e then 1 else 0)
  unfolding tile_of
  tile_of-half e h = elim (Bool-cases (leb (2 * k) e)) [
    | inl right ↦ rw (width-even, right, one_of (2 * k) e (ground arith) (omega arith)) refl
    | inr left ↦ rw (width-even, left, none_of (2 * k) e (ground arith)) refl
  ]

  quarter_of-some : (e : ℕ) → quarter_of (4 * k) e ≡ some (e / k)
  unfolding quarter_of
  quarter_of-some e =
      let half : width (4 * k) 2 / 2 ≡ k = omega (arith, width-even) in
      let positive : (k == 0) ≡ false = ground arith in rw (half, positive) refl

  upper :
      (i e : ℕ)
      → leb i (2 * k) ≡ true
      → e < 4 * k
      → slot_vt_2 (4 * k) i e ≡ some (i + base_of k i (block_of k i e))
  unfolding slot_vt_2
  upper i e up below =
      let up' : leb i (4 * k / 2) ≡ true = ground arith in
      rw (up, up', tile_of-half e below)
        (elim (Bool-cases (leb (2 * k) e)) [
          | inl right ↦ rw right (ap some (omega arith))
          | inr left ↦ rw left (ap some (omega arith))
        ])

  lower :
      (i e : ℕ)
      → leb i (2 * k) ≡ false
      → i < 4 * k
      → e < 4 * k
      → slot_vt_2 (4 * k) i e ≡ some (i + base_of k i (block_of k i e))
  unfolding slot_vt_2
  lower i e down h below =
      let down' : leb i (4 * k / 2) ≡ false = ground arith in
      let half : leb (4 * k / 2) e ≡ leb (2 * k) e = ap (λ n. leb n e) (omega arith) in
      rw (down, down', quarter_of-some e, half)
        (elim (Bool-cases (leb (2 * k) e)) [
          | inl right ↦ rw right (ap some (omega arith))
          | inr left ↦ elim (Bool-cases (leb k e)) [
            | inl second ↦
                rw (left, second, one_of k e (ground arith) (ground arith)) (ap some (omega arith))
            | inr first ↦ rw (left, first, none_of k e (ground arith)) (ap some (omega arith))
          ]
        ])

  slot_vt_2-block_of :
      (i e : ℕ)
      → i < 4 * k
      → e < 4 * k
      → slot_vt_2 (4 * k) i e ≡ some (i + base_of k i (block_of k i e))
  slot_vt_2-block_of i e h below = elim (Bool-cases (leb i (2 * k))) [
    | inl up ↦ upper i e up below
    | inr down ↦ lower i e down h below
  ]

  block_of-lt : (i e : ℕ) → i < 4 * k → i + base_of k i (block_of k i e) < 10 * k
  block_of-lt i e h = ground arith

  -- The blocks of a row in this half.
  abbrev pub IsBlock : ℕ → ℕ → Type 0
  IsBlock i b = if leb i (2 * k) then b < 2 else b < 3

  block_of-IsBlock : (i e : ℕ) → IsBlock i (block_of k i e)
  block_of-IsBlock i e = ground arith

  apart :
      (i j b c : ℕ)
      → i < 4 * k
      → j < 4 * k
      → IsBlock i b
      → IsBlock j c
      → i + base_of k i b ≡ j + base_of k j c
      → (i ≡ j) × (b ≡ c)
  apart i j b c h h' isb isc e = (ground arith, ground arith)

  is_slot-block_of :
      (own b i e : ℕ)
      → own < 4 * k
      → IsBlock own b
      → i < 4 * k
      → e < 4 * k
      → is_slot (slot_vt_2 (4 * k) i e) (own + base_of k own b)
        ≡ (i == own) && (block_of k own e == b)
  is_slot-block_of own b i e h isb h' below =
      ap (λ s. is_slot s (own + base_of k own b)) (slot_vt_2-block_of i e h' below)
      ∙ elim (Bool-cases (i + base_of k i (block_of k i e) == own + base_of k own b)) [
        | inl same ↦
            let (p, q) =
              apart i own (block_of k i e) b h' h (block_of-IsBlock i e) isb (ground arith) in
            same ∙ sym (both i own (block_of k own e) b p (ap (λ n. block_of k n e) (sym p) ∙ q))
        | inr other ↦
            other
            ∙ sym (
                not_both i own (block_of k own e) b (λ p q.
                  let e₁ : i + base_of k i (block_of k i e) ≡ own + base_of k own b =
                    ap₂ (λ n c. n + base_of k n c) p (ap (λ n. block_of k n e) p ∙ q) in
                  absurd (ground arith)))
      ]
    where
      both : (a b c d : ℕ) → a ≡ b → c ≡ d → ((a == b) && (c == d)) ≡ true
      both a b c d p q = ground arith

      not_both : (a b c d : ℕ) → (a ≡ b → c ≡ d → (true ≡ false)) → ((a == b) && (c == d)) ≡ false
      not_both a b c d f = elim (Bool-cases (a == b)) [
        | inl p ↦ elim (Bool-cases (c == d)) [
          | inl q ↦ let no = f ((==_iff a b).0 p) ((==_iff c d).0 q) in absurd (cc)
          | inr q ↦ rw (p, q) refl
        ]
        | inr p ↦ rw p refl
      ]

  -- In a graph of `4 * k` vertices, `k` from 1 on and below 2^22, whose columns are vertices, the tool returns five
  -- vectors for every two vertices. The one for a row and one of its blocks (the halves of the columns
  -- for the rows up to the middle, and the first two quarters and the right half for those below) holds
  -- the edges of that row in that block, in the order of the input, and no others.
  pub vt_dynamic_vt_2-block_of :
      (m : List (List ℕ)) (own b : ℕ) (l : List ℕ)
      → length m ≡ 4 * k
      → edges m < 2 ^ 64
      → All (All (λ e. e < 4 * k)) m
      → IsBlock own b
      → get_elem? m own ≡ some l
      → (tiles : List (List ℕ)) × (vt_dynamic
            (slot_vt_2 (4 * k))
            (two_and_a_half (4 * k))
            (4 * k)
            (0 ∷ pointers 0 m)
            (join m)
          ≡ some (0 ∷ sums 0 tiles, entries tiles))
        × (length tiles ≡ 10 * k)
        × (get_elem? tiles (own + base_of k own b) ≡ some (kept (λ e. block_of k own e == b) l))
  vt_dynamic_vt_2-block_of m own b l count few all isb at =
      let size : two_and_a_half (4 * k) ≡ 10 * k = omega arith in
      let inside : own < 4 * k = omega (arith, get_elem?-in m own at) in
      let (tiles, run, len, here) =
        vt_dynamic-kept (slot_vt_2 (4 * k)) (two_and_a_half (4 * k)) (4 * k) (own + base_of k own b)
          own (λ e. block_of k own e == b) m l
          (λ i e h below. (
            i + base_of k i (block_of k i e),
            slot_vt_2-block_of i e h below,
            omega (arith, block_of-lt i e h),
          ))
          (λ i e h below. is_slot-block_of own b i e inside isb h below) (ground arith) count few
          all at in
      (tiles, run, len ∙ size, here)
