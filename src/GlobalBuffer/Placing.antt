-- ===== src/GlobalBuffer/Placing.antt =====
-- GlobalBuffer.cpp, `ReceiveData(uint64_t)`: where the line that came back is put.
use mathlib.Core.Path.{subst}
use gcnsim_awb.Prelude.{
  ℕ, zero, suc, ◌%◌, ◌<◌, ◌^◌, ◌≡◌, refl, inl, inr, Bool, true, false, ◌==◌, ==_refl, if◌then◌else◌,
  List, [], ◌∷◌, some, get_elem?, get_elem?-in, get_elem?-set_self, set, length, Bool-cases,
  Option-cases, List-cases, arith,
}
use gcnsim_awb.Prelude.Words.{int_of, u64_of_int-int_of}
use gcnsim_awb.EdgeReader.{ErData}
use gcnsim_awb.Cache.Rrip
use gcnsim_awb.Cache.Ship
use gcnsim_awb.Cache.Dispatch.{
  Algo, fifo_algo, lru_algo, rrip_algo, bf_algo, ship_algo, optimal_algo, moving_med_algo, Settings,
  Policies, on_fill,
}
use gcnsim_awb.GlobalBuffer.{
  GlobalBuffer, lookup, zero_data, find_way, find_line, is_line, is_free, fill_way, fill_and_tell,
  fill_or_evict, put, rrip_place, ship_place, place_by, place, receive_line,
}

-- A way that is written with a pair that passes the test makes a search succeed.
find_way-set :
    (p : ℕ → ℕ → Bool) (l w : List ℕ) (i x y : ℕ)
    → p x y ≡ true
    → i < length l
    → i < length w
    → (j : ℕ) × (find_way p (set l i x) (set w i y) ≡ some j)
unfolding find_way
find_way-set p [] w i x y k a b = absurd (omega (arith, a))
find_way-set p (c ∷ l) [] i x y k a b = absurd (omega (arith, b))
find_way-set p (c ∷ l) (d ∷ w) zero x y k a b = (0, rw k refl)
find_way-set p (c ∷ l) (d ∷ w) (suc i) x y k a b = elim (Bool-cases (p c d)) [
  | inl h ↦ (0, rw h refl)
  | inr h ↦
      let (j, found) = find_way-set p l w i x y k (omega arith) (omega arith) in
      (suc j, rw (h, found) refl)
]

is_line_lem : (to blk : ℕ) → to < 2 ^ 31 → is_line to blk (int_of to) blk ≡ true
is_line_lem to blk small = rw (u64_of_int-int_of to small, ==_refl to, ==_refl blk) refl

-- The line of `d` is in the set.
abbrev pub IsFound : ℕ → ErData → GlobalBuffer → Type 0
IsFound set_idx d g = (j : ℕ) × (find_line set_idx d.colindex d.pre_w_fold g ≡ some (some j))

fill_way-IsFound :
    (set_idx i : ℕ) (d : ErData) (g g' : GlobalBuffer)
    → d.colindex < 2 ^ 31
    → fill_way set_idx i d g ≡ some g'
    → IsFound set_idx d g'
unfolding fill_way find_line
fill_way-IsFound set_idx i d g g' small e = elim (Option-cases (get_elem? g.cache set_idx)) [
  | inl k ↦ absurd (ground arith)
  | inr (l, k) ↦ elim (Option-cases (get_elem? g.weight_blk_idx set_idx)) [
    | inl k' ↦ absurd (ground arith)
    | inr (w, k') ↦ elim (Option-cases (get_elem? l i)) [
      | inl q ↦ absurd (ground arith)
      | inr (x, q) ↦ elim (Option-cases (get_elem? w i)) [
        | inl q' ↦ absurd (ground arith)
        | inr (y, q') ↦
            let (j, found) =
              find_way-set (is_line d.colindex d.pre_w_fold) l w i (int_of d.colindex) d.pre_w_fold
                (is_line_lem d.colindex d.pre_w_fold small) (get_elem?-in l i q)
                (get_elem?-in w i q') in
            let same : record g {
              cache = set g.cache set_idx (set l i (int_of d.colindex));
              weight_blk_idx = set g.weight_blk_idx set_idx (set w i d.pre_w_fold);
            }
                ≡ g' =
              ground arith in
            subst (IsFound set_idx d) same (
              j,
              rw
                  (
                    get_elem?-set_self g.cache set_idx (set l i (int_of d.colindex))
                        (get_elem?-in g.cache set_idx k),
                    get_elem?-set_self g.weight_blk_idx set_idx (set w i d.pre_w_fold)
                        (get_elem?-in g.weight_blk_idx set_idx k'),
                    found,
                  )
                  refl,
            )
      ]
    ]
  ]
]

fill_and_tell-IsFound :
    (st : Settings) (set_idx i : ℕ) (d : ErData) (g g' : GlobalBuffer)
    → d.colindex < 2 ^ 31
    → fill_and_tell st set_idx i d g ≡ some g'
    → IsFound set_idx d g'
unfolding fill_and_tell find_line
fill_and_tell-IsFound st set_idx i d g g' small e = elim (Option-cases (fill_way set_idx i d g)) [
  | inl k ↦ absurd (ground arith)
  | inr (h, k) ↦ elim (Option-cases (on_fill st set_idx d h.policies)) [
    | inl k' ↦ absurd (ground arith)
    | inr (p, k') ↦
        let same : record h { policies = p } ≡ g' = ground arith in
        subst (IsFound set_idx d) same (fill_way-IsFound set_idx i d g h small k)
  ]
]

abbrev pub HasFree : ℕ → GlobalBuffer → Type 0
HasFree set_idx g =
    (l w : List ℕ) × (i : ℕ) × (get_elem? g.cache set_idx ≡ some l)
    × (get_elem? g.weight_blk_idx set_idx ≡ some w)
    × (find_way is_free l w ≡ some i)

free-IsFound :
    (st : Settings) (set_idx : ℕ) (d : ErData) (g g' : GlobalBuffer)
    → d.colindex < 2 ^ 31
    → HasFree set_idx g
    → fill_or_evict st set_idx d g ≡ some g'
    → IsFound set_idx d g'
unfolding fill_or_evict
free-IsFound st set_idx d g g' small (l, w, i, k, k', q) e =
    fill_and_tell-IsFound st set_idx i d g g' small (ground arith)

rrip-IsFound :
    (set_idx : ℕ) (d : ErData) (g g' : GlobalBuffer)
    → d.colindex < 2 ^ 31
    → rrip_place set_idx d g ≡ some g'
    → IsFound set_idx d g'
unfolding rrip_place
rrip-IsFound set_idx d g g' small e =
    elim (Option-cases (Rrip.replace set_idx g.policies.ship.rrpv)) [
      | inl k ↦ absurd (ground arith)
      | inr ((way, r), k) ↦
          let p : Policies = record (g.policies) { ship = record (g.policies.ship) { rrpv = r } } in
          fill_way-IsFound set_idx way d (record g { policies = p }) g' small (ground arith)
    ]

ship-IsFound :
    (set_idx address : ℕ) (d : ErData) (g g' : GlobalBuffer)
    → d.colindex < 2 ^ 31
    → ship_place set_idx address d g ≡ some g'
    → IsFound set_idx d g'
unfolding ship_place
ship-IsFound set_idx address d g g' small e =
    elim (Option-cases (Ship.replace set_idx address g.policies.ship)) [
      | inl k ↦ absurd (ground arith)
      | inr ((way, s), k) ↦
          let p : Policies = record (g.policies) { ship = s } in
          fill_way-IsFound set_idx way d (record g { policies = p }) g' small (ground arith)
    ]

-- RRIP and SHiP always find a way; the others are sure to if one is free.
abbrev pub IsRoomy : Algo → ℕ → GlobalBuffer → Type 0
IsRoomy rrip_algo set_idx g = Unit
IsRoomy ship_algo set_idx g = Unit
IsRoomy fifo_algo set_idx g = HasFree set_idx g
IsRoomy lru_algo set_idx g = HasFree set_idx g
IsRoomy bf_algo set_idx g = HasFree set_idx g
IsRoomy optimal_algo set_idx g = HasFree set_idx g
IsRoomy moving_med_algo set_idx g = HasFree set_idx g

place_by-IsFound :
    (algo : Algo) (st : Settings) (i address : ℕ) (d : ErData) (g g' : GlobalBuffer)
    → d.colindex < 2 ^ 31
    → IsRoomy algo i g
    → place_by algo st i address d g ≡ some g'
    → IsFound i d g'
place_by-IsFound rrip_algo st i a d g g' small r e = rrip-IsFound i d g g' small e
place_by-IsFound ship_algo st i a d g g' small r e = ship-IsFound i a d g g' small e
place_by-IsFound fifo_algo st i a d g g' small r e = free-IsFound st i d g g' small r e
place_by-IsFound lru_algo st i a d g g' small r e = free-IsFound st i d g g' small r e
place_by-IsFound bf_algo st i a d g g' small r e = free-IsFound st i d g g' small r e
place_by-IsFound optimal_algo st i a d g g' small r e = free-IsFound st i d g g' small r e
place_by-IsFound moving_med_algo st i a d g g' small r e = free-IsFound st i d g g' small r e

-- The edge that a line was asked for.
abbrev pub edge_of : ℕ → GlobalBuffer → ErData
edge_of address g = lookup zero_data address g.w_map

abbrev pub set_of : Settings → ErData → ℕ
set_of st d = d.colindex % st.set_n

-- When a line has come back, for a column below 2^31, and under RRIP or SHiP, or with a free way in
-- the set, then the line is found in its set.
pub receive_line-IsFound :
    (st : Settings) (address : ℕ) (g g' : GlobalBuffer)
    → (edge_of address g).colindex < 2 ^ 31
    → IsRoomy st.cache_repl_algo (set_of st (edge_of address g)) g
    → receive_line st address g ≡ some g'
    → IsFound (set_of st (edge_of address g)) (edge_of address g) g'
unfolding receive_line place find_line
receive_line-IsFound st address g g' small room e =
    let d = lookup zero_data address g.w_map in
    let set_idx = d.colindex % st.set_n in
    elim (Option-cases (place_by st.cache_repl_algo st set_idx address d g)) [
      | inl k ↦ absurd (ground arith)
      | inr (h, k) ↦ elim (List-cases g.wq) [
        | inl k' ↦ absurd (ground arith)
        | inr (front, rest, k') ↦
            let same : record h {
              w_req_table = put address false g.w_req_table;
              can_transfer = if address == front.address then true else h.can_transfer;
            }
                ≡ g' =
              ground arith in
            subst (IsFound set_idx d) same
              (place_by-IsFound st.cache_repl_algo st set_idx address d g h small room k)
      ]
    ]
