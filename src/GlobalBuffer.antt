-- ===== src/GlobalBuffer.antt =====
-- GlobalBuffer.cpp: the set-associative cache of the products' operands, the queue of edges that wait
-- for theirs, and the table of outstanding reads.
-- `requests` holds the addresses of the calls of `DRAMRequest`, the latest last. A cached column is
-- an `int`, kept as its pattern; -1 stands for no column. `set_n` and `way_n` are positive, and every
-- set has `way_n` entries in both tables. `operator[]` on a missing key adds an entry that reads as 0
-- or false, as a missing key does here. The weights' and features' side
-- (`XWFlag`) is in GlobalBuffer.Weights.
pub mod Requests
pub mod Steps
pub mod Placing
pub mod Weights
use gcnsim_awb.Prelude.{
  ℕ, zero, suc, ◌+◌, ◌-◌, ◌*◌, ◌/◌, ◌%◌, Bool, true, false, not, ◌&&◌, ◌==◌, if◌then◌else◌, List,
  [], ◌∷◌, ◌++◌, Option, none, some, ◌>>=◌, pop_front, is_empty, get_elem?, set, replicate, length,
}
use gcnsim_awb.Prelude.Words.{add64, int_of, u64_of_int, minus_one}
use gcnsim_awb.EdgeReader.{ErData}
use gcnsim_awb.Cache.Rrip
use gcnsim_awb.Cache.Ship
use gcnsim_awb.Cache.Dispatch.{
  Algo, fifo_algo, lru_algo, rrip_algo, bf_algo, ship_algo, optimal_algo, moving_med_algo, Settings,
  Policies, first_cycle, on_hit, on_fill, victim,
}

pub record GlobalBuffer : Type 0 where
  pub can_transfer : Bool
  pub can_receive : Bool
  pub q_empty : Bool
  pub cache : List (List ℕ)
  pub weight_blk_idx : List (List ℕ)
  pub set_util : List ℕ
  pub wq : List ErData
  pub w_map : List (ℕ × ErData)
  pub w_req_table : List (ℕ × Bool)
  pub policies : Policies
  pub requests : List ℕ

abbrev pub limit_wq_size : ℕ
limit_wq_size = 32

-- The constructor, over the policies that it makes.
unfoldable pub global_buffer : Settings → Policies → GlobalBuffer
global_buffer st policies = record {
  can_transfer = false;
  can_receive = true;
  q_empty = true;
  cache = replicate st.set_n (replicate st.way_n minus_one);
  weight_blk_idx = replicate st.set_n (replicate st.way_n minus_one);
  set_util = replicate st.set_n 0;
  wq = [];
  w_map = [];
  w_req_table = [];
  policies = policies;
  requests = [];
}

-- A map's entry, with a value for a missing key; and a write.
unfoldable pub lookup {ℓ} : {A : Type ℓ} → A → ℕ → List (ℕ × A) → A
lookup d k [] = d
lookup d k ((j, v) ∷ m) = if j == k then v else lookup d k m

unfoldable pub put {ℓ} : {A : Type ℓ} → ℕ → A → List (ℕ × A) → List (ℕ × A)
put k v [] = (k, v) ∷ []
put k v ((j, w) ∷ m) = if j == k then (j, v) ∷ m else (j, w) ∷ put k v m

-- The first way whose column and weight block pass a test.
unfoldable pub find_way : (ℕ → ℕ → Bool) → List ℕ → List ℕ → Option ℕ
find_way p [] ws = none
find_way p (x ∷ xs) [] = none
find_way p (x ∷ xs) (w ∷ ws) = if p x w then some 0 else (find_way p xs ws >>= λ i. some (suc i))

abbrev pub is_line : ℕ → ℕ → ℕ → ℕ → Bool
is_line to pre_w_fold x w = (u64_of_int x == to) && (w == pre_w_fold)

abbrev pub is_free : ℕ → ℕ → Bool
is_free x w = x == minus_one

abbrev pub is_victim : ℕ → ℕ → ℕ → ℕ → Bool
is_victim replace_val replace_blk_idx x w = (x == replace_val) && (w == replace_blk_idx)

unfoldable pub find_line : ℕ → ℕ → ℕ → GlobalBuffer → Option (Option ℕ)
unfolding find_way
find_line set_idx to pre_w_fold g = do
  l ← get_elem? g.cache set_idx
  w ← get_elem? g.weight_blk_idx set_idx
  some (find_way (is_line to pre_w_fold) l w)

unfoldable pub request : ErData → GlobalBuffer → GlobalBuffer
unfolding put
request d g = record g {
  w_map = put d.address d g.w_map;
  w_req_table = put d.address true g.w_req_table;
  requests = g.requests ++ d.address ∷ [];
}

-- A test of `w_req_table`.
abbrev pub is_requested : ℕ → GlobalBuffer → Bool
is_requested address g = lookup false address g.w_req_table

-- `push` on the queue of waiting edges, with its flags.
unfoldable pub enqueue : ErData → GlobalBuffer → GlobalBuffer
enqueue d g = record g {
  wq = g.wq ++ d ∷ [];
  q_empty = false;
  can_receive = if length g.wq + 1 == limit_wq_size then false else g.can_receive;
}

-- `ReceiveData(ERData)`.
unfoldable pub receive_edge : Settings → ErData → GlobalBuffer → Option GlobalBuffer
unfolding find_line enqueue
receive_edge st d g = do
  let set_idx = d.colindex % st.set_n
  p ← first_cycle st d g.policies
  util ← get_elem? g.set_util set_idx
  line ← find_line set_idx d.colindex d.pre_w_fold g
  let g₁ = record (enqueue d g) { policies = p; set_util = set g.set_util set_idx (add64 util 1) }
  elim line [
    | some i ↦ do
      p' ← on_hit st set_idx i d p
      some (record g₁ { policies = p'; can_transfer = true })
    | none ↦ some (if is_requested d.address g then g₁ else request d g₁)
  ]

-- The entry of a key that `w_map` does not have.
abbrev pub zero_data : ErData
zero_data = record {
  rowindex = 0;
  colindex = 0;
  address = 0;
  pre_w_fold = 0;
  pre_w_fold_start = 0;
  pre_repeat = 0;
  is_end = false;
}

-- A write of the line into a way of its set.
unfoldable pub fill_way : ℕ → ℕ → ErData → GlobalBuffer → Option GlobalBuffer
fill_way set_idx i d g = do
  l ← get_elem? g.cache set_idx
  w ← get_elem? g.weight_blk_idx set_idx
  _ ← get_elem? l i
  _ ← get_elem? w i
  some (record g {
    cache = set g.cache set_idx (set l i (int_of d.colindex));
    weight_blk_idx = set g.weight_blk_idx set_idx (set w i d.pre_w_fold);
  })

unfoldable pub fill_and_tell : Settings → ℕ → ℕ → ErData → GlobalBuffer → Option GlobalBuffer
unfolding fill_way
fill_and_tell st set_idx i d g = do
  g' ← fill_way set_idx i d g
  p ← on_fill st set_idx d g'.policies
  some (record g' { policies = p })

-- A full set: the victim's way is filled, if it is found.
unfoldable pub evict : Settings → ℕ → ErData → GlobalBuffer → Option GlobalBuffer
unfolding fill_and_tell find_way
evict st set_idx d g = do
  l ← get_elem? g.cache set_idx
  w ← get_elem? g.weight_blk_idx set_idx
  (target, p) ← victim st set_idx d l w g.policies
  let g₁ = record g { policies = p }
  elim target [
    | none ↦ some g₁
    | some (col, blk) ↦ elim (find_way (is_victim col blk) l w) [
      | none ↦ some g₁
      | some i ↦ fill_and_tell st set_idx i d g₁
    ]
  ]

-- The first free way is filled, or a line is replaced.
unfoldable pub fill_or_evict : Settings → ℕ → ErData → GlobalBuffer → Option GlobalBuffer
unfolding evict find_way fill_and_tell
fill_or_evict st set_idx d g = do
  l ← get_elem? g.cache set_idx
  w ← get_elem? g.weight_blk_idx set_idx
  elim (find_way is_free l w) [
    | some i ↦ fill_and_tell st set_idx i d g
    | none ↦ evict st set_idx d g
  ]

unfoldable pub rrip_place : ℕ → ErData → GlobalBuffer → Option GlobalBuffer
unfolding fill_way
rrip_place set_idx d g = do
  (way, r) ← Rrip.replace set_idx g.policies.ship.rrpv
  fill_way set_idx way d
      (record g { policies = record (g.policies) { ship = record (g.policies.ship) { rrpv = r } } })

unfoldable pub ship_place : ℕ → ℕ → ErData → GlobalBuffer → Option GlobalBuffer
unfolding fill_way
ship_place set_idx address d g = do
  (way, s) ← Ship.replace set_idx address g.policies.ship
  fill_way set_idx way d (record g { policies = record (g.policies) { ship = s } })

-- Only the others look for a free way first.
abbrev pub place_by : Algo → Settings → ℕ → ℕ → ErData → GlobalBuffer → Option GlobalBuffer
place_by rrip_algo st set_idx address d g = rrip_place set_idx d g
place_by ship_algo st set_idx address d g = ship_place set_idx address d g
place_by fifo_algo st set_idx address d g = fill_or_evict st set_idx d g
place_by lru_algo st set_idx address d g = fill_or_evict st set_idx d g
place_by bf_algo st set_idx address d g = fill_or_evict st set_idx d g
place_by optimal_algo st set_idx address d g = fill_or_evict st set_idx d g
place_by moving_med_algo st set_idx address d g = fill_or_evict st set_idx d g

unfoldable pub place : Settings → ℕ → ℕ → ErData → GlobalBuffer → Option GlobalBuffer
unfolding rrip_place ship_place fill_or_evict
place st set_idx address d g = place_by st.cache_repl_algo st set_idx address d g

-- `ReceiveData(uint64_t)`: a read has come back. There is a fault if no edge waits.
unfoldable pub receive_line : Settings → ℕ → GlobalBuffer → Option GlobalBuffer
unfolding place put
receive_line st address g = do
  let d = lookup zero_data address g.w_map
  g' ← place st (d.colindex % st.set_n) address d g
  (front, _) ← pop_front g.wq
  some (record g' {
    w_req_table = put address false g.w_req_table;
    can_transfer = if address == front.address then true else g'.can_transfer;
  })

-- `CanTransfer`.
unfoldable pub update_transfer : Settings → GlobalBuffer → Option GlobalBuffer
unfolding find_line request
update_transfer st g = if g.q_empty then some (record g { can_transfer = false }) else (do
  (d, _) ← pop_front g.wq
  line ← find_line (d.colindex % st.set_n) d.colindex d.pre_w_fold g
  some (elim line [
    | some i ↦ record g { can_transfer = true }
    | none ↦ record (if is_requested d.address g then g else request d g) { can_transfer = false }
  ]))

unfoldable pub transfer_a_data : GlobalBuffer → Option (ErData × GlobalBuffer)
transfer_a_data g = do
  (ret, rest) ← pop_front g.wq
  some (
    ret,
    record g { can_receive = true; wq = rest; q_empty = if is_empty rest then true else g.q_empty },
  )
