-- ===== src/GlobalBuffer/Requests.antt =====
-- GlobalBuffer.cpp: the operations' effect on the queue, the requests and their table.
use gcnsim_awb.Prelude.{
  ℕ, ◌%◌, ◌≡◌, inl, inr, true, false, [], ◌∷◌, ◌++◌, none, some, get_elem?, Option-cases,
  Bool-cases, List-cases, arith,
}
use mathlib.Core.Path.{subst}
use gcnsim_awb.Cache.Rrip
use gcnsim_awb.Cache.Ship
use gcnsim_awb.EdgeReader.{ErData}
use gcnsim_awb.Cache.Dispatch.{
  Settings, Policies, first_cycle, on_hit, on_fill, victim, Algo, fifo_algo, lru_algo, rrip_algo,
  bf_algo, ship_algo, optimal_algo, moving_med_algo,
}
use gcnsim_awb.GlobalBuffer.{
  GlobalBuffer, request, is_requested, lookup, put, find_line, enqueue, receive_edge, receive_line,
  update_transfer, place, place_by, rrip_place, ship_place, find_way, is_victim, is_free, fill_way,
  fill_and_tell, evict, fill_or_evict, zero_data,
}

-- The operation asked for no line, or for one that was not outstanding, which now is.
pub data Asks (g g' : GlobalBuffer) : Type 0 where
  asks_nothing : g'.requests ≡ g.requests → g'.w_req_table ≡ g.w_req_table → Asks g g'
  asks_one :
      (address : ℕ)
      → is_requested address g ≡ false
      → g'.requests ≡ g.requests ++ address ∷ []
      → g'.w_req_table ≡ put address true g.w_req_table
      → Asks g g'

-- The queue and its flags are the same, and so are the requests and their table.
pub record SameQueue (g g' : GlobalBuffer) : Type 0 where
  pub wq : g'.wq ≡ g.wq
  pub q_empty : g'.q_empty ≡ g.q_empty
  pub can_receive : g'.can_receive ≡ g.can_receive

pub edge-Asks :
    (st : Settings) (d : ErData) (g g' : GlobalBuffer)
    → receive_edge st d g ≡ some g'
    → SameQueue (enqueue d g) g' × Asks g g'
unfolding receive_edge request
edge-Asks st d g g' e = elim (Option-cases (first_cycle st d g.policies)) [
  | inl k ↦ absurd (ground arith)
  | inr (p, k) ↦ elim (Option-cases (get_elem? g.set_util (d.colindex % st.set_n))) [
    | inl k' ↦ absurd (ground arith)
    | inr (u, k') ↦
        elim (Option-cases (find_line (d.colindex % st.set_n) d.colindex d.pre_w_fold g)) [
          | inl k'' ↦ absurd (ground arith)
          | inr (none, k'') ↦ elim (Bool-cases (is_requested d.address g)) [
            | inl old ↦ (ground arith, asks_nothing (ground arith) (ground arith))
            | inr new ↦ (ground arith, asks_one d.address new (ground arith) (ground arith))
          ]
          | inr (some i, k'') ↦ elim (Option-cases (on_hit st (d.colindex % st.set_n) i d p)) [
            | inl q ↦ absurd (ground arith)
            | inr (p', q) ↦ (ground arith, asks_nothing (ground arith) (ground arith))
          ]
        ]
  ]
]

pub check-Asks :
    (st : Settings) (g g' : GlobalBuffer)
    → update_transfer st g ≡ some g'
    → SameQueue g g' × Asks g g'
unfolding update_transfer request
check-Asks st g g' e = elim (Bool-cases g.q_empty) [
  | inl k ↦ (ground arith, asks_nothing (ground arith) (ground arith))
  | inr k ↦ elim (List-cases g.wq) [
    | inl k' ↦ absurd (ground arith)
    | inr (d, rest, k') ↦
        elim (Option-cases (find_line (d.colindex % st.set_n) d.colindex d.pre_w_fold g)) [
          | inl k'' ↦ absurd (ground arith)
          | inr (some i, k'') ↦ (ground arith, asks_nothing (ground arith) (ground arith))
          | inr (none, k'') ↦ elim (Bool-cases (is_requested d.address g)) [
            | inl old ↦ (ground arith, asks_nothing (ground arith) (ground arith))
            | inr new ↦ (ground arith, asks_one d.address new (ground arith) (ground arith))
          ]
        ]
  ]
]

-- Where lines are filled, neither changes.
pub record SameBut (g g' : GlobalBuffer) : Type 0 where
  pub queue : SameQueue g g'
  pub requests : g'.requests ≡ g.requests
  pub table : g'.w_req_table ≡ g.w_req_table

fill_way-SameBut :
    (set_idx i : ℕ) (d : ErData) (g g' : GlobalBuffer)
    → fill_way set_idx i d g ≡ some g'
    → SameBut g g'
unfolding fill_way
fill_way-SameBut set_idx i d g g' e = elim (Option-cases (get_elem? g.cache set_idx)) [
  | inl k ↦ absurd (ground arith)
  | inr (l, k) ↦ elim (Option-cases (get_elem? g.weight_blk_idx set_idx)) [
    | inl k' ↦ absurd (ground arith)
    | inr (w, k') ↦ elim (Option-cases (get_elem? l i)) [
      | inl q ↦ absurd (ground arith)
      | inr (x, q) ↦ elim (Option-cases (get_elem? w i)) [
        | inl q' ↦ absurd (ground arith)
        | inr (y, q') ↦ ground arith
      ]
    ]
  ]
]

-- The policies' states do not matter for this.
policies-SameBut :
    (p q : Policies) (g g' : GlobalBuffer)
    → SameBut (record g { policies = p }) g'
    → SameBut g (record g' { policies = q })
policies-SameBut p q g g' s = record {
  queue = record { wq = s.queue.wq; q_empty = s.queue.q_empty; can_receive = s.queue.can_receive };
  requests = s.requests;
  table = s.table;
}

from_policies-SameBut :
    (p : Policies) (g g' : GlobalBuffer) → SameBut (record g { policies = p }) g' → SameBut g g'
from_policies-SameBut p g g' s = policies-SameBut p g'.policies g g' s

fill_and_tell-SameBut :
    (st : Settings) (set_idx i : ℕ) (d : ErData) (g g' : GlobalBuffer)
    → fill_and_tell st set_idx i d g ≡ some g'
    → SameBut g g'
unfolding fill_and_tell
fill_and_tell-SameBut st set_idx i d g g' e = elim (Option-cases (fill_way set_idx i d g)) [
  | inl k ↦ absurd (ground arith)
  | inr (h, k) ↦ elim (Option-cases (on_fill st set_idx d h.policies)) [
    | inl k' ↦ absurd (ground arith)
    | inr (p, k') ↦
        let same : record h { policies = p } ≡ g' = ground arith in
        subst (SameBut g) same
          (policies-SameBut g.policies p g h (fill_way-SameBut set_idx i d g h k))
  ]
]

evict-SameBut :
    (st : Settings) (set_idx : ℕ) (d : ErData) (g g' : GlobalBuffer)
    → evict st set_idx d g ≡ some g'
    → SameBut g g'
unfolding evict
evict-SameBut st set_idx d g g' e = elim (Option-cases (get_elem? g.cache set_idx)) [
  | inl k ↦ absurd (ground arith)
  | inr (l, k) ↦ elim (Option-cases (get_elem? g.weight_blk_idx set_idx)) [
    | inl k' ↦ absurd (ground arith)
    | inr (w, k') ↦ elim (Option-cases (victim st set_idx d l w g.policies)) [
      | inl q ↦ absurd (ground arith)
      | inr ((none, p), q) ↦ ground arith
      | inr ((some (col, blk), p), q) ↦ elim (Option-cases (find_way (is_victim col blk) l w)) [
        | inl q' ↦ ground arith
        | inr (i, q') ↦
            from_policies-SameBut p g g'
              (fill_and_tell-SameBut st set_idx i d (record g { policies = p }) g' (ground arith))
      ]
    ]
  ]
]

fill_or_evict-SameBut :
    (st : Settings) (set_idx : ℕ) (d : ErData) (g g' : GlobalBuffer)
    → fill_or_evict st set_idx d g ≡ some g'
    → SameBut g g'
unfolding fill_or_evict
fill_or_evict-SameBut st set_idx d g g' e = elim (Option-cases (get_elem? g.cache set_idx)) [
  | inl k ↦ absurd (ground arith)
  | inr (l, k) ↦ elim (Option-cases (get_elem? g.weight_blk_idx set_idx)) [
    | inl k' ↦ absurd (ground arith)
    | inr (w, k') ↦ elim (Option-cases (find_way is_free l w)) [
      | inl q ↦ evict-SameBut st set_idx d g g' (ground arith)
      | inr (i, q) ↦ fill_and_tell-SameBut st set_idx i d g g' (ground arith)
    ]
  ]
]

rrip_place-SameBut :
    (set_idx : ℕ) (d : ErData) (g g' : GlobalBuffer)
    → rrip_place set_idx d g ≡ some g'
    → SameBut g g'
unfolding rrip_place
rrip_place-SameBut set_idx d g g' e =
    elim (Option-cases (Rrip.replace set_idx g.policies.ship.rrpv)) [
      | inl k ↦ absurd (ground arith)
      | inr ((way, r), k) ↦
          let p : Policies = record (g.policies) { ship = record (g.policies.ship) { rrpv = r } } in
          from_policies-SameBut p g g'
            (fill_way-SameBut set_idx way d (record g { policies = p }) g' (ground arith))
    ]

ship_place-SameBut :
    (set_idx address : ℕ) (d : ErData) (g g' : GlobalBuffer)
    → ship_place set_idx address d g ≡ some g'
    → SameBut g g'
unfolding ship_place
ship_place-SameBut set_idx address d g g' e =
    elim (Option-cases (Ship.replace set_idx address g.policies.ship)) [
      | inl k ↦ absurd (ground arith)
      | inr ((way, s), k) ↦
          let p : Policies = record (g.policies) { ship = s } in
          from_policies-SameBut p g g'
            (fill_way-SameBut set_idx way d (record g { policies = p }) g' (ground arith))
    ]

place_by-SameBut :
    (algo : Algo) (st : Settings) (set_idx address : ℕ) (d : ErData) (g g' : GlobalBuffer)
    → place_by algo st set_idx address d g ≡ some g'
    → SameBut g g'
place_by-SameBut rrip_algo st i a d g g' e = rrip_place-SameBut i d g g' e
place_by-SameBut ship_algo st i a d g g' e = ship_place-SameBut i a d g g' e
place_by-SameBut fifo_algo st i a d g g' e = fill_or_evict-SameBut st i d g g' e
place_by-SameBut lru_algo st i a d g g' e = fill_or_evict-SameBut st i d g g' e
place_by-SameBut bf_algo st i a d g g' e = fill_or_evict-SameBut st i d g g' e
place_by-SameBut optimal_algo st i a d g g' e = fill_or_evict-SameBut st i d g g' e
place_by-SameBut moving_med_algo st i a d g g' e = fill_or_evict-SameBut st i d g g' e

-- A line that comes back is not outstanding any more.
pub line-SameQueue :
    (st : Settings) (address : ℕ) (g g' : GlobalBuffer)
    → receive_line st address g ≡ some g'
    → SameQueue g g'
      × (g'.requests ≡ g.requests)
      × (g'.w_req_table ≡ put address false g.w_req_table)
unfolding receive_line place
line-SameQueue st address g g' e =
    let d = lookup zero_data address g.w_map in
    elim (Option-cases (place_by st.cache_repl_algo st (d.colindex % st.set_n) address d g)) [
      | inl k ↦ absurd (ground arith)
      | inr (h, k) ↦ elim (List-cases g.wq) [
        | inl k' ↦ absurd (ground arith)
        | inr (front, rest, k') ↦
            let s =
              place_by-SameBut st.cache_repl_algo st (d.colindex % st.set_n) address d g h k in
            ground (arith, s.queue.wq, s.queue.q_empty, s.queue.can_receive, s.requests)
      ]
    ]
