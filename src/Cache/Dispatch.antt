-- ===== src/Cache/Dispatch.antt =====
-- GlobalBuffer.cpp, the branches on `CACHE_REPL_ALGO`: which policy is told of a hit and of a fill, and
-- which one names the line to replace.
use gcnsim_awb.Prelude.{
  ℕ, not, ◌&&◌, ◌==◌, if◌then◌else◌, List, Option, none, some, ◌>>=◌, get_elem?,
}
use gcnsim_awb.Prelude.Words.{int_of}
use gcnsim_awb.EdgeReader.{ErData}
use gcnsim_awb.Cache.Fifo
use gcnsim_awb.Cache.Fifo.{Lists}
use gcnsim_awb.Cache.Lru
use gcnsim_awb.Cache.Rrip
use gcnsim_awb.Cache.Ship
use gcnsim_awb.Cache.Ship.{Ship}
use gcnsim_awb.Cache.Bloom
use gcnsim_awb.Cache.Bloom.{Bloom}
use gcnsim_awb.Cache.Median
use gcnsim_awb.Cache.Median.{Median}

-- `CACHE_REPL_ALGO`.
pub data Algo : Type 0 where
  fifo_algo lru_algo rrip_algo bf_algo ship_algo optimal_algo moving_med_algo : Algo

pub record Settings : Type 0 where
  pub cache_repl_algo : Algo
  pub way_n : ℕ
  pub set_n : ℕ
  pub bf_len : ℕ
  pub bf_overlap : ℕ

-- The states of the policies. RRIP and SHiP share `rrpvList`, which stands in `ship`.
pub record Policies : Type 0 where
  pub fifo : Lists
  pub lru : Lists
  pub ship : Ship
  pub bloom : Bloom
  pub median : Median

-- The accesses of the first pass, which two policies record.
unfoldable pub first_cycle : Settings → ErData → Policies → Option Policies
first_cycle st d p = elim st.cache_repl_algo [
  | bf_algo ↦
      if d.pre_w_fold == 0
      then (do
        b ← Bloom.first_cycle_access st.bf_len d.rowindex d.colindex p.bloom
        some (record p { bloom = b }))
      else some p
  | moving_med_algo ↦
      if d.pre_w_fold == 0
      then some (record p { median = Median.first_cycle_access d.rowindex d.colindex p.median })
      else some p
  | _ ↦ some p
]

abbrev pub lru_access : ℕ → ℕ → ℕ → Policies → Option Policies
lru_access set_idx to pre_w_fold p = do
  l ← Lru.access set_idx (int_of to) pre_w_fold p.lru
  some (record p { lru = l })

-- What a hit at the way `i` tells the policy.
unfoldable pub on_hit : Settings → ℕ → ℕ → ErData → Policies → Option Policies
on_hit st set_idx i d p = elim st.cache_repl_algo [
  | lru_algo ↦ lru_access set_idx d.colindex d.pre_w_fold p
  | bf_algo ↦ if d.pre_w_fold == 0 then lru_access set_idx d.colindex d.pre_w_fold p else some p
  | moving_med_algo ↦
      if d.pre_w_fold == 0 then lru_access set_idx d.colindex d.pre_w_fold p else some p
  | rrip_algo ↦ do
    r ← Rrip.access set_idx i p.ship.rrpv
    some (record p { ship = record (p.ship) { rrpv = r } })
  | ship_algo ↦ do s ← Ship.access set_idx i d.address p.ship; some (record p { ship = s })
  | _ ↦ some p
]

-- What a fill of a free way, or of the victim's, tells the policy.
unfoldable pub on_fill : Settings → ℕ → ErData → Policies → Option Policies
on_fill st set_idx d p = elim st.cache_repl_algo [
  | fifo_algo ↦ do
    l ← Fifo.access set_idx (int_of d.colindex) d.pre_w_fold p.fifo
    some (record p { fifo = l })
  | lru_algo ↦ lru_access set_idx d.colindex d.pre_w_fold p
  | bf_algo ↦ if d.pre_w_fold == 0 then lru_access set_idx d.colindex d.pre_w_fold p else some p
  | moving_med_algo ↦
      if d.pre_w_fold == 0 then lru_access set_idx d.colindex d.pre_w_fold p else some p
  | _ ↦ some p
]

abbrev pub lru_replace : ℕ → Policies → Option (Option (ℕ × ℕ) × Policies)
lru_replace set_idx p = do
  (col, blk, l) ← Lru.replace set_idx p.lru
  some (some (col, blk), record p { lru = l })

-- The filter that the Bloom filter's policy asks.
unfoldable pub bf_replace :
    Settings → ℕ → List ℕ → List ℕ → Policies → Option (Option (ℕ × ℕ) × Policies)
bf_replace st from set_vector weight_vector p = do
  use_ovl ← get_elem? p.bloom.use_ovl_bf from
  which_bf ← get_elem? p.bloom.bf_idx from
  which_ol_bf ← get_elem? p.bloom.ovl_bf_idx from
  let ovl = not (st.bf_overlap == 0) && use_ovl
  (col, blk) ←
      Bloom.replace st.bf_len (if ovl then which_ol_bf else which_bf) ovl set_vector weight_vector
        p.bloom
  some (some (col, blk), p)

-- The line to replace in a full set; `none` inside is the warning of an unknown algorithm.
unfoldable pub victim :
    Settings → ℕ → ErData → List ℕ → List ℕ → Policies → Option (Option (ℕ × ℕ) × Policies)
unfolding bf_replace
victim st set_idx d set_vector weight_vector p = elim st.cache_repl_algo [
  | fifo_algo ↦ do
    (col, blk, l) ← Fifo.replace set_idx p.fifo
    some (some (col, blk), record p { fifo = l })
  | lru_algo ↦ lru_replace set_idx p
  | bf_algo ↦
      if d.pre_w_fold == 0
      then lru_replace set_idx p
      else bf_replace st d.rowindex set_vector weight_vector p
  | moving_med_algo ↦ if d.pre_w_fold == 0 then lru_replace set_idx p else (do
    (col, blk) ← Median.replace d.rowindex set_vector weight_vector p.median
    some (some (col, blk), p))
  | _ ↦ some (none, p)
]
