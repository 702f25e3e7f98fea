-- ===== src/Cache/Lru.antt =====
-- CacheReplacement.cpp, `LRU`: the columns of each set, the one used last in front.
pub mod Recency
use gcnsim_awb.Prelude.{
  ℕ, Bool, true, false, not, ◌&&◌, ◌==◌, if◌then◌else◌, List, [], ◌∷◌, ◌++◌, Option, none, some,
  ◌>>=◌, pop_back, get_elem?, set, replicate,
}
use gcnsim_awb.Cache.Fifo.{Lists}

unfoldable pub lru : ℕ → Lists → Lists
lru set_n s = record {
  list = s.list ++ replicate set_n [];
  weight = s.weight ++ replicate set_n [];
}

-- An entry at which nothing is erased stays.
abbrev pub keep : Bool → ℕ → ℕ → List ℕ × List ℕ → List ℕ × List ℕ
keep true x w p = p
keep false x w (l, m) = (x ∷ l, w ∷ m)

-- The loop of `access` from an index on. After an erasure the next entry moves to that index, and
-- `i++` steps over it: `skip` says that this is the entry at hand. The weight is read only if the
-- column is equal.
unfoldable pub scan : ℕ → ℕ → Bool → List ℕ → List ℕ → Option (List ℕ × List ℕ)
scan item blk skip [] ws = some ([], ws)
scan item blk skip (x ∷ xs) [] =
    let rest = scan item blk false xs [] in
    if not skip && x == item then none else (rest >>= λ r. some (x ∷ r.0, r.1))
scan item blk skip (x ∷ xs) (w ∷ ws) =
    let hit = not skip && (x == item && w == blk) in
    scan item blk hit xs ws >>= λ r. some (keep hit x w r)

unfoldable pub access : ℕ → ℕ → ℕ → Lists → Option Lists
access set_idx item weight_blk_idx s = do
  l ← get_elem? s.list set_idx
  w ← get_elem? s.weight set_idx
  (l', w') ← scan item weight_blk_idx false l w
  some (record {
    list = set s.list set_idx (item ∷ l');
    weight = set s.weight set_idx (weight_blk_idx ∷ w');
  })

unfoldable pub replace : ℕ → Lists → Option (ℕ × ℕ × Lists)
replace set_idx s = do
  l ← get_elem? s.list set_idx
  w ← get_elem? s.weight set_idx
  (target, l') ← pop_back l
  (target_weight_blk_idx, w') ← pop_back w
  some (
    target,
    target_weight_blk_idx,
    record { list = set s.list set_idx l'; weight = set s.weight set_idx w' },
  )

-- Only the columns are cleared.
unfoldable pub clear : ℕ → Lists → Lists
clear set_n s = record s { list = replicate set_n [] }
