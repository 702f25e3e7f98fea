-- ===== src/Tests/Policies.antt =====
-- CacheReplacement.cpp.
use gcnsim_awb.Prelude.{
  ℕ, none, ◌-◌, ◌≤◌, ◌≡◌, refl, true, false, List, [], ◌∷◌, ◌++◌, some, get_elem?, set, length, All,
  arith,
}
use gcnsim_awb.Cache.Fifo
use gcnsim_awb.Cache.Fifo.{Lists}
use gcnsim_awb.Cache.Fifo.Order.{Represents, SameElsewhere, access-append, replace-first}
use gcnsim_awb.Cache.Lru
use gcnsim_awb.Cache.Lru.Recency.{
  IsDistinct, erase, recency, accesses, access-front, replace-last, accesses-recency,
}
use gcnsim_awb.Cache.Rrip
use gcnsim_awb.Cache.Rrip.Oldest.{greatest, first_index, add_all, replace_lem}
use gcnsim_awb.Cache.Ship
use gcnsim_awb.Cache.Ship.{Ship}
use gcnsim_awb.Cache.Bloom.{Bloom, bloom_filter, counts, indices, block_sizes}
use gcnsim_awb.Cache.Bloom
use gcnsim_awb.Cache.Median
use gcnsim_awb.Cache.Median.{Median, distance}
use gcnsim_awb.Cache.Median.Farthest.{replace-farthest}
use gcnsim_awb.Cache.Bloom.Cover.{bloom_filter-covers}
use gcnsim_awb.Cache.Bloom.Least.{replace-least}

-- Two sets, with two pairs in the second one.
abbrev pairs : Lists
pairs = record { list = [] ∷ (7 ∷ 9 ∷ []) ∷ []; weight = [] ∷ (0 ∷ 1 ∷ []) ∷ [] }

abbrev held : List (ℕ × ℕ)
held = (7, 0) ∷ (9, 1) ∷ []

held-Represents : Represents pairs 1 held
held-Represents = record { columns = refl; blocks = refl }

abbrev uses : List (ℕ × ℕ)
uses = (9, 1) ∷ (8, 0) ∷ (7, 0) ∷ []

last_uses : recency held uses ≡ (7, 0) ∷ (8, 0) ∷ (9, 1) ∷ []
last_uses = refl

access-append_example :
    (t : Lists) × (Fifo.access 1 5 2 pairs ≡ some t)
    × Represents t 1 (held ++ (5, 2) ∷ [])
    × SameElsewhere pairs t 1
access-append_example = access-append pairs 1 5 2 held held-Represents

replace-first_example :
    (t : Lists) × (Fifo.replace 1 pairs ≡ some (7, 0, t))
    × Represents t 1 ((9, 1) ∷ [])
    × SameElsewhere pairs t 1
replace-first_example = replace-first pairs 1 7 0 ((9, 1) ∷ []) held-Represents

access-front_example :
    (t : Lists) × (Lru.access 1 9 1 pairs ≡ some t)
    × Represents t 1 ((9, 1) ∷ erase 9 1 held)
    × IsDistinct ((9, 1) ∷ erase 9 1 held)
    × SameElsewhere pairs t 1
access-front_example = access-front pairs 1 9 1 held ((refl, tt), (tt, tt)) held-Represents

replace-last_example :
    (t : Lists) × (Lru.replace 1 pairs ≡ some (9, 1, t))
    × Represents t 1 ((7, 0) ∷ [])
    × SameElsewhere pairs t 1
replace-last_example = replace-last pairs 1 9 1 ((7, 0) ∷ []) held-Represents

accesses-recency_example :
    (t : Lists) × (accesses 1 uses pairs ≡ some t)
    × Represents t 1 (recency held uses)
    × IsDistinct (recency held uses)
accesses-recency_example = accesses-recency 1 uses held pairs ((refl, tt), (tt, tt)) held-Represents

abbrev values : List (List ℕ)
values = (0 ∷ 2 ∷ 1 ∷ 2 ∷ []) ∷ []

aged : Rrip.replace 0 values ≡ some (1, (1 ∷ 2 ∷ 2 ∷ 3 ∷ []) ∷ [])
unfolding Rrip.replace Rrip.age Rrip.find_three Rrip.increment
aged = refl

replace_lem_example :
    let l : List ℕ = 0 ∷ 2 ∷ 1 ∷ 2 ∷ [] in
    let way = first_index (greatest l) l in
    Rrip.replace 0 values ≡ some (way, set values 0 (set (add_all (3 - greatest l) l) way 2))
replace_lem_example =
    replace_lem values 0 0 (2 ∷ 1 ∷ 2 ∷ []) refl
      (omega arith, (omega arith, (omega arith, (omega arith, tt))))

-- One set of two ways after the fill of the first one.
abbrev filled : Ship
filled = record {
  rrpv = (2 ∷ 3 ∷ []) ∷ [];
  line_outcome = true ∷ false ∷ [];
  line_signature = 1 ∷ 4294967295 ∷ [];
  shct = (1, 0) ∷ [];
}

-- Seven vertices for two filters of four counters, overlapped by half.
covered :
    (block_sizes 2 7 ≡ 4 ∷ 3 ∷ [])
    × ((bloom_filter 2 4 50 7).bf_idx ≡ 0 ∷ 0 ∷ 0 ∷ 0 ∷ 1 ∷ 1 ∷ 1 ∷ [])
unfolding bloom_filter block_sizes indices
covered = (refl, refl)

bloom_filter-covers_example :
    let b = bloom_filter 2 4 50 7 in
    (length b.bf_idx ≡ 7) × (length b.ovl_bf_idx ≡ 7) × (length b.use_ovl_bf ≡ 7)
bloom_filter-covers_example = bloom_filter-covers 2 50 7 (omega arith) (omega arith) (omega arith) 4

abbrev counted : Bloom
counted = record {
  bf_list = (3 ∷ 1 ∷ 0 ∷ 2 ∷ []) ∷ [];
  ol_bf_list = (0 ∷ 0 ∷ 0 ∷ 0 ∷ []) ∷ [];
  bf_idx = 0 ∷ 0 ∷ [];
  ovl_bf_idx = 0 ∷ 0 ∷ [];
  use_ovl_bf = false ∷ false ∷ [];
  blk_idx_vector = 2 ∷ [];
  ovl_blk_idx_vector = 2 ∷ [];
  ovl_start_idx = 1;
}

least : Bloom.replace 4 0 false (4 ∷ 7 ∷ 9 ∷ []) (0 ∷ 1 ∷ 2 ∷ []) counted ≡ some (9, 2)
unfolding Bloom.replace counts Bloom.min_index
least = refl

replace-least_example :
    (target blk way m : ℕ) × (ns : List ℕ) × (Bloom.replace 4 0 false
        (4 ∷ 7 ∷ 9 ∷ [])
        (0 ∷ 1 ∷ 2 ∷ [])
        counted
      ≡ some (target, blk))
    × (get_elem? (4 ∷ 7 ∷ 9 ∷ []) way ≡ some target)
    × (get_elem? (0 ∷ 1 ∷ 2 ∷ []) way ≡ some blk)
    × (counts 4 (3 ∷ 1 ∷ 0 ∷ 2 ∷ []) (4 ∷ 7 ∷ 9 ∷ []) ≡ some ns)
    × (get_elem? ns way ≡ some m)
    × All (λ n. m ≤ n) ns
replace-least_example =
    replace-least 4 0 4 false (7 ∷ 9 ∷ []) (0 ∷ 1 ∷ 2 ∷ []) (3 ∷ 1 ∷ 0 ∷ 2 ∷ []) counted
      (omega arith) refl refl refl

abbrev averaged : Median
averaged = record {
  mvm_tmp = [];
  medians = some 5 ∷ none ∷ [];
  mvm_blk_idx_vector = 4 ∷ 3 ∷ [];
  mvm_cur_idx = 1;
}

replace-farthest_example :
    (target blk way : ℕ) × (Median.replace 0 (4 ∷ 9 ∷ 1 ∷ []) (0 ∷ 1 ∷ 2 ∷ []) averaged
      ≡ some (target, blk))
    × (get_elem? (4 ∷ 9 ∷ 1 ∷ []) way ≡ some target)
    × (get_elem? (0 ∷ 1 ∷ 2 ∷ []) way ≡ some blk)
    × All (λ to. distance 5 to ≤ distance 5 target) (4 ∷ 9 ∷ 1 ∷ [])
replace-farthest_example = replace-farthest 0 5 4 (9 ∷ 1 ∷ []) (0 ∷ 1 ∷ 2 ∷ []) averaged refl refl
