-- ===== src/DataReader/Blocks.antt =====
-- DataReader.cpp, lines 52 to 78: the counts of vertices and edges of each block.
use mathlib.Core.List.{append-nil, append_assoc}
use mathlib.Core.Path.{subst}
use gcnsim_awb.Prelude.{
  ℕ, ◌+◌, ◌*◌, ◌%◌, ◌==◌, ◌&&◌, ◌||◌, >>=-eq-some, ◌^◌, ◌≤◌, ◌<◌, ◌≡◌, refl, sym, Bool, true, false,
  List, [], ◌∷◌, ◌++◌, some, length, sum, All, All-append, arith, sum-append, Bool-cases, inl, inr,
}
use gcnsim_awb.Prelude.Words.{sub64, ceil_div}
use gcnsim_awb.Config.{Config}
use gcnsim_awb.DataReader.{
  Parsing, is_block_end, push_token, parse_token, parse_tokens, parse_start, get_uint64_val,
  GraphData, read_data,
}

-- Row pointers never fall, and are 64-bit numbers.
abbrev pub IsMonotone : ℕ → List ℕ → Type 0
IsMonotone lo [] = Unit
IsMonotone lo (t ∷ ts) = (lo ≤ t) × (t < 2 ^ 64) × IsMonotone t ts

abbrev pub last : ℕ → List ℕ → ℕ
last t [] = t
last t (u ∷ ts) = last u ts

-- A line as it is kept: its first number is read by `stof`.
abbrev pub stored : (ℕ → ℕ) → List ℕ → List ℕ
stored via_float [] = []
stored via_float (x ∷ xs) = via_float x ∷ xs

-- The end of a block, for a `max_v` that is not 0.
abbrev ends : Config → Bool → ℕ → Bool
ends c is_vertex n = is_vertex && ((n % c.max_v == 0) || (n == c.a_h))

-- The loop and its rounds, where nothing is divided by 0.
unfoldable token : Config → Bool → Parsing → ℕ → Parsing
token c b s t = push_token (ends c b (s.parse_count + 1)) s t

unfoldable tokens : Config → Bool → Parsing → List ℕ → Parsing
tokens c b s [] = s
tokens c b s (t ∷ ts) = tokens c b (token c b s t) ts

module _ (c : Config) where
  parse_token-rows :
      (s : Parsing) (t : ℕ) → 0 < c.max_v → parse_token c true s t ≡ some (token c true s t)
  unfolding parse_token is_block_end token
  parse_token-rows s t pos = ground arith

  parse_tokens-rows :
      (ts : List ℕ) (s : Parsing)
      → 0 < c.max_v
      → parse_tokens c true s ts ≡ some (tokens c true s ts)
  unfolding parse_tokens tokens
  parse_tokens-rows [] s pos = refl
  parse_tokens-rows (t ∷ ts) s pos =
      rw (parse_token-rows s t pos) (parse_tokens-rows ts (token c true s t) pos)

  parse_tokens-cols :
      (ts : List ℕ) (s : Parsing) → parse_tokens c false s ts ≡ some (tokens c false s ts)
  unfolding parse_tokens parse_token is_block_end tokens token
  parse_tokens-cols [] s = refl
  parse_tokens-cols (t ∷ ts) s = parse_tokens-cols ts (token c false s t)

  -- A second row pointer divides by `max_v`.
  parse_tokens-max_v :
      (t : ℕ) (ts : List ℕ) (s s' : Parsing)
      → parse_tokens c true s (t ∷ ts) ≡ some s'
      → 0 < c.max_v
  unfolding parse_tokens parse_token is_block_end
  parse_tokens-max_v t ts s s' e = ground arith

module _ (c : Config) where
  -- What one round does to the sums; `p` is the number before `t`.
  step_sums :
      (s : Parsing) (t : ℕ)
      → s.start_v ≤ t
      → t < 2 ^ 64
      → let s' = token c true s t in
        (sum s'.vertex_req_count + s'.v_count ≡ sum s.vertex_req_count + s.v_count + 1)
        × (sum s'.edge_req_count + s.start_v ≡ sum s.edge_req_count + s'.start_v)
        × (s'.start_v ≤ t)
        × (s'.parse_count ≡ s.parse_count + 1)
  unfolding token push_token
  step_sums s t lo hi = ground (
    arith,
    sum-append s.vertex_req_count ((s.v_count + 1) ∷ []),
    sum-append s.edge_req_count (sub64 t s.start_v ∷ []),
  )

  -- The round that reads the last row pointer closes its block.
  step_last :
      (s : Parsing) (t : ℕ)
      → s.parse_count + 1 ≡ c.a_h
      → let s' = token c true s t in (s'.v_count ≡ 0) × (s'.start_v ≡ t)
  unfolding token push_token
  step_last s t e = ground arith

  sums :
      (t : ℕ) (ts : List ℕ) (s : Parsing) (p : ℕ)
      → s.start_v ≤ p
      → IsMonotone p (t ∷ ts)
      → s.parse_count + length (t ∷ ts) ≡ c.a_h
      → let s' = tokens c true s (t ∷ ts) in
        (sum s'.vertex_req_count ≡ sum s.vertex_req_count + s.v_count + length (t ∷ ts))
        × (sum s'.edge_req_count + s.start_v ≡ sum s.edge_req_count + last t ts)
  unfolding tokens
  sums t [] s p lo m e =
      omega (arith, step_sums s t (omega arith) (m.1), step_last s t (omega arith))
  sums t (u ∷ ts) s p lo m e =
      let first = step_sums s t (omega arith) (m.1) in
      omega (arith, sums u ts (token c true s t) t (first.2) m.2 (omega arith))

  internal-token :
      (b : Bool) (s : Parsing) (t : ℕ) → (token c b s t).internal ≡ s.internal ++ t ∷ []
  unfolding token push_token
  internal-token b s t = ground arith

  positive-token :
      (s : Parsing) (t : ℕ)
      → All (λ k. 0 < k) s.vertex_req_count
      → All (λ k. 0 < k) (token c true s t).vertex_req_count
  unfolding token push_token
  positive-token s t h = elim (Bool-cases (ends c true (s.parse_count + 1))) [
    | inl e ↦
        rw e (All-append (λ k. 0 < k) s.vertex_req_count ((s.v_count + 1) ∷ []) h (omega arith, tt))
    | inr e ↦ rw e h
  ]

  internal-tokens :
      (b : Bool) (ts : List ℕ) (s : Parsing) → (tokens c b s ts).internal ≡ s.internal ++ ts
  unfolding tokens
  internal-tokens b [] s = rw append-nil
  internal-tokens b (t ∷ ts) s =
      rw (internal-tokens b ts (token c b s t), internal-token b s t, append_assoc)

  -- Off the row pointers the parser counts nothing.
  counts-tokens :
      (ts : List ℕ) (s : Parsing)
      → let s' = tokens c false s ts in
        (s'.edge_req_count ≡ s.edge_req_count) × (s'.vertex_req_count ≡ s.vertex_req_count)
  unfolding tokens token push_token
  counts-tokens [] s = (refl, refl)
  counts-tokens (t ∷ ts) s = counts-tokens ts (token c false s t)

  positive-tokens :
      (ts : List ℕ) (s : Parsing)
      → All (λ k. 0 < k) s.vertex_req_count
      → All (λ k. 0 < k) (tokens c true s ts).vertex_req_count
  unfolding tokens
  positive-tokens [] s h = h
  positive-tokens (t ∷ ts) s h = positive-tokens ts (token c true s t) (positive-token s t h)

-- The two lines are stored as they are but for the first number of each. The blocks' counts of
-- vertices are positive and add up to the row pointers, the counts of edges to the last row pointer,
-- and the copies that `DataController` uses are the same.
pub record IsParsed (via_float : ℕ → ℕ) (rows cols : List ℕ) (edges : ℕ) (g : GraphData)
    : Type 0 where
  pub row_line : g.adjrowindex ≡ stored via_float rows
  pub col_line : g.adjcolindex ≡ stored via_float cols
  pub positive : All (λ k. 0 < k) g.vertex_req_count
  pub vertices : sum g.vertex_req_count ≡ length g.adjrowindex
  pub edge_sum : sum g.edge_req_count ≡ edges
  pub vertex_copy : g.vertex_req_count_cnt ≡ g.vertex_req_count
  pub edge_copy : g.edge_req_count_cnt ≡ g.edge_req_count

-- The data of two parsed lines.
abbrev graph_of : Config → Parsing → Parsing → GraphData
graph_of c r e = record {
  adjrowindex = r.internal;
  adjcolindex = e.internal;
  edge_req_count = e.edge_req_count;
  edge_req_count_cnt = r.edge_req_count;
  vertex_req_count = e.vertex_req_count;
  vertex_req_count_cnt = r.vertex_req_count;
  tot_axw_count = ceil_div c.a_h c.cache_line_count * c.w_w * length e.edge_req_count;
}

module _ (c : Config) where
  -- For a positive `max_v` and 64-bit row pointers that never fall, one for each of the `a_h` rows after
  -- the first number, the parser returns data, and it is as `IsParsed` says: the lines are stored, the counts of vertices
  -- are positive and add up to the row pointers, and the counts of edges to the last row pointer.
  pub read_data-IsParsed :
      (via_float : ℕ → ℕ) (row t : ℕ) (ts : List ℕ) (col : ℕ) (cols : List ℕ)
      → 0 < c.max_v
      → IsMonotone 0 (t ∷ ts)
      → length (t ∷ ts) ≡ c.a_h
      → (g : GraphData) × (read_data via_float c (row ∷ t ∷ ts) (col ∷ cols) ≡ some g)
        × IsParsed via_float (row ∷ t ∷ ts) (col ∷ cols) (last t ts) g
  unfolding read_data get_uint64_val
  read_data-IsParsed via_float row t ts col cols pos m e = (
    graph_of c rows (tokens c false start_e cols),
    rw (parse_tokens-rows c (t ∷ ts) start pos, parse_tokens-cols c cols start_e) refl,
    record {
      row_line = internal-tokens c true (t ∷ ts) start;
      col_line = internal-tokens c false cols start_e;
      positive = rw (same.1) (positive-tokens c (t ∷ ts) start tt);
      vertices = rw (same.1, internal-tokens c true (t ∷ ts) start) (omega (arith, total));
      edge_sum = rw (same.0) (omega (arith, total));
      vertex_copy = sym same.1;
      edge_copy = sym same.0;
    },
  )
    where
      start : Parsing
      start = parse_start via_float row [] []

      rows : Parsing
      rows = tokens c true start (t ∷ ts)

      start_e : Parsing
      start_e = parse_start via_float col rows.edge_req_count rows.vertex_req_count

      same :
          let s' = tokens c false start_e cols in
          (s'.edge_req_count ≡ rows.edge_req_count) × (s'.vertex_req_count ≡ rows.vertex_req_count)
      same = counts-tokens c cols start_e

      total :
          (sum rows.vertex_req_count ≡ 0 + 1 + length (t ∷ ts))
          × (sum rows.edge_req_count + 0 ≡ 0 + last t ts)
      total = sums c t ts start 0 (omega arith) m (omega arith)

  -- Data that was parsed: `max_v` was not 0.
  pub read_data_sound :
      (via_float : ℕ → ℕ) (row t : ℕ) (ts : List ℕ) (col : ℕ) (cols : List ℕ) {g : GraphData}
      → IsMonotone 0 (t ∷ ts)
      → length (t ∷ ts) ≡ c.a_h
      → read_data via_float c (row ∷ t ∷ ts) (col ∷ cols) ≡ some g
      → IsParsed via_float (row ∷ t ∷ ts) (col ∷ cols) (last t ts) g
  unfolding read_data get_uint64_val
  read_data_sound via_float row t ts col cols {g} m e parse =
      let (r, first, _) =
        >>=-eq-some (parse_tokens c true (parse_start via_float row [] []) (t ∷ ts)) _ parse in
      let pos = parse_tokens-max_v c t ts (parse_start via_float row [] []) r first in
      let (g', parsed, facts) = read_data-IsParsed via_float row t ts col cols pos m e in
      subst (IsParsed via_float (row ∷ t ∷ ts) (col ∷ cols) (last t ts)) (cc (parsed, parse)) facts
