-- ===== src/VertexReader/Fetch.antt =====
-- VertexReader.cpp, `Request`: the requests for the lines of a block.
use mathlib.Core.List.{append-nil, append_assoc}
use gcnsim_awb.Prelude.{
  ℕ, zero, suc, ◌+◌, ◌*◌, ◌≤◌, ◌<◌, ◌^◌, ◌≡◌, ltb, List, [], ◌∷◌, ◌++◌, arith, sym, ◌∙◌, ap, ap₂,
}
use gcnsim_awb.Config.{Config, max_queue_size}
use gcnsim_awb.Dram.{Transaction}
use gcnsim_awb.VertexReader.{VertexReader, request, read_of}

-- `n` calls of `Request` in a row.
pub fetches : Config → ℕ → VertexReader → VertexReader
fetches c zero s = s
fetches c (suc n) s = fetches c n (request c s)

-- The reads of `n` lines from an address on.
abbrev pub lines : ℕ → ℕ → ℕ → List Transaction
lines byte a zero = []
lines byte a (suc n) = read_of a ∷ lines byte (a + byte) n

request_lem :
    (c : Config) (s : VertexReader)
    → s.q_space + c.cache_line_count + c.cache_line_count ≤ max_queue_size
    → s.req_address + c.cache_line_byte < 2 ^ 64
    → s.req_need ≡ ltb s.req_stat.pre_read_cnt s.req_stat.tot_read_cnt
    → s.req_stat.pre_read_cnt < s.req_stat.tot_read_cnt
    → let t = request c s in
      (t.requests ≡ s.requests ++ read_of s.req_address ∷ [])
      × (t.req_address ≡ s.req_address + c.cache_line_byte)
      × (t.q_space ≡ s.q_space + c.cache_line_count)
      × (t.req_stat.pre_read_cnt ≡ s.req_stat.pre_read_cnt + 1)
      × (t.req_stat.tot_read_cnt ≡ s.req_stat.tot_read_cnt)
      × (t.req_need ≡ ltb t.req_stat.pre_read_cnt t.req_stat.tot_read_cnt)
unfolding request
request_lem c s space wrap need left = ground arith

-- As long as the queue has room for one more line and addresses do not wrap, `n` requests that are
-- still due ask for the next `n` lines, one after the other. Another one is wanted after them exactly
-- if fewer than the block's lines were asked for.
pub fetches_lem :
    (c : Config) (n : ℕ) (s : VertexReader)
    → s.q_space + n * c.cache_line_count + c.cache_line_count ≤ max_queue_size
    → s.req_address + n * c.cache_line_byte < 2 ^ 64
    → s.req_need ≡ ltb s.req_stat.pre_read_cnt s.req_stat.tot_read_cnt
    → s.req_stat.pre_read_cnt + n ≤ s.req_stat.tot_read_cnt
    → let t = fetches c n s in
      (t.requests ≡ s.requests ++ lines c.cache_line_byte s.req_address n)
      × (t.req_stat.pre_read_cnt ≡ s.req_stat.pre_read_cnt + n)
      × (t.req_need ≡ ltb (s.req_stat.pre_read_cnt + n) s.req_stat.tot_read_cnt)
unfolding fetches
fetches_lem c zero s space wrap need left = (
  sym (append-nil s.requests),
  omega arith,
  need ∙ ap (λ k. ltb k s.req_stat.tot_read_cnt) (omega arith),
)
fetches_lem c (suc n) s space wrap need left =
    let t = request c s in
    let (asked, addr, room, pre, tot, want) =
      request_lem c s (omega arith) (omega arith) need (omega arith) in
    let (asked', pre', want') =
      fetches_lem c n t (omega (arith, room)) (omega (arith, addr)) want
        (omega (arith, pre, tot)) in
    (
      asked'
          ∙ ap₂ (λ l a. l ++ lines c.cache_line_byte a n) asked addr
          ∙ append_assoc s.requests (read_of s.req_address ∷ [])
              (lines c.cache_line_byte (s.req_address + c.cache_line_byte) n),
      omega (arith, pre, pre'),
      want' ∙ ap₂ ltb (omega (arith, pre)) tot,
    )
