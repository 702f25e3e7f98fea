-- ===== src/EdgeReader/Fetch.antt =====
-- EdgeReader.cpp, `Request` and `IsEndOperation`, for a block without edges.
use gcnsim_awb.Prelude.{ℕ, zero, suc, ◌+◌, ◌*◌, ◌≤◌, ◌<◌, ◌≡◌, false, arith, ◌∙◌}
use gcnsim_awb.Config.{Config, max_queue_size}
use gcnsim_awb.EdgeReader.{EdgeReader, request, is_end_operation}

-- `n` calls of `Request` in a row.
pub fetches : Config → ℕ → EdgeReader → EdgeReader
fetches c zero s = s
fetches c (suc n) s = fetches c n (request c s)

request-over :
    (c : Config) (s : EdgeReader)
    → s.q_space + c.cache_line_count + c.cache_line_count ≤ max_queue_size
    → s.req_stat.tot_read_cnt ≤ s.req_stat.pre_read_cnt
    → let t = request c s in
      (t.q_space ≡ s.q_space + c.cache_line_count)
      × (t.req_stat.tot_read_cnt < t.req_stat.pre_read_cnt)
      × (t.req_need ≡ s.req_need)
unfolding request
request-over c s space over = ground arith

not_done :
    (s : EdgeReader)
    → s.req_stat.tot_read_cnt < s.req_stat.pre_read_cnt
    → is_end_operation s ≡ false
unfolding is_end_operation
not_done s h = ground arith

-- Once as many lines were asked for as a block takes, as at the start of a block without edges, no
-- further request ends the fetching: while the queue has room, reads are wanted as before, and the
-- reader never counts as done.
pub fetches-over :
    (c : Config) (n : ℕ) (s : EdgeReader)
    → s.q_space + suc n * c.cache_line_count + c.cache_line_count ≤ max_queue_size
    → s.req_stat.tot_read_cnt ≤ s.req_stat.pre_read_cnt
    → ((fetches c (suc n) s).req_need ≡ s.req_need)
      × (is_end_operation (fetches c (suc n) s) ≡ false)
unfolding fetches
fetches-over c zero s space over =
    let (room, more, need) = request-over c s (omega arith) over in
    (need, not_done (request c s) more)
fetches-over c (suc n) s space over =
    let (room, more, need) = request-over c s (omega arith) over in
    let (need', done) = fetches-over c n (request c s) (omega (arith, room)) (omega arith) in
    (need' ∙ need, done)
