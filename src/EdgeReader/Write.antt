-- ===== src/EdgeReader/Write.antt =====
-- EdgeReader.cpp, `Write`: the requests that write out a finished pass.
use mathlib.Core.List.{append_assoc}
use gcnsim_awb.Prelude.{
  ℕ, zero, suc, ◌<◌, ◌^◌, ◌≡◌, refl, true, false, [], ◌∷◌, ◌++◌, replicate, arith, ◌∙◌, ap,
}
use gcnsim_awb.Prelude.Words.{ceil_div}
use gcnsim_awb.Config.{Config}
use gcnsim_awb.EdgeReader.{EdgeReader, write, write_of}

-- `n` calls of `Write` in a row.
pub writes : Config → ℕ → EdgeReader → EdgeReader
writes c zero s = s
writes c (suc n) s = writes c n (write c s)

write-more :
    (c : Config) (n : ℕ) (s : EdgeReader)
    → s.do_write ≡ true
    → s.write_count ≡ suc (suc n)
    → suc (suc n) < 2 ^ 32
    → write c s
      ≡ record s { requests = s.requests ++ write_of s.write_address ∷ []; write_count = suc n }
unfolding write
write-more c n s on count small = ground arith

write-last :
    (c : Config) (s : EdgeReader)
    → s.do_write ≡ true
    → s.write_count ≡ 1
    → write c s ≡ record s {
      requests = s.requests ++ write_of s.write_address ∷ [];
      write_count = ceil_div c.a_h c.cache_line_count;
      do_write = false;
    }
unfolding write
write-last c s on count = ground arith

-- With `n` lines left to write, at least one and fewer than 2^32, `n` calls ask for one write each, always at `write_address`, and
-- then the reader has stopped writing, with the counter set for the next pass.
pub writes_lem :
    (c : Config) (n : ℕ) (s : EdgeReader)
    → s.do_write ≡ true
    → s.write_count ≡ suc n
    → suc n < 2 ^ 32
    → writes c (suc n) s ≡ record s {
      requests = s.requests ++ replicate (suc n) (write_of s.write_address);
      write_count = ceil_div c.a_h c.cache_line_count;
      do_write = false;
    }
unfolding writes
writes_lem c zero s on count small = write-last c s on count
writes_lem c (suc n) s on count small =
    ap (writes c (suc n)) (write-more c n s on count small)
    ∙ writes_lem c n _ on refl (omega arith)
    ∙ ap
        (λ l. record s {
          requests = l;
          write_count = ceil_div c.a_h c.cache_line_count;
          do_write = false;
        })
        (append_assoc s.requests (write_of s.write_address ∷ [])
          (replicate (suc n) (write_of s.write_address)))
