-- ===== src/Cache.antt =====
-- CacheReplacement.cpp: the replacement policies of the cache in the global buffer. Each policy keeps
-- its tables in global vectors, here the policy's state. A cached column is an `int`, kept as its
-- pattern. A read outside a vector is `none`.
pub mod Fifo
pub mod Lru
pub mod Rrip
pub mod Ship
pub mod Bloom
pub mod Median
pub mod Dispatch
