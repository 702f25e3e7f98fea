-- ===== src/Lib.antt =====
-- GCNSim_AWB, a cycle simulator of an accelerator for graph convolution. A graph in CSR form is read
-- from a file, in blocks of `max_v` rows. Readers ask a DRAM for the row pointers and the column
-- indices, line by line; what comes back is handed out, block by block, `w_fold` times each; and the
-- cache of the global buffer replaces its lines by one of several policies.
--
-- Parts, and the files of the repository that they model:
--   Config                     the settings and sizes in global variables (IniParser.cpp, Common.h)
--   IniParser, .Lines, .Names  IniParser.cpp: `ReadIni`, `ParseIni` and the readers of single settings
--   Text, .Search, .Digits     what IniParser.cpp uses of the standard library: `find`, `stoull`, `stoi`
--   Distributer                Distributer.cpp: `Distribute`, `ReturnID`
--     .Rejoin, .Addresses
--   Simulator                  RunSimulator.cpp: the loop of `main`, for one unit
--     .Setup, .Serving, .Delivery, .Safety, .Progress
--   DataReader, .Blocks        DataReader.cpp: `GetUint64Val` and `ReadData`, and the block counts
--   DataController             DataController.cpp: `AdjRowDataReturn`, `AdjColDataReturn`
--     .Delivery, .Load         sequences of reads; the loader and the controller together
--   Dram                       DRAMInterface.cpp: the transaction queue, the callbacks, `GetReadData`
--     .Issue, .Reads, .Steps, .Progress
--                              `AddTransaction`; completed reads; sequences of calls
--   VertexReader               VertexReader.cpp: `TransferData`, `ReceiveData`, `Request`
--     .Passes, .Replay, .Blocks, .Fetch
--   EdgeReader                 EdgeReader.cpp: `OuterProduct`, `ReceiveData`, `Write`, `Request`
--     .Consume, .Rows, .Write, .Fetch, .Waiting, .Transfer
--   BasisEdgeReader            BasisEdgeReader.cpp: `TransferData`, `ReceiveData`, `Request`
--     .Sending, .Row
--   XwReader, .Queues          XWReader.cpp: the edges between the edge reader and the buffer
--   Cache.Fifo, .Lru, .Rrip, .Ship, .Bloom, .Median
--                              CacheReplacement.cpp: the classes of these names
--   Cache.Dispatch             the branches on `CACHE_REPL_ALGO` in GlobalBuffer.cpp
--   GlobalBuffer               GlobalBuffer.cpp: the cache, the waiting edges, the outstanding reads
--     .Requests, .Steps, .Placing
--     .Weights, .Weights.Fill  `FillWeight`, and the feature value on its way
--   Accelerator, .Mac, .Lines, .Flow, .Finish
--                              Accelerator.cpp: the edges in work, and the writes of finished rows
--   Vtmake, .Rows, .Tiles      CSR_converter/vtmake.cpp: the division of the columns into tiles
--   RowLoop, .Edges, .Slots, .Owner
--                              CSR_converter: the loops over a graph's edges that the tools share
--   Recursive, .Cover, .Leaves, .Distribute, .Parts, .Tiling, .Total
--                              CSR_converter/recursive_tiling_maker.cpp: the tree of areas, its leaves,
--                              and the edges' way to them
--     .Reschedule, .UniDirected
--                              its variants recursive_tiling_maker_reschedule.cpp, _uni_directed.cpp
--   VtDynamic, .Sent, .Two, .Out
--                              CSR_converter/vtmake_dynamic_vt_0.cpp, _0_3, _1, _2 and _3
--   Tests                      runs on a graph of three rows, and the theorems at concrete inputs
--
-- A component's global variables and members are one record, and each method is a function of the same
-- name in lower case that returns the state after it. What the program may do out of bounds (the front
-- of an empty queue, an index outside a vector) is `none`. `uint64_t` wraps at 2^64, an `int` is its
-- pattern below 2^32. `ceil((double)n / d)` is the integer quotient, which it equals below 2^52;
-- `ceil((float)n / d)` is computed with the rounding of `float` (Prelude.Floats), which the integer
-- quotient equals below 2^24. A remainder by a setting that may be 0 (`max_v` on reading the graph,
-- the length of a Bloom filter) is `none` for 0.
-- The loader hands its queues to the distributer, which gives each unit its part; a unit's controller
-- and readers take theirs, and the readers take the counts. In each turn of the main loop the addresses
-- of completed reads go to the controller, its chunks to the readers, a row pointer from the vertex reader
-- to the edge reader, and the readers' requests to the transaction queue, of which `Dram` is the
-- state. The global buffer calls a policy for each hit, fill and replacement; the main loop has its calls
-- of the buffer in a comment.
--
-- Loops with fuel: `AddTransaction` runs once for each transaction and once for each memory between two
-- of them, and one more time; the search of RRIP and SHiP runs at most four times, as values of two
-- bits reach 3 within three rounds; `getLeaves` runs once for each level of the tree. The loop of
-- `FillWeight` that waits for the memories takes its number of rounds, and `Simulator.run` the number of
-- turns: neither has a bound of its own.
--
-- Not modelled: DRAMsim3, a copy of another project, which is the parameter `MemorySystem`; the files,
-- options and printed statistics, which are I/O; several units, which no settings file has; and of
-- CSR_converter the random numbers of xwgen.cpp, and csr_translator.cpp, which stores each column index
-- at a place that has no value.
pub mod Prelude
pub mod Config
pub mod DataReader
pub mod DataController
pub mod Dram
pub mod VertexReader
pub mod BasisEdgeReader
pub mod Vtmake
pub mod RowLoop
pub mod Recursive
pub mod VtDynamic
pub mod XwReader
pub mod EdgeReader
pub mod Accelerator
pub mod Cache
pub mod GlobalBuffer
pub mod Text
pub mod IniParser
pub mod Distributer
pub mod Simulator
pub mod Tests
