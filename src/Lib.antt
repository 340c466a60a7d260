-- ===== src/Lib.antt =====
-- A model of ssdiq, a simulator of SSD garbage collection (sim/) and an I/O benchmark (iob/), and of
-- what both share (shared/).
--
-- The simulator replays a sequence of page writes on a simulated SSD. An `SSD` (sim/SSD.hpp) holds
-- erase blocks (`SSD::Block`), a mapping from logical pages to physical addresses, and counters. A
-- collector (`GreedyGC` of sim/Greedy.hpp, `TwoR` of sim/TwoR.hpp) owns a current block and a list
-- of free blocks, writes pages through the SSD, and reclaims blocks when none is free. `runBench`
-- of sim/sim.cpp drives a collector with the pages of an access pattern.
--
-- A `RequestGenerator` (iob/RequestGenerator.hpp) prepares requests for the pages of an access pattern,
-- hands them to a channel and counts them when they are completed.
--
-- The benchmark sends requests to devices through channels. A channel takes requests from a
-- `RequestStack` (iob/io/RequestStack.hpp) and spreads them over devices with `Raid0`
-- (iob/io/Raid.hpp). The pages that it writes carry checks (`FileState` of iob/PageState.hpp),
-- which are verified when they are read.
--
-- The pages that both write come from an access pattern (`PatternGen` of shared/PatternGen.hpp): one
-- of several distributions, zones with a frequency each, zones written one after the other as on a ZNS
-- device, or a trace.
--
-- Files:
--   Prelude            tests on numbers, lists with positions, results with faults, 64-bit words
--   Shared/Text        texts as lists of bytes
--   Shared/Pattern     PatternGen: options, zones (Zones), the generators of pages (Access), the
--                      constructor (Setup), the replay of a FIO trace (Trace)
--   Shared/Hist        Hist: increaseSlot, getPercentile, operator+=, resetData
--   Sim/Block          SSD::Block: write, setUnused, compactNoMappingUpdate, erase
--   Sim/Ssd            SSD: the constructor, writePage, writePageWithoutCaching, eraseBlock, compactBlock
--   Sim/Collect        SSD: moveValidPagesTo and compactUntilFreeBlock, on a destination block and on
--                      a list of victims
--   Sim/Greedy         GreedyGC: the constructor, writePage, singleGreedy, singleGreedyLimited, performGC;
--                      the write loops of runBench
--   Sim/TwoR           TwoR: its state and the greedy policy: greedyNormal, greedyCold,
--                      getTotalInvalidPages*, garbageCollectColdRegion, selectVictimBlocksGreedy,
--                      garbageCollect2RGreedy
--   Sim/TwoR/Fifo      TwoR: selectVictimBlocksFIFO, garbageCollect2RFIFO
--   Sim/TwoR/Write     TwoR: the constructor, writePage, performGC
--   Iob/Raid           Raid0::calc of iob/io/Raid.hpp
--   Iob/RequestStack   RequestStack of iob/io/RequestStack.hpp: the free, submit and outstanding requests
--   Iob/PageState      Page and FileState of iob/PageState.hpp: the checks in the pages on a device
--   Iob/Request        IoBaseRequest of iob/io/IoRequest.hpp and iob/io/IoRequest.cpp
--   Iob/Channel        Raid0Channel of iob/io/Raid0Channel.hpp: _push, _submit, _poll; the counters of a
--                      channel (Counters) of iob/io/IoChannel.hpp
--   Iob/Generator      RequestGenerator and JobOptions of iob/RequestGenerator.hpp: preparing requests,
--                      their completion (Complete), the loops of runIo (Run)
--   Shared/Tests, Shared/Pattern/Tests, Sim/Tests, Sim/TwoR/Tests, Iob/Tests,
--   Iob/Generator/Tests, Iob/Channel/Tests
--                      small runs, and the theorems at concrete inputs
--
-- State and operations. A class is a record with a field for each member, named as in the source
-- without the leading underscore; a method that changes the state is a function from the record to
-- a `Result` of the changed record. `ensure` and exceptions are the faults of `Prelude.Errors`; an
-- access by `operator[]` outside a vector, which C++ leaves undefined, is a fault of its own, so
-- that the theorems on runs without a fault also say that no such access happens. Unsigned 64-bit
-- arithmetic wraps (`add64`, `sub64`, `mul64`), and an `int` is given by its 32 bits (`add_slot`,
-- `add_int`). A reference to a block of the SSD is its index, so that two references to one block alias as they do in C++. The static counter of erases that all
-- blocks share is a field of the SSD. The random numbers a collector draws are a stream, and the
-- rounding of the fill ratio and the checksum of xxHash are functions: none of these is under the
-- repository's control.
--
-- Fuel. The loop of `compactUntilFreeBlock(gcBlockId, nextBlock)` and the loops that select victims
-- in `selectVictimBlocksGreedy` and `selectVictimBlocksFIFO` run on fuel, since the source bounds
-- them by nothing; all other loops recur on the rounds that are left. The plain greedy policy does
-- not reach them, so that its results hold for every fuel; for the greedy selection of victims,
-- fuel beyond the number of blocks is enough.
-- The loop of `_submit` runs on fuel; one round more than there are pushed requests is enough.
-- The loops of the constructors over the blocks count with 32 bits: for 2^32 blocks or more they do not
-- end, which the model shows as fuel that has run out.
-- The loop that draws a new zone for ZNS also runs on fuel: it ends with the first zone drawn that is
-- not active.
--
-- Not modelled: the channels of the kernel interfaces and of SPDK, and the trace parsers; the clock of the rate limiter and the statistics of
-- each second in runIo;
-- printing and statistics output; command line parsing; invalidation times, which nothing writes;
-- the variants of compactUntilFreeBlock and moveValidPagesTo over groups, which no collector of the
-- repository calls.
pub mod Prelude
pub mod Shared
pub mod Sim
pub mod Iob
