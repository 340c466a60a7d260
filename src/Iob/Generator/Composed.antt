-- ===== src/Iob/Generator/Composed.antt =====
-- The inner loop of runIo of iob/RequestGenerator.hpp with the pattern of shared/PatternGen.hpp and the
-- channel of iob/io/Raid0Channel.hpp that it runs with.
use ssdiq.Iob.Generator.{Generator}
