-- ===== src/Shared/Pattern.antt =====
-- The access patterns of shared/PatternGen.hpp: class PatternGen, its options and its zones. `D` stands
-- for `double`, `R` for the state of a random number generator.
pub mod Names
pub mod Zones
pub mod Access
pub mod Setup
pub mod Trace
pub mod Counter
mod Tests
use ssdiq.Prelude.{ℕ, ◌≤◌, ◌≡◌, Bool, false, List, Result}

pub data Pattern : Type 0 where
  sequential uniform beta zones zipf fio_zipf traces db zns seq_zones undefined : Pattern

-- The floating point operations and the distributions of the standard library, and the samplers that
-- the class calls. Values of type `double` are compared, added and scaled, and nothing else.
pub record Numerics (D R : Type 0) : Type 0 where
  -- The literals -1, 0 and 1.
  pub none_yet : D
  pub zero_real : D
  pub one : D
  pub plus : D → D → D
  pub less : D → D → Bool
  -- `rel_size / sumRelSizes * pageCount`, and `b * n`, as integers.
  pub share : D → D → ℕ → ℕ
  pub scale : D → ℕ → ℕ
  pub quotient : D → D → D
  -- `std::pow(f, i)` for the f of so many zones.
  pub zone_power : ℕ → ℕ → D
  pub stod : List ℕ → Result D
  pub stoi : List ℕ → Result ℕ
  pub uniform_int : ℕ → ℕ → R → ℕ × R
  pub uniform_real : D → R → D × R
  pub gamma : D → R → D × R
  pub zipf_sample : ℕ → D → R → ℕ × R
  -- `std::shuffle` of the vector of the n-th generator that is made.
  pub shuffling : ℕ → List ℕ → List ℕ

pub record Options (D : Type 0) : Type 0 where
  pub pattern_string : List ℕ
  pub zones_string : List ℕ
  pub logical_pages : ℕ
  pub alpha : D
  pub beta : D
  pub skew_factor : D
  pub writes_in_disk_overwrites : ℕ
  pub total_writes : ℕ
  pub page_size : ℕ
  pub sector_size : ℕ
  pub zns_active_zones : ℕ
  pub zns_zone_size_str : List ℕ
  pub zns_pages_per_zone : ℕ

-- The members that a generator uses when it has no zones: the zones' own generators have no others,
-- since the words of a zone string name the patterns uniform, zipf and sequential only.
pub record Plain (D : Type 0) : Type 0 where
  pub pattern : Pattern
  pub logical_pages : ℕ
  pub skew_factor : D
  pub shuffle : Bool
  pub shuffle_vector : List ℕ
  pub seq : ℕ

pub record AccessZone (D : Type 0) : Type 0 where
  pub offset : ℕ
  pub count : ℕ
  pub rel_size : D
  pub freq : D
  pub pattern : Pattern
  pub skew_factor : D
  pub shuffle : Bool
  pub sub_gen : Plain D

-- `zns_active_zone_ids` holds `int64_t` entries that are only compared with and multiplied to `uint64_t`
-- values: they are kept as those, -1 as 2^64 - 1.
pub record PatternGen (D : Type 0) : Type 0 where
  pub own : Plain D
  pub options : Options D
  pub sum_freq : D
  pub access_zones : List (AccessZone D)
  pub zns_zones : ℕ
  pub zns_active_zone_ids : List ℕ
  pub zns_active_zone_offset : List ℕ
  pub trace_accessed_pages : Bool
  pub accessed_pages : List ℕ
