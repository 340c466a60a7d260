-- ===== src/Shared/Pattern/Names.antt =====
-- How PatternGen of shared/PatternGen.hpp reads the name of a pattern and the options.
use ssdiq.Prelude.{
  ℕ, ◌/◌, ◌==◌, Bool, true, false, not, List, Result, ok, err, Fault, if◌then◌else◌, mul64,
}
use ssdiq.Shared.Text.{codes, contains_text}
use ssdiq.Shared.Pattern.{Pattern, Options, Numerics}

unfoldable pub string_to_pattern : List ℕ → Result Pattern
string_to_pattern s =
    if contains_text s (codes "sequential")
    then ok Pattern.sequential
    else if contains_text s (codes "uniform")
    then ok Pattern.uniform
    else if contains_text s (codes "beta")
    then ok Pattern.beta
    else if contains_text s (codes "seqzones")
    then ok Pattern.seq_zones
    else if contains_text s (codes "zones")
    then ok Pattern.zones
    else if contains_text s (codes "fiozipf")
    then ok Pattern.fio_zipf
    else if contains_text s (codes "zipf")
    then ok Pattern.zipf
    else if contains_text s (codes "trace")
    then ok Pattern.traces
    else if contains_text s (codes "mockdb")
    then ok Pattern.db
    else if contains_text s (codes "zns")
    then ok Pattern.zns
    else err Fault.ensure_failed

-- The constructor's rule: shuffled unless `-noshuffle` is given, or, for these patterns, only if
-- `-shuffle` is.
abbrev pub shuffles_on_demand : Pattern → Bool
shuffles_on_demand Pattern.sequential = true
shuffles_on_demand Pattern.seq_zones = true
shuffles_on_demand Pattern.zns = true
shuffles_on_demand Pattern.uniform = true
shuffles_on_demand _ = false

unfoldable pub shuffle_rule : Pattern → List ℕ → Bool
shuffle_rule pattern s =
    if shuffles_on_demand pattern
    then contains_text s (codes "-shuffle")
    else not (contains_text s (codes "-noshuffle"))

-- The number of bytes of the zone size comes from `getBytesFromString`.
unfoldable pub cli_options_parsed :
    {D R : Type 0} → Numerics D R → (List ℕ → ℕ) → ℕ → ℕ → Options D → Result (Options D)
cli_options_parsed num get_bytes logical_pages page_size o =
    if page_size == 0
    then err Fault.undefined_access
    else ok (record o {
      logical_pages = logical_pages;
      page_size = page_size;
      zns_pages_per_zone = get_bytes o.zns_zone_size_str / page_size;
      total_writes = mul64 o.writes_in_disk_overwrites logical_pages;
      zones_string =
          if contains_text o.pattern_string (codes "zones") then o.zones_string else codes "";
      skew_factor =
          if contains_text o.pattern_string (codes "zipf") then o.skew_factor else num.zero_real;
    })
