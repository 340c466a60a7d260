-- ===== src/Shared/Pattern/Setup.antt =====
-- The constructor of PatternGen of shared/PatternGen.hpp on options, with init and
-- parseAndInitZNSAccessPattern.
pub mod Ready
pub mod Fresh
pub mod Mockdb
use ssdiq.Prelude.{
  ℕ, zero, suc, ◌-◌, ◌/◌, ◌^◌, ◌==◌, true, false, List, [], ◌∷◌, Result, ok, err, Fault, ◌>>=◌,
  ◌>>◌, ensure, if◌then◌else◌, replicate, ltb,
}
use ssdiq.Shared.Pattern.{Pattern, Numerics, Options, AccessZone, PatternGen}
use ssdiq.Shared.Pattern.Names.{string_to_pattern, shuffle_rule}
use ssdiq.Shared.Pattern.Zones.{
  zipf_elements, new_plain, new_zone, parse_and_init_zones, parse_and_init_seq_zones,
  init_zone_access_pattern,
}

module _ {D R : Type 0} (num : Numerics D R) where
  unfoldable pub zns_zone_loop : ℕ → List (AccessZone D)
  zns_zone_loop zero = []
  zns_zone_loop (suc rounds) =
      new_zone num num.one num.one Pattern.undefined num.none_yet false ∷ zns_zone_loop rounds

  unfoldable pub parse_and_init_zns : PatternGen D → Result (PatternGen D)
  parse_and_init_zns g =
      let o = g.options in
      let go_on = (do
        let zns_zones = o.logical_pages / o.zns_pages_per_zone
        ensure (ltb o.zns_active_zones zns_zones)
        zoned ← init_zone_access_pattern num o.logical_pages (zns_zone_loop o.zns_active_zones)
        ok (record g {
          zns_zones = zns_zones;
          access_zones = zoned.0;
          sum_freq = zoned.1;
          zns_active_zone_ids = replicate o.zns_active_zones (2 ^ 64 - 1);
          zns_active_zone_offset = replicate o.zns_active_zones o.zns_pages_per_zone;
        })) in
      if ltb o.zns_pages_per_zone o.logical_pages
      then (if o.zns_pages_per_zone == 0 then err Fault.undefined_access else go_on)
      else err Fault.ensure_failed

  unfoldable pub with_zones :
      PatternGen D → Result (List (AccessZone D) × D) → Result (PatternGen D)
  with_zones g made = do zoned ← made; ok (record g { access_zones = zoned.0; sum_freq = zoned.1 })

  -- `init`, after the shuffle vector of the generator, which it fills last. The two patterns that
  -- replay a trace only load it.
  unfoldable pub init : PatternGen D → Result (PatternGen D)
  init g = elim g.own.pattern [
    | Pattern.zones ↦
        with_zones g (parse_and_init_zones num g.options.zones_string g.options.logical_pages)
    | Pattern.seq_zones ↦
        with_zones g (parse_and_init_seq_zones num g.options.zones_string g.options.logical_pages)
    | Pattern.zns ↦ parse_and_init_zns g
    | _ ↦ ok g
  ]

  -- The constructor on options.
  unfoldable pub new_pattern_gen : Options D → Result (PatternGen D)
  new_pattern_gen o = do
    pattern ← string_to_pattern o.pattern_string
    zipf_elements o.logical_pages
    let shuffle = shuffle_rule pattern o.pattern_string
    init (record {
      own = new_plain num 0 pattern o.logical_pages o.skew_factor shuffle;
      options = o;
      sum_freq = num.zero_real;
      access_zones = [];
      zns_zones = 0;
      zns_active_zone_ids = [];
      zns_active_zone_offset = [];
      trace_accessed_pages = false;
      accessed_pages = [];
    })
