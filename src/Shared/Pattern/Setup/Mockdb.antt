-- ===== src/Shared/Pattern/Setup/Mockdb.antt =====
-- The pattern mockdb of shared/PatternGen.hpp, for which init sets up no zones.
use ssdiq.Prelude.{ℕ, ◌<◌, ◌^◌, false, ◌≡◌, refl, [], ok, err, Result, Fault}
use ssdiq.Shared.Pattern.{Pattern, Numerics, Options, PatternGen}
use ssdiq.Shared.Pattern.Names.{string_to_pattern, shuffle_rule}
use ssdiq.Shared.Pattern.Zones.{new_plain}
use ssdiq.Shared.Pattern.Zones.Initial.{zipf_elements-ok}
use ssdiq.Shared.Pattern.Access.{
  pick_from, pick_zone, access_db_generator, choose_page, access_pattern_generator,
}
use ssdiq.Shared.Pattern.Setup.{init, new_pattern_gen}

module _ {D R : Type 0} (num : Numerics D R) where
  -- For at least one page and fewer than 2^63, a name that is read as mockdb makes a generator without
  -- zones, and every access to it throws std::out_of_range.
  pub mockdb-out_of_range :
      (o : Options D)
      → string_to_pattern o.pattern_string ≡ ok Pattern.db
      → 0 < o.logical_pages
      → o.logical_pages < 2 ^ 63
      → (g : PatternGen D) × (new_pattern_gen num o ≡ ok g)
        × ((traced : PatternGen D → R → Result (ℕ × PatternGen D × R)) (fuel : ℕ) (r : R)
            → access_pattern_generator num traced fuel g r ≡ err Fault.out_of_range)
  unfolding new_pattern_gen init new_plain access_pattern_generator choose_page access_db_generator
      pick_zone pick_from
  mockdb-out_of_range o named some small = (
    record {
      own =
          new_plain num 0 Pattern.db o.logical_pages o.skew_factor
            (shuffle_rule Pattern.db o.pattern_string);
      options = o;
      sum_freq = num.zero_real;
      access_zones = [];
      zns_zones = 0;
      zns_active_zone_ids = [];
      zns_active_zone_offset = [];
      trace_accessed_pages = false;
      accessed_pages = [];
    },
    rw (named, zipf_elements-ok o.logical_pages some small) refl,
    λ traced fuel r. refl,
  )
