-- ===== src/Shared/Pattern/Tests.antt =====
-- Small runs of the parts of shared/, and their theorems at concrete inputs.
use ssdiq.Prelude.{
  ℕ, zero, suc, ◌+◌, ◌^◌, ◌<◌, ◌≤◌, ◌≡◌, refl, ◌⊎◌, inl, inr, false, List, [], ◌∷◌, some, arith, ok,
  err, Result, Fault, In, length, get_or, take,
}
use ssdiq.Shared.Text.{codes, starts_with, contains_text, text_eq, drop_text, split_words}
use ssdiq.Shared.Pattern.{Pattern, Options, AccessZone, PatternGen}
use ssdiq.Shared.Pattern.Counter.{counter, counter-IsLawful}
use ssdiq.Shared.Pattern.Names.{string_to_pattern}
use ssdiq.Shared.Pattern.Zones.{
  new_plain, new_zone, no_words, add_zone, zone_word, zone_words, parse_zone_sizes, sum_rel_sizes,
  sum_freqs, set_counts, init_zone_access_pattern,
}
use ssdiq.Shared.Pattern.Zones.Partition.{total}
use ssdiq.Shared.Pattern.Zones.Initial.{
  shares, HavePages, IsLaidOut, Partitions, init_zone_access_pattern-Partitions,
}
use ssdiq.Shared.Pattern.Access.{among, access_zns, access_pattern_generator}
use ssdiq.Shared.Pattern.Access.Bounds.{Supports, Accesses, access_pattern_generator-Accesses}
use ssdiq.Shared.Pattern.Access.Zns.{IsZns, Proceeds, drawn_at}
use ssdiq.Shared.Pattern.Access.Sequential.{access_zns-Proceeds}
use ssdiq.Shared.Pattern.Setup.{new_pattern_gen}
use ssdiq.Shared.Pattern.Setup.Ready.{IsShuffling}
use ssdiq.Shared.Pattern.Setup.Fresh.{
  IsZoneSetup, pattern_histogram, sum_of, new_pattern_gen-Supports, pattern_histogram-counts,
}
use ssdiq.Shared.Pattern.Setup.Mockdb.{mockdb-out_of_range}
use ssdiq.Shared.Pattern.Trace.{FioTrace, new_fio_trace, drop_numbers, get_pages}
use ssdiq.Shared.Pattern.Trace.Replay.{IsReplay, get_pages-take, new_fio_trace-IsReplay}

counter-IsShuffling : (n : ℕ) → IsShuffling (counter.shuffling n)
counter-IsShuffling n xs = (refl, listed xs)
  where
    listed : (ys : List ℕ) (i : ℕ) → i < length ys → In (get_or ys i 0) ys
    listed [] i h = absurd (omega (arith, h))
    listed (y ∷ ys) zero h = inl refl
    listed (y ∷ ys) (suc i) h = inr (listed ys i (omega (arith, h)))

-- A tenth of the disk takes nine tenths of the accesses.
abbrev two_zones : List (AccessZone ℕ)
two_zones =
    new_zone counter 9 1 Pattern.uniform 0 false
    ∷ new_zone counter 1 9 Pattern.sequential 0 false
    ∷ []

abbrev zone_options : Options ℕ
zone_options = record {
  pattern_string = codes "zones";
  zones_string = codes "s9 f1 uniform s1 f9 sequential";
  logical_pages = 33;
  alpha = 1;
  beta = 1;
  skew_factor = 0;
  writes_in_disk_overwrites = 10;
  total_writes = 330;
  page_size = 4096;
  sector_size = 512;
  zns_active_zones = 2;
  zns_zone_size_str = codes "32K";
  zns_pages_per_zone = 8;
}

zones_parsed : parse_zone_sizes counter (codes "s9 f1 uniform s1 f9 sequential") ≡ ok two_zones
unfolding parse_zone_sizes zone_words zone_word add_zone no_words new_zone new_plain starts_with
    text_eq drop_text split_words
zones_parsed = refl

shares_small : total (shares counter 33 two_zones) < 2 ^ 63
unfolding total set_counts sum_rel_sizes new_zone
shares_small = omega arith

init_zone_access_pattern-Partitions_example :
    ((total (shares counter 33 two_zones) ≤ 33)
      × (made : List (AccessZone ℕ) × ℕ) × (init_zone_access_pattern counter 33 two_zones ≡ ok made)
      × Partitions counter 33 two_zones made
      × HavePages made.0)
    ⊎ ((total (shares counter 33 two_zones) ≤ 33)
        × (placed : List (AccessZone ℕ)) × IsLaidOut counter 33 two_zones placed
        × (¬ HavePages placed)
        × (init_zone_access_pattern counter 33 two_zones ≡ err Fault.invalid_argument))
    ⊎ ((33 < total (shares counter 33 two_zones))
        × (init_zone_access_pattern counter 33 two_zones ≡ err Fault.ensure_failed))
init_zone_access_pattern-Partitions_example =
    init_zone_access_pattern-Partitions counter 33 two_zones (omega arith) (omega arith)
      shares_small

zone_options-IsZoneSetup : IsZoneSetup counter zone_options two_zones
unfolding string_to_pattern contains_text starts_with total set_counts sum_rel_sizes sum_freqs
    new_zone HavePages
zone_options-IsZoneSetup = record {
  named = refl;
  parsed = zones_parsed;
  some_zone = omega arith;
  some_page = omega arith;
  small = omega arith;
  populated = (omega arith, (omega arith, tt));
  fits = omega arith;
  weighted = refl;
}

-- The options that printPatternHistorgram makes of these.
abbrev histogram_options : Options ℕ
histogram_options = record zone_options {
  logical_pages = 100;
  zns_pages_per_zone = 10;
  zns_active_zones = 4;
}

histogram_options-IsZoneSetup : IsZoneSetup counter histogram_options two_zones
unfolding string_to_pattern contains_text starts_with total set_counts sum_rel_sizes sum_freqs
    new_zone HavePages
histogram_options-IsZoneSetup = record {
  named = refl;
  parsed = zones_parsed;
  some_zone = omega arith;
  some_page = omega arith;
  small = omega arith;
  populated = (omega arith, (omega arith, tt));
  fits = omega arith;
  weighted = refl;
}

new_pattern_gen-Supports_example :
    (g : PatternGen ℕ) × (new_pattern_gen counter zone_options ≡ ok g)
    × Supports counter counter-IsLawful g.own.pattern g
    × (g.own.logical_pages ≡ 33)
new_pattern_gen-Supports_example =
    new_pattern_gen-Supports counter counter-IsLawful counter-IsShuffling zone_options two_zones
      zone_options-IsZoneSetup

-- The answer of a replay, which the pattern zones does not ask for.
abbrev no_trace : PatternGen ℕ → ℕ → Result (ℕ × PatternGen ℕ × ℕ)
no_trace g r = err Fault.runtime_error

abbrev made : PatternGen ℕ
made = new_pattern_gen-Supports_example.0

access_pattern_generator-Accesses_example :
    Accesses counter counter-IsLawful made (access_pattern_generator counter no_trace 0 made 5)
access_pattern_generator-Accesses_example =
    access_pattern_generator-Accesses counter counter-IsLawful no_trace 0 made 5
      new_pattern_gen-Supports_example.2

pattern_histogram-counts_example :
    (counts : List ℕ) × (pattern_histogram counter no_trace 0 50 zone_options 5 ≡ ok counts)
    × (length counts ≡ 100)
    × (sum_of counts ≡ 50)
pattern_histogram-counts_example =
    pattern_histogram-counts counter counter-IsLawful counter-IsShuffling no_trace 0 50 zone_options
      5 two_zones histogram_options-IsZoneSetup (omega arith)

abbrev mockdb_options : Options ℕ
mockdb_options = record zone_options { pattern_string = codes "mockdb" }

mockdb_named : string_to_pattern mockdb_options.pattern_string ≡ ok Pattern.db
unfolding string_to_pattern contains_text starts_with
mockdb_named = refl

mockdb-out_of_range_example :
    (g : PatternGen ℕ) × (new_pattern_gen counter mockdb_options ≡ ok g)
    × ((traced : PatternGen ℕ → ℕ → Result (ℕ × PatternGen ℕ × ℕ)) (fuel : ℕ) (r : ℕ)
        → access_pattern_generator counter traced fuel g r ≡ err Fault.out_of_range)
mockdb-out_of_range_example =
    mockdb-out_of_range counter mockdb_options mockdb_named (omega arith) (omega arith)

abbrev place_ids : List ℕ
place_ids = 2 ∷ 1 ∷ []

abbrev place_offsets : List ℕ
place_offsets = 3 ∷ 8 ∷ []

-- Four zones of eight pages: the first place is in zone 2, the second at the end of zone 1.
abbrev zns_gen : PatternGen ℕ
zns_gen = record {
  own = new_plain counter 0 Pattern.zns 33 0 false;
  options = record zone_options { pattern_string = codes "zns" };
  sum_freq = 2;
  access_zones =
      new_zone counter 1 1 Pattern.undefined 0 false
      ∷ new_zone counter 1 1 Pattern.undefined 0 false
      ∷ [];
  zns_zones = 4;
  zns_active_zone_ids = place_ids;
  zns_active_zone_offset = place_offsets;
  trace_accessed_pages = false;
  accessed_pages = [];
}

zns_gen-IsZns : IsZns counter counter-IsLawful zns_gen
unfolding new_plain new_zone sum_freqs
zns_gen-IsZns = record {
  weighted = record { some_zone = omega arith; sum = refl; positive = refl };
  some_page = omega arith;
  some_zone = omega arith;
  word = omega arith;
  covers = omega arith;
  ids = refl;
  offsets = refl;
  within = within;
  apart = apart;
}
  where
    within :
        (i : ℕ)
        → i < 2
        → (get_or place_offsets i 0 ≡ 8)
          ⊎ ((get_or place_offsets i 0 < 8) × (get_or place_ids i 0 < 4))
    within zero h = inr (omega arith, omega arith)
    within (suc zero) h = inl refl
    within (suc (suc i)) h = absurd (omega (arith, h))

    apart :
        (i j : ℕ)
        → i < 2
        → j < 2
        → get_or place_ids i 0 < 4
        → get_or place_ids i 0 ≡ get_or place_ids j 0
        → i ≡ j
    apart zero zero h k used e = refl
    apart zero (suc zero) h k used e = absurd (omega (arith, e))
    apart zero (suc (suc j)) h k used e = absurd (omega (arith, k))
    apart (suc zero) zero h k used e = absurd (omega (arith, e))
    apart (suc zero) (suc zero) h k used e = refl
    apart (suc zero) (suc (suc j)) h k used e = absurd (omega (arith, k))
    apart (suc (suc i)) j h k used e = absurd (omega (arith, h))

-- The place is drawn with 2 and is the second one; the zones drawn then are 3 and on.
access_zns-Proceeds_example :
    Proceeds counter counter-IsLawful zns_gen (access_zns counter 1 zns_gen 2)
access_zns-Proceeds_example =
    access_zns-Proceeds counter counter-IsLawful 1 0 zns_gen 2 zns_gen-IsZns (omega arith) free
  where
    free : among (drawn_at counter counter-IsLawful 4 0 3) place_ids ≡ false
    free = unfold among drawn_at in refl

-- A file of five numbers, read three times.
get_pages-take_example :
    (u : FioTrace) × (get_pages (some (7 ∷ 9 ∷ 7 ∷ 1 ∷ 4 ∷ [])) 3 (new_fio_trace 5)
      ≡ ok (take 3 (drop_numbers (new_fio_trace 5).trace_index (7 ∷ 9 ∷ 7 ∷ 1 ∷ 4 ∷ [])), u))
    × IsReplay (7 ∷ 9 ∷ 7 ∷ 1 ∷ 4 ∷ []) u
    × (u.trace_index ≡ (new_fio_trace 5).trace_index + 3)
get_pages-take_example =
    get_pages-take (7 ∷ 9 ∷ 7 ∷ 1 ∷ 4 ∷ []) 3 (new_fio_trace 5)
      (new_fio_trace-IsReplay (7 ∷ 9 ∷ 7 ∷ 1 ∷ 4 ∷ []) 5 (omega arith) (omega arith)) short
  where
    short : (new_fio_trace 5).trace_index + 3 ≤ (new_fio_trace 5).total_writes
    short = unfold new_fio_trace in omega arith
