-- ===== src/Shared/Pattern/Zones.antt =====
-- How PatternGen of shared/PatternGen.hpp sets up its zones: parseZoneSizes, initZoneAccessPattern and
-- the second constructor, which makes the zones' own generators.
pub mod Partition
pub mod Initial
pub mod Parsed
use ssdiq.Prelude.{
  ℕ, zero, suc, ◌+◌, ◌-◌, ◌%◌, ◌^◌, ◌==◌, ◌&&◌, Bool, true, false, not, List, [], ◌∷◌, ◌++◌, Result,
  ok, err, Fault, ◌>>=◌, ◌>>◌, ensure, if◌then◌else◌, add64, sub64, ℤ, pos, negsuc, to_int64,
  length, get_elem?, take, ltb,
}
use ssdiq.Shared.Text.{codes, starts_with, text_eq, drop_text, words_of}
use ssdiq.Shared.Pattern.{Pattern, Numerics, Plain, AccessZone}

-- `for (i = 0; i < size; i++) shuffleVector[i] = i`, from `i` on.
unfoldable pub identity_from : ℕ → ℕ → List ℕ
identity_from zero i = []
identity_from (suc n) i = i ∷ identity_from n (i + 1)

-- The variables of `parseZoneSizes`, and the zones that it has put down: AccessZone's constructor is
-- given the first five of them.
pub record ZoneWords (D : Type 0) : Type 0 where
  pub size : D
  pub freq : D
  pub pattern : Pattern
  pub skew_factor : D
  pub shuffle : Bool
  pub zones : List (AccessZone D)

-- The constructor of RejectionInversionZipfSampler takes the number of elements as a `long`, and throws
-- std::invalid_argument if it is not positive.
unfoldable pub zipf_elements : ℕ → Result (Unit {0})
zipf_elements n = if ltb 0 n && ltb n (2 ^ 63) then ok tt else err Fault.invalid_argument

module _ {D R : Type 0} (num : Numerics D R) where
  -- The constructor on a pattern, for the n-th generator, behind that of the sampler; `init` does nothing more for the patterns
  -- of zones.
  unfoldable pub new_plain : ℕ → Pattern → ℕ → D → Bool → Plain D
  new_plain n pattern logical_pages skew_factor shuffle = record {
    pattern = pattern;
    logical_pages = logical_pages;
    skew_factor = skew_factor;
    shuffle = shuffle;
    shuffle_vector = if shuffle then num.shuffling n (identity_from logical_pages 0) else [];
    seq = 0;
  }

  -- A zone before `initZoneAccessPattern`; it has no generator yet, and an empty one stands for it.
  unfoldable pub new_zone : D → D → Pattern → D → Bool → AccessZone D
  new_zone rel_size rel_freq pattern skew_factor shuffle = record {
    offset = 0;
    count = 0;
    rel_size = rel_size;
    freq = rel_freq;
    pattern = pattern;
    skew_factor = skew_factor;
    shuffle = shuffle;
    sub_gen = new_plain 0 pattern 0 skew_factor false;
  }

  unfoldable pub no_words : ZoneWords D
  no_words = record {
    size = num.none_yet;
    freq = num.none_yet;
    pattern = Pattern.uniform;
    skew_factor = num.none_yet;
    shuffle = false;
    zones = [];
  }

  -- `addZone`.
  unfoldable pub add_zone : ZoneWords D → ZoneWords D
  add_zone w =
      if num.less num.zero_real w.size
      then record no_words {
        zones = w.zones ++ (new_zone w.size w.freq w.pattern w.skew_factor w.shuffle ∷ []);
      }
      else w

  -- One round of the loop over the words.
  unfoldable pub zone_word : List ℕ → ZoneWords D → Result (ZoneWords D)
  zone_word value w =
      let sized = (do
        size ← num.stod (drop_text 1 value)
        ok (record (add_zone w) { size = size })) in
      let used = (do freq ← num.stod (drop_text 1 value); ok (record w { freq = freq })) in
      let skewed = (do
        skew ← num.stod (drop_text 4 value)
        ok (record w { pattern = Pattern.zipf; skew_factor = skew })) in
      if starts_with (codes "s") value
        && (not (text_eq value (codes "shuffle")) && not (text_eq value (codes "sequential")))
      then sized
      else if starts_with (codes "f") value
      then used
      else if text_eq value (codes "uniform")
      then ok (record w { pattern = Pattern.uniform })
      else if text_eq (take 4 value) (codes "zipf")
      then skewed
      else if text_eq value (codes "sequential")
      then ok (record w { pattern = Pattern.sequential })
      else if text_eq value (codes "shuffle")
      then ok (record w { shuffle = true })
      else if text_eq value (codes "noshuffle")
      then ok (record w { shuffle = false })
      else err Fault.ensure_failed

  unfoldable pub zone_words : List (List ℕ) → ZoneWords D → Result (ZoneWords D)
  zone_words [] w = ok w
  zone_words (value ∷ rest) w = do next ← zone_word value w; zone_words rest next

  unfoldable pub parse_zone_sizes : List ℕ → Result (List (AccessZone D))
  parse_zone_sizes s = do w ← zone_words (words_of s) no_words; ok (add_zone w).zones

  unfoldable pub sum_rel_sizes : List (AccessZone D) → D → D
  sum_rel_sizes [] sum = sum
  sum_rel_sizes (h ∷ hs) sum = sum_rel_sizes hs (num.plus sum h.rel_size)

  unfoldable pub sum_freqs : List (AccessZone D) → D → D
  sum_freqs [] sum = sum
  sum_freqs (h ∷ hs) sum = sum_freqs hs (num.plus sum h.freq)

  unfoldable pub set_counts : D → ℕ → List (AccessZone D) → List (AccessZone D)
  set_counts sum page_count [] = []
  set_counts sum page_count (h ∷ hs) =
      record h { count = num.share h.rel_size sum page_count } ∷ set_counts sum page_count hs

-- The sum of the counts, as the `long` variables `assigned` and `assigned2` take it.
unfoldable pub sum_counts : {D : Type 0} → List (AccessZone D) → ℕ
sum_counts [] = 0
sum_counts (h ∷ hs) = add64 h.count (sum_counts hs)

-- `accessZones[i].count += 1`; an index out of bounds has no meaning.
unfoldable pub add_page : {D : Type 0} → ℕ → List (AccessZone D) → Result (List (AccessZone D))
add_page i [] = err Fault.undefined_access
add_page zero (h ∷ hs) = ok (record h { count = add64 h.count 1 } ∷ hs)
add_page (suc i) (h ∷ hs) = do rest ← add_page i hs; ok (h ∷ rest)

-- The index `i` is an `int`, given by its 32 bits, that becomes a `size_t`.
abbrev pub to_size : ℕ → ℕ
to_size i = if ltb i (2 ^ 31) then i else i + (2 ^ 64 - 2 ^ 32)

-- The loop over the remaining pages; a remainder by zero has no meaning.
unfoldable pub spread : {D : Type 0} → ℕ → ℕ → List (AccessZone D) → Result (List (AccessZone D))
spread zero i zones = ok zones
spread (suc remaining) i zones =
    let go_on = (do
      added ← add_page (to_size i % length zones) zones
      spread remaining ((i + 1) % 2 ^ 32) added) in
    if length zones == 0 then err Fault.undefined_access else go_on

unfoldable pub set_offsets : {D : Type 0} → ℕ → List (AccessZone D) → List (AccessZone D)
set_offsets last_end [] = []
set_offsets last_end (h ∷ hs) =
    record h { offset = last_end } ∷ set_offsets (add64 last_end h.count) hs

-- `ensurem(remaining >= 0)`, and the number of rounds.
unfoldable pub not_negative : ℤ → Result ℕ
not_negative (pos n) = ok n
not_negative (negsuc n) = err Fault.ensure_failed

module _ {D R : Type 0} (num : Numerics D R) where
  unfoldable pub make_sub_gens : ℕ → List (AccessZone D) → Result (List (AccessZone D))
  make_sub_gens n [] = ok []
  make_sub_gens n (h ∷ hs) = do
    zipf_elements h.count
    made ← make_sub_gens (n + 1) hs
    ok (record h { sub_gen = new_plain num n h.pattern h.count h.skew_factor h.shuffle } ∷ made)

  -- The zones and `sumFreq`. The vector generators of the zones are made one after the other.
  unfoldable pub init_zone_access_pattern :
      ℕ → List (AccessZone D) → Result (List (AccessZone D) × D)
  init_zone_access_pattern page_count zones = do
    let counted = set_counts num (sum_rel_sizes num zones num.zero_real) page_count zones
    remaining ← not_negative (to_int64 (sub64 page_count (sum_counts counted)))
    spread_out ← spread remaining 0 counted
    let placed = set_offsets 0 spread_out
    ensure (page_count == sum_counts placed)
    made ← make_sub_gens 1 placed
    ok (made, sum_freqs num zones num.zero_real)

  unfoldable pub zone_loop : ℕ → ℕ → ℕ → List (AccessZone D)
  zone_loop zero zones i = []
  zone_loop (suc rounds) zones i =
      new_zone num num.one (num.zone_power zones i) Pattern.sequential num.none_yet false
      ∷ zone_loop rounds zones (i + 1)

  unfoldable pub parse_and_init_zones : List ℕ → ℕ → Result (List (AccessZone D) × D)
  parse_and_init_zones s page_count = do
    zones ← parse_zone_sizes num s
    init_zone_access_pattern page_count zones

  unfoldable pub parse_and_init_seq_zones : List ℕ → ℕ → Result (List (AccessZone D) × D)
  parse_and_init_seq_zones s page_count = do
    zones ← num.stoi s
    init_zone_access_pattern page_count (zone_loop zones zones 0)
