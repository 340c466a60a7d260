-- ===== src/Shared/Pattern/Setup/Fresh.antt =====
-- Generators over zones from the options to their runs, in PatternGen of shared/PatternGen.hpp: the
-- constructor, and the loop of printPatternHistorgram over a new generator.
use ssdiq.Prelude.{
  ℕ, zero, suc, ◌+◌, ◌%◌, ◌^◌, ◌<◌, ◌≤◌, ◌≡◌, refl, sym, ap, ◌∙◌, false, List, [], ◌∷◌, arith, ok,
  Result, Fault, true, length, length-set, get_or, subst, set, fetch, fetch-in, replicate,
  length-replicate, ◌>>=◌,
}
use ssdiq.Shared.Pattern.{Pattern, Numerics, Options, AccessZone, PatternGen}
use ssdiq.Shared.Pattern.Names.{string_to_pattern, shuffle_rule}
use ssdiq.Shared.Pattern.Zones.{
  new_plain, sum_freqs, sum_rel_sizes, set_counts, parse_zone_sizes, parse_and_init_zones,
}
use ssdiq.Shared.Pattern.Zones.Partition.{total}
use ssdiq.Shared.Pattern.Zones.Initial.{shares, HavePages, zipf_elements-ok}
use ssdiq.Shared.Pattern.Zones.Parsed.{
  IsZonePattern, AreZonePatterns, parse_zone_sizes-AreZonePatterns,
}
use ssdiq.Shared.Pattern.Access.{access_pattern_generator}
use ssdiq.Shared.Pattern.Access.Own.{IsLawful, IsSimple, IsShuffled}
use ssdiq.Shared.Pattern.Access.Bounds.{Supports, access_pattern_generator-Accesses}
use ssdiq.Shared.Pattern.Setup.{init, new_pattern_gen}
use ssdiq.Shared.Pattern.Setup.Ready.{
  IsShuffling, ArePopulated, new_plain-IsShuffled, with_zones-IsZoned,
}

IsZonePattern-IsSimple : (p : Pattern) → IsZonePattern p → IsSimple p
unfolding IsZonePattern IsSimple
IsZonePattern-IsSimple Pattern.sequential h = tt
IsZonePattern-IsSimple Pattern.uniform h = tt
IsZonePattern-IsSimple Pattern.zipf h = tt
IsZonePattern-IsSimple Pattern.beta h = absurd h
IsZonePattern-IsSimple Pattern.zones h = absurd h
IsZonePattern-IsSimple Pattern.fio_zipf h = absurd h
IsZonePattern-IsSimple Pattern.traces h = absurd h
IsZonePattern-IsSimple Pattern.db h = absurd h
IsZonePattern-IsSimple Pattern.zns h = absurd h
IsZonePattern-IsSimple Pattern.seq_zones h = absurd h
IsZonePattern-IsSimple Pattern.undefined h = absurd h

module _ {D R : Type 0} (num : Numerics D R) where
  set_counts-ArePopulated :
      (sum : D) (n : ℕ) (zs : List (AccessZone D))
      → AreZonePatterns zs
      → HavePages (set_counts num sum n zs)
      → ArePopulated (set_counts num sum n zs)
  unfolding set_counts AreZonePatterns HavePages ArePopulated
  set_counts-ArePopulated sum n [] h k = tt
  set_counts-ArePopulated sum n (z ∷ zs) h k =
      (IsZonePattern-IsSimple z.pattern h.0, k.0, set_counts-ArePopulated sum n zs h.1 k.1)

  -- Options for the pattern zones, with the zones that its zone string names.
  pub record IsZoneSetup (o : Options D) (zones : List (AccessZone D)) : Type 0 where
    pub named : string_to_pattern o.pattern_string ≡ ok Pattern.zones
    pub parsed : parse_zone_sizes num o.zones_string ≡ ok zones
    pub some_zone : 0 < length zones
    pub some_page : 0 < o.logical_pages
    pub small : o.logical_pages < 2 ^ 63
    pub populated : HavePages (shares num o.logical_pages zones)
    pub fits : total (shares num o.logical_pages zones) ≤ o.logical_pages
    pub weighted : num.less num.zero_real (sum_freqs num zones num.zero_real) ≡ true

  -- `for (i = 0; i < totalWrites; i++) vec.at(accessPatternGenerator(rng))++`. A count is an `int`, given
  -- by its 32 bits.
  unfoldable pub count_accesses :
      (PatternGen D → R → Result (ℕ × PatternGen D × R))
      → ℕ
      → ℕ
      → List ℕ
      → PatternGen D
      → R
      → Result (List ℕ)
  count_accesses traced fuel zero vec g r = ok vec
  count_accesses traced fuel (suc rounds) vec g r = do
    accessed ← access_pattern_generator num traced fuel g r
    old ← fetch Fault.out_of_range vec accessed.0
    count_accesses traced fuel rounds (set vec accessed.0 ((old + 1) % 2 ^ 32)) accessed.1
        accessed.2

  -- printPatternHistorgram up to the counts, which it then prints.
  unfoldable pub pattern_histogram :
      (PatternGen D → R → Result (ℕ × PatternGen D × R)) → ℕ → ℕ → Options D → R → Result (List ℕ)
  pattern_histogram traced fuel total_writes options r = do
    let o : Options D = record options {
      logical_pages = 100;
      zns_pages_per_zone = 10;
      zns_active_zones = 4;
    }
    g ← new_pattern_gen num o
    count_accesses traced fuel total_writes (replicate o.logical_pages 0) g r

unfoldable pub sum_of : List ℕ → ℕ
sum_of [] = 0
sum_of (x ∷ xs) = x + sum_of xs

sum_of-set :
    (xs : List ℕ) (i v : ℕ) → i < length xs → sum_of (set xs i (get_or xs i 0 + v)) ≡ sum_of xs + v
unfolding sum_of
sum_of-set [] i v h = absurd (omega (arith, h))
sum_of-set (x ∷ xs) zero v h = omega arith
sum_of-set (x ∷ xs) (suc i) v h = omega (arith, sum_of-set xs i v (omega (arith, h)))

get_or-sum_of : (xs : List ℕ) (i : ℕ) → get_or xs i 0 ≤ sum_of xs
unfolding sum_of
get_or-sum_of [] i = omega arith
get_or-sum_of (x ∷ xs) zero = omega arith
get_or-sum_of (x ∷ xs) (suc i) = omega (arith, get_or-sum_of xs i)

module _ {D R : Type 0} (num : Numerics D R) (lawful : IsLawful num)
    (shuffles : (n : ℕ) → IsShuffling (num.shuffling n)) where
  -- For lawful distributions and shuffles, and options with the pattern zones whose zone string has at
  -- least one zone, each with a share of the pages, the shares being no more than all pages, of which there
  -- is one and fewer than 2^63, and the frequencies having a positive sum: the constructor makes a generator with these options' pages that is ready for its accesses.
  pub new_pattern_gen-Supports :
      (o : Options D) (zones : List (AccessZone D))
      → IsZoneSetup num o zones
      → (g : PatternGen D) × (new_pattern_gen num o ≡ ok g)
        × Supports num lawful g.own.pattern g
        × (g.own.logical_pages ≡ o.logical_pages)
  unfolding new_pattern_gen init parse_and_init_zones new_plain
  new_pattern_gen-Supports o zones s =
      let shuffle = shuffle_rule Pattern.zones o.pattern_string in
      let own = new_plain num 0 Pattern.zones o.logical_pages o.skew_factor shuffle in
      let bare : PatternGen D = record {
        own = own;
        options = o;
        sum_freq = num.zero_real;
        access_zones = [];
        zns_zones = 0;
        zns_active_zone_ids = [];
        zns_active_zone_offset = [];
        trace_accessed_pages = false;
        accessed_pages = [];
      } in
      let made =
        with_zones-IsZoned num shuffles lawful bare zones s.some_zone s.small
          (set_counts-ArePopulated num (sum_rel_sizes num zones num.zero_real) o.logical_pages zones
            (parse_zone_sizes-AreZonePatterns num o.zones_string zones s.parsed) s.populated)
          s.fits s.weighted in
      let ready : Supports num lawful Pattern.zones made.0 =
        unfold Supports in
        (
          subst IsShuffled (sym made.3) (
              new_plain-IsShuffled num shuffles 0 Pattern.zones o.logical_pages o.skew_factor
                shuffle s.some_page (omega (arith, s.small))),
          made.2,
        ) in
      (
        made.0,
        rw (s.named, zipf_elements-ok o.logical_pages s.some_page s.small, s.parsed) made.1,
        subst (λ p. Supports num lawful p made.0) (sym (ap (λ x. x.pattern) made.3)) ready,
        ap (λ x. x.logical_pages) made.3,
      )

  module _ (traced : PatternGen D → R → Result (ℕ × PatternGen D × R)) (fuel : ℕ) where
    count_accesses-ok :
        (rounds : ℕ) (vec : List ℕ) (g : PatternGen D) (r : R)
        → Supports num lawful g.own.pattern g
        → length vec ≡ g.own.logical_pages
        → sum_of vec + rounds < 2 ^ 31
        → (counts : List ℕ) × (count_accesses num traced fuel rounds vec g r ≡ ok counts)
          × (length counts ≡ length vec)
          × (sum_of counts ≡ sum_of vec + rounds)
    unfolding count_accesses
    count_accesses-ok zero vec g r s e few = (vec, refl, refl, omega arith)
    count_accesses-ok (suc rounds) vec g r s e few =
        let a = access_pattern_generator-Accesses num lawful traced fuel g r s in
        let listed : a.page < length vec = omega (arith, e, a.inside) in
        let counted = set vec a.page (get_or vec a.page 0 + 1) in
        let word : (get_or vec a.page 0 + 1) % 2 ^ 32 ≡ get_or vec a.page 0 + 1 =
          omega (arith, few, get_or-sum_of vec a.page) in
        let rest =
          count_accesses-ok rounds counted a.next a.rest
            (subst (λ p. Supports num lawful p a.next) (sym a.pattern) a.ready)
            (length-set vec a.page (get_or vec a.page 0 + 1) ∙ e ∙ sym a.logical_pages)
            (omega (arith, few, sum_of-set vec a.page 1 listed)) in
        (
          rest.0,
          rw (a.runs, fetch-in Fault.out_of_range vec a.page 0 listed, word) rest.1,
          rest.2 ∙ length-set vec a.page (get_or vec a.page 0 + 1),
          omega (arith, rest.3, sum_of-set vec a.page 1 listed),
        )

    -- Under the same conditions on the options with 100 logical pages in place of their own,
    -- printPatternHistorgram draws and counts as many pages as it is told, none outside the 100 counts:
    -- the counts add up to the number of accesses, which is below 2^31.
    pub pattern_histogram-counts :
        (total_writes : ℕ) (options : Options D) (r : R) (zones : List (AccessZone D))
        → IsZoneSetup num
            (record options { logical_pages = 100; zns_pages_per_zone = 10; zns_active_zones = 4 })
            zones
        → total_writes < 2 ^ 31
        → (counts : List ℕ) × (pattern_histogram num traced fuel total_writes options r ≡ ok counts)
          × (length counts ≡ 100)
          × (sum_of counts ≡ total_writes)
    unfolding pattern_histogram
    pattern_histogram-counts total_writes options r zones s few =
        let o : Options D = record options {
          logical_pages = 100;
          zns_pages_per_zone = 10;
          zns_active_zones = 4;
        } in
        let g = new_pattern_gen-Supports o zones s in
        let c =
          count_accesses-ok total_writes (replicate 100 0) g.0 r g.2
            (length-replicate {A = ℕ} 100 0 ∙ sym g.3) (unfold sum_of in omega (arith, few)) in
        let nothing : 0 + total_writes ≡ total_writes = omega arith in
        (c.0, rw g.1 c.1, c.2 ∙ length-replicate {A = ℕ} 100 0, c.3 ∙ unfold sum_of in nothing)
