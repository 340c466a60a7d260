-- ===== src/Shared/Pattern/Access.antt =====
-- How PatternGen of shared/PatternGen.hpp draws a page: accessPatternGenerator, accessZonesGenerator,
-- accessDBGenerator and accessZNS.
pub mod Own
pub mod Valid
pub mod Bounds
pub mod Zns
pub mod Places
pub mod Sequential
use ssdiq.Prelude.{
  ℕ, zero, suc, ◌+◌, ◌-◌, ◌/◌, ◌%◌, ◌^◌, ◌==◌, ◌&&◌, ◌||◌, Bool, true, false, not, List, [], ◌∷◌,
  ◌++◌, Result, ok, err, Fault, ◌>>=◌, ◌>>◌, ensure, assert, fetch, store, if◌then◌else◌, add64,
  sub64, mul64, length, set, replicate, ltb, leb,
}
use ssdiq.Shared.Text.{codes}
use ssdiq.Shared.Pattern.{Pattern, Numerics, Options, Plain, AccessZone, PatternGen}
use ssdiq.Shared.Pattern.Names.{string_to_pattern, shuffle_rule}
use ssdiq.Shared.Pattern.Zones.{
  new_plain, new_zone, parse_and_init_zones, parse_and_init_seq_zones, init_zone_access_pattern,
}

-- `raise(SIGINT)` unless `b`.
abbrev pub keep_running : Bool → Result (Unit {0})
keep_running false = err Fault.interrupted
keep_running true = ok tt

-- From the shuffle to the return: `page` has been chosen.
unfoldable pub finish : {D : Type 0} → Plain D → ℕ → Result ℕ
finish g page = do
  let shuffled = (do
    keep_running (ltb page (length g.shuffle_vector))
    fetch Fault.out_of_range g.shuffle_vector page)
  p ← if g.shuffle then shuffled else ok page
  keep_running (leb p g.logical_pages)
  ensure (ltb p g.logical_pages)
  ok p

module _ {D R : Type 0} (num : Numerics D R) where
  unfoldable pub beta_distribution : D → D → R → D × R
  beta_distribution alpha beta r =
      let (x, r1) = num.gamma alpha r in
      let (y, r2) = num.gamma beta r1 in (num.quotient x (num.plus x y), r2)

  -- `seq++ % options.logicalPages`.
  unfoldable pub next_in_sequence : Plain D → R → Result (ℕ × Plain D × R)
  next_in_sequence g r =
      if g.logical_pages == 0
      then err Fault.undefined_access
      else ok (g.seq % g.logical_pages, record g { seq = add64 g.seq 1 }, r)

  -- The page that the patterns without zones choose, by the pattern. `alpha` and `beta` are those of
  -- the options.
  unfoldable pub choose_plain : D → D → Pattern → Plain D → R → Result (ℕ × Plain D × R)
  choose_plain alpha beta Pattern.sequential g r = next_in_sequence g r
  choose_plain alpha beta Pattern.uniform g r =
      let (page, r1) = num.uniform_int 0 (sub64 g.logical_pages 1) r in ok (page, g, r1)
  choose_plain alpha beta Pattern.beta g r =
      let (sample, r1) = beta_distribution alpha beta r in
      ok (num.scale sample (sub64 g.logical_pages 1), g, r1)
  choose_plain alpha beta Pattern.zipf g r =
      let (page, r1) = num.zipf_sample g.logical_pages g.skew_factor r in ok (sub64 page 1, g, r1)
  choose_plain alpha beta _ g r = err Fault.runtime_error

  -- accessPatternGenerator of a zone's own generator.
  unfoldable pub access_plain : D → D → Plain D → R → Result (ℕ × Plain D × R)
  access_plain alpha beta g r = do
    chosen ← choose_plain alpha beta g.pattern g r
    page ← finish g chosen.0
    ok (page, chosen.1, chosen.2)

  -- `while (freqCnt < randFreq)`: the zones from `randZoneId` on are `zones`, and `freq_cnt` includes
  -- the first of them. `.at` throws behind the last zone.
  unfoldable pub scan_zones : D → D → ℕ → List (AccessZone D) → Result ℕ
  scan_zones rand_freq freq_cnt id [] =
      if num.less freq_cnt rand_freq then err Fault.out_of_range else ok id
  scan_zones rand_freq freq_cnt id (z ∷ zs) =
      let rest = scan_zones rand_freq (num.plus freq_cnt z.freq) (id + 1) zs in
      if num.less freq_cnt rand_freq then rest else ok id

  unfoldable pub pick_from : D → List (AccessZone D) → Result ℕ
  pick_from rand_freq [] = err Fault.out_of_range
  pick_from rand_freq (z ∷ zs) = scan_zones rand_freq z.freq 0 zs

  -- The zone that the three generators over zones pick.
  unfoldable pub pick_zone : PatternGen D → R → Result (ℕ × R)
  pick_zone g r = do
    let (rand_freq, r1) = num.uniform_real g.sum_freq r
    id ← pick_from rand_freq g.access_zones
    assert (ltb id (length g.access_zones))
    ok (id, r1)

  unfoldable pub access_zones_generator : PatternGen D → R → Result (ℕ × PatternGen D × R)
  access_zones_generator g r = do
    picked ← pick_zone g r
    az ← fetch Fault.out_of_range g.access_zones picked.0
    drawn ← access_plain g.options.alpha g.options.beta az.sub_gen picked.1
    ok (
      add64 az.offset drawn.0,
      record g { access_zones = set g.access_zones picked.0 (record az { sub_gen = drawn.1 }) },
      drawn.2,
    )

  unfoldable pub access_db_generator : PatternGen D → R → Result (ℕ × PatternGen D × R)
  access_db_generator g r = do
    picked ← pick_zone g r
    az ← fetch Fault.out_of_range g.access_zones picked.0
    let (idx, r1) = num.uniform_int az.offset (sub64 (add64 az.offset az.count) 1) picked.1
    keep_running (ltb idx (length g.own.shuffle_vector))
    page ← fetch Fault.out_of_range g.own.shuffle_vector idx
    ok (page, g, r1)

-- `std::find(v.begin(), v.end(), x) != v.end()`.
unfoldable pub among : ℕ → List ℕ → Bool
among x [] = false
among x (y ∷ ys) = (y == x) || among x ys

module _ {D R : Type 0} (num : Numerics D R) where
  -- `do ... while`: a zone that is not active. The source bounds the draws by nothing.
  unfoldable pub draw_zone : ℕ → ℕ → List ℕ → R → Result (ℕ × R)
  draw_zone zero zns_zones active r = err Fault.out_of_fuel
  draw_zone (suc fuel) zns_zones active r =
      let drawn = num.uniform_int 0 (sub64 zns_zones 1) r in
      let again = draw_zone fuel zns_zones active drawn.1 in
      if among drawn.0 active then again else ok drawn

  -- The branch that starts a new zone at `i`.
  unfoldable pub open_zone : ℕ → ℕ → PatternGen D → R → Result (ℕ × PatternGen D × R)
  open_zone fuel i g r = do
    drawn ← draw_zone fuel g.zns_zones g.zns_active_zone_ids r
    ids ← store Fault.undefined_access g.zns_active_zone_ids i drawn.0
    offsets ← store Fault.undefined_access g.zns_active_zone_offset i 1
    ok (
      add64 (mul64 drawn.0 g.options.zns_pages_per_zone) 0,
      record g { zns_active_zone_ids = ids; zns_active_zone_offset = offsets },
      drawn.1,
    )

  -- The branch that goes on in the zone at `i`, whose offset has been advanced.
  unfoldable pub go_on_in_zone : ℕ → ℕ → PatternGen D → R → Result (ℕ × PatternGen D × R)
  go_on_in_zone i id_in_zone g r = do
    id ← fetch Fault.undefined_access g.zns_active_zone_ids i
    ok (add64 (mul64 id g.options.zns_pages_per_zone) id_in_zone, g, r)

  unfoldable pub access_zns : ℕ → PatternGen D → R → Result (ℕ × PatternGen D × R)
  access_zns fuel g r = do
    picked ← pick_zone num g r
    id_in_zone ← fetch Fault.undefined_access g.zns_active_zone_offset picked.0
    let advanced : PatternGen D = record g {
      zns_active_zone_offset = set g.zns_active_zone_offset picked.0 (add64 id_in_zone 1);
    }
    if leb g.options.zns_pages_per_zone id_in_zone
        then open_zone fuel picked.0 advanced picked.1
        else go_on_in_zone picked.0 id_in_zone advanced picked.1

  -- The generator's own page, for the patterns without zones.
  unfoldable pub choose_own : PatternGen D → R → Result (ℕ × PatternGen D × R)
  choose_own g r = do
    chosen ← choose_plain num g.options.alpha g.options.beta g.own.pattern g.own r
    ok (chosen.0, record g { own = chosen.1 }, chosen.2)

  -- The choice of a page by pattern; `traced` is the answer of the generators that replay a trace.
  unfoldable pub choose_page :
      (PatternGen D → R → Result (ℕ × PatternGen D × R))
      → ℕ
      → Pattern
      → PatternGen D
      → R
      → Result (ℕ × PatternGen D × R)
  choose_page traced fuel Pattern.seq_zones g r = access_zones_generator num g r
  choose_page traced fuel Pattern.zones g r = access_zones_generator num g r
  choose_page traced fuel Pattern.fio_zipf g r = traced g r
  choose_page traced fuel Pattern.traces g r = traced g r
  choose_page traced fuel Pattern.db g r = access_db_generator num g r
  choose_page traced fuel Pattern.zns g r = access_zns fuel g r
  choose_page traced fuel _ g r = choose_own g r

  unfoldable pub access_pattern_generator :
      (PatternGen D → R → Result (ℕ × PatternGen D × R))
      → ℕ
      → PatternGen D
      → R
      → Result (ℕ × PatternGen D × R)
  access_pattern_generator traced fuel g r = do
    chosen ← choose_page traced fuel g.own.pattern g r
    page ← finish g.own chosen.0
    let recorded : PatternGen D = record chosen.1 {
      accessed_pages =
          if g.trace_accessed_pages
          then chosen.1.accessed_pages ++ (page ∷ [])
          else chosen.1.accessed_pages;
    }
    ok (page, recorded, chosen.2)
