-- ===== src/Shared/Pattern/Access/Bounds.antt =====
-- Every page that accessPatternGenerator of shared/PatternGen.hpp returns without a trace and outside
-- ZNS is one of the logical pages.
use ssdiq.Prelude.{
  ℕ, List, [], ◌∷◌, ◌++◌, if◌then◌else◌, sym, subst, ◌+◌, ◌<◌, ◌≤◌, ◌^◌, true, ◌≡◌, refl, ◌∙◌,
  arith, ok, Result, set, length-set, add64,
}
use ssdiq.Shared.Pattern.{Pattern, Numerics, PatternGen}
use ssdiq.Shared.Pattern.Access.{
  access_zones_generator, choose_plain, choose_own, choose_page, access_pattern_generator,
}
use ssdiq.Shared.Pattern.Access.Own.{
  IsLawful, IsSimple, IsShuffled, choose_plain-Draws, choose_beta-Draws, Draws, access_plain-Draws,
  finish-ok,
}
use ssdiq.Shared.Pattern.Access.Valid.{IsZoned, pick_zone-in, zone_at}

module _ {D R : Type 0} (num : Numerics D R) (lawful : IsLawful num) where
  -- Positive parameters, and pages that a `double` can count.
  pub record HasBeta (g : PatternGen D) : Type 0 where
    pub alpha : num.less num.zero_real g.options.alpha ≡ true
    pub beta : num.less num.zero_real g.options.beta ≡ true
    pub pages : g.own.logical_pages ≤ 2 ^ 53

  -- What a generator needs for its pattern.
  unfoldable pub Supports : Pattern → PatternGen D → Type 0
  Supports Pattern.sequential g = IsShuffled g.own
  Supports Pattern.uniform g = IsShuffled g.own
  Supports Pattern.beta g = IsShuffled g.own × HasBeta g
  Supports Pattern.zipf g = IsShuffled g.own
  Supports Pattern.zones g = IsShuffled g.own × IsZoned num lawful g
  Supports Pattern.seq_zones g = IsShuffled g.own × IsZoned num lawful g
  Supports _ g = ⊥

  -- A page of the generator's own, and the generator ready for the next.
  pub record Accesses (g : PatternGen D) (m : Result (ℕ × PatternGen D × R)) : Type 0 where
    pub page : ℕ
    pub next : PatternGen D
    pub rest : R
    pub runs : m ≡ ok (page, next, rest)
    pub inside : page < g.own.logical_pages
    pub pattern : next.own.pattern ≡ g.own.pattern
    pub logical_pages : next.own.logical_pages ≡ g.own.logical_pages
    pub ready : Supports g.own.pattern next

  -- The same for the choice of a page, before the shuffle.
  pub record Chooses (chosen : Pattern) (g : PatternGen D) (m : Result (ℕ × PatternGen D × R))
      : Type 0 where
    pub page : ℕ
    pub next : PatternGen D
    pub rest : R
    pub runs : m ≡ ok (page, next, rest)
    pub inside : page < g.own.logical_pages
    pub pattern : next.own.pattern ≡ g.own.pattern
    pub logical_pages : next.own.logical_pages ≡ g.own.logical_pages
    pub ready : Supports chosen next
    pub shuffled : IsShuffled g.own

  choose_own-Draws :
      (pattern : Pattern) (g : PatternGen D) (r : R)
      → g.own.pattern ≡ pattern
      → IsShuffled g.own
      → (d : Draws num lawful g.own
          (choose_plain num g.options.alpha g.options.beta pattern g.own r))
      → Supports pattern (record g { own = d.next })
      → Chooses pattern g (choose_own num g r)
  unfolding choose_own
  choose_own-Draws pattern g r e v d ready =
      let next : PatternGen D = record g { own = d.next } in
      let own_runs : choose_plain num g.options.alpha g.options.beta g.own.pattern g.own r
          ≡ ok (d.page, d.next, d.rest) =
        subst
          (λ p.
            choose_plain num g.options.alpha g.options.beta p g.own r ≡ ok (d.page, d.next, d.rest))
          (sym e) d.runs in
      record {
        page = d.page;
        next = next;
        rest = d.rest;
        runs = rw own_runs refl;
        inside = d.inside;
        pattern = d.pattern;
        logical_pages = d.logical_pages;
        ready = ready;
        shuffled = v;
      }

  access_zones_generator-in :
      (pattern : Pattern) (g : PatternGen D) (r : R)
      → IsShuffled g.own
      → IsZoned num lawful g
      → ((h : PatternGen D) → IsShuffled h.own → IsZoned num lawful h → Supports pattern h)
      → Chooses pattern g (access_zones_generator num g r)
  unfolding access_zones_generator
  access_zones_generator-in pattern g r v z keep =
      let k = pick_zone-in num lawful g r z.weighted in
      let a = zone_at num k.0 0 g.access_zones z.served k.2 in
      let d =
        access_plain-Draws num lawful g.options.alpha g.options.beta a.zone.sub_gen
          (num.uniform_real g.sum_freq r).1 a.serves.simple a.serves.shuffled in
      let next : PatternGen D = record g {
        access_zones = set g.access_zones k.0 (record a.zone { sub_gen = d.next });
      } in
      let e : add64 a.zone.offset d.page ≡ a.zone.offset + d.page =
        omega (arith, d.inside, a.serves.pages, a.below, z.covers, z.word) in
      record {
        page = a.zone.offset + d.page;
        next = next;
        rest = d.rest;
        runs = rw (k.1, a.fetched, d.runs, e) refl;
        inside = omega (arith, d.inside, a.serves.pages, a.below, z.covers);
        pattern = refl;
        logical_pages = refl;
        ready = keep next v (record {
          weighted = record {
            some_zone = omega (
              arith,
              z.weighted.some_zone,
              length-set g.access_zones k.0 (record a.zone { sub_gen = d.next }),
            );
            sum = z.weighted.sum ∙ rw (a.same_freqs d.next num.zero_real) refl;
            positive = z.weighted.positive;
          };
          served = a.replaced d.next (record {
            simple = rw d.pattern a.serves.simple;
            pages = d.logical_pages ∙ a.serves.pages;
            shuffled = d.kept;
          });
          covers = a.same_total d.next ∙ z.covers;
          word = z.word;
        });
        shuffled = v;
      }

  choose_page-Chooses :
      (traced : PatternGen D → R → Result (ℕ × PatternGen D × R)) (fuel : ℕ) (pattern : Pattern)
      (g : PatternGen D) (r : R)
      → g.own.pattern ≡ pattern
      → Supports pattern g
      → Chooses pattern g (choose_page num traced fuel pattern g r)
  unfolding choose_page Supports IsSimple
  choose_page-Chooses traced fuel Pattern.sequential g r e s =
      let d =
        choose_plain-Draws num lawful g.options.alpha g.options.beta Pattern.sequential g.own r tt
          s in
      choose_own-Draws Pattern.sequential g r e s d d.kept
  choose_page-Chooses traced fuel Pattern.uniform g r e s =
      let d =
        choose_plain-Draws num lawful g.options.alpha g.options.beta Pattern.uniform g.own r tt s in
      choose_own-Draws Pattern.uniform g r e s d d.kept
  choose_page-Chooses traced fuel Pattern.zipf g r e s =
      let d =
        choose_plain-Draws num lawful g.options.alpha g.options.beta Pattern.zipf g.own r tt s in
      choose_own-Draws Pattern.zipf g r e s d d.kept
  choose_page-Chooses traced fuel Pattern.beta g r e s =
      let d =
        choose_beta-Draws num lawful g.options.alpha g.options.beta g.own r s.1.alpha s.1.beta
          s.1.pages s.0 in
      choose_own-Draws Pattern.beta g r e s.0 d (
        d.kept,
        record { alpha = s.1.alpha; beta = s.1.beta; pages = rw d.logical_pages s.1.pages },
      )
  choose_page-Chooses traced fuel Pattern.zones g r e s =
      access_zones_generator-in Pattern.zones g r s.0 s.1 (λ h v z. (v, z))
  choose_page-Chooses traced fuel Pattern.seq_zones g r e s =
      access_zones_generator-in Pattern.seq_zones g r s.0 s.1 (λ h v z. (v, z))
  choose_page-Chooses traced fuel Pattern.fio_zipf g r e s = absurd s
  choose_page-Chooses traced fuel Pattern.traces g r e s = absurd s
  choose_page-Chooses traced fuel Pattern.db g r e s = absurd s
  choose_page-Chooses traced fuel Pattern.zns g r e s = absurd s
  choose_page-Chooses traced fuel Pattern.undefined g r e s = absurd s

  IsZoned-recorded :
      (g : PatternGen D) (ps : List ℕ)
      → IsZoned num lawful g
      → IsZoned num lawful (record g { accessed_pages = ps })
  IsZoned-recorded g ps z = record {
    weighted = record {
      some_zone = z.weighted.some_zone;
      sum = z.weighted.sum;
      positive = z.weighted.positive;
    };
    served = z.served;
    covers = z.covers;
    word = z.word;
  }

  Supports-recorded :
      (pattern : Pattern) (g : PatternGen D) (ps : List ℕ)
      → Supports pattern g
      → Supports pattern (record g { accessed_pages = ps })
  unfolding Supports
  Supports-recorded Pattern.sequential g ps s = s
  Supports-recorded Pattern.uniform g ps s = s
  Supports-recorded Pattern.beta g ps s =
      (s.0, record { alpha = s.1.alpha; beta = s.1.beta; pages = s.1.pages })
  Supports-recorded Pattern.zipf g ps s = s
  Supports-recorded Pattern.zones g ps s = (s.0, IsZoned-recorded g ps s.1)
  Supports-recorded Pattern.seq_zones g ps s = (s.0, IsZoned-recorded g ps s.1)
  Supports-recorded Pattern.fio_zipf g ps s = s
  Supports-recorded Pattern.traces g ps s = s
  Supports-recorded Pattern.db g ps s = s
  Supports-recorded Pattern.zns g ps s = s
  Supports-recorded Pattern.undefined g ps s = s

  -- For lawful distributions and a generator that is ready for its pattern, which is none of ZNS, mockdb
  -- and the traces, accessPatternGenerator returns one of the logical pages, without SIGINT, a failed
  -- ensure or an access out of range, and the generator is ready for the next access, with the same
  -- pattern and number of pages. It is ready if it has pages and, when it shuffles, each has its place in
  -- the shuffle; for beta, if the parameters are positive and a `double` can count the pages; and for
  -- zones, if these cover the pages, each with pages and a generator that is ready, and their frequencies
  -- have a positive sum.
  pub access_pattern_generator-Accesses :
      (traced : PatternGen D → R → Result (ℕ × PatternGen D × R)) (fuel : ℕ) (g : PatternGen D)
      (r : R)
      → Supports g.own.pattern g
      → Accesses g (access_pattern_generator num traced fuel g r)
  unfolding access_pattern_generator
  access_pattern_generator-Accesses traced fuel g r s =
      let c = choose_page-Chooses traced fuel g.own.pattern g r refl s in
      let f = finish-ok g.own c.page c.shuffled c.inside in
      let pages =
        if g.trace_accessed_pages
        then c.next.accessed_pages ++ (f.0 ∷ [])
        else c.next.accessed_pages in
      let next : PatternGen D = record c.next { accessed_pages = pages } in
      record {
        page = f.0;
        next = next;
        rest = c.rest;
        runs = rw (c.runs, f.1) refl;
        inside = f.2;
        pattern = c.pattern;
        logical_pages = c.logical_pages;
        ready = Supports-recorded g.own.pattern c.next pages c.ready;
      }
