-- ===== src/Shared/Pattern/Setup/Ready.antt =====
-- A generator that the constructor of PatternGen of shared/PatternGen.hpp makes for zones is ready for
-- its first access.
use ssdiq.Prelude.{
  ℕ, Bool, true, zero, suc, ◌+◌, ◌^◌, ◌<◌, ◌≤◌, ◌≡◌, refl, sym, ap, ◌∙◌, inl, inr, List, [], ◌∷◌,
  arith, ok, In, length, get_or, subst,
}
use ssdiq.Shared.Pattern.{Pattern, Numerics, AccessZone, PatternGen}
use ssdiq.Shared.Pattern.Zones.{sum_freqs, identity_from, new_plain, init_zone_access_pattern}
use ssdiq.Shared.Pattern.Zones.Partition.{total, Follows, Extends, Extends-length}
use ssdiq.Shared.Pattern.Zones.Initial.{
  HaveGens, HavePages, shares, length-shares, init_zone_access_pattern-Partitions,
}
use ssdiq.Shared.Pattern.Access.Own.{IsLawful, IsSimple, IsShuffled}
use ssdiq.Shared.Pattern.Access.Valid.{IsZoned, Serves, AreServed}
use ssdiq.Shared.Pattern.Setup.{with_zones}

-- A shuffled vector has as many entries, all of them from the vector before.
abbrev pub IsShuffling : (List ℕ → List ℕ) → Type 0
IsShuffling f =
    (xs : List ℕ)
    → (length (f xs) ≡ length xs) × ((i : ℕ) → i < length xs → In (get_or (f xs) i 0) xs)

-- The zones have patterns of their own and pages to draw from.
unfoldable pub ArePopulated : {D : Type 0} → List (AccessZone D) → Type 0
ArePopulated [] = Unit
ArePopulated (z ∷ zs) = IsSimple z.pattern × (0 < z.count) × ArePopulated zs

length-identity_from : (n i : ℕ) → length (identity_from n i) ≡ n
unfolding identity_from
length-identity_from zero i = refl
length-identity_from (suc n) i = ap suc (length-identity_from n (i + 1))

In-identity_from : (n i x : ℕ) → In x (identity_from n i) → x < i + n
unfolding identity_from
In-identity_from zero i x h = absurd h
In-identity_from (suc n) i x (inl e) = omega (arith, e)
In-identity_from (suc n) i x (inr h) = omega (arith, In-identity_from n (i + 1) x h)

module _ {D R : Type 0} (num : Numerics D R)
    (shuffles : (n : ℕ) → IsShuffling (num.shuffling n)) where
  pub new_plain-IsShuffled :
      (n : ℕ) (pattern : Pattern) (pages : ℕ) (skew : D) (shuffle : Bool)
      → 0 < pages
      → pages < 2 ^ 64
      → IsShuffled (new_plain num n pattern pages skew shuffle)
  unfolding new_plain
  new_plain-IsShuffled n pattern pages skew shuffle some word = record {
    some_page = some;
    word = word;
    sized = λ e. rw e (law.0 ∙ length-identity_from pages 0);
    inside = λ e i h. rw e (
        omega (
          arith,
          In-identity_from pages 0 (get_or (num.shuffling n (identity_from pages 0)) i 0)
              (law.1 i (omega (arith, h, length-identity_from pages 0))),
        ));
  }
    where
      law :
          (length (num.shuffling n (identity_from pages 0)) ≡ length (identity_from pages 0))
          × ((i : ℕ)
              → i < length (identity_from pages 0)
              → In (get_or (num.shuffling n (identity_from pages 0)) i 0) (identity_from pages 0))
      law = shuffles n (identity_from pages 0)

  -- Zones with more pages stay populated.
  ArePopulated-Extends :
      (xs ys : List (AccessZone D)) → Extends xs ys → ArePopulated xs → ArePopulated ys
  unfolding Extends ArePopulated
  ArePopulated-Extends [] [] e h = tt
  ArePopulated-Extends [] (y ∷ ys) e h = absurd e
  ArePopulated-Extends (x ∷ xs) [] e h = absurd e
  ArePopulated-Extends (x ∷ xs) (y ∷ ys) e h =
      (subst IsSimple e.1 h.0, omega (arith, e.2, h.1), ArePopulated-Extends xs ys e.3 h.2)

  ArePopulated-HavePages : (zs : List (AccessZone D)) → ArePopulated zs → HavePages zs
  unfolding ArePopulated HavePages
  ArePopulated-HavePages [] h = tt
  ArePopulated-HavePages (z ∷ zs) h = (h.1, ArePopulated-HavePages zs h.2)

  made-AreServed :
      (n start : ℕ) (zs : List (AccessZone D))
      → Follows start zs
      → HaveGens num n zs
      → ArePopulated zs
      → start + total zs < 2 ^ 64
      → AreServed start zs
  unfolding Follows HaveGens ArePopulated AreServed total
  made-AreServed n start [] f g p small = tt
  made-AreServed n start (z ∷ zs) f g p small = (
    f.0,
    subst (Serves z.count) (sym g.0) (record {
      simple = unfold new_plain in p.0;
      pages = unfold new_plain in refl;
      shuffled =
          new_plain-IsShuffled n z.pattern z.count z.skew_factor z.shuffle p.1
            (omega (arith, small));
    }),
    made-AreServed (n + 1) (start + z.count) zs f.1 g.1 p.2 (omega (arith, small)),
  )

  -- For lawful distributions and shuffles: at least one zone, each with a share of the pages and the
  -- pattern uniform, sequential or zipf, shares of no more than all pages, fewer than 2^63, and
  -- frequencies with a positive sum. Then the generator gets the zones and is ready to draw from them.
  pub with_zones-IsZoned :
      (lawful : IsLawful num) (g : PatternGen D) (zones : List (AccessZone D))
      → 0 < length zones
      → g.own.logical_pages < 2 ^ 63
      → ArePopulated (shares num g.own.logical_pages zones)
      → total (shares num g.own.logical_pages zones) ≤ g.own.logical_pages
      → num.less num.zero_real (sum_freqs num zones num.zero_real) ≡ true
      → (next : PatternGen D) × (with_zones num g
            (init_zone_access_pattern num g.own.logical_pages zones)
          ≡ ok next)
        × IsZoned num lawful next
        × (next.own ≡ g.own)
  unfolding with_zones
  with_zones-IsZoned lawful g zones some small populated fits positive =
      elim (init_zone_access_pattern-Partitions num g.own.logical_pages zones some small
        (omega (arith, fits, small))) [
          | inr (inr h) ↦ absurd (omega (arith, h.0, fits))
          | inr (inl h) ↦ absurd (
              h.3 (
                ArePopulated-HavePages h.1 (
                  ArePopulated-Extends (shares num g.own.logical_pages zones) h.1 h.2.extends
                    populated)))
          | inl h ↦
              let made = h.1 in
              let p = h.3 in
              (
                record g { access_zones = made.0; sum_freq = made.1 },
                rw h.2 refl,
                record {
                  weighted = record {
                    some_zone = omega (
                      arith,
                      some,
                      length-shares num g.own.logical_pages zones,
                      Extends-length (shares num g.own.logical_pages zones) made.0 p.extends,
                    );
                    sum = p.frequency;
                    positive = rw p.same_frequency positive;
                  };
                  served =
                      made-AreServed 1 0 made.0 p.placed p.generators
                        (ArePopulated-Extends (shares num g.own.logical_pages zones) made.0
                          p.extends populated)
                        (omega (arith, p.sum, small));
                  covers = p.sum;
                  word = omega (arith, small);
                },
                refl,
              )
        ]
