-- ===== src/Shared/Pattern/Access/Valid.antt =====
-- The zones that PatternGen of shared/PatternGen.hpp picks and draws from: accessZonesGenerator.
use ssdiq.Prelude.{
  ℕ, zero, suc, ◌+◌, ◌^◌, ◌<◌, ◌≤◌, ◌≡◌, refl, inl, inr, true, false, List, [], ◌∷◌, arith, ok,
  Fault, fetch, set, length, lt→ltb, Bool-cases, subst,
}
use ssdiq.Shared.Pattern.{Numerics, Plain, AccessZone, PatternGen}
use ssdiq.Shared.Pattern.Zones.{sum_freqs}
use ssdiq.Shared.Pattern.Zones.Partition.{total}
use ssdiq.Shared.Pattern.Access.{scan_zones, pick_from, pick_zone}
use ssdiq.Shared.Pattern.Access.Own.{IsLawful, IsSimple, IsShuffled}

-- A generator that a zone of `count` pages can draw from.
pub record Serves {D : Type 0} (count : ℕ) (h : Plain D) : Type 0 where
  pub simple : IsSimple h.pattern
  pub pages : h.logical_pages ≡ count
  pub shuffled : IsShuffled h

-- Zones without a gap from `start` on, each with a generator for its pages.
unfoldable pub AreServed : {D : Type 0} → ℕ → List (AccessZone D) → Type 0
AreServed start [] = Unit
AreServed start (z ∷ zs) =
    (z.offset ≡ start) × Serves z.count z.sub_gen × AreServed (start + z.count) zs

module _ {D R : Type 0} (num : Numerics D R) where
  -- The zone at a place, and the zones with another generator put there.
  pub record ZoneAt (k start : ℕ) (zs : List (AccessZone D)) : Type 0 where
    pub zone : AccessZone D
    pub fetched : fetch Fault.out_of_range zs k ≡ ok zone
    pub below : zone.offset + zone.count ≤ start + total zs
    pub serves : Serves zone.count zone.sub_gen
    pub replaced :
        (h : Plain D)
        → Serves zone.count h
        → AreServed start (set zs k (record zone { sub_gen = h }))
    pub same_total : (h : Plain D) → total (set zs k (record zone { sub_gen = h })) ≡ total zs
    pub same_freqs :
        (h : Plain D) (acc : D)
        → sum_freqs num (set zs k (record zone { sub_gen = h })) acc ≡ sum_freqs num zs acc

  pub zone_at :
      (k start : ℕ) (zs : List (AccessZone D))
      → AreServed start zs
      → k < length zs
      → ZoneAt k start zs
  unfolding AreServed total sum_freqs
  zone_at k start [] v h = absurd (omega (arith, h))
  zone_at zero start (z ∷ zs) v h = record {
    zone = z;
    fetched = refl;
    below = omega (arith, v.0);
    serves = v.1;
    replaced = λ g s. (v.0, s, v.2);
    same_total = λ g. refl;
    same_freqs = λ g acc. refl;
  }
  zone_at (suc k) start (z ∷ zs) v h =
      let rest = zone_at k (start + z.count) zs v.2 (omega (arith, h)) in
      record {
        zone = rest.zone;
        fetched = rest.fetched;
        below = omega (arith, rest.below);
        serves = rest.serves;
        replaced = λ g s. (v.0, v.1, rest.replaced g s);
        same_total = λ g. omega (arith, rest.same_total g);
        same_freqs = λ g acc. rest.same_freqs g (num.plus acc z.freq);
      }

  -- The scan ends at a zone when the whole sum is not below the number that was drawn.
  scan_zones-in :
      (rand acc : D) (id : ℕ) (zs : List (AccessZone D))
      → num.less (sum_freqs num zs acc) rand ≡ false
      → (k : ℕ) × (scan_zones num rand acc id zs ≡ ok k) × (k ≤ id + length zs)
  unfolding scan_zones sum_freqs
  scan_zones-in rand acc id [] h = (id, rw h refl, omega arith)
  scan_zones-in rand acc id (z ∷ zs) h = elim (Bool-cases (num.less acc rand)) [
    | inl e ↦
        let rest = scan_zones-in rand (num.plus acc z.freq) (id + 1) zs h in
        (rest.0, rw e rest.1, omega (arith, rest.2))
    | inr e ↦ (id, rw e refl, omega arith)
  ]

module _ {D R : Type 0} (num : Numerics D R) (lawful : IsLawful num) where
  -- `sumFreq` is the sum that the scan adds up, and positive.
  pub record IsWeighted (g : PatternGen D) : Type 0 where
    pub some_zone : 0 < length g.access_zones
    pub sum : g.sum_freq ≡ sum_freqs num g.access_zones num.zero_real
    pub positive : num.less num.zero_real g.sum_freq ≡ true

  pub pick_zone-in :
      (g : PatternGen D) (r : R)
      → IsWeighted g
      → (k : ℕ) × (pick_zone num g r ≡ ok (k, (num.uniform_real g.sum_freq r).1))
        × (k < length g.access_zones)
  unfolding pick_zone
  pick_zone-in g r w =
      let rand = (num.uniform_real g.sum_freq r).0 in
      let k =
        from g.access_zones rand w.some_zone
          (subst (λ s. num.less s rand ≡ false) w.sum (lawful.real g.sum_freq r w.positive)) in
      (k.0, rw (k.1, lt→ltb k.0 (length g.access_zones) k.2) refl, k.2)
    where
      from :
          (zs : List (AccessZone D)) (rand : D)
          → 0 < length zs
          → num.less (sum_freqs num zs num.zero_real) rand ≡ false
          → (k : ℕ) × (pick_from num rand zs ≡ ok k) × (k < length zs)
      from [] rand some h = absurd (omega (arith, some))
      from (z ∷ zs) rand some h =
          let k = scan_zones-in num rand z.freq 0 zs (
            subst (λ x. num.less (sum_freqs num zs x) rand ≡ false) (lawful.zero_plus z.freq)
              (unfold sum_freqs in h)) in
          (k.0, unfold pick_from in k.1, omega (arith, k.2))

  pub record IsZoned (g : PatternGen D) : Type 0 where
    pub weighted : IsWeighted g
    pub served : AreServed 0 g.access_zones
    pub covers : total g.access_zones ≡ g.own.logical_pages
    pub word : g.own.logical_pages < 2 ^ 64
