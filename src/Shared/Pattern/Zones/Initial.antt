-- ===== src/Shared/Pattern/Zones/Initial.antt =====
-- initZoneAccessPattern of shared/PatternGen.hpp as a whole.
use ssdiq.Prelude.{
  ℕ, suc, ◌+◌, ◌-◌, ◌^◌, ◌<◌, ◌≤◌, ◌≡◌, refl, sym, ap, ◌∙◌, ◌⊎◌, inl, inr, List, [], ◌∷◌, arith, ok,
  err, Fault, sub64, to_int64, lt→ltb, ge→ltb, ==-refl, length, dec_lt, ◌>>=◌,
}
use ssdiq.Shared.Pattern.{Numerics, AccessZone}
use ssdiq.Shared.Pattern.Zones.{
  new_plain, sum_rel_sizes, sum_freqs, set_counts, set_offsets, not_negative, make_sub_gens,
  init_zone_access_pattern, zipf_elements,
}
use ssdiq.Shared.Pattern.Zones.Partition.{
  total, Follows, Extends, Extends-trans, sum_counts-total, spread-Grown, set_offsets-total,
  set_offsets-Follows, set_offsets-Extends,
}

-- Every zone has a page.
unfoldable pub HavePages : {D : Type 0} → List (AccessZone D) → Type 0
HavePages [] = Unit
HavePages (z ∷ zs) = (0 < z.count) × HavePages zs

pub zipf_elements-ok : (n : ℕ) → 0 < n → n < 2 ^ 63 → zipf_elements n ≡ ok tt
unfolding zipf_elements
zipf_elements-ok n some small = rw (lt→ltb 0 n some, lt→ltb n (2 ^ 63) small) refl

some_or_none : {D : Type 0} (zs : List (AccessZone D)) → HavePages zs ⊎ ¬ HavePages zs
unfolding HavePages
some_or_none [] = inl tt
some_or_none (z ∷ zs) = elim (dec_lt 0 z.count) [
  | no none ↦ inr (λ h. none h.0)
  | yes some ↦ elim (some_or_none zs) [
    | inl rest ↦ inl (some, rest)
    | inr rest ↦ inr (λ h. rest h.1)
  ]
]

module _ {D R : Type 0} (num : Numerics D R) where
  -- Every zone has a generator for its own pattern and pages, the first one with number `n`.
  unfoldable pub HaveGens : ℕ → List (AccessZone D) → Type 0
  HaveGens n [] = Unit
  HaveGens n (h ∷ hs) =
      (h.sub_gen ≡ new_plain num n h.pattern h.count h.skew_factor h.shuffle) × HaveGens (n + 1) hs

  -- The zones with the pages that their relative sizes give them, before the rest is spread.
  abbrev pub shares : ℕ → List (AccessZone D) → List (AccessZone D)
  shares page_count zones = set_counts num (sum_rel_sizes num zones num.zero_real) page_count zones

  pub record Partitions (page_count : ℕ) (zones : List (AccessZone D))
      (made : List (AccessZone D) × D) : Type 0 where
    pub placed : Follows 0 made.0
    pub sum : total made.0 ≡ page_count
    pub extends : Extends (shares page_count zones) made.0
    pub generators : HaveGens 1 made.0
    pub frequency : made.1 ≡ sum_freqs num made.0 num.zero_real
    pub same_frequency : made.1 ≡ sum_freqs num zones num.zero_real

  -- The zones with their generators.
  unfoldable with_gens : ℕ → List (AccessZone D) → List (AccessZone D)
  with_gens n [] = []
  with_gens n (h ∷ hs) =
      record h { sub_gen = new_plain num n h.pattern h.count h.skew_factor h.shuffle }
      ∷ with_gens (n + 1) hs

  make_sub_gens-ok :
      (n : ℕ) (zs : List (AccessZone D))
      → HavePages zs
      → total zs < 2 ^ 63
      → make_sub_gens num n zs ≡ ok (with_gens n zs)
  unfolding make_sub_gens with_gens HavePages total
  make_sub_gens-ok n [] h small = refl
  make_sub_gens-ok n (z ∷ zs) h small =
      rw
        (
          zipf_elements-ok z.count h.0 (omega (arith, small)),
          make_sub_gens-ok (n + 1) zs h.1 (omega (arith, small)),
        )
        refl

  make_sub_gens-fails :
      (n : ℕ) (zs : List (AccessZone D))
      → ¬ HavePages zs
      → total zs < 2 ^ 63
      → make_sub_gens num n zs ≡ err Fault.invalid_argument
  unfolding make_sub_gens HavePages total zipf_elements
  make_sub_gens-fails n [] h small = absurd (h tt)
  make_sub_gens-fails n (z ∷ zs) h small = elim (dec_lt 0 z.count) [
    | yes some ↦
        rw
          (
            zipf_elements-ok z.count some (omega (arith, small)),
            make_sub_gens-fails (n + 1) zs (λ k. h (some, k)) (omega (arith, small)),
          )
          refl
    | no none ↦ rw (ge→ltb 0 z.count (omega arith)) refl
  ]

  HavePages-with_gens :
      (n : ℕ) (zs : List (AccessZone D)) → HavePages zs → HavePages (with_gens n zs)
  unfolding HavePages with_gens
  HavePages-with_gens n [] h = tt
  HavePages-with_gens n (z ∷ zs) h = (h.0, HavePages-with_gens (n + 1) zs h.1)

  with_gens-HaveGens : (n : ℕ) (zs : List (AccessZone D)) → HaveGens n (with_gens n zs)
  unfolding with_gens HaveGens
  with_gens-HaveGens n [] = tt
  with_gens-HaveGens n (z ∷ zs) = (refl, with_gens-HaveGens (n + 1) zs)

  with_gens-Follows :
      (at n : ℕ) (zs : List (AccessZone D)) → Follows at zs → Follows at (with_gens n zs)
  unfolding with_gens Follows
  with_gens-Follows at n [] h = tt
  with_gens-Follows at n (z ∷ zs) h = (h.0, with_gens-Follows (at + z.count) (n + 1) zs h.1)

  with_gens-total : (n : ℕ) (zs : List (AccessZone D)) → total (with_gens n zs) ≡ total zs
  unfolding with_gens total
  with_gens-total n [] = refl
  with_gens-total n (z ∷ zs) = omega (arith, with_gens-total (n + 1) zs)

  with_gens-Extends : (n : ℕ) (zs : List (AccessZone D)) → Extends zs (with_gens n zs)
  unfolding with_gens Extends
  with_gens-Extends n [] = tt
  with_gens-Extends n (z ∷ zs) = (refl, refl, omega arith, with_gens-Extends (n + 1) zs)

  length-set_counts :
      (sum : D) (n : ℕ) (zs : List (AccessZone D)) → length (set_counts num sum n zs) ≡ length zs
  unfolding set_counts
  length-set_counts sum n [] = refl
  length-set_counts sum n (z ∷ zs) = ap suc (length-set_counts sum n zs)

  pub length-shares : (n : ℕ) (zs : List (AccessZone D)) → length (shares n zs) ≡ length zs
  length-shares n zs = length-set_counts (sum_rel_sizes num zs num.zero_real) n zs

  sum_freqs-set_counts :
      (sum acc : D) (n : ℕ) (zs : List (AccessZone D))
      → sum_freqs num (set_counts num sum n zs) acc ≡ sum_freqs num zs acc
  unfolding set_counts sum_freqs
  sum_freqs-set_counts sum acc n [] = refl
  sum_freqs-set_counts sum acc n (z ∷ zs) = sum_freqs-set_counts sum (num.plus acc z.freq) n zs

  sum_freqs-Extends :
      (acc : D) (xs ys : List (AccessZone D))
      → Extends xs ys
      → sum_freqs num xs acc ≡ sum_freqs num ys acc
  unfolding sum_freqs Extends
  sum_freqs-Extends acc [] [] h = refl
  sum_freqs-Extends acc [] (y ∷ ys) h = absurd h
  sum_freqs-Extends acc (x ∷ xs) [] h = absurd h
  sum_freqs-Extends acc (x ∷ xs) (y ∷ ys) h =
      rw h.0 (sum_freqs-Extends (num.plus acc y.freq) xs ys h.3)

  remaining-some : (a n : ℕ) → a ≤ n → n < 2 ^ 63 → not_negative (to_int64 (sub64 n a)) ≡ ok (n - a)
  unfolding not_negative
  remaining-some a n h k =
      let e : sub64 n a ≡ n - a = omega (arith, h, k) in
      rw (e, lt→ltb (n - a) (2 ^ 63) (omega (arith, k))) refl

  remaining-negative :
      (a n : ℕ) → n < a → a < 2 ^ 63 → not_negative (to_int64 (sub64 n a)) ≡ err Fault.ensure_failed
  unfolding not_negative
  remaining-negative a n h k =
      let e : sub64 n a ≡ n + 2 ^ 64 - a = omega (arith, h, k) in
      rw (e, ge→ltb (n + 2 ^ 64 - a) (2 ^ 63) (omega (arith, h, k))) refl

  -- Zones that are laid out, and have no generators yet.
  pub record IsLaidOut (n : ℕ) (zones placed : List (AccessZone D)) : Type 0 where
    pub follows : Follows 0 placed
    pub sum : total placed ≡ n
    pub extends : Extends (shares n zones) placed

  module _ (n : ℕ) (zones : List (AccessZone D)) (some_zone : 0 < length zones)
      (small : n < 2 ^ 63) where
    laid_out :
        total (shares n zones) ≤ n
        → (placed : List (AccessZone D)) × IsLaidOut n zones placed
          × (init_zone_access_pattern num n zones ≡ (
              make_sub_gens num 1 placed >>= λ made. ok (made, sum_freqs num zones num.zero_real)))
    unfolding init_zone_access_pattern
    laid_out h =
        let counted = shares n zones in
        let left = n - total counted in
        let grown =
          spread-Grown left 0 counted
            (omega
              (arith, some_zone, length-set_counts (sum_rel_sizes num zones num.zero_real) n zones))
            (omega (arith, h, small)) in
        let placed = set_offsets 0 grown.ys in
        let sum : total placed ≡ n = omega (arith, set_offsets-total 0 grown.ys, grown.sum, h) in
        (
          placed,
          record {
            follows = set_offsets-Follows 0 grown.ys (omega (arith, grown.sum, h, small));
            sum = sum;
            extends =
                Extends-trans counted grown.ys placed grown.extends
                  (set_offsets-Extends 0 grown.ys);
          },
          rw
              (
                sum_counts-total counted (omega (arith, h, small)),
                remaining-some (total counted) n h small,
                grown.runs,
                sum_counts-total placed (omega (arith, sum, small)),
                sum,
                ==-refl n,
              )
              refl,
        )

    with_gens-Partitions :
        (placed : List (AccessZone D))
        → IsLaidOut n zones placed
        → Partitions n zones (with_gens 1 placed, sum_freqs num zones num.zero_real)
    with_gens-Partitions placed l =
        let counted = shares n zones in
        let zs = with_gens 1 placed in
        let extends = Extends-trans counted placed zs l.extends (with_gens-Extends 1 placed) in
        record {
          placed = with_gens-Follows 0 1 placed l.follows;
          sum = with_gens-total 1 placed ∙ l.sum;
          extends = extends;
          generators = with_gens-HaveGens 1 placed;
          frequency =
              sym
                (sum_freqs-set_counts (sum_rel_sizes num zones num.zero_real) num.zero_real n zones)
              ∙ sum_freqs-Extends num.zero_real counted zs extends;
          same_frequency = refl;
        }

    -- For at least one zone, fewer than 2^63 pages and shares of fewer than 2^63 pages in all,
    -- initZoneAccessPattern ends. If the shares exceed the pages, it fails with EnsureFailed. If not, it
    -- lays out zones that follow each other without a gap from page 0 to the last page, each with at least
    -- its share: if each of them has a page, it returns them with a generator each for its pages and the
    -- sum of their frequencies, and if one has none, the sampler of its generator throws
    -- std::invalid_argument.
    pub init_zone_access_pattern-Partitions :
        total (shares n zones) < 2 ^ 63
        → ((total (shares n zones) ≤ n)
            × (made : List (AccessZone D) × D) × (init_zone_access_pattern num n zones ≡ ok made)
            × Partitions n zones made
            × HavePages made.0)
          ⊎ ((total (shares n zones) ≤ n)
              × (placed : List (AccessZone D)) × IsLaidOut n zones placed
              × (¬ HavePages placed)
              × (init_zone_access_pattern num n zones ≡ err Fault.invalid_argument))
          ⊎ ((n < total (shares n zones))
              × (init_zone_access_pattern num n zones ≡ err Fault.ensure_failed))
    init_zone_access_pattern-Partitions h = elim (dec_lt n (total (shares n zones))) [
      | yes over ↦ inr (inr (over, too_many over))
      | no within ↦
          let fits : total (shares n zones) ≤ n = omega arith in
          let l = laid_out fits in
          let few : total l.0 < 2 ^ 63 = omega (arith, l.1.sum, small) in
          elim (some_or_none l.0) [
            | inl pages ↦ inl (
              fits,
              (with_gens 1 l.0, sum_freqs num zones num.zero_real),
              rw (l.2, make_sub_gens-ok 1 l.0 pages few) refl,
              with_gens-Partitions l.0 l.1,
              HavePages-with_gens 1 l.0 pages,
            )
            | inr bare ↦
                inr (inl (fits, l.0, l.1, bare, rw (l.2, make_sub_gens-fails 1 l.0 bare few) refl))
          ]
    ]
      where
        too_many :
            n < total (shares n zones)
            → init_zone_access_pattern num n zones ≡ err Fault.ensure_failed
        too_many over =
            unfold init_zone_access_pattern in
            rw
              (
                sum_counts-total (shares n zones) (omega (arith, h)),
                remaining-negative (total (shares n zones)) n over h,
              )
              refl
