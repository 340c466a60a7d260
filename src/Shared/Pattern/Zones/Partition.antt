-- ===== src/Shared/Pattern/Zones/Partition.antt =====
-- initZoneAccessPattern of shared/PatternGen.hpp: the zones that it makes of the pages.
use ssdiq.Prelude.{
  ℕ, zero, suc, ◌+◌, ◌%◌, ◌^◌, ◌<◌, ◌≤◌, ◌≡◌, refl, ap, ◌∙◌, List, [], ◌∷◌, arith, Result, ok,
  add64, ne→==, length,
}
use native.Mathlib.Nat.{mod-lt}
use ssdiq.Shared.Pattern.{AccessZone}
use ssdiq.Shared.Pattern.Zones.{sum_counts, add_page, to_size, spread, set_offsets}

module _ {D : Type 0} where
  -- The pages of the zones, without wrap-around.
  unfoldable pub total : List (AccessZone D) → ℕ
  total [] = 0
  total (h ∷ hs) = h.count + total hs

  -- Every zone starts where the one before it ends, the first at `start`.
  unfoldable pub Follows : ℕ → List (AccessZone D) → Type 0
  Follows start [] = Unit
  Follows start (h ∷ hs) = (h.offset ≡ start) × Follows (start + h.count) hs

  -- The zones of `ys` are those of `xs`, with no fewer pages.
  unfoldable pub Extends : List (AccessZone D) → List (AccessZone D) → Type 0
  Extends [] [] = Unit
  Extends [] (y ∷ ys) = ⊥
  Extends (x ∷ xs) [] = ⊥
  Extends (x ∷ xs) (y ∷ ys) =
      (x.freq ≡ y.freq) × (x.pattern ≡ y.pattern) × (x.count ≤ y.count) × Extends xs ys

  pub Extends-refl : (xs : List (AccessZone D)) → Extends xs xs
  unfolding Extends
  Extends-refl [] = tt
  Extends-refl (x ∷ xs) = (refl, refl, omega arith, Extends-refl xs)

  pub Extends-trans :
      (xs ys zs : List (AccessZone D)) → Extends xs ys → Extends ys zs → Extends xs zs
  unfolding Extends
  Extends-trans [] [] [] h k = tt
  Extends-trans [] [] (z ∷ zs) h k = k
  Extends-trans [] (y ∷ ys) zs h k = absurd h
  Extends-trans (x ∷ xs) [] zs h k = absurd h
  Extends-trans (x ∷ xs) (y ∷ ys) [] h k = absurd k
  Extends-trans (x ∷ xs) (y ∷ ys) (z ∷ zs) h k =
      (h.0 ∙ k.0, h.1 ∙ k.1, omega (arith, h.2, k.2), Extends-trans xs ys zs h.3 k.3)

  pub Extends-length : (xs ys : List (AccessZone D)) → Extends xs ys → length xs ≡ length ys
  unfolding Extends
  Extends-length [] [] h = refl
  Extends-length [] (y ∷ ys) h = absurd h
  Extends-length (x ∷ xs) [] h = absurd h
  Extends-length (x ∷ xs) (y ∷ ys) h = ap suc (Extends-length xs ys h.3)

  pub sum_counts-total : (zs : List (AccessZone D)) → total zs < 2 ^ 64 → sum_counts zs ≡ total zs
  unfolding sum_counts total
  sum_counts-total [] h = refl
  sum_counts-total (z ∷ zs) h = omega (arith, sum_counts-total zs (omega (arith, h)), h)

  -- What a loop over the zones makes of them.
  pub record Grown (added : ℕ) (xs : List (AccessZone D)) (m : Result (List (AccessZone D)))
      : Type 0 where
    pub ys : List (AccessZone D)
    pub runs : m ≡ ok ys
    pub extends : Extends xs ys
    pub sum : total ys ≡ total xs + added

  add_page-Grown :
      (i : ℕ) (zs : List (AccessZone D))
      → i < length zs
      → total zs + 1 < 2 ^ 64
      → Grown 1 zs (add_page i zs)
  unfolding add_page total Extends
  add_page-Grown i [] h small = absurd (omega (arith, h))
  add_page-Grown zero (z ∷ zs) h small = record {
    ys = record z { count = add64 z.count 1 } ∷ zs;
    runs = refl;
    extends = (refl, refl, omega (arith, small), Extends-refl zs);
    sum = omega (arith, small);
  }
  add_page-Grown (suc i) (z ∷ zs) h small =
      let rest = add_page-Grown i zs (omega (arith, h)) (omega (arith, small)) in
      record {
        ys = z ∷ rest.ys;
        runs = rw rest.runs refl;
        extends = (refl, refl, omega arith, rest.extends);
        sum = omega (arith, rest.sum);
      }

  pub spread-Grown :
      (remaining i : ℕ) (zs : List (AccessZone D))
      → 0 < length zs
      → total zs + remaining < 2 ^ 64
      → Grown remaining zs (spread remaining i zs)
  unfolding spread
  spread-Grown zero i zs h small = record {
    ys = zs;
    runs = refl;
    extends = Extends-refl zs;
    sum = omega arith;
  }
  spread-Grown (suc remaining) i zs h small =
      let one =
        add_page-Grown (to_size i % length zs) zs (mod-lt (to_size i) h) (omega (arith, small)) in
      let more =
        spread-Grown remaining ((i + 1) % 2 ^ 32) one.ys
          (omega (arith, h, Extends-length zs one.ys one.extends))
          (omega (arith, small, one.sum)) in
      record {
        ys = more.ys;
        runs = rw (ne→== (length zs) 0 (omega (arith, h)), one.runs) more.runs;
        extends = Extends-trans zs one.ys more.ys one.extends more.extends;
        sum = omega (arith, one.sum, more.sum);
      }

  pub set_offsets-total : (at : ℕ) (zs : List (AccessZone D)) → total (set_offsets at zs) ≡ total zs
  unfolding set_offsets total
  set_offsets-total at [] = refl
  set_offsets-total at (z ∷ zs) = omega (arith, set_offsets-total (add64 at z.count) zs)

  pub set_offsets-Follows :
      (at : ℕ) (zs : List (AccessZone D)) → at + total zs < 2 ^ 64 → Follows at (set_offsets at zs)
  unfolding set_offsets total Follows
  set_offsets-Follows at [] h = tt
  set_offsets-Follows at (z ∷ zs) h =
      let e : add64 at z.count ≡ at + z.count = omega (arith, h) in
      rw e (refl, set_offsets-Follows (at + z.count) zs (omega (arith, h)))

  pub set_offsets-Extends : (at : ℕ) (zs : List (AccessZone D)) → Extends zs (set_offsets at zs)
  unfolding set_offsets Extends
  set_offsets-Extends at [] = tt
  set_offsets-Extends at (z ∷ zs) =
      (refl, refl, omega arith, set_offsets-Extends (add64 at z.count) zs)
