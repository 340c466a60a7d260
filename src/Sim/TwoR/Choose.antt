-- ===== src/Sim/TwoR/Choose.antt =====
-- The choice of a region: TwoR::garbageCollectColdRegion of sim/TwoR.hpp, and the victims from it.
use ssdiq.Prelude.{
  ℕ, zero, suc, ◌+◌, ◌*◌, ◌^◌, ◌%◌, ◌<◌, ◌≤◌, ◌≡◌, ◌≢◌, refl, ap, ◌∙◌, ◌⊎◌, inl, inr, Bool, true,
  false, not, List, [], ◌∷◌, arith, length, ok, ltb, le→leb, lt→ltb, ge→ltb, Bool-cases, subst, In,
  All, Distinct, All-In, if◌then◌else◌, dec_lt,
}
use ssdiq.Sim.Block.{incache}
use ssdiq.Sim.Ssd.{Ssd}
use ssdiq.Sim.Ssd.Valid.{IsValid}
use ssdiq.Sim.Ssd.Write.{valid_of}
use ssdiq.Sim.Collect.Chain.{held}
use ssdiq.Sim.TwoR.{
  TwoR, greedy_region, total_invalid_pages, cold_is_least, normal_too_full, remove_all, Selection,
  garbage_collect_cold_region, select_loop, select_from, start_selection,
}
use ssdiq.Sim.TwoR.Region.{
  Inside, spare, block_at-ok, greedy_region-IsLeastOf, total_invalid_pages-spare, held-spare,
}
use ssdiq.Sim.TwoR.Select.{In-remove_all, remove_all-Without}
use ssdiq.Sim.Block.Used.{In?}

All-from : (P : ℕ → Type 0) (xs : List ℕ) → ((a : ℕ) → In a xs → P a) → All P xs
All-from P [] h = tt
All-from P (x ∷ xs) h = (h x (inl refl), All-from P xs (λ a k. h a (inr k)))

module _ (s : Ssd) where
  -- Distinct numbers below a bound are no more than the bound.
  pub pigeon : (n : ℕ) (xs : List ℕ) → All (λ b. b < n) xs → Distinct xs → length xs ≤ n
  pigeon zero [] h d = omega arith
  pigeon zero (x ∷ xs) h d = absurd (omega (arith, h.0))
  pigeon (suc n) xs h d = elim (In? n xs) [
    | inr out ↦ omega (
      arith,
      pigeon n xs
          (All-from (λ b. b < n) xs (λ a k. below a k (λ e. out (subst (λ t. In t xs) e k)))) d,
    )
    | inl m ↦
        let w = taken m in
        omega (
          arith,
          w.0,
          pigeon n (remove_all n xs)
              (All-from (λ b. b < n) (remove_all n xs)
                (λ a k. let r = In-remove_all a n xs k in below a r.0 r.1))
              w.1,
        )
  ]
    where
      below : (a : ℕ) → In a xs → a ≢ n → a < n
      below a k ne = omega (arith, All-In (λ b. b < suc n) xs a h k, ne)

      taken : In n xs → (length (remove_all n xs) + 1 ≡ length xs) × Distinct (remove_all n xs)
      taken m =
          let t = record s { block_count = suc n } in
          let w = remove_all-Without t n xs h d m in (w.shorter, w.distinct)

-- The invalid pages of distinct blocks fit in a word.
pub spare-fits :
    (s : Ssd) (bs : List ℕ) → IsValid s → Inside s bs → Distinct bs → spare s bs < 2 ^ 64
spare-fits s bs v i d =
    bounded (length bs) s.block_count s.pages_per_block (held s bs) (spare s bs)
      (pigeon s s.block_count bs i d) (held-spare s bs v i) v.address_space
  where
    bounded : (k m n x y : ℕ) → k ≤ m → x + y ≡ k * n → m * n ≤ incache → y < 2 ^ 64
    bounded k m n x y h e small = omega (arith, more k m n h, e, small)
      where
        more : (k m n : ℕ) → k ≤ m → k * n ≤ m * n
        more k m n h = grind arith

-- The regions that the collector chooses from.
pub record Regions (t : TwoR) : Type 0 where
  pub ssd : IsValid t.ssd
  pub normal_inside : Inside t.ssd t.normal_blocks
  pub normal_distinct : Distinct t.normal_blocks
  pub cold_inside : Inside t.ssd t.cold_blocks
  pub cold_distinct : Distinct t.cold_blocks

-- One region has the invalid pages of a block.
abbrev pub Enough : TwoR → Type 0
Enough t =
    (t.ssd.pages_per_block ≤ spare t.ssd t.cold_blocks)
    ⊎ (t.ssd.pages_per_block ≤ spare t.ssd t.normal_blocks)

abbrev pub chosen : Bool → TwoR → List ℕ
chosen cold t = if cold then t.cold_blocks else t.normal_blocks

least_of :
    (s : Ssd) (bs : List ℕ)
    → IsValid s
    → Inside s bs
    → s.pages_per_block ≤ spare s bs
    → (m : ℕ) × (greedy_region s bs ≡ ok m) × (m < s.block_count)
unfolding spare
least_of s [] v i e = absurd (omega (arith, v.paged, e))
least_of s (b ∷ bs) v i e =
    let r = greedy_region-IsLeastOf s b bs v i in
    (r.0, r.1, All-In (λ c. c < s.block_count) (b ∷ bs) r.0 i r.2.member)

total-ok :
    (s : Ssd) (bs : List ℕ)
    → IsValid s
    → Inside s bs
    → Distinct bs
    → total_invalid_pages s bs 0 ≡ ok (spare s bs)
total-ok s bs v i d =
    total_invalid_pages-spare s bs 0 v i (omega (arith, spare-fits s bs v i d))
    ∙ ap ok (omega arith)

module _ (t : TwoR) (g : Regions t) where
  cold_is_least-ok :
      t.ssd.pages_per_block ≤ spare t.ssd t.cold_blocks
      → t.ssd.pages_per_block ≤ spare t.ssd t.normal_blocks
      → (c : Bool) × (cold_is_least t ≡ ok c)
  unfolding cold_is_least
  cold_is_least-ok cold normal =
      let h = least_of t.ssd t.normal_blocks g.ssd g.normal_inside normal in
      let c = least_of t.ssd t.cold_blocks g.ssd g.cold_inside cold in
      (
        not (ltb ((valid_of t.ssd h.0) % 2 ^ 32) ((valid_of t.ssd c.0) % 2 ^ 32)),
        rw (h.1, block_at-ok t.ssd h.0 g.ssd h.2, c.1, block_at-ok t.ssd c.0 g.ssd c.2) refl,
      )

  region-few :
      spare t.ssd t.cold_blocks < t.ssd.pages_per_block → garbage_collect_cold_region t ≡ ok false
  unfolding garbage_collect_cold_region
  region-few h =
      rw
        (
          total-ok t.ssd t.cold_blocks g.ssd g.cold_inside g.cold_distinct,
          lt→ltb (spare t.ssd t.cold_blocks) t.ssd.pages_per_block h,
        )
        refl

  region-many :
      t.ssd.pages_per_block ≤ spare t.ssd t.cold_blocks
      → garbage_collect_cold_region t ≡ normal_too_full t
  unfolding garbage_collect_cold_region
  region-many h =
      rw
        (
          total-ok t.ssd t.cold_blocks g.ssd g.cold_inside g.cold_distinct,
          ge→ltb (spare t.ssd t.cold_blocks) t.ssd.pages_per_block h,
        )
        refl

  normal-few : spare t.ssd t.normal_blocks < t.ssd.pages_per_block → normal_too_full t ≡ ok true
  unfolding normal_too_full
  normal-few h =
      rw
        (
          total-ok t.ssd t.normal_blocks g.ssd g.normal_inside g.normal_distinct,
          lt→ltb (spare t.ssd t.normal_blocks) t.ssd.pages_per_block h,
        )
        refl

  normal-many :
      t.ssd.pages_per_block ≤ spare t.ssd t.normal_blocks → normal_too_full t ≡ cold_is_least t
  unfolding normal_too_full
  normal-many h =
      rw
        (
          total-ok t.ssd t.normal_blocks g.ssd g.normal_inside g.normal_distinct,
          ge→ltb (spare t.ssd t.normal_blocks) t.ssd.pages_per_block h,
        )
        refl

  -- The chosen region has the invalid pages of a block whenever one of the two has.
  pub garbage_collect_cold_region-Enough :
      Enough t
      → (c : Bool) × (garbage_collect_cold_region t ≡ ok c)
        × (t.ssd.pages_per_block ≤ spare t.ssd (chosen c t))
  garbage_collect_cold_region-Enough e =
      elim (dec_lt (spare t.ssd t.cold_blocks) t.ssd.pages_per_block) [
        | yes few ↦ (false, region-few few, elim e [ inl k ↦ absurd (omega arith) | inr k ↦ k ])
        | no many ↦ elim (dec_lt (spare t.ssd t.normal_blocks) t.ssd.pages_per_block) [
          | yes few ↦ (true, region-many (omega arith) ∙ normal-few few, omega arith)
          | no plenty ↦
              let r = cold_is_least-ok (omega arith) (omega arith) in
              (
                r.0,
                region-many (omega arith) ∙ normal-many (omega arith) ∙ r.1,
                elim (Bool-cases r.0) [ inl y ↦ rw y (omega arith) | inr n ↦ rw n (omega arith) ],
              )
        ]
      ]

  pub chosen-Inside : (c : Bool) → Inside t.ssd (chosen c t)
  chosen-Inside true = g.cold_inside
  chosen-Inside false = g.normal_inside

  pub chosen-Distinct : (c : Bool) → Distinct (chosen c t)
  chosen-Distinct true = g.cold_distinct
  chosen-Distinct false = g.normal_distinct

  abbrev pub without : Bool → Selection → TwoR
  without c x = record t {
    cold_blocks = if c then x.region else t.cold_blocks;
    normal_blocks = if c then t.normal_blocks else x.region;
  }

  pub select_from-ok :
      (fuel : ℕ) (c : Bool) (x : Selection)
      → select_loop fuel t.ssd (start_selection (chosen c t)) ≡ ok x
      → t.ssd.pages_per_block ≤ x.total_invalid
      → select_from fuel c t ≡ ok (x.victim_ids, without c x)
  unfolding select_from
  select_from-ok fuel c x e h = rw (e, le→leb t.ssd.pages_per_block x.total_invalid h) refl
