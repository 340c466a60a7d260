-- ===== src/Sim/TwoR/Region.antt =====
-- The regions of TwoR of sim/TwoR.hpp: their least blocks and their invalid pages.
use ssdiq.Prelude.{
  ℕ, ◌+◌, ◌-◌, ◌*◌, ◌^◌, ◌<◌, ◌≤◌, ◌≡◌, refl, ap, ◌∙◌, inl, inr, true, false, List, [], ◌∷◌, arith,
  length, ok, Fault, fetch-in, ltb, ltb→lt, ltb→ge, Bool-cases, add64, sub64, In, All,
}
use ssdiq.Sim.Ssd.{Ssd}
use ssdiq.Sim.Ssd.Pages.{nth_block, no_block}
use ssdiq.Sim.Ssd.Valid.{IsValid}
use ssdiq.Sim.Ssd.Write.{valid_of}
use ssdiq.Sim.Collect.{block_at}
use ssdiq.Sim.Collect.Chain.{held, valid_of-le}
use ssdiq.Sim.TwoR.{min_element, greedy_region, total_invalid_pages}

abbrev pub Inside : Ssd → List ℕ → Type 0
Inside s bs = All (λ b. b < s.block_count) bs

-- The invalid pages of the listed blocks.
unfoldable pub spare : Ssd → List ℕ → ℕ
spare s [] = 0
spare s (b ∷ bs) = (s.pages_per_block - valid_of s b) + spare s bs

pub block_at-ok :
    (s : Ssd) (b : ℕ) → IsValid s → b < s.block_count → block_at b s ≡ ok (nth_block s.blocks b)
block_at-ok s b v h =
    fetch-in Fault.undefined_access s.blocks b no_block (omega (arith, v.all_blocks, h))

-- The block that the search returns is in the region, and none there has fewer valid pages.
pub record IsLeastOf (s : Ssd) (bs : List ℕ) (m : ℕ) : Type 0 where
  pub member : In m bs
  pub least : (c : ℕ) → In c bs → valid_of s m ≤ valid_of s c

min_element-IsLeastOf :
    (s : Ssd) (bs : List ℕ) (best : ℕ)
    → IsValid s
    → Inside s (best ∷ bs)
    → (m : ℕ) × (min_element s best bs ≡ ok m) × IsLeastOf s (best ∷ bs) m
unfolding min_element
min_element-IsLeastOf s [] best v h = (
  best,
  refl,
  record {
    member = inl refl;
    least = λ c k. elim k [ inl e ↦ rw e (omega arith) | inr x ↦ absurd x ];
  },
)
min_element-IsLeastOf s (b ∷ bs) best v h =
    elim (Bool-cases (ltb (valid_of s b) (valid_of s best))) [
      | inl lt ↦ less lt (min_element-IsLeastOf s bs b v h.1)
      | inr ge ↦ more ge (min_element-IsLeastOf s bs best v (h.0, h.1.1))
    ]
  where
    less :
        ltb (valid_of s b) (valid_of s best) ≡ true
        → ((m : ℕ) × (min_element s b bs ≡ ok m) × IsLeastOf s (b ∷ bs) m)
        → (m : ℕ) × (min_element s best (b ∷ bs) ≡ ok m) × IsLeastOf s (best ∷ b ∷ bs) m
    less lt r = (
      r.0,
      rw (block_at-ok s b v h.1.0, block_at-ok s best v h.0, lt) r.1,
      record {
        member = inr r.2.member;
        least = λ c k. elim k [
          | inl e ↦
              rw e
                (omega (arith, r.2.least b (inl refl), ltb→lt (valid_of s b) (valid_of s best) lt))
          | inr k' ↦ r.2.least c k'
        ];
      },
    )

    more :
        ltb (valid_of s b) (valid_of s best) ≡ false
        → ((m : ℕ) × (min_element s best bs ≡ ok m) × IsLeastOf s (best ∷ bs) m)
        → (m : ℕ) × (min_element s best (b ∷ bs) ≡ ok m) × IsLeastOf s (best ∷ b ∷ bs) m
    more ge r = (
      r.0,
      rw (block_at-ok s b v h.1.0, block_at-ok s best v h.0, ge) r.1,
      record {
        member = elim r.2.member [ inl e ↦ inl e | inr k ↦ inr (inr k) ];
        least = λ c k. elim k [
          | inl e ↦ r.2.least c (inl e)
          | inr (inl e) ↦
              rw e (
                omega
                  (arith, r.2.least best (inl refl), ltb→ge (valid_of s b) (valid_of s best) ge))
          | inr (inr k') ↦ r.2.least c (inr k')
        ];
      },
    )

-- On a valid SSD and a region of its blocks that is not empty the search returns a block with the fewest valid pages of the region.
pub greedy_region-IsLeastOf :
    (s : Ssd) (b : ℕ) (bs : List ℕ)
    → IsValid s
    → Inside s (b ∷ bs)
    → (m : ℕ) × (greedy_region s (b ∷ bs) ≡ ok m) × IsLeastOf s (b ∷ bs) m
unfolding greedy_region
greedy_region-IsLeastOf s b bs v h = min_element-IsLeastOf s bs b v h

-- The number of invalid pages of a block does not wrap.
pub invalid-small :
    (s : Ssd) (b : ℕ)
    → IsValid s
    → b < s.block_count
    → sub64 s.pages_per_block (valid_of s b) ≡ s.pages_per_block - valid_of s b
invalid-small s b v h = omega (
  arith,
  valid_of-le s b v h,
  (v.each b (omega (arith, h, v.all_blocks))).valid.word,
  (v.each b (omega (arith, h, v.all_blocks))).same_size,
)

pub total_invalid_pages-spare :
    (s : Ssd) (bs : List ℕ) (n : ℕ)
    → IsValid s
    → Inside s bs
    → n + spare s bs < 2 ^ 64
    → total_invalid_pages s bs n ≡ ok (n + spare s bs)
unfolding total_invalid_pages spare
total_invalid_pages-spare s [] n v h small = ap ok (omega arith)
total_invalid_pages-spare s (b ∷ bs) n v h small =
    let own = invalid-small s b v h.0 in
    let e : add64 n (sub64 s.pages_per_block (valid_of s b))
        ≡ n + (s.pages_per_block - valid_of s b) =
      omega (arith, own, small) in
    rw (block_at-ok s b v h.0, e)
      (total_invalid_pages-spare s bs (n + (s.pages_per_block - valid_of s b)) v h.1
          (omega (arith, small))
        ∙ ap ok (omega arith))

-- Valid and invalid pages make up the blocks.
pub held-spare :
    (s : Ssd) (bs : List ℕ)
    → IsValid s
    → Inside s bs
    → held s bs + spare s bs ≡ length bs * s.pages_per_block
unfolding held spare
held-spare s [] v h = omega arith
held-spare s (b ∷ bs) v h = grind (arith, valid_of-le s b v h.0, held-spare s bs v h.1)
