-- ===== src/Sim/Collect/Count.antt =====
-- How many pages each block holds while SSD::moveValidPagesTo of sim/SSD.hpp moves one.
use ssdiq.Prelude.{
  ℕ, ◌+◌, ◌*◌, ◌<◌, ◌≡◌, ◌≢◌, refl, sym, ap, ◌∙◌, inl, inr, arith, length, get_or, set, length-set,
  get_or-set_self, get_or-set_ne, get_or-ext, ℕ_discrete,
}
use ssdiq.Sim.Block.{unused}
use ssdiq.Sim.Block.Valid.{count_used, count_used-set, used_bit-used}
use ssdiq.Sim.Ssd.{Ssd}
use ssdiq.Sim.Ssd.Pages.{nth_block, page_at, page_at-inside, address-div, address-mod}
use ssdiq.Sim.Ssd.Valid.{IsValid}
use ssdiq.Sim.Ssd.Write.{Writes, valid_of}

-- A page in use is at one position only.
only_copy :
    (s : Ssd) (b p c q : ℕ)
    → IsValid s
    → page_at s.blocks b p ≢ unused
    → page_at s.blocks c q ≡ page_at s.blocks b p
    → (c ≡ b) × (q ≡ p)
only_copy s b p c q v u e =
    let k = page_at-inside s.blocks b p u in
    let w : page_at s.blocks c q ≢ unused = λ m. u (sym e ∙ m) in
    let j = page_at-inside s.blocks c q w in
    let ob = v.each b k.0 in
    let oc = v.each c j.0 in
    let hp : p < s.pages_per_block = omega (arith, k.1, ob.valid.sized, ob.same_size) in
    let hq : q < s.pages_per_block = omega (arith, j.1, oc.valid.sized, oc.same_size) in
    let same : c * s.pages_per_block + q ≡ b * s.pages_per_block + p =
      sym (v.consistent.backward c q w) ∙ rw e (v.consistent.backward b p u) in
    (
      sym (address-div s.pages_per_block c q hq) ∙ rw same (address-div s.pages_per_block b p hp),
      sym (address-mod s.pages_per_block c q hq) ∙ rw same (address-mod s.pages_per_block b p hp),
    )

module _ (source destination p : ℕ) (s s' : Ssd) (apart : destination ≢ source) (v : IsValid s)
    (u : page_at s.blocks source p ≢ unused)
    (w : Writes (page_at s.blocks source p) destination s s') where
  -- Away from the destination only the moved page changes.
  elsewhere :
      (c q : ℕ)
      → destination ≢ c
      → ¬ ((c ≡ source) × (q ≡ p))
      → page_at s'.blocks c q ≡ page_at s.blocks c q
  elsewhere c q h other = elim (w.moves.others c q) [
    | inl k ↦ absurd (h (sym k.0))
    | inr (inr kept) ↦ kept.0
    | inr (inl gone) ↦ elim (ℕ_discrete (page_at s.blocks c q) unused) [
      | yes free ↦ gone ∙ sym free
      | no page ↦ w.moves.stays c q page (λ e. other (only_copy s source p c q v u e))
    ]
  ]

  left : page_at s'.blocks source p ≡ unused
  left = elim (w.moves.others source p) [
    | inl k ↦ absurd (apart (sym k.0))
    | inr (inl gone) ↦ gone
    | inr (inr kept) ↦ absurd (kept.1 refl)
  ]

  same_length :
      (c : ℕ)
      → c < s.block_count
      → length (nth_block s'.blocks c).ptl ≡ length (nth_block s.blocks c).ptl
  same_length c h =
      let a = v.each c (omega (arith, v.all_blocks)) in
      let b = w.valid.each c (omega (arith, w.valid.all_blocks, w.shape.block_count)) in
      omega (arith, a.valid.sized, a.same_size, b.valid.sized, b.same_size, w.shape.pages_per_block)

  -- A page that moves leaves the source with one page less.
  pub source-valid_of : source < s.block_count → valid_of s' source + 1 ≡ valid_of s source
  source-valid_of h =
      let ptl = (nth_block s.blocks source).ptl in
      let k = page_at-inside s.blocks source p u in
      let e : (nth_block s'.blocks source).ptl ≡ set ptl p unused =
        get_or-ext _ _ unused (same_length source h ∙ sym (length-set ptl p unused)) (λ q. at q) in
      omega (
        arith,
        (v.each source k.0).valid.counted,
        (w.valid.each source
            (omega (arith, h, w.valid.all_blocks, w.shape.block_count))).valid.counted,
        ap count_used e,
        count_used-set ptl p unused k.1,
        used_bit-used (get_or ptl p unused) u,
      )
    where
      at :
          (q : ℕ)
          → page_at s'.blocks source q
            ≡ get_or (set (nth_block s.blocks source).ptl p unused) q unused
      at q = elim (ℕ_discrete p q) [
        | yes e ↦
            ap (page_at s'.blocks source) (sym e)
            ∙ left
            ∙ sym (
                get_or-set_self (nth_block s.blocks source).ptl p unused unused
                  (page_at-inside s.blocks source p u).1)
            ∙ ap (λ i. get_or (set (nth_block s.blocks source).ptl p unused) i unused) e
        | no ne ↦
            elsewhere source q apart (λ k. ne (sym k.1))
            ∙ sym (get_or-set_ne (nth_block s.blocks source).ptl p q unused unused ne)
      ]

  -- All other blocks but the destination hold what they held.
  pub other-valid_of :
      (c : ℕ) → c < s.block_count → destination ≢ c → source ≢ c → valid_of s' c ≡ valid_of s c
  other-valid_of c h hd hs =
      let e =
        get_or-ext (nth_block s'.blocks c).ptl (nth_block s.blocks c).ptl unused (same_length c h)
          (λ q. elsewhere c q hd (λ k. hs (sym k.0))) in
      (w.valid.each c (omega (arith, h, w.valid.all_blocks, w.shape.block_count))).valid.counted
      ∙ ap count_used e
      ∙ sym (v.each c (omega (arith, h, v.all_blocks))).valid.counted
