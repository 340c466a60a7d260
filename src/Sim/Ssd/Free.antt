-- ===== src/Sim/Ssd/Free.antt =====
-- How a page that is written anew gives up its old copy: the first half of
-- SSD::writePageWithoutCaching of sim/SSD.hpp.
use ssdiq.Prelude.{
  ℕ, ◌+◌, ◌*◌, ◌/◌, ◌%◌, ◌^◌, ◌≤◌, ◌<◌, ◌≡◌, ◌≢◌, refl, sym, ap, ◌∙◌, ◌⊎◌, inl, inr, true, false,
  List, arith, length, get_or, set, length-set, get_or-set_self, get_or-set_ne, ℕ_discrete, ok,
  Fault, fetch-in, lt→ltb, sub64,
}
use ssdiq.Sim.Block.{Block, unused, incache}
use ssdiq.Sim.Block.Valid as BlockValid
use ssdiq.Sim.Block.Valid.{cleared, written}
use ssdiq.Sim.Ssd.{Ssd, is_address, free_page}
use ssdiq.Sim.Ssd.Pages.{
  nth_block, no_block, page_at, page_at-set_self, page_at-set_ne, field-set_same, page_at-inside,
  address-div, address-mod, address-lt,
}
use ssdiq.Sim.Ssd.Consistent.{Consistent, mapped, is_address-small}
use ssdiq.Sim.Ssd.Valid.{Each, Each-set, IsPlaced, sum_valid, sum_valid-set, mapped_bit}

-- The blocks after the old copy of page `l` has been given up.
pub record Frees (n l : ℕ) (bs : List Block) (ltp : List ℕ) (bs' : List Block) : Type 0 where
  pub same_length : length bs' ≡ length bs
  pub each : Each n bs'
  pub pages :
      (c q : ℕ)
      → (page_at bs' c q ≡ unused) ⊎ ((page_at bs' c q ≡ page_at bs c q) × (page_at bs c q ≢ l))
  pub stays :
      (c q : ℕ) → page_at bs c q ≢ unused → page_at bs c q ≢ l → page_at bs' c q ≡ page_at bs c q
  pub heads : (c : ℕ) → (nth_block bs' c).write_pos ≡ (nth_block bs c).write_pos
  pub total : sum_valid bs' + mapped_bit (mapped ltp l) ≡ sum_valid bs

module _ (n l : ℕ) (bs : List Block) (ltp : List ℕ) (space : length bs * n ≤ incache)
    (small : l < incache) (e : Each n bs) (c : Consistent n bs ltp) where
  -- An unmapped page has no copy.
  no_copy : (b q : ℕ) → is_address (mapped ltp l) ≡ false → page_at bs b q ≢ l
  no_copy b q un here =
      let inside = page_at-inside bs b q (omega arith) in
      let own = e b inside.0 in
      let at_home : mapped ltp l ≡ b * n + q =
        ap (mapped ltp) (sym here) ∙ c.backward b q (omega arith) in
      let below : b * n + q < length bs * n =
        address-lt n (length bs) b q inside.0
          (omega (arith, inside.1, own.valid.sized, own.same_size)) in
      true≢false (sym (is_address-small (mapped ltp l) (omega (arith, at_home, below))) ∙ un)
    where
      true≢false : true ≡ false → ⊥
      true≢false h = cc

  pub unmapped-Frees : is_address (mapped ltp l) ≡ false → Frees n l bs ltp bs
  unmapped-Frees un = record {
    same_length = refl;
    each = e;
    pages = λ d q. inr (refl, no_copy d q un);
    stays = λ d q u v. refl;
    heads = λ d. refl;
    total = rw un (omega arith);
  }

  module _ (is : is_address (mapped ltp l) ≡ true) where
    abbrev pub z : ℕ
    z = mapped ltp l / n

    abbrev pub p : ℕ
    p = mapped ltp l % n

    copy : page_at bs z p ≡ l
    copy = c.forward l is

    copy_inside : (z < length bs) × (p < length (nth_block bs z).ptl)
    copy_inside = page_at-inside bs z p (omega (arith, copy))

    copy_used : get_or (nth_block bs z).ptl p unused ≢ unused
    copy_used = omega (arith, copy)

    freed : List Block
    freed = set bs z (cleared p (nth_block bs z))

    at_copy : (q : ℕ) → page_at freed z q ≡ get_or (set (nth_block bs z).ptl p unused) q unused
    unfolding freed
    at_copy q = page_at-set_self bs z q _ copy_inside.0

    -- Only the old copy is gone.
    freed_at : page_at freed z p ≡ unused
    freed_at = at_copy p ∙ get_or-set_self (nth_block bs z).ptl p unused unused copy_inside.1

    freed_ne : (d q : ℕ) → ¬ ((z ≡ d) × (p ≡ q)) → page_at freed d q ≡ page_at bs d q
    unfolding freed
    freed_ne d q h = elim (ℕ_discrete z d) [
      | no other ↦ page_at-set_ne bs z d q _ other
      | yes same ↦
          ap (λ k. page_at freed k q) (sym same)
          ∙ at_copy q
          ∙ get_or-set_ne (nth_block bs z).ptl p q unused unused (λ k. h (same, k))
          ∙ ap (λ k. page_at bs k q) same
    ]

    only_copy : (d q : ℕ) → page_at bs d q ≡ l → (z ≡ d) × (p ≡ q)
    only_copy d q here =
        let inside = page_at-inside bs d q (omega arith) in
        let own = e d inside.0 in
        let low : q < n = omega (arith, inside.1, own.valid.sized, own.same_size) in
        let at_home : mapped ltp l ≡ d * n + q =
          ap (mapped ltp) (sym here) ∙ c.backward d q (omega arith) in
        (
          ap (λ a. a / n) at_home ∙ address-div n d q low,
          ap (λ a. a % n) at_home ∙ address-mod n d q low,
        )

    here? : (d q : ℕ) → ((z ≡ d) × (p ≡ q)) ⊎ (¬ ((z ≡ d) × (p ≡ q)))
    here? d q = elim (ℕ_discrete z d) [
      | no other ↦ inr (λ k. other k.0)
      | yes same ↦ elim (ℕ_discrete p q) [ yes k ↦ inl (same, k) | no k ↦ inr (λ m. k m.1) ]
    ]

    pub mapped-Frees : Frees n l bs ltp (set bs z (cleared p (nth_block bs z)))
    unfolding freed
    mapped-Frees = record {
      same_length = length-set bs z _;
      each = Each-set n z bs (cleared p (nth_block bs z)) placed e;
      pages = λ d q. elim (here? d q) [
        | inl k ↦ inl (rw (← k.0, ← k.1) freed_at)
        | inr k ↦ inr (freed_ne d q k, λ m. k (only_copy d q m))
      ];
      stays = λ d q u v. elim (here? d q) [
        | inl k ↦ absurd (v (rw (← k.0, ← k.1) copy))
        | inr k ↦ freed_ne d q k
      ];
      heads = λ d. field-set_same (λ y. y.write_pos) bs z d _ copy_inside.0 refl;
      total = rw is (omega (arith, own.valid.counted, used_some, total));
    }
      where
        own : IsPlaced n z (nth_block bs z)
        own = e z copy_inside.0

        placed : IsPlaced n z (cleared p (nth_block bs z))
        placed = record {
          valid = BlockValid.cleared-IsValid p (nth_block bs z) own.valid copy_inside.1 copy_used;
          same_size = own.same_size;
          own_id = own.own_id;
        }

        total :
            sum_valid (set bs z (cleared p (nth_block bs z))) + (nth_block bs z).valid_cnt
            ≡ sum_valid bs + sub64 (nth_block bs z).valid_cnt 1
        total = sum_valid-set bs z (cleared p (nth_block bs z)) copy_inside.0

        used_some : (1 ≤ (nth_block bs z).valid_cnt) × ((nth_block bs z).valid_cnt < 2 ^ 64)
        used_some = BlockValid.valid_cnt-pos p (nth_block bs z) own.valid copy_inside.1 copy_used

    -- `_blocks.at(z).setUnused(p)` finds the old copy.
    pub free_page-ok :
        (s : Ssd)
        → s.blocks ≡ bs
        → s.pages_per_block ≡ n
        → free_page (mapped ltp l) s
          ≡ ok (record s { blocks = set bs z (cleared p (nth_block bs z)) })
    unfolding free_page
    free_page-ok s eb en = rw (
      eb,
      en,
      lt→ltb _ _ copy_inside.0,
      fetch-in Fault.out_of_range bs z no_block copy_inside.0,
      BlockValid.set_unused-used p (nth_block bs z) copy_inside.1 copy_used,
    )
