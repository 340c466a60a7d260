-- ===== src/Sim/Ssd/Pack.antt =====
-- Why SSD::compactBlock of sim/SSD.hpp keeps the mapping and the page tables in agreement.
use ssdiq.Prelude.{
  ℕ, ◌+◌, ◌-◌, ◌*◌, ◌/◌, ◌%◌, ◌≤◌, ◌<◌, ◌≡◌, ◌≢◌, refl, sym, ap, ◌∙◌, inl, inr, true, List, [], ◌∷◌,
  arith, length, get_or, set, ℕ_discrete, In, Distinct, All, dec_lt, subst,
}
use ssdiq.Sim.Block.{Block, unused, incache}
use ssdiq.Sim.Block.Valid as BlockValid
use ssdiq.Sim.Block.Compact.{used, packed, length-used, get_or-packed_high, get_or-packed_low}
use ssdiq.Sim.Block.Used.{In?, In-index, In-used, used-index, Distinct-used, IsInjective}
use ssdiq.Sim.Ssd.{is_address}
use ssdiq.Sim.Ssd.Pages.{
  nth_block, page_at, page_at-set_self, page_at-set_ne, page_at-inside, address-div, address-mod,
  address-lt,
}
use ssdiq.Sim.Ssd.Consistent.{Consistent, mapped, is_address-small, mapped-inside}
use ssdiq.Sim.Ssd.Valid.{Each, IsPlaced}
use ssdiq.Sim.Ssd.Relocate.{relocated, relocated-in, relocated-out}

module _ (n b : ℕ) (bs : List Block) (ltp : List ℕ) (x : Block) (inside : b < length bs)
    (space : length bs * n ≤ incache) (small : length ltp ≤ incache) (e : Each n bs)
    (c : Consistent n bs ltp) (packs : x.ptl ≡ packed n (nth_block bs b).ptl) where
  abbrev old : Block
  old = nth_block bs b

  abbrev pages : List ℕ
  pages = used old.ptl

  own : IsPlaced n b old
  own = e b inside

  full_length : length old.ptl ≡ n
  full_length = own.valid.sized ∙ own.same_size

  at_home :
      (q : ℕ) → get_or old.ptl q unused ≢ unused → mapped ltp (get_or old.ptl q unused) ≡ b * n + q
  at_home q u = c.backward b q u

  position : (q : ℕ) → get_or old.ptl q unused ≢ unused → q < n
  position q u = omega (arith, (page_at-inside bs b q u).1, full_length)

  injective : IsInjective old.ptl
  injective i j u k =
      sym (address-mod n b i (position i u))
      ∙ ap (λ a. a % n) (sym (at_home i u) ∙ ap (mapped ltp) k ∙ at_home j (λ m. u (k ∙ m)))
      ∙ address-mod n b j (position j (λ m. u (k ∙ m)))

  pub distinct : Distinct pages
  distinct = Distinct-used old.ptl injective

  -- A listed page is mapped to this block.
  listed : (k : ℕ) → In k pages → (i : ℕ) × (i < n) × (mapped ltp k ≡ b * n + i)
  listed k h =
      let r = used-index k old.ptl h in
      let u : get_or old.ptl r.0 unused ≢ unused = λ m. r.3 (sym r.2 ∙ m) in
      (r.0, position r.0 u, ap (mapped ltp) (sym r.2) ∙ at_home r.0 u)

  listed_address : (k : ℕ) → In k pages → is_address (mapped ltp k) ≡ true
  listed_address k h =
      let r = listed k h in
      is_address-small (mapped ltp k)
        (omega (arith, r.2, address-lt n (length bs) b r.0 inside r.1))

  All-listed : {P : ℕ → Type 0} (xs : List ℕ) → ((k : ℕ) → In k xs → P k) → All P xs
  All-listed [] f = tt
  All-listed (k ∷ xs) f = (f k (inl refl), All-listed xs (λ j h. f j (inr h)))

  pub All-mapped : All (λ k. is_address (mapped ltp k) ≡ true) pages
  All-mapped = All-listed pages listed_address

  pub All-inside : All (λ k. k < length ltp) pages
  All-inside = All-listed pages (λ k h. mapped-inside n ltp k (listed_address k h))

  abbrev bs' : List Block
  bs' = set bs b x

  abbrev ltp' : List ℕ
  ltp' = relocated n b pages 0 ltp

  page_low : (q : ℕ) → q < length pages → page_at bs' b q ≡ get_or pages q unused
  page_low q h =
      page_at-set_self bs b q x inside
      ∙ ap (λ t. get_or t q unused) packs
      ∙ get_or-packed_low pages (n - length pages) q h

  page_high : (q : ℕ) → length pages ≤ q → page_at bs' b q ≡ unused
  page_high q h =
      page_at-set_self bs b q x inside
      ∙ ap (λ t. get_or t q unused) packs
      ∙ get_or-packed_high pages (n - length pages) q h

  pub moved_in : (q : ℕ) → q < length pages → mapped ltp' (get_or pages q unused) ≡ b * n + q
  moved_in q h =
      relocated-in n b q pages 0 ltp distinct All-inside h ∙ ap (λ t. b * n + t) (omega arith)

  pub pages-le : length pages ≤ n
  pages-le = omega (arith, length-used old.ptl, BlockValid.count_used-le old.ptl, full_length)

  compact_backward :
      (d q : ℕ) → page_at bs' d q ≢ unused → mapped ltp' (page_at bs' d q) ≡ d * n + q
  compact_backward d q u = elim (ℕ_discrete b d) [
    | yes same ↦ here same
    | no other ↦ elsewhere other
  ]
    where
      here : b ≡ d → mapped ltp' (page_at bs' d q) ≡ d * n + q
      here same = elim (dec_lt q (length pages)) [
        | yes low ↦ rw (← same, page_low q low) (moved_in q low)
        | no high ↦ absurd (u (rw (← same) (page_high q (omega arith))))
      ]

      elsewhere : b ≢ d → mapped ltp' (page_at bs' d q) ≡ d * n + q
      elsewhere other =
          let stay = page_at-set_ne bs b d q x other in
          let u' : page_at bs d q ≢ unused = λ m. u (stay ∙ m) in
          let home = c.backward d q u' in
          let inside' = page_at-inside bs d q u' in
          let own' = e d inside'.0 in
          let low : q < n = omega (arith, inside'.1, own'.valid.sized, own'.same_size) in
          let out : ¬ In (page_at bs d q) pages = λ h.
            let r = listed (page_at bs d q) h in
            other (
              sym (address-div n b r.0 r.1)
              ∙ ap (λ a. a / n) (sym r.2 ∙ home)
              ∙ address-div n d q low) in
          rw stay (relocated-out n b (page_at bs d q) pages 0 ltp out ∙ home)

  compact_forward :
      (k : ℕ)
      → is_address (mapped ltp' k) ≡ true
      → page_at bs' (mapped ltp' k / n) (mapped ltp' k % n) ≡ k
  compact_forward k a = elim (In? k pages) [
    | inl h ↦
        let r = In-index k pages h in
        let home = ap (mapped ltp') (sym r.2) ∙ moved_in r.0 r.1 in
        let low : r.0 < n = omega (arith, r.1, pages-le) in
        rw (home, address-div n b r.0 low, address-mod n b r.0 low) (page_low r.0 r.1 ∙ r.2)
    | inr out ↦
        let stay = relocated-out n b k pages 0 ltp out in rw stay (elsewhere out (rw stay at a))
  ]
    where
      elsewhere :
          ¬ In k pages
          → is_address (mapped ltp k) ≡ true
          → page_at bs' (mapped ltp k / n) (mapped ltp k % n) ≡ k
      elsewhere out m =
          let home = c.forward k m in
          let k_small : k ≢ unused = omega (arith, mapped-inside n ltp k m, small) in
          let other : b ≢ mapped ltp k / n = λ same.
            let at_b : page_at bs b (mapped ltp k % n) ≡ k =
              ap (λ d. page_at bs d (mapped ltp k % n)) same ∙ home in
            let u : page_at bs b (mapped ltp k % n) ≢ unused = λ m. k_small (sym at_b ∙ m) in
            out (
              subst (λ t. In t pages) at_b
                (In-used old.ptl (mapped ltp k % n) (page_at-inside bs b (mapped ltp k % n) u).1
                  u)) in
          page_at-set_ne bs b (mapped ltp k / n) (mapped ltp k % n) x other ∙ home

  pub compact-Consistent : Consistent n bs' ltp'
  compact-Consistent = record { forward = compact_forward; backward = compact_backward }

  -- A page in another block keeps its address.
  pub compact-stays : (k : ℕ) → mapped ltp k / n ≢ b → mapped ltp' k ≡ mapped ltp k
  compact-stays k h =
      relocated-out n b k pages 0 ltp
        (λ m. let r = listed k m in h (ap (λ a. a / n) r.2 ∙ address-div n b r.0 r.1))

  -- No page is lost, and none is made up.
  pub compact-same : (k : ℕ) → is_address (mapped ltp' k) ≡ is_address (mapped ltp k)
  compact-same k = elim (In? k pages) [
    | inl h ↦ rw (listed_address k h) (arrived h)
    | inr out ↦ ap is_address (relocated-out n b k pages 0 ltp out)
  ]
    where
      arrived : In k pages → is_address (mapped ltp' k) ≡ true
      arrived h =
          let r = In-index k pages h in
          let home = ap (mapped ltp') (sym r.2) ∙ moved_in r.0 r.1 in
          is_address-small (mapped ltp' k) (
            omega
              (arith, home, address-lt n (length bs) b r.0 inside (omega (arith, r.1, pages-le))))
