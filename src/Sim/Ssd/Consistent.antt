-- ===== src/Sim/Ssd/Consistent.antt =====
-- The mapping of logical to physical pages and the page tables of sim/SSD.hpp agree both ways.
use ssdiq.Prelude.{
  ℕ, ◌+◌, ◌*◌, ◌/◌, ◌%◌, ◌≤◌, ◌<◌, ◌≡◌, ◌≢◌, sym, ◌∙◌, ◌⊎◌, inl, inr, true, List, arith, length,
  get_or, set, get_or-set_self, get_or-set_ne, get_or-out, ℕ_discrete, dec_lt,
}
use ssdiq.Sim.Block.{Block, unused, incache}
use ssdiq.Sim.Ssd.{is_address}
use ssdiq.Sim.Ssd.Pages.{page_at, address-div, address-mod}

-- `_ltpMapping[l]`.
abbrev pub mapped : List ℕ → ℕ → ℕ
mapped ltp l = get_or ltp l unused

pub is_address-unused : (a : ℕ) → is_address a ≡ true → a ≢ unused
is_address-unused a h = ground arith

pub is_address-small : (a : ℕ) → a < incache → is_address a ≡ true
is_address-small a h = ground arith

module _ (n : ℕ) where
  -- An entry of the mapping leads to a physical page that holds the logical page, and a physical page
  -- that holds a logical page is the one that the mapping names.
  pub record Consistent (bs : List Block) (ltp : List ℕ) : Type 0 where
    pub forward :
        (l : ℕ)
        → is_address (mapped ltp l) ≡ true
        → page_at bs (mapped ltp l / n) (mapped ltp l % n) ≡ l
    pub backward : (b p : ℕ) → page_at bs b p ≢ unused → mapped ltp (page_at bs b p) ≡ b * n + p

  pub Consistent-ext :
      (bs bs' : List Block) (ltp : List ℕ)
      → ((b p : ℕ) → page_at bs' b p ≡ page_at bs b p)
      → Consistent bs ltp
      → Consistent bs' ltp
  Consistent-ext bs bs' ltp e c = record {
    forward = λ l h. e _ _ ∙ c.forward l h;
    backward = λ b p u. rw (e b p) (c.backward b p (λ k. u (e b p ∙ k)));
  }

  -- A mapped logical page has an entry.
  pub mapped-inside : (ltp : List ℕ) (l : ℕ) → is_address (mapped ltp l) ≡ true → l < length ltp
  mapped-inside ltp l h = elim (dec_lt l (length ltp)) [
    | yes k ↦ k
    | no k ↦ absurd (is_address-unused _ h (get_or-out ltp l unused (omega arith)))
  ]

  -- How the page tables differ after a logical page has moved to position `p` of block `b`.
  pub record Moves (l b p : ℕ) (bs bs' : List Block) : Type 0 where
    pub arrived : page_at bs' b p ≡ l
    pub others :
        (c q : ℕ)
        → ((c ≡ b) × (q ≡ p))
          ⊎ (page_at bs' c q ≡ unused)
          ⊎ ((page_at bs' c q ≡ page_at bs c q) × (page_at bs c q ≢ l))
    pub stays :
        (c q : ℕ) → page_at bs c q ≢ unused → page_at bs c q ≢ l → page_at bs' c q ≡ page_at bs c q

  module _ (bs bs' : List Block) (ltp : List ℕ) (l b p : ℕ) (small : length ltp ≤ unused)
      (inside : l < length ltp) (pos : p < n) (c : Consistent bs ltp) (m : Moves l b p bs bs') where
    ltp' : List ℕ
    ltp' = set ltp l (b * n + p)

    moved_to : mapped ltp' l ≡ b * n + p
    unfolding ltp'
    moved_to = get_or-set_self ltp l (b * n + p) unused inside

    not_moved : (k : ℕ) → l ≢ k → mapped ltp' k ≡ mapped ltp k
    unfolding ltp'
    not_moved k h = get_or-set_ne ltp l k (b * n + p) unused h

    moves_forward :
        (k : ℕ)
        → is_address (mapped ltp' k) ≡ true
        → page_at bs' (mapped ltp' k / n) (mapped ltp' k % n) ≡ k
    moves_forward k h = elim (ℕ_discrete l k) [
      | yes e ↦ rw (← e, moved_to, address-div n b p pos, address-mod n b p pos) m.arrived
      | no ne ↦ stayed ne (rw (not_moved k ne) at h)
    ]
      where
        stayed :
            l ≢ k
            → is_address (mapped ltp k) ≡ true
            → page_at bs' (mapped ltp' k / n) (mapped ltp' k % n) ≡ k
        stayed ne a = rw (not_moved k ne) (
            let e = c.forward k a in
            m.stays _ _ (rw e (λ u. absurd (omega (arith, mapped-inside ltp k a))))
              (rw e (λ u. ne (sym u)))
            ∙ e)

    moves_backward :
        (d q : ℕ) → page_at bs' d q ≢ unused → mapped ltp' (page_at bs' d q) ≡ d * n + q
    moves_backward d q u = elim (m.others d q) [
      | inl here ↦ rw (here.0, here.1, m.arrived) moved_to
      | inr (inl gone) ↦ absurd (u gone)
      | inr (inr kept) ↦
          rw kept.0 (not_moved _ (λ e. kept.1 (sym e)) ∙ c.backward d q (λ e. u (kept.0 ∙ e)))
    ]

    -- The mapping follows the page.
    pub Moves-Consistent : Consistent bs' (set ltp l (b * n + p))
    unfolding ltp'
    Moves-Consistent = record { forward = moves_forward; backward = moves_backward }
