-- ===== src/Sim/Ssd/Pages.antt =====
-- The physical pages of the simulated SSD: `_blocks[b].ptl()[p]` of sim/SSD.hpp for every b and p.
use native.Mathlib.Nat.{mul-add-div_right, mod-eq_of_lt, mul-add-mod_self_right, div-eq_of_lt}
use ssdiq.Prelude.{
  ℕ, ◌+◌, ◌*◌, ◌/◌, ◌%◌, ◌<◌, ◌≡◌, ◌≢◌, sym, ap, ◌∙◌, false, List, [], arith, length, get_or, set,
  get_or-set_self, get_or-set_ne, get_or-out, ℕ_discrete, dec_lt, minus_one, pos,
}
use ssdiq.Sim.Block.{Block, unused}

-- What is read outside the vector of blocks.
abbrev pub no_block : Block
no_block = record {
  write_pos = 0;
  valid_cnt = 0;
  erase_count = 0;
  ptl = [];
  pages_per_block = 0;
  block_id = 0;
  gc_age = minus_one;
  gc_generation = pos 0;
  group = minus_one;
  written_by_gc = false;
}

abbrev pub nth_block : List Block → ℕ → Block
nth_block bs b = get_or bs b no_block

abbrev pub page_at : List Block → ℕ → ℕ → ℕ
page_at bs b p = get_or (nth_block bs b).ptl p unused

pub page_at-set_self :
    (bs : List Block) (b p : ℕ) (x : Block)
    → b < length bs
    → page_at (set bs b x) b p ≡ get_or x.ptl p unused
page_at-set_self bs b p x h = ap (λ y. get_or y.ptl p unused) (get_or-set_self bs b x no_block h)

pub page_at-set_ne :
    (bs : List Block) (b c p : ℕ) (x : Block) → b ≢ c → page_at (set bs b x) c p ≡ page_at bs c p
page_at-set_ne bs b c p x h = ap (λ y. get_or y.ptl p unused) (get_or-set_ne bs b c x no_block h)

-- A field that the new block shares with the old one is the same in every block.
pub field-set_same {ℓ} :
    {B : Type ℓ} (f : Block → B) (bs : List Block) (b c : ℕ) (x : Block)
    → b < length bs
    → f x ≡ f (nth_block bs b)
    → f (nth_block (set bs b x) c) ≡ f (nth_block bs c)
field-set_same f bs b c x h e = elim (ℕ_discrete b c) [
  | yes same ↦
      ap (λ d. f (nth_block (set bs b x) d)) (sym same)
      ∙ ap f (get_or-set_self bs b x no_block h)
      ∙ e
      ∙ ap (λ d. f (nth_block bs d)) same
  | no other ↦ ap f (get_or-set_ne bs b c x no_block other)
]

-- So a block may be replaced by one with the same page table.
pub page_at-set_same :
    (bs : List Block) (b c p : ℕ) (x : Block)
    → b < length bs
    → x.ptl ≡ (nth_block bs b).ptl
    → page_at (set bs b x) c p ≡ page_at bs c p
page_at-set_same bs b c p x h e =
    ap (λ t. get_or t p unused) (field-set_same (λ y. y.ptl) bs b c x h e)

-- Only a page of a block can be in use.
pub page_at-inside :
    (bs : List Block) (b p : ℕ)
    → page_at bs b p ≢ unused
    → (b < length bs) × (p < length (nth_block bs b).ptl)
page_at-inside bs b p u = (inside, below)
  where
    inside : b < length bs
    inside = elim (dec_lt b (length bs)) [
      | yes h ↦ h
      | no h ↦ absurd (u (ap (λ y. get_or y.ptl p unused) (get_or-out bs b no_block (omega arith))))
    ]

    below : p < length (nth_block bs b).ptl
    below = elim (dec_lt p (length (nth_block bs b).ptl)) [
      | yes h ↦ h
      | no h ↦ absurd (u (get_or-out (nth_block bs b).ptl p unused (omega arith)))
    ]

-- An address is taken apart into the block and the position that it was made of.
pub address-div : (n b p : ℕ) → p < n → (b * n + p) / n ≡ b
address-div n b p h = mul-add-div_right (omega arith) b p ∙ omega (arith, div-eq_of_lt h)

pub address-mod : (n b p : ℕ) → p < n → (b * n + p) % n ≡ p
address-mod n b p h = mul-add-mod_self_right b n p ∙ mod-eq_of_lt h

pub address-lt : (n c b p : ℕ) → b < c → p < n → b * n + p < c * n
address-lt n c b p h k = grind arith
