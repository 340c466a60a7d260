-- ===== src/Sim/Ssd/Fresh.antt =====
-- The SSD that the constructor of SSD in sim/SSD.hpp makes.
use ssdiq.Prelude.{
  ℕ, zero, suc, ◌+◌, ◌*◌, ◌/◌, ◌^◌, ◌≤◌, ◌<◌, ◌≡◌, refl, sym, ap, ◌∙◌, true, false, arith, length,
  get_or, replicate, get_or-replicate, length-replicate, dec_lt, get_or-out, ok, lt→ltb,
}
use ssdiq.Sim.Block.{unused, incache, new_block}
use ssdiq.Sim.Block.Valid.{new_block-IsValid}
use ssdiq.Sim.Ssd.{is_address, new_blocks, fresh_ssd, new_ssd}
use ssdiq.Sim.Ssd.Pages.{nth_block, no_block, page_at}
use ssdiq.Sim.Ssd.Consistent.{mapped}
use ssdiq.Sim.Ssd.Valid.{IsValid, IsPlaced, sum_valid, count_mapped}

length-new_blocks : (r z n : ℕ) → length (new_blocks r z n) ≡ r
unfolding new_blocks
length-new_blocks zero z n = refl
length-new_blocks (suc r) z n = ap suc (length-new_blocks r (z + 1) n)

nth-new_blocks : (r z n j : ℕ) → j < r → nth_block (new_blocks r z n) j ≡ new_block n (z + j)
unfolding new_blocks
nth-new_blocks zero z n j h = absurd (omega arith)
nth-new_blocks (suc r) z n zero h = ap (new_block n) (omega arith)
nth-new_blocks (suc r) z n (suc j) h =
    nth-new_blocks r (z + 1) n j (omega arith) ∙ ap (new_block n) (omega arith)

new_ptl : (n z p : ℕ) → get_or (new_block n z).ptl p unused ≡ unused
unfolding new_block
new_ptl n z p = get_or-replicate n p unused

fresh_pages : (r z n b p : ℕ) → page_at (new_blocks r z n) b p ≡ unused
fresh_pages r z n b p = elim (dec_lt b r) [
  | yes h ↦ ap (λ y. get_or y.ptl p unused) (nth-new_blocks r z n b h) ∙ new_ptl n (z + b) p
  | no h ↦
      ap (λ y. get_or y.ptl p unused)
        (get_or-out (new_blocks r z n) b no_block (omega (arith, length-new_blocks r z n)))
]

fresh_total : (r z n : ℕ) → sum_valid (new_blocks r z n) ≡ 0
unfolding sum_valid new_blocks new_block
fresh_total zero z n = refl
fresh_total (suc r) z n = omega (arith, fresh_total r (z + 1) n)

fresh_mapped : (n : ℕ) → count_mapped (replicate n unused) ≡ 0
unfolding count_mapped
fresh_mapped zero = refl
fresh_mapped (suc n) = omega (arith, fresh_mapped n)

new_block-IsPlaced : (n b : ℕ) → n < 2 ^ 64 → IsPlaced n b (new_block n b)
new_block-IsPlaced n b h = record {
  valid = new_block-IsValid n b h;
  same_size = unfold new_block in refl;
  own_id = unfold new_block in refl;
}

-- Blocks that hold a page at least, addresses below the two sentinels, and no more blocks than the
-- constructor can count.
pub record Fits (fill : ℕ → ℕ) (capacity_bytes block_size_bytes page_size_bytes : ℕ) : Type 0 where
  pub paged : 0 < block_size_bytes / page_size_bytes
  pub physical :
      (capacity_bytes / block_size_bytes) * (block_size_bytes / page_size_bytes) ≤ incache
  pub logical : fill (capacity_bytes / page_size_bytes) ≤ incache
  pub counted : capacity_bytes / block_size_bytes < 2 ^ 32

-- The constructor makes a valid SSD on which no page is mapped.
pub fresh_ssd-IsValid :
    (fill : ℕ → ℕ) (capacity_bytes block_size_bytes page_size_bytes : ℕ)
    → Fits fill capacity_bytes block_size_bytes page_size_bytes
    → IsValid (fresh_ssd fill capacity_bytes block_size_bytes page_size_bytes)
      × ((k : ℕ)
          → is_address (
              mapped (fresh_ssd fill capacity_bytes block_size_bytes page_size_bytes).ltp_mapping k)
            ≡ false)
unfolding fresh_ssd
fresh_ssd-IsValid fill c s p f = (
  record {
    paged = f.paged;
    all_blocks = length-new_blocks (c / s) 0 (s / p);
    address_space = f.physical;
    all_logical = length-replicate (fill (c / p)) unused;
    logical_space = f.logical;
    each = λ b h. subst-placed b (omega (arith, h, length-new_blocks (c / s) 0 (s / p)));
    consistent = record {
      forward = λ l a. absurd (no_address l a);
      backward = λ b q u. absurd (u (fresh_pages (c / s) 0 (s / p) b q));
    };
    live = fresh_total (c / s) 0 (s / p) ∙ sym (fresh_mapped (fill (c / p)));
    word = omega arith;
  },
  λ k. rw (get_or-replicate (fill (c / p)) k unused),
)
  where
    no_address : (l : ℕ) → is_address (mapped (replicate (fill (c / p)) unused) l) ≡ true → ⊥
    no_address l a =
        let e : is_address unused ≡ true =
          ap is_address (sym (get_or-replicate (fill (c / p)) l unused)) ∙ a in
        cc

    in_word : (b : ℕ) → b < c / s → s / p < 2 ^ 64
    in_word b h = omega (arith, le-mul (c / s) (s / p) (omega arith), f.physical)
      where
        le-mul : (m n : ℕ) → 0 < m → n ≤ m * n
        le-mul m n h = grind arith

    subst-placed :
        (b : ℕ) → b < c / s → IsPlaced (s / p) b (nth_block (new_blocks (c / s) 0 (s / p)) b)
    subst-placed b h =
        rw (nth-new_blocks (c / s) 0 (s / p) b h)
          (let e : 0 + b ≡ b = omega arith in rw e (new_block-IsPlaced (s / p) b (in_word b h)))

pub fresh_ssd-empty :
    (fill : ℕ → ℕ) (c s p b : ℕ)
    → b < (fresh_ssd fill c s p).block_count
    → (nth_block (fresh_ssd fill c s p).blocks b).write_pos ≡ 0
unfolding fresh_ssd
fresh_ssd-empty fill c s p b h =
    ap (λ y. y.write_pos) (nth-new_blocks (c / s) 0 (s / p) b h) ∙ (unfold new_block in refl)

pub new_ssd-ok :
    (fill : ℕ → ℕ) (c s p : ℕ) → Fits fill c s p → new_ssd fill c s p ≡ ok (fresh_ssd fill c s p)
unfolding new_ssd
new_ssd-ok fill c s p f = rw (lt→ltb (c / s) (2 ^ 32) f.counted) refl
