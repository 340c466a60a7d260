-- ===== src/Sim/Ssd/Valid.antt =====
-- The invariant of the simulated SSD of sim/SSD.hpp.
use ssdiq.Prelude.{
  ℕ, zero, suc, ◌+◌, ◌*◌, ◌^◌, ◌≤◌, ◌<◌, ◌≡◌, List, [], ◌∷◌, arith, length, set, length-set,
  get_or-set_self, get_or-set_ne, ℕ_discrete, if◌then◌else◌, subst,
}
use ssdiq.Sim.Block.{Block, incache}
use ssdiq.Sim.Block.Valid as BlockValid
use ssdiq.Sim.Ssd.{Ssd, is_address}
use ssdiq.Sim.Ssd.Pages.{nth_block, no_block}
use ssdiq.Sim.Ssd.Consistent.{Consistent, mapped}

-- A block at its place in the vector.
pub record IsPlaced (n b : ℕ) (x : Block) : Type 0 where
  pub valid : BlockValid.IsValid x
  pub same_size : x.pages_per_block ≡ n
  pub own_id : x.block_id ≡ b

abbrev pub Each : ℕ → List Block → Type 0
Each n bs = (b : ℕ) → b < length bs → IsPlaced n b (nth_block bs b)

-- The valid pages of all blocks.
unfoldable pub sum_valid : List Block → ℕ
sum_valid [] = 0
sum_valid (b ∷ bs) = b.valid_cnt + sum_valid bs

abbrev pub mapped_bit : ℕ → ℕ
mapped_bit a = if is_address a then 1 else 0

-- The logical pages that have a physical page.
unfoldable pub count_mapped : List ℕ → ℕ
count_mapped [] = 0
count_mapped (a ∷ ltp) = mapped_bit a + count_mapped ltp

pub record IsValid (s : Ssd) : Type 0 where
  pub paged : 0 < s.pages_per_block
  pub all_blocks : length s.blocks ≡ s.block_count
  pub address_space : s.block_count * s.pages_per_block ≤ incache
  pub all_logical : length s.ltp_mapping ≡ s.logical_pages
  pub logical_space : s.logical_pages ≤ incache
  pub each : Each s.pages_per_block s.blocks
  pub consistent : Consistent s.pages_per_block s.blocks s.ltp_mapping
  pub live : sum_valid s.blocks ≡ count_mapped s.ltp_mapping
  pub word : s.phys_writes < 2 ^ 64

pub Each-set :
    (n b : ℕ) (bs : List Block) (x : Block) → IsPlaced n b x → Each n bs → Each n (set bs b x)
Each-set n b bs x px e c h = elim (ℕ_discrete b c) [
  | yes same ↦
      subst (λ d. IsPlaced n d (nth_block (set bs b x) d)) same
        (rw (get_or-set_self bs b x no_block (omega (arith, length-set bs b x))) px)
  | no other ↦ rw (get_or-set_ne bs b c x no_block other) (e c (omega (arith, length-set bs b x)))
]

pub sum_valid-set :
    (bs : List Block) (b : ℕ) (x : Block)
    → b < length bs
    → sum_valid (set bs b x) + (nth_block bs b).valid_cnt ≡ sum_valid bs + x.valid_cnt
unfolding sum_valid
sum_valid-set [] b x h = absurd (omega arith)
sum_valid-set (y ∷ bs) zero x h = omega arith
sum_valid-set (y ∷ bs) (suc b) x h = omega (arith, sum_valid-set bs b x (omega arith))

pub count_mapped-set :
    (ltp : List ℕ) (i a : ℕ)
    → i < length ltp
    → count_mapped (set ltp i a) + mapped_bit (mapped ltp i) ≡ count_mapped ltp + mapped_bit a
unfolding count_mapped
count_mapped-set [] i a h = absurd (omega arith)
count_mapped-set (x ∷ ltp) zero a h = omega arith
count_mapped-set (x ∷ ltp) (suc i) a h = omega (arith, count_mapped-set ltp i a (omega arith))

pub count_mapped-le : (ltp : List ℕ) → count_mapped ltp ≤ length ltp
unfolding count_mapped
count_mapped-le [] = omega arith
count_mapped-le (a ∷ ltp) = ground (arith, count_mapped-le ltp)
