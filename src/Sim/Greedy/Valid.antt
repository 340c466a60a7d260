-- ===== src/Sim/Greedy/Valid.antt =====
-- The invariant of GreedyGC of sim/Greedy.hpp: which blocks are free, and that all others are full.
use ssdiq.Prelude.{
  ℕ, suc, ◌+◌, ◌*◌, ◌≤◌, ◌<◌, ◌≡◌, ◌∙◌, false, List, [], ◌∷◌, arith, length, In, Distinct, All,
  ==-refl, ==→eq,
}
use ssdiq.Sim.Block.{Block}
use ssdiq.Sim.Ssd.{Ssd}
use ssdiq.Sim.Ssd.Pages.{nth_block}
use ssdiq.Sim.Ssd.Valid as SsdValid
use ssdiq.Sim.Ssd.Valid.{sum_valid, count_mapped-le}
use ssdiq.Sim.Ssd.Write.{head_of}
use ssdiq.Sim.Greedy.{Greedy}
use ssdiq.Sim.Greedy.Select.{IsFull}

pub record IsValid (g : Greedy) : Type 0 where
  pub ssd : SsdValid.IsValid g.ssd
  pub unbuffered : g.ssd.write_buffer_size ≡ 0
  pub current : g.current_block < g.ssd.block_count
  pub free_inside : All (λ b. b < g.ssd.block_count) g.free_blocks
  pub free_room : All (λ b. head_of g.ssd b < g.ssd.pages_per_block) g.free_blocks
  pub distinct : Distinct (g.current_block ∷ g.free_blocks)
  pub rest_full :
      (b : ℕ)
      → b < g.ssd.block_count
      → ¬ In b (g.current_block ∷ g.free_blocks)
      → head_of g.ssd b ≡ g.ssd.pages_per_block

-- The plain greedy policy on an SSD with at least one page more than are addressed.
pub record IsGreedy (g : Greedy) : Type 0 where
  pub valid : IsValid g
  pub plain : g.simple_two_r ≡ false
  pub all_blocks : g.k ≡ 0
  pub spare : g.ssd.logical_pages < g.ssd.block_count * g.ssd.pages_per_block

-- Where every block has as many valid pages as fit, the sum says so.
pub sum_valid-ge :
    (n : ℕ) (bs : List Block)
    → ((j : ℕ) → j < length bs → n ≤ (nth_block bs j).valid_cnt)
    → length bs * n ≤ sum_valid bs
unfolding sum_valid
sum_valid-ge n [] h = omega arith
sum_valid-ge n (b ∷ bs) h =
    let rest = sum_valid-ge n bs (λ j hj. h (suc j) (omega arith)) in
    let first : n ≤ b.valid_cnt = h 0 (omega arith) in
    let split : suc (length bs) * n ≡ n + length bs * n = grind arith in
    omega (arith, rest, first, split)

-- `fullyWritten` of a placed block.
pub IsFull-head :
    (s : Ssd) (b : ℕ)
    → SsdValid.IsValid s
    → b < s.block_count
    → head_of s b ≡ s.pages_per_block
    → IsFull s b
IsFull-head s b v h e =
    let own = v.each b (omega (arith, v.all_blocks)) in
    rw (e, own.same_size) (==-refl s.pages_per_block)

pub head-full :
    (s : Ssd) (b : ℕ)
    → SsdValid.IsValid s
    → b < s.block_count
    → IsFull s b
    → head_of s b ≡ s.pages_per_block
head-full s b v h f =
    let own = v.each b (omega (arith, v.all_blocks)) in ==→eq _ _ f ∙ own.same_size
