-- ===== src/Sim/Collect/Relabel.antt =====
-- Changes of a block of sim/SSD.hpp that leave its page table alone: labels and statistics.
use ssdiq.Prelude.{ℕ, ◌<◌, ◌≡◌, ◌∙◌, arith, length, set, length-set}
use ssdiq.Sim.Block.{Block}
use ssdiq.Sim.Ssd.{Ssd}
use ssdiq.Sim.Ssd.Pages.{nth_block, page_at-set_same}
use ssdiq.Sim.Ssd.Consistent.{Consistent-ext}
use ssdiq.Sim.Ssd.Valid.{Each-set, IsPlaced, IsValid, sum_valid-set}
use ssdiq.Sim.Ssd.Write.{SameShape}

-- What the page table of a block consists of.
pub record SameTable (x y : Block) : Type 0 where
  pub ptl : x.ptl ≡ y.ptl
  pub write_pos : x.write_pos ≡ y.write_pos
  pub valid_cnt : x.valid_cnt ≡ y.valid_cnt
  pub pages_per_block : x.pages_per_block ≡ y.pages_per_block
  pub block_id : x.block_id ≡ y.block_id

SameTable-IsPlaced : (n b : ℕ) (x y : Block) → SameTable x y → IsPlaced n b y → IsPlaced n b x
SameTable-IsPlaced n b x y t p = record {
  valid = record {
    sized = rw (t.ptl, t.pages_per_block) p.valid.sized;
    word = rw t.pages_per_block p.valid.word;
    within = rw (t.write_pos, t.pages_per_block) p.valid.within;
    counted = rw (t.valid_cnt, t.ptl) p.valid.counted;
    clean = λ i h. rw t.ptl (p.valid.clean i (rw (← t.write_pos) h));
  };
  same_size = t.pages_per_block ∙ p.same_size;
  own_id = t.block_id ∙ p.own_id;
}

-- An SSD stays valid if a block is replaced by one with the same table.
pub relabel-IsValid :
    (b : ℕ) (x : Block) (s s' : Ssd)
    → IsValid s
    → b < s.block_count
    → SameTable x (nth_block s.blocks b)
    → SameShape s s'
    → s'.blocks ≡ set s.blocks b x
    → s'.ltp_mapping ≡ s.ltp_mapping
    → s'.phys_writes ≡ s.phys_writes
    → IsValid s'
relabel-IsValid b x s s' v h t shape eb em ew =
    let inside : b < length s.blocks = omega (arith, v.all_blocks) in
    record {
      paged = rw shape.pages_per_block v.paged;
      all_blocks = rw (eb, length-set s.blocks b x, shape.block_count) v.all_blocks;
      address_space = rw (shape.block_count, shape.pages_per_block) v.address_space;
      all_logical = rw (em, shape.logical_pages) v.all_logical;
      logical_space = rw shape.logical_pages v.logical_space;
      each =
          rw (shape.pages_per_block, eb)
            (Each-set s.pages_per_block b s.blocks x
              (SameTable-IsPlaced s.pages_per_block b x (nth_block s.blocks b) t (v.each b inside))
              v.each);
      consistent =
          rw (shape.pages_per_block, eb, em)
            (Consistent-ext s.pages_per_block s.blocks (set s.blocks b x) s.ltp_mapping
              (λ c q. page_at-set_same s.blocks b c q x inside t.ptl) v.consistent);
      live = rw (eb, em) (omega (arith, sum_valid-set s.blocks b x inside, t.valid_cnt, v.live));
      word = rw ew v.word;
    }
