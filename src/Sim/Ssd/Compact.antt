-- ===== src/Sim/Ssd/Compact.antt =====
-- What SSD::compactBlock of sim/SSD.hpp does on a valid SSD.
use ssdiq.Prelude.{
  ℕ, ◌+◌, ◌-◌, ◌*◌, ◌/◌, ◌%◌, ◌^◌, ◌≤◌, ◌<◌, ◌≡◌, ◌≢◌, refl, ap, ◌∙◌, true, List, [], ◌∷◌, ◌++◌,
  arith, length, set, take, replicate, length-set, get_or-set_self, get_or-set_ne, ok, Fault,
  fetch-in, add64, suc_int,
}
use ssdiq.Sim.Block.{Block, unused, incache}
use ssdiq.Sim.Block.Compact.{
  used, packed, compacted, compacted-IsValid, compacted-valid_cnt, compact_no_mapping_update-eq,
}
use ssdiq.Sim.Ssd.{Ssd, is_address, compact_block, relocate, count_gced}
use ssdiq.Sim.Ssd.Pages.{nth_block, no_block}
use ssdiq.Sim.Ssd.Consistent.{mapped}
use ssdiq.Sim.Ssd.Valid.{Each-set, IsPlaced, IsValid, sum_valid, sum_valid-set, count_mapped}
use ssdiq.Sim.Ssd.Write.{SameShape, head_of}
use ssdiq.Sim.Ssd.Pack.{
  compact-Consistent, compact-stays, compact-same, pages-le, All-inside, All-mapped,
}
use ssdiq.Sim.Ssd.Relocate.{
  relocated, length-relocated, count_mapped-relocated, Relocates, relocate-Relocates,
}

take-append : (xs ys : List ℕ) → take (length xs) (xs ++ ys) ≡ xs
take-append [] ys = refl
take-append (x ∷ xs) ys = ap (λ t. x ∷ t) (take-append xs ys)

-- The block as `compactBlock` leaves it.
abbrev pub moved_block : ℕ → Block → Block
moved_block age b =
    let c = compacted age b in
    record c { gc_generation = suc_int c.gc_generation; written_by_gc = true }

-- What the compaction of block `b` leaves.
pub record Compacts (b : ℕ) (s s' : Ssd) : Type 0 where
  pub shape : SameShape s s'
  pub valid : IsValid s'
  pub head : head_of s' b ≡ (nth_block s.blocks b).valid_cnt
  pub others : (d : ℕ) → b ≢ d → nth_block s'.blocks d ≡ nth_block s.blocks d
  pub block : nth_block s'.blocks b ≡ moved_block s.erase_age_counter (nth_block s.blocks b)
  pub stays :
      (k : ℕ)
      → mapped s.ltp_mapping k / s.pages_per_block ≢ b
      → is_address (mapped s.ltp_mapping k) ≡ true
      → mapped s'.ltp_mapping k ≡ mapped s.ltp_mapping k
  pub same_pages :
      (k : ℕ) → is_address (mapped s'.ltp_mapping k) ≡ is_address (mapped s.ltp_mapping k)
  pub writes : s'.phys_writes ≡ (s.phys_writes + (nth_block s.blocks b).valid_cnt) % 2 ^ 64
  pub cold : s'.gced_cold_block ≡ (s.gced_cold_block + 1) % 2 ^ 64
  pub normal : s'.gced_normal_block ≡ s.gced_normal_block

module _ (b : ℕ) (s : Ssd) (v : IsValid s) (block : b < s.block_count) where
  abbrev n : ℕ
  n = s.pages_per_block

  abbrev old_block : Block
  old_block = nth_block s.blocks b

  abbrev live_pages : List ℕ
  live_pages = used old_block.ptl

  at_block : b < length s.blocks
  at_block = omega (arith, v.all_blocks)

  placed : IsPlaced n b old_block
  placed = v.each b at_block

  address_space : length s.blocks * n ≤ incache
  address_space = rw v.all_blocks v.address_space

  entries : length s.ltp_mapping ≤ incache
  entries = omega (arith, v.all_logical, v.logical_space)

  valid_live : length live_pages ≡ old_block.valid_cnt
  valid_live = compacted-valid_cnt s.erase_age_counter old_block placed.valid

  packs : (moved_block s.erase_age_counter old_block).ptl ≡ packed n old_block.ptl
  packs = ap (λ m. packed m old_block.ptl) placed.same_size

  -- The state in which the second loop starts.
  abbrev compacting : Ssd
  compacting = count_gced true (record s {
    blocks = set s.blocks b (moved_block s.erase_age_counter old_block);
    erase_age_counter = add64 s.erase_age_counter 1;
  })

  compact-steps : compact_block b s ≡ relocate b live_pages 0 compacting
  unfolding compact_block
  compact-steps = rw (
    fetch-in Fault.undefined_access s.blocks b no_block at_block,
    compact_no_mapping_update-eq s.erase_age_counter old_block placed.valid,
    placed.own_id,
    take-append live_pages (replicate (old_block.pages_per_block - length live_pages) unused),
  )

  fits : length live_pages ≤ n
  fits =
      pages-le n b s.blocks s.ltp_mapping (moved_block s.erase_age_counter old_block) at_block
        address_space entries v.each v.consistent packs

  relocation :
      (s' : Ssd) × (relocate b live_pages 0 compacting ≡ ok s')
      × Relocates b live_pages 0 compacting s'
  relocation =
      relocate-Relocates b s.block_count live_pages 0 compacting block v.address_space
        (omega (arith, fits)) entries v.word
        (All-inside n b s.blocks s.ltp_mapping (moved_block s.erase_age_counter old_block) at_block
          address_space entries v.each v.consistent packs)

  abbrev moved : Block
  moved = moved_block s.erase_age_counter old_block

  moved-IsPlaced : IsPlaced n b moved
  moved-IsPlaced =
      let c = compacted-IsValid s.erase_age_counter old_block placed.valid in
      record {
        valid = record {
          sized = c.sized;
          word = c.word;
          within = c.within;
          counted = c.counted;
          clean = c.clean;
        };
        same_size = placed.same_size;
        own_id = placed.own_id;
      }

  abbrev new_map : List ℕ
  new_map = relocated n b live_pages 0 s.ltp_mapping

  still_live : sum_valid (set s.blocks b moved) ≡ count_mapped new_map
  still_live = omega (
    arith,
    sum_valid-set s.blocks b moved at_block,
    valid_live,
    v.live,
    count_mapped-relocated n b live_pages 0 s.ltp_mapping
        (All-inside n b s.blocks s.ltp_mapping moved at_block address_space entries v.each
          v.consistent packs)
        (All-mapped n b s.blocks s.ltp_mapping moved at_block address_space entries v.each
          v.consistent packs)
        address_end,
  )
    where
      address_end : b * n + (0 + length live_pages) ≤ incache
      address_end = grind (arith, fits, v.address_space, block)

  -- The work on the blocks and on the mapping keeps the SSD valid.
  after-IsValid :
      (s' : Ssd)
      → SameShape s s'
      → s'.blocks ≡ set s.blocks b moved
      → s'.ltp_mapping ≡ new_map
      → s'.phys_writes < 2 ^ 64
      → IsValid s'
  after-IsValid s' shape eb em small = record {
    paged = rw shape.pages_per_block v.paged;
    all_blocks = rw (eb, length-set s.blocks b moved, shape.block_count) v.all_blocks;
    address_space = rw (shape.block_count, shape.pages_per_block) v.address_space;
    all_logical =
        rw (em, length-relocated n b live_pages 0 s.ltp_mapping, shape.logical_pages) v.all_logical;
    logical_space = rw shape.logical_pages v.logical_space;
    each = rw (shape.pages_per_block, eb) (Each-set n b s.blocks moved moved-IsPlaced v.each);
    consistent =
        rw (shape.pages_per_block, eb, em)
          (compact-Consistent n b s.blocks s.ltp_mapping moved at_block address_space entries v.each
            v.consistent packs);
    live = rw (eb, em) still_live;
    word = small;
  }

  -- `compactBlock` never throws on a valid SSD. It keeps every page, at the front of its block or, in
  -- any other block, where it was, and counts each page of the block as written once more.
  pub compact_block-Compacts : (s' : Ssd) × (compact_block b s ≡ ok s') × Compacts b s s'
  compact_block-Compacts =
      let r = relocation in
      let shape = shape_of r.0 r.2.shape in
      (
        r.0,
        compact-steps ∙ r.1,
        record {
          shape = shape;
          valid = after-IsValid r.0 shape r.2.blocks r.2.mapping (omega (arith, r.2.writes));
          head =
              ap head_at r.2.blocks
              ∙ ap (λ y. y.write_pos) (get_or-set_self s.blocks b moved no_block at_block)
              ∙ valid_live;
          others = λ d h.
              ap (λ bs. nth_block bs d) r.2.blocks ∙ get_or-set_ne s.blocks b d moved no_block h;
          block =
              ap (λ bs. nth_block bs b) r.2.blocks
              ∙ get_or-set_self s.blocks b moved no_block at_block;
          stays = λ k h a.
              ap (λ m. mapped m k) r.2.mapping
              ∙ compact-stays n b s.blocks s.ltp_mapping moved at_block address_space entries v.each
                  v.consistent packs k h;
          same_pages = λ k.
              ap (λ m. is_address (mapped m k)) r.2.mapping
              ∙ compact-same n b s.blocks s.ltp_mapping moved at_block address_space entries v.each
                  v.consistent packs k;
          writes = omega (arith, r.2.writes, valid_live);
          cold = r.2.cold;
          normal = r.2.normal;
        },
      )
    where
      head_at : List Block → ℕ
      head_at bs = (nth_block bs b).write_pos

      shape_of : (s' : Ssd) → SameShape compacting s' → SameShape s s'
      shape_of s' h = record {
        pages_per_block = h.pages_per_block;
        block_count = h.block_count;
        logical_pages = h.logical_pages;
        write_buffer_size = h.write_buffer_size;
      }
