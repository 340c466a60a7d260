-- ===== src/Sim/Ssd.antt =====
-- The simulated SSD: class SSD of sim/SSD.hpp, its state, its writes and the work on one block.
-- A `Block&` of the source always points into `_blocks` and is an index here, so that two references
-- to one block see the same changes. The ratio `ssdFill` only enters the constructor.
pub mod Fresh
pub mod Pages
pub mod Consistent
pub mod Valid
pub mod Free
pub mod Place
pub mod Write
pub mod Relocate
pub mod Pack
pub mod Compact
pub mod Erase
use ssdiq.Prelude.{
  ltb, ◌^◌, Result, ok, err, Fault, if◌then◌else◌, ℕ, zero, suc, ◌+◌, ◌/◌, ◌%◌, Bool, true, false,
  not, ◌&&◌, ◌||◌, List, [], ◌∷◌, ◌>>=◌, ◌>>◌, ensure, fetch, leb, ◌==◌, add64, mul64, ℤ,
  is_minus_one, suc_int, replicate, get_or, set, length, take,
}
use ssdiq.Sim.Block.{
  Block, unused, incache, new_block, write, set_unused, compact_no_mapping_update, erase, is_erased,
}

pub record Ssd : Type 0 where
  pub capacity_bytes : ℕ
  pub block_size_bytes : ℕ
  pub page_size_bytes : ℕ
  pub block_count : ℕ
  pub pages_per_block : ℕ
  pub logical_pages : ℕ
  pub physical_pages : ℕ
  pub write_buffer_size : ℕ
  pub write_buffer : List ℕ
  pub write_buffer_map : List ℕ
  pub blocks : List Block
  pub ltp_mapping : List ℕ
  pub mapping_updated_cnt : List ℕ
  pub mapping_updated_gc : List ℕ
  pub phys_writes : ℕ
  pub gced_normal_block : ℕ
  pub gced_cold_block : ℕ
  pub erase_age_counter : ℕ

-- `for (unsigned z = 0; z < blockCount; z++) _blocks.emplace_back(Block(pagesPerBlock, z))`.
unfoldable pub new_blocks : ℕ → ℕ → ℕ → List Block
new_blocks zero z pages = []
new_blocks (suc rounds) z pages = new_block pages z ∷ new_blocks rounds (z + 1) pages

-- What the constructor makes of fewer than 2^32 blocks. `fill` multiplies by the ratio `ssdFill` and rounds down; `writeBufferSizePct` is 0.
unfoldable pub fresh_ssd : (ℕ → ℕ) → ℕ → ℕ → ℕ → Ssd
fresh_ssd fill capacity_bytes block_size_bytes page_size_bytes =
    let block_count = capacity_bytes / block_size_bytes in
    let pages_per_block = block_size_bytes / page_size_bytes in
    let logical_pages = fill (capacity_bytes / page_size_bytes) in
    record {
      capacity_bytes = capacity_bytes;
      block_size_bytes = block_size_bytes;
      page_size_bytes = page_size_bytes;
      block_count = block_count;
      pages_per_block = pages_per_block;
      logical_pages = logical_pages;
      physical_pages = mul64 block_count pages_per_block;
      write_buffer_size = 0;
      write_buffer = [];
      write_buffer_map = [];
      blocks = new_blocks block_count 0 pages_per_block;
      ltp_mapping = replicate logical_pages unused;
      mapping_updated_cnt = replicate logical_pages 0;
      mapping_updated_gc = replicate logical_pages 0;
      phys_writes = 0;
      gced_normal_block = 0;
      gced_cold_block = 0;
      erase_age_counter = 0;
    }

-- The constructor. `z` has 32 bits, so that the loop over the blocks does not end for 2^32 of them or more.
unfoldable pub new_ssd : (ℕ → ℕ) → ℕ → ℕ → ℕ → Result Ssd
new_ssd fill capacity_bytes block_size_bytes page_size_bytes =
    if ltb (capacity_bytes / block_size_bytes) (2 ^ 32)
    then ok (fresh_ssd fill capacity_bytes block_size_bytes page_size_bytes)
    else err Fault.out_of_fuel

abbrev pub get_block_id : Ssd → ℕ → ℕ
get_block_id s phys_addr = phys_addr / s.pages_per_block

abbrev pub get_page_pos : Ssd → ℕ → ℕ
get_page_pos s phys_addr = phys_addr % s.pages_per_block

abbrev pub get_phy_addr : Ssd → ℕ → ℕ → ℕ
get_phy_addr s block_id p = add64 (mul64 block_id s.pages_per_block) p

-- `counts[i]++` on a vector with an entry for each logical page.
abbrev pub bump : ℕ → List ℕ → List ℕ
bump i counts = set counts i (add64 (get_or counts i 0) 1)

-- `if (block.group == -1) block.group = group`.
abbrev pub claim_group : ℤ → Block → Block
claim_group group b = record b { group = if is_minus_one b.group then group else b.group }

-- `_blocks.at(z).setUnused(p)` for the block and the position of an address.
unfoldable pub free_page : ℕ → Ssd → Result Ssd
free_page addr s = do
  ensure (ltb (get_block_id s addr) (length s.blocks))
  b ← fetch Fault.out_of_range s.blocks (get_block_id s addr)
  b' ← set_unused (get_page_pos s addr) b
  ok (record s { blocks = set s.blocks (get_block_id s addr) b' })

-- `addr != unused && addr != incache`: the page is updated, not new.
abbrev pub is_address : ℕ → Bool
is_address addr = not (addr == unused) && not (addr == incache)

-- `uint64_t writePos = block.write(logPage)` and the entries that follow it.
unfoldable pub place : ℕ → ℕ → Ssd → Result Ssd
place log_page block s = do
  b ← fetch Fault.undefined_access s.blocks block
  wrote ← write log_page b
  ok (record s {
    blocks = set s.blocks block wrote.1;
    ltp_mapping = set s.ltp_mapping log_page (get_phy_addr s b.block_id wrote.0);
    mapping_updated_cnt = bump log_page s.mapping_updated_cnt;
    phys_writes = add64 s.phys_writes 1;
  })

unfoldable pub write_page_without_caching : ℕ → ℕ → ℤ → Ssd → Result Ssd
write_page_without_caching log_page block group s = do
  b ← fetch Fault.undefined_access s.blocks block
  let claimed = record s { blocks = set s.blocks block (claim_group group b) }
  addr ← fetch Fault.out_of_range claimed.ltp_mapping log_page
  freed ← if is_address addr then free_page addr claimed else ok claimed
  place log_page block freed

unfoldable pub contains : ℕ → List ℕ → Bool
contains a [] = false
contains a (x ∷ xs) = a == x || contains a xs

-- Takes out the one entry that an iterator points at; the entries of the buffer are distinct.
unfoldable pub erase_entry : ℕ → List ℕ → List ℕ
erase_entry a [] = []
erase_entry a (x ∷ xs) = let rest = erase_entry a xs in if a == x then xs else x ∷ rest

-- `list::back`, which has no meaning on an empty list.
unfoldable pub back : List ℕ → Result ℕ
back [] = err Fault.undefined_access
back (x ∷ []) = ok x
back (x ∷ y ∷ xs) = back (y ∷ xs)

unfoldable pub pop_back : List ℕ → List ℕ
pop_back [] = []
pop_back (x ∷ []) = []
pop_back (x ∷ y ∷ xs) = x ∷ pop_back (y ∷ xs)

-- The least recently used page leaves the buffer and is written.
unfoldable pub evict : ℕ → ℤ → Ssd → Result Ssd
evict block group s = do
  lru_page ← back s.write_buffer
  write_page_without_caching lru_page block group (record s {
    write_buffer_map = erase_entry lru_page s.write_buffer_map;
    write_buffer = pop_back s.write_buffer;
  })

-- `writePage` on a page that is not in the buffer.
unfoldable pub buffer_miss : ℕ → ℕ → ℤ → Ssd → Result Ssd
buffer_miss log_page block group s =
    let pushed = record s {
      write_buffer = log_page ∷ s.write_buffer;
      write_buffer_map = log_page ∷ s.write_buffer_map;
    } in
    if leb pushed.write_buffer_size (length pushed.write_buffer)
    then evict block group pushed
    else ok pushed

-- An iterator of `writeBufferMap` is told apart by the page that it points at, so that the map is
-- the list of its keys.
unfoldable pub write_page : ℕ → ℕ → ℤ → Ssd → Result Ssd
write_page log_page block group s =
    if s.write_buffer_size == 0
    then write_page_without_caching log_page block group s
    else (if contains log_page s.write_buffer_map
        then ok (record s { write_buffer = log_page ∷ erase_entry log_page s.write_buffer })
        else buffer_miss log_page block group s)

unfoldable pub set_ltp_mapping_state_cached : ℕ → Ssd → Ssd
set_ltp_mapping_state_cached pid s = record s { ltp_mapping = set s.ltp_mapping pid incache }

unfoldable pub erase_block : ℕ → Ssd → Result Ssd
erase_block block_id s = do
  ensure (ltb block_id (length s.blocks))
  b ← fetch Fault.undefined_access s.blocks block_id
  let (b', age) = erase s.erase_age_counter b
  ensure (is_erased b')
  ok (record s { blocks = set s.blocks block_id b'; erase_age_counter = age })

-- The loop of `compactBlock` over the pages that it moved, from position `p` on.
unfoldable pub relocate : ℕ → List ℕ → ℕ → Ssd → Result Ssd
relocate block_id [] p s = ok s
relocate block_id (log_page ∷ rest) p s = do
  ensure (not (log_page == unused))
  old ← fetch Fault.undefined_access s.ltp_mapping log_page
  relocate block_id rest (p + 1) (record s {
    ltp_mapping = set s.ltp_mapping log_page (get_phy_addr s block_id p);
    mapping_updated_gc = bump log_page s.mapping_updated_gc;
    phys_writes = add64 s.phys_writes 1;
  })

-- `if (block.writtenByGc) gcedColdBlock++ else gcedNormalBlock++`.
abbrev pub count_gced : Bool → Ssd → Ssd
count_gced written_by_gc s = record s {
  gced_cold_block = if written_by_gc then add64 s.gced_cold_block 1 else s.gced_cold_block;
  gced_normal_block = if written_by_gc then s.gced_normal_block else add64 s.gced_normal_block 1;
}

unfoldable pub compact_block : ℕ → Ssd → Result Ssd
compact_block block s = do
  b ← fetch Fault.undefined_access s.blocks block
  let (b', age) = compact_no_mapping_update s.erase_age_counter b
  let moved = record b' { gc_generation = suc_int b'.gc_generation; written_by_gc = true }
  relocate moved.block_id (take moved.write_pos moved.ptl) 0 (
      count_gced b'.written_by_gc
        (record s { blocks = set s.blocks block moved; erase_age_counter = age }))

abbrev pub reset_physical_counters : Ssd → Ssd
reset_physical_counters s = record s { phys_writes = 0 }
